-- ===== src/Xds/Stores.antt =====
-- The stores stay well formed under the updates of the control plane.
use ztunnel.Common.{
  ◌≡◌, refl, sym, subst, inl, inr, Bool, true, false, List, [], ◌∷◌, Option, none, some, String,
  arith, Bool-cases, string_eq,
}
use ztunnel.Common.Map.{Map}
use ztunnel.Common.Outcome.{Result, ok, err, Result-cases}
use ztunnel.Net.{NamespacedHostname}
use ztunnel.Workload.{Workload}
use ztunnel.Workload.Index as Workloads
use ztunnel.Workload.Index.{was_last_identity_on_node, find_uid}
use ztunnel.Workload.Index.Address.{IsIndexed, new-IsIndexed, insert-IsIndexed, remove-IsIndexed}
use ztunnel.Workload.Index.Identities.{
  IsLocalIndexed, new-IsLocalIndexed, insert-IsLocalIndexed, remove-IsLocalIndexed,
}
use ztunnel.Workload.Convert.{WorkloadError, XdsWorkload, XdsPort, workload_of, host_from_str}
use ztunnel.Service.Index as Services
use ztunnel.Service.Index.{ServiceStore, get_by_namespaced_host}
use ztunnel.Service.{namespaced_hostname}
use ztunnel.Service.Index.Hosts.{
  IsKeyed, new-IsKeyed, apply-IsKeyed, inserts, removes, inserts_endpoint, removes_endpoint,
}
use ztunnel.Service.Convert.{XdsService, service_of}
use ztunnel.Policy.Store as Policies
use ztunnel.Policy.Store.{
  IsValidStore, new-IsValidStore, update-IsValidStore, remove-IsValidStore, send-IsValidStore, send,
}
use ztunnel.Policy.Convert.{XdsTrafficPolicy}
use ztunnel.Sandbox as Sandboxes
use ztunnel.Sandbox.{XdsSandbox}
use ztunnel.Sandbox.Binding.{
  IsConsistent, new-IsConsistent, update-IsConsistent, remove-IsConsistent,
}
use ztunnel.State.{ProxyState}
use ztunnel.Xds.{
  Updating, XdsError, ConvertApi, XdsAddress, workload_type, service_type, unset_type,
  insert_workload, insert_address, insert_service, remove_internal, remove_service, settle_removal,
  taken, clear_last, send_policies, store_workload, insert_service_endpoints, endpoint_of,
  has_slash, keep_endpoints, endpoints_of, refs_changed, finish_insert, inserted, cleaned,
}
use ztunnel.Xds.Batches.{
  XdsUpdate, update, removal, handle_all, handle_workload, handle_address, handle_sandbox,
  handle_policy, noting, with_sandboxes, with_policies, notify, Batch, workloads, addresses,
  sandboxes, policies, handle, handle_batches, RejectedConfig, outcome,
}

-- The indexes of the Workloads agree with the Workloads, a hostname has one Service for each namespace,
-- every stored policy is valid, and the bindings agree with the Sandboxes.
pub record IsSound (s : ProxyState) : Type 0 where
  pub indexed : IsIndexed s.workloads
  pub local_indexed : IsLocalIndexed s.workloads
  pub keyed : IsKeyed s.services
  pub valid : IsValidStore s.policies
  pub consistent : IsConsistent s.sandboxes

taken-IsSound :
    (left : Workloads.WorkloadStore) (prev : Workload) (u : Updating)
    → IsSound u.state
    → IsIndexed left
    → IsLocalIndexed left
    → IsSound (taken prev left u).state
taken-IsSound left prev u h a l = record {
  indexed = a;
  local_indexed = l;
  keyed = apply-IsKeyed (removes_endpoint prev) u.state.services h.keyed;
  valid = h.valid;
  consistent = h.consistent;
}

send_policies-IsSound : (u : Updating) → IsSound u.state → IsSound (send_policies u).state
send_policies-IsSound u h = record {
  indexed = h.indexed;
  local_indexed = h.local_indexed;
  keyed = h.keyed;
  valid = send-IsValidStore u.state.policies h.valid;
  consistent = h.consistent;
}

clear_last-state : (prev : Workload) (u : Updating) → (clear_last prev u).state ≡ u.state
clear_last-state prev u = ground arith

remove_service-IsSound :
    (key : Result WorkloadError NamespacedHostname) (u : Updating)
    → IsSound u.state
    → IsSound (remove_service key u).state
remove_service-IsSound (err e) u h = h
remove_service-IsSound (ok host) u h = elim (Bool-cases (has_slash host.hostname)) [
  | inl s ↦ rw s h
  | inr s ↦ rw s (record {
    indexed = h.indexed;
    local_indexed = h.local_indexed;
    keyed = apply-IsKeyed (removes host) u.state.services h.keyed;
    valid = h.valid;
    consistent = h.consistent;
  })
]

settle_removal-IsSound :
    (name : String) (b : Bool) (r : Workloads.WorkloadStore × Option Workload) (u : Updating)
    → IsSound u.state
    → IsIndexed r.0
    → IsLocalIndexed r.0
    → IsSound (settle_removal name b r u).state
settle_removal-IsSound name true (left, some prev) u h a l = taken-IsSound left prev u h a l
settle_removal-IsSound name false (left, some prev) u h a l =
    send_policies-IsSound (clear_last prev (taken prev left u)) (
      subst IsSound (sym (clear_last-state prev (taken prev left u)))
        (taken-IsSound left prev u h a l))
settle_removal-IsSound name true (left, none) u h a l = h
settle_removal-IsSound name false (left, none) u h a l =
    remove_service-IsSound (host_from_str name) u h

remove_internal-IsSound :
    (name : String) (b : Bool) (u : Updating)
    → IsSound u.state
    → IsSound (remove_internal name b u).state
unfolding remove_internal
remove_internal-IsSound name b u h =
    settle_removal-IsSound name b (Workloads.remove name u.state.workloads) u h
      (remove-IsIndexed name u.state.workloads h.indexed)
      (remove-IsLocalIndexed name u.state.workloads h.local_indexed)

insert_service_endpoints-IsKeyed :
    (w : Workload) (services : Map String (List XdsPort)) (s : ServiceStore)
    → IsKeyed s
    → IsKeyed (insert_service_endpoints w services s).0
unfolding insert_service_endpoints
insert_service_endpoints-IsKeyed w [] s h = h
insert_service_endpoints-IsKeyed w ((key, ports) ∷ rest) s h =
    elim (Result-cases (host_from_str key)) [
      | inr (e, q) ↦ rw (insert_service_endpoints, q) h
      | inl (host, q) ↦
          rw (insert_service_endpoints, q)
            (insert_service_endpoints-IsKeyed w rest _
              (apply-IsKeyed (inserts_endpoint host (endpoint_of w ports)) s h))
    ]

finish_insert-IsSound :
    (b : Bool) (u : Updating) (r : Result WorkloadError (Unit {0}))
    → IsSound u.state
    → IsSound (finish_insert b u r).0.state
finish_insert-IsSound b u (err e) h = h
finish_insert-IsSound true u (ok x) h = send_policies-IsSound u h
finish_insert-IsSound false u (ok x) h = h

inserted-IsSound :
    (w : Workload) (services : Map String (List XdsPort)) (u : Updating)
    → IsSound u.state
    → IsSound (inserted w services u).state
inserted-IsSound w services u h = record {
  indexed = insert-IsIndexed w u.state.workloads h.indexed;
  local_indexed = insert-IsLocalIndexed w u.state.workloads h.local_indexed;
  keyed = insert_service_endpoints-IsKeyed w services u.state.services h.keyed;
  valid = h.valid;
  consistent = h.consistent;
}

insert_workload-IsSound :
    (api : ConvertApi) (w : XdsWorkload) (u : Updating)
    → IsSound u.state
    → IsSound (insert_workload api w u).0.state
unfolding insert_workload store_workload
insert_workload-IsSound api w u h =
    elim (Result-cases (workload_of api.extensions api.decode_reference w)) [
      | inr (e, q) ↦ rw (insert_workload, q) h
      | inl ((v, services), q) ↦
          rw (insert_workload, q)
            (finish_insert-IsSound (refs_changed (find_uid v.uid u.state.workloads) v) _ _
              (inserted-IsSound v services (cleaned v u) (remove_internal-IsSound v.uid true u h)))
    ]

insert_service-IsSound :
    (x : XdsService) (u : Updating) → IsSound u.state → IsSound (insert_service x u).0.state
unfolding insert_service
insert_service-IsSound x u h = elim (Result-cases (service_of x)) [
  | inr (e, q) ↦ rw (insert_service, q) h
  | inl (svc, q) ↦
      let prev = get_by_namespaced_host (namespaced_hostname svc) u.state.services in
      rw (insert_service, q)
        (record {
          indexed = h.indexed;
          local_indexed = h.local_indexed;
          keyed =
              apply-IsKeyed (inserts (keep_endpoints (endpoints_of prev) svc)) u.state.services
                h.keyed;
          valid = h.valid;
          consistent = h.consistent;
        })
]

handle_workload-IsSound :
    (api : ConvertApi) (x : XdsUpdate XdsWorkload) (u : Updating)
    → IsSound u.state
    → IsSound (handle_workload api x u).0.state
unfolding handle_workload
handle_workload-IsSound api (update name w) u h = insert_workload-IsSound api w u h
handle_workload-IsSound api (removal name) u h = remove_internal-IsSound name false u h

handle_address-IsSound :
    (api : ConvertApi) (x : XdsUpdate XdsAddress) (u : Updating)
    → IsSound u.state
    → IsSound (handle_address api x u).0.state
unfolding handle_address insert_address
handle_address-IsSound api (update name (workload_type w)) u h = insert_workload-IsSound api w u h
handle_address-IsSound api (update name (service_type s)) u h = insert_service-IsSound s u h
handle_address-IsSound api (update name unset_type) u h = h
handle_address-IsSound api (removal name) u h = remove_internal-IsSound name false u h

noting-state :
    (changed : Bool) (u : Updating) (r : Result XdsError Bool) → (noting changed u r).0.0 ≡ u
noting-state changed u (ok c) = refl
noting-state changed u (err e) = refl

with_sandboxes-IsSound :
    (s : Sandboxes.SandboxStore) (u : Updating)
    → IsConsistent s
    → IsSound u.state
    → IsSound (with_sandboxes s u).state
with_sandboxes-IsSound s u c h = record {
  indexed = h.indexed;
  local_indexed = h.local_indexed;
  keyed = h.keyed;
  valid = h.valid;
  consistent = c;
}

with_policies-IsSound :
    (s : Policies.TrafficPolicyStore) (u : Updating)
    → IsValidStore s
    → IsSound u.state
    → IsSound (with_policies s u).state
with_policies-IsSound s u v h = record {
  indexed = h.indexed;
  local_indexed = h.local_indexed;
  keyed = h.keyed;
  valid = v;
  consistent = h.consistent;
}

handle_sandbox-IsSound :
    (api : ConvertApi) (x : XdsUpdate XdsSandbox) (u : Updating × Bool)
    → IsSound u.0.state
    → IsSound (handle_sandbox api x u).0.0.state
unfolding handle_sandbox
handle_sandbox-IsSound api (update name x) (u, changed) h =
    subst (λ v. IsSound v.state) (sym (noting-state changed _ _))
      (with_sandboxes-IsSound _ u
        (update-IsConsistent api.nets (record { name = name; resource = x }) u.state.sandboxes
          h.consistent)
        h)
handle_sandbox-IsSound api (removal name) (u, changed) h =
    with_sandboxes-IsSound _ u (remove-IsConsistent name u.state.sandboxes h.consistent) h

handle_policy-IsSound :
    (api : ConvertApi) (x : XdsUpdate XdsTrafficPolicy) (u : Updating × Bool)
    → IsSound u.0.state
    → IsSound (handle_policy api x u).0.0.state
unfolding handle_policy
handle_policy-IsSound api (update name x) (u, changed) h =
    subst (λ v. IsSound v.state) (sym (noting-state changed _ _))
      (with_policies-IsSound _ u
        (update-IsValidStore api.nets (record { name = name; resource = x }) u.state.policies
          h.valid)
        h)
handle_policy-IsSound api (removal name) (u, changed) h =
    with_policies-IsSound _ u (remove-IsValidStore name u.state.policies h.valid) h

-- What each update keeps, a batch keeps.
pub handle_all-keeps :
    {T S : Type 0} (P : S → Type 0) (f : XdsUpdate T → S → S × Result XdsError (Unit {0}))
    → ((x : XdsUpdate T) (s : S) → P s → P (f x s).0)
    → (us : List (XdsUpdate T)) (s : S) → P s
    → P (handle_all f us s).0
unfolding handle_all
handle_all-keeps P f keeps [] s h = h
handle_all-keeps P f keeps (x ∷ xs) s h = handle_all-keeps P f keeps xs (f x s).0 (keeps x s h)

notify-IsSound :
    (u : Updating) (changed : Bool) (r : Result (List RejectedConfig) (Unit {0}))
    → IsSound u.state
    → IsSound (notify ((u, changed), r)).0.state
notify-IsSound u changed r h = elim (Bool-cases changed) [
  | inl e ↦ rw e (send_policies-IsSound u h)
  | inr e ↦ rw e h
]

handle-IsSound :
    (api : ConvertApi) (b : Batch) (u : Updating)
    → IsSound u.state
    → IsSound (handle api b u).0.state
unfolding handle
handle-IsSound api (workloads us) u h =
    handle_all-keeps (λ v. IsSound v.state) (handle_workload api) (handle_workload-IsSound api) us u
      h
handle-IsSound api (addresses us) u h =
    handle_all-keeps (λ v. IsSound v.state) (handle_address api) (handle_address-IsSound api) us u h
handle-IsSound api (sandboxes us) u h =
    notify-IsSound _ _ (outcome (handle_all (handle_sandbox api) us (u, false)).1) (
      handle_all-keeps (λ v. IsSound v.0.state) (handle_sandbox api) (handle_sandbox-IsSound api) us
        (u, false) h)
handle-IsSound api (policies us) u h =
    notify-IsSound _ _ (outcome (handle_all (handle_policy api) us (u, false)).1) (
      handle_all-keeps (λ v. IsSound v.0.state) (handle_policy api) (handle_policy-IsSound api) us
        (u, false) h)

handle_batches-IsSound_from :
    (api : ConvertApi) (bs : List Batch) (u : Updating)
    → IsSound u.state
    → IsSound (handle_batches api bs u).state
unfolding handle_batches
handle_batches-IsSound_from api [] u h = h
handle_batches-IsSound_from api (b ∷ bs) u h =
    handle_batches-IsSound_from api bs (handle api b u).0 (handle-IsSound api b u h)

-- The state of a proxy that has received nothing.
abbrev pub empty : Option String → Updating
empty node = record {
  state = record {
    workloads = Workloads.new node;
    services = Services.new;
    policies = Policies.new;
    sandboxes = Sandboxes.new;
  };
  certs = [];
}

-- After any batches of updates and removals from the control plane, accepted or rejected, from the
-- empty state: the indexes of the Workloads by address and by identity agree with the Workloads, a
-- hostname has at most one Service for each namespace, every stored policy is valid, and the index of
-- bindings agrees with the Sandboxes.
pub handle_batches-IsSound :
    (api : ConvertApi) (bs : List Batch) (node : Option String)
    → IsSound (handle_batches api bs (empty node)).state
handle_batches-IsSound api bs node = handle_batches-IsSound_from api bs (empty node) (record {
  indexed = new-IsIndexed node;
  local_indexed = new-IsLocalIndexed node;
  keyed = new-IsKeyed;
  valid = new-IsValidStore;
  consistent = new-IsConsistent;
})
