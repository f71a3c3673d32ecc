-- ===== src/Xds/Inserts.antt =====
-- What the insertion of a Workload does, and when a batch of policies is notified.
use ztunnel.Common.{
  ◌+◌, ◌≡◌, ◌≢◌, ◌⊎◌, refl, sym, ap, subst, ◌∙◌, inl, inr, Bool, true, false, List, [], ◌∷◌, Option,
  none, some, String, arith, ◌==◌, string_eq, if◌then◌else◌,
}
use ztunnel.Common.Map.{Map, keys}
use ztunnel.Common.Outcome.{Result, ok, err, traverse, transpose, Result-cases, split_ok}
use ztunnel.Net.{NamespacedHostname, byte_to_ip}
use ztunnel.Workload.{Workload}
use ztunnel.Workload.Index as Workloads
use ztunnel.Workload.Index.{find_uid}
use ztunnel.Workload.Index.Address.{find_uid-remove, find_uid-insert, remove_absent}
use ztunnel.Workload.Convert.{
  WorkloadError, XdsWorkload, XdsPort, workload_of, host_from_str, gateway_of,
  application_tunnel_of, of_bytes, refs_in, inbound_of, network_mode_of, status_of,
  validate_policies,
}
use ztunnel.Service.Index.{ServiceStore, insert_endpoint}
use ztunnel.Policy.Store as Policies
use ztunnel.Policy.Store.{send, notifications-send, get-send, update-quiet, remove-quiet}
use ztunnel.Policy.Convert.{XdsTrafficPolicy, PolicyError}
use ztunnel.Xds.{
  Updating, ConvertApi, insert_workload, store_workload, remove_internal, settle_removal, cleaned,
  inserted, finish_insert, insert_service_endpoints, endpoint_of, refs_changed,
}
use ztunnel.Xds.Batches.{
  XdsUpdate, update, removal, handle_all, handle_policy, handle, policies, noting, of_policy,
  outcome, notify, with_policies, RejectedConfig,
}
use ztunnel.Xds.Stores.{handle_all-keeps}

-- Keys that can be parsed place every endpoint.
insert_service_endpoints-placed :
    (w : Workload) (services : Map String (List XdsPort)) (s : ServiceStore)
    (hosts : List NamespacedHostname)
    → traverse host_from_str (keys services) ≡ ok hosts
    → (insert_service_endpoints w services s).1 ≡ ok tt
unfolding insert_service_endpoints
insert_service_endpoints-placed w [] s hosts h = refl
insert_service_endpoints-placed w ((key, ports) ∷ rest) s hosts h =
    elim (Result-cases (host_from_str key)) [
      | inr (e, q) ↦ absurd (ground (arith, h, q))
      | inl (host, q) ↦ elim (Result-cases (traverse host_from_str (keys rest))) [
        | inr (e, r) ↦ absurd (ground (arith, h, q, r))
        | inl (others, r) ↦
            rw (insert_service_endpoints, q)
              (insert_service_endpoints-placed w rest (insert_endpoint host (endpoint_of w ports) s)
                others r)
      ]
    ]

-- A Workload that is converted has the Services of its message, whose keys can be parsed.
workload_of-keys :
    (api : ConvertApi) (r : XdsWorkload) (v : Workload) (services : Map String (List XdsPort))
    → workload_of api.extensions api.decode_reference r ≡ ok (v, services)
    → (hosts : List NamespacedHostname) × (traverse host_from_str (keys services) ≡ ok hosts)
unfolding workload_of
workload_of-keys api r v services h =
    let out : Workload × Map String (List XdsPort) = (v, services) in
    let (_, _, h1) = split_ok (transpose gateway_of r.waypoint) _ out h in
    let (_, _, h2) = split_ok (transpose application_tunnel_of r.application_tunnel) _ out h1 in
    let (_, _, h3) = split_ok (traverse (λ b. of_bytes (byte_to_ip b)) r.addresses) _ out h2 in
    let (hosts, parsed, h4) = split_ok (traverse host_from_str (keys r.services)) _ out h3 in
    let (_, _, h5) =
      split_ok (refs_in api.extensions api.decode_reference r.extensions none) _ out h4 in
    let (_, _, h6) = split_ok (inbound_of r.tunnel_protocol) _ out h5 in
    let (_, _, h7) = split_ok (network_mode_of r.network_mode) _ out h6 in
    let (_, _, h8) = split_ok (status_of r.status) _ out h7 in
    let (_, _, h9) = split_ok (validate_policies _) _ out h8 in
    let same : r.services ≡ services = ground (arith, h9) in
    (hosts, subst (λ m. traverse host_from_str (keys m) ≡ ok hosts) same parsed)

find_uid-settle_removal :
    (name k : String) (r : Workloads.WorkloadStore × Option Workload) (u : Updating)
    → (r.1 ≡ none → find_uid k u.state.workloads ≡ find_uid k r.0)
    → (find_uid k (settle_removal name true r u).state.workloads ≡ find_uid k r.0)
      × ((settle_removal name true r u).state.policies ≡ u.state.policies)
find_uid-settle_removal name k (left, some prev) u h = (refl, refl)
find_uid-settle_removal name k (left, none) u h = (h refl, refl)

finish_insert-parts :
    (b : Bool) (u : Updating) (r : Result WorkloadError (Unit {0}))
    → ((finish_insert b u r).1 ≡ r)
      × ((finish_insert b u r).0.state.workloads ≡ u.state.workloads)
      × (r ≡ ok tt
          → (finish_insert b u r).0.state.policies.notifications
            ≡ (if b then u.state.policies.notifications + 1 else u.state.policies.notifications))
finish_insert-parts b u (err e) = (refl, refl, (λ h. absurd (ground (arith, h))))
finish_insert-parts true u (ok x) = (refl, refl, (λ h. notifications-send u.state.policies))
finish_insert-parts false u (ok x) = (refl, refl, (λ h. refl))

-- What an accepted Workload does to the state.
pub record IsInserted (v : Workload) (u t : Updating) : Type 0 where
  pub stored :
      (k : String)
      → find_uid k t.state.workloads ≡ (if v.uid == k then some v else find_uid k u.state.workloads)
  pub notified : t.state.policies.notifications ≡ (
      if refs_changed (find_uid v.uid u.state.workloads) v
      then u.state.policies.notifications + 1
      else u.state.policies.notifications)

store_workload-IsInserted :
    (v : Workload) (services : Map String (List XdsPort)) (u : Updating)
    → ((s : ServiceStore) → (insert_service_endpoints v services s).1 ≡ ok tt)
    → ((store_workload v services u).1 ≡ ok tt) × IsInserted v u (store_workload v services u).0
unfolding store_workload remove_internal
store_workload-IsInserted v services u placed =
    let b = refs_changed (find_uid v.uid u.state.workloads) v in
    let t = inserted v services (cleaned v u) in
    let r = (insert_service_endpoints v services (cleaned v u).state.services).1 in
    let (same, kept, counts) = finish_insert-parts b t r in
    let done = placed (cleaned v u).state.services in
    let removed = Workloads.remove v.uid u.state.workloads in
    (
      same ∙ done,
      record {
        stored = λ k.
            ap (find_uid k) kept
            ∙ ground (
              arith,
              find_uid-insert v k (cleaned v u).state.workloads,
              find_uid-remove v.uid k u.state.workloads,
              (find_uid-settle_removal v.uid k removed u (absent k)).0,
            );
        notified =
            ground (
              arith,
              counts done,
              (find_uid-settle_removal v.uid v.uid removed u (absent v.uid)).1,
            );
      },
    )
  where
    absent :
        (k : String)
        → (Workloads.remove v.uid u.state.workloads).1 ≡ none
        → find_uid k u.state.workloads ≡ find_uid k (Workloads.remove v.uid u.state.workloads).0
    absent k gone = ap (find_uid k) (sym (remove_absent v.uid u.state.workloads gone))

-- A Workload of the control plane is rejected exactly where its conversion fails, and then nothing
-- changes. Otherwise its UID names it, every other UID names what it named before, and the watchers of
-- the policies are notified exactly where the policies that it refers to changed.
pub insert_workload_lem :
    (api : ConvertApi) (w : XdsWorkload) (u : Updating)
    → ((e : WorkloadError) × (workload_of api.extensions api.decode_reference w ≡ err e)
        × (insert_workload api w u ≡ (u, err e)))
      ⊎ ((v : Workload) × (services : Map String (List XdsPort)) × (workload_of api.extensions
              api.decode_reference w
            ≡ ok (v, services))
          × ((insert_workload api w u).1 ≡ ok tt)
          × IsInserted v u (insert_workload api w u).0)
unfolding insert_workload
insert_workload_lem api w u =
    elim (Result-cases (workload_of api.extensions api.decode_reference w)) [
      | inr (e, q) ↦ inl (e, q, rw (insert_workload, q) refl)
      | inl ((v, services), q) ↦
          let (hosts, parsed) = workload_of-keys api w v services q in
          let (accepted, done) =
            store_workload-IsInserted v services u
              (λ s. insert_service_endpoints-placed v services s hosts parsed) in
          inr (v, services, q, rw (insert_workload, q) accepted, rw (insert_workload, q) done)
    ]

-- Nothing was notified, and where no change was noted every policy reads as before.
abbrev IsQuiet : Updating → Updating × Bool → Type 0
IsQuiet u (t, changed) =
    (t.state.policies.notifications ≡ u.state.policies.notifications)
    × (changed ≡ false
        → (name : String) → Policies.get name t.state.policies ≡ Policies.get name u.state.policies)

noting-IsQuiet :
    (u t : Updating) (changed : Bool) (s : Policies.TrafficPolicyStore)
    (r : Result PolicyError Bool)
    → (s.notifications ≡ t.state.policies.notifications)
    → ((r ≢ ok true) → (name : String) → Policies.get name s ≡ Policies.get name t.state.policies)
    → IsQuiet u (t, changed)
    → IsQuiet u (noting changed (with_policies s t) (of_policy r)).0
noting-IsQuiet u t changed s (err e) n same (m, h) =
    (n ∙ m, (λ q name. same (λ w. ground (arith, w)) name ∙ h q name))
noting-IsQuiet u t changed s (ok true) n same (m, h) =
    (n ∙ m, (λ q name. absurd (ground (arith, q))))
noting-IsQuiet u t changed s (ok false) n same (m, h) =
    (n ∙ m, (λ q name. same (λ w. ground (arith, w)) name ∙ h (ground (arith, q)) name))

handle_policy-IsQuiet :
    (api : ConvertApi) (u : Updating) (x : XdsUpdate XdsTrafficPolicy) (t : Updating × Bool)
    → IsQuiet u t
    → IsQuiet u (handle_policy api x t).0
unfolding handle_policy
handle_policy-IsQuiet api u (update name x) (t, changed) q =
    let resource : Policies.XdsPolicyResource = record { name = name; resource = x } in
    noting-IsQuiet u t changed (Policies.update api.nets resource t.state.policies).0
      (Policies.update api.nets resource t.state.policies).1
      (update-quiet api.nets resource name t.state.policies).0
      (λ d k. (update-quiet api.nets resource k t.state.policies).1 d) q
handle_policy-IsQuiet api u (removal name) (t, changed) q =
    let r = Policies.remove name t.state.policies in
    noting-IsQuiet u t changed r.0 (ok r.1) (remove-quiet name name t.state.policies).0
      (λ d k. (remove-quiet name k t.state.policies).1 (λ e. d (ap ok e))) q

notify-policies :
    (u t : Updating) (changed : Bool) (r : Result (List RejectedConfig) (Unit {0}))
    → IsQuiet u (t, changed)
    → ((notify ((t, changed), r)).0.state.policies.notifications
        ≡ u.state.policies.notifications + 1)
      ⊎ (((notify ((t, changed), r)).0.state.policies.notifications
            ≡ u.state.policies.notifications)
          × ((name : String)
              → Policies.get name (notify ((t, changed), r)).0.state.policies
                ≡ Policies.get name u.state.policies))
notify-policies u t true r (n, h) = inl (notifications-send t.state.policies ∙ ap (λ k. k + 1) n)
notify-policies u t false r (n, h) = inr (n, h refl)

-- A batch of policies notifies the watchers of the policies at most once, and does not notify them only
-- if every policy reads as before.
pub handle-notifies :
    (api : ConvertApi) (us : List (XdsUpdate XdsTrafficPolicy)) (u : Updating)
    → ((handle api (policies us) u).0.state.policies.notifications
        ≡ u.state.policies.notifications + 1)
      ⊎ (((handle api (policies us) u).0.state.policies.notifications
            ≡ u.state.policies.notifications)
          × ((name : String)
              → Policies.get name (handle api (policies us) u).0.state.policies
                ≡ Policies.get name u.state.policies))
unfolding handle
handle-notifies api us u =
    let r = handle_all (handle_policy api) us (u, false) in
    notify-policies u r.0.0 r.0.1 (outcome r.1) (
      handle_all-keeps (IsQuiet u) (handle_policy api) (handle_policy-IsQuiet api u) us (u, false)
        (refl, (λ q name. refl)))
