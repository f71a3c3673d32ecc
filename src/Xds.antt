-- ===== src/Xds.antt =====
-- src/xds.rs: the updates of the proxy's state by the resources of the control plane, with the batches
-- of src/xds/client.rs. The certificates asked for and cleared stand newest first.
pub mod Batches
pub mod Stores
pub mod Inserts
mod Tests
use ztunnel.Common.{
  ℕ, ◌≡◌, Bool, true, false, not, ◌&&◌, ◌||◌, List, [], ◌∷◌, Option, none, some, String, is_some,
  contains, any, option_beq, list_beq, is_empty, ◌==◌, string_eq, nat_beq, if◌then◌else◌,
}
use ztunnel.Common.Map
use ztunnel.Common.Map.{Map, values}
use ztunnel.Common.Outcome.{Result, ok, err, ◌>>=◌, ◌>>◌, ensure}
use ztunnel.Common.Texts.{split_once}
use ztunnel.Net.{IpNetApi, Identity, NamespacedHostname}
use ztunnel.Extensions.{DecodeApi}
use ztunnel.Workload.{Workload, identity}
use ztunnel.Workload.Index as Workloads
use ztunnel.Workload.Index.{find_uid, was_last_identity_on_node}
use ztunnel.Workload.Convert.{
  WorkloadError, XdsWorkload, XdsPort, PolicyReference, workload_of, host_from_str, ports_of,
}
use ztunnel.Service.{Service, Endpoint, namespaced_hostname, should_include_endpoint}
use ztunnel.Service.Index as Services
use ztunnel.Service.Index.{ServiceStore, get_by_namespaced_host, insert_endpoint, remove_endpoint}
use ztunnel.Service.Convert.{XdsService, service_of}
use ztunnel.Policy.Store as Policies
use ztunnel.Policy.Store.{TrafficPolicyStore, XdsPolicyResource, send}
use ztunnel.Policy.Convert.{PolicyError, XdsTrafficPolicy}
use ztunnel.Sandbox as Sandboxes
use ztunnel.Sandbox.{SandboxError, XdsSandboxResource, XdsSandbox}
use ztunnel.State.{ProxyState}

pub data CertEvent : Type 0 where
  prefetch_cert : Workload → CertEvent
  clear_cert : Identity → CertEvent

-- The state under the lock, and what the fetcher of certificates was told.
pub record Updating : Type 0 where
  pub state : ProxyState
  pub certs : List CertEvent

pub data XdsError : Type 0 where
  workload_error : WorkloadError → XdsError
  unknown_address : XdsError
  sandbox_error : SandboxError → XdsError
  policy_error : PolicyError → XdsError

abbrev pub of_workload {ℓ} : {A : Type ℓ} → Result WorkloadError A → Result XdsError A
of_workload (ok a) = ok a
of_workload (err e) = err (workload_error e)

-- What other crates do, for every conversion.
pub record ConvertApi : Type 0 where
  pub nets : IpNetApi
  pub extensions : DecodeApi
  pub decode_reference : List ℕ → Option PolicyReference

abbrev pub cert : CertEvent → Updating → Updating
cert e u = record u { certs = e ∷ u.certs }

abbrev pub send_policies : Updating → Updating
send_policies u = record u { state = record (u.state) { policies = send u.state.policies } }

-- The Workload and its endpoints are gone.
abbrev pub taken : Workload → Workloads.WorkloadStore → Updating → Updating
taken prev left u = record u {
  state = record (u.state) { workloads = left; services = remove_endpoint prev u.state.services };
}

abbrev pub clear_last : Workload → Updating → Updating
clear_last prev u =
    if was_last_identity_on_node prev.node (identity prev) u.state.workloads
    then cert (clear_cert (identity prev)) u
    else u

abbrev pub has_slash : String → Bool
has_slash s = is_some (split_once 47 s)

-- The removal of a Service by its key, once the key is parsed.
abbrev pub remove_service : Result WorkloadError NamespacedHostname → Updating → Updating
remove_service (err e) u = u
remove_service (ok name) u = if has_slash name.hostname then u else record u {
  state = record (u.state) { services = (Services.remove name u.state.services).0 };
}

-- `remove_internal` once the store of Workloads has answered.
abbrev pub settle_removal :
    String
    → (for_workload_insert : Bool) → Workloads.WorkloadStore × Option Workload
    → Updating
    → Updating
settle_removal xds_name true (left, some prev) u = taken prev left u
settle_removal xds_name false (left, some prev) u =
    send_policies (clear_last prev (taken prev left u))
settle_removal xds_name true (left, none) u = u
settle_removal xds_name false (left, none) u = remove_service (host_from_str xds_name) u

unfoldable pub remove_internal : String → Bool → Updating → Updating
remove_internal xds_name for_workload_insert u =
    settle_removal xds_name for_workload_insert (Workloads.remove xds_name u.state.workloads) u

abbrev pub remove : String → Updating → Updating
remove xds_name u = remove_internal xds_name false u

abbrev pub endpoint_of : Workload → List XdsPort → Endpoint
endpoint_of w ports = record { workload_uid = w.uid; port = ports_of ports; status = w.status }

-- Stops at the first key that cannot be parsed, after the endpoints before it.
unfoldable pub insert_service_endpoints :
    Workload
    → Map String (List XdsPort)
    → ServiceStore
    → ServiceStore × Result WorkloadError (Unit {0})
insert_service_endpoints w [] s = (s, ok tt)
insert_service_endpoints w ((key, ports) ∷ rest) s = elim (host_from_str key) [
  | err e ↦ (s, err e)
  | ok host ↦ insert_service_endpoints w rest (insert_endpoint host (endpoint_of w ports) s)
]

abbrev pub refs_beq : Option (List String) → Option (List String) → Bool
refs_beq none none = true
refs_beq (some a) (some b) = list_beq a b
refs_beq _ _ = false

-- `find_uid(uid).is_none_or(|old| old.traffic_policy_refs != new)`
abbrev pub refs_changed : Option Workload → Workload → Bool
refs_changed none w = true
refs_changed (some old) w = not (refs_beq old.traffic_policy_refs w.traffic_policy_refs)

-- The end of `insert_workload`, with what the insertion of the endpoints gave.
abbrev pub finish_insert :
    (policy_changed : Bool)
    → Updating
    → Result WorkloadError (Unit {0})
    → Updating × Result WorkloadError (Unit {0})
finish_insert policy_changed u (err e) = (u, err e)
finish_insert true u (ok x) = (send_policies u, ok tt)
finish_insert false u (ok x) = (u, ok tt)

abbrev pub cleaned : Workload → Updating → Updating
cleaned w u = cert (prefetch_cert w) (remove_internal w.uid true u)

-- The Workload in its store, and its endpoints.
abbrev pub inserted : Workload → Map String (List XdsPort) → Updating → Updating
inserted w services u = record u {
  state = record (u.state) {
    workloads = Workloads.insert w u.state.workloads;
    services = (insert_service_endpoints w services u.state.services).0;
  };
}

-- `insert_workload` once the Workload is converted.
unfoldable pub store_workload :
    Workload → Map String (List XdsPort) → Updating → Updating × Result WorkloadError (Unit {0})
store_workload w services u =
    finish_insert (refs_changed (find_uid w.uid u.state.workloads) w)
      (inserted w services (cleaned w u))
      (insert_service_endpoints w services (cleaned w u).state.services).1

unfoldable pub insert_workload :
    ConvertApi → XdsWorkload → Updating → Updating × Result WorkloadError (Unit {0})
insert_workload api w u = elim (workload_of api.extensions api.decode_reference w) [
  | err e ↦ (u, err e)
  | ok (workload, services) ↦ store_workload workload services u
]

-- The endpoints of the Service before, as far as the new one takes them.
abbrev pub keep_endpoints : List Endpoint → Service → Service
keep_endpoints [] svc = svc
keep_endpoints (ep ∷ eps) svc = keep_endpoints eps (
    if should_include_endpoint svc ep.status
    then record svc { endpoints = Map.insert ep.workload_uid ep svc.endpoints }
    else svc)

abbrev pub endpoints_of : Option Service → List Endpoint
endpoints_of none = []
endpoints_of (some prev) = values prev.endpoints

unfoldable pub insert_service : XdsService → Updating → Updating × Result WorkloadError (Unit {0})
insert_service service u = elim (service_of service) [
  | err e ↦ (u, err e)
  | ok svc ↦
      let prev = get_by_namespaced_host (namespaced_hostname svc) u.state.services in
      (
        record u {
          state = record (u.state) {
            services = Services.insert (keep_endpoints (endpoints_of prev) svc) u.state.services;
          };
        },
        ok tt,
      )
]

pub data XdsAddress : Type 0 where
  workload_type : XdsWorkload → XdsAddress
  service_type : XdsService → XdsAddress
  unset_type : XdsAddress

unfoldable pub insert_address :
    ConvertApi → XdsAddress → Updating → Updating × Result XdsError (Unit {0})
insert_address api (workload_type w) u =
    let (next, r) = insert_workload api w u in (next, of_workload r)
insert_address api (service_type s) u = let (next, r) = insert_service s u in (next, of_workload r)
insert_address api unset_type u = (u, err unknown_address)
