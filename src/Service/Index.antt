-- ===== src/Service/Index.antt =====
-- `ServiceStore` of src/state/service.rs.
pub mod Hosts
pub mod Staging
pub mod Inserts
pub mod Vips
use ztunnel.Common.{
  ℕ, ◌+◌, ◌≡◌, Bool, true, false, not, ◌&&◌, List, [], ◌∷◌, ◌++◌, Option, none, some, String, find,
  filter_map, contains, is_empty, is_none, is_some, ◌==◌, string_eq, if◌then◌else◌,
}
use ztunnel.Common.Map
use ztunnel.Common.Map.{Map}
use ztunnel.Net.{NamespacedHostname, host_eq, NetworkAddress, addr_eq}
use ztunnel.Workload.{Workload}
use ztunnel.Service.{Service, Endpoint, namespaced_hostname, should_include_endpoint}
use ztunnel.Service.Match.{find_best_match}

pub record ServiceStore : Type 0 where
  pub staged_services : Map NamespacedHostname (Map String Endpoint)
  pub by_vip : Map NetworkAddress Service
  pub by_host : Map String (List Service)

abbrev pub new : ServiceStore
new = record { staged_services = []; by_vip = []; by_host = [] }

unfoldable pub get_by_vip : NetworkAddress → ServiceStore → Option Service
get_by_vip vip s = Map.get vip s.by_vip

abbrev pub services_of : Option (List Service) → List Service
services_of none = []
services_of (some ss) = ss

abbrev pub get_by_host : String → ServiceStore → Option (List Service)
get_by_host hostname s = Map.get hostname s.by_host

pub get_best_by_host : String → Option String → ServiceStore → Option Service
get_best_by_host hostname ns s = elim (get_by_host hostname s) [
  | none ↦ none
  | some services ↦ find_best_match services ns none
]

abbrev pub in_namespace : String → Service → Bool
in_namespace ns s = s.namespace == ns

unfoldable pub get_by_namespaced_host : NamespacedHostname → ServiceStore → Option Service
get_by_namespaced_host host s =
    find (in_namespace host.namespace) (services_of (get_by_host host.hostname s))

pub get_by_workload : Workload → ServiceStore → List Service
unfolding get_by_namespaced_host
get_by_workload w s = filter_map (λ h. get_by_namespaced_host h s) w.services

abbrev pub map_vips :
    List NetworkAddress → Service → Map NetworkAddress Service → Map NetworkAddress Service
map_vips [] svc m = m
map_vips (vip ∷ vips) svc m = map_vips vips svc (Map.insert vip svc m)

abbrev pub unmap_vips :
    List NetworkAddress → Map NetworkAddress Service → Map NetworkAddress Service
unmap_vips [] m = m
unmap_vips (vip ∷ vips) m = unmap_vips vips (Map.remove vip m)

-- The slot of the same namespace is replaced, or the Service is appended.
abbrev pub place : Service → List Service → List Service
place svc [] = svc ∷ []
place svc (s ∷ ss) = if s.namespace == svc.namespace then svc ∷ ss else s ∷ place svc ss

-- `services.remove(i)` at the first of the namespace.
abbrev pub take_out : String → List Service → List Service
take_out ns [] = []
take_out ns (s ∷ ss) = if s.namespace == ns then ss else s ∷ take_out ns ss

pub remove : NamespacedHostname → ServiceStore → ServiceStore × Bool
unfolding get_by_namespaced_host
remove host s = elim (get_by_namespaced_host host s) [
  | none ↦ (s, false)
  | some prev ↦
      let left = take_out host.namespace (services_of (get_by_host host.hostname s)) in
      (
        record s {
          by_host =
              if is_empty left
              then Map.remove host.hostname s.by_host
              else Map.insert host.hostname left s.by_host;
          by_vip = unmap_vips prev.vips s.by_vip;
          staged_services = Map.remove host s.staged_services;
        },
        true,
      )
]

abbrev pub or_none_staged : Option (Map String Endpoint) → Map String Endpoint
or_none_staged none = []
or_none_staged (some m) = m

-- The staged endpoints that the Service accepts.
unfoldable pub add_endpoints : Map String Endpoint → Service → Service
add_endpoints [] svc = svc
add_endpoints ((uid, ep) ∷ eps) svc = add_endpoints eps (
    if should_include_endpoint svc ep.status
    then record svc { endpoints = Map.insert uid ep svc.endpoints }
    else svc)

-- The end of `insert_internal`: the VIPs and the slot by hostname.
pub store_service : Service → ServiceStore → ServiceStore
store_service svc s = record s {
  by_vip = map_vips svc.vips svc s.by_vip;
  by_host =
      Map.insert svc.hostname (place svc (services_of (get_by_host svc.hostname s))) s.by_host;
}

pub insert_internal : Service → Bool → ServiceStore → ServiceStore
unfolding remove store_service add_endpoints
insert_internal svc endpoint_update_only s =
    let host = namespaced_hostname svc in
    let full = add_endpoints (or_none_staged (Map.get host s.staged_services)) svc in
    let unstaged = record s { staged_services = Map.remove host s.staged_services } in
    if endpoint_update_only
    then store_service svc s
    else store_service full (remove host unstaged).0

unfoldable pub insert : Service → ServiceStore → ServiceStore
unfolding insert_internal
insert svc s = insert_internal svc false s

pub insert_endpoint_update : Service → ServiceStore → ServiceStore
unfolding insert_internal
insert_endpoint_update svc s = insert_internal svc true s

unfoldable pub insert_endpoint : NamespacedHostname → Endpoint → ServiceStore → ServiceStore
unfolding get_by_namespaced_host insert_endpoint_update
insert_endpoint name ep s = elim (get_by_namespaced_host name s) [
  | some svc ↦
      if should_include_endpoint svc ep.status
      then insert_endpoint_update
          (record svc { endpoints = Map.insert ep.workload_uid ep svc.endpoints }) s
      else s
  | none ↦ record s {
    staged_services =
        Map.insert name
          (Map.insert ep.workload_uid ep (or_none_staged (Map.get name s.staged_services)))
          s.staged_services;
  }
]

-- `entry(svc).or_default().remove(uid)`, and the entry goes when it is empty.
abbrev pub unstage :
    NamespacedHostname
    → String
    → Map NamespacedHostname (Map String Endpoint)
    → Map NamespacedHostname (Map String Endpoint)
unstage host uid m =
    let left = Map.remove uid (or_none_staged (Map.get host m)) in
    if is_empty left then Map.remove host m else Map.insert host left m

pub unstage_all : List NamespacedHostname → String → ServiceStore → ServiceStore
unstage_all [] uid s = s
unstage_all (host ∷ hosts) uid s =
    unstage_all hosts uid (record s { staged_services = unstage host uid s.staged_services })

-- The body of the second loop of `remove_endpoint`.
pub drop_endpoint : NamespacedHostname → String → ServiceStore → ServiceStore
unfolding get_by_namespaced_host insert_endpoint_update
drop_endpoint host uid s = elim (get_by_namespaced_host host s) [
  | none ↦ s
  | some svc ↦ insert_endpoint_update (record svc { endpoints = Map.remove uid svc.endpoints }) s
]

pub drop_endpoints : List NamespacedHostname → String → ServiceStore → ServiceStore
drop_endpoints [] uid s = s
drop_endpoints (host ∷ hosts) uid s = drop_endpoints hosts uid (drop_endpoint host uid s)

-- The `HashSet` of the Services to update: each hostname once.
abbrev pub dedup : List NamespacedHostname → List NamespacedHostname
dedup [] = []
dedup (h ∷ hs) = if contains (dedup hs) h then dedup hs else h ∷ dedup hs

pub remove_endpoint : Workload → ServiceStore → ServiceStore
unfolding unstage_all drop_endpoints drop_endpoint
remove_endpoint prev s =
    drop_endpoints (dedup prev.services) prev.uid (unstage_all prev.services prev.uid s)
