-- ===== src/Service/Index/Staging.antt =====
-- Endpoints that arrive before their Service wait for it.
use text.Mathlib.TextEquality.{eq_iff}
use ztunnel.Common.{
  ◌≡◌, refl, inl, inr, [], ◌∷◌, Option, none, some, String, arith, ◌==◌, string_eq, Bool-cases,
  if◌then◌else◌,
}
use ztunnel.Common.Map
use ztunnel.Common.Map.{Map, get-insert, get-insert_self, HasDistinctKeys, insert-HasDistinctKeys}
use ztunnel.Net.{NamespacedHostname, host_eq, host_beq_iff}
use ztunnel.Service.{Service, Endpoint, namespaced_hostname, should_include_endpoint}
use ztunnel.Service.Index.{
  ServiceStore, get_by_namespaced_host, add_endpoints, insert, insert_endpoint,
  insert_endpoint_update, insert_internal,
}
use ztunnel.Service.Index.Hosts.{
  IsKeyed, staged_at, get-insert_service, get-store_service, insert_endpoint-IsKeyed,
  add_endpoints-names,
}

-- The endpoint that a Service ends up with from the staged one, or else from its own.
abbrev pub accepted : Service → Option Endpoint → Option Endpoint → Option Endpoint
accepted svc none own = own
accepted svc (some ep) own = if should_include_endpoint svc ep.status then some ep else own

-- Endpoints of a Service are no part of what it accepts.
should_include-endpoints :
    (svc : Service) (m : Map String Endpoint) (ep : Endpoint)
    → should_include_endpoint (record svc { endpoints = m }) ep.status
      ≡ should_include_endpoint svc ep.status
unfolding should_include_endpoint
should_include-endpoints svc m ep = refl

pub get-add_endpoints :
    (eps : Map String Endpoint) (svc : Service) (u : String)
    → HasDistinctKeys eps
    → Map.get u (add_endpoints eps svc).endpoints
      ≡ accepted svc (Map.get u eps) (Map.get u svc.endpoints)
unfolding add_endpoints Map.get should_include_endpoint
get-add_endpoints [] svc u d = refl
get-add_endpoints ((uid, ep) ∷ eps) svc u d =
    let more = record svc { endpoints = Map.insert uid ep svc.endpoints } in
    ground (
      arith,
      get-add_endpoints eps more u d.1,
      get-add_endpoints eps svc u d.1,
      get-insert uid u ep svc.endpoints,
      eq_iff uid u,
      d.0,
    )

abbrev pub endpoints_of : Option Service → Map String Endpoint
endpoints_of none = []
endpoints_of (some svc) = svc.endpoints

-- The endpoint that a lookup by UID finds under a name.
abbrev pub endpoint_at : NamespacedHostname → String → ServiceStore → Option Endpoint
endpoint_at host uid s = Map.get uid (endpoints_of (get_by_namespaced_host host s))

insert_endpoint-stored :
    (host : NamespacedHostname) (ep : Endpoint) (u : String) (s : ServiceStore) (svc : Service)
    → get_by_namespaced_host host s ≡ some svc
    → namespaced_hostname svc ≡ host
    → endpoint_at host u (insert_endpoint host ep s) ≡ (
        if ep.workload_uid == u
        then accepted svc (some ep) (Map.get u svc.endpoints)
        else Map.get u svc.endpoints)
unfolding insert_endpoint insert_endpoint_update insert_internal
insert_endpoint-stored host ep u s svc e n =
    let more = record svc { endpoints = Map.insert ep.workload_uid ep svc.endpoints } in
    elim (Bool-cases (should_include_endpoint svc ep.status)) [
      | inl take ↦
          rw (e, insert_endpoint, take)
            (ground (
              arith,
              get-store_service more host s,
              get-insert ep.workload_uid u ep svc.endpoints,
              host_beq_iff (namespaced_hostname svc) host,
              n,
            ))
      | inr skip ↦ rw (e, insert_endpoint, skip) (ground (arith, e))
    ]

insert_endpoint-staged :
    (host : NamespacedHostname) (ep : Endpoint) (s : ServiceStore)
    → get_by_namespaced_host host s ≡ none
    → staged_at host (insert_endpoint host ep s) ≡ Map.insert ep.workload_uid ep (staged_at host s)
unfolding insert_endpoint
insert_endpoint-staged host ep s e = rw (
  e,
  insert_endpoint,
  get-insert_self host (Map.insert ep.workload_uid ep (staged_at host s)) s.staged_services,
)

should_include-add_endpoints :
    (eps : Map String Endpoint) (svc : Service) (ep : Endpoint)
    → should_include_endpoint (add_endpoints eps svc) ep.status
      ≡ should_include_endpoint svc ep.status
unfolding should_include_endpoint
should_include-add_endpoints eps svc ep = rw (add_endpoints-names eps svc).1

-- In a keyed store, for a Service that is not stored yet, whose staged endpoints have distinct UIDs,
-- and an endpoint whose UID is not staged for it, the order of arrival does not matter: whichever comes first, a lookup among the Service's endpoints finds the
-- same.
pub staging_order :
    (svc : Service) (ep : Endpoint) (u : String) (s : ServiceStore)
    → IsKeyed s
    → get_by_namespaced_host (namespaced_hostname svc) s ≡ none
    → HasDistinctKeys (staged_at (namespaced_hostname svc) s)
    → Map.get ep.workload_uid (staged_at (namespaced_hostname svc) s) ≡ none
    → endpoint_at
        (namespaced_hostname svc)
        u
        (insert svc (insert_endpoint (namespaced_hostname svc) ep s))
      ≡ endpoint_at
          (namespaced_hostname svc)
          u
          (insert_endpoint (namespaced_hostname svc) ep (insert svc s))
staging_order svc ep u s keyed absent distinct fresh =
    let host = namespaced_hostname svc in
    let staged = staged_at host s in
    let early = insert_endpoint host ep s in
    let built = add_endpoints staged svc in
    let stored : get_by_namespaced_host host (insert svc s) ≡ some built =
      ground (arith, get-insert_service svc host s keyed, host_beq_iff host host) in
    ground (
      arith,
      get-insert_service svc host early (insert_endpoint-IsKeyed host ep s keyed),
      host_beq_iff host host,
      insert_endpoint-staged host ep s absent,
      get-add_endpoints (Map.insert ep.workload_uid ep staged) svc u
          (insert-HasDistinctKeys ep.workload_uid ep staged distinct),
      get-insert ep.workload_uid u ep staged,
      insert_endpoint-stored host ep u (insert svc s) built stored
          (add_endpoints-names staged svc).0,
      get-add_endpoints staged svc u distinct,
      should_include-add_endpoints staged svc ep,
      eq_iff ep.workload_uid u,
      fresh,
    )
