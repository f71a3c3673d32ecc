-- ===== src/Service/Index/Hosts.antt =====
-- What the store answers by namespace and hostname, before and after each operation.
use text.Mathlib.TextEquality.{eq_iff}
use ztunnel.Common.{
  ◌≡◌, refl, inl, inr, List, [], ◌∷◌, none, some, String, arith, find, is_empty, ◌==◌, string_eq,
  Bool-cases, Option-cases, if◌then◌else◌,
}
use ztunnel.Common.Map
use ztunnel.Common.Map.{Map, get-insert, get-remove}
use ztunnel.Net.{NamespacedHostname, host_eq, host_beq, host_beq_iff, addr_eq}
use ztunnel.Workload.{Workload}
use ztunnel.Service.{Service, Endpoint, namespaced_hostname, should_include_endpoint}
use ztunnel.Service.Index.{
  ServiceStore, new, services_of, get_by_host, in_namespace, get_by_namespaced_host, place,
  take_out, remove, or_none_staged, add_endpoints, store_service, insert_internal, insert,
  insert_endpoint_update, insert_endpoint, unstage_all, drop_endpoint, drop_endpoints, dedup,
  remove_endpoint,
}

find-place :
    (svc : Service) (ns : String) (ss : List Service)
    → find (in_namespace ns) (place svc ss)
      ≡ (if svc.namespace == ns then some svc else find (in_namespace ns) ss)
find-place svc ns [] = refl
find-place svc ns (s ∷ ss) = ground (
  arith,
  find-place svc ns ss,
  eq_iff s.namespace svc.namespace,
  eq_iff s.namespace ns,
  eq_iff svc.namespace ns,
)

-- The Services of a hostname are of different namespaces.
abbrev pub IsDistinct : List Service → Type 0
IsDistinct [] = Unit
IsDistinct (s ∷ ss) = (find (in_namespace s.namespace) ss ≡ none) × IsDistinct ss

find-take_out :
    (ns other : String) (ss : List Service)
    → IsDistinct ss
    → find (in_namespace other) (take_out ns ss)
      ≡ (if ns == other then none else find (in_namespace other) ss)
find-take_out ns other [] d = ground arith
find-take_out ns other (s ∷ ss) d = ground (
  arith,
  find-take_out ns other ss d.1,
  eq_iff s.namespace ns,
  eq_iff s.namespace other,
  eq_iff ns other,
  d.0,
)

IsDistinct-place : (svc : Service) (ss : List Service) → IsDistinct ss → IsDistinct (place svc ss)
IsDistinct-place svc [] d = (refl, tt)
IsDistinct-place svc (s ∷ ss) d = ground (
  arith,
  IsDistinct-place svc ss d.1,
  find-place svc s.namespace ss,
  eq_iff s.namespace svc.namespace,
  eq_iff svc.namespace s.namespace,
  d.0,
  d.1,
)

IsDistinct-take_out :
    (ns : String) (ss : List Service) → IsDistinct ss → IsDistinct (take_out ns ss)
IsDistinct-take_out ns [] d = tt
IsDistinct-take_out ns (s ∷ ss) d = ground (
  arith,
  IsDistinct-take_out ns ss d.1,
  find-take_out ns s.namespace ss d.1,
  eq_iff ns s.namespace,
  d.0,
  d.1,
)

abbrev pub services_at : String → ServiceStore → List Service
services_at h s = services_of (get_by_host h s)

-- Each hostname has one Service for a namespace at most.
abbrev pub IsKeyed : ServiceStore → Type 0
IsKeyed s = (h : String) → IsDistinct (services_at h s)

pub new-IsKeyed : IsKeyed new
unfolding Map.get
new-IsKeyed h = tt

pub get-store_service :
    (svc : Service) (k : NamespacedHostname) (s : ServiceStore)
    → get_by_namespaced_host k (store_service svc s)
      ≡ (if host_beq (namespaced_hostname svc) k then some svc else get_by_namespaced_host k s)
unfolding get_by_namespaced_host store_service
get-store_service svc k s = ground (
  arith,
  find-place svc k.namespace (services_at svc.hostname s),
  get-insert svc.hostname k.hostname (place svc (services_at svc.hostname s)) s.by_host,
  eq_iff svc.hostname k.hostname,
  eq_iff svc.namespace k.namespace,
)

store_service-IsKeyed :
    (svc : Service) (s : ServiceStore) → IsKeyed s → IsKeyed (store_service svc s)
unfolding store_service
store_service-IsKeyed svc s d h = ground (
  arith,
  get-insert svc.hostname h (place svc (services_at svc.hostname s)) s.by_host,
  IsDistinct-place svc (services_at svc.hostname s) (d svc.hostname),
  eq_iff svc.hostname h,
  d h,
)

services_of-keep : (xs : List Service) → services_of (if is_empty xs then none else some xs) ≡ xs
services_of-keep [] = refl
services_of-keep (x ∷ xs) = refl

services_at-remove :
    (host : NamespacedHostname) (h : String) (s : ServiceStore) (prev : Service)
    → get_by_namespaced_host host s ≡ some prev
    → services_at h (remove host s).0
      ≡ (if host.hostname == h then take_out host.namespace (services_at h s) else services_at h s)
unfolding remove
services_at-remove host h s prev e =
    let left = take_out host.namespace (services_at host.hostname s) in
    rw (e, remove)
      (ground (
        arith,
        services_of-keep left,
        get-remove host.hostname h s.by_host,
        get-insert host.hostname h left s.by_host,
        eq_iff host.hostname h,
      ))

remove-absent :
    (host : NamespacedHostname) (s : ServiceStore)
    → get_by_namespaced_host host s ≡ none
    → (remove host s).0 ≡ s
unfolding remove
remove-absent host s e = rw (e, remove)

remove-IsKeyed :
    (host : NamespacedHostname) (s : ServiceStore) → IsKeyed s → IsKeyed (remove host s).0
remove-IsKeyed host s d h = elim (Option-cases (get_by_namespaced_host host s)) [
  | inl e ↦ rw (remove-absent host s e) (d h)
  | inr (prev, e) ↦ ground (
    arith,
    services_at-remove host h s prev e,
    IsDistinct-take_out host.namespace (services_at h s) (d h),
    d h,
  )
]

-- In a keyed store, after a removal the name has no Service, and every other name has the one it had.
pub get-remove_service :
    (host k : NamespacedHostname) (s : ServiceStore)
    → IsKeyed s
    → get_by_namespaced_host k (remove host s).0
      ≡ (if host_beq host k then none else get_by_namespaced_host k s)
unfolding get_by_namespaced_host
get-remove_service host k s d = elim (Option-cases (get_by_namespaced_host host s)) [
  | inl e ↦ rw (remove-absent host s e) (ground (arith, e, host_beq_iff host k))
  | inr (prev, e) ↦ ground (
    arith,
    services_at-remove host k.hostname s prev e,
    find-take_out host.namespace k.namespace (services_at k.hostname s) (d k.hostname),
    eq_iff host.hostname k.hostname,
    eq_iff host.namespace k.namespace,
  )
]

-- The endpoints change, and nothing else.
pub add_endpoints-names :
    (eps : Map String Endpoint) (svc : Service)
    → (namespaced_hostname (add_endpoints eps svc) ≡ namespaced_hostname svc)
      × ((add_endpoints eps svc).load_balancer ≡ svc.load_balancer)
unfolding add_endpoints
add_endpoints-names [] svc = (refl, refl)
add_endpoints-names ((uid, ep) ∷ eps) svc = ground (
  arith,
  add_endpoints-names eps svc,
  add_endpoints-names eps (record svc { endpoints = Map.insert uid ep svc.endpoints }),
)

abbrev pub staged_at : NamespacedHostname → ServiceStore → Map String Endpoint
staged_at host s = or_none_staged (Map.get host s.staged_services)

-- The staging area has no part in a lookup.
get-unstaged :
    (k : NamespacedHostname) (s : ServiceStore) (m : Map NamespacedHostname (Map String Endpoint))
    → get_by_namespaced_host k (record s { staged_services = m }) ≡ get_by_namespaced_host k s
unfolding get_by_namespaced_host
get-unstaged k s m = refl

-- In a keyed store, after an insertion the name has the Service, with the staged endpoints that it accepts, and every
-- other name has the one it had.
pub get-insert_service :
    (svc : Service) (k : NamespacedHostname) (s : ServiceStore)
    → IsKeyed s
    → get_by_namespaced_host k (insert svc s) ≡ (
        if host_beq (namespaced_hostname svc) k
        then some (add_endpoints (staged_at (namespaced_hostname svc) s) svc)
        else get_by_namespaced_host k s)
unfolding insert insert_internal
get-insert_service svc k s d =
    let host = namespaced_hostname svc in
    let unstaged = record s { staged_services = Map.remove host s.staged_services } in
    let full = add_endpoints (staged_at host s) svc in
    let names = add_endpoints-names (staged_at host s) svc in
    ground (
      arith,
      get-store_service full k (remove host unstaged).0,
      get-remove_service host k unstaged d,
      names,
      host_beq_iff host k,
      get-unstaged k s (Map.remove host s.staged_services),
    )

insert-IsKeyed : (svc : Service) (s : ServiceStore) → IsKeyed s → IsKeyed (insert svc s)
unfolding insert insert_internal
insert-IsKeyed svc s d =
    let host = namespaced_hostname svc in
    let unstaged = record s { staged_services = Map.remove host s.staged_services } in
    store_service-IsKeyed (add_endpoints (staged_at host s) svc) (remove host unstaged).0
      (remove-IsKeyed host unstaged d)

pub insert_endpoint-IsKeyed :
    (host : NamespacedHostname) (ep : Endpoint) (s : ServiceStore)
    → IsKeyed s
    → IsKeyed (insert_endpoint host ep s)
unfolding insert_endpoint insert_endpoint_update insert_internal
insert_endpoint-IsKeyed host ep s d = elim (Option-cases (get_by_namespaced_host host s)) [
  | inl e ↦ rw (e, insert_endpoint) d
  | inr (svc, e) ↦ elim (Bool-cases (should_include_endpoint svc ep.status)) [
    | inl take ↦
        rw (e, insert_endpoint, take)
          (store_service-IsKeyed
            (record svc { endpoints = Map.insert ep.workload_uid ep svc.endpoints }) s d)
    | inr skip ↦ rw (e, insert_endpoint, skip) d
  ]
]

unstage_all-IsKeyed :
    (hosts : List NamespacedHostname) (uid : String) (s : ServiceStore)
    → IsKeyed s
    → IsKeyed (unstage_all hosts uid s)
unfolding unstage_all
unstage_all-IsKeyed [] uid s d = d
unstage_all-IsKeyed (h ∷ hs) uid s d = unstage_all-IsKeyed hs uid _ d

drop_endpoint-IsKeyed :
    (host : NamespacedHostname) (uid : String) (s : ServiceStore)
    → IsKeyed s
    → IsKeyed (drop_endpoint host uid s)
unfolding drop_endpoint insert_endpoint_update insert_internal
drop_endpoint-IsKeyed host uid s d = elim (Option-cases (get_by_namespaced_host host s)) [
  | inl e ↦ rw (e, drop_endpoint) d
  | inr (svc, e) ↦
      rw (e, drop_endpoint)
        (store_service-IsKeyed (record svc { endpoints = Map.remove uid svc.endpoints }) s d)
]

drop_endpoints-IsKeyed :
    (hosts : List NamespacedHostname) (uid : String) (s : ServiceStore)
    → IsKeyed s
    → IsKeyed (drop_endpoints hosts uid s)
unfolding drop_endpoints
drop_endpoints-IsKeyed [] uid s d = d
drop_endpoints-IsKeyed (h ∷ hs) uid s d =
    drop_endpoints-IsKeyed hs uid (drop_endpoint h uid s) (drop_endpoint-IsKeyed h uid s d)

-- The operations of the store, as the updater calls them.
pub data Operation : Type 0 where
  inserts : Service → Operation
  removes : NamespacedHostname → Operation
  inserts_endpoint : NamespacedHostname → Endpoint → Operation
  removes_endpoint : Workload → Operation

abbrev pub apply : Operation → ServiceStore → ServiceStore
apply (inserts svc) s = insert svc s
apply (removes host) s = (remove host s).0
apply (inserts_endpoint host ep) s = insert_endpoint host ep s
apply (removes_endpoint w) s = remove_endpoint w s

abbrev pub apply_all : List Operation → ServiceStore → ServiceStore
apply_all [] s = s
apply_all (o ∷ os) s = apply_all os (apply o s)

pub apply-IsKeyed : (o : Operation) (s : ServiceStore) → IsKeyed s → IsKeyed (apply o s)
unfolding remove_endpoint
apply-IsKeyed (inserts svc) s d = insert-IsKeyed svc s d
apply-IsKeyed (removes host) s d = remove-IsKeyed host s d
apply-IsKeyed (inserts_endpoint host ep) s d = insert_endpoint-IsKeyed host ep s d
apply-IsKeyed (removes_endpoint w) s d =
    drop_endpoints-IsKeyed (dedup w.services) w.uid _ (unstage_all-IsKeyed w.services w.uid s d)

apply_all-IsKeyed_from :
    (os : List Operation) (s : ServiceStore) → IsKeyed s → IsKeyed (apply_all os s)
apply_all-IsKeyed_from [] s d = d
apply_all-IsKeyed_from (o ∷ os) s d = apply_all-IsKeyed_from os (apply o s) (apply-IsKeyed o s d)

-- After any sequence of operations on an empty store, a hostname has at most one Service for each
-- namespace.
pub apply_all-IsKeyed : (os : List Operation) → IsKeyed (apply_all os new)
apply_all-IsKeyed os = apply_all-IsKeyed_from os new new-IsKeyed
