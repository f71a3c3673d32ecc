-- ===== src/Service/Index/Inserts.antt =====
-- What a Service holds after its insertion: its own endpoints and the staged ones that it accepts.
use ztunnel.Common.{
  ◌≡◌, refl, ap, subst, inl, inr, ◌⊎◌, ◌↔◌, true, false, [], ◌∷◌, Option, none, some, String, arith,
  Bool-cases, string_eq,
}
use ztunnel.Common.Map
use ztunnel.Common.Map.{Map, HasDistinctKeys}
use ztunnel.Net.{NamespacedHostname, host_eq, host_beq, host_beq_iff}
use ztunnel.Workload.{HealthStatus, healthy, unhealthy}
use ztunnel.Service.{
  Service, Endpoint, LoadBalancer, LoadBalancerHealthPolicy, only_healthy, allow_all, allows_all,
  balancer_allows_all, namespaced_hostname, should_include_endpoint,
}
use ztunnel.Service.Index.{ServiceStore, get_by_namespaced_host, add_endpoints, insert}
use ztunnel.Service.Index.Hosts.{IsKeyed, staged_at, get-insert_service}
use ztunnel.Service.Index.Staging.{accepted, get-add_endpoints}

-- A Service takes an endpoint that is healthy, and any where its load balancer takes all.
pub Accepts : Service → Endpoint → Type 0
Accepts svc ep =
    (ep.status ≡ healthy)
    ⊎ ((lb : LoadBalancer) × (svc.load_balancer ≡ some lb) × (lb.health_policy ≡ allow_all))

all_allowed :
    (lb : LoadBalancer) (h : LoadBalancerHealthPolicy)
    → lb.health_policy ≡ h
    → (allows_all h ≡ true) ↔ (lb.health_policy ≡ allow_all)
all_allowed lb only_healthy e = ground (arith, e)
all_allowed lb allow_all e = ground (arith, e)

balancer_iff :
    (svc : Service) (o : Option LoadBalancer)
    → svc.load_balancer ≡ o
    → (balancer_allows_all o ≡ true)
      ↔ ((lb : LoadBalancer) × (svc.load_balancer ≡ some lb) × (lb.health_policy ≡ allow_all))
balancer_iff svc none e =
    (λ h. absurd (ground (arith, h)), λ h. let (lb, q, p) = h in absurd (ground (arith, e, q)))
balancer_iff svc (some lb) e = (
  λ h. (lb, e, (all_allowed lb lb.health_policy refl).0 h),
  λ h. let (lb', q, p) = h in (all_allowed lb lb.health_policy refl).1 (ground (arith, e, q, p)),
)

should_include_iff :
    (svc : Service) (ep : Endpoint) (status : HealthStatus)
    → ep.status ≡ status
    → (should_include_endpoint svc status ≡ true) ↔ Accepts svc ep
unfolding should_include_endpoint Accepts
should_include_iff svc ep healthy e = (λ h. inl e, λ h. refl)
should_include_iff svc ep unhealthy e = (
  λ h. inr ((balancer_iff svc svc.load_balancer refl).0 h),
  λ h. elim h [
    | inl q ↦ absurd (ground (arith, e, q))
    | inr q ↦ (balancer_iff svc svc.load_balancer refl).1 q
  ],
)

-- What the endpoints of a stored Service hold under a UID, by what was staged for it.
abbrev pub Holds : Service → (staged own held : Option Endpoint) → Type 0
Holds svc staged own held =
    ((ep : Endpoint) × (staged ≡ some ep) × Accepts svc ep × (held ≡ some ep))
    ⊎ (((ep : Endpoint) → staged ≡ some ep → Accepts svc ep → ⊥) × (held ≡ own))

accepted-Holds :
    (svc : Service) (staged own : Option Endpoint) → Holds svc staged own (accepted svc staged own)
accepted-Holds svc none own = inr (λ ep e a. absurd (ground (arith, e)), refl)
accepted-Holds svc (some ep) own =
    let agrees = should_include_iff svc ep ep.status refl in
    elim (Bool-cases (should_include_endpoint svc ep.status)) [
      | inl e ↦ inl (ep, refl, agrees.0 e, ground (arith, e))
      | inr e ↦ inr (
        λ other same a.
            let this : other ≡ ep = ground (arith, same) in
            absurd (ground (arith, e, agrees.1 (subst (Accepts svc) this a))),
        ground (arith, e),
      )
    ]

-- Nothing of a Service changes but its endpoints.
add_endpoints-kept :
    (eps : Map String Endpoint) (svc : Service)
    → record (add_endpoints eps svc) { endpoints = svc.endpoints } ≡ svc
unfolding add_endpoints
add_endpoints-kept [] svc = refl
add_endpoints-kept ((uid, ep) ∷ eps) svc =
    let more = record svc { endpoints = Map.insert uid ep svc.endpoints } in
    elim (Bool-cases (should_include_endpoint svc ep.status)) [
      | inl e ↦
          rw (add_endpoints, e)
            (ap (λ (x : Service). record x { endpoints = svc.endpoints })
              (add_endpoints-kept eps more))
      | inr e ↦ rw (add_endpoints, e) (add_endpoints-kept eps svc)
    ]

-- In a keyed store whose staged endpoints for a Service have distinct UIDs, the insertion of the Service
-- stores it under its name, unchanged but for its endpoints: under each UID it holds the endpoint that
-- is staged for it, if that is healthy or its load balancer takes all, and else the one that it came
-- with. Every other name has the Service it had.
pub insert_lem :
    (svc : Service) (s : ServiceStore)
    → IsKeyed s
    → HasDistinctKeys (staged_at (namespaced_hostname svc) s)
    → (stored : Service) × (get_by_namespaced_host (namespaced_hostname svc) (insert svc s)
        ≡ some stored)
      × (record stored { endpoints = svc.endpoints } ≡ svc)
      × ((u : String)
          → Holds svc
              (Map.get u (staged_at (namespaced_hostname svc) s))
              (Map.get u svc.endpoints)
              (Map.get u stored.endpoints))
      × ((k : NamespacedHostname)
          → host_beq (namespaced_hostname svc) k ≡ false
          → get_by_namespaced_host k (insert svc s) ≡ get_by_namespaced_host k s)
insert_lem svc s keyed distinct =
    let host = namespaced_hostname svc in
    let staged = staged_at host s in
    (
      add_endpoints staged svc,
      ground (arith, get-insert_service svc host s keyed, host_beq_iff host host),
      add_endpoints-kept staged svc,
      λ u.
          rw (get-add_endpoints staged svc u distinct)
            (accepted-Holds svc (Map.get u staged) (Map.get u svc.endpoints)),
      λ k apart. ground (arith, get-insert_service svc k s keyed, apart),
    )
