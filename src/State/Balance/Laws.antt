-- ===== src/State/Balance/Laws.antt =====
-- What an upstream that is chosen for a Service has.
use ztunnel.Common.{
  ℕ, ◌≤◌, ◌<◌, ◌≡◌, sym, subst, ◌⊎◌, inl, inr, true, false, List, [], ◌∷◌, Option, none, some,
  arith, In, In-retain, All, length, retain, filter_map, map, max_of, nat_beq, nat_eq, Bool-cases,
  Option-cases,
}
use ztunnel.Common.Map
use ztunnel.State.{ProxyState}
use ztunnel.Service.{Service, Endpoint, LoadBalancer, LoadBalancerMode, LoadBalancerScopes}
use ztunnel.Workload.{Workload}
use ztunnel.Workload.Index.{find_uid}
use ztunnel.State.Balance.{
  Backend, UpstreamDestination, upstream_parts, is_strict, is_standard, scope_matches, rank,
  candidate, candidates, ranked, top_ranked, options, target_port, load_balance,
  find_upstream_from_service, has_tunnel_port,
}

no_backend :
    (f : Backend → ℕ) (xs : List Backend) (x : Backend) → max_of (map f xs) ≡ none → ¬ In x xs
no_backend f [] x e h = h
no_backend f (y ∷ ys) x e h = elim (Option-cases (max_of (map f ys))) [
  | inl n ↦ ground arith
  | inr (m, n) ↦ ground arith
]

max_of-le :
    (f : Backend → ℕ) (xs : List Backend) (top : ℕ) (x : Backend)
    → max_of (map f xs) ≡ some top
    → In x xs
    → f x ≤ top
max_of-le f [] top x e h = elim h [ ]
max_of-le f (y ∷ ys) top x e (inl same) = elim (Option-cases (max_of (map f ys))) [
  | inl n ↦ rw same (ground arith)
  | inr (m, n) ↦ rw same (ground arith)
]
max_of-le f (y ∷ ys) top x e (inr later) = elim (Option-cases (max_of (map f ys))) [
  | inl n ↦ absurd (no_backend f ys x n later)
  | inr (m, n) ↦ let ih = max_of-le f ys m x n later in ground arith
]

-- A full rank is a match in every scope.
rank-eq-length :
    (ts : List LoadBalancerScopes) (src wl : Workload)
    → nat_beq (rank ts src wl) (length ts) ≡ true
    → All (λ t. scope_matches t src wl ≡ true) ts
unfolding rank
rank-eq-length [] src wl h = tt
rank-eq-length (t ∷ ts) src wl h = elim (Bool-cases (scope_matches t src wl)) [
  | inl m ↦ (m, rank-eq-length ts src wl (ground arith))
  | inr m ↦ absurd (ground arith)
]

-- A Workload that an endpoint of the Service names and that can be reached.
pub record IsCandidate (s : ProxyState) (svc : Service) (b : Backend) : Type 0 where
  pub listed : In b.endpoint (Map.values svc.endpoints)
  pub stored : find_uid b.endpoint.workload_uid s.workloads ≡ some b.workload

candidate-endpoint :
    (s : ProxyState) (port : Option ℕ) (ep : Endpoint) (b : Backend)
    → candidate s port ep ≡ some b
    → (b.endpoint ≡ ep) × (find_uid ep.workload_uid s.workloads ≡ some b.workload)
unfolding candidate
candidate-endpoint s port ep b h = elim (Option-cases (find_uid ep.workload_uid s.workloads)) [
  | inl e ↦ absurd (ground arith)
  | inr (wl, e) ↦ ground arith
]

In-candidates :
    (s : ProxyState) (port : Option ℕ) (b : Backend) (eps : List Endpoint)
    → In b (filter_map (λ ep. candidate s port ep) eps)
    → In b.endpoint eps × (find_uid b.endpoint.workload_uid s.workloads ≡ some b.workload)
In-candidates s port b [] h = elim h [ ]
In-candidates s port b (ep ∷ eps) h = elim (Option-cases (candidate s port ep)) [
  | inl e ↦ let (l, f) = In-candidates s port b eps (rw (e, filter_map) at h) in (inr l, f)
  | inr (c, e) ↦ elim (rw (e, filter_map) at h) [
    | inl same ↦ let (l, f) = candidate-endpoint s port ep b (ground arith) in (inl l, rw l f)
    | inr later ↦ let (l, f) = In-candidates s port b eps later in (inr l, f)
  ]
]

-- The chosen backend against the others that were on offer: in the strict mode it matches every
-- scope, and outside the standard mode no candidate of the mode ranks higher.
abbrev pub IsBest : Option LoadBalancer → Workload → List Backend → Backend → Type 0
IsBest none src bs b = Unit
IsBest (some lb) src bs b =
    (is_strict lb.mode ≡ true
      → All (λ t. scope_matches t src b.workload ≡ true) lb.routing_preferences)
    × (is_standard lb.mode ≡ false
        → (c : Backend) → In c (ranked lb src bs)
        → rank lb.routing_preferences src c.workload ≤ rank lb.routing_preferences src b.workload)

strict-not_standard : (m : LoadBalancerMode) → is_strict m ≡ true → is_standard m ≡ false
strict-not_standard m h = ground arith

options-IsBest :
    (o : Option LoadBalancer) (src : Workload) (bs chosen : List Backend) (b : Backend)
    → options o src bs ≡ some chosen
    → In b chosen
    → In b bs × IsBest o src bs b
unfolding top_ranked ranked
options-IsBest none src bs chosen b e h =
    let same : bs ≡ chosen = ground arith in (subst (In b) (sym same) h, tt)
options-IsBest (some lb) src bs chosen b e h = elim (Bool-cases (is_standard lb.mode)) [
  | inl std ↦
      let same : bs ≡ chosen = ground arith in
      (
        subst (In b) (sym same) h,
        ((λ q. absurd (ground (arith, strict-not_standard lb.mode))), (λ q. cc)),
      )
  | inr other ↦
      elim (Option-cases
        (max_of (map (λ c. rank lb.routing_preferences src c.workload) (ranked lb src bs)))) [
          | inl n ↦ absurd (ground arith)
          | inr (top, n) ↦
              let same : retain (λ c. nat_beq (rank lb.routing_preferences src c.workload) top)
                    (ranked lb src bs)
                  ≡ chosen =
                ground arith in
              let (member, ranks) =
                (In-retain (λ c. nat_beq (rank lb.routing_preferences src c.workload) top) b
                    (ranked lb src bs)).0
                  (subst (In b) (sym same) h) in
              let (origin, kept) = (In-retain _ b bs).0 member in
              (
                origin,
                (
                  (λ q. rank-eq-length lb.routing_preferences src b.workload (ground arith)),
                  (λ q c m.
                      let le =
                        max_of-le (λ c. rank lb.routing_preferences src c.workload)
                          (ranked lb src bs) top c n m in
                      ground (arith, ranks, le)),
                ),
              )
        ]
]

target_port-cases :
    (svc : Service) (port : ℕ) (b : Backend) (p : ℕ)
    → target_port svc port b ≡ some p
    → (Map.get port b.endpoint.port ≡ some p)
      ⊎ ((Map.get port b.endpoint.port ≡ none) × (Map.get port svc.ports ≡ some p) × (0 < p))
      ⊎ ((Map.get port b.endpoint.port ≡ none)
          × (p ≡ port)
          × (has_tunnel_port b.workload.application_tunnel ≡ true))
unfolding target_port
target_port-cases svc port b p h = ground arith

-- What the random choice gives is one of the options.
abbrev pub IsChoice : (List Backend → Option Backend) → Type 0
IsChoice choose = (bs : List Backend) (b : Backend) → choose bs ≡ some b → In b bs

-- For a random choice that gives one of its options, the backend that the load balancer picks is an endpoint of the Service whose Workload is stored
-- under the endpoint's UID; in the strict mode the Workload matches every scope that the Service
-- asks for, and outside the standard mode none that is still on offer ranks higher.
pub load_balance-IsBest :
    (choose : List Backend → Option Backend) (s : ProxyState) (src : Workload) (svc : Service)
    (port : ℕ) (b : Backend)
    → IsChoice choose
    → load_balance choose s src svc port ≡ some b
    → IsCandidate s svc b × IsBest svc.load_balancer src (candidates s svc port) b
unfolding load_balance candidates
load_balance-IsBest choose s src svc port b choice h =
    elim (Option-cases (options svc.load_balancer src (candidates s svc port))) [
      | inl n ↦ absurd (ground arith)
      | inr (bs, e) ↦
          let (member, best) =
            options-IsBest svc.load_balancer src (candidates s svc port) bs b e
              (choice bs b (ground arith)) in
          let (l, f) =
            In-candidates s (Map.get port svc.ports) b (Map.values svc.endpoints) member in
          (record { listed = l; stored = f }, best)
    ]

-- The upstream found for a Service is a chosen backend's Workload at the port that the endpoint maps
-- the requested one to, else the Service, else the requested one itself where the Workload has an
-- application tunnel with a port.
pub find_upstream_from_service_lem :
    (choose : List Backend → Option Backend) (s : ProxyState) (src : Workload) (svc : Service)
    (port : ℕ) (u : UpstreamDestination)
    → find_upstream_from_service choose s src port svc ≡ some u
    → (b : Backend) × (p : ℕ) × (load_balance choose s src svc port ≡ some b)
      × (u ≡ upstream_parts b.workload p (some svc))
      × ((Map.get port b.endpoint.port ≡ some p)
          ⊎ ((Map.get port b.endpoint.port ≡ none) × (Map.get port svc.ports ≡ some p) × (0 < p))
          ⊎ ((Map.get port b.endpoint.port ≡ none)
              × (p ≡ port)
              × (has_tunnel_port b.workload.application_tunnel ≡ true)))
unfolding find_upstream_from_service target_port
find_upstream_from_service_lem choose s src svc port u h =
    elim (Option-cases (load_balance choose s src svc port)) [
      | inl n ↦ absurd (ground arith)
      | inr (b, e) ↦ elim (Option-cases (target_port svc port b)) [
        | inl n ↦ absurd (ground arith)
        | inr (p, t) ↦ (b, p, e, ground arith, target_port-cases svc port b p t)
      ]
    ]
