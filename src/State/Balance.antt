-- ===== src/State/Balance.antt =====
-- `find_upstream`, `find_upstream_from_service` and `load_balance` of src/state.rs. The random choice
-- among the options is `rand`'s, and a parameter.
pub mod Laws
use ztunnel.Common.{
  ℕ, suc, ◌+◌, ◌≡◌, Bool, true, false, not, ◌&&◌, ◌||◌, List, [], ◌∷◌, Option, none, some, String,
  is_empty, is_none, length, retain, filter_map, map, leb, ltb, nat_beq, nat_eq, max_of, ◌==◌,
  string_eq, if◌then◌else◌,
}
use ztunnel.Common.Map
use ztunnel.Net.{SocketAddr, is_ipv6}
use ztunnel.State.{ProxyState}
use ztunnel.Service.{
  Service, Endpoint, LoadBalancer, LoadBalancerMode, standard, strict, failover, passthrough,
  LoadBalancerScopes, region, zone, subzone, node, cluster, network,
}
use ztunnel.Service.Index.{get_by_vip}
use ztunnel.Workload.{Workload, ApplicationTunnel}
use ztunnel.Workload.Index.{find_uid, find_address, network_addr}

-- An endpoint with its Workload.
pub record Backend : Type 0 where
  pub endpoint : Endpoint
  pub workload : Workload

pub data UpstreamDestination : Type 0 where
  upstream_parts : Workload → ℕ → Option Service → UpstreamDestination
  original_destination : UpstreamDestination

abbrev pub is_strict : LoadBalancerMode → Bool
is_strict strict = true
is_strict _ = false

abbrev pub is_standard : LoadBalancerMode → Bool
is_standard standard = true
is_standard _ = false

abbrev pub is_passthrough : LoadBalancerMode → Bool
is_passthrough passthrough = true
is_passthrough _ = false

abbrev pub scope_matches : LoadBalancerScopes → Workload → Workload → Bool
scope_matches region src wl = src.locality.region == wl.locality.region
scope_matches zone src wl = src.locality.zone == wl.locality.zone
scope_matches subzone src wl = src.locality.subzone == wl.locality.subzone
scope_matches node src wl = src.node == wl.node
scope_matches cluster src wl = src.cluster_id == wl.cluster_id
scope_matches network src wl = src.network == wl.network

-- How many scopes match before the first that does not.
pub rank : List LoadBalancerScopes → Workload → Workload → ℕ
rank [] src wl = 0
rank (t ∷ ts) src wl = let rest = suc (rank ts src wl) in if scope_matches t src wl then rest else 0

-- The body of the first `filter_map`.
pub candidate : ProxyState → Option ℕ → Endpoint → Option Backend
candidate s target_port ep = elim (find_uid ep.workload_uid s.workloads) [
  | none ↦ none
  | some wl ↦
      if is_empty wl.workload_ips && wl.hostname == ""
      then none
      else if is_none target_port && is_none wl.application_tunnel
      then none
      else some (record { endpoint = ep; workload = wl })
]

pub candidates : ProxyState → Service → ℕ → List Backend
unfolding candidate
candidates s svc svc_port =
    filter_map (λ ep. candidate s (Map.get svc_port svc.ports) ep) (Map.values svc.endpoints)

-- In the strict mode a candidate that does not match every scope is dropped.
pub ranked : LoadBalancer → Workload → List Backend → List Backend
unfolding rank
ranked lb src bs =
    retain
      (λ b. not (
        is_strict lb.mode
        && not
            (nat_beq (rank lb.routing_preferences src b.workload) (length lb.routing_preferences))))
      bs

-- `ranks.max()`, and the options that reach it.
pub top_ranked : LoadBalancer → Workload → List Backend → Option (List Backend)
unfolding rank
top_ranked lb src bs = elim (max_of (map (λ b. rank lb.routing_preferences src b.workload) bs)) [
  | none ↦ none
  | some top ↦ some (retain (λ b. nat_beq (rank lb.routing_preferences src b.workload) top) bs)
]

abbrev pub options : Option LoadBalancer → Workload → List Backend → Option (List Backend)
options none src bs = some bs
options (some lb) src bs =
    if is_standard lb.mode then some bs else top_ranked lb src (ranked lb src bs)

abbrev pub is_passthrough_balancer : Option LoadBalancer → Bool
is_passthrough_balancer none = false
is_passthrough_balancer (some lb) = is_passthrough lb.mode

abbrev pub port_or_zero : Option ℕ → ℕ
port_or_zero none = 0
port_or_zero (some p) = p

abbrev pub has_tunnel_port : Option ApplicationTunnel → Bool
has_tunnel_port none = false
has_tunnel_port (some t) = not (is_none t.port)

-- The endpoint's mapping, else the Service's, else the port itself for an application tunnel.
pub target_port : Service → ℕ → Backend → Option ℕ
target_port svc svc_port b = elim (Map.get svc_port b.endpoint.port) [
  | some p ↦ some p
  | none ↦
      if ltb 0 (port_or_zero (Map.get svc_port svc.ports))
      then some (port_or_zero (Map.get svc_port svc.ports))
      else if has_tunnel_port b.workload.application_tunnel
      then some svc_port
      else none
]

module _ (choose_weighted : List Backend → Option Backend) where
  unfoldable pub load_balance : ProxyState → Workload → Service → ℕ → Option Backend
  unfolding candidates ranked top_ranked
  load_balance s src svc svc_port =
      elim (options svc.load_balancer src (candidates s svc svc_port)) [
        | none ↦ none
        | some bs ↦ choose_weighted bs
      ]

  unfoldable pub find_upstream_from_service :
      ProxyState → Workload → ℕ → Service → Option UpstreamDestination
  unfolding load_balance target_port
  find_upstream_from_service s src svc_port svc = elim (load_balance s src svc svc_port) [
    | none ↦ none
    | some b ↦ elim (target_port svc svc_port b) [
      | none ↦ none
      | some port ↦ some (upstream_parts b.workload port (some svc))
    ]
  ]

  abbrev pub workload_upstream : Option Workload → ℕ → Option UpstreamDestination
  workload_upstream none port = none
  workload_upstream (some wl) port = some (upstream_parts wl port none)

  pub find_upstream : ProxyState → String → Workload → SocketAddr → Option UpstreamDestination
  unfolding find_upstream_from_service
  find_upstream s net src addr = elim (get_by_vip (network_addr net addr.ip) s.services) [
    | some svc ↦
        if is_passthrough_balancer svc.load_balancer
        then some original_destination
        else find_upstream_from_service s src addr.port svc
    | none ↦ workload_upstream (find_address (network_addr net addr.ip) s.workloads) addr.port
  ]
