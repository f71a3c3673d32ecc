-- ===== src/Outbound.antt =====
-- src/proxy/outbound.rs: the request that is built for a connection, and the egress policies that
-- decide it. The egress policies of the source Workload stand beside it. The selected Sandbox, which
-- the request carries along, is left out.
pub mod Matches
pub mod Egress
mod Tests
use ztunnel.Common.{
  ℕ, ◌≡◌, Bool, true, false, ◌&&◌, ◌||◌, List, [], ◌∷◌, ◌++◌, Option, none, some, String, any, find,
  contains, is_empty, filter_map, nat_eq, string_eq, if◌then◌else◌,
}
use ztunnel.Common.Outcome.{Result, ok, err}
use ztunnel.Common.Texts.{strip_prefix, split}
use ztunnel.Extensions.{
  EgressPolicy, EgressPolicies, EgressPolicyAction, passthrough, deny, to_gateway,
}
use ztunnel.Net.{IpAddr, ip_eq, IpNetApi, SocketAddr, Identity}
use ztunnel.State.{ProxyState}
use ztunnel.State.Upstream.{Upstream, UpstreamError}
use ztunnel.Workload.{Workload, GatewayAddress, identity}

-- `FromStr for Identity`, of the parts of a URI; `none` is its error.
abbrev pub identity_of_parts : List String → Option Identity
identity_of_parts [] = none
identity_of_parts (a ∷ []) = none
identity_of_parts (a ∷ b ∷ []) = none
identity_of_parts (a ∷ b ∷ c ∷ []) = none
identity_of_parts (a ∷ b ∷ c ∷ d ∷ []) = none
identity_of_parts (a ∷ b ∷ c ∷ d ∷ e ∷ f ∷ rest) = none
identity_of_parts (trust_domain ∷ ns ∷ namespace ∷ sa ∷ service_account ∷ []) =
    if string_eq.beq ns "ns" && string_eq.beq sa "sa"
    then some (record {
      trust_domain = trust_domain;
      namespace = namespace;
      service_account = service_account;
    })
    else none

pub identity_of : String → Option Identity
identity_of s = elim (strip_prefix "spiffe://" s) [
  | none ↦ none
  | some rest ↦ identity_of_parts (split 47 rest)
]

abbrev pub workload_socket_addr : Upstream → SocketAddr
workload_socket_addr u = record { ip = u.selected_workload_ip; port = u.port }

-- A SAN that cannot be parsed is passed over.
abbrev pub workload_and_services_san : Upstream → List Identity
workload_and_services_san u = filter_map identity_of u.service_sans ++ (identity u.workload ∷ [])

pub data OutboundProtocol : Type 0 where
  tcp hbone : OutboundProtocol

pub record Request : Type 0 where
  pub protocol : OutboundProtocol
  pub source : Workload
  pub actual_destination_workload : Option Workload
  pub actual_destination : SocketAddr
  pub hbone_target_destination : Option SocketAddr
  pub upstream_sans : List Identity

pub data OutboundError : Type 0 where
  self_call : OutboundError
  egress_policy_denied egress_policy_gateway_missing : SocketAddr → OutboundError
  waypoint_error : UpstreamError → OutboundError

-- An empty list matches anything.
pub matches_egress : IpNetApi → String → SocketAddr → EgressPolicy → Bool
matches_egress net source_namespace target policy =
    (is_empty policy.namespaces || contains policy.namespaces source_namespace)
    && ((is_empty policy.match_cidrs
          || any (λ cidr. net.contains cidr target.ip) policy.match_cidrs)
        && (is_empty policy.match_ports || contains policy.match_ports target.port))

unfoldable pub match_egress_policy :
    IpNetApi → EgressPolicies → String → SocketAddr → Option EgressPolicy
match_egress_policy net policies source_namespace target =
    find (matches_egress net source_namespace target) policies.policies

abbrev pub match_source_egress_policy :
    IpNetApi → Workload → Option EgressPolicies → SocketAddr → Option EgressPolicy
match_source_egress_policy net source none target = none
match_source_egress_policy net source (some policies) target =
    match_egress_policy net policies source.namespace target

abbrev pub through_waypoint :
    Workload → SocketAddr → Result UpstreamError Upstream → Result OutboundError Request
through_waypoint source target (err e) = err (waypoint_error e)
through_waypoint source target (ok waypoint) = ok (record {
  protocol = hbone;
  source = source;
  actual_destination_workload = some waypoint.workload;
  actual_destination = workload_socket_addr waypoint;
  hbone_target_destination = some target;
  upstream_sans = workload_and_services_san waypoint;
})

abbrev pub direct : Workload → SocketAddr → Request
direct source target = record {
  protocol = tcp;
  source = source;
  actual_destination_workload = none;
  actual_destination = target;
  hbone_target_destination = none;
  upstream_sans = [];
}

-- `fetch` is `fetch_waypoint` of the state: the address of a gateway, the source and the target.
module _ (fetch : GatewayAddress → Workload → SocketAddr → Result UpstreamError Upstream) where
  abbrev pub act :
      Workload
      → SocketAddr
      → EgressPolicyAction
      → Option GatewayAddress
      → Option (Result OutboundError Request)
  act source target passthrough gw = none
  act source target deny gw = some (err (egress_policy_denied target))
  act source target to_gateway none = some (err (egress_policy_gateway_missing target))
  act source target to_gateway (some gw) =
      some (through_waypoint source target (fetch gw source target))

  unfoldable pub apply_egress_policy :
      IpNetApi
      → Workload
      → Option EgressPolicies
      → SocketAddr
      → Option (Result OutboundError Request)
  apply_egress_policy net source egress target =
      elim (match_source_egress_policy net source egress target) [
        | none ↦ none
        | some policy ↦ act source target policy.policy policy.gateway
      ]

  unfoldable pub build_request :
      IpNetApi
      → (illegal_ports : List ℕ) → (is_loopback : IpAddr → Bool) → Workload
      → Option EgressPolicies
      → SocketAddr
      → Result OutboundError Request
  build_request net illegal_ports is_loopback source egress target =
      if contains illegal_ports target.port
        && (is_loopback target.ip || contains source.workload_ips target.ip)
      then err self_call
      else elim (apply_egress_policy net source egress target) [
        | none ↦ ok (direct source target)
        | some result ↦ result
      ]
