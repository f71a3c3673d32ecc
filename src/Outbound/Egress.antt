-- ===== src/Outbound/Egress.antt =====
-- Which connections leave, and by which way.
use ztunnel.Common.{
  ℕ, ◌≡◌, refl, ◌⊎◌, filter_map, if◌then◌else◌, inl, inr, Bool, true, false, List, [], ◌∷◌, ◌++◌,
  Option, none, some, All, find, nat_eq, string_eq,
}
use ztunnel.Common.Outcome.{Result, ok, err}
use ztunnel.Extensions.{
  EgressPolicy, EgressPolicies, EgressPolicyAction, passthrough, deny, to_gateway,
}
use ztunnel.Net.{IpAddr, ip_eq, IpNetApi, SocketAddr}
use ztunnel.State.Upstream.{Upstream, UpstreamError}
use ztunnel.Workload.{Workload, GatewayAddress, identity}
use ztunnel.Outbound.{
  Request, OutboundError, hbone, matches_egress, match_egress_policy, act, apply_egress_policy,
  build_request, direct, tcp, self_call, egress_policy_denied, egress_policy_gateway_missing,
  waypoint_error, through_waypoint, identity_of,
}
use ztunnel.Outbound.Matches.{
  policies_of, is_self_call, Matches, IsFirst, find-IsFirst, find-none, matches_egress_iff,
}

module _ (fetch : GatewayAddress → Workload → SocketAddr → Result UpstreamError Upstream)
    (net : IpNetApi) (source : Workload) (target : SocketAddr) where
  -- The connection goes straight to its target, as it is.
  pub record IsDirect (r : Request) : Type 0 where
    pub plain : r.protocol ≡ tcp
    pub from : r.source ≡ source
    pub straight : r.actual_destination ≡ target
    pub bare : r.hbone_target_destination ≡ none
    pub unchecked : (r.actual_destination_workload ≡ none) × (r.upstream_sans ≡ [])

  -- The connection goes inside HBONE to an upstream, which answers with its own identity or that of its
  -- Services.
  pub record IsTunnelled (u : Upstream) (r : Request) : Type 0 where
    pub tunnel : r.protocol ≡ hbone
    pub from : r.source ≡ source
    pub inside : r.hbone_target_destination ≡ some target
    pub to : r.actual_destination ≡ record { ip = u.selected_workload_ip; port = u.port }
    pub workload : r.actual_destination_workload ≡ some u.workload
    pub checked :
        r.upstream_sans ≡ filter_map identity_of u.service_sans ++ (identity u.workload ∷ [])

  -- What the egress policies make of a connection.
  pub data IsRouted (ps : List EgressPolicy) : Result OutboundError Request → Type 0 where
    unmatched :
        (r : Request)
        → All (λ q. Matches net source.namespace target q → ⊥) ps
        → IsDirect r
        → IsRouted ps (ok r)
    passed :
        (p : EgressPolicy) (r : Request)
        → IsFirst (Matches net source.namespace target) ps p
        → p.policy ≡ passthrough
        → IsDirect r
        → IsRouted ps (ok r)
    denied :
        (p : EgressPolicy)
        → IsFirst (Matches net source.namespace target) ps p
        → p.policy ≡ deny
        → IsRouted ps (err (egress_policy_denied target))
    no_gateway :
        (p : EgressPolicy)
        → IsFirst (Matches net source.namespace target) ps p
        → p.policy ≡ to_gateway
        → p.gateway ≡ none
        → IsRouted ps (err (egress_policy_gateway_missing target))
    no_upstream :
        (p : EgressPolicy) (gw : GatewayAddress) (e : UpstreamError)
        → IsFirst (Matches net source.namespace target) ps p
        → p.policy ≡ to_gateway
        → p.gateway ≡ some gw
        → fetch gw source target ≡ err e
        → IsRouted ps (err (waypoint_error e))
    tunnelled :
        (p : EgressPolicy) (gw : GatewayAddress) (u : Upstream) (r : Request)
        → IsFirst (Matches net source.namespace target) ps p
        → p.policy ≡ to_gateway
        → p.gateway ≡ some gw
        → fetch gw source target ≡ ok u
        → IsTunnelled u r
        → IsRouted ps (ok r)

  direct-IsDirect : IsDirect (direct source target)
  direct-IsDirect = record {
    plain = refl;
    from = refl;
    straight = refl;
    bare = refl;
    unchecked = (refl, refl);
  }

  abbrev settle : Option (Result OutboundError Request) → Result OutboundError Request
  settle none = ok (direct source target)
  settle (some result) = result

  through_waypoint-IsRouted :
      (ps : List EgressPolicy) (p : EgressPolicy) (gw : GatewayAddress)
      (answer : Result UpstreamError Upstream)
      → IsFirst (Matches net source.namespace target) ps p
      → p.policy ≡ to_gateway
      → p.gateway ≡ some gw
      → fetch gw source target ≡ answer
      → IsRouted ps (through_waypoint source target answer)
  through_waypoint-IsRouted ps p gw (err e) f a g h = no_upstream p gw e f a g h
  through_waypoint-IsRouted ps p gw (ok u) f a g h = tunnelled p gw u _ f a g h (record {
    tunnel = refl;
    from = refl;
    inside = refl;
    to = refl;
    workload = refl;
    checked = refl;
  })

  act-IsRouted :
      (ps : List EgressPolicy) (p : EgressPolicy) (a : EgressPolicyAction)
      (g : Option GatewayAddress)
      → IsFirst (Matches net source.namespace target) ps p
      → p.policy ≡ a
      → p.gateway ≡ g
      → IsRouted ps (settle (act fetch source target a g))
  act-IsRouted ps p passthrough g f a gw = passed p (direct source target) f a direct-IsDirect
  act-IsRouted ps p deny g f a gw = denied p f a
  act-IsRouted ps p to_gateway none f a gw = no_gateway p f a gw
  act-IsRouted ps p to_gateway (some gate) f a gw =
      through_waypoint-IsRouted ps p gate (fetch gate source target) f a gw refl

  matched-IsRouted :
      (ps : List EgressPolicy) (found : Option EgressPolicy)
      → find (matches_egress net source.namespace target) ps ≡ found
      → IsRouted ps (
          settle (elim found [
            | none ↦ none
            | some policy ↦ act fetch source target policy.policy policy.gateway
          ]))
  matched-IsRouted ps none e =
      let agrees = matches_egress_iff net source.namespace target in
      unmatched (direct source target)
        (find-none (matches_egress net source.namespace target) _ agrees ps e) direct-IsDirect
  matched-IsRouted ps (some p) e =
      let agrees = matches_egress_iff net source.namespace target in
      act-IsRouted ps p p.policy p.gateway
        (find-IsFirst (matches_egress net source.namespace target) _ agrees ps p e) refl refl

  apply_egress_policy-IsRouted :
      (egress : Option EgressPolicies)
      → IsRouted (policies_of egress) (settle (apply_egress_policy fetch net source egress target))
  unfolding apply_egress_policy match_egress_policy
  apply_egress_policy-IsRouted none = unmatched (direct source target) tt direct-IsDirect
  apply_egress_policy-IsRouted (some policies) = matched-IsRouted policies.policies _ refl

  settle_self-call :
      (self : Bool) (o : Option (Result OutboundError Request)) (ps : List EgressPolicy)
      → IsRouted ps (settle o)
      → ((self ≡ true)
          × ((if self
                then err self_call
                else elim o [ none ↦ ok (direct source target) | some result ↦ result ])
              ≡ err self_call))
        ⊎ ((self ≡ false)
            × IsRouted ps (
                if self
                then err self_call
                else elim o [ none ↦ ok (direct source target) | some result ↦ result ]))
  settle_self-call true o ps h = inl (refl, refl)
  settle_self-call false none ps h = inr (refl, h)
  settle_self-call false (some result) ps h = inr (refl, h)

  -- A connection from a source with or without egress policies that asks for a port of the proxy on the
  -- loopback or on the source is refused as a self call. Any other goes straight to its target, as
  -- plain TCP, where no egress policy matches or the first that matches passes it through; is refused
  -- where that one denies, or names no gateway, or its gateway is not found; and otherwise tunnels
  -- through HBONE to the gateway, with the target inside.
  pub build_request-IsRouted :
      (egress : Option EgressPolicies) (illegal_ports : List ℕ) (is_loopback : IpAddr → Bool)
      → ((is_self_call source target illegal_ports is_loopback ≡ true)
          × (build_request fetch net illegal_ports is_loopback source egress target
              ≡ err self_call))
        ⊎ ((is_self_call source target illegal_ports is_loopback ≡ false)
            × IsRouted
                (policies_of egress)
                (build_request fetch net illegal_ports is_loopback source egress target))
  unfolding build_request
  build_request-IsRouted egress illegal_ports is_loopback =
      settle_self-call (is_self_call source target illegal_ports is_loopback)
        (apply_egress_policy fetch net source egress target) (policies_of egress)
        (apply_egress_policy-IsRouted egress)
