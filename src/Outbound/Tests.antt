-- ===== src/Outbound/Tests.antt =====
-- The egress policies at an example.
use ztunnel.Common.{◌≡◌, refl, ◌⊎◌, true, false, [], ◌∷◌, none, some, nat_eq}
use ztunnel.Common.Outcome.{Result, ok, err}
use ztunnel.Examples.{net, near, far}
use ztunnel.Extensions.{EgressPolicies, deny, to_gateway}
use ztunnel.Net.{ip_eq, v4, SocketAddr}
use ztunnel.State.Upstream.{Upstream, UpstreamError}
use ztunnel.Workload.{Workload, GatewayAddress, hostname}
use ztunnel.Outbound.{
  Request, self_call, hbone, build_request, apply_egress_policy, match_egress_policy,
  matches_egress,
}
use ztunnel.Outbound.Egress.{IsRouted, build_request-IsRouted}
use ztunnel.Outbound.Matches.{is_self_call, policies_of}

abbrev gate : GatewayAddress
gate = record {
  destination = hostname (record { namespace = "ns"; hostname = "gw.ns.svc" });
  hbone_mtls_port = 15008;
}

abbrev waypoint : Upstream
waypoint = record { workload = far; selected_workload_ip = v4 3; port = 15008; service_sans = [] }

abbrev fetch : GatewayAddress → Workload → SocketAddr → Result UpstreamError Upstream
fetch gw source target = ok waypoint

abbrev target : SocketAddr
target = record { ip = v4 77; port = 443 }

-- Port 22 is denied, and what is left goes through the gateway.
abbrev egress : EgressPolicies
egress = record {
  policies =
      record {
        namespaces = [];
        match_cidrs = [];
        match_ports = 22 ∷ [];
        policy = deny;
        gateway = none;
      }
      ∷ record {
        namespaces = "ns" ∷ [];
        match_cidrs = [];
        match_ports = [];
        policy = to_gateway;
        gateway = some gate;
      }
      ∷ [];
}

abbrev tunnel : Request
tunnel = record {
  protocol = hbone;
  source = near;
  actual_destination_workload = some far;
  actual_destination = record { ip = v4 3; port = 15008 };
  hbone_target_destination = some target;
  upstream_sans =
      record { trust_domain = "cluster.local"; namespace = "ns"; service_account = "sa" } ∷ [];
}

tunnels : build_request fetch net (15001 ∷ []) (λ ip. false) near (some egress) target ≡ ok tunnel
unfolding build_request apply_egress_policy match_egress_policy matches_egress
tunnels = refl

build_request-IsRouted_example :
    ((is_self_call near target (15001 ∷ []) (λ ip. false) ≡ true)
      × (build_request fetch net (15001 ∷ []) (λ ip. false) near (some egress) target
          ≡ err self_call))
    ⊎ ((is_self_call near target (15001 ∷ []) (λ ip. false) ≡ false)
        × IsRouted fetch net near target
            (policies_of (some egress))
            (build_request fetch net (15001 ∷ []) (λ ip. false) near (some egress) target))
build_request-IsRouted_example =
    build_request-IsRouted fetch net near target (some egress) (15001 ∷ []) (λ ip. false)
