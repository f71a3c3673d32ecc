-- ===== src/Extensions/Tests.antt =====
-- The conversion of an egress policy at an example.
use ztunnel.Common.{◌≡◌, refl, [], ◌∷◌, none, some}
use ztunnel.Common.Outcome.{ok}
use ztunnel.Common.Texts.{split_once, first_segment, second_segment, parse_u16, parse_digits}
use ztunnel.Net.{v4}
use ztunnel.Workload.{hostname}
use ztunnel.Extensions.{
  EgressPolicy, ProtoEgressPolicy, DecodeApi, to_gateway, egress_policy_of, parse_cidrs,
  parse_ports, parse_gateway_address,
}
use ztunnel.Extensions.Valid.{IsValidEgress, egress_policy_of-IsValidEgress}

abbrev api : DecodeApi
api = record {
  parse_net = λ c. some (record { addr = v4 0; prefix_len = 0 });
  decode_metadata = λ b. none;
  decode_egress_policies = λ b. none;
}

abbrev proto : ProtoEgressPolicy
proto = record {
  namespaces = "a" ∷ "a" ∷ [];
  match_cidrs = "0.0.0.0/0" ∷ [];
  match_ports = "443" ∷ "+80" ∷ [];
  policy = 2;
  gateway = some (record { service = "gw.ns.svc.cluster.local"; port = 0 });
}

abbrev accepted : EgressPolicy
accepted = record {
  namespaces = "a" ∷ [];
  match_cidrs = record { addr = v4 0; prefix_len = 0 } ∷ [];
  match_ports = 443 ∷ 80 ∷ [];
  policy = to_gateway;
  gateway = some (record {
    destination = hostname (record { namespace = "ns"; hostname = "gw.ns.svc.cluster.local" });
    hbone_mtls_port = 15008;
  });
}

proto-accepted : egress_policy_of api proto ≡ ok accepted
unfolding egress_policy_of parse_cidrs parse_ports parse_gateway_address parse_u16 parse_digits
    first_segment second_segment split_once
proto-accepted = refl

egress_policy_of-IsValidEgress_example : IsValidEgress accepted
egress_policy_of-IsValidEgress_example =
    egress_policy_of-IsValidEgress api proto accepted proto-accepted
