-- ===== src/Extensions.antt =====
-- src/extensions/extensions.rs: the typed extensions of a Workload. The decoders of messages and the
-- parser of CIDRs are parameters.
pub mod Valid
mod Tests
use Prim.Native.Char.{code}
use ztunnel.Common.{
  ℕ, ◌+◌, ◌-◌, ◌*◌, ◌≡◌, Bool, true, false, not, ◌&&◌, List, [], ◌∷◌, Option, none, some, String,
  leb, ltb, nat_beq, is_none, contains, ◌==◌, string_eq, if◌then◌else◌,
}
use ztunnel.Common.Map.{Map}
use ztunnel.Common.Outcome.{Result, ok, err, ◌>>=◌, ◌>>◌, ensure, traverse, transpose}
use ztunnel.Common.Texts.{first_segment, second_segment, parse_u16}
use ztunnel.Net.{IpNet}
use ztunnel.Workload.{GatewayAddress, Destination, hostname}

pub data EgressPolicyAction : Type 0 where
  passthrough deny to_gateway : EgressPolicyAction

pub data EgressPolicyError : Type 0 where
  unknown_action : ℕ → EgressPolicyError
  invalid_cidr invalid_port invalid_gateway_service : String → EgressPolicyError
  invalid_gateway_port : ℕ → EgressPolicyError
  missing_gateway unexpected_gateway decode : EgressPolicyError

pub record EgressPolicy : Type 0 where
  pub namespaces : List String
  pub match_cidrs : List IpNet
  pub match_ports : List ℕ  -- u16
  pub policy : EgressPolicyAction
  pub gateway : Option GatewayAddress

pub record EgressPolicies : Type 0 where
  pub policies : List EgressPolicy

pub record ProtoGateway : Type 0 where
  pub service : String
  pub port : ℕ  -- u32

pub record ProtoEgressPolicy : Type 0 where
  pub namespaces : List String
  pub match_cidrs : List String
  pub match_ports : List String
  pub policy : ℕ
  pub gateway : Option ProtoGateway

pub record ProtoWorkloadMetadata : Type 0 where
  pub labels : Map String String

-- `google.protobuf.Any`
pub record AnyConfig : Type 0 where
  pub type_url : String
  pub value : List ℕ  -- bytes

pub record XdsExtension : Type 0 where
  pub name : String
  pub config : Option AnyConfig

pub record RawExtension : Type 0 where
  pub name : String
  pub config_type_url : Option String
  pub config_raw : Option (List ℕ)

pub data WorkloadExtension : Type 0 where
  workload_metadata : ProtoWorkloadMetadata → WorkloadExtension
  egress_policies : EgressPolicies → WorkloadExtension
  raw : RawExtension → WorkloadExtension

-- What other crates decode and parse.
pub record DecodeApi : Type 0 where
  pub parse_net : String → Option IpNet
  pub decode_metadata : List ℕ → Option ProtoWorkloadMetadata
  pub decode_egress_policies : List ℕ → Option (List ProtoEgressPolicy)

abbrev pub raw_of : String → AnyConfig → WorkloadExtension
raw_of name any =
    raw (record { name = name; config_type_url = some any.type_url; config_raw = some any.value })

abbrev pub egress_action_of : ℕ → Result EgressPolicyError EgressPolicyAction
egress_action_of n =
    if nat_beq n 0
    then ok passthrough
    else if nat_beq n 1
    then ok deny
    else if nat_beq n 2
    then ok to_gateway
    else err (unknown_action n)

abbrev pub is_gateway : EgressPolicyAction → Bool
is_gateway passthrough = false
is_gateway deny = false
is_gateway to_gateway = true

abbrev pub or_invalid {ℓ} : {A : Type ℓ} → EgressPolicyError → Option A → Result EgressPolicyError A
or_invalid e none = err e
or_invalid e (some a) = ok a

-- A repeated namespace is kept once, as the set keeps it.
abbrev pub as_set : List String → List String
as_set [] = []
as_set (n ∷ ns) = let rest = as_set ns in if contains rest n then rest else n ∷ rest

-- Port 0 is the default of the tunnel.
abbrev pub gateway_port : ℕ → Result EgressPolicyError ℕ
gateway_port port =
    if nat_beq port 0
    then ok 15008
    else if ltb port 65536
    then ok port
    else err (invalid_gateway_port port)

unfoldable pub parse_gateway_address : String → ℕ → Result EgressPolicyError GatewayAddress
parse_gateway_address svc port = do
  ensure (not (first_segment svc == "") && not (second_segment svc == ""))
      (invalid_gateway_service svc)
  p ← gateway_port port
  ok (record {
    destination = hostname (record { namespace = second_segment svc; hostname = svc });
    hbone_mtls_port = p;
  })

module _ (api : DecodeApi) where
  pub parse_cidrs : List String → Result EgressPolicyError (List IpNet)
  parse_cidrs cidrs = traverse (λ c. or_invalid (invalid_cidr c) (api.parse_net c)) cidrs

  pub parse_ports : List String → Result EgressPolicyError (List ℕ)
  parse_ports ports = traverse (λ p. or_invalid (invalid_port p) (parse_u16 p)) ports

  unfoldable pub egress_policy_of : ProtoEgressPolicy → Result EgressPolicyError EgressPolicy
  egress_policy_of value = do
    policy ← egress_action_of value.policy
    match_cidrs ← parse_cidrs value.match_cidrs
    match_ports ← parse_ports value.match_ports
    gw ← transpose (λ g. parse_gateway_address g.service g.port) value.gateway
    ensure (not (is_gateway policy && is_none gw)) missing_gateway
    ok (record {
      namespaces = as_set value.namespaces;
      match_cidrs = match_cidrs;
      match_ports = match_ports;
      policy = policy;
      gateway = gw;
    })

  pub egress_policies_of : List ProtoEgressPolicy → Result EgressPolicyError EgressPolicies
  egress_policies_of values = do
    policies ← traverse egress_policy_of values
    ok (record { policies = policies })

  -- `TryFrom<XdsWorkloadExtension> for WorkloadExtension`. Metadata that cannot be decoded stay raw.
  pub extension_of : XdsExtension → Result EgressPolicyError WorkloadExtension
  extension_of value = elim value.config [
    | none ↦ ok (raw (record { name = value.name; config_type_url = none; config_raw = none }))
    | some any ↦
        if any.type_url == "type.googleapis.com/kruise.networking.extensions.v1.WorkloadMetadata"
        then elim (api.decode_metadata any.value) [
          | none ↦ ok (raw_of value.name any)
          | some m ↦ ok (workload_metadata m)
        ]
        else if any.type_url == "type.googleapis.com/kruise.networking.extensions.v1.EgressPolicies"
        then elim (api.decode_egress_policies any.value) [
          | none ↦ err decode
          | some values ↦ egress_policies_of values >>= λ p. ok (egress_policies p)
        ]
        else ok (raw_of value.name any)
  ]
