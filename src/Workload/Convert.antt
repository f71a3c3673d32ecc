-- ===== src/Workload/Convert.antt =====
-- The conversion of a Workload of the control plane, in src/state/workload.rs. An enumeration is its
-- number, as it stands in the message.
use ztunnel.Common.{
  ℕ, ◌%◌, ◌^◌, Bool, true, false, not, ◌||◌, List, [], ◌∷◌, Option, none, some, String, nat_beq,
  nat_eq, is_some, contains, ◌==◌, string_eq, if◌then◌else◌,
}
use ztunnel.Common.Map
use ztunnel.Common.Map.{Map, keys}
use ztunnel.Common.Outcome.{Result, ok, err, ◌>>=◌, ◌>>◌, ensure, traverse, transpose}
use ztunnel.Common.Texts.{split_once}
use ztunnel.Net.{NamespacedHostname, NetworkAddress, byte_to_ip}
use ztunnel.Workload.{
  Workload, InboundProtocol, NetworkMode, HealthStatus, healthy, unhealthy, Locality, Destination,
  GatewayAddress, TunnelProtocol, no_tunnel, ApplicationTunnel,
}
use ztunnel.Extensions.{AnyConfig, XdsExtension, DecodeApi, EgressPolicyError, extension_of}

pub data WorkloadError : Type 0 where
  missing_config duplicate_reference unsupported_policy_type invalid_policy_name : WorkloadError
  namespaced_hostname_parse : String → WorkloadError
  byte_address_parse enum_error : ℕ → WorkloadError
  enum_parse missing_gateway_address decode_error : WorkloadError
  egress_policy : EgressPolicyError → WorkloadError

pub record XdsPort : Type 0 where
  pub service_port : ℕ  -- u32
  pub target_port : ℕ  -- u32

pub record XdsNetworkAddress : Type 0 where
  pub network : String
  pub address : List ℕ  -- bytes

pub data XdsDestination : Type 0 where
  to_address : XdsNetworkAddress → XdsDestination
  to_hostname : NamespacedHostname → XdsDestination

pub record XdsGatewayAddress : Type 0 where
  pub destination : Option XdsDestination
  pub hbone_mtls_port : ℕ  -- u32

pub record XdsApplicationTunnel : Type 0 where
  pub protocol : ℕ
  pub port : ℕ  -- u32

pub record PolicyReference : Type 0 where
  pub type_url : String
  pub resources : List String  -- the names

pub record XdsWorkload : Type 0 where
  pub uid : String
  pub name : String
  pub namespace : String
  pub addresses : List (List ℕ)
  pub hostname : String
  pub network : String
  pub tunnel_protocol : ℕ
  pub trust_domain : String
  pub service_account : String
  pub waypoint : Option XdsGatewayAddress
  pub node : String
  pub canonical_name : String
  pub canonical_revision : String
  pub workload_type : ℕ
  pub workload_name : String
  pub native_tunnel : Bool
  pub application_tunnel : Option XdsApplicationTunnel
  pub services : Map String (List XdsPort)
  pub status : ℕ
  pub cluster_id : String
  pub locality : Option Locality
  pub network_mode : ℕ
  pub extensions : List XdsExtension
  pub capacity : Option ℕ  -- u32

-- `as u16`
abbrev pub as_u16 : ℕ → ℕ
as_u16 n = n % 2 ^ 16

-- `From<&PortList> for HashMap<u16, u16>`: the last of the pairs with one key stays.
abbrev pub collect_ports : List XdsPort → Map ℕ ℕ → Map ℕ ℕ
collect_ports [] m = m
collect_ports (p ∷ ps) m =
    collect_ports ps (Map.insert (as_u16 p.service_port) (as_u16 p.target_port) m)

abbrev pub ports_of : List XdsPort → Map ℕ ℕ
ports_of ps = collect_ports ps []

abbrev pub of_bytes {ℓ} : {A : Type ℓ} → Result ℕ A → Result WorkloadError A
of_bytes (ok a) = ok a
of_bytes (err n) = err (byte_address_parse n)

abbrev pub address_of : XdsNetworkAddress → Result WorkloadError NetworkAddress
address_of a = do
  ip ← of_bytes (byte_to_ip a.address)
  ok (record { network = a.network; address = ip })

unfoldable pub gateway_of : XdsGatewayAddress → Result WorkloadError GatewayAddress
gateway_of value = elim value.destination [
  | none ↦ err missing_gateway_address
  | some (to_address a) ↦ address_of a >>= λ addr. ok (record {
    destination = Destination.address addr;
    hbone_mtls_port = as_u16 value.hbone_mtls_port;
  })
  | some (to_hostname hn) ↦ ok (record {
    destination = Destination.hostname hn;
    hbone_mtls_port = as_u16 value.hbone_mtls_port;
  })
]

abbrev pub tunnel_of : ℕ → Result WorkloadError TunnelProtocol
tunnel_of n =
    if nat_beq n 0
    then ok no_tunnel
    else if nat_beq n 1
    then ok TunnelProtocol.proxy
    else err (enum_error n)

abbrev pub application_tunnel_of : XdsApplicationTunnel → Result WorkloadError ApplicationTunnel
application_tunnel_of value = do
  protocol ← tunnel_of value.protocol
  ok (record {
    protocol = protocol;
    port = if nat_beq value.port 0 then none else some (as_u16 value.port);
  })

abbrev pub inbound_of : ℕ → Result WorkloadError InboundProtocol
inbound_of n =
    if nat_beq n 0
    then ok InboundProtocol.tcp
    else if nat_beq n 1
    then ok InboundProtocol.hbone
    else err (enum_error n)

abbrev pub network_mode_of : ℕ → Result WorkloadError NetworkMode
network_mode_of n =
    if nat_beq n 0
    then ok NetworkMode.standard
    else if nat_beq n 1
    then ok NetworkMode.host_network
    else err (enum_error n)

abbrev pub status_of : ℕ → Result WorkloadError HealthStatus
status_of n =
    if nat_beq n 0 then ok healthy else if nat_beq n 1 then ok unhealthy else err (enum_error n)

-- The name of a type in lower case; an unknown number is the first.
abbrev pub workload_type_of : ℕ → String
workload_type_of n =
    if nat_beq n 1
    then "cronjob"
    else if nat_beq n 2
    then "pod"
    else if nat_beq n 3
    then "job"
    else "deployment"

-- `FromStr for NamespacedHostname`
unfoldable pub host_from_str : String → Result WorkloadError NamespacedHostname
host_from_str value = elim (split_once 47 value) [
  | none ↦ err (namespaced_hostname_parse value)
  | some (namespace, hostname) ↦ ok (record { namespace = namespace; hostname = hostname })
]

abbrev pub or_default : String → String → String
or_default default value = if value == "" then default else value

abbrev pub or_no_locality : Option Locality → Locality
or_no_locality none = record { region = ""; zone = ""; subzone = "" }
or_no_locality (some l) = l

-- The names of the policies are no duplicates, not empty and not the wildcard.
pub check_names : List String → List String → Result WorkloadError (Unit {0})
check_names seen [] = ok tt
check_names seen (name ∷ names) = do
  ensure (not (name == "" || name == "*" || contains seen name)) invalid_policy_name
  check_names (name ∷ seen) names

pub validate_policies : Workload → Result WorkloadError (Unit {0})
unfolding check_names
validate_policies w = elim w.traffic_policy_refs [
  | none ↦ ok tt
  | some names ↦ check_names [] names
]

-- `refs` of an extension that refers to policies.
abbrev pub refs_of :
    (List ℕ → Option PolicyReference)
    → Option AnyConfig
    → Option (List String)
    → Result WorkloadError (List String)
refs_of decode none seen = err missing_config
refs_of decode (some config) seen =
    if is_some seen
      || not
          (config.type_url == "type.googleapis.com/kruise.networking.extensions.v1.PolicyReference")
    then err duplicate_reference
    else elim (decode config.value) [
      | none ↦ err decode_error
      | some refs ↦
          if refs.type_url == "type.googleapis.com/agentio.security.TrafficPolicy"
          then ok refs.resources
          else err unsupported_policy_type
    ]

abbrev pub of_extension {ℓ} : {A : Type ℓ} → Result EgressPolicyError A → Result WorkloadError A
of_extension (ok a) = ok a
of_extension (err e) = err (egress_policy e)

module _ (api : DecodeApi) (decode_reference : List ℕ → Option PolicyReference) where
  -- The loop over the extensions. The labels and the egress policies of an extension are not kept.
  pub refs_in :
      List XdsExtension → Option (List String) → Result WorkloadError (Option (List String))
  refs_in [] refs = ok refs
  refs_in (x ∷ xs) refs = elim (x.name == "traffic-policy-reference") [
    | true ↦ refs_of decode_reference x.config refs >>= λ names. refs_in xs (some names)
    | false ↦ of_extension (extension_of api x) >>= λ _. refs_in xs refs
  ]

  -- `TryFrom<XdsWorkload>`: the Workload, and the ports by Service.
  unfoldable pub workload_of :
      XdsWorkload → Result WorkloadError (Workload × Map String (List XdsPort))
  workload_of resource = do
    waypoint ← transpose gateway_of resource.waypoint
    application_tunnel ← transpose application_tunnel_of resource.application_tunnel
    addresses ← traverse (λ b. of_bytes (byte_to_ip b)) resource.addresses
    services ← traverse host_from_str (keys resource.services)
    refs ← refs_in resource.extensions none
    protocol ← inbound_of resource.tunnel_protocol
    network_mode ← network_mode_of resource.network_mode
    status ← status_of resource.status
    let w : Workload = record {
      workload_ips = addresses;
      waypoint = waypoint;
      protocol = protocol;
      network_mode = network_mode;
      uid = resource.uid;
      name = resource.name;
      namespace = resource.namespace;
      trust_domain = or_default "cluster.local" resource.trust_domain;
      service_account = or_default "default" resource.service_account;
      network = resource.network;
      workload_name = resource.workload_name;
      workload_type = workload_type_of resource.workload_type;
      canonical_name = resource.canonical_name;
      canonical_revision = resource.canonical_revision;
      hostname = resource.hostname;
      node = resource.node;
      native_tunnel = resource.native_tunnel;
      application_tunnel = application_tunnel;
      status = status;
      cluster_id = or_default "Kubernetes" resource.cluster_id;
      locality = or_no_locality resource.locality;
      services = services;
      capacity = elim resource.capacity [ none ↦ 1 | some n ↦ n ];
      traffic_policy_refs = refs;
    }
    validate_policies w
    ok (w, resource.services)
