-- ===== src/Service/Convert.antt =====
-- The conversion of a Service of the control plane, in src/state/service.rs. An enumeration is its
-- number, as it stands in the message.
use ztunnel.Common.{ℕ, Bool, List, [], Option, none, some, String, nat_beq, if◌then◌else◌}
use ztunnel.Common.Outcome.{Result, ok, err, ◌>>=◌, traverse, transpose}
use ztunnel.Workload.Convert.{
  WorkloadError, enum_error, enum_parse, XdsPort, XdsNetworkAddress, XdsGatewayAddress, address_of,
  gateway_of, ports_of,
}
use ztunnel.Service.{
  Service, LoadBalancer, LoadBalancerMode, LoadBalancerHealthPolicy, LoadBalancerScopes, IpFamily,
}

pub record XdsLoadBalancing : Type 0 where
  pub routing_preference : List ℕ
  pub mode : ℕ
  pub health_policy : ℕ

pub record XdsService : Type 0 where
  pub name : String
  pub namespace : String
  pub hostname : String
  pub addresses : List XdsNetworkAddress
  pub ports : List XdsPort
  pub subject_alt_names : List String
  pub waypoint : Option XdsGatewayAddress
  pub load_balancing : Option XdsLoadBalancing
  pub ip_families : ℕ
  pub canonical : Bool

-- Zero is a scope of the message that the proxy has no use for.
abbrev pub scope_of : ℕ → Result WorkloadError LoadBalancerScopes
scope_of n =
    if nat_beq n 0
    then err enum_parse
    else if nat_beq n 1
    then ok LoadBalancerScopes.region
    else if nat_beq n 2
    then ok LoadBalancerScopes.zone
    else if nat_beq n 3
    then ok LoadBalancerScopes.subzone
    else if nat_beq n 4
    then ok LoadBalancerScopes.node
    else if nat_beq n 5
    then ok LoadBalancerScopes.cluster
    else if nat_beq n 6
    then ok LoadBalancerScopes.network
    else err (enum_error n)

abbrev pub mode_of : ℕ → Result WorkloadError LoadBalancerMode
mode_of n =
    if nat_beq n 0
    then ok LoadBalancerMode.standard
    else if nat_beq n 1
    then ok LoadBalancerMode.strict
    else if nat_beq n 2
    then ok LoadBalancerMode.failover
    else if nat_beq n 3
    then ok LoadBalancerMode.passthrough
    else err (enum_error n)

abbrev pub health_policy_of : ℕ → Result WorkloadError LoadBalancerHealthPolicy
health_policy_of n =
    if nat_beq n 0
    then ok LoadBalancerHealthPolicy.only_healthy
    else if nat_beq n 1
    then ok LoadBalancerHealthPolicy.allow_all
    else err (enum_error n)

abbrev pub ip_families_of : ℕ → Result WorkloadError (Option IpFamily)
ip_families_of n =
    if nat_beq n 0
    then ok none
    else if nat_beq n 1
    then ok (some IpFamily.ipv4)
    else if nat_beq n 2
    then ok (some IpFamily.ipv6)
    else if nat_beq n 3
    then ok (some IpFamily.dual)
    else err (enum_error n)

abbrev pub balancer_of : XdsLoadBalancing → Result WorkloadError LoadBalancer
balancer_of lb = do
  routing_preferences ← traverse scope_of lb.routing_preference
  mode ← mode_of lb.mode
  health_policy ← health_policy_of lb.health_policy
  ok (record {
    routing_preferences = routing_preferences;
    mode = mode;
    health_policy = health_policy;
  })

-- `TryFrom<&XdsService> for Service`
unfoldable pub service_of : XdsService → Result WorkloadError Service
service_of s = do
  vips ← traverse address_of s.addresses
  waypoint ← transpose gateway_of s.waypoint
  load_balancer ← transpose balancer_of s.load_balancing
  ip_families ← ip_families_of s.ip_families
  ok (record {
    name = s.name;
    namespace = s.namespace;
    hostname = s.hostname;
    vips = vips;
    ports = ports_of s.ports;
    endpoints = [];
    subject_alt_names = s.subject_alt_names;
    waypoint = waypoint;
    load_balancer = load_balancer;
    ip_families = ip_families;
    canonical = s.canonical;
  })
