-- ===== src/Service.antt =====
-- src/state/service.rs: Services, their endpoints, and the store that indexes them by VIP and by
-- hostname. A hash map of ports and of endpoints is an association list.
pub mod Match
pub mod Index
pub mod Convert
mod Tests
use ztunnel.Common.{
  ℕ, ◌≡◌, Bool, true, false, not, ◌&&◌, ◌||◌, List, [], ◌∷◌, Option, none, some, String, any,
  option_beq, ◌==◌, string_eq, if◌then◌else◌,
}
use ztunnel.Common.Map
use ztunnel.Common.Map.{Map}
use ztunnel.Net.{IpAddr, is_ipv4, is_ipv6, NamespacedHostname, NetworkAddress}
use ztunnel.Workload.{HealthStatus, healthy, unhealthy, GatewayAddress, Workload}

pub record Endpoint : Type 0 where
  pub workload_uid : String
  pub port : Map ℕ ℕ
  pub status : HealthStatus

pub data LoadBalancerMode : Type 0 where
  standard strict failover passthrough : LoadBalancerMode

pub data LoadBalancerHealthPolicy : Type 0 where
  only_healthy allow_all : LoadBalancerHealthPolicy

pub data LoadBalancerScopes : Type 0 where
  region zone subzone node cluster network : LoadBalancerScopes

pub record LoadBalancer : Type 0 where
  pub routing_preferences : List LoadBalancerScopes
  pub mode : LoadBalancerMode
  pub health_policy : LoadBalancerHealthPolicy

pub data IpFamily : Type 0 where
  dual ipv4 ipv6 : IpFamily

pub accepts_ip : IpFamily → IpAddr → Bool
accepts_ip dual ip = true
accepts_ip ipv4 ip = is_ipv4 ip
accepts_ip ipv6 ip = is_ipv6 ip

pub record Service : Type 0 where
  pub name : String
  pub namespace : String
  pub hostname : String
  pub vips : List NetworkAddress
  pub ports : Map ℕ ℕ
  pub endpoints : Map String Endpoint
  pub subject_alt_names : List String
  pub waypoint : Option GatewayAddress
  pub load_balancer : Option LoadBalancer
  pub ip_families : Option IpFamily
  pub canonical : Bool

abbrev pub namespaced_hostname : Service → NamespacedHostname
namespaced_hostname s = record { namespace = s.namespace; hostname = s.hostname }

abbrev pub allows_all : LoadBalancerHealthPolicy → Bool
allows_all only_healthy = false
allows_all allow_all = true

abbrev pub is_healthy : HealthStatus → Bool
is_healthy healthy = true
is_healthy unhealthy = false

-- `load_balancer.map(|lb| lb.health_policy == AllowAll).unwrap_or(false)`
abbrev pub balancer_allows_all : Option LoadBalancer → Bool
balancer_allows_all none = false
balancer_allows_all (some lb) = allows_all lb.health_policy

pub should_include_endpoint : Service → HealthStatus → Bool
should_include_endpoint s h = is_healthy h || balancer_allows_all s.load_balancer
