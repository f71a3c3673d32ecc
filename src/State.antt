-- ===== src/State.antt =====
-- src/state.rs: the state of the proxy, the lookup of destinations and the authorization of a
-- connection. `DemandProxyState` reads this state under its lock: an operation here takes the state
-- that it reads. On-demand discovery is not modelled.
pub mod Balance
pub mod Upstream
pub mod Authorize
mod Tests
use ztunnel.Common.{
  ℕ, ◌≡◌, Bool, true, false, ◌&&◌, List, [], ◌∷◌, Option, none, some, String, find, first, is_some,
  ◌==◌, string_eq, if◌then◌else◌,
}
use ztunnel.Common.Map
use ztunnel.Common.Outcome.{Result, ok, err}
use ztunnel.Net.{IpAddr, SocketAddr, NetworkAddress, NamespacedHostname}
use ztunnel.Policy.Store.{TrafficPolicyStore}
use ztunnel.Sandbox.{SandboxStore}
use ztunnel.Service.{
  Service, LoadBalancer, LoadBalancerMode, standard, strict, failover, passthrough,
}
use ztunnel.Service.Index.{ServiceStore, get_by_vip, get_by_namespaced_host, get_best_by_host}
use ztunnel.Workload.{Workload, Destination, address, hostname}
use ztunnel.Workload.Index.{WorkloadStore, find_address}

pub record ProxyState : Type 0 where
  pub workloads : WorkloadStore
  pub services : ServiceStore
  pub policies : TrafficPolicyStore
  pub sandboxes : SandboxStore

pub data Address : Type 0 where
  workload : Workload → Address
  service : Service → Address

abbrev pub service_address : Option Service → Option Address
service_address none = none
service_address (some s) = some (service s)

abbrev pub workload_address : Option Workload → Option Address
workload_address none = none
workload_address (some w) = some (workload w)

abbrev pub or_else : Option Address → Option Address → Option Address
or_else none b = b
or_else (some a) b = some a

-- A Workload first, then a Service.
pub find_address_in : ProxyState → NetworkAddress → Option Address
find_address_in s addr =
    or_else (workload_address (find_address addr s.workloads))
      (service_address (get_by_vip addr s.services))

abbrev pub has_hostname : NamespacedHostname → Workload → Bool
has_hostname name w = w.hostname == name.hostname && w.namespace == name.namespace

-- A Service first, then a Workload.
pub find_hostname : ProxyState → NamespacedHostname → Option Address
find_hostname s name =
    or_else (service_address (get_by_namespaced_host name s.services))
      (workload_address (find (has_hostname name) (Map.values s.workloads.by_uid)))

pub find_destination : ProxyState → Destination → Option Address
unfolding find_address_in find_hostname
find_destination s (address addr) = find_address_in s addr
find_destination s (hostname name) = find_hostname s name

-- `none` is the error `NoHostname`.
pub find_service_by_hostname : ProxyState → String → String → Option Service
find_service_by_hostname s host namespace = get_best_by_host host (some namespace) s.services
