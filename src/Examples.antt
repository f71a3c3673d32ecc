-- ===== src/Examples.antt =====
-- The data that the tests share: addresses, policies, Workloads and Services of a small mesh.
use ztunnel.Common.{ℕ, false, List, [], ◌∷◌, Option, none, some, String, leb, if◌then◌else◌}
use ztunnel.Net.{IpAddr, v4, v6, ip_beq, IpNet, IpNetApi, NamespacedHostname, NetworkAddress}
use ztunnel.Policy.{Policies}
use ztunnel.Policy.Types.{inbound, Connection, Action, Protocol, PortMatch, Rule, TrafficPolicy}
use ztunnel.Policy.Convert.{XdsPortMatch, XdsTrafficPolicy}
use ztunnel.Workload.{Workload, hbone, NetworkMode, healthy}
use ztunnel.Service.{Service, Endpoint, strict, zone, only_healthy}

-- Networks of whole addresses alone: /32 and /128.
abbrev host_net : IpAddr → ℕ → Option IpNet
host_net ip len = if leb len 128 then some (record { addr = ip; prefix_len = len }) else none

abbrev pub net : IpNetApi
net = record { new = host_net; trunc = λ n. n; contains = λ n ip. ip_beq n.addr ip }

abbrev pub client : IpAddr
client = v4 1

abbrev pub server : IpAddr
server = v4 2

abbrev pub conn : Connection
conn = record {
  src = record { ip = client; port = 4000 };
  dst = record { ip = server; port = 80 };
  src_identity = none;
  dst_network = "";
  direction = inbound;
}

abbrev pub http_ports : List PortMatch
http_ports =
    record { protocol = Protocol.tcp; range = some (record { start = 80; end = 90 }) }
    ∷ record { protocol = Protocol.udp; range = some (record { start = 53; end = 53 }) }
    ∷ []

abbrev pub rule_with : Action → Rule
rule_with a = record {
  action = a;
  source_ips = record { addr = client; prefix_len = 32 } ∷ [];
  destination_ips = [];
  ports = http_ports;
}

abbrev pub policy_with : Action → TrafficPolicy
policy_with a = record { ingress = some (record { rules = rule_with a ∷ [] }); egress = none }

abbrev pub quiet : TrafficPolicy
quiet = record { ingress = none; egress = some (record { rules = [] }) }

abbrev pub allowing : Policies
allowing = ("quiet", some quiet) ∷ ("web", some (policy_with Action.allow)) ∷ []

abbrev pub denying : Policies
denying = ("quiet", some quiet) ∷ ("web", some (policy_with Action.deny)) ∷ []

abbrev pub xds_ports : XdsPortMatch
xds_ports = record { protocol = 1; port = some 80; end_port = some 90 }

abbrev pub xds_policy : XdsTrafficPolicy
xds_policy = record {
  ingress = some (record {
    rules =
        record {
          action = 0;
          matches = some (record { source_ips = []; destination_ips = []; ports = xds_ports ∷ [] });
        }
        ∷ [];
  });
  egress = none;
}

abbrev pub parsed_ports : PortMatch
parsed_ports = record { protocol = Protocol.tcp; range = some (record { start = 80; end = 90 }) }

abbrev pub parsed : TrafficPolicy
parsed = record {
  ingress = some (record {
    rules =
        record {
          action = Action.allow;
          source_ips = [];
          destination_ips = [];
          ports = parsed_ports ∷ [];
        }
        ∷ [];
  });
  egress = none;
}

abbrev pub workload_with : String → List IpAddr → String → Workload
workload_with uid ips zone_name = record {
  workload_ips = ips;
  waypoint = none;
  protocol = hbone;
  network_mode = NetworkMode.standard;
  uid = uid;
  name = uid;
  namespace = "ns";
  trust_domain = "cluster.local";
  service_account = "sa";
  network = "";
  workload_name = uid;
  workload_type = "deployment";
  canonical_name = uid;
  canonical_revision = "latest";
  hostname = "";
  node = "node";
  native_tunnel = false;
  application_tunnel = none;
  status = healthy;
  cluster_id = "cluster";
  locality = record { region = "region"; zone = zone_name; subzone = "" };
  services = [];
  capacity = 1;
  traffic_policy_refs = some [];
}

abbrev pub near : Workload
near = workload_with "near" (server ∷ []) "zone-a"

abbrev pub far : Workload
far = workload_with "far" (v4 3 ∷ v6 3 ∷ []) "zone-b"

abbrev pub vip : NetworkAddress
vip = record { network = ""; address = v4 9 }

abbrev pub endpoint : String → Endpoint
endpoint uid = record { workload_uid = uid; port = (80, 8080) ∷ []; status = healthy }

abbrev pub service_in : String → Service
service_in ns = record {
  name = "web";
  namespace = ns;
  hostname = "web.local";
  vips = vip ∷ [];
  ports = (80, 80) ∷ [];
  endpoints = ("near", endpoint "near") ∷ ("far", endpoint "far") ∷ [];
  subject_alt_names = [];
  waypoint = none;
  load_balancer =
      some
        (record { routing_preferences = zone ∷ []; mode = strict; health_policy = only_healthy });
  ip_families = none;
  canonical = false;
}

abbrev pub web_host : NamespacedHostname
web_host = record { namespace = "ns"; hostname = "web.local" }

abbrev pub other_host : NamespacedHostname
other_host = record { namespace = "other"; hostname = "web.local" }
