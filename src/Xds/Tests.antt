-- ===== src/Xds/Tests.antt =====
-- The laws of the updates at a few resources.
use ztunnel.Common.{◌+◌, ◌≡◌, ◌⊎◌, true, false, List, [], ◌∷◌, none, some, String}
use ztunnel.Common.Map.{Map}
use ztunnel.Common.Outcome.{ok, err}
use ztunnel.Examples.{net, xds_policy}
use ztunnel.Workload.{Workload}
use ztunnel.Workload.Convert.{WorkloadError, XdsWorkload, XdsPort, workload_of}
use ztunnel.Service.Convert.{XdsService}
use ztunnel.Policy.Store as Policies
use ztunnel.Xds.{ConvertApi, workload_type, service_type, insert_workload}
use ztunnel.Xds.Batches.{
  Batch, workloads, addresses, sandboxes, policies, update, removal, handle, handle_batches,
}
use ztunnel.Xds.Stores.{IsSound, empty, handle_batches-IsSound}
use ztunnel.Xds.Inserts.{IsInserted, insert_workload_lem, handle-notifies}

abbrev api : ConvertApi
api = record {
  nets = net;
  extensions = record {
    parse_net = λ c. none;
    decode_metadata = λ b. none;
    decode_egress_policies = λ b. none;
  };
  decode_reference = λ b. some (record {
    type_url = "type.googleapis.com/agentio.security.TrafficPolicy";
    resources = "web" ∷ [];
  });
}

abbrev web : XdsWorkload
web = record {
  uid = "cluster//Pod/ns/web";
  name = "web";
  namespace = "ns";
  addresses = (10 ∷ 0 ∷ 0 ∷ 1 ∷ []) ∷ [];
  hostname = "";
  network = "";
  tunnel_protocol = 1;
  trust_domain = "";
  service_account = "";
  waypoint = none;
  node = "node";
  canonical_name = "web";
  canonical_revision = "latest";
  workload_type = 2;
  workload_name = "web";
  native_tunnel = false;
  application_tunnel = none;
  services = ("ns/web.local", record { service_port = 80; target_port = 8080 } ∷ []) ∷ [];
  status = 0;
  cluster_id = "";
  locality = none;
  network_mode = 0;
  extensions =
      record {
        name = "traffic-policy-reference";
        config = some (record {
          type_url = "type.googleapis.com/kruise.networking.extensions.v1.PolicyReference";
          value = [];
        });
      }
      ∷ [];
  capacity = none;
}

abbrev service : XdsService
service = record {
  name = "web";
  namespace = "ns";
  hostname = "web.local";
  addresses = record { network = ""; address = 10 ∷ 1 ∷ 0 ∷ 1 ∷ [] } ∷ [];
  ports = record { service_port = 80; target_port = 0 } ∷ [];
  subject_alt_names = [];
  waypoint = none;
  load_balancing = none;
  ip_families = 0;
  canonical = true;
}

-- The Workload comes before its Service; a policy is accepted; both are removed.
abbrev batches : List Batch
batches =
    addresses (update "cluster//Pod/ns/web" (workload_type web) ∷ [])
    ∷ addresses (update "ns/web.local" (service_type service) ∷ [])
    ∷ policies (update "web" xds_policy ∷ removal "gone" ∷ [])
    ∷ workloads (removal "cluster//Pod/ns/web" ∷ removal "ns/web.local" ∷ [])
    ∷ sandboxes (removal "box" ∷ [])
    ∷ []

handle_batches-IsSound_example : IsSound (handle_batches api batches (empty (some "node"))).state
handle_batches-IsSound_example = handle_batches-IsSound api batches (some "node")

insert_workload_lem_example :
    ((e : WorkloadError) × (workload_of api.extensions api.decode_reference web ≡ err e)
      × (insert_workload api web (empty none) ≡ (empty none, err e)))
    ⊎ ((v : Workload) × (services : Map String (List XdsPort)) × (workload_of api.extensions
            api.decode_reference web
          ≡ ok (v, services))
        × ((insert_workload api web (empty none)).1 ≡ ok tt)
        × IsInserted v (empty none) (insert_workload api web (empty none)).0)
insert_workload_lem_example = insert_workload_lem api web (empty none)

handle-notifies_example :
    ((handle api
        (policies (update "web" xds_policy ∷ []))
        (empty none)).0.state.policies.notifications
      ≡ 0 + 1)
    ⊎ (((handle api
            (policies (update "web" xds_policy ∷ []))
            (empty none)).0.state.policies.notifications
          ≡ 0)
        × ((name : String)
            → Policies.get name
                (handle api (policies (update "web" xds_policy ∷ [])) (empty none)).0.state.policies
              ≡ Policies.get name Policies.new))
handle-notifies_example = handle-notifies api (update "web" xds_policy ∷ []) (empty none)
