-- ===== src/Connections/Tests.antt =====
-- The connection manager at a connection that a policy denies later.
use ztunnel.Common.{◌≡◌, refl, true, List, [], ◌∷◌, none, some, arith, In}
use ztunnel.Common.Map
use ztunnel.Connections.Context.{
  ConnectionContext, key_eq, key_beq, connection_beq, attributes_beq, socket_beq, key_of,
  inbound_attributes,
}
use ztunnel.Connections.{ConnectionDrain, ConnectionManager, new, policies_changed}
use ztunnel.Connections.Counts.{IsCounted}
use ztunnel.Connections.Watcher.{
  IsTracked, is_denied, remaining, policies_changed_lem, policies_changed-signals,
}
use ztunnel.Connections.Tracked.{Event, comes, ends, changes, run, IsWellFormed, run-IsWellFormed}
use ztunnel.Examples.{net, conn, near, policy_with}
use ztunnel.Policy.{assert_policies}
use ztunnel.Policy.Store
use ztunnel.Policy.Types.{Action}
use ztunnel.Sandbox
use ztunnel.Sandbox.{get_by_workload}
use ztunnel.Service.Index as ServiceIndex
use ztunnel.State.{ProxyState}
use ztunnel.State.Authorize.{assert_rbac}
use ztunnel.Workload.{traffic_policies}
use ztunnel.Workload.Index as WorkloadIndex

abbrev mesh : Action → ProxyState
mesh a = record {
  workloads = record (WorkloadIndex.new none) {
    by_uid = ("near", record near { traffic_policy_refs = some ("web" ∷ []) }) ∷ [];
  };
  services = ServiceIndex.new;
  policies = record Store.new { resources = ("web", policy_with a) ∷ [] };
  sandboxes = Sandbox.new;
}

abbrev context : ConnectionContext
context = record {
  rbac_ctx = record { conn = conn; workload = near; sandbox = none };
  attributes = inbound_attributes none;
}

abbrev drain : ConnectionDrain
drain = record { context = context; channel = 3; count = 2 }

abbrev busy : ConnectionManager
busy = record { drains = (key_of context, drain) ∷ []; next_channel = 4; drained = [] }

busy-IsCounted : IsCounted busy
unfolding Map.get
busy-IsCounted k cd h = ground arith

busy-IsTracked : IsTracked busy
unfolding Map.get
busy-IsTracked = ((refl, tt), (refl, tt))

busy-get : Map.get (key_of context) busy.drains ≡ some drain
unfolding Map.get key_beq connection_beq attributes_beq socket_beq
busy-get = refl

busy-is_denied : is_denied net (mesh Action.deny) context ≡ true
unfolding assert_rbac get_by_workload traffic_policies assert_policies Map.get
busy-is_denied = refl

policies_changed_lem_example :
    Map.get (key_of context) (policies_changed net (mesh Action.deny) busy).drains
    ≡ remaining net (mesh Action.deny) (Map.get (key_of context) busy.drains)
policies_changed_lem_example =
    policies_changed_lem net (mesh Action.deny) (key_of context) busy busy-IsTracked

policies_changed-signals_example : In 3 (policies_changed net (mesh Action.deny) busy).drained
policies_changed-signals_example =
    policies_changed-signals net (mesh Action.deny) (key_of context) drain busy busy-IsTracked
      busy-get busy-is_denied

abbrev two_then_denied : List Event
two_then_denied =
    comes (mesh Action.allow) context
    ∷ comes (mesh Action.allow) context
    ∷ ends context
    ∷ changes (mesh Action.deny)
    ∷ []

run-IsWellFormed_example : IsWellFormed (run net two_then_denied new)
run-IsWellFormed_example = run-IsWellFormed net two_then_denied
