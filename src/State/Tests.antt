-- ===== src/State/Tests.antt =====
-- The laws of src/state.rs at a small mesh.
use ztunnel.Common.{
  nat_eq, string_eq, ◌≡◌, refl, ◌↔◌, List, [], ◌∷◌, Option, none, some, String, arith, first,
}
use ztunnel.Common.Map
use ztunnel.Common.Outcome.{ok, err}
use ztunnel.Examples.{net, conn, near, far, service_in, policy_with}
use ztunnel.Net.{IpAddr, v4, v6, SocketAddr}
use ztunnel.Policy.Types.{Action, explicitly_denied, rule}
use ztunnel.Policy.Store
use ztunnel.Sandbox.{Sandbox, get_by_workload}
use ztunnel.Policy.{assert_policies}
use ztunnel.Service.{Service}
use ztunnel.Service.Index as ServiceIndex
use ztunnel.State.{ProxyState}
use ztunnel.State.Authorize.{ProxyRbacContext, assert_rbac, assert_rbac_iff, IsAuthorized}
use ztunnel.State.Balance.{
  Backend, upstream_parts, candidates, load_balance, find_upstream_from_service,
}
use ztunnel.State.Balance.Laws.{IsCandidate, IsBest, IsChoice, load_balance-IsBest}
use ztunnel.State.Upstream.{Upstream, finalize_upstream, families_of, sans_of}
use ztunnel.State.Upstream.Laws.{IsAllowed, IsPreferred, finalize_upstream-IsPreferred}
use ztunnel.Workload.{Workload, traffic_policies}
use ztunnel.Workload.Index as WorkloadIndex
use ztunnel.Workload.Index.{find_uid}

abbrev protected_near : Workload
protected_near = record near { traffic_policy_refs = some ("web" ∷ []) }

abbrev box : Action → Sandbox
box a = record { uid = "box"; workload_uid = some "near"; traffic_policy = some (policy_with a) }

abbrev mesh : Action → ProxyState
mesh a = record {
  workloads = record (WorkloadIndex.new none) {
    by_uid = ("near", protected_near) ∷ ("far", far) ∷ [];
  };
  services = ServiceIndex.new;
  policies = record Store.new { resources = ("web", policy_with Action.allow) ∷ [] };
  sandboxes = record { resources = ("box", box a) ∷ []; by_workload = ("near", "box" ∷ []) ∷ [] };
}

abbrev context : ProxyRbacContext
context = record { conn = conn; workload = near; sandbox = none }

authorized : assert_rbac net (mesh Action.allow) context ≡ ok tt
unfolding assert_rbac get_by_workload traffic_policies assert_policies Map.get
authorized = refl

denied_by_sandbox :
    assert_rbac net (mesh Action.deny) context ≡ err (explicitly_denied "inline" (rule 0))
unfolding assert_rbac get_by_workload traffic_policies assert_policies Map.get
denied_by_sandbox = refl

assert_rbac_iff_example :
    (assert_rbac net (mesh Action.allow) context ≡ ok tt)
    ↔ IsAuthorized net (mesh Action.allow) context
assert_rbac_iff_example = assert_rbac_iff net (mesh Action.allow) context

first-IsChoice : IsChoice first
first-IsChoice [] b h = cc
first-IsChoice (x ∷ xs) b h = ground arith

abbrev near_backend : Backend
near_backend = record {
  endpoint = record { workload_uid = "near"; port = (80, 8080) ∷ []; status = near.status };
  workload = protected_near;
}

balanced : load_balance first (mesh Action.allow) near (service_in "ns") 80 ≡ some near_backend
unfolding load_balance Map.get
balanced = refl

load_balance-IsBest_example :
    IsCandidate (mesh Action.allow) (service_in "ns") near_backend
    × IsBest
        (service_in "ns").load_balancer
        near
        (candidates (mesh Action.allow) (service_in "ns") 80)
        near_backend
load_balance-IsBest_example =
    load_balance-IsBest first (mesh Action.allow) near (service_in "ns") 80 near_backend
      first-IsChoice balanced

upstream :
    find_upstream_from_service first (mesh Action.allow) near 80 (service_in "ns")
    ≡ some (upstream_parts protected_near 8080 (some (service_in "ns")))
unfolding find_upstream_from_service Map.get
upstream = refl

abbrev web : Service
web = service_in "ns"

abbrev target : SocketAddr
target = record { ip = v6 7; port = 80 }

far-IsAllowed : IsAllowed far (families_of (some web)) (v4 3)
far-IsAllowed = ground arith

abbrev no_records : String → Option (List IpAddr)
no_records host = none

finalize_upstream-IsPreferred_example :
    (u : Upstream) × (finalize_upstream no_records first target
        (some (upstream_parts far 8080 (some web)))
      ≡ ok (some u))
    × (u.workload ≡ far)
    × (u.port ≡ 8080)
    × (u.service_sans ≡ sans_of (some web))
    × IsPreferred far target.ip (families_of (some web)) u.selected_workload_ip
finalize_upstream-IsPreferred_example =
    finalize_upstream-IsPreferred no_records first target far 8080 (some web) (v4 3) far-IsAllowed
