-- ===== src/Firewall/Inpod/Enrolls.antt =====
-- What the addition of a Pod to the firewall controller does.
use ztunnel.Common.{
  ℕ, ◌≡◌, ◌⊎◌, refl, inl, inr, true, false, Option, none, some, String, first, nat_eq, string_eq,
  ◌==◌, Bool-cases, if◌then◌else◌,
}
use ztunnel.Common.Map
use ztunnel.Common.Map.{Map, get-insert, get-insert_self}
use ztunnel.Firewall.{FirewallRuleSet}
use ztunnel.Inpod.{Netns}
use ztunnel.Policy.Firewall.{firewall_rulesets}
use ztunnel.Sandbox.{get_by_workload}
use ztunnel.State.{ProxyState}
use ztunnel.Workload.{Workload, WorkloadInfo, traffic_policies}
use ztunnel.Workload.Index.{find_by_info}
use ztunnel.Firewall.Inpod.{
  StageHash, resolve_workload_firewall, with_inline, PodState, enrolled, pending_workload,
  init_failed, PodFirewallState, Host, Kernel, InpodFirewallController, try_init_and_apply,
  first_apply, handle_add_pod,
}

-- The rules of a Workload: those of the policies that it names, and those of the first Sandbox bound to
-- it.
pub rules_for : ProxyState → Workload → FirewallRuleSet
rules_for state w =
    with_inline (first (get_by_workload w.uid state.sandboxes))
      (firewall_rulesets (traffic_policies w state.policies))

resolve_lem :
    (hash : StageHash) (state : ProxyState) (info : WorkloadInfo) (w : Workload)
    → find_by_info info state.workloads ≡ some w
    → (h : ℕ) × (resolve_workload_firewall hash state info none ≡ some (rules_for state w, h))
unfolding resolve_workload_firewall rules_for
resolve_lem hash state info w e = (
  hash w.uid (traffic_policies w state.policies) (first (get_by_workload w.uid state.sandboxes)),
  rw (resolve_workload_firewall, e) refl,
)

-- What each state of a Pod that was added says of the calls of its backend and of the rules of its
-- namespace.
pub IsEnrolledAs :
    Host → ProxyState → WorkloadInfo → Netns → (before after : Kernel) → PodState → Type 0
IsEnrolledAs host state info netns before after enrolled =
    (w : Workload) × (find_by_info info state.workloads ≡ some w)
    × (host.init netns ≡ true)
    × (host.apply netns (rules_for state w) ≡ true)
    × (after ≡ Map.insert netns.netns_id (rules_for state w) before)
IsEnrolledAs host state info netns before after pending_workload =
    (find_by_info info state.workloads ≡ none) × (host.init netns ≡ true) × (after ≡ before)
IsEnrolledAs host state info netns before after (init_failed r) =
    (r ≡ 0)
    × (after ≡ before)
    × ((host.init netns ≡ false)
        ⊎ ((w : Workload) × (find_by_info info state.workloads ≡ some w)
            × (host.apply netns (rules_for state w) ≡ false)))

first_apply-IsEnrolledAs :
    (hash : StageHash) (host : Host) (state : ProxyState) (info : WorkloadInfo) (netns : Netns)
    (k : Kernel) (found : Option Workload)
    → find_by_info info state.workloads ≡ found
    → host.init netns ≡ true
    → IsEnrolledAs host state info netns k
        (first_apply host netns (resolve_workload_firewall hash state info none) k).0
        (first_apply host netns (resolve_workload_firewall hash state info none) k).1.0
unfolding IsEnrolledAs resolve_workload_firewall
first_apply-IsEnrolledAs hash host state info netns k none e i =
    rw (resolve_workload_firewall, e) (e, i, refl)
first_apply-IsEnrolledAs hash host state info netns k (some w) e i =
    let (h, r) = resolve_lem hash state info w e in
    elim (Bool-cases (host.apply netns (rules_for state w))) [
      | inl q ↦ rw r (rw q (w, e, i, q, refl))
      | inr q ↦ rw r (rw q (refl, refl, inr (w, e, q)))
    ]

try_init_and_apply-IsEnrolledAs :
    (hash : StageHash) (host : Host) (state : ProxyState) (info : WorkloadInfo) (netns : Netns)
    (k : Kernel)
    → IsEnrolledAs host state info netns k
        (try_init_and_apply hash host state info netns k).0
        (try_init_and_apply hash host state info netns k).1.0
unfolding try_init_and_apply IsEnrolledAs
try_init_and_apply-IsEnrolledAs hash host state info netns k = elim (Bool-cases (host.init netns)) [
  | inl q ↦ rw q (first_apply-IsEnrolledAs hash host state info netns k _ refl q)
  | inr q ↦ rw q (refl, refl, inl q)
]

-- A Pod that the controller does not know is stored under its UID with its namespace, and no other Pod
-- changes. It is enrolled only if its backend is set up and takes the rules of its Workload's policies
-- and Sandbox, which are then put in place of what its namespace had; it waits for its Workload only if
-- its backend is set up and the Workload is not known; and it is to be retried, with no retry counted
-- and no rules changed, only if its backend cannot be set up or refuses those rules.
pub handle_add_pod_lem :
    (hash : StageHash) (host : Host) (state : ProxyState) (uid : String) (info : WorkloadInfo)
    (netns : Netns) (c : InpodFirewallController)
    → Map.get uid c.pods ≡ none
    → (pod : PodFirewallState) × ((k : String)
        → Map.get k (handle_add_pod hash host state uid info netns c).pods
          ≡ (if uid == k then some pod else Map.get k c.pods))
      × (pod.netns ≡ netns)
      × (pod.workload_info ≡ info)
      × IsEnrolledAs host state info netns c.kernel
          (handle_add_pod hash host state uid info netns c).kernel
          pod.state
unfolding handle_add_pod
handle_add_pod_lem hash host state uid info netns c absent =
    let r = try_init_and_apply hash host state info netns c.kernel in
    let pod : PodFirewallState = record {
      netns = netns;
      workload_info = info;
      last_policy_hash = r.1.1;
      state = r.1.0;
    } in
    (
      pod,
      rw (handle_add_pod, absent) (λ k. get-insert uid k pod c.pods),
      refl,
      refl,
      rw (handle_add_pod, absent)
          (try_init_and_apply-IsEnrolledAs hash host state info netns c.kernel),
    )
