-- ===== src/Firewall/Inpod.antt =====
-- src/firewall/inpod.rs: the controller that keeps the rules of the Pods, with the resolution of
-- src/firewall/convert.rs. A backend acts on the rules of a network namespace; whether a call of it
-- succeeds, and the hash of what was resolved, are parameters. The metrics and the debouncing are left
-- out: a rebuild stands where the debouncer ends.
pub mod Retries
pub mod Enrolls
mod Tests
use ztunnel.Common.{
  ℕ, ◌+◌, ◌≡◌, Bool, true, false, not, ◌&&◌, List, [], ◌∷◌, Option, none, some, String, any,
  filter_map, first, ltb, nat_beq, nat_eq, option_beq, is_empty, string_eq, if◌then◌else◌, map,
}
use ztunnel.Common.Map
use ztunnel.Common.Map.{Map}
use ztunnel.Firewall.{FirewallRule, FirewallRuleSet}
use ztunnel.Policy.{Policies}
use ztunnel.Policy.Types.{TrafficPolicy}
use ztunnel.Policy.Firewall.{firewall_rulesets}
use ztunnel.Sandbox.{Sandbox, get_by_workload}
use ztunnel.State.{ProxyState}
use ztunnel.Workload.{Workload, WorkloadInfo, traffic_policies}
use ztunnel.Workload.Index.{find_by_info}
use ztunnel.Inpod.{Netns, FirewallEvent, add_pod, remove_pod}

abbrev pub max_init_retries : ℕ
max_init_retries = 5

-- `DefaultHasher` over the UID, the policies and the Sandbox.
abbrev pub StageHash : Type 0
StageHash = String → Policies → Option Sandbox → ℕ

-- The rules that the inline policy of a Sandbox adds.
abbrev pub inline_rules_of : Option Sandbox → List FirewallRule
inline_rules_of none = []
inline_rules_of (some sandbox) = elim sandbox.traffic_policy [
  | none ↦ []
  | some inline ↦ (firewall_rulesets (("inline", some inline) ∷ [])).rules
]

abbrev pub with_inline : Option Sandbox → FirewallRuleSet → FirewallRuleSet
with_inline sandbox rules = record rules { inline_rules = inline_rules_of sandbox }

-- Nothing where the Workload is missing, or its hash is the one that was applied.
unfoldable pub resolve_workload_firewall :
    StageHash → ProxyState → WorkloadInfo → Option ℕ → Option (FirewallRuleSet × ℕ)
resolve_workload_firewall hash state info applied_hash = elim (find_by_info info state.workloads) [
  | none ↦ none
  | some workload ↦
      let sandbox = first (get_by_workload workload.uid state.sandboxes) in
      let policies = traffic_policies workload state.policies in
      let h = hash workload.uid policies sandbox in
      if option_beq applied_hash (some h)
      then none
      else some (with_inline sandbox (firewall_rulesets policies), h)
]

pub data PodState : Type 0 where
  enrolled pending_workload : PodState
  init_failed : (retries : ℕ) → PodState

pub record PodFirewallState : Type 0 where
  pub netns : Netns
  pub workload_info : WorkloadInfo
  pub last_policy_hash : ℕ
  pub state : PodState

-- Whether the calls of a backend in a namespace succeed.
pub record Host : Type 0 where
  pub init : Netns → Bool
  pub apply : Netns → FirewallRuleSet → Bool
  pub cleanup : Netns → Bool

-- The rules of each namespace, which `apply` replaces as a whole and `cleanup` takes away.
abbrev pub Kernel : Type 0
Kernel = Map ℕ FirewallRuleSet

pub record InpodFirewallController : Type 0 where
  pub pods : Map String PodFirewallState
  pub kernel : Kernel

abbrev pub new : InpodFirewallController
new = record { pods = []; kernel = [] }

abbrev pub apply_rules : Host → Netns → FirewallRuleSet → Kernel → Kernel × Bool
apply_rules host netns rules k =
    if host.apply netns rules then (Map.insert netns.netns_id rules k, true) else (k, false)

-- The end of `try_init_and_apply`, with what the resolution gave.
abbrev pub first_apply :
    Host → Netns → Option (FirewallRuleSet × ℕ) → Kernel → Kernel × (PodState × ℕ)
first_apply host netns none k = (k, (pending_workload, 0))
first_apply host netns (some (rules, hash)) k =
    let (applied, done) = apply_rules host netns rules k in
    (applied, if done then (enrolled, hash) else (init_failed 0, 0))

unfoldable pub handle_remove_pod : Host → String → InpodFirewallController → InpodFirewallController
handle_remove_pod host uid c = elim (Map.get uid c.pods) [
  | none ↦ c
  | some pod ↦ record {
    pods = Map.remove uid c.pods;
    kernel = if host.cleanup pod.netns then Map.remove pod.netns.netns_id c.kernel else c.kernel;
  }
]

-- A set of rules to apply to a Pod.
abbrev pub Job : Type 0
Job = String × (Netns × (FirewallRuleSet × ℕ))

abbrev pub mark_enrolled :
    String → ℕ → Option PodFirewallState → Map String PodFirewallState → Map String PodFirewallState
mark_enrolled uid h none pods = pods
mark_enrolled uid h (some pod) pods =
    Map.insert uid (record pod { last_policy_hash = h; state = enrolled }) pods

abbrev pub set_enrolled : String → ℕ → Map String PodFirewallState → Map String PodFirewallState
set_enrolled uid h pods = mark_enrolled uid h (Map.get uid pods) pods

-- The jobs one after the other. A Pod whose rules cannot be applied stays as it is.
unfoldable pub apply_jobs : Host → List Job → InpodFirewallController → InpodFirewallController
apply_jobs host [] c = c
apply_jobs host ((uid, (netns, (rules, h))) ∷ jobs) c =
    let (kernel, done) = apply_rules host netns rules c.kernel in
    apply_jobs host jobs
      (record { pods = if done then set_enrolled uid h c.pods else c.pods; kernel = kernel })

abbrev pub may_retry : PodState → Bool
may_retry enrolled = false
may_retry pending_workload = false
may_retry (init_failed retries) = ltb retries max_init_retries

abbrev pub is_retryable : PodFirewallState → Bool
is_retryable pod = may_retry pod.state

pub has_retryable_pods : InpodFirewallController → Bool
has_retryable_pods c = any (λ e. is_retryable e.1) c.pods

abbrev pub count_retry : PodState → PodState
count_retry enrolled = enrolled
count_retry pending_workload = pending_workload
count_retry (init_failed retries) = init_failed (retries + 1)

-- A Pod after a retry, by what the retry gave.
abbrev pub settle_retry : PodFirewallState → PodState × ℕ → PodFirewallState
settle_retry pod (init_failed again, h) = record pod { state = count_retry pod.state }
settle_retry pod (enrolled, h) = record pod { state = enrolled; last_policy_hash = h }
settle_retry pod (pending_workload, h) = record pod {
  state = pending_workload;
  last_policy_hash = h;
}

module _ (hash : StageHash) where
  unfoldable pub try_init_and_apply :
      Host → ProxyState → WorkloadInfo → Netns → Kernel → Kernel × (PodState × ℕ)
  try_init_and_apply host state info netns k =
      if host.init netns
      then first_apply host netns (resolve_workload_firewall hash state info none) k
      else (k, (init_failed 0, 0))

  abbrev pub enroll :
      Host
      → ProxyState
      → String
      → WorkloadInfo
      → Netns
      → InpodFirewallController
      → InpodFirewallController
  enroll host state uid info netns c =
      let (kernel, (pod_state, policy_hash)) = try_init_and_apply host state info netns c.kernel in
      record {
        pods =
            Map.insert uid
              (record {
                netns = netns;
                workload_info = info;
                last_policy_hash = policy_hash;
                state = pod_state;
              })
              c.pods;
        kernel = kernel;
      }

  unfoldable pub handle_add_pod :
      Host
      → ProxyState
      → String
      → WorkloadInfo
      → Netns
      → InpodFirewallController
      → InpodFirewallController
  handle_add_pod host state uid info netns c = elim (Map.get uid c.pods) [
    | none ↦ enroll host state uid info netns c
    | some existing ↦
        if nat_beq existing.netns.netns_id netns.netns_id
        then c
        else enroll host state uid info netns (handle_remove_pod host uid c)
  ]

  abbrev pub job_of : ProxyState → Option ℕ → String → PodFirewallState → Option Job
  job_of state applied uid pod =
      elim (resolve_workload_firewall hash state pod.workload_info applied) [
        | none ↦ none
        | some (rules, h) ↦ some (uid, (pod.netns, (rules, h)))
      ]

  abbrev pub rebuild_job : ProxyState → String × PodFirewallState → Option Job
  rebuild_job state (uid, pod) = elim pod.state [
    | init_failed retries ↦ none
    | enrolled ↦ job_of state (some pod.last_policy_hash) uid pod
    | pending_workload ↦ job_of state (some pod.last_policy_hash) uid pod
  ]

  abbrev pub pending_job : ProxyState → String × PodFirewallState → Option Job
  pending_job state (uid, pod) = elim pod.state [
    | init_failed retries ↦ none
    | enrolled ↦ none
    | pending_workload ↦ job_of state none uid pod
  ]

  unfoldable pub rebuild_all_pods :
      Host → ProxyState → InpodFirewallController → InpodFirewallController
  rebuild_all_pods host state c = apply_jobs host (filter_map (rebuild_job state) c.pods) c

  unfoldable pub rebuild_pending_workload_pods :
      Host → ProxyState → InpodFirewallController → InpodFirewallController
  rebuild_pending_workload_pods host state c =
      apply_jobs host (filter_map (pending_job state) c.pods) c

  -- The Pods in turn, those that are retryable with the rules that the namespaces then have.
  unfoldable pub retry_pods :
      Host
      → ProxyState
      → Map String PodFirewallState
      → Kernel
      → Kernel × Map String PodFirewallState
  retry_pods host state [] k = (k, [])
  retry_pods host state ((uid, pod) ∷ pods) k = elim (is_retryable pod) [
    | false ↦ let (last, rest) = retry_pods host state pods k in (last, (uid, pod) ∷ rest)
    | true ↦
        let (next, result) = try_init_and_apply host state pod.workload_info pod.netns k in
        let (last, rest) = retry_pods host state pods next in
        (last, (uid, settle_retry pod result) ∷ rest)
  ]

  unfoldable pub retry_init_failed_pods :
      Host → ProxyState → InpodFirewallController → InpodFirewallController
  retry_init_failed_pods host state c =
      let (kernel, pods) = retry_pods host state c.pods c.kernel in
      record { pods = pods; kernel = kernel }

-- What the controller's loop meets. Events of Pods that come while the changes of policies are
-- debounced stand before `policies_changed`.
pub data ControllerEvent : Type 0 where
  receives : Host → ProxyState → FirewallEvent → ControllerEvent
  policies_changed workloads_changed retry_ticks : Host → ProxyState → ControllerEvent

module _ (hash : StageHash) where
  unfoldable pub step : ControllerEvent → InpodFirewallController → InpodFirewallController
  step (receives host state (add_pod uid info netns)) c =
      handle_add_pod hash host state uid info netns c
  step (receives host state (remove_pod uid)) c = handle_remove_pod host uid c
  step (policies_changed host state) c = rebuild_all_pods hash host state c
  step (workloads_changed host state) c = rebuild_pending_workload_pods hash host state c
  step (retry_ticks host state) c =
      if has_retryable_pods c then retry_init_failed_pods hash host state c else c

  unfoldable pub run : List ControllerEvent → InpodFirewallController → InpodFirewallController
  run [] c = c
  run (e ∷ es) c = run es (step e c)
