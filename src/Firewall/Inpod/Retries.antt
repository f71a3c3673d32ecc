-- ===== src/Firewall/Inpod/Retries.antt =====
-- The retries of the Pods whose backend could not be set up.
use ztunnel.Common.{
  ℕ, ◌+◌, ◌≤◌, ◌≡◌, refl, inl, inr, Bool, true, false, List, [], ◌∷◌, Option, none, some, String,
  arith, All, any, leb, nat_beq, string_eq, Bool-cases, Option-cases, if◌then◌else◌,
}
use ztunnel.Common.Map
use ztunnel.Common.Map.{Map, All-insert, All-remove}
use ztunnel.Firewall.{FirewallRuleSet}
use ztunnel.Inpod.{Netns, add_pod, remove_pod}
use ztunnel.State.{ProxyState}
use ztunnel.Workload.{WorkloadInfo}
use ztunnel.Firewall.Inpod.{
  StageHash, resolve_workload_firewall, PodState, enrolled, pending_workload, init_failed,
  PodFirewallState, Host, Kernel, apply_rules, InpodFirewallController, new, try_init_and_apply,
  first_apply, handle_remove_pod, enroll, handle_add_pod, apply_jobs, rebuild_all_pods,
  rebuild_pending_workload_pods, is_retryable, may_retry, count_retry, has_retryable_pods,
  settle_retry, retry_pods, retry_init_failed_pods, max_init_retries, Job, set_enrolled,
  mark_enrolled, ControllerEvent, receives, policies_changed, workloads_changed, retry_ticks, step,
  run,
}

-- The count of the retries of a Pod lies between two bounds, where it counts them.
abbrev pub IsCounted : ℕ → PodState → Type 0
IsCounted n enrolled = Unit
IsCounted n pending_workload = Unit
IsCounted n (init_failed r) = (n ≤ r) × (r ≤ max_init_retries)

abbrev pub IsCountedPod : ℕ → String × PodFirewallState → Type 0
IsCountedPod n (uid, pod) = IsCounted n pod.state

count_retry-IsCounted :
    (n : ℕ) (s : PodState) → may_retry s ≡ true → IsCounted n s → IsCounted (n + 1) (count_retry s)
count_retry-IsCounted n enrolled q c = tt
count_retry-IsCounted n pending_workload q c = tt
count_retry-IsCounted n (init_failed r) q c = (omega (arith, c), ground (arith, q))

settle_retry-IsCounted :
    (n : ℕ) (pod : PodFirewallState) (result : PodState × ℕ)
    → is_retryable pod ≡ true
    → IsCounted n pod.state
    → IsCounted (n + 1) (settle_retry pod result).state
settle_retry-IsCounted n pod (enrolled, h) q c = tt
settle_retry-IsCounted n pod (pending_workload, h) q c = tt
settle_retry-IsCounted n pod (init_failed again, h) q c = count_retry-IsCounted n pod.state q c

kept-IsCounted :
    (n : ℕ) (s : PodState)
    → n + 1 ≤ max_init_retries
    → may_retry s ≡ false
    → IsCounted n s
    → IsCounted (n + 1) s
kept-IsCounted n enrolled below q c = tt
kept-IsCounted n pending_workload below q c = tt
kept-IsCounted n (init_failed r) below q c = (ground (arith, q, below), c.1)

-- A pass over the Pods counts each failure, as long as a retry is left.
retry_pods-IsCounted :
    (hash : StageHash) (host : Host) (state : ProxyState) (n : ℕ)
    (pods : Map String PodFirewallState) (k : Kernel)
    → n + 1 ≤ max_init_retries
    → All (IsCountedPod n) pods
    → All (IsCountedPod (n + 1)) (retry_pods hash host state pods k).1
unfolding retry_pods
retry_pods-IsCounted hash host state n [] k below h = tt
retry_pods-IsCounted hash host state n ((uid, pod) ∷ pods) k below h =
    elim (Bool-cases (is_retryable pod)) [
      | inl q ↦
          let r = try_init_and_apply hash host state pod.workload_info pod.netns k in
          rw (retry_pods, q)
            (
              settle_retry-IsCounted n pod r.1 q h.0,
              retry_pods-IsCounted hash host state n pods r.0 below h.1,
            )
      | inr q ↦
          rw (retry_pods, q)
            (
              kept-IsCounted n pod.state below q h.0,
              retry_pods-IsCounted hash host state n pods k below h.1,
            )
    ]

-- Where no Pod is to be retried, every count is at its end.
kept-All :
    (n : ℕ) (pods : Map String PodFirewallState)
    → n + 1 ≤ max_init_retries
    → any (λ e. is_retryable e.1) pods ≡ false
    → All (IsCountedPod n) pods
    → All (IsCountedPod (n + 1)) pods
kept-All n [] below q h = tt
kept-All n ((uid, pod) ∷ pods) below q h = (
  kept-IsCounted n pod.state below (ground (arith, q)) h.0,
  kept-All n pods below (ground (arith, q)) h.1,
)

spent-may_retry : (s : PodState) → IsCounted max_init_retries s → may_retry s ≡ false
spent-may_retry enrolled c = refl
spent-may_retry pending_workload c = refl
spent-may_retry (init_failed r) c = ground (arith, c)

spent-has_retryable_pods :
    (c : InpodFirewallController)
    → All (IsCountedPod max_init_retries) c.pods
    → has_retryable_pods c ≡ false
unfolding has_retryable_pods
spent-has_retryable_pods c h = none_of c.pods h
  where
    none_of :
        (pods : Map String PodFirewallState)
        → All (IsCountedPod max_init_retries) pods
        → any (λ e. is_retryable e.1) pods ≡ false
    none_of [] h = refl
    none_of ((uid, pod) ∷ pods) h = ground (arith, spent-may_retry pod.state h.0, none_of pods h.1)

weaken-IsCounted : (m n : ℕ) (s : PodState) → m ≤ n → IsCounted n s → IsCounted m s
weaken-IsCounted m n enrolled h c = tt
weaken-IsCounted m n pending_workload h c = tt
weaken-IsCounted m n (init_failed r) h c = (omega (arith, c, h), c.1)

weaken-All :
    (m n : ℕ) (pods : Map String PodFirewallState)
    → m ≤ n
    → All (IsCountedPod n) pods
    → All (IsCountedPod m) pods
weaken-All m n [] h c = tt
weaken-All m n ((uid, pod) ∷ pods) h c =
    (weaken-IsCounted m n pod.state h c.0, weaken-All m n pods h c.1)

first_apply-IsCounted :
    (host : Host) (netns : Netns) (r : Option (FirewallRuleSet × ℕ)) (k : Kernel)
    → IsCounted 0 (first_apply host netns r k).1.0
first_apply-IsCounted host netns none k = tt
first_apply-IsCounted host netns (some (rules, h)) k = elim (Bool-cases (host.apply netns rules)) [
  | inl e ↦ rw e tt
  | inr e ↦ rw e (omega arith, omega arith)
]

try_init_and_apply-IsCounted :
    (hash : StageHash) (host : Host) (state : ProxyState) (info : WorkloadInfo) (netns : Netns)
    (k : Kernel)
    → IsCounted 0 (try_init_and_apply hash host state info netns k).1.0
unfolding try_init_and_apply
try_init_and_apply-IsCounted hash host state info netns k = elim (Bool-cases (host.init netns)) [
  | inl e ↦
      rw e (first_apply-IsCounted host netns (resolve_workload_firewall hash state info none) k)
  | inr e ↦ rw e (omega arith, omega arith)
]

mark_enrolled-IsCounted :
    (n : ℕ) (uid : String) (hash : ℕ) (found : Option PodFirewallState)
    (pods : Map String PodFirewallState)
    → All (IsCountedPod n) pods
    → All (IsCountedPod n) (mark_enrolled uid hash found pods)
mark_enrolled-IsCounted n uid hash none pods h = h
mark_enrolled-IsCounted n uid hash (some pod) pods h =
    All-insert (IsCountedPod n) uid (record pod { last_policy_hash = hash; state = enrolled }) pods
      tt h

settle_job-IsCounted :
    (n : ℕ) (uid : String) (hash : ℕ) (done : Bool) (pods : Map String PodFirewallState)
    → All (IsCountedPod n) pods
    → All (IsCountedPod n) (if done then set_enrolled uid hash pods else pods)
settle_job-IsCounted n uid hash false pods h = h
settle_job-IsCounted n uid hash true pods h =
    mark_enrolled-IsCounted n uid hash (Map.get uid pods) pods h

apply_jobs-IsCounted :
    (n : ℕ) (host : Host) (jobs : List Job) (c : InpodFirewallController)
    → All (IsCountedPod n) c.pods
    → All (IsCountedPod n) (apply_jobs host jobs c).pods
unfolding apply_jobs
apply_jobs-IsCounted n host [] c h = h
apply_jobs-IsCounted n host ((uid, (netns, (rules, hash))) ∷ jobs) c h =
    apply_jobs-IsCounted n host jobs _
      (settle_job-IsCounted n uid hash (apply_rules host netns rules c.kernel).1 c.pods h)

handle_remove_pod-IsCounted :
    (n : ℕ) (host : Host) (uid : String) (c : InpodFirewallController)
    → All (IsCountedPod n) c.pods
    → All (IsCountedPod n) (handle_remove_pod host uid c).pods
unfolding handle_remove_pod
handle_remove_pod-IsCounted n host uid c h = elim (Option-cases (Map.get uid c.pods)) [
  | inl e ↦ rw (handle_remove_pod, e) h
  | inr (pod, e) ↦ rw (handle_remove_pod, e) (All-remove (IsCountedPod n) uid c.pods h)
]

enroll-IsCounted :
    (hash : StageHash) (host : Host) (state : ProxyState) (uid : String) (info : WorkloadInfo)
    (netns : Netns) (c : InpodFirewallController)
    → All (IsCountedPod 0) c.pods
    → All (IsCountedPod 0) (enroll hash host state uid info netns c).pods
enroll-IsCounted hash host state uid info netns c h =
    All-insert (IsCountedPod 0) uid _ c.pods
      (try_init_and_apply-IsCounted hash host state info netns c.kernel) h

handle_add_pod-IsCounted :
    (hash : StageHash) (host : Host) (state : ProxyState) (uid : String) (info : WorkloadInfo)
    (netns : Netns) (c : InpodFirewallController)
    → All (IsCountedPod 0) c.pods
    → All (IsCountedPod 0) (handle_add_pod hash host state uid info netns c).pods
unfolding handle_add_pod
handle_add_pod-IsCounted hash host state uid info netns c h =
    elim (Option-cases (Map.get uid c.pods)) [
      | inl e ↦ rw (handle_add_pod, e) (enroll-IsCounted hash host state uid info netns c h)
      | inr (pod, e) ↦ elim (Bool-cases (nat_beq pod.netns.netns_id netns.netns_id)) [
        | inl q ↦ rw (handle_add_pod, e, q) h
        | inr q ↦
            rw (handle_add_pod, e, q)
              (enroll-IsCounted hash host state uid info netns (handle_remove_pod host uid c)
                (handle_remove_pod-IsCounted 0 host uid c h))
      ]
    ]

step-IsCounted :
    (hash : StageHash) (e : ControllerEvent) (c : InpodFirewallController)
    → All (IsCountedPod 0) c.pods
    → All (IsCountedPod 0) (step hash e c).pods
unfolding step rebuild_all_pods rebuild_pending_workload_pods retry_init_failed_pods
step-IsCounted hash (receives host state (add_pod uid info netns)) c h =
    handle_add_pod-IsCounted hash host state uid info netns c h
step-IsCounted hash (receives host state (remove_pod uid)) c h =
    handle_remove_pod-IsCounted 0 host uid c h
step-IsCounted hash (policies_changed host state) c h = apply_jobs-IsCounted 0 host _ c h
step-IsCounted hash (workloads_changed host state) c h = apply_jobs-IsCounted 0 host _ c h
step-IsCounted hash (retry_ticks host state) c h = elim (Bool-cases (has_retryable_pods c)) [
  | inl e ↦ rw e (
      weaken-All 0 1 _ (omega arith)
        (retry_pods-IsCounted hash host state 0 c.pods c.kernel (omega arith) h))
  | inr e ↦ rw e h
]

run-IsCounted :
    (hash : StageHash) (es : List ControllerEvent) (c : InpodFirewallController)
    → All (IsCountedPod 0) c.pods
    → All (IsCountedPod 0) (run hash es c).pods
unfolding run
run-IsCounted hash [] c h = h
run-IsCounted hash (e ∷ es) c h = run-IsCounted hash es (step hash e c) (step-IsCounted hash e c h)

-- The ticks of the retry timer among the events.
unfoldable pub tick_count : List ControllerEvent → ℕ
tick_count [] = 0
tick_count (retry_ticks host state ∷ es) = tick_count es + 1
tick_count (receives host state e ∷ es) = tick_count es
tick_count (policies_changed host state ∷ es) = tick_count es
tick_count (workloads_changed host state ∷ es) = tick_count es

unfoldable pub IsNoAddition : ControllerEvent → Type 0
IsNoAddition (receives host state (add_pod uid info netns)) = ⊥
IsNoAddition (receives host state (remove_pod uid)) = Unit
IsNoAddition (policies_changed host state) = Unit
IsNoAddition (workloads_changed host state) = Unit
IsNoAddition (retry_ticks host state) = Unit

tick-IsCounted :
    (hash : StageHash) (host : Host) (state : ProxyState) (n : ℕ) (c : InpodFirewallController)
    → n + 1 ≤ max_init_retries
    → All (IsCountedPod n) c.pods
    → All (IsCountedPod (n + 1)) (step hash (retry_ticks host state) c).pods
unfolding step retry_init_failed_pods has_retryable_pods
tick-IsCounted hash host state n c below h =
    elim (Bool-cases (any (λ e. is_retryable e.1) c.pods)) [
      | inl e ↦ rw e (retry_pods-IsCounted hash host state n c.pods c.kernel below h)
      | inr e ↦ rw e (kept-All n c.pods below e h)
    ]

spent_tick-IsCounted :
    (hash : StageHash) (host : Host) (state : ProxyState) (c : InpodFirewallController)
    → All (IsCountedPod max_init_retries) c.pods
    → All (IsCountedPod max_init_retries) (step hash (retry_ticks host state) c).pods
unfolding step
spent_tick-IsCounted hash host state c h = rw (spent-has_retryable_pods c h) h

-- With enough ticks to come and no Pod added, every count ends.
run_on-IsCounted :
    (hash : StageHash) (es : List ControllerEvent) (n : ℕ) (c : InpodFirewallController)
    → n ≤ max_init_retries
    → max_init_retries ≤ n + tick_count es
    → All IsNoAddition es
    → All (IsCountedPod n) c.pods
    → All (IsCountedPod max_init_retries) (run hash es c).pods
unfolding run step tick_count IsNoAddition rebuild_all_pods rebuild_pending_workload_pods
run_on-IsCounted hash [] n c below enough quiet h =
    weaken-All max_init_retries n c.pods (omega (arith, enough)) h
run_on-IsCounted hash (receives host state (add_pod uid info netns) ∷ es) n c below enough quiet h =
    elim quiet.0 [ ]
run_on-IsCounted hash (receives host state (remove_pod uid) ∷ es) n c below enough quiet h =
    run_on-IsCounted hash es n _ below enough quiet.1 (handle_remove_pod-IsCounted n host uid c h)
run_on-IsCounted hash (policies_changed host state ∷ es) n c below enough quiet h =
    run_on-IsCounted hash es n _ below enough quiet.1 (apply_jobs-IsCounted n host _ c h)
run_on-IsCounted hash (workloads_changed host state ∷ es) n c below enough quiet h =
    run_on-IsCounted hash es n _ below enough quiet.1 (apply_jobs-IsCounted n host _ c h)
run_on-IsCounted hash (retry_ticks host state ∷ es) n c below enough quiet h =
    elim (Bool-cases (leb (n + 1) max_init_retries)) [
      | inl e ↦
          let more : n + 1 ≤ max_init_retries = ground (arith, e) in
          run_on-IsCounted hash es (n + 1) _ more (omega (arith, enough)) quiet.1
            (tick-IsCounted hash host state n c more h)
      | inr e ↦
          let full : max_init_retries ≤ n = ground (arith, e) in
          run_on-IsCounted hash es max_init_retries _ (omega arith) (omega arith) quiet.1
            (spent_tick-IsCounted hash host state c (weaken-All max_init_retries n c.pods full h))
    ]

-- After any events, any further ones that hold at least five ticks of the retry timer and add no Pod
-- leave no Pod to retry: whatever the backends answer at each of them, and whichever rebuilds and
-- removals come between the ticks.
pub run-stops :
    (hash : StageHash) (es more : List ControllerEvent)
    → max_init_retries ≤ tick_count more
    → All IsNoAddition more
    → has_retryable_pods (run hash more (run hash es new)) ≡ false
run-stops hash es more five quiet =
    let c = run hash es new in
    spent-has_retryable_pods (run hash more c) (
      run_on-IsCounted hash more 0 c (omega arith) (omega (arith, five)) quiet
        (run-IsCounted hash es new tt))
