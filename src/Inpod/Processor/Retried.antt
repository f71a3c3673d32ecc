-- ===== src/Inpod/Processor/Retried.antt =====
-- A retry on a platform where the proxies start.
use ztunnel.Common.{
  ◌≡◌, ◌≢◌, refl, sym, subst, ◌∙◌, inl, inr, Bool, true, false, [], ◌∷◌, none, some, String, arith,
  Bool-cases, ◌==◌, string_eq,
}
use ztunnel.Common.Map
use ztunnel.Common.Map.{Map}
use ztunnel.Workload.{WorkloadInfo}
use ztunnel.Inpod.{
  Netns, Platform, ManagerState, have_pending, ready, retry_all, retry_pending, start_or_queue,
  add_workload_inner, start_workload, settle_add,
}
use ztunnel.Inpod.Starts.{state_of, pending_of, start_or_queue-Started}
use ztunnel.Inpod.Processor.{Processor, retry_proxies, check_ready, timer_expires, turn}
use ztunnel.Inpod.Processor.Watched.{have_pending-start_or_queue, received-retry_all}
use text.Mathlib.TextEquality.{eq_iff}

module _ (p : Platform)
    (starts : (uid : String) (info : WorkloadInfo) (netns : Netns)
      → p.starts uid info netns ≡ true) where
  inner-starts :
      (uid : String) (info : WorkloadInfo) (netns : Netns) (s : ManagerState)
      → (add_workload_inner p uid info netns s).1 ≡ true
  unfolding add_workload_inner start_workload
  inner-starts uid info netns s = ground (arith, starts uid info netns)

  queue-starts :
      (uid : String) (info : WorkloadInfo) (netns : Netns) (s : ManagerState)
      → (start_or_queue p uid info netns s).1 ≡ true
  unfolding start_or_queue
  queue-starts uid info netns s =
      settled (add_workload_inner p uid info netns s) (inner-starts uid info netns s)
    where
      settled : (r : ManagerState × Bool) → r.1 ≡ true → (settle_add uid info netns r).1 ≡ true
      settled (t, true) e = refl
      settled (t, false) e = absurd (ground arith)

  quiet-retry_all :
      (ws : Map String (WorkloadInfo × Netns)) (s : ManagerState)
      → have_pending s ≡ false
      → have_pending (retry_all p ws s) ≡ false
  unfolding retry_all
  quiet-retry_all [] s h = h
  quiet-retry_all ((uid, (info, netns)) ∷ ws) s h =
      quiet-retry_all ws (start_or_queue p uid info netns s).0
        (have_pending-start_or_queue p uid info netns s h (queue-starts uid info netns s))

  runs-start_or_queue :
      (uid k : String) (info : WorkloadInfo) (netns : Netns) (s : ManagerState)
      → state_of k s ≢ none
      → state_of k (start_or_queue p uid info netns s).0 ≢ none
  runs-start_or_queue uid k info netns s h n =
      let a = start_or_queue-Started p uid info netns s in
      elim (Bool-cases (uid == k)) [
        | inl hit ↦ a.runs (inner-starts uid info netns s) (
            subst (λ x. state_of x (start_or_queue p uid info netns s).0 ≡ none)
              (sym ((eq_iff uid k).0 hit)) n)
        | inr miss ↦ h (sym (a.others_states k miss) ∙ n)
      ]

  runs-retry_all :
      (k : String) (ws : Map String (WorkloadInfo × Netns)) (s : ManagerState)
      → state_of k s ≢ none
      → state_of k (retry_all p ws s) ≢ none
  unfolding retry_all
  runs-retry_all k [] s h = h
  runs-retry_all k ((uid, (info, netns)) ∷ ws) s h =
      runs-retry_all k ws (start_or_queue p uid info netns s).0
        (runs-start_or_queue uid k info netns s h)

  started-retry_all :
      (k : String) (x : WorkloadInfo × Netns) (ws : Map String (WorkloadInfo × Netns))
      (s : ManagerState)
      → Map.get k ws ≡ some x
      → state_of k (retry_all p ws s) ≢ none
  unfolding retry_all Map.get
  started-retry_all k x [] s h = absurd (ground arith)
  started-retry_all k x ((uid, (info, netns)) ∷ ws) s h =
      let a = start_or_queue-Started p uid info netns s in
      let t = (start_or_queue p uid info netns s).0 in
      elim (Bool-cases (uid == k)) [
        | inl hit ↦ runs-retry_all k ws t (
            subst (λ x. state_of x t ≢ none) ((eq_iff uid k).0 hit)
              (a.runs (inner-starts uid info netns s)))
        | inr miss ↦ started-retry_all k x ws t (ground (arith, h, miss))
      ]

  -- When the timer of the retries expires on a platform where every proxy starts, after the snapshot, a
  -- Pod that waited has a proxy, none waits, no further retry is scheduled, and the manager reports that
  -- it is ready.
  pub turn-retries :
      (q : Processor) (uid : String) (x : WorkloadInfo × Netns)
      → q.next_pending_retry ≡ true
      → q.state.snapshot_received ≡ true
      → pending_of uid q.state ≡ some x
      → ((turn (timer_expires p) q).processor.blocked ≡ false)
        × ((turn (timer_expires p) q).processor.next_pending_retry ≡ false)
        × (have_pending (turn (timer_expires p) q).processor.state ≡ false)
        × (state_of uid (turn (timer_expires p) q).processor.state ≢ none)
  unfolding turn retry_proxies check_ready ready retry_pending
  turn-retries q uid x timer synced waits =
      let cleared = record (q.state) { pending_workloads = [] } in
      let done = retry_all p q.state.pending_workloads cleared in
      let quiet = quiet-retry_all q.state.pending_workloads cleared refl in
      let received = received-retry_all p q.state.pending_workloads cleared in
      (
        ground (arith, timer, synced, quiet, received),
        ground (arith, timer, synced, quiet, received),
        ground (arith, timer, synced, quiet, received),
        λ n.
            started-retry_all uid x q.state.pending_workloads cleared waits
              (ground (arith, timer, synced, quiet, received, n)),
      )
