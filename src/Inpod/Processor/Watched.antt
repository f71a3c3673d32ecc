-- ===== src/Inpod/Processor/Watched.antt =====
-- What holds of the processing of the node agent's streams: retries, readiness and answers.
use ztunnel.Common.{
  ◌≡◌, refl, ◌∙◌, inl, inr, Bool, true, false, List, [], ◌∷◌, Option, String, arith, is_empty,
  Bool-cases, Option-cases, string_eq,
}
use ztunnel.Common.Map
use ztunnel.Common.Map.{Map, get-remove}
use ztunnel.Common.Outcome.{Result, ok, err}
use ztunnel.Workload.{WorkloadInfo}
use ztunnel.Inpod.{
  Netns, WorkloadData, WorkloadMessage, add_workload, keep_workload, del_workload,
  workload_snapshot_sent, InpodError, proxy_error, protocol_error, receive_message_error,
  send_ack_error, send_nack_error, announce_error, Platform, ManagerState, process_msg, process_add,
  have_pending, ready, retry_all, retry_pending, start_or_queue, add_workload_inner, start_workload,
  settle_add, remove_workload, note, proxy_result,
}
use ztunnel.Inpod.Starts.{start_or_queue-Started, remove_workload-Leaves}
use ztunnel.Inpod.Managed.{proxy_result-state}
use ztunnel.Inpod.Snapshot.{pending-reconcile}
use ztunnel.Inpod.Processor.{
  Answer, ack, nack, Processor, check_ready, retry_proxies, Input, timer_expires, message,
  unreadable, reply, settle_msg, turn, turns,
}

abbrev is_proxy_error : Result InpodError (Unit {0}) → Bool
is_proxy_error (err (proxy_error uid)) = true
is_proxy_error (err (protocol_error t)) = false
is_proxy_error (err receive_message_error) = false
is_proxy_error (err send_ack_error) = false
is_proxy_error (err send_nack_error) = false
is_proxy_error (err announce_error) = false
is_proxy_error (ok u) = false

empty-remove :
    (uid : String) (m : Map String (WorkloadInfo × Netns))
    → is_empty m ≡ true
    → is_empty (Map.remove uid m) ≡ true
unfolding Map.remove
empty-remove uid [] h = refl
empty-remove uid (x ∷ m) h = absurd (ground arith)

have_pending-add_workload_inner :
    (p : Platform) (uid : String) (info : WorkloadInfo) (netns : Netns) (s : ManagerState)
    → have_pending s ≡ false
    → have_pending (add_workload_inner p uid info netns s).0 ≡ false
unfolding add_workload_inner start_workload remove_workload
have_pending-add_workload_inner p uid info netns s e =
    ground (arith, empty-remove uid s.pending_workloads)

have_pending-settle_add :
    (uid : String) (info : WorkloadInfo) (netns : Netns) (t : ManagerState) (b : Bool)
    → have_pending t ≡ false
    → (settle_add uid info netns (t, b)).1 ≡ true
    → have_pending (settle_add uid info netns (t, b)).0 ≡ false
have_pending-settle_add uid info netns t true e up =
    ground (arith, empty-remove uid t.pending_workloads)
have_pending-settle_add uid info netns t false e up = absurd (ground arith)

-- A start that succeeds queues nothing.
pub have_pending-start_or_queue :
    (p : Platform) (uid : String) (info : WorkloadInfo) (netns : Netns) (s : ManagerState)
    → have_pending s ≡ false
    → (start_or_queue p uid info netns s).1 ≡ true
    → have_pending (start_or_queue p uid info netns s).0 ≡ false
unfolding start_or_queue
have_pending-start_or_queue p uid info netns s h up =
    let r = add_workload_inner p uid info netns s in
    have_pending-settle_add uid info netns r.0 r.1
      (have_pending-add_workload_inner p uid info netns s h) up

have_pending-proxy_result :
    (uid : String) (t : ManagerState) (b : Bool)
    → is_proxy_error (proxy_result uid (t, b)).1 ≡ false
    → (b ≡ true) × ((proxy_result uid (t, b)).0 ≡ t)
have_pending-proxy_result uid t true h = (refl, refl)
have_pending-proxy_result uid t false h = absurd (ground arith)

have_pending-process_add :
    (p : Platform) (d : WorkloadData) (s : ManagerState)
    → have_pending s ≡ false
    → is_proxy_error (process_add p d s).1 ≡ false
    → have_pending (process_add p d s).0 ≡ false
unfolding process_add
have_pending-process_add p d s h e = elim (Option-cases d.workload_info) [
  | inl n ↦ rw (process_add, n) h
  | inr (info, i) ↦ elim (Option-cases (p.open_netns d.netns)) [
    | inl n ↦ absurd (ground (arith, e, i, n))
    | inr (netns, o) ↦
        let noted = note d.workload_uid s in
        let r = start_or_queue p d.workload_uid info netns noted in
        let quiet : have_pending noted ≡ false = ground (arith, h) in
        let (up, same) =
          have_pending-proxy_result d.workload_uid r.0 r.1 (rw (process_add, i, o) at e) in
        rw (process_add, i, o, same)
          (have_pending-start_or_queue p d.workload_uid info netns noted quiet up)
  ]
]

-- Only a start that failed, which is a proxy error, queues a Pod.
have_pending-process_msg :
    (p : Platform) (msg : WorkloadMessage) (s : ManagerState)
    → have_pending s ≡ false
    → is_proxy_error (process_msg p msg s).1 ≡ false
    → have_pending (process_msg p msg s).0 ≡ false
unfolding process_msg remove_workload
have_pending-process_msg p (add_workload d) s h e = have_pending-process_add p d s h e
have_pending-process_msg p (keep_workload uid) s h e = ground (arith, h)
have_pending-process_msg p (del_workload uid) s h e =
    ground (arith, h, empty-remove uid s.pending_workloads)
have_pending-process_msg p workload_snapshot_sent s h e = ground (arith, h, pending-reconcile s)

received-start_or_queue :
    (p : Platform) (uid : String) (info : WorkloadInfo) (netns : Netns) (s : ManagerState)
    → (start_or_queue p uid info netns s).0.snapshot_received ≡ s.snapshot_received
received-start_or_queue p uid info netns s = (start_or_queue-Started p uid info netns s).received

received-process_add :
    (p : Platform) (d : WorkloadData) (s : ManagerState)
    → (process_add p d s).0.snapshot_received ≡ s.snapshot_received
unfolding process_add
received-process_add p d s = elim (Option-cases d.workload_info) [
  | inl n ↦ rw (process_add, n) refl
  | inr (info, i) ↦ elim (Option-cases (p.open_netns d.netns)) [
    | inl n ↦ rw (process_add, i, n) (ground arith)
    | inr (netns, o) ↦
        let noted = note d.workload_uid s in
        let same : noted.snapshot_received ≡ s.snapshot_received = ground arith in
        rw
          (
            process_add,
            i,
            o,
            proxy_result-state d.workload_uid (start_or_queue p d.workload_uid info netns noted),
          )
          (received-start_or_queue p d.workload_uid info netns noted ∙ same)
  ]
]

-- The snapshot, once received, stays so for the stream.
received-process_msg :
    (p : Platform) (msg : WorkloadMessage) (s : ManagerState)
    → s.snapshot_received ≡ true
    → (process_msg p msg s).0.snapshot_received ≡ true
unfolding process_msg
received-process_msg p (add_workload d) s h = received-process_add p d s ∙ h
received-process_msg p (keep_workload uid) s h = ground (arith, h)
received-process_msg p (del_workload uid) s h =
    ground (arith, h, (remove_workload-Leaves uid s).received)
received-process_msg p workload_snapshot_sent s h = ground (arith, h)

pub received-retry_all :
    (p : Platform) (ws : Map String (WorkloadInfo × Netns)) (s : ManagerState)
    → (retry_all p ws s).snapshot_received ≡ s.snapshot_received
unfolding retry_all
received-retry_all p [] s = refl
received-retry_all p ((uid, (info, netns)) ∷ ws) s =
    received-retry_all p ws (start_or_queue p uid info netns s).0
    ∙ received-start_or_queue p uid info netns s

-- A Pod that waits to be started has a retry scheduled, and the manager reports that it is ready only
-- after a snapshot.
pub record IsWatched (p : Processor) : Type 0 where
  pub scheduled : p.next_pending_retry ≡ false → have_pending p.state ≡ false
  pub synced : p.blocked ≡ false → p.state.snapshot_received ≡ true

reply-processor :
    (a : Answer) (sends : Bool) (unsent : InpodError) (next : Option InpodError) (p : Processor)
    → IsWatched p
    → IsWatched (reply a sends unsent next p).processor
reply-processor a true unsent next p w = record { scheduled = w.scheduled; synced = w.synced }
reply-processor a false unsent next p w = w

check_ready-IsWatched :
    (p : Processor)
    → (p.next_pending_retry ≡ false → have_pending p.state ≡ false)
    → IsWatched (check_ready p)
unfolding check_ready ready
check_ready-IsWatched p h = record { scheduled = ground (arith, h); synced = ground arith }

-- What a message leaves, by its outcome.
settle_msg-IsWatched :
    (sends : Bool) (p : Processor) (s : ManagerState) (r : Result InpodError (Unit {0}))
    → IsWatched p
    → (have_pending p.state ≡ false → is_proxy_error r ≡ false → have_pending s ≡ false)
    → (p.state.snapshot_received ≡ true → s.snapshot_received ≡ true)
    → IsWatched (settle_msg sends p (s, r)).processor
settle_msg-IsWatched sends p s (ok u) w quiet synced =
    reply-processor ack sends _ _ _
      (check_ready-IsWatched (record p { state = s }) (λ t. quiet (w.scheduled t) refl))
settle_msg-IsWatched sends p s (err (proxy_error uid)) w quiet synced =
    reply-processor nack sends _ _ _
      (record { scheduled = λ t. absurd (ground arith); synced = λ b. synced (w.synced b) })
settle_msg-IsWatched sends p s (err (protocol_error t)) w quiet synced =
    reply-processor nack sends _ _ _
      (record { scheduled = λ t. quiet (w.scheduled t) refl; synced = λ b. synced (w.synced b) })
settle_msg-IsWatched sends p s (err receive_message_error) w quiet synced =
    reply-processor nack sends _ _ _
      (record { scheduled = λ t. quiet (w.scheduled t) refl; synced = λ b. synced (w.synced b) })
settle_msg-IsWatched sends p s (err send_ack_error) w quiet synced =
    reply-processor nack sends _ _ _
      (record { scheduled = λ t. quiet (w.scheduled t) refl; synced = λ b. synced (w.synced b) })
settle_msg-IsWatched sends p s (err send_nack_error) w quiet synced =
    reply-processor nack sends _ _ _
      (record { scheduled = λ t. quiet (w.scheduled t) refl; synced = λ b. synced (w.synced b) })
settle_msg-IsWatched sends p s (err announce_error) w quiet synced =
    reply-processor nack sends _ _ _
      (record { scheduled = λ t. quiet (w.scheduled t) refl; synced = λ b. synced (w.synced b) })

retry_proxies-IsWatched :
    (platform : Platform) (p : Processor) → IsWatched p → IsWatched (retry_proxies platform p)
unfolding retry_proxies check_ready ready retry_pending
retry_proxies-IsWatched platform p w = record {
  scheduled = ground arith;
  synced = ground (
    arith,
    w.synced,
    received-retry_all platform p.state.pending_workloads
        (record (p.state) { pending_workloads = [] }),
  );
}

turn-IsWatched : (i : Input) (p : Processor) → IsWatched p → IsWatched (turn i p).processor
unfolding turn
turn-IsWatched (timer_expires platform) p w = elim (Bool-cases p.next_pending_retry) [
  | inl e ↦ simp e (retry_proxies-IsWatched platform p w)
  | inr e ↦ simp e w
]
turn-IsWatched (message platform sends msg) p w =
    settle_msg-IsWatched sends p _ _ w (have_pending-process_msg platform msg p.state)
      (received-process_msg platform msg p.state)
turn-IsWatched (unreadable sends) p w = reply-processor nack sends _ _ _ w

pub turns-IsWatched : (is : List Input) (p : Processor) → IsWatched p → IsWatched (turns is p).0
unfolding turns
turns-IsWatched [] p w = w
turns-IsWatched (i ∷ is) p w = elim (Option-cases (turn i p).stopped) [
  | inl e ↦ rw (turns, e) (turns-IsWatched is (turn i p).processor (turn-IsWatched i p w))
  | inr (x, e) ↦ rw (turns, e) (turn-IsWatched i p w)
]
