-- ===== src/Inpod/Tests.antt =====
-- The laws of the in-pod manager at small sequences of messages.
use ztunnel.Common.{
  ℕ, ◌≡◌, ◌≢◌, refl, true, false, List, [], ◌∷◌, Option, none, some, String, arith, All, contains,
  string_eq, if◌then◌else◌,
}
use ztunnel.Common.Map
use ztunnel.Common.Outcome.{ok, err}
use ztunnel.Workload.{WorkloadInfo}
use ztunnel.Inpod.{
  Netns, WorkloadMessage, add_workload, del_workload, workload_snapshot_sent, Platform,
  ManagerState, new, process_msg, have_pending, protocol_error, ProtocolText, reset_snapshot, ready,
  reconcile, shutdown_all, snapshot_received_already,
}
use ztunnel.Inpod.Starts.{state_of, pending_of}
use ztunnel.Inpod.Managed.{Event, connects, receives, retries, run, IsManaged, run-IsManaged}
use ztunnel.Inpod.Rules.{IsRuled, run-IsRuled, ruled, failed_then_deleted, run-stale_rules}
use ztunnel.Inpod.Snapshot.{process_msg-snapshot}
use ztunnel.Inpod.Protocol.{
  ControlMessage, scm_rights, other_control, MsgFlags, WorkloadRequest, add, maybe_get_fd,
  expected_fd, IsAccounted, maybe_get_fd_lem,
}
use ztunnel.Inpod.Processor.{
  Processor, message, timer_expires, Stream, attach, process, run_internal, start, turn, turns,
  check_ready,
}
use ztunnel.Inpod.Processor.Watched.{IsWatched}
use ztunnel.Inpod.Processor.Ends.{process-IsWatched, run_internal_lem}
use ztunnel.Inpod.Processor.Retried.{turn-retries}

abbrev info : WorkloadInfo
info = record { name = "pod"; namespace = "ns"; service_account = "sa" }

abbrev netns_of_fd : ℕ → Netns
netns_of_fd fd = record { netns_id = fd }

-- A platform on which every proxy starts, and one on which none does.
abbrev up : Platform
up = record { open_netns = λ fd. some (netns_of_fd fd); starts = λ uid i n. true }

abbrev down : Platform
down = record { open_netns = λ fd. some (netns_of_fd fd); starts = λ uid i n. false }

abbrev adds : String → ℕ → WorkloadMessage
adds uid fd = add_workload (record { netns = fd; workload_uid = uid; workload_info = some info })

-- A Pod starts, another fails and is retried, the first one moves, and a new stream begins.
abbrev story : List Event
story =
    receives up (adds "a" 3)
    ∷ receives down (adds "b" 4)
    ∷ receives up workload_snapshot_sent
    ∷ retries up
    ∷ receives up (adds "a" 5)
    ∷ receives up (del_workload "b")
    ∷ connects
    ∷ []

run-IsManaged_example : IsManaged (run story (new (some [])))
run-IsManaged_example = run-IsManaged story (some [])

run-IsRuled_example : IsRuled (run story (new (some [])))
run-IsRuled_example = run-IsRuled story

run-stale_rules_example :
    (es : List _) × ((run (failed_then_deleted down "a" info 3) (new (some []))).fw_tx ≡ some es)
    × (ruled es "a" ≡ some 3)
    × (state_of "a" (run (failed_then_deleted down "a" info 3) (new (some []))) ≡ none)
    × (pending_of "a" (run (failed_then_deleted down "a" info 3) (new (some []))) ≡ none)
run-stale_rules_example = run-stale_rules down "a" info 3 (netns_of_fd 3) refl refl

-- Two Pods run, of which the snapshot names one.
abbrev two_running : ManagerState
two_running = record (new (some [])) {
  workload_states = ("a", record { netns_id = 3 }) ∷ ("b", record { netns_id = 4 }) ∷ [];
  snapshot_names = "b" ∷ [];
}

process_msg-snapshot_example :
    ((process_msg up workload_snapshot_sent two_running).1 ≡ ok tt)
    × ((process_msg up workload_snapshot_sent two_running).0.snapshot_received ≡ true)
    × ((k : String)
        → state_of k (process_msg up workload_snapshot_sent two_running).0
          ≡ (if contains ("b" ∷ []) k then state_of k two_running else none))
    × ((process_msg up workload_snapshot_sent two_running).0.pending_workloads ≡ [])
process_msg-snapshot_example = process_msg-snapshot up two_running refl

abbrev fds : List ControlMessage
fds = scm_rights (7 ∷ []) ∷ other_control ∷ scm_rights (8 ∷ 9 ∷ []) ∷ []

maybe_get_fd_lem_example :
    ((maybe_get_fd fds).0 ≡ expected_fd (7 ∷ 8 ∷ 9 ∷ []))
    × All (IsAccounted (maybe_get_fd fds)) (7 ∷ 8 ∷ 9 ∷ [])
maybe_get_fd_lem_example =
    maybe_get_fd_lem fds
      ((λ e. ground (arith, e)), ((λ e. ground (arith, e)), ((λ e. ground (arith, e)), tt)))

abbrev decode : List ℕ → Option WorkloadRequest
decode bytes = some (record { payload = some (add "a" (some info)) })

abbrev whole : MsgFlags
whole = record { msg_trunc = false; msg_ctrunc = false }

abbrev failing : Stream
failing = record {
  announced = true;
  inputs = message down true (adds "a" 3) ∷ message down true workload_snapshot_sent ∷ [];
}

process-IsWatched_example :
    IsWatched (process failing (attach (run_internal (failing ∷ []) (start (new (some [])))).0)).0
process-IsWatched_example = process-IsWatched (failing ∷ []) failing (new (some []))

abbrev waiting : Processor
waiting = record {
  state = record (new none) {
    pending_workloads = ("a", (info, netns_of_fd 3)) ∷ [];
    snapshot_received = true;
  };
  blocked = true;
  next_pending_retry = true;
  answers = [];
}

turn-retries_example :
    ((turn (timer_expires up) waiting).processor.blocked ≡ false)
    × ((turn (timer_expires up) waiting).processor.next_pending_retry ≡ false)
    × (have_pending (turn (timer_expires up) waiting).processor.state ≡ false)
    × (state_of "a" (turn (timer_expires up) waiting).processor.state ≢ none)
unfolding Map.get
turn-retries_example =
    turn-retries up (λ uid i n. refl) waiting "a" (info, netns_of_fd 3) refl refl refl

-- A second end of the snapshot is a protocol error.
abbrev twice : Stream
twice = record {
  announced = true;
  inputs = message up true workload_snapshot_sent ∷ message up true workload_snapshot_sent ∷ [];
}

twice-fails :
    (run_internal (twice ∷ []) (start (new none))).1
    ≡ err (protocol_error snapshot_received_already)
unfolding run_internal process turns turn process_msg check_ready reset_snapshot ready reconcile
    shutdown_all
twice-fails = refl

run_internal_lem_example :
    ((t : ProtocolText) × (protocol_error snapshot_received_already ≡ protocol_error t))
    × ((after : List Stream)
        → run_internal (twice ∷ after) (start (new none))
          ≡ run_internal (twice ∷ []) (start (new none)))
    × ((run_internal (twice ∷ []) (start (new none))).0.blocked ≡ true)
run_internal_lem_example =
    run_internal_lem (twice ∷ []) (start (new none)) (protocol_error snapshot_received_already)
      twice-fails
