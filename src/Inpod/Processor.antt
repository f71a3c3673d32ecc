-- ===== src/Inpod/Processor.antt =====
-- src/inpod/workloadmanager.rs: the processing of the node agent's stream, the readiness that it
-- reports, and the reconnections. A wait is the place of an event in a list; how long it takes is left
-- out, with the backoff.
pub mod Watched
pub mod Ends
pub mod Retried
use ztunnel.Common.{
  ℕ, ◌≡◌, ◌≢◌, refl, sym, ap, subst, ◌∙◌, inl, inr, Bool, true, false, not, ◌&&◌, ◌||◌, List, [],
  ◌∷◌, ◌++◌, Option, none, some, String, arith, is_some, Bool-cases, if◌then◌else◌,
}
use ztunnel.Common.Map.{Map}
use ztunnel.Common.Outcome.{Result, ok, err}
use ztunnel.Workload.{WorkloadInfo}
use ztunnel.Inpod.{
  WorkloadMessage, InpodError, proxy_error, protocol_error, receive_message_error, send_ack_error,
  send_nack_error, announce_error, Platform, Netns, ManagerState, reset_snapshot, process_msg,
  have_pending, ready, retry_pending, ProtocolText,
}

pub data Answer : Type 0 where
  ack nack : Answer

-- The manager's state with `block_ready.is_some()`, `next_pending_retry.is_some()`, and the answers
-- that the stream took, newest first.
pub record Processor : Type 0 where
  pub state : ManagerState
  pub blocked : Bool
  pub next_pending_retry : Bool
  pub answers : List Answer

abbrev pub mark_ready : Processor → Processor
mark_ready p = record p { blocked = false }

abbrev pub not_ready : Processor → Processor
not_ready p = record p { blocked = true }

unfoldable pub check_ready : Processor → Processor
check_ready p = if ready p.state then mark_ready p else not_ready p

-- With the timer set already, it stays.
abbrev pub schedule_retry : Processor → Processor
schedule_retry p = record p { next_pending_retry = true }

pub retry_proxies : Platform → Processor → Processor
unfolding check_ready
retry_proxies platform p =
    let retried = record p { state = retry_pending platform p.state; next_pending_retry = false } in
    if have_pending retried.state then schedule_retry retried else check_ready retried

abbrev pub answer : Answer → Processor → Processor
answer a p = record p { answers = a ∷ p.answers }

-- What the stream brings. A message and a failure to read come with whether the answer can be sent.
pub data Input : Type 0 where
  timer_expires : Platform → Input
  message : Platform → Bool → WorkloadMessage → Input
  unreadable : Bool → Input

-- A turn of the loop goes on, or ends the processing with an error.
pub record Turn : Type 0 where
  pub processor : Processor
  pub stopped : Option InpodError

abbrev pub reply : Answer → Bool → InpodError → Option InpodError → Processor → Turn
reply a true unsent next p = record { processor = answer a p; stopped = next }
reply a false unsent next p = record { processor = p; stopped = some unsent }

abbrev pub settle_msg : Bool → Processor → ManagerState × Result InpodError (Unit {0}) → Turn
settle_msg sends p (s, ok u) =
    reply ack sends send_ack_error none (check_ready (record p { state = s }))
settle_msg sends p (s, err (proxy_error uid)) =
    reply nack sends send_nack_error none (schedule_retry (record p { state = s }))
settle_msg sends p (s, err (protocol_error t)) =
    reply nack sends send_nack_error (some (protocol_error t)) (record p { state = s })
settle_msg sends p (s, err receive_message_error) =
    reply nack sends send_nack_error (some receive_message_error) (record p { state = s })
settle_msg sends p (s, err send_ack_error) =
    reply nack sends send_nack_error (some send_ack_error) (record p { state = s })
settle_msg sends p (s, err send_nack_error) =
    reply nack sends send_nack_error (some send_nack_error) (record p { state = s })
settle_msg sends p (s, err announce_error) =
    reply nack sends send_nack_error (some announce_error) (record p { state = s })

-- The timer expires only where it is set.
unfoldable pub turn : Input → Processor → Turn
turn (timer_expires platform) p = record {
  processor = if p.next_pending_retry then retry_proxies platform p else p;
  stopped = none;
}
turn (message platform sends msg) p = settle_msg sends p (process_msg platform msg p.state)
turn (unreadable sends) p = reply nack sends send_nack_error (some receive_message_error) p

-- The loop. Its inputs end where the stream ends or a drain is requested.
unfoldable pub turns : List Input → Processor → Processor × Result InpodError (Unit {0})
unfolding turn
turns [] p = (p, ok tt)
turns (i ∷ is) p =
    let t = turn i p in
    elim t.stopped [ none ↦ turns is t.processor | some e ↦ (t.processor, err e) ]

-- A stream to the node agent: whether the announcement goes out, and what follows.
pub record Stream : Type 0 where
  pub announced : Bool
  pub inputs : List Input

-- `WorkloadProxyManagerProcessor::new`
abbrev pub attach : Processor → Processor
attach p = record p { state = reset_snapshot p.state; next_pending_retry = false }

unfoldable pub process : Stream → Processor → Processor × Result InpodError (Unit {0})
unfolding turns
process stream p = if stream.announced then turns stream.inputs p else (p, err announce_error)

-- Whether the loop over the connections goes on.
abbrev pub reconnects : Result InpodError (Unit {0}) → Bool
reconnects (ok u) = true
reconnects (err (protocol_error t)) = false
reconnects (err (proxy_error uid)) = true
reconnects (err receive_message_error) = true
reconnects (err send_ack_error) = true
reconnects (err send_nack_error) = true
reconnects (err announce_error) = true

-- `run_internal`. The streams end where a drain is requested; every end of a stream is `not_ready`.
unfoldable pub run_internal : List Stream → Processor → Processor × Result InpodError (Unit {0})
unfolding process
run_internal [] p = (p, ok tt)
run_internal (stream ∷ streams) p =
    let ended = process stream (attach p) in
    let rest = run_internal streams (not_ready ended.0) in
    if reconnects ended.1 then rest else (not_ready ended.0, ended.1)

-- `WorkloadProxyReadinessHandler::new` and the manager's first state.
abbrev pub start : ManagerState → Processor
start s = record { state = s; blocked = true; next_pending_retry = false; answers = [] }
