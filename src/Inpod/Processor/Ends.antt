-- ===== src/Inpod/Processor/Ends.antt =====
-- How the processing of the streams of the node agent ends, and what it leaves.
use ztunnel.Common.{
  ℕ, ◌+◌, ◌≡◌, refl, ap, ◌∙◌, inl, inr, Bool, true, false, List, [], ◌∷◌, ◌++◌, none, arith,
  Bool-cases, Option-cases, if◌then◌else◌,
}
use ztunnel.Common.Outcome.{Result, ok, err}
use ztunnel.Inpod.{
  InpodError, proxy_error, protocol_error, receive_message_error, send_ack_error, send_nack_error,
  announce_error, ManagerState, reset_snapshot, retry_pending, process_msg, ProtocolText,
}
use ztunnel.Inpod.Processor.{
  Answer, ack, nack, Processor, not_ready, check_ready, retry_proxies, Input, timer_expires,
  message, unreadable, settle_msg, turn, turns, Stream, attach, process, reconnects, run_internal,
  start,
}
use ztunnel.Inpod.Processor.Watched.{IsWatched, turns-IsWatched}

attach-IsWatched : (p : Processor) → p.blocked ≡ true → IsWatched (attach p)
unfolding reset_snapshot
attach-IsWatched p b = record { scheduled = λ t. refl; synced = λ t. absurd (ground (arith, b, t)) }

process-IsWatched_from :
    (stream : Stream) (p : Processor) → p.blocked ≡ true → IsWatched (process stream (attach p)).0
unfolding process
process-IsWatched_from stream p b = elim (Bool-cases stream.announced) [
  | inl e ↦ rw (process, e) (turns-IsWatched stream.inputs (attach p) (attach-IsWatched p b))
  | inr e ↦ rw (process, e) (attach-IsWatched p b)
]

blocked-run_internal :
    (streams : List Stream) (p : Processor)
    → p.blocked ≡ true
    → (run_internal streams p).0.blocked ≡ true
unfolding run_internal
blocked-run_internal [] p b = b
blocked-run_internal (stream ∷ streams) p b =
    elim (Bool-cases (reconnects (process stream (attach p)).1)) [
      | inl e ↦
          rw (run_internal, e)
            (blocked-run_internal streams (not_ready (process stream (attach p)).0) refl)
      | inr e ↦ rw (run_internal, e) refl
    ]

-- While a stream is processed, after any earlier streams, a retry is scheduled for every Pod that waits
-- to be started, and the manager reports that it is ready only if it has received a snapshot.
pub process-IsWatched :
    (streams : List Stream) (stream : Stream) (s : ManagerState)
    → IsWatched (process stream (attach (run_internal streams (start s)).0)).0
process-IsWatched streams stream s =
    process-IsWatched_from stream (run_internal streams (start s)).0
      (blocked-run_internal streams (start s) refl)

reconnects_lem :
    (r : Result InpodError (Unit {0}))
    → reconnects r ≡ false
    → (t : ProtocolText) × (r ≡ err (protocol_error t))
reconnects_lem (err (protocol_error t)) h = (t, refl)
reconnects_lem (ok u) h = absurd (ground arith)
reconnects_lem (err (proxy_error uid)) h = absurd (ground arith)
reconnects_lem (err receive_message_error) h = absurd (ground arith)
reconnects_lem (err send_ack_error) h = absurd (ground arith)
reconnects_lem (err send_nack_error) h = absurd (ground arith)
reconnects_lem (err announce_error) h = absurd (ground arith)

-- Reconnecting ends with an error only at a protocol error: the streams that would follow are not
-- opened, and the manager reports that it is not ready.
pub run_internal_lem :
    (streams : List Stream) (p : Processor) (e : InpodError)
    → (run_internal streams p).1 ≡ err e
    → ((t : ProtocolText) × (e ≡ protocol_error t))
      × ((after : List Stream) → run_internal (streams ++ after) p ≡ run_internal streams p)
      × ((run_internal streams p).0.blocked ≡ true)
unfolding run_internal
run_internal_lem [] p e h = absurd (ground (arith, h))
run_internal_lem (stream ∷ streams) p e h =
    let ended = process stream (attach p) in
    elim (Bool-cases (reconnects ended.1)) [
      | inl goes ↦
          let (t, same, b) =
            run_internal_lem streams (not_ready ended.0) e (rw (run_internal, goes) at h) in
          (t, (λ after. rw (run_internal, goes) (same after)), rw (run_internal, goes) b)
      | inr stops ↦
          let (t, at) = reconnects_lem ended.1 stops in
          let out : ended.1 ≡ err e = rw (run_internal, stops) at h in
          (
            (t, ground (arith, at, out)),
            (λ after. rw (run_internal, stops) refl),
            rw (run_internal, stops) refl,
          )
    ]

-- How many messages were read.
abbrev pub counted : Input → ℕ
counted (timer_expires platform) = 0
counted (message platform sends msg) = 1
counted (unreadable sends) = 0

pub messages : List Input → ℕ
messages [] = 0
messages (i ∷ is) = counted i + messages is

pub length : List Answer → ℕ
length [] = 0
length (x ∷ xs) = length xs + 1

abbrev is_ok : Result InpodError (Unit {0}) → Bool
is_ok (ok u) = true
is_ok (err e) = false

check_ready-answers : (p : Processor) → (check_ready p).answers ≡ p.answers
unfolding check_ready
check_ready-answers p = ground arith

settle_msg-answers :
    (sends : Bool) (p : Processor) (s : ManagerState) (r : Result InpodError (Unit {0}))
    → (settle_msg sends p (s, r)).stopped ≡ none
    → (settle_msg sends p (s, r)).processor.answers ≡ (if is_ok r then ack else nack) ∷ p.answers
settle_msg-answers true p s (ok u) h =
    ap (λ l. ack ∷ l) (check_ready-answers (record p { state = s }))
settle_msg-answers false p s (ok u) h = absurd (ground (arith, h))
settle_msg-answers true p s (err (proxy_error uid)) h = refl
settle_msg-answers false p s (err (proxy_error uid)) h = absurd (ground (arith, h))
settle_msg-answers true p s (err (protocol_error t)) h = absurd (ground (arith, h))
settle_msg-answers false p s (err (protocol_error t)) h = absurd (ground (arith, h))
settle_msg-answers true p s (err receive_message_error) h = absurd (ground (arith, h))
settle_msg-answers false p s (err receive_message_error) h = absurd (ground (arith, h))
settle_msg-answers true p s (err send_ack_error) h = absurd (ground (arith, h))
settle_msg-answers false p s (err send_ack_error) h = absurd (ground (arith, h))
settle_msg-answers true p s (err send_nack_error) h = absurd (ground (arith, h))
settle_msg-answers false p s (err send_nack_error) h = absurd (ground (arith, h))
settle_msg-answers true p s (err announce_error) h = absurd (ground (arith, h))
settle_msg-answers false p s (err announce_error) h = absurd (ground (arith, h))

turn-answers :
    (i : Input) (p : Processor)
    → (turn i p).stopped ≡ none
    → length (turn i p).processor.answers ≡ length p.answers + counted i
unfolding turn length retry_proxies
turn-answers (timer_expires platform) p h = ground (
  arith,
  check_ready-answers
      (record p { state = retry_pending platform p.state; next_pending_retry = false }),
)
turn-answers (message platform sends msg) p h =
    let r = process_msg platform msg p.state in
    ap length (settle_msg-answers sends p r.0 r.1 h) ∙ omega arith
turn-answers (unreadable true) p h = absurd (ground arith)
turn-answers (unreadable false) p h = absurd (ground arith)

-- A stream whose processing ends well has had one answer for each message.
pub turns-answers :
    (is : List Input) (p : Processor)
    → (turns is p).1 ≡ ok tt
    → length (turns is p).0.answers ≡ length p.answers + messages is
unfolding turns messages
turns-answers [] p h = omega arith
turns-answers (i ∷ is) p h = elim (Option-cases (turn i p).stopped) [
  | inl e ↦
      let rest = turns-answers is (turn i p).processor (rw (turns, e) at h) in
      rw (turns, e) (omega (arith, rest, turn-answers i p e))
  | inr (x, e) ↦ absurd (ground (arith, h, e))
]
