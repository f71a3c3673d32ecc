-- ===== src/Connections/Tracked.antt =====
-- What holds of the manager after any sequence of its operations.
use ztunnel.Common.{
  ℕ, ◌+◌, ◌-◌, ◌≤◌, ◌<◌, ◌≡◌, refl, subst, inl, inr, List, [], ◌∷◌, some, arith, All, Bool-cases,
  Option-cases, ltb,
}
use ztunnel.Common.Map
use ztunnel.Common.Map.{
  get-insert, get-remove, HasDistinctKeys, insert-HasDistinctKeys, remove-HasDistinctKeys,
  All-insert, All-remove,
}
use ztunnel.Common.Outcome.{Result-cases}
use ztunnel.Net.{IpNetApi}
use ztunnel.State.{ProxyState}
use ztunnel.State.Authorize.{assert_rbac}
use ztunnel.Connections.Context.{
  ConnectionContext, ConnectionKey, key_eq, key_beq, key_beq_iff, key_of,
}
use ztunnel.Connections.{
  ConnectionDrain, ConnectionManager, new, register, release, close, track, recheck,
  policies_changed, connections,
}
use ztunnel.Connections.Watcher.{IsTracked}
use ztunnel.Connections.Counts.{IsCounted}

-- An entry stands under the key of its context, is counted, and has a channel that was given out.
abbrev pub IsEntry : ℕ → ConnectionKey × ConnectionDrain → Type 0
IsEntry next e = (key_of e.1.context ≡ e.0) × (1 ≤ e.1.count) × (e.1.channel < next)

abbrev pub IsWellFormed : ConnectionManager → Type 0
IsWellFormed cm = HasDistinctKeys cm.drains × All (IsEntry cm.next_channel) cm.drains

widen :
    (n : ℕ) (m : Map.Map ConnectionKey ConnectionDrain)
    → All (IsEntry n) m
    → All (IsEntry (n + 1)) m
widen n [] h = tt
widen n (e ∷ m) h = ((h.0.0, h.0.1, omega (arith, h.0.2)), widen n m h.1)

get-IsEntry :
    (n : ℕ) (k : ConnectionKey) (cd : ConnectionDrain) (m : Map.Map ConnectionKey ConnectionDrain)
    → All (IsEntry n) m
    → Map.get k m ≡ some cd
    → IsEntry n (k, cd)
unfolding Map.get
get-IsEntry n k cd [] h e = absurd (ground arith)
get-IsEntry n k cd ((j, w) ∷ m) h e = elim (Bool-cases (key_beq j k)) [
  | inl hit ↦
      let same : w ≡ cd = ground arith in
      let at : j ≡ k = (key_beq_iff j k).0 hit in
      subst (λ x. IsEntry n (k, x)) same (subst (λ x. IsEntry n (x, w)) at h.0)
  | inr miss ↦ get-IsEntry n k cd m h.1 (ground arith)
]

register-IsWellFormed :
    (c : ConnectionContext) (cm : ConnectionManager)
    → IsWellFormed cm
    → IsWellFormed (register c cm).0
unfolding register
register-IsWellFormed c cm (d, h) = elim (Option-cases (Map.get (key_of c) cm.drains)) [
  | inl e ↦
      let drain : ConnectionDrain = record { context = c; channel = cm.next_channel; count = 1 } in
      rw (register, e)
        (
          insert-HasDistinctKeys (key_of c) drain cm.drains d,
          All-insert (IsEntry (cm.next_channel + 1)) (key_of c) drain cm.drains
              (refl, omega arith, omega arith) (widen cm.next_channel cm.drains h),
        )
  | inr (cd, e) ↦
      let more : ConnectionDrain = record cd { count = cd.count + 1 } in
      let (named, counted, below) = get-IsEntry cm.next_channel (key_of c) cd cm.drains h e in
      rw (register, e)
        (
          insert-HasDistinctKeys (key_of c) more cm.drains d,
          All-insert (IsEntry cm.next_channel) (key_of c) more cm.drains (named, omega arith, below)
              h,
        )
]

release-IsWellFormed :
    (c : ConnectionContext) (cm : ConnectionManager) → IsWellFormed cm → IsWellFormed (release c cm)
unfolding release
release-IsWellFormed c cm (d, h) = elim (Option-cases (Map.get (key_of c) cm.drains)) [
  | inl e ↦ rw (release, e) (d, h)
  | inr (cd, e) ↦
      let removed = Map.remove (key_of c) cm.drains in
      let less : ConnectionDrain = record cd { count = cd.count - 1 } in
      let (named, counted, below) = get-IsEntry cm.next_channel (key_of c) cd cm.drains h e in
      let left = remove-HasDistinctKeys (key_of c) cm.drains d in
      let kept = All-remove (IsEntry cm.next_channel) (key_of c) cm.drains h in
      elim (Bool-cases (ltb 1 cd.count)) [
        | inl more ↦
            rw (release, e, more)
              (
                insert-HasDistinctKeys (key_of c) less removed left,
                All-insert (IsEntry cm.next_channel) (key_of c) less removed
                    (named, ground arith, below) kept,
              )
        | inr last ↦ rw (release, e, last) (left, kept)
      ]
]

close-IsWellFormed :
    (c : ConnectionContext) (cm : ConnectionManager) → IsWellFormed cm → IsWellFormed (close c cm)
unfolding close
close-IsWellFormed c cm (d, h) = elim (Option-cases (Map.get (key_of c) cm.drains)) [
  | inl e ↦ rw (close, e) (d, h)
  | inr (cd, e) ↦
      rw (close, e)
        (
          remove-HasDistinctKeys (key_of c) cm.drains d,
          All-remove (IsEntry cm.next_channel) (key_of c) cm.drains h,
        )
]

recheck-IsWellFormed :
    (net : IpNetApi) (s : ProxyState) (cs : List ConnectionContext) (cm : ConnectionManager)
    → IsWellFormed cm
    → IsWellFormed (recheck net s cs cm)
unfolding recheck
recheck-IsWellFormed net s [] cm h = h
recheck-IsWellFormed net s (c ∷ cs) cm h = elim (Result-cases (assert_rbac net s c.rbac_ctx)) [
  | inl (u, e) ↦ rw (recheck, e) (recheck-IsWellFormed net s cs cm h)
  | inr (r, e) ↦
      rw (recheck, e) (recheck-IsWellFormed net s cs (close c cm) (close-IsWellFormed c cm h))
]

-- What happens to the manager: a connection comes, one ends, or a policy changes, each with the
-- state of the proxy at that moment.
pub data Event : Type 0 where
  comes : ProxyState → ConnectionContext → Event
  ends : ConnectionContext → Event
  changes : ProxyState → Event

module _ (net : IpNetApi) where
  pub step : Event → ConnectionManager → ConnectionManager
  unfolding track release policies_changed
  step (comes s c) cm = (track net s c cm).0
  step (ends c) cm = release c cm
  step (changes s) cm = policies_changed net s cm

  abbrev pub run : List Event → ConnectionManager → ConnectionManager
  run [] cm = cm
  run (e ∷ es) cm = run es (step e cm)

  step-IsWellFormed :
      (e : Event) (cm : ConnectionManager) → IsWellFormed cm → IsWellFormed (step e cm)
  unfolding step track policies_changed
  step-IsWellFormed (comes s c) cm h = elim (Result-cases (assert_rbac net s c.rbac_ctx)) [
    | inl (u, e) ↦ rw (step, track, e) (register-IsWellFormed c cm h)
    | inr (r, e) ↦
        rw (step, track, e)
          (release-IsWellFormed c (register c cm).0 (register-IsWellFormed c cm h))
  ]
  step-IsWellFormed (ends c) cm h = release-IsWellFormed c cm h
  step-IsWellFormed (changes s) cm h = recheck-IsWellFormed net s (connections cm) cm h

  run-IsWellFormed_from :
      (es : List Event) (cm : ConnectionManager) → IsWellFormed cm → IsWellFormed (run es cm)
  run-IsWellFormed_from [] cm h = h
  run-IsWellFormed_from (e ∷ es) cm h =
      run-IsWellFormed_from es (step e cm) (step-IsWellFormed e cm h)

-- After any sequence of connections that come and end and of policy changes, a connection has one
-- entry, which stands under its own key, is counted at least once, and has a channel that was given
-- out.
pub run-IsWellFormed : (net : IpNetApi) (es : List Event) → IsWellFormed (run net es new)
run-IsWellFormed net es = run-IsWellFormed_from net es new (tt, tt)

named :
    (n : ℕ) (m : Map.Map ConnectionKey ConnectionDrain)
    → All (IsEntry n) m
    → All (λ e. key_of e.1.context ≡ e.0) m
named n [] h = tt
named n (e ∷ m) h = (h.0.0, named n m h.1)

-- So the hypotheses of the laws on a round and on a new connection hold of every reachable manager.
pub run-IsTracked : (net : IpNetApi) (es : List Event) → IsTracked (run net es new)
run-IsTracked net es =
    let (d, h) = run-IsWellFormed net es in (d, named _ (run net es new).drains h)

pub run-IsCounted : (net : IpNetApi) (es : List Event) → IsCounted (run net es new)
run-IsCounted net es k cd e =
    let (d, h) = run-IsWellFormed net es in (get-IsEntry _ k cd (run net es new).drains h e).1
