-- ===== src/Connections/Counts.antt =====
-- The count of a tracked connection.
use ztunnel.Common.{
  ℕ, ◌+◌, ◌≤◌, ◌≡◌, inl, inr, Bool, false, Option, none, some, arith, Option-cases, ◌⊎◌,
}
use ztunnel.Common.Map
use ztunnel.Common.Map.{get-insert, get-insert_self, get-remove}
use ztunnel.Common.Outcome.{Result-cases, ok, err}
use ztunnel.Policy.Types.{Rejection}
use ztunnel.Net.{IpNetApi}
use ztunnel.State.{ProxyState}
use ztunnel.State.Authorize.{assert_rbac}
use ztunnel.Connections.Context.{
  ConnectionContext, ConnectionKey, key_eq, key_beq, key_beq_iff, key_of,
}
use ztunnel.Connections.{
  ConnectionDrain, ConnectionManager, register, release, track, authorization_policy_rejection,
}

abbrev pub entry : ConnectionContext → ConnectionManager → Option ConnectionDrain
entry c cm = Map.get (key_of c) cm.drains

abbrev pub same : ConnectionContext → ConnectionKey → Bool
same c k = key_beq (key_of c) k

-- A tracked connection is counted at least once.
abbrev pub IsCounted : ConnectionManager → Type 0
IsCounted cm =
    (k : ConnectionKey) (cd : ConnectionDrain) → Map.get k cm.drains ≡ some cd → 1 ≤ cd.count

release-register :
    (c : ConnectionContext) (k : ConnectionKey) (cm : ConnectionManager)
    → IsCounted cm
    → Map.get k (release c (register c cm).0).drains ≡ Map.get k cm.drains
unfolding release register
release-register c k cm counted = elim (Option-cases (entry c cm)) [
  | inl e ↦
      let d : ConnectionDrain = record { context = c; channel = cm.next_channel; count = 1 } in
      ground (
        arith,
        get-insert_self (key_of c) d cm.drains,
        get-remove (key_of c) k (Map.insert (key_of c) d cm.drains),
        get-insert (key_of c) k d cm.drains,
        key_beq_iff (key_of c) k,
        e,
      )
  | inr (cd, e) ↦
      let d : ConnectionDrain = record cd { count = cd.count + 1 } in
      let some_count = counted (key_of c) cd e in
      ground (
        arith,
        get-insert_self (key_of c) d cm.drains,
        get-insert (key_of c) k cd (Map.remove (key_of c) (Map.insert (key_of c) d cm.drains)),
        get-remove (key_of c) k (Map.insert (key_of c) d cm.drains),
        get-insert (key_of c) k d cm.drains,
        key_beq_iff (key_of c) k,
        some_count,
        e,
      )
]

abbrev pub count_of : Option ConnectionDrain → ℕ
count_of none = 0
count_of (some cd) = cd.count

register-entry :
    (c : ConnectionContext) (cm : ConnectionManager)
    → (cd : ConnectionDrain) × (entry c (register c cm).0 ≡ some cd)
      × ((register c cm).1 ≡ cd.channel)
      × (cd.count ≡ count_of (entry c cm) + 1)
unfolding register
register-entry c cm = elim (Option-cases (entry c cm)) [
  | inl e ↦
      let d : ConnectionDrain = record { context = c; channel = cm.next_channel; count = 1 } in
      (d, ground (arith, get-insert_self (key_of c) d cm.drains), ground arith, ground arith)
  | inr (cd, e) ↦
      let d : ConnectionDrain = record cd { count = cd.count + 1 } in
      (d, ground (arith, get-insert_self (key_of c) d cm.drains), ground arith, ground arith)
]

register-others :
    (c : ConnectionContext) (k : ConnectionKey) (cm : ConnectionManager)
    → key_beq (key_of c) k ≡ false
    → Map.get k (register c cm).0.drains ≡ Map.get k cm.drains
unfolding register
register-others c k cm other = elim (Option-cases (entry c cm)) [
  | inl e ↦
      let d : ConnectionDrain = record { context = c; channel = cm.next_channel; count = 1 } in
      ground (arith, get-insert (key_of c) k d cm.drains)
  | inr (cd, e) ↦
      let d : ConnectionDrain = record cd { count = cd.count + 1 } in
      ground (arith, get-insert (key_of c) k d cm.drains)
]

-- What a manager that admits the connection looks like: one more of it, watched on its channel, and
-- every other connection as before.
pub record IsAdmitted (net : IpNetApi) (s : ProxyState) (c : ConnectionContext)
    (cm : ConnectionManager) : Type 0 where
  pub authorized : assert_rbac net s c.rbac_ctx ≡ ok tt
  pub drain : ConnectionDrain
  pub stored : entry c (track net s c cm).0 ≡ some drain
  pub guarded : (track net s c cm).1 ≡ ok (record { conn = c; watch = some drain.channel })
  pub counted : drain.count ≡ count_of (entry c cm) + 1
  pub others :
      (k : ConnectionKey)
      → key_beq (key_of c) k ≡ false
      → Map.get k (track net s c cm).0.drains ≡ Map.get k cm.drains

-- In a manager whose entries are counted, a connection that is not authorized is rejected with that
-- reason and leaves every entry as it was; one that is authorized is counted once more, guarded by
-- the channel of its entry, and leaves the other entries as they were.
pub track_lem :
    (net : IpNetApi) (s : ProxyState) (c : ConnectionContext) (cm : ConnectionManager)
    → IsCounted cm
    → ((e : Rejection) × (assert_rbac net s c.rbac_ctx ≡ err e)
        × ((track net s c cm).1 ≡ err (authorization_policy_rejection e))
        × ((k : ConnectionKey) → Map.get k (track net s c cm).0.drains ≡ Map.get k cm.drains))
      ⊎ IsAdmitted net s c cm
unfolding track
track_lem net s c cm counted = elim (Result-cases (assert_rbac net s c.rbac_ctx)) [
  | inl (u, e) ↦
      let (cd, stored, channel, count) = register-entry c cm in
      inr (record {
        authorized = e;
        drain = cd;
        stored = rw (track, e) stored;
        guarded = ground arith;
        counted = count;
        others = λ k other. rw (track, e) (register-others c k cm other);
      })
  | inr (r, e) ↦ inl (r, e, ground arith, λ k. rw (track, e) (release-register c k cm counted))
]
