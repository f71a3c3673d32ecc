-- ===== src/Connections/Watcher.antt =====
-- A round of the policy watcher.
use ztunnel.Common.{
  ℕ, ◌≡◌, refl, inl, inr, Bool, true, false, ◌&&◌, List, [], ◌∷◌, Option, none, some, arith, any,
  map, All, In, Bool-cases, Option-cases, if◌then◌else◌,
}
use ztunnel.Common.Map
use ztunnel.Common.Map.{Map, get-remove, HasDistinctKeys}
use ztunnel.Common.Outcome.{Result, Result-cases, ok, err}
use ztunnel.Net.{IpNetApi}
use ztunnel.State.{ProxyState}
use ztunnel.State.Authorize.{assert_rbac}
use ztunnel.Connections.Context.{
  ConnectionContext, ConnectionKey, key_eq, key_beq, key_beq_iff, key_of,
}
use ztunnel.Connections.{
  ConnectionDrain, ConnectionManager, close, connections, recheck, policies_changed,
}

abbrev pub is_err {ℓ κ} : {E : Type ℓ} {A : Type κ} → Result E A → Bool
is_err (ok a) = false
is_err (err e) = true

-- Every entry stands under the key of its context, and every key has one entry.
abbrev pub IsTracked : ConnectionManager → Type 0
IsTracked cm = HasDistinctKeys cm.drains × All (λ e. key_of e.1.context ≡ e.0) cm.drains

module _ (net : IpNetApi) (s : ProxyState) where
  abbrev pub is_denied : ConnectionContext → Bool
  is_denied c = is_err (assert_rbac net s c.rbac_ctx)

  abbrev closes : ConnectionKey → ConnectionContext → Bool
  closes k c = key_beq (key_of c) k && is_denied c

  -- The entry that a round leaves of one that it met.
  abbrev pub remaining : Option ConnectionDrain → Option ConnectionDrain
  remaining none = none
  remaining (some cd) = if is_denied cd.context then none else some cd

  get-close :
      (c : ConnectionContext) (k : ConnectionKey) (cm : ConnectionManager)
      → Map.get k (close c cm).drains ≡ (if key_beq (key_of c) k then none else Map.get k cm.drains)
  unfolding close
  get-close c k cm = elim (Option-cases (Map.get (key_of c) cm.drains)) [
    | inl e ↦ ground (arith, key_beq_iff (key_of c) k)
    | inr (cd, e) ↦ ground (arith, get-remove (key_of c) k cm.drains)
  ]

  get-recheck :
      (k : ConnectionKey) (cs : List ConnectionContext) (cm : ConnectionManager)
      → Map.get k (recheck net s cs cm).drains
        ≡ (if any (closes k) cs then none else Map.get k cm.drains)
  unfolding recheck
  get-recheck k [] cm = refl
  get-recheck k (c ∷ cs) cm = elim (Result-cases (assert_rbac net s c.rbac_ctx)) [
    | inl (u, e) ↦ ground (arith, get-recheck k cs cm)
    | inr (r, e) ↦ ground (arith, get-recheck k cs (close c cm), get-close c k cm)
  ]

  abbrev contexts : Map ConnectionKey ConnectionDrain → List ConnectionContext
  contexts m = map (λ cd. cd.context) (Map.values m)

  abbrev closes_entry : Option ConnectionDrain → Bool
  closes_entry none = false
  closes_entry (some cd) = is_denied cd.context

  any-contexts :
      (k : ConnectionKey) (m : Map ConnectionKey ConnectionDrain)
      → HasDistinctKeys m
      → All (λ e. key_of e.1.context ≡ e.0) m
      → any (closes k) (contexts m) ≡ closes_entry (Map.get k m)
  unfolding Map.get
  any-contexts k [] d h = refl
  any-contexts k ((j, cd) ∷ m) d h =
      let ih = any-contexts k m d.1 h.1 in ground (arith, ih, h.0, d.0, key_beq_iff j k)

  closed-signals :
      (c : ConnectionContext) (k : ConnectionKey) (cd : ConnectionDrain) (cm : ConnectionManager)
      → Map.get k cm.drains ≡ some cd
      → key_beq (key_of c) k ≡ true
      → In cd.channel (close c cm).drained
  unfolding close
  closed-signals c k cd cm h e = ground (arith, key_beq_iff (key_of c) k)

  close-drained :
      (ch : ℕ) (c : ConnectionContext) (cm : ConnectionManager)
      → In ch cm.drained
      → In ch (close c cm).drained
  unfolding close
  close-drained ch c cm h = elim (Option-cases (Map.get (key_of c) cm.drains)) [
    | inl e ↦ rw (close, e) h
    | inr (cd, e) ↦ rw (close, e) (inr h)
  ]

  recheck-drained :
      (ch : ℕ) (cs : List ConnectionContext) (cm : ConnectionManager)
      → In ch cm.drained
      → In ch (recheck net s cs cm).drained
  unfolding recheck
  recheck-drained ch [] cm h = h
  recheck-drained ch (c ∷ cs) cm h = elim (Result-cases (assert_rbac net s c.rbac_ctx)) [
    | inl (u, e) ↦ rw (recheck, e) (recheck-drained ch cs cm h)
    | inr (r, e) ↦ rw (recheck, e) (recheck-drained ch cs (close c cm) (close-drained ch c cm h))
  ]

  recheck-signals :
      (k : ConnectionKey) (cd : ConnectionDrain) (cs : List ConnectionContext)
      (cm : ConnectionManager)
      → Map.get k cm.drains ≡ some cd
      → any (closes k) cs ≡ true
      → In cd.channel (recheck net s cs cm).drained
  unfolding recheck
  recheck-signals k cd [] cm h a = absurd (ground arith)
  recheck-signals k cd (c ∷ cs) cm h a = elim (Result-cases (assert_rbac net s c.rbac_ctx)) [
    | inl (u, e) ↦ rw (recheck, e) (recheck-signals k cd cs cm h (ground arith))
    | inr (r, e) ↦
        rw (recheck, e)
          (elim (Bool-cases (key_beq (key_of c) k)) [
            | inl hit ↦ recheck-drained cd.channel cs (close c cm) (closed-signals c k cd cm h hit)
            | inr miss ↦
                recheck-signals k cd cs (close c cm) (ground (arith, get-close c k cm))
                  (ground arith)
          ])
  ]

-- In a manager whose entries are tracked, a round of the watcher after a change of policy keeps
-- exactly the entries whose connection is still authorized, as they were.
pub policies_changed_lem :
    (net : IpNetApi) (s : ProxyState) (k : ConnectionKey) (cm : ConnectionManager)
    → IsTracked cm
    → Map.get k (policies_changed net s cm).drains ≡ remaining net s (Map.get k cm.drains)
unfolding policies_changed connections
policies_changed_lem net s k cm tracked = ground (
  arith,
  get-recheck net s k (contexts net s cm.drains) cm,
  any-contexts net s k cm.drains tracked.0 tracked.1,
)

-- In a manager whose entries are tracked, a round of the watcher signals the channel of every entry
-- whose connection is no longer authorized.
pub policies_changed-signals :
    (net : IpNetApi) (s : ProxyState) (k : ConnectionKey) (cd : ConnectionDrain)
    (cm : ConnectionManager)
    → IsTracked cm
    → Map.get k cm.drains ≡ some cd
    → is_denied net s cd.context ≡ true
    → In cd.channel (policies_changed net s cm).drained
unfolding policies_changed connections
policies_changed-signals net s k cd cm tracked h denied =
    recheck-signals net s k cd (contexts net s cm.drains) cm h
      (ground (arith, any-contexts net s k cm.drains tracked.0 tracked.1))
