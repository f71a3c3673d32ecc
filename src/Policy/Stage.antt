-- ===== src/Policy/Stage.antt =====
-- What one ordered stage of policies decides, against a reading that knows of no loop.
use mathlib.Core.List.{append-nil}
use ztunnel.Common.{
  ℕ, suc, ◌+◌, ◌≡◌, refl, sym, ◌≢◌, ◌↔◌, ◌⊎◌, inl, inr, Bool, true, false, List, [], ◌∷◌, ◌++◌,
  Option, none, some, String, arith, All, All-append, In, subst, get_elem?, Bool-cases,
  Option-cases,
}
use ztunnel.Common.Outcome.{ok, err}
use ztunnel.Net.{IpNetApi}
use ztunnel.Policy.Types.{
  Direction, Connection, Action, allow, deny, Rule, RuleSet, TrafficPolicy, Rejection,
  explicitly_denied, policy_unavailable, binding_unavailable, rule, default_deny,
}
use ztunnel.Policy.{
  rules_for, Policies, first_missing, matches_tcp, find_rule, match_tcp, assert_from,
  assert_policies,
}

abbrev pub rules_of : Option RuleSet → List Rule
rules_of none = []
rules_of (some rs) = rs.rules

abbrev pub body : Direction → Option TrafficPolicy → Option RuleSet
body d none = none
body d (some p) = rules_for p d

-- Every rule of the stage for a direction, in order.
abbrev pub stage_rules : Direction → Policies → List Rule
stage_rules d [] = []
stage_rules d ((name, p) ∷ ps) = rules_of (body d p) ++ stage_rules d ps

abbrev pub IsResolved : Policies → Type 0
IsResolved = All (λ e. e.1 ≢ none)

abbrev pub IsUnconfigured : Direction → Policies → Type 0
IsUnconfigured d = All (λ e. body d e.1 ≡ none)

first_missing_iff : (ps : Policies) → (first_missing ps ≡ none) ↔ IsResolved ps
unfolding first_missing
first_missing_iff [] = ground arith
first_missing_iff ((name, none) ∷ ps) = ((λ e. cc), (λ h. absurd (h.0 refl)))
first_missing_iff ((name, some p) ∷ ps) =
    ((λ e. ((λ q. cc), (first_missing_iff ps).0 e)), (λ h. (first_missing_iff ps).1 h.1))

module _ (net : IpNetApi) (conn : Connection) where
  -- The first rule of a list that matches the connection has the action.
  pub record FirstMatch (rules : List Rule) (a : Action) : Type 0 where
    pub before : List Rule
    pub found : Rule
    pub after : List Rule
    pub split : rules ≡ before ++ (found ∷ after)
    pub skipped : All (λ r. matches_tcp net r conn ≡ false) before
    pub hit : matches_tcp net found conn ≡ true
    pub decides : found.action ≡ a

  abbrev first_action : List Rule → Option Action
  first_action [] = none
  first_action (r ∷ rs) = elim (matches_tcp net r conn) [
    | true ↦ some r.action
    | false ↦ first_action rs
  ]

  FirstMatch-cons :
      {rules : List Rule} {a : Action} (r : Rule)
      → matches_tcp net r conn ≡ false
      → FirstMatch rules a
      → FirstMatch (r ∷ rules) a
  FirstMatch-cons r miss m = record {
    before = r ∷ m.before;
    found = m.found;
    after = m.after;
    split = cc m.split;
    skipped = (miss, m.skipped);
    hit = m.hit;
    decides = m.decides;
  }

  first_action_sound :
      (rules : List Rule) (a : Action) → first_action rules ≡ some a → FirstMatch rules a
  first_action_sound [] a h = cc
  first_action_sound (r ∷ rs) a h = elim (Bool-cases (matches_tcp net r conn)) [
    | inl hit ↦ record {
      before = [];
      found = r;
      after = rs;
      split = refl;
      skipped = tt;
      hit = hit;
      decides = ground arith;
    }
    | inr miss ↦ FirstMatch-cons r miss (first_action_sound rs a (ground arith))
  ]

  first_action-append :
      (before after : List Rule)
      → All (λ r. matches_tcp net r conn ≡ false) before
      → first_action (before ++ after) ≡ first_action after
  first_action-append [] after h = refl
  first_action-append (r ∷ rs) after h = ground (arith, first_action-append rs after h.1)

  first_action_complete :
      (rules : List Rule) (a : Action) → FirstMatch rules a → first_action rules ≡ some a
  first_action_complete rules a m =
      ground (
        arith,
        first_action-append m.before (m.found ∷ m.after) m.skipped,
        m.hit,
        m.decides,
        m.split,
      )

  find_rule-first_action :
      (i : ℕ) (rs : List Rule) (rest : List Rule)
      → ((find_rule net i rs conn ≡ none) × (first_action (rs ++ rest) ≡ first_action rest))
        ⊎ ((j : ℕ) × (a : Action) × (find_rule net i rs conn ≡ some (j, a))
            × (first_action (rs ++ rest) ≡ some a))
  unfolding find_rule
  find_rule-first_action i [] rest = inl (refl, refl)
  find_rule-first_action i (r ∷ rs) rest = elim (Bool-cases (matches_tcp net r conn)) [
    | inl hit ↦ inr (i, r.action, ground arith, ground arith)
    | inr miss ↦ elim (find_rule-first_action (suc i) rs rest) [
      | inl (e, f) ↦ inl (ground arith, ground arith)
      | inr (j, a, e, f) ↦ inr (j, a, ground arith, ground arith)
    ]
  ]

  abbrev Passes : Bool → Policies → Type 0
  Passes configured ps =
      (first_action (stage_rules conn.direction ps) ≡ some allow)
      ⊎ ((first_action (stage_rules conn.direction ps) ≡ none)
          × (configured ≡ false)
          × IsUnconfigured conn.direction ps)

  assert_from_iff :
      (configured : Bool) (ps : Policies)
      → (assert_from net configured ps conn ≡ ok tt) ↔ Passes configured ps
  unfolding assert_from match_tcp
  assert_from_iff configured [] = ground arith
  assert_from_iff configured ((name, none) ∷ ps) = ground (arith, assert_from_iff configured ps)
  assert_from_iff configured ((name, some p) ∷ ps) =
      elim (Option-cases (rules_for p conn.direction)) [
        | inl e ↦ ground (arith, assert_from_iff configured ps)
        | inr (rs, e) ↦ ground (
          arith,
          find_rule-first_action 0 rs.rules (stage_rules conn.direction ps),
          assert_from_iff true ps,
        )
      ]

  first_action-none :
      (rs : List Rule) → first_action rs ≡ none → All (λ r. matches_tcp net r conn ≡ false) rs
  first_action-none [] h = tt
  first_action-none (r ∷ rs) h = elim (Bool-cases (matches_tcp net r conn)) [
    | inl hit ↦ absurd (ground arith)
    | inr miss ↦ (miss, first_action-none rs (ground arith))
  ]

  -- What a rejection says of the stage that gave it.
  abbrev pub Explains : Policies → Rejection → Type 0
  Explains ps (explicitly_denied name policy_unavailable) =
      (before after : Policies) × (ps ≡ before ++ ((name, none) ∷ after)) × IsResolved before
  Explains ps (explicitly_denied name (rule i)) =
      (p : TrafficPolicy) × (rs : RuleSet) × (r : Rule) × In (name, some p) ps
      × (rules_for p conn.direction ≡ some rs)
      × (get_elem? rs.rules i ≡ some r)
      × (matches_tcp net r conn ≡ true)
      × (r.action ≡ deny)
  Explains ps (explicitly_denied name default_deny) =
      (name ≡ "")
      × ¬ IsUnconfigured conn.direction ps
      × All (λ r. matches_tcp net r conn ≡ false) (stage_rules conn.direction ps)
  Explains ps (explicitly_denied name binding_unavailable) = ⊥

  first_missing-Explains :
      (ps : Policies) (name : String)
      → first_missing ps ≡ some name
      → Explains ps (explicitly_denied name policy_unavailable)
  unfolding first_missing
  first_missing-Explains [] name h = cc
  first_missing-Explains ((n, none) ∷ ps) name h = ([], ps, ground arith, tt)
  first_missing-Explains ((n, some p) ∷ ps) name h =
      let (before, after, e, r) = first_missing-Explains ps name h in
      ((n, some p) ∷ before, after, cc e, ((λ q. cc), r))

  find_rule-get_elem? :
      (k i : ℕ) (a : Action) (rs : List Rule)
      → find_rule net k rs conn ≡ some (i, a)
      → (j : ℕ) × (r : Rule) × (i ≡ j + k)
        × (get_elem? rs j ≡ some r)
        × (matches_tcp net r conn ≡ true)
        × (r.action ≡ a)
  unfolding find_rule
  find_rule-get_elem? k i a [] h = cc
  find_rule-get_elem? k i a (r ∷ rs) h = elim (Bool-cases (matches_tcp net r conn)) [
    | inl hit ↦ (0, r, ground arith, refl, hit, ground arith)
    | inr miss ↦
        let (j, r', e, g, m, d) = find_rule-get_elem? (suc k) i a rs (ground arith) in
        (suc j, r', omega arith, g, m, d)
  ]

  abbrev LoopExplains : Bool → Policies → Rejection → Type 0
  LoopExplains configured ps (explicitly_denied name default_deny) =
      (name ≡ "")
      × ((configured ≡ true) ⊎ ¬ IsUnconfigured conn.direction ps)
      × All (λ r. matches_tcp net r conn ≡ false) (stage_rules conn.direction ps)
  LoopExplains configured ps (explicitly_denied name policy_unavailable) = ⊥
  LoopExplains configured ps (explicitly_denied name (rule i)) =
      Explains ps (explicitly_denied name (rule i))
  LoopExplains configured ps (explicitly_denied name binding_unavailable) = ⊥

  LoopExplains-skip :
      (configured : Bool) (name : String) (p : Option TrafficPolicy) (ps : Policies)
      (rej : Rejection)
      → body conn.direction p ≡ none
      → LoopExplains configured ps rej
      → LoopExplains configured ((name, p) ∷ ps) rej
  LoopExplains-skip c name p ps (explicitly_denied n default_deny) e (q, o, m) =
      (q, elim o [ inl t ↦ inl t | inr f ↦ inr (λ u. f u.1) ], rw e m)
  LoopExplains-skip c name p ps (explicitly_denied n policy_unavailable) e h = h
  LoopExplains-skip c name p ps (explicitly_denied n binding_unavailable) e h = h
  LoopExplains-skip c name p ps (explicitly_denied n (rule i)) e (q, rs, r, m, x, y, z, w) =
      (q, rs, r, inr m, x, y, z, w)

  -- The stage goes on behind a policy that configures the direction and whose rules all miss.
  LoopExplains-miss :
      (configured : Bool) (name : String) (p : TrafficPolicy) (rs : RuleSet) (ps : Policies)
      (rej : Rejection)
      → rules_for p conn.direction ≡ some rs
      → All (λ r. matches_tcp net r conn ≡ false) rs.rules
      → LoopExplains true ps rej
      → LoopExplains configured ((name, some p) ∷ ps) rej
  LoopExplains-miss c name p rs ps (explicitly_denied n default_deny) e u (q, _, m) =
      (q, inr (λ f. ground arith), rw e (All-append _ rs.rules _ u m))
  LoopExplains-miss c name p rs ps (explicitly_denied n policy_unavailable) e u h = h
  LoopExplains-miss c name p rs ps (explicitly_denied n binding_unavailable) e u h = h
  LoopExplains-miss c name p rs ps (explicitly_denied n (rule i)) e u (q, rs', r, m, x, y, z, w) =
      (q, rs', r, inr m, x, y, z, w)

  LoopExplains-hit :
      (configured : Bool) (name : String) (p : TrafficPolicy) (rs : RuleSet) (ps : Policies) (i : ℕ)
      → rules_for p conn.direction ≡ some rs
      → find_rule net 0 rs.rules conn ≡ some (i, deny)
      → LoopExplains configured ((name, some p) ∷ ps) (explicitly_denied name (rule i))
  LoopExplains-hit c name p rs ps i e f =
      let (j, r, k, g, m, d) = find_rule-get_elem? 0 i deny rs.rules f in
      let same : i ≡ j = omega arith in
      (p, rs, r, inl refl, e, subst (λ t. get_elem? rs.rules t ≡ some r) (sym same) g, m, d)

  assert_from-LoopExplains :
      (configured : Bool) (ps : Policies) (rej : Rejection)
      → assert_from net configured ps conn ≡ err rej
      → LoopExplains configured ps rej
  unfolding assert_from match_tcp
  assert_from-LoopExplains true [] rej h =
      let e : explicitly_denied "" default_deny ≡ rej = ground arith in
      subst (LoopExplains true []) e (refl, inl refl, tt)
  assert_from-LoopExplains false [] rej h = absurd (ground arith)
  assert_from-LoopExplains c ((name, none) ∷ ps) rej h =
      LoopExplains-skip c name none ps rej refl (assert_from-LoopExplains c ps rej h)
  assert_from-LoopExplains c ((name, some p) ∷ ps) rej h =
      elim (Option-cases (rules_for p conn.direction)) [
        | inl e ↦
            LoopExplains-skip c name (some p) ps rej e
              (assert_from-LoopExplains c ps rej (ground arith))
        | inr (rs, e) ↦ elim (find_rule-first_action 0 rs.rules []) [
          | inl (f, n) ↦
              LoopExplains-miss c name p rs ps rej e
                (first_action-none rs.rules (ground (arith, append-nil rs.rules)))
                (assert_from-LoopExplains true ps rej (ground arith))
          | inr (j, allow, f, n) ↦ absurd (ground arith)
          | inr (j, deny, f, n) ↦
              let same : explicitly_denied name (rule j) ≡ rej = ground arith in
              subst (LoopExplains c ((name, some p) ∷ ps)) same
                (LoopExplains-hit c name p rs ps j e f)
        ]
      ]

  LoopExplains-Explains :
      (ps : Policies) (rej : Rejection) → LoopExplains false ps rej → Explains ps rej
  LoopExplains-Explains ps (explicitly_denied n default_deny) (q, o, m) =
      (q, elim o [ inl t ↦ absurd (ground arith) | inr f ↦ f ], m)
  LoopExplains-Explains ps (explicitly_denied n policy_unavailable) h = absurd h
  LoopExplains-Explains ps (explicitly_denied n binding_unavailable) h = h
  LoopExplains-Explains ps (explicitly_denied n (rule i)) h = h

module _ (net : IpNetApi) (conn : Connection) where
  stage_rules_of_IsUnconfigured :
      (ps : Policies) → IsUnconfigured conn.direction ps → stage_rules conn.direction ps ≡ []
  stage_rules_of_IsUnconfigured [] h = refl
  stage_rules_of_IsUnconfigured ((name, p) ∷ ps) h = rw (h.0, stage_rules_of_IsUnconfigured ps h.1)

  Passes-Admitted :
      (ps : Policies)
      → Passes net conn false ps
      → IsUnconfigured conn.direction ps ⊎ FirstMatch net conn (stage_rules conn.direction ps) allow
  Passes-Admitted ps (inl e) = inr (first_action_sound net conn _ allow e)
  Passes-Admitted ps (inr (e, f, u)) = inl u

  Admitted-Passes :
      (ps : Policies)
      → IsUnconfigured conn.direction ps ⊎ FirstMatch net conn (stage_rules conn.direction ps) allow
      → Passes net conn false ps
  Admitted-Passes ps (inl u) = inr (rw (stage_rules_of_IsUnconfigured ps u), refl, u)
  Admitted-Passes ps (inr m) = inl (first_action_complete net conn _ allow m)

-- A stage admits a connection exactly when all its references resolve, and either none of its
-- policies configures the direction or the first rule that matches, over the policies in order,
-- allows.
pub assert_policies_iff :
    (net : IpNetApi) (conn : Connection) (ps : Policies)
    → (assert_policies net ps conn ≡ ok tt) ↔ (
        IsResolved ps
        × (IsUnconfigured conn.direction ps
            ⊎ FirstMatch net conn (stage_rules conn.direction ps) allow))
unfolding assert_policies
assert_policies_iff net conn ps = elim (Option-cases (first_missing ps)) [
  | inl e ↦ (
    λ h. (
      (first_missing_iff ps).0 e,
      Passes-Admitted net conn ps ((assert_from_iff net conn false ps).0 (ground arith)),
    ),
    λ h. ground (arith, (assert_from_iff net conn false ps).1 (Admitted-Passes net conn ps h.1)),
  )
  | inr (name, e) ↦
      (λ h. absurd (ground arith), λ h. absurd (ground (arith, (first_missing_iff ps).1 h.0)))
]

-- A rejection names the first reference that does not resolve; or a policy of the stage and the
-- index of a deny rule of it that matches; or it is the default of a configured direction in which
-- no rule matches.
pub assert_policies-Explains :
    (net : IpNetApi) (conn : Connection) (ps : Policies) (rej : Rejection)
    → assert_policies net ps conn ≡ err rej
    → Explains net conn ps rej
unfolding assert_policies
assert_policies-Explains net conn ps rej h = elim (Option-cases (first_missing ps)) [
  | inl e ↦
      LoopExplains-Explains net conn ps rej
        (assert_from-LoopExplains net conn false ps rej (ground arith))
  | inr (name, e) ↦
      let same : explicitly_denied name policy_unavailable ≡ rej = ground arith in
      subst (Explains net conn ps) same (first_missing-Explains net conn ps name e)
]
