-- ===== src/Policy/Firewall/Order.antt =====
-- The priorities of the rules of a direction: a sort by priority keeps the order of the policies.
use ztunnel.Common.{
  ℕ, suc, ◌+◌, ◌≤◌, ◌<◌, ◌≡◌, refl, inl, inr, List, [], ◌∷◌, ◌++◌, Option, none, some, String,
  arith, length, All, All-append, Bool-cases, Option-cases,
}
use ztunnel.Common.Int.{◌<ℤ◌, as_i32, i32_max, as_i32_mono, as_i32-lt_max}
use ztunnel.Firewall.{
  Direction, FirewallRule, default_deny_name, insert_by_priority, sort_by_priority,
}
use ztunnel.Policy.{Policies}
use ztunnel.Policy.Types.{Rule}
use ztunnel.Policy.Firewall.{
  body, body_rules, policy_rules, default_rule, direction_rules, is_configured, is_tcp_only,
  firewall_rule,
}

-- How many rules the policies have for a direction, fired or not.
abbrev pub rule_count : Direction → Policies → ℕ
rule_count d [] = 0
rule_count d ((name, none) ∷ ps) = rule_count d ps
rule_count d ((name, some p) ∷ ps) = elim (body d p) [
  | none ↦ rule_count d ps
  | some b ↦ length b.rules + rule_count d ps
]

-- Each rule comes strictly before all that follow it.
abbrev pub IsAscending : List FirewallRule → Type 0
IsAscending [] = Unit
IsAscending (r ∷ rs) = All (λ s. r.priority <ℤ s.priority) rs × IsAscending rs

-- The priority is a position from `lo` on and before `hi`.
record Between (lo hi : ℕ) (r : FirewallRule) : Type 0 where
  at : ℕ
  low : lo ≤ at
  high : at < hi
  is : r.priority ≡ as_i32 at

Between-mono :
    (lo lo' hi hi' : ℕ) (r : FirewallRule)
    → lo' ≤ lo
    → hi ≤ hi'
    → Between lo hi r
    → Between lo' hi' r
Between-mono lo lo' hi hi' r h k b = record {
  at = b.at;
  low = omega arith;
  high = omega arith;
  is = b.is;
}

All-Between-mono :
    (lo lo' hi hi' : ℕ) (rs : List FirewallRule)
    → lo' ≤ lo
    → hi ≤ hi'
    → All (Between lo hi) rs
    → All (Between lo' hi') rs
All-Between-mono lo lo' hi hi' [] h k b = tt
All-Between-mono lo lo' hi hi' (r ∷ rs) h k b =
    (Between-mono lo lo' hi hi' r h k b.0, All-Between-mono lo lo' hi hi' rs h k b.1)

Between-lt :
    (m hi : ℕ) (r s : FirewallRule)
    → r.priority ≡ as_i32 m
    → hi ≤ 2147483648
    → Between (suc m) hi s
    → r.priority <ℤ s.priority
Between-lt m hi r s e k b = rw (e, b.is) (as_i32_mono m b.at b.low (let c = b.high in omega arith))

All-Between-lt :
    (m hi : ℕ) (r : FirewallRule) (rs : List FirewallRule)
    → r.priority ≡ as_i32 m
    → hi ≤ 2147483648
    → All (Between (suc m) hi) rs
    → All (λ s. r.priority <ℤ s.priority) rs
All-Between-lt m hi r [] e k b = tt
All-Between-lt m hi r (s ∷ rs) e k b =
    (Between-lt m hi r s e k b.0, All-Between-lt m hi r rs e k b.1)

-- Two ascending runs, the second from where the first ends.
IsAscending-append :
    (lo mid hi : ℕ) (xs ys : List FirewallRule)
    → mid ≤ hi
    → hi ≤ 2147483648
    → All (Between lo mid) xs
    → All (Between mid hi) ys
    → IsAscending xs
    → IsAscending ys
    → IsAscending (xs ++ ys)
IsAscending-append lo mid hi [] ys h k bx by ax ay = ay
IsAscending-append lo mid hi (x ∷ xs) ys h k bx by ax ay = (
  All-append _ xs ys ax.0 (
      let c = bx.0.high in
      All-Between-lt bx.0.at hi x ys bx.0.is k
        (All-Between-mono mid (suc bx.0.at) hi hi ys (omega arith) (omega arith) by)),
  IsAscending-append lo mid hi xs ys h k bx.1 by ax.1 ay,
)

body_rules-Between :
    (d : Direction) (name : String) (offset index : ℕ) (rs : List Rule)
    → All
        (Between (offset + index) (offset + index + length rs))
        (body_rules d name offset index rs)
unfolding body_rules
body_rules-Between d name offset index [] = tt
body_rules-Between d name offset index (r ∷ rs) =
    let rest =
      All-Between-mono (offset + suc index) (offset + index) (offset + suc index + length rs)
        (offset + index + suc (length rs)) (body_rules d name offset (suc index) rs) (omega arith)
        (omega arith) (body_rules-Between d name offset (suc index) rs) in
    elim (Bool-cases (is_tcp_only r)) [
      | inl tcp ↦ rw tcp rest
      | inr other ↦
          rw other
            (record { at = offset + index; low = omega arith; high = omega arith; is = refl }, rest)
    ]

body_rules-IsAscending :
    (d : Direction) (name : String) (offset index : ℕ) (rs : List Rule)
    → offset + index + length rs ≤ 2147483648
    → IsAscending (body_rules d name offset index rs)
unfolding body_rules
body_rules-IsAscending d name offset index [] h = tt
body_rules-IsAscending d name offset index (r ∷ rs) h =
    let rest = body_rules-IsAscending d name offset (suc index) rs (omega arith) in
    elim (Bool-cases (is_tcp_only r)) [
      | inl tcp ↦ rw tcp rest
      | inr other ↦ rw other (
        All-Between-lt (offset + index) (offset + suc index + length rs)
            (firewall_rule d name offset index r) (body_rules d name offset (suc index) rs) refl
            (omega arith)
            (All-Between-mono (offset + suc index) (suc (offset + index)) _ _ _ (omega arith)
              (omega arith) (body_rules-Between d name offset (suc index) rs)),
        rest,
      )
    ]

policy_rules-Between :
    (d : Direction) (offset : ℕ) (ps : Policies)
    → All (Between offset (offset + rule_count d ps)) (policy_rules d offset ps)
unfolding policy_rules
policy_rules-Between d offset [] = tt
policy_rules-Between d offset ((name, none) ∷ ps) = policy_rules-Between d offset ps
policy_rules-Between d offset ((name, some p) ∷ ps) = elim (Option-cases (body d p)) [
  | inl e ↦ rw (e, policy_rules, rule_count) (policy_rules-Between d offset ps)
  | inr (b, e) ↦
      rw (e, policy_rules, rule_count)
        (All-append _ (body_rules d name offset 0 b.rules)
          (policy_rules d (offset + length b.rules) ps)
          (All-Between-mono (offset + 0) offset (offset + 0 + length b.rules)
            (offset + (length b.rules + rule_count d ps)) _ (omega arith) (omega arith)
            (body_rules-Between d name offset 0 b.rules))
          (All-Between-mono (offset + length b.rules) offset
            (offset + length b.rules + rule_count d ps)
            (offset + (length b.rules + rule_count d ps)) _ (omega arith) (omega arith)
            (policy_rules-Between d (offset + length b.rules) ps)))
]

policy_rules-IsAscending :
    (d : Direction) (offset : ℕ) (ps : Policies)
    → offset + rule_count d ps ≤ 2147483648
    → IsAscending (policy_rules d offset ps)
unfolding policy_rules
policy_rules-IsAscending d offset [] h = tt
policy_rules-IsAscending d offset ((name, none) ∷ ps) h = policy_rules-IsAscending d offset ps h
policy_rules-IsAscending d offset ((name, some p) ∷ ps) h = elim (Option-cases (body d p)) [
  | inl e ↦ rw (e, policy_rules) (policy_rules-IsAscending d offset ps (ground arith))
  | inr (b, e) ↦
      let bound : offset + (length b.rules + rule_count d ps) ≤ 2147483648 = ground arith in
      rw (e, policy_rules)
        (IsAscending-append (offset + 0) (offset + length b.rules)
          (offset + length b.rules + rule_count d ps) (body_rules d name offset 0 b.rules)
          (policy_rules d (offset + length b.rules) ps) (omega arith) (omega arith)
          (All-Between-mono (offset + 0) (offset + 0) (offset + 0 + length b.rules)
            (offset + length b.rules) _ (omega arith) (omega arith)
            (body_rules-Between d name offset 0 b.rules))
          (policy_rules-Between d (offset + length b.rules) ps)
          (body_rules-IsAscending d name offset 0 b.rules (omega arith))
          (policy_rules-IsAscending d (offset + length b.rules) ps (omega arith)))
]

IsAscending-concat :
    (xs : List FirewallRule) (r : FirewallRule)
    → IsAscending xs
    → All (λ s. s.priority <ℤ r.priority) xs
    → IsAscending (xs ++ (r ∷ []))
IsAscending-concat [] r a h = (tt, tt)
IsAscending-concat (x ∷ xs) r a h =
    (All-append _ xs (r ∷ []) a.0 (h.0, tt), IsAscending-concat xs r a.1 h.1)

All-below_max :
    (hi : ℕ) (rs : List FirewallRule)
    → hi ≤ 2147483647
    → All (Between 0 hi) rs
    → All (λ s. s.priority <ℤ i32_max) rs
All-below_max hi [] h b = tt
All-below_max hi (r ∷ rs) h b =
    (rw b.0.is (as_i32-lt_max b.0.at (let c = b.0.high in omega arith)), All-below_max hi rs h b.1)

-- With at most 2^31 - 1 rules in a direction, the rules of that direction have strictly rising
-- priorities, the default deny's being the last: a sort by priority keeps the declared order.
pub direction_rules-IsAscending :
    (missing : Option String) (ps : Policies) (d : Direction)
    → rule_count d ps ≤ 2147483647
    → IsAscending (direction_rules missing ps d)
unfolding direction_rules
direction_rules-IsAscending (some name) ps d h = (tt, tt)
direction_rules-IsAscending none ps d h = elim (Bool-cases (is_configured d ps)) [
  | inl c ↦ rw c (
      IsAscending-concat (policy_rules d 0 ps) (default_rule d default_deny_name)
        (policy_rules-IsAscending d 0 ps (omega arith))
        (All-below_max (0 + rule_count d ps) (policy_rules d 0 ps) (omega arith)
          (policy_rules-Between d 0 ps)))
  | inr c ↦ rw c tt
]

insert_by_priority-IsAscending :
    (r : FirewallRule) (rs : List FirewallRule)
    → All (λ s. r.priority <ℤ s.priority) rs
    → insert_by_priority r rs ≡ r ∷ rs
insert_by_priority-IsAscending r [] h = refl
insert_by_priority-IsAscending r (x ∷ xs) h = ground (arith, h.0)

-- A sort leaves rules of rising priority as they are.
pub sort_by_priority-IsAscending :
    (rs : List FirewallRule) → IsAscending rs → sort_by_priority rs ≡ rs
unfolding sort_by_priority
sort_by_priority-IsAscending [] h = refl
sort_by_priority-IsAscending (r ∷ rs) h =
    rw (sort_by_priority-IsAscending rs h.1) (insert_by_priority-IsAscending r rs h.0)
