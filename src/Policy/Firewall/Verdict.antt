-- ===== src/Policy/Firewall/Verdict.antt =====
-- The firewall decides a packet that is not TCP as the stage of policies does.
use mathlib.Core.List.{append_assoc, append-nil}
use ztunnel.Common.{
  ℕ, suc, ◌+◌, ◌≡◌, refl, inl, inr, Bool, true, false, ◌&&◌, ◌||◌, not, All, List, [], ◌∷◌, ◌++◌,
  Option, none, some, String, arith, subst, All-append, is_empty, any, leb, length, retain, ◌≤◌,
  filter_map, Bool-cases, Option-cases, if◌then◌else◌,
}
use ztunnel.Net.{IpNetApi}
use ztunnel.Firewall.{
  RuleAction, Direction, inbound, outbound, Transport, udp_to, sctp_to, icmp_packet, other_packet,
  Packet, FirewallRule, PortGroup, group_admits, groups_admit, same_direction, verdict,
  first_verdict, unavailable_name, default_deny_name, RuleName,
}
use ztunnel.Policy.{Policies, first_missing, ips_match}
use ztunnel.Policy.Stage.{rules_of}
use ztunnel.Policy.Firewall.Order.{
  rule_count, direction_rules-IsAscending, sort_by_priority-IsAscending,
}
use ztunnel.Policy.Types.{
  Protocol, PortRange, PortMatch, Rule, RuleSet, TrafficPolicy, IsValidRange, IsValidRules,
  IsValidBody, IsValidPolicy,
}
use ztunnel.Policy.Firewall.{
  port_group, rule_action, is_tcp_only, body_rules, body, policy_rules, is_configured, default_rule,
  direction_rules, firewall_rulesets,
}

-- A port match covers a packet: the protocol fits, and a range asks for a port that lies in it.
abbrev pub has_port_in : Option PortRange → Transport → Bool
has_port_in none t = true
has_port_in (some r) (udp_to p) = leb r.start p && leb p r.end
has_port_in (some r) (sctp_to p) = leb r.start p && leb p r.end
has_port_in (some r) icmp_packet = false
has_port_in (some r) other_packet = false

abbrev pub fits : Protocol → Transport → Bool
fits Protocol.all t = true
fits Protocol.udp (udp_to p) = true
fits Protocol.sctp (sctp_to p) = true
fits Protocol.icmp icmp_packet = true
fits _ _ = false

abbrev pub covers : PortMatch → Transport → Bool
covers m t = fits m.protocol t && has_port_in m.range t

abbrev pub ports_cover : List PortMatch → Transport → Bool
ports_cover ports t = is_empty ports || any (λ m. covers m t) ports

abbrev group_covers : Option PortGroup → Transport → Bool
group_covers none t = false
group_covers (some g) t = group_admits g.protocol g.ports t

port_group-covers :
    (p : Protocol) (o : Option PortRange) (t : Transport)
    → IsValidRange p o
    → group_covers (port_group (record { protocol = p; range = o })) t
      ≡ covers (record { protocol = p; range = o }) t
port_group-covers Protocol.all none t v = ground arith
port_group-covers Protocol.all (some r) t v = ground arith
port_group-covers Protocol.tcp o t v = ground arith
port_group-covers Protocol.udp none t v = ground arith
port_group-covers Protocol.udp (some r) t v = ground arith
port_group-covers Protocol.icmp none t v = ground arith
port_group-covers Protocol.icmp (some r) t v = absurd (v.0 refl)
port_group-covers Protocol.sctp none t v = ground arith
port_group-covers Protocol.sctp (some r) t v = ground arith

abbrev any_group : List PortGroup → Transport → Bool
any_group gs t = any (λ g. group_admits g.protocol g.ports t) gs

any_group-covers :
    (ports : List PortMatch) (t : Transport)
    → All (λ m. IsValidRange m.protocol m.range) ports
    → any_group (filter_map port_group ports) t ≡ any (λ m. covers m t) ports
any_group-covers [] t v = refl
any_group-covers (m ∷ ms) t v = elim (Option-cases (port_group m)) [
  | inl e ↦ ground (arith, port_group-covers m.protocol m.range t v.0, any_group-covers ms t v.1)
  | inr (g, e) ↦
      ground (arith, port_group-covers m.protocol m.range t v.0, any_group-covers ms t v.1)
]

-- A rule for TCP alone covers no packet; any other fires as its firewall rule does.
groups_admit-ports_cover :
    (r : Rule) (t : Transport)
    → All (λ m. IsValidRange m.protocol m.range) r.ports
    → ports_cover r.ports t ≡ not (is_tcp_only r) && groups_admit (filter_map port_group r.ports) t
groups_admit-ports_cover r t v = ground (arith, any_group-covers r.ports t v)

abbrev pub IsValidEntry : Option TrafficPolicy → Type 0
IsValidEntry none = Unit
IsValidEntry (some p) = IsValidPolicy p

abbrev pub IsValidStage : Policies → Type 0
IsValidStage = All (λ e. IsValidEntry e.1)

body-IsValidRules :
    (d : Direction) (p : TrafficPolicy) (b : RuleSet)
    → body d p ≡ some b
    → IsValidPolicy p
    → IsValidRules b.rules
body-IsValidRules inbound p b e v = subst IsValidBody e v.0
body-IsValidRules outbound p b e v = subst IsValidBody e v.1

abbrev or_else : Option RuleAction → Option RuleAction → Option RuleAction
or_else none b = b
or_else (some a) b = some a

or_else_assoc : (a b c : Option RuleAction) → or_else a (or_else b c) ≡ or_else (or_else a b) c
or_else_assoc none b c = refl
or_else_assoc (some a) b c = refl

or_else-none : (a : Option RuleAction) → or_else a none ≡ a
or_else-none none = refl
or_else-none (some a) = refl

or_else-some :
    (a : Option RuleAction) (b : RuleAction) (c : Option RuleAction)
    → or_else a (some b) ≡ or_else (or_else a (some b)) c
or_else-some none b c = refl
or_else-some (some a) b c = refl

module _ (net : IpNetApi) (packet : Packet) where
  abbrev pub rule_covers : Rule → Bool
  rule_covers r =
      ips_match net r.source_ips packet.src
      && (ips_match net r.destination_ips packet.dst && ports_cover r.ports packet.transport)

  -- The action of the first rule that covers the packet.
  abbrev pub first_cover : List Rule → Option RuleAction
  first_cover [] = none
  first_cover (r ∷ rs) = elim (rule_covers r) [
    | true ↦ some (rule_action r.action)
    | false ↦ first_cover rs
  ]

  body_rules-verdict :
      (d : Direction) (name : String) (offset index : ℕ) (rs : List Rule) (rest : List FirewallRule)
      → IsValidRules rs
      → first_verdict net packet (body_rules d name offset index rs ++ rest)
        ≡ or_else (first_cover rs) (first_verdict net packet rest)
  unfolding body_rules
  body_rules-verdict d name offset index [] rest v = refl
  body_rules-verdict d name offset index (r ∷ rs) rest v =
      let ih = body_rules-verdict d name offset (suc index) rs rest v.1 in
      let here = groups_admit-ports_cover r packet.transport v.0 in
      elim (Bool-cases (is_tcp_only r)) [
        | inl tcp ↦ rw tcp (ground (arith, ih, here))
        | inr other ↦ rw other (ground (arith, ih, here))
      ]

  -- The rules of the stage for a direction, in order; an unresolved reference has none.
  abbrev pub cover_rules : Direction → Policies → List Rule
  cover_rules d [] = []
  cover_rules d ((name, none) ∷ ps) = cover_rules d ps
  cover_rules d ((name, some p) ∷ ps) = rules_of (body d p) ++ cover_rules d ps

  first_cover-append :
      (xs ys : List Rule) → first_cover (xs ++ ys) ≡ or_else (first_cover xs) (first_cover ys)
  first_cover-append [] ys = refl
  first_cover-append (x ∷ xs) ys = ground (arith, first_cover-append xs ys)

  policy_rules-verdict :
      (d : Direction) (offset : ℕ) (ps : Policies) (rest : List FirewallRule)
      → IsValidStage ps
      → first_verdict net packet (policy_rules d offset ps ++ rest)
        ≡ or_else (first_cover (cover_rules d ps)) (first_verdict net packet rest)
  unfolding policy_rules
  policy_rules-verdict d offset [] rest v = refl
  policy_rules-verdict d offset ((name, none) ∷ ps) rest v =
      policy_rules-verdict d offset ps rest v.1
  policy_rules-verdict d offset ((name, some p) ∷ ps) rest v = elim (Option-cases (body d p)) [
    | inl e ↦ rw (e, policy_rules) (policy_rules-verdict d offset ps rest v.1)
    | inr (b, e) ↦
        let later = policy_rules-verdict d (offset + length b.rules) ps rest v.1 in
        let valid : IsValidRules b.rules = body-IsValidRules d p b e v.0 in
        let here =
          body_rules-verdict d name offset 0 b.rules
            (policy_rules d (offset + length b.rules) ps ++ rest) valid in
        rw (e, policy_rules, append_assoc, here, later, first_cover-append)
          (or_else_assoc (first_cover b.rules) (first_cover (cover_rules d ps))
            (first_verdict net packet rest))
  ]

  -- What the stage decides: a missing reference denies, and so does a configured direction in which
  -- no rule covers the packet.
  abbrev pub stage_verdict : Direction → Policies → Option String → Option RuleAction
  stage_verdict d ps (some name) = some RuleAction.deny
  stage_verdict d ps none =
      or_else (first_cover (cover_rules d ps))
        (if is_configured d ps then some RuleAction.deny else none)

  default_rule-verdict :
      (d : Direction) (name : RuleName) (rest : List FirewallRule)
      → first_verdict net packet (default_rule d name ∷ rest) ≡ some RuleAction.deny
  default_rule-verdict inbound name rest = ground arith
  default_rule-verdict outbound name rest = ground arith

  cover_rules_of_unconfigured :
      (d : Direction) (ps : Policies) → is_configured d ps ≡ false → cover_rules d ps ≡ []
  unfolding is_configured
  cover_rules_of_unconfigured d [] h = refl
  cover_rules_of_unconfigured d ((name, none) ∷ ps) h = cover_rules_of_unconfigured d ps h
  cover_rules_of_unconfigured d ((name, some p) ∷ ps) h =
      ground (arith, cover_rules_of_unconfigured d ps)

  direction_rules-verdict :
      (d : Direction) (missing : Option String) (ps : Policies) (rest : List FirewallRule)
      → IsValidStage ps
      → first_verdict net packet (direction_rules missing ps d ++ rest)
        ≡ or_else (stage_verdict d ps missing) (first_verdict net packet rest)
  unfolding direction_rules
  direction_rules-verdict d (some name) ps rest v =
      default_rule-verdict d (unavailable_name name) rest
  direction_rules-verdict d none ps rest v = elim (Bool-cases (is_configured d ps)) [
    | inl c ↦
        rw
          (
            c,
            append_assoc,
            policy_rules-verdict d 0 ps (default_rule d default_deny_name ∷ rest) v,
            default_rule-verdict d default_deny_name rest,
          )
          (or_else-some (first_cover (cover_rules d ps)) RuleAction.deny
            (first_verdict net packet rest))
    | inr c ↦ rw (c, cover_rules_of_unconfigured d ps c)
  ]

-- The rules that are made for one direction, seen from another or from itself.
module _ (d other : Direction) (same : Bool) (e : same_direction d other ≡ same) where
  abbrev IsToward : List FirewallRule → Type 0
  IsToward = All (λ r. same_direction r.direction other ≡ same)

  body_rules-IsToward :
      (name : String) (offset index : ℕ) (rs : List Rule)
      → IsToward (body_rules d name offset index rs)
  unfolding body_rules
  body_rules-IsToward name offset index [] = tt
  body_rules-IsToward name offset index (r ∷ rs) =
      ground (arith, e, body_rules-IsToward name offset (suc index) rs)

  policy_rules-IsToward : (offset : ℕ) (ps : Policies) → IsToward (policy_rules d offset ps)
  unfolding policy_rules
  policy_rules-IsToward offset [] = tt
  policy_rules-IsToward offset ((name, none) ∷ ps) = policy_rules-IsToward offset ps
  policy_rules-IsToward offset ((name, some p) ∷ ps) = elim (Option-cases (body d p)) [
    | inl n ↦ rw (n, policy_rules) (policy_rules-IsToward offset ps)
    | inr (b, n) ↦
        rw (n, policy_rules)
          (All-append (λ r. same_direction r.direction other ≡ same)
            (body_rules d name offset 0 b.rules) (policy_rules d (offset + length b.rules) ps)
            (body_rules-IsToward name offset 0 b.rules)
            (policy_rules-IsToward (offset + length b.rules) ps))
  ]

  direction_rules-IsToward :
      (missing : Option String) (ps : Policies) → IsToward (direction_rules missing ps d)
  unfolding direction_rules
  direction_rules-IsToward (some name) ps = (e, tt)
  direction_rules-IsToward none ps = elim (Bool-cases (is_configured d ps)) [
    | inl c ↦ rw c (
        All-append (λ r. same_direction r.direction other ≡ same) (policy_rules d 0 ps)
          (default_rule d default_deny_name ∷ []) (policy_rules-IsToward 0 ps) (e, tt))
    | inr c ↦ rw c tt
  ]

retain-none :
    (p : FirewallRule → Bool) (rs : List FirewallRule)
    → All (λ r. p r ≡ false) rs
    → retain p rs ≡ []
retain-none p [] h = refl
retain-none p (r ∷ rs) h = ground (arith, h.0, retain-none p rs h.1)

retain-append :
    (p : FirewallRule → Bool) (xs ys : List FirewallRule)
    → retain p (xs ++ ys) ≡ retain p xs ++ retain p ys
retain-append p [] ys = refl
retain-append p (x ∷ xs) ys = ground (arith, retain-append p xs ys)

retain-All :
    (p : FirewallRule → Bool) (rs : List FirewallRule) → All (λ r. p r ≡ true) rs → retain p rs ≡ rs
retain-All p [] h = refl
retain-All p (r ∷ rs) h = ground (arith, h.0, retain-All p rs h.1)

retain-direction_rules :
    (d : Direction) (missing : Option String) (ps : Policies)
    → retain
        (λ r. same_direction r.direction d)
        (direction_rules missing ps inbound ++ direction_rules missing ps outbound)
      ≡ direction_rules missing ps d
retain-direction_rules inbound missing ps =
    rw
      (
        retain-append (λ r. same_direction r.direction inbound) (direction_rules missing ps inbound)
            (direction_rules missing ps outbound),
        retain-All (λ r. same_direction r.direction inbound) (direction_rules missing ps inbound)
            (direction_rules-IsToward inbound inbound true refl missing ps),
        retain-none (λ r. same_direction r.direction inbound) (direction_rules missing ps outbound)
            (direction_rules-IsToward outbound inbound false refl missing ps),
      )
      (append-nil (direction_rules missing ps inbound))
retain-direction_rules outbound missing ps =
    rw
      (
        retain-append (λ r. same_direction r.direction outbound)
            (direction_rules missing ps inbound) (direction_rules missing ps outbound),
        retain-All (λ r. same_direction r.direction outbound) (direction_rules missing ps outbound)
            (direction_rules-IsToward outbound outbound true refl missing ps),
        retain-none (λ r. same_direction r.direction outbound) (direction_rules missing ps inbound)
            (direction_rules-IsToward inbound outbound false refl missing ps),
      )
      refl

-- For a stage of valid policies with at most 2^31 - 1 rules in a direction, and a packet that is not
-- TCP, the first firewall rule that fires, of that direction and by rising priority, gives the action
-- of the first policy rule that covers the packet; behind those a configured direction denies, an
-- unconfigured one has no verdict, and a reference that does not resolve denies everything.
pub firewall_rulesets-verdict :
    (net : IpNetApi) (packet : Packet) (d : Direction) (ps : Policies)
    → IsValidStage ps
    → rule_count d ps ≤ 2147483647
    → verdict net packet d (firewall_rulesets ps).rules
      ≡ stage_verdict net packet d ps (first_missing ps)
unfolding firewall_rulesets
firewall_rulesets-verdict net packet d ps v few =
    let missing = first_missing ps in
    rw
      (
        retain-direction_rules d missing ps,
        sort_by_priority-IsAscending (direction_rules missing ps d)
            (direction_rules-IsAscending missing ps d few),
        ← append-nil (direction_rules missing ps d),
        direction_rules-verdict net packet d missing ps [] v,
      )
      (or_else-none (stage_verdict net packet d ps missing))
