-- ===== src/Policy.antt =====
-- Traffic policies: src/rbac.rs. The types and the evaluation of a stage of policies; the children
-- hold the conversion from xDS, the store, the firewall rules and the laws.
pub mod Types
pub mod Stage
pub mod Convert
pub mod Store
pub mod Firewall
mod Tests
use ztunnel.Common.{
  ℕ, zero, suc, ◌+◌, ◌≡◌, Bool, true, false, ◌&&◌, ◌||◌, List, [], ◌∷◌, Option, none, some, String,
  is_empty, any, leb, if◌then◌else◌,
}
use ztunnel.Common.Outcome.{Result, ok, err}
use ztunnel.Net.{IpAddr, SocketAddr, IpNet, IpNetApi}
use Types.{
  Direction, inbound, outbound, Connection, Action, allow, deny, Protocol, PortRange, PortMatch,
  Rule, RuleSet, TrafficPolicy, Rejection, explicitly_denied, policy_unavailable, rule,
  default_deny,
}

-- `RangeInclusive::contains`
abbrev pub range_contains : PortRange → ℕ → Bool
range_contains r p = leb r.start p && leb p r.end

-- `matches!(port.protocol, All | Tcp)`
abbrev pub is_tcp : Protocol → Bool
is_tcp Protocol.all = true
is_tcp Protocol.tcp = true
is_tcp _ = false

-- `range.is_none_or(|range| range.contains(port))`
abbrev pub range_admits : Option PortRange → ℕ → Bool
range_admits none p = true
range_admits (some r) p = range_contains r p

abbrev pub rules_for : TrafficPolicy → Direction → Option RuleSet
rules_for p inbound = p.ingress
rules_for p outbound = p.egress

-- The names and bodies of a stage; a reference that does not resolve has no body.
abbrev pub Policies : Type 0
Policies = List (String × Option TrafficPolicy)

-- `policies.find(|(_, policy)| policy.is_none())`
pub first_missing : Policies → Option String
first_missing [] = none
first_missing ((name, none) ∷ ps) = some name
first_missing ((name, some p) ∷ ps) = first_missing ps

abbrev pub ports_match : List PortMatch → ℕ → Bool
ports_match ports p = is_empty ports || any (λ m. is_tcp m.protocol && range_admits m.range p) ports

module _ (net : IpNetApi) where
  abbrev pub ips_match : List IpNet → IpAddr → Bool
  ips_match nets ip = is_empty nets || any (λ n. net.contains n ip) nets

  pub matches_tcp : Rule → Connection → Bool
  matches_tcp r conn =
      ips_match r.source_ips conn.src.ip
      && (ips_match r.destination_ips conn.dst.ip && ports_match r.ports conn.dst.port)

  -- `.enumerate().find(..).map(..)`, from the index reached.
  pub find_rule : ℕ → List Rule → Connection → Option (ℕ × Action)
  find_rule i [] conn = none
  find_rule i (r ∷ rs) conn =
      if matches_tcp r conn then some (i, r.action) else find_rule (suc i) rs conn

  pub match_tcp : RuleSet → Connection → Option (ℕ × Action)
  match_tcp rs conn = find_rule 0 rs.rules conn

  -- The loop of `assert_policies`, with its flag `configured`.
  pub assert_from : Bool → Policies → Connection → Result Rejection (Unit {0})
  assert_from configured [] conn =
      if configured then err (explicitly_denied "" default_deny) else ok tt
  assert_from configured ((name, none) ∷ ps) conn = assert_from configured ps conn
  assert_from configured ((name, some p) ∷ ps) conn = elim (rules_for p conn.direction) [
    | none ↦ assert_from configured ps conn
    | some rs ↦ elim (match_tcp rs conn) [
      | some (i, allow) ↦ ok tt
      | some (i, deny) ↦ err (explicitly_denied name (rule i))
      | none ↦ assert_from true ps conn
    ]
  ]

  unfoldable pub assert_policies : Policies → Connection → Result Rejection (Unit {0})
  unfolding first_missing assert_from match_tcp find_rule matches_tcp
  assert_policies ps conn = elim (first_missing ps) [
    | some name ↦ err (explicitly_denied name policy_unavailable)
    | none ↦ assert_from false ps conn
  ]
