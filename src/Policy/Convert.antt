-- ===== src/Policy/Convert.antt =====
-- The conversions of src/rbac.rs from the xDS messages of proto/api/security/v1, and `validate`.
use ztunnel.Common.{
  ℕ, suc, ◌≤◌, ◌≡◌, refl, true, not, ◌&&◌, List, [], ◌∷◌, Option, none, some, arith, leb, ltb, All,
  subst, ◌↔◌, if◌then◌else◌,
}
use ztunnel.Common.Outcome.{Result, ok, err, ◌>>=◌, ◌>>◌, ensure, traverse, transpose, >>=-eq-ok}
use ztunnel.Net.{IpNet, IpNetApi, byte_to_ip}
use ztunnel.Policy.{ports_match}
use ztunnel.Policy.Types.{
  Direction, inbound, outbound, Action, Protocol, protocol_beq, PortRange, PortMatch, Rule, RuleSet,
  TrafficPolicy, IsValidRange, IsValidRules, IsValidBody, IsValidPolicy,
}

-- The errors, with the contexts that are put round them. Wire enums and lengths are the numbers
-- read from the message.
pub data PolicyError : Type 0 where
  unknown_enum_value out_of_range byte_address_parse : ℕ → PolicyError
  prefix_len requires_match icmp_port zero_port reversed_range invalid_name : PolicyError
  in_rule : ℕ → PolicyError → PolicyError
  in_direction_rule : Direction → ℕ → PolicyError → PolicyError
  in_direction : Direction → PolicyError → PolicyError

pub record XdsAddress : Type 0 where
  pub address : List ℕ  -- bytes
  pub length : ℕ  -- u32

pub record XdsPortMatch : Type 0 where
  pub protocol : ℕ
  pub port : Option ℕ  -- u32
  pub end_port : Option ℕ  -- u32

pub record XdsMatch : Type 0 where
  pub source_ips : List XdsAddress
  pub destination_ips : List XdsAddress
  pub ports : List XdsPortMatch

pub record XdsRule : Type 0 where
  pub action : ℕ
  pub matches : Option XdsMatch

pub record XdsRuleSet : Type 0 where
  pub rules : List XdsRule

pub record XdsTrafficPolicy : Type 0 where
  pub ingress : Option XdsRuleSet
  pub egress : Option XdsRuleSet

-- `.with_context(..)`
abbrev pub map_err {ℓ} :
    {A : Type ℓ} → (PolicyError → PolicyError) → Result PolicyError A → Result PolicyError A
map_err f (ok a) = ok a
map_err f (err e) = err (f e)

abbrev pub action_of : ℕ → Result PolicyError Action
action_of n =
    if ltb n 1
    then ok Action.allow
    else if ltb n 2
    then ok Action.deny
    else err (unknown_enum_value n)

abbrev pub protocol_of : ℕ → Result PolicyError Protocol
protocol_of n =
    if ltb n 1
    then ok Protocol.all
    else if ltb n 2
    then ok Protocol.tcp
    else if ltb n 3
    then ok Protocol.udp
    else if ltb n 4
    then ok Protocol.icmp
    else if ltb n 5
    then ok Protocol.sctp
    else err (unknown_enum_value n)

-- `u16::try_from` and `u8::try_from`
abbrev pub try_below : ℕ → ℕ → Result PolicyError ℕ
try_below bound n = if ltb n bound then ok n else err (out_of_range n)

abbrev pub port_range : Option ℕ → Option ℕ → Option PortRange
port_range none none = none
port_range (some port) none = some (record { start = port; end = port })
port_range none (some end) = some (record { start = 1; end = end })
port_range (some start) (some end) = some (record { start = start; end = end })

-- `TryFrom<proto::PortMatch> for PortMatch`
unfoldable pub port_match_of : XdsPortMatch → Result PolicyError PortMatch
port_match_of value = do
  protocol ← protocol_of value.protocol
  port ← transpose (try_below 65536) value.port
  end_port ← transpose (try_below 65536) value.end_port
  ok (record { protocol = protocol; range = port_range port end_port })

-- `PortMatch::validate`
abbrev pub validate_range : Protocol → Option PortRange → Result PolicyError (Unit {0})
validate_range p none = ok tt
validate_range p (some r) = do
  ensure (not (protocol_beq p Protocol.icmp)) icmp_port
  ensure (ltb 0 r.start && ltb 0 r.end) zero_port
  ensure (leb r.start r.end) reversed_range

-- The inner loops of `TrafficPolicy::validate`.
pub validate_ports : List PortMatch → Result PolicyError (Unit {0})
validate_ports [] = ok tt
validate_ports (m ∷ ms) = do validate_range m.protocol m.range; validate_ports ms

pub validate_rules : Direction → ℕ → List Rule → Result PolicyError (Unit {0})
validate_rules d index [] = ok tt
validate_rules d index (r ∷ rs) = do
  map_err (in_direction_rule d index) (validate_ports r.ports)
  validate_rules d (suc index) rs

abbrev pub validate_body : Direction → Option RuleSet → Result PolicyError (Unit {0})
validate_body d none = ok tt
validate_body d (some rs) = validate_rules d 0 rs.rules

unfoldable pub validate : TrafficPolicy → Result PolicyError (Unit {0})
unfolding validate_rules validate_ports
validate p = do validate_body inbound p.ingress; validate_body outbound p.egress

module _ (net : IpNetApi) where
  abbrev pub new_net : Option IpNet → Result PolicyError IpNet
  new_net none = err prefix_len
  new_net (some n) = ok n

  abbrev pub bytes_error {ℓ} : {A : Type ℓ} → Result ℕ A → Result PolicyError A
  bytes_error (ok a) = ok a
  bytes_error (err n) = err (byte_address_parse n)

  pub parse_address : XdsAddress → Result PolicyError IpNet
  parse_address a = do
    ip ← bytes_error (byte_to_ip a.address)
    len ← try_below 256 a.length
    n ← new_net (net.new ip len)
    ok (net.trunc n)

  abbrev pub require_match : Option XdsMatch → Result PolicyError XdsMatch
  require_match none = err requires_match
  require_match (some m) = ok m

  -- `TryFrom<proto::Rule> for Rule`
  pub rule_of : XdsRule → Result PolicyError Rule
  unfolding parse_address port_match_of byte_to_ip
  rule_of value = do
    action ← action_of value.action
    matches ← require_match value.matches
    source_ips ← traverse parse_address matches.source_ips
    destination_ips ← traverse parse_address matches.destination_ips
    ports ← traverse port_match_of matches.ports
    ok (record {
      action = action;
      source_ips = source_ips;
      destination_ips = destination_ips;
      ports = ports;
    })

  -- `.enumerate().map(..).collect()` of `TryFrom<proto::RuleSet> for RuleSet`
  pub rules_of_xds : ℕ → List XdsRule → Result PolicyError (List Rule)
  rules_of_xds index [] = ok []
  rules_of_xds index (value ∷ values) = do
    r ← map_err (in_rule index) (rule_of value)
    rs ← rules_of_xds (suc index) values
    ok (r ∷ rs)

  pub ruleset_of : XdsRuleSet → Result PolicyError RuleSet
  unfolding rules_of_xds
  ruleset_of value = do rules ← rules_of_xds 0 value.rules; ok (record { rules = rules })

  -- `TryFrom<XdsTrafficPolicy> for TrafficPolicy`
  unfoldable pub policy_of : XdsTrafficPolicy → Result PolicyError TrafficPolicy
  unfolding ruleset_of rule_of
  policy_of resource = do
    ingress ← map_err (in_direction inbound) (transpose ruleset_of resource.ingress)
    egress ← map_err (in_direction outbound) (transpose ruleset_of resource.egress)
    let policy : TrafficPolicy = record { ingress = ingress; egress = egress }
    validate policy
    ok policy

validate_range-IsValidRange :
    (p : Protocol) (r : Option PortRange) → validate_range p r ≡ ok tt → IsValidRange p r
validate_range-IsValidRange p none h = tt
validate_range-IsValidRange p (some r) h = ground arith

validate_ports-All :
    (ms : List PortMatch)
    → validate_ports ms ≡ ok tt
    → All (λ m. IsValidRange m.protocol m.range) ms
unfolding validate_ports
validate_ports-All [] h = tt
validate_ports-All (m ∷ ms) h =
    let (u, first, later) = >>=-eq-ok (validate_range m.protocol m.range) _ h in
    (validate_range-IsValidRange m.protocol m.range first, validate_ports-All ms later)

validate_rules-IsValidRules :
    (d : Direction) (index : ℕ) (rs : List Rule)
    → validate_rules d index rs ≡ ok tt
    → IsValidRules rs
unfolding validate_rules
validate_rules-IsValidRules d index [] h = tt
validate_rules-IsValidRules d index (r ∷ rs) h =
    let (u, first, later) =
      >>=-eq-ok (map_err (in_direction_rule d index) (validate_ports r.ports)) _ h in
    (validate_ports-All r.ports (ground arith), validate_rules-IsValidRules d (suc index) rs later)

validate_body-IsValidBody :
    (d : Direction) (b : Option RuleSet) → validate_body d b ≡ ok tt → IsValidBody b
validate_body-IsValidBody d none h = tt
validate_body-IsValidBody d (some rs) h = validate_rules-IsValidRules d 0 rs.rules h

pub validate-IsValidPolicy : (p : TrafficPolicy) → validate p ≡ ok tt → IsValidPolicy p
unfolding validate
validate-IsValidPolicy p h =
    let (u, first, later) = >>=-eq-ok (validate_body inbound p.ingress) _ h in
    (
      validate_body-IsValidBody inbound p.ingress first,
      validate_body-IsValidBody outbound p.egress later,
    )

-- A policy that is accepted from xDS is valid: no ICMP entry has a port range, and every range is in
-- order and does not hold port 0.
pub policy_of-IsValidPolicy :
    (net : IpNetApi) (resource : XdsTrafficPolicy) (p : TrafficPolicy)
    → policy_of net resource ≡ ok p
    → IsValidPolicy p
unfolding policy_of
policy_of-IsValidPolicy net resource p h =
    let (ingress, _, h') =
      >>=-eq-ok (map_err (in_direction inbound) (transpose (ruleset_of net) resource.ingress)) _
        h in
    let (egress, _, h'') =
      >>=-eq-ok (map_err (in_direction outbound) (transpose (ruleset_of net) resource.egress)) _
        h' in
    let built : TrafficPolicy = record { ingress = ingress; egress = egress } in
    let (u, valid, same) = >>=-eq-ok (validate built) _ h'' in
    let e : built ≡ p = cc same in subst IsValidPolicy e (validate-IsValidPolicy built valid)

-- The port of a packet lies in the bounds of the message: only `port` is that port alone, only
-- `end_port` starts at 1, and neither is every port.
abbrev pub AdmitsPort : Option ℕ → Option ℕ → ℕ → Type 0
AdmitsPort none none q = Unit
AdmitsPort (some port) none q = q ≡ port
AdmitsPort none (some end) q = (1 ≤ q) × (q ≤ end)
AdmitsPort (some start) (some end) q = (start ≤ q) × (q ≤ end)

-- An entry that is accepted matches a TCP port exactly when its protocol is ALL or TCP and the port
-- lies in the bounds that the message gives.
pub port_match_of-ports_match :
    (value : XdsPortMatch) (m : PortMatch) (q : ℕ)
    → port_match_of value ≡ ok m
    → (ports_match (m ∷ []) q ≡ true)
      ↔ ((value.protocol ≤ 1) × AdmitsPort value.port value.end_port q)
unfolding port_match_of
port_match_of-ports_match value m q h = ports value.port value.end_port refl refl
  where
    ports :
        (a b : Option ℕ)
        → value.port ≡ a
        → value.end_port ≡ b
        → (ports_match (m ∷ []) q ≡ true)
          ↔ ((value.protocol ≤ 1) × AdmitsPort value.port value.end_port q)
    ports none none ea eb = ground arith
    ports (some a) none ea eb = ground arith
    ports none (some b) ea eb = ground arith
    ports (some a) (some b) ea eb = ground arith
