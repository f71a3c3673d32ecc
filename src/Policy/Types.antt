-- ===== src/Policy/Types.antt =====
-- The data of src/rbac.rs, and the rejection that its evaluation returns.
use ztunnel.Common.{
  ℕ, ◌≤◌, ◌<◌, ◌≡◌, ◌≢◌, ◌↔◌, Bool, true, false, ◌&&◌, List, Option, none, some, String, arith, All,
  Eq, nat_beq, option_eq, option_beq_iff, list_eq, list_beq_iff, option_beq, list_beq,
}
use ztunnel.Net.{SocketAddr, IpNet, net_eq, Identity}

pub data Direction : Type 0 where
  inbound outbound : Direction

pub record Connection : Type 0 where
  pub src : SocketAddr
  pub dst : SocketAddr
  pub src_identity : Option Identity
  pub dst_network : String
  pub direction : Direction

pub data Action : Type 0 where
  allow deny : Action

-- `proto::Protocol`, with its wire numbers 0 to 4 in this order.
pub data Protocol : Type 0 where
  all tcp udp icmp sctp : Protocol

-- `RangeInclusive<u16>`
pub record PortRange : Type 0 where
  pub start : ℕ
  pub end : ℕ

pub record PortMatch : Type 0 where
  pub protocol : Protocol
  pub range : Option PortRange

pub record Rule : Type 0 where
  pub action : Action
  pub source_ips : List IpNet
  pub destination_ips : List IpNet
  pub ports : List PortMatch

pub record RuleSet : Type 0 where
  pub rules : List Rule

pub record TrafficPolicy : Type 0 where
  pub ingress : Option RuleSet
  pub egress : Option RuleSet

-- What `validate` asks of a port match: only a protocol with ports has a range, and the range is in
-- order and does not start at 0.
abbrev pub IsValidRange : Protocol → Option PortRange → Type 0
IsValidRange p none = Unit
IsValidRange p (some r) = (p ≢ Protocol.icmp) × (0 < r.start) × (0 < r.end) × (r.start ≤ r.end)

abbrev pub IsValidRules : List Rule → Type 0
IsValidRules = All (λ r. All (λ m. IsValidRange m.protocol m.range) r.ports)

abbrev pub IsValidBody : Option RuleSet → Type 0
IsValidBody none = Unit
IsValidBody (some rs) = IsValidRules rs.rules

abbrev pub IsValidPolicy : TrafficPolicy → Type 0
IsValidPolicy p = IsValidBody p.ingress × IsValidBody p.egress

-- The text of a rejection: `rule i` is "rule-i".
pub data Reason : Type 0 where
  policy_unavailable default_deny binding_unavailable : Reason
  rule : ℕ → Reason

-- `proxy::AuthorizationRejectionError::ExplicitlyDenied`: the policy's name and the reason.
pub data Rejection : Type 0 where
  explicitly_denied : String → Reason → Rejection

-- The derived `PartialEq`s.
abbrev pub action_beq : Action → Action → Bool
action_beq allow allow = true
action_beq deny deny = true
action_beq _ _ = false

pub action_beq_iff : (a b : Action) → (action_beq a b ≡ true) ↔ (a ≡ b)
action_beq_iff allow allow = ground arith
action_beq_iff deny deny = ground arith
action_beq_iff allow deny = ground arith
action_beq_iff deny allow = ground arith

abbrev pub protocol_code : Protocol → ℕ
protocol_code Protocol.all = 0
protocol_code Protocol.tcp = 1
protocol_code Protocol.udp = 2
protocol_code Protocol.icmp = 3
protocol_code Protocol.sctp = 4

-- `==` on the field-less enum compares discriminants.
abbrev pub protocol_beq : Protocol → Protocol → Bool
protocol_beq a b = nat_beq (protocol_code a) (protocol_code b)

pub protocol_beq_iff : (a b : Protocol) → (protocol_beq a b ≡ true) ↔ (a ≡ b)
protocol_beq_iff a b = ground arith

abbrev pub range_beq : PortRange → PortRange → Bool
range_beq a b = nat_beq a.start b.start && nat_beq a.end b.end

pub range_beq_iff : (a b : PortRange) → (range_beq a b ≡ true) ↔ (a ≡ b)
range_beq_iff a b = ground arith

instance abbrev pub range_eq : Eq PortRange
range_eq = record { beq = range_beq; beq_iff = range_beq_iff }

abbrev pub port_beq : PortMatch → PortMatch → Bool
port_beq a b = protocol_beq a.protocol b.protocol && option_beq a.range b.range

pub port_beq_iff : (a b : PortMatch) → (port_beq a b ≡ true) ↔ (a ≡ b)
port_beq_iff a b =
    ground (arith, protocol_beq_iff a.protocol b.protocol, option_beq_iff a.range b.range)

instance abbrev pub port_eq : Eq PortMatch
port_eq = record { beq = port_beq; beq_iff = port_beq_iff }

abbrev pub rule_beq : Rule → Rule → Bool
rule_beq a b =
    action_beq a.action b.action
    && (list_beq a.source_ips b.source_ips
        && (list_beq a.destination_ips b.destination_ips && list_beq a.ports b.ports))

pub rule_beq_iff : (a b : Rule) → (rule_beq a b ≡ true) ↔ (a ≡ b)
rule_beq_iff a b = ground (
  arith,
  action_beq_iff a.action b.action,
  list_beq_iff a.source_ips b.source_ips,
  list_beq_iff a.destination_ips b.destination_ips,
  list_beq_iff a.ports b.ports,
)

instance abbrev pub rule_eq : Eq Rule
rule_eq = record { beq = rule_beq; beq_iff = rule_beq_iff }

abbrev pub ruleset_beq : RuleSet → RuleSet → Bool
ruleset_beq a b = list_beq a.rules b.rules

pub ruleset_beq_iff : (a b : RuleSet) → (ruleset_beq a b ≡ true) ↔ (a ≡ b)
ruleset_beq_iff a b = ground (arith, list_beq_iff a.rules b.rules)

instance abbrev pub ruleset_eq : Eq RuleSet
ruleset_eq = record { beq = ruleset_beq; beq_iff = ruleset_beq_iff }

abbrev pub policy_beq : TrafficPolicy → TrafficPolicy → Bool
policy_beq a b = option_beq a.ingress b.ingress && option_beq a.egress b.egress

pub policy_beq_iff : (a b : TrafficPolicy) → (policy_beq a b ≡ true) ↔ (a ≡ b)
policy_beq_iff a b =
    ground (arith, option_beq_iff a.ingress b.ingress, option_beq_iff a.egress b.egress)

instance abbrev pub policy_eq : Eq TrafficPolicy
policy_eq = record { beq = policy_beq; beq_iff = policy_beq_iff }
