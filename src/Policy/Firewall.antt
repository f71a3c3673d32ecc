-- ===== src/Policy/Firewall.antt =====
-- `firewall_rulesets` of src/rbac.rs: the policies of a stage as rules for the netfilter backends.
pub mod Order
pub mod Verdict
use ztunnel.Common.{
  ℕ, zero, suc, ◌+◌, ◌≡◌, Bool, true, false, ◌&&◌, not, List, [], ◌∷◌, ◌++◌, Option, none, some,
  String, is_empty, filter_map, length, if◌then◌else◌,
}
use ztunnel.Common.Int.{as_i32, i32_max}
use ztunnel.Firewall.{
  RuleAction, Direction, inbound, outbound, FirewallProtocol, non_tcp, udp, sctp, icmp, PortGroup,
  FirewallMatch, RuleName, rule_name, unavailable_name, default_deny_name, FirewallRule,
  FirewallRuleSet,
}
use ztunnel.Policy.{Policies, first_missing}
use ztunnel.Policy.Types.{Action, Protocol, PortRange, PortMatch, Rule, RuleSet, TrafficPolicy}

abbrev pub firewall_protocol : Protocol → Option FirewallProtocol
firewall_protocol Protocol.all = some non_tcp
firewall_protocol Protocol.udp = some udp
firewall_protocol Protocol.icmp = some icmp
firewall_protocol Protocol.sctp = some sctp
firewall_protocol Protocol.tcp = none

-- `port.range.iter().cloned().collect()`
abbrev pub range_list : Option PortRange → List PortRange
range_list none = []
range_list (some r) = r ∷ []

abbrev pub port_group : PortMatch → Option PortGroup
port_group m = elim (firewall_protocol m.protocol) [
  | none ↦ none
  | some p ↦ some (record { protocol = p; ports = range_list m.range })
]

abbrev pub rule_action : Action → RuleAction
rule_action Action.allow = RuleAction.allow
rule_action Action.deny = RuleAction.deny

abbrev pub firewall_rule : Direction → String → ℕ → ℕ → Rule → FirewallRule
firewall_rule d name offset index r = record {
  name = rule_name name index;
  action = rule_action r.action;
  direction = d;
  priority = as_i32 (offset + index);
  clauses =
      (record {
        source_ips = r.source_ips;
        dest_ips = r.destination_ips;
        port_groups = filter_map port_group r.ports;
      }
        ∷ [])
      ∷ [];
}

-- `!rule.ports.is_empty() && port_groups.is_empty()`: the rule is for TCP alone.
abbrev pub is_tcp_only : Rule → Bool
is_tcp_only r = not (is_empty r.ports) && is_empty (filter_map port_group r.ports)

-- The rules of one body, from the index reached.
pub body_rules : Direction → String → ℕ → ℕ → List Rule → List FirewallRule
body_rules d name offset index [] = []
body_rules d name offset index (r ∷ rs) =
    let rest = body_rules d name offset (suc index) rs in
    if is_tcp_only r then rest else firewall_rule d name offset index r ∷ rest

abbrev pub body : Direction → TrafficPolicy → Option RuleSet
body inbound p = p.ingress
body outbound p = p.egress

-- The loop over the policies, from the offset reached.
pub policy_rules : Direction → ℕ → Policies → List FirewallRule
policy_rules d offset [] = []
policy_rules d offset ((name, none) ∷ ps) = policy_rules d offset ps
policy_rules d offset ((name, some p) ∷ ps) = elim (body d p) [
  | none ↦ policy_rules d offset ps
  | some b ↦ body_rules d name offset 0 b.rules ++ policy_rules d (offset + length b.rules) ps
]

-- Whether that loop sets `configured`.
pub is_configured : Direction → Policies → Bool
is_configured d [] = false
is_configured d ((name, none) ∷ ps) = is_configured d ps
is_configured d ((name, some p) ∷ ps) = elim (body d p) [
  | none ↦ is_configured d ps
  | some b ↦ true
]

abbrev pub default_rule : Direction → RuleName → FirewallRule
default_rule d name = record {
  name = name;
  action = RuleAction.deny;
  direction = d;
  priority = i32_max;
  clauses =
      (record {
        source_ips = [];
        dest_ips = [];
        port_groups = record { protocol = non_tcp; ports = [] } ∷ [];
      }
        ∷ [])
      ∷ [];
}

pub direction_rules : Option String → Policies → Direction → List FirewallRule
direction_rules (some name) ps d = default_rule d (unavailable_name name) ∷ []
direction_rules none ps d =
    if is_configured d ps
    then policy_rules d 0 ps ++ (default_rule d default_deny_name ∷ [])
    else []

pub firewall_rulesets : Policies → FirewallRuleSet
unfolding first_missing direction_rules policy_rules body_rules is_configured
firewall_rulesets ps = record {
  inline_rules = [];
  rules =
      direction_rules (first_missing ps) ps inbound
      ++ direction_rules (first_missing ps) ps outbound;
  policy_attached = false;
}
