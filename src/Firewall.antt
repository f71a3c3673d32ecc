-- ===== src/Firewall.antt =====
-- src/firewall/types.rs: the rules that the netfilter backends take, with the meaning that the
-- comments of that file give them for a packet that is not TCP.
pub mod Inpod
use ztunnel.Common.{
  ℕ, Bool, true, false, ◌&&◌, ◌||◌, List, [], ◌∷◌, Option, none, some, String, is_empty, any, all,
  leb, retain, if◌then◌else◌,
}
use ztunnel.Common.Int.{ℤ, le_int}
use ztunnel.Net.{IpAddr, IpNet, IpNetApi}
use ztunnel.Policy.Types.{PortRange}

pub data RuleAction : Type 0 where
  allow deny : RuleAction

pub data Direction : Type 0 where
  inbound outbound : Direction

pub data FirewallProtocol : Type 0 where
  non_tcp udp sctp icmp : FirewallProtocol

pub record PortGroup : Type 0 where
  pub protocol : FirewallProtocol
  pub ports : List PortRange

pub record FirewallMatch : Type 0 where
  pub source_ips : List IpNet
  pub dest_ips : List IpNet
  pub port_groups : List PortGroup

-- The text of a rule's name.
pub data RuleName : Type 0 where
  rule_name : String → ℕ → RuleName
  unavailable_name : String → RuleName
  default_deny_name : RuleName

pub record FirewallRule : Type 0 where
  pub name : RuleName
  pub action : RuleAction
  pub direction : Direction
  pub priority : ℤ
  pub clauses : List (List FirewallMatch)

pub record FirewallRuleSet : Type 0 where
  pub inline_rules : List FirewallRule
  pub rules : List FirewallRule
  pub policy_attached : Bool

-- A packet that the firewall sees: the transport protocol is not TCP, and only UDP and SCTP have a
-- destination port.
pub data Transport : Type 0 where
  udp_to sctp_to : ℕ → Transport
  icmp_packet other_packet : Transport

pub record Packet : Type 0 where
  pub src : IpAddr
  pub dst : IpAddr
  pub transport : Transport

abbrev pub in_ranges : List PortRange → ℕ → Bool
in_ranges ranges p = is_empty ranges || any (λ r. leb r.start p && leb p r.end) ranges

-- `NonTcp` without ports is every packet, and with ports UDP and SCTP.
abbrev pub group_admits : FirewallProtocol → List PortRange → Transport → Bool
group_admits non_tcp ports (udp_to p) = in_ranges ports p
group_admits non_tcp ports (sctp_to p) = in_ranges ports p
group_admits non_tcp ports icmp_packet = is_empty ports
group_admits non_tcp ports other_packet = is_empty ports
group_admits udp ports (udp_to p) = in_ranges ports p
group_admits udp ports _ = false
group_admits sctp ports (sctp_to p) = in_ranges ports p
group_admits sctp ports _ = false
group_admits icmp ports icmp_packet = true
group_admits icmp ports _ = false

abbrev pub groups_admit : List PortGroup → Transport → Bool
groups_admit groups t = is_empty groups || any (λ g. group_admits g.protocol g.ports t) groups

abbrev pub same_direction : Direction → Direction → Bool
same_direction inbound inbound = true
same_direction outbound outbound = true
same_direction _ _ = false

-- `sort_by_key(|rule| rule.priority)`, which is stable.
abbrev pub insert_by_priority : FirewallRule → List FirewallRule → List FirewallRule
insert_by_priority r [] = r ∷ []
insert_by_priority r (x ∷ xs) =
    if le_int r.priority x.priority then r ∷ x ∷ xs else x ∷ insert_by_priority r xs

unfoldable pub sort_by_priority : List FirewallRule → List FirewallRule
sort_by_priority [] = []
sort_by_priority (r ∷ rs) = insert_by_priority r (sort_by_priority rs)

module _ (net : IpNetApi) (packet : Packet) where
  abbrev pub ips_admit : List IpNet → IpAddr → Bool
  ips_admit nets ip = is_empty nets || any (λ n. net.contains n ip) nets

  abbrev pub match_admits : FirewallMatch → Bool
  match_admits m =
      ips_admit m.source_ips packet.src
      && (ips_admit m.dest_ips packet.dst && groups_admit m.port_groups packet.transport)

  -- All clauses have a match that passes.
  abbrev pub rule_admits : FirewallRule → Bool
  rule_admits r = all (λ c. any match_admits c) r.clauses

  -- The action of the first rule that fires.
  abbrev pub first_verdict : List FirewallRule → Option RuleAction
  first_verdict [] = none
  first_verdict (r ∷ rs) = elim (rule_admits r) [ true ↦ some r.action | false ↦ first_verdict rs ]

  -- The rules of a direction are tried by rising priority, and by their order where it is equal.
  abbrev pub verdict : Direction → List FirewallRule → Option RuleAction
  verdict d rules =
      first_verdict (sort_by_priority (retain (λ r. same_direction r.direction d) rules))
