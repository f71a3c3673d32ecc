-- ===== src/Policy/Tests.antt =====
-- Concrete runs of src/rbac.rs, and its laws at concrete policies.
use ztunnel.Common.{◌≡◌, refl, ◌↔◌, ◌⊎◌, ◌∷◌, none, String, arith, string_eq}
use ztunnel.Common.Outcome.{ok, err}
use ztunnel.Examples.{
  net, client, server, conn, allowing, denying, xds_policy, xds_ports, parsed, parsed_ports,
}
use ztunnel.Firewall.{Packet, Transport, udp_to, verdict}
use ztunnel.Firewall
use ztunnel.Policy.{assert_policies, first_missing}
use ztunnel.Policy.Types.{
  allow, explicitly_denied, policy_unavailable, default_deny, rule, policy_eq, IsValidPolicy,
}
use ztunnel.Policy.Stage.{
  IsResolved, IsUnconfigured, FirstMatch, stage_rules, Explains, assert_policies_iff,
  assert_policies-Explains,
}
use ztunnel.Policy.Firewall.{firewall_rulesets}
use ztunnel.Policy.Firewall.Verdict.{IsValidStage, stage_verdict, firewall_rulesets-verdict}
use ztunnel.Policy.Convert.{policy_of, validate, port_match_of, policy_of-IsValidPolicy}
use ztunnel.Policy.Store.{XdsPolicyResource}

allowed : assert_policies net allowing conn ≡ ok tt
unfolding assert_policies
allowed = refl

denied : assert_policies net denying conn ≡ err (explicitly_denied "web" (rule 0))
unfolding assert_policies
denied = refl

unresolved :
    assert_policies net (("gone", none) ∷ allowing) conn
    ≡ err (explicitly_denied "gone" policy_unavailable)
unfolding assert_policies
unresolved = refl

not_covered :
    assert_policies net allowing (record conn { src = record { ip = server; port = 1 } })
    ≡ err (explicitly_denied "" default_deny)
unfolding assert_policies
not_covered = refl

assert_policies_iff_example : (assert_policies net allowing conn ≡ ok tt) ↔ (
    IsResolved allowing
    × (IsUnconfigured conn.direction allowing
        ⊎ FirstMatch net conn (stage_rules conn.direction allowing) allow))
assert_policies_iff_example = assert_policies_iff net conn allowing

assert_policies-Explains_example : Explains net conn denying (explicitly_denied "web" (rule 0))
assert_policies-Explains_example =
    assert_policies-Explains net conn denying (explicitly_denied "web" (rule 0)) denied

abbrev dns_packet : Packet
dns_packet = record { src = client; dst = server; transport = udp_to 53 }

denying-IsValidStage : IsValidStage denying
denying-IsValidStage = ground arith

firewall_rulesets-verdict_example :
    verdict net dns_packet Firewall.Direction.inbound (firewall_rulesets denying).rules
    ≡ stage_verdict net dns_packet Firewall.Direction.inbound denying (first_missing denying)
firewall_rulesets-verdict_example =
    firewall_rulesets-verdict net dns_packet Firewall.Direction.inbound denying denying-IsValidStage
      (omega arith)

accepted : policy_of net xds_policy ≡ ok parsed
unfolding policy_of validate
accepted = refl

policy_of-IsValidPolicy_example : IsValidPolicy parsed
policy_of-IsValidPolicy_example = policy_of-IsValidPolicy net xds_policy parsed accepted

ports_accepted : port_match_of xds_ports ≡ ok parsed_ports
unfolding port_match_of
ports_accepted = refl

abbrev web : String
web = "web"

abbrev other : String
other = "other"

abbrev resource : XdsPolicyResource
resource = record { name = "web"; resource = xds_policy }
