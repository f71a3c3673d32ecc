-- ===== src/Extensions/Valid.antt =====
-- What an egress policy that is accepted satisfies.
use ztunnel.Common.{
  ℕ, ◌<◌, ◌≡◌, ◌≢◌, refl, sym, subst, inl, inr, true, false, ◌&&◌, List, [], ◌∷◌, Option, none,
  some, String, arith, All, is_none, Bool-cases, Option-cases, ◌==◌, string_eq,
}
use ztunnel.Common.Outcome.{ok, transpose, Result-cases}
use ztunnel.Common.Texts.{first_segment, second_segment, parse_u16, parse_u16-bound}
use ztunnel.Workload.{GatewayAddress, hostname}
use ztunnel.Extensions.{
  EgressPolicy, ProtoEgressPolicy, ProtoGateway, DecodeApi, egress_action_of, is_gateway,
  gateway_port, parse_gateway_address, parse_ports, egress_policy_of, parse_cidrs,
}
use text.Mathlib.TextEquality.{eq_iff}

-- An egress gateway: a port other than 0, and a hostname whose first two parts are not empty, the second
-- of which is the namespace.
pub IsGateway : GatewayAddress → Type 0
IsGateway g =
    (0 < g.hbone_mtls_port)
    × (g.hbone_mtls_port < 65536)
    × ((svc : String) × (g.destination
          ≡ hostname (record { namespace = second_segment svc; hostname = svc }))
        × (first_segment svc ≢ "")
        × (second_segment svc ≢ ""))

abbrev pub IsGatewayOrNone : Option GatewayAddress → Type 0
IsGatewayOrNone none = Unit
IsGatewayOrNone (some g) = IsGateway g

abbrev pub IsValidEgress : EgressPolicy → Type 0
IsValidEgress p =
    All (λ n. n < 65536) p.match_ports
    × (is_gateway p.policy ≡ true → is_none p.gateway ≡ false)
    × IsGatewayOrNone p.gateway

parse_ports-bound :
    (api : DecodeApi) (ports : List String) (out : List ℕ)
    → parse_ports api ports ≡ ok out
    → All (λ n. n < 65536) out
unfolding parse_ports
parse_ports-bound api [] [] h = tt
parse_ports-bound api [] (n ∷ ns) h = absurd (ground (arith, h))
parse_ports-bound api (p ∷ ps) out h = elim (Option-cases (parse_u16 p)) [
  | inl e ↦ absurd (ground (arith, h, e))
  | inr (n, e) ↦ elim (Result-cases (parse_ports api ps)) [
    | inr (x, f) ↦ absurd (ground (arith, h, e, f))
    | inl (ns, f) ↦
        let at : n ∷ ns ≡ out = ground (arith, h, e, f) in
        subst (λ l. All (λ n. n < 65536) l) at
          (parse_u16-bound p n e, parse_ports-bound api ps ns f)
  ]
]

parse_gateway_address-IsGateway :
    (svc : String) (port : ℕ) (g : GatewayAddress)
    → parse_gateway_address svc port ≡ ok g
    → IsGateway g
unfolding parse_gateway_address IsGateway
parse_gateway_address-IsGateway svc port g h = elim (Bool-cases (first_segment svc == "")) [
  | inl e ↦ absurd (ground (arith, h, e))
  | inr named ↦ elim (Bool-cases (second_segment svc == "")) [
    | inl e ↦ absurd (ground (arith, h, named, e))
    | inr spaced ↦ elim (Result-cases (gateway_port port)) [
      | inr (x, e) ↦ absurd (ground (arith, h, named, spaced, e))
      | inl (n, e) ↦
          let at : g ≡ record {
            destination = hostname (record { namespace = second_segment svc; hostname = svc });
            hbone_mtls_port = n;
          } =
            ground (arith, h, named, spaced, e) in
          rw at (
            ground (arith, e),
            ground (arith, e),
            (
              svc,
              refl,
              (λ q. ground (arith, named, eq_iff (first_segment svc) "", q)),
              (λ q. ground (arith, spaced, eq_iff (second_segment svc) "", q)),
            ),
          )
    ]
  ]
]

transpose-IsGatewayOrNone :
    (value : Option ProtoGateway) (gw : Option GatewayAddress)
    → transpose (λ g. parse_gateway_address g.service g.port) value ≡ ok gw
    → IsGatewayOrNone gw
transpose-IsGatewayOrNone none none h = tt
transpose-IsGatewayOrNone none (some g) h = absurd (ground (arith, h))
transpose-IsGatewayOrNone (some v) gw h =
    elim (Result-cases (parse_gateway_address v.service v.port)) [
      | inr (x, e) ↦ absurd (ground (arith, h, e))
      | inl (g, e) ↦
          let at : some g ≡ gw = ground (arith, h, e) in
          subst IsGatewayOrNone at (parse_gateway_address-IsGateway v.service v.port g e)
    ]

-- An egress policy that is accepted names a gateway where its action is Gateway. Its ports are below
-- 65536, and a gateway that it names has a port other than 0 and a service whose second part, which is
-- not empty, is the namespace.
pub egress_policy_of-IsValidEgress :
    (api : DecodeApi) (value : ProtoEgressPolicy) (p : EgressPolicy)
    → egress_policy_of api value ≡ ok p
    → IsValidEgress p
unfolding egress_policy_of
egress_policy_of-IsValidEgress api value p h = elim (Result-cases (egress_action_of value.policy)) [
  | inr (x, e) ↦ absurd (ground (arith, h, e))
  | inl (policy, e1) ↦ elim (Result-cases (parse_cidrs api value.match_cidrs)) [
    | inr (x, e) ↦ absurd (ground (arith, h, e1, e))
    | inl (cidrs, e2) ↦ elim (Result-cases (parse_ports api value.match_ports)) [
      | inr (x, e) ↦ absurd (ground (arith, h, e1, e2, e))
      | inl (ports, e3) ↦
          elim (Result-cases
            (transpose (λ g. parse_gateway_address g.service g.port) value.gateway)) [
              | inr (x, e) ↦ absurd (ground (arith, h, e1, e2, e3, e))
              | inl (gw, e4) ↦ elim (Bool-cases (is_gateway policy && is_none gw)) [
                | inl e ↦ absurd (ground (arith, h, e1, e2, e3, e4, e))
                | inr good ↦
                    let at : (p.match_ports ≡ ports) × (p.policy ≡ policy) × (p.gateway ≡ gw) =
                      ground (arith, h, e1, e2, e3, e4, good) in
                    (
                      subst (λ l. All (λ n. n < 65536) l) (sym at.0)
                          (parse_ports-bound api value.match_ports ports e3),
                      ground (arith, at, good),
                      subst IsGatewayOrNone (sym at.2)
                          (transpose-IsGatewayOrNone value.gateway gw e4),
                    )
              ]
            ]
    ]
  ]
]
