-- ===== src/Outbound/Matches.antt =====
-- Which egress policy of a Workload is the first that matches a connection.
use ztunnel.Common.{
  String, ◌↔◌, In, Eq, is_empty, any, ℕ, ◌≡◌, refl, ap, subst, ◌⊎◌, inl, inr, Bool, true, ◌&&◌,
  ◌||◌, List, [], ◌∷◌, ◌++◌, Option, none, some, arith, All, find, contains, Bool-cases, nat_eq,
  string_eq,
}
use ztunnel.Extensions.{EgressPolicy, EgressPolicies}
use ztunnel.Net.{IpAddr, ip_eq, IpNet, IpNetApi, SocketAddr}
use ztunnel.Workload.{Workload}
use ztunnel.Outbound.{matches_egress}

-- The egress policies of a Workload that may have none.
abbrev pub policies_of : Option EgressPolicies → List EgressPolicy
policies_of none = []
policies_of (some policies) = policies.policies

-- The connection is one that the proxy would take in again: it asks for a port of the proxy on the
-- loopback or on the source itself.
abbrev pub is_self_call :
    Workload → SocketAddr → (illegal_ports : List ℕ) (is_loopback : IpAddr → Bool) → Bool
is_self_call source target illegal_ports is_loopback =
    contains illegal_ports target.port
    && (is_loopback target.ip || contains source.workload_ips target.ip)

-- A policy matches a connection: its namespaces, its prefixes and its ports each are none or hold that
-- of the connection.
abbrev pub Matches : IpNetApi → String → SocketAddr → EgressPolicy → Type 0
Matches net source_namespace target p =
    ((p.namespaces ≡ []) ⊎ In source_namespace p.namespaces)
    × ((p.match_cidrs ≡ [])
        ⊎ ((cidr : IpNet) × In cidr p.match_cidrs × (net.contains cidr target.ip ≡ true)))
    × ((p.match_ports ≡ []) ⊎ In target.port p.match_ports)

-- The policy is the first one that matches.
pub record IsFirst (M : EgressPolicy → Type 0) (ps : List EgressPolicy) (p : EgressPolicy)
    : Type 0 where
  pub before : List EgressPolicy
  pub after : List EgressPolicy
  pub parts : ps ≡ before ++ (p ∷ after)
  pub skipped : All (λ q. M q → ⊥) before
  pub fits : M p

In-contains : {A : Type 0} → ⦃eq : Eq A⦄ → (x : A) (xs : List A) → (contains xs x ≡ true) ↔ In x xs
In-contains x [] = ground arith
In-contains ⦃eq⦄ x (y ∷ ys) = ground (arith, eq.beq_iff y x, In-contains x ys)

-- An empty list of a policy matches anything.
is_empty_or :
    {A : Type 0} (xs : List A) (b : Bool) (P : Type 0)
    → (b ≡ true) ↔ P
    → (is_empty xs || b ≡ true) ↔ ((xs ≡ []) ⊎ P)
is_empty_or [] b P h = (λ e. inl refl, λ e. refl)
is_empty_or (x ∷ xs) b P h =
    (λ e. inr (h.0 e), λ e. elim e [ inl q ↦ absurd (ground (arith, q)) | inr p ↦ h.1 p ])

any_iff :
    {A : Type 0}
    → (p : A → Bool) (xs : List A) → (any p xs ≡ true) ↔ ((x : A) × In x xs × (p x ≡ true))
any_iff p [] = (λ h. absurd (ground (arith, h)), λ h. let (x, i, e) = h in elim i [ ])
any_iff p (x ∷ xs) = (
  λ h. elim (Bool-cases (p x)) [
    | inl e ↦ (x, inl refl, e)
    | inr e ↦ let (y, i, g) = (any_iff p xs).0 (ground (arith, h, e)) in (y, inr i, g)
  ],
  λ h.
      let (y, i, g) = h in
      elim i [
        | inl e ↦ ground (arith, e, g)
        | inr later ↦ ground (arith, (any_iff p xs).1 (y, later, g))
      ],
)

pub matches_egress_iff :
    (net : IpNetApi) (source_namespace : String) (target : SocketAddr) (p : EgressPolicy)
    → (matches_egress net source_namespace target p ≡ true) ↔ Matches net source_namespace target p
unfolding matches_egress
matches_egress_iff net source_namespace target p =
    let any_cidr = any (λ cidr. net.contains cidr target.ip) p.match_cidrs in
    let (n, n') =
      is_empty_or p.namespaces (contains p.namespaces source_namespace) _
        (In-contains source_namespace p.namespaces) in
    let (c, c') =
      is_empty_or p.match_cidrs any_cidr _
        (any_iff (λ cidr. net.contains cidr target.ip) p.match_cidrs) in
    let (t, t') =
      is_empty_or p.match_ports (contains p.match_ports target.port) _
        (In-contains target.port p.match_ports) in
    (
      λ h. (n (ground (arith, h)), c (ground (arith, h)), t (ground (arith, h))),
      λ h. let (a, b, d) = h in ground (arith, n' a, c' b, t' d),
    )

module _ (matches : EgressPolicy → Bool) (M : EgressPolicy → Type 0)
    (agrees : (q : EgressPolicy) → (matches q ≡ true) ↔ M q) where
  pub find-IsFirst :
      (ps : List EgressPolicy) (p : EgressPolicy) → find matches ps ≡ some p → IsFirst M ps p
  find-IsFirst [] p h = absurd (ground (arith, h))
  find-IsFirst (q ∷ ps) p h = elim (Bool-cases (matches q)) [
    | inl e ↦
        let same : q ≡ p = ground (arith, h, e) in
        record {
          before = [];
          after = ps;
          parts = ap (λ x. x ∷ ps) same;
          skipped = tt;
          fits = subst M same ((agrees q).0 e);
        }
    | inr e ↦
        let rest = find-IsFirst ps p (ground (arith, h, e)) in
        record {
          before = q ∷ rest.before;
          after = rest.after;
          parts = ap (λ l. q ∷ l) rest.parts;
          skipped = (λ m. absurd (ground (arith, e, (agrees q).1 m)), rest.skipped);
          fits = rest.fits;
        }
  ]

  pub find-none : (ps : List EgressPolicy) → find matches ps ≡ none → All (λ q. M q → ⊥) ps
  find-none [] h = tt
  find-none (q ∷ ps) h = elim (Bool-cases (matches q)) [
    | inl e ↦ absurd (ground (arith, h, e))
    | inr e ↦ (λ m. absurd (ground (arith, e, (agrees q).1 m)), find-none ps (ground (arith, h, e)))
  ]
