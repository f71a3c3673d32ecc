-- ===== src/State/Upstream/Laws.antt =====
-- The address that is picked for an upstream.
use ztunnel.Common.{
  ℕ, ◌≡◌, refl, ◌↔◌, ◌⊎◌, inl, inr, Bool, true, false, List, [], ◌∷◌, Option, none, some, String,
  arith, In, In-retain, string_eq, contains, retain, find, Bool-cases, Option-cases,
}
use ztunnel.Common.Outcome.{ok}
use ztunnel.Net.{IpAddr, ip_eq, SocketAddr}
use ztunnel.Service.{Service, IpFamily}
use ztunnel.State.Balance.{upstream_parts}
use ztunnel.State.Upstream.{
  Upstream, find_or_first, same_family, admits_family, families_of, sans_of,
  pick_workload_destination_or_resolve, finalize_upstream,
}
use ztunnel.Workload.{Workload}

-- An address of the Workload that the Service's families allow.
abbrev pub IsAllowed : Workload → Option IpFamily → IpAddr → Type 0
IsAllowed wl family ip = In ip wl.workload_ips × (admits_family family ip ≡ true)

In-contains : (ip : IpAddr) (ips : List IpAddr) → (contains ips ip ≡ true) ↔ In ip ips
In-contains ip [] = ground arith
In-contains ip (x ∷ xs) = ground (arith, ip_eq.beq_iff x ip, In-contains ip xs)

module _ (p : IpAddr → Bool) where
  found_by : (ips : List IpAddr) (ip : IpAddr) → find p ips ≡ some ip → In ip ips × (p ip ≡ true)
  found_by [] ip h = absurd (ground arith)
  found_by (x ∷ xs) ip h = elim (Bool-cases (p x)) [
    | inl hit ↦ ground arith
    | inr miss ↦ let (l, e) = found_by xs ip (ground arith) in (inr l, e)
  ]

  not_found : (ips : List IpAddr) (ip : IpAddr) → find p ips ≡ none → In ip ips → p ip ≡ false
  not_found [] ip h m = elim m [ ]
  not_found (x ∷ xs) ip h (inl e) = rw e (ground arith)
  not_found (x ∷ xs) ip h (inr m) = elim (Bool-cases (p x)) [
    | inl hit ↦ absurd (ground arith)
    | inr miss ↦ not_found xs ip (ground arith) m
  ]

  -- What `find_or_first` gives of a list that is not empty.
  find_or_first_lem :
      (ips : List IpAddr) (a : IpAddr)
      → In a ips
      → (ip : IpAddr) × (find_or_first p ips ≡ some ip)
        × In ip ips
        × ((p ip ≡ true) ⊎ ((b : IpAddr) → In b ips → p b ≡ false))
  find_or_first_lem [] a h = elim h [ ]
  find_or_first_lem (x ∷ xs) a h = elim (Option-cases (find p (x ∷ xs))) [
    | inl e ↦ (x, rw (e, find_or_first) refl, inl refl, inr (λ b m. not_found (x ∷ xs) b e m))
    | inr (ip, e) ↦
        let (l, f) = found_by (x ∷ xs) ip e in (ip, rw (e, find_or_first) refl, l, inl f)
  ]

-- The requested address where it is the Workload's; else an allowed one, of the requested family
-- unless no allowed one is.
abbrev pub IsPreferred : Workload → IpAddr → Option IpFamily → IpAddr → Type 0
IsPreferred wl target family ip =
    (In target wl.workload_ips × (ip ≡ target))
    ⊎ ((¬ In target wl.workload_ips)
        × IsAllowed wl family ip
        × ((same_family target ip ≡ true)
            ⊎ ((b : IpAddr) → IsAllowed wl family b → same_family target b ≡ false)))

module _ (lookup_ip : String → Option (List IpAddr)) (choose_ip : List IpAddr → Option IpAddr)
    (wl : Workload) (target : SocketAddr) (family : Option IpFamily) where
  pick-IsPreferred :
      (a : IpAddr)
      → IsAllowed wl family a
      → (ip : IpAddr) × (pick_workload_destination_or_resolve lookup_ip choose_ip wl target family
          ≡ ok ip)
        × IsPreferred wl target.ip family ip
  unfolding pick_workload_destination_or_resolve
  pick-IsPreferred a allowed = elim (Bool-cases (contains wl.workload_ips target.ip)) [
    | inl own ↦ (target.ip, ground arith, inl ((In-contains target.ip wl.workload_ips).0 own, refl))
    | inr other ↦
        let keep : IpAddr → Bool = admits_family family in
        let prefer : IpAddr → Bool = same_family target.ip in
        let (ip, e, l, best) =
          find_or_first_lem prefer (retain keep wl.workload_ips) a
            ((In-retain keep a wl.workload_ips).1 allowed) in
        (
          ip,
          rw other (rw e refl),
          inr (
            (λ m. absurd (ground (arith, (In-contains target.ip wl.workload_ips).1 m))),
            (In-retain keep ip wl.workload_ips).0 l,
            elim best [
              | inl same ↦ inl same
              | inr none_same ↦ inr (λ b m. none_same b ((In-retain keep b wl.workload_ips).1 m))
            ],
          ),
        )
  ]

-- An upstream whose Workload has an address that the Service's families allow is dialled without the
-- resolver: the result is that Workload, port and the Service's names, at the requested address where
-- it is the Workload's, else at an allowed address, of the requested family unless none is.
pub finalize_upstream-IsPreferred :
    (lookup_ip : String → Option (List IpAddr)) (choose_ip : List IpAddr → Option IpAddr)
    (target : SocketAddr) (wl : Workload) (port : ℕ) (svc : Option Service) (a : IpAddr)
    → IsAllowed wl (families_of svc) a
    → (u : Upstream) × (finalize_upstream lookup_ip choose_ip target
          (some (upstream_parts wl port svc))
        ≡ ok (some u))
      × (u.workload ≡ wl)
      × (u.port ≡ port)
      × (u.service_sans ≡ sans_of svc)
      × IsPreferred wl target.ip (families_of svc) u.selected_workload_ip
unfolding finalize_upstream
finalize_upstream-IsPreferred lookup_ip choose_ip target wl port svc a allowed =
    let (ip, e, best) =
      pick-IsPreferred lookup_ip choose_ip wl target (families_of svc) a allowed in
    (
      record { workload = wl; selected_workload_ip = ip; port = port; service_sans = sans_of svc },
      rw e refl,
      refl,
      refl,
      refl,
      best,
    )
