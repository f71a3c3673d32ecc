-- ===== src/Dns/Answers.antt =====
-- The addresses and the records of the answers of src/dns/server.rs.
use ztunnel.Common.{
  ◌≡◌, ◌≢◌, refl, sym, subst, ◌↔◌, ◌⊎◌, inl, inr, Bool, true, false, List, [], ◌∷◌, Option, none,
  some, map, find, filter_map, is_empty, arith, eq_iff_of, string_eq, In, In-append, In-find,
  Option-cases, Bool-cases,
}
use ztunnel.Common.Map
use ztunnel.Net.{IpAddr, v4, v6, NetworkAddress}
use ztunnel.Service.{Endpoint, ipv4, ipv6}
use ztunnel.Workload.{Workload}
use ztunnel.Workload.Index.{WorkloadStore, find_uid}
use ztunnel.Dns.{
  RecordType, a, aaaa, other, Address, workload, service, server_family, is_wanted,
  workload_address, endpoint_address, vip_address, collect_addresses, get_addresses, ServerMatch,
  Record, a_record, aaaa_record, cname_record, ip_record, alias_records, ip_records, answer_of,
  service_family_allowed,
}

module _ {A B : Type 0} (f : A → Option B) (b : B) where
  In-filter_map : (xs : List A) → In b (filter_map f xs) → (x : A) × In x xs × (f x ≡ some b)
  In-filter_map [] h = elim h [ ]
  In-filter_map (x ∷ xs) h = elim (Option-cases (f x)) [
    | inl e ↦ let (y, m, g) = In-filter_map xs (rw (e, filter_map) at h) in (y, inr m, g)
    | inr (found, e) ↦ elim (rw (e, filter_map) at h) [
      | inl here ↦ (x, inl refl, ground (arith, e, here))
      | inr later ↦ let (y, m, g) = In-filter_map xs later in (y, inr m, g)
    ]
  ]

  In-filter_map_of : (x : A) (xs : List A) → In x xs → f x ≡ some b → In b (filter_map f xs)
  In-filter_map_of x [] m e = elim m [ ]
  In-filter_map_of x (y ∷ ys) m e = ground (arith, In-filter_map_of x ys)

module _ {A B : Type 0} (f : A → B) (b : B) where
  In-map : (xs : List A) → In b (map f xs) → (x : A) × In x xs × (b ≡ f x)
  In-map [] h = elim h [ ]
  In-map (x ∷ xs) (inl e) = (x, inl refl, e)
  In-map (x ∷ xs) (inr h) = let (y, m, e) = In-map xs h in (y, inr m, e)

-- What a server offers to a client, read off the server without the collection: a Workload its IPs, a
-- Service its VIPs on the network of the client, and a headless Service the first wanted IP of the
-- Workload of each endpoint.
module _ (ipv6_enabled : Bool) (workloads : WorkloadStore) (client : Workload) where
  abbrev pub IsOffered : Address → RecordType → IpAddr → Type 0
  IsOffered (workload wl) record_type addr = In addr wl.workload_ips
  IsOffered (service s) record_type addr =
      ((is_empty s.vips ≡ false)
        × (vip : NetworkAddress) × In vip s.vips
        × (vip.network ≡ client.network)
        × (vip.address ≡ addr))
      ⊎ ((is_empty s.vips ≡ true)
          × (ep : Endpoint) × (wl : Workload) × In ep (Map.values s.endpoints)
          × (find_uid ep.workload_uid workloads ≡ some wl)
          × (find (is_wanted ipv6_enabled record_type) wl.workload_ips ≡ some addr))

  workload_address_iff :
      (record_type : RecordType) (x addr : IpAddr)
      → (workload_address ipv6_enabled record_type x ≡ some addr)
        ↔ ((x ≡ addr) × (is_wanted ipv6_enabled record_type x ≡ true))
  workload_address_iff record_type x addr = ground arith

  vip_address_iff :
      (record_type : RecordType) (vip : NetworkAddress) (addr : IpAddr)
      → (vip_address ipv6_enabled client record_type vip ≡ some addr) ↔ (
          (vip.network ≡ client.network)
          × (vip.address ≡ addr)
          × (is_wanted ipv6_enabled record_type addr ≡ true))
  vip_address_iff record_type vip addr = ground (arith, eq_iff_of client.network vip.network)

  endpoint_address_iff :
      (record_type : RecordType) (ep : Endpoint) (addr : IpAddr)
      → (endpoint_address ipv6_enabled workloads record_type ep ≡ some addr) ↔ (
          (wl : Workload) × (find_uid ep.workload_uid workloads ≡ some wl)
          × (find (is_wanted ipv6_enabled record_type) wl.workload_ips ≡ some addr))
  endpoint_address_iff record_type ep addr = (
    λ h. elim (Option-cases (find_uid ep.workload_uid workloads)) [
      | inl e ↦ ground (arith, e, h)
      | inr (wl, e) ↦ (wl, e, ground (arith, e, h))
    ],
    λ h. let (wl, e, g) = h in ground (arith, e, g),
  )

  collect_addresses_iff :
      (server : Address) (record_type : RecordType) (addr : IpAddr)
      → In addr (collect_addresses ipv6_enabled workloads client server record_type)
        ↔ (IsOffered server record_type addr × (is_wanted ipv6_enabled record_type addr ≡ true))
  unfolding collect_addresses
  collect_addresses_iff (workload wl) record_type addr = (
    λ h.
        let (x, m, e) =
          In-filter_map (workload_address ipv6_enabled record_type) addr wl.workload_ips h in
        let (same, w) = (workload_address_iff record_type x addr).0 e in
        (
          subst (λ y. In y wl.workload_ips) same m,
          subst (λ y. is_wanted ipv6_enabled record_type y ≡ true) same w,
        ),
    λ h.
        In-filter_map_of (workload_address ipv6_enabled record_type) addr addr wl.workload_ips h.0
          ((workload_address_iff record_type addr addr).1 (refl, h.1)),
  )
  collect_addresses_iff (service s) record_type addr = elim (Bool-cases (is_empty s.vips)) [
    | inl e ↦ rw e (
      λ h.
          let (ep, m, g) =
            In-filter_map (endpoint_address ipv6_enabled workloads record_type) addr
              (Map.values s.endpoints) h in
          let (wl, found, first) = (endpoint_address_iff record_type ep addr).0 g in
          (
            inr (refl, ep, wl, m, found, first),
            (In-find (is_wanted ipv6_enabled record_type) wl.workload_ips addr first).1,
          ),
      λ h. elim h.0 [
        | inl v ↦ absurd (ground arith)
        | inr v ↦
            let (_, ep, wl, m, found, first) = v in
            In-filter_map_of (endpoint_address ipv6_enabled workloads record_type) addr ep
              (Map.values s.endpoints) m
              ((endpoint_address_iff record_type ep addr).1 (wl, found, first))
      ],
    )
    | inr e ↦ rw e (
      λ h.
          let (vip, m, g) =
            In-filter_map (vip_address ipv6_enabled client record_type) addr s.vips h in
          let (network, address, w) = (vip_address_iff record_type vip addr).0 g in
          (inl (refl, vip, m, network, address), w),
      λ h. elim h.0 [
        | inl v ↦
            let (_, vip, m, network, address) = v in
            In-filter_map_of (vip_address ipv6_enabled client record_type) addr vip s.vips m
              ((vip_address_iff record_type vip addr).1 (network, address, h.1))
        | inr v ↦ absurd (ground arith)
      ],
    )
  ]

  module _ (shuffle : List IpAddr → List IpAddr) where
    -- When the shuffle keeps what is in a list and adds nothing, the addresses that are given for a server
    -- are exactly those that it offers to the client, of the requested type, and IPv6 ones only when IPv6
    -- is enabled: the IPs of a Workload, the VIPs of a Service on the network of the client, and for a
    -- Service without VIPs the first such IP of the Workload of each endpoint.
    pub get_addresses_iff :
        (server : Address) (record_type : RecordType) (addr : IpAddr)
        → ((b : IpAddr) (bs : List IpAddr) → In b (shuffle bs) ↔ In b bs)
        → In addr (get_addresses shuffle ipv6_enabled workloads client server record_type)
          ↔ (IsOffered server record_type addr × (is_wanted ipv6_enabled record_type addr ≡ true))
    unfolding get_addresses
    get_addresses_iff server record_type addr kept = ground (
      arith,
      kept addr (collect_addresses ipv6_enabled workloads client server record_type),
      collect_addresses_iff server record_type addr,
    )

    module _ {Name : Type 0} (is_wildcard : Name → Bool) where
      -- What a record of an answer says, and when it may say it.
      abbrev pub IsTruthful : Name → ServerMatch Name → RecordType → Record Name → Type 0
      IsTruthful requested m record_type (a_record name n) =
          (record_type ≡ a)
          × (server_family m.server ≢ some ipv6)
          × IsOffered m.server record_type (v4 n)
      IsTruthful requested m record_type (aaaa_record name n) =
          (record_type ≡ aaaa)
          × (ipv6_enabled ≡ true)
          × (server_family m.server ≢ some ipv4)
          × IsOffered m.server record_type (v6 n)
      IsTruthful requested m record_type (cname_record name canonical) =
          (name ≡ requested) × (m.alias.stripped ≡ some canonical) × (is_wildcard m.name ≡ false)

      ip_record-IsTruthful :
          (requested name : Name) (m : ServerMatch Name) (record_type : RecordType) (addr : IpAddr)
          → service_family_allowed m.server record_type ipv6_enabled ≡ true
          → IsOffered m.server record_type addr
          → is_wanted ipv6_enabled record_type addr ≡ true
          → IsTruthful requested m record_type (ip_record name addr)
      unfolding service_family_allowed
      ip_record-IsTruthful requested name m a (v4 n) allowed offered wanted =
          (refl, (λ e. ground (arith, e, allowed)), offered)
      ip_record-IsTruthful requested name m aaaa (v6 n) allowed offered wanted =
          (refl, wanted, (λ e. ground (arith, e, allowed)), offered)
      ip_record-IsTruthful requested name m aaaa (v4 n) allowed offered wanted =
          absurd (ground arith)
      ip_record-IsTruthful requested name m a (v6 n) allowed offered wanted = absurd (ground arith)
      ip_record-IsTruthful requested name m (other k) (v4 n) allowed offered wanted =
          absurd (ground arith)
      ip_record-IsTruthful requested name m (other k) (v6 n) allowed offered wanted =
          absurd (ground arith)

      alias_records-IsTruthful :
          (requested : Name) (m : ServerMatch Name) (record_type : RecordType) (r : Record Name)
          → (wild : Bool) → is_wildcard m.name ≡ wild
          → (stripped : Option Name) → m.alias.stripped ≡ stripped
          → In r (alias_records wild requested stripped).1
          → IsTruthful requested m record_type r
      alias_records-IsTruthful requested m record_type r wild w none s h = elim h [ ]
      alias_records-IsTruthful requested m record_type r true w (some stripped) s h = elim h [ ]
      alias_records-IsTruthful requested m record_type r false w (some stripped) s (inl e) =
          subst (IsTruthful requested m record_type) (sym e) (refl, s, w)
      alias_records-IsTruthful requested m record_type r false w (some stripped) s (inr h) =
          elim h [ ]

      -- When the shuffle keeps what is in a list and adds nothing, every record of an answer to a found
      -- server is truthful. A record of an address is of the requested type, says an address that the
      -- server offers to the client, is of a family that the Service has, and is an IPv6 one only when
      -- IPv6 is enabled. A CNAME record leads from the requested name to the stripped one of the alias,
      -- and is given only when the name that was found is no wildcard.
      pub answer_of-IsTruthful :
          (requested : Name) (m : ServerMatch Name) (record_type : RecordType) (r : Record Name)
          → ((b : IpAddr) (bs : List IpAddr) → In b (shuffle bs) ↔ In b bs)
          → In r
              (answer_of shuffle is_wildcard ipv6_enabled workloads client requested m
                record_type).records
          → IsTruthful requested m record_type r
      unfolding answer_of
      answer_of-IsTruthful requested m record_type r kept h =
          elim (Bool-cases (service_family_allowed m.server record_type ipv6_enabled)) [
            | inr refused ↦ absurd (rw refused at h)
            | inl allowed ↦ elim (Bool-cases (is_empty addresses)) [
              | inl none_left ↦ absurd (rw (allowed, none_left) at h)
              | inr some_left ↦ truthful allowed (rw (allowed, some_left) at h)
            ]
          ]
        where
          addresses : List IpAddr
          addresses = get_addresses shuffle ipv6_enabled workloads client m.server record_type

          shown : Name × List (Record Name)
          shown = alias_records (is_wildcard m.name) requested m.alias.stripped

          truthful :
              service_family_allowed m.server record_type ipv6_enabled ≡ true
              → In r (ip_records shown addresses)
              → IsTruthful requested m record_type r
          truthful allowed g = elim (In-append r shown.1 (map (ip_record shown.0) addresses) g) [
            | inl l ↦
                alias_records-IsTruthful requested m record_type r (is_wildcard m.name) refl
                  m.alias.stripped refl l
            | inr l ↦
                let (b, i, e) = In-map (ip_record shown.0) r addresses l in
                let (offered, wanted) = (get_addresses_iff m.server record_type b kept).0 i in
                subst (IsTruthful requested m record_type) (sym e)
                  (ip_record-IsTruthful requested shown.0 m record_type b allowed offered wanted)
          ]
