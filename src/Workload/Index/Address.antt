-- ===== src/Workload/Index/Address.antt =====
-- The index by address agrees with the stored Workloads.
use text.Mathlib.TextEquality.{eq_iff}
use ztunnel.Common.{
  ◌≡◌, refl, subst, ◌≢◌, ◌↔◌, ◌⊎◌, inl, inr, Bool, true, false, List, [], ◌∷◌, ◌++◌, Option, none,
  some, String, arith, In, any, leb, leb→le, ◌≤◌, ◌==◌, string_eq, Bool-cases, Option-cases,
  if◌then◌else◌,
}
use ztunnel.Common.Map
use ztunnel.Common.Map.{get-insert, get-remove}
use ztunnel.Net.{IpAddr, NetworkAddress, addr_beq, addr_eq, addr_beq_iff}
use ztunnel.Workload.{
  Workload, WorkloadByAddr, single, many, insert_at, without_uid, settle, remove_uid, get_at,
  max_by_rank, rank,
}
use ztunnel.Workload.Index.{
  WorkloadStore, new, Addresses, network_addr, add_at, add_addresses, drop_at, drop_addresses,
  addresses_of, remove, insert, find_address, find_uid,
}

abbrev pub entries : Option WorkloadByAddr → List Workload
entries none = []
entries (some (single w)) = w ∷ []
entries (some (many ws)) = ws

-- The Workloads that are listed at an address.
abbrev pub listed : NetworkAddress → Addresses → List Workload
listed k m = entries (Map.get k m)

abbrev pub has_address : List IpAddr → Workload → NetworkAddress → Bool
has_address ips w k = any (λ ip. addr_beq (network_addr w.network ip) k) ips

-- The Workload is reached by the address: it is not on the host's network.
abbrev pub owns : Workload → NetworkAddress → Bool
owns w k = has_address (addresses_of w) w k

settle-entries :
    (xs : List Workload)
    → (((settle xs).1 ≡ true) × (xs ≡ []))
      ⊎ (((settle xs).1 ≡ false) × (entries (some (settle xs).0) ≡ xs))
settle-entries [] = inl (refl, refl)
settle-entries (x ∷ []) = inr (refl, refl)
settle-entries (x ∷ y ∷ xs) = inr (refl, refl)

remove_uid-entries :
    (uid : String) (ws : WorkloadByAddr)
    → (((remove_uid uid ws).1 ≡ true) × (without_uid uid (entries (some ws)) ≡ []))
      ⊎ (((remove_uid uid ws).1 ≡ false)
          × (entries (some (remove_uid uid ws).0) ≡ without_uid uid (entries (some ws))))
remove_uid-entries uid (single w) = ground arith
remove_uid-entries uid (many ws) = settle-entries (without_uid uid ws)

listed-drop_at :
    (k j : NetworkAddress) (uid : String) (m : Addresses)
    → listed j (drop_at k uid m)
      ≡ (if addr_beq k j then without_uid uid (listed j m) else listed j m)
unfolding drop_at
listed-drop_at k j uid m = elim (Option-cases (Map.get k m)) [
  | inl e ↦ ground (arith, addr_beq_iff k j)
  | inr (ws, e) ↦ ground (
    arith,
    addr_beq_iff k j,
    remove_uid-entries uid ws,
    get-remove k j m,
    get-insert k j (remove_uid uid ws).0 m,
  )
]

listed-add_at :
    (k j : NetworkAddress) (w : Workload) (m : Addresses)
    → listed j (add_at k w m) ≡ (if addr_beq k j then listed j m ++ (w ∷ []) else listed j m)
unfolding add_at
listed-add_at k j w m = go (Map.get k m) refl
  where
    go :
        (o : Option WorkloadByAddr)
        → Map.get k m ≡ o
        → listed j (add_at k w m) ≡ (if addr_beq k j then listed j m ++ (w ∷ []) else listed j m)
    go none e = ground (arith, addr_beq_iff k j, get-insert k j (single w) m)
    go (some (single v)) e = ground (arith, addr_beq_iff k j, get-insert k j (many (v ∷ w ∷ [])) m)
    go (some (many vs)) e =
        ground (arith, addr_beq_iff k j, get-insert k j (many (vs ++ (w ∷ []))) m)

without_uid_idem :
    (uid : String) (ws : List Workload) → without_uid uid (without_uid uid ws) ≡ without_uid uid ws
without_uid_idem uid [] = refl
without_uid_idem uid (w ∷ ws) = ground (arith, without_uid_idem uid ws)

listed-drop_addresses :
    (ips : List IpAddr) (w : Workload) (j : NetworkAddress) (m : Addresses)
    → listed j (drop_addresses ips w m)
      ≡ (if has_address ips w j then without_uid w.uid (listed j m) else listed j m)
unfolding drop_addresses
listed-drop_addresses [] w j m = refl
listed-drop_addresses (ip ∷ ips) w j m = ground (
  arith,
  listed-drop_addresses ips w j (drop_at (network_addr w.network ip) w.uid m),
  listed-drop_at (network_addr w.network ip) j w.uid m,
  without_uid_idem w.uid (listed j m),
)

In-concat : (x w : Workload) (xs : List Workload) → In x (xs ++ (w ∷ [])) ↔ (In x xs ⊎ (x ≡ w))
In-concat x w [] = ground arith
In-concat x w (y ∷ ys) = ground (arith, In-concat x w ys)

In-add_at :
    (k j : NetworkAddress) (w x : Workload) (m : Addresses)
    → In x (listed j (add_at k w m)) ↔ (In x (listed j m) ⊎ (x ≡ w) × (addr_beq k j ≡ true))
In-add_at k j w x m = elim (Bool-cases (addr_beq k j)) [
  | inl hit ↦ rw (listed-add_at k j w m, hit) (ground (arith, In-concat x w (listed j m)))
  | inr miss ↦ rw (listed-add_at k j w m, miss) (ground arith)
]

-- What a Workload's insertion adds at an address, once for each time it gives the address.
In-add_addresses :
    (ips : List IpAddr) (w x : Workload) (j : NetworkAddress) (m : Addresses)
    → In x (listed j (add_addresses ips w m))
      ↔ (In x (listed j m) ⊎ (x ≡ w) × (has_address ips w j ≡ true))
unfolding add_addresses
In-add_addresses [] w x j m = ground arith
In-add_addresses (ip ∷ ips) w x j m =
    let ih = In-add_addresses ips w x j (add_at (network_addr w.network ip) w m) in
    let here = In-add_at (network_addr w.network ip) j w x m in ground (arith, ih, here)

In-without_uid :
    (uid : String) (x : Workload) (ws : List Workload)
    → In x (without_uid uid ws) ↔ (In x ws × (x.uid ≢ uid))
In-without_uid uid x [] = ground arith
In-without_uid uid x (w ∷ ws) = elim (Bool-cases (w.uid == uid)) [
  | inl same ↦ rw same (ground (arith, In-without_uid uid x ws, eq_iff w.uid uid))
  | inr other ↦ rw other (ground (arith, In-without_uid uid x ws, eq_iff w.uid uid))
]

-- The Workloads listed at an address are exactly the stored ones that it reaches, under their UIDs;
-- and no address has an empty list.
pub record IsIndexed (s : WorkloadStore) : Type 0 where
  pub sound :
      (k : NetworkAddress) (w : Workload)
      → In w (listed k s.by_addr)
      → (find_uid w.uid s ≡ some w) × (owns w k ≡ true)
  pub complete :
      (k : NetworkAddress) (uid : String) (w : Workload)
      → find_uid uid s ≡ some w
      → owns w k ≡ true
      → In w (listed k s.by_addr)
  pub named : (uid : String) (w : Workload) → find_uid uid s ≡ some w → w.uid ≡ uid
  pub inhabited :
      (k : NetworkAddress) (ws : WorkloadByAddr)
      → Map.get k s.by_addr ≡ some ws
      → entries (some ws) ≢ []

pub new-IsIndexed : (n : Option String) → IsIndexed (new n)
unfolding Map.get
new-IsIndexed n = record {
  sound = λ k w h. elim h [ ];
  complete = λ k uid w h o. cc;
  named = λ uid w h. cc;
  inhabited = λ k ws h. cc;
}

-- Within a store that is indexed, removal takes the Workload out wherever it is listed.
listed-remove :
    (uid : String) (s : WorkloadStore) (prev x : Workload) (k : NetworkAddress)
    → IsIndexed s
    → find_uid uid s ≡ some prev
    → In x (listed k (remove uid s).0.by_addr) ↔ (In x (listed k s.by_addr) × (x.uid ≢ uid))
unfolding remove
listed-remove uid s prev x k c e =
    let same : prev.uid ≡ uid = c.named uid prev e in
    let dropped = listed-drop_addresses (addresses_of prev) prev k s.by_addr in
    elim (Bool-cases (owns prev k)) [
      | inl owned ↦
          rw (e, remove, dropped, owned)
            (ground (arith, In-without_uid prev.uid x (listed k s.by_addr)))
      | inr free ↦
          rw (e, remove, dropped, free) ((λ h. (h, λ q. ground (arith, c.sound k x h))), (λ h. h.0))
    ]

abbrev IsInhabited : Addresses → Type 0
IsInhabited m =
    (k : NetworkAddress) (ws : WorkloadByAddr) → Map.get k m ≡ some ws → entries (some ws) ≢ []

drop_at-IsInhabited :
    (j : NetworkAddress) (uid : String) (m : Addresses)
    → IsInhabited m
    → IsInhabited (drop_at j uid m)
unfolding drop_at
drop_at-IsInhabited j uid m c k ws = elim (Option-cases (Map.get j m)) [
  | inl e ↦ rw (e, drop_at) (c k ws)
  | inr (old, e) ↦ λ h q. ground (
    arith,
    remove_uid-entries uid old,
    get-remove j k m,
    get-insert j k (remove_uid uid old).0 m,
    c k ws,
  )
]

insert_at-ne-nil : (w : Workload) (ws : WorkloadByAddr) → entries (some (insert_at w ws)) ≢ []
insert_at-ne-nil w (single v) = λ e. cc
insert_at-ne-nil w (many []) = λ e. cc
insert_at-ne-nil w (many (v ∷ vs)) = λ e. cc

add_at-IsInhabited :
    (j : NetworkAddress) (w : Workload) (m : Addresses) → IsInhabited m → IsInhabited (add_at j w m)
unfolding add_at
add_at-IsInhabited j w m c k ws = elim (Option-cases (Map.get j m)) [
  | inl e ↦ λ h q. ground (arith, get-insert j k (single w) m, c k ws)
  | inr (old, e) ↦
      λ h q. ground (arith, insert_at-ne-nil w old, get-insert j k (insert_at w old) m, c k ws)
]

drop_addresses-IsInhabited :
    (ips : List IpAddr) (w : Workload) (m : Addresses)
    → IsInhabited m
    → IsInhabited (drop_addresses ips w m)
unfolding drop_addresses
drop_addresses-IsInhabited [] w m c = c
drop_addresses-IsInhabited (ip ∷ ips) w m c =
    drop_addresses-IsInhabited ips w _ (drop_at-IsInhabited (network_addr w.network ip) w.uid m c)

add_addresses-IsInhabited :
    (ips : List IpAddr) (w : Workload) (m : Addresses)
    → IsInhabited m
    → IsInhabited (add_addresses ips w m)
unfolding add_addresses
add_addresses-IsInhabited [] w m c = c
add_addresses-IsInhabited (ip ∷ ips) w m c =
    add_addresses-IsInhabited ips w _ (add_at-IsInhabited (network_addr w.network ip) w m c)

pub find_uid-remove :
    (uid u : String) (s : WorkloadStore)
    → find_uid u (remove uid s).0 ≡ (if uid == u then none else find_uid u s)
unfolding remove
find_uid-remove uid u s = elim (Option-cases (find_uid uid s)) [
  | inl e ↦ ground (arith, eq_iff uid u)
  | inr (prev, e) ↦ rw (e, remove) (get-remove uid u s.by_uid)
]

remove-absent : (uid : String) (s : WorkloadStore) → find_uid uid s ≡ none → (remove uid s).0 ≡ s
unfolding remove
remove-absent uid s e = rw (e, remove)

remove-IsInhabited :
    (uid : String) (s : WorkloadStore)
    → IsInhabited s.by_addr
    → IsInhabited (remove uid s).0.by_addr
unfolding remove
remove-IsInhabited uid s c = elim (Option-cases (find_uid uid s)) [
  | inl e ↦ rw (e, remove) c
  | inr (prev, e) ↦ rw (e, remove) (drop_addresses-IsInhabited (addresses_of prev) prev s.by_addr c)
]

-- Removal, of a Workload that is stored or not, keeps the index by address exact.
pub remove-IsIndexed : (uid : String) (s : WorkloadStore) → IsIndexed s → IsIndexed (remove uid s).0
remove-IsIndexed uid s c = elim (Option-cases (find_uid uid s)) [
  | inl e ↦ rw (remove-absent uid s e) c
  | inr (prev, e) ↦ record {
    sound = λ k w h.
        let (old, apart) = (listed-remove uid s prev w k c e).0 h in
        let (f, o) = c.sound k w old in
        (ground (arith, find_uid-remove uid w.uid s, eq_iff uid w.uid), o);
    complete = λ k u w f o.
        let kept : find_uid u s ≡ some w = ground (arith, find_uid-remove uid u s) in
        let same : w.uid ≡ u = c.named u w kept in
        (listed-remove uid s prev w k c e).1
          (c.complete k u w kept o, λ q. ground (arith, find_uid-remove uid u s, eq_iff uid u));
    named = λ u w f. c.named u w (ground (arith, find_uid-remove uid u s));
    inhabited = remove-IsInhabited uid s c.inhabited;
  }
]

-- Insertion, of a new Workload or over the one of that UID, keeps the index by address exact: an
-- address lists the stored Workloads that it reaches and no others.
pub insert-IsIndexed : (w : Workload) (s : WorkloadStore) → IsIndexed s → IsIndexed (insert w s)
unfolding insert
insert-IsIndexed w s c = record {
  sound = λ k x h. elim ((In-add_addresses (addresses_of w) w x k cleaned.by_addr).0 h) [
    | inl old ↦
        let (f, o) = clean.sound k x old in
        (ground (arith, get-insert w.uid x.uid w cleaned.by_uid, gone, eq_iff w.uid x.uid), o)
    | inr (e, o) ↦ ground (arith, get-insert w.uid x.uid w cleaned.by_uid, eq_iff w.uid x.uid)
  ];
  complete = λ k u x f o.
      (In-add_addresses (addresses_of w) w x k cleaned.by_addr).1
        (ground (arith, get-insert w.uid u w cleaned.by_uid, clean.complete k u x));
  named =
      λ u x f. ground (arith, get-insert w.uid u w cleaned.by_uid, clean.named u x, eq_iff w.uid u);
  inhabited = add_addresses-IsInhabited (addresses_of w) w cleaned.by_addr clean.inhabited;
}
  where
    cleaned : WorkloadStore
    cleaned = (remove w.uid s).0

    clean : IsIndexed cleaned
    clean = remove-IsIndexed w.uid s c

    gone : find_uid w.uid cleaned ≡ none
    gone = ground (arith, find_uid-remove w.uid w.uid s, eq_iff w.uid w.uid)

max_by_rank-In : (best : Workload) (ws : List Workload) → In (max_by_rank best ws) (best ∷ ws)
unfolding max_by_rank
max_by_rank-In best [] = inl refl
max_by_rank-In best (w ∷ ws) = ground (arith, max_by_rank-In best ws, max_by_rank-In w ws)

max_by_rank-le :
    (best : Workload) (ws : List Workload)
    → (rank best ≤ rank (max_by_rank best ws))
      × ((x : Workload) → In x ws → rank x ≤ rank (max_by_rank best ws))
unfolding max_by_rank
max_by_rank-le best [] = (omega arith, λ x h. elim h [ ])
max_by_rank-le best (w ∷ ws) = elim (Bool-cases (leb (rank best) (rank w))) [
  | inl up ↦
      let (b, l) = max_by_rank-le w ws in
      let step = leb→le (rank best) (rank w) up in
      rw (up, max_by_rank) (omega arith, λ x h. elim h [ inl e ↦ rw e b | inr later ↦ l x later ])
  | inr down ↦
      let (b, l) = max_by_rank-le best ws in
      let step : rank w ≤ rank best = ground arith in
      rw (down, max_by_rank)
        (b, λ x h. elim h [ inl e ↦ rw e (omega arith) | inr later ↦ l x later ])
]

get_at-In :
    (ws : WorkloadByAddr) (w : Workload)
    → get_at ws ≡ some w
    → In w (entries (some ws)) × ((x : Workload) → In x (entries (some ws)) → rank x ≤ rank w)
get_at-In (single v) w h = (inl (ground arith), λ x e. ground arith)
get_at-In (many []) w h = cc
get_at-In (many (v ∷ vs)) w h =
    let same : max_by_rank v vs ≡ w = ground arith in
    let highest = max_by_rank-le v vs in
    (
      subst (λ t. In t (v ∷ vs)) same (max_by_rank-In v vs),
      subst (λ t. (x : Workload) → In x (v ∷ vs) → rank x ≤ rank t) same
          (λ x e. elim e [ inl here ↦ rw here highest.0 | inr later ↦ highest.1 x later ]),
    )

get_at-none : (ws : WorkloadByAddr) → get_at ws ≡ none → entries (some ws) ≡ []
get_at-none (single v) h = cc
get_at-none (many []) h = refl
get_at-none (many (v ∷ vs)) h = cc

-- In an indexed store, the Workload found by an address is stored, is reached by the address, and
-- ranks highest among the stored ones that are; and none is found only if there is none.
pub find_address_lem :
    (k : NetworkAddress) (s : WorkloadStore)
    → IsIndexed s
    → ((find_address k s ≡ none)
        × ((uid : String) (x : Workload) → find_uid uid s ≡ some x → owns x k ≡ false))
      ⊎ ((w : Workload) × (find_address k s ≡ some w)
          × (find_uid w.uid s ≡ some w)
          × (owns w k ≡ true)
          × ((uid : String) (x : Workload)
              → find_uid uid s ≡ some x
              → owns x k ≡ true
              → rank x ≤ rank w))
unfolding find_address
find_address_lem k s c = go (Map.get k s.by_addr) refl
  where
    go :
        (o : Option WorkloadByAddr)
        → Map.get k s.by_addr ≡ o
        → ((find_address k s ≡ none)
            × ((uid : String) (x : Workload) → find_uid uid s ≡ some x → owns x k ≡ false))
          ⊎ ((w : Workload) × (find_address k s ≡ some w)
              × (find_uid w.uid s ≡ some w)
              × (owns w k ≡ true)
              × ((uid : String) (x : Workload)
                  → find_uid uid s ≡ some x
                  → owns x k ≡ true
                  → rank x ≤ rank w))
    go none e = inl (
      rw (e, find_address),
      λ u x f. elim (Bool-cases (owns x k)) [
        | inl o ↦ absurd (rw e at (c.complete k u x f o))
        | inr o ↦ o
      ],
    )
    go (some ws) e = elim (Option-cases (get_at ws)) [
      | inl n ↦ absurd (c.inhabited k ws e (get_at-none ws n))
      | inr (w, g) ↦
          let (member, highest) = get_at-In ws w g in
          let (f, o) = c.sound k w (rw e member) in
          inr (
            w,
            rw (e, find_address) g,
            f,
            o,
            λ u x f' o'. highest x (rw e at (c.complete k u x f' o')),
          )
    ]

pub find_uid-insert :
    (w : Workload) (k : String) (s : WorkloadStore)
    → find_uid k (insert w s) ≡ (if w.uid == k then some w else find_uid k s)
unfolding insert
find_uid-insert w k s = ground (
  arith,
  get-insert w.uid k w (remove w.uid s).0.by_uid,
  find_uid-remove k w.uid s,
  find_uid-remove w.uid k s,
)

pub remove_absent :
    (uid : String) (s : WorkloadStore) → (remove uid s).1 ≡ none → (remove uid s).0 ≡ s
unfolding remove
remove_absent uid s h = ground (arith, h)
