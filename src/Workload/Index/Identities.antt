-- ===== src/Workload/Index/Identities.antt =====
-- The index of the local node's Workloads by identity agrees with the stored Workloads.
use text.Mathlib.TextEquality.{eq_iff}
use ztunnel.Common.{
  ◌≡◌, refl, ◌↔◌, inl, inr, Bool, true, false, not, ◌&&◌, ◌||◌, List, [], ◌∷◌, ◌++◌, Option, none,
  some, String, arith, contains, is_empty, retain, ◌==◌, string_eq, Bool-cases, Option-cases,
}
use ztunnel.Common.Map
use ztunnel.Common.Map.{Map, get-insert, get-remove}
use ztunnel.Net.{Identity}
use ztunnel.Workload.{
  Workload, WorkloadIdentity, identity, identity_eq, identity_beq, identity_beq_iff,
  workload_identity,
}
use ztunnel.Workload.Index.{
  WorkloadStore, new, or_empty, add_identity, drop_identity, is_local, remove, insert, find_uid,
  was_last_identity_on_node,
}

abbrev Identities : Type 0
Identities = Map WorkloadIdentity (List String)

-- The UIDs that are listed for an identity.
abbrev pub uids_of : WorkloadIdentity → Identities → List String
uids_of i m = or_empty (Map.get i m)

-- A stored Workload of the local node that has the identity.
abbrev pub is_at : WorkloadIdentity → Option String → Option Workload → Bool
is_at i n none = false
is_at i n (some w) = is_local n w.node && identity_beq (workload_identity (identity w)) i

abbrev other_than : String → String → Bool
other_than id i = not (i == id)

contains-retain :
    (id j : String) (xs : List String)
    → contains (retain (other_than id) xs) j ≡ contains xs j && not (id == j)
contains-retain id j [] = refl
contains-retain id j (x ∷ xs) =
    ground (arith, contains-retain id j xs, eq_iff x id, eq_iff x j, eq_iff id j)

contains-concat :
    (id j : String) (xs : List String) → contains (xs ++ (id ∷ [])) j ≡ contains xs j || (id == j)
contains-concat id j [] = ground arith
contains-concat id j (x ∷ xs) = ground (arith, contains-concat id j xs)

contains-is_empty : (xs : List String) (j : String) → is_empty xs ≡ true → contains xs j ≡ false
contains-is_empty [] j h = refl
contains-is_empty (x ∷ xs) j h = cc

contains-drop_identity :
    (i k : WorkloadIdentity) (uid j : String) (m : Identities)
    → contains (uids_of k (drop_identity i uid m)) j
      ≡ contains (uids_of k m) j && not (identity_beq i k && uid == j)
unfolding drop_identity
contains-drop_identity i k uid j m = elim (Option-cases (Map.get i m)) [
  | inl e ↦ ground (arith, identity_beq_iff i k)
  | inr (set, e) ↦ ground (
    arith,
    identity_beq_iff i k,
    contains-retain uid j set,
    contains-is_empty (retain (other_than uid) set) j,
    get-remove i k m,
    get-insert i k (retain (other_than uid) set) m,
  )
]

contains-add_identity :
    (i k : WorkloadIdentity) (uid j : String) (m : Identities)
    → contains (uids_of k (add_identity i uid m)) j
      ≡ contains (uids_of k m) j || (identity_beq i k && uid == j)
unfolding add_identity
contains-add_identity i k uid j m = elim (Bool-cases (contains (uids_of i m) uid)) [
  | inl old ↦ ground (arith, identity_beq_iff i k, eq_iff uid j, get-insert i k (uids_of i m) m)
  | inr fresh ↦ ground (
    arith,
    identity_beq_iff i k,
    contains-concat uid j (uids_of i m),
    get-insert i k (uids_of i m ++ (uid ∷ [])) m,
  )
]

abbrev IsInhabited : Identities → Type 0
IsInhabited m =
    (i : WorkloadIdentity) (us : List String) → Map.get i m ≡ some us → is_empty us ≡ false

drop_identity-IsInhabited :
    (i : WorkloadIdentity) (uid : String) (m : Identities)
    → IsInhabited m
    → IsInhabited (drop_identity i uid m)
unfolding drop_identity
drop_identity-IsInhabited i uid m c k us h = elim (Option-cases (Map.get i m)) [
  | inl e ↦ c k us (rw (e, drop_identity) at h)
  | inr (set, e) ↦
      ground (arith, get-remove i k m, get-insert i k (retain (other_than uid) set) m, c k us, h)
]

is_empty-concat : (xs : List String) (x : String) → is_empty (xs ++ (x ∷ [])) ≡ false
is_empty-concat [] x = refl
is_empty-concat (y ∷ xs) x = refl

add_identity-IsInhabited :
    (i : WorkloadIdentity) (uid : String) (m : Identities)
    → IsInhabited m
    → IsInhabited (add_identity i uid m)
unfolding add_identity
add_identity-IsInhabited i uid m c k us h = elim (Bool-cases (contains (uids_of i m) uid)) [
  | inl old ↦
      ground (arith, get-insert i k (uids_of i m) m, contains-is_empty (uids_of i m) uid, c k us, h)
  | inr fresh ↦ ground (
    arith,
    get-insert i k (uids_of i m ++ (uid ∷ [])) m,
    is_empty-concat (uids_of i m) uid,
    c k us,
    h,
  )
]

-- A UID is listed for an identity exactly when it names a stored Workload of the local node with
-- that identity; no identity has an empty list.
pub record IsLocalIndexed (s : WorkloadStore) : Type 0 where
  pub agrees :
      (i : WorkloadIdentity) (uid : String)
      → contains (uids_of i s.node_local_by_identity) uid ≡ is_at i s.local_node (find_uid uid s)
  pub named : (uid : String) (w : Workload) → find_uid uid s ≡ some w → w.uid ≡ uid
  pub inhabited : IsInhabited s.node_local_by_identity

pub new-IsLocalIndexed : (n : Option String) → IsLocalIndexed (new n)
unfolding Map.get
new-IsLocalIndexed n = record {
  agrees = λ i uid. refl;
  named = λ uid w h. cc;
  inhabited = λ i us h. cc;
}

-- Removal keeps the index of local identities exact.
pub remove-IsLocalIndexed :
    (uid : String) (s : WorkloadStore) → IsLocalIndexed s → IsLocalIndexed (remove uid s).0
unfolding remove
remove-IsLocalIndexed uid s c = elim (Option-cases (find_uid uid s)) [
  | inl e ↦ rw (e, remove) c
  | inr (prev, e) ↦
      rw (e, remove)
        (record {
          agrees = λ i u. ground (
            arith,
            e,
            contains-drop_identity (workload_identity (identity prev)) i prev.uid u
                s.node_local_by_identity,
            c.agrees i u,
            c.named uid prev e,
            get-remove uid u s.by_uid,
            eq_iff uid u,
          );
          named = λ u w h. c.named u w (ground (arith, get-remove uid u s.by_uid, h));
          inhabited =
              drop_identity-IsInhabited (workload_identity (identity prev)) prev.uid
                s.node_local_by_identity c.inhabited;
        })
]

local_node-remove : (uid : String) (s : WorkloadStore) → (remove uid s).0.local_node ≡ s.local_node
unfolding remove
local_node-remove uid s = ground arith

find_uid-remove_self : (uid : String) (s : WorkloadStore) → find_uid uid (remove uid s).0 ≡ none
unfolding remove
find_uid-remove_self uid s = elim (Option-cases (find_uid uid s)) [
  | inl e ↦ rw (e, remove) e
  | inr (prev, e) ↦ rw (e, remove) (ground (arith, get-remove uid uid s.by_uid, eq_iff uid uid))
]

-- Insertion keeps the index of local identities exact: under an identity stand the UIDs of the stored
-- Workloads of the local node that have it, and no identity is left without one.
pub insert-IsLocalIndexed :
    (w : Workload) (s : WorkloadStore) → IsLocalIndexed s → IsLocalIndexed (insert w s)
unfolding insert
insert-IsLocalIndexed w s c = record {
  agrees = λ i u. ground (
    arith,
    local_node-remove w.uid s,
    contains-add_identity (workload_identity (identity w)) i w.uid u cleaned.node_local_by_identity,
    clean.agrees i u,
    find_uid-remove_self w.uid s,
    get-insert w.uid u w cleaned.by_uid,
    eq_iff w.uid u,
  );
  named = λ u x h.
      ground (arith, h, get-insert w.uid u w cleaned.by_uid, clean.named u x, eq_iff w.uid u);
  inhabited = λ i us h. elim (Bool-cases (is_local s.local_node w.node)) [
    | inl yes' ↦
        add_identity-IsInhabited (workload_identity (identity w)) w.uid
          cleaned.node_local_by_identity clean.inhabited i us (ground (arith, h))
    | inr no' ↦ clean.inhabited i us (ground (arith, h))
  ];
}
  where
    cleaned : WorkloadStore
    cleaned = (remove w.uid s).0

    clean : IsLocalIndexed cleaned
    clean = remove-IsLocalIndexed w.uid s c

contains_first : (us : List String) → is_empty us ≡ false → (u : String) × (contains us u ≡ true)
contains_first [] h = absurd (cc h)
contains_first (u ∷ us) h = (u, ground (arith, eq_iff u u))

-- In an indexed store an identity is reported as gone from a node exactly when the node is the local
-- one and no stored Workload of the local node has the namespace and the service account of the
-- identity.
pub was_last_identity_on_node_iff :
    (node : String) (id : Identity) (s : WorkloadStore)
    → IsLocalIndexed s
    → (was_last_identity_on_node node id s ≡ true) ↔ (
        (is_local s.local_node node ≡ true)
        × ((uid : String) → is_at (workload_identity id) s.local_node (find_uid uid s) ≡ false))
unfolding was_last_identity_on_node
was_last_identity_on_node_iff node id s c =
    elim (Option-cases (Map.get (workload_identity id) s.node_local_by_identity)) [
      | inl e ↦ (
        λ h. (ground (arith, h), λ uid. ground (arith, c.agrees (workload_identity id) uid)),
        λ h. ground (arith, h.0),
      )
      | inr (us, e) ↦ (
        λ h. absurd (ground (arith, h)),
        λ h.
            let (u, m) = contains_first us (c.inhabited (workload_identity id) us e) in
            absurd (ground (arith, c.agrees (workload_identity id) u, h.1 u)),
      )
    ]
