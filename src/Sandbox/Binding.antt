-- ===== src/Sandbox/Binding.antt =====
-- The index by Workload agrees with the attesters of the stored Sandboxes.
use text.Mathlib.TextEquality.{eq_iff}
use ztunnel.Common.{
  ◌≡◌, refl, sym, subst, ◌↔◌, inl, inr, Bool, true, false, not, ◌&&◌, ◌||◌, List, [], ◌∷◌, ◌++◌,
  Option, none, some, String, arith, In, contains, is_empty, retain, filter_map, ◌==◌, string_eq,
  option_beq, option_beq_iff, Bool-cases, Option-cases, if◌then◌else◌,
}
use ztunnel.Common.Map
use ztunnel.Common.Map.{get-insert, get-remove}
use ztunnel.Common.Outcome.{Result, ok, err}
use ztunnel.Net.{IpNetApi}
use ztunnel.Sandbox.{
  Sandbox, SandboxStore, SandboxError, XdsSandboxResource, new, remove_workload_binding,
  push_binding, unbind, bind, workload_of, or_empty, insert, update, remove, get, sandbox_of,
  get_by_workload,
}

-- The Sandbox IDs that are listed for a Workload.
abbrev pub bindings : String → SandboxStore → List String
bindings w s = or_empty (Map.get w s.by_workload)

abbrev other_than : String → String → Bool
other_than id i = not (i == id)

contains-retain :
    (id j : String) (xs : List String)
    → contains (retain (other_than id) xs) j ≡ contains xs j && not (id == j)
contains-retain id j [] = refl
contains-retain id j (x ∷ xs) =
    ground (arith, contains-retain id j xs, eq_iff x id, eq_iff x j, eq_iff id j)

contains-concat :
    (id j : String) (xs : List String) → contains (xs ++ (id ∷ [])) j ≡ contains xs j || (id == j)
contains-concat id j [] = ground arith
contains-concat id j (x ∷ xs) = ground (arith, contains-concat id j xs)

or_empty-keep : (xs : List String) → xs ≡ or_empty (if is_empty xs then none else some xs)
or_empty-keep [] = refl
or_empty-keep (x ∷ xs) = refl

bindings-remove_workload_binding :
    (w u id : String) (s : SandboxStore)
    → bindings w (remove_workload_binding u id s)
      ≡ (if u == w then retain (other_than id) (bindings w s) else bindings w s)
unfolding remove_workload_binding
bindings-remove_workload_binding w u id s = elim (Option-cases (Map.get u s.by_workload)) [
  | inl e ↦ ground (arith, eq_iff u w)
  | inr (ids, e) ↦ ground (
    arith,
    eq_iff u w,
    or_empty-keep (retain (other_than id) ids),
    get-remove u w s.by_workload,
    get-insert u w (retain (other_than id) ids) s.by_workload,
  )
]

bindings-push_binding :
    (w u id : String) (s : SandboxStore)
    → bindings w (push_binding u id s)
      ≡ (if u == w then bindings w s ++ (id ∷ []) else bindings w s)
unfolding push_binding
bindings-push_binding w u id s =
    ground (arith, eq_iff u w, get-insert u w (bindings u s ++ (id ∷ [])) s.by_workload)

resources-bind :
    (u : Option String) (id : String) (s : SandboxStore) → (bind u id s).resources ≡ s.resources
unfolding push_binding
resources-bind none id s = refl
resources-bind (some u) id s = refl

resources-unbind :
    (u : Option String) (id : String) (s : SandboxStore) → (unbind u id s).resources ≡ s.resources
unfolding remove_workload_binding
resources-unbind none id s = refl
resources-unbind (some u) id s = ground arith

-- What an insertion does to the list of a Workload, in terms of the attesters before and after.
abbrev rebound : Option String → Option String → String → String → List String → List String
rebound before after id w xs =
    if option_beq before after
    then xs
    else let kept = if option_beq before (some w) then retain (other_than id) xs else xs in
      if option_beq after (some w) then kept ++ (id ∷ []) else kept

bindings-bind-unbind :
    (before after : Option String) (id w : String) (s : SandboxStore)
    → option_beq before after ≡ false
    → bindings w (bind after id (unbind before id s)) ≡ rebound before after id w (bindings w s)
bindings-bind-unbind none none id w s h = cc
bindings-bind-unbind none (some a) id w s h = ground (arith, bindings-push_binding w a id s)
bindings-bind-unbind (some b) none id w s h =
    ground (arith, bindings-remove_workload_binding w b id s)
bindings-bind-unbind (some b) (some a) id w s h = ground (
  arith,
  bindings-push_binding w a id (remove_workload_binding b id s),
  bindings-remove_workload_binding w b id s,
)

pub bindings-insert :
    (sandbox : Sandbox) (w : String) (s : SandboxStore)
    → bindings w (insert sandbox s).0
      ≡ rebound (workload_of (get sandbox.uid s)) sandbox.workload_uid sandbox.uid w (bindings w s)
unfolding insert
bindings-insert sandbox w s =
    let stored = record s { resources = Map.insert sandbox.uid sandbox s.resources } in
    let before = workload_of (get sandbox.uid s) in
    elim (Bool-cases (option_beq before sandbox.workload_uid)) [
      | inl same ↦ rw same
      | inr moved ↦
          let e = bindings-bind-unbind before sandbox.workload_uid sandbox.uid w stored moved in
          ground (arith, e)
    ]

get-insert_lem :
    (sandbox : Sandbox) (id : String) (s : SandboxStore)
    → get id (insert sandbox s).0 ≡ (if sandbox.uid == id then some sandbox else get id s)
unfolding insert
get-insert_lem sandbox id s =
    let stored = record s { resources = Map.insert sandbox.uid sandbox s.resources } in
    let before = workload_of (get sandbox.uid s) in
    ground (
      arith,
      get-insert sandbox.uid id sandbox s.resources,
      resources-bind sandbox.workload_uid sandbox.uid (unbind before sandbox.uid stored),
      resources-unbind before sandbox.uid stored,
    )

abbrev pub IsDistinct : List String → Type 0
IsDistinct [] = Unit
IsDistinct (x ∷ xs) = (contains xs x ≡ false) × IsDistinct xs

IsDistinct-retain :
    (id : String) (xs : List String) → IsDistinct xs → IsDistinct (retain (other_than id) xs)
IsDistinct-retain id [] d = tt
IsDistinct-retain id (x ∷ xs) d =
    ground (arith, IsDistinct-retain id xs d.1, contains-retain id x xs)

IsDistinct-concat :
    (id : String) (xs : List String)
    → contains xs id ≡ false
    → IsDistinct xs
    → IsDistinct (xs ++ (id ∷ []))
IsDistinct-concat id [] h d = (refl, tt)
IsDistinct-concat id (x ∷ xs) h d =
    ground (arith, IsDistinct-concat id xs, contains-concat id x xs, eq_iff id x, eq_iff x id)

-- The index holds exactly the bindings of the stored Sandboxes, each once; a Sandbox is stored under
-- its UID.
pub record IsConsistent (s : SandboxStore) : Type 0 where
  pub agrees :
      (w id : String) → contains (bindings w s) id ≡ option_beq (workload_of (get id s)) (some w)
  pub named : (id : String) (sandbox : Sandbox) → get id s ≡ some sandbox → sandbox.uid ≡ id
  pub distinct : (w : String) → IsDistinct (bindings w s)

pub new-IsConsistent : IsConsistent new
unfolding Map.get
new-IsConsistent = record { agrees = λ w id. refl; named = λ id sandbox h. cc; distinct = λ w. tt }

contains-rebound :
    (before after : Option String) (id w j : String) (xs : List String)
    → (contains xs id ≡ option_beq before (some w))
    → contains (rebound before after id w xs) j
      ≡ (if id == j then option_beq after (some w) else contains xs j)
contains-rebound before after id w j xs h = ground (
  arith,
  contains-retain id j xs,
  contains-concat id j xs,
  contains-concat id j (retain (other_than id) xs),
  option_beq_iff before after,
  option_beq_iff before (some w),
  option_beq_iff after (some w),
  eq_iff id j,
)

IsDistinct-rebound :
    (before after : Option String) (id w : String) (xs : List String)
    → (contains xs id ≡ option_beq before (some w))
    → IsDistinct xs
    → IsDistinct (rebound before after id w xs)
IsDistinct-rebound before after id w xs h d = ground (
  arith,
  IsDistinct-retain id xs d,
  IsDistinct-concat id xs,
  IsDistinct-concat id (retain (other_than id) xs),
  contains-retain id id xs,
  eq_iff id id,
  option_beq_iff before after,
  option_beq_iff before (some w),
  option_beq_iff after (some w),
)

insert-IsConsistent :
    (sandbox : Sandbox) (s : SandboxStore) → IsConsistent s → IsConsistent (insert sandbox s).0
insert-IsConsistent sandbox s c = record {
  agrees = λ w id. ground (
    arith,
    bindings-insert sandbox w s,
    contains-rebound (workload_of (get sandbox.uid s)) sandbox.workload_uid sandbox.uid w id
        (bindings w s),
    c.agrees w sandbox.uid,
    c.agrees w id,
    get-insert_lem sandbox id s,
    eq_iff sandbox.uid id,
  );
  named = λ id other h.
      ground (arith, get-insert_lem sandbox id s, c.named id other, eq_iff sandbox.uid id);
  distinct = λ w. rw (bindings-insert sandbox w s) (
      IsDistinct-rebound (workload_of (get sandbox.uid s)) sandbox.workload_uid sandbox.uid w
        (bindings w s) (c.agrees w sandbox.uid) (c.distinct w));
}

bindings-unbind :
    (u : Option String) (id w : String) (s : SandboxStore)
    → bindings w (unbind u id s)
      ≡ (if option_beq u (some w) then retain (other_than id) (bindings w s) else bindings w s)
bindings-unbind none id w s = refl
bindings-unbind (some u) id w s = bindings-remove_workload_binding w u id s

remove_stored-IsConsistent :
    (name : String) (previous : Sandbox) (s : SandboxStore)
    → get name s ≡ some previous
    → IsConsistent s
    → IsConsistent
        (unbind previous.workload_uid name (record s { resources = Map.remove name s.resources }))
remove_stored-IsConsistent name previous s e c = record {
  agrees = λ w id. ground (
    arith,
    bindings-unbind previous.workload_uid name w stored,
    contains-retain name id (bindings w s),
    c.agrees w id,
    c.agrees w name,
    resources-unbind previous.workload_uid name stored,
    get-remove name id s.resources,
    option_beq_iff previous.workload_uid (some w),
    eq_iff name id,
  );
  named = λ id other h. ground (
    arith,
    resources-unbind previous.workload_uid name stored,
    get-remove name id s.resources,
    c.named id other,
  );
  distinct = λ w. ground (
    arith,
    bindings-unbind previous.workload_uid name w stored,
    IsDistinct-retain name (bindings w s) (c.distinct w),
    c.distinct w,
  );
}
  where
    stored : SandboxStore
    stored = record s { resources = Map.remove name s.resources }

-- A removal from a consistent store, of a Sandbox that is there or not, keeps the index of bindings in
-- agreement with the attesters of the stored Sandboxes.
pub remove-IsConsistent :
    (name : String) (s : SandboxStore) → IsConsistent s → IsConsistent (remove name s).0
unfolding remove
remove-IsConsistent name s c = elim (Option-cases (get name s)) [
  | inl e ↦ rw (e, remove) c
  | inr (previous, e) ↦ rw (e, remove) (remove_stored-IsConsistent name previous s e c)
]

-- An update of a consistent store keeps the index of bindings in agreement with the attesters of the stored Sandboxes,
-- whether the resource is accepted or not.
pub update-IsConsistent :
    (net : IpNetApi) (u : XdsSandboxResource) (s : SandboxStore)
    → IsConsistent s
    → IsConsistent (update net u s).0
unfolding update
update-IsConsistent net u s c = elim (Bool-cases (u.resource.uid == u.name)) [
  | inl named ↦ go (sandbox_of net u.resource) refl
  | inr other ↦ rw other c
]
  where
    go :
        (r : Result SandboxError Sandbox)
        → sandbox_of net u.resource ≡ r
        → IsConsistent (update net u s).0
    go (err e) q = ground (arith, c)
    go (ok sandbox) q = ground (arith, c, insert-IsConsistent sandbox s c)

In-filter_map_cons :
    (f : String → Option Sandbox) (sandbox found : Sandbox) (x : String) (xs : List String)
    → f x ≡ some found
    → (In sandbox (filter_map f xs)
        → (id : String) × (contains xs id ≡ true) × (f id ≡ some sandbox))
    → In sandbox (filter_map f (x ∷ xs))
    → (id : String) × (contains (x ∷ xs) id ≡ true) × (f id ≡ some sandbox)
In-filter_map_cons f sandbox found x xs e ih h = elim (rw (e, filter_map) at h) [
  | inl here ↦ (x, ground (arith, eq_iff x x), ground arith)
  | inr later ↦ let (id, m, g) = ih later in (id, ground arith, g)
]

In-filter_map :
    (f : String → Option Sandbox) (sandbox : Sandbox) (ids : List String)
    → In sandbox (filter_map f ids)
    → (id : String) × (contains ids id ≡ true) × (f id ≡ some sandbox)
In-filter_map f sandbox [] h = elim h [ ]
In-filter_map f sandbox (x ∷ xs) h = elim (Option-cases (f x)) [
  | inl e ↦ let (id, m, g) = In-filter_map f sandbox xs (ground (arith, h)) in (id, ground arith, g)
  | inr (found, e) ↦ In-filter_map_cons f sandbox found x xs e (In-filter_map f sandbox xs) h
]

In-filter_map_of :
    (f : String → Option Sandbox) (sandbox : Sandbox) (id : String) (ids : List String)
    → contains ids id ≡ true
    → f id ≡ some sandbox
    → In sandbox (filter_map f ids)
In-filter_map_of f sandbox id [] m e = absurd (ground arith)
In-filter_map_of f sandbox id (x ∷ xs) m e =
    ground (arith, In-filter_map_of f sandbox id xs, eq_iff x id)

-- In a consistent store, the Sandboxes of a Workload are exactly the stored ones that it attests.
pub get_by_workload_iff :
    (w : String) (sandbox : Sandbox) (s : SandboxStore)
    → IsConsistent s
    → In sandbox (get_by_workload w s)
      ↔ ((get sandbox.uid s ≡ some sandbox) × (sandbox.workload_uid ≡ some w))
unfolding get_by_workload
get_by_workload_iff w sandbox s c = (
  λ h.
      let (id, m, e) = In-filter_map (λ i. get i s) sandbox (bindings w s) h in
      let same : sandbox.uid ≡ id = c.named id sandbox e in
      (
        subst (λ i. get i s ≡ some sandbox) (sym same) e,
        ground (arith, c.agrees w id, option_beq_iff sandbox.workload_uid (some w)),
      ),
  λ h.
      In-filter_map_of (λ i. get i s) sandbox sandbox.uid (bindings w s)
        (ground (arith, h, c.agrees w sandbox.uid, option_beq_iff sandbox.workload_uid (some w)))
        h.0,
)
