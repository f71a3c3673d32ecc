-- ===== src/Inpod/Starts.antt =====
-- What a start or a removal of a Pod's proxy does to the maps of the manager.
use ztunnel.Common.{
  ◌≡◌, refl, sym, ◌∙◌, ◌≢◌, inl, inr, Bool, true, false, Option, none, some, String, arith, ◌==◌,
  string_eq, Bool-cases, Option-cases, nat_beq, if◌then◌else◌,
}
use ztunnel.Common.Map
use ztunnel.Common.Map.{Map, get-insert, get-remove, get-insert_self, get-remove_self}
use ztunnel.Workload.{WorkloadInfo}
use ztunnel.Inpod.{
  Netns, WorkloadState, Platform, ManagerState, remove_workload, start_workload, add_workload_inner,
  settle_add, start_or_queue,
}
use text.Mathlib.TextEquality.{eq_iff}

abbrev pub state_of : String → ManagerState → Option WorkloadState
state_of uid s = Map.get uid s.workload_states

abbrev pub pending_of : String → ManagerState → Option (WorkloadInfo × Netns)
pending_of uid s = Map.get uid s.pending_workloads

-- An operation on one Pod leaves the others and the snapshot alone.
pub record Leaves (uid : String) (s t : ManagerState) : Type 0 where
  pub states : (k : String) → (uid == k) ≡ false → state_of k t ≡ state_of k s
  pub pending : (k : String) → (uid == k) ≡ false → pending_of k t ≡ pending_of k s
  pub names : t.snapshot_names ≡ s.snapshot_names
  pub received : t.snapshot_received ≡ s.snapshot_received

pub remove_workload-Leaves :
    (uid : String) (s : ManagerState) → Leaves uid s (remove_workload uid s)
unfolding remove_workload
remove_workload-Leaves uid s = elim (Option-cases (state_of uid s)) [
  | inl e ↦
      rw (remove_workload, e)
        (record {
          states = λ k other. refl;
          pending = λ k other. ground (arith, get-remove uid k s.pending_workloads);
          names = refl;
          received = refl;
        })
  | inr (w, e) ↦
      rw (remove_workload, e)
        (record {
          states = λ k other. ground (arith, get-remove uid k s.workload_states);
          pending = λ k other. ground (arith, get-remove uid k s.pending_workloads);
          names = refl;
          received = refl;
        })
]

pub remove_workload-gone :
    (uid : String) (s : ManagerState)
    → (state_of uid (remove_workload uid s) ≡ none)
      × (pending_of uid (remove_workload uid s) ≡ none)
unfolding remove_workload
remove_workload-gone uid s = elim (Option-cases (state_of uid s)) [
  | inl e ↦ rw (remove_workload, e) (e, get-remove_self uid s.pending_workloads)
  | inr (w, e) ↦
      rw (remove_workload, e)
        (get-remove_self uid s.workload_states, get-remove_self uid s.pending_workloads)
]

pub Leaves-trans :
    (uid : String) (s t u : ManagerState) → Leaves uid s t → Leaves uid t u → Leaves uid s u
Leaves-trans uid s t u a b = record {
  states = λ k other. b.states k other ∙ a.states k other;
  pending = λ k other. b.pending k other ∙ a.pending k other;
  names = b.names ∙ a.names;
  received = b.received ∙ a.received;
}

-- A start that succeeds runs the proxy; one that fails is no proxy.
abbrev pub Outcome : String → ManagerState → ManagerState × Bool → Type 0
Outcome uid s (t, b) =
    Leaves uid s t × (b ≡ true → state_of uid t ≢ none) × (b ≡ false → state_of uid t ≡ none)

pub start_workload-Outcome :
    (p : Platform) (uid : String) (info : WorkloadInfo) (netns : Netns) (s : ManagerState)
    → state_of uid s ≡ none
    → Outcome uid s (start_workload p uid info netns s)
unfolding start_workload
start_workload-Outcome p uid info netns s absent = elim (Bool-cases (p.starts uid info netns)) [
  | inl up ↦
      let w : WorkloadState = record { netns_id = netns.netns_id } in
      rw (start_workload, up)
        (
          record {
            states = λ k other. ground (arith, get-insert uid k w s.workload_states);
            pending = λ k other. refl;
            names = refl;
            received = refl;
          },
          (λ q n. ground (arith, get-insert_self uid w s.workload_states)),
          (λ q. absurd (ground arith)),
        )
  | inr down ↦
      rw (start_workload, down)
        (
          record {
            states = λ k other. refl;
            pending = λ k other. refl;
            names = refl;
            received = refl;
          },
          (λ q. absurd (ground arith)),
          (λ q. absent),
        )
]

pub add_workload_inner-Outcome :
    (p : Platform) (uid : String) (info : WorkloadInfo) (netns : Netns) (s : ManagerState)
    → Outcome uid s (add_workload_inner p uid info netns s)
unfolding add_workload_inner
add_workload_inner-Outcome p uid info netns s = elim (Option-cases (state_of uid s)) [
  | inl e ↦ rw (add_workload_inner, e) (start_workload-Outcome p uid info netns s e)
  | inr (w, e) ↦ elim (Bool-cases (nat_beq w.netns_id netns.netns_id)) [
    | inl same ↦
        rw (add_workload_inner, e, same)
          (
            record {
              states = λ k other. refl;
              pending = λ k other. refl;
              names = refl;
              received = refl;
            },
            (λ q n. ground arith),
            (λ q. absurd (ground arith)),
          )
    | inr moved ↦
        let (leaves, up, down) =
          start_workload-Outcome p uid info netns (remove_workload uid s)
            (remove_workload-gone uid s).0 in
        rw (add_workload_inner, e, moved)
          (
            Leaves-trans uid s (remove_workload uid s) _ (remove_workload-Leaves uid s) leaves,
            up,
            down,
          )
  ]
]

pub settle_add-pending :
    (uid k : String) (info : WorkloadInfo) (netns : Netns) (t : ManagerState) (b : Bool)
    → pending_of k (settle_add uid info netns (t, b)).0
      ≡ (if uid == k then (if b then none else some (info, netns)) else pending_of k t)
settle_add-pending uid k info netns t true = ground (arith, get-remove uid k t.pending_workloads)
settle_add-pending uid k info netns t false =
    ground (arith, get-insert uid k (info, netns) t.pending_workloads)

pub settle_add-states :
    (uid k : String) (info : WorkloadInfo) (netns : Netns) (r : ManagerState × Bool)
    → state_of k (settle_add uid info netns r).0 ≡ state_of k r.0
settle_add-states uid k info netns (t, true) = refl
settle_add-states uid k info netns (t, false) = refl

pub settle_add-snapshot :
    (uid : String) (info : WorkloadInfo) (netns : Netns) (r : ManagerState × Bool)
    → ((settle_add uid info netns r).0.snapshot_names ≡ r.0.snapshot_names)
      × ((settle_add uid info netns r).0.snapshot_received ≡ r.0.snapshot_received)
settle_add-snapshot uid info netns (t, true) = (refl, refl)
settle_add-snapshot uid info netns (t, false) = (refl, refl)

-- What comes of a start or a failed start, as the maps show it.
pub record Started (uid : String) (info : WorkloadInfo) (netns : Netns) (s t : ManagerState)
    (up : Bool) : Type 0 where
  pub others_states : (k : String) → (uid == k) ≡ false → state_of k t ≡ state_of k s
  pub others_pending : (k : String) → (uid == k) ≡ false → pending_of k t ≡ pending_of k s
  pub own_pending : pending_of uid t ≡ (if up then none else some (info, netns))
  pub runs : up ≡ true → state_of uid t ≢ none
  pub stops : up ≡ false → state_of uid t ≡ none
  pub names : t.snapshot_names ≡ s.snapshot_names
  pub received : t.snapshot_received ≡ s.snapshot_received

pub start_or_queue-Started :
    (p : Platform) (uid : String) (info : WorkloadInfo) (netns : Netns) (s : ManagerState)
    → Started uid info netns s
        (start_or_queue p uid info netns s).0
        (add_workload_inner p uid info netns s).1
unfolding start_or_queue
start_or_queue-Started p uid info netns s =
    let r = add_workload_inner p uid info netns s in
    let (leaves, up, down) = add_workload_inner-Outcome p uid info netns s in
    let (names, received) = settle_add-snapshot uid info netns r in
    record {
      others_states = λ k other. settle_add-states uid k info netns r ∙ leaves.states k other;
      others_pending = λ k other.
          ground (arith, settle_add-pending uid k info netns r.0 r.1, leaves.pending k other);
      own_pending = ground (arith, settle_add-pending uid uid info netns r.0 r.1, eq_iff uid uid);
      runs = λ q n. up q (sym (settle_add-states uid uid info netns r) ∙ n);
      stops = λ q. settle_add-states uid uid info netns r ∙ down q;
      names = names ∙ leaves.names;
      received = received ∙ leaves.received;
    }

pub Started-disjoint :
    {uid : String} {info : WorkloadInfo} {netns : Netns} {s t : ManagerState} (up : Bool)
    → Started uid info netns s t up
    → (w : WorkloadState) → state_of uid t ≡ some w
    → pending_of uid t ≡ none
Started-disjoint true a w h = a.own_pending
Started-disjoint false a w h = let gone = a.stops refl in absurd (ground arith)
