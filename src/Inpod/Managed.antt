-- ===== src/Inpod/Managed.antt =====
-- What holds of the manager after any sequence of messages, retries and new connections.
use ztunnel.Common.{
  ◌≡◌, refl, sym, ap, subst, All, ◌∙◌, inl, inr, Bool, true, false, List, [], ◌∷◌, Option, none,
  some, String, arith, ◌==◌, string_eq, contains, Bool-cases, Option-cases,
}
use ztunnel.Common.Map
use ztunnel.Common.Map.{Map, get-insert, get-remove, get-insert_self, get-remove_self}
use ztunnel.Workload.{WorkloadInfo}
use ztunnel.Inpod.{
  Netns, WorkloadState, WorkloadData, WorkloadMessage, add_workload, keep_workload, del_workload,
  workload_snapshot_sent, Platform, ManagerState, new, reset_snapshot, remove_workload,
  start_or_queue, proxy_result, process_add, process_msg, note, add_name, without_name, retry_all,
  retry_pending, FirewallEvent,
}
use text.Mathlib.TextEquality.{eq_iff}
use ztunnel.Inpod.Starts.{
  state_of, pending_of, remove_workload-Leaves, remove_workload-gone, start_or_queue-Started,
  Started-disjoint,
}
use ztunnel.Inpod.Snapshot.{get-reconcile, pending-reconcile}

-- A proxy runs or waits to be started, never both; and while the snapshot is under way, what waits
-- is named in it.
pub record IsManaged (s : ManagerState) : Type 0 where
  pub disjoint :
      (uid : String) (w : WorkloadState) → state_of uid s ≡ some w → pending_of uid s ≡ none
  pub noted :
      s.snapshot_received ≡ false
      → (uid : String) (x : WorkloadInfo × Netns) → pending_of uid s ≡ some x
      → contains s.snapshot_names uid ≡ true

-- A start keeps a managed state, where the Pod is named if the snapshot is under way.
start_or_queue-IsManaged :
    (p : Platform) (uid : String) (info : WorkloadInfo) (netns : Netns) (s : ManagerState)
    → (s.snapshot_received ≡ false → contains s.snapshot_names uid ≡ true)
    → IsManaged s
    → IsManaged (start_or_queue p uid info netns s).0
start_or_queue-IsManaged p uid info netns s noted m =
    let a = start_or_queue-Started p uid info netns s in
    record {
      disjoint = λ k w h. elim (Bool-cases (uid == k)) [
        | inl hit ↦
            let at : k ≡ uid = sym ((eq_iff uid k).0 hit) in
            subst (λ x. pending_of x (start_or_queue p uid info netns s).0 ≡ none) (sym at)
              (Started-disjoint _ a w
                (subst (λ x. state_of x (start_or_queue p uid info netns s).0 ≡ some w) at h))
        | inr miss ↦ a.others_pending k miss ∙ m.disjoint k w (sym (a.others_states k miss) ∙ h)
      ];
      noted = λ q k x h. elim (Bool-cases (uid == k)) [
        | inl hit ↦ ground (arith, noted, a.names, a.received, eq_iff uid k)
        | inr miss ↦
            ground
              (arith, m.noted (sym a.received ∙ q) k x (sym (a.others_pending k miss) ∙ h), a.names)
      ];
    }

remove_workload-IsManaged :
    (uid : String) (s : ManagerState) → IsManaged s → IsManaged (remove_workload uid s)
remove_workload-IsManaged uid s m =
    let leaves = remove_workload-Leaves uid s in
    let (gone, dropped) = remove_workload-gone uid s in
    record {
      disjoint = λ k w h. elim (Bool-cases (uid == k)) [
        | inl hit ↦
            subst (λ x. pending_of x (remove_workload uid s) ≡ none) ((eq_iff uid k).0 hit) dropped
        | inr miss ↦ leaves.pending k miss ∙ m.disjoint k w (sym (leaves.states k miss) ∙ h)
      ];
      noted = λ q k x h. elim (Bool-cases (uid == k)) [
        | inl hit ↦ absurd (ground (arith, dropped, eq_iff uid k))
        | inr miss ↦ ground (
          arith,
          m.noted (sym leaves.received ∙ q) k x (sym (leaves.pending k miss) ∙ h),
          leaves.names,
        )
      ];
    }

add_name-contains : (uid : String) (names : List String) → contains (add_name uid names) uid ≡ true
add_name-contains uid names = ground (arith, eq_iff uid uid)

add_name-keeps :
    (uid k : String) (names : List String)
    → contains names k ≡ true
    → contains (add_name uid names) k ≡ true
add_name-keeps uid k names h = ground arith

without_name-keeps :
    (uid k : String) (names : List String)
    → (uid == k) ≡ false
    → contains names k ≡ true
    → contains (without_name uid names) k ≡ true
without_name-keeps uid k [] other h = absurd (ground arith)
without_name-keeps uid k (n ∷ ns) other h =
    ground (arith, without_name-keeps uid k ns other, eq_iff n uid, eq_iff n k, eq_iff uid k)

note-IsManaged : (uid : String) (s : ManagerState) → IsManaged s → IsManaged (note uid s)
note-IsManaged uid s m = elim (Bool-cases s.snapshot_received) [
  | inl e ↦ let same : s ≡ note uid s = ground arith in subst IsManaged same m
  | inr e ↦
      rw (note, e)
        (record {
          disjoint = m.disjoint;
          noted = λ q k x h. add_name-keeps uid k s.snapshot_names (m.noted e k x h);
        })
]

note-named :
    (uid : String) (s : ManagerState)
    → (note uid s).snapshot_received ≡ false
    → contains (note uid s).snapshot_names uid ≡ true
note-named uid s h = elim (Bool-cases s.snapshot_received) [
  | inl e ↦ absurd (ground arith)
  | inr e ↦ rw (note, e) (add_name-contains uid s.snapshot_names)
]

pub proxy_result-state : (uid : String) (r : ManagerState × Bool) → (proxy_result uid r).0 ≡ r.0
proxy_result-state uid (s, true) = refl
proxy_result-state uid (s, false) = refl

process_add-IsManaged :
    (p : Platform) (d : WorkloadData) (s : ManagerState)
    → IsManaged s
    → IsManaged (process_add p d s).0
unfolding process_add
process_add-IsManaged p d s m = elim (Option-cases d.workload_info) [
  | inl e ↦ rw (process_add, e) m
  | inr (info, e) ↦ elim (Option-cases (p.open_netns d.netns)) [
    | inl f ↦ rw (process_add, e, f) (note-IsManaged d.workload_uid s m)
    | inr (netns, f) ↦
        let started =
          start_or_queue-IsManaged p d.workload_uid info netns (note d.workload_uid s)
            (note-named d.workload_uid s) (note-IsManaged d.workload_uid s m) in
        rw
          (
            process_add,
            e,
            f,
            proxy_result-state d.workload_uid
                (start_or_queue p d.workload_uid info netns (note d.workload_uid s)),
          )
          started
  ]
]

process_msg-IsManaged :
    (p : Platform) (msg : WorkloadMessage) (s : ManagerState)
    → IsManaged s
    → IsManaged (process_msg p msg s).0
unfolding process_msg
process_msg-IsManaged p (add_workload d) s m = process_add-IsManaged p d s m
process_msg-IsManaged p (keep_workload uid) s m = elim (Bool-cases s.snapshot_received) [
  | inl e ↦
      let same : s ≡ (process_msg p (keep_workload uid) s).0 = ground arith in
      subst IsManaged same m
  | inr e ↦
      rw (process_msg, e)
        (record {
          disjoint = m.disjoint;
          noted = λ q k x h. add_name-keeps uid k s.snapshot_names (m.noted e k x h);
        })
]
process_msg-IsManaged p (del_workload uid) s m = elim (Bool-cases s.snapshot_received) [
  | inl e ↦
      let same : remove_workload uid s ≡ (process_msg p (del_workload uid) s).0 = ground arith in
      subst IsManaged same (remove_workload-IsManaged uid s m)
  | inr e ↦
      rw (process_msg, e)
        (record {
          disjoint =
              λ k w h. ground (arith, m.disjoint k w h, get-remove uid k s.pending_workloads);
          noted = λ q k x h. elim (Bool-cases (uid == k)) [
            | inl hit ↦ absurd (ground (arith, get-remove uid k s.pending_workloads))
            | inr miss ↦
                without_name-keeps uid k s.snapshot_names miss
                  (m.noted e k x (ground (arith, get-remove uid k s.pending_workloads)))
          ];
        })
]
process_msg-IsManaged p workload_snapshot_sent s m = elim (Bool-cases s.snapshot_received) [
  | inl e ↦
      let same : s ≡ (process_msg p workload_snapshot_sent s).0 = ground arith in
      subst IsManaged same m
  | inr e ↦
      rw (process_msg, e)
        (record {
          disjoint =
              λ k w h. ground (arith, pending-reconcile s, get-reconcile k s, m.disjoint k w);
          noted = λ q. absurd (ground arith);
        })
]

-- What the manager meets: a new connection to the node agent, a message, or the timer of the retries.
pub data Event : Type 0 where
  connects : Event
  receives : Platform → WorkloadMessage → Event
  retries : Platform → Event

unfoldable pub step : Event → ManagerState → ManagerState
unfolding reset_snapshot process_msg retry_pending
step connects s = reset_snapshot s
step (receives p msg) s = (process_msg p msg s).0
step (retries p) s = retry_pending p s

unfoldable pub run : List Event → ManagerState → ManagerState
unfolding step
run [] s = s
run (e ∷ es) s = run es (step e s)

entries-of_get :
    (P : String → Type 0) (m : Map String (WorkloadInfo × Netns))
    → ((k : String) (x : WorkloadInfo × Netns) → Map.get k m ≡ some x → P k)
    → All (λ e. P e.0) m
unfolding Map.get
entries-of_get P [] h = tt
entries-of_get P ((j, w) ∷ m) h = (
  h j w (ground (arith, eq_iff j j)),
  entries-of_get P m (λ k x e. elim (Bool-cases (j == k)) [
    | inl hit ↦ h k w (ground arith)
    | inr miss ↦ h k x (ground arith)
  ]),
)

abbrev IsNamed : ManagerState → String → Type 0
IsNamed s uid = s.snapshot_received ≡ false → contains s.snapshot_names uid ≡ true

All-IsNamed :
    (s t : ManagerState) (ws : Map String (WorkloadInfo × Netns))
    → t.snapshot_names ≡ s.snapshot_names
    → t.snapshot_received ≡ s.snapshot_received
    → All (λ e. IsNamed s e.0) ws
    → All (λ e. IsNamed t e.0) ws
All-IsNamed s t [] a b h = tt
All-IsNamed s t (w ∷ ws) a b h =
    ((λ q. ap (λ ns. contains ns w.0) a ∙ h.0 (sym b ∙ q)), All-IsNamed s t ws a b h.1)

retry_all-IsManaged :
    (p : Platform) (ws : Map String (WorkloadInfo × Netns)) (s : ManagerState)
    → All (λ e. IsNamed s e.0) ws
    → IsManaged s
    → IsManaged (retry_all p ws s)
unfolding retry_all
retry_all-IsManaged p [] s named m = m
retry_all-IsManaged p ((uid, (info, netns)) ∷ ws) s named m =
    let t = (start_or_queue p uid info netns s).0 in
    let a = start_or_queue-Started p uid info netns s in
    retry_all-IsManaged p ws t (All-IsNamed s t ws a.names a.received named.1)
      (start_or_queue-IsManaged p uid info netns s named.0 m)

step-IsManaged : (e : Event) (s : ManagerState) → IsManaged s → IsManaged (step e s)
unfolding step reset_snapshot retry_pending Map.get
step-IsManaged connects s m = record {
  disjoint = λ k w h. refl;
  noted = λ q k x h. absurd (ground arith);
}
step-IsManaged (receives p msg) s m = process_msg-IsManaged p msg s m
step-IsManaged (retries p) s m =
    let cleared = record s { pending_workloads = [] } in
    retry_all-IsManaged p s.pending_workloads cleared
      (entries-of_get (IsNamed s) s.pending_workloads (λ k x h q. m.noted q k x h))
      (record { disjoint = λ k w h. refl; noted = λ q k x h. absurd (ground arith) })

run-IsManaged_from : (es : List Event) (s : ManagerState) → IsManaged s → IsManaged (run es s)
unfolding run
run-IsManaged_from [] s m = m
run-IsManaged_from (e ∷ es) s m = run-IsManaged_from es (step e s) (step-IsManaged e s m)

-- After any sequence of connections, messages and retries, whatever the platform answers, no Pod has
-- both a proxy and a pending start, and until the snapshot has come every pending Pod is named in it.
pub run-IsManaged :
    (es : List Event) (fw_tx : Option (List FirewallEvent)) → IsManaged (run es (new fw_tx))
unfolding Map.get
run-IsManaged es fw_tx =
    run-IsManaged_from es (new fw_tx)
      (record { disjoint = λ k w h. refl; noted = λ q k x h. absurd (ground arith) })
