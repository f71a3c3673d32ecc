-- ===== src/Inpod/Rules.antt =====
-- The firewall rules that the events of the manager leave in place, Pod by Pod.
use ztunnel.Common.{
  ℕ, ◌≡◌, refl, sym, ap, ◌∙◌, inl, inr, Bool, true, false, not, List, [], ◌∷◌, Option, none, some,
  String, arith, retain, ◌==◌, string_eq, contains, Bool-cases, Option-cases, nat_beq,
  if◌then◌else◌,
}
use ztunnel.Common.Map
use ztunnel.Common.Map.{Map, get-insert, get-remove, get-insert_self, get-remove_self}
use ztunnel.Workload.{WorkloadInfo}
use ztunnel.Inpod.{
  Netns, WorkloadState, WorkloadData, WorkloadMessage, add_workload, keep_workload, del_workload,
  workload_snapshot_sent, Platform, ManagerState, new, reset_snapshot, reconcile, shutdown_all,
  remove_workload, start_workload, add_workload_inner, settle_add, start_or_queue, process_add,
  process_msg, note, retry_all, retry_pending, FirewallEvent, is_listed, add_pod, remove_pod,
  shutdown_workload, send_fw_event, sent,
}
use ztunnel.Inpod.Starts.{state_of, pending_of, add_workload_inner-Outcome}
use ztunnel.Inpod.Managed.{Event, connects, receives, retries, step, run, proxy_result-state}
use ztunnel.Inpod.Snapshot.{get-reconcile}
use text.Mathlib.TextEquality.{eq_iff}

-- The namespace in which a Pod has rules after the events, of which the newest stands first.
pub ruled : List FirewallEvent → String → Option ℕ
ruled [] uid = none
ruled (add_pod k info netns ∷ es) uid =
    let before = ruled es uid in if k == uid then some netns.netns_id else before
ruled (remove_pod k ∷ es) uid = let before = ruled es uid in if k == uid then none else before

abbrev pub netns_of : Option WorkloadState → Option ℕ
netns_of none = none
netns_of (some w) = some w.netns_id

-- Every running proxy has its rules in the namespace that it runs in.
abbrev pub IsRuled : ManagerState → Type 0
IsRuled s =
    (es : List FirewallEvent)
    → s.fw_tx ≡ some es
    → (uid : String) (w : WorkloadState) → state_of uid s ≡ some w
    → ruled es uid ≡ some w.netns_id

remove_workload-IsRuled :
    (uid : String) (s : ManagerState) → IsRuled s → IsRuled (remove_workload uid s)
unfolding remove_workload ruled
remove_workload-IsRuled uid s r es f k w h = elim (Option-cases (state_of uid s)) [
  | inl e ↦ r es (ground arith) k w (ground arith)
  | inr (v, e) ↦ elim (Option-cases s.fw_tx) [
    | inl n ↦ absurd (ground arith)
    | inr (before, b) ↦
        ground (arith, r before b k w, get-remove uid k s.workload_states, eq_iff uid k)
  ]
]

start_workload-IsRuled :
    (p : Platform) (uid : String) (info : WorkloadInfo) (netns : Netns) (s : ManagerState)
    → IsRuled s
    → IsRuled (start_workload p uid info netns s).0
unfolding start_workload ruled
start_workload-IsRuled p uid info netns s r es f k w h =
    let started : WorkloadState = record { netns_id = netns.netns_id } in
    elim (Bool-cases (p.starts uid info netns)) [
      | inr down ↦ r es (ground arith) k w (ground arith)
      | inl up ↦ elim (Option-cases s.fw_tx) [
        | inl n ↦ absurd (ground arith)
        | inr (before, b) ↦
            ground (arith, r before b k w, get-insert uid k started s.workload_states)
      ]
    ]

add_workload_inner-IsRuled :
    (p : Platform) (uid : String) (info : WorkloadInfo) (netns : Netns) (s : ManagerState)
    → IsRuled s
    → IsRuled (add_workload_inner p uid info netns s).0
unfolding add_workload_inner
add_workload_inner-IsRuled p uid info netns s r = elim (Option-cases (state_of uid s)) [
  | inl e ↦ rw (add_workload_inner, e) (start_workload-IsRuled p uid info netns s r)
  | inr (w, e) ↦ elim (Bool-cases (nat_beq w.netns_id netns.netns_id)) [
    | inl same ↦ rw (add_workload_inner, e, same) r
    | inr moved ↦
        rw (add_workload_inner, e, moved)
          (start_workload-IsRuled p uid info netns (remove_workload uid s)
            (remove_workload-IsRuled uid s r))
  ]
]

settle_add-IsRuled :
    (uid : String) (info : WorkloadInfo) (netns : Netns) (t : ManagerState) (b : Bool)
    → (b ≡ false → state_of uid t ≡ none)
    → IsRuled t
    → IsRuled (settle_add uid info netns (t, b)).0
unfolding ruled
settle_add-IsRuled uid info netns t true down r es f k w h = r es f k w h
settle_add-IsRuled uid info netns t false down r es f k w h = elim (Option-cases t.fw_tx) [
  | inl n ↦ absurd (ground arith)
  | inr (before, b) ↦ ground (arith, r before b k w, down refl, eq_iff uid k)
]

start_or_queue-IsRuled :
    (p : Platform) (uid : String) (info : WorkloadInfo) (netns : Netns) (s : ManagerState)
    → IsRuled s
    → IsRuled (start_or_queue p uid info netns s).0
unfolding start_or_queue
start_or_queue-IsRuled p uid info netns s r =
    let (leaves, up, down) = add_workload_inner-Outcome p uid info netns s in
    let t = add_workload_inner p uid info netns s in
    settle_add-IsRuled uid info netns t.0 t.1 down (add_workload_inner-IsRuled p uid info netns s r)

-- The loop of a reconciliation tells the firewall of its own Pods only.
ruled-shutdown_all :
    (k : String) (ws : Map String WorkloadState) (s : ManagerState) (es fs : List FirewallEvent)
    → s.fw_tx ≡ some es
    → (shutdown_all ws s).fw_tx ≡ some fs
    → Map.get k ws ≡ none
    → ruled fs k ≡ ruled es k
unfolding shutdown_all ruled Map.get
ruled-shutdown_all k [] s es fs e f h = ground arith
ruled-shutdown_all k ((j, w) ∷ ws) s es fs e f h = ground (
  arith,
  ruled-shutdown_all k ws (shutdown_workload w (send_fw_event (remove_pod j) s)) (remove_pod j ∷ es)
      fs (ap (sent (remove_pod j)) e) f,
  eq_iff j k,
)

shutdown_all-silent :
    (ws : Map String WorkloadState) (s : ManagerState)
    → s.fw_tx ≡ none
    → (shutdown_all ws s).fw_tx ≡ none
unfolding shutdown_all
shutdown_all-silent [] s e = e
shutdown_all-silent ((j, w) ∷ ws) s e = shutdown_all-silent ws _ (ap (sent (remove_pod j)) e)

get-retain_others :
    (names : List String) (k : String) (m : Map String WorkloadState)
    → contains names k ≡ true
    → Map.get k (retain (λ e. not (is_listed names e)) m) ≡ none
unfolding Map.get
get-retain_others names k [] h = refl
get-retain_others names k ((j, w) ∷ m) h = ground (arith, get-retain_others names k m h, eq_iff j k)

reconcile-IsRuled : (s : ManagerState) → IsRuled s → IsRuled (reconcile s)
unfolding reconcile
reconcile-IsRuled s r es f k w h =
    let removed = retain (λ e. not (is_listed s.snapshot_names e)) s.workload_states in
    let kept = retain (is_listed s.snapshot_names) s.workload_states in
    elim (Option-cases s.fw_tx) [
      | inl n ↦
          absurd
            (ground (arith, shutdown_all-silent removed (record s { workload_states = kept }) n))
      | inr (before, b) ↦ ground (
        arith,
        get-reconcile k s,
        r before b k w,
        get-retain_others s.snapshot_names k s.workload_states,
        ruled-shutdown_all k removed (record s { workload_states = kept }) before es b f,
      )
    ]

-- Two states with the same proxies and the same events.
SameRules : ManagerState → ManagerState → Type 0
SameRules s t = (t.workload_states ≡ s.workload_states) × (t.fw_tx ≡ s.fw_tx)

transfer-IsRuled : (s t : ManagerState) → SameRules s t → IsRuled s → IsRuled t
unfolding SameRules
transfer-IsRuled s t (a, b) r es f k w h = r es (sym b ∙ f) k w (ap (Map.get k) (sym a) ∙ h)

note-rules : (uid : String) (s : ManagerState) → SameRules s (note uid s)
unfolding SameRules
note-rules uid s = ground arith

process_add-IsRuled :
    (p : Platform) (d : WorkloadData) (s : ManagerState) → IsRuled s → IsRuled (process_add p d s).0
unfolding process_add
process_add-IsRuled p d s r = elim (Option-cases d.workload_info) [
  | inl e ↦ rw (process_add, e) r
  | inr (info, e) ↦ elim (Option-cases (p.open_netns d.netns)) [
    | inl f ↦
        rw (process_add, e, f)
          (transfer-IsRuled s (note d.workload_uid s) (note-rules d.workload_uid s) r)
    | inr (netns, f) ↦
        let noted = note d.workload_uid s in
        rw
          (
            process_add,
            e,
            f,
            proxy_result-state d.workload_uid (start_or_queue p d.workload_uid info netns noted),
          )
          (start_or_queue-IsRuled p d.workload_uid info netns noted
            (transfer-IsRuled s (note d.workload_uid s) (note-rules d.workload_uid s) r))
  ]
]

process_msg-IsRuled :
    (p : Platform) (msg : WorkloadMessage) (s : ManagerState)
    → IsRuled s
    → IsRuled (process_msg p msg s).0
unfolding process_msg SameRules
process_msg-IsRuled p (add_workload d) s r = process_add-IsRuled p d s r
process_msg-IsRuled p (keep_workload uid) s r =
    let same : SameRules s (process_msg p (keep_workload uid) s).0 = ground arith in
    transfer-IsRuled s (process_msg p (keep_workload uid) s).0 same r
process_msg-IsRuled p (del_workload uid) s r = elim (Bool-cases s.snapshot_received) [
  | inl e ↦
      let same : SameRules (remove_workload uid s) (process_msg p (del_workload uid) s).0 =
        ground arith in
      transfer-IsRuled (remove_workload uid s) (process_msg p (del_workload uid) s).0 same
        (remove_workload-IsRuled uid s r)
  | inr e ↦ rw (process_msg, e) r
]
process_msg-IsRuled p workload_snapshot_sent s r = elim (Bool-cases s.snapshot_received) [
  | inl e ↦
      let same : SameRules s (process_msg p workload_snapshot_sent s).0 = ground arith in
      transfer-IsRuled s (process_msg p workload_snapshot_sent s).0 same r
  | inr e ↦ simp e (reconcile-IsRuled s r)
]

retry_all-IsRuled :
    (p : Platform) (ws : Map String (WorkloadInfo × Netns)) (s : ManagerState)
    → IsRuled s
    → IsRuled (retry_all p ws s)
unfolding retry_all
retry_all-IsRuled p [] s r = r
retry_all-IsRuled p ((uid, (info, netns)) ∷ ws) s r =
    retry_all-IsRuled p ws (start_or_queue p uid info netns s).0
      (start_or_queue-IsRuled p uid info netns s r)

step-IsRuled : (e : Event) (s : ManagerState) → IsRuled s → IsRuled (step e s)
unfolding step reset_snapshot retry_pending
step-IsRuled connects s r = r
step-IsRuled (receives p msg) s r = process_msg-IsRuled p msg s r
step-IsRuled (retries p) s r =
    retry_all-IsRuled p s.pending_workloads (record s { pending_workloads = [] }) r

run-IsRuled_from : (es : List Event) (s : ManagerState) → IsRuled s → IsRuled (run es s)
unfolding run
run-IsRuled_from [] s r = r
run-IsRuled_from (e ∷ es) s r = run-IsRuled_from es (step e s) (step-IsRuled e s r)

-- After any sequence of connections, messages and retries from an empty manager with a firewall, the
-- newest events leave every Pod that has a proxy ruled in the namespace in which its proxy runs.
pub run-IsRuled : (es : List Event) → IsRuled (run es (new (some [])))
unfolding Map.get
run-IsRuled es = run-IsRuled_from es (new (some [])) (λ fs f k w h. absurd (ground arith))

abbrev pub failed_then_deleted : Platform → String → WorkloadInfo → ℕ → List Event
failed_then_deleted p uid info fd =
    receives p workload_snapshot_sent
    ∷ receives p
        (add_workload (record { netns = fd; workload_uid = uid; workload_info = some info }))
    ∷ receives p (del_workload uid)
    ∷ []

-- A Pod whose start fails and that is then deleted leaves its rules behind: after the snapshot, its
-- addition and its deletion, the manager has neither a proxy nor a pending start of it, but the events
-- sent to the firewall leave rules in its namespace.
pub run-stale_rules :
    (p : Platform) (uid : String) (info : WorkloadInfo) (fd : ℕ) (netns : Netns)
    → p.open_netns fd ≡ some netns
    → p.starts uid info netns ≡ false
    → (es : List FirewallEvent) × ((run (failed_then_deleted p uid info fd) (new (some []))).fw_tx
        ≡ some es)
      × (ruled es uid ≡ some netns.netns_id)
      × (state_of uid (run (failed_then_deleted p uid info fd) (new (some []))) ≡ none)
      × (pending_of uid (run (failed_then_deleted p uid info fd) (new (some []))) ≡ none)
unfolding run step process_msg process_add start_or_queue add_workload_inner start_workload
    remove_workload reconcile shutdown_all ruled Map.get Map.remove Map.insert
run-stale_rules p uid info fd netns opens fails = (
  add_pod uid info netns ∷ [],
  ground (arith, opens, fails),
  ground (arith, eq_iff uid uid),
  ground (arith, opens, fails, eq_iff uid uid),
  ground (arith, opens, fails, eq_iff uid uid),
)
