-- ===== src/Inpod/Snapshot.antt =====
-- What the end of a snapshot does.
use ztunnel.Common.{
  In, In-retain, ◌≡◌, refl, ap, inl, inr, true, false, not, List, [], ◌∷◌, none, some, String,
  arith, retain, ◌==◌, string_eq, contains, Bool-cases, if◌then◌else◌,
}
use ztunnel.Common.Map
use ztunnel.Common.Map.{Map, get-insert, get-remove, get-insert_self, get-remove_self}
use ztunnel.Common.Outcome.{ok}
use ztunnel.Inpod.{
  WorkloadState, workload_snapshot_sent, Platform, ManagerState, reconcile, shutdown_all,
  process_msg, remove_pod, FirewallEvent, is_listed,
}
use text.Mathlib.TextEquality.{eq_iff}
use ztunnel.Inpod.Starts.{state_of}

-- The loop over the proxies that a snapshot takes away touches neither map, nor the snapshot.
pub shutdown_all-frame :
    (ws : Map String WorkloadState) (s : ManagerState)
    → ((shutdown_all ws s).workload_states ≡ s.workload_states)
      × ((shutdown_all ws s).pending_workloads ≡ s.pending_workloads)
      × ((shutdown_all ws s).snapshot_received ≡ s.snapshot_received)
unfolding shutdown_all
shutdown_all-frame [] s = (refl, refl, refl)
shutdown_all-frame ((uid, w) ∷ ws) s = shutdown_all-frame ws _

-- What `retain` by a test of the key leaves.
pub get-retain_keys :
    (names : List String) (k : String) (m : Map String WorkloadState)
    → Map.get k (retain (is_listed names) m) ≡ (if contains names k then Map.get k m else none)
unfolding Map.get
get-retain_keys names k [] = ground arith
get-retain_keys names k ((j, w) ∷ m) = ground (arith, get-retain_keys names k m, eq_iff j k)

pub get-reconcile :
    (k : String) (s : ManagerState)
    → state_of k (reconcile s) ≡ (if contains s.snapshot_names k then state_of k s else none)
unfolding reconcile
get-reconcile k s = ground (
  arith,
  shutdown_all-frame (retain (λ e. not (is_listed s.snapshot_names e)) s.workload_states)
      (record s { workload_states = retain (is_listed s.snapshot_names) s.workload_states }),
  get-retain_keys s.snapshot_names k s.workload_states,
)

pub pending-reconcile : (s : ManagerState) → (reconcile s).pending_workloads ≡ s.pending_workloads
unfolding reconcile
pending-reconcile s =
    (shutdown_all-frame (retain (λ e. not (is_listed s.snapshot_names e)) s.workload_states)
      (record s { workload_states = retain (is_listed s.snapshot_names) s.workload_states })).1

shutdown_all-keeps :
    (x : FirewallEvent) (ws : Map String WorkloadState) (s : ManagerState) (es : List FirewallEvent)
    → s.fw_tx ≡ some es
    → In x es
    → (fs : List FirewallEvent) × ((shutdown_all ws s).fw_tx ≡ some fs) × In x fs
unfolding shutdown_all
shutdown_all-keeps x [] s es e h = (es, e, h)
shutdown_all-keeps x ((uid, w) ∷ ws) s es e h =
    shutdown_all-keeps x ws _ (remove_pod uid ∷ es) (ground arith) (inr h)

shutdown_all-sends :
    (uid : String) (w : WorkloadState) (ws : Map String WorkloadState) (s : ManagerState)
    (es : List FirewallEvent)
    → s.fw_tx ≡ some es
    → In (uid, w) ws
    → (fs : List FirewallEvent) × ((shutdown_all ws s).fw_tx ≡ some fs) × In (remove_pod uid) fs
unfolding shutdown_all
shutdown_all-sends uid w [] s es e h = elim h [ ]
shutdown_all-sends uid w ((j, v) ∷ ws) s es e (inl same) =
    shutdown_all-keeps (remove_pod uid) ws _ (remove_pod j ∷ es) (ground arith)
      (inl (ap (λ x. remove_pod x.0) same))
shutdown_all-sends uid w ((j, v) ∷ ws) s es e (inr later) =
    shutdown_all-sends uid w ws _ (remove_pod j ∷ es) (ground arith) later

In-entry_of_get :
    (uid : String) (w : WorkloadState) (m : Map String WorkloadState)
    → Map.get uid m ≡ some w
    → In (uid, w) m
unfolding Map.get
In-entry_of_get uid w [] h = absurd (ground arith)
In-entry_of_get uid w ((j, v) ∷ m) h = elim (Bool-cases (j == uid)) [
  | inl hit ↦
      let at : j ≡ uid = (eq_iff j uid).0 hit in
      let same : v ≡ w = ground arith in inl (cc (at, same))
  | inr miss ↦ inr (In-entry_of_get uid w m (ground arith))
]

-- The firewall is told of a Pod that the snapshot does not name.
pub reconcile-sends :
    (uid : String) (w : WorkloadState) (s : ManagerState) (es : List FirewallEvent)
    → s.fw_tx ≡ some es
    → state_of uid s ≡ some w
    → contains s.snapshot_names uid ≡ false
    → (fs : List FirewallEvent) × ((reconcile s).fw_tx ≡ some fs) × In (remove_pod uid) fs
unfolding reconcile
reconcile-sends uid w s es f h unlisted =
    shutdown_all-sends uid w (retain (λ x. not (is_listed s.snapshot_names x)) s.workload_states)
      (record s { workload_states = retain (is_listed s.snapshot_names) s.workload_states }) es f
      ((In-retain (λ x. not (is_listed s.snapshot_names x)) (uid, w) s.workload_states).1
        (In-entry_of_get uid w s.workload_states h, ground arith))

-- The end of a first snapshot is accepted and makes the manager's snapshot complete. A Pod that the
-- snapshot names keeps its proxy, any other loses it, and the pending starts stay.
pub process_msg-snapshot :
    (p : Platform) (s : ManagerState)
    → s.snapshot_received ≡ false
    → ((process_msg p workload_snapshot_sent s).1 ≡ ok tt)
      × ((process_msg p workload_snapshot_sent s).0.snapshot_received ≡ true)
      × ((k : String)
          → state_of k (process_msg p workload_snapshot_sent s).0
            ≡ (if contains s.snapshot_names k then state_of k s else none))
      × ((process_msg p workload_snapshot_sent s).0.pending_workloads ≡ s.pending_workloads)
unfolding process_msg
process_msg-snapshot p s e = simp e (refl, refl, (λ k. get-reconcile k s), pending-reconcile s)
