-- ===== src/Inpod.antt =====
-- src/inpod/statemanager.rs: the proxies of the Pods of a node, as the node agent's messages start and
-- stop them. What the kernel and the proxies' listeners answer is a parameter of each operation. The
-- reports to the administration handler and the metrics are left out.
pub mod Starts
pub mod Snapshot
pub mod Managed
pub mod Rules
pub mod Protocol
pub mod Processor
mod Tests
use ztunnel.Common.{
  ℕ, Bool, true, false, not, ◌&&◌, List, [], ◌∷◌, ◌++◌, Option, none, some, String, retain, map,
  contains, is_empty, nat_beq, string_eq, if◌then◌else◌,
}
use ztunnel.Common.Map
use ztunnel.Common.Map.{Map}
use ztunnel.Common.Outcome.{Result, ok, err}
use ztunnel.Workload.{WorkloadInfo}

-- `InpodNetns`, which is compared by the identity of the namespace.
pub record Netns : Type 0 where
  pub netns_id : ℕ

pub record WorkloadState : Type 0 where
  pub netns_id : ℕ

pub record WorkloadData : Type 0 where
  pub netns : ℕ  -- the file descriptor
  pub workload_uid : String
  pub workload_info : Option WorkloadInfo

pub data WorkloadMessage : Type 0 where
  add_workload : WorkloadData → WorkloadMessage
  keep_workload del_workload : String → WorkloadMessage
  workload_snapshot_sent : WorkloadMessage

pub data FirewallEvent : Type 0 where
  add_pod : String → WorkloadInfo → Netns → FirewallEvent
  remove_pod : String → FirewallEvent

-- The texts of the protocol errors that the manager and its stream have.
pub data ProtocolText : Type 0 where
  info_missing keep_after_snapshot snapshot_received_already : ProtocolText

pub data InpodError : Type 0 where
  proxy_error : String → InpodError
  protocol_error : ProtocolText → InpodError
  receive_message_error send_ack_error send_nack_error announce_error : InpodError

-- `InpodNetns::new` of a descriptor, and `new_proxies_from_factory`: whether the proxies start.
pub record Platform : Type 0 where
  pub open_netns : ℕ → Option Netns
  pub starts : String → WorkloadInfo → Netns → Bool

-- What was sent to the firewall stands newest first; `none` is no channel.
pub record ManagerState : Type 0 where
  pub workload_states : Map String WorkloadState
  pub pending_workloads : Map String (WorkloadInfo × Netns)
  pub draining : List WorkloadState
  pub snapshot_received : Bool
  pub snapshot_names : List String
  pub fw_tx : Option (List FirewallEvent)

abbrev pub new : Option (List FirewallEvent) → ManagerState
new fw_tx = record {
  workload_states = [];
  pending_workloads = [];
  draining = [];
  snapshot_received = false;
  snapshot_names = [];
  fw_tx = fw_tx;
}

pub reset_snapshot : ManagerState → ManagerState
reset_snapshot s = record s {
  snapshot_names = [];
  pending_workloads = [];
  snapshot_received = false;
}

abbrev pub sent : FirewallEvent → Option (List FirewallEvent) → Option (List FirewallEvent)
sent e none = none
sent e (some es) = some (e ∷ es)

abbrev pub send_fw_event : FirewallEvent → ManagerState → ManagerState
send_fw_event e s = record s { fw_tx = sent e s.fw_tx }

-- `DrainingTasks::shutdown_workload`
abbrev pub shutdown_workload : WorkloadState → ManagerState → ManagerState
shutdown_workload w s = record s { draining = w ∷ s.draining }

abbrev pub is_listed : List String → String × WorkloadState → Bool
is_listed names e = contains names e.0

-- The loop over what `extract_if` took out.
pub shutdown_all : Map String WorkloadState → ManagerState → ManagerState
shutdown_all [] s = s
shutdown_all ((uid, w) ∷ ws) s =
    shutdown_all ws (shutdown_workload w (send_fw_event (remove_pod uid) s))

pub reconcile : ManagerState → ManagerState
reconcile s =
    let removed = retain (λ e. not (is_listed s.snapshot_names e)) s.workload_states in
    let kept = retain (is_listed s.snapshot_names) s.workload_states in
    record (shutdown_all removed (record s { workload_states = kept })) { snapshot_names = [] }

pub remove_workload : String → ManagerState → ManagerState
remove_workload uid s =
    let left = record s { pending_workloads = Map.remove uid s.pending_workloads } in
    elim (Map.get uid s.workload_states) [
      | none ↦ left
      | some w ↦ shutdown_workload w (
          send_fw_event (remove_pod uid)
            (record left { workload_states = Map.remove uid s.workload_states }))
    ]

-- The rest of `add_workload_inner` once there is no proxy in the way.
pub start_workload : Platform → String → WorkloadInfo → Netns → ManagerState → ManagerState × Bool
start_workload p uid info netns s =
    if p.starts uid info netns
    then (
      send_fw_event (add_pod uid info netns) (record s {
        workload_states = Map.insert uid (record { netns_id = netns.netns_id }) s.workload_states;
      }),
      true,
    )
    else (s, false)

-- The Boolean is false for an error.
pub add_workload_inner :
    Platform → String → WorkloadInfo → Netns → ManagerState → ManagerState × Bool
add_workload_inner p uid info netns s = elim (Map.get uid s.workload_states) [
  | none ↦ start_workload p uid info netns s
  | some existing ↦
      if nat_beq existing.netns_id netns.netns_id
      then (s, true)
      else start_workload p uid info netns (remove_workload uid s)
]

abbrev pub settle_add : String → WorkloadInfo → Netns → ManagerState × Bool → ManagerState × Bool
settle_add uid info netns (s, true) =
    (record s { pending_workloads = Map.remove uid s.pending_workloads }, true)
settle_add uid info netns (s, false) = (
  record (send_fw_event (add_pod uid info netns) s) {
    pending_workloads = Map.insert uid (info, netns) s.pending_workloads;
  },
  false,
)

-- `add_workload` of the manager.
pub start_or_queue : Platform → String → WorkloadInfo → Netns → ManagerState → ManagerState × Bool
start_or_queue p uid info netns s =
    settle_add uid info netns (add_workload_inner p uid info netns s)

abbrev pub proxy_result : String → ManagerState × Bool → ManagerState × Result InpodError (Unit {0})
proxy_result uid (s, true) = (s, ok tt)
proxy_result uid (s, false) = (s, err (proxy_error uid))

-- `snapshot_names.insert(uid)` on a set.
abbrev pub add_name : String → List String → List String
add_name uid names = if contains names uid then names else uid ∷ names

abbrev pub without_name : String → List String → List String
without_name uid [] = []
without_name uid (n ∷ ns) =
    let rest = without_name uid ns in if string_eq.beq n uid then rest else n ∷ rest

-- The names that are noted while the snapshot is under way.
abbrev pub note : String → ManagerState → ManagerState
note uid s =
    if s.snapshot_received then s else record s { snapshot_names = add_name uid s.snapshot_names }

pub process_add :
    Platform → WorkloadData → ManagerState → ManagerState × Result InpodError (Unit {0})
process_add p d s = elim d.workload_info [
  | none ↦ (s, err (protocol_error info_missing))
  | some info ↦ elim (p.open_netns d.netns) [
    | none ↦ (note d.workload_uid s, err (proxy_error d.workload_uid))
    | some netns ↦
        proxy_result d.workload_uid
          (start_or_queue p d.workload_uid info netns (note d.workload_uid s))
  ]
]

pub process_msg :
    Platform → WorkloadMessage → ManagerState → ManagerState × Result InpodError (Unit {0})
process_msg p (add_workload d) s = process_add p d s
process_msg p (keep_workload uid) s =
    if s.snapshot_received
    then (s, err (protocol_error keep_after_snapshot))
    else (record s { snapshot_names = add_name uid s.snapshot_names }, ok tt)
process_msg p (del_workload uid) s =
    if s.snapshot_received then (remove_workload uid s, ok tt) else (
      record s {
        snapshot_names = without_name uid s.snapshot_names;
        pending_workloads = Map.remove uid s.pending_workloads;
      },
      ok tt,
    )
process_msg p workload_snapshot_sent s =
    if s.snapshot_received
    then (s, err (protocol_error snapshot_received_already))
    else (record (reconcile s) { snapshot_received = true }, ok tt)

abbrev pub have_pending : ManagerState → Bool
have_pending s = not (is_empty s.pending_workloads)

-- Ready after the first snapshot, with no proxy that failed to start.
pub ready : ManagerState → Bool
ready s = s.snapshot_received && not (have_pending s)

pub retry_all : Platform → Map String (WorkloadInfo × Netns) → ManagerState → ManagerState
retry_all p [] s = s
retry_all p ((uid, (info, netns)) ∷ ws) s = retry_all p ws (start_or_queue p uid info netns s).0

pub retry_pending : Platform → ManagerState → ManagerState
retry_pending p s = retry_all p s.pending_workloads (record s { pending_workloads = [] })
