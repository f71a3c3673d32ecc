-- ===== src/Workload/Index.antt =====
-- `WorkloadStore` of src/state/workload.rs. The watch channel is the count of values sent, and a set
-- of UIDs is a list without repetitions.
pub mod Address
pub mod Identities
use ztunnel.Common.{
  ℕ, ◌+◌, ◌≡◌, Bool, true, false, not, ◌&&◌, ◌||◌, List, [], ◌∷◌, ◌++◌, Option, none, some, String,
  any, is_none, is_empty, is_some, contains, retain, ◌==◌, string_eq, option_beq, if◌then◌else◌,
}
use ztunnel.Common.Map
use ztunnel.Common.Map.{Map}
use ztunnel.Net.{IpAddr, Identity, NetworkAddress, addr_beq, addr_eq}
use ztunnel.Workload.{
  Workload, WorkloadIdentity, WorkloadByAddr, single, many, NetworkMode, standard, host_network,
  WorkloadInfo, insert_at, remove_uid, get_at, identity, identity_eq, workload_identity,
  info_matches, max_by_rank,
}

pub record WorkloadStore : Type 0 where
  pub local_node : Option String
  pub notifications : ℕ
  pub by_addr : Map NetworkAddress WorkloadByAddr
  pub by_uid : Map String Workload
  pub node_local_by_identity : Map WorkloadIdentity (List String)

abbrev pub new : Option String → WorkloadStore
new local_node = record {
  local_node = local_node;
  notifications = 0;
  by_addr = [];
  by_uid = [];
  node_local_by_identity = [];
}

abbrev pub is_host_network : NetworkMode → Bool
is_host_network standard = false
is_host_network host_network = true

abbrev pub network_addr : String → IpAddr → NetworkAddress
network_addr network ip = record { network = network; address = ip }

abbrev pub Addresses : Type 0
Addresses = Map NetworkAddress WorkloadByAddr

-- `entry(k).and_modify(insert).or_insert_with(Single)`
pub add_at : NetworkAddress → Workload → Addresses → Addresses
add_at k w m = elim (Map.get k m) [
  | none ↦ Map.insert k (single w) m
  | some ws ↦ Map.insert k (insert_at w ws) m
]

pub add_addresses : List IpAddr → Workload → Addresses → Addresses
add_addresses [] w m = m
add_addresses (ip ∷ ips) w m = add_addresses ips w (add_at (network_addr w.network ip) w m)

-- `if let Entry::Occupied(o) = entry(k) && o.get_mut().remove_uid(uid) { o.remove() }`
pub drop_at : NetworkAddress → String → Addresses → Addresses
drop_at k uid m = elim (Map.get k m) [
  | none ↦ m
  | some ws ↦
      let (left, emptied) = remove_uid uid ws in
      if emptied then Map.remove k m else Map.insert k left m
]

pub drop_addresses : List IpAddr → Workload → Addresses → Addresses
drop_addresses [] w m = m
drop_addresses (ip ∷ ips) w m = drop_addresses ips w (drop_at (network_addr w.network ip) w.uid m)

-- Host-network Workloads share the node's address and are not indexed by it.
abbrev pub addresses_of : Workload → List IpAddr
addresses_of w = if is_host_network w.network_mode then [] else w.workload_ips

abbrev pub or_empty : Option (List String) → List String
or_empty none = []
or_empty (some us) = us

-- `entry(id).or_default().insert(uid)` on a set.
pub add_identity :
    WorkloadIdentity
    → String
    → Map WorkloadIdentity (List String)
    → Map WorkloadIdentity (List String)
add_identity id uid m =
    let uids = or_empty (Map.get id m) in
    Map.insert id (if contains uids uid then uids else uids ++ (uid ∷ [])) m

pub drop_identity :
    WorkloadIdentity
    → String
    → Map WorkloadIdentity (List String)
    → Map WorkloadIdentity (List String)
drop_identity id uid m = elim (Map.get id m) [
  | none ↦ m
  | some set ↦
      let left = retain (λ u. not (u == uid)) set in
      if is_empty left then Map.remove id m else Map.insert id left m
]

pub remove : String → WorkloadStore → WorkloadStore × Option Workload
unfolding drop_addresses drop_at drop_identity
remove uid s = elim (Map.get uid s.by_uid) [
  | none ↦ (s, none)
  | some prev ↦ (
    record s {
      by_uid = Map.remove uid s.by_uid;
      by_addr = drop_addresses (addresses_of prev) prev s.by_addr;
      node_local_by_identity =
          drop_identity (workload_identity (identity prev)) prev.uid s.node_local_by_identity;
    },
    some prev,
  )
]

-- `local_node.is_none() || local_node.as_ref() == Some(node)`
abbrev pub is_local : Option String → String → Bool
is_local local_node node = is_none local_node || option_beq local_node (some node)

pub insert : Workload → WorkloadStore → WorkloadStore
unfolding remove add_addresses add_at add_identity
insert w s =
    let cleaned = (remove w.uid s).0 in
    record cleaned {
      by_addr = add_addresses (addresses_of w) w cleaned.by_addr;
      by_uid = Map.insert w.uid w cleaned.by_uid;
      node_local_by_identity =
          if is_local s.local_node w.node
          then add_identity (workload_identity (identity w)) w.uid cleaned.node_local_by_identity
          else cleaned.node_local_by_identity;
      notifications = cleaned.notifications + 1;
    }

pub find_address : NetworkAddress → WorkloadStore → Option Workload
unfolding max_by_rank
find_address addr s = elim (Map.get addr s.by_addr) [ none ↦ none | some ws ↦ get_at ws ]

abbrev pub find_uid : String → WorkloadStore → Option Workload
find_uid uid s = Map.get uid s.by_uid

abbrev pub matching : WorkloadInfo → Option Workload → Option Workload
matching info none = none
matching info (some w) = if info_matches info w then some w else none

-- The `find_map` over the UIDs of an identity.
pub find_matching : WorkloadInfo → List String → WorkloadStore → Option Workload
find_matching info [] s = none
find_matching info (uid ∷ uids) s = elim (matching info (find_uid uid s)) [
  | none ↦ find_matching info uids s
  | some w ↦ some w
]

pub find_by_info : WorkloadInfo → WorkloadStore → Option Workload
unfolding find_matching info_matches
find_by_info info s =
    find_matching info
      (or_empty (
        Map.get (record { namespace = info.namespace; service_account = info.service_account })
          s.node_local_by_identity))
      s

pub was_last_identity_on_node : String → Identity → WorkloadStore → Bool
was_last_identity_on_node node_name id s =
    if is_local s.local_node node_name
    then not (is_some (Map.get (workload_identity id) s.node_local_by_identity))
    else false
