-- ===== src/Workload.antt =====
-- src/state/workload.rs: a Workload, and the store that indexes the Workloads of the mesh by UID, by
-- network address and, for the local node, by identity.
pub mod Index
pub mod Convert
mod Tests
use text.Mathlib.Text.{find?}
use ztunnel.Common.{
  ℕ, ◌≡◌, ◌↔◌, Bool, true, false, not, ◌&&◌, ◌||◌, List, [], ◌∷◌, ◌++◌, Option, none, some, String,
  arith, any, leb, is_some, is_none, map, Eq, ◌==◌, string_eq, eq_iff_of, if◌then◌else◌,
}
use ztunnel.Net.{IpAddr, Identity, NamespacedHostname, NetworkAddress, addr_beq}
use ztunnel.Policy.{Policies}
use ztunnel.Policy.Store
use ztunnel.Policy.Store.{TrafficPolicyStore}

pub data InboundProtocol : Type 0 where
  tcp hbone : InboundProtocol

pub data NetworkMode : Type 0 where
  standard host_network : NetworkMode

pub data HealthStatus : Type 0 where
  healthy unhealthy : HealthStatus

pub record Locality : Type 0 where
  pub region : String
  pub zone : String
  pub subzone : String

pub data Destination : Type 0 where
  address : NetworkAddress → Destination
  hostname : NamespacedHostname → Destination

pub record GatewayAddress : Type 0 where
  pub destination : Destination
  pub hbone_mtls_port : ℕ  -- u16

pub data TunnelProtocol : Type 0 where
  no_tunnel proxy : TunnelProtocol

pub record ApplicationTunnel : Type 0 where
  pub protocol : TunnelProtocol
  pub port : Option ℕ  -- u16

-- `encoded_labels` and `egress_policies`, which no operation of this model reads, are left out.
pub record Workload : Type 0 where
  pub workload_ips : List IpAddr
  pub waypoint : Option GatewayAddress
  pub protocol : InboundProtocol
  pub network_mode : NetworkMode
  pub uid : String
  pub name : String
  pub namespace : String
  pub trust_domain : String
  pub service_account : String
  pub network : String
  pub workload_name : String
  pub workload_type : String
  pub canonical_name : String
  pub canonical_revision : String
  pub hostname : String
  pub node : String
  pub native_tunnel : Bool
  pub application_tunnel : Option ApplicationTunnel
  pub status : HealthStatus
  pub cluster_id : String
  pub locality : Locality
  pub services : List NamespacedHostname
  pub capacity : ℕ  -- u32
  pub traffic_policy_refs : Option (List String)

abbrev pub identity : Workload → Identity
identity w = record {
  trust_domain = w.trust_domain;
  namespace = w.namespace;
  service_account = w.service_account;
}

-- The policies that a Workload refers to. A binding that has not been delivered is a policy that
-- cannot be resolved.
unfoldable pub traffic_policies : Workload → TrafficPolicyStore → Policies
traffic_policies w store = elim w.traffic_policy_refs [
  | none ↦ ("workload-binding", none) ∷ []
  | some names ↦ map (λ name. (name, Store.get name store)) names
]

-- The namespace and the service account of an identity.
pub record WorkloadIdentity : Type 0 where
  pub namespace : String
  pub service_account : String

abbrev pub identity_beq : WorkloadIdentity → WorkloadIdentity → Bool
identity_beq a b = a.namespace == b.namespace && a.service_account == b.service_account

pub identity_beq_iff : (a b : WorkloadIdentity) → (identity_beq a b ≡ true) ↔ (a ≡ b)
identity_beq_iff a b =
    ground (arith, eq_iff_of a.namespace b.namespace, eq_iff_of a.service_account b.service_account)

instance abbrev pub identity_eq : Eq WorkloadIdentity
identity_eq = record { beq = identity_beq; beq_iff = identity_beq_iff }

-- `From<&Identity> for WorkloadIdentity`
abbrev pub workload_identity : Identity → WorkloadIdentity
workload_identity i = record { namespace = i.namespace; service_account = i.service_account }

-- src/state.rs: what a proxy instance knows of its own Workload.
pub record WorkloadInfo : Type 0 where
  pub name : String
  pub namespace : String
  pub service_account : String

pub info_matches : WorkloadInfo → Workload → Bool
info_matches i w =
    i.name == w.name && (i.namespace == w.namespace && i.service_account == w.service_account)

-- The Workloads at one address.
pub data WorkloadByAddr : Type 0 where
  single : Workload → WorkloadByAddr
  many : List Workload → WorkloadByAddr

abbrev pub insert_at : Workload → WorkloadByAddr → WorkloadByAddr
insert_at w (single workload) = many (workload ∷ w ∷ [])
insert_at w (many v) = many (v ++ (w ∷ []))

abbrev pub without_uid : String → List Workload → List Workload
without_uid uid [] = []
without_uid uid (w ∷ ws) = if w.uid == uid then without_uid uid ws else w ∷ without_uid uid ws

-- The match on the slice that is left: `true` tells that there is no Workload remaining.
abbrev pub settle : List Workload → WorkloadByAddr × Bool
settle [] = (many [], true)
settle (w ∷ []) = (single w, false)
settle (w ∷ v ∷ ws) = (many (w ∷ v ∷ ws), false)

abbrev pub remove_uid : String → WorkloadByAddr → WorkloadByAddr × Bool
remove_uid uid (single w) = (single w, w.uid == uid)
remove_uid uid (many ws) = settle (without_uid uid ws)

-- `w.uid.contains("//Pod/")`
abbrev pub is_pod : Workload → Bool
is_pod w = is_some (find? "//Pod/" w.uid)

abbrev pub is_hbone : InboundProtocol → Bool
is_hbone tcp = false
is_hbone hbone = true

abbrev pub rank_of : Bool → Bool → ℕ
rank_of true true = 3
rank_of true false = 2
rank_of false true = 1
rank_of false false = 0

pub rank : Workload → ℕ
rank w = rank_of (is_pod w) (is_hbone w.protocol)

-- `Iterator::max_by_key`: of equal keys the last wins. `none` is the panic on an empty list.
unfoldable pub max_by_rank : Workload → List Workload → Workload
unfolding rank
max_by_rank best [] = best
max_by_rank best (w ∷ ws) = max_by_rank (if leb (rank best) (rank w) then w else best) ws

abbrev pub get_at : WorkloadByAddr → Option Workload
get_at (single w) = some w
get_at (many []) = none
get_at (many (w ∷ ws)) = some (max_by_rank w ws)
