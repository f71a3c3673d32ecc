-- ===== src/Dns.antt =====
-- src/dns/server.rs: the answer to a request for the addresses of a server that was found. The names,
-- which a crate represents, and the shuffle of the addresses are parameters.
pub mod Answers
pub mod Names
pub mod Choices
pub mod Aliases
pub mod Searches
mod Tests
use ztunnel.Common.{
  ℕ, ◌≡◌, Bool, true, false, not, ◌&&◌, ◌||◌, List, [], ◌∷◌, ◌++◌, Option, none, some, String, map,
  find, filter_map, is_empty, ◌==◌, string_eq, if◌then◌else◌,
}
use ztunnel.Common.Map
use ztunnel.Common.Outcome.{Result, ok, err}
use ztunnel.Net.{IpAddr, v4, v6, NetworkAddress}
use ztunnel.Service.{Service, Endpoint, IpFamily, dual, ipv4, ipv6}
use ztunnel.Workload.{Workload}
use ztunnel.Workload.Index.{WorkloadStore, find_uid}

-- `other` stands for the record types that are neither A nor AAAA.
pub data RecordType : Type 0 where
  a aaaa : RecordType
  other : ℕ → RecordType

pub is_record_type_supported : RecordType → Bool
is_record_type_supported a = true
is_record_type_supported aaaa = true
is_record_type_supported (other n) = false

abbrev pub is_record_type : IpAddr → RecordType → Bool
is_record_type (v4 n) a = true
is_record_type (v6 n) aaaa = true
is_record_type _ _ = false

pub data Address : Type 0 where
  workload : Workload → Address
  service : Service → Address

abbrev pub family_allowed : Option IpFamily → RecordType → Bool
family_allowed (some ipv4) aaaa = false
family_allowed (some ipv6) a = false
family_allowed _ _ = true

abbrev pub server_family : Address → Option IpFamily
server_family (workload w) = none
server_family (service s) = s.ip_families

abbrev pub is_aaaa : RecordType → Bool
is_aaaa aaaa = true
is_aaaa _ = false

unfoldable pub service_family_allowed : Address → RecordType → (ipv6_enabled : Bool) → Bool
service_family_allowed server record_type ipv6_enabled =
    if not ipv6_enabled && is_aaaa record_type
    then false
    else family_allowed (server_family server) record_type

abbrev pub record_type_enabled : (ipv6_enabled : Bool) → IpAddr → Bool
record_type_enabled ipv6_enabled (v4 n) = true
record_type_enabled ipv6_enabled (v6 n) = ipv6_enabled

-- The test that every address passes.
abbrev pub is_wanted : (ipv6_enabled : Bool) → RecordType → IpAddr → Bool
is_wanted ipv6_enabled record_type addr =
    is_record_type addr record_type && record_type_enabled ipv6_enabled addr

abbrev pub workload_address : Bool → RecordType → IpAddr → Option IpAddr
workload_address ipv6_enabled record_type addr =
    if is_wanted ipv6_enabled record_type addr then some addr else none

-- The address of an endpoint of a headless Service.
abbrev pub first_address : Bool → RecordType → Option Workload → Option IpAddr
first_address ipv6_enabled record_type none = none
first_address ipv6_enabled record_type (some wl) =
    find (is_wanted ipv6_enabled record_type) wl.workload_ips

abbrev pub endpoint_address : Bool → WorkloadStore → RecordType → Endpoint → Option IpAddr
endpoint_address ipv6_enabled workloads record_type ep =
    first_address ipv6_enabled record_type (find_uid ep.workload_uid workloads)

abbrev pub vip_address : Bool → Workload → RecordType → NetworkAddress → Option IpAddr
vip_address ipv6_enabled client record_type vip =
    if is_record_type vip.address record_type
      && (client.network == vip.network && record_type_enabled ipv6_enabled vip.address)
    then some vip.address
    else none

-- The addresses before the shuffle.
unfoldable pub collect_addresses :
    Bool → WorkloadStore → Workload → Address → RecordType → List IpAddr
collect_addresses ipv6_enabled workloads client (workload wl) record_type =
    filter_map (workload_address ipv6_enabled record_type) wl.workload_ips
collect_addresses ipv6_enabled workloads client (service s) record_type =
    if is_empty s.vips
    then filter_map (endpoint_address ipv6_enabled workloads record_type) (Map.values s.endpoints)
    else filter_map (vip_address ipv6_enabled client record_type) s.vips

pub record Alias (Name : Type 0) : Type 0 where
  pub name : Name
  pub stripped : Option Name

pub record ServerMatch (Name : Type 0) : Type 0 where
  pub name : Name
  pub alias : Alias Name
  pub server : Address

-- A record of an answer: the name it is about, and its data.
pub data Record (Name : Type 0) : Type 0 where
  a_record aaaa_record : Name → ℕ → Record Name
  cname_record : Name → Name → Record Name

pub record Answer (Name : Type 0) : Type 0 where
  pub records : List (Record Name)
  pub is_authoritative : Bool

abbrev pub ip_record : {Name : Type 0} → Name → IpAddr → Record Name
ip_record name (v4 n) = a_record name n
ip_record name (v6 n) = aaaa_record name n

-- The name of the records of addresses, and the records before them.
abbrev pub alias_records : {Name : Type 0} → Bool → Name → Option Name → Name × List (Record Name)
alias_records is_wildcard requested none = (requested, [])
alias_records true requested (some stripped) = (requested, [])
alias_records false requested (some stripped) = (stripped, cname_record requested stripped ∷ [])

abbrev pub ip_records :
    {Name : Type 0} → Name × List (Record Name) → List IpAddr → List (Record Name)
ip_records out addresses = out.1 ++ map (ip_record out.0) addresses

module _ (shuffle : List IpAddr → List IpAddr) where
  unfoldable pub get_addresses :
      Bool → WorkloadStore → Workload → Address → RecordType → List IpAddr
  get_addresses ipv6_enabled workloads client server record_type =
      shuffle (collect_addresses ipv6_enabled workloads client server record_type)

  module _ {Name : Type 0} (is_wildcard : Name → Bool) where
    -- `lookup` once `find_server` found a server, for a supported record type.
    unfoldable pub answer_of :
        Bool → WorkloadStore → Workload → Name → ServerMatch Name → RecordType → Answer Name
    answer_of ipv6_enabled workloads client requested m record_type =
        let addresses = get_addresses ipv6_enabled workloads client m.server record_type in
        if not (service_family_allowed m.server record_type ipv6_enabled) || is_empty addresses
        then record { records = []; is_authoritative = true }
        else record {
          records =
              ip_records (alias_records (is_wildcard m.name) requested m.alias.stripped) addresses;
          is_authoritative = true;
        }

    -- `lookup`: `forwarded` is the answer of the upstream resolver, and `found` what `find_server` gives.
    unfoldable pub lookup :
        {E : Type 0}
        → Bool
        → WorkloadStore
        → Option Workload
        → E
        → Result E (Answer Name)
        → Option (ServerMatch Name)
        → Name
        → RecordType
        → Result E (Answer Name)
    lookup ipv6_enabled workloads none serv_fail forwarded found requested record_type =
        err serv_fail
    lookup ipv6_enabled workloads (some client) serv_fail forwarded found requested record_type =
        if is_record_type_supported record_type
        then elim found [
          | none ↦ forwarded
          | some m ↦ ok (answer_of ipv6_enabled workloads client requested m record_type)
        ]
        else forwarded
