-- ===== src/State/Upstream.antt =====
-- The address that an upstream is dialled at: `pick_workload_destination_or_resolve`,
-- `resolve_on_demand_dns`, `finalize_upstream` and `fetch_waypoint` of src/state.rs. The resolver and
-- the random choices are parameters.
pub mod Laws
use ztunnel.Common.{
  ℕ, ◌≡◌, Bool, true, false, not, List, [], ◌∷◌, Option, none, some, String, ◌==◌, string_eq,
  option_eq, contains, retain, find, first, if◌then◌else◌,
}
use ztunnel.Common.Outcome.{Result, ok, err, ◌>>=◌}
use ztunnel.Net.{IpAddr, ip_eq, SocketAddr, is_ipv6, NetworkAddress}
use ztunnel.Service.{Service, IpFamily, accepts_ip}
use ztunnel.State.{ProxyState, Address, workload, service, find_hostname}
use ztunnel.State.Balance.{
  Backend, UpstreamDestination, upstream_parts, original_destination, find_upstream,
  find_upstream_from_service,
}
use ztunnel.Workload.{Workload, Destination, address, hostname, GatewayAddress}

pub data UpstreamError : Type 0 where
  no_valid_destination : Workload → UpstreamError
  no_resolved_addresses empty_resolved_addresses : String → UpstreamError
  unknown_waypoint : UpstreamError

pub record Upstream : Type 0 where
  pub workload : Workload
  pub selected_workload_ip : IpAddr
  pub port : ℕ
  pub service_sans : List String

-- `iter.find_or_first(p)`
abbrev pub find_or_first {ℓ} : {A : Type ℓ} → (A → Bool) → List A → Option A
find_or_first p xs = elim (find p xs) [ some x ↦ some x | none ↦ first xs ]

abbrev pub same_family : IpAddr → IpAddr → Bool
same_family a b = if is_ipv6 a then is_ipv6 b else not (is_ipv6 b)

abbrev pub admits_family : Option IpFamily → IpAddr → Bool
admits_family none ip = true
admits_family (some f) ip = accepts_ip f ip

abbrev pub families_of : Option Service → Option IpFamily
families_of none = none
families_of (some svc) = svc.ip_families

abbrev pub sans_of : Option Service → List String
sans_of none = []
sans_of (some svc) = svc.subject_alt_names

module _ (lookup_ip : String → Option (List IpAddr)) (choose_ip : List IpAddr → Option IpAddr) where
  pub resolve_on_demand_dns : Workload → SocketAddr → Result UpstreamError IpAddr
  resolve_on_demand_dns wl target = elim (lookup_ip wl.hostname) [
    | none ↦ err (no_resolved_addresses wl.uid)
    | some records ↦ elim (choose_ip (retain (same_family target.ip) records)) [
      | some ip ↦ ok ip
      | none ↦ elim (choose_ip (retain (λ r. not (same_family target.ip r)) records)) [
        | some ip ↦ ok ip
        | none ↦ err (empty_resolved_addresses wl.uid)
      ]
    ]
  ]

  pub pick_workload_destination_or_resolve :
      Workload → SocketAddr → Option IpFamily → Result UpstreamError IpAddr
  unfolding resolve_on_demand_dns
  pick_workload_destination_or_resolve wl target family =
      if contains wl.workload_ips target.ip
      then ok target.ip
      else elim (find_or_first (λ ip. same_family target.ip ip)
          (retain (admits_family family) wl.workload_ips)) [
            | some ip ↦ ok ip
            | none ↦
                if wl.hostname == ""
                then err (no_valid_destination wl)
                else resolve_on_demand_dns wl target
          ]

  pub finalize_upstream :
      SocketAddr → Option UpstreamDestination → Result UpstreamError (Option Upstream)
  unfolding pick_workload_destination_or_resolve
  finalize_upstream target (some (upstream_parts wl port svc)) = do
    ip ← pick_workload_destination_or_resolve wl target (families_of svc)
    ok (
        some (record {
          workload = wl;
          selected_workload_ip = ip;
          port = port;
          service_sans = sans_of svc;
        }))
  finalize_upstream target (some original_destination) = ok none
  finalize_upstream target none = ok none

  abbrev pub or_unknown : Option Upstream → Result UpstreamError Upstream
  or_unknown none = err unknown_waypoint
  or_unknown (some u) = ok u

  pub fetch_waypoint :
      (List Backend → Option Backend)
      → ProxyState
      → GatewayAddress
      → Workload
      → SocketAddr
      → Result UpstreamError Upstream
  unfolding finalize_upstream
  fetch_waypoint choose s gw src target = elim gw.destination [
    | address a ↦
        let addr : SocketAddr = record { ip = a.address; port = gw.hbone_mtls_port } in
        finalize_upstream addr (find_upstream choose s a.network src addr) >>= or_unknown
    | hostname host ↦ elim (find_hostname s host) [
      | none ↦ err unknown_waypoint
      | some (service svc) ↦
          finalize_upstream target (find_upstream_from_service choose s src gw.hbone_mtls_port svc)
          >>= or_unknown
      | some (workload wl) ↦
          finalize_upstream target (some (upstream_parts wl gw.hbone_mtls_port none)) >>= or_unknown
    ]
  ]
