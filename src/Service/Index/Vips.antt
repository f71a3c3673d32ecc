-- ===== src/Service/Index/Vips.antt =====
-- The index by VIP: what a removal does to an address that two Services list.
use ztunnel.Common.{
  ◌≡◌, refl, Bool, true, false, List, [], ◌∷◌, none, some, arith, any, if◌then◌else◌,
}
use ztunnel.Common.Map
use ztunnel.Common.Map.{Map, get-insert, get-remove}
use ztunnel.Net.{NamespacedHostname, NetworkAddress, addr_eq, addr_beq, addr_beq_iff, host_beq}
use ztunnel.Service.{Service}
use ztunnel.Service.Index.{ServiceStore, get_by_vip, get_by_namespaced_host, unmap_vips, remove}
use ztunnel.Service.Index.Hosts.{IsKeyed, get-remove_service}

abbrev pub lists_vip : NetworkAddress → List NetworkAddress → Bool
lists_vip v vips = any (λ w. addr_beq w v) vips

get-unmap_vips :
    (v : NetworkAddress) (vips : List NetworkAddress) (m : Map NetworkAddress Service)
    → Map.get v (unmap_vips vips m) ≡ (if lists_vip v vips then none else Map.get v m)
get-unmap_vips v [] m = refl
get-unmap_vips v (w ∷ vips) m =
    ground (arith, get-unmap_vips v vips (Map.remove w m), get-remove w v m, addr_beq_iff w v)

-- In a keyed store, a removal takes every VIP of the removed Service out of the index, whichever Service the index
-- names there: another Service, of another name, that lists the address too stays stored, and its
-- VIP is no longer found.
pub remove_shared_vip :
    (host other : NamespacedHostname) (v : NetworkAddress) (prev kept : Service) (s : ServiceStore)
    → IsKeyed s
    → get_by_namespaced_host host s ≡ some prev
    → lists_vip v prev.vips ≡ true
    → get_by_namespaced_host other s ≡ some kept
    → host_beq host other ≡ false
    → get_by_vip v s ≡ some kept
    → (get_by_vip v (remove host s).0 ≡ none)
      × (get_by_namespaced_host other (remove host s).0 ≡ some kept)
unfolding get_by_vip remove
remove_shared_vip host other v prev kept s keyed e l k apart found = (
  rw (e, remove) (ground (arith, get-unmap_vips v prev.vips s.by_vip)),
  ground (arith, get-remove_service host other s keyed),
)
