-- ===== src/Service/Tests.antt =====
-- The laws of the Service store of src/state/service.rs at Services of one hostname and one VIP.
use ztunnel.Common.{
  String, sym, subst, false, string_eq, ◌≡◌, refl, [], ◌∷◌, none, some, find, first, if◌then◌else◌,
}
use ztunnel.Common.Map
use ztunnel.Common.Map.{HasDistinctKeys}
use ztunnel.Examples.{service_in, vip, web_host, other_host, endpoint}
use ztunnel.Net.{host_beq, NamespacedHostname}
use ztunnel.Service.{Service}
use ztunnel.Service.Match.{
  find_best_match, or_else, is_client, is_preferred, find_last, find_best_match_lem,
}
use ztunnel.Service.Index.{
  ServiceStore, new, insert, remove, insert_endpoint, get_by_namespaced_host, get_by_vip,
}
use ztunnel.Service.Index.Hosts.{
  IsKeyed, new-IsKeyed, insert_endpoint-IsKeyed, get-remove_service, apply_all-IsKeyed, inserts,
  staged_at,
}
use ztunnel.Service.Index.Staging.{endpoint_at, staging_order}
use ztunnel.Service.Index.Inserts.{Holds, insert_lem}
use ztunnel.Service.Index.Vips.{remove_shared_vip}

abbrev ours : Service
ours = service_in "ns"

abbrev theirs : Service
theirs = service_in "other"

abbrev both : ServiceStore
both = insert theirs (insert ours new)

both-IsKeyed : IsKeyed both
both-IsKeyed = apply_all-IsKeyed (inserts ours ∷ inserts theirs ∷ [])

find_best_match_lem_example :
    find_best_match (ours ∷ theirs ∷ []) (some "other") none
    ≡ or_else (find (is_client (some "other")) (ours ∷ theirs ∷ [])) (
        or_else (find_last (λ s. s.canonical) (ours ∷ theirs ∷ [])) (
          or_else
            (find_last (is_preferred none) (ours ∷ theirs ∷ []))
            (first (ours ∷ theirs ∷ []))))
find_best_match_lem_example = find_best_match_lem (ours ∷ theirs ∷ []) (some "other") none

-- An endpoint waits for the Service.
abbrev waiting : ServiceStore
waiting = insert_endpoint web_host (endpoint "third") new

waiting-IsKeyed : IsKeyed waiting
waiting-IsKeyed = insert_endpoint-IsKeyed web_host (endpoint "third") new new-IsKeyed

third_staged : staged_at web_host waiting ≡ ("third", endpoint "third") ∷ []
unfolding insert_endpoint get_by_namespaced_host Map.get Map.insert
third_staged = refl

insert_lem_example :
    (stored : Service) × (get_by_namespaced_host web_host (insert ours waiting) ≡ some stored)
    × (record stored { endpoints = ours.endpoints } ≡ ours)
    × ((u : String)
        → Holds ours
            (Map.get u (staged_at web_host waiting))
            (Map.get u ours.endpoints)
            (Map.get u stored.endpoints))
    × ((k : NamespacedHostname)
        → host_beq web_host k ≡ false
        → get_by_namespaced_host k (insert ours waiting) ≡ get_by_namespaced_host k waiting)
unfolding Map.get
insert_lem_example =
    insert_lem ours waiting waiting-IsKeyed (subst HasDistinctKeys (sym third_staged) (refl, tt))

get-remove_service_example :
    get_by_namespaced_host other_host (remove web_host both).0
    ≡ (if host_beq web_host other_host then none else get_by_namespaced_host other_host both)
get-remove_service_example = get-remove_service web_host other_host both both-IsKeyed

empty_ours : get_by_namespaced_host web_host new ≡ none
unfolding get_by_namespaced_host Map.get
empty_ours = refl

none_staged : Map.get "third" (staged_at web_host new) ≡ none
unfolding Map.get
none_staged = refl

distinct_staged : HasDistinctKeys (staged_at web_host new)
unfolding Map.get
distinct_staged = tt

staging_order_example :
    endpoint_at web_host "third" (insert ours (insert_endpoint web_host (endpoint "third") new))
    ≡ endpoint_at web_host "third" (insert_endpoint web_host (endpoint "third") (insert ours new))
staging_order_example =
    staging_order ours (endpoint "third") "third" new new-IsKeyed empty_ours distinct_staged
      none_staged

ours_stored : get_by_namespaced_host web_host both ≡ some ours
unfolding get_by_namespaced_host insert Map.get Map.insert Map.remove
ours_stored = refl

theirs_stored : get_by_namespaced_host other_host both ≡ some theirs
unfolding get_by_namespaced_host insert Map.get Map.insert Map.remove
theirs_stored = refl

theirs_at_vip : get_by_vip vip both ≡ some theirs
unfolding get_by_vip insert Map.get Map.insert Map.remove
theirs_at_vip = refl

remove_shared_vip_example :
    (get_by_vip vip (remove web_host both).0 ≡ none)
    × (get_by_namespaced_host other_host (remove web_host both).0 ≡ some theirs)
remove_shared_vip_example =
    remove_shared_vip web_host other_host vip ours theirs both both-IsKeyed ours_stored refl
      theirs_stored refl theirs_at_vip
