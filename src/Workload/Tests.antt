-- ===== src/Workload/Tests.antt =====
-- The laws of the Workload store of src/state/workload.rs at a store of two Workloads.
use ztunnel.Common.{◌≡◌, ◌↔◌, ◌⊎◌, ◌≤◌, true, false, none, some, String}
use ztunnel.Examples.{near, server}
use ztunnel.Workload.{Workload, rank, identity, workload_identity}
use ztunnel.Workload.Index.{
  WorkloadStore, new, insert, find_address, find_uid, is_local, network_addr,
  was_last_identity_on_node,
}
use ztunnel.Workload.Index.Address.{
  owns, IsIndexed, new-IsIndexed, insert-IsIndexed, find_address_lem,
}
use ztunnel.Workload.Index.Identities.{
  is_at, IsLocalIndexed, new-IsLocalIndexed, insert-IsLocalIndexed, was_last_identity_on_node_iff,
}

abbrev twin : Workload
twin = record near { uid = "ns//Pod/twin" }

abbrev one : WorkloadStore
one = insert near (new (some "node"))

abbrev two : WorkloadStore
two = insert twin one

one-IsIndexed : IsIndexed one
one-IsIndexed = insert-IsIndexed near (new (some "node")) (new-IsIndexed (some "node"))

one-IsLocalIndexed : IsLocalIndexed one
one-IsLocalIndexed =
    insert-IsLocalIndexed near (new (some "node")) (new-IsLocalIndexed (some "node"))

two-IsIndexed : IsIndexed two
two-IsIndexed = insert-IsIndexed twin one one-IsIndexed

two-IsLocalIndexed : IsLocalIndexed two
two-IsLocalIndexed = insert-IsLocalIndexed twin one one-IsLocalIndexed

insert-IsIndexed_example : IsIndexed (insert twin one)
insert-IsIndexed_example = insert-IsIndexed twin one one-IsIndexed

find_address_lem_example :
    ((find_address (network_addr "" server) two ≡ none)
      × ((uid : String) (x : Workload)
          → find_uid uid two ≡ some x
          → owns x (network_addr "" server) ≡ false))
    ⊎ ((w : Workload) × (find_address (network_addr "" server) two ≡ some w)
        × (find_uid w.uid two ≡ some w)
        × (owns w (network_addr "" server) ≡ true)
        × ((uid : String) (x : Workload)
            → find_uid uid two ≡ some x
            → owns x (network_addr "" server) ≡ true
            → rank x ≤ rank w))
find_address_lem_example = find_address_lem (network_addr "" server) two two-IsIndexed

was_last_identity_on_node_iff_example :
    (was_last_identity_on_node "node" (identity near) two ≡ true) ↔ (
      (is_local two.local_node "node" ≡ true)
      × ((uid : String)
          → is_at (workload_identity (identity near)) two.local_node (find_uid uid two) ≡ false))
was_last_identity_on_node_iff_example =
    was_last_identity_on_node_iff "node" (identity near) two two-IsLocalIndexed
