-- ===== src/Sandbox/Tests.antt =====
-- The laws of the Sandbox store of src/sandbox/discovery.rs at a Sandbox that moves to another Workload.
use ztunnel.Common.{◌≡◌, refl, some, String}
use ztunnel.Common.Map
use ztunnel.Examples.{net, xds_policy}
use ztunnel.Sandbox
use ztunnel.Sandbox.{
  Sandbox, XdsSandbox, XdsSandboxResource, SandboxStore, update, get, get_by_workload,
  get_for_workload, workload_mismatch,
}
use ztunnel.Sandbox.Binding.{IsConsistent, new-IsConsistent, update-IsConsistent}

abbrev resource : String → XdsSandboxResource
resource attester = record {
  name = "box";
  resource = record { uid = "box"; attester = some attester; traffic_policy = some xds_policy };
}

abbrev placed : SandboxStore
placed = (update net (resource "near") Sandbox.new).0

abbrev moved : SandboxStore
moved = (update net (resource "far") placed).0

moved_away : get_for_workload "box" "near" moved ≡ workload_mismatch
unfolding update get_for_workload Map.get Map.insert
moved_away = refl

moved-IsConsistent : IsConsistent moved
moved-IsConsistent =
    update-IsConsistent net (resource "far") placed
      (update-IsConsistent net (resource "near") Sandbox.new new-IsConsistent)

update-IsConsistent_example : IsConsistent (update net (resource "near") Sandbox.new).0
update-IsConsistent_example = update-IsConsistent net (resource "near") Sandbox.new new-IsConsistent
