-- ===== src/Firewall/Inpod/Tests.antt =====
-- The laws of the firewall controller at a Pod whose backend fails at first.
use ztunnel.Common.{
  ◌≡◌, refl, arith, true, false, List, [], ◌∷◌, none, some, String, string_eq, ◌==◌, if◌then◌else◌,
}
use ztunnel.Common.Map
use ztunnel.Examples.{near}
use ztunnel.Inpod.{Netns, add_pod, remove_pod}
use ztunnel.Policy.Store as Policies
use ztunnel.Sandbox as Sandboxes
use ztunnel.Service.Index as Services
use ztunnel.State.{ProxyState}
use ztunnel.Workload.{WorkloadInfo}
use ztunnel.Workload.Index as Workloads
use ztunnel.Firewall.Inpod.{
  StageHash, Host, PodFirewallState, new, handle_add_pod, ControllerEvent, receives,
  policies_changed, workloads_changed, retry_ticks, run, has_retryable_pods,
}
use ztunnel.Firewall.Inpod.Enrolls.{IsEnrolledAs, handle_add_pod_lem}
use ztunnel.Firewall.Inpod.Retries.{tick_count, IsNoAddition, run-stops}

abbrev hash : StageHash
hash = λ uid ps sandbox. 7

abbrev works : Host
works = record { init = λ n. true; apply = λ n r. true; cleanup = λ n. true }

abbrev fails : Host
fails = record { init = λ n. false; apply = λ n r. true; cleanup = λ n. true }

abbrev state : ProxyState
state = record {
  workloads = Workloads.insert near (Workloads.new none);
  services = Services.new;
  policies = Policies.new;
  sandboxes = Sandboxes.new;
}

abbrev info : WorkloadInfo
info = record { name = "near"; namespace = "ns"; service_account = "sa" }

abbrev netns : Netns
netns = record { netns_id = 3 }

abbrev events : List ControllerEvent
events =
    receives fails state (add_pod "a" info netns)
    ∷ policies_changed works state
    ∷ retry_ticks fails state
    ∷ receives works state (remove_pod "b")
    ∷ []

abbrev more : List ControllerEvent
more =
    retry_ticks fails state
    ∷ policies_changed works state
    ∷ retry_ticks fails state
    ∷ retry_ticks fails state
    ∷ receives works state (remove_pod "b")
    ∷ workloads_changed fails state
    ∷ retry_ticks fails state
    ∷ retry_ticks fails state
    ∷ []

run-stops_example : has_retryable_pods (run hash more (run hash events new)) ≡ false
unfolding tick_count IsNoAddition
run-stops_example =
    run-stops hash events more (omega arith) (tt, (tt, (tt, (tt, (tt, (tt, (tt, (tt, tt))))))))

handle_add_pod_lem_example :
    (pod : PodFirewallState) × ((k : String)
      → Map.get k (handle_add_pod hash works state "a" info netns new).pods
        ≡ (if "a" == k then some pod else Map.get k []))
    × (pod.netns ≡ netns)
    × (pod.workload_info ≡ info)
    × IsEnrolledAs works state info netns []
        (handle_add_pod hash works state "a" info netns new).kernel
        pod.state
unfolding Map.get
handle_add_pod_lem_example = handle_add_pod_lem hash works state "a" info netns new refl
