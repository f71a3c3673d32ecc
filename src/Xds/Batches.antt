-- ===== src/Xds/Batches.antt =====
-- `handle_single_resource` of src/xds/client.rs, and the four handlers of src/xds.rs.
use ztunnel.Common.{Bool, false, ◌||◌, List, [], ◌∷◌, String, if◌then◌else◌}
use ztunnel.Common.Outcome.{Result, ok, err}
use ztunnel.Policy.Store as Policies
use ztunnel.Policy.Convert.{XdsTrafficPolicy, PolicyError}
use ztunnel.Sandbox as Sandboxes
use ztunnel.Sandbox.{XdsSandbox, SandboxError}
use ztunnel.Workload.Convert.{XdsWorkload}
use ztunnel.Xds.{
  Updating, XdsError, sandbox_error, policy_error, of_workload, ConvertApi, XdsAddress,
  insert_workload, insert_address, remove, send_policies,
}

pub data XdsUpdate (T : Type 0) : Type 0 where
  update : (name : String) (resource : T) → XdsUpdate T
  removal : (name : String) → XdsUpdate T

abbrev pub update_name : {T : Type 0} → XdsUpdate T → String
update_name (update name resource) = name
update_name (removal name) = name

pub record RejectedConfig : Type 0 where
  pub name : String
  pub reason : XdsError

abbrev pub rejected :
    String → Result XdsError (Unit {0}) → List RejectedConfig → List RejectedConfig
rejected name (ok u) rest = rest
rejected name (err e) rest = record { name = name; reason = e } ∷ rest

abbrev pub outcome : List RejectedConfig → Result (List RejectedConfig) (Unit {0})
outcome [] = ok tt
outcome (r ∷ rs) = err (r ∷ rs)

module _ {T : Type 0} {S : Type 0} where
  -- The state after the updates, and the rejects in their order.
  unfoldable pub handle_all :
      (XdsUpdate T → S → S × Result XdsError (Unit {0}))
      → List (XdsUpdate T)
      → S
      → S × List RejectedConfig
  handle_all handle_one [] s = (s, [])
  handle_all handle_one (u ∷ us) s =
      let (next, r) = handle_one u s in
      let (last, rejects) = handle_all handle_one us next in
      (last, rejected (update_name u) r rejects)

  abbrev pub handle_single_resource :
      (XdsUpdate T → S → S × Result XdsError (Unit {0}))
      → List (XdsUpdate T)
      → S
      → S × Result (List RejectedConfig) (Unit {0})
  handle_single_resource handle_one updates s =
      let (last, rejects) = handle_all handle_one updates s in (last, outcome rejects)

unfoldable pub handle_workload :
    ConvertApi → XdsUpdate XdsWorkload → Updating → Updating × Result XdsError (Unit {0})
handle_workload api (update name w) u =
    let (next, r) = insert_workload api w u in (next, of_workload r)
handle_workload api (removal name) u = (remove name u, ok tt)

unfoldable pub handle_address :
    ConvertApi → XdsUpdate XdsAddress → Updating → Updating × Result XdsError (Unit {0})
handle_address api (update name a) u = insert_address api a u
handle_address api (removal name) u = (remove name u, ok tt)

-- `changed |= …`, where an error leaves the flag.
abbrev pub noting :
    Bool → Updating → Result XdsError Bool → (Updating × Bool) × Result XdsError (Unit {0})
noting changed u (ok c) = ((u, changed || c), ok tt)
noting changed u (err e) = ((u, changed), err e)

abbrev pub of_sandbox : Result SandboxError Bool → Result XdsError Bool
of_sandbox (ok c) = ok c
of_sandbox (err e) = err (sandbox_error e)

abbrev pub of_policy : Result PolicyError Bool → Result XdsError Bool
of_policy (ok c) = ok c
of_policy (err e) = err (policy_error e)

abbrev pub with_sandboxes : Sandboxes.SandboxStore → Updating → Updating
with_sandboxes s u = record u { state = record (u.state) { sandboxes = s } }

abbrev pub with_policies : Policies.TrafficPolicyStore → Updating → Updating
with_policies s u = record u { state = record (u.state) { policies = s } }

unfoldable pub handle_sandbox :
    ConvertApi
    → XdsUpdate XdsSandbox
    → Updating × Bool
    → (Updating × Bool) × Result XdsError (Unit {0})
handle_sandbox api (update name resource) (u, changed) =
    let (next, r) =
      Sandboxes.update api.nets (record { name = name; resource = resource }) u.state.sandboxes in
    noting changed (with_sandboxes next u) (of_sandbox r)
handle_sandbox api (removal name) (u, changed) =
    let (next, c) = Sandboxes.remove name u.state.sandboxes in
    noting changed (with_sandboxes next u) (ok c)

unfoldable pub handle_policy :
    ConvertApi
    → XdsUpdate XdsTrafficPolicy
    → Updating × Bool
    → (Updating × Bool) × Result XdsError (Unit {0})
handle_policy api (update name resource) (u, changed) =
    let (next, r) =
      Policies.update api.nets (record { name = name; resource = resource }) u.state.policies in
    noting changed (with_policies next u) (of_policy r)
handle_policy api (removal name) (u, changed) =
    let (next, c) = Policies.remove name u.state.policies in
    noting changed (with_policies next u) (ok c)

-- The end of a batch of Sandboxes or policies: one notification where something changed.
abbrev pub notify :
    (Updating × Bool) × Result (List RejectedConfig) (Unit {0})
    → Updating × Result (List RejectedConfig) (Unit {0})
notify ((u, changed), r) = (if changed then send_policies u else u, r)

-- A batch, by its handler.
pub data Batch : Type 0 where
  workloads : List (XdsUpdate XdsWorkload) → Batch
  addresses : List (XdsUpdate XdsAddress) → Batch
  sandboxes : List (XdsUpdate XdsSandbox) → Batch
  policies : List (XdsUpdate XdsTrafficPolicy) → Batch

unfoldable pub handle :
    ConvertApi → Batch → Updating → Updating × Result (List RejectedConfig) (Unit {0})
handle api (workloads us) u = handle_single_resource (handle_workload api) us u
handle api (addresses us) u = handle_single_resource (handle_address api) us u
handle api (sandboxes us) u = notify (handle_single_resource (handle_sandbox api) us (u, false))
handle api (policies us) u = notify (handle_single_resource (handle_policy api) us (u, false))

unfoldable pub handle_batches : ConvertApi → List Batch → Updating → Updating
handle_batches api [] u = u
handle_batches api (b ∷ bs) u = handle_batches api bs (handle api b u).0
