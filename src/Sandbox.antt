-- ===== src/Sandbox.antt =====
-- src/sandbox/discovery.rs: the Sandboxes that the control plane sent, and the Workload that attests
-- each.
pub mod Binding
mod Tests
use Prim.Native.Char.{code}
use Prim.Native.String.{len}
use ztunnel.Common.{
  ℕ, ◌≡◌, Bool, true, false, not, ◌&&◌, List, [], ◌∷◌, ◌++◌, Option, none, some, String, is_some,
  is_none, is_empty, retain, filter_map, leb, ◌==◌, string_eq, option_beq, if◌then◌else◌,
}
use ztunnel.Common.Map
use ztunnel.Common.Map.{Map}
use ztunnel.Common.Outcome.{Result, ok, err, ◌>>=◌, ◌>>◌, ensure}
use ztunnel.Net.{IpNetApi}
use ztunnel.Policy.Types.{TrafficPolicy, policy_eq}
use ztunnel.Policy.Convert.{PolicyError, XdsTrafficPolicy, policy_of, validate}

pub data SandboxError : Type 0 where
  invalid_uid empty_attester name_differs : SandboxError
  invalid_policy : PolicyError → SandboxError

-- `id.bytes().all(|b| b.is_ascii_graphic())`: a character outside ASCII has no graphic byte.
abbrev pub all_graphic : String → Bool
all_graphic String.[] = true
all_graphic (String.◌∷◌ c s) = leb 33 (code c) && leb (code c) 126 && all_graphic s

pub validate_id : String → Result SandboxError (Unit {0})
validate_id id =
    ensure (not (id == "") && leb (len id) 512 && not (id == "*") && all_graphic id) invalid_uid

pub record Sandbox : Type 0 where
  pub uid : String
  pub workload_uid : Option String
  pub traffic_policy : Option TrafficPolicy

pub record XdsSandbox : Type 0 where
  pub uid : String
  pub attester : Option String  -- the attester's workload UID
  pub traffic_policy : Option XdsTrafficPolicy

pub record XdsSandboxResource : Type 0 where
  pub name : String
  pub resource : XdsSandbox

abbrev pub of_policy {ℓ} : {A : Type ℓ} → Result PolicyError A → Result SandboxError A
of_policy (ok a) = ok a
of_policy (err e) = err (invalid_policy e)

-- `self.workload_uid.as_ref().is_none_or(|uid| !uid.is_empty())`
abbrev pub attester_named : Option String → Bool
attester_named none = true
attester_named (some uid) = not (uid == "")

abbrev pub validate_policy : Option TrafficPolicy → Result SandboxError (Unit {0})
validate_policy none = ok tt
validate_policy (some p) = of_policy (validate p)

pub validate_sandbox : Sandbox → Result SandboxError (Unit {0})
unfolding validate_id validate
validate_sandbox s = do
  validate_id s.uid
  ensure (attester_named s.workload_uid) empty_attester
  validate_policy s.traffic_policy

abbrev pub convert_policy :
    IpNetApi → Option XdsTrafficPolicy → Result SandboxError (Option TrafficPolicy)
convert_policy net none = ok none
convert_policy net (some x) = do p ← of_policy (policy_of net x); ok (some p)

-- `TryFrom<XdsSandbox> for Sandbox`
pub sandbox_of : IpNetApi → XdsSandbox → Result SandboxError Sandbox
unfolding validate_sandbox policy_of
sandbox_of net resource = do
  traffic_policy ← convert_policy net resource.traffic_policy
  let sandbox : Sandbox = record {
    uid = resource.uid;
    workload_uid = resource.attester;
    traffic_policy = traffic_policy;
  }
  validate_sandbox sandbox
  ok sandbox

pub record SandboxStore : Type 0 where
  pub resources : Map String Sandbox
  pub by_workload : Map String (List String)

abbrev pub new : SandboxStore
new = record { resources = []; by_workload = [] }

pub remove_workload_binding : String → String → SandboxStore → SandboxStore
remove_workload_binding workload_uid id s = elim (Map.get workload_uid s.by_workload) [
  | none ↦ s
  | some ids ↦
      let kept = retain (λ i. not (i == id)) ids in
      if is_empty kept
      then record s { by_workload = Map.remove workload_uid s.by_workload }
      else record s { by_workload = Map.insert workload_uid kept s.by_workload }
]

abbrev pub or_empty : Option (List String) → List String
or_empty none = []
or_empty (some ids) = ids

-- `self.by_workload.entry(uid).or_default().push(id)`
pub push_binding : String → String → SandboxStore → SandboxStore
push_binding workload_uid id s = record s {
  by_workload =
      Map.insert workload_uid (or_empty (Map.get workload_uid s.by_workload) ++ (id ∷ []))
        s.by_workload;
}

abbrev pub unbind : Option String → String → SandboxStore → SandboxStore
unbind none id s = s
unbind (some uid) id s = remove_workload_binding uid id s

abbrev pub bind : Option String → String → SandboxStore → SandboxStore
bind none id s = s
bind (some uid) id s = push_binding uid id s

-- `previous.as_ref().and_then(|s| s.workload_uid.as_deref())`
abbrev pub workload_of : Option Sandbox → Option String
workload_of none = none
workload_of (some s) = s.workload_uid

abbrev pub policy_changed : Option Sandbox → Sandbox → Bool
policy_changed none sandbox = true
policy_changed (some old) sandbox = not (
    option_beq old.workload_uid sandbox.workload_uid
    && option_beq old.traffic_policy sandbox.traffic_policy)

pub insert : Sandbox → SandboxStore → SandboxStore × Bool
unfolding remove_workload_binding push_binding
insert sandbox s =
    let previous = Map.get sandbox.uid s.resources in
    let stored = record s { resources = Map.insert sandbox.uid sandbox s.resources } in
    let rebound =
      bind sandbox.workload_uid sandbox.uid (unbind (workload_of previous) sandbox.uid stored) in
    (
      if option_beq (workload_of previous) sandbox.workload_uid then stored else rebound,
      policy_changed previous sandbox,
    )

pub update : IpNetApi → XdsSandboxResource → SandboxStore → SandboxStore × Result SandboxError Bool
unfolding insert sandbox_of
update net u s =
    if u.resource.uid == u.name
    then elim (sandbox_of net u.resource) [
      | err e ↦ (s, err e)
      | ok sandbox ↦ ((insert sandbox s).0, ok (insert sandbox s).1)
    ]
    else (s, err name_differs)

pub remove : String → SandboxStore → SandboxStore × Bool
unfolding remove_workload_binding
remove name s = elim (Map.get name s.resources) [
  | none ↦ (s, false)
  | some previous ↦ (
    unbind previous.workload_uid name (record s { resources = Map.remove name s.resources }),
    true,
  )
]

abbrev pub get : String → SandboxStore → Option Sandbox
get id s = Map.get id s.resources

pub data Lookup : Type 0 where
  found : Option Sandbox → Lookup
  workload_mismatch : Lookup

unfoldable pub get_for_workload : String → String → SandboxStore → Lookup
get_for_workload id workload_uid s = elim (get id s) [
  | none ↦ found none
  | some sandbox ↦ elim sandbox.workload_uid [
    | none ↦ found none
    | some uid ↦ if uid == workload_uid then found (some sandbox) else workload_mismatch
  ]
]

unfoldable pub get_by_workload : String → SandboxStore → List Sandbox
get_by_workload workload_uid s =
    filter_map (λ id. get id s) (or_empty (Map.get workload_uid s.by_workload))
