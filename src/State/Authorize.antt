-- ===== src/State/Authorize.antt =====
-- `DemandProxyState::assert_rbac` and `fetch_sandbox` of src/state.rs: the two stages that a connection
-- passes.
use ztunnel.Common.{
  ◌≡◌, refl, ◌≢◌, ◌↔◌, ◌⊎◌, inl, inr, List, [], ◌∷◌, Option, none, some, String, arith, All, map,
  first, Option-cases, string_eq,
}
use ztunnel.Common.Map
use ztunnel.Common.Outcome.{Result, ok, err, ◌>>=◌, ◌>>◌, >>=-eq-ok}
use ztunnel.Net.{IpNetApi}
use ztunnel.Policy.{Policies, assert_policies}
use ztunnel.Policy.Types.{
  Direction, inbound, outbound, Connection, allow, Rejection, explicitly_denied,
  binding_unavailable,
}
use ztunnel.Policy.Stage.{IsResolved, IsUnconfigured, FirstMatch, stage_rules, assert_policies_iff}
use ztunnel.Policy.Store
use ztunnel.Sandbox.{Sandbox, Lookup, found, workload_mismatch, get_for_workload, get_by_workload}
use ztunnel.State.{ProxyState}
use ztunnel.Workload.{Workload, traffic_policies}
use ztunnel.Workload.Index.{find_uid}

pub record ProxyRbacContext : Type 0 where
  pub conn : Connection
  pub workload : Workload
  pub sandbox : Option Sandbox

-- `fetch_sandbox`
pub fetch_sandbox : ProxyState → Workload → Option Sandbox
fetch_sandbox s wl = first (get_by_workload wl.uid s.sandboxes)

abbrev pub of_lookup : String → Lookup → Result Rejection (Option Sandbox)
of_lookup uid (found sandbox) = ok sandbox
of_lookup uid workload_mismatch = err (explicitly_denied uid binding_unavailable)

-- `let sandbox = match &ctx.sandbox ..`
pub sandbox_of_context :
    ProxyState → Option Sandbox → Direction → Workload → Result Rejection (Option Sandbox)
unfolding fetch_sandbox
sandbox_of_context s (some selected) d wl =
    of_lookup selected.uid (get_for_workload selected.uid wl.uid s.sandboxes)
sandbox_of_context s none outbound wl = ok none
sandbox_of_context s none inbound wl = ok (fetch_sandbox s wl)

-- The stage of the Sandbox's own policy.
abbrev pub inline_stage : Option Sandbox → Policies
inline_stage none = []
inline_stage (some sandbox) = elim sandbox.traffic_policy [
  | none ↦ []
  | some p ↦ ("inline", some p) ∷ []
]

abbrev pub assert_inline : IpNetApi → Option Sandbox → Connection → Result Rejection (Unit {0})
assert_inline net none conn = ok tt
assert_inline net (some sandbox) conn = elim sandbox.traffic_policy [
  | none ↦ ok tt
  | some p ↦ assert_policies net (("inline", some p) ∷ []) conn
]

unfoldable pub assert_rbac : IpNetApi → ProxyState → ProxyRbacContext → Result Rejection (Unit {0})
unfolding sandbox_of_context
assert_rbac net s ctx = elim (find_uid ctx.workload.uid s.workloads) [
  | none ↦ err (explicitly_denied ctx.workload.uid binding_unavailable)
  | some workload ↦ do
    sandbox ← sandbox_of_context s ctx.sandbox ctx.conn.direction workload
    assert_inline net sandbox ctx.conn
    assert_policies net (traffic_policies workload s.policies) ctx.conn
]

-- A stage of policies that admits the connection, as `assert_policies_iff` reads it.
abbrev pub Admits : IpNetApi → Connection → Policies → Type 0
Admits net conn ps =
    IsResolved ps
    × (IsUnconfigured conn.direction ps ⊎ FirstMatch net conn (stage_rules conn.direction ps) allow)

-- The Sandbox whose policy the connection meets. A selected one is read again from the store: one
-- that is gone, or that has no attester, counts as none; it must not be another Workload's. Without
-- a selection an inbound connection meets the Workload's first Sandbox, an outbound one none.
abbrev pub IsSelected : ProxyState → Workload → Direction → Option Sandbox → Option Sandbox → Type 0
IsSelected s wl d (some selected) none =
    (Map.get selected.uid s.sandboxes.resources ≡ none)
    ⊎ ((current : Sandbox) × (Map.get selected.uid s.sandboxes.resources ≡ some current)
        × (current.workload_uid ≡ none))
IsSelected s wl d (some selected) (some current) =
    (Map.get selected.uid s.sandboxes.resources ≡ some current)
    × (current.workload_uid ≡ some wl.uid)
IsSelected s wl outbound none o = o ≡ none
IsSelected s wl inbound none o = o ≡ first (get_by_workload wl.uid s.sandboxes)

sandbox_of_context_iff :
    (s : ProxyState) (selected : Option Sandbox) (d : Direction) (wl : Workload)
    (o : Option Sandbox)
    → (sandbox_of_context s selected d wl ≡ ok o) ↔ IsSelected s wl d selected o
unfolding sandbox_of_context fetch_sandbox get_for_workload
sandbox_of_context_iff s (some selected) d wl none =
    elim (Option-cases (Map.get selected.uid s.sandboxes.resources)) [
      | inl e ↦ ground arith
      | inr (current, e) ↦ elim (Option-cases current.workload_uid) [
        | inl f ↦ ground arith
        | inr (uid, f) ↦ ground arith
      ]
    ]
sandbox_of_context_iff s (some selected) d wl (some c) =
    elim (Option-cases (Map.get selected.uid s.sandboxes.resources)) [
      | inl e ↦ ground arith
      | inr (current, e) ↦ elim (Option-cases current.workload_uid) [
        | inl f ↦ ground arith
        | inr (uid, f) ↦ ground (arith, string_eq.beq_iff uid wl.uid)
      ]
    ]
sandbox_of_context_iff s none outbound wl o = ground arith
sandbox_of_context_iff s none inbound wl o = ground arith

assert_inline_iff :
    (net : IpNetApi) (conn : Connection) (o : Option Sandbox)
    → (assert_inline net o conn ≡ ok tt) ↔ Admits net conn (inline_stage o)
assert_inline_iff net conn none = ground arith
assert_inline_iff net conn (some sandbox) = elim (Option-cases sandbox.traffic_policy) [
  | inl e ↦ ground arith
  | inr (p, e) ↦ ground (arith, assert_policies_iff net conn (("inline", some p) ∷ []))
]

-- Both stages pass.
pub record IsAuthorized (net : IpNetApi) (s : ProxyState) (ctx : ProxyRbacContext) : Type 0 where
  pub workload : Workload
  pub current : find_uid ctx.workload.uid s.workloads ≡ some workload
  pub sandbox : Option Sandbox
  pub selected : IsSelected s workload ctx.conn.direction ctx.sandbox sandbox
  pub inline_admits : Admits net ctx.conn (inline_stage sandbox)
  pub workload_admits : Admits net ctx.conn (traffic_policies workload s.policies)

authorized :
    (net : IpNetApi) (s : ProxyState) (ctx : ProxyRbacContext)
    → assert_rbac net s ctx ≡ ok tt
    → IsAuthorized net s ctx
unfolding assert_rbac
authorized net s ctx h = elim (Option-cases (find_uid ctx.workload.uid s.workloads)) [
  | inl n ↦ absurd (ground arith)
  | inr (wl, e) ↦
      let (o, selected, rest) =
        >>=-eq-ok (sandbox_of_context s ctx.sandbox ctx.conn.direction wl) _
          (rw (e, assert_rbac) at h) in
      let (u, passed, last) = >>=-eq-ok (assert_inline net o ctx.conn) _ rest in
      record {
        workload = wl;
        current = e;
        sandbox = o;
        selected = (sandbox_of_context_iff s ctx.sandbox ctx.conn.direction wl o).0 selected;
        inline_admits = (assert_inline_iff net ctx.conn o).0 passed;
        workload_admits =
            (assert_policies_iff net ctx.conn (traffic_policies wl s.policies)).0 last;
      }
]

passes :
    (net : IpNetApi) (s : ProxyState) (ctx : ProxyRbacContext)
    → IsAuthorized net s ctx
    → assert_rbac net s ctx ≡ ok tt
unfolding assert_rbac
passes net s ctx a = rw (
  assert_rbac,
  a.current,
  (sandbox_of_context_iff s ctx.sandbox ctx.conn.direction a.workload a.sandbox).1 a.selected,
  (assert_inline_iff net ctx.conn a.sandbox).1 a.inline_admits,
  (assert_policies_iff net ctx.conn (traffic_policies a.workload s.policies)).1 a.workload_admits,
)

-- A connection is authorized exactly when its Workload is still stored, its Sandbox is not attested
-- by another Workload, the policy of that Sandbox, if any, admits it, and so do the policies that
-- the stored Workload refers to.
pub assert_rbac_iff :
    (net : IpNetApi) (s : ProxyState) (ctx : ProxyRbacContext)
    → (assert_rbac net s ctx ≡ ok tt) ↔ IsAuthorized net s ctx
assert_rbac_iff net s ctx = ((λ h. authorized net s ctx h), (λ a. passes net s ctx a))

named :
    (s : ProxyState) (names : List String)
    → IsResolved (map (λ name. (name, Store.get name s.policies)) names)
    → All (λ name. Store.get name s.policies ≢ none) names
named s [] h = tt
named s (n ∷ ns) h = (h.0, named s ns h.1)

referenced :
    (wl : Workload) (s : ProxyState)
    → IsResolved (traffic_policies wl s.policies)
    → (names : List String) × (wl.traffic_policy_refs ≡ some names)
      × All (λ name. Store.get name s.policies ≢ none) names
unfolding traffic_policies
referenced wl s h = elim (Option-cases wl.traffic_policy_refs) [
  | inl e ↦ absurd ((rw (e, traffic_policies) at h).0 refl)
  | inr (names, e) ↦ (names, e, named s names (rw (e, traffic_policies) at h))
]

-- Authorization fails closed: when a connection is authorized, the policy references of its stored
-- Workload have been delivered, and each names a policy that is in the store.
pub assert_rbac-IsResolved :
    (net : IpNetApi) (s : ProxyState) (ctx : ProxyRbacContext)
    → assert_rbac net s ctx ≡ ok tt
    → (wl : Workload) × (names : List String) × (find_uid ctx.workload.uid s.workloads ≡ some wl)
      × (wl.traffic_policy_refs ≡ some names)
      × All (λ name. Store.get name s.policies ≢ none) names
assert_rbac-IsResolved net s ctx h =
    let a = authorized net s ctx h in
    let (names, refs, stored) = referenced a.workload s a.workload_admits.0 in
    (a.workload, names, a.current, refs, stored)
