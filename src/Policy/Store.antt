-- ===== src/Policy/Store.antt =====
-- `TrafficPolicyStore` of src/rbac.rs: the accepted policy bodies by name, and the watch channel
-- that wakes the policy watcher, of which only the count of sent values matters.
use text.Mathlib.TextEquality.{eq_iff}
use ztunnel.Common.{
  ℕ, ◌+◌, ◌≡◌, refl, ◌≢◌, ◌↔◌, ◌⊎◌, inl, inr, Bool, true, false, [], Option, some, String, arith,
  is_some, ◌==◌, string_eq, option_beq, option_beq_iff, Bool-cases, if◌then◌else◌,
}
use ztunnel.Common.Map
use ztunnel.Common.Map.{Map, get-insert, get-remove}
use ztunnel.Common.Outcome.{Result, ok, err, Result-cases}
use ztunnel.Net.{IpNetApi}
use ztunnel.Policy.Types.{TrafficPolicy, policy_eq, IsValidPolicy}
use ztunnel.Policy.Convert.{
  PolicyError, invalid_name, XdsTrafficPolicy, policy_of, policy_of-IsValidPolicy,
}

pub record TrafficPolicyStore : Type 0 where
  pub resources : Map String TrafficPolicy
  pub notifications : ℕ

pub record XdsPolicyResource : Type 0 where
  pub name : String
  pub resource : XdsTrafficPolicy

abbrev pub new : TrafficPolicyStore
new = record { resources = []; notifications = 0 }

-- `send`: `notifier.send_replace(())`
pub send : TrafficPolicyStore → TrafficPolicyStore
send s = record s { notifications = s.notifications + 1 }

abbrev pub get : String → TrafficPolicyStore → Option TrafficPolicy
get name s = Map.get name s.resources

-- The Boolean tells whether the store changed. An error leaves the store alone.
pub insert :
    String → TrafficPolicy → TrafficPolicyStore → TrafficPolicyStore × Result PolicyError Bool
insert name policy s =
    if name == ""
    then (s, err invalid_name)
    else if name == "*"
    then (s, err invalid_name)
    else if option_beq (get name s) (some policy)
    then (s, ok false)
    else (record s { resources = Map.insert name policy s.resources }, ok true)

pub remove : String → TrafficPolicyStore → TrafficPolicyStore × Bool
remove name s = (record s { resources = Map.remove name s.resources }, is_some (get name s))

-- `replace` keeps the channel with its subscribers.
pub replace : TrafficPolicyStore → TrafficPolicyStore → TrafficPolicyStore
replace next s = record s { resources = next.resources }

pub update :
    IpNetApi → XdsPolicyResource → TrafficPolicyStore → TrafficPolicyStore × Result PolicyError Bool
update net u s = elim (policy_of net u.resource) [
  | err e ↦ (s, err e)
  | ok policy ↦ insert u.name policy s
]

-- What holds of every stored body.
abbrev pub IsValidStore : TrafficPolicyStore → Type 0
IsValidStore s =
    (name : String) (p : TrafficPolicy)
    → get name s ≡ some p
    → (name ≢ "") × (name ≢ "*") × IsValidPolicy p

-- An insertion under a real name makes it read as the new body, leaves every other name, and reports
-- whether the name read otherwise before; under the empty name or "*" it fails and changes nothing.
pub insert_lem :
    (name other : String) (p : TrafficPolicy) (s : TrafficPolicyStore)
    → ((insert name p s).1 ≡ err invalid_name)
        × ((name ≡ "") ⊎ (name ≡ "*"))
        × ((insert name p s).0 ≡ s)
      ⊎ (changed : Bool) × ((insert name p s).1 ≡ ok changed)
        × (name ≢ "")
        × (name ≢ "*")
        × ((changed ≡ false) ↔ (get name s ≡ some p))
        × (get other (insert name p s).0 ≡ (if name == other then some p else get other s))
unfolding insert
insert_lem name other p s = elim (Bool-cases (name == "")) [
  | inl e ↦ inl (ground arith, inl ((eq_iff name "").0 e), ground arith)
  | inr named ↦ elim (Bool-cases (name == "*")) [
    | inl e ↦ inl (ground arith, inr ((eq_iff name "*").0 e), ground arith)
    | inr plain ↦ elim (Bool-cases (option_beq (get name s) (some p))) [
      | inl same ↦ inr (
        false,
        ground arith,
        (λ q. ground (arith, eq_iff name "")),
        (λ q. ground (arith, eq_iff name "*")),
        ground (arith, option_beq_iff (get name s) (some p)),
        ground (arith, option_beq_iff (get name s) (some p), eq_iff name other),
      )
      | inr differs ↦ inr (
        true,
        ground arith,
        (λ q. ground (arith, eq_iff name "")),
        (λ q. ground (arith, eq_iff name "*")),
        ground (arith, option_beq_iff (get name s) (some p)),
        ground (arith, get-insert name other p s.resources),
      )
    ]
  ]
]

pub new-IsValidStore : IsValidStore new
unfolding Map.get
new-IsValidStore name p h = cc

insert-IsValidStore :
    (name : String) (p : TrafficPolicy) (s : TrafficPolicyStore)
    → IsValidPolicy p
    → IsValidStore s
    → IsValidStore (insert name p s).0
insert-IsValidStore name p s v valid other q h = elim (insert_lem name other p s) [
  | inl (_, _, same) ↦ valid other q (rw same at h)
  | inr (changed, _, named, plain, _, e) ↦ elim (Bool-cases (name == other)) [
    | inl hit ↦
        let found : p ≡ q = ground arith in
        let at : name ≡ other = (eq_iff name other).0 hit in rw (← at, ← found) (named, plain, v)
    | inr miss ↦ valid other q (ground arith)
  ]
]

-- An update, accepted or not, keeps every stored body valid and under a real name.
pub update-IsValidStore :
    (net : IpNetApi) (u : XdsPolicyResource) (s : TrafficPolicyStore)
    → IsValidStore s
    → IsValidStore (update net u s).0
unfolding update
update-IsValidStore net u s valid = go (policy_of net u.resource) refl
  where
    go :
        (r : Result PolicyError TrafficPolicy)
        → policy_of net u.resource ≡ r
        → IsValidStore (update net u s).0
    go (err e) q = rw (q, update) valid
    go (ok p) q =
        rw (q, update)
          (insert-IsValidStore u.name p s (policy_of-IsValidPolicy net u.resource p q) valid)

pub remove-IsValidStore :
    (name : String) (s : TrafficPolicyStore) → IsValidStore s → IsValidStore (remove name s).0
unfolding remove
remove-IsValidStore name s valid other q h =
    valid other q (ground (arith, get-remove name other s.resources))

pub send-IsValidStore : (s : TrafficPolicyStore) → IsValidStore s → IsValidStore (send s)
unfolding send
send-IsValidStore s valid = valid

pub notifications-send : (s : TrafficPolicyStore) → (send s).notifications ≡ s.notifications + 1
unfolding send
notifications-send s = refl

pub get-send : (name : String) (s : TrafficPolicyStore) → get name (send s) ≡ get name s
unfolding send
get-send name s = refl

-- An update sends nothing, and one that reports no change leaves every policy.
pub update-quiet :
    (net : IpNetApi) (u : XdsPolicyResource) (name : String) (s : TrafficPolicyStore)
    → ((update net u s).0.notifications ≡ s.notifications)
      × ((update net u s).1 ≢ ok true → get name (update net u s).0 ≡ get name s)
unfolding update insert
update-quiet net u name s = elim (Result-cases (policy_of net u.resource)) [
  | inr (e, q) ↦ rw (q, update) (refl, (λ h. refl))
  | inl (p, q) ↦ rw (q, update, insert) (ground arith, (λ h. ground (arith, h)))
]

pub remove-quiet :
    (key name : String) (s : TrafficPolicyStore)
    → ((remove key s).0.notifications ≡ s.notifications)
      × ((remove key s).1 ≢ true → get name (remove key s).0 ≡ get name s)
unfolding remove
remove-quiet key name s =
    (refl, (λ h. ground (arith, h, get-remove key name s.resources, eq_iff key name)))
