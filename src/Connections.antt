-- ===== src/Connections.antt =====
-- src/proxy/connection_manager.rs: the connections that are tracked, so that a change of policy can
-- close them. A drain channel is a number; signalling it is an entry in the list of the drained ones.
-- The waits for a drain to finish are left out, and so is the dump for the administration.
pub mod Context
pub mod Counts
pub mod Watcher
pub mod Tracked
mod Tests
use ztunnel.Common.{
  ℕ, ◌+◌, ◌-◌, Bool, List, [], ◌∷◌, ◌++◌, Option, none, some, map, ltb, if◌then◌else◌,
}
use ztunnel.Common.Map
use ztunnel.Common.Map.{Map}
use ztunnel.Common.Outcome.{Result, ok, err}
use ztunnel.Net.{IpNetApi}
use ztunnel.Policy.Types.{Rejection}
use ztunnel.State.{ProxyState}
use ztunnel.State.Authorize.{ProxyRbacContext, assert_rbac}
use Context.{ConnectionContext, ConnectionKey, key_eq, key_of}

-- The stored key of the map, with `ConnectionDrain`.
pub record ConnectionDrain : Type 0 where
  pub context : ConnectionContext
  pub channel : ℕ
  pub count : ℕ

pub record ConnectionManager : Type 0 where
  pub drains : Map ConnectionKey ConnectionDrain
  pub next_channel : ℕ
  pub drained : List ℕ

abbrev pub new : ConnectionManager
new = record { drains = []; next_channel = 0; drained = [] }

-- The second result is the watcher, `rx.clone()`.
pub register : ConnectionContext → ConnectionManager → ConnectionManager × ℕ
register c cm = elim (Map.get (key_of c) cm.drains) [
  | some cd ↦ (
    record cm { drains = Map.insert (key_of c) (record cd { count = cd.count + 1 }) cm.drains },
    cd.channel,
  )
  | none ↦
      let drain : ConnectionDrain = record { context = c; channel = cm.next_channel; count = 1 } in
      (
        record cm {
          drains = Map.insert (key_of c) drain cm.drains;
          next_channel = cm.next_channel + 1;
        },
        cm.next_channel,
      )
]

pub release : ConnectionContext → ConnectionManager → ConnectionManager
release c cm = elim (Map.get (key_of c) cm.drains) [
  | none ↦ cm
  | some v ↦
      let removed = Map.remove (key_of c) cm.drains in
      if ltb 1 v.count
      then record cm { drains = Map.insert (key_of c) (record v { count = v.count - 1 }) removed }
      else record cm { drains = removed }
]

pub close : ConnectionContext → ConnectionManager → ConnectionManager
close c cm = elim (Map.get (key_of c) cm.drains) [
  | none ↦ cm
  | some cd ↦ record cm {
    drains = Map.remove (key_of c) cm.drains;
    drained = cd.channel ∷ cm.drained;
  }
]

pub connections : ConnectionManager → List ConnectionContext
connections cm = map (λ cd. cd.context) (Map.values cm.drains)

pub record ConnectionGuard : Type 0 where
  pub conn : ConnectionContext
  pub watch : Option ℕ

pub data TrackingError : Type 0 where
  authorization_policy_rejection : Rejection → TrackingError

-- `ConnectionManager::assert_rbac`; `register` always gives a watcher here.
pub track :
    IpNetApi
    → ProxyState
    → ConnectionContext
    → ConnectionManager
    → ConnectionManager × Result TrackingError ConnectionGuard
unfolding register release
track net s c cm =
    let (registered, watch) = register c cm in
    elim (assert_rbac net s c.rbac_ctx) [
      | err e ↦ (release c registered, err (authorization_policy_rejection e))
      | ok _ ↦ (registered, ok (record { conn = c; watch = some watch }))
    ]

-- `Drop for ConnectionGuard`
pub drop_guard : ConnectionGuard → ConnectionManager → ConnectionManager
unfolding release
drop_guard g cm = elim g.watch [ none ↦ cm | some w ↦ release g.conn cm ]

-- `ConnectionGuard::watcher`: the guard gives its watcher away; `none` is the panic of a second call.
pub watcher : ConnectionGuard → ConnectionGuard × Option ℕ
watcher g = (record g { watch = none }, g.watch)

-- `ConnectionGuard::release`, and the drop of the guard at its end.
pub release_guard : ConnectionGuard → ConnectionManager → ConnectionManager
unfolding release drop_guard
release_guard g cm = drop_guard g (release g.conn cm)

-- The loop of `PolicyWatcher::run` over the connections of one notification.
pub recheck : IpNetApi → ProxyState → List ConnectionContext → ConnectionManager → ConnectionManager
unfolding close
recheck net s [] cm = cm
recheck net s (c ∷ cs) cm = elim (assert_rbac net s c.rbac_ctx) [
  | ok _ ↦ recheck net s cs cm
  | err _ ↦ recheck net s cs (close c cm)
]

pub policies_changed : IpNetApi → ProxyState → ConnectionManager → ConnectionManager
unfolding connections recheck
policies_changed net s cm = recheck net s (connections cm) cm
