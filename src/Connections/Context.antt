-- ===== src/Connections/Context.antt =====
-- `ConnectionContext` of src/proxy/connection_manager.rs, and what its derived `Eq` compares: not the
-- Workload, and of the Sandbox the UID alone.
use ztunnel.Common.{
  ◌≡◌, ◌↔◌, Bool, true, false, ◌&&◌, Option, none, some, String, arith, Eq, eq_iff_of, ◌==◌, nat_eq,
  string_eq, option_eq, option_beq, option_beq_iff, nat_beq, nat_beq_iff,
}
use ztunnel.Net.{SocketAddr, Identity, ip_beq, ip_beq_iff}
use ztunnel.Policy.Types.{Connection, Direction, inbound, outbound}
use ztunnel.Sandbox.{Sandbox}
use ztunnel.State.Authorize.{ProxyRbacContext}

pub data OutboundProtocol : Type 0 where
  tcp hbone : OutboundProtocol

pub data ConnectionAttributes : Type 0 where
  inbound_attributes : Option String → ConnectionAttributes
  outbound_attributes : SocketAddr → OutboundProtocol → ConnectionAttributes

pub record ConnectionContext : Type 0 where
  pub rbac_ctx : ProxyRbacContext
  pub attributes : ConnectionAttributes

pub record ConnectionKey : Type 0 where
  pub conn : Connection
  pub sandbox : Option String
  pub attributes : ConnectionAttributes

abbrev pub uid_of : Option Sandbox → Option String
uid_of none = none
uid_of (some s) = some s.uid

abbrev pub key_of : ConnectionContext → ConnectionKey
key_of c = record {
  conn = c.rbac_ctx.conn;
  sandbox = uid_of c.rbac_ctx.sandbox;
  attributes = c.attributes;
}

unfoldable pub socket_beq : SocketAddr → SocketAddr → Bool
socket_beq a b = ip_beq a.ip b.ip && nat_beq a.port b.port

pub socket_beq_iff : (a b : SocketAddr) → (socket_beq a b ≡ true) ↔ (a ≡ b)
unfolding socket_beq
socket_beq_iff a b = ground (arith, ip_beq_iff a.ip b.ip, nat_beq_iff a.port b.port)

unfoldable pub spiffe_beq : Identity → Identity → Bool
spiffe_beq a b =
    a.trust_domain == b.trust_domain
    && (a.namespace == b.namespace && a.service_account == b.service_account)

pub spiffe_beq_iff : (a b : Identity) → (spiffe_beq a b ≡ true) ↔ (a ≡ b)
unfolding spiffe_beq
spiffe_beq_iff a b = ground (
  arith,
  eq_iff_of a.trust_domain b.trust_domain,
  eq_iff_of a.namespace b.namespace,
  eq_iff_of a.service_account b.service_account,
)

instance abbrev pub spiffe_eq : Eq Identity
spiffe_eq = record { beq = spiffe_beq; beq_iff = spiffe_beq_iff }

abbrev pub direction_beq : Direction → Direction → Bool
direction_beq inbound inbound = true
direction_beq outbound outbound = true
direction_beq _ _ = false

pub direction_beq_iff : (a b : Direction) → (direction_beq a b ≡ true) ↔ (a ≡ b)
direction_beq_iff inbound inbound = ground arith
direction_beq_iff inbound outbound = ground arith
direction_beq_iff outbound inbound = ground arith
direction_beq_iff outbound outbound = ground arith

unfoldable pub connection_beq : Connection → Connection → Bool
connection_beq a b =
    socket_beq a.src b.src
    && (socket_beq a.dst b.dst
        && (option_beq a.src_identity b.src_identity
            && (a.dst_network == b.dst_network && direction_beq a.direction b.direction)))

pub connection_beq_iff : (a b : Connection) → (connection_beq a b ≡ true) ↔ (a ≡ b)
unfolding connection_beq
connection_beq_iff a b = ground (
  arith,
  socket_beq_iff a.src b.src,
  socket_beq_iff a.dst b.dst,
  option_beq_iff a.src_identity b.src_identity,
  eq_iff_of a.dst_network b.dst_network,
  direction_beq_iff a.direction b.direction,
)

abbrev pub same_protocol : OutboundProtocol → OutboundProtocol → Bool
same_protocol tcp tcp = true
same_protocol hbone hbone = true
same_protocol _ _ = false

same_protocol_iff : (a b : OutboundProtocol) → (same_protocol a b ≡ true) ↔ (a ≡ b)
same_protocol_iff tcp tcp = ground arith
same_protocol_iff tcp hbone = ground arith
same_protocol_iff hbone tcp = ground arith
same_protocol_iff hbone hbone = ground arith

unfoldable pub attributes_beq : ConnectionAttributes → ConnectionAttributes → Bool
attributes_beq (inbound_attributes a) (inbound_attributes b) = option_beq a b
attributes_beq (outbound_attributes a p) (outbound_attributes b q) =
    socket_beq a b && same_protocol p q
attributes_beq _ _ = false

attributes_beq_iff : (a b : ConnectionAttributes) → (attributes_beq a b ≡ true) ↔ (a ≡ b)
unfolding attributes_beq
attributes_beq_iff (inbound_attributes a) (inbound_attributes b) =
    ground (arith, option_beq_iff a b)
attributes_beq_iff (outbound_attributes a p) (outbound_attributes b q) =
    ground (arith, socket_beq_iff a b, same_protocol_iff p q)
attributes_beq_iff (inbound_attributes a) (outbound_attributes b q) = ground arith
attributes_beq_iff (outbound_attributes a p) (inbound_attributes b) = ground arith

unfoldable pub key_beq : ConnectionKey → ConnectionKey → Bool
key_beq a b =
    connection_beq a.conn b.conn
    && (option_beq a.sandbox b.sandbox && attributes_beq a.attributes b.attributes)

pub key_beq_iff : (a b : ConnectionKey) → (key_beq a b ≡ true) ↔ (a ≡ b)
unfolding key_beq
key_beq_iff a b = ground (
  arith,
  connection_beq_iff a.conn b.conn,
  option_beq_iff a.sandbox b.sandbox,
  attributes_beq_iff a.attributes b.attributes,
)

instance abbrev pub key_eq : Eq ConnectionKey
key_eq = record { beq = key_beq; beq_iff = key_beq_iff }
