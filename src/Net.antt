-- ===== src/Net.antt =====
-- The addresses that the proxy handles: std's `IpAddr` and `SocketAddr`, `byte_to_ip`, the address
-- types of src/state/workload.rs and src/identity/manager.rs, and the calls that the proxy makes of
-- the `ipnet` crate, which are a parameter.
use ztunnel.Common.{
  ℕ, ◌+◌, ◌*◌, ◌≡◌, ◌↔◌, Bool, true, false, ◌&&◌, List, [], ◌∷◌, Option, String, arith, length, Eq,
  ◌==◌, nat_beq, nat_beq_iff, eq_iff_of, string_eq,
}
use ztunnel.Common.Outcome.{Result, ok, err}

-- An address is the number that its bytes spell, most significant first.
pub data IpAddr : Type 0 where
  v4 v6 : ℕ → IpAddr

abbrev pub is_ipv4 : IpAddr → Bool
is_ipv4 (v4 _) = true
is_ipv4 (v6 _) = false

abbrev pub is_ipv6 : IpAddr → Bool
is_ipv6 (v4 _) = false
is_ipv6 (v6 _) = true

abbrev pub ip_beq : IpAddr → IpAddr → Bool
ip_beq (v4 a) (v4 b) = nat_beq a b
ip_beq (v6 a) (v6 b) = nat_beq a b
ip_beq _ _ = false

pub ip_beq_iff : (a b : IpAddr) → (ip_beq a b ≡ true) ↔ (a ≡ b)
ip_beq_iff (v4 a) (v4 b) = ground (arith, nat_beq_iff a b)
ip_beq_iff (v6 a) (v6 b) = ground (arith, nat_beq_iff a b)
ip_beq_iff (v4 a) (v6 b) = ground arith
ip_beq_iff (v6 a) (v4 b) = ground arith

instance abbrev pub ip_eq : Eq IpAddr
ip_eq = record { beq = ip_beq; beq_iff = ip_beq_iff }

pub record SocketAddr : Type 0 where
  pub ip : IpAddr
  pub port : ℕ  -- u16

-- A network prefix, as `ipnet::IpNet` stores it.
pub record IpNet : Type 0 where
  pub addr : IpAddr
  pub prefix_len : ℕ  -- u8

abbrev pub net_beq : IpNet → IpNet → Bool
net_beq a b = ip_beq a.addr b.addr && nat_beq a.prefix_len b.prefix_len

pub net_beq_iff : (a b : IpNet) → (net_beq a b ≡ true) ↔ (a ≡ b)
net_beq_iff a b = ground (arith, ip_beq_iff a.addr b.addr, nat_beq_iff a.prefix_len b.prefix_len)

instance abbrev pub net_eq : Eq IpNet
net_eq = record { beq = net_beq; beq_iff = net_beq_iff }

-- `IpNet::new` (`none` is its `PrefixLenError`), `IpNet::trunc` and `IpNet::contains`.
pub record IpNetApi : Type 0 where
  pub new : IpAddr → ℕ → Option IpNet
  pub trunc : IpNet → IpNet
  pub contains : IpNet → IpAddr → Bool

-- `u32::from_be_bytes` and its kin, for any number of bytes.
abbrev pub from_be_bytes : ℕ → List ℕ → ℕ
from_be_bytes acc [] = acc
from_be_bytes acc (b ∷ bs) = from_be_bytes (acc * 256 + b) bs

-- `IpAddr` from the bytes of a message; the error holds their number.
unfoldable pub byte_to_ip : List ℕ → Result ℕ IpAddr
byte_to_ip b = elim (nat_beq (length b) 4) [
  | true ↦ ok (v4 (from_be_bytes 0 b))
  | false ↦ elim (nat_beq (length b) 16) [
    | true ↦ ok (v6 (from_be_bytes 0 b))
    | false ↦ err (length b)
  ]
]

pub record Identity : Type 0 where
  pub trust_domain : String
  pub namespace : String
  pub service_account : String

pub record NamespacedHostname : Type 0 where
  pub namespace : String
  pub hostname : String

pub record NetworkAddress : Type 0 where
  pub network : String
  pub address : IpAddr

abbrev pub host_beq : NamespacedHostname → NamespacedHostname → Bool
host_beq a b = a.namespace == b.namespace && a.hostname == b.hostname

pub host_beq_iff : (a b : NamespacedHostname) → (host_beq a b ≡ true) ↔ (a ≡ b)
host_beq_iff a b =
    ground (arith, eq_iff_of a.namespace b.namespace, eq_iff_of a.hostname b.hostname)

instance abbrev pub host_eq : Eq NamespacedHostname
host_eq = record { beq = host_beq; beq_iff = host_beq_iff }

abbrev pub addr_beq : NetworkAddress → NetworkAddress → Bool
addr_beq a b = a.network == b.network && ip_beq a.address b.address

pub addr_beq_iff : (a b : NetworkAddress) → (addr_beq a b ≡ true) ↔ (a ≡ b)
addr_beq_iff a b = ground (arith, eq_iff_of a.network b.network, ip_beq_iff a.address b.address)

instance abbrev pub addr_eq : Eq NetworkAddress
addr_eq = record { beq = addr_beq; beq_iff = addr_beq_iff }
