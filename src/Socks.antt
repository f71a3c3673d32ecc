-- ===== src/Socks.antt =====
-- src/proxy/socks5.rs: the negotiation of a SOCKS5 connection, on the bytes that the client sends. The
-- check of UTF-8 and the lookup of a name are parameters.
pub mod Reads
mod Tests
use ztunnel.Common.{
  ℕ, ◌+◌, ◌*◌, ◌≡◌, Bool, true, false, not, List, [], ◌∷◌, ◌++◌, Option, none, some, String,
  contains, leb, length, take, drop, nat_beq, nat_eq, if◌then◌else◌,
}
use ztunnel.Common.Outcome.{Result, ok, err, ◌>>=◌, ◌>>◌, ensure}
use ztunnel.Net.{IpAddr, v4, v6, SocketAddr, from_be_bytes}

-- The reasons that `invalid_protocol` is called with.
pub data Reason : Type 0 where
  unsupported_version unsupported_command unsupported_address_type : ℕ → Reason
  no_methods only_unauthenticated invalid_utf8 dns_disabled : Reason

-- The errors that the socket and the lookup give are left out of the variants.
pub data SocksError : Type 0 where
  general not_allowed network_unreachable host_unreachable connection_refused : SocksError
  command_not_supported : Reason → SocksError

abbrev pub invalid_protocol : Reason → SocksError
invalid_protocol reason = command_not_supported reason

abbrev pub Read : Type 0 → Type 0
Read A = Result SocksError (A × List ℕ)

-- `read_exact` of one byte, of two, and of a number of them.
abbrev pub read_one : List ℕ → Read ℕ
read_one [] = err general
read_one (a ∷ rest) = ok (a, rest)

abbrev pub read_two : List ℕ → Read (ℕ × ℕ)
read_two [] = err general
read_two (a ∷ []) = err general
read_two (a ∷ b ∷ rest) = ok ((a, b), rest)

pub read_exact : ℕ → List ℕ → Read (List ℕ)
read_exact n bytes = if leb n (length bytes) then ok (take n bytes, drop n bytes) else err general

-- The version and the methods of the client; what is left of its bytes.
unfoldable pub greet : List ℕ → Result SocksError (List ℕ)
greet bytes = do
  version ← read_two bytes
  ensure (nat_beq version.0.0 5) (invalid_protocol (unsupported_version version.0.0))
  ensure (not (nat_beq version.0.1 0)) (invalid_protocol no_methods)
  methods ← read_exact version.0.1 version.1
  ensure (contains methods.0 0) (invalid_protocol only_unauthenticated)
  ok methods.1

module _ (from_utf8 : List ℕ → Option String) (resolver : Option (String → Option IpAddr)) where
  abbrev pub lookup : List ℕ → Result SocksError IpAddr
  lookup domain = elim (from_utf8 domain) [
    | none ↦ err (invalid_protocol invalid_utf8)
    | some ds ↦ elim resolver [
      | none ↦ err (invalid_protocol dns_disabled)
      | some dns_lookup ↦ elim (dns_lookup ds) [ none ↦ err host_unreachable | some ip ↦ ok ip ]
    ]
  ]

  unfoldable pub read_domain : List ℕ → Read IpAddr
  read_domain bytes = do
    domain_length ← read_one bytes
    domain ← read_exact domain_length.0 domain_length.1
    ip ← lookup domain.0
    ok (ip, domain.1)

  unfoldable pub read_address : ℕ → List ℕ → Read IpAddr
  read_address atyp bytes =
      if nat_beq atyp 1
      then (do hostb ← read_exact 4 bytes; ok (v4 (from_be_bytes 0 hostb.0), hostb.1))
      else if nat_beq atyp 4
      then (do hostb ← read_exact 16 bytes; ok (v6 (from_be_bytes 0 hostb.0), hostb.1))
      else if nat_beq atyp 3
      then read_domain bytes
      else err (invalid_protocol (unsupported_address_type atyp))

  -- The type of an address, and the address.
  unfoldable pub read_target : List ℕ → Read IpAddr
  read_target bytes = do atyp ← read_one bytes; read_address atyp.0 atyp.1

  -- The command of the client, once a method is selected.
  unfoldable pub read_request : List ℕ → Read SocketAddr
  read_request bytes = do
    command ← read_two bytes
    ensure (nat_beq command.0.0 5) (invalid_protocol (unsupported_version command.0.0))
    ensure (nat_beq command.0.1 1) (invalid_protocol (unsupported_command command.0.1))
    rsv ← read_one command.1
    ip ← read_target rsv.1
    port ← read_two ip.1
    ok (record { ip = ip.0; port = port.0.0 * 256 + port.0.1 }, port.1)

  -- The Boolean tells whether the selection of the method can be written.
  unfoldable pub negotiate_socks_connection : Bool → List ℕ → Read SocketAddr
  negotiate_socks_connection writable bytes = do
    rest ← greet bytes
    ensure writable general
    read_request rest
