-- ===== src/Socks/Reads.antt =====
-- A request that a client writes is read back.
use ztunnel.Common.{
  ℕ, ◌+◌, ◌*◌, ◌≡◌, refl, true, List, [], ◌∷◌, ◌++◌, Option, String, arith, contains, length,
  length-append, take-append, drop-append, nat_eq,
}
use ztunnel.Common.Outcome.{Result, ok, err, ◌>>=◌}
use ztunnel.Net.{IpAddr, v4, v6, SocketAddr, from_be_bytes}
use ztunnel.Socks.{
  SocksError, Read, read_two, read_exact, greet, lookup, read_domain, read_address, read_target,
  read_request, negotiate_socks_connection,
}

read_exact-append : (xs ys : List ℕ) → read_exact (length xs) (xs ++ ys) ≡ ok (xs, ys)
unfolding read_exact
read_exact-append xs ys = ground (arith, length-append xs ys, take-append xs ys, drop-append xs ys)

-- The address that a client asks for.
pub data Target : Type 0 where
  to_v4 to_v6 to_name : List ℕ → Target

abbrev pub IsSized : Target → Type 0
IsSized (to_v4 bytes) = length bytes ≡ 4
IsSized (to_v6 bytes) = length bytes ≡ 16
IsSized (to_name bytes) = Unit

abbrev pub written_target : Target → List ℕ
written_target (to_v4 bytes) = 1 ∷ bytes
written_target (to_v6 bytes) = 4 ∷ bytes
written_target (to_name bytes) = 3 ∷ length bytes ∷ bytes

-- The greeting with the methods of the client.
abbrev pub written_greeting : List ℕ → List ℕ
written_greeting methods = 5 ∷ length methods ∷ methods

greet-written :
    (methods rest : List ℕ)
    → contains methods 0 ≡ true
    → greet (written_greeting methods ++ rest) ≡ ok rest
unfolding greet
greet-written [] rest h = absurd (ground (arith, h))
greet-written (m ∷ ms) rest h = ground (arith, h, read_exact-append (m ∷ ms) rest)

module _ (from_utf8 : List ℕ → Option String) (resolver : Option (String → Option IpAddr)) where
  abbrev pub address_of_target : Target → Result SocksError IpAddr
  address_of_target (to_v4 bytes) = ok (v4 (from_be_bytes 0 bytes))
  address_of_target (to_v6 bytes) = ok (v6 (from_be_bytes 0 bytes))
  address_of_target (to_name bytes) = lookup from_utf8 resolver bytes

  -- The first byte of a target tells its type, and the rest is read as it was written.
  read_target-written :
      (t : Target) (rest : List ℕ)
      → IsSized t
      → read_target from_utf8 resolver (written_target t ++ rest)
        ≡ (address_of_target t >>= λ ip. ok (ip, rest))
  unfolding read_target read_address read_domain
  read_target-written (to_v4 bytes) rest s =
      let e = read_exact-append bytes rest in ground (arith, rw s at e)
  read_target-written (to_v6 bytes) rest s =
      let e = read_exact-append bytes rest in ground (arith, rw s at e)
  read_target-written (to_name bytes) rest s = rw (read_exact-append bytes rest) refl

  -- A request: the version, the command CONNECT, a reserved byte, the target and the port.
  abbrev pub written_request : ℕ → Target → (high low : ℕ) → List ℕ → List ℕ
  written_request rsv t high low rest = 5 ∷ 1 ∷ rsv ∷ (written_target t ++ (high ∷ low ∷ rest))

  abbrev pub asked : (high low : ℕ) (rest : List ℕ) → Result SocksError IpAddr → Read SocketAddr
  asked high low rest (err e) = err e
  asked high low rest (ok ip) = ok (record { ip = ip; port = high * 256 + low }, rest)

  read_request-written :
      (rsv : ℕ) (t : Target) (high low : ℕ) (rest : List ℕ)
      → IsSized t
      → read_request from_utf8 resolver (written_request rsv t high low rest)
        ≡ asked high low rest (address_of_target t)
  unfolding read_request
  read_request-written rsv t high low rest s =
      rw (read_target-written t (high ∷ low ∷ rest) s) (settled (address_of_target t))
    where
      settled :
          (r : Result SocksError IpAddr)
          → (◌>>=◌ {B = IpAddr × List ℕ} r (λ ip. ok (ip, high ∷ low ∷ rest)) >>= λ ip.
              read_two ip.1 >>= λ port.
              ok (record { ip = ip.0; port = port.0.0 * 256 + port.0.1 }, port.1))
            ≡ asked high low rest r
      settled (err e) = refl
      settled (ok ip) = refl

  -- What a client writes is read back: after a greeting that offers no authentication, a request for an
  -- address of the right length gives that address with its port, a request for a name gives what the
  -- lookup of the name gives, and the bytes after the request are left.
  pub negotiate-written :
      (methods : List ℕ) (rsv : ℕ) (t : Target) (high low : ℕ) (rest : List ℕ)
      → contains methods 0 ≡ true
      → IsSized t
      → negotiate_socks_connection from_utf8 resolver true
          (written_greeting methods ++ written_request rsv t high low rest)
        ≡ asked high low rest (address_of_target t)
  unfolding negotiate_socks_connection
  negotiate-written methods rsv t high low rest h s =
      rw (greet-written methods (written_request rsv t high low rest) h)
        (read_request-written rsv t high low rest s)
