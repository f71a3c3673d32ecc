-- ===== src/Capsule/Datagrams.antt =====
-- Datagrams that are encoded one after the other are decoded in order.
use ztunnel.Common.{
  ℕ, zero, suc, ◌+◌, ◌≡◌, ◌≤◌, refl, sym, ap, ◌∙◌, subst, inl, inr, false, List, [], ◌∷◌, ◌++◌,
  some, arith, length, take, drop, ltb, All, length-append, drop-append, take-append,
}
use mathlib.Core.List.{append_assoc}
use ztunnel.Common.Outcome.{Result, ok, ◌>>=◌, >>=-eq-ok}
use ztunnel.Capsule.{
  CapsuleError, encode_varint, decode_varint, encode_datagram_into, max_datagram_size, Decoder, new,
  takes, round, read_capsule, read_value, drain, push,
}
use ztunnel.Capsule.RoundTrip.{decode-encode_varint}

decode_encoded :
    (value : ℕ) (bytes rest : List ℕ)
    → encode_varint value ≡ ok bytes
    → decode_varint (bytes ++ rest) ≡ some (value, length bytes)
decode_encoded value bytes rest h = elim (decode-encode_varint value rest) [
  | inl (found, e, small, d) ↦
      let same : found ≡ bytes = ground arith in
      subst (λ b. decode_varint (b ++ rest) ≡ some (value, length b)) same d
  | inr (e, big) ↦ absurd (ground arith)
]

encode-zero : encode_varint 0 ≡ ok (0 ∷ [])
unfolding encode_varint
encode-zero = refl

decode-zero : (rest : List ℕ) → decode_varint (0 ∷ rest) ≡ some (0, 1)
unfolding decode_varint
decode-zero rest = ground arith

-- A frame: the type, the length with that of the context, the context and the payload.
abbrev pub frame : List ℕ → List ℕ → List ℕ
frame len payload = 0 ∷ (len ++ (0 ∷ payload))

encode_datagram-frame :
    (payload : List ℕ)
    → length payload ≤ max_datagram_size
    → (len : List ℕ) × (encode_varint (length payload + 1) ≡ ok len)
      × (encode_datagram_into payload ≡ ok (frame len payload))
unfolding encode_datagram_into
encode_datagram-frame payload h = elim (decode-encode_varint (length payload + 1) []) [
  | inl (len, e, small, d) ↦
      let fits : ltb 65527 (length payload) ≡ false = ground arith in
      (len, e, rw (fits, encode-zero, e) refl)
  | inr (e, big) ↦ absurd (omega (arith, big))
]

drop-past : (xs ys : List ℕ) (n : ℕ) → drop (length xs + n) (xs ++ ys) ≡ drop n ys
drop-past [] ys n = let z : 0 + n ≡ n = omega arith in rw z refl
drop-past (x ∷ xs) ys n =
    let z : suc (length xs) + n ≡ suc (length xs + n) = omega arith in rw z (drop-past xs ys n)

header-drop :
    (len payload rest : List ℕ)
    → drop (1 + length len) (frame len (payload ++ rest)) ≡ 0 ∷ (payload ++ rest)
header-drop len payload rest =
    let z : 1 + length len ≡ suc (length len) = omega arith in
    rw z (drop-append len (0 ∷ (payload ++ rest)))

frame-drop :
    (len payload rest : List ℕ)
    → drop (1 + length len + (length payload + 1)) (frame len (payload ++ rest)) ≡ rest
frame-drop len payload rest =
    let z : 1 + length len + (length payload + 1) ≡ suc (length len + suc (length payload)) =
      omega arith in
    let past = drop-past len (0 ∷ (payload ++ rest)) (suc (length payload)) in
    rw (z, past) (drop-append payload rest)

value-take :
    (payload rest : List ℕ) → take (length payload + 1) (0 ∷ (payload ++ rest)) ≡ 0 ∷ payload
value-take payload rest =
    let z : length payload + 1 ≡ suc (length payload) = omega arith in
    rw z (ap (λ t. 0 ∷ t) (take-append payload rest))

frame-length :
    (len payload rest : List ℕ)
    → ltb (length (frame len (payload ++ rest))) (1 + length len + (length payload + 1)) ≡ false
frame-length len payload rest =
    let size = length-append len (0 ∷ (payload ++ rest)) in
    let size_behind = length-append payload rest in ground arith

abbrev with_buffer : List ℕ → Decoder → Decoder
with_buffer b d = record d { buffer = b }

read_capsule-eq :
    (d : Decoder) (header_len capsule_len : ℕ) (payload rest : List ℕ)
    → ltb 65535 capsule_len ≡ false
    → ltb (length d.buffer) (header_len + capsule_len) ≡ false
    → drop (header_len + capsule_len) d.buffer ≡ rest
    → take capsule_len (drop header_len d.buffer) ≡ 0 ∷ payload
    → ltb 65527 (length payload) ≡ false
    → read_capsule d 0 header_len capsule_len ≡ takes (with_buffer rest d) (some payload)
unfolding read_capsule read_value
read_capsule-eq d header_len capsule_len payload rest small there left value fits =
    ground (arith, decode-zero payload)

-- The round that meets a frame takes its payload and leaves what follows it.
round-frame :
    (payload len rest : List ℕ) (d : Decoder)
    → length payload ≤ max_datagram_size
    → encode_varint (length payload + 1) ≡ ok len
    → round (with_buffer (frame len (payload ++ rest)) d)
      ≡ takes (with_buffer rest d) (some payload)
unfolding round
round-frame payload len rest d h e =
    rw
      (
        round,
        decode-zero (len ++ (0 ∷ (payload ++ rest))),
        decode_encoded (length payload + 1) len (0 ∷ (payload ++ rest)) e,
      )
      (read_capsule-eq (with_buffer (frame len (payload ++ rest)) d) (1 + length len)
        (length payload + 1) payload rest (ground arith) (frame-length len payload rest)
        (frame-drop len payload rest) (rw (header-drop len payload rest) (value-take payload rest))
        (ground arith))

frame-append : (payload len rest : List ℕ) → frame len payload ++ rest ≡ frame len (payload ++ rest)
frame-append payload len rest = ap (λ t. 0 ∷ t) (append_assoc len (0 ∷ payload) rest)

-- The payloads are encoded one after the other.
abbrev pub encode_all : List (List ℕ) → Result CapsuleError (List ℕ)
encode_all [] = ok []
encode_all (p ∷ ps) = do bytes ← encode_datagram_into p; more ← encode_all ps; ok (bytes ++ more)

drain-nothing : (n : ℕ) (d : Decoder) → drain n (with_buffer [] d) ≡ (with_buffer [] d, some [])
unfolding drain round decode_varint
drain-nothing zero d = refl
drain-nothing (suc n) d = refl

drain-frames :
    (payloads : List (List ℕ)) (d : Decoder) (bytes : List ℕ) (n : ℕ)
    → All (λ p. length p ≤ max_datagram_size) payloads
    → encode_all payloads ≡ ok bytes
    → length payloads ≤ n
    → drain n (with_buffer bytes d) ≡ (with_buffer [] d, some payloads)
unfolding drain
drain-frames [] d bytes n small e h =
    let same : [] ≡ bytes = ground arith in
    subst (λ b. drain n (with_buffer b d) ≡ (with_buffer [] d, some [])) same (drain-nothing n d)
drain-frames (p ∷ ps) d bytes zero small e h = absurd (omega (arith, h))
drain-frames (p ∷ ps) d bytes (suc n) small e h =
    let (one, first, rest_ok) = >>=-eq-ok (encode_datagram_into p) _ e in
    let (more, later, whole) = >>=-eq-ok (encode_all ps) _ rest_ok in
    let (len, len_ok, framed) = encode_datagram-frame p small.0 in
    let same : frame len p ++ more ≡ bytes = ground arith in
    let shape : bytes ≡ frame len (p ++ more) = sym same ∙ frame-append p len more in
    rw
      (
        shape,
        drain,
        round-frame p len more d small.0 len_ok,
        drain-frames ps d more n small.1 later (omega (arith, h)),
      )
      refl

encode_all-ok :
    (payloads : List (List ℕ))
    → All (λ p. length p ≤ max_datagram_size) payloads
    → (bytes : List ℕ) × (encode_all payloads ≡ ok bytes) × (length payloads ≤ length bytes)
encode_all-ok [] small = ([], refl, omega arith)
encode_all-ok (p ∷ ps) small =
    let (len, len_ok, framed) = encode_datagram-frame p small.0 in
    let (more, later, longer) = encode_all-ok ps small.1 in
    let size = length-append (len ++ (0 ∷ p)) more in
    (frame len p ++ more, rw (framed, later) refl, ground arith)

push-eq : (bytes : List ℕ) → push bytes new ≡ drain (length bytes) (with_buffer bytes new)
unfolding push
push-eq [] = refl
push-eq (b ∷ bs) = ground arith

-- Payloads of at most 65527 bytes can all be encoded, and a new decoder that is given the encodings
-- in one chunk returns the payloads in order and is left empty.
pub push-encode_all :
    (payloads : List (List ℕ))
    → All (λ p. length p ≤ max_datagram_size) payloads
    → (bytes : List ℕ) × (encode_all payloads ≡ ok bytes) × (push bytes new ≡ (new, some payloads))
push-encode_all payloads small =
    let (bytes, encoded, longer) = encode_all-ok payloads small in
    (
      bytes,
      encoded,
      push-eq bytes ∙ drain-frames payloads new bytes (length bytes) small encoded longer,
    )
