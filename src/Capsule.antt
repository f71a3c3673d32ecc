-- ===== src/Capsule.antt =====
-- src/proxy/h2/capsule.rs: the codec of datagrams in HTTP capsules. A byte is a number below 256, `|`
-- on disjoint bits is written as a sum, and `usize` has 64 bits, so that its conversions hold.
pub mod RoundTrip
pub mod Datagrams
pub mod Fuel
mod Tests
use ztunnel.Common.{
  ℕ, zero, suc, ◌+◌, ◌-◌, ◌*◌, ◌/◌, ◌%◌, ◌≡◌, Bool, List, [], ◌∷◌, ◌++◌, Option, none, some, length,
  take, drop, leb, ltb, if◌then◌else◌,
}
use ztunnel.Common.Outcome.{Result, ok, err, ◌>>=◌}

pub data CapsuleError : Type 0 where
  invalid_input oversized : CapsuleError

-- `put_u8`, `put_u16`, `put_u32` and `put_u64`: most significant byte first.
pub put_u8 : ℕ → List ℕ → List ℕ
put_u8 v rest = v % 256 ∷ rest

pub put_u16 : ℕ → List ℕ → List ℕ
unfolding put_u8
put_u16 v rest = put_u8 (v / 256) (put_u8 v rest)

pub put_u32 : ℕ → List ℕ → List ℕ
unfolding put_u16
put_u32 v rest = put_u16 (v / 65536) (put_u16 v rest)

pub put_u64 : ℕ → List ℕ → List ℕ
unfolding put_u32
put_u64 v rest = put_u32 (v / 4294967296) (put_u32 v rest)

pub encode_varint : ℕ → Result CapsuleError (List ℕ)
unfolding put_u64 put_u32 put_u16 put_u8
encode_varint value =
    if leb value 63
    then ok (put_u8 value [])
    else if leb value 16383
    then ok (put_u16 (value + 16384) [])
    else if leb value 1073741823
    then ok (put_u32 (value + 2147483648) [])
    else if leb value 4611686018427387903
    then ok (put_u64 (value + 13835058055282163712) [])
    else err invalid_input

-- `value = (value << 8) | byte` over the bytes.
pub shift_in : ℕ → List ℕ → ℕ
shift_in value [] = value
shift_in value (b ∷ bs) = shift_in (value * 256 + b) bs

abbrev pub varint_len : ℕ → ℕ
varint_len first =
    if ltb first 64 then 1 else if ltb first 128 then 2 else if ltb first 192 then 4 else 8

-- The value and the number of its bytes; `none` while bytes are missing.
pub decode_varint : List ℕ → Option (ℕ × ℕ)
unfolding shift_in
decode_varint [] = none
decode_varint (first ∷ rest) =
    if ltb (length rest + 1) (varint_len first)
    then none
    else some (shift_in (first % 64) (take (varint_len first - 1) rest), varint_len first)

abbrev pub max_datagram_size : ℕ
max_datagram_size = 65527

-- What is appended to `out`.
pub encode_datagram_into : List ℕ → Result CapsuleError (List ℕ)
encode_datagram_into payload = if ltb max_datagram_size (length payload) then err oversized else do
  capsule_type ← encode_varint 0
  capsule_len ← encode_varint (length payload + 1)
  context_id ← encode_varint 0
  ok (capsule_type ++ (capsule_len ++ (context_id ++ payload)))

pub record Decoder : Type 0 where
  pub buffer : List ℕ
  pub skip_remaining : ℕ
  pub dropped_oversized : ℕ

abbrev pub new : Decoder
new = record { buffer = []; skip_remaining = 0; dropped_oversized = 0 }

pub take_dropped_oversized : Decoder → Decoder × ℕ
take_dropped_oversized d = (record d { dropped_oversized = 0 }, d.dropped_oversized)

-- A round of the loop of `push`: more bytes are needed, the rest of a capsule is still to be skipped,
-- a capsule was taken with the payload it had, or the error of a capsule without a context.
pub data Round : Type 0 where
  waits : Round
  skips fails : Decoder → Round
  takes : Decoder → Option (List ℕ) → Round

abbrev pub min_of : ℕ → ℕ → ℕ
min_of a b = if ltb a b then a else b

-- `advance(header_len)`, then over what there is of the capsule.
pub skip_capsule : ℕ → ℕ → Decoder → Round
skip_capsule header_len capsule_len d =
    let body = drop header_len d.buffer in
    let available = min_of (length body) capsule_len in
    let left = record d {
      buffer = drop available body;
      skip_remaining = capsule_len - available;
    } in
    if ltb 0 (capsule_len - available) then skips left else takes left none

-- The value of a DATAGRAM capsule.
pub read_value : Decoder → List ℕ → Round
read_value d value = elim (decode_varint value) [
  | none ↦ fails d
  | some (context_id, context_len) ↦
      if ltb 0 context_id
      then takes d none
      else if ltb max_datagram_size (length (drop context_len value))
      then takes (record d { dropped_oversized = d.dropped_oversized + 1 }) none
      else takes d (some (drop context_len value))
]

pub read_capsule : Decoder → ℕ → ℕ → ℕ → Round
read_capsule d capsule_type header_len capsule_len =
    if ltb 0 capsule_type
    then skip_capsule header_len capsule_len d
    else if ltb (max_datagram_size + 8) capsule_len
    then skip_capsule header_len capsule_len
        (record d { dropped_oversized = d.dropped_oversized + 1 })
    else if ltb (length d.buffer) (header_len + capsule_len)
    then waits
    else read_value (record d { buffer = drop (header_len + capsule_len) d.buffer })
        (take capsule_len (drop header_len d.buffer))

pub round : Decoder → Round
round d = elim (decode_varint d.buffer) [
  | none ↦ waits
  | some (capsule_type, type_len) ↦ elim (decode_varint (drop type_len d.buffer)) [
    | none ↦ waits
    | some (capsule_len, length_len) ↦
        read_capsule d capsule_type (type_len + length_len) capsule_len
  ]
]

abbrev pub with_payload :
    Option (List ℕ) → Decoder × Option (List (List ℕ)) → Decoder × Option (List (List ℕ))
with_payload none r = r
with_payload (some p) (d, none) = (d, none)
with_payload (some p) (d, some ps) = (d, some (p ∷ ps))

-- The loop of `push`; `none` is its error. A round that takes a capsule takes bytes, so the length of
-- the buffer is fuel enough.
pub drain : ℕ → Decoder → Decoder × Option (List (List ℕ))
drain zero d = (d, some [])
drain (suc n) d = elim (round d) [
  | waits ↦ (d, some [])
  | skips e ↦ (e, some [])
  | fails e ↦ (e, none)
  | takes e p ↦ with_payload p (drain n e)
]

pub push : List ℕ → Decoder → Decoder × Option (List (List ℕ))
push chunk d =
    let skipped = min_of d.skip_remaining (length chunk) in
    let rest = record d { skip_remaining = d.skip_remaining - skipped } in
    if ltb 0 (d.skip_remaining - skipped)
    then (rest, some [])
    else let fed = record rest { buffer = d.buffer ++ drop skipped chunk } in
      drain (length fed.buffer) fed
