-- ===== src/Capsule/RoundTrip.antt =====
-- A varint is read back as it was written.
use ztunnel.Common.{
  ℕ, ◌+◌, ◌≡◌, ◌≤◌, ◌<◌, ◌⊎◌, inl, inr, List, [], ◌++◌, some, arith, length, leb, Bool-cases,
}
use ztunnel.Common.Outcome.{ok, err}
use ztunnel.Capsule.{invalid_input, encode_varint, decode_varint, put_u8, put_u16, put_u32, put_u64}

decode-put_u8 : (v : ℕ) (rest : List ℕ) → v ≤ 63 → decode_varint (put_u8 v [] ++ rest) ≡ some (v, 1)
unfolding decode_varint put_u8
decode-put_u8 v rest h = ground arith

decode-put_u16 :
    (v : ℕ) (rest : List ℕ)
    → v ≤ 16383
    → decode_varint (put_u16 (v + 16384) [] ++ rest) ≡ some (v, 2)
unfolding decode_varint put_u16
decode-put_u16 v rest h = ground arith

decode-put_u32 :
    (v : ℕ) (rest : List ℕ)
    → v ≤ 1073741823
    → decode_varint (put_u32 (v + 2147483648) [] ++ rest) ≡ some (v, 4)
unfolding decode_varint put_u32
decode-put_u32 v rest h = ground arith

decode-put_u64 :
    (v : ℕ) (rest : List ℕ)
    → v ≤ 4611686018427387903
    → decode_varint (put_u64 (v + 13835058055282163712) [] ++ rest) ≡ some (v, 8)
unfolding decode_varint put_u64
decode-put_u64 v rest h = ground arith

-- A value of up to 62 bits is encoded, in one, two, four or eight bytes; whatever follows the bytes, a
-- decoder reads the value back and takes just the bytes. A larger value is an error.
pub decode-encode_varint :
    (value : ℕ) (rest : List ℕ)
    → ((bytes : List ℕ) × (encode_varint value ≡ ok bytes)
        × (value ≤ 4611686018427387903)
        × (decode_varint (bytes ++ rest) ≡ some (value, length bytes)))
      ⊎ ((encode_varint value ≡ err invalid_input) × (4611686018427387903 < value))
unfolding encode_varint
decode-encode_varint value rest = elim (Bool-cases (leb value 63)) [
  | inl a ↦
      inl (put_u8 value [], ground arith, ground arith, decode-put_u8 value rest (ground arith))
  | inr a ↦ elim (Bool-cases (leb value 16383)) [
    | inl b ↦ inl (
      put_u16 (value + 16384) [],
      ground arith,
      ground arith,
      decode-put_u16 value rest (ground arith),
    )
    | inr b ↦ elim (Bool-cases (leb value 1073741823)) [
      | inl c ↦ inl (
        put_u32 (value + 2147483648) [],
        ground arith,
        ground arith,
        decode-put_u32 value rest (ground arith),
      )
      | inr c ↦ elim (Bool-cases (leb value 4611686018427387903)) [
        | inl d ↦ inl (
          put_u64 (value + 13835058055282163712) [],
          ground arith,
          ground arith,
          decode-put_u64 value rest (ground arith),
        )
        | inr d ↦ inr (ground arith, ground arith)
      ]
    ]
  ]
]
