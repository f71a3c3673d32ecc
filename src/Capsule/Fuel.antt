-- ===== src/Capsule/Fuel.antt =====
-- The length of the buffer is fuel enough for the decoder.
use ztunnel.Common.{
  ℕ, zero, suc, ◌+◌, ◌-◌, ◌≡◌, ◌≤◌, ◌<◌, refl, ap, inl, inr, List, [], ◌∷◌, Option, some, arith,
  length, take, drop, Option-cases,
}
use ztunnel.Capsule.{
  decode_varint, Decoder, Round, waits, skips, fails, takes, round, read_capsule, read_value,
  skip_capsule, with_payload, drain,
}

length-drop : (n : ℕ) (xs : List ℕ) → length (drop n xs) ≤ length xs - n
length-drop zero xs = omega arith
length-drop (suc n) [] = omega arith
length-drop (suc n) (x ∷ xs) = let ih = length-drop n xs in omega (arith, ih)

decode_varint-takes :
    (xs : List ℕ) (value len : ℕ)
    → decode_varint xs ≡ some (value, len)
    → (1 ≤ len) × (1 ≤ length xs)
unfolding decode_varint
decode_varint-takes [] value len h = absurd (ground arith)
decode_varint-takes (x ∷ xs) value len h = ground arith

skip_capsule-shrinks :
    (header_len capsule_len : ℕ) (d e : Decoder) (p : Option (List ℕ))
    → 1 ≤ header_len
    → 1 ≤ length d.buffer
    → skip_capsule header_len capsule_len d ≡ takes e p
    → length e.buffer < length d.buffer
unfolding skip_capsule
skip_capsule-shrinks header_len capsule_len d e p low some_left h = ground (
  arith,
  length-drop header_len d.buffer,
  length-drop (length (drop header_len d.buffer)) (drop header_len d.buffer),
  length-drop capsule_len (drop header_len d.buffer),
)

read_value-buffer :
    (d e : Decoder) (value : List ℕ) (p : Option (List ℕ))
    → read_value d value ≡ takes e p
    → length e.buffer ≡ length d.buffer
unfolding read_value
read_value-buffer d e value p h = elim (Option-cases (decode_varint value)) [
  | inl n ↦ absurd (ground arith)
  | inr ((id, len), f) ↦ ground arith
]

read_capsule-shrinks :
    (d e : Decoder) (capsule_type header_len capsule_len : ℕ) (p : Option (List ℕ))
    → 1 ≤ header_len
    → 1 ≤ length d.buffer
    → read_capsule d capsule_type header_len capsule_len ≡ takes e p
    → length e.buffer < length d.buffer
unfolding read_capsule
read_capsule-shrinks d e capsule_type header_len capsule_len p low some_left h =
    let counted : Decoder = record d { dropped_oversized = d.dropped_oversized + 1 } in
    let rest : Decoder = record d { buffer = drop (header_len + capsule_len) d.buffer } in
    let value = take capsule_len (drop header_len d.buffer) in
    ground (
      arith,
      skip_capsule-shrinks header_len capsule_len d e p low some_left,
      skip_capsule-shrinks header_len capsule_len counted e p low some_left,
      read_value-buffer rest e value p,
      length-drop (header_len + capsule_len) d.buffer,
    )

round-shrinks :
    (d e : Decoder) (p : Option (List ℕ)) → round d ≡ takes e p → length e.buffer < length d.buffer
unfolding round
round-shrinks d e p h = elim (Option-cases (decode_varint d.buffer)) [
  | inl n ↦ absurd (ground arith)
  | inr ((capsule_type, type_len), f) ↦
      elim (Option-cases (decode_varint (drop type_len d.buffer))) [
        | inl n ↦ absurd (ground arith)
        | inr ((capsule_len, length_len), g) ↦
            let (low, some_left) = decode_varint-takes d.buffer capsule_type type_len f in
            read_capsule-shrinks d e capsule_type (type_len + length_len) capsule_len p
              (omega (arith, low)) some_left (ground arith)
      ]
]

round-empty : (d : Decoder) → length d.buffer ≤ 0 → round d ≡ waits
unfolding round decode_varint
round-empty d h = empty d.buffer refl
  where
    empty : (b : List ℕ) → d.buffer ≡ b → round d ≡ waits
    empty [] e = ground arith
    empty (x ∷ xs) e = absurd (ground arith)

drain-round :
    (n m : ℕ) (d : Decoder) (r : Round)
    → length d.buffer ≤ suc n
    → length d.buffer ≤ suc m
    → ((f : Decoder) → length f.buffer ≤ n → length f.buffer ≤ m → drain n f ≡ drain m f)
    → round d ≡ r
    → drain (suc n) d ≡ drain (suc m) d
unfolding drain
drain-round n m d waits h k ih e = rw (drain, e) refl
drain-round n m d (skips f) h k ih e = rw (drain, e) refl
drain-round n m d (fails f) h k ih e = rw (drain, e) refl
drain-round n m d (takes f p) h k ih e =
    let less = round-shrinks d f p e in
    rw (drain, e) (ap (with_payload p) (ih f (omega (arith, h, less)) (omega (arith, k, less))))

-- The fuel of the decoder's loop does not matter once it reaches the length of the buffer: the loop
-- has ended by then, and more rounds give the same result.
pub drain-enough :
    (n m : ℕ) (d : Decoder) → length d.buffer ≤ n → length d.buffer ≤ m → drain n d ≡ drain m d
unfolding drain
drain-enough zero zero d h k = refl
drain-enough zero (suc m) d h k = rw (drain, round-empty d h) refl
drain-enough (suc n) zero d h k = rw (drain, round-empty d k) refl
drain-enough (suc n) (suc m) d h k = drain-round n m d (round d) h k (λ f. drain-enough n m f) refl
