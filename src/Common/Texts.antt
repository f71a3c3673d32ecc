-- ===== src/Common/Texts.antt =====
-- The operations of Rust's `str` that the code uses.
use Prim.Native.Char.{Char, code}
use Prim.Native.String.{String}
use Prim.Native.Nat.{ℕ, ◌+◌, ◌-◌, ◌*◌, ◌<◌}
use mathlib.Core.Path.{◌≡◌}
use mathlib.Core.Bool.{Bool, ◌&&◌, ◌||◌}
use mathlib.Core.Logic.{inl, inr}
use mathlib.Core.List.{List, [], ◌∷◌}
use mathlib.Core.Option.{Option, none, some}
use native.Mathlib.Omega.{arith}
use text.Mathlib.Text.{◌==◌ as str_eq}
use ztunnel.Common.Bools.{if◌then◌else◌, Bool-cases, nat_beq, leb, ltb}

-- `split_once` at a character, given by its code.
unfoldable pub split_once : ℕ → String → Option (String × String)
split_once at String.[] = none
split_once at (String.◌∷◌ c s) =
    let rest = split_once at s in
    if nat_beq (code c) at
    then some (String.[], s)
    else elim rest [ none ↦ none | some (a, b) ↦ some (String.◌∷◌ c a, b) ]

-- The first two parts of `split('.')`; a second part that is missing is empty.
unfoldable pub first_segment : String → String
first_segment s = elim (split_once 46 s) [ none ↦ s | some (a, b) ↦ a ]

unfoldable pub second_segment : String → String
second_segment s = elim (split_once 46 s) [ none ↦ String.[] | some (a, b) ↦ first_segment b ]

-- The digits of a number below 65536, after those that made `acc`.
unfoldable pub parse_digits : ℕ → String → Option ℕ
parse_digits acc String.[] = some acc
parse_digits acc (String.◌∷◌ c s) =
    let n = acc * 10 + (code c - 48) in
    let rest = parse_digits n s in
    if leb 48 (code c) && leb (code c) 57 && ltb n 65536 then rest else none

-- `str::parse::<u16>`: a sign `+` may stand before the digits.
unfoldable pub parse_u16 : String → Option ℕ
parse_u16 String.[] = none
parse_u16 (String.◌∷◌ c String.[]) = parse_digits 0 (String.◌∷◌ c String.[])
parse_u16 (String.◌∷◌ c (String.◌∷◌ d s)) =
    if nat_beq (code c) 43
    then parse_digits 0 (String.◌∷◌ d s)
    else parse_digits 0 (String.◌∷◌ c (String.◌∷◌ d s))

parse_digits-bound :
    (acc : ℕ) (s : String) (n : ℕ) → acc < 65536 → parse_digits acc s ≡ some n → n < 65536
unfolding parse_digits
parse_digits-bound acc String.[] n b h = ground (arith, h, b)
parse_digits-bound acc (String.◌∷◌ c s) n b h =
    elim (Bool-cases (ltb (acc * 10 + (code c - 48)) 65536)) [
      | inl e ↦ parse_digits-bound (acc * 10 + (code c - 48)) s n (ground arith) (ground (arith, h))
      | inr e ↦ absurd (ground (arith, h, e))
    ]

pub parse_u16-bound : (s : String) (n : ℕ) → parse_u16 s ≡ some n → n < 65536
unfolding parse_u16
parse_u16-bound String.[] n h = absurd (ground (arith, h))
parse_u16-bound (String.◌∷◌ c String.[]) n h =
    parse_digits-bound 0 (String.◌∷◌ c String.[]) n (omega arith) h
parse_u16-bound (String.◌∷◌ c (String.◌∷◌ d s)) n h = elim (Bool-cases (nat_beq (code c) 43)) [
  | inl e ↦ parse_digits-bound 0 (String.◌∷◌ d s) n (omega arith) (rw e at h)
  | inr e ↦ parse_digits-bound 0 (String.◌∷◌ c (String.◌∷◌ d s)) n (omega arith) (rw e at h)
]

-- `strip_prefix`
unfoldable pub strip_prefix : (prefix text : String) → Option String
strip_prefix String.[] text = some text
strip_prefix (String.◌∷◌ c p) String.[] = none
strip_prefix (String.◌∷◌ c p) (String.◌∷◌ d s) =
    let rest = strip_prefix p s in if nat_beq (code c) (code d) then rest else none

abbrev add_char : Char → List String → List String
add_char c [] = String.◌∷◌ c String.[] ∷ []
add_char c (part ∷ parts) = String.◌∷◌ c part ∷ parts

-- `split` at a character, given by its code.
unfoldable pub split : ℕ → String → List String
split at String.[] = String.[] ∷ []
split at (String.◌∷◌ c s) =
    let rest = split at s in if nat_beq (code c) at then String.[] ∷ rest else add_char c rest

-- `ends_with`
unfoldable pub ends_with : (text suffix : String) → Bool
ends_with String.[] suffix = str_eq String.[] suffix
ends_with (String.◌∷◌ c s) suffix = str_eq (String.◌∷◌ c s) suffix || ends_with s suffix
