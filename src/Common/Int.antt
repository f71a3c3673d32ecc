-- ===== src/Common/Int.antt =====
-- Signed integers over the native numbers, and the cast of a `usize` to `i32`.
use ztunnel.Common.{ℕ, Bool, leb, ◌+◌, ◌-◌, ◌%◌, ◌<◌, arith, ltb, if◌then◌else◌}

-- `negsuc n` is -(n + 1).
pub data ℤ : Type 0 where
  pos negsuc : ℕ → ℤ

abbrev pub pos_part : ℤ → ℕ
pos_part (pos n) = n
pos_part (negsuc n) = 0

abbrev pub neg_part : ℤ → ℕ
neg_part (pos n) = 0
neg_part (negsuc n) = n + 1

infix 50 ◌<ℤ◌
abbrev pub ◌<ℤ◌ : ℤ → ℤ → Type 0
a <ℤ b = pos_part a + neg_part b < pos_part b + neg_part a

abbrev pub le_int : ℤ → ℤ → Bool
le_int a b = leb (pos_part a + neg_part b) (pos_part b + neg_part a)

-- `n as i32`: the low 32 bits, read as two's complement.
unfoldable pub as_i32 : ℕ → ℤ
as_i32 n =
    let low = n % 4294967296 in if ltb low 2147483648 then pos low else negsuc (4294967295 - low)

abbrev pub i32_max : ℤ
i32_max = pos 2147483647

pub as_i32_mono : (m n : ℕ) → m < n → n < 2147483648 → as_i32 m <ℤ as_i32 n
unfolding as_i32
as_i32_mono m n h k = ground arith

pub as_i32-lt_max : (n : ℕ) → n < 2147483647 → as_i32 n <ℤ i32_max
unfolding as_i32
as_i32-lt_max n h = ground arith
