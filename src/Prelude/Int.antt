-- ===== src/Prelude/Int.antt =====
-- Go's `int` on the 64-bit targets of the operator: an integer between -2^63 and 2^63 - 1.
use Prim.Native.Nat.{ℕ, suc, ◌+◌, ◌-◌, ◌*◌, ◌^◌, ◌%◌, ◌≤◌, ◌<◌}
use mathlib.Core.Bool.{Bool}
use otc_rds_operator.Prelude.Tests.{ltb, leb, if◌then◌else◌}

-- `negsuc n` is -(n + 1).
pub data ℤ : Type 0 where
  pos : ℕ → ℤ
  negsuc : ℕ → ℤ

abbrev pub pos_part : ℤ → ℕ
pos_part (pos n) = n
pos_part (negsuc n) = 0

abbrev pub neg_part : ℤ → ℕ
neg_part (pos n) = 0
neg_part (negsuc n) = suc n

-- a - b, as an integer.
abbrev pub sub_ℕ : ℕ → ℕ → ℤ
sub_ℕ a b = if leb b a then pos (a - b) else negsuc (b - a - 1)

infix 50 ◌<ℤ◌ ◌≤ℤ◌
abbrev pub ◌<ℤ◌ : ℤ → ℤ → Type 0
a <ℤ b = pos_part a + neg_part b < pos_part b + neg_part a

abbrev pub ◌≤ℤ◌ : ℤ → ℤ → Type 0
a ≤ℤ b = pos_part a + neg_part b ≤ pos_part b + neg_part a

abbrev pub ltb_ℤ : ℤ → ℤ → Bool
ltb_ℤ a b = ltb (pos_part a + neg_part b) (pos_part b + neg_part a)

-- The two's complement reading, in `bits` bits, of an integer.
unfoldable pub wrap : ℕ → ℤ → ℤ
wrap half (pos n) =
    let r = n % (half + half) in if ltb r half then pos r else negsuc (half + half - r - 1)
wrap half (negsuc n) =
    let r = n % (half + half) in if ltb r half then negsuc r else pos (half + half - r - 1)

abbrev pub half64 : ℕ
half64 = 2 ^ 63

abbrev pub half32 : ℕ
half32 = 2 ^ 31

-- `a + b` on `int`, wrapped.
unfoldable pub add_int : ℤ → ℤ → ℤ
unfolding wrap
add_int a b = wrap half64 (sub_ℕ (pos_part a + pos_part b) (neg_part a + neg_part b))

-- `int32(a)`.
unfoldable pub to_int32 : ℤ → ℤ
unfolding wrap
to_int32 a = wrap half32 a

-- `a * b` on `int` and on `time.Duration`, wrapped.
unfoldable pub mul_int : ℤ → ℤ → ℤ
unfolding wrap
mul_int (pos a) (pos b) = wrap half64 (pos (a * b))
mul_int (pos a) (negsuc b) = wrap half64 (sub_ℕ 0 (a * suc b))
mul_int (negsuc a) (pos b) = wrap half64 (sub_ℕ 0 (suc a * b))
mul_int (negsuc a) (negsuc b) = wrap half64 (pos (suc a * suc b))
