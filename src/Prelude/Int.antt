-- ===== src/Prelude/Int.antt =====
-- C's `int` and `LONG` values as integers over the native numbers, under the library's names.
use Prim.Native.Nat.{ℕ, suc, ◌+◌, ◌-◌, ◌%◌, ◌^◌, ◌<◌}
use mathlib.Core.Path.{◌≡◌}
use mathlib.Core.Bool.{Bool, true, false}
use native.Mathlib.Omega.{arith}
use pipeasio.Prelude.Tests.{ltb, ◌==◌, if◌then◌else◌}

-- `negsuc n` is -(n + 1).
pub data ℤ : Type 0 where
  pos : ℕ → ℤ
  negsuc : ℕ → ℤ

abbrev pub pos_part : ℤ → ℕ
pos_part (pos n) = n
pos_part (negsuc n) = 0

abbrev pub neg_part : ℤ → ℕ
neg_part (pos n) = 0
neg_part (negsuc n) = suc n

-- `a < b` and `a == b` on `int`.
abbrev pub ltb_ℤ : ℤ → ℤ → Bool
ltb_ℤ a b = ltb (pos_part a + neg_part b) (pos_part b + neg_part a)

abbrev pub eqb_ℤ : ℤ → ℤ → Bool
eqb_ℤ (pos a) (pos b) = a == b
eqb_ℤ (negsuc a) (negsuc b) = a == b
eqb_ℤ _ _ = false

abbrev pub is_neg : ℤ → Bool
is_neg (pos n) = false
is_neg (negsuc n) = true

-- The range of a 32-bit `int`.
abbrev pub IsInt32 : ℤ → Type 0
IsInt32 (pos n) = n < 2 ^ 31
IsInt32 (negsuc n) = n < 2 ^ 31

-- The conversion of a wider integer to a 32-bit `int`, which keeps its low 32 bits.
abbrev pub to_int32 : ℤ → ℤ
to_int32 (pos n) = let w = n % 2 ^ 32 in if ltb w (2 ^ 31) then pos w else negsuc (2 ^ 32 - w - 1)
to_int32 (negsuc n) =
    let w = n % 2 ^ 32 in if ltb w (2 ^ 31) then negsuc w else pos (2 ^ 32 - w - 1)

-- The test of integers is equality.
pub eqb_ℤ_sound : (y z : ℤ) → eqb_ℤ y z ≡ true → y ≡ z
eqb_ℤ_sound (pos m) (pos n) e = ground arith
eqb_ℤ_sound (pos m) (negsuc n) e = cc
eqb_ℤ_sound (negsuc m) (pos n) e = cc
eqb_ℤ_sound (negsuc m) (negsuc n) e = ground arith

pub eqb_ℤ_refl : (z : ℤ) → eqb_ℤ z z ≡ true
eqb_ℤ_refl (pos n) = ground arith
eqb_ℤ_refl (negsuc n) = ground arith
