-- ===== src/Config/Printing.antt =====
-- A printed number is read back: %d against atoi.
use pipeasio.Prelude.{
  ℕ, zero, suc, ◌+◌, ◌-◌, ◌*◌, ◌/◌, ◌%◌, ◌^◌, ◌<◌, ◌≡◌, refl, ap, ◌∙◌, true, false, [], ◌∷◌, arith,
  ltb, ℤ, pos, negsuc, to_int32, IsInt32, Bool-cases, inl, inr, All, ◌≢◌, ltb→lt,
}
use pipeasio.Config.{Bytes}
use pipeasio.Config.Number.{
  is_digit, read_digits, to_long, signed_digits, strtol, atoi, digits_onto, print_int,
}
use pipeasio.Config.Text.{skip_space, is_space}

digit-IsGraphic : (d : ℕ) → d < 10 → (is_space (b'0' + d) ≡ false) × (b'0' + d ≢ 0)
unfolding is_space
digit-IsGraphic d h = ground arith

-- One digit is read.
read_digits-digit :
    (acc d : ℕ) (tail : Bytes)
    → d < 10
    → read_digits acc ((b'0' + d) ∷ tail) ≡ read_digits (acc * 10 + d) tail
unfolding read_digits
read_digits-digit acc d tail h =
    let e : acc * 10 + (b'0' + d - b'0') ≡ acc * 10 + d = omega arith in
    let t : is_digit (b'0' + d) ≡ true = digit-is_digit d h in rw (t, e)
  where
    digit-is_digit : (k : ℕ) → k < 10 → is_digit (b'0' + k) ≡ true
    digit-is_digit k h = ground arith

read_digits-digits_onto :
    (fuel n : ℕ) (tail : Bytes)
    → n < fuel
    → read_digits 0 (digits_onto fuel n tail) ≡ read_digits n tail
unfolding digits_onto
read_digits-digits_onto zero n tail h = absurd (omega arith)
read_digits-digits_onto (suc fuel) n tail h = elim (Bool-cases (ltb n 10)) [
  | inl small ↦ rw small (
      read_digits-digit 0 n tail (ltb→lt n 10 small)
      ∙ ap (λ (k : ℕ). read_digits k tail) (omega arith))
  | inr large ↦ rw large (
      read_digits-digits_onto fuel (n / 10) ((b'0' + n % 10) ∷ tail) (ground arith)
      ∙ read_digits-digit (n / 10) (n % 10) tail (omega arith)
      ∙ ap (λ (k : ℕ). read_digits k tail) (omega arith))
]

-- The printed digits begin with a digit.
abbrev StartsWithDigit : Bytes → Type 0
StartsWithDigit s = (d : ℕ) × (cs : Bytes) × (s ≡ (b'0' + d) ∷ cs) × (d < 10)

digits_onto-head :
    (fuel n : ℕ) (tail : Bytes) → n < fuel → StartsWithDigit (digits_onto fuel n tail)
unfolding digits_onto
digits_onto-head zero n tail h = absurd (omega arith)
digits_onto-head (suc fuel) n tail h = elim (Bool-cases (ltb n 10)) [
  | inl small ↦ rw small (n, tail, refl, ltb→lt n 10 small)
  | inr large ↦ rw large (digits_onto-head fuel (n / 10) ((b'0' + n % 10) ∷ tail) (ground arith))
]

-- Bytes that are neither white space nor NUL.
abbrev pub IsGraphic : ℕ → Type 0
IsGraphic c = (is_space c ≡ false) × (c ≢ 0)

digits_onto-IsGraphic :
    (fuel n : ℕ) (tail : Bytes) → All IsGraphic tail → All IsGraphic (digits_onto fuel n tail)
unfolding digits_onto
digits_onto-IsGraphic zero n tail h = h
digits_onto-IsGraphic (suc fuel) n tail h = elim (Bool-cases (ltb n 10)) [
  | inl small ↦ rw small (digit n (ltb→lt n 10 small), h)
  | inr large ↦ rw large (digits_onto-IsGraphic fuel (n / 10) _ (digit (n % 10) (omega arith), h))
]
  where
    digit : (d : ℕ) → d < 10 → IsGraphic (b'0' + d)
    digit d h = digit-IsGraphic d h

pub print_int-IsGraphic : (z : ℤ) → All IsGraphic (print_int z)
unfolding print_int is_space
print_int-IsGraphic (pos n) = digits_onto-IsGraphic (suc n) n [] tt
print_int-IsGraphic (negsuc n) =
    ((refl, λ e. omega arith), digits_onto-IsGraphic (suc (suc n)) (suc n) [] tt)

skip_space-graphic : (c : ℕ) (cs : Bytes) → is_space c ≡ false → skip_space (c ∷ cs) ≡ c ∷ cs
unfolding skip_space
skip_space-graphic c cs h = rw h

signed_digits-digit :
    (s : Bytes) → StartsWithDigit s → signed_digits s ≡ to_long false (read_digits 0 s)
unfolding signed_digits
signed_digits-digit s (d, cs, e, h) = rw e (ground arith)

signed_digits-minus : (s : Bytes) → signed_digits (b'-' ∷ s) ≡ to_long true (read_digits 0 s)
unfolding signed_digits
signed_digits-minus s = refl

strtol-graphic : (s : Bytes) → All IsGraphic s → strtol s ≡ signed_digits s
unfolding strtol
strtol-graphic [] h = refl
strtol-graphic (c ∷ cs) h = rw (skip_space-graphic c cs h.0.0)

read_printed : (n : ℕ) → read_digits 0 (digits_onto (suc n) n []) ≡ n
unfolding read_digits
read_printed n = read_digits-digits_onto (suc n) n [] (omega arith)

to_long-pos : (n : ℕ) → n < 2 ^ 31 → to_long false n ≡ (pos n, false)
unfolding to_long
to_long-pos n h = ground arith

to_long-negsuc : (n : ℕ) → n < 2 ^ 31 → to_long true (suc n) ≡ (negsuc n, false)
unfolding to_long
to_long-negsuc n h = ground arith

strtol-print_int : (z : ℤ) → IsInt32 z → strtol (print_int z) ≡ (z, false)
unfolding print_int
strtol-print_int (pos n) h =
    strtol-graphic (print_int (pos n)) (print_int-IsGraphic (pos n))
    ∙ signed_digits-digit (digits_onto (suc n) n []) (digits_onto-head (suc n) n [] (omega arith))
    ∙ ap (to_long false) (read_printed n)
    ∙ to_long-pos n h
strtol-print_int (negsuc n) h =
    strtol-graphic (print_int (negsuc n)) (print_int-IsGraphic (negsuc n))
    ∙ signed_digits-minus (digits_onto (suc (suc n)) (suc n) [])
    ∙ ap (to_long true) (read_printed (suc n))
    ∙ to_long-negsuc n h

to_int32_of_IsInt32 : (z : ℤ) → IsInt32 z → to_int32 z ≡ z
to_int32_of_IsInt32 (pos n) h = ground arith
to_int32_of_IsInt32 (negsuc n) h = ground arith

-- Every `int` that %d prints is what atoi reads.
pub atoi-print_int : (z : ℤ) → IsInt32 z → atoi (print_int z) ≡ z
unfolding atoi
atoi-print_int z h = rw (strtol-print_int z h) (to_int32_of_IsInt32 z h)
