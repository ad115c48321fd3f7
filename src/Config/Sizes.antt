-- ===== src/Config/Sizes.antt =====
-- What `pipeasio_buffer_size_valid` accepts.
use pipeasio.Prelude.{
  ℕ, ◌^◌, ◌≤◌, ◌<◌, ◌≡◌, ◌↔◌, refl, Bool, true, false, ◌||◌, not, ◌==◌, ==_iff, arith, leb,
  holds_to, holds_to-below, ℤ, pos, negsuc, if◌then◌else◌, ap,
}
use pipeasio.Config.{buffer_size_valid}

-- The exponent of a power of two between 16 and 8192.
abbrev exponent : ℕ → ℕ
exponent n =
    if n == 16
    then 4
    else if n == 32
    then 5
    else if n == 64
    then 6
    else if n == 128
    then 7
    else if n == 256
    then 8
    else if n == 512
    then 9
    else if n == 1024
    then 10
    else if n == 2048
    then 11
    else if n == 4096
    then 12
    else 13

abbrev agrees : ℕ → Bool
agrees n = not (buffer_size_valid (pos n)) || n == 2 ^ exponent n

table : holds_to agrees 8193 ≡ true
unfolding holds_to buffer_size_valid
table = refl

abbrev pub IsPowerSize : ℤ → Type 0
IsPowerSize z = (k : ℕ) × (4 ≤ k) × (k ≤ 13) × (z ≡ pos (2 ^ k))

valid-le : (n : ℕ) → buffer_size_valid (pos n) ≡ true → n < 8193
unfolding buffer_size_valid
valid-le n h = ground arith

valid-power : (n : ℕ) → buffer_size_valid (pos n) ≡ true → n ≡ 2 ^ exponent n
valid-power n h =
    (==_iff n (2 ^ exponent n)).0
      (pick (buffer_size_valid (pos n)) _ h (holds_to-below agrees 8193 n (valid-le n h) table))
  where
    pick : (b c : Bool) → b ≡ true → (not b || c) ≡ true → c ≡ true
    pick true c e h = h
    pick false c e h = cc

exponent_bounds : (n : ℕ) → (4 ≤ exponent n) × (exponent n ≤ 13)
exponent_bounds n = ground arith

powers : holds_to (λ k. not (leb 4 k) || buffer_size_valid (pos (2 ^ k))) 14 ≡ true
unfolding holds_to buffer_size_valid
powers = refl

power-valid : (k : ℕ) → 4 ≤ k → k ≤ 13 → buffer_size_valid (pos (2 ^ k)) ≡ true
power-valid k lo hi =
    let t =
      holds_to-below (λ k. not (leb 4 k) || buffer_size_valid (pos (2 ^ k))) 14 k (omega arith)
        powers in
    ground arith

valid-negsuc : (n : ℕ) → buffer_size_valid (negsuc n) ≡ false
unfolding buffer_size_valid
valid-negsuc n = refl

-- A size passes the test exactly when it is a power of two from 2^4 = 16 to 2^13 = 8192.
pub buffer_size_valid_iff : (z : ℤ) → (buffer_size_valid z ≡ true) ↔ IsPowerSize z
buffer_size_valid_iff (pos n) = (
  λ h. (exponent n, (exponent_bounds n).0, (exponent_bounds n).1, ap pos (valid-power n h)),
  λ p. rw p.3 (power-valid p.0 p.1 p.2),
)
buffer_size_valid_iff (negsuc n) = (λ h. cc (valid-negsuc n), λ p. cc p.3)
