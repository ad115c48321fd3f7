-- ===== src/Config/Number.antt =====
-- Decimal numbers as the C library reads and prints them: strtol and atoi with a 64-bit `long`, and
-- printf's %d.
use pipeasio.Prelude.{
  ℕ, zero, suc, ◌+◌, ◌-◌, ◌*◌, ◌/◌, ◌%◌, ◌^◌, Bool, true, false, ◌&&◌, [], ◌∷◌, ◌==◌, leb, ltb,
  if◌then◌else◌, ℤ, pos, negsuc, to_int32,
}
use pipeasio.Config.{Bytes}
use pipeasio.Config.Text.{skip_space}

unfoldable pub is_digit : ℕ → Bool
is_digit c = leb b'0' c && leb c b'9'

-- The value of the leading digits, behind digits already worth `acc`.
unfoldable pub read_digits : ℕ → Bytes → ℕ
unfolding is_digit
read_digits acc [] = acc
read_digits acc (c ∷ cs) =
    let more = read_digits (acc * 10 + (c - b'0')) cs in if is_digit c then more else acc

-- The `long` for a magnitude, clamped to its range, and whether errno is ERANGE.
unfoldable pub to_long : Bool → ℕ → ℤ × Bool
to_long false v = if ltb v (2 ^ 63) then (pos v, false) else (pos (2 ^ 63 - 1), true)
to_long true v =
    if v == 0
    then (pos 0, false)
    else if leb v (2 ^ 63)
    then (negsuc (v - 1), false)
    else (negsuc (2 ^ 63 - 1), true)

unfoldable pub signed_digits : Bytes → ℤ × Bool
unfolding to_long read_digits
signed_digits [] = (pos 0, false)
signed_digits (c ∷ cs) =
    if c == b'-'
    then to_long true (read_digits 0 cs)
    else if c == b'+'
    then to_long false (read_digits 0 cs)
    else to_long false (read_digits 0 (c ∷ cs))

-- strtol(s, 0, 10), with errno == ERANGE beside it.
unfoldable pub strtol : Bytes → ℤ × Bool
unfolding signed_digits skip_space
strtol s = signed_digits (skip_space s)

unfoldable pub atoi : Bytes → ℤ
unfolding strtol
atoi s = to_int32 (strtol s).0

-- The digits of `n` in front of `tail`; `n + 1` rounds are enough.
unfoldable pub digits_onto : ℕ → ℕ → Bytes → Bytes
digits_onto zero n tail = tail
digits_onto (suc fuel) n tail =
    let more = digits_onto fuel (n / 10) ((b'0' + n % 10) ∷ tail) in
    if ltb n 10 then (b'0' + n) ∷ tail else more

unfoldable pub print_int : ℤ → Bytes
unfolding digits_onto
print_int (pos n) = digits_onto (suc n) n []
print_int (negsuc n) = b'-' ∷ digits_onto (suc (suc n)) (suc n) []
