-- ===== src/Config/Text.antt =====
-- src/config.c: trim, parse_bool and copy_str, and the string functions of C that the file calls.
use Prim.Native.Char.{code}
use Prim.Native.String.{String}
use pipeasio.Prelude.{
  ℕ, zero, suc, ◌+◌, ◌-◌, Bool, true, false, ◌&&◌, ◌||◌, Option, none, some, [], ◌∷◌, ◌==◌, leb,
  if◌then◌else◌,
}
use pipeasio.Config.{Bytes}

-- The bytes of an ASCII literal.
abbrev pub codes : String → Bytes
codes String.[] = []
codes (String.◌∷◌ c s) = code c ∷ codes s

-- isspace in the C locale: tab, newline, vertical tab, form feed, carriage return, space.
unfoldable pub is_space : ℕ → Bool
is_space c = (leb 9 c && leb c 13) || c == b' '

-- strcmp(a, b) == 0
unfoldable pub str_eq : Bytes → Bytes → Bool
str_eq [] [] = true
str_eq (a ∷ as') (b ∷ bs) = a == b && str_eq as' bs
str_eq _ _ = false

unfoldable pub to_lower : ℕ → ℕ
to_lower c = if leb b'A' c && leb c b'Z' then c + 32 else c

-- strcasecmp(a, b) == 0
unfoldable pub str_case_eq : Bytes → Bytes → Bool
unfolding to_lower
str_case_eq [] [] = true
str_case_eq (a ∷ as') (b ∷ bs) = to_lower a == to_lower b && str_case_eq as' bs
str_case_eq _ _ = false

-- What a C string function sees of a buffer: the bytes before the first NUL.
unfoldable pub until_nul : Bytes → Bytes
until_nul [] = []
until_nul (c ∷ cs) = if c == 0 then [] else c ∷ until_nul cs

-- strchr(s, b), as the bytes before and behind the first `b`.
unfoldable pub split_at : ℕ → Bytes → Option (Bytes × Bytes)
split_at b [] = none
split_at b (c ∷ cs) =
    let rest = split_at b cs in
    if c == b then some ([], cs) else elim rest [ none ↦ none | some (k, v) ↦ some (c ∷ k, v) ]

unfoldable pub skip_space : Bytes → Bytes
unfolding is_space
skip_space [] = []
skip_space (c ∷ cs) = if is_space c then skip_space cs else c ∷ cs

-- One byte in front of what `strip_end` left of the bytes behind it.
unfoldable pub strip_cons : ℕ → Bytes → Bytes
unfolding is_space
strip_cons c [] = if is_space c then [] else c ∷ []
strip_cons c (d ∷ ds) = c ∷ d ∷ ds

-- The loop from the end that overwrites white space by NUL.
unfoldable pub strip_end : Bytes → Bytes
unfolding strip_cons
strip_end [] = []
strip_end (c ∷ cs) = strip_cons c (strip_end cs)

unfoldable pub trim : Bytes → Bytes
unfolding skip_space strip_end
trim s = strip_end (skip_space s)

starts_with_one : Bytes → Bool
starts_with_one [] = false
starts_with_one (c ∷ cs) = c == b'1'

unfoldable pub parse_bool : Bytes → Bool
unfolding starts_with_one str_case_eq
parse_bool v =
    starts_with_one v
    || str_case_eq v (codes "true")
    || str_case_eq v (codes "on")
    || str_case_eq v (codes "yes")

-- The loop of `copy_str`, with `room` bytes left before the terminator.
unfoldable pub copy_onto : ℕ → Bytes → Bytes
copy_onto zero src = []
copy_onto (suc room) [] = []
copy_onto (suc room) (c ∷ cs) = c ∷ copy_onto room cs

unfoldable pub copy_str : ℕ → Bytes → Bytes
unfolding copy_onto
copy_str cap src = if cap == 0 then [] else copy_onto (cap - 1) src
