-- ===== src/Config/Lines.antt =====
-- How the loader's loop reads one line that the writer has written.
use pipeasio.Prelude.{
  ℕ, zero, suc, ◌+◌, ◌≤◌, ◌<◌, ◌≡◌, ◌≢◌, refl, sym, ap, ◌∙◌, Bool, true, false, ◌&&◌, ◌||◌, [], ◌∷◌,
  ◌++◌, some, arith, leb, ◌==◌, length, length-append, All, All-append,
}
use mathlib.Core.List.{append_assoc}
use pipeasio.Config.{Bytes}
use pipeasio.Config.Parse.{
  Loader, apply_kv, fgets, key_line, trimmed_line, process_line, read_lines,
}
use pipeasio.Config.Text.{is_space, until_nul, split_at, skip_space, strip_cons, strip_end, trim}

-- No newline and no NUL: such bytes stay on one line and in one C string.
abbrev pub IsInline : Bytes → Type 0
IsInline = All λ c. (c ≢ b'\n') × (c ≢ 0)

fgets-line :
    (room : ℕ) (s rest : Bytes)
    → length s < room
    → IsInline s
    → fgets room (s ++ b'\n' ∷ rest) ≡ (s ++ b'\n' ∷ [], rest)
unfolding fgets
fgets-line zero s rest h i = absurd (omega arith)
fgets-line (suc room) [] rest h i = refl
fgets-line (suc room) (c ∷ cs) rest h i = ground (arith, fgets-line room cs rest)

until_nul-line : (s : Bytes) → IsInline s → until_nul (s ++ b'\n' ∷ []) ≡ s ++ b'\n' ∷ []
unfolding until_nul
until_nul-line [] i = refl
until_nul-line (c ∷ cs) i = ground (arith, until_nul-line cs)

length-fgets : (room : ℕ) (s : Bytes) → length (fgets room s).1 ≤ length s
unfolding fgets
length-fgets zero s = omega arith
length-fgets (suc room) [] = omega arith
length-fgets (suc room) (c ∷ cs) = ground (arith, length-fgets room cs)

length-fgets_lt : (room : ℕ) (c : ℕ) (cs : Bytes) → length (fgets (suc room) (c ∷ cs)).1 ≤ length cs
unfolding fgets
length-fgets_lt room c cs = ground (arith, length-fgets room cs)

-- The loader's loop ends: any two numbers of rounds that are at least the file's length read the
-- file to the same result.
pub read_lines-fuel :
    (f g : ℕ) (file : Bytes) (l : Loader)
    → length file ≤ f
    → length file ≤ g
    → read_lines f file l ≡ read_lines g file l
unfolding read_lines
read_lines-fuel zero zero file l p q = refl
read_lines-fuel zero (suc g) [] l p q = refl
read_lines-fuel zero (suc g) (c ∷ cs) l p q = absurd (omega arith)
read_lines-fuel (suc f) zero [] l p q = refl
read_lines-fuel (suc f) zero (c ∷ cs) l p q = absurd (omega arith)
read_lines-fuel (suc f) (suc g) [] l p q = refl
read_lines-fuel (suc f) (suc g) (c ∷ cs) l p q =
    read_lines-fuel f g _ _ (omega (arith, length-fgets_lt 1022 c cs))
      (omega (arith, length-fgets_lt 1022 c cs))

read_lines-step :
    (c : ℕ) (cs : Bytes) (l : Loader)
    → let r = fgets 1023 (c ∷ cs) in
      read_lines (length (c ∷ cs)) (c ∷ cs) l ≡ read_lines (length r.1) r.1 (process_line r.0 l)
unfolding read_lines
read_lines-step c cs l = read_lines-fuel (length cs) _ _ _ (length-fgets_lt 1022 c cs) (omega arith)

-- One round of the loop on a line that fits the buffer.
pub read_lines-line :
    (s rest : Bytes) (l : Loader)
    → length s < 1023
    → IsInline s
    → read_lines (length (s ++ b'\n' ∷ rest)) (s ++ b'\n' ∷ rest) l
      ≡ read_lines (length rest) rest (process_line (s ++ b'\n' ∷ []) l)
read_lines-line [] rest l h i = rw (fgets-line 1023 [] rest h i) at (read_lines-step b'\n' rest l)
read_lines-line (c ∷ cs) rest l h i =
    rw (fgets-line 1023 (c ∷ cs) rest h i) at (read_lines-step c (cs ++ b'\n' ∷ rest) l)

strip_cons-cons : (c : ℕ) (s : Bytes) → s ≢ [] → strip_cons c s ≡ c ∷ s
unfolding strip_cons
strip_cons-cons c [] h = absurd (h refl)
strip_cons-cons c (d ∷ ds) h = refl

-- White space at the end is dropped, and nothing in front of what stays.
strip_end-append : (a b : Bytes) → strip_end b ≢ [] → strip_end (a ++ b) ≡ a ++ strip_end b
unfolding strip_end
strip_end-append [] b h = refl
strip_end-append (c ∷ cs) b h =
    ap (strip_cons c) (strip_end-append cs b h) ∙ strip_cons-cons c _ (ne cs)
  where
    ne : (xs : Bytes) → xs ++ strip_end b ≢ []
    ne [] e = h e
    ne (x ∷ xs) e = cc

strip_end-append_blank : (a b : Bytes) → strip_end b ≡ [] → strip_end (a ++ b) ≡ strip_end a
unfolding strip_end
strip_end-append_blank [] b h = h
strip_end-append_blank (c ∷ cs) b h = ap (strip_cons c) (strip_end-append_blank cs b h)

-- What the writer puts behind a key: text on one line, with no white space at either end.
pub record IsValue (v : Bytes) : Type 0 where
  pub inline : IsInline v
  pub no_space_front : skip_space v ≡ v
  pub no_space_end : strip_end v ≡ v

abbrev pub is_key_byte : ℕ → Bool
is_key_byte c = (leb b'a' c && leb c b'z') || c == b'_'

abbrev pub IsKey : Bytes → Type 0
IsKey = All λ c. is_key_byte c ≡ true

split_at-IsKey :
    (key v : Bytes)
    → IsKey key
    → split_at b'=' (key ++ b' ' ∷ b'=' ∷ v) ≡ some (key ++ b' ' ∷ [], v)
unfolding split_at
split_at-IsKey [] v h = refl
split_at-IsKey (c ∷ cs) v h = ground (arith, split_at-IsKey cs v)

is_space-key : (c : ℕ) → is_key_byte c ≡ true → is_space c ≡ false
unfolding is_space
is_space-key c h = ground arith

strip_end-IsKey : (s : Bytes) → IsKey s → strip_end s ≡ s
unfolding strip_end strip_cons
strip_end-IsKey [] h = refl
strip_end-IsKey (c ∷ []) h = rw (is_space-key c h.0)
strip_end-IsKey (c ∷ d ∷ ds) h =
    ap (strip_cons c) (strip_end-IsKey (d ∷ ds) h.1) ∙ strip_cons-cons c (d ∷ ds) (λ e. cc)

skip_space-IsKey : (c : ℕ) (cs : Bytes) → is_key_byte c ≡ true → skip_space (c ∷ cs) ≡ c ∷ cs
unfolding skip_space
skip_space-IsKey c cs h = rw (is_space-key c h)

trim_key : (c : ℕ) (cs : Bytes) → IsKey (c ∷ cs) → trim ((c ∷ cs) ++ b' ' ∷ []) ≡ c ∷ cs
unfolding trim
trim_key c cs h =
    rw (skip_space-IsKey c (cs ++ b' ' ∷ []) h.0)
      (strip_end-append_blank (c ∷ cs) (b' ' ∷ []) refl ∙ strip_end-IsKey (c ∷ cs) h)

-- What the trimmed line holds behind the equals sign.
abbrev after_equals : Bytes → Bytes
after_equals [] = []
after_equals (d ∷ ds) = b' ' ∷ d ∷ ds

trim-after_equals : (v : Bytes) → IsValue v → trim (after_equals v) ≡ v
unfolding trim
trim-after_equals [] h = refl
trim-after_equals (d ∷ ds) h = rw h.no_space_front h.no_space_end

strip_end-tail :
    (v : Bytes)
    → IsValue v
    → strip_end (b' ' ∷ b'=' ∷ b' ' ∷ (v ++ b'\n' ∷ [])) ≡ b' ' ∷ b'=' ∷ after_equals v
unfolding strip_end
strip_end-tail [] h = refl
strip_end-tail (d ∷ ds) h =
    let e : strip_end ((d ∷ ds) ++ b'\n' ∷ []) ≡ d ∷ ds =
      strip_end-append_blank (d ∷ ds) (b'\n' ∷ []) refl ∙ h.no_space_end in
    ap (λ (t : Bytes). strip_cons b' ' (strip_cons b'=' (strip_cons b' ' t))) e

trim_line :
    (c : ℕ) (cs v : Bytes)
    → IsKey (c ∷ cs)
    → IsValue v
    → trim (((c ∷ cs) ++ (b' ' ∷ b'=' ∷ b' ' ∷ v)) ++ b'\n' ∷ [])
      ≡ (c ∷ cs) ++ b' ' ∷ b'=' ∷ after_equals v
unfolding trim
trim_line c cs v k h =
    ap trim (append_assoc (c ∷ cs) (b' ' ∷ b'=' ∷ b' ' ∷ v) (b'\n' ∷ []))
    ∙ rw (is_space-key c k.0) (
        strip_end-append (c ∷ cs) (b' ' ∷ b'=' ∷ b' ' ∷ (v ++ b'\n' ∷ []))
          (λ e. absurd (cons-ne-nil (sym (strip_end-tail v h) ∙ e)))
        ∙ ap (◌++◌ (c ∷ cs)) (strip_end-tail v h))
  where
    cons-ne-nil : {x : ℕ} {xs : Bytes} → x ∷ xs ≢ []
    cons-ne-nil e = cc

-- A line that begins with a key byte is no comment, section header or empty line.
trimmed_line-key :
    (c : ℕ) (cs : Bytes) (l : Loader)
    → is_key_byte c ≡ true
    → l.in_section ≡ true
    → trimmed_line (c ∷ cs) l ≡ key_line (c ∷ cs) l
unfolding trimmed_line
trimmed_line-key c cs l k s = ground arith

IsInline-append : (a b : Bytes) → IsInline a → IsInline b → IsInline (a ++ b)
IsInline-append = All-append λ c. (c ≢ b'\n') × (c ≢ 0)

IsKey-IsInline : (s : Bytes) → IsKey s → IsInline s
IsKey-IsInline [] h = tt
IsKey-IsInline (c ∷ cs) h = ((λ e. ground arith, λ e. ground arith), IsKey-IsInline cs h.1)

pub key_value-IsInline :
    (key v : Bytes) → IsKey key → IsValue v → IsInline (key ++ (b' ' ∷ b'=' ∷ b' ' ∷ v))
key_value-IsInline key v k h =
    IsInline-append key _ (IsKey-IsInline key k) (blank, (equals, (blank, h.inline)))
  where
    blank : (◌≢◌ {A = ℕ} b' ' b'\n') × (◌≢◌ {A = ℕ} b' ' 0)
    blank = (λ e. omega arith, λ e. omega arith)

    equals : (◌≢◌ {A = ℕ} b'=' b'\n') × (◌≢◌ {A = ℕ} b'=' 0)
    equals = (λ e. omega arith, λ e. omega arith)

-- `key = value` stores the value under the key.
pub process_line-key_value :
    (c : ℕ) (cs v : Bytes) (l : Loader)
    → IsKey (c ∷ cs)
    → IsValue v
    → l.in_section ≡ true
    → process_line (((c ∷ cs) ++ (b' ' ∷ b'=' ∷ b' ' ∷ v)) ++ b'\n' ∷ []) l
      ≡ record l { out = apply_kv l.out (c ∷ cs) v }
unfolding process_line key_line
process_line-key_value c cs v l k h s =
    ap (λ (t : Bytes). trimmed_line (trim t) l)
      (until_nul-line ((c ∷ cs) ++ (b' ' ∷ b'=' ∷ b' ' ∷ v)) (key_value-IsInline (c ∷ cs) v k h))
    ∙ ap (λ (t : Bytes). trimmed_line t l) (trim_line c cs v k h)
    ∙ trimmed_line-key c (cs ++ b' ' ∷ b'=' ∷ after_equals v) l k.0 s
    ∙ rw (split_at-IsKey (c ∷ cs) (after_equals v) k, key_line)
        (rw (trim_key c cs k, trim-after_equals v h))

-- One round of the loop on a line of the writer.
pub read_lines-key_value :
    (c : ℕ) (cs v rest : Bytes) (l : Loader)
    → IsKey (c ∷ cs)
    → IsValue v
    → length (c ∷ cs) + length v < 1020
    → l.in_section ≡ true
    → let file = ((c ∷ cs) ++ (b' ' ∷ b'=' ∷ b' ' ∷ v)) ++ b'\n' ∷ rest in
      read_lines (length file) file l
      ≡ read_lines (length rest) rest (record l { out = apply_kv l.out (c ∷ cs) v })
read_lines-key_value c cs v rest l k h fits s =
    read_lines-line ((c ∷ cs) ++ (b' ' ∷ b'=' ∷ b' ' ∷ v)) rest l
      (omega (arith, length-append (c ∷ cs) (b' ' ∷ b'=' ∷ b' ' ∷ v)))
      (key_value-IsInline (c ∷ cs) v k h)
    ∙ ap (read_lines (length rest) rest) (process_line-key_value c cs v l k h s)
