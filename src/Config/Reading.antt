-- ===== src/Config/Reading.antt =====
-- The writer's lines, as the loader's loop reads them one by one.
use pipeasio.Prelude.{
  ℕ, zero, suc, ◌+◌, ◌≤◌, ◌<◌, ◌≡◌, refl, ap, ◌∙◌, Bool, true, false, [], ◌∷◌, ◌++◌, arith, ◌&&◌,
  ◌/◌, ◌%◌, ◌^◌, ℤ, pos, negsuc, IsInt32, length, All,
}
use native.Mathlib.Nat.{pow-suc}
use pipeasio.Config.{Bytes, Config, name_max}
use pipeasio.Config.Lines.{
  IsInline, IsValue, IsKey, is_key_byte, read_lines-line, read_lines-key_value,
}
use pipeasio.Config.Number.{print_int, digits_onto}
use pipeasio.Config.Parse.{Loader, apply_kv, process_line, read_lines}
use pipeasio.Config.Printing.{IsGraphic, print_int-IsGraphic, atoi-print_int}
use pipeasio.Config.Save.{print_bool, key_value, comment_text}
use pipeasio.Config.Text.{
  codes, copy_onto, copy_str, parse_bool, skip_space, strip_end, strip_cons, is_space, str_eq,
  until_nul, trim, split_at,
}

graphic-IsInline : (s : Bytes) → All IsGraphic s → IsInline s
unfolding is_space
graphic-IsInline [] h = tt
graphic-IsInline (c ∷ cs) h = ((λ e. ground arith, h.0.1), graphic-IsInline cs h.1)

graphic-strip_end : (s : Bytes) → All IsGraphic s → strip_end s ≡ s
unfolding strip_end
graphic-strip_end [] h = refl
graphic-strip_end (c ∷ []) h = rw h.0.0
graphic-strip_end (c ∷ d ∷ ds) h = ap (strip_cons c) (graphic-strip_end (d ∷ ds) h.1)

graphic-skip_space : (s : Bytes) → All IsGraphic s → skip_space s ≡ s
unfolding skip_space
graphic-skip_space [] h = refl
graphic-skip_space (c ∷ cs) h = rw h.0.0

graphic-IsValue : (s : Bytes) → All IsGraphic s → IsValue s
graphic-IsValue s h = record {
  inline = graphic-IsInline s h;
  no_space_front = graphic-skip_space s h;
  no_space_end = graphic-strip_end s h;
}

print_int-IsValue : (z : ℤ) → IsValue (print_int z)
print_int-IsValue z = graphic-IsValue (print_int z) (print_int-IsGraphic z)

print_bool-IsValue : (b : Bool) → IsValue (print_bool b)
unfolding is_space
print_bool-IsValue true = graphic-IsValue (print_bool true) ((refl, λ e. omega arith), tt)
print_bool-IsValue false = graphic-IsValue (print_bool false) ((refl, λ e. omega arith), tt)

pub copy_str-fits : (s : Bytes) → length s < name_max → copy_str name_max s ≡ s
unfolding copy_str
copy_str-fits s h = copy_onto-fits 255 s (omega arith)
  where
    copy_onto-fits : (room : ℕ) (t : Bytes) → length t ≤ room → copy_onto room t ≡ t
    copy_onto-fits zero [] h = refl
    copy_onto-fits zero (c ∷ cs) h = absurd (omega arith)
    copy_onto-fits (suc room) [] h = refl
    copy_onto-fits (suc room) (c ∷ cs) h = ap (◌∷◌ c) (copy_onto-fits room cs (omega arith))

parse-print_bool : (b : Bool) → parse_bool (print_bool b) ≡ b
unfolding parse_bool
parse-print_bool true = refl
parse-print_bool false = refl

length-digits_onto :
    (k fuel n : ℕ) (tail : Bytes)
    → n < 10 ^ suc k
    → length (digits_onto fuel n tail) ≤ suc k + length tail
unfolding digits_onto
length-digits_onto k zero n tail h = omega arith
length-digits_onto zero (suc fuel) n tail h = ground arith
length-digits_onto (suc k) (suc fuel) n tail h =
    ground (arith, length-digits_onto k fuel (n / 10) ((b'0' + n % 10) ∷ tail), pow-suc 10 (suc k))

length-print_int : (z : ℤ) → IsInt32 z → length (print_int z) ≤ 11
unfolding print_int
length-print_int (pos n) h = omega (arith, length-digits_onto 9 (suc n) n [] (omega arith))
length-print_int (negsuc n) h =
    omega (arith, length-digits_onto 9 (suc (suc n)) (suc n) [] (omega arith))

length-print_bool : (b : Bool) → length (print_bool b) ≡ 1
length-print_bool true = refl
length-print_bool false = refl

all_key : Bytes → Bool
all_key [] = true
all_key (c ∷ cs) = is_key_byte c && all_key cs

all_key-IsKey : (s : Bytes) → all_key s ≡ true → IsKey s
unfolding all_key
all_key-IsKey [] h = tt
all_key-IsKey (c ∷ cs) h = (ground arith, all_key-IsKey cs (ground arith))

-- The loop inside the section, from settings `c`.
abbrev pub reads : Bytes → Config → Loader
reads file c = read_lines (length file) file (record { out = c; in_section = true })

value-line :
    (k : ℕ) (ks v rest : Bytes) (c d : Config)
    → all_key (k ∷ ks) ≡ true
    → length (k ∷ ks) < 100
    → IsValue v
    → length v < name_max
    → apply_kv c (k ∷ ks) v ≡ d
    → reads (key_value (k ∷ ks) v rest) c ≡ reads rest d
value-line k ks v rest c d key short h fits e =
    read_lines-key_value k ks v rest (record { out = c; in_section = true })
      (all_key-IsKey (k ∷ ks) key) h (omega arith) refl
    ∙ ap (λ (x : Config). read_lines (length rest) rest (record { out = x; in_section = true })) e

int-line :
    (k : ℕ) (ks rest : Bytes) (z : ℤ) (c d : Config)
    → all_key (k ∷ ks) ≡ true
    → length (k ∷ ks) < 100
    → IsInt32 z
    → apply_kv c (k ∷ ks) (print_int z) ≡ d
    → reads (key_value (k ∷ ks) (print_int z) rest) c ≡ reads rest d
int-line k ks rest z c d key short h e =
    value-line k ks (print_int z) rest c d key short (print_int-IsValue z)
      (omega (arith, length-print_int z h)) e

bool-line :
    (k : ℕ) (ks rest : Bytes) (b : Bool) (c d : Config)
    → all_key (k ∷ ks) ≡ true
    → length (k ∷ ks) < 100
    → apply_kv c (k ∷ ks) (print_bool b) ≡ d
    → reads (key_value (k ∷ ks) (print_bool b) rest) c ≡ reads rest d
bool-line k ks rest b c d key short e =
    value-line k ks (print_bool b) rest c d key short (print_bool-IsValue b)
      (omega (arith, length-print_bool b)) e

pub comment-line :
    (rest : Bytes) (l : Loader)
    → let file = comment_text ++ b'\n' ∷ rest in
      read_lines (length file) file l ≡ read_lines (length rest) rest l
unfolding process_line until_nul trim
comment-line rest l = read_lines-line comment_text rest l (omega arith) (omega arith)

pub section-line :
    (rest : Bytes) (l : Loader)
    → let file = codes "[pipeasio]" ++ b'\n' ∷ rest in
      read_lines (length file) file l
      ≡ read_lines (length rest) rest (record l { in_section = true })
unfolding process_line until_nul trim split_at str_eq
section-line rest l = read_lines-line (codes "[pipeasio]") rest l (omega arith) (omega arith)

-- Each line of the writer, with any text behind it.
module _ (c : Config) (rest : Bytes) where
  pub inputs-line :
      (z : ℤ)
      → IsInt32 z
      → reads (key_value (codes "inputs") (print_int z) rest) c
        ≡ reads rest (record c { inputs = z })
  unfolding apply_kv str_eq all_key
  inputs-line z h =
      int-line b'i' (codes "nputs") rest z c _ refl (omega arith) h
        (ap (λ (x : ℤ). record c { inputs = x }) (atoi-print_int z h))

  pub outputs-line :
      (z : ℤ)
      → IsInt32 z
      → reads (key_value (codes "outputs") (print_int z) rest) c
        ≡ reads rest (record c { outputs = z })
  unfolding apply_kv str_eq all_key
  outputs-line z h =
      int-line b'o' (codes "utputs") rest z c _ refl (omega arith) h
        (ap (λ (x : ℤ). record c { outputs = x }) (atoi-print_int z h))

  pub buffer_size-line :
      (z : ℤ)
      → IsInt32 z
      → reads (key_value (codes "buffer_size") (print_int z) rest) c
        ≡ reads rest (record c { buffer_size = z })
  unfolding apply_kv str_eq all_key
  buffer_size-line z h =
      int-line b'b' (codes "uffer_size") rest z c _ refl (omega arith) h
        (ap (λ (x : ℤ). record c { buffer_size = x }) (atoi-print_int z h))

  pub sample_rate-line :
      (z : ℤ)
      → IsInt32 z
      → reads (key_value (codes "sample_rate") (print_int z) rest) c
        ≡ reads rest (record c { sample_rate = z })
  unfolding apply_kv str_eq all_key
  sample_rate-line z h =
      int-line b's' (codes "ample_rate") rest z c _ refl (omega arith) h
        (ap (λ (x : ℤ). record c { sample_rate = x }) (atoi-print_int z h))

  pub buffer_mode-line :
      (z : ℤ)
      → IsInt32 z
      → reads (key_value (codes "buffer_mode") (print_int z) rest) c
        ≡ reads rest (record c { buffer_mode = z })
  unfolding apply_kv str_eq all_key
  buffer_mode-line z h =
      int-line b'b' (codes "uffer_mode") rest z c _ refl (omega arith) h
        (ap (λ (x : ℤ). record c { buffer_mode = x }) (atoi-print_int z h))

  pub rt_priority-line :
      (z : ℤ)
      → IsInt32 z
      → reads (key_value (codes "rt_priority") (print_int z) rest) c
        ≡ reads rest (record c { rt_priority = z })
  unfolding apply_kv str_eq all_key
  rt_priority-line z h =
      int-line b'r' (codes "t_priority") rest z c _ refl (omega arith) h
        (ap (λ (x : ℤ). record c { rt_priority = x }) (atoi-print_int z h))

  pub fixed_buffer_size-line :
      (b : Bool)
      → reads (key_value (codes "fixed_buffer_size") (print_bool b) rest) c
        ≡ reads rest (record c { fixed_buffer_size = b })
  unfolding apply_kv str_eq all_key
  fixed_buffer_size-line b =
      bool-line b'f' (codes "ixed_buffer_size") rest b c _ refl (omega arith)
        (ap (λ (x : Bool). record c { fixed_buffer_size = x }) (parse-print_bool b))

  pub auto_connect-line :
      (b : Bool)
      → reads (key_value (codes "auto_connect") (print_bool b) rest) c
        ≡ reads rest (record c { auto_connect = b })
  unfolding apply_kv str_eq all_key
  auto_connect-line b =
      bool-line b'a' (codes "uto_connect") rest b c _ refl (omega arith)
        (ap (λ (x : Bool). record c { auto_connect = x }) (parse-print_bool b))

  pub follow_device_clock-line :
      (b : Bool)
      → reads (key_value (codes "follow_device_clock") (print_bool b) rest) c
        ≡ reads rest (record c { follow_device_clock = b })
  unfolding apply_kv str_eq all_key
  follow_device_clock-line b =
      bool-line b'f' (codes "ollow_device_clock") rest b c _ refl (omega arith)
        (ap (λ (x : Bool). record c { follow_device_clock = x }) (parse-print_bool b))

  pub output_device-line :
      (v : Bytes)
      → IsValue v
      → length v < name_max
      → reads (key_value (codes "output_device") v rest) c
        ≡ reads rest (record c { output_device = v })
  unfolding apply_kv str_eq all_key
  output_device-line v h fits =
      value-line b'o' (codes "utput_device") v rest c _ refl (omega arith) h fits
        (ap (λ (x : Bytes). record c { output_device = x }) (copy_str-fits v fits))

  pub input_device-line :
      (v : Bytes)
      → IsValue v
      → length v < name_max
      → reads (key_value (codes "input_device") v rest) c
        ≡ reads rest (record c { input_device = v })
  unfolding apply_kv str_eq all_key
  input_device-line v h fits =
      value-line b'i' (codes "nput_device") v rest c _ refl (omega arith) h fits
        (ap (λ (x : Bytes). record c { input_device = x }) (copy_str-fits v fits))

  pub node_name-line :
      (v : Bytes)
      → IsValue v
      → length v < name_max
      → reads (key_value (codes "node_name") v rest) c ≡ reads rest (record c { node_name = v })
  unfolding apply_kv str_eq all_key
  node_name-line v h fits =
      value-line b'n' (codes "ode_name") v rest c _ refl (omega arith) h fits
        (ap (λ (x : Bytes). record c { node_name = x }) (copy_str-fits v fits))
