-- ===== src/Config/Validate.antt =====
-- What the loader guarantees of the settings that it returns, whatever the file holds.
use pipeasio.Prelude.{
  ℕ, zero, suc, ◌≤◌, ◌<◌, ◌≡◌, refl, true, false, [], ◌∷◌, Option, none, some, arith, if◌then◌else◌,
  ℤ, pos, negsuc, pos_part, neg_part, is_neg, eqb_ℤ, length, Option-cases, inl, inr, Bool-cases,
  ◌⊎◌,
}
use pipeasio.Config.{
  Bytes, Config, defaults, buffer_size_valid, mode_fixed, mode_wireless, max_channels,
  min_rt_priority, max_rt_priority, name_max,
}
use pipeasio.Config.Parse.{
  World, Loader, apply_kv, validate, or_default, migrate, mode_known, section_line, key_line,
  trimmed_line, process_line, read_lines, fgets, load_file, load_opened, config_path, config_load,
  unset,
}
use pipeasio.Config.Text.{copy_onto, copy_str, split_at, trim, until_nul}

-- lo ≤ z ≤ hi, for an `int` and bounds that are not negative.
pub record Within (lo hi : ℕ) (z : ℤ) : Type 0 where
  pub nonneg : neg_part z ≡ 0
  pub above : lo ≤ pos_part z
  pub below : pos_part z ≤ hi

pub record IsValid (c : Config) : Type 0 where
  pub inputs_ok : Within 0 max_channels c.inputs
  pub outputs_ok : Within 0 max_channels c.outputs
  pub size_ok : buffer_size_valid c.buffer_size ≡ true
  pub rate_ok : neg_part c.sample_rate ≡ 0
  pub priority_ok : Within min_rt_priority max_rt_priority c.rt_priority
  pub mode_ok : mode_known c.buffer_mode ≡ true
  pub fixed_mirrors : c.fixed_buffer_size ≡ eqb_ℤ c.buffer_mode mode_fixed
  pub follow_mirrors : c.follow_device_clock ≡ eqb_ℤ c.buffer_mode mode_wireless

default_size : buffer_size_valid (pos 1024) ≡ true
unfolding buffer_size_valid
default_size = refl

or_default-Within :
    (lo hi d : ℕ) (z : ℤ) → lo ≤ d → d ≤ hi → Within lo hi (or_default (pos lo) (pos hi) (pos d) z)
or_default-Within lo hi d z a b = ground arith

or_default_of_Within : (lo hi : ℕ) (d z : ℤ) → Within lo hi z → or_default (pos lo) (pos hi) d z ≡ z
or_default_of_Within lo hi d z w = ground arith

size-valid : (z : ℤ) → buffer_size_valid (if buffer_size_valid z then z else pos 1024) ≡ true
size-valid z = elim (Bool-cases (buffer_size_valid z)) [
  | inl h ↦ rw h h
  | inr h ↦ rw h default_size
]

rate_nonneg : (z : ℤ) → neg_part (if is_neg z then pos 0 else z) ≡ 0
rate_nonneg (pos n) = refl
rate_nonneg (negsuc n) = refl

mode-known : (z : ℤ) → mode_known (if mode_known z then z else mode_fixed) ≡ true
mode-known z = ground arith

-- `validate` makes any settings valid.
pub validate-IsValid : (c : Config) → IsValid (validate c)
unfolding validate
validate-IsValid c = record {
  inputs_ok = or_default-Within 0 256 2 c.inputs (omega arith) (omega arith);
  outputs_ok = or_default-Within 0 256 2 c.outputs (omega arith) (omega arith);
  size_ok = size-valid c.buffer_size;
  rate_ok = rate_nonneg c.sample_rate;
  priority_ok = or_default-Within 1 80 15 c.rt_priority (omega arith) (omega arith);
  mode_ok = mode-known c.buffer_mode;
  fixed_mirrors = refl;
  follow_mirrors = refl;
}

rate_same : (z : ℤ) → neg_part z ≡ 0 → (if is_neg z then pos 0 else z) ≡ z
rate_same z h = ground arith

-- Valid settings pass through `validate` unchanged.
pub validate_of_IsValid : (c : Config) → IsValid c → validate c ≡ c
unfolding validate
validate_of_IsValid c v = rw (
  or_default_of_Within 0 256 (pos 2) c.inputs v.inputs_ok,
  or_default_of_Within 0 256 (pos 2) c.outputs v.outputs_ok,
  or_default_of_Within 1 80 (pos 15) c.rt_priority v.priority_ok,
  v.size_ok,
  v.mode_ok,
  rate_same c.sample_rate v.rate_ok,
  ← v.fixed_mirrors,
  ← v.follow_mirrors,
)

-- The arrays of the struct: no name fills the last byte, which is the terminator's.
pub record NamesFit (c : Config) : Type 0 where
  pub output_fits : length c.output_device < name_max
  pub input_fits : length c.input_device < name_max
  pub node_fits : length c.node_name < name_max

length-copy_onto : (room : ℕ) (s : Bytes) → length (copy_onto room s) ≤ room
unfolding copy_onto
length-copy_onto zero s = omega arith
length-copy_onto (suc room) [] = omega arith
length-copy_onto (suc room) (c ∷ cs) = omega (arith, length-copy_onto room cs)

length-copy_str : (s : Bytes) → length (copy_str name_max s) < name_max
unfolding copy_str
length-copy_str s = omega (arith, length-copy_onto 255 s)

apply_kv-NamesFit : (c : Config) (key val : Bytes) → NamesFit c → NamesFit (apply_kv c key val)
unfolding apply_kv
apply_kv-NamesFit c key val f = ground (arith, length-copy_str val)

section_line-out : (s : Bytes) (l : Loader) → (section_line s l).out ≡ l.out
unfolding section_line
section_line-out s l = ground arith

key_line-NamesFit : (s : Bytes) (l : Loader) → NamesFit l.out → NamesFit (key_line s l).out
unfolding key_line
key_line-NamesFit s l f = elim (Option-cases (split_at b'=' s)) [
  | inl e ↦ rw (e, key_line) f
  | inr ((k, v), e) ↦ rw (e, key_line) (apply_kv-NamesFit l.out (trim k) (trim v) f)
]

trimmed_line-NamesFit : (s : Bytes) (l : Loader) → NamesFit l.out → NamesFit (trimmed_line s l).out
unfolding trimmed_line
trimmed_line-NamesFit [] l f = f
trimmed_line-NamesFit (c ∷ cs) l f =
    ground (arith, section_line-out cs l, key_line-NamesFit (c ∷ cs) l f)

process_line-NamesFit :
    (line : Bytes) (l : Loader) → NamesFit l.out → NamesFit (process_line line l).out
unfolding process_line
process_line-NamesFit line l f = trimmed_line-NamesFit (trim (until_nul line)) l f

read_lines-NamesFit :
    (fuel : ℕ) (file : Bytes) (l : Loader) → NamesFit l.out → NamesFit (read_lines fuel file l).out
unfolding read_lines
read_lines-NamesFit zero file l f = f
read_lines-NamesFit (suc fuel) [] l f = f
read_lines-NamesFit (suc fuel) (c ∷ cs) l f =
    let line = (fgets 1023 (c ∷ cs)).0 in
    read_lines-NamesFit fuel (fgets 1023 (c ∷ cs)).1 (process_line line l)
      (process_line-NamesFit line l f)

validate-migrate-NamesFit : (c : Config) → NamesFit c → NamesFit (validate (migrate c))
unfolding validate migrate
validate-migrate-NamesFit c f = ground arith

unset-NamesFit : NamesFit unset
unset-NamesFit = omega arith

-- Whatever bytes the file holds, the loaded settings are valid: the counts, the priority and the
-- rate are in range, the buffer size passes its test, the two booleans mirror the mode, and each
-- name leaves room for its terminator.
pub load_file-IsValid : (file : Bytes) → IsValid (load_file file) × NamesFit (load_file file)
unfolding load_file
load_file-IsValid file =
    let l : Loader = record { out = unset; in_section = true } in
    (
      validate-IsValid (migrate (read_lines (length file) file l).out),
      validate-migrate-NamesFit _ (read_lines-NamesFit (length file) file l unset-NamesFit),
    )

-- The loader's two results: valid settings where a file was read, and otherwise the defaults but
-- for the buffer mode, which is left at -1.
pub config_load-cases :
    (w : World)
    → ((config_load w).0 ≡ true) × IsValid (config_load w).1 × NamesFit (config_load w).1
      ⊎ (config_load w ≡ (false, record defaults { buffer_mode = negsuc 0 }))
unfolding config_load
config_load-cases w = elim (Option-cases (config_path w)) [
  | inl e ↦ rw (e, config_load) (inr refl)
  | inr (path, e) ↦ rw (e, config_load) (opened (w.files path))
]
  where
    opened :
        (f : Option Bytes)
        → ((load_opened f).0 ≡ true) × IsValid (load_opened f).1 × NamesFit (load_opened f).1
          ⊎ (load_opened f ≡ (false, record defaults { buffer_mode = negsuc 0 }))
    opened none = inr refl
    opened (some file) = inl (refl, (load_file-IsValid file).0, (load_file-IsValid file).1)
