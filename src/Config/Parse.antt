-- ===== src/Config/Parse.antt =====
-- src/config.c: the loader. A file is the list of its bytes.
use pipeasio.Prelude.{
  ℕ, zero, suc, Bool, true, false, ◌||◌, not, Option, none, some, [], ◌∷◌, ◌++◌, ◌==◌,
  if◌then◌else◌, ℤ, pos, negsuc, ltb_ℤ, eqb_ℤ, is_neg, length, take,
}
use pipeasio.Config.{
  Bytes, Config, defaults, buffer_size_valid, mode_free, mode_fixed, mode_wireless, max_channels,
  min_rt_priority, max_rt_priority, name_max,
}
use pipeasio.Config.Number.{atoi}
use pipeasio.Config.Text.{codes, str_eq, until_nul, split_at, trim, parse_bool, copy_str}

unfoldable pub apply_kv : Config → Bytes → Bytes → Config
apply_kv c key val =
    if str_eq key (codes "inputs")
    then record c { inputs = atoi val }
    else if str_eq key (codes "outputs")
    then record c { outputs = atoi val }
    else if str_eq key (codes "buffer_size")
    then record c { buffer_size = atoi val }
    else if str_eq key (codes "fixed_buffer_size")
    then record c { fixed_buffer_size = parse_bool val }
    else if str_eq key (codes "sample_rate")
    then record c { sample_rate = atoi val }
    else if str_eq key (codes "auto_connect")
    then record c { auto_connect = parse_bool val }
    else if str_eq key (codes "follow_device_clock")
    then record c { follow_device_clock = parse_bool val }
    else if str_eq key (codes "rt_priority")
    then record c { rt_priority = atoi val }
    else if str_eq key (codes "buffer_mode")
    then record c { buffer_mode = atoi val }
    else if str_eq key (codes "output_device")
    then record c { output_device = copy_str name_max val }
    else if str_eq key (codes "input_device")
    then record c { input_device = copy_str name_max val }
    else if str_eq key (codes "node_name")
    then record c { node_name = copy_str name_max val }
    else c

unfoldable pub apply_mode : Config → Config
apply_mode c = record c {
  fixed_buffer_size = eqb_ℤ c.buffer_mode mode_fixed;
  follow_device_clock = eqb_ℤ c.buffer_mode mode_wireless;
}

-- `if (x < lo || x > hi) x = fallback;`
abbrev pub or_default : ℤ → ℤ → ℤ → ℤ → ℤ
or_default lo hi fallback x = if ltb_ℤ x lo || ltb_ℤ hi x then fallback else x

abbrev pub mode_known : ℤ → Bool
mode_known m = eqb_ℤ m mode_free || eqb_ℤ m mode_fixed || eqb_ℤ m mode_wireless

unfoldable pub validate : Config → Config
unfolding apply_mode
validate c = apply_mode (record c {
  inputs = or_default (pos 0) (pos max_channels) defaults.inputs c.inputs;
  outputs = or_default (pos 0) (pos max_channels) defaults.outputs c.outputs;
  buffer_size = if buffer_size_valid c.buffer_size then c.buffer_size else defaults.buffer_size;
  sample_rate = if is_neg c.sample_rate then pos 0 else c.sample_rate;
  rt_priority =
      or_default (pos min_rt_priority) (pos max_rt_priority) defaults.rt_priority c.rt_priority;
  buffer_mode = if mode_known c.buffer_mode then c.buffer_mode else defaults.buffer_mode;
})

abbrev pub in_front : ℕ → Bytes × Bytes → Bytes × Bytes
in_front c (line, rest) = (c ∷ line, rest)

-- fgets with `room` bytes before the terminator: one line with its newline, or a part of a longer
-- one, and what is left of the file.
unfoldable pub fgets : ℕ → Bytes → Bytes × Bytes
fgets zero s = ([], s)
fgets (suc room) [] = ([], [])
fgets (suc room) (c ∷ cs) = if c == b'\n' then (c ∷ [], cs) else in_front c (fgets room cs)

-- The locals of the loop: `*out` and `in_section`.
pub record Loader : Type 0 where
  pub out : Config
  pub in_section : Bool

-- `*s == '['`; `rest` is what follows the bracket.
unfoldable pub section_line : Bytes → Loader → Loader
section_line rest l = elim (split_at b']' rest) [
  | none ↦ l
  | some (name, behind) ↦ record l { in_section = str_eq name (codes "pipeasio") }
]

unfoldable pub key_line : Bytes → Loader → Loader
key_line s l = elim (split_at b'=' s) [
  | none ↦ l
  | some (key, val) ↦ record l { out = apply_kv l.out (trim key) (trim val) }
]

-- The body of the loop behind `trim`.
unfoldable pub trimmed_line : Bytes → Loader → Loader
unfolding section_line key_line
trimmed_line [] l = l
trimmed_line (c ∷ cs) l =
    if c == b'#' || c == b';'
    then l
    else if c == b'['
    then section_line cs l
    else if not l.in_section
    then l
    else key_line (c ∷ cs) l

unfoldable pub process_line : Bytes → Loader → Loader
unfolding trimmed_line
process_line line l = trimmed_line (trim (until_nul line)) l

-- `while (fgets(line, sizeof line, f))` with a 1024-byte buffer. Each round reads a byte at least,
-- so as many rounds as the file has bytes are enough.
unfoldable pub read_lines : ℕ → Bytes → Loader → Loader
unfolding fgets process_line
read_lines zero file l = l
read_lines (suc fuel) [] l = l
read_lines (suc fuel) (c ∷ cs) l =
    let r = fgets 1023 (c ∷ cs) in read_lines fuel r.1 (process_line r.0 l)

-- An INI without buffer_mode keeps the meaning of the old booleans.
unfoldable pub migrate : Config → Config
migrate c =
    if is_neg c.buffer_mode
    then record c {
      buffer_mode =
          if c.follow_device_clock
          then mode_wireless
          else if c.fixed_buffer_size
          then mode_fixed
          else mode_free;
    }
    else c

-- set_defaults and the sentinel -1
abbrev pub unset : Config
unset = record defaults { buffer_mode = negsuc 0 }

unfoldable pub load_file : Bytes → Config
unfolding read_lines migrate validate
load_file file =
    validate
      (migrate (read_lines (length file) file (record { out = unset; in_section = true })).out)

-- getenv and the files that fopen(…, "r") can open.
pub record World : Type 0 where
  pub getenv : Bytes → Option Bytes
  pub files : Bytes → Option Bytes

abbrev pub nonempty : Option Bytes → Bool
nonempty none = false
nonempty (some []) = false
nonempty (some (c ∷ cs)) = true

abbrev pub or_empty : Option Bytes → Bytes
or_empty none = []
or_empty (some s) = s

-- snprintf(buf, n, …) keeps n - 1 bytes; every caller passes n = 1024.
abbrev pub path_room : ℕ
path_room = 1023

unfoldable pub config_path : World → Option Bytes
config_path w =
    if nonempty (w.getenv (codes "XDG_CONFIG_HOME"))
    then some (
        take path_room
          (or_empty (w.getenv (codes "XDG_CONFIG_HOME")) ++ codes "/pipeasio/config.ini"))
    else if nonempty (w.getenv (codes "HOME"))
    then some (
        take path_room (or_empty (w.getenv (codes "HOME")) ++ codes "/.config/pipeasio/config.ini"))
    else none

-- The flag is the function's result, the record its `*out`.
abbrev pub load_opened : Option Bytes → Bool × Config
load_opened none = (false, unset)
load_opened (some file) = (true, load_file file)

unfoldable pub config_load : World → Bool × Config
unfolding config_path
config_load w = elim (config_path w) [
  | none ↦ (false, unset)
  | some path ↦ load_opened (w.files path)
]
