-- ===== src/Gui/Showing.antt =====
-- gui/SettingsDialog.cpp: which settings the panel shows.
use pipeasio.Prelude.{
  eqb_ℤ_sound, ℕ, zero, suc, ◌<◌, ◌≡◌, refl, Bool, true, not, ◌||◌, none, some, List, [], ◌∷◌, ◌++◌,
  map, ltb_ℤ, eqb_ℤ, ℤ, pos, negsuc, arith, get_elem?, is_some, holds_to, holds_to-below, inl, inr,
  Bool-cases, Option-cases, length, neg_part, ◌⊎◌,
}
use pipeasio.Config.{
  Bytes, Config, defaults, max_channels, min_rt_priority, max_rt_priority, name_max,
  buffer_size_valid, mode_free, mode_fixed,
}
use pipeasio.Config.Number.{print_int}
use pipeasio.Config.Parse.{mode_known}
use pipeasio.Config.RoundTrip.{IsStorable}
use pipeasio.Config.Validate.{Within}
use pipeasio.Config.Text.{codes, str_eq}
use pipeasio.Gui.Choice.{select, select_or_add, current_data-select, current_data-select_or_add}
use pipeasio.Gui.Dialog.{Dialog, apply_config, form_config, buffer_sizes, mode_rows, is_text}
use pipeasio.Gui.Toolkit.{Toolkit, index_of}

pub str_eq_sound : (a b : Bytes) → str_eq a b ≡ true → a ≡ b
unfolding str_eq
str_eq_sound [] [] e = refl
str_eq_sound [] (b ∷ bs) e = cc
str_eq_sound (a ∷ as') [] e = cc
str_eq_sound (a ∷ as') (b ∷ bs) e = ground (arith, str_eq_sound as' bs)

abbrev pub values : List (Bytes × ℤ) → List ℤ
values rows = map (λ (r : Bytes × ℤ). r.1) rows

abbrev has_row : ℕ → Bool
has_row n = not (buffer_size_valid (pos n)) || is_some (index_of eqb_ℤ (pos n) buffer_sizes)

size_table : holds_to has_row 8193 ≡ true
unfolding holds_to buffer_size_valid index_of
size_table = refl

valid-lt : (n : ℕ) → buffer_size_valid (pos n) ≡ true → n < 8193
unfolding buffer_size_valid
valid-lt n h = ground arith

-- Each size that passes the test has a row.
size_row : (z : ℤ) → buffer_size_valid z ≡ true → (i : ℕ) × (index_of eqb_ℤ z buffer_sizes ≡ some i)
unfolding buffer_size_valid
size_row (negsuc n) h = cc
size_row (pos n) h = elim (Option-cases (index_of eqb_ℤ (pos n) buffer_sizes)) [
  | inr f ↦ f
  | inl e ↦ absurd (missing (holds_to-below has_row 8193 n (valid-lt n h) size_table) e)
]
  where
    missing : has_row n ≡ true → index_of eqb_ℤ (pos n) buffer_sizes ≡ none → ⊥
    missing t e = cc (rw (h, e) at t)

mode_row : (z : ℤ) → mode_known z ≡ true → (i : ℕ) × (index_of eqb_ℤ z (values mode_rows) ≡ some i)
unfolding index_of
mode_row z h = elim (Bool-cases (eqb_ℤ z mode_free)) [
  | inl e ↦ (0, ground arith)
  | inr e ↦ elim (Bool-cases (eqb_ℤ z mode_fixed)) [
    | inl g ↦ (1, ground arith)
    | inr g ↦ (2, ground arith)
  ]
]

-- The first row of a box of names is the default device; the boxes of numbers keep their rows.
pub record IsBuilt (t : Toolkit) (d : Dialog t) : Type 0 where
  pub size_rows : t.numbers.rows d.size ≡ buffer_sizes
  pub mode_values : t.numbers.rows d.mode ≡ values mode_rows
  pub rate_first : get_elem? (t.numbers.rows d.rate) 0 ≡ some (pos 0)
  pub output_first : get_elem? (t.names.rows d.output) 0 ≡ some []
  pub input_first : get_elem? (t.names.rows d.input) 0 ≡ some []

-- Names that are UTF-8, and a node name with no space around it in Qt's sense either.
pub record IsText (t : Toolkit) (c : Config) : Type 0 where
  pub output_text : t.from_utf8 c.output_device ≡ c.output_device
  pub input_text : t.from_utf8 c.input_device ≡ c.input_device
  pub node_text : t.from_utf8 c.node_name ≡ c.node_name
  pub node_trimmed : t.trimmed c.node_name ≡ c.node_name

-- The settings as the panel writes them: the two booleans of the older format are the defaults.
abbrev pub as_form : Config → Config
as_form c = record c {
  fixed_buffer_size = defaults.fixed_buffer_size;
  follow_device_clock = defaults.follow_device_clock;
}

rate_shown : (z : ℤ) → neg_part z ≡ 0 → (ltb_ℤ (pos 0) z ≡ true) ⊎ (z ≡ pos 0)
rate_shown (pos zero) h = inr refl
rate_shown (pos (suc n)) h = inl (ground arith)
rate_shown (negsuc n) h = cc

name_shown : (s : Bytes) → (is_text s ≡ true) ⊎ (s ≡ [])
name_shown [] = inr refl
name_shown (x ∷ xs) = inl refl

module _ (t : Toolkit) (d : Dialog t) (b : IsBuilt t d) (c : Config) (s : IsStorable c) where
  shows_size : t.numbers.current_data (select t.numbers 0 c.buffer_size d.size) ≡ c.buffer_size
  shows_size =
      let (i, e) = size_row c.buffer_size s.valid.size_ok in
      current_data-select t.numbers eqb_ℤ_sound 0 c.buffer_size d.size i (rw b.size_rows e)

  shows_mode : t.numbers.current_data (select t.numbers 1 c.buffer_mode d.mode) ≡ c.buffer_mode
  shows_mode =
      let (i, e) = mode_row c.buffer_mode s.valid.mode_ok in
      current_data-select t.numbers eqb_ℤ_sound 1 c.buffer_mode d.mode i (rw b.mode_values e)

  shows_rate :
      (label : Bytes)
      → t.numbers.current_data
          (select_or_add t.numbers label (ltb_ℤ (pos 0) c.sample_rate) c.sample_rate d.rate)
        ≡ c.sample_rate
  shows_rate label =
      current_data-select_or_add t.numbers eqb_ℤ_sound label _ c.sample_rate d.rate
        (elim (rate_shown c.sample_rate s.valid.rate_ok) [
          | inl e ↦ inl e
          | inr e ↦ inr (rw e b.rate_first)
        ])

shows_name :
    (t : Toolkit) (box : t.names.Box) (label name : Bytes)
    → get_elem? (t.names.rows box) 0 ≡ some []
    → t.names.current_data (select_or_add t.names label (is_text name) name box) ≡ name
shows_name t box label name first =
    current_data-select_or_add t.names str_eq_sound label _ name box
      (elim (name_shown name) [ inl e ↦ inl e | inr e ↦ inr (rw e first) ])

-- A name that fits the field is written as it is shown.
writes_name :
    (t : Toolkit) (box : t.names.Box) (name : Bytes) (label : Bytes → Bytes)
    → get_elem? (t.names.rows box) 0 ≡ some []
    → t.from_utf8 name ≡ name
    → length name < name_max
    → t.qstrncpy name_max (
        t.names.current_data (
          select_or_add t.names
            (label (t.from_utf8 name))
            (is_text (t.from_utf8 name))
            (t.from_utf8 name)
            box))
      ≡ name
writes_name t box name label first text fits =
    rw (text, shows_name t box (label name) name first) (t.qstrncpy_short name_max name fits)

writes_node :
    (t : Toolkit) (name : Bytes)
    → t.from_utf8 name ≡ name
    → t.trimmed name ≡ name
    → length name < name_max
    → t.qstrncpy name_max (t.trimmed (t.from_utf8 name)) ≡ name
writes_node t name text trim fits = rw (text, trim) (t.qstrncpy_short name_max name fits)

bound_Within : (t : Toolkit) (lo hi : ℕ) (z : ℤ) → Within lo hi z → t.bound lo hi z ≡ z
bound_Within t lo hi z w = t.bound_inside lo hi z w.nonneg w.above w.below

-- The panel shows the settings that it is given.
pub form_config-apply_config :
    (t : Toolkit) (d : Dialog t) (c : Config)
    → IsBuilt t d
    → IsStorable c
    → IsText t c
    → form_config t (apply_config t c d) ≡ as_form c
unfolding form_config apply_config
form_config-apply_config t d c b s n =
    let fits = s.printable.fits in
    let label = λ (s : Bytes). s ++ codes " (unavailable)" in
    cc (
      bound_Within t 0 max_channels c.inputs s.valid.inputs_ok,
      bound_Within t 0 max_channels c.outputs s.valid.outputs_ok,
      bound_Within t min_rt_priority max_rt_priority c.rt_priority s.valid.priority_ok,
      shows_size t d b c s,
      shows_mode t d b c s,
      shows_rate t d b c s ((print_int c.sample_rate ++ codes " Hz") ++ codes " (unavailable)"),
      writes_name t d.output c.output_device label b.output_first n.output_text fits.output_fits,
      writes_name t d.input c.input_device label b.input_first n.input_text fits.input_fits,
      writes_node t c.node_name n.node_text n.node_trimmed fits.node_fits,
    )
