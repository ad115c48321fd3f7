-- ===== src/Gui/Built.antt =====
-- gui/SettingsDialog.cpp: the rows of the panel's boxes, which every slot and edit keeps.
use pipeasio.Prelude.{
  ℕ, ◌≡◌, refl, Bool, true, false, not, some, List, [], ◌∷◌, ◌++◌, map, if◌then◌else◌, ℤ, pos,
  arith, get_elem?, inl, inr, Bool-cases, Option-cases, drop, ap, ◌∙◌,
}
use mathlib.Core.List.{append_assoc, append-nil}
use pipeasio.Config.{Bytes, Config}
use pipeasio.Config.Text.{codes}
use pipeasio.Gui.Choice.{select, select_or_add, reselect}
use pipeasio.Gui.Dialog.{
  Dialog, Device, Edit, apply_config, refresh_devices, refilled, add_devices, build_settings_tab,
  with_rows, edit, size_rows, rate_rows, mode_rows, same_texts, tagged, label_of, output_tag,
  input_tag, size_picked, rate_picked, mode_picked, output_picked, input_picked,
}
use pipeasio.Gui.Showing.{IsBuilt, values}
use pipeasio.Gui.Toolkit.{ComboBox, Toolkit}

get_elem?-append_first :
    {D : Type 0} (xs ys : List D) (x : D)
    → get_elem? xs 0 ≡ some x
    → get_elem? (xs ++ ys) 0 ≡ some x
get_elem?-append_first [] ys x h = cc
get_elem?-append_first (z ∷ zs) ys x h = h

module _ {D : Type 0} {same : D → D → Bool} {blank : D} (c : ComboBox D same blank) where
  open c use {Box, rows, find_data, add_item}

  rows-select : (other : ℕ) (d : D) (b : Box) → rows (select c other d b) ≡ rows b
  unfolding select
  rows-select other d b = elim (Option-cases (find_data d b)) [
    | inl e ↦ rw (e, select) (c.rows-set_row other b)
    | inr (i, e) ↦ rw (e, select) (c.rows-set_row i b)
  ]

  rows-reselect : (d : D) (b : Box) → rows (reselect c d b) ≡ rows b
  unfolding reselect
  rows-reselect d b = elim (Option-cases (find_data d b)) [
    | inl e ↦ rw (e, reselect) refl
    | inr (i, e) ↦ rw (e, reselect) (c.rows-set_row i b)
  ]

  first_row-add :
      (label : Bytes) (d x : D) (b : Box)
      → get_elem? (rows b) 0 ≡ some x
      → get_elem? (rows (add_item label d b)) 0 ≡ some x
  first_row-add label d x b h =
      rw (c.rows-add_item label d b) (get_elem?-append_first (rows b) _ x h)

  first_row-select_or_add :
      (label : Bytes) (shown : Bool) (d x : D) (b : Box)
      → get_elem? (rows b) 0 ≡ some x
      → get_elem? (rows (select_or_add c label shown d b)) 0 ≡ some x
  unfolding select_or_add
  first_row-select_or_add label shown d x b h = elim (Option-cases (find_data d b)) [
    | inr (i, e) ↦ rw (e, select_or_add, c.rows-set_row i b) h
    | inl e ↦ elim (Bool-cases shown) [
      | inl s ↦
          rw (e, s, select_or_add, c.rows-set_row _ (add_item label d b))
            (first_row-add label d x b h)
      | inr s ↦ rw (e, s, select_or_add, c.rows-set_row 0 b) h
    ]
  ]

-- The names of one kind of device.
unfoldable pub names_of : Bool → List Device → List Bytes
names_of sinks [] = []
names_of sinks (v ∷ vs) =
    let rest = names_of sinks vs in
    if (if v.is_sink then sinks else not sinks) then v.name ∷ rest else rest

rows-add_devices :
    (t : Toolkit) (sinks : Bool) (vs : List Device) (b : t.names.Box)
    → t.names.rows (add_devices t sinks vs b) ≡ t.names.rows b ++ names_of sinks vs
unfolding add_devices names_of
rows-add_devices t sinks [] b = simp append-nil refl
rows-add_devices t sinks (v ∷ vs) b = elim (Bool-cases (if v.is_sink then sinks else not sinks)) [
  | inl e ↦
      rw
        (
          e,
          rows-add_devices t sinks vs (t.names.add_item (label_of v) v.name b),
          t.names.rows-add_item (label_of v) v.name b,
        )
        (append_assoc (t.names.rows b) (v.name ∷ []) (names_of sinks vs))
  | inr e ↦ rw e (rows-add_devices t sinks vs b)
]

abbrev pub first_item : (t : Toolkit) → t.names.Box → t.names.Box
first_item t b = t.names.add_item (codes "Follow default") [] (t.names.clear b)

pub rows-add_first :
    (t : Toolkit) (sinks : Bool) (vs : List Device) (b : t.names.Box)
    → t.names.rows (add_devices t sinks vs (first_item t b)) ≡ [] ∷ names_of sinks vs
rows-add_first t sinks vs b =
    let only : t.names.rows (first_item t b) ≡ [] ∷ [] =
      rw (t.names.rows-add_item (codes "Follow default") [] (t.names.clear b), t.names.rows-clear b)
        refl in
    rows-add_devices t sinks vs (first_item t b)
    ∙ ap (λ (l : List Bytes). l ++ names_of sinks vs) only

-- A device box has the default's row, and then the devices of its kind in the order of the list.
pub rows-refilled :
    (t : Toolkit) (sinks : Bool) (vs : List Device) (b : t.names.Box)
    → t.names.rows (refilled t sinks vs b) ≡ [] ∷ names_of sinks vs
unfolding refilled
rows-refilled t sinks vs b =
    rows-reselect t.names (t.names.current_data b) (add_devices t sinks vs (first_item t b))
    ∙ rows-add_first t sinks vs b

pub first_row-refilled :
    (t : Toolkit) (sinks : Bool) (vs : List Device) (b : t.names.Box)
    → get_elem? (t.names.rows (refilled t sinks vs b)) 0 ≡ some []
first_row-refilled t sinks vs b = rw (rows-refilled t sinks vs b) refl

rows-with_rows :
    (t : Toolkit) (zs : List (Bytes × ℤ)) (b : t.numbers.Box)
    → t.numbers.rows (with_rows t zs b) ≡ t.numbers.rows b ++ values zs
unfolding with_rows
rows-with_rows t [] b = simp append-nil refl
rows-with_rows t ((label, z) ∷ zs) b =
    rw (rows-with_rows t zs (t.numbers.add_item label z b), t.numbers.rows-add_item label z b)
      (append_assoc (t.numbers.rows b) (z ∷ []) (values zs))

-- The rows of the widgets as they are made.
built_rows :
    (t : Toolkit) (zs : List (Bytes × ℤ))
    → t.numbers.rows (with_rows t zs t.numbers.new_box) ≡ values zs
built_rows t zs = rw (rows-with_rows t zs t.numbers.new_box, t.numbers.rows-new_box) refl

-- The first refresh that finds a device.
pub first_refresh-IsBuilt :
    (t : Toolkit) (v : Device) (vs : List Device)
    → IsBuilt t (refresh_devices t (v ∷ vs) (build_settings_tab t))
unfolding refresh_devices build_settings_tab same_texts
first_refresh-IsBuilt t v vs =
    let d = build_settings_tab t in
    let other : same_texts (map tagged (v ∷ vs)) (
          map output_tag (drop 1 (t.names.rows d.output))
          ++ map input_tag (drop 1 (t.names.rows d.input)))
        ≡ false =
      rw t.names.rows-new_box refl in
    rw other (record {
      size_rows = built_rows t size_rows;
      mode_values = built_rows t mode_rows;
      rate_first = rw (built_rows t rate_rows) refl;
      output_first = first_row-refilled t true (v ∷ vs) d.output;
      input_first = first_row-refilled t false (v ∷ vs) d.input;
    })

pub refresh_devices-IsBuilt :
    (t : Toolkit) (vs : List Device) (d : Dialog t)
    → IsBuilt t d
    → IsBuilt t (refresh_devices t vs d)
unfolding refresh_devices
refresh_devices-IsBuilt t vs d b =
    ground (arith, first_row-refilled t true vs d.output, first_row-refilled t false vs d.input)

pub apply_config-IsBuilt :
    (t : Toolkit) (c : Config) (d : Dialog t) → IsBuilt t d → IsBuilt t (apply_config t c d)
unfolding apply_config
apply_config-IsBuilt t c d b = record {
  size_rows = rows-select t.numbers 0 c.buffer_size d.size ∙ b.size_rows;
  mode_values = rows-select t.numbers 1 c.buffer_mode d.mode ∙ b.mode_values;
  rate_first = first_row-select_or_add t.numbers _ _ c.sample_rate (pos 0) d.rate b.rate_first;
  output_first = first_row-select_or_add t.names _ _ _ [] d.output b.output_first;
  input_first = first_row-select_or_add t.names _ _ _ [] d.input b.input_first;
}

pub edit-IsBuilt : (t : Toolkit) (m : Edit t) (d : Dialog t) → IsBuilt t d → IsBuilt t (edit t m d)
unfolding edit
edit-IsBuilt t (size_picked i) d b = ground (arith, t.numbers.rows-set_row i d.size)
edit-IsBuilt t (rate_picked i) d b = ground (arith, t.numbers.rows-set_row i d.rate)
edit-IsBuilt t (mode_picked i) d b = ground (arith, t.numbers.rows-set_row i d.mode)
edit-IsBuilt t (output_picked i) d b = ground (arith, t.names.rows-set_row i d.output)
edit-IsBuilt t (input_picked i) d b = ground (arith, t.names.rows-set_row i d.input)
edit-IsBuilt t m d b = ground arith
