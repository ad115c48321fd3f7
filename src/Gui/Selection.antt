-- ===== src/Gui/Selection.antt =====
-- gui/SettingsDialog.cpp: what a refresh of the devices makes of the selected ones.
use pipeasio.Prelude.{
  ℕ, zero, suc, ◌≡◌, ◌≢◌, refl, Bool, true, false, not, ◌&&◌, Option, none, some, List, [], ◌∷◌,
  ◌++◌, map, if◌then◌else◌, arith, get_elem?, inl, inr, Bool-cases, Option-cases, drop, is_some,
  ◌∙◌, sym,
}
use pipeasio.Config.{Bytes}
use pipeasio.Config.Text.{codes, str_eq}
use pipeasio.Gui.Built.{names_of, first_item, rows-add_first}
use pipeasio.Gui.Choice.{reselect, current_data-reselect}
use pipeasio.Gui.Dialog.{
  Dialog, Device, refresh_devices, refilled, add_devices, same_texts, label_of, tagged, output_tag,
  input_tag,
}
use pipeasio.Gui.Showing.{IsBuilt, str_eq_sound}
use pipeasio.Gui.Toolkit.{Toolkit, index_of, data_at, data_of}

-- The default device, or one of the devices of the kind.
abbrev pub is_offered : Bool → List Device → Bytes → Bool
is_offered sinks vs s = is_some (index_of str_eq s ([] ∷ names_of sinks vs))

append_one-ne : (xs : List Bytes) (x : Bytes) → (xs ++ x ∷ []) ≢ []
append_one-ne [] x e = cc
append_one-ne (y ∷ ys) x e = cc

-- The box before its selection is put back: the first row is the current one.
module _ (t : Toolkit) where
  row-add_devices :
      (sinks : Bool) (vs : List Device) (b : t.names.Box)
      → t.names.rows b ≢ []
      → t.names.row (add_devices t sinks vs b) ≡ t.names.row b
  unfolding add_devices
  row-add_devices sinks [] b h = refl
  row-add_devices sinks (v ∷ vs) b h = elim (Bool-cases (if v.is_sink then sinks else not sinks)) [
    | inl e ↦ rw e (
        row-add_devices sinks vs (t.names.add_item (label_of v) v.name b) (more v b)
        ∙ t.names.row-add_item (label_of v) v.name b h)
    | inr e ↦ rw e (row-add_devices sinks vs b h)
  ]
    where
      more :
          (v : Device) (b : t.names.Box)
          → t.names.rows (t.names.add_item (label_of v) v.name b) ≢ []
      more v b e =
          append_one-ne (t.names.rows b) v.name
            (sym (t.names.rows-add_item (label_of v) v.name b) ∙ e)

  first_row :
      (sinks : Bool) (vs : List Device) (b : t.names.Box)
      → t.names.row (add_devices t sinks vs (first_item t b)) ≡ some 0
  first_row sinks vs b =
      row-add_devices sinks vs (first_item t b) filled
      ∙ t.names.row-add_first (codes "Follow default") [] (t.names.clear b) (t.names.rows-clear b)
    where
      filled : t.names.rows (first_item t b) ≢ []
      filled e =
          append_one-ne (t.names.rows (t.names.clear b)) []
            (sym (t.names.rows-add_item (codes "Follow default") [] (t.names.clear b)) ∙ e)

  -- A selected device stays selected as long as it is there; otherwise the default device is selected.
  current_data-refilled :
      (sinks : Bool) (vs : List Device) (b : t.names.Box)
      → t.names.current_data (refilled t sinks vs b)
        ≡ (if is_offered sinks vs (t.names.current_data b) then t.names.current_data b else [])
  unfolding refilled reselect
  current_data-refilled sinks vs b =
      let s = t.names.current_data b in
      let all = add_devices t sinks vs (first_item t b) in
      elim (Option-cases (index_of str_eq s ([] ∷ names_of sinks vs))) [
        | inr (i, e) ↦
            rw (e, is_some)
              (current_data-reselect t.names str_eq_sound s all i
                (rw (rows-add_first t sinks vs b) e))
        | inl e ↦
            rw (e, is_some)
              (let there : t.names.find_data s all ≡ none =
                  t.names.find_data_lem s all ∙ rw (rows-add_first t sinks vs b) e in
                rw (there, reselect)
                  (t.names.current_data_lem all
                    ∙ rw (first_row sinks vs b, rows-add_first t sinks vs b) refl))
      ]

str_eq_refl : (s : Bytes) → str_eq s s ≡ true
unfolding str_eq
str_eq_refl [] = refl
str_eq_refl (x ∷ xs) = ground (arith, str_eq_refl xs)

-- A later row is found too.
found_later :
    (x y : Bytes) (l : List Bytes)
    → is_some (index_of str_eq x l) ≡ true
    → is_some (index_of str_eq x (y ∷ l)) ≡ true
unfolding index_of
found_later x y l h = ground arith

found_here : (x y : Bytes) (l : List Bytes) → x ≡ y → is_some (index_of str_eq x (y ∷ l)) ≡ true
unfolding index_of
found_here x y l e = ground (arith, str_eq_refl x, e)

and_split : (a b : Bool) → (a && b) ≡ true → (a ≡ true) × (b ≡ true)
and_split true b h = (refl, h)
and_split false b h = cc

-- The tags tell the kinds apart.
tagged_output :
    (v : Device) (y : Bytes)
    → str_eq (tagged v) (output_tag y) ≡ true
    → (v.is_sink ≡ true) × (v.name ≡ y)
unfolding str_eq
tagged_output v y h = elim (Bool-cases v.is_sink) [
  | inl e ↦ (e, str_eq_sound v.name y (rw e at h))
  | inr e ↦ cc (rw e at h)
]

tagged_input :
    (v : Device) (y : Bytes)
    → str_eq (tagged v) (input_tag y) ≡ true
    → (v.is_sink ≡ false) × (v.name ≡ y)
unfolding str_eq
tagged_input v y h = elim (Bool-cases v.is_sink) [
  | inr e ↦ (e, str_eq_sound v.name y (rw e at h))
  | inl e ↦ cc (rw e at h)
]

-- Where the lists of texts agree, each output in the box is a sink of the graph ...
outputs_offered :
    (vs : List Device) (xs ys : List Bytes) (j : ℕ) (x : Bytes)
    → same_texts (map tagged vs) (map output_tag xs ++ map input_tag ys) ≡ true
    → get_elem? xs j ≡ some x
    → is_some (index_of str_eq x (names_of true vs)) ≡ true
unfolding same_texts names_of
outputs_offered vs [] ys j x h e = cc
outputs_offered [] (y ∷ xs) ys j x h e = cc
outputs_offered (v ∷ vs) (y ∷ xs) ys zero x h e =
    let (sink, name) = tagged_output v y (and_split _ _ h).0 in
    rw sink (found_here x v.name (names_of true vs) (cc))
outputs_offered (v ∷ vs) (y ∷ xs) ys (suc j) x h e =
    let (sink, name) = tagged_output v y (and_split _ _ h).0 in
    rw sink
      (found_later x v.name (names_of true vs) (outputs_offered vs xs ys j x (and_split _ _ h).1 e))

-- ... and each input is a source.
sources_offered :
    (vs : List Device) (ys : List Bytes) (j : ℕ) (x : Bytes)
    → same_texts (map tagged vs) (map input_tag ys) ≡ true
    → get_elem? ys j ≡ some x
    → is_some (index_of str_eq x (names_of false vs)) ≡ true
unfolding same_texts names_of
sources_offered vs [] j x h e = cc
sources_offered [] (y ∷ ys) j x h e = cc
sources_offered (v ∷ vs) (y ∷ ys) zero x h e =
    let (source, name) = tagged_input v y (and_split _ _ h).0 in
    rw source (found_here x v.name (names_of false vs) (cc))
sources_offered (v ∷ vs) (y ∷ ys) (suc j) x h e =
    let (source, name) = tagged_input v y (and_split _ _ h).0 in
    rw source
      (found_later x v.name (names_of false vs) (sources_offered vs ys j x (and_split _ _ h).1 e))

inputs_offered :
    (vs : List Device) (xs ys : List Bytes) (j : ℕ) (x : Bytes)
    → same_texts (map tagged vs) (map output_tag xs ++ map input_tag ys) ≡ true
    → get_elem? ys j ≡ some x
    → is_some (index_of str_eq x (names_of false vs)) ≡ true
unfolding same_texts names_of
inputs_offered vs [] ys j x h e = sources_offered vs ys j x h e
inputs_offered [] (y ∷ xs) ys j x h e = cc
inputs_offered (v ∷ vs) (y ∷ xs) ys j x h e =
    let (sink, name) = tagged_output v y (and_split _ _ h).0 in
    rw sink (inputs_offered vs xs ys j x (and_split _ _ h).1 e)

-- The data of a row of a box whose first row is the default.
row_offered :
    (sinks : Bool) (vs : List Device) (row : Option ℕ) (rows : List Bytes)
    → get_elem? rows 0 ≡ some []
    → ((j : ℕ) (x : Bytes)
        → get_elem? (drop 1 rows) j ≡ some x
        → is_some (index_of str_eq x (names_of sinks vs)) ≡ true)
    → is_offered sinks vs (data_at [] row rows) ≡ true
row_offered sinks vs none rows first rest = found_here [] [] (names_of sinks vs) refl
row_offered sinks vs (some i) [] first rest = cc
row_offered sinks vs (some zero) (z ∷ zs) first rest = found_here z [] (names_of sinks vs) (cc)
row_offered sinks vs (some (suc j)) (z ∷ zs) first rest = elim (Option-cases (get_elem? zs j)) [
  | inl e ↦ rw (e, data_of) (found_here [] [] (names_of sinks vs) refl)
  | inr (x, e) ↦ rw (e, data_of) (found_later x [] (names_of sinks vs) (rest j x e))
]

-- What a box shows after a refresh: the device that it showed, if the graph still has it, and the
-- default device otherwise.
abbrev pub kept_or_default : Bool → List Device → Bytes → Bytes
kept_or_default sinks vs s = if is_offered sinks vs s then s else []

-- In boxes whose first row is the default device: a refresh keeps the selected devices that the graph has,
-- and selects the default device in the place of one that it does not have.
pub refresh_devices-selection :
    (t : Toolkit) (vs : List Device) (d : Dialog t)
    → IsBuilt t d
    → (t.names.current_data (refresh_devices t vs d).output
        ≡ kept_or_default true vs (t.names.current_data d.output))
      × (t.names.current_data (refresh_devices t vs d).input
          ≡ kept_or_default false vs (t.names.current_data d.input))
unfolding refresh_devices
refresh_devices-selection t vs d b =
    let now =
      map output_tag (drop 1 (t.names.rows d.output))
      ++ map input_tag (drop 1 (t.names.rows d.input)) in
    elim (Bool-cases (same_texts (map tagged vs) now)) [
      | inr e ↦
          rw e (current_data-refilled t true vs d.output, current_data-refilled t false vs d.input)
      | inl e ↦ rw e (rw (offered_output e) refl, rw (offered_input e) refl)
    ]
  where
    offered_output :
        same_texts (map tagged vs) (
            map output_tag (drop 1 (t.names.rows d.output))
            ++ map input_tag (drop 1 (t.names.rows d.input)))
          ≡ true
        → is_offered true vs (t.names.current_data d.output) ≡ true
    offered_output e = rw (t.names.current_data_lem d.output) (
        row_offered true vs (t.names.row d.output) (t.names.rows d.output) b.output_first (λ j x.
          outputs_offered vs (drop 1 (t.names.rows d.output)) (drop 1 (t.names.rows d.input)) j x
            e))

    offered_input :
        same_texts (map tagged vs) (
            map output_tag (drop 1 (t.names.rows d.output))
            ++ map input_tag (drop 1 (t.names.rows d.input)))
          ≡ true
        → is_offered false vs (t.names.current_data d.input) ≡ true
    offered_input e = rw (t.names.current_data_lem d.input) (
        row_offered false vs (t.names.row d.input) (t.names.rows d.input) b.input_first (λ j x.
          inputs_offered vs (drop 1 (t.names.rows d.output)) (drop 1 (t.names.rows d.input)) j x e))

-- The box of the output devices, or the one of the input devices.
abbrev pub device_box : (t : Toolkit) → Bool → Dialog t → t.names.Box
device_box t true d = d.output
device_box t false d = d.input

-- Whatever the device boxes hold, and whatever becomes of the other devices: a refresh keeps the selected
-- device of a box, the default one included, if the graph offers it.
pub refresh_devices-kept :
    (t : Toolkit) (sinks : Bool) (vs : List Device) (d : Dialog t)
    → is_offered sinks vs (t.names.current_data (device_box t sinks d)) ≡ true
    → t.names.current_data (device_box t sinks (refresh_devices t vs d))
      ≡ t.names.current_data (device_box t sinks d)
unfolding refresh_devices
refresh_devices-kept t sinks vs d h =
    elim (Bool-cases (
      same_texts (map tagged vs) (
        map output_tag (drop 1 (t.names.rows d.output))
        ++ map input_tag (drop 1 (t.names.rows d.input))))) [
          | inl e ↦ rw e refl
          | inr e ↦ rw e (refilled_box sinks h)
        ]
  where
    refilled_box :
        (sinks : Bool)
        → is_offered sinks vs (t.names.current_data (device_box t sinks d)) ≡ true
        → t.names.current_data (
            device_box t sinks (record d {
              output = refilled t true vs d.output;
              input = refilled t false vs d.input;
            }))
          ≡ t.names.current_data (device_box t sinks d)
    refilled_box true k = rw k at (current_data-refilled t true vs d.output)
    refilled_box false k = rw k at (current_data-refilled t false vs d.input)
