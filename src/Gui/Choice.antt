-- ===== src/Gui/Choice.antt =====
-- gui/SettingsDialog.cpp: how a combo box is made to show a value.
use pipeasio.Prelude.{
  ℕ, zero, suc, ◌-◌, ◌<◌, ◌≡◌, refl, Bool, true, none, some, List, [], ◌∷◌, ◌++◌, length, get_elem?,
  if◌then◌else◌, arith, Option-cases, Bool-cases, inl, inr, ◌⊎◌, length-append,
}
use pipeasio.Config.{Bytes}
use pipeasio.Gui.Toolkit.{ComboBox, index_of, index_of-lt, get_elem?-index_of}

get_elem?-append_last :
    {D : Type 0} (xs : List D) (d : D) → get_elem? (xs ++ d ∷ []) (length xs) ≡ some d
get_elem?-append_last [] d = refl
get_elem?-append_last (x ∷ xs) d = get_elem?-append_last xs d

module _ {D : Type 0} {same : D → D → Bool} {blank : D} (c : ComboBox D same blank) where
  open c use {Box, rows, row, add_item, set_row, find_data, current_data}

  -- setCurrentIndex(findData(d)), with another row where the data is not there.
  unfoldable pub select : ℕ → D → Box → Box
  select other d b = elim (find_data d b) [ none ↦ set_row other b | some i ↦ set_row i b ]

  -- A value that has no row gets one of its own, if it is one to show.
  unfoldable pub select_or_add : Bytes → Bool → D → Box → Box
  select_or_add label shown d b = elim (find_data d b) [
    | none ↦
        (if shown
          then (let more = add_item label d b in set_row (length (rows more) - 1) more)
          else set_row 0 b)
    | some i ↦ set_row i b
  ]

  -- The current index is changed only where the data is found.
  unfoldable pub reselect : D → Box → Box
  reselect d b = elim (find_data d b) [ none ↦ b | some i ↦ set_row i b ]

  current_data-set_row :
      (i : ℕ) (d : D) (b : Box)
      → get_elem? (rows b) i ≡ some d
      → i < length (rows b)
      → current_data (set_row i b) ≡ d
  current_data-set_row i d b e h =
      rw (c.current_data_lem (set_row i b), c.row-set_row i b h, c.rows-set_row i b, e) refl

  get_elem?-length : (xs : List D) (i : ℕ) (d : D) → get_elem? xs i ≡ some d → i < length xs
  get_elem?-length [] i d e = cc
  get_elem?-length (x ∷ xs) zero d e = omega arith
  get_elem?-length (x ∷ xs) (suc i) d e = omega (arith, get_elem?-length xs i d e)

  -- The row that was added last.
  current_data-added :
      (label : Bytes) (d : D) (b : Box)
      → let more = add_item label d b in current_data (set_row (length (rows more) - 1) more) ≡ d
  current_data-added label d b =
      let n : length (rows (add_item label d b)) ≡ suc (length (rows b)) =
        rw (c.rows-add_item label d b) (omega (arith, length-append (rows b) (d ∷ []))) in
      let last : length (rows (add_item label d b)) - 1 ≡ length (rows b) = omega (arith, n) in
      current_data-set_row _ d _
        (rw (last, c.rows-add_item label d b) (get_elem?-append_last (rows b) d)) (omega (arith, n))

  module _ (sound : (x y : D) → same x y ≡ true → x ≡ y) where
    current_data-set_found :
        (i : ℕ) (d : D) (b : Box)
        → index_of same d (rows b) ≡ some i
        → current_data (set_row i b) ≡ d
    current_data-set_found i d b e =
        current_data-set_row i d b (get_elem?-index_of same sound d (rows b) i e)
          (index_of-lt same d (rows b) i e)

    -- A value that has a row is shown.
    pub current_data-select :
        (other : ℕ) (d : D) (b : Box) (i : ℕ)
        → index_of same d (rows b) ≡ some i
        → current_data (select other d b) ≡ d
    unfolding select
    current_data-select other d b i e =
        rw (c.find_data_lem d b, e, select) (current_data-set_found i d b e)

    pub current_data-reselect :
        (d : D) (b : Box) (i : ℕ)
        → index_of same d (rows b) ≡ some i
        → current_data (reselect d b) ≡ d
    unfolding reselect
    current_data-reselect d b i e =
        rw (c.find_data_lem d b, e, reselect) (current_data-set_found i d b e)

    pub current_data-select_or_add :
        (label : Bytes) (shown : Bool) (d : D) (b : Box)
        → (shown ≡ true) ⊎ (get_elem? (rows b) 0 ≡ some d)
        → current_data (select_or_add label shown d b) ≡ d
    unfolding select_or_add
    current_data-select_or_add label shown d b h = elim (Option-cases (index_of same d (rows b))) [
      | inr (i, e) ↦ rw (c.find_data_lem d b, e, select_or_add) (current_data-set_found i d b e)
      | inl e ↦ elim h [
        | inl s ↦ rw (c.find_data_lem d b, e, s, select_or_add) (current_data-added label d b)
        | inr first ↦ elim (Bool-cases shown) [
          | inl s ↦ rw (c.find_data_lem d b, e, s, select_or_add) (current_data-added label d b)
          | inr s ↦
              rw (c.find_data_lem d b, e, s, select_or_add)
                (current_data-set_row 0 d b first (get_elem?-length (rows b) 0 d first))
        ]
      ]
    ]
