-- ===== src/Gui/Toolkit.antt =====
-- gui/: what the settings panel relies on of Qt. A QString is its UTF-8 text; a combo box is seen
-- through the data of its rows and its current row, none for the index -1.
use pipeasio.Prelude.{
  ℕ, suc, ◌<◌, ◌≤◌, ◌≡◌, ◌≢◌, Bool, true, Option, none, some, List, [], ◌∷◌, ◌++◌, length,
  get_elem?, ℤ, pos, pos_part, neg_part, eqb_ℤ, if◌then◌else◌, arith, Option-cases, inl, inr,
}
use pipeasio.Config.{Bytes}
use pipeasio.Config.Text.{str_eq}

module _ {D : Type 0} (same : D → D → Bool) where
  -- The first row with the data.
  unfoldable pub index_of : D → List D → Option ℕ
  index_of d [] = none
  index_of d (x ∷ xs) =
      if same d x then some 0 else elim (index_of d xs) [ none ↦ none | some i ↦ some (suc i) ]

abbrev pub data_of : {D : Type 0} → D → Option D → D
data_of blank none = blank
data_of blank (some d) = d

-- The data of the current row; `blank` is what an absent value converts to.
abbrev pub data_at : {D : Type 0} → D → Option ℕ → List D → D
data_at blank none ds = blank
data_at blank (some i) ds = data_of blank (get_elem? ds i)

-- QComboBox with data of one type in its rows.
pub record ComboBox (D : Type 0) (same : D → D → Bool) (blank : D) : Type 1 where
  pub Box : Type 0
  pub rows : Box → List D
  pub row : Box → Option ℕ
  pub new_box : Box
  pub add_item : Bytes → D → Box → Box
  pub clear : Box → Box
  pub set_row : ℕ → Box → Box
  pub find_data : D → Box → Option ℕ
  pub current_data : Box → D
  pub rows-new_box : rows new_box ≡ []
  pub rows-add_item : (l : Bytes) (d : D) (b : Box) → rows (add_item l d b) ≡ rows b ++ d ∷ []
  pub row-add_first : (l : Bytes) (d : D) (b : Box) → rows b ≡ [] → row (add_item l d b) ≡ some 0
  pub row-add_item : (l : Bytes) (d : D) (b : Box) → rows b ≢ [] → row (add_item l d b) ≡ row b
  pub rows-clear : (b : Box) → rows (clear b) ≡ []
  pub rows-set_row : (i : ℕ) (b : Box) → rows (set_row i b) ≡ rows b
  pub row-set_row : (i : ℕ) (b : Box) → i < length (rows b) → row (set_row i b) ≡ some i
  pub find_data_lem : (d : D) (b : Box) → find_data d b ≡ index_of same d (rows b)
  pub current_data_lem : (b : Box) → current_data b ≡ data_at blank (row b) (rows b)

-- The boxes of numbers and of texts, QSpinBox's range, and the conversions of texts.
pub record Toolkit : Type 1 where
  pub numbers : ComboBox ℤ eqb_ℤ (pos 0)
  pub names : ComboBox Bytes str_eq List.[]
  pub bound : ℕ → ℕ → ℤ → ℤ
  pub from_utf8 : Bytes → Bytes
  pub trimmed : Bytes → Bytes
  pub qstrncpy : ℕ → Bytes → Bytes
  pub bound_inside :
      (lo hi : ℕ) (z : ℤ) → neg_part z ≡ 0 → lo ≤ pos_part z → pos_part z ≤ hi → bound lo hi z ≡ z
  pub qstrncpy_short : (n : ℕ) (s : Bytes) → length s < n → qstrncpy n s ≡ s

pub index_of-lt :
    {D : Type 0} (same : D → D → Bool) (d : D) (ds : List D) (i : ℕ)
    → index_of same d ds ≡ some i
    → i < length ds
unfolding index_of
index_of-lt same d [] i h = cc
index_of-lt same d (x ∷ xs) i h = elim (Option-cases (index_of same d xs)) [
  | inl e ↦ ground (arith, e)
  | inr (j, e) ↦ ground (arith, e, index_of-lt same d xs j e)
]

pub get_elem?-index_of :
    {D : Type 0} (same : D → D → Bool)
    → ((a b : D) → same a b ≡ true → a ≡ b)
    → (d : D) (ds : List D) (i : ℕ) → index_of same d ds ≡ some i
    → get_elem? ds i ≡ some d
unfolding index_of
get_elem?-index_of same sound d [] i h = cc
get_elem?-index_of same sound d (x ∷ xs) i h = elim (Option-cases (index_of same d xs)) [
  | inl e ↦ ground (arith, e, sound d x)
  | inr (j, e) ↦ ground (arith, e, sound d x, get_elem?-index_of same sound d xs j e)
]
