-- ===== src/Gui/Hash.antt =====
-- gui/: what the graph's model relies on of QHash with numbers as keys. The order in which the entries are
-- visited is the table's own.
use pipeasio.Prelude.{
  ℕ, ◌≡◌, Bool, true, false, not, ◌&&◌, ◌||◌, Option, none, some, List, [], ◌∷◌, ◌==◌,
  if◌then◌else◌,
}

abbrev pub contains : ℕ → List ℕ → Bool
contains k [] = false
contains k (j ∷ js) = k == j || contains k js

abbrev pub distinct : List ℕ → Bool
distinct [] = true
distinct (k ∷ ks) = not (contains k ks) && distinct ks

module _ {V : Type 0} where
  unfoldable pub lookup : ℕ → List (ℕ × V) → Option V
  lookup k [] = none
  lookup k ((j, v) ∷ es) = if k == j then some v else lookup k es

abbrev pub keys : {V : Type 0} → List (ℕ × V) → List ℕ
keys [] = []
keys ((k, v) ∷ es) = k ∷ keys es

pub record Hash (V : Type 0) : Type 1 where
  pub Table : Type 0
  pub empty : Table
  pub insert : ℕ → V → Table → Table
  pub remove : ℕ → Table → Table
  pub find : ℕ → Table → Option V
  pub entries : Table → List (ℕ × V)
  pub find-empty : (k : ℕ) → find k empty ≡ none
  pub find-insert :
      (k j : ℕ) (v : V) (h : Table) → find k (insert j v h) ≡ (if k == j then some v else find k h)
  pub find-remove :
      (k j : ℕ) (h : Table) → find k (remove j h) ≡ (if k == j then none else find k h)
  pub lookup-entries : (k : ℕ) (h : Table) → lookup k (entries h) ≡ find k h
  pub entries-distinct : (h : Table) → distinct (keys (entries h)) ≡ true
