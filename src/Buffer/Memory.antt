-- ===== src/Buffer/Memory.antt =====
-- A block of samples as a list, and memcpy into it.
use native.Mathlib.Nat.{zero-add, suc-add}
use pipeasio.Prelude.{
  drop, ℕ, zero, suc, ◌+◌, ◌-◌, ◌≤◌, ◌<◌, ◌≡◌, refl, ap, List, [], ◌∷◌, some, arith, ltb,
  if◌then◌else◌, length, get_elem?, take, replicate,
}

module _ {A : Type 0} where
  -- What lies beyond the block's end is lost; every use is shown to stay inside.
  unfoldable pub write_at : ℕ → List A → List A → List A
  write_at zero [] block = block
  write_at zero (x ∷ xs) [] = []
  write_at zero (x ∷ xs) (b ∷ block) = x ∷ write_at zero xs block
  write_at (suc o) xs [] = []
  write_at (suc o) xs (b ∷ block) = b ∷ write_at o xs block

  pub length-write_at : (o : ℕ) (xs block : List A) → length (write_at o xs block) ≡ length block
  unfolding write_at
  length-write_at zero [] block = refl
  length-write_at zero (x ∷ xs) [] = refl
  length-write_at zero (x ∷ xs) (b ∷ block) = ap suc (length-write_at zero xs block)
  length-write_at (suc o) xs [] = refl
  length-write_at (suc o) xs (b ∷ block) = ap suc (length-write_at o xs block)

  -- The block after a write, place by place.
  pub get_elem?-write_at :
      (o : ℕ) (xs block : List A) (i : ℕ)
      → o + length xs ≤ length block
      → get_elem? (write_at o xs block) i ≡ (
          if ltb i o
          then get_elem? block i
          else if ltb i (o + length xs)
          then get_elem? xs (i - o)
          else get_elem? block i)
  unfolding write_at
  get_elem?-write_at zero [] block i h = ground arith
  get_elem?-write_at zero (x ∷ xs) [] i h = absurd (omega arith)
  get_elem?-write_at zero (x ∷ xs) (b ∷ block) zero h = ground arith
  get_elem?-write_at zero (x ∷ xs) (b ∷ block) (suc i) h =
      ground (arith, get_elem?-write_at zero xs block i)
  get_elem?-write_at (suc o) xs [] i h = absurd (omega arith)
  get_elem?-write_at (suc o) xs (b ∷ block) zero h = ground arith
  get_elem?-write_at (suc o) xs (b ∷ block) (suc i) h =
      ground (arith, get_elem?-write_at o xs block i)

  pub get_elem?-take :
      (n : ℕ) (xs : List A) (i : ℕ) → i < n → get_elem? (take n xs) i ≡ get_elem? xs i
  get_elem?-take zero xs i h = absurd (omega arith)
  get_elem?-take (suc n) [] i h = refl
  get_elem?-take (suc n) (x ∷ xs) zero h = refl
  get_elem?-take (suc n) (x ∷ xs) (suc i) h = get_elem?-take n xs i (omega arith)

  pub get_elem?-replicate : (n : ℕ) (a : A) (i : ℕ) → i < n → get_elem? (replicate n a) i ≡ some a
  get_elem?-replicate zero a i h = absurd (omega arith)
  get_elem?-replicate (suc n) a zero h = refl
  get_elem?-replicate (suc n) a (suc i) h = get_elem?-replicate n a i (omega arith)

  pub get_elem?-drop :
      (o : ℕ) (xs : List A) (i : ℕ) → get_elem? (drop o xs) i ≡ get_elem? xs (o + i)
  get_elem?-drop zero xs i = rw zero-add
  get_elem?-drop (suc o) [] i = refl
  get_elem?-drop (suc o) (x ∷ xs) i = rw suc-add (get_elem?-drop o xs i)

  pub length-drop : (o : ℕ) (xs : List A) → length (drop o xs) ≡ length xs - o
  length-drop zero xs = omega arith
  length-drop (suc o) [] = omega arith
  length-drop (suc o) (x ∷ xs) = omega (arith, length-drop o xs)
