-- ===== src/Gui/Histogram.antt =====
-- gui/LoadHistogram.cpp: the history of the load. A sample is a float of its own type; `clamp` is the clamp to
-- [0, 1] with the conversion.
use native.Mathlib.Nat.{zero-add, suc-add}
use mathlib.Core.List.{append_assoc, append-nil}
use pipeasio.Prelude.{
  ℕ, zero, suc, ◌+◌, ◌-◌, ◌≤◌, ◌<◌, ◌≡◌, refl, Bool, true, false, Option, none, some, List, [], ◌∷◌,
  ◌++◌, ltb, if◌then◌else◌, min, drop, length, get_elem?, arith, length-append, Bool-cases, inl,
  inr, ◌∙◌, ap, sym,
}

-- kMaxSamples
abbrev pub max_samples : ℕ
max_samples = 600

module _ (F : Type 0) (clamp : F → F) (nought : F) where
  pub record Histogram : Type 0 where
    pub samples : List F
    pub current : F
    pub active : Bool

  abbrev pub new_histogram : Histogram
  new_histogram = record { samples = []; current = nought; active = false }

  unfoldable pub push_sample : F → Histogram → Histogram
  push_sample load g =
      let v = clamp load in
      let all = g.samples ++ v ∷ [] in
      record g {
        samples = if ltb max_samples (length all) then drop (length all - max_samples) all else all;
        current = v;
        active = true;
      }

  unfoldable pub set_waiting : Histogram → Histogram
  set_waiting g = record g { active = false }

  -- The column and the sample of each bar, for a widget of width `w`.
  abbrev pub bars : ℕ → Histogram → ℕ
  bars w g = min (length g.samples) w

  abbrev pub bar_column : ℕ → Histogram → ℕ → ℕ
  bar_column w g i = w - bars w g + i

  abbrev pub bar_sample : ℕ → Histogram → ℕ → Option F
  bar_sample w g i = get_elem? g.samples (length g.samples - bars w g + i)

  min_le : (w : ℕ) (g : Histogram) → (bars w g ≤ length g.samples) × (bars w g ≤ w)
  min_le w g = ground arith

  get_elem?-inside : (xs : List F) (k : ℕ) → k < length xs → (x : F) × (get_elem? xs k ≡ some x)
  get_elem?-inside [] k h = absurd (omega arith)
  get_elem?-inside (x ∷ xs) zero h = (x, refl)
  get_elem?-inside (x ∷ xs) (suc k) h = get_elem?-inside xs k (omega arith)

  -- What happens to the histogram: a sample, or no audio.
  unfoldable pub feed : List (Option F) → Histogram → Histogram
  feed [] g = g
  feed (none ∷ es) g = feed es (set_waiting g)
  feed (some x ∷ es) g = feed es (push_sample x g)

  -- All the samples, in order.
  unfoldable pub pushed : List (Option F) → List F
  pushed [] = []
  pushed (none ∷ es) = pushed es
  pushed (some x ∷ es) = clamp x ∷ pushed es

  -- A bar lies inside the widget and shows a sample of the history.
  pub bars_inside :
      (w : ℕ) (g : Histogram) (i : ℕ)
      → i < bars w g
      → (bar_column w g i < w) × ((x : F) × (bar_sample w g i ≡ some x))
  bars_inside w g i h = (
    omega (arith, min_le w g),
    get_elem?-inside g.samples (length g.samples - bars w g + i) (omega (arith, min_le w g)),
  )

  -- The last `max_samples` of a list.
  abbrev pub newest : List F → List F
  newest xs = drop (length xs - max_samples) xs

  abbrev nothing_left : List F
  nothing_left = []

  drop-nil : (n : ℕ) → drop n nothing_left ≡ nothing_left
  drop-nil zero = refl
  drop-nil (suc n) = refl

  drop-drop : (m n : ℕ) (xs : List F) → drop m (drop n xs) ≡ drop (n + m) xs
  drop-drop m zero xs = rw zero-add refl
  drop-drop m (suc n) [] = drop-nil m ∙ sym (drop-nil (suc n + m))
  drop-drop m (suc n) (x ∷ xs) = rw suc-add (drop-drop m n xs)

  drop-append : (n : ℕ) (xs ys : List F) → n ≤ length xs → drop n (xs ++ ys) ≡ drop n xs ++ ys
  drop-append zero xs ys h = refl
  drop-append (suc n) [] ys h = absurd (omega arith)
  drop-append (suc n) (x ∷ xs) ys h = drop-append n xs ys (omega arith)

  length-drop : (n : ℕ) (xs : List F) → length (drop n xs) ≡ length xs - n
  length-drop zero xs = omega arith
  length-drop (suc n) [] = omega arith
  length-drop (suc n) (x ∷ xs) = omega (arith, length-drop n xs)

  -- What has been dropped once does not come back.
  newest-append : (xs ys : List F) → newest (newest xs ++ ys) ≡ newest (xs ++ ys)
  newest-append xs ys =
      let n = length xs - max_samples in
      let k = length (newest xs ++ ys) - max_samples in
      let count : n + k ≡ length (xs ++ ys) - max_samples =
        omega (arith, length-append (newest xs) ys, length-append xs ys, length-drop n xs) in
      ap (drop k) (sym (drop-append n xs ys (omega arith)))
      ∙ drop-drop k n (xs ++ ys)
      ∙ ap (λ (m : ℕ). drop m (xs ++ ys)) count

  newest_twice : (xs : List F) → newest (newest xs) ≡ newest xs
  newest_twice xs =
      ap newest (sym (append-nil (newest xs))) ∙ newest-append xs [] ∙ ap newest (append-nil xs)

  samples-push_sample :
      (x : F) (g : Histogram) → (push_sample x g).samples ≡ newest (g.samples ++ clamp x ∷ [])
  unfolding push_sample
  samples-push_sample x g =
      elim (Bool-cases (ltb max_samples (length (g.samples ++ clamp x ∷ [])))) [
        | inl e ↦ rw e refl
        | inr e ↦ rw e (none_dropped (g.samples ++ clamp x ∷ []) (ground (arith, e)))
      ]
    where
      none_dropped : (xs : List F) → length xs ≤ max_samples → xs ≡ newest xs
      none_dropped xs h = let none : length xs - max_samples ≡ 0 = omega arith in rw none refl

  samples-feed :
      (es : List (Option F)) (g : Histogram)
      → newest g.samples ≡ g.samples
      → (feed es g).samples ≡ newest (g.samples ++ pushed es)
  unfolding feed pushed set_waiting
  samples-feed [] g h = rw (append-nil g.samples) (sym h)
  samples-feed (none ∷ es) g h = samples-feed es (set_waiting g) h
  samples-feed (some x ∷ es) g h =
      let all = g.samples ++ clamp x ∷ [] in
      let now = samples-push_sample x g in
      samples-feed es (push_sample x g) (rw now (newest_twice all))
      ∙ ap (λ (l : List F). newest (l ++ pushed es)) now
      ∙ newest-append all (pushed es)
      ∙ ap newest (append_assoc g.samples (clamp x ∷ []) (pushed es))

  -- From an empty histogram on, whatever pauses lie in between, the history holds the last 600 of the
  -- samples that were pushed, in their order, or all of them while they are fewer.
  pub feed-newest : (es : List (Option F)) → (feed es new_histogram).samples ≡ newest (pushed es)
  feed-newest es = samples-feed es new_histogram refl
