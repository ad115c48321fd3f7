-- ===== src/Bridge/Handles.antt =====
-- src/wow64/audio_unix.c: what the table of tokens keeps true over any calls.
use pipeasio.Prelude.{
  ℕ, zero, suc, ◌+◌, ◌-◌, ◌≤◌, ◌<◌, ◌≡◌, ◌≢◌, ◌⊎◌, inl, inr, refl, true, false, ◌||◌, Option, none,
  some, List, [], ◌∷◌, ◌==◌, ltb, if◌then◌else◌, length, get_elem?, replicate, arith, Bool-cases,
  length-replicate, ◌∙◌,
}
use pipeasio.Bridge.Tokens.{
  Pointer, context, port, same, token_max, Table, no_tokens, scan, store, tok_add, content, tok_get,
  tok_clear, TokenCall, add, clear, run_calls,
}

same-eq : (p q : Pointer) → same p q ≡ true → p ≡ q
unfolding same
same-eq (context a) (context b) e = ground arith
same-eq (context a) (port b k) e = ground arith
same-eq (port a h) (context b) e = ground arith
same-eq (port a h) (port b k) e = ground arith

same_refl : (p : Pointer) → same p p ≡ true
unfolding same
same_refl (context a) = ground arith
same_refl (port a h) = ground arith

pub get_elem?-store :
    (t : Table) (i : ℕ) (v : Option Pointer) (j : ℕ)
    → i < length t
    → get_elem? (store t i v) j ≡ (if j == i then some v else get_elem? t j)
unfolding store
get_elem?-store [] i v j h = absurd (omega arith)
get_elem?-store (x ∷ xs) zero v zero h = refl
get_elem?-store (x ∷ xs) zero v (suc j) h = ground arith
get_elem?-store (x ∷ xs) (suc i) v zero h = ground arith
get_elem?-store (x ∷ xs) (suc i) v (suc j) h = ground (arith, get_elem?-store xs i v j)

pub length-store : (t : Table) (i : ℕ) (v : Option Pointer) → length (store t i v) ≡ length t
unfolding store
length-store [] i v = refl
length-store (x ∷ xs) zero v = refl
length-store (x ∷ xs) (suc i) v = ground (arith, length-store xs i v)

-- A handle that the loop finds is that of a slot with the pointer.
scan-found :
    (p : Pointer) (i slot : ℕ) (t : Table)
    → (scan p i slot t).0 ≢ 0
    → (i < (scan p i slot t).0)
      × ((scan p i slot t).0 ≤ i + length t)
      × (get_elem? t ((scan p i slot t).0 - 1 - i) ≡ some (some p))
unfolding scan
scan-found p i slot [] h = absurd (h refl)
scan-found p i slot (none ∷ t) h =
    let s = if slot == 0 then suc i else slot in
    let ih = scan-found p (suc i) s t h in
    let e : (scan p (suc i) s t).0 - 1 - i ≡ suc ((scan p (suc i) s t).0 - 1 - suc i) =
      omega (arith, ih.0) in
    (omega (arith, ih.0), omega (arith, ih.1), rw e ih.2)
scan-found p i slot (some q ∷ t) h = elim (Bool-cases (same q p)) [
  | inl e ↦ ground (arith, same-eq q p)
  | inr e ↦
      let ih = scan-found p (suc i) slot t (rw e at h) in
      let e2 : (scan p (suc i) slot t).0 - 1 - i ≡ suc ((scan p (suc i) slot t).0 - 1 - suc i) =
        omega (arith, ih.0) in
      rw e (omega (arith, ih.0), omega (arith, ih.1), rw e2 ih.2)
]

-- If it finds none, no slot has the pointer.
scan-absent :
    (p : Pointer) (i slot : ℕ) (t : Table)
    → (scan p i slot t).0 ≡ 0
    → (k : ℕ) → get_elem? t k ≢ some (some p)
unfolding scan
scan-absent p i slot [] h k = λ e. cc
scan-absent p i slot (none ∷ t) h zero = λ e. cc
scan-absent p i slot (none ∷ t) h (suc k) =
    scan-absent p (suc i) (if slot == 0 then suc i else slot) t h k
scan-absent p i slot (some q ∷ t) h k = elim (Bool-cases (same q p)) [
  | inl e ↦ absurd (ground arith)
  | inr e ↦ scan-absent-tail p i slot q t e (scan-absent p (suc i) slot t (rw e at h)) k
]
  where
    scan-absent-tail :
        (p : Pointer) (i slot : ℕ) (q : Pointer) (t : Table)
        → same q p ≡ false
        → ((k : ℕ) → get_elem? t k ≢ some (some p))
        → (k : ℕ) → get_elem? (some q ∷ t) k ≢ some (some p)
    scan-absent-tail p i slot q t e ih zero = λ f. ground (arith, same_refl p)
    scan-absent-tail p i slot q t e ih (suc k) = ih k

abbrev IsFree : ℕ → Table → ℕ → Type 0
IsFree i t h = (i < h) × (h ≤ i + length t) × (get_elem? t (h - 1 - i) ≡ some none)

IsFree-cons : (i h : ℕ) (x : Option Pointer) (t : Table) → IsFree (suc i) t h → IsFree i (x ∷ t) h
IsFree-cons i h x t f =
    let e : h - 1 - i ≡ suc (h - 1 - suc i) = omega (arith, f.0) in
    (omega (arith, f.0), omega (arith, f.1), rw e f.2)

-- The slot that the loop remembers is the one it has been given, or a free one.
scan-slot :
    (p : Pointer) (i slot : ℕ) (t : Table)
    → (scan p i slot t).1 ≢ 0
    → ((scan p i slot t).1 ≡ slot) ⊎ IsFree i t (scan p i slot t).1
unfolding scan
scan-slot p i slot [] h = inl refl
scan-slot p i slot (none ∷ t) h =
    let s = if slot == 0 then suc i else slot in
    let u = (scan p (suc i) s t).1 in
    elim (scan-slot p (suc i) s t h) [
      | inl e ↦ elim (Bool-cases (slot == 0)) [
        | inl z ↦ inr (ground arith)
        | inr z ↦ inl (ground arith)
      ]
      | inr f ↦ inr (IsFree-cons i u none t f)
    ]
scan-slot p i slot (some q ∷ t) h = elim (Bool-cases (same q p)) [
  | inl e ↦ inl (rw e refl)
  | inr e ↦ elim (scan-slot p (suc i) slot t (rw e at h)) [
    | inl s ↦ inl (rw e s)
    | inr s ↦ inr (rw e (IsFree-cons i (scan p (suc i) slot t).1 (some q) t s))
  ]
]

tok_get_valid :
    (t : Table) (h : ℕ) (p : Pointer)
    → tok_get t h ≡ some p
    → (1 ≤ h) × (h ≤ 512) × (get_elem? t (h - 1) ≡ some (some p))
unfolding tok_get
tok_get_valid t h p e = ground arith

-- A table of the right size, in which no two handles stand for one pointer.
pub record IsTable (t : Table) : Type 0 where
  pub sized : length t ≡ token_max
  pub distinct : (h k : ℕ) (p : Pointer) → tok_get t h ≡ some p → tok_get t k ≡ some p → h ≡ k

-- What tok_add does: the handle it gives stands for the pointer and no other handle changes, or all is as
-- it was and it gives 0.
abbrev pub Added : Pointer → Table → ℕ → Table → Type 0
Added p t h u =
    ((1 ≤ h) × (h ≤ token_max) × ((k : ℕ) → tok_get u k ≡ (if k == h then some p else tok_get t k)))
    ⊎ ((h ≡ 0) × (u ≡ t) × ((k : ℕ) → tok_get t k ≢ some p))

tok_get-store :
    (t : Table) (h : ℕ) (v : Option Pointer)
    → length t ≡ token_max
    → 1 ≤ h
    → h ≤ token_max
    → (k : ℕ) → tok_get (store t (h - 1) v) k ≡ (if k == h then v else tok_get t k)
unfolding tok_get
tok_get-store t h v sized low high k = ground (arith, get_elem?-store t (h - 1) v (k - 1))

tok_get_at :
    (t : Table) (h : ℕ) (p : Pointer)
    → 1 ≤ h
    → h ≤ token_max
    → get_elem? t (h - 1) ≡ some (some p)
    → tok_get t h ≡ some p
unfolding tok_get
tok_get_at t h p low high e = ground arith

unlisted :
    (p : Pointer) (t : Table)
    → ((k : ℕ) → get_elem? t k ≢ some (some p))
    → (k : ℕ) → tok_get t k ≢ some p
unlisted p t none_has k = λ e. none_has (k - 1) (tok_get_valid t k p e).2

pub tok_add-Added :
    (p : Pointer) (t : Table) → length t ≡ token_max → Added p t (tok_add p t).0 (tok_add p t).1
unfolding tok_add
tok_add-Added p t sized =
    let r = scan p 0 0 t in
    elim (Bool-cases (r.0 == 0)) [
      | inl absent ↦ elim (Bool-cases (r.1 == 0)) [
        | inl full ↦
            inr (ground arith, ground arith, unlisted p t (scan-absent p 0 0 t (ground arith)))
        | inr free ↦ elim (scan-slot p 0 0 t (ground arith)) [
          | inl e ↦ absurd (ground arith)
          | inr f ↦ inl (
            ground arith,
            ground arith,
            λ k. ground (arith, tok_get-store t r.1 (some p) sized f.0 (omega arith) k),
          )
        ]
      ]
      | inr there ↦
          let f = scan-found p 0 0 t (ground arith) in
          let e : r.0 - 1 - 0 ≡ r.0 - 1 = omega arith in
          inl (
            ground arith,
            ground arith,
            λ k. ground (arith, tok_get_at t r.0 p f.0 (omega arith) (rw e at f.2)),
          )
    ]

tok_get-tok_clear :
    (t : Table) (h : ℕ)
    → length t ≡ token_max
    → (k : ℕ) → tok_get (tok_clear h t) k ≡ (if k == h then none else tok_get t k)
unfolding tok_clear tok_get
tok_get-tok_clear t h sized k = elim (Bool-cases (h == 0 || ltb token_max h)) [
  | inl e ↦ rw (e, tok_get) (ground arith)
  | inr e ↦ ground (arith, tok_get-store t h none sized (ground arith) (ground arith) k)
]

length-tok_add : (p : Pointer) (t : Table) → length (tok_add p t).1 ≡ length t
unfolding tok_add
length-tok_add p t = let r = scan p 0 0 t in ground (arith, length-store t (r.1 - 1) (some p))

length-tok_clear : (h : ℕ) (t : Table) → length (tok_clear h t) ≡ length t
unfolding tok_clear
length-tok_clear h t = ground (arith, length-store t (h - 1) none)

Added-distinct :
    (p : Pointer) (t : Table) (h : ℕ) (u : Table)
    → IsTable t
    → Added p t h u
    → (((k : ℕ) → tok_get t k ≢ some p) ⊎ (u ≡ t))
    → (i j : ℕ) (q : Pointer) → tok_get u i ≡ some q
    → tok_get u j ≡ some q
    → i ≡ j
Added-distinct p t h u v (inl (low, high, reads)) (inl fresh) i j q e f =
    ground (arith, reads i, reads j, v.distinct i j q, fresh i, fresh j)
Added-distinct p t h u v a (inr s) i j q e f = v.distinct i j q (rw s at e) (rw s at f)
Added-distinct p t h u v (inr (z, s, absent)) w i j q e f = v.distinct i j q (rw s at e) (rw s at f)

-- tok_add uses a fresh slot only for a pointer that no handle stands for.
tok_add_fresh :
    (p : Pointer) (t : Table) → (((k : ℕ) → tok_get t k ≢ some p) ⊎ ((tok_add p t).1 ≡ t))
unfolding tok_add
tok_add_fresh p t = elim (Bool-cases ((scan p 0 0 t).0 == 0)) [
  | inl absent ↦ inl (unlisted p t (scan-absent p 0 0 t (ground arith)))
  | inr there ↦ inr (ground arith)
]

pub tok_add-IsTable : (p : Pointer) (t : Table) → IsTable t → IsTable (tok_add p t).1
tok_add-IsTable p t v = record {
  sized = length-tok_add p t ∙ v.sized;
  distinct =
      Added-distinct p t (tok_add p t).0 (tok_add p t).1 v (tok_add-Added p t v.sized)
        (tok_add_fresh p t);
}

pub tok_clear-IsTable : (h : ℕ) (t : Table) → IsTable t → IsTable (tok_clear h t)
tok_clear-IsTable h t v = record {
  sized = length-tok_clear h t ∙ v.sized;
  distinct = λ i j q e f.
      ground
        (arith, tok_get-tok_clear t h v.sized i, tok_get-tok_clear t h v.sized j, v.distinct i j q);
}

all_free : (n i : ℕ) → content (get_elem? (replicate n none) i) ≡ none
all_free zero i = refl
all_free (suc n) zero = refl
all_free (suc n) (suc i) = all_free n i

tok_get-no_tokens : (h : ℕ) → tok_get no_tokens h ≡ none
unfolding tok_get no_tokens
tok_get-no_tokens h = ground (arith, all_free 512 (h - 1))

length-no_tokens : length no_tokens ≡ token_max
unfolding no_tokens
length-no_tokens = length-replicate {A = Option Pointer} 512 none

no_tokens-IsTable : IsTable no_tokens
no_tokens-IsTable = record {
  sized = length-no_tokens;
  distinct = λ i j q e f. ground (arith, tok_get-no_tokens i);
}

run_calls-IsTable : (cs : List TokenCall) (t : Table) → IsTable t → IsTable (run_calls cs t)
unfolding run_calls
run_calls-IsTable [] t v = v
run_calls-IsTable (add p ∷ cs) t v = run_calls-IsTable cs (tok_add p t).1 (tok_add-IsTable p t v)
run_calls-IsTable (clear h ∷ cs) t v =
    run_calls-IsTable cs (tok_clear h t) (tok_clear-IsTable h t v)

-- In the table that any calls of tok_add and tok_clear make of the empty one, no two handles stand for one
-- pointer.  Adding a pointer there either gives a handle from 1 to 512 which then stands for the
-- pointer while every other handle stands for what it did, or gives 0 and leaves the table as it
-- was, in which no handle stood for the pointer.
pub tok_add-Handles :
    (cs : List TokenCall) (p : Pointer)
    → let t = run_calls cs no_tokens in
      ((h k : ℕ) (q : Pointer) → tok_get t h ≡ some q → tok_get t k ≡ some q → h ≡ k)
      × Added p t (tok_add p t).0 (tok_add p t).1
tok_add-Handles cs p =
    let v = run_calls-IsTable cs no_tokens no_tokens-IsTable in
    (v.distinct, tok_add-Added p (run_calls cs no_tokens) v.sized)
