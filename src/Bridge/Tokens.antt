-- ===== src/Bridge/Tokens.antt =====
-- src/wow64/audio_unix.c: the table of tokens, which stand for 64-bit pointers in the 32-bit process.
use pipeasio.Prelude.{
  ℕ, zero, suc, ◌-◌, Bool, false, ◌&&◌, ◌||◌, not, Option, none, some, List, [], ◌∷◌, ◌==◌, ltb,
  if◌then◌else◌, get_elem?, replicate,
}

-- What the table points to: a client's context, or a port, which belongs to one context.
pub data Pointer : Type 0 where
  context : (address : ℕ) → Pointer
  port : (owner : ℕ) (handle : ℕ) → Pointer

unfoldable pub same : Pointer → Pointer → Bool
same (context a) (context b) = a == b
same (port a h) (port b k) = a == b && h == k
same _ _ = false

abbrev pub token_max : ℕ
token_max = 512

abbrev pub Table : Type 0
Table = List (Option Pointer)

unfoldable pub no_tokens : Table
no_tokens = replicate token_max none

-- The loop of tok_add, at slot `i`: the handle of a slot that has the pointer, 0 if none has, and the
-- handle of the first free slot that was passed, 0 if none was.
unfoldable pub scan : Pointer → ℕ → ℕ → Table → ℕ × ℕ
unfolding same
scan p i slot [] = (0, slot)
scan p i slot (none ∷ t) = scan p (suc i) (if slot == 0 then suc i else slot) t
scan p i slot (some q ∷ t) = if same q p then (suc i, slot) else scan p (suc i) slot t

unfoldable pub store : Table → ℕ → Option Pointer → Table
store [] i v = []
store (x ∷ xs) zero v = v ∷ xs
store (x ∷ xs) (suc i) v = x ∷ store xs i v

unfoldable pub tok_add : Pointer → Table → ℕ × Table
unfolding scan store
tok_add p t =
    let r = scan p 0 0 t in
    if r.0 == 0 && not (r.1 == 0) then (r.1, store t (r.1 - 1) (some p)) else (r.0, t)

abbrev pub content : Option (Option Pointer) → Option Pointer
content none = none
content (some v) = v

unfoldable pub tok_get : Table → ℕ → Option Pointer
tok_get t h = if h == 0 || ltb token_max h then none else content (get_elem? t (h - 1))

unfoldable pub tok_clear : ℕ → Table → Table
unfolding store
tok_clear h t = if h == 0 || ltb token_max h then t else store t (h - 1) none

-- What the unix calls do to the table.
pub data TokenCall : Type 0 where
  add : Pointer → TokenCall
  clear : ℕ → TokenCall

unfoldable pub run_calls : List TokenCall → Table → Table
unfolding tok_add tok_clear
run_calls [] t = t
run_calls (add p ∷ cs) t = run_calls cs (tok_add p t).1
run_calls (clear h ∷ cs) t = run_calls cs (tok_clear h t)
