-- ===== src/Audio/Memo.antt =====
-- The one-entry memo in front of the node cache.
use pipeasio.Prelude.{
  ℕ, ◌≡◌, refl, ◌⊎◌, inl, inr, Bool, true, false, ◌&&◌, Option, none, some, List, [], ◌∷◌, ◌++◌,
  arith, ◌==◌, Option-cases, Bool-cases, is_some,
}
use pipeasio.Audio.Capacity.{Call, event, registers, unregisters, call, calls}
use pipeasio.Audio.Cases.{with_node, AddsPort, PortEffect, cache_node_cases, cache_port_cases}
use pipeasio.Audio.Registry.{
  Props, global, global_remove, node_type, port_type, metadata_type, other_type, cache_node,
  cache_metadata, memo_lookup, remove_node, on_registry_global_remove, has_port_id, find_node,
  on_event, on_registry_global, metadata_name,
}
use pipeasio.Audio.Ports.{port_register, port_unregister}
use pipeasio.Audio.{Node, Client, opened}
use pipeasio.Config.{Bytes}

-- The remembered node is the one that the search of the cache finds.
abbrev IsMemo : List Node → Option Node → ℕ → Type 0
IsMemo ns memo id = (memo ≡ none) ⊎ ((n : Node) × (memo ≡ some n) × (find_node ns id ≡ some n))

abbrev IsMemoed : Client → Type 0
IsMemoed c = IsMemo c.nodes c.memo_node c.memo_node_id

find_node-append :
    (ns : List Node) (m : Node) (id : ℕ) (n : Node)
    → find_node ns id ≡ some n
    → find_node (ns ++ m ∷ []) id ≡ some n
unfolding find_node
find_node-append [] m id n e = absurd cc
find_node-append (k ∷ ns) m id n e = ground (arith, find_node-append ns m id n)

find_node-id : (ns : List Node) (id : ℕ) (n : Node) → find_node ns id ≡ some n → n.id ≡ id
unfolding find_node
find_node-id [] id n e = absurd cc
find_node-id (k ∷ ns) id n e = ground (arith, find_node-id ns id n)

find_node-remove_node :
    (ns : List Node) (gone id : ℕ) (n : Node)
    → (gone == id) ≡ false
    → find_node ns id ≡ some n
    → find_node (remove_node ns gone) id ≡ some n
unfolding find_node remove_node
find_node-remove_node [] gone id n h e = absurd cc
find_node-remove_node (k ∷ ns) gone id n h e = ground (arith, find_node-remove_node ns gone id n)

with_node-IsMemoed : (n : Node) (c : Client) → IsMemoed c → IsMemoed (with_node n c)
with_node-IsMemoed n c (inl e) = inl e
with_node-IsMemoed n c (inr (m, e, f)) = inr (m, e, find_node-append c.nodes n c.memo_node_id m f)

memo_lookup-IsMemoed : (id : ℕ) (c : Client) → IsMemoed c → IsMemoed (memo_lookup id c).1
unfolding memo_lookup
memo_lookup-IsMemoed id c m = elim (Bool-cases (is_some c.memo_node && c.memo_node_id == id)) [
  | inl e ↦ rw e m
  | inr e ↦ elim (Option-cases (find_node c.nodes id)) [
    | inl f ↦ rw (e, f) (inl refl)
    | inr (n, f) ↦ rw (e, f) (inr (n, refl, f))
  ]
]

cache_node-IsMemoed :
    (alloc : Bool) (id : ℕ) (props : Props) (c : Client)
    → IsMemoed c
    → IsMemoed (cache_node alloc id props c)
cache_node-IsMemoed alloc id props c m = elim (cache_node_cases alloc id props c) [
  | inl e ↦ rw e m
  | inr (n, _, _, e) ↦ rw e (with_node-IsMemoed n c m)
]

AddsPort-IsMemoed : (c d : Client) → IsMemoed c → AddsPort c d → IsMemoed d
AddsPort-IsMemoed c d m (inl e) = rw e m
AddsPort-IsMemoed c d m (inr (p, e)) = rw e m

PortEffect-IsMemoed : (c d : Client) → IsMemoed c → PortEffect c d → IsMemoed d
PortEffect-IsMemoed c d m (inl e) = rw e m
PortEffect-IsMemoed c d m (inr (inl (name, node, id, e))) = rw e m
PortEffect-IsMemoed c d m (inr (inr (node, a))) =
    AddsPort-IsMemoed (memo_lookup node c).1 d (memo_lookup-IsMemoed node c m) a

cache_metadata-IsMemoed :
    (bound : Bool) (props : Props) (c : Client)
    → IsMemoed c
    → IsMemoed (cache_metadata bound props c)
unfolding cache_metadata
cache_metadata-IsMemoed bound props c m = elim (Option-cases (props metadata_name)) [
  | inl e ↦ rw (e, cache_metadata) m
  | inr (name, e) ↦ rw (e, cache_metadata) (ground arith)
]

-- Where the removed node is the remembered one, the memo is cleared.
remove-IsMemoed : (id : ℕ) (c : Client) → IsMemoed c → IsMemoed (on_registry_global_remove id c)
unfolding on_registry_global_remove
remove-IsMemoed id c (inl e) = elim (Bool-cases (has_port_id c.discovered id)) [
  | inl f ↦ rw f (inl e)
  | inr f ↦ elim (Bool-cases (is_some (find_node c.nodes id))) [
    | inl g ↦ rw (f, g, e) (inl refl)
    | inr g ↦ rw (f, g) (inl e)
  ]
]
remove-IsMemoed id c (inr (n, e, found)) = elim (Bool-cases (has_port_id c.discovered id)) [
  | inl f ↦ rw f (inr (n, e, found))
  | inr f ↦ elim (Bool-cases (is_some (find_node c.nodes id))) [
    | inr g ↦ rw (f, g) (inr (n, e, found))
    | inl g ↦ elim (Bool-cases (n.id == id)) [
      | inl h ↦ rw (f, g, e, h) (inl refl)
      | inr h ↦
          rw (f, g, e, h)
            (inr (
              n,
              refl,
              find_node-remove_node c.nodes id c.memo_node_id n
                  (ground (arith, find_node-id c.nodes c.memo_node_id n found)) found,
            ))
    ]
  ]
]

call-IsMemoed : (x : Call) (c : Client) → IsMemoed c → IsMemoed (call x c)
unfolding call on_event on_registry_global port_register port_unregister
call-IsMemoed (event (global alloc id node_type props)) c m = cache_node-IsMemoed alloc id props c m
call-IsMemoed (event (global alloc id port_type props)) c m =
    PortEffect-IsMemoed c _ m (cache_port_cases alloc id props c)
call-IsMemoed (event (global alloc id metadata_type props)) c m =
    cache_metadata-IsMemoed alloc props c m
call-IsMemoed (event (global alloc id other_type props)) c m = m
call-IsMemoed (event (global_remove id)) c m = remove-IsMemoed id c m
call-IsMemoed (registers true name flags) c m = m
call-IsMemoed (registers false name flags) c m = m
call-IsMemoed (unregisters none) c m = m
call-IsMemoed (unregisters (some h)) c m = m

calls-IsMemoed : (xs : List Call) (c : Client) → IsMemoed c → IsMemoed (calls xs c)
unfolding calls
calls-IsMemoed [] c m = m
calls-IsMemoed (x ∷ xs) c m = calls-IsMemoed xs (call x c) (call-IsMemoed x c m)

memo_lookup_of_IsMemoed :
    (id : ℕ) (c : Client) → IsMemoed c → (memo_lookup id c).0 ≡ find_node c.nodes id
unfolding memo_lookup
memo_lookup_of_IsMemoed id c m = elim (Bool-cases (is_some c.memo_node && c.memo_node_id == id)) [
  | inr e ↦ rw e refl
  | inl e ↦ elim m [ inl f ↦ absurd (ground arith) | inr (n, f, g) ↦ ground arith ]
]

-- However the graph's objects and the driver's ports have come and gone, the lookup through the memo
-- answers what the search of the node cache answers.
pub memo_lookup-find_node :
    (name : Bytes) (xs : List Call) (id : ℕ)
    → (memo_lookup id (calls xs (opened name))).0 ≡ find_node (calls xs (opened name)).nodes id
unfolding opened
memo_lookup-find_node name xs id =
    memo_lookup_of_IsMemoed id (calls xs (opened name)) (calls-IsMemoed xs (opened name) (inl refl))
