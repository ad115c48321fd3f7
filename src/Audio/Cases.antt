-- ===== src/Audio/Cases.antt =====
-- The registry's handlers by what they do: nothing, or one of a few changes of the client.
use pipeasio.Prelude.{
  ℕ, suc, ◌≡◌, refl, ◌⊎◌, inl, inr, Bool, true, false, not, ◌&&◌, Option, none, some, [], ◌∷◌, ◌++◌,
  length, ◌==◌, if◌then◌else◌, Option-cases, Bool-cases, is_some,
}
use pipeasio.Audio.Registry.{
  Props, node_name, media_class, node_id, port_name, port_direction, port_monitor, cacheable,
  own_node, cache_node, cache_port, cache_port_of, backfill, memo_lookup, to_id, add_port, add_node,
  find_node, cache_named, new_node, is_monitor, class_contains, discovered_port,
}
use pipeasio.Audio.{Node, Port, Client, grow, id_invalid}
use pipeasio.Config.Text.{codes}
use pipeasio.Config.{Bytes}

abbrev pub with_node : Node → Client → Client
with_node n c = record c {
  nodes = c.nodes ++ n ∷ [];
  cap_nodes = grow 16 (length c.nodes) c.cap_nodes;
}

abbrev pub with_port : Port → Client → Client
with_port p c = record c {
  discovered = c.discovered ++ p ∷ [];
  cap_discovered = grow 32 (length c.discovered) c.cap_discovered;
  next_handle = suc c.next_handle;
}

abbrev AddsNode : ℕ → Client → Client → Type 0
AddsNode id c d =
    (d ≡ c) ⊎ ((n : Node) × (n.id ≡ id) × (find_node c.nodes id ≡ none) × (d ≡ with_node n c))

is_some-none : {A : Type 0} (o : Option A) → is_some o ≡ false → o ≡ none
is_some-none none h = refl
is_some-none (some a) h = cc

add_node_cases :
    (alloc : Bool) (id : ℕ) (n : Node) (c : Client)
    → n.id ≡ id
    → find_node c.nodes id ≡ none
    → AddsNode id c (add_node alloc n c)
unfolding add_node
add_node_cases false id n c e f = inl refl
add_node_cases true id n c e f = inr (n, e, f, refl)

cache_named_cases :
    (alloc : Bool) (id : ℕ) (name : Bytes) (props : Props) (c : Client)
    → AddsNode id c (cache_named alloc id name props c)
unfolding cache_named
cache_named_cases alloc id name props c =
    elim (Bool-cases (cacheable (own_node c id name) (props media_class))) [
      | inr e ↦ rw (e, cache_named) (inl refl)
      | inl e ↦ elim (Bool-cases (is_some (find_node c.nodes id))) [
        | inl f ↦ rw (e, f, cache_named) (inl refl)
        | inr f ↦
            rw (e, f, cache_named)
              (add_node_cases alloc id (new_node id name props) c refl (is_some-none _ f))
      ]
    ]

-- A node's event adds a node that is new to the cache, or changes nothing.
pub cache_node_cases :
    (alloc : Bool) (id : ℕ) (props : Props) (c : Client)
    → AddsNode id c (cache_node alloc id props c)
unfolding cache_node
cache_node_cases alloc id props c = elim (Option-cases (props node_name)) [
  | inl e ↦ rw (e, cache_node) (inl refl)
  | inr (name, e) ↦ rw (e, cache_node) (cache_named_cases alloc id name props c)
]

abbrev pub AddsPort : Client → Client → Type 0
AddsPort c d = (d ≡ c) ⊎ ((p : Port) × (d ≡ with_port p c))

add_port_cases :
    (alloc : Bool) (id node : ℕ) (monitor : Option Bytes) (name direction : Bytes) (o : Option Node)
    (c : Client)
    → AddsPort c (add_port alloc id node monitor name direction o c)
unfolding add_port
add_port_cases alloc id node monitor name direction none c = inl refl
add_port_cases alloc id node monitor name direction (some n) c =
    elim (Bool-cases (is_monitor monitor && class_contains n.media_class (codes "Sink"))) [
      | inl e ↦ rw e (inl refl)
      | inr e ↦ rw e (stored alloc)
    ]
  where
    stored :
        (b : Bool)
        → AddsPort c
            (if b then with_port (discovered_port c.next_handle id node n name direction) c else c)
    stored true = inr (_, refl)
    stored false = inl refl

-- A port's event gives ids to a port of ours, or renews the memo and perhaps adds a port, or changes
-- nothing.
abbrev pub PortEffect : Client → Client → Type 0
PortEffect c d =
    (d ≡ c)
    ⊎ ((name : Bytes) × (node : ℕ) × (id : ℕ) × (d
          ≡ record c { ports = backfill c.ports name node id }))
    ⊎ ((node : ℕ) × AddsPort (memo_lookup node c).1 d)

cache_port_of_cases :
    (alloc : Bool) (id node : ℕ) (monitor : Option Bytes) (name direction : Bytes) (c : Client)
    → PortEffect c (cache_port_of alloc id node monitor name direction c)
unfolding cache_port_of
cache_port_of_cases alloc id node monitor name direction c =
    elim (Bool-cases (not (c.our_node_id == id_invalid) && node == c.our_node_id)) [
      | inl e ↦ rw e (inr (inl (name, node, id, refl)))
      | inr e ↦ rw e (inr (inr (node, add_port_cases alloc id node monitor name direction _ _)))
    ]

pub cache_port_cases :
    (alloc : Bool) (id : ℕ) (props : Props) (c : Client)
    → PortEffect c (cache_port alloc id props c)
unfolding cache_port
cache_port_cases alloc id props c = elim (Option-cases (props node_id)) [
  | inl e ↦ rw (e, cache_port) (inl refl)
  | inr (node, e) ↦ elim (Option-cases (props port_name)) [
    | inl f ↦ rw (e, f, cache_port) (inl refl)
    | inr (name, f) ↦ elim (Option-cases (props port_direction)) [
      | inl g ↦ rw (e, f, g, cache_port) (inl refl)
      | inr (direction, g) ↦
          rw (e, f, g, cache_port)
            (cache_port_of_cases alloc id (to_id node) (props port_monitor) name direction c)
    ]
  ]
]
