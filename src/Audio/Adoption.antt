-- ===== src/Audio/Adoption.antt =====
-- src/audio.c: audio_adopt_own_ports takes our filter's ports out of the discovered ones, and gives
-- their ids to the ports of ours that have their short names.
use pipeasio.Prelude.{
  ℕ, ◌≡◌, refl, ap, ◌∙◌, List, [], ◌∷◌, arith, ◌==◌, if◌then◌else◌, Bool-cases, inl, inr,
}
use pipeasio.Audio.Filter.{adopt_one, adopt_all, adopt_own_ports}
use pipeasio.Audio.Ports.{short_name}
use pipeasio.Audio.{Port, Client, id_invalid}
use pipeasio.Config.{Bytes}

-- The discovered ports of other nodes, in order.
unfoldable pub others : ℕ → List Port → List Port
others our [] = []
others our (d ∷ ds) = if d.node_id == our then others our ds else d ∷ others our ds

abbrev pub names : List Port → List Bytes
names [] = []
names (p ∷ ps) = p.name ∷ names ps

adopt_all-others : (our : ℕ) (ds own : List Port) → (adopt_all our ds own).kept ≡ others our ds
unfolding adopt_all others
adopt_all-others our [] own = refl
adopt_all-others our (d ∷ ds) own = elim (Bool-cases (d.node_id == our)) [
  | inl e ↦ rw e (adopt_all-others our ds (adopt_one own (short_name d.name) our d.port_id))
  | inr e ↦ rw e (ap (d ∷◌) (adopt_all-others our ds own))
]

names-adopt_one :
    (ps : List Port) (name : Bytes) (node port : ℕ) → names (adopt_one ps name node port) ≡ names ps
unfolding adopt_one
names-adopt_one [] name node port = refl
names-adopt_one (p ∷ ps) name node port = ground (arith, names-adopt_one ps name node port)

names-adopt_all : (our : ℕ) (ds own : List Port) → names (adopt_all our ds own).own ≡ names own
unfolding adopt_all
names-adopt_all our [] own = refl
names-adopt_all our (d ∷ ds) own = elim (Bool-cases (d.node_id == our)) [
  | inl e ↦ rw e (
      names-adopt_all our ds (adopt_one own (short_name d.name) our d.port_id)
      ∙ names-adopt_one own (short_name d.name) our d.port_id)
  | inr e ↦ rw e (names-adopt_all our ds own)
]

-- The adoption removes exactly the discovered ports that are on our node and keeps the order of the
-- others; it neither adds, drops, renames nor reorders a port of ours. Without a node of our own it
-- changes nothing.
pub adopt_own_ports-others :
    (c : Client)
    → (if c.our_node_id == id_invalid
        then adopt_own_ports c ≡ c
        else ((adopt_own_ports c).discovered ≡ others c.our_node_id c.discovered)
          × (names (adopt_own_ports c).ports ≡ names c.ports))
unfolding adopt_own_ports
adopt_own_ports-others c = elim (Bool-cases (c.our_node_id == id_invalid)) [
  | inl e ↦ rw e refl
  | inr e ↦ rw e (
    adopt_all-others c.our_node_id c.discovered c.ports,
    names-adopt_all c.our_node_id c.discovered c.ports,
  )
]
