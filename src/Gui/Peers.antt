-- ===== src/Gui/Peers.antt =====
-- gui/GraphModel.cpp: which nodes count as connected to the driver's.
use pipeasio.Prelude.{
  ℕ, ◌≡◌, refl, Bool, true, false, not, ◌&&◌, ◌||◌, List, [], ◌∷◌, ◌++◌, ◌==◌, arith, is_some,
  Bool-cases, inl, inr,
}
use pipeasio.Gui.Graph.{Graph, peers}
use pipeasio.Gui.Hash.{contains, distinct}
use pipeasio.Gui.Node.{Base, LinkRec}

contains-append_one :
    (k j : ℕ) (ks : List ℕ) → contains k (ks ++ j ∷ []) ≡ (contains k ks || k == j)
contains-append_one k j [] = ground arith
contains-append_one k j (x ∷ ks) = ground (arith, contains-append_one k j ks)

distinct-append_one :
    (j : ℕ) (ks : List ℕ)
    → distinct ks ≡ true
    → contains j ks ≡ false
    → distinct (ks ++ j ∷ []) ≡ true
distinct-append_one j [] d c = refl
distinct-append_one j (x ∷ ks) d c =
    ground (arith, distinct-append_one j ks, contains-append_one x j ks)

-- Some link leads from the node to the other one.
unfoldable pub linked : (near far : LinkRec → ℕ) → (own id : ℕ) → List (ℕ × LinkRec) → Bool
linked near far own id [] = false
linked near far own id ((k, l) ∷ ls) = near l == own && far l == id || linked near far own id ls

module _ (b : Base) (g : Graph b) (near far : LinkRec → ℕ) (own : ℕ) where
  abbrev present : ℕ → Bool
  present id = is_some (b.nodes.find id g.nodes)

  abbrev joins : LinkRec → List ℕ → Bool
  joins l ids = near l == own && present (far l) && not (contains (far l) ids)

  contains-peers :
      (id : ℕ) (ids : List ℕ) (ls : List (ℕ × LinkRec))
      → contains id (peers b near far own g ids ls)
        ≡ (contains id ids || linked near far own id ls && present id)
  unfolding peers linked
  contains-peers id ids [] = ground arith
  contains-peers id ids ((k, l) ∷ ls) = elim (Bool-cases (joins l ids)) [
    | inl e ↦ rw e (
        ground
          (arith, e, contains-peers id (ids ++ far l ∷ []) ls, contains-append_one id (far l) ids))
    | inr e ↦ rw e (ground (arith, e, contains-peers id ids ls))
  ]

  distinct-peers :
      (ids : List ℕ) (ls : List (ℕ × LinkRec))
      → distinct ids ≡ true
      → distinct (peers b near far own g ids ls) ≡ true
  unfolding peers
  distinct-peers ids [] d = d
  distinct-peers ids ((k, l) ∷ ls) d = elim (Bool-cases (joins l ids)) [
    | inl e ↦ rw e (
        distinct-peers (ids ++ far l ∷ []) ls
          (distinct-append_one (far l) ids d (ground (arith, e))))
    | inr e ↦ rw e (distinct-peers ids ls d)
  ]

  -- Where the loop over the links starts with no peer, it collects exactly the nodes of the graph that a link
  -- leads to, each of them once.
  pub peers-linked :
      (ls : List (ℕ × LinkRec))
      → ((id : ℕ)
          → contains id (peers b near far own g [] ls) ≡ (linked near far own id ls && present id))
        × (distinct (peers b near far own g [] ls) ≡ true)
  peers-linked ls = (λ id. contains-peers id [] ls, distinct-peers [] ls refl)
