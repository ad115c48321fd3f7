-- ===== src/Tests/Graph.antt =====
-- The theorems about the graph's model at concrete inputs, with hash tables as lists.
use pipeasio.Prelude.{
  ℕ, ◌≡◌, refl, true, not, ◌&&◌, none, some, List, [], ◌∷◌, ◌==◌, ◌⊎◌, if◌then◌else◌, arith,
  is_some, pos,
}
use pipeasio.Prelude.{false}
use pipeasio.Config.Text.{codes}
use pipeasio.Gui.Graph.{Graph, cleared, peers, add_node, add_link}
use pipeasio.Gui.Hash.{Hash, lookup, contains, distinct, keys}
use pipeasio.Gui.Node.{Base, NodeRec, LinkRec, apply_props}
use pipeasio.Gui.Histogram.{feed, pushed, newest, new_histogram, feed-newest}
use pipeasio.Gui.Lifetime.{Life, Life-proxies, created, started, announced}
use pipeasio.Gui.Proxies.{Fresh}
use pipeasio.Gui.Watcher.{Impl, Answers, new_impl, start, stop, graph_registry_global, node_global}
use pipeasio.Gui.Peers.{peers-linked, linked}

module _ {V : Type 0} where
  without : ℕ → List (ℕ × V) → List (ℕ × V)
  without k [] = []
  without k ((j, v) ∷ es) = let rest = without k es in if j == k then rest else (j, v) ∷ rest

  -- The entries of a list that an earlier one does not hide.
  shown : List (ℕ × V) → List (ℕ × V)
  shown [] = []
  shown ((k, v) ∷ es) = (k, v) ∷ without k (shown es)

  lookup-without :
      (k j : ℕ) (es : List (ℕ × V))
      → lookup k (without j es) ≡ (if k == j then none else lookup k es)
  unfolding lookup without
  lookup-without k j [] = ground arith
  lookup-without k j ((i, v) ∷ es) = ground (arith, lookup-without k j es)

  lookup-shown : (k : ℕ) (es : List (ℕ × V)) → lookup k (shown es) ≡ lookup k es
  unfolding lookup shown
  lookup-shown k [] = refl
  lookup-shown k ((j, v) ∷ es) = ground (arith, lookup-shown k es, lookup-without k j (shown es))

  contains-without :
      (k j : ℕ) (es : List (ℕ × V))
      → contains k (keys (without j es)) ≡ (contains k (keys es) && not (k == j))
  unfolding without
  contains-without k j [] = ground arith
  contains-without k j ((i, v) ∷ es) = ground (arith, contains-without k j es)

  distinct-without :
      (j : ℕ) (es : List (ℕ × V))
      → distinct (keys es) ≡ true
      → distinct (keys (without j es)) ≡ true
  unfolding without
  distinct-without j [] d = refl
  distinct-without j ((i, v) ∷ es) d =
      ground (arith, distinct-without j es, contains-without i j es)

  distinct-shown : (es : List (ℕ × V)) → distinct (keys (shown es)) ≡ true
  unfolding shown
  distinct-shown [] = refl
  distinct-shown ((k, v) ∷ es) =
      ground
        (arith, distinct-without k (shown es) (distinct-shown es), contains-without k k (shown es))

  lookup-front :
      (k j : ℕ) (v : V) (es : List (ℕ × V))
      → lookup k ((j, v) ∷ es) ≡ (if k == j then some v else lookup k es)
  unfolding lookup
  lookup-front k j v es = refl

  abbrev no_entries : List (ℕ × V)
  no_entries = []

  lookup-none : (k : ℕ) → lookup k no_entries ≡ none
  unfolding lookup
  lookup-none k = refl

abbrev listed : (V : Type 0) → Hash V
listed V = record {
  Table = List (ℕ × V);
  empty = [];
  insert = λ k v h. (k, v) ∷ h;
  remove = without;
  find = lookup;
  entries = shown;
  find-empty = lookup-none;
  find-insert = lookup-front;
  find-remove = lookup-without;
  lookup-entries = lookup-shown;
  entries-distinct = distinct-shown;
}

abbrev base : Base
base = record {
  nodes = listed NodeRec;
  links = listed LinkRec;
  sort = λ ds. ds;
  to_lower = λ s. s;
  to_upper = λ s. s;
  to_int = λ s. pos 2;
}

-- Node 5 plays to node 7 over two links.
abbrev wired : Graph base
wired = add_link base 21 5 7 (
    add_link base 20 5 7
      (add_node base 7 (λ k. codes "sink") (add_node base 5 (λ k. codes "1") (cleared base))))

abbrev outputs : List (ℕ × LinkRec)
outputs = base.links.entries wired.links

peers-linked_example :
    ((id : ℕ)
      → contains id (peers base (λ l. l.out_node) (λ l. l.in_node) 5 wired [] outputs) ≡ (
          linked (λ l. l.out_node) (λ l. l.in_node) 5 id outputs
          && is_some (base.nodes.find id wired.nodes)))
    × (distinct (peers base (λ l. l.out_node) (λ l. l.in_node) 5 wired [] outputs) ≡ true)
peers-linked_example = peers-linked base wired (λ l. l.out_node) (λ l. l.in_node) 5 outputs

-- The sink is listed once.
one_output : peers base (λ l. l.out_node) (λ l. l.in_node) 5 wired [] outputs ≡ 7 ∷ []
unfolding peers add_link add_node shown without lookup apply_props
one_output = refl

-- A connection that works, and a node whose proxy is 40.
abbrev connecting : Answers base (listed ℕ)
connecting = record { has_loop = true; has_context = true; has_manager = false; has_core = true }

abbrev started_impl : Impl base (listed ℕ)
started_impl = start base (listed ℕ) connecting (new_impl base (listed ℕ))

abbrev bound_impl : Impl base (listed ℕ)
bound_impl =
    graph_registry_global base (listed ℕ) 5 (node_global (λ k. codes "1")) (some 40) started_impl

started_impl-up : started_impl.loop ≡ true
unfolding start
started_impl-up = refl

started_impl-unbound : lookup 5 started_impl.bindings ≡ none
unfolding start lookup
started_impl-unbound = refl

started_impl-Fresh : Fresh base (listed ℕ) (some 40) started_impl
unfolding start
started_impl-Fresh p e = refl

bound_impl-Life : Life base (listed ℕ) bound_impl
bound_impl-Life =
    announced (started created connecting) started_impl-up 5 (node_global (λ k. codes "1"))
      (some 40) started_impl-unbound started_impl-Fresh

bound_impl-live : bound_impl.live 40 ≡ true
unfolding start graph_registry_global
bound_impl-live = refl

Life-proxies_example :
    (bound_impl.fault ≡ false)
    × ((p : ℕ)
        → bound_impl.live p ≡ true
        → (bound_impl.profiler_proxy ≡ some p)
          ⊎ ((id : ℕ) × (lookup id bound_impl.bindings ≡ some p)))
    × ((p : ℕ) → (stop base (listed ℕ) bound_impl).live p ≡ false)
Life-proxies_example = Life-proxies base (listed ℕ) bound_impl bound_impl-Life

-- Two samples with a pause between them.
feed-newest_example :
    (feed ℕ (λ x. x) 0 (some 30 ∷ none ∷ some 40 ∷ []) (new_histogram ℕ (λ x. x) 0)).samples
    ≡ newest ℕ (λ x. x) 0 (pushed ℕ (λ x. x) 0 (some 30 ∷ none ∷ some 40 ∷ []))
feed-newest_example = feed-newest ℕ (λ x. x) 0 (some 30 ∷ none ∷ some 40 ∷ [])
