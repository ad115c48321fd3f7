-- ===== src/Gui/Lifetime.antt =====
-- gui/PipeWireGraph.cpp: the graph over its whole life.
use pipeasio.Prelude.{
  ℕ, ◌≡◌, ◌≢◌, refl, Bool, true, false, not, ◌||◌, Option, none, some, List, ◌==◌, arith,
  Option-cases, inl, inr, ◌⊎◌, ==_iff, ℤ, is_some, ◌∙◌, sym,
}
use pipeasio.Config.{Bytes}
use pipeasio.Gui.Graph.{remove_link, remove_node}
use pipeasio.Gui.Hash.{Hash}
use pipeasio.Gui.Node.{Base, Props, ProfilerStats, no_id}
use pipeasio.Gui.Proxies.{
  IsAccounted, Fresh, if_holds, new_impl-IsAccounted, model-IsAccounted, bind_node-IsAccounted,
  bind_profiler-IsAccounted, drop_binding-IsAccounted, drop_profiler-IsAccounted, stop-IsAccounted,
}
use pipeasio.Gui.Watcher.{
  Impl, Global, NodeState, Profile, Answers, new_impl, graph_registry_global,
  graph_registry_global_remove, graph_node_info, graph_node_param, graph_profiler_profile, start,
  stop, node_global, link_global, profiler_global, other_global, stats,
}

absent_of : (o : Option ℕ) → is_some o ≡ false → o ≡ none
absent_of none e = refl
absent_of (some p) e = cc

module _ (b : Base) (h : Hash ℕ) where
  -- The calls and events in any order. An id is announced again only after its removal, and a bind answers a
  -- proxy that does not exist yet.
  pub data Life : Impl b h → Type 0 where
    created : Life (new_impl b h)
    started : {s : Impl b h} → Life s → (a : Answers b h) → Life (start b h a s)
    announced :
        {s : Impl b h}
        → Life s
        → s.loop ≡ true
        → (id : ℕ) (g : Global) (proxy : Option ℕ) → h.find id s.bindings ≡ none
        → Fresh b h proxy s
        → Life (graph_registry_global b h id g proxy s)
    removed :
        {s : Impl b h}
        → Life s
        → (id : ℕ) → id ≢ no_id
        → Life (graph_registry_global_remove b h id s)
    informed :
        {s : Impl b h}
        → Life s
        → (id : ℕ) (st : NodeState) (props : Option Props)
        → Life (graph_node_info b h id st props s)
    formatted :
        {s : Impl b h}
        → Life s
        → (id : ℕ) (f : Option (ℤ × ℤ × Bytes)) → Life (graph_node_param b h id f s)
    profiled :
        {s : Impl b h}
        → Life s
        → (os : List (List Profile)) → Life (graph_profiler_profile b h os s)
    asked : {s : Impl b h} → Life s → (name : Bytes) → Life (stats b h name s).0
    stopped : {s : Impl b h} → Life s → Life (stop b h s)

  reconnected :
      (s : Impl b h) (loop context core running : Bool)
      → running ≡ loop
      → (loop ≡ false → (p : ℕ) → s.live p ≡ false)
      → IsAccounted b h s
      → IsAccounted b h
          (record s { loop = loop; context = context; core = core; running = running })
  reconnected s loop context core running same idle v = record {
    no_fault = v.no_fault;
    binding_live = v.binding_live;
    profiler_live = v.profiler_live;
    live_held = v.live_held;
    apart = v.apart;
    once = v.once;
    unknown = v.unknown;
    connected = same;
    idle = idle;
  }

  start-IsAccounted :
      (a : Answers b h) (s : Impl b h) → IsAccounted b h s → IsAccounted b h (start b h a s)
  unfolding start
  start-IsAccounted a s v =
      if_holds (IsAccounted b h) (s.running || not a.has_loop || not a.has_context) s _ (λ e. v)
        λ e.
          let halted : s.running ≡ false = ground (arith, e) in
          let down : s.loop ≡ false = sym v.connected ∙ halted in
          if_holds (IsAccounted b h) (a.has_manager || a.has_core) _ _
            (λ e'. reconnected s true true true true refl (λ x. cc) v)
            (λ e'. reconnected s false false false s.running halted (λ x. v.idle down) v)

  announce-IsAccounted :
      (id : ℕ) (g : Global) (proxy : Option ℕ) (s : Impl b h)
      → s.loop ≡ true
      → h.find id s.bindings ≡ none
      → Fresh b h proxy s
      → IsAccounted b h s
      → IsAccounted b h (graph_registry_global b h id g proxy s)
  unfolding graph_registry_global
  announce-IsAccounted id (node_global props) proxy s up new fresh v =
      bind_node-IsAccounted b h id proxy _ up new fresh (model-IsAccounted b h s _ v)
  announce-IsAccounted id (link_global o i) proxy s up new fresh v = model-IsAccounted b h s _ v
  announce-IsAccounted id profiler_global proxy s up new fresh v =
      if_holds (IsAccounted b h) (is_some s.profiler_proxy) s _ (λ e. v)
        (λ e. bind_profiler-IsAccounted b h id proxy s up (absent_of s.profiler_proxy e) fresh v)
  announce-IsAccounted id other_global proxy s up new fresh v = v

  remove-IsAccounted :
      (id : ℕ) (s : Impl b h)
      → id ≢ no_id
      → IsAccounted b h s
      → IsAccounted b h (graph_registry_global_remove b h id s)
  unfolding graph_registry_global_remove
  remove-IsAccounted id s ne v =
      let v' = model-IsAccounted b h s (remove_link b id (remove_node b id s.model)) v in
      drop_binding-IsAccounted b h id _ (
        if_holds (IsAccounted b h) (id == s.profiler_id) _ _
          (λ e. elim (Option-cases s.profiler_proxy) [
            | inl gone ↦ absurd (ne ((==_iff _ _).0 e ∙ v.unknown gone))
            | inr (p, there) ↦ drop_profiler-IsAccounted b h p _ there v'
          ])
          (λ e. v'))

  stats-IsAccounted :
      (name : Bytes) (s : Impl b h) → IsAccounted b h s → IsAccounted b h (stats b h name s).0
  unfolding stats
  stats-IsAccounted name s v =
      if_holds (λ (r : Impl b h × ProfilerStats). IsAccounted b h r.0) s.running _ _
        (λ e. model-IsAccounted b h s _ v) (λ e. v)

  Life-IsAccounted : {s : Impl b h} → Life s → IsAccounted b h s
  unfolding graph_node_info graph_profiler_profile graph_node_param
  Life-IsAccounted created = new_impl-IsAccounted b h
  Life-IsAccounted (started {s} r a) = start-IsAccounted a s (Life-IsAccounted r)
  Life-IsAccounted (announced {s} r up id g proxy new fresh) =
      announce-IsAccounted id g proxy s up new fresh (Life-IsAccounted r)
  Life-IsAccounted (removed {s} r id ne) = remove-IsAccounted id s ne (Life-IsAccounted r)
  Life-IsAccounted (informed {s} r id st props) = model-IsAccounted b h s _ (Life-IsAccounted r)
  Life-IsAccounted (formatted {s} r id none) = Life-IsAccounted r
  Life-IsAccounted (formatted {s} r id (some (rate, channels, fmt))) =
      model-IsAccounted b h s _ (Life-IsAccounted r)
  Life-IsAccounted (profiled {s} r os) = model-IsAccounted b h s _ (Life-IsAccounted r)
  Life-IsAccounted (asked {s} r name) = stats-IsAccounted name s (Life-IsAccounted r)
  Life-IsAccounted (stopped {s} r) = (stop-IsAccounted b h s (Life-IsAccounted r)).0

  -- In every state of the graph's life: no proxy has been destroyed that did not exist; each one that exists
  -- is the profiler's or bound to a node; and after a stop there is none.
  pub Life-proxies :
      (s : Impl b h)
      → Life s
      → (s.fault ≡ false)
        × ((p : ℕ)
            → s.live p ≡ true
            → (s.profiler_proxy ≡ some p) ⊎ ((id : ℕ) × (h.find id s.bindings ≡ some p)))
        × ((p : ℕ) → (stop b h s).live p ≡ false)
  Life-proxies s r =
      let v = Life-IsAccounted r in (v.no_fault, v.live_held, (stop-IsAccounted b h s v).1)
