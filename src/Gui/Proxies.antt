-- ===== src/Gui/Proxies.antt =====
-- gui/PipeWireGraph.cpp: the proxies that exist are the ones that the graph holds.
use pipeasio.Prelude.{
  ℕ, ◌≡◌, ◌≢◌, refl, Bool, true, false, Option, none, some, List, [], ◌∷◌, ◌==◌, if◌then◌else◌,
  arith, Bool-cases, Option-cases, inl, inr, ◌⊎◌, is_some, ◌∙◌, sym, ap,
}
use pipeasio.Gui.Graph.{Graph}
use pipeasio.Gui.Hash.{Hash, lookup, contains, distinct, keys}
use pipeasio.Gui.Node.{Base, no_id}
use pipeasio.Gui.Watcher.{
  Impl, new_impl, destroy, destroy_all, stop, released, without_profiler, drop_profiler,
  drop_binding, bind_node, bind_profiler,
}

lookup-absent :
    {V : Type 0} (k : ℕ) (es : List (ℕ × V)) → contains k (keys es) ≡ false → lookup k es ≡ none
unfolding lookup
lookup-absent k [] h = refl
lookup-absent k ((j, v) ∷ es) h = ground (arith, lookup-absent k es)

-- What holds of both branches of a test.
pub if_holds :
    {A : Type 0} (P : A → Type 0) (c : Bool) (x y : A)
    → (c ≡ true → P x)
    → (c ≡ false → P y)
    → P (if c then x else y)
if_holds P true x y p q = p refl
if_holds P false x y p q = q refl

module _ (b : Base) (h : Hash ℕ) where
  -- Every proxy that is held exists, and is held in one place; every proxy that exists is held; none has been
  -- destroyed that did not exist; and nothing is held while nothing runs.
  pub record IsAccounted (s : Impl b h) : Type 0 where
    pub no_fault : s.fault ≡ false
    pub binding_live : (id p : ℕ) → h.find id s.bindings ≡ some p → s.live p ≡ true
    pub profiler_live : (p : ℕ) → s.profiler_proxy ≡ some p → s.live p ≡ true
    pub live_held :
        (p : ℕ)
        → s.live p ≡ true
        → (s.profiler_proxy ≡ some p) ⊎ ((id : ℕ) × (h.find id s.bindings ≡ some p))
    pub apart : (id p : ℕ) → h.find id s.bindings ≡ some p → s.profiler_proxy ≢ some p
    pub once : (i j p : ℕ) → h.find i s.bindings ≡ some p → h.find j s.bindings ≡ some p → i ≡ j
    pub unknown : s.profiler_proxy ≡ none → s.profiler_id ≡ no_id
    pub connected : s.running ≡ s.loop
    pub idle : s.loop ≡ false → (p : ℕ) → s.live p ≡ false

  pub new_impl-IsAccounted : IsAccounted (new_impl b h)
  new_impl-IsAccounted = record {
    no_fault = refl;
    binding_live = λ id p e. cc (h.find-empty id);
    profiler_live = λ p e. cc;
    live_held = λ p e. cc;
    apart = λ id p e x. cc;
    once = λ i j p e f. cc (h.find-empty i);
    unknown = λ e. refl;
    connected = refl;
    idle = λ e p. refl;
  }

  -- The model has no part in this.
  pub model-IsAccounted :
      (s : Impl b h) (g : Graph b) → IsAccounted s → IsAccounted (record s { model = g })
  model-IsAccounted s g v = record {
    no_fault = v.no_fault;
    binding_live = v.binding_live;
    profiler_live = v.profiler_live;
    live_held = v.live_held;
    apart = v.apart;
    once = v.once;
    unknown = v.unknown;
    connected = v.connected;
    idle = v.idle;
  }

  abbrev pub Fresh : Option ℕ → Impl b h → Type 0
  Fresh proxy s = (p : ℕ) → proxy ≡ some p → s.live p ≡ false

  pub bind_node-IsAccounted :
      (id : ℕ) (proxy : Option ℕ) (s : Impl b h)
      → s.loop ≡ true
      → h.find id s.bindings ≡ none
      → Fresh proxy s
      → IsAccounted s
      → IsAccounted (bind_node b h id proxy s)
  bind_node-IsAccounted id none s up new fresh v = v
  bind_node-IsAccounted id (some p) s up new fresh v = record {
    no_fault = v.no_fault;
    binding_live = λ j q e. ground (arith, h.find-insert j id p s.bindings, v.binding_live j q, e);
    profiler_live = λ q e. ground (arith, v.profiler_live q e);
    live_held = λ q e. elim (Bool-cases (q == p)) [
      | inl same ↦ inr (id, ground (arith, same, h.find-insert id id p s.bindings))
      | inr other ↦ elim (v.live_held q (ground (arith, other, e))) [
        | inl x ↦ inl x
        | inr (j, f) ↦ inr (j, ground (arith, f, new, h.find-insert j id p s.bindings))
      ]
    ];
    apart = λ j q e x. ground (
      arith,
      h.find-insert j id p s.bindings,
      v.apart j q,
      v.profiler_live p,
      fresh p refl,
      e,
      x,
    );
    once = λ i j q e f. ground (
      arith,
      h.find-insert i id p s.bindings,
      h.find-insert j id p s.bindings,
      v.once i j q,
      v.binding_live i q,
      v.binding_live j q,
      fresh p refl,
      e,
      f,
    );
    unknown = v.unknown;
    connected = v.connected;
    idle = λ e q. cc;
  }

  pub bind_profiler-IsAccounted :
      (id : ℕ) (proxy : Option ℕ) (s : Impl b h)
      → s.loop ≡ true
      → s.profiler_proxy ≡ none
      → Fresh proxy s
      → IsAccounted s
      → IsAccounted (bind_profiler b h id proxy s)
  bind_profiler-IsAccounted id none s up absent fresh v = v
  bind_profiler-IsAccounted id (some p) s up absent fresh v = record {
    no_fault = v.no_fault;
    binding_live = λ j q e. ground (arith, v.binding_live j q e);
    profiler_live = λ q e. ground (arith, e);
    live_held = λ q e. elim (Bool-cases (q == p)) [
      | inl same ↦ inl (ground (arith, same))
      | inr other ↦ elim (v.live_held q (ground (arith, other, e))) [ inl x ↦ cc | inr x ↦ inr x ]
    ];
    apart = λ j q e x. ground (arith, v.binding_live j q e, fresh p refl, x);
    once = v.once;
    unknown = λ e. cc;
    connected = v.connected;
    idle = λ e q. cc;
  }

  pub drop_binding-IsAccounted :
      (id : ℕ) (s : Impl b h) → IsAccounted s → IsAccounted (drop_binding b h id s)
  drop_binding-IsAccounted id s v = elim (Option-cases (h.find id s.bindings)) [
    | inl e ↦ rw (e, drop_binding) v
    | inr (p, e) ↦
        rw (e, drop_binding)
          (record {
            no_fault = ground (arith, v.no_fault, v.binding_live id p e);
            binding_live = λ j q f.
                ground
                  (arith, h.find-remove j id s.bindings, v.binding_live j q, v.once j id p, e, f);
            profiler_live = λ q f. ground (arith, v.profiler_live q f, v.apart id p e, f);
            live_held = λ q f. elim (v.live_held q (ground (arith, f))) [
              | inl x ↦ inl x
              | inr (j, g) ↦ inr (j, ground (arith, f, e, g, h.find-remove j id s.bindings))
            ];
            apart = λ j q f x. ground (arith, h.find-remove j id s.bindings, v.apart j q, f, x);
            once = λ i j q f g. ground (
              arith,
              h.find-remove i id s.bindings,
              h.find-remove j id s.bindings,
              v.once i j q,
              f,
              g,
            );
            unknown = v.unknown;
            connected = v.connected;
            idle = λ f q. ground (arith, v.idle f q);
          })
  ]

  pub drop_profiler-IsAccounted :
      (p : ℕ) (s : Impl b h)
      → s.profiler_proxy ≡ some p
      → IsAccounted s
      → IsAccounted (drop_profiler b h s)
  drop_profiler-IsAccounted p s e v = rw e (record {
    no_fault = ground (arith, v.no_fault, v.profiler_live p e);
    binding_live = λ j q f. ground (arith, v.binding_live j q f, v.apart j q f, e);
    profiler_live = λ q f. cc;
    live_held = λ q f. elim (v.live_held q (ground (arith, f))) [
      | inl x ↦ absurd (ground (arith, f, e, x))
      | inr x ↦ inr x
    ];
    apart = λ j q f x. cc;
    once = v.once;
    unknown = λ f. refl;
    connected = v.connected;
    idle = λ f q. ground (arith, v.idle f q);
  })

  -- What the loop over the bindings leaves.
  destroy_all-live :
      (es : List (ℕ × ℕ)) (s : Impl b h)
      → distinct (keys es) ≡ true
      → ((id p : ℕ) → lookup id es ≡ some p → s.live p ≡ true)
      → ((i j p : ℕ) → lookup i es ≡ some p → lookup j es ≡ some p → i ≡ j)
      → s.fault ≡ false
      → ((destroy_all b h es s).fault ≡ false)
        × ((p : ℕ)
            → (destroy_all b h es s).live p ≡ true
            → (s.live p ≡ true) × ((id : ℕ) → lookup id es ≢ some p))
  unfolding destroy_all lookup
  destroy_all-live [] s d l o f = (f, λ p e. (e, λ id x. cc))
  destroy_all-live ((k, q) ∷ es) s d l o f =
      let absent : lookup k es ≡ none = lookup-absent k es (ground (arith, d)) in
      let first : s.live q ≡ true = l k q (ground arith) in
      let rest =
        destroy_all-live es (destroy b h q s) (ground (arith, d))
          (λ id p e. ground (arith, e, absent, l id p, o id k p))
          (λ i j p e g. ground (arith, e, g, absent, o i j p)) (ground (arith, f, first)) in
      (
        rest.0,
        λ p e.
            let r = rest.1 p e in
            (
              ground (arith, r.0),
              λ id x. elim (Bool-cases (id == k)) [
                | inl same ↦ absurd (ground (arith, r.0, x, same))
                | inr other ↦ r.1 id (ground (arith, x, other))
              ],
            ),
      )

  destroy_all-rest :
      (es : List (ℕ × ℕ)) (s : Impl b h)
      → ((destroy_all b h es s).bindings ≡ s.bindings)
        × ((destroy_all b h es s).profiler_proxy ≡ s.profiler_proxy)
        × ((destroy_all b h es s).profiler_id ≡ s.profiler_id)
  unfolding destroy_all
  destroy_all-rest [] s = (refl, refl, refl)
  destroy_all-rest ((k, q) ∷ es) s = destroy_all-rest es (destroy b h q s)

  -- With the profiler's proxy gone, the loop destroys all the others.
  destroy_all-none_live :
      (s : Impl b h) (t : h.Table)
      → s.bindings ≡ t
      → s.profiler_proxy ≡ none
      → IsAccounted s
      → let s' = destroy_all b h (h.entries t) (record s { bindings = h.empty }) in
        (s'.fault ≡ false) × ((p : ℕ) → s'.live p ≡ false)
  destroy_all-none_live s t same e v =
      let es = h.entries t in
      let bare = record s { bindings = h.empty } in
      let held = λ (id : ℕ). ap (h.find id) same ∙ sym (h.lookup-entries id t) in
      let r =
        destroy_all-live es bare (h.entries-distinct t)
          (λ id p x. v.binding_live id p (held id ∙ x))
          (λ i j p x y. v.once i j p (held i ∙ x) (held j ∙ y)) v.no_fault in
      (
        r.0,
        λ p. elim (Bool-cases ((destroy_all b h es bare).live p)) [
          | inr dead ↦ dead
          | inl x ↦ elim (v.live_held p (r.1 p x).0) [
            | inl y ↦ cc
            | inr (id, y) ↦ absurd ((r.1 p x).1 id (sym (held id) ∙ y))
          ]
        ],
      )

  without_profiler-IsAccounted :
      (s : Impl b h)
      → IsAccounted s
      → IsAccounted (without_profiler b h s)
        × ((without_profiler b h s).profiler_proxy ≡ none)
        × ((without_profiler b h s).profiler_id ≡ no_id)
        × ((without_profiler b h s).bindings ≡ s.bindings)
  unfolding without_profiler
  without_profiler-IsAccounted s v = elim (Option-cases s.profiler_proxy) [
    | inl e ↦
        (let absent : is_some s.profiler_proxy ≡ false = ap is_some e in
          rw absent (v, e, v.unknown e, refl))
    | inr (p, e) ↦
        (let there : is_some s.profiler_proxy ≡ true = ap is_some e in
          rw there (drop_profiler-IsAccounted p s e v, refl, refl, ground (arith, e)))
  ]

  released-IsAccounted :
      (s : Impl b h)
      → IsAccounted s
      → IsAccounted (released b h s) × ((p : ℕ) → (released b h s).live p ≡ false)
  unfolding released
  released-IsAccounted s v =
      let q = without_profiler-IsAccounted s v in
      let z = destroy_all-none_live (without_profiler b h s) s.bindings q.3 q.1 q.0 in
      let rest =
        destroy_all-rest (h.entries s.bindings)
          (record (without_profiler b h s) { bindings = h.empty }) in
      let unbound : (id : ℕ) → h.find id (released b h s).bindings ≡ none =
        λ id. ap (h.find id) rest.0 ∙ h.find-empty id in
      (
        record {
          no_fault = z.0;
          binding_live = λ id p e. cc (unbound id);
          profiler_live = λ p e. cc (rest.1, q.1);
          live_held = λ p e. cc (z.1 p);
          apart = λ id p e x. cc (unbound id);
          once = λ i j p e f. cc (unbound i);
          unknown = λ e. rest.2 ∙ q.2;
          connected = refl;
          idle = λ e p. z.1 p;
        },
        z.1,
      )

  pub stop-IsAccounted :
      (s : Impl b h)
      → IsAccounted s
      → IsAccounted (stop b h s) × ((p : ℕ) → (stop b h s).live p ≡ false)
  unfolding stop
  stop-IsAccounted s v =
      if_holds (λ u. IsAccounted u × ((p : ℕ) → u.live p ≡ false)) s.loop (released b h s) s
        (λ up. released-IsAccounted s v) (λ down. (v, v.idle down))
