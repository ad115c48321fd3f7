-- ===== src/Audio/Steady.antt =====
-- What the registry and the adoption of the port ids leave of a client: its switches, its buffer size
-- and the filter bits of its own ports.
use pipeasio.Prelude.{
  ℕ, zero, suc, ◌+◌, ◌≡◌, refl, ◌∙◌, inl, inr, Bool, ◌&&◌, List, [], ◌∷◌, arith, ◌==◌, Option-cases,
  Bool-cases, is_some, All,
}
use pipeasio.Audio.Cases.{AddsPort, PortEffect, cache_node_cases, cache_port_cases}
use pipeasio.Audio.Filter.{adopt_one, adopt_all, adopt_own_ports, all_have_ids, wait_for_ids}
use pipeasio.Audio.Ports.{short_name}
use pipeasio.Audio.Registry.{
  Props, GlobalEvent, global, global_remove, node_type, port_type, metadata_type, other_type,
  cache_node, cache_metadata, memo_lookup, on_registry_global_remove, on_event, on_events, backfill,
  on_registry_global, metadata_name,
}
use pipeasio.Audio.{Port, Client, LatencyRange, id_invalid}
use pipeasio.Config.{Bytes}

-- What the filter has done to a port.
abbrev pub View : Type 0
View = Bool × LatencyRange × LatencyRange

abbrev pub view : Port → View
view p = (p.filter_port, p.capture_latency, p.playback_latency)

abbrev pub views : List Port → List View
views [] = []
views (p ∷ ps) = view p ∷ views ps

-- What a registry event leaves of a client.
pub record IsSteady (c d : Client) : Type 0 where
  pub switch : d.active ≡ c.active
  pub filters : d.filter ≡ c.filter
  pub running : d.data_loop_running ≡ c.data_loop_running
  pub frames : d.buffer_size ≡ c.buffer_size
  pub seen : views d.ports ≡ views c.ports

pub same : (c : Client) → IsSteady c c
same c = record { switch = refl; filters = refl; running = refl; frames = refl; seen = refl }

pub chain : (a b c : Client) → IsSteady a b → IsSteady b c → IsSteady a c
chain a b c s t = record {
  switch = t.switch ∙ s.switch;
  filters = t.filters ∙ s.filters;
  running = t.running ∙ s.running;
  frames = t.frames ∙ s.frames;
  seen = t.seen ∙ s.seen;
}

-- A property of the views passes on to ports that look the same.
pub All-views :
    (Q : View → Type 0) (ps qs : List Port)
    → views qs ≡ views ps
    → All (λ (p : Port). Q (view p)) ps
    → All (λ (p : Port). Q (view p)) qs
All-views Q [] [] e h = tt
All-views Q [] (q ∷ qs) e h = absurd cc
All-views Q (p ∷ ps) [] e h = absurd cc
All-views Q (p ∷ ps) (q ∷ qs) e h =
    let same_head : view q ≡ view p = cc in
    let same_tail : views qs ≡ views ps = cc in (rw same_head h.0, All-views Q ps qs same_tail h.1)

views-backfill :
    (ps : List Port) (name : Bytes) (node port : ℕ) → views (backfill ps name node port) ≡ views ps
unfolding backfill
views-backfill [] name node port = refl
views-backfill (p ∷ ps) name node port = ground (arith, views-backfill ps name node port)

views-adopt_one :
    (ps : List Port) (name : Bytes) (node port : ℕ) → views (adopt_one ps name node port) ≡ views ps
unfolding adopt_one
views-adopt_one [] name node port = refl
views-adopt_one (p ∷ ps) name node port = ground (arith, views-adopt_one ps name node port)

views-adopt_all : (our : ℕ) (ds own : List Port) → views (adopt_all our ds own).own ≡ views own
unfolding adopt_all
views-adopt_all our [] own = refl
views-adopt_all our (d ∷ ds) own = elim (Bool-cases (d.node_id == our)) [
  | inl e ↦ rw e (
      views-adopt_all our ds (adopt_one own (short_name d.name) our d.port_id)
      ∙ views-adopt_one own (short_name d.name) our d.port_id)
  | inr e ↦ rw e (views-adopt_all our ds own)
]

AddsPort-IsSteady : (c d : Client) → AddsPort c d → IsSteady c d
AddsPort-IsSteady c d (inl e) = rw e (same c)
AddsPort-IsSteady c d (inr (p, e)) =
    rw e (record { switch = refl; filters = refl; running = refl; frames = refl; seen = refl })

memo_lookup-IsSteady : (id : ℕ) (c : Client) → IsSteady c (memo_lookup id c).1
unfolding memo_lookup
memo_lookup-IsSteady id c = elim (Bool-cases (is_some c.memo_node && c.memo_node_id == id)) [
  | inl e ↦ rw e (same c)
  | inr e ↦
      rw e (record { switch = refl; filters = refl; running = refl; frames = refl; seen = refl })
]

PortEffect-IsSteady : (c d : Client) → PortEffect c d → IsSteady c d
PortEffect-IsSteady c d (inl e) = rw e (same c)
PortEffect-IsSteady c d (inr (inl (name, node, id, e))) = rw e (record {
  switch = refl;
  filters = refl;
  running = refl;
  frames = refl;
  seen = views-backfill c.ports name node id;
})
PortEffect-IsSteady c d (inr (inr (node, a))) =
    chain c (memo_lookup node c).1 d (memo_lookup-IsSteady node c)
      (AddsPort-IsSteady (memo_lookup node c).1 d a)

cache_node-IsSteady :
    (alloc : Bool) (id : ℕ) (props : Props) (c : Client) → IsSteady c (cache_node alloc id props c)
cache_node-IsSteady alloc id props c = elim (cache_node_cases alloc id props c) [
  | inl e ↦ rw e (same c)
  | inr (n, _, _, e) ↦
      rw e (record { switch = refl; filters = refl; running = refl; frames = refl; seen = refl })
]

cache_metadata-IsSteady :
    (bind_ok : Bool) (props : Props) (c : Client) → IsSteady c (cache_metadata bind_ok props c)
unfolding cache_metadata
cache_metadata-IsSteady bind_ok props c = elim (Option-cases (props metadata_name)) [
  | inl e ↦ rw (e, cache_metadata) (same c)
  | inr (name, e) ↦ rw (e, cache_metadata) (ground arith)
]

remove-IsSteady : (id : ℕ) (c : Client) → IsSteady c (on_registry_global_remove id c)
unfolding on_registry_global_remove
remove-IsSteady id c = ground arith

on_event-IsSteady : (e : GlobalEvent) (c : Client) → IsSteady c (on_event e c)
unfolding on_event on_registry_global
on_event-IsSteady (global alloc id node_type props) c = cache_node-IsSteady alloc id props c
on_event-IsSteady (global alloc id port_type props) c =
    PortEffect-IsSteady c _ (cache_port_cases alloc id props c)
on_event-IsSteady (global alloc id metadata_type props) c = cache_metadata-IsSteady alloc props c
on_event-IsSteady (global alloc id other_type props) c = same c
on_event-IsSteady (global_remove id) c = remove-IsSteady id c

pub on_events-IsSteady : (es : List GlobalEvent) (c : Client) → IsSteady c (on_events es c)
unfolding on_events
on_events-IsSteady [] c = same c
on_events-IsSteady (e ∷ es) c =
    chain c (on_event e c) _ (on_event-IsSteady e c) (on_events-IsSteady es (on_event e c))

adopt_own_ports-IsSteady : (c : Client) → IsSteady c (adopt_own_ports c)
unfolding adopt_own_ports
adopt_own_ports-IsSteady c = elim (Bool-cases (c.our_node_id == id_invalid)) [
  | inl e ↦ rw e (same c)
  | inr e ↦ rw e (record {
    switch = refl;
    filters = refl;
    running = refl;
    frames = refl;
    seen = views-adopt_all c.our_node_id c.discovered c.ports;
  })
]

pub wait_for_ids-IsSteady :
    (attempts : ℕ) (round : ℕ → List GlobalEvent) (k : ℕ) (c : Client)
    → IsSteady c (wait_for_ids attempts round k c)
unfolding wait_for_ids
wait_for_ids-IsSteady zero round k c = same c
wait_for_ids-IsSteady (suc attempts) round k c =
    let d = on_events (round k) c in
    let c' = adopt_own_ports d in
    let first : IsSteady c c' =
      chain c d c' (on_events-IsSteady (round k) c) (adopt_own_ports-IsSteady d) in
    elim (Bool-cases (all_have_ids c'.ports)) [
      | inl e ↦ rw e first
      | inr e ↦ rw e (chain c c' _ first (wait_for_ids-IsSteady attempts round (k + 1) c'))
    ]
