-- ===== src/Audio/Activation.antt =====
-- src/audio.c: what an activation comes to, whatever PipeWire answers.
use pipeasio.Prelude.{
  ℕ, ◌+◌, ◌≡◌, refl, ◌∙◌, ◌⊎◌, inl, inr, Bool, true, false, ◌&&◌, List, [], ◌∷◌, map, arith, ◌==◌,
  Bool-cases, All, length,
}
use pipeasio.Audio.Filter.{
  Answers, Bind, bound, bind_error, timed_out, activate, deactivate, add_ports, wait_for_ids,
  set_latency, finish_activation, bind_node, start_filter, teardown_filter, unlink,
}
use pipeasio.Audio.Registry.{on_events}
use pipeasio.Audio.Steady.{IsSteady, View, All-views, wait_for_ids-IsSteady, on_events-IsSteady}
use pipeasio.Audio.{Port, Client}

abbrev pub AreLinked : List Port → Type 0
AreLinked ps = All (λ (p : Port). p.filter_port ≡ true) ps

-- No filter: nothing is active and no port is linked to one.
pub record IsIdle (c : Client) : Type 0 where
  pub inactive : c.active ≡ false
  pub no_filter : c.filter ≡ false
  pub stopped : c.data_loop_running ≡ false
  pub unlinked : All (λ (p : Port). p.filter_port ≡ false) c.ports

-- The filter runs on `n` frames: every port is linked to it and reports its latency.
pub record IsServing (n : ℕ) (c : Client) : Type 0 where
  pub active : c.active ≡ true
  pub filter : c.filter ≡ true
  pub running : c.data_loop_running ≡ true
  pub frames : c.buffer_size ≡ n
  pub linked : AreLinked c.ports
  pub latency :
      All (λ (p : Port). (p.capture_latency.high ≡ n) × (p.playback_latency.high ≡ n)) c.ports

unlink-All : (ps : List Port) → All (λ (p : Port). p.filter_port ≡ false) (map unlink ps)
unlink-All [] = tt
unlink-All (p ∷ ps) = (refl, unlink-All ps)

set_latency-linked : (n : ℕ) (ps : List Port) → AreLinked ps → AreLinked (map (set_latency n) ps)
set_latency-linked n [] h = h
set_latency-linked n (p ∷ ps) h = (h.0, set_latency-linked n ps h.1)

set_latency-latency :
    (n m : ℕ) (ps : List Port)
    → m ≡ n
    → All
        (λ (p : Port). (p.capture_latency.high ≡ n) × (p.playback_latency.high ≡ n))
        (map (set_latency m) ps)
set_latency-latency n m [] e = tt
set_latency-latency n m (p ∷ ps) e = ((e, e), set_latency-latency n m ps e)

add_ports-linked :
    (ok : ℕ → Bool) (i : ℕ) (ps : List Port)
    → (add_ports ok i ps).0 ≡ true
    → AreLinked (add_ports ok i ps).1
unfolding add_ports
add_ports-linked ok i [] e = tt
add_ports-linked ok i (p ∷ ps) e = ground (arith, add_ports-linked ok (i + 1) ps)

teardown_filter-IsIdle : (c : Client) → c.active ≡ false → IsIdle (teardown_filter c)
unfolding teardown_filter
teardown_filter-IsIdle c e = record {
  inactive = e;
  no_filter = refl;
  stopped = refl;
  unlinked = unlink-All c.ports;
}

-- An activation ends with the filter running, or with an error and no filter.
abbrev pub Outcome : ℕ → Bool × Client → Type 0
Outcome n r = ((r.0 ≡ true) × IsServing n r.1) ⊎ ((r.0 ≡ false) × IsIdle r.1)

-- The filter is up, and its node not yet bound.
record IsStarted (n : ℕ) (c : Client) : Type 0 where
  inactive : c.active ≡ false
  filter : c.filter ≡ true
  running : c.data_loop_running ≡ true
  frames : c.buffer_size ≡ n
  linked : AreLinked c.ports

steady-IsStarted : (n : ℕ) (c d : Client) → IsSteady c d → IsStarted n c → IsStarted n d
steady-IsStarted n c d s h = record {
  inactive = s.switch ∙ h.inactive;
  filter = s.filters ∙ h.filter;
  running = s.running ∙ h.running;
  frames = s.frames ∙ h.frames;
  linked = All-views (λ (v : View). v.0 ≡ true) c.ports d.ports s.seen h.linked;
}

finish_activation-Outcome :
    (n : ℕ) (a : Answers) (c : Client) → IsStarted n c → Outcome n (finish_activation a c)
unfolding finish_activation
finish_activation-Outcome n a c h =
    let c' = wait_for_ids 20 a.round 0 c in
    let h' : IsStarted n c' = steady-IsStarted n c c' (wait_for_ids-IsSteady 20 a.round 0 c) h in
    inl (
      refl,
      record {
        active = refl;
        filter = h'.filter;
        running = h'.running;
        frames = h'.frames;
        linked = set_latency-linked c'.buffer_size c'.ports h'.linked;
        latency = set_latency-latency n c'.buffer_size c'.ports h'.frames;
      },
    )

rebind-IsStarted :
    (n nid : ℕ) (c : Client) → IsStarted n c → IsStarted n (record c { our_node_id = nid })
rebind-IsStarted n nid c h = record {
  inactive = h.inactive;
  filter = h.filter;
  running = h.running;
  frames = h.frames;
  linked = h.linked;
}

bind_node-Outcome :
    (n : ℕ) (a : Answers) (b : Bind) (c : Client) → IsStarted n c → Outcome n (bind_node a b c)
unfolding bind_node
bind_node-Outcome n a (bound nid) c h =
    finish_activation-Outcome n a (record c { our_node_id = nid }) (rebind-IsStarted n nid c h)
bind_node-Outcome n a bind_error c h = inr (refl, teardown_filter-IsIdle c h.inactive)
bind_node-Outcome n a (timed_out events nid) c h =
    let c' = on_events events c in
    finish_activation-Outcome n a (record c' { our_node_id = nid })
      (rebind-IsStarted n nid c' (steady-IsStarted n c c' (on_events-IsSteady events c) h))

start_filter-Outcome :
    (n : ℕ) (a : Answers) (r : Bool × List Port) (c : Client)
    → c.active ≡ false
    → c.filter ≡ true
    → c.buffer_size ≡ n
    → (r.0 ≡ true → AreLinked r.1)
    → Outcome n (start_filter a r c)
unfolding start_filter
start_filter-Outcome n a (false, ps) c h f e l =
    inr (refl, teardown_filter-IsIdle (record c { ports = ps }) h)
start_filter-Outcome n a (true, ps) c h f e l = elim (Bool-cases (a.connect_ok && a.start_ok)) [
  | inr g ↦ rw g (inr (refl, teardown_filter-IsIdle (record c { ports = ps }) h))
  | inl g ↦ rw g (
      bind_node-Outcome n a a.bind _
        (record { inactive = h; filter = f; running = refl; frames = e; linked = l refl }))
]

-- From an idle client, whatever PipeWire answers, an activation reports success and the filter runs:
-- every port is linked to it and reports the buffer size as its latency; or it reports failure
-- and the client is idle again.
pub activate-Outcome : (a : Answers) (c : Client) → IsIdle c → Outcome c.buffer_size (activate a c)
unfolding activate
activate-Outcome a c h = elim (Bool-cases (length c.ports == 0)) [
  | inl e ↦ simp (h.inactive, e) (inr (refl, h))
  | inr e ↦ elim (Bool-cases (a.props_ok && a.filter_ok)) [
    | inr f ↦
        simp (h.inactive, e, f)
          (inr (refl, teardown_filter-IsIdle (record c { active = false }) refl))
    | inl f ↦
        simp (h.inactive, e, f)
          (start_filter-Outcome c.buffer_size a (add_ports a.add_ok 0 c.ports)
            (record c { active = false; filter = true }) refl refl refl
            (add_ports-linked a.add_ok 0 c.ports))
  ]
]

-- Deactivation undoes an activation that has succeeded, and leaves an idle client idle.
pub deactivate-IsIdle :
    (n : ℕ) (c : Client)
    → IsIdle c ⊎ IsServing n c
    → ((deactivate c).0 ≡ true) × IsIdle (deactivate c).1
unfolding deactivate teardown_filter
deactivate-IsIdle n c (inl h) = simp h.inactive (refl, h)
deactivate-IsIdle n c (inr h) = simp h.active (
  refl,
  record { inactive = refl; no_filter = refl; stopped = refl; unlinked = unlink-All c.ports },
)

-- A change that leaves the filter's side of a client keeps it running, or idle.
pub steady-IsServing : (n : ℕ) (c d : Client) → IsSteady c d → IsServing n c → IsServing n d
steady-IsServing n c d s h = record {
  active = s.switch ∙ h.active;
  filter = s.filters ∙ h.filter;
  running = s.running ∙ h.running;
  frames = s.frames ∙ h.frames;
  linked = All-views (λ (v : View). v.0 ≡ true) c.ports d.ports s.seen h.linked;
  latency =
      All-views (λ (v : View). (v.1.high ≡ n) × (v.2.high ≡ n)) c.ports d.ports s.seen h.latency;
}

pub steady-IsIdle : (c d : Client) → IsSteady c d → IsIdle c → IsIdle d
steady-IsIdle c d s h = record {
  inactive = s.switch ∙ h.inactive;
  no_filter = s.filters ∙ h.no_filter;
  stopped = s.running ∙ h.stopped;
  unlinked = All-views (λ (v : View). v.0 ≡ false) c.ports d.ports s.seen h.unlinked;
}
