-- ===== src/Gui/Watcher.antt =====
-- gui/PipeWireGraph.cpp: the live graph. A proxy is a number that pw_registry_bind answers, none for a null;
-- `live` says which proxies exist, and `fault` that one was destroyed that does not. The requests that go out
-- and the coalesced signal are left out.
use pipeasio.Prelude.{
  ℕ, Bool, true, false, not, ◌||◌, Option, none, some, List, [], ◌∷◌, ◌==◌, if◌then◌else◌, ℤ,
  is_some,
}
use pipeasio.Config.Text.{codes}
use pipeasio.Config.{Bytes}
use pipeasio.Gui.Dialog.{Device}
use pipeasio.Gui.Graph.{
  Graph, cleared, add_node, update_node_props, set_node_state, set_node_format, remove_node,
  add_link, remove_link, profiler_clock, profiler_block, audio_devices, own_node_name,
  own_connections, unconnected, profiler_stats,
}
use pipeasio.Gui.Hash.{Hash}
use pipeasio.Gui.Node.{
  Base, Props, ProfilerClock, ProfilerBlock, ProfilerStats, Connections, no_clock, no_id, no_stats,
}

-- enum pw_node_state
pub data NodeState : Type 0 where
  state_error state_creating state_suspended state_idle state_running : NodeState

abbrev pub node_state_string : NodeState → Bytes
node_state_string state_error = codes "error"
node_state_string state_creating = codes "creating"
node_state_string state_suspended = codes "suspended"
node_state_string state_idle = codes "idle"
node_state_string state_running = codes "running"

-- A global of the registry, with the ends of a link.
pub data Global : Type 0 where
  node_global : Props → Global
  link_global : (out_node in_node : ℕ) → Global
  profiler_global : Global
  other_global : Global

-- A property of a profiler object, none where it does not parse. A block's xruns of 2 ^ 32 - 1 are absent.
pub data Profile : Type 0 where
  info_key : Option ℕ → Profile
  clock_key : Option (ℕ × ℕ × ℕ) → Profile
  block_key : Option (ℕ × ℕ × ℕ × ℕ) → Profile
  other_key : Profile

abbrev with_xruns : Option ℕ → ProfilerClock → ProfilerClock
with_xruns none c = c
with_xruns (some n) c = record c { xrun_count = n }

abbrev with_clock : Option (ℕ × ℕ × ℕ) → ProfilerClock → ProfilerClock
with_clock none c = c
with_clock (some (duration, num, denom)) c = record c {
  duration = duration;
  rate_num = num;
  rate_denom = if denom == 0 then 1 else denom;
  have_clock = true;
}

abbrev block_of : ℕ × ℕ × ℕ × ℕ → ProfilerBlock
block_of (id, awake, finish, xruns) = record {
  id = id;
  awake = awake;
  finish = finish;
  xruns = if xruns == no_id then none else some xruns;
}

module _ (b : Base) (h : Hash ℕ) where
  pub record Impl : Type 0 where
    pub model : Graph b
    pub bindings : h.Table
    pub profiler_proxy : Option ℕ
    pub profiler_id : ℕ
    pub loop : Bool
    pub context : Bool
    pub core : Bool
    pub running : Bool
    pub live : ℕ → Bool
    pub fault : Bool

  abbrev pub new_impl : Impl
  new_impl = record {
    model = cleared b;
    bindings = h.empty;
    profiler_proxy = none;
    profiler_id = no_id;
    loop = false;
    context = false;
    core = false;
    running = false;
    live = λ p. false;
    fault = false;
  }

  abbrev pub bound : ℕ → Impl → Impl
  bound p s = record s { live = λ q. if q == p then true else s.live q }

  -- pw_proxy_destroy
  abbrev pub destroy : ℕ → Impl → Impl
  destroy p s = record s {
    live = λ q. if q == p then false else s.live q;
    fault = s.fault || not (s.live p);
  }

  -- pw_proxy_destroy of a pointer that may be null, which it must not be.
  abbrev pub destroy_pointer : Option ℕ → Impl → Impl
  destroy_pointer none s = record s { fault = true }
  destroy_pointer (some p) s = destroy p s

  unfoldable pub graph_node_info : ℕ → NodeState → Option Props → Impl → Impl
  graph_node_info id st props s =
      let g = set_node_state b id (node_state_string st) s.model in
      record s { model = elim props [ none ↦ g | some p ↦ update_node_props b id p g ] }

  unfoldable pub graph_node_param : ℕ → Option (ℤ × ℤ × Bytes) → Impl → Impl
  graph_node_param id none s = s
  graph_node_param id (some (rate, channels, fmt)) s = record s {
    model = set_node_format b id rate channels fmt s.model;
  }

  -- The properties of one profiler object, with the clock that they fill.
  unfoldable pub profile_object : List Profile → ProfilerClock → Graph b → Graph b
  profile_object [] c g = g
  profile_object (info_key x ∷ ps) c g = profile_object ps (with_xruns x c) g
  profile_object (clock_key x ∷ ps) c g =
      profile_object ps (with_clock x c) (profiler_clock b (with_clock x c) g)
  profile_object (block_key none ∷ ps) c g = profile_object ps c g
  profile_object (block_key (some x) ∷ ps) c g =
      profile_object ps c (profiler_block b (block_of x) g)
  profile_object (other_key ∷ ps) c g = profile_object ps c g

  unfoldable pub profile_objects : List (List Profile) → Graph b → Graph b
  profile_objects [] g = g
  profile_objects (o ∷ os) g = profile_objects os (profile_object o no_clock g)

  unfoldable pub graph_profiler_profile : List (List Profile) → Impl → Impl
  graph_profiler_profile os s = record s { model = profile_objects os s.model }

  abbrev pub bind_node : ℕ → Option ℕ → Impl → Impl
  bind_node id none s = s
  bind_node id (some p) s = bound p (record s { bindings = h.insert id p s.bindings })

  abbrev pub bind_profiler : ℕ → Option ℕ → Impl → Impl
  bind_profiler id none s = s
  bind_profiler id (some p) s = bound p (record s { profiler_proxy = some p; profiler_id = id })

  -- `proxy` is what pw_registry_bind answers.
  unfoldable pub graph_registry_global : ℕ → Global → Option ℕ → Impl → Impl
  graph_registry_global id (node_global props) proxy s =
      bind_node id proxy (record s { model = add_node b id props s.model })
  graph_registry_global id (link_global o i) proxy s = record s {
    model = add_link b id o i s.model;
  }
  graph_registry_global id profiler_global proxy s =
      if is_some s.profiler_proxy then s else bind_profiler id proxy s
  graph_registry_global id other_global proxy s = s

  abbrev pub drop_profiler : Impl → Impl
  drop_profiler s = record (destroy_pointer s.profiler_proxy s) {
    profiler_proxy = none;
    profiler_id = no_id;
  }

  -- bindings.take(id)
  abbrev pub drop_binding : ℕ → Impl → Impl
  drop_binding id s = elim (h.find id s.bindings) [
    | none ↦ s
    | some p ↦ destroy p (record s { bindings = h.remove id s.bindings })
  ]

  unfoldable pub graph_registry_global_remove : ℕ → Impl → Impl
  graph_registry_global_remove id s =
      let s' = record s { model = remove_link b id (remove_node b id s.model) } in
      drop_binding id (if id == s.profiler_id then drop_profiler s' else s')

  -- What PipeWire answers while the connection is made: the loop, the context, a manager's core, a plain one.
  pub record Answers : Type 0 where
    pub has_loop : Bool
    pub has_context : Bool
    pub has_manager : Bool
    pub has_core : Bool

  unfoldable pub start : Answers → Impl → Impl
  start a s =
      if s.running || not a.has_loop || not a.has_context
      then s
      else if a.has_manager || a.has_core
      then record s { loop = true; context = true; core = true; running = true }
      else record s { loop = false; context = false; core = false }

  unfoldable pub destroy_all : List (ℕ × ℕ) → Impl → Impl
  destroy_all [] s = s
  destroy_all ((id, p) ∷ es) s = destroy_all es (destroy p s)

  unfoldable pub without_profiler : Impl → Impl
  without_profiler s = if is_some s.profiler_proxy then drop_profiler s else s

  -- The part of stop behind its first test.
  unfoldable pub released : Impl → Impl
  released s =
      let s1 = record (without_profiler s) { bindings = h.empty } in
      record (destroy_all (h.entries s.bindings) s1) {
        model = cleared b;
        loop = false;
        context = false;
        core = false;
        running = false;
      }

  unfoldable pub stop : Impl → Impl
  stop s = if s.loop then released s else s

  -- The snapshots are empty while nothing runs.
  unfoldable pub devices : Impl → List Device
  devices s = if s.running then audio_devices b s.model else []

  unfoldable pub own_name : Impl → Bytes
  own_name s = if s.running then own_node_name b s.model else []

  unfoldable pub connections : Impl → Connections
  connections s = if s.running then own_connections b s.model else unconnected b

  unfoldable pub stats : Bytes → Impl → Impl × ProfilerStats
  stats name s =
      let r = profiler_stats b name s.model in
      if s.running then (record s { model = r.0 }, r.1) else (s, no_stats)
