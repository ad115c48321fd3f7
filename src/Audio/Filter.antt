-- ===== src/Audio/Filter.antt =====
-- src/audio.c, the filter: activation and teardown, the adoption of our own ports, and the events of
-- the running filter. What PipeWire answers during an activation is given.
use pipeasio.Prelude.{
  ◌%◌, ◌^◌, ℕ, zero, suc, ◌+◌, ◌*◌, Bool, true, false, not, ◌&&◌, Option, none, some, List, [], ◌∷◌,
  ◌++◌, map, ◌==◌, if◌then◌else◌, length, ltb,
}
use pipeasio.Audio.Ports.{short_name}
use pipeasio.Audio.Registry.{GlobalEvent, on_events}
use pipeasio.Audio.{Direction, input, output, CycleBuffer, Port, Client, id_invalid}
use pipeasio.Config.Text.{str_eq}
use pipeasio.Config.{Bytes}

-- The loop over the ports at the end of audio_teardown_filter.
abbrev pub unlink : Port → Port
unlink p = record p { filter_port = false; cycle_buffer = none }

unfoldable pub teardown_filter : Client → Client
teardown_filter c = record c {
  data_loop_running = false;
  filter = false;
  ports = map unlink c.ports;
}

-- How the wait for the filter's node id ends.
pub data Bind : Type 0 where
  bound : ℕ → Bind
  bind_error : Bind
  timed_out : List GlobalEvent → ℕ → Bind

-- PipeWire's answers during one activation; `add_ok i` is for port i, and `round k` holds the
-- registry's events in sync k of the wait for the port ids.
pub record Answers : Type 0 where
  pub props_ok : Bool
  pub filter_ok : Bool
  pub add_ok : ℕ → Bool
  pub connect_ok : Bool
  pub start_ok : Bool
  pub bind : Bind
  pub round : ℕ → List GlobalEvent

-- Ports are added in order until one fails; the flag says whether all were.
unfoldable pub add_ports : (ℕ → Bool) → ℕ → List Port → Bool × List Port
add_ports add_ok i [] = (true, [])
add_ports add_ok i (p ∷ ps) =
    let rest = add_ports add_ok (i + 1) ps in
    if add_ok i then (rest.0, record p { filter_port = true } ∷ rest.1) else (false, p ∷ ps)

-- The first of our ports of that name gets the ids.
unfoldable pub adopt_one : List Port → Bytes → ℕ → ℕ → List Port
adopt_one [] name node port = []
adopt_one (p ∷ ps) name node port =
    if str_eq p.name name
    then record p { node_id = node; port_id = port } ∷ ps
    else p ∷ adopt_one ps name node port

-- The loop over the discovered ports: `kept` is what stays, `own` our ports with their ids.
pub record Adopted : Type 0 where
  pub kept : List Port
  pub own : List Port

unfoldable pub adopt_all : ℕ → List Port → List Port → Adopted
unfolding adopt_one short_name
adopt_all our [] own = record { kept = []; own = own }
adopt_all our (d ∷ ds) own =
    let mine = d.node_id == our in
    let r =
      adopt_all our ds (if mine then adopt_one own (short_name d.name) our d.port_id else own) in
    if mine then r else record r { kept = d ∷ r.kept }

unfoldable pub adopt_own_ports : Client → Client
unfolding adopt_all
adopt_own_ports c =
    if c.our_node_id == id_invalid
    then c
    else let r = adopt_all c.our_node_id c.discovered c.ports in
      record c { discovered = r.kept; ports = r.own }

-- have == c->n_ports
unfoldable pub all_have_ids : List Port → Bool
all_have_ids [] = true
all_have_ids (p ∷ ps) = not (p.port_id == 0) && all_have_ids ps

-- At most `attempts` rounds of sync, adoption and test.
unfoldable pub wait_for_ids : ℕ → (ℕ → List GlobalEvent) → ℕ → Client → Client
unfolding adopt_own_ports all_have_ids on_events
wait_for_ids zero round k c = c
wait_for_ids (suc attempts) round k c =
    let c' = adopt_own_ports (on_events (round k) c) in
    let more = wait_for_ids attempts round (k + 1) c' in if all_have_ids c'.ports then c' else more

abbrev pub set_latency : ℕ → Port → Port
set_latency n p = record p {
  capture_latency = record { low = n; high = n };
  playback_latency = record { low = n; high = n };
}

-- What follows the binding of the node.
unfoldable pub finish_activation : Answers → Client → Bool × Client
unfolding wait_for_ids
finish_activation a c =
    let c' = wait_for_ids 20 a.round 0 c in
    (true, record c' { ports = map (set_latency c'.buffer_size) c'.ports; active = true })

unfoldable pub bind_node : Answers → Bind → Client → Bool × Client
unfolding finish_activation teardown_filter on_events
bind_node a (bound nid) c = finish_activation a (record c { our_node_id = nid })
bind_node a bind_error c = (false, teardown_filter c)
bind_node a (timed_out events nid) c =
    finish_activation a (record (on_events events c) { our_node_id = nid })

unfoldable pub start_filter : Answers → Bool × List Port → Client → Bool × Client
unfolding bind_node teardown_filter
start_filter a (false, ps) c = (false, teardown_filter (record c { ports = ps }))
start_filter a (true, ps) c =
    if a.connect_ok && a.start_ok
    then bind_node a a.bind (record c { ports = ps; data_loop_running = true })
    else (false, teardown_filter (record c { ports = ps }))

unfoldable pub activate : Answers → Client → Bool × Client
unfolding add_ports start_filter teardown_filter
activate a c =
    if c.active
    then (true, c)
    else if length c.ports == 0
    then (false, c)
    else if a.props_ok && a.filter_ok
    then start_filter a (add_ports a.add_ok 0 c.ports) (record c { filter = true })
    else (false, teardown_filter c)

unfoldable pub deactivate : Client → Bool × Client
unfolding teardown_filter
deactivate c =
    if not c.active then (true, c) else (true, record (teardown_filter c) { active = false })

-- `nid` is the filter's node id, the invalid one where there is no filter.
unfoldable pub on_state_changed : ℕ → Client → Client
on_state_changed nid c =
    if not (nid == id_invalid) && c.our_node_id == id_invalid
    then record c { our_node_id = nid }
    else c

-- A position area with the clock rate's denominator; the flag says that the rate callback is called.
unfoldable pub on_io_changed : ℕ → Client → Bool × Client
on_io_changed denom c =
    let new_rate = if denom == 0 then c.sample_rate else denom in
    if not (new_rate == 0) && not (new_rate == c.sample_rate)
    then (c.sample_rate_cb, record c { sample_rate = new_rate })
    else (false, c)

-- struct spa_io_position, as far as it is read.
pub record Position : Type 0 where
  pub nsec : ℕ
  pub duration : ℕ

-- The dequeue loop; `dequeued h` is what PipeWire hands out for port `h`.
abbrev pub dequeue : (ℕ → Option CycleBuffer) → Port → Port
dequeue dequeued p = record p { cycle_buffer = if p.filter_port then dequeued p.handle else none }

-- The chunk of an output's buffer: never more than its mapping.
unfoldable pub publish : ℕ → CycleBuffer → CycleBuffer
publish buffer_size b =
    let out_bytes = buffer_size * 4 % 2 ^ 32 in
    record b {
      chunk_offset = 0;
      chunk_size = if ltb b.maxsize out_bytes then b.maxsize else out_bytes;
      chunk_stride = 4;
      chunk_flags = 0;
    }

abbrev pub queued_buffer : ℕ → Direction → CycleBuffer → CycleBuffer
queued_buffer buffer_size input b = b
queued_buffer buffer_size output b = publish buffer_size b

-- The queue loop for one port: what goes back to the daemon, and the port.
unfoldable pub queue_port : ℕ → Port → List (ℕ × CycleBuffer) × Port
unfolding publish
queue_port buffer_size p =
    if p.filter_port
    then elim p.cycle_buffer [
      | none ↦ ([], p)
      | some b ↦ (
        (p.handle, queued_buffer buffer_size p.direction b) ∷ [],
        record p { cycle_buffer = none },
      )
    ]
    else ([], p)

unfoldable pub queue_ports : ℕ → List Port → List (ℕ × CycleBuffer) × List Port
unfolding queue_port
queue_ports buffer_size [] = ([], [])
queue_ports buffer_size (p ∷ ps) =
    let q = queue_port buffer_size p in
    let rest = queue_ports buffer_size ps in (q.0 ++ rest.0, q.1 ∷ rest.1)

-- The clock of the cycle, and the quantum that is remembered while following a device.
unfoldable pub note_position : Option Position → Client → Client
note_position none c = c
note_position (some p) c = record c {
  last_clock_nsec = p.nsec;
  observed_quantum =
      if c.follow_device && not (p.duration == 0) then p.duration else c.observed_quantum;
}

-- The cycle up to the host's callback; the callback runs on this state, with `buffer_size` frames.
unfoldable pub begin_process : Option Position → (ℕ → Option CycleBuffer) → Client → Client
unfolding note_position
begin_process position dequeued c =
    let c' = note_position position c in record c' { ports = map (dequeue dequeued) c'.ports }

-- The rest of the cycle, behind the callback.
unfoldable pub end_process : Client → List (ℕ × CycleBuffer) × Client
unfolding queue_ports
end_process c = let r = queue_ports c.buffer_size c.ports in (r.0, record c { ports = r.1 })
