-- ===== src/Driver/Init.antt =====
-- src/asio.c: Init and Release; src/audio.c: audio_open and audio_close as far as they are state.
use pipeasio.Prelude.{
  ℕ, zero, suc, ◌+◌, ◌-◌, Bool, true, false, Option, none, some, List, [], ◌∷◌, ◌++◌, ◌==◌,
  if◌then◌else◌, ℤ, pos,
}
use pipeasio.Audio.Ports.{get_ports, port_register, port_unregister}
use pipeasio.Audio.Registry.{GlobalEvent, on_events, on_metadata_property}
use pipeasio.Audio.{
  Client, opened, port_is_input, port_is_output, port_is_physical, set_buffer_size_callback,
  set_latency_callback, set_process_callback, set_sample_rate_callback,
}
use pipeasio.Config.Number.{print_int}
use pipeasio.Config.Text.{codes, copy_str}
use pipeasio.Config.{Bytes, Config}
use pipeasio.Driver.Buffers.{push_settings, dispose_buffers, map_client}
use pipeasio.Driver.Configure.{Environment, configure_driver}
use pipeasio.Driver.Queries.{forced_size}
use pipeasio.Driver.Transport.{stop, is_running}
use pipeasio.Driver.{Driver, IoChannel, DriverState, initialized, prepared, max_name_length}

-- What the outside answers during one Init: the configuration that was loaded, the environment,
-- whether PipeWire is there with its first registry events and metadata, and the allocations.
pub record InitAnswers : Type 0 where
  pub config : Config
  pub environment : Environment
  pub pipewire : Bool
  pub events : List GlobalEvent
  pub metadata : List (Option Bytes × Option Bytes)
  pub channels_memory : Bool
  pub ports_memory : Bool
  pub port_memory : ℕ → Bool

unfoldable pub on_metadata : List (Option Bytes × Option Bytes) → Client → Client
unfolding on_metadata_property
on_metadata [] c = c
on_metadata ((key, value) ∷ ps) c = on_metadata ps (on_metadata_property key value c)

-- A channel's port is registered under the prefix and its number, from 1 on.
unfoldable pub register_channels : (ℕ → Bool) → Bytes → ℕ → ℕ → ℕ → Client → List IoChannel × Client
unfolding print_int copy_str port_register
register_channels alloc prefix flags i zero c = ([], c)
register_channels alloc prefix flags i (suc count) c =
    let name = copy_str max_name_length (prefix ++ print_int (pos (i + 1))) in
    let r = port_register (alloc i) name flags c in
    let rest = register_channels alloc prefix flags (i + 1) count r.1 in
    (record { audio_buffer = none; port_name = name; port = r.0; active = false } ∷ rest.0, rest.1)

-- The size that is reported before CreateBuffers.
abbrev pub first_size : Driver → ℤ
first_size d = forced_size d.follow_device_clock d.follower_quantum d.preferred_buffersize

abbrev pub set_callbacks : Client → Client
set_callbacks c =
    set_sample_rate_callback
      (set_process_callback (set_latency_callback (set_buffer_size_callback c)))

abbrev pub register_ports : InitAnswers → Driver → Client → Driver
register_ports a d c =
    let ins = register_channels a.port_memory (codes "in_") port_is_input 0 d.number_inputs c in
    let outs =
      register_channels (λ i. a.port_memory (d.number_inputs + i)) (codes "out_") port_is_output 0
        d.number_outputs ins.1 in
    record d {
      client = some (set_callbacks outs.1);
      phys_inputs = get_ports a.ports_memory (port_is_physical + port_is_output) c;
      phys_outputs = get_ports a.ports_memory (port_is_physical + port_is_input) c;
      input_channels = ins.0;
      output_channels = outs.0;
      state = initialized;
    }

-- The audio client is there; it is closed again where the channels' memory is not.
abbrev pub with_client : InitAnswers → Driver → Option Client → Bool × Driver
with_client a d none = (false, d)
with_client a d (some c) =
    let d' = record d { sample_rate = c.sample_rate; current_buffersize = first_size d } in
    if a.channels_memory
    then (true, register_ports a d' c)
    else (false, record d' { client = none })

unfoldable pub init : InitAnswers → Driver → Bool × Driver
unfolding configure_driver opened on_events on_metadata register_channels forced_size get_ports
init a d =
    let d' = configure_driver a.config a.environment d in
    let c = on_metadata a.metadata (on_events a.events (opened d'.client_name)) in
    let d'' = push_settings (record d' { client = some c }) in
    if a.pipewire then with_client a d'' d''.client else (false, d')

-- Unregistering the ports of the channels.
unfoldable pub unregister_channels : List IoChannel → Client → Client
unfolding port_unregister
unregister_channels [] c = c
unregister_channels (ch ∷ chs) c = unregister_channels chs (port_unregister ch.port c).1

-- The object goes on to exist, or it is freed; then its audio client is closed as it is here.
pub data Released : Type 0 where
  kept : ℕ → Driver → Released
  freed : (closed : Option Client) → Released

abbrev is_initialized : DriverState → Bool
is_initialized initialized = true
is_initialized _ = false

abbrev is_prepared : DriverState → Bool
is_prepared prepared = true
is_prepared _ = false

abbrev stopped : Driver → Driver
stopped d = if is_running d.state then (stop d).1 else d

abbrev disposed : Driver → Driver
disposed d = if is_prepared d.state then (dispose_buffers d).1 else d

abbrev close_client : Driver → Option Client
close_client d =
    if is_initialized d.state
    then map_client
        (λ (c : Client).
          unregister_channels d.output_channels (unregister_channels d.input_channels c))
        d.client
    else none

unfoldable pub release : Driver → Released
unfolding stop dispose_buffers unregister_channels
release d =
    let left = d.references - 1 in
    if left == 0
    then freed (close_client (disposed (stopped d)))
    else kept left (record d { references = left })

unfoldable pub add_ref : Driver → Driver
add_ref d = record d { references = d.references + 1 }
