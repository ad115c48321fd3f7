-- ===== src/Driver/Buffers.antt =====
-- src/asio.c: apply_pending_config, CreateBuffers and DisposeBuffers. What the host, the allocator and
-- PipeWire answer is given.
mod Accepting
mod Placing
mod Linking
unfoldable pub use Accepting.*
unfoldable pub use Placing.*
unfoldable pub use Linking.*
use pipeasio.Prelude.{
  ℕ, zero, suc, ◌+◌, ◌-◌, ◌^◌, Bool, true, false, not, ◌&&◌, ◌||◌, Option, none, some, List, [],
  ◌∷◌, ◌++◌, map, if◌then◌else◌, ltb, ℤ, pos, negsuc, eqb_ℤ, get_elem?,
}
use pipeasio.Audio.Filter.{Answers, activate, deactivate}
use pipeasio.Audio.Ports.{Link, lookup_port, connect, get_device_ports}
use pipeasio.Audio.Registry.{contains}
use pipeasio.Audio.{
  Client, set_buffer_size, set_forced_rate, set_follow_device, set_rt_priority, port_is_input,
  port_is_output,
}
use pipeasio.Buffer.Offsets.{host_input_offset_samples, host_output_offset_samples}
use pipeasio.Config.Text.{codes, str_eq}
use pipeasio.Config.{Bytes, buffer_size_valid}
use pipeasio.Driver.Configure.{apply_config_fields}
use pipeasio.Driver.Queries.{forced_size, client_port}
use pipeasio.Driver.{
  Driver, IoChannel, DriverState, initialized, prepared, running, Sample, ok, missing_io,
  backend_failed, unsupported, no_memory, to_uint32,
}

-- What the outside answers during one CreateBuffers.
pub record CreateAnswers : Type 0 where
  pub time_info : Bool
  pub memory : Option (List Sample)
  pub activation : Answers
  pub ports_memory : Bool
  pub watcher : Bool

pub record Outcome : Type 0 where
  pub code : ℤ
  pub slots_given : List (Option (ℕ × ℕ))
  pub links : List (Option Link)
  pub driver : Driver

abbrev pub refusal : ℤ → Driver → Outcome
refusal code d = record { code = code; slots_given = []; links = []; driver = d }

abbrev pub activated : CreateAnswers → List (Option (ℕ × ℕ)) → Driver → Bool × Client → Outcome
activated w given d (false, c) = refusal missing_io (release_buffers (record d { client = some c }))
activated w given d (true, c) = record {
  code = ok;
  slots_given = given;
  links = connect_hardware w.ports_memory c d;
  driver = record d { client = some c; state = prepared; config_watch = w.watcher };
}

abbrev pub activate_client :
    CreateAnswers → List (Option (ℕ × ℕ)) → Driver → Option Client → Outcome
activate_client w given d none = refusal missing_io (release_buffers d)
activate_client w given d (some c) = activated w given d (activate w.activation c)

abbrev pub allocated : CreateAnswers → List BufferInfo → Driver → Option (List Sample) → Outcome
allocated w bs d none = refusal no_memory (record d { callback_buffer = none })
allocated w bs d (some memory) =
    let d' = place_buffers bs memory d in activate_client w (slots bs d') d' d'.client

abbrev pub with_size : CreateAnswers → List BufferInfo → Sized → Outcome
with_size w bs (refused code d) = refusal code d
with_size w bs (sized d) =
    allocated w bs (record d { callbacks = true; time_info_mode = w.time_info }) w.memory

abbrev pub is_initialized : DriverState → Bool
is_initialized initialized = true
is_initialized _ = false

-- `given` says that neither pointer is null; the list has the host's numChannels buffers.
unfoldable pub create_buffers : CreateAnswers → Bool → List BufferInfo → ℤ → Driver → Outcome
unfolding apply_pending_config check_channels take_size release_buffers connect_hardware
    place_buffers slots activate
create_buffers w given bs size d =
    if not (is_initialized d.state)
    then refusal missing_io d
    else if not given
    then refusal unsupported d
    else let d' = apply_pending_config d in
      if check_channels d'.number_inputs d'.number_outputs 0 0 bs
      then with_size w bs (take_size size d')
      else refusal unsupported d'

abbrev pub stop_state : DriverState → DriverState
stop_state running = prepared
stop_state s = s

abbrev is_prepared : DriverState → Bool
is_prepared prepared = true
is_prepared _ = false

abbrev dispose_client : Driver → Option Client → ℤ × Driver
dispose_client d none = (missing_io, d)
dispose_client d (some c) =
    let r = deactivate c in
    if r.0
    then (ok, record (release_buffers (record d { client = some r.1 })) { state = initialized })
    else (missing_io, record d { client = some r.1 })

unfoldable pub dispose_buffers : Driver → ℤ × Driver
unfolding release_buffers deactivate
dispose_buffers d =
    let d' = record d { config_watch = false; state = stop_state d.state } in
    if is_prepared d'.state then dispose_client d' d'.client else (missing_io, d')
