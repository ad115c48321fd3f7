-- ===== src/Driver/Transport.antt =====
-- src/asio.c: Start and Stop, the switch of the host's buffers, and the callbacks of the audio client.
-- `host` is what the host's callback makes of the callback buffer.
use pipeasio.Prelude.{
  ℕ, zero, suc, ◌+◌, ◌*◌, ◌%◌, ◌^◌, Bool, true, false, Option, none, some, List, [], ◌∷◌, ◌==◌,
  if◌then◌else◌, ℤ, replicate,
}
use pipeasio.Audio.{Client}
use pipeasio.Buffer.Copy.{clamp_frames, silence, gather, scatter}
use pipeasio.Buffer.Memory.{write_at}
use pipeasio.Driver.Buffers.{long_size}
use pipeasio.Driver.Queries.{HiLo, to_hi_lo}
use pipeasio.Driver.{Driver, IoChannel, DriverState, prepared, running, Sample, ok, missing_io}

-- struct TimeInformation, as far as it is filled.
pub record TimeInfo : Type 0 where
  pub samples : HiLo
  pub stamp : HiLo
  pub rate : ℕ
  pub flags : ℕ

pub data HostCall : Type 0 where
  swap_buffers : (index : ℕ) → HostCall
  swap_buffers_with_time_info : TimeInfo → (index : ℕ) → HostCall

unfoldable pub host_buffer_switch : ℕ → ℕ → ℕ → Driver → HostCall × Driver
unfolding to_hi_lo
host_buffer_switch index add_samples time_nsec d =
    let samples = (d.num_samples + add_samples) % 2 ^ 64 in
    (
      if d.time_info_mode
          then swap_buffers_with_time_info
              (record {
                samples = to_hi_lo samples;
                stamp = to_hi_lo time_nsec;
                rate = d.sample_rate;
                flags = 7;
              })
              index
          else swap_buffers index,
      record d { num_samples = samples; time_stamp = time_nsec },
    )

abbrev pub client_time : Option Client → ℕ
client_time none = 0
client_time (some c) = c.last_clock_nsec

abbrev pub pool : Driver → List Sample
pool d = elim d.callback_buffer [ none ↦ [] | some m ↦ m ]

abbrev is_prepared : DriverState → Bool
is_prepared prepared = true
is_prepared _ = false

abbrev pub is_running : DriverState → Bool
is_running running = true
is_running _ = false

abbrev pub flip : ℕ → ℕ
flip index = if index == 0 then 1 else 0

pub record Started : Type 0 where
  pub code : ℤ
  pub called : Option HostCall
  pub driver : Driver

abbrev pub prime : (HostCall → List Sample → List Sample) → Driver → Started
prime host d =
    let silent =
      write_at 0
        (replicate ((d.number_inputs + d.number_outputs) * 2 * long_size d.current_buffersize) 0)
        (pool d) in
    let r =
      host_buffer_switch 0 0 (client_time d.client)
        (record d { buffer_index = 0; num_samples = 0; time_stamp = 0 }) in
    record {
      code = ok;
      called = some r.0;
      driver = record r.1 {
        callback_buffer = some (host r.0 silent);
        buffer_index = flip 0;
        state = running;
      };
    }

unfoldable pub start : (HostCall → List Sample → List Sample) → Driver → Started
unfolding host_buffer_switch write_at
start host d =
    if is_prepared d.state
    then prime host d
    else record { code = missing_io; called = none; driver = d }

unfoldable pub stop : Driver → ℤ × Driver
stop d = if is_running d.state then (ok, record d { state = prepared }) else (missing_io, d)

-- The device side of a cycle: what audio_port_get_buffer and audio_port_buffer_avail_frames return
-- for a port's handle.
pub record Device : Type 0 where
  pub mapped : Option ℕ → Option (List Sample)
  pub avail : Option ℕ → ℕ

-- process_silence: the first channels get silence, as many as there are active outputs.
unfoldable pub silence_outputs :
    ℕ → ℕ → Device → List IoChannel → List (Option ℕ × Option (List Sample))
unfolding silence clamp_frames
silence_outputs zero nframes v chs = []
silence_outputs (suc count) nframes v [] = []
silence_outputs (suc count) nframes v (ch ∷ chs) =
    let buf = v.mapped ch.port in
    (ch.port, silence 0 buf (clamp_frames buf (v.avail ch.port) nframes))
    ∷ silence_outputs count nframes v chs

abbrev half_offset : ℕ → ℕ → ℕ → ℕ
half_offset off nframes index = off + (nframes * index) % 2 ^ 32

abbrev gather_one : ℕ → ℕ → Device → IoChannel → List Sample → List Sample
gather_one nframes index v ch m = elim ch.audio_buffer [
  | none ↦ m
  | some off ↦
      gather 0 m (half_offset off nframes index) (v.mapped ch.port) (v.avail ch.port) nframes
]

-- The loop over the inputs: the active ones are copied to their half of the block.
unfoldable pub gather_inputs : ℕ → ℕ → Device → List IoChannel → List Sample → List Sample
unfolding gather
gather_inputs nframes index v [] m = m
gather_inputs nframes index v (ch ∷ chs) m =
    gather_inputs nframes index v chs (if ch.active then gather_one nframes index v ch m else m)

abbrev scatter_one : ℕ → ℕ → Device → List Sample → IoChannel → Option (List Sample)
scatter_one nframes index v m ch = elim ch.audio_buffer [
  | none ↦ v.mapped ch.port
  | some off ↦
      scatter (v.mapped ch.port) m (half_offset off nframes index) (v.avail ch.port) nframes
]

-- The loop over the outputs: what the active ones' device buffers hold behind it.
unfoldable pub scatter_outputs :
    ℕ → ℕ → Device → List Sample → List IoChannel → List (Option ℕ × Option (List Sample))
unfolding scatter
scatter_outputs nframes index v m [] = []
scatter_outputs nframes index v m (ch ∷ chs) =
    let rest = scatter_outputs nframes index v m chs in
    if ch.active then (ch.port, scatter_one nframes index v m ch) ∷ rest else rest

pub record Cycle : Type 0 where
  pub called : Option HostCall
  pub written : List (Option ℕ × Option (List Sample))
  pub driver : Driver

abbrev pub run_cycle : (HostCall → List Sample → List Sample) → ℕ → Device → Driver → Cycle
run_cycle host nframes v d =
    let gathered = gather_inputs nframes d.buffer_index v d.input_channels (pool d) in
    let r = host_buffer_switch d.buffer_index nframes (client_time d.client) d in
    let m = host r.0 gathered in
    record {
      called = some r.0;
      written = scatter_outputs nframes d.buffer_index v m d.output_channels;
      driver = record r.1 { callback_buffer = some m; buffer_index = flip d.buffer_index };
    }

unfoldable pub process_callback :
    (HostCall → List Sample → List Sample) → ℕ → Device → Driver → Cycle
unfolding silence_outputs gather_inputs scatter_outputs host_buffer_switch
process_callback host nframes v d =
    if is_running d.state then run_cycle host nframes v d else record {
      called = none;
      written = silence_outputs d.active_outputs nframes v d.output_channels;
      driver = d;
    }

-- The driver asks the host for a message only while it runs: the selectors of the calls, given
-- whether the host supports the first.
abbrev notify : ℕ → Bool → Driver → List (ℕ × ℕ)
notify selector supported d =
    if is_running d.state
    then (if supported then (1, selector) ∷ (selector, 0) ∷ [] else (1, selector) ∷ [])
    else []

unfoldable pub buffer_size_callback : Bool → Driver → List (ℕ × ℕ)
buffer_size_callback supported d = notify 3 supported d

unfoldable pub latency_callback : Bool → Driver → List (ℕ × ℕ)
latency_callback supported d = notify 6 supported d

-- The flag says that the host's sampleRateChanged is called.
unfoldable pub sample_rate_callback : ℕ → Driver → Bool × Driver
sample_rate_callback rate d =
    if is_running d.state then (true, record d { sample_rate = rate }) else (false, d)
