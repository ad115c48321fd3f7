-- ===== src/Bridge/Rt.antt =====
-- src/wow64/audio_unix.c: client_ctx, what PAU_BIND_RT puts into it, and the process callback on the
-- 64-bit side.
use pipeasio.Prelude.{
  ℕ, zero, suc, ◌+◌, ◌*◌, ◌/◌, Bool, true, false, not, ◌&&◌, Option, List, [], ◌∷◌, ◌==◌, ltb,
  if◌then◌else◌, pos, is_some, to_int32,
}
use pipeasio.Audio.{Client}
use pipeasio.Bridge.Sync.{
  Sync, Posting, deadline_floor, cb_buffer_switch, cb_buffer_size, cb_sample_rate, cb_latency,
}
use pipeasio.Bridge.{rt_max_ports}
use pipeasio.Buffer.Copy.{clamp_frames, silence, gather, scatter}
use pipeasio.Buffer.Offsets.{
  host_input_offset_samples, host_output_offset_samples, host_half_offset_samples,
}
use pipeasio.Driver.Transport.{Device}
use pipeasio.Driver.{Sample}

-- client_ctx. `buffer_base` is an address in the 32-bit process, 0 before PAU_BIND_RT; the memory there is
-- an argument of the process callback. A port is the pointer that the client gave out.
pub record Context : Type 0 where
  pub client : Client
  pub buffer_base : ℕ
  pub buffer_size : ℕ
  pub n_in : ℕ
  pub n_out : ℕ
  pub in_active : ℕ → Bool
  pub out_active : ℕ → Bool
  pub in_port : ℕ → Option ℕ
  pub out_port : ℕ → Option ℕ
  pub half : Bool
  pub rt_deadline_ns : ℕ
  pub sync : Sync

-- pa_bind_params, behind its version and client.
pub record Binding : Type 0 where
  pub buffer_base : ℕ
  pub buffer_size : ℕ
  pub n_in : ℕ
  pub n_out : ℕ
  pub in_active : ℕ → Bool
  pub out_active : ℕ → Bool

abbrev pub at_most : ℕ → ℕ → ℕ
at_most bound n = if ltb n bound then n else bound

-- The quotient of doubles is the integers' where the product has at most 53 bits.
unfoldable pub deadline_ns : ℕ → ℕ → ℕ
deadline_ns rate size =
    if not (rate == 0) && not (size == 0)
    then (let period = size * 1000000000 / rate in
        if ltb deadline_floor (2 * period) then 2 * period else deadline_floor)
    else deadline_floor

unfoldable pub bind_rt : Binding → Context → Context
unfolding deadline_ns
bind_rt b cc = record cc {
  buffer_base = b.buffer_base;
  buffer_size = b.buffer_size;
  n_in = at_most rt_max_ports b.n_in;
  n_out = at_most rt_max_ports b.n_out;
  in_active = b.in_active;
  out_active = b.out_active;
  half = false;
  rt_deadline_ns = deadline_ns cc.client.sample_rate b.buffer_size;
}

abbrev pub Writes : Type 0
Writes = List (Option ℕ × Option (List Sample))

abbrev pub half_index : Bool → ℕ
half_index true = 1
half_index false = 0

-- The places of a channel's current half in the callback buffer.
abbrev pub input_place : Context → ℕ → ℕ
input_place cc i =
    host_input_offset_samples i cc.buffer_size
    + host_half_offset_samples (half_index cc.half) cc.buffer_size

abbrev pub output_place : Context → ℕ → ℕ
output_place cc i =
    host_output_offset_samples i cc.n_in cc.buffer_size
    + host_half_offset_samples (half_index cc.half) cc.buffer_size

-- The three loops, over the channels from `i` on.
unfoldable pub gather_ports : ℕ → ℕ → ℕ → Device → Context → List Sample → List Sample
unfolding gather host_input_offset_samples host_half_offset_samples
gather_ports zero i nframes v cc m = m
gather_ports (suc left) i nframes v cc m =
    let port = cc.in_port i in
    gather_ports left (suc i) nframes v cc (
      if cc.in_active i && is_some port
      then gather 0 m (input_place cc i) (v.mapped port) (v.avail port) nframes
      else m)

unfoldable pub scatter_ports : ℕ → ℕ → ℕ → Device → Context → List Sample → Writes
unfolding scatter host_output_offset_samples host_half_offset_samples
scatter_ports zero i nframes v cc m = []
scatter_ports (suc left) i nframes v cc m =
    let port = cc.out_port i in
    let rest = scatter_ports left (suc i) nframes v cc m in
    if cc.out_active i && is_some port
    then (port, scatter (v.mapped port) m (output_place cc i) (v.avail port) nframes) ∷ rest
    else rest

unfoldable pub silence_ports : ℕ → ℕ → ℕ → Device → Context → Writes
unfolding silence clamp_frames
silence_ports zero i nframes v cc = []
silence_ports (suc left) i nframes v cc =
    let port = cc.out_port i in
    let rest = silence_ports left (suc i) nframes v cc in
    if cc.out_active i && is_some port
    then (port, silence 0 (v.mapped port) (clamp_frames (v.mapped port) (v.avail port) nframes))
      ∷ rest
    else rest

-- What comes of a bridge_invoke: the value it returns, the exchange and the callback buffer behind it, and
-- whatever else the 32-bit process keeps.
pub record Invoked (S : Type 0) : Type 0 where
  pub produced : ℕ
  pub sync : Sync
  pub memory : List Sample
  pub other : S

pub record RtCycle (S : Type 0) : Type 0 where
  pub written : Writes
  pub memory : List Sample
  pub context : Context
  pub other : S

module _ {S : Type 0} (bridge_invoke : Posting → Sync → List Sample → S → Invoked S) where
  unfoldable switch_event : ℕ → Context → Posting
  switch_event nframes cc = record {
    kind = cb_buffer_switch;
    index = half_index cc.half;
    nframes = nframes;
    time_nsec = cc.client.last_clock_nsec;
    value = pos 0;
  }

  unfoldable exchange_cycle : ℕ → Device → Context → List Sample → S → RtCycle S
  unfolding switch_event gather_ports scatter_ports silence_ports
  exchange_cycle nframes v cc m o =
      let r =
        bridge_invoke (switch_event nframes cc) cc.sync (gather_ports cc.n_in 0 nframes v cc m) o in
      record {
        written =
            if r.produced == 0
            then silence_ports cc.n_out 0 nframes v cc
            else scatter_ports cc.n_out 0 nframes v cc r.memory;
        memory = r.memory;
        context = record cc { half = not cc.half; sync = r.sync };
        other = r.other;
      }

  unfoldable pub rt_process : ℕ → Device → Context → List Sample → S → RtCycle S
  unfolding exchange_cycle
  rt_process nframes v cc m o =
      if cc.buffer_base == 0
      then record {
        written = silence_ports cc.n_out 0 nframes v cc;
        memory = m;
        context = cc;
        other = o;
      }
      else exchange_cycle nframes v cc m o

  unfoldable aux_event : ℕ → ℕ → Posting
  aux_event kind value = record {
    kind = kind;
    index = 0;
    nframes = 0;
    time_nsec = 0;
    value = to_int32 (pos value);
  }

  -- The callbacks for a new buffer size, a new rate and a new latency pass the event on.
  unfoldable pub buffer_size_cb : ℕ → Context → List Sample → S → Invoked S
  unfolding aux_event
  buffer_size_cb nframes cc m o = bridge_invoke (aux_event cb_buffer_size nframes) cc.sync m o

  unfoldable pub sample_rate_cb : ℕ → Context → List Sample → S → Invoked S
  unfolding aux_event
  sample_rate_cb rate cc m o = bridge_invoke (aux_event cb_sample_rate rate) cc.sync m o

  unfoldable pub latency_cb : ℕ → Context → List Sample → S → Invoked S
  unfolding aux_event
  latency_cb mode cc m o = bridge_invoke (aux_event cb_latency mode) cc.sync m o
