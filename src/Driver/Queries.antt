-- ===== src/Driver/Queries.antt =====
-- src/asio.c: the methods that answer the host's questions. A null argument is `false` for the
-- method's pointers.
use pipeasio.Prelude.{
  ℕ, ◌%◌, ◌/◌, ◌^◌, Bool, true, false, not, ◌&&◌, ◌||◌, Option, none, some, List, [], ◌∷◌, ◌==◌,
  if◌then◌else◌, leb, ℤ, pos, negsuc, eqb_ℤ, get_elem?,
}
use pipeasio.Audio.Ports.{latency_range, port_of_handle}
use pipeasio.Audio.{Client, Port}
use pipeasio.Config.{Bytes, min_buffer_size, max_buffer_size}
use pipeasio.Driver.{
  Driver, IoChannel, DriverState, loaded, ok, missing_io, bad_argument, unknown_rate,
}

pub record Channels : Type 0 where
  pub inputs : ℕ
  pub outputs : ℕ

unfoldable pub get_channels : Bool → Driver → ℤ × Option Channels
get_channels false d = (bad_argument, none)
get_channels true d = (ok, some (record { inputs = d.number_inputs; outputs = d.number_outputs }))

-- The port of a channel's handle; none also where the handle is null.
abbrev pub client_port : Option Client → Option ℕ → Option Port
client_port none h = none
client_port (some c) none = none
client_port (some c) (some h) = port_of_handle c.ports h

abbrev first_port : Driver → List IoChannel → Option Port
first_port d [] = none
first_port d (ch ∷ chs) = client_port d.client ch.port

abbrev is_loaded : DriverState → Bool
is_loaded loaded = true
is_loaded _ = false

-- The latencies of the first input and the first output.
unfoldable pub get_latencies : Bool → Driver → ℤ × Option (ℕ × ℕ)
unfolding latency_range
get_latencies false d = (bad_argument, none)
get_latencies true d = if is_loaded d.state then (missing_io, none) else (
  ok,
  some (
    (latency_range (first_port d d.input_channels) false).high,
    (latency_range (first_port d d.output_channels) true).high,
  ),
)

pub record BufferSize : Type 0 where
  pub min_size : ℤ
  pub max_size : ℤ
  pub preferred_size : ℤ
  pub granularity : ℤ

-- The size in the fixed mode and while following a device: the last observed quantum, or `preferred`.
unfoldable pub forced_size : Bool → ℤ → ℤ → ℤ
forced_size follow quantum preferred =
    if follow && not (eqb_ℤ quantum (pos 0)) then quantum else preferred

abbrev pub size_answer : Bool → Bool → ℤ → ℤ → BufferSize
size_answer fixed follow quantum preferred =
    if fixed || follow
    then record {
      min_size = forced_size follow quantum preferred;
      max_size = forced_size follow quantum preferred;
      preferred_size = forced_size follow quantum preferred;
      granularity = pos 0;
    }
    else record {
      min_size = pos min_buffer_size;
      max_size = pos max_buffer_size;
      preferred_size = preferred;
      granularity = negsuc 0;
    }

-- A staged configuration answers for the driver's own.
unfoldable pub get_buffer_size : Bool → Driver → ℤ × Option BufferSize
unfolding forced_size
get_buffer_size false d = (bad_argument, none)
get_buffer_size true d = (
  ok,
  some (
      if d.config_pending
      then size_answer d.staged_cfg.fixed_buffer_size d.staged_cfg.follow_device_clock
          d.follower_quantum d.staged_cfg.buffer_size
      else size_answer d.fixed_buffersize d.follow_device_clock d.follower_quantum
          d.preferred_buffersize),
)

-- A `double`, as far as it is compared: an integer, or any other value.
abbrev is_rate : Option ℕ → ℕ → Bool
is_rate none rate = false
is_rate (some r) rate = r == rate

unfoldable pub can_sample_rate : Option ℕ → Driver → ℤ
can_sample_rate rate d = if is_rate rate d.sample_rate then ok else unknown_rate

unfoldable pub get_sample_rate : Bool → Driver → ℤ × Option ℕ
get_sample_rate false d = (bad_argument, none)
get_sample_rate true d = (ok, some d.sample_rate)

unfoldable pub set_sample_rate : Option ℕ → Driver → ℤ × Driver
set_sample_rate rate d = (if is_rate rate d.sample_rate then ok else unknown_rate, d)

unfoldable pub set_clock_source : ℤ → ℤ
set_clock_source index = if eqb_ℤ index (pos 0) then ok else missing_io

-- w_int64_t
pub record HiLo : Type 0 where
  pub hi : ℕ
  pub lo : ℕ

unfoldable pub to_hi_lo : ℕ → HiLo
to_hi_lo n = record { hi = n / 2 ^ 32; lo = n % 2 ^ 32 }

-- The sample position and its time stamp.
unfoldable pub get_sample_position : Bool → Driver → ℤ × Option (HiLo × HiLo)
unfolding to_hi_lo
get_sample_position false d = (bad_argument, none)
get_sample_position true d = (ok, some (to_hi_lo d.num_samples, to_hi_lo d.time_stamp))

pub record ChannelInfo : Type 0 where
  pub active : Bool
  pub group : ℕ
  pub sample_type : ℕ
  pub name : Bytes

abbrev pub channel_count : Bool → Driver → ℕ
channel_count true d = d.number_inputs
channel_count false d = d.number_outputs

abbrev pub channels_of : Bool → Driver → List IoChannel
channels_of true d = d.input_channels
channels_of false d = d.output_channels

abbrev pub channel_answer : Option IoChannel → ℤ × Option ChannelInfo
channel_answer none = (ok, none)
channel_answer (some ch) =
    (ok, some (record { active = ch.active; group = 0; sample_type = 19; name = ch.port_name }))

-- `ok` with no information stands for a read outside of the channel array.
unfoldable pub get_channel_info : ℤ → Bool → Driver → ℤ × Option ChannelInfo
get_channel_info (negsuc n) is_input d = (bad_argument, none)
get_channel_info (pos n) is_input d =
    if leb (channel_count is_input d) n
    then (bad_argument, none)
    else channel_answer (get_elem? (channels_of is_input d) n)

-- ASIOFuture: of the documented selectors only "can do time info" is supported.
unfoldable pub future : ℤ → ℤ
future selector =
    if eqb_ℤ selector (pos 10)
    then pos 0x3f4847a0
    else if eqb_ℤ selector (pos 3)
        || eqb_ℤ selector (pos 0x23111961)
        || eqb_ℤ selector (pos 0x23111983)
        || eqb_ℤ selector (pos 0x23112004)
    then missing_io
    else bad_argument
