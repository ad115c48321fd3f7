-- ===== src/Audio.antt =====
-- src/audio.c: the PipeWire backend behind include/audio.h. This file has the client's state and its
-- setters and getters; the children have the registry, the ports and the filter.
pub mod Registry
pub mod Ports
pub mod Filter
pub mod Rt
pub mod Cases
pub mod Capacity
pub mod Steady
pub mod Activation
pub mod Memo
pub mod Selection
pub mod Cycle
pub mod Adoption
use pipeasio.Prelude.{
  ◌%◌, ◌^◌, ℕ, ◌+◌, ◌*◌, ◌≡◌, Bool, true, false, Option, none, some, List, [], ◌∷◌, ◌==◌,
  if◌then◌else◌, ℤ, pos,
}
use pipeasio.Config.{Bytes}

-- SPA_ID_INVALID, PipeWire's id of nothing
abbrev pub id_invalid : ℕ
id_invalid = 0xffff_ffff

abbrev pub port_is_input : ℕ
port_is_input = 1

abbrev pub port_is_output : ℕ
port_is_output = 2

abbrev pub port_is_physical : ℕ
port_is_physical = 4

abbrev pub default_sample_rate : ℕ
default_sample_rate = 48000

abbrev pub default_buffer_size : ℕ
default_buffer_size = 1024

-- struct audio_node_info
pub record Node : Type 0 where
  pub id : ℕ
  pub node_name : Bytes
  pub display_name : Bytes
  pub media_class : Option Bytes

pub data Direction : Type 0 where
  input output : Direction

pub record LatencyRange : Type 0 where
  pub low : ℕ
  pub high : ℕ

-- A dequeued pw_buffer: the size of its mapping in bytes, and the chunk that is published with it.
pub record CycleBuffer : Type 0 where
  pub maxsize : ℕ
  pub chunk_offset : ℕ
  pub chunk_size : ℕ
  pub chunk_stride : ℕ
  pub chunk_flags : ℕ

-- struct audio_port. `handle` stands for the pointer, which is what callers keep.
pub record Port : Type 0 where
  pub handle : ℕ
  pub name : Bytes
  pub type_name : Bytes
  pub flags : ℕ
  pub capture_latency : LatencyRange
  pub playback_latency : LatencyRange
  pub direction : Direction
  pub filter_port : Bool
  pub cycle_buffer : Option CycleBuffer
  pub node_id : ℕ
  pub port_id : ℕ

-- struct audio_client. `callbacks` says that the four callbacks are set, `next_handle` is the next
-- pointer that the allocator gives out.
pub record Client : Type 0 where
  pub name : Bytes
  pub sample_rate : ℕ
  pub buffer_size : ℕ
  pub forced_rate : ℕ
  pub follow_device : Bool
  pub observed_quantum : ℕ
  pub config_priority : ℤ
  pub process_cb : Bool
  pub buffer_size_cb : Bool
  pub buffer_size_calls : List ℕ
  pub sample_rate_cb : Bool
  pub latency_cb : Bool
  pub active : Bool
  pub filter : Bool
  pub data_loop_running : Bool
  pub ports : List Port
  pub cap_ports : ℕ
  pub last_clock_nsec : ℕ
  pub our_node_id : ℕ
  pub default_metadata : Bool
  pub default_sink_name : Bytes
  pub default_source_name : Bytes
  pub default_changed : Bool
  pub nodes : List Node
  pub cap_nodes : ℕ
  pub discovered : List Port
  pub cap_discovered : ℕ
  pub memo_node_id : ℕ
  pub memo_node : Option Node
  pub next_handle : ℕ

-- What `audio_open` has set before the first registry event; PipeWire's own objects are not state of
-- the model.
unfoldable pub opened : Bytes → Client
opened name = record {
  name = name;
  sample_rate = default_sample_rate;
  buffer_size = default_buffer_size;
  forced_rate = 0;
  follow_device = false;
  observed_quantum = 0;
  config_priority = pos 0;
  process_cb = false;
  buffer_size_cb = false;
  buffer_size_calls = [];
  sample_rate_cb = false;
  latency_cb = false;
  active = false;
  filter = false;
  data_loop_running = false;
  ports = [];
  cap_ports = 0;
  last_clock_nsec = 0;
  our_node_id = id_invalid;
  default_metadata = false;
  default_sink_name = [];
  default_source_name = [];
  default_changed = false;
  nodes = [];
  cap_nodes = 0;
  discovered = [];
  cap_discovered = 0;
  memo_node_id = 0;
  memo_node = none;
  next_handle = 1;
}

-- The room of a growing array: it is doubled in 32 bits when the array is full, and starts at `first`.
abbrev pub grow : ℕ → ℕ → ℕ → ℕ
grow first used cap = if used == cap then (if cap == 0 then first else cap * 2 % 2 ^ 32) else cap

-- The sizes that the callback has been called with, the last first, are kept in the client: the driver's
-- callback does something only in Running, the bridge's one posts an event.
unfoldable pub set_buffer_size : ℕ → Client → Bool × Client
set_buffer_size nframes c = if nframes == 0 then (false, c) else (
  true,
  record c {
    buffer_size = nframes;
    buffer_size_calls =
        if c.buffer_size_cb then nframes ∷ c.buffer_size_calls else c.buffer_size_calls;
  },
)

unfoldable pub set_forced_rate : ℕ → Client → Client
set_forced_rate rate c =
    if rate == 0
    then record c { forced_rate = rate }
    else record c { forced_rate = rate; sample_rate = rate }

unfoldable pub set_follow_device : Bool → Client → Client
set_follow_device follow c = record c { follow_device = follow }

unfoldable pub set_rt_priority : ℤ → Client → Client
set_rt_priority priority c = record c { config_priority = priority }

-- The four functions audio_set_…_callback.
unfoldable pub set_buffer_size_callback : Client → Client
set_buffer_size_callback c = record c { buffer_size_cb = true }

unfoldable pub set_latency_callback : Client → Client
set_latency_callback c = record c { latency_cb = true }

unfoldable pub set_process_callback : Client → Client
set_process_callback c = record c { process_cb = true }

unfoldable pub set_sample_rate_callback : Client → Client
set_sample_rate_callback c = record c { sample_rate_cb = true }

-- Returns the flag and clears it.
unfoldable pub take_default_changed : Client → Bool × Client
take_default_changed c = (c.default_changed, record c { default_changed = false })
