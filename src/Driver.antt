-- ===== src/Driver.antt =====
-- src/asio.c: the ASIO driver object. This file has its state; the children have its methods, the
-- callbacks of the audio client, and what holds of them.
pub mod Configure
pub mod Init
pub mod Identity
pub mod Factory
pub mod Queries
pub mod Buffers
pub mod Transport
pub mod Watch
pub mod WatchContext
pub mod WatchSafety
pub mod Lifecycle
pub mod Soundness
pub mod Creation
pub mod Reachability
pub mod Sizes
pub mod Following
pub mod Position
pub mod Rollback
use pipeasio.Prelude.{
  ℕ, ◌+◌, ◌-◌, ◌%◌, ◌^◌, Bool, true, false, Option, none, some, List, [], ◌∷◌, ℤ, pos, negsuc, ◌≡◌,
  ◌⊎◌,
}
use pipeasio.Audio.{Client}
use pipeasio.Config.{Bytes, Config}

-- The bits of an audio_sample_t; 0 is silence.
abbrev pub Sample : Type 0
Sample = ℕ

-- The enum of driver states.
pub data DriverState : Type 0 where
  loaded initialized prepared running : DriverState

-- struct IOChannel: the buffer's offset in the callback buffer, in samples, and the port's handle.
pub record IoChannel : Type 0 where
  pub audio_buffer : Option ℕ
  pub port_name : Bytes
  pub port : Option ℕ
  pub active : Bool

-- struct IPipeASIOImpl. A `double` sample rate is always an integer here. `config_watch` says that a
-- watcher thread is there.
pub record Driver : Type 0 where
  pub references : ℕ
  pub active_inputs : ℕ
  pub active_outputs : ℕ
  pub buffer_index : ℕ
  pub callbacks : Bool
  pub config_watch : Bool
  pub staged_cfg : Config
  pub config_pending : Bool
  pub follower_quantum : ℤ
  pub current_buffersize : ℤ
  pub state : DriverState
  pub num_samples : ℕ
  pub sample_rate : ℕ
  pub time_info_mode : Bool
  pub time_stamp : ℕ
  pub version : ℕ
  pub number_inputs : ℕ
  pub number_outputs : ℕ
  pub connect_to_hardware : Bool
  pub fixed_buffersize : Bool
  pub follow_device_clock : Bool
  pub preferred_buffersize : ℤ
  pub forced_sample_rate : ℤ
  pub rt_priority : ℤ
  pub output_device : Bytes
  pub input_device : Bytes
  pub client : Option Client
  pub client_name : Bytes
  pub phys_inputs : Option (List Bytes)
  pub phys_outputs : Option (List Bytes)
  pub callback_buffer : Option (List Sample)
  pub input_channels : List IoChannel
  pub output_channels : List IoChannel

-- A configuration in zeroed memory.
abbrev zeroed : Config
zeroed = record {
  inputs = pos 0;
  outputs = pos 0;
  buffer_size = pos 0;
  fixed_buffer_size = false;
  sample_rate = pos 0;
  auto_connect = false;
  follow_device_clock = false;
  output_device = [];
  input_device = [];
  node_name = [];
  rt_priority = pos 0;
  buffer_mode = pos 0;
}

-- What PipeASIOCreateInstance allocates: zeroed memory and one reference.
unfoldable pub created : Driver
created = record {
  references = 1;
  active_inputs = 0;
  active_outputs = 0;
  buffer_index = 0;
  callbacks = false;
  config_watch = false;
  staged_cfg = zeroed;
  config_pending = false;
  follower_quantum = pos 0;
  current_buffersize = pos 0;
  state = loaded;
  num_samples = 0;
  sample_rate = 0;
  time_info_mode = false;
  time_stamp = 0;
  version = 0;
  number_inputs = 0;
  number_outputs = 0;
  connect_to_hardware = false;
  fixed_buffersize = false;
  follow_device_clock = false;
  preferred_buffersize = pos 0;
  forced_sample_rate = pos 0;
  rt_priority = pos 0;
  output_device = [];
  input_device = [];
  client = none;
  client_name = [];
  phys_inputs = none;
  phys_outputs = none;
  callback_buffer = none;
  input_channels = [];
  output_channels = [];
}

-- The driver's return codes.
abbrev pub ok : ℤ
ok = pos 0

abbrev pub missing_io : ℤ
missing_io = negsuc 999

abbrev pub backend_failed : ℤ
backend_failed = negsuc 998

abbrev pub bad_argument : ℤ
bad_argument = negsuc 997

abbrev pub unsupported : ℤ
unsupported = negsuc 996

abbrev pub unknown_rate : ℤ
unknown_rate = negsuc 994

abbrev pub no_memory : ℤ
no_memory = negsuc 993

-- The conversion of an `int` to an unsigned one of 32 bits.
abbrev pub to_uint32 : ℤ → ℕ
to_uint32 (pos n) = n % 2 ^ 32
to_uint32 (negsuc n) = 2 ^ 32 - 1 - n % 2 ^ 32

-- PIPEASIO_MAX_NAME_LENGTH
abbrev pub max_name_length : ℕ
max_name_length = 32
