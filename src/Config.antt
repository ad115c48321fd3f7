-- ===== src/Config.antt =====
-- include/pipeasio_config.h: the settings record, its defaults and bounds, and the one test of a
-- buffer size. A C string is the list of its bytes, with no terminator.
pub mod Text
pub mod Number
pub mod Parse
pub mod Save
pub mod Sizes
pub mod Validate
pub mod Printing
pub mod Lines
pub mod Reading
pub mod RoundTrip
pub mod Atomic
use pipeasio.Prelude.{ℕ, ◌-◌, Bool, true, false, ◌&&◌, List, ◌==◌, leb, ℤ, pos, negsuc, bit_and}

abbrev pub Bytes : Type 0
Bytes = List ℕ

pub record Config : Type 0 where
  pub inputs : ℤ
  pub outputs : ℤ
  pub buffer_size : ℤ
  pub fixed_buffer_size : Bool
  pub sample_rate : ℤ
  pub auto_connect : Bool
  pub follow_device_clock : Bool
  pub output_device : Bytes
  pub input_device : Bytes
  pub node_name : Bytes
  pub rt_priority : ℤ
  pub buffer_mode : ℤ

abbrev pub mode_free : ℤ
mode_free = pos 0

abbrev pub mode_fixed : ℤ
mode_fixed = pos 1

abbrev pub mode_wireless : ℤ
mode_wireless = pos 3

abbrev pub max_channels : ℕ
max_channels = 256

abbrev pub min_buffer_size : ℕ
min_buffer_size = 16

abbrev pub max_buffer_size : ℕ
max_buffer_size = 8192

abbrev pub min_rt_priority : ℕ
min_rt_priority = 1

abbrev pub max_rt_priority : ℕ
max_rt_priority = 80

-- sizeof output_device, input_device and node_name
abbrev pub name_max : ℕ
name_max = 256

-- `(size & (size - 1)) == 0` between the two bounds; no negative size passes `size > 0`.
unfoldable pub buffer_size_valid : ℤ → Bool
buffer_size_valid (negsuc n) = false
buffer_size_valid (pos n) =
    leb 1 n && bit_and n (n - 1) == 0 && leb min_buffer_size n && leb n max_buffer_size

abbrev pub defaults : Config
defaults = record {
  inputs = pos 2;
  outputs = pos 2;
  buffer_size = pos 1024;
  fixed_buffer_size = true;
  sample_rate = pos 0;
  auto_connect = true;
  follow_device_clock = false;
  output_device = List.[];
  input_device = List.[];
  node_name = List.[];
  rt_priority = pos 15;
  buffer_mode = mode_fixed;
}
