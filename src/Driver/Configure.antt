-- ===== src/Driver/Configure.antt =====
-- src/asio.c: configure_driver and apply_config_fields. The environment and the name of the host's
-- executable are given.
use pipeasio.Prelude.{
  ℕ, Bool, true, false, ◌&&◌, none, some, List, [], ◌∷◌, ◌==◌, if◌then◌else◌, ltb, ℤ, pos, negsuc,
  to_int32,
}
use pipeasio.Config.Number.{strtol}
use pipeasio.Config.Text.{codes, str_eq, str_case_eq, copy_str, split_at}
use pipeasio.Config.{Bytes, Config, max_channels, name_max, buffer_size_valid}
use pipeasio.Driver.{Driver, loaded, max_name_length}

-- The environment variables that are read.
pub data Variable : Type 0 where
  env_number_inputs env_number_outputs env_connect_to_hardware env_fixed_buffersize : Variable
  env_follow_device_clock env_preferred_buffersize env_sample_rate env_output_device : Variable
  env_input_device env_client_name : Variable

-- What the system answers: a variable's value with the number that GetEnvironmentVariableA returns
-- for it, the path of the host's executable, and its conversion from wide characters.
pub record Environment : Type 0 where
  pub variable : Variable → ℕ × Bytes
  pub module_path : List ℕ
  pub narrow : List ℕ → Bytes

unfoldable pub apply_config_fields : Config → Driver → Driver
unfolding copy_str
apply_config_fields cfg d = record d {
  connect_to_hardware = cfg.auto_connect;
  fixed_buffersize = cfg.fixed_buffer_size;
  follow_device_clock = cfg.follow_device_clock;
  preferred_buffersize = cfg.buffer_size;
  forced_sample_rate = cfg.sample_rate;
  rt_priority = cfg.rt_priority;
  output_device = copy_str name_max cfg.output_device;
  input_device = copy_str name_max cfg.input_device;
}

-- The part before the last `c`, and the part behind the last `c`; the whole where there is none.
unfoldable pub before_last : ℕ → List ℕ → List ℕ
before_last c [] = []
before_last c (x ∷ xs) =
    let rest = before_last c xs in
    elim (split_at c (x ∷ xs)) [
      | none ↦ x ∷ xs
      | some _ ↦ elim (split_at c xs) [ none ↦ if x == c then [] else x ∷ rest | some _ ↦ x ∷ rest ]
    ]

unfoldable pub after_last : ℕ → List ℕ → List ℕ
after_last c [] = []
after_last c (x ∷ xs) =
    let rest = after_last c xs in
    elim (split_at c xs) [ none ↦ if x == c then xs else x ∷ xs | some _ ↦ rest ]

-- The host's name: what is left of its path without the part from the last dot on, and without the
-- directories.
unfoldable pub host_name : List ℕ → List ℕ
unfolding before_last after_last
host_name path = after_last b'\\' (before_last b'.' path)

unfoldable pub override_int : ℕ × Bytes → ℤ → ℤ
unfolding strtol
override_int (n, text) old =
    if n == 0 then old else if (strtol text).1 then old else to_int32 (strtol text).0

unfoldable pub override_switch : ℕ × Bytes → Bool → Bool
unfolding str_case_eq
override_switch (n, text) old =
    if n == 0
    then old
    else if str_case_eq text (codes "on")
    then true
    else if str_case_eq text (codes "off")
    then false
    else old

unfoldable pub override_name : ℕ → ℕ × Bytes → Bytes → Bytes
unfolding copy_str
override_name cap (n, text) old = if ltb 0 n && ltb n cap then copy_str cap text else old

-- A channel count between 0 and PIPEASIO_MAX_CHANNELS.
unfoldable pub clamp_channels : ℤ → ℕ
clamp_channels (negsuc n) = 0
clamp_channels (pos n) = if ltb max_channels n then max_channels else n

-- PIPEASIO_PREFERRED_BUFFERSIZE in place of a size that the driver does not support.
unfoldable pub fallback_size : ℤ → ℤ
fallback_size size = if buffer_size_valid size then size else pos 1024

-- The members that are set before the configuration is read.
abbrev pub reset_members : Driver → Driver
reset_members d = record d {
  active_inputs = 0;
  active_outputs = 0;
  buffer_index = 0;
  callbacks = false;
  current_buffersize = pos 0;
  state = loaded;
  sample_rate = 0;
  time_info_mode = false;
  version = 92;
  client = none;
  phys_inputs = none;
  phys_outputs = none;
  callback_buffer = none;
  input_channels = [];
  output_channels = [];
  config_watch = false;
}

-- `cfg` is what pipeasio_config_load has filled.
unfoldable pub configure_driver : Config → Environment → Driver → Driver
unfolding apply_config_fields host_name override_int override_switch override_name clamp_channels
    fallback_size
configure_driver cfg e d =
    let d' = apply_config_fields cfg (reset_members d) in
    let name =
      copy_str max_name_length
        (if str_eq cfg.node_name [] then e.narrow (host_name e.module_path) else cfg.node_name) in
    record d' {
      number_inputs = clamp_channels (override_int (e.variable env_number_inputs) cfg.inputs);
      number_outputs = clamp_channels (override_int (e.variable env_number_outputs) cfg.outputs);
      connect_to_hardware =
          override_switch (e.variable env_connect_to_hardware) d'.connect_to_hardware;
      fixed_buffersize = override_switch (e.variable env_fixed_buffersize) d'.fixed_buffersize;
      follow_device_clock =
          override_switch (e.variable env_follow_device_clock) d'.follow_device_clock;
      preferred_buffersize =
          fallback_size
            (override_int (e.variable env_preferred_buffersize) d'.preferred_buffersize);
      forced_sample_rate = override_int (e.variable env_sample_rate) d'.forced_sample_rate;
      output_device = override_name name_max (e.variable env_output_device) d'.output_device;
      input_device = override_name name_max (e.variable env_input_device) d'.input_device;
      client_name = override_name max_name_length (e.variable env_client_name) name;
    }
