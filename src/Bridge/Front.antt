-- ===== src/Bridge/Front.antt =====
-- src/wow64/audio_proxy.c: opening and closing a client, its callbacks and ports, and the seams of the driver.
use pipeasio.Prelude.{
  ℕ, ◌%◌, ◌^◌, Bool, true, false, not, ◌&&◌, ◌||◌, Option, none, some, [], ◌∷◌, ◌==◌, if◌then◌else◌,
  ltb, ℤ, is_neg, pos_part,
}
use pipeasio.Audio.{LatencyRange}
use pipeasio.Bridge.Calls.{Unix, Reply, SimpleParams}
use pipeasio.Bridge.Life.{
  OpenParams, close_call, deactivate_call, bind_rt_call, load_config, save_config, config_path_call,
  config_fingerprint, FileStat, launch_panel, panel_available,
}
use pipeasio.Bridge.PortCalls.{
  PortParams, port_register_call, port_unregister_call, port_name, port_type, port_by_name,
  port_latency_range,
}
use pipeasio.Bridge.Proxy.{Proxy, succeeded, strncpy}
use pipeasio.Bridge.Pump.{Callbacks, from_hi_lo}
use pipeasio.Driver.Queries.{HiLo}
use pipeasio.Bridge.{abi_version, name_max, type_max, portname_max, rt_max_ports}
use pipeasio.Config.Parse.{World}
use pipeasio.Config.Save.{Outcome}
use pipeasio.Config.Text.{copy_str}
use pipeasio.Config.{Config, Bytes}
use pipeasio.Driver.{Driver}

abbrev no_callbacks : Callbacks
no_callbacks = record { buf_cb = none; rate_cb = none; lat_cb = none }

-- The proxy or a null pointer, the status word, and the state.
pub record Opened : Type 0 where
  pub proxy : Option Proxy
  pub status : ℕ
  pub unix : Unix

-- `unixlib` says that the library is there, `alloc` that the proxy got its memory.
unfoldable pub audio_open :
    Bool → Bool → (OpenParams → Unix → Reply OpenParams) → Option Bytes → ℕ → Unix → Opened
unfolding copy_str
audio_open unixlib alloc call client_name options u =
    if not unixlib || not alloc
    then record { proxy = none; status = 1; unix = u }
    else let r =
        call
          (record {
            version = abi_version;
            options = options;
            name = strncpy name_max client_name;
            client = 0;
            status = 0;
          })
          u in
      if not (succeeded r.status) || r.block.client == 0
      then record {
        proxy = none;
        status = if r.block.status == 0 then 1 else r.block.status;
        unix = r.unix;
      }
      else record {
        proxy = some (record {
          unix_client = r.block.client;
          this = false;
          callbacks = no_callbacks;
          pump = false;
        });
        status = r.block.status;
        unix = r.unix;
      }

abbrev client_block : Proxy → SimpleParams
client_block x = record { version = abi_version; client = x.unix_client; result = 0 }

unfoldable pub audio_close : Option Proxy → Unix → Bool × Unix
unfolding deactivate_call close_call
audio_close none u = (false, u)
audio_close (some x) u =
    let quiet = if x.pump then (deactivate_call (client_block x) u).unix else u in
    (true, (close_call (client_block x) quiet).unix)

unfoldable pub audio_port_register :
    Bool → Option Bytes → Option Bytes → ℕ → ℕ → Option Proxy → Unix → Option ℕ × Unix
unfolding port_register_call copy_str
audio_port_register alloc name type_name flags channel none u = (none, u)
audio_port_register alloc name type_name flags channel (some x) u =
    let r =
      port_register_call alloc
        (record {
          version = abi_version;
          client = x.unix_client;
          name = strncpy name_max name;
          type_name = strncpy type_max type_name;
          flags = flags % 2 ^ 32;
          channel = channel % 2 ^ 32;
          port = 0;
        })
        u in
    (if not (succeeded r.status) || r.block.port == 0 then none else some r.block.port, r.unix)

abbrev port_block : ℕ → ℕ → ℕ → Bytes → PortParams
port_block client port mode name = record {
  version = abi_version;
  client = client;
  port = port;
  mode = mode;
  lat_min = 0;
  lat_max = 0;
  name = name;
}

unfoldable pub audio_port_unregister : Option ℕ → Option Proxy → Unix → Bool × Unix
unfolding port_unregister_call
audio_port_unregister port none u = (false, u)
audio_port_unregister none (some x) u = (false, u)
audio_port_unregister (some port) (some x) u =
    (true, (port_unregister_call (port_block x.unix_client port 0 []) u).unix)

-- The text that a call about a port writes; empty where it fails.
abbrev ask_port : (PortParams → Unix → Reply PortParams) → Option ℕ → Unix → Bytes
ask_port call none u = []
ask_port call (some port) u =
    let r = call (port_block 0 port 0 []) u in
    if succeeded r.status then copy_str portname_max r.block.name else []

unfoldable pub audio_port_name : Option ℕ → Unix → Bytes
unfolding port_name copy_str
audio_port_name port u = ask_port port_name port u

unfoldable pub audio_port_type : Option ℕ → Unix → Bytes
unfolding port_type copy_str
audio_port_type port u = ask_port port_type port u

unfoldable pub audio_port_by_name : Option Bytes → Option Proxy → Unix → Option ℕ × Unix
unfolding port_by_name copy_str
audio_port_by_name name none u = (none, u)
audio_port_by_name none (some x) u = (none, u)
audio_port_by_name (some name) (some x) u =
    let r = port_by_name (port_block x.unix_client 0 0 (copy_str portname_max name)) u in
    (if not (succeeded r.status) || r.block.port == 0 then none else some r.block.port, r.unix)

unfoldable pub audio_port_get_latency_range : Option ℕ → ℕ → Unix → LatencyRange
unfolding port_latency_range
audio_port_get_latency_range none mode u = record { low = 0; high = 0 }
audio_port_get_latency_range (some port) mode u =
    let r = port_latency_range (port_block 0 port mode []) u in
    if succeeded r.status
    then record { low = r.block.lat_min; high = r.block.lat_max }
    else record { low = 0; high = 0 }

unfoldable pub audio_set_process_callback : Option Proxy → Bool × Option Proxy
audio_set_process_callback none = (false, none)
audio_set_process_callback (some x) = (true, some (record x { this = true }))

unfoldable pub audio_set_buffer_size_callback :
    (ℕ → Driver → ℤ × Driver) → Option Proxy → Bool × Option Proxy
audio_set_buffer_size_callback cb none = (false, none)
audio_set_buffer_size_callback cb (some x) =
    (true, some (record x { callbacks = record x.callbacks { buf_cb = some cb } }))

unfoldable pub audio_set_sample_rate_callback :
    (ℕ → Driver → ℤ × Driver) → Option Proxy → Bool × Option Proxy
audio_set_sample_rate_callback cb none = (false, none)
audio_set_sample_rate_callback cb (some x) =
    (true, some (record x { callbacks = record x.callbacks { rate_cb = some cb } }))

unfoldable pub audio_set_latency_callback :
    (ℕ → Driver → Driver) → Option Proxy → Bool × Option Proxy
audio_set_latency_callback cb none = (false, none)
audio_set_latency_callback cb (some x) =
    (true, some (record x { callbacks = record x.callbacks { lat_cb = some cb } }))

-- The first `n` entries of an array of bool; the rest of the block is zero.
abbrev active_to : ℕ → (ℕ → Bool) → ℕ → Bool
active_to n active i = ltb i n && active i

-- A channel count as it goes over the wire.
abbrev wire_count : ℤ → ℕ
wire_count n =
    let k = if is_neg n then 0 else pos_part n in if ltb rt_max_ports k then rt_max_ports else k

-- pipeasio_wow64_bind_rt
unfoldable pub bind_buffers : ℕ → ℕ → ℤ → ℤ → (ℕ → Bool) → (ℕ → Bool) → Option Proxy → Unix → Unix
unfolding bind_rt_call
bind_buffers base size n_in n_out in_active out_active none u = u
bind_buffers base size n_in n_out in_active out_active (some x) u =
    (bind_rt_call
      (record {
        version = abi_version;
        client = x.unix_client;
        binding = record {
          buffer_base = base % 2 ^ 32;
          buffer_size = size % 2 ^ 32;
          n_in = wire_count n_in;
          n_out = wire_count n_out;
          in_active = active_to (wire_count n_in) in_active;
          out_active = active_to (wire_count n_out) out_active;
        };
      })
      u).unix

-- pipeasio_wow64_load_config, pipeasio_wow64_save_config and pipeasio_wow64_config_path.
abbrev loaded_block : Option (Config × ℕ) → Option (Bool × Config)
loaded_block none = none
loaded_block (some (c, f)) = some (not (f == 0), c)

-- The flag and what is written to `*out`; none where nothing is written.
unfoldable pub wow64_load_config : Bool → World → Option (Bool × Config)
unfolding load_config
wow64_load_config unixlib w = if unixlib then loaded_block (load_config w abi_version) else none

abbrev saved_block : Option ℕ → Bool
saved_block none = false
saved_block (some f) = not (f == 0)

unfoldable pub wow64_save_config : Bool → World → Outcome → Config → Bool
unfolding save_config
wow64_save_config unixlib w o c =
    if unixlib then saved_block (save_config w o abi_version c) else false

abbrev path_block : ℕ → Option Bytes → Option Bytes
path_block n none = none
path_block n (some []) = none
path_block n (some (b ∷ bs)) = some (copy_str n (b ∷ bs))

unfoldable pub wow64_config_path : Bool → World → ℕ → Option Bytes
unfolding config_path_call copy_str
wow64_config_path unixlib w n =
    if n == 0 || not unixlib then none else path_block n (config_path_call w abi_version)

abbrev fingerprint_block : Option HiLo → ℕ
fingerprint_block none = 0
fingerprint_block (some w) = from_hi_lo w

-- pipeasio_wow64_config_fingerprint
unfoldable pub wow64_config_fingerprint : Bool → World → (Bytes → Option FileStat) → ℕ
unfolding config_fingerprint from_hi_lo
wow64_config_fingerprint unixlib w stat =
    if unixlib then fingerprint_block (config_fingerprint w stat abi_version) else 0

-- The two calls about the panel, given the answer of the call.
unfoldable pub proxy_simple_call : Bool → (ℕ → Option ℕ) → Bool
proxy_simple_call unixlib call = if unixlib then saved_block (call abi_version) else false

unfoldable pub wow64_launch_panel : Bool → Bool → Bool
unfolding proxy_simple_call launch_panel
wow64_launch_panel unixlib launched = proxy_simple_call unixlib (launch_panel launched)

unfoldable pub wow64_panel_available : Bool → Bool → Bool
unfolding proxy_simple_call panel_available
wow64_panel_available unixlib available = proxy_simple_call unixlib (panel_available available)

-- The library is looked for once: the first answer is kept.
unfoldable pub ensure_unixlib : Bool → Option Bool → Bool × Option Bool
ensure_unixlib loads none = (loads, some loads)
ensure_unixlib loads (some status) = (status, some status)
