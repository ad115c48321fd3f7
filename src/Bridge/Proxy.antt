-- ===== src/Bridge/Proxy.antt =====
-- src/wow64/audio_proxy.c: the functions of audio.h in the 32-bit process. Each fills a parameter block,
-- makes the unix call and reads the block. A client or a text that is none is a null pointer.
use pipeasio.Prelude.{
  ℕ, ◌%◌, ◌^◌, Bool, true, false, not, ◌&&◌, Option, none, some, List, [], ◌==◌, if◌then◌else◌, ℤ,
}
use pipeasio.Audio.Filter.{Answers}
use pipeasio.Audio.Ports.{Link}
use pipeasio.Bridge.Calls.{
  Unix, Status, Reply, success, SimpleParams, SetParams, flag, get_sample_rate, get_buffer_size,
  set_buffer_size_call, set_forced_rate_call, set_follow_device_call, set_rt_priority_call,
  observed_quantum, get_time_nsec, default_changed_call, connect_call, get_client_name,
}
use pipeasio.Bridge.Life.{activate_call, deactivate_call, install_callbacks}
use pipeasio.Bridge.PortCalls.{PortsParams, get_ports_call, get_device_ports_call}
use pipeasio.Bridge.PortList.{build_port_array}
use pipeasio.Bridge.Pump.{Callbacks, from_hi_lo, to_uint32}
use pipeasio.Bridge.{abi_version, portname_max}
use pipeasio.Config.Text.{copy_str}
use pipeasio.Config.{Bytes}

-- proxy_ctx. `this` says that the driver object is set, `pump` that the pump's thread exists.
pub record Proxy : Type 0 where
  pub unix_client : ℕ
  pub this : Bool
  pub callbacks : Callbacks
  pub pump : Bool

abbrev pub succeeded : Status → Bool
succeeded success = true
succeeded _ = false

abbrev simple : Proxy → SimpleParams
simple x = record { version = abi_version; client = x.unix_client; result = 0 }

unfoldable pub simple_u32 :
    (SimpleParams → Unix → Reply SimpleParams) → Option Proxy → Unix → ℕ × Unix
simple_u32 call none u = (0, u)
simple_u32 call (some x) u =
    let r = call (simple x) u in (if succeeded r.status then r.block.result else 0, r.unix)

unfoldable pub set_u32 : (SetParams → Unix → Reply SetParams) → ℕ → Option Proxy → Unix → ℕ × Unix
set_u32 call value none u = (0, u)
set_u32 call value (some x) u =
    let r =
      call (record { version = abi_version; client = x.unix_client; value = value; result = 0 })
        u in
    (if succeeded r.status then r.block.result else 0, r.unix)

abbrev nonzero : ℕ × Unix → Bool × Unix
nonzero r = (not (r.0 == 0), r.1)

unfoldable pub audio_get_sample_rate : Option Proxy → Unix → ℕ × Unix
unfolding simple_u32 get_sample_rate
audio_get_sample_rate x u = simple_u32 get_sample_rate x u

unfoldable pub audio_get_buffer_size : Option Proxy → Unix → ℕ × Unix
unfolding simple_u32 get_buffer_size
audio_get_buffer_size x u = simple_u32 get_buffer_size x u

unfoldable pub audio_set_buffer_size : ℕ → Option Proxy → Unix → Bool × Unix
unfolding set_u32 set_buffer_size_call
audio_set_buffer_size nframes x u = nonzero (set_u32 set_buffer_size_call nframes x u)

unfoldable pub audio_set_forced_rate : ℕ → Option Proxy → Unix → Unix
unfolding set_u32 set_forced_rate_call
audio_set_forced_rate rate x u = (set_u32 set_forced_rate_call rate x u).1

unfoldable pub audio_set_follow_device : Bool → Option Proxy → Unix → Unix
unfolding set_u32 set_follow_device_call
audio_set_follow_device follow x u = (set_u32 set_follow_device_call (flag follow) x u).1

unfoldable pub audio_set_rt_priority : ℤ → Option Proxy → Unix → Unix
unfolding set_u32 set_rt_priority_call
audio_set_rt_priority priority x u = (set_u32 set_rt_priority_call (to_uint32 priority) x u).1

unfoldable pub audio_observed_quantum : Option Proxy → Unix → ℕ × Unix
unfolding simple_u32 observed_quantum
audio_observed_quantum x u = simple_u32 observed_quantum x u

unfoldable pub audio_default_changed : Option Proxy → Unix → Bool × Unix
unfolding simple_u32 default_changed_call
audio_default_changed x u = nonzero (simple_u32 default_changed_call x u)

unfoldable pub audio_get_time_nsec : Option Proxy → Unix → ℕ × Unix
unfolding get_time_nsec
audio_get_time_nsec none u = (0, u)
audio_get_time_nsec (some x) u =
    let r =
      get_time_nsec
        (record { version = abi_version; client = x.unix_client; nsec = record { hi = 0; lo = 0 } })
        u in
    (if succeeded r.status then from_hi_lo r.block.nsec else 0, r.unix)

unfoldable pub audio_get_client_name : Option Proxy → Unix → Bytes × Unix
unfolding get_client_name
audio_get_client_name none u = ([], u)
audio_get_client_name (some x) u =
    let r =
      get_client_name (record { version = abi_version; client = x.unix_client; name = [] }) u in
    (if succeeded r.status then copy_str portname_max r.block.name else [], r.unix)

-- strncpy into a field that is zero: nothing for a null pointer.
abbrev pub strncpy : ℕ → Option Bytes → Bytes
strncpy room none = []
strncpy room (some s) = copy_str room s

unfoldable pub audio_connect :
    (Link → Bool) → Option Bytes → Option Bytes → Option Proxy → Unix → Bool × Unix
unfolding connect_call
audio_connect accepted src dst none u = (false, u)
audio_connect accepted none dst (some x) u = (false, u)
audio_connect accepted (some src) none (some x) u = (false, u)
audio_connect accepted (some src) (some dst) (some x) u =
    let r =
      connect_call accepted
        (record {
          version = abi_version;
          client = x.unix_client;
          src = copy_str portname_max src;
          dst = copy_str portname_max dst;
          ok = 0;
        })
        u in
    (if succeeded r.status then not (r.block.ok == 0) else false, r.unix)

-- What the allocations on both sides answer.
pub record Memory : Type 0 where
  pub block_ok : Bool
  pub client_ok : Bool
  pub array_ok : Bool
  pub dup_ok : ℕ → Bool

unfoldable pub get_ports_common :
    (PortsParams → Unix → Reply PortsParams)
    → Memory
    → Option Bytes
    → Option Bytes
    → Option Bytes
    → ℕ
    → Option Proxy
    → Unix
    → Option (List Bytes) × Unix
get_ports_common call mem a b device flags none u = (none, u)
get_ports_common call mem a b device flags (some x) u =
    if not mem.block_ok
    then (none, u)
    else let r =
        call
          (record {
            version = abi_version;
            client = x.unix_client;
            flags = flags % 2 ^ 32;
            pattern = strncpy portname_max a;
            type_name = strncpy portname_max b;
            node = strncpy portname_max device;
            count = 0;
            names = [];
          })
          u in
      (
        if succeeded r.status
            then build_port_array mem.array_ok mem.dup_ok r.block.count r.block.names
            else none,
        r.unix,
      )

unfoldable pub audio_get_ports :
    Memory → Option Bytes → Option Bytes → ℕ → Option Proxy → Unix → Option (List Bytes) × Unix
unfolding get_ports_common get_ports_call
audio_get_ports mem pattern type_name flags x u =
    get_ports_common (get_ports_call mem.client_ok) mem pattern type_name none flags x u

unfoldable pub audio_get_device_ports :
    Memory → Option Bytes → ℕ → Option Proxy → Unix → Option (List Bytes) × Unix
unfolding get_ports_common get_device_ports_call
audio_get_device_ports mem node flags x u =
    get_ports_common (get_device_ports_call mem.client_ok) mem none none node flags x u

unfoldable pub audio_activate : Answers → Option Proxy → Unix → Bool × Option Proxy × Unix
unfolding install_callbacks activate_call
audio_activate w none u = (false, none, u)
audio_activate w (some x) u =
    let i = install_callbacks (simple x) u in
    let r = activate_call w (simple x) i.unix in
    (not (r.block.result == 0), some (record x { pump = true }), r.unix)

-- pump_join; `on_pump` says that the caller is the pump's thread.
unfoldable pub pump_join : Bool → Proxy → Proxy
pump_join on_pump x = if x.pump && not on_pump then record x { pump = false } else x

unfoldable pub audio_deactivate : Bool → Option Proxy → Unix → Bool × Option Proxy × Unix
unfolding deactivate_call pump_join
audio_deactivate on_pump none u = (false, none, u)
audio_deactivate on_pump (some x) u =
    let r = deactivate_call (simple x) u in
    (not (r.block.result == 0), some (pump_join on_pump x), r.unix)
