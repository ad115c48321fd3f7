-- ===== src/Bridge.antt =====
-- include/pipeasio_unix_abi.h and src/wow64: the bridge between the 32-bit driver (audio_proxy.c) and
-- the 64-bit audio client (audio_unix.c). This file has the constants of the wire.
pub mod Tokens
pub mod Handles
pub mod Sync
pub mod Rendezvous
pub mod Exchange
pub mod Delivery
pub mod Rt
pub mod Pump
pub mod Refinement
pub mod PortList
pub mod Calls
pub mod PortCalls
pub mod Life
pub mod Proxy
pub mod Front
pub mod Interface
pub mod Agreement
pub mod Opening
pub mod Deadline
pub mod Invariant
use pipeasio.Prelude.{ℕ}

abbrev pub abi_version : ℕ
abi_version = 3

-- PAU_NAME_MAX, PAU_TYPE_MAX, PAU_PORTNAME_MAX, PAU_PORTS_BLOB, PAU_RT_MAX_PORTS
abbrev pub name_max : ℕ
name_max = 32

abbrev pub type_max : ℕ
type_max = 64

abbrev pub portname_max : ℕ
portname_max = 256

abbrev pub ports_blob : ℕ
ports_blob = 16384

abbrev pub rt_max_ports : ℕ
rt_max_ports = 256
