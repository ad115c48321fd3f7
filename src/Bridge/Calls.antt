-- ===== src/Bridge/Calls.antt =====
-- src/wow64/audio_unix.c: the state behind the unix calls, and the calls that ask a client or set it.
-- Each call gets its parameter block and gives the status, the block behind the call, and the state.
use pipeasio.Prelude.{ℕ, Bool, true, false, not, Option, none, some, ◌==◌, if◌then◌else◌}
use pipeasio.Audio.{
  Client, set_buffer_size, set_forced_rate, set_follow_device, take_default_changed,
}
use pipeasio.Audio.Ports.{Link, connect}
use pipeasio.Bridge.Rt.{Context}
use pipeasio.Bridge.Tokens.{Pointer, context, port, Table, tok_get}
use pipeasio.Bridge.{abi_version, portname_max}
use pipeasio.Config.Text.{copy_str}
use pipeasio.Config.{Bytes}
use pipeasio.Driver.Queries.{HiLo, to_hi_lo}

-- The tokens, and the contexts by their addresses.
pub record Unix : Type 0 where
  pub tokens : Table
  pub contexts : ℕ → Option Context
  pub next_address : ℕ

-- The NTSTATUS values; `undefined` is for a handle that stands for something else than the call takes it
-- for, of which C says nothing.
pub data Status : Type 0 where
  success invalid_parameter invalid_handle no_memory undefined : Status

pub record Reply (P : Type 0) : Type 0 where
  pub status : Status
  pub block : P
  pub unix : Unix

abbrev pub answer : {P : Type 0} → Status → P → Unix → Reply P
answer s p u = record { status = s; block = p; unix = u }

pub data Found : Type 0 where
  missing : Found
  found : (address : ℕ) → Context → Found
  alien : Found

abbrev context_at : ℕ → Option Context → Found
context_at a none = alien
context_at a (some cc) = found a cc

abbrev pointed : Unix → Option Pointer → Found
pointed u none = missing
pointed u (some (context a)) = context_at a (u.contexts a)
pointed u (some (port a h)) = alien

unfoldable pub cc_get : Unix → ℕ → Found
unfolding tok_get
cc_get u h = pointed u (tok_get u.tokens h)

abbrev pub after_found : {P : Type 0} → Found → P → Unix → (ℕ → Context → Reply P) → Reply P
after_found missing p u k = answer invalid_handle p u
after_found alien p u k = answer undefined p u
after_found (found a cc) p u k = k a cc

-- PAU_CHECK, cc_get and the test for null, which most calls start with.
abbrev pub on_client : {P : Type 0} → ℕ → ℕ → P → Unix → (ℕ → Context → Reply P) → Reply P
on_client version h p u k =
    if version == abi_version then after_found (cc_get u h) p u k else answer invalid_parameter p u

abbrev pub put_context : Unix → ℕ → Context → Unix
put_context u a cc = record u { contexts = λ b. if b == a then some cc else u.contexts b }

abbrev pub put_client : Unix → ℕ → Context → Client → Unix
put_client u a cc c = put_context u a (record cc { client = c })

-- pa_simple_params, pa_set_u32_params, pa_time_params, pa_connect_params, pa_name_params
pub record SimpleParams : Type 0 where
  pub version : ℕ
  pub client : ℕ
  pub result : ℕ

pub record SetParams : Type 0 where
  pub version : ℕ
  pub client : ℕ
  pub value : ℕ
  pub result : ℕ

pub record TimeParams : Type 0 where
  pub version : ℕ
  pub client : ℕ
  pub nsec : HiLo

pub record ConnectParams : Type 0 where
  pub version : ℕ
  pub client : ℕ
  pub src : Bytes
  pub dst : Bytes
  pub ok : ℕ

pub record NameParams : Type 0 where
  pub version : ℕ
  pub client : ℕ
  pub name : Bytes

abbrev pub flag : Bool → ℕ
flag true = 1
flag false = 0

unfoldable pub get_sample_rate : SimpleParams → Unix → Reply SimpleParams
unfolding cc_get
get_sample_rate p u =
    on_client p.version p.client p u
      λ a cc. answer success (record p { result = cc.client.sample_rate }) u

unfoldable pub get_buffer_size : SimpleParams → Unix → Reply SimpleParams
unfolding cc_get
get_buffer_size p u =
    on_client p.version p.client p u
      λ a cc. answer success (record p { result = cc.client.buffer_size }) u

-- The context's callback for the size, which audio_set_buffer_size calls, is bridge_invoke with an event of
-- the pump; here the client keeps the size that it was called with.
unfoldable pub set_buffer_size_call : SetParams → Unix → Reply SetParams
unfolding cc_get
set_buffer_size_call p u = on_client p.version p.client p u λ a cc.
    let r = set_buffer_size p.value cc.client in
    answer success (record p { result = flag r.0 }) (put_client u a cc r.1)

unfoldable pub set_forced_rate_call : SetParams → Unix → Reply SetParams
unfolding cc_get
set_forced_rate_call p u = on_client p.version p.client p u λ a cc.
    answer success (record p { result = 1 }) (put_client u a cc (set_forced_rate p.value cc.client))

unfoldable pub set_follow_device_call : SetParams → Unix → Reply SetParams
unfolding cc_get
set_follow_device_call p u = on_client p.version p.client p u λ a cc.
    answer success (record p { result = 1 })
      (put_client u a cc (set_follow_device (not (p.value == 0)) cc.client))

-- The client of the 64-bit side leaves the priority alone.
unfoldable pub set_rt_priority_call : SetParams → Unix → Reply SetParams
unfolding cc_get
set_rt_priority_call p u =
    on_client p.version p.client p u λ a cc. answer success (record p { result = 1 }) u

unfoldable pub observed_quantum : SimpleParams → Unix → Reply SimpleParams
unfolding cc_get
observed_quantum p u =
    on_client p.version p.client p u
      λ a cc. answer success (record p { result = cc.client.observed_quantum }) u

unfoldable pub get_time_nsec : TimeParams → Unix → Reply TimeParams
unfolding cc_get
get_time_nsec p u =
    on_client p.version p.client p u
      λ a cc. answer success (record p { nsec = to_hi_lo cc.client.last_clock_nsec }) u

unfoldable pub default_changed_call : SimpleParams → Unix → Reply SimpleParams
unfolding cc_get
default_changed_call p u = on_client p.version p.client p u λ a cc.
    let r = take_default_changed cc.client in
    answer success (record p { result = flag r.0 }) (put_client u a cc r.1)

-- `accepted l` says whether the link that is asked for is made.
unfoldable pub connect_call : (Link → Bool) → ConnectParams → Unix → Reply ConnectParams
unfolding cc_get
connect_call accepted p u = on_client p.version p.client p u λ a cc.
    answer success
      (record p {
        ok = elim (connect cc.client (some p.src) (some p.dst)) [
          | none ↦ 0
          | some l ↦ flag (accepted l)
        ];
      })
      u

unfoldable pub get_client_name : NameParams → Unix → Reply NameParams
unfolding cc_get
get_client_name p u =
    on_client p.version p.client p u
      λ a cc. answer success (record p { name = copy_str portname_max cc.client.name }) u
