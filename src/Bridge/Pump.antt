-- ===== src/Bridge/Pump.antt =====
-- src/wow64/audio_proxy.c: the pump, and a whole exchange that meets its deadline.
use pipeasio.Prelude.{
  ℕ, ◌+◌, ◌-◌, ◌*◌, ◌%◌, ◌^◌, Option, none, some, List, ◌==◌, if◌then◌else◌, ℤ, pos,
}
use pipeasio.Bridge.Rt.{Invoked}
use pipeasio.Bridge.Sync.{
  Sync, WaitParams, Posting, cb_buffer_switch, cb_buffer_size, cb_sample_rate, cb_latency, no_event,
  invoke_post, invoke_finish, take_event, reply,
}
use pipeasio.Driver.Queries.{HiLo}
use pipeasio.Driver.Transport.{HostCall, is_running, host_buffer_switch}
use pipeasio.Driver.{Driver, Sample}

-- pa_i64_to
unfoldable pub from_hi_lo : HiLo → ℕ
from_hi_lo w = w.hi * 2 ^ 32 + w.lo

-- An int32_t as a uint32_t.
abbrev pub to_uint32 : ℤ → ℕ
to_uint32 (pos n) = n % 2 ^ 32
to_uint32 (ℤ.negsuc n) = (2 ^ 32 - 1 - n) % 2 ^ 32

-- proxy_ctx's callbacks; none is a null pointer.
pub record Callbacks : Type 0 where
  pub buf_cb : Option (ℕ → Driver → ℤ × Driver)
  pub rate_cb : Option (ℕ → Driver → ℤ × Driver)
  pub lat_cb : Option (ℕ → Driver → Driver)

-- The answer, and what the host has made of the driver and the callback buffer.
pub record Served : Type 0 where
  pub seq : ℕ
  pub produced : ℕ
  pub result : ℤ
  pub driver : Driver
  pub memory : List Sample

abbrev unserved : WaitParams → Driver → List Sample → Served
unserved w d m = record { seq = w.seq; produced = 0; result = pos 0; driver = d; memory = m }

abbrev call_back : Option (ℕ → Driver → ℤ × Driver) → WaitParams → Driver → List Sample → Served
call_back none w d m = unserved w d m
call_back (some cb) w d m =
    let r = cb (to_uint32 w.value) d in record (unserved w d m) { result = r.0; driver = r.1 }

abbrev call_latency : Option (ℕ → Driver → Driver) → WaitParams → Driver → List Sample → Served
call_latency none w d m = unserved w d m
call_latency (some cb) w d m = record (unserved w d m) { driver = cb (to_uint32 w.value) d }

abbrev switch_buffers :
    (HostCall → List Sample → List Sample) → WaitParams → Driver → List Sample → Served
switch_buffers host w d m =
    if is_running d.state
    then (let r = host_buffer_switch w.index w.nframes (from_hi_lo w.time_nsec) d in
        record { seq = w.seq; produced = 1; result = pos 0; driver = r.1; memory = host r.0 m })
    else unserved w d m

-- One round of pump_proc, for the event that it got.
unfoldable pub pump_serve :
    (HostCall → List Sample → List Sample) → Callbacks → WaitParams → Driver → List Sample → Served
unfolding host_buffer_switch from_hi_lo
pump_serve host cbs w d m =
    if w.kind == cb_buffer_switch
    then switch_buffers host w d m
    else if w.kind == cb_buffer_size
    then call_back cbs.buf_cb w d m
    else if w.kind == cb_sample_rate
    then call_back cbs.rate_cb w d m
    else if w.kind == cb_latency
    then call_latency cbs.lat_cb w d m
    else unserved w d m

-- A bridge_invoke whose event the pump, asking for client `h`, takes and answers before the deadline.
unfoldable pub prompt_invoke :
    (HostCall → List Sample → List Sample)
    → Callbacks
    → ℕ
    → Posting
    → Sync
    → List Sample
    → Driver
    → Invoked Driver
unfolding invoke_post take_event pump_serve reply invoke_finish
prompt_invoke host cbs h e s m d = elim (invoke_post e s) [
  | none ↦ record { produced = 0; sync = s; memory = m; other = d }
  | some t ↦
      let taken = take_event (record no_event { client = h }) t in
      let served = pump_serve host cbs taken.0 d m in
      let done = invoke_finish (reply served.seq served.produced served.result taken.1) in
      record { produced = done.0; sync = done.1; memory = served.memory; other = served.driver }
]
