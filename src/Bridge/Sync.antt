-- ===== src/Bridge/Sync.antt =====
-- src/wow64/audio_unix.c: the exchange between the data thread, which posts an event and waits for the
-- answer, and the 32-bit pump, which takes the event and answers. Each function is what one thread does
-- while it holds the lock.
use pipeasio.Prelude.{
  ℕ, zero, suc, ◌+◌, ◌-◌, ◌/◌, ◌%◌, ◌^◌, Bool, true, false, ◌&&◌, ◌||◌, not, Option, none, some,
  ◌==◌, leb, if◌then◌else◌, ℤ, pos,
}
use pipeasio.Bridge.{abi_version}
use pipeasio.Driver.Queries.{HiLo, to_hi_lo}

-- pa_wait_params
pub record WaitParams : Type 0 where
  pub version : ℕ
  pub client : ℕ
  pub seq : ℕ
  pub kind : ℕ
  pub index : ℕ
  pub nframes : ℕ
  pub time_nsec : HiLo
  pub value : ℤ
  pub shutdown : ℕ

-- enum pa_cb_kind
abbrev pub cb_buffer_switch : ℕ
cb_buffer_switch = 0

abbrev pub cb_buffer_size : ℕ
cb_buffer_size = 1

abbrev pub cb_sample_rate : ℕ
cb_sample_rate = 2

abbrev pub cb_latency : ℕ
cb_latency = 3

-- The members of client_ctx that the exchange is about.
pub record Sync : Type 0 where
  pub sync_init : Bool
  pub rt_raised : Bool
  pub installed : Bool
  pub pending : Bool
  pub delivered : Bool
  pub reply_ready : Bool
  pub shutdown : Bool
  pub seq : ℕ
  pub evt : WaitParams
  pub produced : ℕ
  pub result : ℤ

abbrev pub no_event : WaitParams
no_event = record {
  version = 0;
  client = 0;
  seq = 0;
  kind = 0;
  index = 0;
  nframes = 0;
  time_nsec = record { hi = 0; lo = 0 };
  value = pos 0;
  shutdown = 0;
}

-- calloc's zeros.
abbrev pub zero_sync : Sync
zero_sync = record {
  sync_init = false;
  rt_raised = false;
  installed = false;
  pending = false;
  delivered = false;
  reply_ready = false;
  shutdown = false;
  seq = 0;
  evt = no_event;
  produced = 0;
  result = pos 0;
}

-- What the four pthread init calls answer.
pub record InitAnswers : Type 0 where
  pub prod_mutex_ok : Bool
  pub mutex_ok : Bool
  pub ready_ok : Bool
  pub done_ok : Bool

unfoldable pub bridge_init : InitAnswers → Sync → Bool × Sync
bridge_init a s =
    if a.prod_mutex_ok && (a.mutex_ok && (a.ready_ok && a.done_ok))
    then (true, record s { sync_init = true })
    else (false, s)

unfoldable pub bridge_reset : Sync → Sync
bridge_reset s = if not s.sync_init then s else record s {
  pending = false;
  delivered = false;
  reply_ready = false;
  shutdown = false;
  rt_raised = false;
  produced = 0;
  result = pos 0;
}

unfoldable pub bridge_shutdown : Sync → Sync
bridge_shutdown s =
    if not s.sync_init then s else record s { shutdown = true; pending = false; reply_ready = true }

unfoldable pub bridge_destroy : Sync → Sync
unfolding bridge_shutdown
bridge_destroy s = if not s.sync_init then s else record (bridge_shutdown s) { sync_init = false }

pub record Posting : Type 0 where
  pub kind : ℕ
  pub index : ℕ
  pub nframes : ℕ
  pub time_nsec : ℕ
  pub value : ℤ

-- bridge_invoke up to its wait: none where it returns 0 at once.
unfoldable pub invoke_post : Posting → Sync → Option Sync
unfolding to_hi_lo
invoke_post e s =
    if not s.sync_init || not s.installed
    then none
    else if s.shutdown
    then none
    else let seq = (s.seq + 1) % 2 ^ 32 in
      some (record s {
        evt = record {
          version = abi_version;
          client = 0;
          seq = seq;
          kind = e.kind;
          index = e.index;
          nframes = e.nframes;
          time_nsec = to_hi_lo e.time_nsec;
          value = e.value;
          shutdown = 0;
        };
        seq = seq;
        pending = true;
        delivered = false;
        reply_ready = false;
      })

-- The test of the wait for the answer.
unfoldable pub invoke_waits : Sync → Bool
invoke_waits s = not s.reply_ready && not s.shutdown

-- bridge_invoke behind its wait, which ends by the test, in time or not.
unfoldable pub invoke_finish : Sync → ℕ × Sync
invoke_finish s =
    (if s.reply_ready && not s.shutdown then s.produced else 0, record s { pending = false })

-- PAU_RT_DEADLINE_FLOOR_NS
abbrev pub deadline_floor : ℕ
deadline_floor = 5000000

-- The carry loop on the deadline's seconds and nanoseconds.
unfoldable pub carry_seconds : ℕ → ℕ × ℕ → ℕ × ℕ
carry_seconds zero t = t
carry_seconds (suc fuel) (sec, nsec) =
    let rest = carry_seconds fuel (suc sec, nsec - 1000000000) in
    if leb 1000000000 nsec then rest else (sec, nsec)

-- One round of the loop for each second of the budget, and one for the clock's part of a second.
unfoldable pub deadline_of : ℕ → ℕ × ℕ → ℕ × ℕ
unfolding carry_seconds
deadline_of budget (sec, nsec) =
    let wait = if budget == 0 then deadline_floor else budget in
    carry_seconds (wait / 1000000000 + 2) (sec, nsec + wait)

-- The test of the pump's wait.
unfoldable pub pump_waits : Sync → Bool
pump_waits s = not (s.pending && not s.delivered) && not s.shutdown

-- wow64_wait_callback behind its wait.
unfoldable pub take_event : WaitParams → Sync → WaitParams × Sync
take_event p s =
    if s.shutdown
    then (record p { shutdown = 1 }, s)
    else (record s.evt { client = p.client; shutdown = 0 }, record s { delivered = true })

-- The part of wow64_reply_callback under the lock.
unfoldable pub reply : ℕ → ℕ → ℤ → Sync → Sync
reply seq produced result s =
    if not s.shutdown && (s.pending && seq == s.seq)
    then record s { produced = produced; result = result; reply_ready = true }
    else s
