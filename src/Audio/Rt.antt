-- ===== src/Audio/Rt.antt =====
-- src/audio.c: the SCHED_FIFO priority of the data thread. What pthread_setschedparam and getrlimit
-- answer is given.
use pipeasio.Prelude.{
  ℕ, Bool, true, false, not, ◌&&◌, ◌≡◌, ◌≤◌, ◌⊎◌, Option, none, some, ◌==◌, if◌then◌else◌, ltb, ℤ,
  pos, negsuc, arith,
}
use pipeasio.Config.{max_rt_priority}

-- audio_rt_state: the current priority, 0 for none, and the one of config.ini, 0 for none.
pub record RtState : Type 0 where
  pub rt_priority : ℕ
  pub config_priority : ℤ

pub data SetResult : Type 0 where
  set_ok set_eperm set_failed : SetResult

-- What the system answers to a request for a priority, and the soft limit: none where getrlimit fails
-- or there is no limit.
pub record Scheduler : Type 0 where
  pub set_fifo : ℕ → SetResult
  pub set_other_ok : Bool
  pub limit : Option ℕ

abbrev default_priority : ℕ
default_priority = 15

-- The positive part of an `int`: 0 for `<= 0`.
abbrev pub positive : ℤ → ℕ
positive (pos n) = n
positive (negsuc n) = 0

-- The priority that is asked for first.
unfoldable pub wanted_priority : RtState → ℤ → ℕ
wanted_priority s requested =
    let asked =
      if positive s.config_priority == 0 then positive requested else positive s.config_priority in
    let chosen = if asked == 0 then default_priority else asked in
    if ltb max_rt_priority chosen then max_rt_priority else chosen

abbrev settled : RtState → ℕ → SetResult → Bool × RtState
settled s p set_ok = (true, record s { rt_priority = p })
settled s p set_eperm = (false, s)
settled s p set_failed = (false, s)

-- After EPERM: once more at the limit, where that is lower.
retry : Scheduler → RtState → ℕ → Option ℕ → Bool × RtState
retry sched s p none = (false, s)
retry sched s p (some cap) =
    if not (cap == 0) && ltb cap p then settled s cap (sched.set_fifo cap) else (false, s)

after_first : Scheduler → RtState → ℕ → SetResult → Bool × RtState
unfolding retry
after_first sched s p set_ok = (true, record s { rt_priority = p })
after_first sched s p set_eperm = retry sched s p sched.limit
after_first sched s p set_failed = (false, s)

-- The flag is the result 0; false is -1.
unfoldable pub rt_acquire : Scheduler → ℤ → RtState → Bool × RtState
unfolding wanted_priority after_first
rt_acquire sched requested s =
    let p = wanted_priority s requested in after_first sched s p (sched.set_fifo p)

unfoldable pub rt_drop : Scheduler → RtState → Bool × RtState
rt_drop sched s =
    if s.rt_priority == 0
    then (true, s)
    else if sched.set_other_ok
    then (true, record s { rt_priority = 0 })
    else (false, s)

-- A request ends in one of two ways.  Either it succeeds at a priority from 1 to 80 which the
-- scheduler has accepted, and which is at most the configured one where that is positive; or it
-- fails and leaves the state as it was.
pub rt_acquire_result :
    (sched : Scheduler) (requested : ℤ) (s : RtState)
    → let r = rt_acquire sched requested s in
      ((r.0 ≡ true)
        × (1 ≤ r.1.rt_priority)
        × (r.1.rt_priority ≤ 80)
        × (sched.set_fifo r.1.rt_priority ≡ set_ok)
        × (r.1.rt_priority
            ≤ (if positive s.config_priority == 0 then 80 else positive s.config_priority))
        × (r.1.config_priority ≡ s.config_priority))
      ⊎ ((r.0 ≡ false) × (r.1 ≡ s))
unfolding rt_acquire
rt_acquire_result sched requested s = ground arith
