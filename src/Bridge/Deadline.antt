-- ===== src/Bridge/Deadline.antt =====
-- src/wow64/audio_unix.c: the deadline of an exchange.
use pipeasio.Prelude.{
  ℕ, zero, suc, ◌+◌, ◌-◌, ◌*◌, ◌/◌, ◌<◌, ◌≡◌, leb, ◌==◌, if◌then◌else◌, arith, Bool-cases, inl, inr,
}
use pipeasio.Bridge.Sync.{carry_seconds, deadline_of, deadline_floor}

abbrev pub total : ℕ × ℕ → ℕ
total (sec, nsec) = sec * 1000000000 + nsec

-- With a round for each second the carry ends, and the time is the same.
carry_seconds_lem :
    (fuel sec nsec : ℕ)
    → nsec < fuel * 1000000000
    → ((carry_seconds fuel (sec, nsec)).1 < 1000000000)
      × (total (carry_seconds fuel (sec, nsec)) ≡ total (sec, nsec))
unfolding carry_seconds
carry_seconds_lem zero sec nsec h = absurd (omega arith)
carry_seconds_lem (suc fuel) sec nsec h = elim (Bool-cases (leb 1000000000 nsec)) [
  | inl more ↦
      let ih = carry_seconds_lem fuel (suc sec) (nsec - 1000000000) (ground arith) in
      ground (arith, ih.0, ih.1)
  | inr done ↦ ground arith
]

-- Where the clock's nanoseconds are less than a second, the carry loop has rounds enough: the deadline's
-- nanoseconds are less than a second too, and the deadline lies behind the clock by the budget, or by 5
-- milliseconds where there is none.
pub deadline_of-total :
    (budget sec nsec : ℕ)
    → nsec < 1000000000
    → ((deadline_of budget (sec, nsec)).1 < 1000000000)
      × (total (deadline_of budget (sec, nsec))
          ≡ total (sec, nsec) + (if budget == 0 then deadline_floor else budget))
unfolding deadline_of
deadline_of-total budget sec nsec h =
    let wait = if budget == 0 then deadline_floor else budget in
    let r = carry_seconds_lem (wait / 1000000000 + 2) sec (nsec + wait) (omega arith) in
    (r.0, omega (arith, r.1))
