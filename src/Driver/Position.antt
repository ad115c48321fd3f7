-- ===== src/Driver/Position.antt =====
-- src/asio.c: the sample position between Start and Stop, and the half of the buffers that is used.
use pipeasio.Prelude.{
  ℕ, suc, ◌+◌, ◌*◌, ◌%◌, ◌^◌, ◌<◌, ◌≡◌, refl, ap, true, some, List, [], ◌∷◌, arith, length,
}
use pipeasio.Driver.Queries.{to_hi_lo, get_sample_position}
use pipeasio.Driver.Transport.{HostCall, Device, start, process_callback, host_buffer_switch, flip}
use pipeasio.Driver.{Driver, prepared, running, Sample, ok}

-- The two words of a 64-bit counter are words, and give it back.
pub to_hi_lo-value :
    (n : ℕ)
    → n < 2 ^ 64
    → ((to_hi_lo n).hi * 2 ^ 32 + (to_hi_lo n).lo ≡ n)
      × ((to_hi_lo n).hi < 2 ^ 32)
      × ((to_hi_lo n).lo < 2 ^ 32)
unfolding to_hi_lo
to_hi_lo-value n h = omega arith

-- Cycles of the audio client, each with its device buffers.
unfoldable pub play : (HostCall → List Sample → List Sample) → ℕ → List Device → Driver → Driver
unfolding process_callback
play host nframes [] d = d
play host nframes (v ∷ vs) d = play host nframes vs (process_callback host nframes v d).driver

-- What a running driver counts.
record Counts (samples index : ℕ) (d : Driver) : Type 0 where
  runs : d.state ≡ running
  counted : d.num_samples ≡ samples % 2 ^ 64
  half : d.buffer_index ≡ index % 2

flip-mod : (i j : ℕ) → i ≡ j % 2 → flip i ≡ suc j % 2
flip-mod i j e = ground arith

add_mod : (a n m : ℕ) → a ≡ n % 2 ^ 64 → (a + m) % 2 ^ 64 ≡ (n + m) % 2 ^ 64
add_mod a n m e = omega arith

process_callback-Counts :
    (host : HostCall → List Sample → List Sample) (nframes : ℕ) (v : Device) (samples index : ℕ)
    (d : Driver)
    → Counts samples index d
    → Counts (samples + nframes) (suc index) (process_callback host nframes v d).driver
unfolding process_callback host_buffer_switch
process_callback-Counts host nframes v samples index d h = simp h.runs (record {
  runs = refl;
  counted = add_mod d.num_samples samples nframes h.counted;
  half = flip-mod d.buffer_index index h.half;
})

play-Counts :
    (host : HostCall → List Sample → List Sample) (nframes : ℕ) (vs : List Device)
    (samples index : ℕ) (d : Driver)
    → Counts samples index d
    → Counts (samples + length vs * nframes) (length vs + index) (play host nframes vs d)
unfolding play
play-Counts host nframes [] samples index d h = record {
  runs = h.runs;
  counted = omega (arith, h.counted);
  half = omega (arith, h.half);
}
play-Counts host nframes (v ∷ vs) samples index d h =
    let r =
      play-Counts host nframes vs (samples + nframes) (suc index) _
        (process_callback-Counts host nframes v samples index d h) in
    record { runs = r.runs; counted = omega (arith, r.counted); half = omega (arith, r.half) }

start-Counts :
    (host : HostCall → List Sample → List Sample) (d : Driver)
    → d.state ≡ prepared
    → Counts 0 1 (start host d).driver
unfolding start host_buffer_switch
start-Counts host d e = simp e (record { runs = refl; counted = refl; half = refl })

-- From Prepared, Start sets the position to 0 whatever it was, and after that k cycles of the client count k times
-- the frames of a cycle, modulo 2 ^ 64; the halves of the buffers alternate, the second one first.
pub play-start-num_samples :
    (host : HostCall → List Sample → List Sample) (nframes : ℕ) (vs : List Device) (d : Driver)
    → d.state ≡ prepared
    → (get_sample_position true (play host nframes vs (start host d).driver) ≡ (
      ok,
      some (
        to_hi_lo (length vs * nframes % 2 ^ 64),
        to_hi_lo (play host nframes vs (start host d).driver).time_stamp,
      ),
    ))
      × ((play host nframes vs (start host d).driver).buffer_index ≡ (length vs + 1) % 2)
unfolding get_sample_position
play-start-num_samples host nframes vs d e =
    let r = play-Counts host nframes vs 0 1 (start host d).driver (start-Counts host d e) in
    let count : (play host nframes vs (start host d).driver).num_samples
        ≡ length vs * nframes % 2 ^ 64 =
      omega (arith, r.counted) in
    let stamp = (play host nframes vs (start host d).driver).time_stamp in
    (ap (λ (n : ℕ). (ok, some (to_hi_lo n, to_hi_lo stamp))) count, r.half)
