-- ===== src/Buffer/Copy.antt =====
-- include/audio.h: audio_clamp_frames, audio_silence, audio_gather and audio_scatter. A device
-- buffer is `none` when it is not mapped; its list has room for at least `avail` frames.
use pipeasio.Prelude.{
  ℕ, ◌+◌, ◌-◌, ◌≤◌, ◌≡◌, List, [], Option, none, some, arith, ltb, if◌then◌else◌, ◌==◌, length,
  get_elem?, take, drop, replicate, length-take, length-replicate,
}
use pipeasio.Buffer.Memory.{
  write_at, length-write_at, get_elem?-write_at, get_elem?-take, get_elem?-drop,
  get_elem?-replicate, length-drop,
}

module _ {A : Type 0} where
  unfoldable pub clamp_frames : Option (List A) → ℕ → ℕ → ℕ
  clamp_frames none avail nframes = 0
  clamp_frames (some buf) avail nframes = if ltb avail nframes then avail else nframes

  -- `silent` is the sample that memset writes, 0.0f.
  unfoldable pub silence : A → Option (List A) → ℕ → Option (List A)
  silence silent none n = none
  silence silent (some buf) n =
      if n == 0 then some buf else some (write_at 0 (replicate n silent) buf)

  abbrev pub source : Option (List A) → List A
  source none = []
  source (some buf) = buf

  -- Device to host: the clamped copy to `pool + off`, and zeros up to `nframes`.
  unfoldable pub gather : A → List A → ℕ → Option (List A) → ℕ → ℕ → List A
  unfolding clamp_frames
  gather silent pool off src avail nframes =
      let n = clamp_frames src avail nframes in
      let copied = if n == 0 then pool else write_at off (take n (source src)) pool in
      if ltb n nframes then write_at (off + n) (replicate (nframes - n) silent) copied else copied

  -- Host to device: the clamped copy from `pool + off` into a mapped buffer.
  unfoldable pub scatter_frames : List A → List A → ℕ → ℕ → ℕ → List A
  unfolding clamp_frames
  scatter_frames buf pool off avail nframes =
      let n = clamp_frames (some buf) avail nframes in
      if n == 0 then buf else write_at 0 (take n (drop off pool)) buf

  unfoldable pub scatter : Option (List A) → List A → ℕ → ℕ → ℕ → Option (List A)
  unfolding scatter_frames
  scatter none pool off avail nframes = none
  scatter (some buf) pool off avail nframes = some (scatter_frames buf pool off avail nframes)

  pub clamp_frames-le :
      (b : Option (List A)) (avail nframes : ℕ)
      → (clamp_frames b avail nframes ≤ nframes) × (clamp_frames b avail nframes ≤ avail)
  unfolding clamp_frames
  clamp_frames-le none avail nframes = omega arith
  clamp_frames-le (some b) avail nframes = ground arith

  -- What the device side promises: a mapped buffer has room for the frames that it advertises.
  abbrev pub HasRoom : Option (List A) → ℕ → Type 0
  HasRoom none avail = Unit {0}
  HasRoom (some buf) avail = avail ≤ length buf

  length-taken :
      (src : Option (List A)) (avail nframes : ℕ)
      → HasRoom src avail
      → length (take (clamp_frames src avail nframes) (source src)) ≡ clamp_frames src avail nframes
  unfolding clamp_frames
  length-taken none avail nframes h = omega arith
  length-taken (some buf) avail nframes h =
      ground (arith, length-take (if ltb avail nframes then avail else nframes) buf)

  pub length-gather :
      (silent : A) (pool : List A) (off : ℕ) (src : Option (List A)) (avail nframes : ℕ)
      → length (gather silent pool off src avail nframes) ≡ length pool
  unfolding gather
  length-gather silent pool off src avail nframes =
      let n = clamp_frames src avail nframes in
      let copied = if n == 0 then pool else write_at off (take n (source src)) pool in
      ground (
        arith,
        length-write_at off (take n (source src)) pool,
        length-write_at (off + n) (replicate (nframes - n) silent) copied,
      )

  copied : List A → ℕ → Option (List A) → ℕ → List A
  copied pool off src n = if n == 0 then pool else write_at off (take n (source src)) pool

  length-copied :
      (pool : List A) (off : ℕ) (src : Option (List A)) (n : ℕ)
      → length (copied pool off src n) ≡ length pool
  unfolding copied
  length-copied pool off src n = ground (arith, length-write_at off (take n (source src)) pool)

  get_elem?-copied :
      (pool : List A) (off : ℕ) (src : Option (List A)) (n i : ℕ)
      → length (take n (source src)) ≡ n
      → off + n ≤ length pool
      → get_elem? (copied pool off src n) i ≡ (
          if ltb i off
          then get_elem? pool i
          else if ltb i (off + n)
          then get_elem? (source src) (i - off)
          else get_elem? pool i)
  unfolding copied
  get_elem?-copied pool off src n i e h = ground (
    arith,
    get_elem?-write_at off (take n (source src)) pool i,
    get_elem?-take n (source src) (i - off),
  )

  -- Where a mapped device buffer has the frames that it advertises and the places lie in the pool,
  -- `gather` fills the `nframes` places from `off` on, with the device's frames as far as they go
  -- and zeros behind them, and changes nothing else.
  pub get_elem?-gather :
      (silent : A) (pool : List A) (off : ℕ) (src : Option (List A)) (avail nframes i : ℕ)
      → HasRoom src avail
      → off + nframes ≤ length pool
      → get_elem? (gather silent pool off src avail nframes) i ≡ (
          if ltb i off
          then get_elem? pool i
          else if ltb i (off + clamp_frames src avail nframes)
          then get_elem? (source src) (i - off)
          else if ltb i (off + nframes)
          then some silent
          else get_elem? pool i)
  unfolding gather copied
  get_elem?-gather silent pool off src avail nframes i room h =
      let n = clamp_frames src avail nframes in
      let fits : n ≤ nframes = (clamp_frames-le src avail nframes).0 in
      ground (
        arith,
        get_elem?-write_at (off + n) (replicate (nframes - n) silent) (copied pool off src n) i,
        get_elem?-replicate (nframes - n) silent (i - (off + n)),
        length-replicate (nframes - n) silent,
        length-copied pool off src n,
        get_elem?-copied pool off src n i (length-taken src avail nframes room),
      )

  -- Where the device buffer has the frames that it advertises and the places lie in the pool,
  -- `scatter` fills a mapped device buffer's first frames, as many as it has room for, from `off`
  -- on in the pool, and changes nothing behind them.
  pub get_elem?-scatter_frames :
      (buf pool : List A) (off avail nframes i : ℕ)
      → avail ≤ length buf
      → off + nframes ≤ length pool
      → get_elem? (scatter_frames buf pool off avail nframes) i ≡ (
          if ltb i (clamp_frames (some buf) avail nframes)
          then get_elem? pool (off + i)
          else get_elem? buf i)
  unfolding scatter_frames
  get_elem?-scatter_frames buf pool off avail nframes i room h =
      let n = clamp_frames (some buf) avail nframes in
      let frames : n ≤ nframes = (clamp_frames-le (some buf) avail nframes).0 in
      let space : n ≤ avail = (clamp_frames-le (some buf) avail nframes).1 in
      let taken : length (take n (drop off pool)) ≡ n =
        omega (arith, length-take n (drop off pool), length-drop off pool) in
      ground (
        arith,
        get_elem?-write_at 0 (take n (drop off pool)) buf i,
        get_elem?-take n (drop off pool) i,
        get_elem?-drop off pool i,
      )
