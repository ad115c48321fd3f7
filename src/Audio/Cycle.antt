-- ===== src/Audio/Cycle.antt =====
-- One cycle of the running filter: every dequeued buffer goes back, with a chunk that its mapping holds.
use pipeasio.Prelude.{
  ℕ, ◌+◌, ◌/◌, ◌^◌, ◌<◌, ◌≤◌, ◌≡◌, refl, ap, Option, none, some, List, [], ◌∷◌, map, arith, ◌*◌,
  ◌%◌, ltb, min, if◌then◌else◌, Option-cases, Bool-cases, inl, inr, All,
}
use pipeasio.Audio.Filter.{
  Position, dequeue, begin_process, end_process, publish, queue_port, queue_ports, note_position,
  queued_buffer,
}
use pipeasio.Audio.Steady.{IsSteady, view, views}
use pipeasio.Audio.{Port, Client, CycleBuffer, Direction, input, output}
use pipeasio.Buffer.Copy.{clamp_frames}

-- What an output's buffer says of its samples when it goes back: the cycle's frames of four bytes from the
-- start of the mapping, as far as that goes.
abbrev pub filled : ℕ → CycleBuffer → CycleBuffer
filled n b = record b {
  chunk_offset = 0;
  chunk_size = min (n * 4 % 2 ^ 32) b.maxsize;
  chunk_stride = 4;
  chunk_flags = 0;
}

abbrev pub given_back : ℕ → Direction → CycleBuffer → CycleBuffer
given_back n input b = b
given_back n output b = filled n b

-- The ports that PipeWire has a buffer for, in order, each with what becomes of that buffer.
unfoldable pub served : ℕ → (ℕ → Option CycleBuffer) → List Port → List (ℕ × CycleBuffer)
served n dequeued [] = []
served n dequeued (p ∷ ps) =
    let rest = served n dequeued ps in
    if p.filter_port
    then elim (dequeued p.handle) [
      | none ↦ rest
      | some b ↦ (p.handle, given_back n p.direction b) ∷ rest
    ]
    else rest

min_of : (m n : ℕ) → (if ltb n m then n else m) ≡ min m n
min_of m n = ground arith

published : (n : ℕ) (b : CycleBuffer) → publish n b ≡ filled n b
unfolding publish
published n b =
    ap (λ (k : ℕ). record b { chunk_offset = 0; chunk_size = k; chunk_stride = 4; chunk_flags = 0 })
      (min_of (n * 4 % 2 ^ 32) b.maxsize)

queued_given_back :
    (n : ℕ) (d : Direction) (b : CycleBuffer) → queued_buffer n d b ≡ given_back n d b
queued_given_back n input b = refl
queued_given_back n output b = published n b

queued_served :
    (n : ℕ) (dequeued : ℕ → Option CycleBuffer) (ps : List Port)
    → (queue_ports n (map (dequeue dequeued) ps)).0 ≡ served n dequeued ps
unfolding queue_ports queue_port served
queued_served n dequeued [] = refl
queued_served n dequeued (p ∷ ps) = elim (Bool-cases p.filter_port) [
  | inr e ↦ rw e (queued_served n dequeued ps)
  | inl e ↦ elim (Option-cases (dequeued p.handle)) [
    | inl f ↦ rw (e, f) (queued_served n dequeued ps)
    | inr (b, f) ↦
        rw (e, f, queued_given_back n p.direction b)
          (ap ((p.handle, given_back n p.direction b) ∷◌) (queued_served n dequeued ps))
  ]
]

-- In each cycle the filter gives back exactly the buffers that it was handed, each once and in the
-- order of its ports: an input's buffer as it came, an output's with a chunk of the cycle's frames that
-- its mapping holds. An unlinked port or one with no buffer is passed over.
pub end_process-served :
    (position : Option Position) (dequeued : ℕ → Option CycleBuffer) (c : Client)
    → (end_process (begin_process position dequeued c)).0 ≡ served c.buffer_size dequeued c.ports
unfolding end_process begin_process note_position
end_process-served none dequeued c = queued_served c.buffer_size dequeued c.ports
end_process-served (some p) dequeued c = queued_served c.buffer_size dequeued c.ports

queue_port-released :
    (n : ℕ) (dequeued : ℕ → Option CycleBuffer) (p : Port)
    → (queue_port n (dequeue dequeued p)).1.cycle_buffer ≡ none
unfolding queue_port
queue_port-released n dequeued p = ground arith

released :
    (n : ℕ) (dequeued : ℕ → Option CycleBuffer) (ps : List Port)
    → All (λ (p : Port). p.cycle_buffer ≡ none) (queue_ports n (map (dequeue dequeued) ps)).1
unfolding queue_ports queue_port
released n dequeued [] = tt
released n dequeued (p ∷ ps) = (queue_port-released n dequeued p, released n dequeued ps)

-- After a cycle no port holds a buffer any more.
pub end_process-released :
    (position : Option Position) (dequeued : ℕ → Option CycleBuffer) (c : Client)
    → All
        (λ (p : Port). p.cycle_buffer ≡ none)
        (end_process (begin_process position dequeued c)).1.ports
unfolding end_process begin_process note_position
end_process-released none dequeued c = released c.buffer_size dequeued c.ports
end_process-released (some p) dequeued c = released c.buffer_size dequeued c.ports

-- The chunk that is published with an output's buffer has as many frames as the copy into the mapped
-- buffer has written, and lies inside the mapping.
pub publish-clamp_frames :
    {A : Type 0} (buf : List A) (n : ℕ) (b : CycleBuffer)
    → n < 2 ^ 30
    → ((publish n b).chunk_size / 4 ≡ clamp_frames (some buf) (b.maxsize / 4) n)
      × ((publish n b).chunk_offset + (publish n b).chunk_size ≤ b.maxsize)
unfolding publish clamp_frames
publish-clamp_frames buf n b h = ground arith

views-dequeue :
    (dequeued : ℕ → Option CycleBuffer) (ps : List Port)
    → views (map (dequeue dequeued) ps) ≡ views ps
views-dequeue dequeued [] = refl
views-dequeue dequeued (p ∷ ps) =
    ap (λ vs. (p.filter_port, p.capture_latency, p.playback_latency) ∷ vs)
      (views-dequeue dequeued ps)

view-queue_port : (n : ℕ) (p : Port) → view (queue_port n p).1 ≡ view p
unfolding queue_port
view-queue_port n p = elim (Bool-cases p.filter_port) [
  | inr e ↦ rw e refl
  | inl e ↦ elim (Option-cases p.cycle_buffer) [
    | inl f ↦ simp (e, f) refl
    | inr (b, f) ↦ simp (e, f) refl
  ]
]

views-queue_ports : (n : ℕ) (ps : List Port) → views (queue_ports n ps).1 ≡ views ps
unfolding queue_ports
views-queue_ports n [] = refl
views-queue_ports n (p ∷ ps) = rw (view-queue_port n p, views-queue_ports n ps) refl

-- A cycle leaves the filter's side of the client.
pub begin_process-IsSteady :
    (position : Option Position) (dequeued : ℕ → Option CycleBuffer) (c : Client)
    → IsSteady c (begin_process position dequeued c)
unfolding begin_process note_position
begin_process-IsSteady none dequeued c = record {
  switch = refl;
  filters = refl;
  running = refl;
  frames = refl;
  seen = views-dequeue dequeued c.ports;
}
begin_process-IsSteady (some p) dequeued c = record {
  switch = refl;
  filters = refl;
  running = refl;
  frames = refl;
  seen = views-dequeue dequeued c.ports;
}

pub end_process-IsSteady : (c : Client) → IsSteady c (end_process c).1
unfolding end_process
end_process-IsSteady c = record {
  switch = refl;
  filters = refl;
  running = refl;
  frames = refl;
  seen = views-queue_ports c.buffer_size c.ports;
}
