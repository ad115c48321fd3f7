-- ===== src/Bridge/Delivery.antt =====
-- src/wow64/audio_unix.c: what the pump gets from its waits is what the data thread has posted.
use pipeasio.Prelude.{ℕ, ℤ, ◌≡◌, true, false, List, [], ◌∷◌, some, arith}
use pipeasio.Driver.Queries.{to_hi_lo}
use pipeasio.Bridge.Sync.{
  Sync, WaitParams, Posting, invoke_post, invoke_finish, pump_waits, take_event, reply,
  bridge_reset, bridge_shutdown,
}
use pipeasio.Bridge.Rendezvous.{
  System, Step, post, finish, take_one, leave, answer, spawn, install, shut, Reach, here, next,
}

-- An event says what was posted.
pub record Carries (e : WaitParams) (p : Posting) : Type 0 where
  pub same_kind : e.kind ≡ p.kind
  pub same_index : e.index ≡ p.index
  pub same_nframes : e.nframes ≡ p.nframes
  pub same_time : e.time_nsec ≡ to_hi_lo p.time_nsec
  pub same_value : e.value ≡ p.value

-- The events are some of the postings, each one of another, in the order of the postings.
pub data Among : List WaitParams → List Posting → Type 0 where
  none_left : {ps : List Posting} → Among [] ps
  skipped :
      {es : List WaitParams} {p : Posting} {ps : List Posting} → Among es ps → Among es (p ∷ ps)
  carried :
      {e : WaitParams} {es : List WaitParams} {p : Posting} {ps : List Posting}
      → Carries e p
      → Among es ps
      → Among (e ∷ es) (p ∷ ps)

-- The event that waits for the pump is the last posting, and the pump's events come before it.
abbrev Untaken : WaitParams → List WaitParams → List Posting → Type 0
Untaken e es [] = ⊥
Untaken e es (p ∷ ps) = Carries e p × Among es ps

-- `untaken` is about the event that is pending and not delivered.
record Delivers (s : System) : Type 0 where
  among : Among s.received s.history
  untaken :
      s.sync.pending ≡ true → s.sync.delivered ≡ false → Untaken s.sync.evt s.received s.history

invoke_post-Carries : (e : Posting) (s t : Sync) → invoke_post e s ≡ some t → Carries t.evt e
unfolding invoke_post
invoke_post-Carries e s t p = record {
  same_kind = ground arith;
  same_index = ground arith;
  same_nframes = ground arith;
  same_time = ground arith;
  same_value = ground arith;
}

-- The pump's copy of the event, for any client.
Untaken-take :
    (p : WaitParams) (s : Sync) (es : List WaitParams) (ps : List Posting)
    → s.shutdown ≡ false
    → Untaken s.evt es ps
    → Among ((take_event p s).0 ∷ es) ps
unfolding take_event
Untaken-take p s es [] d u = absurd u
Untaken-take p s es (q ∷ ps) d u = rw d (
    carried
      (record {
        same_kind = u.0.same_kind;
        same_index = u.0.same_index;
        same_nframes = u.0.same_nframes;
        same_time = u.0.same_time;
        same_value = u.0.same_value;
      })
      u.1)

-- A call that posts no event and delivers none keeps the event, or ends its wait.
abbrev KeepsEvent : Sync → Sync → Type 0
KeepsEvent s t =
    (t.evt ≡ s.evt)
    × (t.pending ≡ true → t.delivered ≡ false → (s.pending ≡ true) × (s.delivered ≡ false))

KeepsEvent-Untaken :
    (s t : Sync) (es : List WaitParams) (ps : List Posting)
    → KeepsEvent s t
    → (s.pending ≡ true → s.delivered ≡ false → Untaken s.evt es ps)
    → t.pending ≡ true
    → t.delivered ≡ false
    → Untaken t.evt es ps
KeepsEvent-Untaken s t es ps k u a b = let h = k.1 a b in rw k.0 (u h.0 h.1)

reply-KeepsEvent :
    (n produced : ℕ) (result : ℤ) (s : Sync) → KeepsEvent s (reply n produced result s)
unfolding reply
reply-KeepsEvent n produced result s = (ground arith, λ a b. ground arith)

install-KeepsEvent : (s : Sync) → KeepsEvent s (record (bridge_reset s) { installed = true })
unfolding bridge_reset
install-KeepsEvent s = (ground arith, λ a b. ground arith)

bridge_shutdown-KeepsEvent : (s : Sync) → KeepsEvent s (bridge_shutdown s)
unfolding bridge_shutdown
bridge_shutdown-KeepsEvent s = (ground arith, λ a b. ground arith)

Step-Delivers : {s t : System} → Step s t → Delivers s → Delivers t
unfolding invoke_finish take_event pump_waits
Step-Delivers {s} (post e t r p) d = record {
  among = skipped d.among;
  untaken = λ a b. (invoke_post-Carries e s.sync t p, d.among);
}
Step-Delivers {s} (finish n r) d = record { among = d.among; untaken = λ a b. cc }
Step-Delivers {s} (take_one p r w u) d = record {
  among = Untaken-take p s.sync s.received s.history u (d.untaken (ground arith) (ground arith));
  untaken = λ a b. ground arith;
}
Step-Delivers {s} (leave r u) d = record { among = d.among; untaken = d.untaken }
Step-Delivers {s} (answer n e produced result r) d = record {
  among = d.among;
  untaken =
      KeepsEvent-Untaken s.sync (reply e.seq produced result s.sync) s.received s.history
        (reply-KeepsEvent e.seq produced result s.sync) d.untaken;
}
Step-Delivers {s} (spawn r) d = record { among = d.among; untaken = d.untaken }
Step-Delivers {s} install d = record {
  among = d.among;
  untaken =
      KeepsEvent-Untaken s.sync (record (bridge_reset s.sync) { installed = true }) s.received
        s.history (install-KeepsEvent s.sync) d.untaken;
}
Step-Delivers {s} shut d = record {
  among = d.among;
  untaken =
      KeepsEvent-Untaken s.sync (bridge_shutdown s.sync) s.received s.history
        (bridge_shutdown-KeepsEvent s.sync) d.untaken;
}

Reach-Delivers : {s : System} → Reach s → Delivers s
Reach-Delivers here = record { among = none_left; untaken = λ a b. cc }
Reach-Delivers (next r st) = Step-Delivers st (Reach-Delivers r)

-- In every state that the data thread, the pump, installing and shutting down can lead to: the events that
-- the pump got from its waits say what was posted, with the kind, the half, the frames, the time and
-- the value of the posting, in the order of posting, and no posting was got twice.
pub received-Among : {s : System} → Reach s → Among s.received s.history
received-Among r = (Reach-Delivers r).among
