-- ===== src/Bridge/Invariant.antt =====
-- src/wow64/audio_unix.c: the invariant of the exchange, and what single calls do to its parts.
use pipeasio.Prelude.{
  ℕ, suc, ◌+◌, ◌%◌, ◌^◌, ◌≤◌, ◌<◌, ◌≡◌, ◌⊎◌, refl, Bool, true, false, ◌&&◌, not, some, List, [],
  ◌∷◌, ◌==◌, ℤ, arith, Bool-cases, inl, inr,
}
use pipeasio.Bridge.Sync.{
  Sync, WaitParams, Posting, invoke_post, reply, bridge_reset, bridge_shutdown,
}
use pipeasio.Bridge.Rendezvous.{
  Producer, resting, waiting, Pump, listening, calling, ended, System, opened,
}

-- The numbers fall, and the first lies below the bound.
abbrev pub FallsFrom : ℕ → List ℕ → Type 0
FallsFrom bound [] = Unit {0}
FallsFrom bound (n ∷ ns) = (n < bound) × FallsFrom n ns

abbrev pub PumpOk : Pump → ℕ → Bool → Bool → Type 0
PumpOk listening posted down ready = Unit {0}
PumpOk ended posted down ready = Unit {0}
PumpOk (calling n e) posted down ready =
    (n ≤ posted) × (e.seq ≡ n % 2 ^ 32) × (down ≡ false → ready ≡ false)

abbrev pub ProducerOk : Producer → ℕ → Type 0
ProducerOk resting posted = Unit {0}
ProducerOk (waiting n) posted = n ≡ posted

-- The event that the pump is calling the host with is the last that it has taken.
abbrev pub HeldOk : Pump → List ℕ → Type 0
HeldOk listening taken = Unit {0}
HeldOk ended taken = Unit {0}
HeldOk (calling n e) taken = (others : List ℕ) × (taken ≡ n ∷ others)

pub record Inv (s : System) : Type 0 where
  pub numbered : s.sync.seq ≡ s.posted % 2 ^ 32
  pub stamped : s.sync.evt.seq ≡ s.posted % 2 ^ 32
  pub pump_ok : PumpOk s.pump s.posted s.sync.shutdown s.sync.reply_ready
  pub producer_ok : ProducerOk s.producer s.posted
  pub held_ok : HeldOk s.pump s.taken
  pub unanswered : s.sync.pending ≡ true → s.sync.delivered ≡ false → s.sync.reply_ready ≡ false
  pub matched :
      s.sync.reply_ready ≡ true
      → s.sync.shutdown ≡ false
      → s.answered ≡ some (s.posted, s.sync.produced)
  pub falling : FallsFrom (suc s.posted) s.taken
  pub untaken : s.sync.pending ≡ true → s.sync.delivered ≡ false → FallsFrom s.posted s.taken

pub opened-Inv : Inv opened
opened-Inv = record {
  numbered = refl;
  stamped = refl;
  pump_ok = tt;
  held_ok = tt;
  producer_ok = tt;
  unanswered = λ e f. refl;
  matched = λ e f. cc;
  falling = tt;
  untaken = λ e f. tt;
}

pub FallsFrom-mono : (m n : ℕ) (ns : List ℕ) → m ≤ n → FallsFrom m ns → FallsFrom n ns
FallsFrom-mono m n [] h f = tt
FallsFrom-mono m n (x ∷ xs) h f = (omega (arith, f.0), f.1)

-- What bridge_invoke leaves for its wait.
pub record IsPosted (s t : Sync) : Type 0 where
  pub seq_next : t.seq ≡ (s.seq + 1) % 2 ^ 32
  pub stamp : t.evt.seq ≡ (s.seq + 1) % 2 ^ 32
  pub fresh : t.reply_ready ≡ false
  pub up : t.shutdown ≡ false

pub invoke_post-IsPosted : (e : Posting) (s t : Sync) → invoke_post e s ≡ some t → IsPosted s t
unfolding invoke_post
invoke_post-IsPosted e s t p = record {
  seq_next = ground arith;
  stamp = ground arith;
  fresh = ground arith;
  up = ground arith;
}

pub PumpOk-fresh :
    (p : Pump) (m n : ℕ) (a b d r : Bool) → m ≤ n → PumpOk p m a b → r ≡ false → PumpOk p n d r
PumpOk-fresh listening m n a b d r h v f = tt
PumpOk-fresh ended m n a b d r h v f = tt
PumpOk-fresh (calling k e) m n a b d r h v f = (omega (arith, v.0), v.1, λ x. f)

pub PumpOk-down : (p : Pump) (n : ℕ) (a b d r : Bool) → PumpOk p n a b → d ≡ true → PumpOk p n d r
PumpOk-down listening n a b d r v f = tt
PumpOk-down ended n a b d r v f = tt
PumpOk-down (calling k e) n a b d r v f = (v.0, v.1, λ x. ground arith)

pub bridge_reset-cases : (s : Sync) → (bridge_reset s ≡ s) ⊎ ((bridge_reset s).reply_ready ≡ false)
unfolding bridge_reset
bridge_reset-cases s = elim (Bool-cases s.sync_init) [
  | inl e ↦ inr (simp e refl)
  | inr e ↦ inl (simp e refl)
]

pub bridge_shutdown-cases :
    (s : Sync) → (bridge_shutdown s ≡ s) ⊎ ((bridge_shutdown s).shutdown ≡ true)
unfolding bridge_shutdown
bridge_shutdown-cases s = elim (Bool-cases s.sync_init) [
  | inl e ↦ inr (simp e refl)
  | inr e ↦ inl (simp e refl)
]

-- Numbers below 2 ^ 32 that agree modulo 2 ^ 32 are equal.
pub eq_of_words : (m n : ℕ) → m ≤ n → n < 2 ^ 32 → m % 2 ^ 32 ≡ n % 2 ^ 32 → m ≡ n
eq_of_words m n h k e = omega arith

-- The answer to an event is taken in only for the last one, before anything else has been.
pub reply-cases :
    (n posted : ℕ) (e : WaitParams) (produced : ℕ) (result : ℤ) (s : Sync)
    → posted < 2 ^ 32
    → s.seq ≡ posted % 2 ^ 32
    → PumpOk (calling n e) posted s.shutdown s.reply_ready
    → (reply e.seq produced result s).reply_ready ≡ true
    → s.shutdown ≡ false
    → (n ≡ posted) × ((reply e.seq produced result s).produced ≡ produced)
unfolding reply
reply-cases n posted e produced result s h k v f d =
    elim (Bool-cases (not s.shutdown && (s.pending && e.seq == s.seq))) [
      | inl yes_taken ↦ (eq_of_words n posted v.0 h (ground arith), rw yes_taken refl)
      | inr no_taken ↦ absurd (ground (arith, v.2 d))
    ]

pub FallsFrom-head : (bound n : ℕ) (ns : List ℕ) → FallsFrom bound (n ∷ ns) → n < bound
FallsFrom-head bound n ns f = f.0

-- No answer arrives for an event that the pump has not taken.
pub replied_first :
    (s : System) (n : ℕ) (e : WaitParams) (produced : ℕ) (result : ℤ)
    → s.pump ≡ calling n e
    → Inv s
    → s.posted < 2 ^ 32
    → (reply e.seq produced result s.sync).pending ≡ true
    → (reply e.seq produced result s.sync).delivered ≡ false
    → ¬ ((reply e.seq produced result s.sync).reply_ready ≡ true)
unfolding reply
replied_first s n e produced result r v h a b ready =
    elim (Bool-cases (not s.sync.shutdown && (s.sync.pending && e.seq == s.sync.seq))) [
      | inl answered ↦
          let w : PumpOk (calling n e) s.posted s.sync.shutdown s.sync.reply_ready =
            rw r at v.pump_ok in
          let held : HeldOk (calling n e) s.taken = rw r at v.held_ok in
          let last : n ≡ s.posted = eq_of_words n s.posted w.0 h (ground (arith, v.numbered)) in
          let below : FallsFrom s.posted s.taken = v.untaken (ground arith) (ground arith) in
          let first : n < s.posted = FallsFrom-head s.posted n held.0 (rw held.1 at below) in
          omega arith
      | inr kept ↦ ground (arith, v.unanswered)
    ]
