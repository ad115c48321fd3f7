-- ===== src/Bridge/Exchange.antt =====
-- src/wow64/audio_unix.c: what the exchange keeps true in every interleaving.
use pipeasio.Prelude.{ℕ, suc, ◌^◌, ◌≤◌, ◌<◌, ◌≡◌, ◌≢◌, refl, some, arith, Bool-cases, inl, inr}
use pipeasio.Bridge.Sync.{
  invoke_post, invoke_finish, pump_waits, take_event, reply, bridge_reset, bridge_shutdown,
}
use pipeasio.Bridge.Rendezvous.{
  waiting, calling, System, Step, post, finish, take_one, leave, answer, spawn, install, shut,
  Reach, here, next,
}
use pipeasio.Bridge.Invariant.{
  PumpOk, ProducerOk, Inv, opened-Inv, FallsFrom-mono, invoke_post-IsPosted, PumpOk-fresh,
  PumpOk-down, bridge_reset-cases, bridge_shutdown-cases, reply-cases, replied_first,
}

Step-Inv : {s t : System} → Step s t → s.posted < 2 ^ 32 → Inv s → Inv t
unfolding invoke_post invoke_finish take_event pump_waits reply bridge_reset bridge_shutdown
Step-Inv {s} (post e t r p) h v =
    let q = invoke_post-IsPosted e s.sync t p in
    record {
      numbered = ground (arith, q.seq_next, v.numbered);
      stamped = ground (arith, q.stamp, v.numbered);
      pump_ok =
          PumpOk-fresh s.pump s.posted (suc s.posted) s.sync.shutdown s.sync.reply_ready t.shutdown
            t.reply_ready (omega arith) v.pump_ok q.fresh;
      held_ok = v.held_ok;
      producer_ok = refl;
      unanswered = λ a b. q.fresh;
      matched = λ a b. ground (arith, q.fresh);
      falling = FallsFrom-mono (suc s.posted) (suc (suc s.posted)) s.taken (omega arith) v.falling;
      untaken = λ a b. v.falling;
    }
Step-Inv {s} (finish n r) h v = record {
  numbered = v.numbered;
  stamped = v.stamped;
  pump_ok = v.pump_ok;
  held_ok = v.held_ok;
  producer_ok = tt;
  unanswered = λ e f. cc;
  matched = v.matched;
  falling = v.falling;
  untaken = λ e f. cc;
}
Step-Inv {s} (take_one p r w u) h v = record {
  numbered = ground arith;
  stamped = ground arith;
  pump_ok = (omega arith, ground arith, λ d. ground arith);
  held_ok = (s.taken, refl);
  producer_ok = ground arith;
  unanswered = λ e f. ground arith;
  matched = ground arith;
  falling = (omega arith, v.untaken (ground arith) (ground arith));
  untaken = λ e f. ground arith;
}
Step-Inv {s} (leave r u) h v = record {
  numbered = v.numbered;
  stamped = v.stamped;
  pump_ok = tt;
  held_ok = tt;
  producer_ok = v.producer_ok;
  unanswered = v.unanswered;
  matched = v.matched;
  falling = v.falling;
  untaken = v.untaken;
}
Step-Inv {s} (answer n e produced result r) h v =
    let w : PumpOk (calling n e) s.posted s.sync.shutdown s.sync.reply_ready = rw r at v.pump_ok in
    record {
      numbered = ground arith;
      stamped = ground arith;
      pump_ok = tt;
      held_ok = tt;
      producer_ok = v.producer_ok;
      unanswered = λ a b. elim (Bool-cases (reply e.seq produced result s.sync).reply_ready) [
        | inl ready ↦ absurd (replied_first s n e produced result r v h a b ready)
        | inr idle ↦ idle
      ];
      matched = λ a b.
          let m = reply-cases n s.posted e produced result s.sync h v.numbered w a (ground arith) in
          ground (arith, m.0, m.1);
      falling = v.falling;
      untaken = λ a b. v.untaken (ground arith) (ground arith);
    }
Step-Inv {s} (spawn r) h v = record {
  numbered = v.numbered;
  stamped = v.stamped;
  pump_ok = tt;
  held_ok = tt;
  producer_ok = v.producer_ok;
  unanswered = v.unanswered;
  matched = v.matched;
  falling = v.falling;
  untaken = v.untaken;
}
Step-Inv {s} install h v = record {
  numbered = ground arith;
  stamped = ground arith;
  pump_ok = elim (bridge_reset-cases s.sync) [
    | inl e ↦ rw e v.pump_ok
    | inr e ↦
        PumpOk-fresh s.pump s.posted s.posted s.sync.shutdown s.sync.reply_ready
          (bridge_reset s.sync).shutdown (bridge_reset s.sync).reply_ready (omega arith) v.pump_ok e
  ];
  held_ok = v.held_ok;
  producer_ok = v.producer_ok;
  unanswered = λ a b. ground (arith, v.unanswered);
  matched = λ a b. ground (arith, v.matched);
  falling = v.falling;
  untaken = λ a b. v.untaken (ground arith) (ground arith);
}
Step-Inv {s} shut h v = record {
  numbered = ground arith;
  stamped = ground arith;
  pump_ok = elim (bridge_shutdown-cases s.sync) [
    | inl e ↦ rw e v.pump_ok
    | inr e ↦
        PumpOk-down s.pump s.posted s.sync.shutdown s.sync.reply_ready
          (bridge_shutdown s.sync).shutdown (bridge_shutdown s.sync).reply_ready v.pump_ok e
  ];
  held_ok = v.held_ok;
  producer_ok = v.producer_ok;
  unanswered = λ a b. ground (arith, v.unanswered);
  matched = λ a b. ground (arith, v.matched);
  falling = v.falling;
  untaken = λ a b. v.untaken (ground arith) (ground arith);
}

posted_mono : {s t : System} → Step s t → s.posted ≤ t.posted
posted_mono (post e t r p) = omega arith
posted_mono (finish n r) = omega arith
posted_mono (take_one p r w u) = omega arith
posted_mono (leave r u) = omega arith
posted_mono (answer n e produced result r) = omega arith
posted_mono (spawn r) = omega arith
posted_mono install = omega arith
posted_mono shut = omega arith

Reach-Inv : {s : System} → Reach s → s.posted < 2 ^ 32 → Inv s
Reach-Inv here h = opened-Inv
Reach-Inv (next r st) h =
    Step-Inv st (omega (arith, posted_mono st)) (Reach-Inv r (omega (arith, posted_mono st)))

-- In every state that the data thread, the pump, installing and shutting down can lead to, in any order and
-- with fewer than 2 ^ 32 events: where the data thread waits for the answer to event n and its call,
-- ended now, would report that the host produced the cycle, then the pump's last answer was to
-- event n and it reported that value.
pub invoke_finish-answered :
    {s : System} (n : ℕ)
    → Reach s
    → s.posted < 2 ^ 32
    → s.producer ≡ waiting n
    → (invoke_finish s.sync).0 ≢ 0
    → s.answered ≡ some (n, (invoke_finish s.sync).0)
unfolding invoke_finish
invoke_finish-answered {s} n r h w f =
    let v = Reach-Inv r h in
    let k : ProducerOk (waiting n) s.posted = rw w at v.producer_ok in ground (arith, v.matched)
