-- ===== src/Bridge/Rendezvous.antt =====
-- src/wow64/audio_unix.c: every interleaving of the data thread, the pump and the calls that install
-- and shut down the bridge.
use pipeasio.Prelude.{ℕ, suc, ◌≡◌, true, false, Option, none, some, List, [], ◌∷◌, ℤ}
use pipeasio.Bridge.Sync.{
  Sync, WaitParams, Posting, invoke_post, invoke_finish, pump_waits, take_event, reply,
  bridge_reset, bridge_shutdown, zero_sync,
}

-- The data thread: at rest, or waiting for the answer to the event with this number.
pub data Producer : Type 0 where
  resting : Producer
  waiting : (number : ℕ) → Producer

-- The pump: at its wait, or calling the host with the event of this number.
pub data Pump : Type 0 where
  listening : Pump
  calling : (number : ℕ) (e : WaitParams) → Pump
  ended : Pump

-- The bridge with its threads. Events are numbered as they are posted; `history` has what the data thread has
-- posted and `received` what the pump got from its waits, the last first; `taken` has the numbers of the events
-- the pump has taken, and `answered` the number of the event it has answered last, with the answer.
pub record System : Type 0 where
  pub sync : Sync
  pub producer : Producer
  pub pump : Pump
  pub posted : ℕ
  pub history : List Posting
  pub received : List WaitParams
  pub taken : List ℕ
  pub answered : Option (ℕ × ℕ)

-- Only one data thread is in bridge_invoke, by prod_mutex. The wait for the answer can end at any time, by
-- its deadline. The pump answers what the host makes of the event.
pub data Step (s : System) : System → Type 0 where
  post :
      (e : Posting) (t : Sync)
      → s.producer ≡ resting
      → invoke_post e s.sync ≡ some t
      → Step s (record s {
        sync = t;
        producer = waiting (suc s.posted);
        posted = suc s.posted;
        history = e ∷ s.history;
      })
  finish :
      (n : ℕ)
      → s.producer ≡ waiting n
      → Step s (record s { sync = (invoke_finish s.sync).1; producer = resting })
  take_one :
      (p : WaitParams)
      → s.pump ≡ listening
      → pump_waits s.sync ≡ false
      → s.sync.shutdown ≡ false
      → Step s (record s {
        sync = (take_event p s.sync).1;
        pump = calling s.posted (take_event p s.sync).0;
        received = (take_event p s.sync).0 ∷ s.received;
        taken = s.posted ∷ s.taken;
      })
  leave : s.pump ≡ listening → s.sync.shutdown ≡ true → Step s (record s { pump = ended })
  answer :
      (n : ℕ) (e : WaitParams) (produced : ℕ) (result : ℤ)
      → s.pump ≡ calling n e
      → Step s (record s {
        sync = reply e.seq produced result s.sync;
        pump = listening;
        answered = some (n, produced);
      })
  spawn : s.pump ≡ ended → Step s (record s { pump = listening })
  install : Step s (record s { sync = record (bridge_reset s.sync) { installed = true } })
  shut : Step s (record s { sync = bridge_shutdown s.sync })

abbrev pub opened : System
opened = record {
  sync = record zero_sync { sync_init = true };
  producer = resting;
  pump = ended;
  posted = 0;
  history = [];
  received = [];
  taken = [];
  answered = none;
}

pub data Reach : System → Type 0 where
  here : Reach opened
  next : {s t : System} → Reach s → Step s t → Reach t
