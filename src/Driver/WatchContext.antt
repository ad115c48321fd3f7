-- ===== src/Driver/WatchContext.antt =====
-- src/asio.c: the context that the driver shares with its watcher's thread, and who drops it when.
use pipeasio.Prelude.{
  ℕ, suc, ◌-◌, ◌≡◌, Bool, true, false, ◌&&◌, ◌||◌, Option, none, some, ◌==◌, if◌then◌else◌,
}

-- The driver's side: it holds the context, waits in stop_config_watch for the thread to end, or has
-- dropped it.
pub data Owner : Type 0 where
  holding joining released : Owner

-- The thread: before its path is resolved, in its loop, in the host's notification, behind the loop, ended.
pub data Thread : Type 0 where
  starting polling notifying leaving gone : Thread

-- struct config_watch with its two users. `freed` counts how often the memory was given back, `lost` the
-- references that a thread took along when it ended.
pub record Watch : Type 0 where
  pub refs : ℕ
  pub stop_event : Bool
  pub orphaned : Bool
  pub owner : Owner
  pub thread : Thread
  pub freed : ℕ
  pub lost : ℕ

unfoldable pub config_watch_unref : Watch → Watch
config_watch_unref w =
    if w.refs - 1 == 0
    then record w { refs = 0; freed = suc w.freed }
    else record w { refs = w.refs - 1 }

-- CreateBuffers' start of the watcher: none where memory, the event or the thread is refused.
unfoldable pub start_watch : Bool → Bool → Bool → Option Watch
start_watch memory event thread =
    if memory && (event && thread)
    then some (record {
      refs = 2;
      stop_event = false;
      orphaned = false;
      owner = holding;
      thread = starting;
      freed = 0;
      lost = 0;
    })
    else none

-- stop_config_watch on another thread: up to its wait, and behind it.
unfoldable pub stop_begin : Watch → Watch
stop_begin w = record w { owner = joining; stop_event = true }

unfoldable pub stop_end : Watch → Watch
unfolding config_watch_unref
stop_end w = config_watch_unref (record w { owner = released })

-- stop_config_watch on the watcher's own thread, from the host's notification.
unfoldable pub stop_self : Watch → Watch
unfolding config_watch_unref
stop_self w = config_watch_unref (record w { owner = released; stop_event = true; orphaned = true })

-- The end of config_watch_proc.
unfoldable pub thread_exit : Watch → Watch
unfolding config_watch_unref
thread_exit w = config_watch_unref (record w { thread = gone })

-- What the two sides can do, in any order. `resolved` says whether the config path can be found;
-- `destroyed` that the thread's own Release was the last one.
pub data WatchStep (resolved : Bool) (w : Watch) : Watch → Type 0 where
  resolve :
      w.thread ≡ starting → resolved ≡ true → WatchStep resolved w (record w { thread = polling })
  give_up :
      w.thread ≡ starting
      → resolved ≡ false
      → WatchStep resolved w (record w { thread = gone; lost = suc w.lost })
  poll : w.thread ≡ polling → w.stop_event ≡ false → WatchStep resolved w w
  see_stop :
      w.thread ≡ polling
      → w.stop_event ≡ true
      → WatchStep resolved w (record w { thread = leaving })
  wait_fails : w.thread ≡ polling → WatchStep resolved w (record w { thread = leaving })
  notify : w.thread ≡ polling → WatchStep resolved w (record w { thread = notifying })
  go_on :
      w.thread ≡ notifying
      → w.orphaned ≡ false
      → WatchStep resolved w (record w { thread = polling })
  break_out :
      (destroyed : Bool)
      → w.thread ≡ notifying
      → (destroyed || w.orphaned) ≡ true
      → WatchStep resolved w (record w { thread = leaving })
  exit : w.thread ≡ leaving → WatchStep resolved w (thread_exit w)
  stop_other : w.owner ≡ holding → WatchStep resolved w (stop_begin w)
  joined : w.owner ≡ joining → w.thread ≡ gone → WatchStep resolved w (stop_end w)
  stop_in_callback : w.owner ≡ holding → w.thread ≡ notifying → WatchStep resolved w (stop_self w)

pub data WatchReach (resolved : Bool) : Watch → Type 0 where
  spawned :
      (memory event thread : Bool) {w : Watch}
      → start_watch memory event thread ≡ some w
      → WatchReach resolved w
  more : {w x : Watch} → WatchReach resolved w → WatchStep resolved w x → WatchReach resolved x

abbrev pub owner_holds : Owner → ℕ
owner_holds holding = 1
owner_holds joining = 1
owner_holds released = 0

abbrev pub thread_holds : Thread → ℕ
thread_holds starting = 1
thread_holds polling = 1
thread_holds notifying = 1
thread_holds leaving = 1
thread_holds gone = 0

abbrev pub is_released : Owner → Bool
is_released holding = false
is_released joining = false
is_released released = true

-- Whether the thread uses the driver object on its own account.
abbrev pub uses_driver : Thread → Bool
uses_driver starting = true
uses_driver polling = true
uses_driver notifying = false
uses_driver leaving = false
uses_driver gone = false
