-- ===== src/Driver/WatchSafety.antt =====
-- src/asio.c: the shared context of the watcher is given back once, by its last user.
use pipeasio.Prelude.{◌+◌, ◌≡◌, Bool, true, false, not, ◌&&◌, some, ◌==◌, if◌then◌else◌, arith}
use pipeasio.Driver.WatchContext.{
  Thread, notifying, Watch, start_watch, stop_begin, stop_end, stop_self, thread_exit, WatchStep,
  resolve, give_up, poll, see_stop, wait_fails, notify, go_on, break_out, exit, stop_other, joined,
  stop_in_callback, WatchReach, spawned, more, owner_holds, thread_holds, is_released, uses_driver,
}

abbrev in_notification : Thread → Bool
in_notification notifying = true
in_notification _ = false

record Kept (w : Watch) : Type 0 where
  counted : w.refs ≡ owner_holds w.owner + thread_holds w.thread + w.lost
  once : w.freed ≡ (if w.refs == 0 then 1 else 0)
  quiet : (uses_driver w.thread && is_released w.owner) ≡ false
  flagged : (in_notification w.thread && is_released w.owner && not w.orphaned) ≡ false

Step-Kept : {r : Bool} {w x : Watch} → WatchStep r w x → Kept w → Kept x
unfolding stop_begin stop_end stop_self thread_exit
Step-Kept (resolve a b) k = ground arith
Step-Kept (give_up a b) k = ground arith
Step-Kept (poll a b) k = k
Step-Kept (see_stop a b) k = ground arith
Step-Kept (wait_fails a) k = ground arith
Step-Kept (notify a) k = ground arith
Step-Kept (go_on a b) k = ground arith
Step-Kept (break_out d a b) k = ground arith
Step-Kept (exit a) k = ground arith
Step-Kept (stop_other a) k = ground arith
Step-Kept (joined a b) k = ground arith
Step-Kept (stop_in_callback a b) k = ground arith

start_watch-Kept : (m e t : Bool) (w : Watch) → start_watch m e t ≡ some w → Kept w
unfolding start_watch
start_watch-Kept m e t w h = ground arith

Reach-Kept : {r : Bool} {w : Watch} → WatchReach r w → Kept w
Reach-Kept (spawned m e t {w} h) = start_watch-Kept m e t w h
Reach-Kept (more p s) = Step-Kept s (Reach-Kept p)

-- After any steps of the driver, of the watcher's thread and of a host that stops the driver from inside a
-- notification: the references count the users of the context, that is the driver until it has
-- dropped it and the thread until it has ended, and those that a thread took along; the memory has
-- been given back once if there are none, and not at all otherwise; and where the driver has dropped
-- the context, the thread is not in the part of its loop that uses the driver.
pub watch_refs-once :
    {resolved : Bool} {w : Watch}
    → WatchReach resolved w
    → (w.refs ≡ owner_holds w.owner + thread_holds w.thread + w.lost)
      × (w.freed ≡ (if w.refs == 0 then 1 else 0))
      × ((uses_driver w.thread && is_released w.owner) ≡ false)
watch_refs-once r = let k = Reach-Kept r in (k.counted, k.once, k.quiet)
