-- ===== src/Driver/Watch.antt =====
-- src/asio.c: one round of config_watch_proc, behind its wait.
use pipeasio.Prelude.{
  Bool, true, false, not, ◌&&◌, ◌||◌, Option, none, some, [], if◌then◌else◌, ℤ, pos, eqb_ℤ,
  to_int32,
}
use pipeasio.Audio.{Client, take_default_changed}
use pipeasio.Config.Text.{str_eq}
use pipeasio.Config.{Config}
use pipeasio.Driver.Buffers.{map_client}
use pipeasio.Driver.Transport.{is_running}
use pipeasio.Driver.{Driver}

abbrev same_flag : Bool → Bool → Bool
same_flag true b = b
same_flag false b = not b

-- `live_changed`: a field differs that a running driver can take over.
unfoldable pub live_changed : Config → Config → Bool
unfolding str_eq
live_changed new old =
    not (eqb_ℤ new.buffer_size old.buffer_size)
    || not (eqb_ℤ new.buffer_mode old.buffer_mode)
    || not (same_flag new.fixed_buffer_size old.fixed_buffer_size)
    || not (eqb_ℤ new.sample_rate old.sample_rate)
    || not (same_flag new.follow_device_clock old.follow_device_clock)
    || not (same_flag new.auto_connect old.auto_connect)
    || not (eqb_ℤ new.rt_priority old.rt_priority)
    || not (str_eq new.output_device old.output_device)
    || not (str_eq new.input_device old.input_device)

-- The watcher's own state.
pub record Watcher : Type 0 where
  pub last_cfg : Config
  pub last_reset_quantum : ℤ

pub record Round : Type 0 where
  pub watcher : Watcher
  pub driver : Driver
  pub reset : Bool

-- The file has changed, and `new` is what it holds.
abbrev pub reload : Option Config → Watcher → Driver → Round
reload none w d = record { watcher = w; driver = d; reset = false }
reload (some new) w d =
    let w' = record w { last_cfg = new } in
    if live_changed new w.last_cfg
    then record {
      watcher = w';
      driver = record d { staged_cfg = new; config_pending = true };
      reset = true;
    }
    else record { watcher = w'; driver = d; reset = false }

abbrev pub follows_default : Driver → Bool
follows_default d = is_running d.state && (str_eq d.output_device [] || str_eq d.input_device [])

abbrev changed_default : Option Client → Bool
changed_default none = false
changed_default (some c) = (take_default_changed c).0

abbrev pub follow_default : Round → Round
follow_default r =
    if follows_default r.driver
    then record r {
      driver = record r.driver {
        client = map_client (λ (c : Client). (take_default_changed c).1) r.driver.client;
      };
      reset = changed_default r.driver.client || r.reset;
    }
    else r

abbrev pub quantum : Option Client → ℤ
quantum none = pos 0
quantum (some c) = to_int32 (pos c.observed_quantum)

-- The graph's quantum is neither the driver's own size nor the one that was last asked for.
abbrev pub sees_new_quantum : Round → Bool
sees_new_quantum r =
    let q = quantum r.driver.client in
    r.driver.follow_device_clock
    && is_running r.driver.state
    && not (eqb_ℤ q (pos 0))
    && not (eqb_ℤ q r.driver.current_buffersize)
    && not (eqb_ℤ q r.watcher.last_reset_quantum)

abbrev pub follow_quantum : Round → Round
follow_quantum r =
    if sees_new_quantum r
    then record {
      watcher = record r.watcher { last_reset_quantum = quantum r.driver.client };
      driver = record r.driver { follower_quantum = quantum r.driver.client };
      reset = true;
    }
    else r

-- The flag of the result says that the host is asked for a reset.
unfoldable pub watch_round : Option Config → Watcher → Driver → Round
unfolding live_changed take_default_changed
watch_round changed w d =
    let r = follow_quantum (follow_default (reload changed w d)) in
    record r { reset = r.reset && is_running r.driver.state && r.driver.callbacks }
