-- ===== src/Tests/Host.antt =====
-- The theorems about the driver at concrete inputs.
use pipeasio.Prelude.{
  ℤ, ◌≢◌, ℕ, ◌==◌, ◌&&◌, if◌then◌else◌, ◌+◌, ◌*◌, ◌%◌, ◌^◌, ◌≤◌, ◌≡◌, refl, true, false, Option,
  none, some, List, [], ◌∷◌, length, arith, pos,
}
use pipeasio.Audio.Filter.{Answers, bind_error, bound}
use pipeasio.Audio.Ports.{port_register}
use pipeasio.Audio.{opened, set_buffer_size, set_rt_priority, set_follow_device, set_forced_rate}
use pipeasio.Config.Text.{codes}
use pipeasio.Config.{Bytes, defaults, buffer_size_valid, max_channels}
use pipeasio.Driver.Buffers.{
  BufferInfo, CreateAnswers, create_buffers, take_size, apply_pending_config,
}
use pipeasio.Driver.Configure.{Environment, Variable, env_number_inputs, configure_driver}
use pipeasio.Driver.Init.{InitAnswers, init}
use pipeasio.Driver.Lifecycle.{IsSound, begins, goes, inits, creates}
use pipeasio.Driver.Position.{play, play-start-num_samples}
use pipeasio.Driver.Queries.{get_buffer_size, get_sample_position, to_hi_lo}
use pipeasio.Driver.Reachability.{reachable-IsSound}
use pipeasio.Driver.Rollback.{IsReleased, create_buffers-IsReleased}
use pipeasio.Driver.Sizes.{
  configure_driver-bounds, get_buffer_size-take_size, preferred_of, accepted,
}
use pipeasio.Driver.WatchContext.{
  Watch, WatchReach, spawned, more, resolve, notify, stop_in_callback, break_out, exit, start_watch,
  stop_self, thread_exit, owner_holds, thread_holds, uses_driver, is_released,
}
use pipeasio.Driver.WatchSafety.{watch_refs-once}
use pipeasio.Driver.Watch.{Watcher, sees_new_quantum}
use pipeasio.Driver.Following.{create_buffers-sees_new_quantum}
use pipeasio.Driver.Transport.{HostCall, Device, start}
use pipeasio.Driver.{Driver, IoChannel, Sample, created, initialized, prepared, ok, missing_io}

-- A host's program, and four inputs asked for in the environment.
abbrev environment : Environment
environment = record {
  variable = λ (v : Variable). four_inputs v;
  module_path = codes "C:\\host.exe";
  narrow = λ (s : List ℕ). s;
}
  where
    four_inputs : Variable → ℕ × Bytes
    four_inputs env_number_inputs = (1, codes "4")
    four_inputs _ = (0, [])

configure_driver-bounds_example :
    (buffer_size_valid (configure_driver defaults environment created).preferred_buffersize ≡ true)
    × ((configure_driver defaults environment created).number_inputs ≤ max_channels)
    × ((configure_driver defaults environment created).number_outputs ≤ max_channels)
configure_driver-bounds_example = configure_driver-bounds defaults environment created

abbrev first_init : InitAnswers
first_init = record {
  config = defaults;
  environment = environment;
  pipewire = true;
  events = [];
  metadata = [];
  channels_memory = true;
  ports_memory = true;
  port_memory = λ (i : ℕ). true;
}

-- PipeWire that refuses to bind the node.
abbrev refusing : Answers
refusing = record {
  props_ok = true;
  filter_ok = true;
  add_ok = λ (i : ℕ). true;
  connect_ok = true;
  start_ok = true;
  bind = bind_error;
  round = λ (k : ℕ). [];
}

abbrev create_refused : CreateAnswers
create_refused = record {
  time_info = true;
  memory = some (0 ∷ []);
  activation = refusing;
  ports_memory = true;
  watcher = true;
}

abbrev create_bound : CreateAnswers
create_bound = record create_refused { activation = record refusing { bind = bound 7 } }

abbrev stereo : List BufferInfo
stereo =
    record { is_input = false; channel = pos 0 } ∷ record { is_input = false; channel = pos 1 } ∷ []

abbrev opened_driver : Driver
opened_driver = (init first_init created).1

reachable-IsSound_example :
    IsSound (create_buffers create_refused true stereo (pos 1024) opened_driver).driver
reachable-IsSound_example = reachable-IsSound (
    goes (goes begins (inits first_init created))
      (creates create_refused true stereo (pos 1024) opened_driver))

abbrev channel : IoChannel
channel = record { audio_buffer = none; port_name = codes "out_1"; port = some 1; active = false }

-- Two outputs and a client, in the fixed mode.
abbrev ready_driver : Driver
ready_driver = record created {
  state = initialized;
  client = some (opened (codes "Host"));
  number_outputs = 2;
  output_channels = channel ∷ channel ∷ [];
  preferred_buffersize = pos 256;
  fixed_buffersize = true;
  staged_cfg = defaults;
  config_pending = true;
}

get_buffer_size-take_size_example :
    accepted (
      take_size
        (preferred_of (get_buffer_size true ready_driver).1)
        (apply_pending_config ready_driver))
    ≡ true
unfolding created buffer_size_valid
get_buffer_size-take_size_example =
    get_buffer_size-take_size ready_driver (opened (codes "Host")) refl refl refl (omega arith)

refused_code : (create_buffers create_refused true stereo (pos 1024) ready_driver).code ≡ missing_io
unfolding created create_buffers opened set_buffer_size set_rt_priority set_follow_device
    set_forced_rate
refused_code = refl

missing_is_no_success : {z : ℤ} → z ≡ missing_io → z ≢ ok
missing_is_no_success {z} e f = cc

ready_driver-IsReleased : IsReleased ready_driver
unfolding created
ready_driver-IsReleased = record {
  no_callbacks = refl;
  no_block = refl;
  no_inputs = refl;
  no_outputs = refl;
  inputs_dropped = tt;
  outputs_dropped = ((refl, refl), ((refl, refl), tt));
}

create_buffers-IsReleased_example :
    IsReleased (create_buffers create_refused true stereo (pos 1024) ready_driver).driver
create_buffers-IsReleased_example =
    create_buffers-IsReleased create_refused true stereo (pos 1024) ready_driver refl
      ready_driver-IsReleased (missing_is_no_success refused_code)

abbrev quiet_host : HostCall → List Sample → List Sample
quiet_host call m = m

abbrev no_device : Device
no_device = record { mapped = λ (p : Option ℕ). none; avail = λ (p : Option ℕ). 0 }

abbrev prepared_driver : Driver
prepared_driver = record ready_driver {
  state = prepared;
  current_buffersize = pos 256;
  num_samples = 77;
}

play-start-num_samples_example :
    (get_sample_position true
        (play quiet_host 256 (no_device ∷ no_device ∷ []) (start quiet_host prepared_driver).driver)
      ≡ (
        ok,
        some (
          to_hi_lo (length (no_device ∷ no_device ∷ []) * 256 % 2 ^ 64),
          to_hi_lo
              (play quiet_host 256
                (no_device ∷ no_device ∷ [])
                (start quiet_host prepared_driver).driver).time_stamp,
        ),
      ))
    × ((play quiet_host 256
          (no_device ∷ no_device ∷ [])
          (start quiet_host prepared_driver).driver).buffer_index
        ≡ (length (no_device ∷ no_device ∷ []) + 1) % 2)
play-start-num_samples_example =
    play-start-num_samples quiet_host 256 (no_device ∷ no_device ∷ []) prepared_driver refl

-- A device that runs on 512 frames, seen by the watcher.
abbrev following_driver : Driver
following_driver = record ready_driver {
  client = some (record (port_register true (codes "out_1") 2 (opened (codes "Host"))).1 {
    observed_quantum = 512;
    follow_device = true;
  });
  follow_device_clock = true;
  config_pending = false;
  follower_quantum = pos 512;
}

abbrev watcher : Watcher
watcher = record { last_cfg = defaults; last_reset_quantum = pos 0 }

following_created : (create_buffers create_bound true stereo (pos 512) following_driver).code ≡ ok
unfolding created create_buffers opened set_buffer_size port_register
following_created = refl

abbrev following_started : Driver
following_started =
    (start quiet_host
      (create_buffers create_bound true stereo (pos 512) following_driver).driver).driver

create_buffers-sees_new_quantum_example :
    sees_new_quantum (record {
      watcher = watcher;
      driver = record following_started { client = following_driver.client };
      reset = false;
    })
    ≡ false
unfolding opened port_register
create_buffers-sees_new_quantum_example =
    create_buffers-sees_new_quantum create_bound true stereo (pos 512) following_driver
      (record following_started { client = following_driver.client }) quiet_host watcher refl refl
      refl following_created refl refl

record WatchRun : Type 0 where
  last : Watch
  reach : WatchReach true last

-- The host stops the driver from inside the first notification, and the thread ends.
abbrev stopped_run : WatchRun
unfolding start_watch stop_self thread_exit
stopped_run = record {
  last = _;
  reach =
      more
        (more
          (more (more (more (spawned true true true refl) (resolve refl refl)) (notify refl))
            (stop_in_callback refl refl))
          (break_out false refl refl))
        (exit refl);
}

watch_refs-once_example :
    (stopped_run.last.refs
      ≡ owner_holds stopped_run.last.owner
        + thread_holds stopped_run.last.thread
        + stopped_run.last.lost)
    × (stopped_run.last.freed ≡ (if stopped_run.last.refs == 0 then 1 else 0))
    × ((uses_driver stopped_run.last.thread && is_released stopped_run.last.owner) ≡ false)
unfolding start_watch stop_self thread_exit
watch_refs-once_example = watch_refs-once stopped_run.reach
