-- ===== src/Tests/Bridge.antt =====
-- The theorems about the bridge at concrete inputs.
use pipeasio.Prelude.{
  ℕ, ◌+◌, suc, Bool, ◌==◌, if◌then◌else◌, ◌≡◌, ◌≢◌, ◌≤◌, ◌<◌, ◌⊎◌, refl, true, false, Option, none,
  some, List, [], ◌∷◌, ◌++◌, arith, pos, take,
}
use pipeasio.Audio.{Client, opened, set_forced_rate}
use pipeasio.Audio.Ports.{Link}
use pipeasio.Bridge.Agreement.{run_bridged-run_native}
use pipeasio.Bridge.Calls.{Unix}
use pipeasio.Bridge.Deadline.{deadline_of-total, total}
use pipeasio.Bridge.Exchange.{invoke_finish-answered}
use pipeasio.Bridge.Delivery.{Among, received-Among}
use pipeasio.Bridge.Front.{audio_open}
use pipeasio.Bridge.Handles.{tok_add-Handles, Added}
use pipeasio.Bridge.Interface.{
  get_sample_rate, set_forced_rate_to, default_changed, get_client_name, AudioCall, run_bridged,
  run_native, StandsFor,
}
use pipeasio.Bridge.Life.{open_call, new_context}
use pipeasio.Bridge.Opening.{audio_open-StandsFor}
use pipeasio.Bridge.PortList.{
  build_port_array-pack_ports, build_port_array, pack_ports, blob_of, wire_size,
}
use pipeasio.Bridge.Proxy.{Proxy, strncpy}
use pipeasio.Bridge.Pump.{Callbacks}
use pipeasio.Bridge.Refinement.{rt_process-process_callback, IsBound, bridged}
use pipeasio.Bridge.Rendezvous.{System, Reach, here, next, post, take_one, answer, spawn, install}
use pipeasio.Bridge.Rt.{Context, half_index}
use pipeasio.Bridge.Sync.{
  Posting, Sync, deadline_of, bridge_reset, no_event, zero_sync, invoke_post, invoke_finish,
  pump_waits, take_event, reply, InitAnswers,
}
use pipeasio.Bridge.Tokens.{
  Pointer, context, port, tok_add, tok_get, no_tokens, TokenCall, add, clear, run_calls,
}
use pipeasio.Buffer.Offsets.{host_input_offset_samples, host_output_offset_samples}
use pipeasio.Bridge.{name_max, ports_blob}
use pipeasio.Config.Text.{codes}
use pipeasio.Config.{Bytes}
use pipeasio.Driver.Transport.{HostCall, Device, process_callback}
use pipeasio.Driver.{Driver, IoChannel, Sample, created, running}

abbrev three_calls : List TokenCall
three_calls = add (context 1) ∷ add (port 1 7) ∷ clear 1 ∷ []

tok_add-Handles_example :
    ((h k : ℕ) (q : Pointer)
      → tok_get (run_calls three_calls no_tokens) h ≡ some q
      → tok_get (run_calls three_calls no_tokens) k ≡ some q
      → h ≡ k)
    × Added
        (context 2)
        (run_calls three_calls no_tokens)
        (tok_add (context 2) (run_calls three_calls no_tokens)).0
        (tok_add (context 2) (run_calls three_calls no_tokens)).1
tok_add-Handles_example = tok_add-Handles three_calls (context 2)

-- One event, posted, taken and answered with 1.
abbrev switch : Posting
switch = record { kind = 0; index = 0; nframes = 64; time_nsec = 5; value = pos 0 }

record Run : Type 0 where
  last : System
  reach : Reach last

abbrev installed_run : Run
installed_run = record { last = _; reach = next (next here install) (spawn refl) }

abbrev sync_of : Option Sync → Sync
sync_of none = zero_sync
sync_of (some s) = s

abbrev posted_run : Run
unfolding invoke_post bridge_reset
posted_run = record {
  last = _;
  reach =
      next installed_run.reach
        (post switch (sync_of (invoke_post switch installed_run.last.sync)) refl refl);
}

abbrev taken_run : Run
unfolding invoke_post bridge_reset pump_waits
taken_run = record { last = _; reach = next posted_run.reach (take_one no_event refl refl refl) }

abbrev answered_run : Run
unfolding invoke_post bridge_reset pump_waits
answered_run = record {
  last = _;
  reach =
      next taken_run.reach (answer 1 (take_event no_event posted_run.last.sync).0 1 (pos 0) refl);
}

invoke_finish-answered_example :
    answered_run.last.answered ≡ some (1, (invoke_finish answered_run.last.sync).0)
unfolding invoke_post bridge_reset pump_waits invoke_finish reply take_event
invoke_finish-answered_example =
    invoke_finish-answered 1 answered_run.reach (omega arith) refl (λ e. ground arith)

received-Among_example : Among taken_run.last.received taken_run.last.history
unfolding invoke_post bridge_reset pump_waits
received-Among_example = received-Among taken_run.reach

build_port_array-pack_ports_example :
    (build_port_array true
        (λ i. true)
        (pack_ports (some (codes "in" ∷ codes "out" ∷ []))).0
        (blob_of (pack_ports (some (codes "in" ∷ codes "out" ∷ []))).1)
      ≡ some (
          take
            (pack_ports (some (codes "in" ∷ codes "out" ∷ []))).0
            (codes "in" ∷ codes "out" ∷ [])))
    × (wire_size (
          take
            (pack_ports (some (codes "in" ∷ codes "out" ∷ []))).0
            (codes "in" ∷ codes "out" ∷ []))
        ≤ ports_blob)
    × (((pack_ports (some (codes "in" ∷ codes "out" ∷ []))).0 ≡ 2)
        ⊎ (ports_blob
            < wire_size (
                take
                  (suc (pack_ports (some (codes "in" ∷ codes "out" ∷ []))).0)
                  (codes "in" ∷ codes "out" ∷ []))))
build_port_array-pack_ports_example =
    build_port_array-pack_ports (λ i. true) (codes "in" ∷ codes "out" ∷ []) (λ i. refl)
      (omega arith)

-- A client at address 1, with handle 1.
abbrev client_context : Context
client_context =
    new_context (record zero_sync { sync_init = true; installed = true }) (opened (codes "Host"))

abbrev one_client : Unix
one_client = record {
  tokens = (tok_add (context 1) no_tokens).1;
  contexts = λ (a : ℕ). if a == 1 then some client_context else none;
  next_address = 2;
}

abbrev silent_callbacks : Callbacks
silent_callbacks = record { buf_cb = none; rate_cb = none; lat_cb = none }

abbrev proxy : Proxy
proxy = record { unix_client = 1; this = true; callbacks = silent_callbacks; pump = false }

abbrev accepts : Link → Bool
accepts l = true

abbrev four_calls : List AudioCall
four_calls = set_forced_rate_to 44100 ∷ get_sample_rate ∷ get_client_name ∷ default_changed ∷ []

host-StandsFor : StandsFor proxy (opened (codes "Host")) one_client
unfolding tok_get tok_add no_tokens new_context
host-StandsFor = record {
  address = 1;
  ctx = client_context;
  token = refl;
  alive = refl;
  client = refl;
}

run_bridged-run_native_example :
    ((run_bridged accepts four_calls proxy one_client).0
      ≡ (run_native accepts four_calls (opened (codes "Host"))).0)
    × StandsFor proxy
        (run_native accepts four_calls (opened (codes "Host"))).1
        (run_bridged accepts four_calls proxy one_client).1
unfolding run_native opened set_forced_rate
run_bridged-run_native_example =
    run_bridged-run_native accepts four_calls proxy (opened (codes "Host")) one_client
      host-StandsFor (omega arith)

abbrev fresh_unix : Unix
fresh_unix = record { tokens = no_tokens; contexts = λ (a : ℕ). none; next_address = 1 }

abbrev all_ok : InitAnswers
all_ok = record { prod_mutex_ok = true; mutex_ok = true; ready_ok = true; done_ok = true }

abbrev backend : Bytes → ℕ → Option Client × ℕ
backend name options = (some (opened name), 0)

audio_open-StandsFor_example :
    (((audio_open true true
          (open_call true all_ok backend)
          (some (codes "Host"))
          0
          fresh_unix).proxy
        ≡ none)
      × ((audio_open true true
            (open_call true all_ok backend)
            (some (codes "Host"))
            0
            fresh_unix).status
          ≢ 0))
    ⊎ ((x : Proxy) × (c : Client) × ((audio_open true true
            (open_call true all_ok backend)
            (some (codes "Host"))
            0
            fresh_unix).proxy
          ≡ some x)
        × ((backend (strncpy name_max (some (codes "Host"))) 0).0 ≡ some c)
        × StandsFor x c
            (audio_open true true
              (open_call true all_ok backend)
              (some (codes "Host"))
              0
              fresh_unix).unix)
unfolding no_tokens
audio_open-StandsFor_example =
    audio_open-StandsFor true true true all_ok backend (some (codes "Host")) 0 fresh_unix refl

-- One input and one output of two frames, in a running driver and on the 64-bit side.
abbrev in_channel : IoChannel
in_channel = record {
  audio_buffer = some 0;
  port_name = codes "in_1";
  port = some 1;
  active = true;
}

abbrev out_channel : IoChannel
out_channel = record {
  audio_buffer = some 4;
  port_name = codes "out_1";
  port = some 2;
  active = true;
}

abbrev running_driver : Driver
running_driver = record created {
  state = running;
  client = some (opened (codes "Host"));
  number_inputs = 1;
  number_outputs = 1;
  input_channels = in_channel ∷ [];
  output_channels = out_channel ∷ [];
  current_buffersize = pos 2;
  callback_buffer = some (0 ∷ 0 ∷ 0 ∷ 0 ∷ 0 ∷ 0 ∷ 0 ∷ 0 ∷ []);
}

abbrev bound_context : Context
bound_context = record client_context {
  buffer_base = 4096;
  buffer_size = 2;
  n_in = 1;
  n_out = 1;
  in_active = λ (i : ℕ). i == 0;
  out_active = λ (i : ℕ). i == 0;
  in_port = λ (i : ℕ). if i == 0 then some 1 else none;
  out_port = λ (i : ℕ). if i == 0 then some 2 else none;
}

bound : IsBound bound_context running_driver 2
unfolding new_context opened host_input_offset_samples host_output_offset_samples created
bound = record {
  based = λ e. ground arith;
  frames = refl;
  small = omega arith;
  ins = refl;
  outs = refl;
  inputs = ((refl, refl, λ e. refl, λ e. refl), tt);
  outputs = ((refl, refl, λ e. refl, λ e. refl), tt);
  same_half = refl;
  same_time = refl;
  up = refl;
  callbacks = refl;
  open_for_events = refl;
}

-- A host that puts out what came in, and a device with samples.
abbrev echo : HostCall → List Sample → List Sample
echo call m = take 4 m ++ take 4 m

abbrev device : Device
device = record { mapped = λ (p : Option ℕ). some (5 ∷ 6 ∷ []); avail = λ (p : Option ℕ). 2 }

rt_process-process_callback_example :
    ((bridged echo silent_callbacks 1 2 device bound_context running_driver).written
      ≡ (process_callback echo 2 device running_driver).written)
    × (some (bridged echo silent_callbacks 1 2 device bound_context running_driver).memory
        ≡ (process_callback echo 2 device running_driver).driver.callback_buffer)
    × (half_index
          (bridged echo silent_callbacks 1 2 device bound_context running_driver).context.half
        ≡ (process_callback echo 2 device running_driver).driver.buffer_index)
    × (record (bridged echo silent_callbacks 1 2 device bound_context running_driver).other {
      callback_buffer = (process_callback echo 2 device running_driver).driver.callback_buffer;
      buffer_index = (process_callback echo 2 device running_driver).driver.buffer_index;
    }
        ≡ (process_callback echo 2 device running_driver).driver)
rt_process-process_callback_example =
    rt_process-process_callback echo silent_callbacks 1 2 device bound_context running_driver bound
      refl

deadline_of-total_example :
    ((deadline_of 0 (7, 999000000)).1 < 1000000000)
    × (total (deadline_of 0 (7, 999000000)) ≡ total (7, 999000000) + 5000000)
deadline_of-total_example = deadline_of-total 0 7 999000000 (omega arith)
