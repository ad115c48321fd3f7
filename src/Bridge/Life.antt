-- ===== src/Bridge/Life.antt =====
-- src/wow64/audio_unix.c: the unix calls that open, close, activate and bind a client, those of the pump,
-- and those about the settings.
use pipeasio.Prelude.{
  ◌+◌, ◌*◌, ◌%◌, ◌^◌, ℕ, suc, Bool, true, false, not, ◌&&◌, Option, none, some, [], ◌==◌,
  if◌then◌else◌, ℤ,
}
use Prim.Native.Nat.{bit_xor}
use pipeasio.Audio.{
  Client, set_process_callback, set_buffer_size_callback, set_sample_rate_callback,
  set_latency_callback,
}
use pipeasio.Audio.Filter.{Answers, activate, deactivate}
use pipeasio.Bridge.Calls.{
  Unix, Reply, Found, success, invalid_parameter, invalid_handle, no_memory, undefined, answer,
  missing, alien, found, cc_get, on_client, put_context, put_client, SimpleParams, flag,
}
use pipeasio.Bridge.Rt.{Context, Binding, bind_rt}
use pipeasio.Driver.Queries.{HiLo, to_hi_lo}
use pipeasio.Bridge.Sync.{
  Sync, WaitParams, zero_sync, InitAnswers, bridge_init, bridge_reset, bridge_shutdown, pump_waits,
  take_event, reply,
}
use pipeasio.Bridge.Tokens.{context, tok_add, tok_clear}
use pipeasio.Bridge.{abi_version, portname_max}
use pipeasio.Config.Parse.{World, config_load, config_path}
use pipeasio.Config.Save.{Outcome, config_save}
use pipeasio.Config.Text.{copy_str}
use pipeasio.Config.{Config, Bytes}

-- pa_open_params
pub record OpenParams : Type 0 where
  pub version : ℕ
  pub options : ℕ
  pub name : Bytes
  pub client : ℕ
  pub status : ℕ

-- calloc's zeros, and the client.
unfoldable pub new_context : Sync → Client → Context
new_context s c = record {
  client = c;
  buffer_base = 0;
  buffer_size = 0;
  n_in = 0;
  n_out = 0;
  in_active = λ i. false;
  out_active = λ i. false;
  in_port = λ i. none;
  out_port = λ i. none;
  half = false;
  rt_deadline_ns = 0;
  sync = s;
}

abbrev with_token : OpenParams → Unix → ℕ → Context → Reply OpenParams
with_token p u status cc =
    let r = tok_add (context u.next_address) u.tokens in
    if r.0 == 0
    then answer no_memory (record p { client = 0; status = status })
        (record u { next_address = suc u.next_address })
    else answer success (record p { client = r.0; status = status })
        (record (put_context u u.next_address cc) {
          tokens = r.1;
          next_address = suc u.next_address;
        })

abbrev with_audio : OpenParams → Unix → Sync → Option Client × ℕ → Reply OpenParams
with_audio p u s (none, status) = answer success (record p { client = 0; status = status }) u
with_audio p u s (some c, status) = with_token p u status (new_context s c)

-- `audio_open` is the client's answer to the name and the options.
unfoldable pub open_call :
    Bool → InitAnswers → (Bytes → ℕ → Option Client × ℕ) → OpenParams → Unix → Reply OpenParams
unfolding tok_add new_context bridge_init
open_call alloc init audio_open p u =
    if p.version == abi_version
    then (let b = bridge_init init zero_sync in
        if alloc && b.0
        then with_audio p u b.1 (audio_open p.name p.options)
        else answer no_memory p u)
    else answer invalid_parameter p u

abbrev closed : SimpleParams → Unix → Found → Reply SimpleParams
closed p u missing = answer success (record p { result = 0 }) u
closed p u alien = answer undefined p u
closed p u (found a cc) =
    answer success (record p { result = 1 })
      (record u {
        tokens = tok_clear p.client u.tokens;
        contexts = λ b. if b == a then none else u.contexts b;
      })

unfoldable pub close_call : SimpleParams → Unix → Reply SimpleParams
unfolding cc_get tok_clear
close_call p u =
    if p.version == abi_version
    then closed p u (cc_get u p.client)
    else answer invalid_parameter p u

unfoldable pub activate_call : Answers → SimpleParams → Unix → Reply SimpleParams
unfolding cc_get activate
activate_call w p u = on_client p.version p.client p u λ a cc.
    let r = activate w cc.client in
    answer success (record p { result = flag r.0 }) (put_client u a cc r.1)

unfoldable pub deactivate_call : SimpleParams → Unix → Reply SimpleParams
unfolding cc_get deactivate bridge_shutdown
deactivate_call p u = on_client p.version p.client p u λ a cc.
    let r = deactivate cc.client in
    answer success (record p { result = flag r.0 })
      (put_context u a (record cc { client = r.1; sync = bridge_shutdown cc.sync }))

unfoldable pub install_callbacks : SimpleParams → Unix → Reply SimpleParams
unfolding cc_get bridge_reset set_process_callback set_buffer_size_callback set_sample_rate_callback
    set_latency_callback
install_callbacks p u = on_client p.version p.client p u λ a cc.
    answer success (record p { result = 1 })
      (put_context u a (record cc {
        client =
            set_latency_callback (
              set_sample_rate_callback (set_buffer_size_callback (set_process_callback cc.client)));
        sync = record (bridge_reset cc.sync) { installed = true };
      }))

-- pa_bind_params
pub record BindParams : Type 0 where
  pub version : ℕ
  pub client : ℕ
  pub binding : Binding

unfoldable pub bind_rt_call : BindParams → Unix → Reply BindParams
unfolding cc_get bind_rt
bind_rt_call p u =
    on_client p.version p.client p u
      λ a cc. answer success p (put_context u a (bind_rt p.binding cc))

-- The pump's call, where its wait is over; none while it waits. The priority is raised once.
abbrev waited : WaitParams → Unix → ℕ → Context → Option (Reply WaitParams)
waited p u a cc =
    if not cc.sync.sync_init
    then some (answer invalid_handle p u)
    else let s = record cc.sync { rt_raised = true } in
      if pump_waits s
      then none
      else let r = take_event p s in
        some (answer success r.0 (put_context u a (record cc { sync = r.1 })))

abbrev waited_on : WaitParams → Unix → Found → Option (Reply WaitParams)
waited_on p u missing = some (answer invalid_handle p u)
waited_on p u alien = some (answer undefined p u)
waited_on p u (found a cc) = waited p u a cc

unfoldable pub wait_callback : WaitParams → Unix → Option (Reply WaitParams)
unfolding cc_get pump_waits take_event
wait_callback p u =
    if p.version == abi_version
    then waited_on p u (cc_get u p.client)
    else some (answer invalid_parameter p u)

-- pa_reply_params
pub record ReplyParams : Type 0 where
  pub version : ℕ
  pub client : ℕ
  pub seq : ℕ
  pub produced : ℕ
  pub result : ℤ

unfoldable pub reply_callback : ReplyParams → Unix → Reply ReplyParams
unfolding cc_get reply
reply_callback p u = on_client p.version p.client p u λ a cc.
    if not cc.sync.sync_init
    then answer invalid_handle p u
    else answer success p
        (put_context u a (record cc { sync = reply p.seq p.produced p.result cc.sync }))

-- The calls about the settings: what comes back where the version is right.
abbrev versioned : {A : Type 0} → ℕ → A → Option A
versioned version a = if version == abi_version then some a else none

unfoldable pub load_config : World → ℕ → Option (Config × ℕ)
unfolding config_load
load_config w version = let r = config_load w in versioned version (r.1, flag r.0)

unfoldable pub save_config : World → Outcome → ℕ → Config → Option ℕ
unfolding config_save
save_config w o version c = versioned version (flag (config_save w o c).ok)

abbrev path_or_empty : Option Bytes → Bytes
path_or_empty none = []
path_or_empty (some path) = path

-- pipeasio_config_path writes into the 256 bytes of the block.
unfoldable pub config_path_call : World → ℕ → Option Bytes
unfolding config_path copy_str
config_path_call w version =
    versioned version (copy_str portname_max (path_or_empty (config_path w)))

unfoldable pub launch_panel : Bool → ℕ → Option ℕ
launch_panel launched version = versioned version (flag launched)

unfoldable pub panel_available : Bool → ℕ → Option ℕ
panel_available available version = versioned version (flag available)

-- struct stat, as far as the fingerprint goes.
pub record FileStat : Type 0 where
  pub sec : ℕ
  pub nsec : ℕ
  pub size : ℕ
  pub inode : ℕ

abbrev mixed : FileStat → ℕ
mixed st =
    bit_xor (bit_xor ((st.sec * 1000000000 + st.nsec) % 2 ^ 64) ((st.size * 2 ^ 20) % 2 ^ 64))
      ((st.inode * 2 ^ 40) % 2 ^ 64)

-- 0 is kept for a file that is not there.
unfoldable pub fingerprint : Option FileStat → ℕ
fingerprint none = 0
fingerprint (some st) = let fp = mixed st in if fp == 0 then 1 else fp

abbrev stat_at : (Bytes → Option FileStat) → Option Bytes → Option FileStat
stat_at stat none = none
stat_at stat (some path) = stat path

unfoldable pub config_fingerprint : World → (Bytes → Option FileStat) → ℕ → Option HiLo
unfolding fingerprint config_path to_hi_lo
config_fingerprint w stat version =
    versioned version (to_hi_lo (fingerprint (stat_at stat (config_path w))))
