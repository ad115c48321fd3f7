-- ===== src/Driver/Buffers/Accepting.antt =====
-- src/asio.c: apply_pending_config, and what CreateBuffers accepts of the host's request.
use pipeasio.Prelude.{
  ℕ, suc, Bool, true, false, ◌&&◌, ◌||◌, Option, none, some, List, [], ◌∷◌, if◌then◌else◌, ltb, ℤ,
  pos, negsuc, eqb_ℤ,
}
use pipeasio.Audio.{Client, set_buffer_size, set_forced_rate, set_follow_device, set_rt_priority}
use pipeasio.Config.{buffer_size_valid}
use pipeasio.Driver.Configure.{apply_config_fields}
use pipeasio.Driver.Queries.{forced_size}
use pipeasio.Driver.{Driver, backend_failed, unsupported, to_uint32}

abbrev pub map_client : (Client → Client) → Option Client → Option Client
map_client f none = none
map_client f (some c) = some (f c)

-- The three settings that the audio client gets from the driver.
abbrev pub push_settings : Driver → Driver
push_settings d = record d {
  client =
      map_client
        (λ (c : Client). set_rt_priority d.rt_priority (
          set_follow_device d.follow_device_clock
            (set_forced_rate (to_uint32 d.forced_sample_rate) c)))
        d.client;
}

abbrev pub commit_staged : Driver → Driver
commit_staged d =
    if d.config_pending
    then push_settings (apply_config_fields d.staged_cfg (record d { config_pending = false }))
    else d

abbrev pub settle_size : Driver → Driver
settle_size d =
    if d.fixed_buffersize || d.follow_device_clock
    then record d {
      current_buffersize =
          forced_size d.follow_device_clock d.follower_quantum d.preferred_buffersize;
    }
    else d

unfoldable pub apply_pending_config : Driver → Driver
unfolding apply_config_fields forced_size
apply_pending_config d = settle_size (commit_staged d)

-- struct BufferInformation, as the host fills it.
pub record BufferInfo : Type 0 where
  pub is_input : Bool
  pub channel : ℤ

abbrev pub channel_in_range : ℤ → ℕ → Bool
channel_in_range (negsuc n) count = false
channel_in_range (pos n) count = ltb n count

-- The first loop of CreateBuffers; `j` inputs and `k` outputs have been met.
unfoldable pub check_channels : ℕ → ℕ → ℕ → ℕ → List BufferInfo → Bool
check_channels n_in n_out j k [] = true
check_channels n_in n_out j k (b ∷ bs) =
    let after_in = check_channels n_in n_out (suc j) k bs in
    let after_out = check_channels n_in n_out j (suc k) bs in
    if b.is_input
    then ltb j n_in && channel_in_range b.channel n_in && after_in
    else ltb k n_out && channel_in_range b.channel n_out && after_out

pub data Sized : Type 0 where
  refused : ℤ → Driver → Sized
  sized : Driver → Sized

abbrev pub pushed : Driver → Bool × Client → Sized
pushed d (true, c) = sized (record d { client = some c })
pushed d (false, c) = refused backend_failed d

abbrev pub push_size : ℤ → Driver → Option Client → Sized
push_size size d none = refused backend_failed d
push_size size d (some c) = pushed d (set_buffer_size (to_uint32 size) c)

-- The part of CreateBuffers that accepts the host's size.
unfoldable pub take_size : ℤ → Driver → Sized
take_size size d =
    if d.fixed_buffersize || d.follow_device_clock
    then (if eqb_ℤ d.current_buffersize size
        then push_size size d d.client
        else refused unsupported d)
    else if buffer_size_valid size
    then push_size size (record d { current_buffersize = size }) d.client
    else refused unsupported d
