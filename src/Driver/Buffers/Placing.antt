-- ===== src/Driver/Buffers/Placing.antt =====
-- src/asio.c: where CreateBuffers puts the channels' buffers, and how they are released.
use pipeasio.Prelude.{
  ℕ, zero, suc, ◌+◌, ◌-◌, ◌^◌, true, false, Option, none, some, List, [], ◌∷◌, map, if◌then◌else◌,
  ℤ, pos, negsuc, get_elem?,
}
use pipeasio.Buffer.Offsets.{host_input_offset_samples, host_output_offset_samples}
use pipeasio.Driver.{Driver, IoChannel, Sample}
use pipeasio.Driver.Buffers.Accepting.{BufferInfo}

-- A `LONG` as a size_t.
abbrev pub long_size : ℤ → ℕ
long_size (pos n) = n
long_size (negsuc n) = 2 ^ 64 - 1 - n

-- The channels get their places in the block, and are inactive.
unfoldable pub lay_out : (ℕ → ℕ) → ℕ → List IoChannel → List IoChannel
lay_out offset i [] = []
lay_out offset i (ch ∷ chs) =
    record ch { audio_buffer = some (offset i); active = false } ∷ lay_out offset (suc i) chs

unfoldable pub mark_active : ℕ → List IoChannel → List IoChannel
mark_active n [] = []
mark_active zero (ch ∷ chs) = record ch { active = true } ∷ chs
mark_active (suc n) (ch ∷ chs) = ch ∷ mark_active n chs

abbrev pub channel_index : ℤ → ℕ
channel_index (pos n) = n
channel_index (negsuc n) = 0

-- The second loop: every buffer that the host asked for makes its channel active and counts.
unfoldable pub mark_requested : List BufferInfo → Driver → Driver
unfolding mark_active
mark_requested [] d = d
mark_requested (b ∷ bs) d = mark_requested bs (
    if b.is_input
    then record d {
      input_channels = mark_active (channel_index b.channel) d.input_channels;
      active_inputs = suc d.active_inputs;
    }
    else record d {
      output_channels = mark_active (channel_index b.channel) d.output_channels;
      active_outputs = suc d.active_outputs;
    })

abbrev slot_of : ℕ → Option IoChannel → Option (ℕ × ℕ)
slot_of size none = none
slot_of size (some ch) = elim ch.audio_buffer [ none ↦ none | some off ↦ some (off, off + size) ]

-- audioBufferStart and audioBufferEnd of each buffer, as offsets in the block.
unfoldable pub slots : List BufferInfo → Driver → List (Option (ℕ × ℕ))
slots [] d = []
slots (b ∷ bs) d =
    slot_of (long_size d.current_buffersize) (
      get_elem? (if b.is_input then d.input_channels else d.output_channels)
        (channel_index b.channel))
    ∷ slots bs d

abbrev pub drop_buffer : IoChannel → IoChannel
drop_buffer ch = record ch { audio_buffer = none; active = false }

-- What a failed activation and DisposeBuffers undo.
unfoldable pub release_buffers : Driver → Driver
release_buffers d = record d {
  callbacks = false;
  input_channels = map drop_buffer d.input_channels;
  output_channels = map drop_buffer d.output_channels;
  active_inputs = 0;
  active_outputs = 0;
  callback_buffer = none;
}

-- The block, the channels' places in it, and the requested channels.
unfoldable pub place_buffers : List BufferInfo → List Sample → Driver → Driver
unfolding lay_out mark_requested
place_buffers bs memory d =
    let size = long_size d.current_buffersize in
    mark_requested bs (record d {
      callback_buffer = some memory;
      active_inputs = 0;
      active_outputs = 0;
      input_channels = lay_out (λ i. host_input_offset_samples i size) 0 d.input_channels;
      output_channels =
          lay_out (λ i. host_output_offset_samples i d.number_inputs size) 0 d.output_channels;
    })
