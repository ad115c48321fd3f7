-- ===== src/Driver/Rollback.antt =====
-- src/asio.c: a CreateBuffers whose activation fails, and DisposeBuffers, leave no buffer behind.
use pipeasio.Prelude.{
  eqb_ℤ_sound, ◌∙◌, ◌≢◌, is_some, ℕ, ◌≡◌, refl, inl, inr, Bool, true, false, Option, none, some,
  List, [], ◌∷◌, map, Bool-cases, All, ℤ, ◌||◌, eqb_ℤ, ◌==◌,
}
use pipeasio.Audio.Filter.{activate}
use pipeasio.Audio.{Client, set_buffer_size}
use pipeasio.Config.{buffer_size_valid}
use pipeasio.Driver.Buffers.{
  BufferInfo, CreateAnswers, Outcome, create_buffers, release_buffers, drop_buffer, activated,
  activate_client, allocated, with_size, slots, Sized, refused, sized, take_size, push_size,
  place_buffers, apply_pending_config, check_channels, commit_staged, settle_size, is_initialized,
}
use pipeasio.Driver.Configure.{apply_config_fields}
use pipeasio.Driver.{ok, Driver, IoChannel, Sample, to_uint32}

abbrev pub IsDropped : IoChannel → Type 0
IsDropped ch = (ch.audio_buffer ≡ none) × (ch.active ≡ false)

-- No callbacks, no block, and no channel that is active or has a place in it.
pub record IsReleased (d : Driver) : Type 0 where
  pub no_callbacks : d.callbacks ≡ false
  pub no_block : d.callback_buffer ≡ none
  pub no_inputs : d.active_inputs ≡ 0
  pub no_outputs : d.active_outputs ≡ 0
  pub inputs_dropped : All IsDropped d.input_channels
  pub outputs_dropped : All IsDropped d.output_channels

drop_buffer-All : (chs : List IoChannel) → All IsDropped (map drop_buffer chs)
drop_buffer-All [] = tt
drop_buffer-All (ch ∷ chs) = ((refl, refl), drop_buffer-All chs)

release_buffers-IsReleased : (d : Driver) → IsReleased (release_buffers d)
unfolding release_buffers
release_buffers-IsReleased d = record {
  no_callbacks = refl;
  no_block = refl;
  no_inputs = refl;
  no_outputs = refl;
  inputs_dropped = drop_buffer-All d.input_channels;
  outputs_dropped = drop_buffer-All d.output_channels;
}

-- The fields that IsReleased reads are those of `d`.
IsReleased-same :
    (d e : Driver)
    → IsReleased d
    → e.callbacks ≡ d.callbacks
    → e.callback_buffer ≡ d.callback_buffer
    → e.active_inputs ≡ d.active_inputs
    → e.active_outputs ≡ d.active_outputs
    → e.input_channels ≡ d.input_channels
    → e.output_channels ≡ d.output_channels
    → IsReleased e
IsReleased-same d e r a b c f g h = record {
  no_callbacks = a ∙ r.no_callbacks;
  no_block = b ∙ r.no_block;
  no_inputs = c ∙ r.no_inputs;
  no_outputs = f ∙ r.no_outputs;
  inputs_dropped = rw g r.inputs_dropped;
  outputs_dropped = rw h r.outputs_dropped;
}

differs : (y z : ℤ) → y ≢ z → eqb_ℤ y z ≡ false
differs y z h = elim (Bool-cases (eqb_ℤ y z)) [ inl e ↦ absurd (h (eqb_ℤ_sound y z e)) | inr e ↦ e ]

-- An outcome other than success leaves nothing behind.
abbrev Clears : Outcome → Type 0
Clears o = eqb_ℤ o.code ok ≡ false → IsReleased o.driver

activated-Clears :
    (w : CreateAnswers) (given : List (Option (ℕ × ℕ))) (d : Driver) (r : Bool × Client)
    → Clears (activated w given d r)
activated-Clears w given d (true, c) e = absurd cc
activated-Clears w given d (false, c) e = release_buffers-IsReleased (record d { client = some c })

activate_client-Clears :
    (w : CreateAnswers) (given : List (Option (ℕ × ℕ))) (d : Driver) (o : Option Client)
    → Clears (activate_client w given d o)
activate_client-Clears w given d none e = release_buffers-IsReleased d
activate_client-Clears w given d (some c) e = activated-Clears w given d (activate w.activation c) e

allocated-Clears :
    (w : CreateAnswers) (bs : List BufferInfo) (d : Driver) (o : Option (List Sample))
    → is_some o ≡ true
    → Clears (allocated w bs d o)
allocated-Clears w bs d none m e = absurd cc
allocated-Clears w bs d (some memory) m e =
    let d' = place_buffers bs memory d in activate_client-Clears w (slots bs d') d' d'.client e

-- What a size that is refused, or one that is taken, leaves of the driver.
abbrev LeavesReleased : Sized → Type 0
LeavesReleased (refused code d) = IsReleased d
LeavesReleased (sized d) = IsReleased d

push_size-LeavesReleased :
    (size : ℤ) (d : Driver) (o : Option Client) → IsReleased d → LeavesReleased (push_size size d o)
unfolding set_buffer_size
push_size-LeavesReleased size d none r = r
push_size-LeavesReleased size d (some c) r = elim (Bool-cases (to_uint32 size == 0)) [
  | inl e ↦ simp e r
  | inr e ↦ simp e (IsReleased-same d _ r refl refl refl refl refl refl)
]

take_size-LeavesReleased :
    (size : ℤ) (d : Driver) → IsReleased d → LeavesReleased (take_size size d)
unfolding take_size
take_size-LeavesReleased size d r =
    elim (Bool-cases (d.fixed_buffersize || d.follow_device_clock)) [
      | inl e ↦ elim (Bool-cases (eqb_ℤ d.current_buffersize size)) [
        | inl f ↦ simp (e, f) (push_size-LeavesReleased size d d.client r)
        | inr f ↦ simp (e, f) r
      ]
      | inr e ↦ elim (Bool-cases (buffer_size_valid size)) [
        | inl f ↦
            let d' = record d { current_buffersize = size } in
            simp (e, f)
              (push_size-LeavesReleased size d' d.client
                (IsReleased-same d d' r refl refl refl refl refl refl))
        | inr f ↦ simp (e, f) r
      ]
    ]

commit_staged-IsReleased : (d : Driver) → IsReleased d → IsReleased (commit_staged d)
unfolding apply_config_fields
commit_staged-IsReleased d r = elim (Bool-cases d.config_pending) [
  | inl e ↦ rw e (IsReleased-same d _ r refl refl refl refl refl refl)
  | inr e ↦ rw e (IsReleased-same d _ r refl refl refl refl refl refl)
]

settle_size-IsReleased : (d : Driver) → IsReleased d → IsReleased (settle_size d)
settle_size-IsReleased d r = elim (Bool-cases (d.fixed_buffersize || d.follow_device_clock)) [
  | inl e ↦ rw e (IsReleased-same d _ r refl refl refl refl refl refl)
  | inr e ↦ rw e r
]

with_size-Clears :
    (w : CreateAnswers) (bs : List BufferInfo) (r : Sized)
    → is_some w.memory ≡ true
    → LeavesReleased r
    → Clears (with_size w bs r)
with_size-Clears w bs (refused code d) m r e = r
with_size-Clears w bs (sized d) m r e =
    allocated-Clears w bs (record d { callbacks = true; time_info_mode = w.time_info }) w.memory m e

create_buffers-Clears :
    (w : CreateAnswers) (given : Bool) (bs : List BufferInfo) (size : ℤ) (d : Driver)
    → is_some w.memory ≡ true
    → IsReleased d
    → Clears (create_buffers w given bs size d)
unfolding create_buffers apply_pending_config
create_buffers-Clears w given bs size d m r e =
    let d' = apply_pending_config d in
    let r' : IsReleased d' =
      settle_size-IsReleased (commit_staged d) (commit_staged-IsReleased d r) in
    elim (Bool-cases (is_initialized d.state)) [
      | inr f ↦ simp f r
      | inl f ↦ elim (Bool-cases given) [
        | inr g ↦ simp (f, g) r
        | inl g ↦ elim (Bool-cases (check_channels d'.number_inputs d'.number_outputs 0 0 bs)) [
          | inl h ↦
              simp (f, g, h)
                (with_size-Clears w bs (take_size size d') m (take_size-LeavesReleased size d' r')
                  (simp (f, g, h) at e))
          | inr h ↦ simp (f, g, h) r'
        ]
      ]
    ]

-- A CreateBuffers that does not succeed, for whatever reason but a lack of memory for the block, leaves
-- nothing behind: where a driver had no callbacks of the host, no block, no counts, and no channel
-- with a place or activity, it has none of them afterwards.
pub create_buffers-IsReleased :
    (w : CreateAnswers) (given : Bool) (bs : List BufferInfo) (size : ℤ) (d : Driver)
    → is_some w.memory ≡ true
    → IsReleased d
    → (create_buffers w given bs size d).code ≢ ok
    → IsReleased (create_buffers w given bs size d).driver
create_buffers-IsReleased w given bs size d m r ne =
    create_buffers-Clears w given bs size d m r
      (differs (create_buffers w given bs size d).code ok ne)
