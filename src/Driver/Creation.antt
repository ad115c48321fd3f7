-- ===== src/Driver/Creation.antt =====
-- src/asio.c: CreateBuffers keeps the promise of the driver's state on every branch.
use pipeasio.Prelude.{
  ℕ, zero, suc, ◌≡◌, refl, sym, ap, ◌∙◌, inl, inr, Bool, true, false, ◌||◌, Option, none, some,
  List, [], ◌∷◌, length, arith, ◌==◌, Bool-cases, ℤ, pos, negsuc, eqb_ℤ,
}
use pipeasio.Audio.Activation.{IsIdle, IsServing, activate-Outcome, deactivate-IsIdle}
use pipeasio.Audio.Activation
use pipeasio.Audio.Filter.{activate}
use pipeasio.Audio.{Client, set_buffer_size, set_forced_rate, set_follow_device, set_rt_priority}
use pipeasio.Buffer.Offsets.{host_input_offset_samples, host_output_offset_samples}
use pipeasio.Config.{buffer_size_valid}
use pipeasio.Driver.Buffers.{
  channel_index, BufferInfo, CreateAnswers, create_buffers, map_client, commit_staged, settle_size,
  apply_pending_config, Sized, refused, sized, push_size, take_size, lay_out, mark_active,
  mark_requested, place_buffers, release_buffers, activated, activate_client, allocated, with_size,
  slots, long_size, check_channels,
}
use pipeasio.Driver.Configure.{apply_config_fields}
use pipeasio.Driver.Soundness.{dropped-AreSized}
use pipeasio.Driver.Lifecycle.{IsSound, Promise, IsOpen, AreSized, HasMemory}
use pipeasio.Driver.{
  Driver, IoChannel, DriverState, loaded, initialized, prepared, running, Sample, to_uint32,
}

-- An initialized driver with the promise of its state.
pub record IsReady (d : Driver) : Type 0 where
  pub initial : d.state ≡ initialized
  pub promised : Promise initialized d

IsReady-IsSound : (d : Driver) → IsReady d → IsSound d
IsReady-IsSound d h = rw h.initial h.promised

pub set_in :
    (o : Option Client) (rate : ℕ) (follow : Bool) (priority : ℤ)
    → IsOpen o
    → IsOpen (
        map_client
          (λ (c : Client).
            set_rt_priority priority (set_follow_device follow (set_forced_rate rate c)))
          o)
unfolding set_rt_priority set_follow_device set_forced_rate
set_in none rate follow priority h = h
set_in (some c) rate follow priority h = elim (Bool-cases (rate == 0)) [
  | inl e ↦ rw e (record {
    inactive = h.inactive;
    no_filter = h.no_filter;
    stopped = h.stopped;
    unlinked = h.unlinked;
  })
  | inr e ↦ rw e (record {
    inactive = h.inactive;
    no_filter = h.no_filter;
    stopped = h.stopped;
    unlinked = h.unlinked;
  })
]

commit_staged-IsReady : (d : Driver) → IsReady d → IsReady (commit_staged d)
unfolding apply_config_fields
commit_staged-IsReady d h = elim (Bool-cases d.config_pending) [
  | inl e ↦ rw e (record {
    initial = h.initial;
    promised = (h.promised.0, set_in d.client _ _ _ h.promised.1);
  })
  | inr e ↦ rw e (record { initial = h.initial; promised = h.promised })
]

settle_size-IsReady : (d : Driver) → IsReady d → IsReady (settle_size d)
settle_size-IsReady d h = elim (Bool-cases (d.fixed_buffersize || d.follow_device_clock)) [
  | inl e ↦ rw e (record { initial = h.initial; promised = h.promised })
  | inr e ↦ rw e h
]

apply_pending_config-IsReady : (d : Driver) → IsReady d → IsReady (apply_pending_config d)
unfolding apply_pending_config
apply_pending_config-IsReady d h = settle_size-IsReady (commit_staged d) (commit_staged-IsReady d h)

-- The client is idle, and its next activation runs on the driver's size.
abbrev Fits : ℤ → Option Client → Type 0
Fits size none = ⊥
Fits size (some c) = IsIdle c × (c.buffer_size ≡ to_uint32 size)

abbrev IsTaken : Sized → Type 0
IsTaken (refused code d) = IsReady d
IsTaken (sized d) = (d.state ≡ initialized) × AreSized d × Fits d.current_buffersize d.client

eqb_ℤ→≡ : (a b : ℤ) → eqb_ℤ a b ≡ true → a ≡ b
eqb_ℤ→≡ (pos a) (pos b) e = ap pos (ground arith)
eqb_ℤ→≡ (negsuc a) (negsuc b) e = ap negsuc (ground arith)
eqb_ℤ→≡ (pos a) (negsuc b) e = absurd cc
eqb_ℤ→≡ (negsuc a) (pos b) e = absurd cc

push_size-IsTaken :
    (size : ℤ) (d : Driver) (o : Option Client)
    → d.state ≡ initialized
    → AreSized d
    → IsOpen o
    → d.client ≡ o
    → d.current_buffersize ≡ size
    → IsTaken (push_size size d o)
unfolding set_buffer_size
push_size-IsTaken size d none s l h e k = absurd h
push_size-IsTaken size d (some c) s l h e k = elim (Bool-cases (to_uint32 size == 0)) [
  | inl f ↦ simp f (record { initial = s; promised = (l, rw e h) })
  | inr f ↦ simp f (
    s,
    l,
    (
      record {
        inactive = h.inactive;
        no_filter = h.no_filter;
        stopped = h.stopped;
        unlinked = h.unlinked;
      },
      ap to_uint32 (sym k),
    ),
  )
]

take_size-IsTaken : (size : ℤ) (d : Driver) → IsReady d → IsTaken (take_size size d)
unfolding take_size
take_size-IsTaken size d h = elim (Bool-cases (d.fixed_buffersize || d.follow_device_clock)) [
  | inl e ↦ elim (Bool-cases (eqb_ℤ d.current_buffersize size)) [
    | inl f ↦
        simp (e, f)
          (push_size-IsTaken size d d.client h.initial h.promised.0 h.promised.1 refl
            (eqb_ℤ→≡ d.current_buffersize size f))
    | inr f ↦ simp (e, f) h
  ]
  | inr e ↦ elim (Bool-cases (buffer_size_valid size)) [
    | inl f ↦
        simp (e, f)
          (push_size-IsTaken size (record d { current_buffersize = size }) d.client h.initial
            h.promised.0 h.promised.1 refl refl)
    | inr f ↦ simp (e, f) h
  ]
]

length-lay_out :
    (offset : ℕ → ℕ) (i : ℕ) (chs : List IoChannel) → length (lay_out offset i chs) ≡ length chs
unfolding lay_out
length-lay_out offset i [] = refl
length-lay_out offset i (ch ∷ chs) = ap suc (length-lay_out offset (suc i) chs)

length-mark_active : (n : ℕ) (chs : List IoChannel) → length (mark_active n chs) ≡ length chs
unfolding mark_active
length-mark_active zero [] = refl
length-mark_active (suc n) [] = refl
length-mark_active zero (ch ∷ chs) = refl
length-mark_active (suc n) (ch ∷ chs) = ap suc (length-mark_active n chs)

-- What the placing of the buffers leaves.
record IsPlaced (d e : Driver) : Type 0 where
  same_state : e.state ≡ d.state
  same_client : e.client ≡ d.client
  same_size : e.current_buffersize ≡ d.current_buffersize
  same_callbacks : e.callbacks ≡ d.callbacks
  memory : HasMemory d.callback_buffer → HasMemory e.callback_buffer
  fits : AreSized d → AreSized e

mark_requested-IsPlaced : (bs : List BufferInfo) (d : Driver) → IsPlaced d (mark_requested bs d)
unfolding mark_requested
mark_requested-IsPlaced [] d = record {
  same_state = refl;
  same_client = refl;
  same_size = refl;
  same_callbacks = refl;
  memory = λ h. h;
  fits = λ h. h;
}
mark_requested-IsPlaced (b ∷ bs) d = elim (Bool-cases b.is_input) [
  | inl e ↦
      let r = mark_requested-IsPlaced bs (record d {
        input_channels = mark_active (channel_index b.channel) d.input_channels;
        active_inputs = suc d.active_inputs;
      }) in
      rw e (record {
        same_state = r.same_state;
        same_client = r.same_client;
        same_size = r.same_size;
        same_callbacks = r.same_callbacks;
        memory = r.memory;
        fits =
            λ h. r.fits (length-mark_active (channel_index b.channel) d.input_channels ∙ h.0, h.1);
      })
  | inr e ↦
      let r = mark_requested-IsPlaced bs (record d {
        output_channels = mark_active (channel_index b.channel) d.output_channels;
        active_outputs = suc d.active_outputs;
      }) in
      rw e (record {
        same_state = r.same_state;
        same_client = r.same_client;
        same_size = r.same_size;
        same_callbacks = r.same_callbacks;
        memory = r.memory;
        fits =
            λ h. r.fits (h.0, length-mark_active (channel_index b.channel) d.output_channels ∙ h.1);
      })
]

activate_client-IsSound :
    (w : CreateAnswers) (given : List (Option (ℕ × ℕ))) (d : Driver) (o : Option Client)
    → d.state ≡ initialized
    → AreSized d
    → Fits d.current_buffersize o
    → d.callbacks ≡ true
    → HasMemory d.callback_buffer
    → IsSound (activate_client w given d o).driver
unfolding release_buffers
activate_client-IsSound w given d none s l h k m = absurd h
activate_client-IsSound w given d (some c) s l h k m =
    settled (activate w.activation c) (activate-Outcome w.activation c h.0)
  where
    settled :
        (r : Bool × Client)
        → Activation.Outcome c.buffer_size r
        → IsSound (activated w given d r).driver
    settled (true, c') (inl (e, serving)) = (l, rw (sym h.1) serving, k, m)
    settled (false, c') (inl (e, serving)) = absurd cc
    settled (true, c') (inr (e, idle)) = absurd cc
    settled (false, c') (inr (e, idle)) =
        IsReady-IsSound _ (record { initial = s; promised = (dropped-AreSized d l, idle) })

Fits-IsOpen : (size : ℤ) (o : Option Client) → Fits size o → IsOpen o
Fits-IsOpen size none h = h
Fits-IsOpen size (some c) h = h.0

allocated-IsSound :
    (w : CreateAnswers) (bs : List BufferInfo) (d : Driver) (o : Option (List Sample))
    → d.state ≡ initialized
    → AreSized d
    → Fits d.current_buffersize d.client
    → d.callbacks ≡ true
    → IsSound (allocated w bs d o).driver
unfolding place_buffers
allocated-IsSound w bs d none s l h k =
    IsReady-IsSound (record d { callback_buffer = none })
      (record { initial = s; promised = (l, Fits-IsOpen d.current_buffersize d.client h) })
allocated-IsSound w bs d (some m) s l h k =
    let size = long_size d.current_buffersize in
    let d' = record d {
      callback_buffer = some m;
      active_inputs = 0;
      active_outputs = 0;
      input_channels = lay_out (λ i. host_input_offset_samples i size) 0 d.input_channels;
      output_channels =
          lay_out (λ i. host_output_offset_samples i d.number_inputs size) 0 d.output_channels;
    } in
    let p = mark_requested-IsPlaced bs d' in
    let e = mark_requested bs d' in
    activate_client-IsSound w (slots bs e) e e.client (p.same_state ∙ s)
      (p.fits
        (length-lay_out _ 0 d.input_channels ∙ l.0, length-lay_out _ 0 d.output_channels ∙ l.1))
      (rw (p.same_size, p.same_client) h) (p.same_callbacks ∙ k) (p.memory tt)

with_size-IsSound :
    (w : CreateAnswers) (bs : List BufferInfo) (r : Sized)
    → IsTaken r
    → IsSound (with_size w bs r).driver
with_size-IsSound w bs (refused code d) h = IsReady-IsSound d h
with_size-IsSound w bs (sized d) (s, l, h) =
    allocated-IsSound w bs (record d { callbacks = true; time_info_mode = w.time_info }) w.memory s
      l h refl

create_in :
    (s : DriverState) (w : CreateAnswers) (given : Bool) (bs : List BufferInfo) (size : ℤ)
    (d : Driver)
    → Promise s d
    → IsSound (create_buffers w given bs size (record d { state = s })).driver
unfolding create_buffers
create_in loaded w given bs size d h = h
create_in prepared w given bs size d h = h
create_in running w given bs size d h = h
create_in initialized w false bs size d h = h
create_in initialized w true bs size d h =
    let d' = apply_pending_config (record d { state = initialized }) in
    let ready : IsReady d' =
      apply_pending_config-IsReady (record d { state = initialized })
        (record { initial = refl; promised = h }) in
    elim (Bool-cases (check_channels d'.number_inputs d'.number_outputs 0 0 bs)) [
      | inl e ↦
          simp e (with_size-IsSound w bs (take_size size d') (take_size-IsTaken size d' ready))
      | inr e ↦ simp e (IsReady-IsSound d' ready)
    ]

-- CreateBuffers keeps the promise of the driver's state, whatever the host asks for and the outside
-- answers.
pub create_buffers-IsSound :
    (w : CreateAnswers) (given : Bool) (bs : List BufferInfo) (size : ℤ) (d : Driver)
    → IsSound d
    → IsSound (create_buffers w given bs size d).driver
create_buffers-IsSound w given bs size d h = create_in d.state w given bs size d h
