-- ===== src/Driver/Sizes.antt =====
-- src/asio.c: the sizes and channels that the driver works with are those that it can handle.
use pipeasio.Prelude.{
  eqb_ℤ_refl, ℕ, zero, suc, ◌^◌, ◌≤◌, ◌<◌, ◌≡◌, refl, ◌⊎◌, inl, inr, Bool, true, false, ◌||◌,
  Option, none, some, List, [], ◌∷◌, length, get_elem?, arith, ◌==◌, if◌then◌else◌, leb, Bool-cases,
  ℤ, pos, negsuc, All,
}
use pipeasio.Audio.{Client, set_buffer_size}
use pipeasio.Config.{Config, buffer_size_valid, max_channels}
use pipeasio.Driver.Buffers.{
  BufferInfo, apply_pending_config, commit_staged, settle_size, Sized, refused, sized, take_size,
  push_size, check_channels, channel_in_range,
}
use pipeasio.Driver.Configure.{
  Environment, configure_driver, clamp_channels, fallback_size, apply_config_fields, override_int,
  env_number_inputs, env_number_outputs,
}
use pipeasio.Driver.Lifecycle.{AreSized}
use pipeasio.Driver.Queries.{
  BufferSize, get_buffer_size, size_answer, forced_size, get_channel_info, channel_count,
  channels_of, ChannelInfo,
}
use pipeasio.Driver.{Driver, ok, bad_argument, to_uint32}

clamp_channels-le : (z : ℤ) → clamp_channels z ≤ max_channels
unfolding clamp_channels
clamp_channels-le (negsuc n) = omega arith
clamp_channels-le (pos n) = ground arith

fallback_size-valid : (z : ℤ) → buffer_size_valid (fallback_size z) ≡ true
unfolding fallback_size buffer_size_valid
fallback_size-valid z = elim (Bool-cases (buffer_size_valid z)) [
  | inl e ↦ simp e refl
  | inr e ↦ simp e refl
]

-- Whatever the configuration file and the environment hold, the driver's preferred buffer size is one
-- that it supports, and it has at most 256 inputs and 256 outputs.
pub configure_driver-bounds :
    (cfg : Config) (e : Environment) (d : Driver)
    → (buffer_size_valid (configure_driver cfg e d).preferred_buffersize ≡ true)
      × ((configure_driver cfg e d).number_inputs ≤ max_channels)
      × ((configure_driver cfg e d).number_outputs ≤ max_channels)
unfolding configure_driver
configure_driver-bounds cfg e d = (
  fallback_size-valid _,
  clamp_channels-le (override_int (e.variable env_number_inputs) cfg.inputs),
  clamp_channels-le (override_int (e.variable env_number_outputs) cfg.outputs),
)

valid-nonzero : (z : ℤ) → buffer_size_valid z ≡ true → (to_uint32 z == 0) ≡ false
unfolding buffer_size_valid
valid-nonzero (negsuc n) h = absurd cc
valid-nonzero (pos n) h = ground arith

-- A quantum that the watcher has stored: a positive size, or 0 for none yet.
abbrev pub IsQuantum : ℤ → Type 0
IsQuantum (pos n) = n < 2 ^ 31
IsQuantum (negsuc n) = ⊥

forced_size-nonzero :
    (follow : Bool) (q pref : ℤ)
    → IsQuantum q
    → buffer_size_valid pref ≡ true
    → (to_uint32 (forced_size follow q pref) == 0) ≡ false
unfolding forced_size
forced_size-nonzero follow (negsuc n) pref h v = absurd h
forced_size-nonzero false (pos n) pref h v = valid-nonzero pref v
forced_size-nonzero true (pos n) pref h v = elim (Bool-cases (n == 0)) [
  | inl e ↦ simp e (valid-nonzero pref v)
  | inr e ↦ simp e (ground arith)
]

abbrev pub accepted : Sized → Bool
accepted (refused code d) = false
accepted (sized d) = true

-- The size that GetBufferSize prefers.
abbrev pub preferred_of : Option BufferSize → ℤ
preferred_of none = pos 0
preferred_of (some b) = b.preferred_size

push_size-accepted :
    (size : ℤ) (d : Driver) (o : Option Client) (c : Client)
    → o ≡ some c
    → (to_uint32 size == 0) ≡ false
    → accepted (push_size size d o) ≡ true
unfolding set_buffer_size
push_size-accepted size d none c e h = absurd cc
push_size-accepted size d (some b) c e h = simp h refl

abbrev answer_of : Driver → BufferSize
answer_of e =
    size_answer e.fixed_buffersize e.follow_device_clock e.follower_quantum e.preferred_buffersize

get_buffer_size-committed :
    (d : Driver)
    → preferred_of (get_buffer_size true d).1 ≡ (answer_of (commit_staged d)).preferred_size
unfolding get_buffer_size apply_config_fields
get_buffer_size-committed d = elim (Bool-cases d.config_pending) [
  | inl e ↦ simp e refl
  | inr e ↦ simp e refl
]

settled-accepted :
    (e : Driver) (c : Client)
    → e.client ≡ some c
    → buffer_size_valid e.preferred_buffersize ≡ true
    → IsQuantum e.follower_quantum
    → accepted (take_size (answer_of e).preferred_size (settle_size e)) ≡ true
unfolding take_size forced_size
settled-accepted e c k v q = elim (Bool-cases (e.fixed_buffersize || e.follow_device_clock)) [
  | inl f ↦
      let size = forced_size e.follow_device_clock e.follower_quantum e.preferred_buffersize in
      simp (f, eqb_ℤ_refl size)
        (push_size-accepted size (record e { current_buffersize = size }) e.client c k
          (forced_size-nonzero e.follow_device_clock e.follower_quantum e.preferred_buffersize q v))
  | inr f ↦
      simp (f, v)
        (push_size-accepted e.preferred_buffersize
          (record e { current_buffersize = e.preferred_buffersize }) e.client c k
          (valid-nonzero e.preferred_buffersize v))
]

commit_staged-client :
    (d : Driver) (c : Client)
    → d.client ≡ some c
    → (b : Client) × ((commit_staged d).client ≡ some b)
unfolding apply_config_fields
commit_staged-client d c e = elim (Bool-cases d.config_pending) [
  | inl f ↦ simp (f, e) (_, refl)
  | inr f ↦ simp f (c, e)
]

-- The size that GetBufferSize prefers is one that a CreateBuffers in the same state accepts, in every
-- buffer mode, and with or without a configuration that the watcher has staged before both of them;
-- for a driver with an audio client, a supported preferred size of its own and in a staged
-- configuration, and a positive observed quantum, if any.
pub get_buffer_size-take_size :
    (d : Driver) (c : Client)
    → d.client ≡ some c
    → buffer_size_valid d.preferred_buffersize ≡ true
    → buffer_size_valid d.staged_cfg.buffer_size ≡ true
    → IsQuantum d.follower_quantum
    → accepted (take_size (preferred_of (get_buffer_size true d).1) (apply_pending_config d)) ≡ true
unfolding apply_pending_config apply_config_fields
get_buffer_size-take_size d c e v w q =
    let b = commit_staged-client d c e in
    let valid : buffer_size_valid (commit_staged d).preferred_buffersize ≡ true =
      (elim (Bool-cases d.config_pending) [ inl f ↦ simp f w | inr f ↦ simp f v ]) in
    let same_quantum : (commit_staged d).follower_quantum ≡ d.follower_quantum =
      (elim (Bool-cases d.config_pending) [ inl f ↦ simp f refl | inr f ↦ simp f refl ]) in
    rw (get_buffer_size-committed d)
      (settled-accepted (commit_staged d) b.0 b.1 valid (rw same_quantum q))

abbrev pub InRange : ℕ → ℕ → BufferInfo → Type 0
InRange n_in n_out b = channel_in_range b.channel (if b.is_input then n_in else n_out) ≡ true

-- Every buffer that CreateBuffers' check lets pass names a channel that the driver has.
pub check_channels-InRange :
    (n_in n_out j k : ℕ) (bs : List BufferInfo)
    → check_channels n_in n_out j k bs ≡ true
    → All (InRange n_in n_out) bs
unfolding check_channels
check_channels-InRange n_in n_out j k [] h = tt
check_channels-InRange n_in n_out j k (b ∷ bs) h = elim (Bool-cases b.is_input) [
  | inl e ↦ (ground arith, check_channels-InRange n_in n_out (suc j) k bs (ground arith))
  | inr e ↦ (ground arith, check_channels-InRange n_in n_out j (suc k) bs (ground arith))
]

get_elem?-some :
    {A : Type 0} (xs : List A) (n : ℕ) → n < length xs → (x : A) × (get_elem? xs n ≡ some x)
get_elem?-some [] n h = absurd (omega arith)
get_elem?-some (x ∷ xs) zero h = (x, refl)
get_elem?-some (x ∷ xs) (suc n) h = get_elem?-some xs n (omega arith)

sized-channels :
    (is_input : Bool) (d : Driver)
    → AreSized d
    → length (channels_of is_input d) ≡ channel_count is_input d
sized-channels true d h = h.0
sized-channels false d h = h.1

-- For a driver whose channel arrays have the configured lengths, GetChannelInfo refuses the channel or
-- answers for one that is there: it never reads outside of the arrays.
pub get_channel_info-answers :
    (channel : ℤ) (is_input : Bool) (d : Driver)
    → AreSized d
    → (get_channel_info channel is_input d ≡ (bad_argument, none))
      ⊎ ((i : ChannelInfo) × (get_channel_info channel is_input d ≡ (ok, some i)))
unfolding get_channel_info
get_channel_info-answers (negsuc n) is_input d h = inl refl
get_channel_info-answers (pos n) is_input d h =
    elim (Bool-cases (leb (channel_count is_input d) n)) [
      | inl e ↦ rw e (inl refl)
      | inr e ↦
          let x =
            get_elem?-some (channels_of is_input d) n (
              omega (arith, sized-channels is_input d h, not_leb (channel_count is_input d) n e)) in
          simp (e, x.1) (inr (_, refl))
    ]
  where
    not_leb : (a b : ℕ) → leb a b ≡ false → b < a
    not_leb a b h = ground arith
