-- ===== src/Buffer/Slices.antt =====
-- The layout of the callback buffer: the slices of the channels' halves lie inside it and do not
-- overlap, for every channel count and buffer size that the driver accepts.
use pipeasio.Prelude.{ℕ, ◌+◌, ◌*◌, ◌^◌, ◌≤◌, ◌<◌, ◌≡◌, ◌≢◌, ◌⊎◌, inl, inr, arith, ap, ◌∙◌, dec_lt}
use pipeasio.Buffer.Offsets.{
  host_callback_size_bytes, host_input_offset_samples, host_output_offset_samples,
  host_half_offset_samples, size_t,
}

-- sizeof(audio_sample_t)
abbrev pub sample_size : ℕ
sample_size = 4

-- A channel of the host: an input or an output by its index.
pub data Channel : Type 0 where
  input : ℕ → Channel
  output : ℕ → Channel

-- The place of a channel in the block.
abbrev place : ℕ → Channel → ℕ
place n_in (input i) = i
place n_in (output i) = n_in + i

abbrev pub InRange : ℕ → ℕ → Channel → Type 0
InRange n_in n_out (input i) = i < n_in
InRange n_in n_out (output i) = i < n_out

-- Where a half of a channel begins, in samples.
unfoldable pub slice_start : ℕ → ℕ → Channel → ℕ → ℕ
slice_start n_in b (input i) half = host_input_offset_samples i b + host_half_offset_samples half b
slice_start n_in b (output i) half =
    host_output_offset_samples i n_in b + host_half_offset_samples half b

product-le : (x y m n : ℕ) → x ≤ m → y ≤ n → x * y ≤ m * n
product-le x y m n p q = grind arith

size_t-exact : (n : ℕ) → n < 2 ^ 64 → size_t n ≡ n
size_t-exact n h = omega arith

product-small : (x b : ℕ) → x ≤ 4096 → b ≤ 8192 → x * b < 2 ^ 64
product-small x b p q = omega (arith, product-le x b 4096 8192 p q)

doubled-exact : (x b : ℕ) → x ≤ 512 → b ≤ 8192 → size_t (size_t (x * 2) * b) ≡ x * 2 * b
doubled-exact x b p q =
    ap (λ (y : ℕ). size_t (y * b)) (size_t-exact (x * 2) (omega arith))
    ∙ size_t-exact (x * 2 * b) (product-small (x * 2) b (omega arith) q)

offset-exact : (x b : ℕ) → x ≤ 512 → b ≤ 8192 → size_t (size_t (size_t x * 2) * b) ≡ x * 2 * b
offset-exact x b p q =
    ap (λ (y : ℕ). size_t (size_t (y * 2) * b)) (size_t-exact x (omega arith))
    ∙ doubled-exact x b p q

-- Of two different places the one starts where the other has ended, or before.
apart : (s t b : ℕ) → s ≢ t → (s * b + b ≤ t * b) ⊎ (t * b + b ≤ s * b)
apart s t b ne = elim (dec_lt s t) [
  | yes h ↦ inl (omega (arith, product-le (s + 1) b t b (omega arith) (omega arith)))
  | no h ↦ inr (omega (arith, product-le (t + 1) b s b (omega arith) (omega arith)))
]

module _ (n_in n_out b : ℕ) (few_in : n_in ≤ 256) (few_out : n_out ≤ 256) (small : b ≤ 8192) where
  half-exact : (half : ℕ) → half < 2 → host_half_offset_samples half b ≡ half * b
  unfolding host_half_offset_samples
  half-exact half h = size_t-exact (half * b) (product-small half b (omega arith) small)

  slice_start-place :
      (c : Channel) (half : ℕ)
      → InRange n_in n_out c
      → half < 2
      → slice_start n_in b c half ≡ (place n_in c * 2 + half) * b
  unfolding slice_start host_input_offset_samples host_output_offset_samples
  slice_start-place (input i) half r h =
      omega (arith, half-exact half h, doubled-exact i b (omega arith) small)
  slice_start-place (output i) half r h =
      omega (arith, half-exact half h, offset-exact (n_in + i) b (omega arith) small)

  pub total_samples :
      host_callback_size_bytes n_in n_out b sample_size ≡ (n_in + n_out) * 2 * b * sample_size
  unfolding host_callback_size_bytes
  total_samples =
      ap (λ (y : ℕ). size_t (y * 4)) (offset-exact (n_in + n_out) b (omega arith) small)
      ∙ size_t-exact ((n_in + n_out) * 2 * b * 4)
          (omega (arith, product-le ((n_in + n_out) * 2) b 1024 8192 (omega arith) small))

  place-lt : (c : Channel) → InRange n_in n_out c → place n_in c < n_in + n_out
  place-lt (input i) r = omega arith
  place-lt (output i) r = omega arith

  place-injective :
      (c d : Channel)
      → InRange n_in n_out c
      → InRange n_in n_out d
      → place n_in c ≡ place n_in d
      → c ≡ d
  place-injective (input i) (input j) r s e = cc
  place-injective (input i) (output j) r s e = absurd (omega arith)
  place-injective (output i) (input j) r s e = absurd (omega arith)
  place-injective (output i) (output j) r s e = ap output (omega arith)

  differ :
      (c d : Channel) (h k : ℕ)
      → InRange n_in n_out c
      → InRange n_in n_out d
      → h < 2
      → k < 2
      → (c ≢ d) ⊎ (h ≢ k)
      → place n_in c * 2 + h ≢ place n_in d * 2 + k
  differ c d h k r s p q (inl ne) e = ne (place-injective c d r s (omega arith))
  differ c d h k r s p q (inr ne) e = ne (omega arith)

  -- For at most 256 inputs, 256 outputs and 8192 frames, the slice of either half of a channel that is
  -- in range ends inside the block.
  pub slice-inside :
      (c : Channel) (half : ℕ)
      → InRange n_in n_out c
      → half < 2
      → (slice_start n_in b c half + b) * sample_size
        ≤ host_callback_size_bytes n_in n_out b sample_size
  slice-inside c half r h = omega (
    arith,
    total_samples,
    slice_start-place c half r h,
    place-lt c r,
    product-le (place n_in c * 2 + half + 1) b ((n_in + n_out) * 2) b (omega (arith, place-lt c r))
        (omega arith),
  )

  -- For at most 256 inputs, 256 outputs and 8192 frames, the slices of channels in range do not
  -- overlap, unless they are the same half of the same channel.
  pub slices-disjoint :
      (c d : Channel) (h k : ℕ)
      → InRange n_in n_out c
      → InRange n_in n_out d
      → h < 2
      → k < 2
      → (c ≢ d) ⊎ (h ≢ k)
      → (slice_start n_in b c h + b ≤ slice_start n_in b d k)
        ⊎ (slice_start n_in b d k + b ≤ slice_start n_in b c h)
  slices-disjoint c d h k r s p q ne =
      rw (slice_start-place c h r p, slice_start-place d k s q)
        (apart (place n_in c * 2 + h) (place n_in d * 2 + k) b (differ c d h k r s p q ne))
