-- ===== src/Buffer/Offsets.antt =====
-- include/pipeasio_offsets.h. A `size_t` has 64 bits, and each operation wraps.
use pipeasio.Prelude.{ℕ, ◌+◌, ◌*◌, ◌%◌, ◌^◌}

abbrev pub size_t : ℕ → ℕ
size_t n = n % 2 ^ 64

abbrev pub halves : ℕ
halves = 2

unfoldable pub host_callback_size_bytes : ℕ → ℕ → ℕ → ℕ → ℕ
host_callback_size_bytes n_in n_out buffer_size sample_size =
    size_t (size_t (size_t (size_t (n_in + n_out) * halves) * buffer_size) * sample_size)

unfoldable pub host_input_offset_samples : ℕ → ℕ → ℕ
host_input_offset_samples input_idx buffer_size = size_t (size_t (input_idx * halves) * buffer_size)

unfoldable pub host_output_offset_samples : ℕ → ℕ → ℕ → ℕ
host_output_offset_samples output_idx n_in buffer_size =
    size_t (size_t (size_t (n_in + output_idx) * halves) * buffer_size)

unfoldable pub host_half_offset_samples : ℕ → ℕ → ℕ
host_half_offset_samples host_buffer_index buffer_size = size_t (host_buffer_index * buffer_size)
