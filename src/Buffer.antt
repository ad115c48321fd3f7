-- ===== src/Buffer.antt =====
-- include/pipeasio_offsets.h and the RT copy helpers of include/audio.h: where each channel's halves
-- lie in the host's callback buffer, and the transfers between it and the device's buffers.
pub mod Offsets
pub mod Memory
pub mod Copy
pub mod Slices
