-- ===== src/Domain/DmaPosition.antt =====
-- circular_dma_position.h: the producer position rebuilt from a DMA cursor and a count of the
-- half-ring boundaries. `size` is the template parameter `kRingSizeBytes`.
mod Epoch
mod Tests
use mentor_pi_ros.Prelude.{ℕ, ◌+◌, ◌*◌, ◌/◌, Bool, false, bit_and, leb, ◌==◌, if◌then◌else◌, u32}

abbrev pub half_size_bytes : ℕ → ℕ
half_size_bytes size = size / 2

pub is_consistent : ℕ → ℕ → ℕ → Bool
is_consistent size boundary_count cursor =
    if leb size cursor then false else bit_and boundary_count 1 == cursor / half_size_bytes size

pub reconstruct : ℕ → ℕ → ℕ → ℕ
reconstruct size boundary_count cursor = u32 (u32 (boundary_count / 2 * size) + cursor)
