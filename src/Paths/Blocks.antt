-- ===== src/Paths/Blocks.antt =====
-- The blocks that a size calls for.
use os_course_design.Prelude.{ℕ, ◌+◌, ◌*◌, ◌-◌, ◌≤◌, ◌<◌, ◌^◌, ◌≡◌, ◌⊎◌, arith}
use os_course_design.Paths.{block_size, calculate_blocks_needed}

-- For a size up to 2^32 - 4096 the blocks hold it and one block less would not; for the sizes of a
-- `uint32_t` above it the sum wraps around, and no block at all is called for from 2^32 - 4095 on.
pub calculate_blocks_needed-covers :
    (size : ℕ)
    → size < 2 ^ 32
    → ((size ≤ 2 ^ 32 - block_size)
        × (size ≤ calculate_blocks_needed size * block_size)
        × (calculate_blocks_needed size * block_size < size + block_size))
      ⊎ ((2 ^ 32 - block_size < size) × (calculate_blocks_needed size ≡ 0))
unfolding calculate_blocks_needed
calculate_blocks_needed-covers size h = ground arith
