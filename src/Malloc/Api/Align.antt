-- ===== src/Malloc/Api/Align.antt =====
-- The size that a request is served with, and the block that it needs.
use tps_sistemas_operativos.Base.{ℕ, ◌+◌, ◌%◌, ◌≤◌, ◌<◌, ◌≡◌, ◌⊎◌, arith}
use tps_sistemas_operativos.Malloc.Memory.{
  min_size, size_mod, small_block_size, medium_block_size, large_block_size, region_size,
  block_size,
}
use tps_sistemas_operativos.Malloc.Blocks.{size_that_fits}
use tps_sistemas_operativos.Malloc.Api.{align4, request}

pub align4_bounds :
    (s : ℕ) → 0 < s → s + 4 ≤ size_mod → (s ≤ align4 s) × (align4 s < s + 4) × (align4 s % 4 ≡ 0)
unfolding align4
align4_bounds s pos fit = omega arith

-- A request of at most 2^64 - 4 bytes that is not 0 is served with a multiple of 4 that is at least
-- MIN_SIZE and the request, and less than 4 above the larger of the two.
pub request_bounds :
    (s : ℕ)
    → 0 < s
    → s + 4 ≤ size_mod
    → (s ≤ request s)
      × (min_size ≤ request s)
      × (request s % 4 ≡ 0)
      × ((request s < s + 4) ⊎ (request s ≡ min_size))
unfolding request
request_bounds s pos fit = ground arith

-- ALIGN4 wraps on the three largest sizes: such a request is served with MIN_SIZE bytes.
pub request_wraps : (s : ℕ) → size_mod < s + 4 → s < size_mod → request s ≡ min_size
unfolding request
request_wraps s large fit = ground arith

-- `size_that_fits` is 0 exactly when no block has room for the request and both headers, and else
-- the size of the smallest kind of block that has.
pub size_that_fits_lem :
    (s : ℕ)
    → (size_that_fits s ≡ 0) × (large_block_size < s + block_size + region_size)
      ⊎ (s + block_size + region_size ≤ size_that_fits s)
        × ((size_that_fits s ≡ small_block_size)
            ⊎ (size_that_fits s ≡ medium_block_size)
              × (small_block_size < s + block_size + region_size)
            ⊎ (size_that_fits s ≡ large_block_size)
              × (medium_block_size < s + block_size + region_size))
unfolding size_that_fits
size_that_fits_lem s = ground arith
