-- ===== src/Malloc/Blocks.antt =====
-- The functions of malloc.c that work on the three lists of blocks: `find_free_region`,
-- `size_that_fits`, `grow_heap` and `unmap`.
use tps_sistemas_operativos.Base.{
  ℕ, zero, suc, ◌+◌, ◌-◌, ◌%◌, Bool, true, ◌&&◌, Option, none, some, ◌==◌, if◌then◌else◌, ltb, leb,
}
use tps_sistemas_operativos.Malloc.Memory.{
  Ptr, null, magic, max_blocks, small_block_size, medium_block_size, large_block_size, region_size,
  block_size, size_mod, Region, Block, Heap, Cmd, starved, pure, ◌>>=◌, ◌>>◌, put_region, block_at,
  put_block, gets, modify,
}
use tps_sistemas_operativos.Malloc.Region.{Policy, find_in_block}

-- The most regions that a block has room for, and one round for the NULL behind them.
abbrev pub region_fuel : ℕ
region_fuel = 1048577

abbrev pub block_fuel : ℕ
block_fuel = 33

-- The system calls: where `mmap` maps so many bytes, `none` for MAP_FAILED, and whether `munmap`
-- returns 0.
pub record Os : Type 0 where
  pub mmap : Heap → ℕ → Option Ptr
  pub munmap : Ptr → ℕ → Bool

-- One of the loops of `find_free_region`, from the block `curr_block` on.
unfoldable pub search_blocks : Policy → ℕ → Ptr → ℕ → Cmd Ptr
search_blocks policy zero curr_block size = λ _. starved
search_blocks policy (suc fuel) curr_block size = if curr_block == null then pure null else do
  region ← find_in_block policy region_fuel (curr_block + block_size) size
  b ← block_at curr_block
  if region == null then search_blocks policy fuel b.next size else pure region

unfoldable pub find_free_region : Policy → ℕ → Cmd Ptr
find_free_region policy size =
    if ltb (large_block_size - block_size - region_size) size then pure null else do
      small ← gets (λ h. h.small_blocks)
      in_small ← search_blocks policy block_fuel small size
      medium ← gets (λ h. h.medium_blocks)
      in_medium ←
          if in_small == null then search_blocks policy block_fuel medium size else pure in_small
      large ← gets (λ h. h.large_blocks)
      if in_medium == null then search_blocks policy block_fuel large size else pure in_medium

unfoldable pub size_that_fits : ℕ → ℕ
size_that_fits size =
    let header_size = block_size + region_size in
    if leb size (small_block_size - header_size)
    then small_block_size
    else if leb size (medium_block_size - header_size)
    then medium_block_size
    else if leb size (large_block_size - header_size)
    then large_block_size
    else 0

-- The head of the list that blocks of `size` bytes stand in, and how it is set.
unfoldable pub list_head : ℕ → Heap → Ptr
list_head size h =
    if size == small_block_size
    then h.small_blocks
    else if size == medium_block_size
    then h.medium_blocks
    else h.large_blocks

unfoldable pub set_list_head : ℕ → Ptr → Heap → Heap
set_list_head size p h =
    if size == small_block_size
    then record h { small_blocks = p }
    else if size == medium_block_size
    then record h { medium_blocks = p }
    else record h { large_blocks = p }

-- `p->prev = q`, if `p` is not NULL.
set_block_prev : Ptr → Ptr → Cmd (Unit {0})
set_block_prev p q =
    if p == null then pure tt else do b ← block_at p; put_block p (record b { prev = q })

-- The header of the only region of a new block.
abbrev pub first_region : ℕ → Region
first_region size = record {
  magic_number = magic;
  free = true;
  size = size - block_size - region_size;
  next = null;
  prev = null;
}

-- What `grow_heap` does with a block that is mapped at `new_block`.
link_block : ℕ → Ptr → Cmd Ptr
link_block size new_block = do
  next ← gets (list_head size)
  put_block new_block (record { next = next; prev = null })
  modify (set_list_head size new_block)
  set_block_prev next new_block
  modify (λ h. record h { blocks_mapped = (h.blocks_mapped + 1) % size_mod })
  put_region (new_block + block_size) (first_region size)
  pure (new_block + block_size)

mapped : ℕ → Option Ptr → Cmd Ptr
mapped size none = pure null
mapped size (some mapping) = link_block size mapping

unfoldable pub grow_heap : Os → ℕ → Cmd Ptr
unfolding mapped link_block set_block_prev list_head set_list_head
grow_heap os size = do
  blocks ← gets (λ h. h.blocks_mapped)
  if blocks == max_blocks then pure null else if size_that_fits size == 0 then pure null else do
    mapping ← gets (λ h. os.mmap h (size_that_fits size))
    mapped (size_that_fits size) mapping

-- The headers that stand outside the pages from `p` to `p + size`: what `munmap` leaves.
abbrev pub outside {ℓ} : {A : Type ℓ} → Ptr → ℕ → (Ptr → Option A) → Ptr → Option A
outside p size m q = if leb p q && ltb q (p + size) then none else m q

-- `if (block->prev != NULL) block->prev->next = block->next; else` the list points to it.
unlink_prev : ℕ → Block → Cmd (Unit {0})
unlink_prev size b =
    if b.prev == null
    then modify (set_list_head size b.next)
    else do p ← block_at b.prev; put_block b.prev (record p { next = b.next })

unfoldable pub unmap : Os → Ptr → ℕ → Cmd (Unit {0})
unfolding set_block_prev unlink_prev set_list_head
unmap os block size = do
  b ← block_at block
  set_block_prev b.next b.prev
  unlink_prev size b
  modify (λ h.
      if os.munmap block size
      then record h {
        regions = outside block size h.regions;
        blocks = outside block size h.blocks;
        blocks_mapped = (h.blocks_mapped + size_mod - 1) % size_mod;
      }
      else h)
