-- ===== src/Malloc/Api.antt =====
-- The public functions of malloc.c. The `os` is what `mmap` and `munmap` answer.
pub mod Align
pub mod Realloc
use tps_sistemas_operativos.Base.{
  ℕ, ◌+◌, ◌-◌, ◌*◌, ◌/◌, ◌%◌, Bool, true, false, ◌&&◌, ◌==◌, if◌then◌else◌, ltb, leb,
}
use tps_sistemas_operativos.Malloc.Memory.{
  Ptr, null, magic, min_size, region_size, block_size, size_mod, int_mod, enomem, Region, Heap, Cmd,
  pure, ◌>>=◌, ◌>>◌, region_at, put_region, modify,
}
use tps_sistemas_operativos.Malloc.Region.{Policy, split, merge, is_free, coalesce}
use tps_sistemas_operativos.Malloc.Blocks.{Os, find_free_region, grow_heap, unmap}

-- ALIGN4 on a `size_t`.
unfoldable pub align4 : ℕ → ℕ
align4 s = (((s + size_mod - 1) % size_mod) / 4 * 4 + 4) % size_mod

abbrev pub region_to_ptr : Ptr → Ptr
region_to_ptr r = r + region_size

abbrev pub ptr_to_region : Ptr → Ptr
ptr_to_region p = p - region_size

-- The size that a request is served with.
unfoldable pub request : ℕ → ℕ
unfolding align4
request size = if ltb min_size (align4 size) then align4 size else min_size

-- What `malloc` does with the region that it has found or made.
hand_out : Ptr → ℕ → Cmd Ptr
hand_out region size = do
  split region size
  r ← region_at region
  put_region region (record r { free = false })
  modify (λ h. record h {
    amount_of_mallocs = (h.amount_of_mallocs + 1) % int_mod;
    requested_memory = (h.requested_memory + size) % int_mod;
  })
  pure (region_to_ptr region)

module _ (policy : Policy) (os : Os) where
  find_or_grow : ℕ → Cmd Ptr
  find_or_grow size = do
    region ← find_free_region policy size
    if region == null then grow_heap os size else pure region

  unfoldable pub malloc : ℕ → Cmd Ptr
  unfolding find_or_grow hand_out
  malloc size = if size == 0 then pure null else do
    region ← find_or_grow (request size)
    if region == null
        then modify (λ h. record h { errno = enomem }) >> pure null
        else hand_out region (request size)

module _ (os : Os) where
  -- What `free` does with a region in use.
  release : Ptr → Region → Cmd (Unit {0})
  release curr r = do
    put_region curr (record r { free = true })
    curr' ← coalesce curr
    modify (λ h. record h { amount_of_frees = (h.amount_of_frees + 1) % int_mod })
    r' ← region_at curr'
    if (r'.next == null) && (r'.prev == null)
        then unmap os (curr' - block_size) ((r'.size + block_size + region_size) % size_mod)
        else pure tt

  unfoldable pub free : Ptr → Cmd (Unit {0})
  unfolding release
  free ptr = if ptr == null then pure tt else do
    r ← region_at (ptr_to_region ptr)
    if r.magic_number == magic
        then if r.free then pure tt else release (ptr_to_region ptr) r
        else pure tt

module _ (policy : Policy) (os : Os) where
  unfoldable pub calloc : ℕ → ℕ → Cmd Ptr
  unfolding malloc
  calloc nmemb size = do
    let n = nmemb * size % size_mod
    ptr ← malloc policy os n
    if ptr == null then pure null else do
      modify (λ h. record h { bytes = λ q. if leb ptr q && ltb q (ptr + n) then 0 else h.bytes q })
      pure ptr

-- `memcpy(to, from, n)`; the bytes read are those from before the call.
abbrev pub moved : Ptr → Ptr → ℕ → Heap → Heap
moved to from n h = record h {
  bytes = λ q. if leb to q && ltb q (to + n) then h.bytes (from + (q - to)) else h.bytes q;
}

copy_bytes : Ptr → Ptr → ℕ → Cmd (Unit {0})
copy_bytes to from n = modify (moved to from n)

-- `p->size`
size_of : Ptr → Cmd ℕ
size_of p = do r ← region_at p; pure r.size

-- The end of the branches of `realloc` that have merged: `split`, and the bytes moved.
move_to : Ptr → Ptr → Ptr → ℕ → Cmd Ptr
move_to new_reg curr ptr size = do
  split new_reg size
  n ← size_of curr
  copy_bytes (region_to_ptr new_reg) ptr n
  pure (region_to_ptr new_reg)

-- `curr->size + curr->prev->size + sizeof(struct region)`, which both tests of `realloc` read.
with_prev : Region → Cmd ℕ
with_prev r = do n ← size_of r.prev; pure ((r.size + n + region_size) % size_mod)

-- What a neighbour adds to `coalition_size`.
add_neighbour : Bool → Ptr → ℕ → Cmd ℕ
add_neighbour free' p size =
    if free' then (do n ← size_of p; pure ((size + n + region_size) % size_mod)) else pure size

module _ (policy : Policy) (os : Os) where
  -- The last part of `realloc`: a new region, the bytes copied, and the old one freed.
  move_away : Ptr → Region → ℕ → Cmd Ptr
  move_away ptr r size = do
    new_ptr ← malloc policy os size
    if new_ptr == null
        then pure null
        else do n ← size_of (ptr_to_region ptr); copy_bytes new_ptr ptr n; free os ptr; pure new_ptr

  grow_both : Ptr → Region → ℕ → ℕ → Cmd Ptr
  grow_both ptr r coalition size =
      if leb size coalition
      then (do
        new_reg ← merge r.prev
        new_reg' ← merge new_reg
        move_to new_reg' (ptr_to_region ptr) ptr size)
      else move_away ptr r size

  grow_prev : Ptr → Region → ℕ → ℕ → Cmd Ptr
  grow_prev ptr r coalition size = do
    before ← is_free r.prev
    fits ← if before then (do n ← with_prev r; pure (leb size n)) else pure false
    coalition' ← add_neighbour before r.prev coalition
    if fits
        then (do new_reg ← merge r.prev; move_to new_reg (ptr_to_region ptr) ptr size)
        else grow_both ptr r coalition' size

  grow_next : Ptr → Region → ℕ → Cmd Ptr
  grow_next ptr r size = do
    behind ← is_free r.next
    fits ← if behind then (do n ← with_prev r; pure (leb size n)) else pure false
    coalition ← add_neighbour behind r.next r.size
    if fits
        then (do
          new_reg ← merge (ptr_to_region ptr)
          split new_reg size
          pure (region_to_ptr new_reg))
        else grow_prev ptr r coalition size

  unfoldable pub realloc : Ptr → ℕ → Cmd Ptr
  unfolding grow_next grow_prev grow_both move_away move_to with_prev add_neighbour size_of
      copy_bytes
  realloc ptr size =
      if size == 0
      then (do free os ptr; pure ptr)
      else if ptr == null
      then malloc policy os size
      else do
        r ← region_at (ptr_to_region ptr)
        if leb size r.size then split (ptr_to_region ptr) size >> pure ptr else grow_next ptr r size

pub record Stats : Type 0 where
  pub mallocs : ℕ
  pub frees : ℕ
  pub requested_memory : ℕ
  pub blocks : ℕ

-- The fields are `int`, so the `size_t` of `blocks_mapped` is cut down.
unfoldable pub get_stats : Heap → Stats
get_stats h = record {
  mallocs = h.amount_of_mallocs;
  frees = h.amount_of_frees;
  requested_memory = h.requested_memory;
  blocks = h.blocks_mapped % int_mod;
}
