-- ===== src/Malloc/Region.antt =====
-- The functions of malloc.c that work inside one block, on its list of regions: `find_in_block`,
-- `split`, `merge` and `coalesce`.
pub mod Tiles
pub mod FirstFit
pub mod BestFit
pub mod Split
pub mod Merge
pub mod Coalesce
pub mod Apart
use tps_sistemas_operativos.Base.{
  ℕ, zero, suc, ◌+◌, ◌-◌, ◌%◌, Bool, ◌&&◌, ◌==◌, if◌then◌else◌, ltb, leb, true,
}
use tps_sistemas_operativos.Malloc.Memory.{
  Ptr, null, magic, min_size, region_size, size_mod, Region, Cmd, starved, pure, ◌>>=◌, ◌>>◌,
  region_at, put_region,
}

-- Which of the macros FIRST_FIT and BEST_FIT the build defines.
pub data Policy : Type 0 where
  unconfigured first_fit best_fit : Policy

abbrev pub fits : Region → ℕ → Bool
fits r size = r.free && leb size r.size

find_first : ℕ → Ptr → ℕ → Cmd Ptr
find_first zero region size = λ _. starved
find_first (suc fuel) region size =
    if region == null
    then pure null
    else do r ← region_at region; if fits r size then pure region else find_first fuel r.next size

-- `best_region` after a look at a region that fits.
better : Ptr → Region → Ptr → Cmd Ptr
better region r best =
    if best == null
    then pure region
    else do b ← region_at best; pure (if ltb r.size b.size then region else best)

find_best : ℕ → Ptr → Ptr → ℕ → Cmd Ptr
find_best zero region best size = λ _. starved
find_best (suc fuel) region best size = if region == null then pure best else do
  r ← region_at region
  best' ← if fits r size then better region r best else pure best
  find_best fuel r.next best' size

-- With neither macro defined no loop is compiled, and `first` is returned.
unfoldable pub find_in_block : Policy → ℕ → Ptr → ℕ → Cmd Ptr
unfolding find_first find_best better
find_in_block unconfigured fuel first size = pure first
find_in_block first_fit fuel first size = find_first fuel first size
find_in_block best_fit fuel first size = find_best fuel first null size

-- `p->prev = q`, if `p` is not NULL.
set_prev : Ptr → Ptr → Cmd (Unit {0})
set_prev p q =
    if p == null then pure tt else do r ← region_at p; put_region p (record r { prev = q })

-- The header that `split` writes behind the kept part.
abbrev pub remainder : Region → Ptr → ℕ → Region
remainder r region size = record {
  magic_number = magic;
  free = true;
  size = (r.size + size_mod + size_mod - size - region_size) % size_mod;
  next = r.next;
  prev = region;
}

unfoldable pub split : Ptr → ℕ → Cmd (Unit {0})
unfolding set_prev
split region size = if region == null then pure tt else do
  r ← region_at region
  if ltb r.size ((size + region_size + min_size) % size_mod) then pure tt else do
    let addr = region + region_size + size
    put_region addr (remainder r region size)
    set_prev r.next addr
    put_region region (record r { size = size; next = addr })

unfoldable pub merge : Ptr → Cmd Ptr
unfolding set_prev
merge region = if region == null then pure null else do
  r ← region_at region
  if r.next == null then pure region else do
    n ← region_at r.next
    put_region region
        (record r { size = (r.size + region_size + n.size) % size_mod; next = n.next })
    set_prev n.next region
    pure region

-- `p != NULL && p->free`
unfoldable pub is_free : Ptr → Cmd Bool
is_free p = if p == null then pure Bool.false else do r ← region_at p; pure r.free

-- `if (region->prev != NULL && region->prev->free) region = merge(region->prev);`
absorb_before : Ptr → Cmd Ptr
absorb_before region = do
  r ← region_at region
  before ← is_free r.prev
  if before then merge r.prev else pure region

-- `if (region->next != NULL && region->next->free) region = merge(region);`
absorb_after : Ptr → Cmd Ptr
absorb_after region = do
  r ← region_at region
  after ← is_free r.next
  if after then merge region else pure region

unfoldable pub coalesce : Ptr → Cmd Ptr
unfolding is_free merge absorb_before absorb_after
coalesce region = do region' ← absorb_before region; absorb_after region'
