-- ===== src/Malloc/Tests.antt =====
-- A block laid out by hand, runs of the allocator, and the theorems at them.
use tps_sistemas_operativos.Base.{
  ℕ, ◌+◌, ◌≡◌, refl, true, false, Option, none, some, List, [], ◌∷◌, ◌++◌, ◌==◌, if◌then◌else◌,
  arith,
}
use tps_sistemas_operativos.Malloc.Memory.{
  Ptr, null, Run, starved, region_at, block_at, Heap, done, segfault, ◌>>=◌, ◌>>◌,
}
use tps_sistemas_operativos.Malloc.Region.{first_fit, best_fit, find_in_block, split, coalesce}
use tps_sistemas_operativos.Malloc.Region.Tiles.{
  Cell, Regions, header, Tiles, after, end_of, link, span, ChangedWithin,
}
use tps_sistemas_operativos.Malloc.Region.FirstFit.{FirstOrNull, find_in_block-FirstOrNull}
use tps_sistemas_operativos.Malloc.Region.BestFit.{BestOrNull, find_in_block-BestOrNull}
use tps_sistemas_operativos.Malloc.Region.Split.{split-Tiles}
use tps_sistemas_operativos.Malloc.Region.Coalesce.{Left, coalesce-Tiles}
use tps_sistemas_operativos.Malloc.Region.Apart.{Apart, coalesce-Apart}
use tps_sistemas_operativos.Malloc.Blocks.{
  Os, find_free_region, grow_heap, size_that_fits, search_blocks,
}
use tps_sistemas_operativos.Malloc.Api.{request, malloc, free, realloc}
use tps_sistemas_operativos.Malloc.Api.Realloc.{realloc-segfault}

abbrev used : ℕ → Cell
used n = record { free = false; size = n }

abbrev unused : ℕ → Cell
unused n = record { free = true; size = n }

-- The headers of a block's cells from `p` on.
abbrev lay : Ptr → Ptr → List Cell → Regions
lay prev p [] q = none
lay prev p (c ∷ cs) q =
    if q == p then some (header c (link (end_of p c) cs) prev) else lay p (end_of p c) cs q

abbrev heap_of : Regions → Heap
heap_of m = record {
  regions = m;
  blocks = λ q. none;
  bytes = λ q. 0;
  small_blocks = 0;
  medium_blocks = 0;
  large_blocks = 0;
  blocks_mapped = 0;
  amount_of_mallocs = 0;
  amount_of_frees = 0;
  requested_memory = 0;
  errno = 0;
}

abbrev base : Ptr
base = 4112

abbrev cells : List Cell
cells = unused 100 ∷ used 200 ∷ unused 300 ∷ used 64 ∷ unused 250 ∷ []

abbrev heap : Heap
heap = heap_of (lay 0 base cells)

laid : Tiles heap.regions null base cells
laid = (refl, (refl, (refl, (refl, (refl, tt)))))

first_found : find_in_block first_fit 9 base 240 heap ≡ done 4476 heap
unfolding find_in_block region_at
first_found = refl

best_found : find_in_block best_fit 9 base 240 heap ≡ done 4904 heap
unfolding find_in_block region_at
best_found = refl

find_in_block-FirstOrNull_example :
    (r : Ptr) × (find_in_block first_fit 9 base 240 heap ≡ done r heap)
    × FirstOrNull 240 base cells r
find_in_block-FirstOrNull_example =
    find_in_block-FirstOrNull 9 240 heap (unused 100) _ base (omega arith) laid (omega arith)

find_in_block-BestOrNull_example :
    (r : Ptr) × (find_in_block best_fit 9 base 240 heap ≡ done r heap) × BestOrNull 240 base cells r
find_in_block-BestOrNull_example =
    find_in_block-BestOrNull 9 240 heap (unused 100) _ base (omega arith) laid (omega arith)

abbrev front : List Cell
front = unused 100 ∷ used 200 ∷ []

abbrev rear : List Cell
rear = used 64 ∷ unused 250 ∷ []

split-Tiles_example :
    (h' : Heap) × (split 4476 40 heap ≡ done tt h')
    × ChangedWithin 4476 (after 4476 (unused 300 ∷ rear)) heap h'
    × Tiles h'.regions null base (front ++ unused 40 ∷ unused 228 ∷ rear)
split-Tiles_example =
    split-Tiles 40 heap front (unused 300) rear base (omega arith) (omega arith) (omega arith) laid

coalesce-Tiles_example :
    Left heap base
      (base + span cells)
      (coalesce 4244 heap)
      base
      (unused 664 ∷ used 64 ∷ unused 250 ∷ [])
coalesce-Tiles_example =
    coalesce-Tiles heap (unused 100 ∷ []) (used 200) (unused 300 ∷ rear) base (omega arith)
      (omega arith) laid

-- The block once its second cell is marked as free.
abbrev marked : List Cell
marked = unused 100 ∷ unused 200 ∷ unused 300 ∷ rear

abbrev marked_heap : Heap
marked_heap = heap_of (lay 0 base marked)

coalesce-Apart_example :
    (region : ℕ) × (cs : List Cell) × Left marked_heap base
      (base + span marked)
      (coalesce 4244 marked_heap)
      region
      cs
    × Apart cs
    × (span cs ≡ span marked)
coalesce-Apart_example =
    coalesce-Apart marked_heap (unused 100 ∷ []) (used 200) (unused 300 ∷ rear) base (omega arith)
      (omega arith) (refl, (refl, (refl, (refl, (refl, tt))))) (refl, (refl, (refl, (refl, tt))))

-- `mmap` maps at a fixed address, and `munmap` succeeds.
abbrev os : Os
os = record { mmap = λ h size. some 4096; munmap = λ p size. true }

abbrev pair : Heap
pair = heap_of (lay 0 base (used 64 ∷ unused 400 ∷ []))

realloc-segfault_example : realloc first_fit os 4144 128 pair ≡ segfault
realloc-segfault_example =
    realloc-segfault first_fit os pair base _ _ 128 (omega arith) refl refl (omega arith) refl refl
      (omega arith)

abbrev tight_cells : List Cell
tight_cells = used 1000 ∷ used 64 ∷ unused 64 ∷ []

abbrev tight : Heap
tight = heap_of (lay 0 base tight_cells)

abbrev behind_free : Heap
behind_free = heap_of (lay 0 base (unused 200 ∷ used 64 ∷ used 64 ∷ []))

abbrev answer : Run Ptr → Option Ptr
answer (done p h) = some p
answer segfault = none
answer starved = none

abbrev empty : Heap
empty = heap_of (λ q. none)

-- The second region stands behind the 100 bytes of the first and a header; a freed one is found again.
mallocs : answer ((malloc first_fit os 98 >>= λ p. malloc first_fit os 10) empty) ≡ some 4276
unfolding malloc find_free_region search_blocks find_in_block grow_heap split region_at block_at
    size_that_fits request
mallocs = refl

malloc_free_malloc :
    answer (
      (malloc first_fit os 98 >>= λ p.
      malloc first_fit os 10 >>= λ q. free os p >> malloc first_fit os 70)
        empty)
    ≡ some 4144
unfolding malloc free find_free_region search_blocks find_in_block grow_heap split coalesce
    region_at block_at size_that_fits request
malloc_free_malloc = refl
