-- ===== src/Malloc/Api/Realloc.antt =====
-- What `realloc` does on its branches that reuse a region.
use tps_sistemas_operativos.Base.{
  ℕ, ◌+◌, ◌%◌, ◌≤◌, ◌<◌, ◌≡◌, refl, append_assoc, true, false, Option, none, some, is_some, List,
  [], ◌∷◌, ◌++◌, leb, le→leb, lt→leb, arith, ne→==,
}
use tps_sistemas_operativos.Malloc.Memory.{
  Ptr, null, region_size, min_size, size_mod, Region, Heap, done, segfault, region_at,
  region_at-done, region_at-null,
}
use tps_sistemas_operativos.Malloc.Region.{Policy, is_free, merge, split}
use tps_sistemas_operativos.Malloc.Region.Tiles.{
  Cell, Tiles, after, after-eq-add, end_of, link, back, span, span-append, ChangedWithin,
}
use tps_sistemas_operativos.Malloc.Region.Split.{kept, cut_off, split-Tiles, split-small}
use tps_sistemas_operativos.Malloc.Region.Merge.{joined, merge-Tiles}
use tps_sistemas_operativos.Malloc.Region.Coalesce.{is_free-done, after-snoc}
use tps_sistemas_operativos.Malloc.Blocks.{Os}
use tps_sistemas_operativos.Malloc.Api.{region_to_ptr, ptr_to_region, moved, realloc}

-- No free cell comes first.
abbrev pub HeadUsed : List Cell → Type 0
HeadUsed [] = Unit
HeadUsed (d ∷ _) = d.free ≡ false

is_some→some {ℓ} : {A : Type ℓ} (o : Option A) → is_some o ≡ true → (a : A) × (o ≡ some a)
is_some→some none h = cc
is_some→some (some a) h = (a, refl)

enough : (size n : ℕ) → size ≤ n → n < size_mod → leb size (n % size_mod) ≡ true
enough size n le fit = ground arith

module _ (policy : Policy) (os : Os) where
  same_region : (p : Ptr) → ptr_to_region (region_to_ptr p) ≡ p
  same_region p = omega arith

  -- To a size that the region has, `realloc` returns the same pointer; the region keeps `size` bytes
  -- and the others become a free region behind it, if they have room for a header and MIN_SIZE bytes.
  pub realloc-shrink :
      (h : Heap) (xs : List Cell) (c : Cell) (ys : List Cell) (p : Ptr) (size : ℕ)
      → 0 < p
      → c.size < size_mod
      → size + region_size + min_size < size_mod
      → 0 < size
      → size ≤ c.size
      → Tiles h.regions null p (xs ++ c ∷ ys)
      → (h' : Heap) × (realloc policy os (region_to_ptr (after p xs)) size h
          ≡ done (region_to_ptr (after p xs)) h')
        × ChangedWithin (after p xs) (after (after p xs) (c ∷ ys)) h h'
        × Tiles h'.regions null p (xs ++ kept size c ∷ cut_off size c ys)
  unfolding realloc
  realloc-shrink h xs c ys p size pos bound fit some' le t =
      let (h', run, within, tiles) = split-Tiles size h xs c ys p pos bound fit t in
      let here =
        region_at-done h (after p xs) (omega (arith, after-eq-add p xs))
          (back h.regions xs c ys null p t).0 in
      let small = le→leb size c.size le in
      (
        h',
        rw (
          ne→== size 0 (omega arith),
          ne→== (region_to_ptr (after p xs)) 0 (omega arith),
          same_region (after p xs),
          here,
          small,
          run,
        ),
        within,
        tiles,
      )

  -- On the first region of a block, with a free region behind it, a growing `realloc` reads
  -- `curr->prev->size` where `curr->prev` is NULL.
  pub realloc-segfault :
      (h : Heap) (p : Ptr) (r n : Region) (size : ℕ)
      → 0 < p
      → h.regions p ≡ some r
      → r.prev ≡ null
      → 0 < r.next
      → h.regions r.next ≡ some n
      → n.free ≡ true
      → r.size < size
      → realloc policy os (region_to_ptr p) size h ≡ segfault
  unfolding realloc
  realloc-segfault h p r n size pos here first behind there free' grows =
      let large = lt→leb size r.size grows in
      simp (
        ne→== size 0 (omega arith),
        ne→== (region_to_ptr p) 0 (omega arith),
        same_region p,
        region_at-done h p pos here,
        large,
        is_free-done h r.next behind there,
        free',
        first,
        region_at-null,
      )

  -- The branches that merge, from what their calls answer.
  module _ (h h' h'' : Heap) (q size : ℕ) (r n : Region) (pos : 0 < q) (some' : 0 < size)
      (here : region_at q h ≡ done r h) (less : r.size < size)
      (prev : region_at r.prev h ≡ done n h)
      (fits : leb size ((r.size + n.size + region_size) % size_mod) ≡ true) where
    realloc-next :
        (d : Region)
        → is_free r.next h ≡ done true h
        → region_at r.next h ≡ done d h
        → merge q h ≡ done q h'
        → split q size h' ≡ done tt h''
        → realloc policy os (region_to_ptr q) size h ≡ done (region_to_ptr q) h''
    unfolding realloc
    realloc-next d free' next merged cut = rw (
      ne→== size 0 (omega arith),
      ne→== (region_to_ptr q) 0 (omega arith),
      same_region q,
      here,
      lt→leb size r.size less,
      free',
      prev,
      fits,
      next,
      merged,
      cut,
    )

    realloc-prev :
        (c : Region)
        → is_free r.next h ≡ done false h
        → is_free r.prev h ≡ done true h
        → merge r.prev h ≡ done r.prev h'
        → split r.prev size h' ≡ done tt h''
        → region_at q h'' ≡ done c h''
        → realloc policy os (region_to_ptr q) size h
          ≡ done (region_to_ptr r.prev) (moved (region_to_ptr r.prev) (region_to_ptr q) c.size h'')
    unfolding realloc
    realloc-prev c used free' merged cut there = rw (
      ne→== size 0 (omega arith),
      ne→== (region_to_ptr q) 0 (omega arith),
      same_region q,
      here,
      lt→leb size r.size less,
      used,
      free',
      prev,
      fits,
      prev,
      merged,
      cut,
      there,
    )

  -- Behind a region in use, and before a free one that is too small, a growing `realloc` that fits
  -- the size of the region before merges with the one behind all the same: it returns the pointer of
  -- a region with fewer bytes than it was asked for.
  pub realloc_too_small :
      (h : Heap) (ws : List Cell) (w c d : Cell) (ys : List Cell) (p : Ptr) (size : ℕ)
      → 0 < p
      → span (ws ++ w ∷ c ∷ d ∷ ys) < size_mod
      → size + region_size + min_size < size_mod
      → Tiles h.regions null p (ws ++ w ∷ c ∷ d ∷ ys)
      → d.free ≡ true
      → (joined c d).size < size
      → size ≤ c.size + w.size + region_size
      → (h' : Heap) × (realloc policy os (region_to_ptr (end_of (after p ws) w)) size h
          ≡ done (region_to_ptr (end_of (after p ws) w)) h')
        × Tiles h'.regions null p (ws ++ w ∷ joined c d ∷ ys)
  realloc_too_small h ws w c d ys p size pos total fit t free' small le =
      let t' = back h.regions ws w (c ∷ d ∷ ys) null p t in
      let far = after-eq-add p ws in
      let sum = span-append ws (w ∷ c ∷ d ∷ ys) in
      let q = end_of (after p ws) w in
      let grows = lt→leb size c.size (omega arith) in
      let test = enough size (c.size + w.size + region_size) le (omega (arith, sum)) in
      let (h', run, within, tiles) =
        merge-Tiles h (ws ++ w ∷ []) c d ys p pos (omega (arith, sum)) (rw append_assoc t) in
      let tiles' : Tiles h'.regions null p (ws ++ w ∷ joined c d ∷ ys) = rw append_assoc at tiles in
      let run' : merge q h ≡ done q h' = rw after-snoc at run in
      (
        h',
        realloc-next h h' h' q size _ _ (omega (arith, far)) (omega arith)
            (region_at-done h q (omega (arith, far)) t'.1.0) (omega arith)
            (region_at-done h (after p ws) (omega (arith, far)) t'.0) test _
            (rw (is_free-done h (end_of q c) (omega (arith, far)) t'.1.1.0, free'))
            (region_at-done h (end_of q c) (omega (arith, far)) t'.1.1.0) run'
            (split-small size h' (joined c d) ys (after p ws) q (omega (arith, far)) fit
              (omega arith) (back h'.regions ws w (joined c d ∷ ys) null p tiles').1),
        tiles',
      )

  used_behind :
      (h : Heap) (prev p : Ptr) (c : Cell) (ys : List Cell)
      → 0 < p
      → Tiles h.regions prev p (c ∷ ys)
      → HeadUsed ys
      → is_free (link (end_of p c) ys) h ≡ done false h
  used_behind h prev p c [] pos t used = unfold is_free in refl
  used_behind h prev p c (d ∷ ys) pos t used =
      rw (is_free-done h (end_of p c) (omega arith) t.1.0, used)

  -- Before a region that is not free, on a region behind a free one that makes up the size, `realloc`
  -- merges with the one before and returns its pointer, but leaves it marked free: `malloc` may hand
  -- the same bytes out again.
  pub realloc_still_free :
      (h : Heap) (ws : List Cell) (w c : Cell) (ys : List Cell) (p : Ptr) (size : ℕ)
      → 0 < p
      → span (ws ++ w ∷ c ∷ ys) < size_mod
      → size + region_size + min_size < size_mod
      → Tiles h.regions null p (ws ++ w ∷ c ∷ ys)
      → w.free ≡ true
      → HeadUsed ys
      → c.size < size
      → size ≤ c.size + w.size + region_size
      → (h' : Heap) × (realloc policy os (region_to_ptr (end_of (after p ws) w)) size h
          ≡ done (region_to_ptr (after p ws)) h')
        × Tiles h'.regions null p (ws ++ kept size (joined w c) ∷ cut_off size (joined w c) ys)
        × ((kept size (joined w c)).free ≡ true)
  realloc_still_free h ws w c ys p size pos total fit t free' used less le =
      let t' = back h.regions ws w (c ∷ ys) null p t in
      let far = after-eq-add p ws in
      let sum = span-append ws (w ∷ c ∷ ys) in
      let q = end_of (after p ws) w in
      let test = enough size (c.size + w.size + region_size) le (omega (arith, sum)) in
      let (h', run, within, tiles) = merge-Tiles h ws w c ys p pos (omega (arith, sum)) t in
      let (h'', run', within', tiles') =
        split-Tiles size h' ws (joined w c) ys p pos (omega (arith, sum)) fit tiles in
      let (old, there) =
        is_some→some (h''.regions q) (within'.still q (within.still q (rw t'.1.0))) in
      (
        moved (region_to_ptr (after p ws)) (region_to_ptr q) old.size h'',
        realloc-prev h h' h'' q size _ _ (omega (arith, far)) (omega arith)
            (region_at-done h q (omega (arith, far)) t'.1.0) less
            (region_at-done h (after p ws) (omega (arith, far)) t'.0) test old
            (used_behind h (after p ws) q c ys (omega (arith, far)) t'.1 used)
            (rw (is_free-done h (after p ws) (omega (arith, far)) t'.0, free')) run run'
            (region_at-done h'' q (omega (arith, far)) there),
        tiles',
        ground arith,
      )
