-- ===== src/Malloc/Region/Merge.antt =====
-- `merge` on the cells of a block.
use tps_sistemas_operativos.Base.{
  ◌+◌, ◌%◌, ◌<◌, ◌≡◌, refl, some, List, [], ◌∷◌, ◌++◌, arith, ne→==, eq→==,
}
use tps_sistemas_operativos.Malloc.Memory.{
  Ptr, null, region_size, size_mod, Heap, done, update, region_at-done,
}
use tps_sistemas_operativos.Malloc.Region.{set_prev, merge}
use tps_sistemas_operativos.Malloc.Region.Tiles.{
  Cell, Regions, Tiles, Tiles-frame, after, after-eq-add, end_of, last_of, link, header, back,
  ChangedWithin, Tiles-embed,
}

-- Two neighbours as one cell, the header between them included.
abbrev pub joined : Cell → Cell → Cell
joined c d = record { free = c.free; size = c.size + region_size + d.size }

-- The headers after the merge of the cell `c` at `p` with its neighbour `d`.
abbrev relinked : Regions → Cell → Cell → List Cell → Ptr → Ptr → Regions
relinked m c d [] prev p = update m p (some (header (joined c d) null prev))
relinked m c d (e ∷ ys) prev p =
    update (update m p (some (header (joined c d) (end_of (end_of p c) d) prev)))
      (end_of (end_of p c) d) (some (header e (link (end_of (end_of (end_of p c) d) e) ys) p))

module _ (h : Heap) (c d : Cell) (prev p : Ptr) (pos : 0 < p)
    (fit : c.size + region_size + d.size < size_mod) where
  same_size : (c.size + region_size + d.size) % size_mod ≡ c.size + region_size + d.size
  same_size = omega arith

  merge-run :
      (ys : List Cell)
      → Tiles h.regions prev p (c ∷ d ∷ ys)
      → merge p h ≡ done p (record h { regions = relinked h.regions c d ys prev p })
  unfolding merge set_prev
  merge-run [] t = rw (
    ne→== p 0 (omega arith),
    region_at-done h p pos t.0,
    ne→== (end_of p c) 0 (omega arith),
    region_at-done h (end_of p c) (omega arith) t.1.0,
    same_size,
  )
  merge-run (e ∷ ys) t = rw (
    ne→== p 0 (omega arith),
    region_at-done h p pos t.0,
    ne→== (end_of p c) 0 (omega arith),
    region_at-done h (end_of p c) (omega arith) t.1.0,
    same_size,
    ne→== (end_of (end_of p c) d) 0 (omega arith),
    region_at-done (record h { regions = first_write }) (end_of (end_of p c) d) (omega arith)
        kept_next,
  )
    where
      first_write : Regions
      first_write = update h.regions p (some (header (joined c d) (end_of (end_of p c) d) prev))

      kept_next :
          first_write (end_of (end_of p c) d)
          ≡ some (header e (link (end_of (end_of (end_of p c) d) e) ys) (end_of p c))
      kept_next = ground (arith, t.1.1.0)

  next_header :
      (e : Cell) (ys : List Cell)
      → relinked h.regions c d (e ∷ ys) prev p (end_of (end_of p c) d)
        ≡ some (header e (link (end_of (end_of (end_of p c) d) e) ys) p)
  next_header e ys = rw (eq→== (end_of (end_of p c) d) (end_of (end_of p c) d) refl)

  relinked-Tiles :
      (ys : List Cell)
      → Tiles h.regions prev p (c ∷ d ∷ ys)
      → Tiles (relinked h.regions c d ys prev p) prev p (joined c d ∷ ys)
  relinked-Tiles [] t = ground arith
  relinked-Tiles (e ∷ ys) t =
      let behind : end_of p (joined c d) ≡ end_of (end_of p c) d = omega arith in
      (
        rw behind (ground arith),
        rw behind (
          next_header e ys,
          Tiles-frame h.regions (relinked h.regions c d (e ∷ ys) prev p) ys (end_of (end_of p c) d)
              (end_of (end_of (end_of p c) d) e) (λ q a b. ground arith) t.1.1.1,
        ),
      )

  relinked-ChangedWithin :
      (ys : List Cell)
      → ChangedWithin p
          (after p (c ∷ d ∷ ys))
          h
          (record h { regions = relinked h.regions c d ys prev p })
  relinked-ChangedWithin [] = record {
    rest = refl;
    below = λ q a. ground arith;
    above = λ q a. ground arith;
    still = λ q a. ground arith;
  }
  relinked-ChangedWithin (e ∷ ys) =
      let far = after-eq-add (end_of (end_of (end_of p c) d) e) ys in
      record {
        rest = refl;
        below = λ q a. ground arith;
        above = λ q a. ground (arith, far);
        still = λ q a. ground arith;
      }

-- In a block laid out as `xs ++ c ∷ d ∷ ys`, `merge` at `c` returns `c`'s address and leaves a
-- block laid out with `c` and `d` as one cell, which has both sizes and the header between them; it
-- writes no header before `c` or behind the block, and nothing but headers.
pub merge-Tiles :
    (h : Heap) (xs : List Cell) (c d : Cell) (ys : List Cell) (p : Ptr)
    → 0 < p
    → c.size + region_size + d.size < size_mod
    → Tiles h.regions null p (xs ++ c ∷ d ∷ ys)
    → (h' : Heap) × (merge (after p xs) h ≡ done (after p xs) h')
      × ChangedWithin (after p xs) (after (after p xs) (c ∷ d ∷ ys)) h h'
      × Tiles h'.regions null p (xs ++ joined c d ∷ ys)
merge-Tiles h xs c d ys p pos fit t =
    let t' = back h.regions xs c (d ∷ ys) null p t in
    let q = after p xs in
    let prev = last_of null p xs in
    let pos' : 0 < q = omega (arith, after-eq-add p xs) in
    let within = relinked-ChangedWithin h c d prev q pos' fit ys in
    (
      record h { regions = relinked h.regions c d ys prev q },
      merge-run h c d prev q pos' fit ys t',
      within,
      Tiles-embed h _ xs c (joined c d) (d ∷ ys) ys null p _ t within
          (relinked-Tiles h c d prev q pos' fit ys t'),
    )

-- At the last cell of a block `merge` changes nothing.
pub merge-last :
    (h : Heap) (xs : List Cell) (c : Cell) (p : Ptr)
    → 0 < p
    → Tiles h.regions null p (xs ++ c ∷ [])
    → merge (after p xs) h ≡ done (after p xs) h
unfolding merge
merge-last h xs c p pos t =
    let t' = back h.regions xs c [] null p t in
    let pos' : 0 < after p xs = omega (arith, after-eq-add p xs) in
    rw (ne→== (after p xs) 0 (omega arith), region_at-done h (after p xs) pos' t'.0)
