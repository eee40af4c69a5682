-- ===== src/Malloc/Region/Split.antt =====
-- `split` on the cells of a block.
use tps_sistemas_operativos.Base.{
  ℕ, ◌+◌, ◌-◌, ◌%◌, ◌≤◌, ◌<◌, ◌≡◌, refl, true, false, inl, inr, Bool-cases, some, List, [], ◌∷◌,
  ◌++◌, ltb, if◌then◌else◌, arith, ltb→lt, ltb→le, ne→==, eq→==,
}
use tps_sistemas_operativos.Malloc.Memory.{
  Ptr, null, region_size, min_size, size_mod, Heap, done, update, region_at-done,
}
use tps_sistemas_operativos.Malloc.Region.{set_prev, split}
use tps_sistemas_operativos.Malloc.Region.Tiles.{
  Cell, Regions, Tiles, Tiles-frame, after, after-eq-add, end_of, last_of, link, header, back,
  ChangedWithin, Tiles-embed, span,
}

-- What is kept of a cell that is cut to `size` bytes, and what is cut off.
abbrev pub kept : ℕ → Cell → Cell
kept size c = if ltb c.size (size + region_size + min_size) then c else record c { size = size }

abbrev pub cut_off : ℕ → Cell → List Cell → List Cell
cut_off size c ys =
    if ltb c.size (size + region_size + min_size)
    then ys
    else record { free = true; size = c.size - size - region_size } ∷ ys

pub split-small :
    (size : ℕ) (h : Heap) (c : Cell) (ys : List Cell) (prev p : Ptr)
    → 0 < p
    → size + region_size + min_size < size_mod
    → c.size < size + region_size + min_size
    → Tiles h.regions prev p (c ∷ ys)
    → split p size h ≡ done tt h
unfolding split
split-small size h c ys prev p pos fit small t =
    let e : ltb c.size ((size + region_size + min_size) % size_mod) ≡ true = ground arith in
    rw (ne→== p 0 (omega arith), region_at-done h p pos t.0, e)

-- The cell kept and the cell cut off, when there is room for both.
abbrev cut : ℕ → Cell → Cell
cut size c = record c { size = size }

abbrev new_cell : ℕ → Cell → Cell
new_cell size c = record { free = true; size = c.size - size - region_size }

-- The address of the header that is cut off.
abbrev new_addr : Ptr → ℕ → Ptr
new_addr p size = p + region_size + size

-- The headers behind `p` after the split.
abbrev relinked : Regions → ℕ → Cell → List Cell → Ptr → Ptr → Regions
relinked m size c [] prev p =
    update (update m (new_addr p size) (some (header (new_cell size c) null p))) p
      (some (header (cut size c) (new_addr p size) prev))
relinked m size c (d ∷ ys) prev p =
    update
      (update (update m (new_addr p size) (some (header (new_cell size c) (end_of p c) p)))
        (end_of p c) (some (header d (link (end_of (end_of p c) d) ys) (new_addr p size))))
      p (some (header (cut size c) (new_addr p size) prev))

module _ (size : ℕ) (h : Heap) (c : Cell) (prev p : Ptr) (pos : 0 < p) (bound : c.size < size_mod)
    (fit : size + region_size + min_size < size_mod)
    (large : size + region_size + min_size ≤ c.size) where
  goes_on : ltb c.size ((size + region_size + min_size) % size_mod) ≡ false
  goes_on = ground arith

  new_size :
      (c.size + size_mod + size_mod - size - region_size) % size_mod ≡ c.size - size - region_size
  new_size = omega arith

  split-run :
      (ys : List Cell)
      → Tiles h.regions prev p (c ∷ ys)
      → split p size h ≡ done tt (record h { regions = relinked h.regions size c ys prev p })
  unfolding split set_prev
  split-run [] t = rw (ne→== p 0 (omega arith), region_at-done h p pos t.0, goes_on, new_size)
  split-run (d ∷ ys) t = rw (
    ne→== p 0 (omega arith),
    region_at-done h p pos t.0,
    goes_on,
    new_size,
    ne→== (end_of p c) 0 (omega arith),
    region_at-done (record h { regions = first_write }) (end_of p c) (omega arith) kept_next,
  )
    where
      first_write : Regions
      first_write =
          update h.regions (new_addr p size) (some (header (new_cell size c) (end_of p c) p))

      kept_next : first_write (end_of p c) ≡ some (header d (link (end_of (end_of p c) d) ys) p)
      kept_next = ground (arith, t.1.0)

  next_header :
      (d : Cell) (ys : List Cell)
      → relinked h.regions size c (d ∷ ys) prev p (end_of p c)
        ≡ some (header d (link (end_of (end_of p c) d) ys) (new_addr p size))
  next_header d ys = rw (ne→== (end_of p c) p (omega arith), eq→== (end_of p c) (end_of p c) refl)

  relinked-Tiles :
      (ys : List Cell)
      → Tiles h.regions prev p (c ∷ ys)
      → Tiles (relinked h.regions size c ys prev p) prev p (cut size c ∷ new_cell size c ∷ ys)
  relinked-Tiles [] t = ground arith
  relinked-Tiles (d ∷ ys) t =
      let behind : end_of (end_of p (cut size c)) (new_cell size c) ≡ end_of p c = omega arith in
      (
        ground arith,
        (
          rw behind (ground arith),
          rw behind (
            next_header d ys,
            Tiles-frame h.regions (relinked h.regions size c (d ∷ ys) prev p) ys (end_of p c)
                (end_of (end_of p c) d) (λ q a b. ground arith) t.1.1,
          ),
        ),
      )

  relinked-ChangedWithin :
      (ys : List Cell)
      → ChangedWithin p
          (after p (c ∷ ys))
          h
          (record h { regions = relinked h.regions size c ys prev p })
  relinked-ChangedWithin [] = record {
    rest = refl;
    below = λ q a. ground arith;
    above = λ q a. ground arith;
    still = λ q a. ground arith;
  }
  relinked-ChangedWithin (d ∷ ys) =
      let far = after-eq-add (end_of (end_of p c) d) ys in
      record {
        rest = refl;
        below = λ q a. ground arith;
        above = λ q a. ground (arith, far);
        still = λ q a. ground arith;
      }

-- What `split` leaves of a heap, at a cell `c` at `p` before the cells `ys`.
abbrev pub SplitTo : ℕ → Heap → Cell → List Cell → Ptr → Ptr → Heap → Type 0
SplitTo size h c ys prev p h' =
    ChangedWithin p (after p (c ∷ ys)) h h'
    × Tiles h'.regions prev p (kept size c ∷ cut_off size c ys)

split-back :
    (size : ℕ) (h : Heap) (c : Cell) (ys : List Cell) (prev p : Ptr)
    → 0 < p
    → c.size < size_mod
    → size + region_size + min_size < size_mod
    → Tiles h.regions prev p (c ∷ ys)
    → (h' : Heap) × (split p size h ≡ done tt h') × SplitTo size h c ys prev p h'
split-back size h c ys prev p pos bound fit t =
    elim (Bool-cases (ltb c.size (size + region_size + min_size))) [
      | inl small ↦ (
        h,
        split-small size h c ys prev p pos fit (ltb→lt _ _ small) t,
        (
          record { rest = refl; below = λ q a. refl; above = λ q a. refl; still = λ q a. a },
          rw small t,
        ),
      )
      | inr large ↦
          let le = ltb→le _ _ large in
          (
            record h { regions = relinked h.regions size c ys prev p },
            split-run size h c prev p pos bound fit le ys t,
            (
              relinked-ChangedWithin size h c prev p pos bound fit le ys,
              rw large (relinked-Tiles size h c prev p pos bound fit le ys t),
            ),
          )
    ]

-- In a block laid out as the cells `xs ++ c ∷ ys`, `split` at `c` ends and leaves a block laid out
-- with `c` cut to `size` bytes and a free cell of the other bytes behind it, if `c` has room for
-- `size`, a header and MIN_SIZE bytes, and with the same cells if not; it writes no header before
-- `c` or behind the block, and nothing but headers.
pub split-Tiles :
    (size : ℕ) (h : Heap) (xs : List Cell) (c : Cell) (ys : List Cell) (p : Ptr)
    → 0 < p
    → c.size < size_mod
    → size + region_size + min_size < size_mod
    → Tiles h.regions null p (xs ++ c ∷ ys)
    → (h' : Heap) × (split (after p xs) size h ≡ done tt h')
      × ChangedWithin (after p xs) (after (after p xs) (c ∷ ys)) h h'
      × Tiles h'.regions null p (xs ++ kept size c ∷ cut_off size c ys)
split-Tiles size h xs c ys p pos bound fit t =
    let (h', run, (within, tiles)) =
      split-back size h c ys (last_of null p xs) (after p xs) (omega (arith, after-eq-add p xs))
        bound fit (back h.regions xs c ys null p t) in
    (
      h',
      run,
      within,
      Tiles-embed h h' xs c (kept size c) ys (cut_off size c ys) null p _ t within tiles,
    )

-- The bytes of a block are neither lost nor made by the cut.
pub span-split :
    (size : ℕ) (c : Cell) (ys : List Cell) → span (kept size c ∷ cut_off size c ys) ≡ span (c ∷ ys)
span-split size c ys = ground arith
