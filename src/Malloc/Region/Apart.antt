-- ===== src/Malloc/Region/Apart.antt =====
-- `coalesce` leaves no two free regions side by side.
use tps_sistemas_operativos.Base.{
  ◌+◌, ◌<◌, ◌≡◌, refl, Bool, true, false, ◌&&◌, List, [], ◌∷◌, ◌++◌, arith,
}
use tps_sistemas_operativos.Malloc.Memory.{Ptr, null, size_mod, Heap}
use tps_sistemas_operativos.Malloc.Region.{coalesce}
use tps_sistemas_operativos.Malloc.Region.Tiles.{Cell, Tiles, after, span, span-append}
use tps_sistemas_operativos.Malloc.Region.Coalesce.{
  backward, forward, Left, span-backward, span-forward, coalesce-Tiles,
}

-- No two free cells lie side by side.
abbrev pub Apart : List Cell → Type 0
Apart [] = Unit
Apart (c ∷ []) = Unit
Apart (c ∷ d ∷ cs) = (c.free && d.free ≡ false) × Apart (d ∷ cs)

abbrev HeadIs : Bool → List Cell → Type 0
HeadIs b [] = Unit
HeadIs b (z ∷ _) = z.free ≡ b

Apart-cons :
    (x : Cell) (b : Bool) (l : List Cell)
    → x.free && b ≡ false
    → HeadIs b l
    → Apart l
    → Apart (x ∷ l)
Apart-cons x b [] used e a = tt
Apart-cons x b (z ∷ l) used e a = (rw e used, a)

forward-HeadIs : (c : Cell) (ys : List Cell) → HeadIs c.free (forward c ys)
forward-HeadIs c [] = refl
forward-HeadIs c (d ∷ ys) = ground arith

-- The cell `c` when `free` has marked it.
abbrev pub freed : Cell → Cell
freed c = record c { free = true }

abbrev pub in_use : Cell → Cell
in_use c = record c { free = false }

backward-HeadIs :
    (y : Cell) (xs : List Cell) (c : Cell) (ys : List Cell)
    → HeadIs y.free ((backward (y ∷ xs) c).0 ++ forward (backward (y ∷ xs) c).1 ys)
backward-HeadIs y [] c [] = ground arith
backward-HeadIs y [] c (d ∷ ys) = ground arith
backward-HeadIs y (z ∷ xs) c ys = refl

-- Joining the neighbours of a cell that has become free leaves no two free cells side by side, if there
-- were none while it was in use.
joined-Apart :
    (xs : List Cell) (c : Cell) (ys : List Cell)
    → Apart (xs ++ in_use c ∷ ys)
    → Apart ((backward xs (freed c)).0 ++ forward (backward xs (freed c)).1 ys)
joined-Apart [] c [] a = tt
joined-Apart [] c (d ∷ []) a = ground arith
joined-Apart [] c (d ∷ e ∷ ys) a = ground arith
joined-Apart (x ∷ []) c [] a = ground arith
joined-Apart (x ∷ []) c (d ∷ []) a = ground arith
joined-Apart (x ∷ []) c (d ∷ e ∷ ys) a = ground arith
joined-Apart (x ∷ y ∷ xs) c ys a =
    Apart-cons x y.free _ a.0 (backward-HeadIs y xs (freed c) ys) (joined-Apart (y ∷ xs) c ys a.1)

-- In a block where no two free cells lay side by side before the cell `c` was marked as free, `coalesce`
-- at `c` succeeds, changes nothing but headers of the block, and leaves it laid out as cells that fill as
-- many bytes, no two free ones of them side by side.
pub coalesce-Apart :
    (h : Heap) (xs : List Cell) (c : Cell) (ys : List Cell) (p : Ptr)
    → 0 < p
    → span (xs ++ freed c ∷ ys) < size_mod
    → Tiles h.regions null p (xs ++ freed c ∷ ys)
    → Apart (xs ++ in_use c ∷ ys)
    → (region : Ptr) × (cs : List Cell) × Left h p
        (p + span (xs ++ freed c ∷ ys))
        (coalesce (after p xs) h)
        region
        cs
      × Apart cs
      × (span cs ≡ span (xs ++ freed c ∷ ys))
coalesce-Apart h xs c ys p pos fit t a =
    let (before, joined_) = backward xs (freed c) in
    (
      after p before,
      before ++ forward joined_ ys,
      coalesce-Tiles h xs (freed c) ys p pos fit t,
      joined-Apart xs c ys a,
      omega (
        arith,
        span-append before (forward joined_ ys),
        span-forward joined_ ys,
        span-append before (joined_ ∷ ys),
        span-backward xs (freed c) ys,
      ),
    )
