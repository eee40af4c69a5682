-- ===== src/Malloc/Region/FirstFit.antt =====
-- `find_in_block` against what first fit and best fit mean on the cells.
use tps_sistemas_operativos.Base.{
  ℕ, zero, suc, ◌<◌, ◌≡◌, refl, ap, Bool, true, false, ◌&&◌, ◌⊎◌, inl, inr, Bool-cases, List, [],
  ◌∷◌, ◌++◌, leb, arith, All, ne→==, length,
}
use tps_sistemas_operativos.Malloc.Memory.{Ptr, null, Heap, done, region_at-done}
use tps_sistemas_operativos.Malloc.Region.{first_fit, find_first, find_in_block}
use tps_sistemas_operativos.Malloc.Region.Tiles.{Cell, Tiles, after, end_of, link}

abbrev pub fits_cell : ℕ → Cell → Bool
fits_cell size c = c.free && leb size c.size

-- The first cell that fits `size`: its place, and that none before it fits.
pub record IsFirstFit (size : ℕ) (p : Ptr) (cs : List Cell) (r : Ptr) : Type 0 where
  pub before : List Cell
  pub cell : Cell
  pub behind : List Cell
  pub splits : cs ≡ before ++ cell ∷ behind
  pub address : r ≡ after p before
  pub fits : fits_cell size cell ≡ true
  pub first : All (λ c. fits_cell size c ≡ false) before

abbrev pub NoFit : ℕ → List Cell → Type 0
NoFit size cs = All (λ c. fits_cell size c ≡ false) cs

abbrev pub FirstOrNull : ℕ → Ptr → List Cell → Ptr → Type 0
FirstOrNull size p cs r = (r ≡ null) × NoFit size cs ⊎ IsFirstFit size p cs r

step :
    (size : ℕ) (p : Ptr) (c : Cell) (cs : List Cell) (r : Ptr)
    → fits_cell size c ≡ false
    → FirstOrNull size (end_of p c) cs r
    → FirstOrNull size p (c ∷ cs) r
step size p c cs r bad (inl (e, no_fit)) = inl (e, (bad, no_fit))
step size p c cs r bad (inr f) = inr (record {
  before = c ∷ f.before;
  cell = f.cell;
  behind = f.behind;
  splits = ap (λ l. c ∷ l) f.splits;
  address = f.address;
  fits = f.fits;
  first = (bad, f.first);
})

find_first_lem :
    (fuel size : ℕ) (h : Heap) (cs : List Cell) (prev p : Ptr)
    → 0 < p
    → Tiles h.regions prev p cs
    → length cs < fuel
    → (r : Ptr) × (find_first fuel (link p cs) size h ≡ done r h) × FirstOrNull size p cs r
unfolding find_first
find_first_lem zero size h cs prev p pos t en = absurd (omega arith)
find_first_lem (suc fuel) size h [] prev p pos t en = (null, refl, inl (refl, tt))
find_first_lem (suc fuel) size h (c ∷ cs) prev p pos t en = elim (Bool-cases (fits_cell size c)) [
  | inl good ↦ (
    p,
    rw (ne→== p 0 (omega arith), region_at-done h p pos t.0, good),
    inr (record {
      before = [];
      cell = c;
      behind = cs;
      splits = refl;
      address = refl;
      fits = good;
      first = tt;
    }),
  )
  | inr bad ↦
      let (r, run, what) =
        find_first_lem fuel size h cs p (end_of p c) (omega arith) t.1 (omega arith) in
      (
        r,
        rw (ne→== p 0 (omega arith), region_at-done h p pos t.0, bad) run,
        step size p c cs r bad what,
      )
]

-- On the regions of a block that are laid out as the cells `cs`, with fuel above their number,
-- FIRST_FIT ends, changes nothing, and returns NULL if no cell fits, or else the address of the
-- first cell that fits.
pub find_in_block-FirstOrNull :
    (fuel size : ℕ) (h : Heap) (c : Cell) (cs : List Cell) (p : Ptr)
    → 0 < p
    → Tiles h.regions null p (c ∷ cs)
    → length (c ∷ cs) < fuel
    → (r : Ptr) × (find_in_block first_fit fuel p size h ≡ done r h) × FirstOrNull size p (c ∷ cs) r
unfolding find_in_block
find_in_block-FirstOrNull fuel size h c cs p pos t en =
    find_first_lem fuel size h (c ∷ cs) null p pos t en
