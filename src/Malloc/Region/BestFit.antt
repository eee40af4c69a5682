-- ===== src/Malloc/Region/BestFit.antt =====
-- BEST_FIT of `find_in_block` against what best fit means on the cells.
use mathlib.Core.Bool.{false≢true}
use tps_sistemas_operativos.Base.{
  ℕ, zero, suc, ◌≤◌, ◌<◌, ◌≡◌, refl, sym, ◌∙◌, ap, true, false, ◌⊎◌, inl, inr, Bool-cases, some,
  List, [], ◌∷◌, ◌++◌, ltb, arith, All, ltb→lt, ltb→le, ne→==, length,
}
use tps_sistemas_operativos.Malloc.Memory.{Ptr, null, Heap, done, Region, region_at-done}
use tps_sistemas_operativos.Malloc.Region.{best_fit, find_best, better, find_in_block}
use tps_sistemas_operativos.Malloc.Region.Tiles.{Cell, Tiles, after, end_of, link}
use tps_sistemas_operativos.Malloc.Region.FirstFit.{fits_cell, NoFit}

-- A cell that fits `size` and is smallest: strictly below those before it that fit, and at most
-- those behind it that fit.
pub record IsBestFit (size : ℕ) (p : Ptr) (cs : List Cell) (r : Ptr) : Type 0 where
  pub before : List Cell
  pub cell : Cell
  pub behind : List Cell
  pub splits : cs ≡ before ++ cell ∷ behind
  pub address : r ≡ after p before
  pub fits : fits_cell size cell ≡ true
  pub smaller : All (λ c. fits_cell size c ≡ true → cell.size < c.size) before
  pub smallest : All (λ c. fits_cell size c ≡ true → cell.size ≤ c.size) behind

abbrev AtLeast : ℕ → ℕ → List Cell → Type 0
AtLeast size limit cs = All (λ c. fits_cell size c ≡ true → limit ≤ c.size) cs

-- From a best region so far of `limit` bytes: it stays, or a smaller cell is found.
abbrev Improves : ℕ → ℕ → Ptr → Ptr → List Cell → Ptr → Type 0
Improves size limit b p cs r =
    (r ≡ b) × AtLeast size limit cs ⊎ ((f : IsBestFit size p cs r) × (f.cell.size < limit))

abbrev pub BestOrNull : ℕ → Ptr → List Cell → Ptr → Type 0
BestOrNull size p cs r = (r ≡ null) × NoFit size cs ⊎ IsBestFit size p cs r

extend :
    {size : ℕ} {p : Ptr} {c : Cell} {cs : List Cell} {r : Ptr}
    (f : IsBestFit size (end_of p c) cs r)
    → (fits_cell size c ≡ true → f.cell.size < c.size)
    → IsBestFit size p (c ∷ cs) r
extend {c} f less = record {
  before = c ∷ f.before;
  cell = f.cell;
  behind = f.behind;
  splits = ap (λ l. c ∷ l) f.splits;
  address = f.address;
  fits = f.fits;
  smaller = (less, f.smaller);
  smallest = f.smallest;
}

here :
    {size : ℕ} {p : Ptr} {c : Cell} {cs : List Cell} {r : Ptr}
    → fits_cell size c ≡ true
    → Improves size c.size p (end_of p c) cs r
    → IsBestFit size p (c ∷ cs) r
here {c} {cs} good (inl (e, least)) = record {
  before = [];
  cell = c;
  behind = cs;
  splits = refl;
  address = e;
  fits = good;
  smaller = tt;
  smallest = least;
}
here good (inr (f, less)) = extend f (λ _. less)

Improves-here :
    (size limit : ℕ) (b p : Ptr) (c : Cell) (cs : List Cell) (r : Ptr)
    → fits_cell size c ≡ true
    → c.size < limit
    → Improves size c.size p (end_of p c) cs r
    → Improves size limit b p (c ∷ cs) r
unfolding here extend
Improves-here size limit b p c cs r good less (inl w) = inr (here good (inl w), less)
Improves-here size limit b p c cs r good less (inr (f, l)) = inr (extend f (λ _. l), omega arith)

Improves-behind :
    (size limit : ℕ) (b p : Ptr) (c : Cell) (cs : List Cell) (r : Ptr)
    → (fits_cell size c ≡ true → limit ≤ c.size)
    → Improves size limit b (end_of p c) cs r
    → Improves size limit b p (c ∷ cs) r
unfolding extend
Improves-behind size limit b p c cs r more (inl (e, least)) = inl (e, (more, least))
Improves-behind size limit b p c cs r more (inr (f, l)) =
    inr (extend f (λ g. omega (arith, more g)), l)

find_best_from :
    (fuel size : ℕ) (h : Heap) (cs : List Cell) (prev p b : Ptr) (kept : Region)
    → 0 < p
    → 0 < b
    → h.regions b ≡ some kept
    → Tiles h.regions prev p cs
    → length cs < fuel
    → (r : Ptr) × (find_best fuel (link p cs) b size h ≡ done r h)
      × Improves size kept.size b p cs r
unfolding find_best better
find_best_from zero size h cs prev p b kept pos posb e t en = absurd (omega arith)
find_best_from (suc fuel) size h [] prev p b kept pos posb e t en = (b, refl, inl (refl, tt))
find_best_from (suc fuel) size h (c ∷ cs) prev p b kept pos posb e t en =
    elim (Bool-cases (fits_cell size c)) [
      | inl good ↦ elim (Bool-cases (ltb c.size kept.size)) [
        | inl less ↦
            let (r, run, what) =
              find_best_from fuel size h cs p (end_of p c) p _ (omega arith) pos t.0 t.1
                (omega arith) in
            (
              r,
              rw
                  (
                    ne→== p 0 (omega arith),
                    region_at-done h p pos t.0,
                    good,
                    ne→== b 0 (omega arith),
                    region_at-done h b posb e,
                    less,
                  )
                  run,
              Improves-here size kept.size b p c cs r good (omega (arith, ltb→lt)) what,
            )
        | inr more ↦
            let (r, run, what) =
              find_best_from fuel size h cs p (end_of p c) b kept (omega arith) posb e t.1
                (omega arith) in
            (
              r,
              rw
                  (
                    ne→== p 0 (omega arith),
                    region_at-done h p pos t.0,
                    good,
                    ne→== b 0 (omega arith),
                    region_at-done h b posb e,
                    more,
                  )
                  run,
              Improves-behind size kept.size b p c cs r (λ _. omega (arith, ltb→le)) what,
            )
      ]
      | inr bad ↦
          let (r, run, what) =
            find_best_from fuel size h cs p (end_of p c) b kept (omega arith) posb e t.1
              (omega arith) in
          (
            r,
            rw (ne→== p 0 (omega arith), region_at-done h p pos t.0, bad) run,
            Improves-behind size kept.size b p c cs r (λ g. absurd (false≢true (sym bad ∙ g))) what,
          )
    ]

step :
    (size : ℕ) (p : Ptr) (c : Cell) (cs : List Cell) (r : Ptr)
    → fits_cell size c ≡ false
    → BestOrNull size (end_of p c) cs r
    → BestOrNull size p (c ∷ cs) r
step size p c cs r bad (inl (e, no_fit)) = inl (e, (bad, no_fit))
step size p c cs r bad (inr f) = inr (extend f (λ g. absurd (false≢true (sym bad ∙ g))))

find_best_lem :
    (fuel size : ℕ) (h : Heap) (cs : List Cell) (prev p : Ptr)
    → 0 < p
    → Tiles h.regions prev p cs
    → length cs < fuel
    → (r : Ptr) × (find_best fuel (link p cs) null size h ≡ done r h) × BestOrNull size p cs r
unfolding find_best better
find_best_lem zero size h cs prev p pos t en = absurd (omega arith)
find_best_lem (suc fuel) size h [] prev p pos t en = (null, refl, inl (refl, tt))
find_best_lem (suc fuel) size h (c ∷ cs) prev p pos t en = elim (Bool-cases (fits_cell size c)) [
  | inl good ↦
      let (r, run, what) =
        find_best_from fuel size h cs p (end_of p c) p _ (omega arith) pos t.0 t.1 (omega arith) in
      (r, rw (ne→== p 0 (omega arith), region_at-done h p pos t.0, good) run, inr (here good what))
  | inr bad ↦
      let (r, run, what) =
        find_best_lem fuel size h cs p (end_of p c) (omega arith) t.1 (omega arith) in
      (
        r,
        rw (ne→== p 0 (omega arith), region_at-done h p pos t.0, bad) run,
        step size p c cs r bad what,
      )
]

-- The same for BEST_FIT: NULL if no cell fits, or else the address of a cell that fits and that is
-- as small as any that fits, the first of those.
pub find_in_block-BestOrNull :
    (fuel size : ℕ) (h : Heap) (c : Cell) (cs : List Cell) (p : Ptr)
    → 0 < p
    → Tiles h.regions null p (c ∷ cs)
    → length (c ∷ cs) < fuel
    → (r : Ptr) × (find_in_block best_fit fuel p size h ≡ done r h) × BestOrNull size p (c ∷ cs) r
unfolding find_in_block
find_in_block-BestOrNull fuel size h c cs p pos t en =
    find_best_lem fuel size h (c ∷ cs) null p pos t en
