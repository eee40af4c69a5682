-- ===== src/Malloc/Region/Coalesce.antt =====
-- `coalesce` on the cells of a block: the neighbours that are free are joined to a cell.
use mathlib.Core.Path.{subst}
use tps_sistemas_operativos.Base.{
  ℕ, ◌+◌, ◌<◌, ◌≡◌, refl, sym, ap, ◌⊎◌, inl, inr, Bool-cases, some, List, [], ◌∷◌, ◌++◌, arith,
  ne→==, if◌then◌else◌, append_assoc,
}
use tps_sistemas_operativos.Malloc.Memory.{
  Ptr, null, size_mod, Region, Heap, done, Run, region_at-done,
}
use tps_sistemas_operativos.Malloc.Region.{is_free, merge, absorb_before, absorb_after, coalesce}
use tps_sistemas_operativos.Malloc.Region.Tiles.{
  Cell, Tiles, after, after-eq-add, end_of, last_of, back, span, span-append, ChangedWithin,
  ChangedWithin-refl, ChangedWithin-weaken, ChangedWithin-trans,
}
use tps_sistemas_operativos.Malloc.Region.Merge.{joined, merge-Tiles}

-- The cells before `c` and the cell that `c` becomes, when the last of them is joined if it is free.
abbrev pub backward : List Cell → Cell → List Cell × Cell
backward [] c = ([], c)
backward (x ∷ []) c = if x.free then ([], joined x c) else (x ∷ [], c)
backward (x ∷ y ∷ xs) c = (x ∷ (backward (y ∷ xs) c).0, (backward (y ∷ xs) c).1)

-- `c` and the cells behind it, when the first of them is joined if it is free.
abbrev pub forward : Cell → List Cell → List Cell
forward c [] = c ∷ []
forward c (d ∷ ys) = if d.free then joined c d ∷ ys else c ∷ d ∷ ys

pub after-snoc :
    (p : Ptr) (ws : List Cell) (w : Cell) → after p (ws ++ w ∷ []) ≡ end_of (after p ws) w
after-snoc p [] w = refl
after-snoc p (x ∷ ws) w = after-snoc (end_of p x) ws w

pub last_of-snoc :
    (prev p : Ptr) (ws : List Cell) (w : Cell) → last_of prev p (ws ++ w ∷ []) ≡ after p ws
last_of-snoc prev p [] w = refl
last_of-snoc prev p (x ∷ ws) w = last_of-snoc p (end_of p x) ws w

backward-snoc :
    (ws : List Cell) (w c : Cell)
    → backward (ws ++ w ∷ []) c ≡ (if w.free then (ws, joined w c) else (ws ++ w ∷ [], c))
backward-snoc [] w c = refl
backward-snoc (x ∷ []) w c = ground arith
backward-snoc (x ∷ y ∷ ws) w c = ground (arith, backward-snoc (y ∷ ws) w c)

snoc-cases : (xs : List Cell) → (xs ≡ []) ⊎ ((ws : List Cell) × (w : Cell) × (xs ≡ ws ++ w ∷ []))
snoc-cases [] = inl refl
snoc-cases (x ∷ xs) = elim (snoc-cases xs) [
  | inl e ↦ inr ([], x, ap (λ l. x ∷ l) e)
  | inr (ws, w, e) ↦ inr (x ∷ ws, w, ap (λ l. x ∷ l) e)
]

snoc-induction {ℓ} :
    (P : List Cell → Type ℓ)
    → P []
    → ((ws : List Cell) (w : Cell) → P (ws ++ w ∷ []))
    → (xs : List Cell) → P xs
snoc-induction P base step xs = elim (snoc-cases xs) [
  | inl e ↦ subst P (sym e) base
  | inr (ws, w, e) ↦ subst P (sym e) (step ws w)
]

pub is_free-done :
    (h : Heap) (p : Ptr) {r : Region} → 0 < p → h.regions p ≡ some r → is_free p h ≡ done r.free h
unfolding is_free
is_free-done h p pos e = rw (ne→== p 0 (omega arith), region_at-done h p pos e)

absorb_before-first :
    (h : Heap) (c : Cell) (ys : List Cell) (p : Ptr)
    → 0 < p
    → Tiles h.regions null p (c ∷ ys)
    → absorb_before p h ≡ done p h
unfolding absorb_before is_free
absorb_before-first h c ys p pos t = rw (region_at-done h p pos t.0)

-- The block after a step that returns `region` and leaves the cells `cs`.
abbrev pub Left : Heap → Ptr → ℕ → Run Ptr → Ptr → List Cell → Type 0
Left h p e run region cs =
    (h' : Heap) × (run ≡ done region h') × ChangedWithin p e h h' × Tiles h'.regions null p cs

merged :
    (h : Heap) (ws : List Cell) (w c : Cell) (ys : List Cell) (p : Ptr)
    → 0 < p
    → span (ws ++ w ∷ c ∷ ys) < size_mod
    → Tiles h.regions null p (ws ++ w ∷ c ∷ ys)
    → Left h p
        (p + span (ws ++ w ∷ c ∷ ys))
        (merge (after p ws) h)
        (after p ws)
        (ws ++ joined w c ∷ ys)
merged h ws w c ys p pos fit t =
    let total = span-append ws (w ∷ c ∷ ys) in
    let (h', run, within, tiles) = merge-Tiles h ws w c ys p pos (omega (arith, total)) t in
    (
      h',
      run,
      ChangedWithin-weaken (omega (arith, after-eq-add p ws))
          (omega
            (arith, total, after-eq-add p ws, after-eq-add (end_of (end_of (after p ws) w) c) ys))
          within,
      tiles,
    )

absorb_before-snoc :
    (h : Heap) (ws : List Cell) (w c : Cell) (ys : List Cell) (p : Ptr)
    → 0 < p
    → span (ws ++ w ∷ c ∷ ys) < size_mod
    → Tiles h.regions null p (ws ++ w ∷ c ∷ ys)
    → Left h p
        (p + span (ws ++ w ∷ c ∷ ys))
        (absorb_before (end_of (after p ws) w) h)
        (after p (backward (ws ++ w ∷ []) c).0)
        ((backward (ws ++ w ∷ []) c).0 ++ (backward (ws ++ w ∷ []) c).1 ∷ ys)
unfolding absorb_before
absorb_before-snoc h ws w c ys p pos fit t =
    let t' = back h.regions ws w (c ∷ ys) null p t in
    let far = after-eq-add p ws in
    let here = region_at-done h (end_of (after p ws) w) (omega (arith, far)) t'.1.0 in
    let test = is_free-done h (after p ws) (omega (arith, far)) t'.0 in
    rw (backward-snoc ws w c) (elim (Bool-cases w.free) [
      | inl free' ↦ simp (here, test, free') (simp free' at (merged h ws w c ys p pos fit t))
      | inr used ↦
          simp (here, test, used, after-snoc, append_assoc) (h, refl, ChangedWithin-refl h, t)
    ])

absorb_before-Left :
    (h : Heap) (xs : List Cell) (c : Cell) (ys : List Cell) (p : Ptr)
    → 0 < p
    → span (xs ++ c ∷ ys) < size_mod
    → Tiles h.regions null p (xs ++ c ∷ ys)
    → Left h p
        (p + span (xs ++ c ∷ ys))
        (absorb_before (after p xs) h)
        (after p (backward xs c).0)
        ((backward xs c).0 ++ (backward xs c).1 ∷ ys)
absorb_before-Left h xs c ys p pos =
    snoc-induction
      (λ xs.
        span (xs ++ c ∷ ys) < size_mod
        → Tiles h.regions null p (xs ++ c ∷ ys)
        → Left h p (p + span (xs ++ c ∷ ys)) (absorb_before (after p xs) h)
            (after p (backward xs c).0) ((backward xs c).0 ++ (backward xs c).1 ∷ ys))
      (λ fit t. (h, absorb_before-first h c ys p pos t, ChangedWithin-refl h, t))
      (λ ws w. rw (append_assoc, after-snoc) (absorb_before-snoc h ws w c ys p pos)) xs

absorb_after-Left :
    (h : Heap) (xs : List Cell) (c : Cell) (ys : List Cell) (p : Ptr)
    → 0 < p
    → span (xs ++ c ∷ ys) < size_mod
    → Tiles h.regions null p (xs ++ c ∷ ys)
    → Left h p
        (p + span (xs ++ c ∷ ys))
        (absorb_after (after p xs) h)
        (after p xs)
        (xs ++ forward c ys)
unfolding absorb_after
absorb_after-Left h xs c [] p pos fit t =
    let here =
      region_at-done h (after p xs) (omega (arith, after-eq-add p xs))
        (back h.regions xs c [] null p t).0 in
    unfold is_free in rw here (h, refl, ChangedWithin-refl h, t)
absorb_after-Left h xs c (d ∷ ys) p pos fit t =
    let t' = back h.regions xs c (d ∷ ys) null p t in
    let far = after-eq-add p xs in
    let here = region_at-done h (after p xs) (omega (arith, far)) t'.0 in
    let test = is_free-done h (end_of (after p xs) c) (omega (arith, far)) t'.1.0 in
    elim (Bool-cases d.free) [
      | inl free' ↦ simp (here, test, free') (merged h xs c d ys p pos fit t)
      | inr used ↦ simp (here, test, used) (h, refl, ChangedWithin-refl h, t)
    ]

-- Joining cells keeps the bytes of a block.
pub span-backward :
    (xs : List Cell) (c : Cell) (ys : List Cell)
    → span ((backward xs c).0 ++ (backward xs c).1 ∷ ys) ≡ span (xs ++ c ∷ ys)
span-backward [] c ys = refl
span-backward (x ∷ []) c ys = ground arith
span-backward (x ∷ y ∷ xs) c ys = omega (arith, span-backward (y ∷ xs) c ys)

pub span-forward : (c : Cell) (ys : List Cell) → span (forward c ys) ≡ span (c ∷ ys)
span-forward c [] = refl
span-forward c (d ∷ ys) = ground arith

-- In a block laid out as `xs ++ c ∷ ys`, `coalesce` at `c` joins to it the cell before it, if that
-- is free, and then the cell behind it, if that is free; it returns the address of the cell that
-- holds `c`'s bytes, and changes nothing but headers of the block.
pub coalesce-Tiles :
    (h : Heap) (xs : List Cell) (c : Cell) (ys : List Cell) (p : Ptr)
    → 0 < p
    → span (xs ++ c ∷ ys) < size_mod
    → Tiles h.regions null p (xs ++ c ∷ ys)
    → Left h p
        (p + span (xs ++ c ∷ ys))
        (coalesce (after p xs) h)
        (after p (backward xs c).0)
        ((backward xs c).0 ++ forward (backward xs c).1 ys)
unfolding coalesce
coalesce-Tiles h xs c ys p pos fit t =
    let same = span-backward xs c ys in
    let (h', run, within, tiles) = absorb_before-Left h xs c ys p pos fit t in
    let (h'', run', within', tiles') =
      absorb_after-Left h' (backward xs c).0 (backward xs c).1 ys p pos (omega arith) tiles in
    (h'', rw run run', ChangedWithin-trans within (rw same at within'), tiles')
