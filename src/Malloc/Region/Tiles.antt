-- ===== src/Malloc/Region/Tiles.antt =====
-- The regions of a block as a list of cells that lie end to end, doubly linked in address order.
use tps_sistemas_operativos.Base.{
  ℕ, ◌+◌, ◌≤◌, ◌<◌, ◌≡◌, refl, ap, ◌∙◌, Bool, true, Option, some, is_some, List, [], ◌∷◌, ◌++◌,
  arith,
}
use tps_sistemas_operativos.Malloc.Memory.{Ptr, null, magic, region_size, Region, Heap}

pub record Cell : Type 0 where
  pub free : Bool
  pub size : ℕ

abbrev pub Regions : Type 0
Regions = Ptr → Option Region

abbrev pub header : Cell → Ptr → Ptr → Region
header c next prev = record {
  magic_number = magic;
  free = c.free;
  size = c.size;
  next = next;
  prev = prev;
}

-- The address right behind a cell at `p`.
abbrev pub end_of : Ptr → Cell → Ptr
end_of p c = p + region_size + c.size

abbrev pub span : List Cell → ℕ
span [] = 0
span (c ∷ cs) = region_size + c.size + span cs

-- The `next` of a cell that ends at `q`, before the cells `cs`.
abbrev pub link : Ptr → List Cell → Ptr
link q [] = null
link q (_ ∷ _) = q

-- From `p` on, the cells `cs` up to the end of the block; `prev` is what the first links back to.
abbrev pub Tiles : Regions → Ptr → Ptr → List Cell → Type 0
Tiles m prev p [] = Unit
Tiles m prev p (c ∷ cs) =
    (m p ≡ some (header c (link (end_of p c) cs) prev)) × Tiles m p (end_of p c) cs

-- The same for cells that another one follows.
abbrev pub Front : Regions → Ptr → Ptr → List Cell → Type 0
Front m prev p [] = Unit
Front m prev p (c ∷ cs) = (m p ≡ some (header c (end_of p c) prev)) × Front m p (end_of p c) cs

-- The address of the last of the cells `cs`, or `prev` if there is none.
abbrev pub last_of : Ptr → Ptr → List Cell → Ptr
last_of prev p [] = prev
last_of prev p (c ∷ cs) = last_of p (end_of p c) cs

-- The place behind the cells `cs`.
abbrev pub after : Ptr → List Cell → Ptr
after p [] = p
after p (c ∷ cs) = after (end_of p c) cs

pub after-eq-add : (p : Ptr) (cs : List Cell) → after p cs ≡ p + span cs
after-eq-add p [] = omega arith
after-eq-add p (c ∷ cs) = omega (arith, after-eq-add (end_of p c) cs)

pub span-append : (xs ys : List Cell) → span (xs ++ ys) ≡ span xs + span ys
span-append [] ys = omega arith
span-append (x ∷ xs) ys = omega (arith, span-append xs ys)

module _ (m : Regions) where
  pub join :
      (xs : List Cell) (c : Cell) (ys : List Cell) (prev p : Ptr)
      → Front m prev p xs
      → Tiles m (last_of prev p xs) (after p xs) (c ∷ ys)
      → Tiles m prev p (xs ++ c ∷ ys)
  join [] c ys prev p f t = t
  join (x ∷ []) c ys prev p f t = (f.0, t)
  join (x ∷ y ∷ xs) c ys prev p f t = (f.0, join (y ∷ xs) c ys p (end_of p x) f.1 t)

  pub front :
      (xs : List Cell) (c : Cell) (ys : List Cell) (prev p : Ptr)
      → Tiles m prev p (xs ++ c ∷ ys)
      → Front m prev p xs
  front [] c ys prev p t = tt
  front (x ∷ []) c ys prev p t = (t.0, tt)
  front (x ∷ y ∷ xs) c ys prev p t = (t.0, front (y ∷ xs) c ys p (end_of p x) t.1)

  pub back :
      (xs : List Cell) (c : Cell) (ys : List Cell) (prev p : Ptr)
      → Tiles m prev p (xs ++ c ∷ ys)
      → Tiles m (last_of prev p xs) (after p xs) (c ∷ ys)
  back [] c ys prev p t = t
  back (x ∷ []) c ys prev p t = t.1
  back (x ∷ y ∷ xs) c ys prev p t = back (y ∷ xs) c ys p (end_of p x) t.1

-- `n` agrees with `m` from `p` up to `e`.
abbrev pub Agrees : Regions → Regions → Ptr → Ptr → Type 0
Agrees m n p e = (q : Ptr) → p ≤ q → q < e → n q ≡ m q

module _ (m n : Regions) where
  -- A change that spares the addresses of the cells keeps them.
  pub Front-frame :
      (cs : List Cell) (prev p : Ptr)
      → Agrees m n p (after p cs)
      → Front m prev p cs
      → Front n prev p cs
  Front-frame [] prev p same f = tt
  Front-frame (c ∷ cs) prev p same f = (
    rw (same p (omega arith) (omega (arith, after-eq-add (end_of p c) cs))) f.0,
    Front-frame cs p (end_of p c) (λ q a b. same q (omega arith) b) f.1,
  )

  pub Tiles-frame :
      (cs : List Cell) (prev p : Ptr)
      → Agrees m n p (after p cs)
      → Tiles m prev p cs
      → Tiles n prev p cs
  Tiles-frame [] prev p same f = tt
  Tiles-frame (c ∷ cs) prev p same f = (
    rw (same p (omega arith) (omega (arith, after-eq-add (end_of p c) cs))) f.0,
    Tiles-frame cs p (end_of p c) (λ q a b. same q (omega arith) b) f.1,
  )

-- `h'` is `h` but for region headers between `p` and `e`.
pub record ChangedWithin (p e : Ptr) (h h' : Heap) : Type 0 where
  pub rest : h' ≡ record h { regions = h'.regions }
  pub below : (q : Ptr) → q < p → h'.regions q ≡ h.regions q
  pub above : (q : Ptr) → e ≤ q → h'.regions q ≡ h.regions q
  -- What was a header can still be read as one.
  pub still : (q : Ptr) → is_some (h.regions q) ≡ true → is_some (h'.regions q) ≡ true

-- What is done to the cells behind `xs` is done to the whole block.
pub Tiles-embed :
    (h h' : Heap) (xs : List Cell) (c c' : Cell) (ys ys' : List Cell) (prev p e : Ptr)
    → Tiles h.regions prev p (xs ++ c ∷ ys)
    → ChangedWithin (after p xs) e h h'
    → Tiles h'.regions (last_of prev p xs) (after p xs) (c' ∷ ys')
    → Tiles h'.regions prev p (xs ++ c' ∷ ys')
Tiles-embed h h' xs c c' ys ys' prev p e t w t' =
    join h'.regions xs c' ys' prev p
      (Front-frame h.regions h'.regions xs prev p (λ q a b. w.below q b)
        (front h.regions xs c ys prev p t))
      t'

module _ {p e : Ptr} where
  pub ChangedWithin-refl : (h : Heap) → ChangedWithin p e h h
  ChangedWithin-refl h = record {
    rest = refl;
    below = λ q a. refl;
    above = λ q a. refl;
    still = λ q a. a;
  }

  pub ChangedWithin-weaken :
      {p' e' : Ptr} {h h' : Heap}
      → p ≤ p'
      → e' ≤ e
      → ChangedWithin p' e' h h'
      → ChangedWithin p e h h'
  ChangedWithin-weaken lo hi w = record {
    rest = w.rest;
    below = λ q a. w.below q (omega arith);
    above = λ q a. w.above q (omega arith);
    still = w.still;
  }

  pub ChangedWithin-trans :
      {h h' h'' : Heap}
      → ChangedWithin p e h h'
      → ChangedWithin p e h' h''
      → ChangedWithin p e h h''
  ChangedWithin-trans {h''} v w = record {
    rest = w.rest ∙ ap (λ (g : Heap). record g { regions = h''.regions }) v.rest;
    below = λ q a. w.below q a ∙ v.below q a;
    above = λ q a. w.above q a ∙ v.above q a;
    still = λ q a. w.still q (v.still q a);
  }
