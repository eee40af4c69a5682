-- ===== src/Sched/Pages/Init.antt =====
-- What page_init of pmap.c makes of the zeroed array of pages.
use mathlib.Core.Path.{subst}
use tps_sistemas_operativos.Base.{
  ℕ, zero, suc, ◌<◌, ◌≤◌, ◌≡◌, ◌≢◌, ◌⊎◌, refl, true, false, inl, inr, Bool-cases, ◌==◌, ==→eq,
  arith, ap, ◌∙◌, none, some, List, [], ◌∷◌, update, ◌↔◌, ltb, ltb→lt,
}
use tps_sistemas_operativos.Sched.Pages.{Memory, put_page, is_reserved, init_pages, page_init}
use tps_sistemas_operativos.Sched.Pages.Count.{Kind, plain, refs, refs-no_table}
use tps_sistemas_operativos.Sched.Pages.Sound.{Has, Sound, set_ref-Sound, free-Sound, held-Sound}

-- `memset(pages, 0, …)` of mem_init.
abbrev pub zeroed : ℕ → (ℕ → ℕ → ℕ) → Memory
zeroed n words = record {
  npages = n;
  pages = λ p. record { pp_link = none; pp_ref = 0 };
  page_free_list = none;
  words = words;
}

abbrev pub unused : ℕ → Kind
unused p = plain

no_refs : (n : ℕ) (words : ℕ → ℕ → ℕ) (p : ℕ) → refs n words unused p ≡ 0
no_refs n words p = refs-no_table n words unused p (λ t. refl)

zeroed-Sound : (n : ℕ) (words : ℕ → ℕ → ℕ) → n ≤ 1048576 → Sound (zeroed n words) (λ p. 0) unused []
zeroed-Sound n words le = record {
  memory = le;
  chain = refl;
  once = tt;
  free_ok = λ p at. absurd at;
  unlinked = λ p out. refl;
  small = λ p. omega arith;
  placed = λ t d i k. cc (k);
  tables = λ d i k lt nonzero. cc (k);
  mapped = λ t d i j k lt nonzero. cc (k);
  counted = λ p k. omega (arith, no_refs n words p);
}

-- The pages that are free after `n` rounds.
abbrev Usable : ℕ → ℕ → List ℕ → Type 0
Usable first n free =
    ((p : ℕ) → Has p free → (p < n) × (is_reserved first p ≡ false))
    × ((p : ℕ) → p < n → is_reserved first p ≡ false → Has p free)

module _ (first : ℕ) (words : ℕ → ℕ → ℕ) (n : ℕ) (le : n ≤ 1048576) where
  abbrev m : ℕ → Memory
  m i = init_pages first i (zeroed n words)

  kept :
      (free : List ℕ) {k : Memory}
      → Sound k (λ p. 0) unused free
      → (i : ℕ) → (Has i free → ⊥)
      → Sound
          (put_page i (record (k.pages i) { pp_ref = (k.pages i).pp_ref }) k)
          (λ p. 0)
          unused
          free
  kept free ok i out =
      held-Sound (update (λ p. 0) i 0) (λ p. 0) (λ p. ground arith)
        (set_ref-Sound ok i _ 0 (ok.small i) out (ok.counted i))

  still : (i p : ℕ) → p < suc i → is_reserved first p ≡ false → is_reserved first i ≡ true → p < i
  still i p below r yes_ = elim (Bool-cases (p == i)) [
    | inl e ↦ cc (ap (is_reserved first) (==→eq p i e), r, yes_)
    | inr e ↦ ground arith
  ]

  pushed_are :
      (i : ℕ) (free : List ℕ)
      → ((p : ℕ) → Has p free → (p < i) × (is_reserved first p ≡ false))
      → is_reserved first i ≡ false
      → (p : ℕ) → Has p (i ∷ free)
      → (p < suc i) × (is_reserved first p ≡ false)
  pushed_are i free are no_ p (inl e) = (omega (arith, e), ap (is_reserved first) e ∙ no_)
  pushed_are i free are no_ p (inr at) = (omega (arith, (are p at).0), (are p at).1)

  pushed_all :
      (i : ℕ) (free : List ℕ)
      → ((p : ℕ) → p < i → is_reserved first p ≡ false → Has p free)
      → (p : ℕ) → p < suc i
      → is_reserved first p ≡ false
      → Has p (i ∷ free)
  pushed_all i free all p below r = elim (Bool-cases (p == i)) [
    | inl e ↦ inl (==→eq p i e)
    | inr e ↦ inr (all p (ground arith) r)
  ]

  init_pages-Sound :
      (i : ℕ)
      → i ≤ n
      → (free : List ℕ) × Sound (m i) (λ p. 0) unused free
        × Usable first i free
        × ((m i).npages ≡ n)
  unfolding init_pages
  init_pages-Sound zero lt = (
    [],
    zeroed-Sound n words le,
    ((λ p at. absurd at), λ p below r. absurd (omega (arith, below))),
    refl,
  )
  init_pages-Sound (suc i) lt =
      let (free, ok, (are, all), same) = init_pages-Sound i (omega (arith, lt)) in
      let out : Has i free → ⊥ = (λ at. omega (arith, (are i at).0)) in
      let ref : ((m i).pages i).pp_ref ≡ 0 =
        omega (arith, ok.counted i refl, no_refs ((m i).npages) ((m i).words) i) in
      elim (Bool-cases (is_reserved first i)) [
        | inl yes_ ↦ (
          free,
          rw yes_ (
              subst
                (λ l.
                  Sound (put_page i (record { pp_link = l; pp_ref = ((m i).pages i).pp_ref }) (m i))
                    (λ p. 0) unused free)
                (ok.unlinked i out) (kept free ok i out)),
          (
            (λ p at. (omega (arith, (are p at).0), (are p at).1)),
            λ p below r. all p (still i p below r yes_) r,
          ),
          rw yes_ same,
        )
        | inr no_ ↦ (
          i ∷ free,
          rw no_ (
              subst
                (λ r.
                  Sound
                    (put_page i (record { pp_link = (m i).page_free_list; pp_ref = r })
                      (record (m i) { page_free_list = some i }))
                    (λ p. 0) unused (i ∷ free))
                ref (free-Sound ok i (rw same lt) out refl ref)),
          (λ p at. pushed_are i free are no_ p at, λ p below r. pushed_all i free all p below r),
          rw no_ same,
        )
      ]

-- Not page 0, not the page at MPENTRY_PADDR, not in the I/O hole, and not given out by boot_alloc.
abbrev pub IsUsable : ℕ → ℕ → Type 0
IsUsable first p = (0 < p) × (p ≢ 7) × ((p < 160) ⊎ ((256 ≤ p) × (first ≤ p)))

unreserved : (first p : ℕ) → is_reserved first p ≡ false → IsUsable first p
unfolding is_reserved
unreserved first p r = elim (Bool-cases (ltb p 160)) [
  | inl low ↦ (ground arith, λ e. ground arith, inl (ltb→lt p 160 low))
  | inr high ↦ (ground arith, λ e. ground arith, inr (ground arith, ground arith))
]

reserved : (first p : ℕ) → IsUsable first p → is_reserved first p ≡ false
unfolding is_reserved
reserved first p (pos, other, inl low) = ground arith
reserved first p (pos, other, inr (high, above)) = ground arith

-- On a zeroed array of at most 2^20 pages page_init leaves a sound memory, whose free list has each page
-- once that is neither page 0, nor the page at MPENTRY_PADDR, nor in the I/O hole, nor from EXTPHYSMEM up to
-- what boot_alloc gave out, and no other.
pub page_init-Sound :
    (first n : ℕ) (words : ℕ → ℕ → ℕ)
    → n ≤ 1048576
    → (free : List ℕ) × Sound (page_init first (zeroed n words)) (λ p. 0) unused free
      × ((p : ℕ) → Has p free ↔ ((p < n) × IsUsable first p))
unfolding page_init
page_init-Sound first n words le =
    let (free, ok, (are, all), same) = init_pages-Sound first words n le n (omega arith) in
    (
      free,
      ok,
      λ p. (
        λ at. ((are p at).0, unreserved first p ((are p at).1)),
        λ (below, usable). all p below (reserved first p usable),
      ),
    )
