-- ===== src/Sched/Pages/Allocated.antt =====
-- page_alloc of pmap.c on a sound memory.
use mathlib.Core.Path.{subst}
use tps_sistemas_operativos.Base.{
  ℕ, ◌+◌, ◌<◌, ◌≡◌, refl, Bool, true, false, inl, inr, Bool-cases, ◌==◌, ==→eq, arith, ap, sym, ◌∙◌,
  update_self, update-ne, none, some, List, [], ◌∷◌,
}
use tps_sistemas_operativos.Sched.Pages.{
  PageInfo, Memory, utop, pdx, ptx, pgnum, clear, taken, alloc_from, page_alloc,
}
use tps_sistemas_operativos.Sched.Pages.Count.{
  Kind, plain, directory, table, is_table, row, refs_same, row_same, row-no_table,
}
use tps_sistemas_operativos.Sched.Pages.Sound.{Has, Refers, Sound}
use tps_sistemas_operativos.Sched.Pages.Entries.{taken-Sound}
use tps_sistemas_operativos.Sched.Pages.Space.{mapping, mapping_same, pdx-lt}

module _ {m : Memory} {held : ℕ → ℕ} {kind : ℕ → Kind} {free : List ℕ} (ok : Sound m held kind free)
    (p : ℕ) (use_ : kind p ≡ plain) where
  -- The words of a directory or table are those from before.
  words_kept : (t : ℕ) → (kind t ≡ plain → ⊥) → (clear p m).words t ≡ m.words t
  words_kept t other = update-ne (m.words) p _ t (λ e. other (ap kind (sym e) ∙ use_))

  rows_kept : (q t : ℕ) → row ((clear p m).words) kind q t ≡ row (m.words) kind q t
  rows_kept q t = elim (Bool-cases (p == t)) [
    | inl e ↦
        let no : is_table (kind t) ≡ false =
          ap (λ x. is_table (kind x)) (sym (==→eq p t e)) ∙ ap is_table use_ in
        row-no_table ((clear p m).words) kind q t no ∙ sym (row-no_table (m.words) kind q t no)
    | inr e ↦
        row_same (m.words) ((clear p m).words) kind kind q t refl
          (update-ne (m.words) p _ t (λ h. ground arith))
  ]

  pub clear-Sound : Sound (clear p m) held kind free
  clear-Sound = record {
    memory = ok.memory;
    chain = ok.chain;
    once = ok.once;
    free_ok = ok.free_ok;
    unlinked = ok.unlinked;
    small = ok.small;
    placed = ok.placed;
    tables = λ d i k lt nonzero.
        let same : (clear p m).words d i ≡ m.words d i =
          ap (λ (r : ℕ → ℕ). r i) (words_kept d (λ h. cc (h, k))) in
        subst (λ w. Refers m kind w (table d i)) (sym same)
          (ok.tables d i k lt (λ z. nonzero (same ∙ z)));
    mapped = λ t d i j k lt nonzero.
        let same : (clear p m).words t j ≡ m.words t j =
          ap (λ (r : ℕ → ℕ). r j) (words_kept t (λ h. cc (h, k))) in
        subst (λ w. Refers m kind w plain) (sym same)
          (ok.mapped t d i j k lt (λ z. nonzero (same ∙ z)));
    counted = λ q k.
        ok.counted q k
        ∙ ap (λ r. held q + r)
            (sym (refs_same (m.npages) (m.words) ((clear p m).words) kind kind q (rows_kept q)));
  }

  pub mapping-clear :
      (d va : ℕ) → kind d ≡ directory → va < utop → mapping (clear p m) d va ≡ mapping m d va
  mapping-clear d va k user =
      mapping_same m (clear p m) d va
        (ap (λ (r : ℕ → ℕ). r (pdx va)) (words_kept d (λ h. cc (h, k))))
        (λ nonzero.
          let use_' = (ok.tables d (pdx va) k (pdx-lt va user) nonzero).1 in
          ap (λ (r : ℕ → ℕ). r (ptx va))
            (words_kept (pgnum (m.words d (pdx va))) (λ h. cc (h, use_'))))

-- page_alloc with ALLOC_ZERO takes the head of the list: a page that is not referred to, cleared, which is
-- not free any more. What is mapped stays, and the memory sound.
pub record Allocated (m m' : Memory) (held : ℕ → ℕ) (kind : ℕ → Kind) (free : List ℕ) (p : ℕ)
    : Type 0 where
  pub sound : Sound m' held kind free
  pub cleared : (i : ℕ) → m'.words p i ≡ 0
  pub inside : p < m'.npages
  pub plain_page : kind p ≡ plain
  pub not_free : Has p free → ⊥
  pub unreferenced : (m'.pages p).pp_ref ≡ 0
  pub directories_same : (d : ℕ) → kind d ≡ directory → m'.words d ≡ m.words d
  pub maps_same : (d va : ℕ) → kind d ≡ directory → va < utop → mapping m' d va ≡ mapping m d va

pub page_alloc-Allocated :
    {m : Memory} {held : ℕ → ℕ} {kind : ℕ → Kind} (p : ℕ) (free : List ℕ)
    → Sound m held kind (p ∷ free)
    → (m' : Memory) × (page_alloc true m ≡ (some p, m')) × Allocated m m' held kind free p
unfolding page_alloc alloc_from mapping
page_alloc-Allocated {m} p free ok =
    let (inside, use_, zero_refs) = ok.free_ok p (inl refl) in
    let rest = taken-Sound p free ok in
    (
      clear p (taken p m),
      ap (λ h. alloc_from h true m) (ok.chain.0),
      record {
        sound = clear-Sound rest p use_;
        cleared = λ i. ap (λ (r : ℕ → ℕ). r i) (update_self (m.words) p _);
        inside = inside;
        plain_page = use_;
        not_free = ok.once.0;
        unreferenced = ap (λ (x : PageInfo). x.pp_ref) (update_self (m.pages) p _) ∙ zero_refs;
        directories_same = λ d k. words_kept rest p use_ d (λ h. cc (h, k));
        maps_same = λ d va k user. mapping-clear rest p use_ d va k user;
      },
    )

pub page_alloc_empty :
    {m : Memory} {held : ℕ → ℕ} {kind : ℕ → Kind} (alloc_zero : Bool)
    → Sound m held kind []
    → page_alloc alloc_zero m ≡ (none, m)
unfolding page_alloc alloc_from
page_alloc_empty {m} alloc_zero ok = ap (λ h. alloc_from h alloc_zero m) (ok.chain)
