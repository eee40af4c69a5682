-- ===== src/Sched/Pages/Samples.antt =====
-- A memory of eight pages for the tests: page 1 is a directory, page 5 its first table, which maps the first
-- page of the address space to page 4; pages 2 and 3 are free.
use tps_sistemas_operativos.Base.{
  ℕ, ◌<◌, ◌≡◌, ◌≢◌, refl, inl, inr, Bool-cases, ◌==◌, ==→eq, arith, ap, sym, ◌∙◌, none, some, List,
  [], ◌∷◌, update, update-ne, update-elim,
}
use tps_sistemas_operativos.Sched.Pages.{PageInfo, Memory, store, set_ref}
use tps_sistemas_operativos.Sched.Pages.Count.{
  Kind, plain, directory, table, is_table, hit_self, hit_ne, hit-no_entry, row, refs_zero,
  row-no_table, row_empty,
}
use tps_sistemas_operativos.Sched.Pages.Sound.{Has, Refers, Sound, set_ref-Sound}
use tps_sistemas_operativos.Sched.Pages.Entries.{store-Sound}

abbrev no_page : PageInfo
no_page = record { pp_link = none; pp_ref = 0 }

abbrev before : Memory
before = record {
  npages = 8;
  pages = update (λ p. no_page) 2 (record { pp_link = some 3; pp_ref = 0 });
  page_free_list = some 2;
  words = update (λ t i. 0) 1 (update (λ i. 0) 0 20487);
}

abbrev pub kinds : ℕ → Kind
kinds = update (update (λ p. plain) 1 directory) 5 (table 1 0)

abbrev pub free_pages : List ℕ
free_pages = 2 ∷ 3 ∷ []

kind_dir : (d : ℕ) → kinds d ≡ directory → 1 ≡ d
kind_dir =
    update-elim (λ (q : ℕ) (k : Kind). k ≡ directory → 1 ≡ q) (update (λ p. plain) 1 directory) 5
      (table 1 0) (λ k. cc (k))
      (λ j ne.
        update-elim (λ (q : ℕ) (k : Kind). k ≡ directory → 1 ≡ q) (λ p. plain) 1 directory
          (λ k. refl) (λ j' ne' k. cc (k)) j)

kind_table : (t d i : ℕ) → kinds t ≡ table d i → (5 ≡ t) × (1 ≡ d) × (0 ≡ i)
kind_table t d i =
    update-elim (λ (q : ℕ) (k : Kind). k ≡ table d i → (5 ≡ q) × (1 ≡ d) × (0 ≡ i))
      (update (λ p. plain) 1 directory) 5 (table 1 0) (λ k. (refl, cc (k), cc (k)))
      (λ j ne.
        update-elim (λ (q : ℕ) (k : Kind). k ≡ table d i → (5 ≡ q) × (1 ≡ d) × (0 ≡ i)) (λ p. plain)
          1 directory (λ k. cc (k)) (λ j' ne' k. cc (k)) j)
      t

no_words : (t j : ℕ) → 1 ≢ t → before.words t j ≡ 0
no_words t j ne = ap (λ (r : ℕ → ℕ). r j) (update-ne (λ t' i. 0) 1 _ t ne)

rows_empty : (p t : ℕ) → row (before.words) kinds p t ≡ 0
rows_empty p t = elim (Bool-cases (1 == t)) [
  | inl e ↦ row-no_table (before.words) kinds p t (ap (λ x. is_table (kinds x)) (sym (==→eq 1 t e)))
  | inr e ↦ row_empty (before.words) kinds p t (λ j. no_words t j (λ h. ground arith))
]

first_entry : (i : ℕ) → before.words 1 i ≢ 0 → (0 ≡ i) × (before.words 1 i ≡ 20487)
first_entry =
    update-elim (λ (i' : ℕ) (w : ℕ). w ≢ 0 → (0 ≡ i') × (w ≡ 20487)) (λ i'. 0) 0 20487
      (λ nz. (refl, refl)) (λ j ne nz. absurd (nz refl))

tables_there :
    (d i : ℕ)
    → kinds d ≡ directory
    → before.words d i ≢ 0
    → Refers before kinds (before.words d i) (table d i)
tables_there d i k nonzero =
    let at : 1 ≡ d = kind_dir d k in
    rw (← at) (
      let (first, is) = first_entry i (λ z. nonzero (ap (λ x. before.words x i) (sym at) ∙ z)) in
      rw is (omega arith, ap (λ x. table 1 x) first))

before-Sound : Sound before (λ p. 0) kinds free_pages
before-Sound = record {
  memory = omega arith;
  chain = (refl, (refl, refl));
  once = ((λ at. elim at [ inl e ↦ omega (arith, e) | inr h ↦ absurd h ]), ((λ at. absurd at), tt));
  free_ok = λ p at. elim at [
    | inl e ↦ rw e (omega arith, refl, refl)
    | inr h ↦ elim h [ inl e ↦ rw e (omega arith, refl, refl) | inr h' ↦ absurd h' ]
  ];
  unlinked = λ p out.
      ap (λ (x : PageInfo). x.pp_link) (update-ne (λ q. no_page) 2 _ p (λ e. out (inl (sym e))));
  small =
      update-elim (λ (q : ℕ) (x : PageInfo). x.pp_ref < 65536) (λ q. no_page) 2 _ (omega arith)
        (λ j ne. omega arith);
  placed = λ t d i k. omega (arith, (kind_table t d i k).0);
  tables = λ d i k lt nonzero. tables_there d i k nonzero;
  mapped = λ t d i j k lt nonzero.
      absurd (nonzero (no_words t j (λ e. omega (arith, e, (kind_table t d i k).0))));
  counted = λ p k.
      let none_there = refs_zero 8 (before.words) kinds p (rows_empty p) in
      update-elim (λ (q : ℕ) (x : PageInfo). x.pp_ref ≡ 0) (λ q. no_page) 2 _ refl (λ j ne. refl) p
      ∙ omega (arith, none_there);
}

abbrev pub sample : Memory
sample = store 5 0 16391 (set_ref 4 1 before)

-- With its one reference to page 4.
pub sample-Sound : Sound sample (λ p. 0) kinds free_pages
sample-Sound =
    let outside : Has 4 free_pages → ⊥ = (λ at. elim at [
      | inl e ↦ omega (arith, e)
      | inr h ↦ elim h [ inl e ↦ omega (arith, e) | inr h' ↦ absurd h' ]
    ]) in
    let counted_one =
      set_ref-Sound before-Sound 4 1 1 (omega arith) outside
        (λ k. omega (arith, refs_zero 8 (before.words) kinds 4 (rows_empty 4))) in
    store-Sound counted_one 5 1 0 0 16391 (λ p. 0) refl (omega arith) (λ nz. (omega arith, refl))
      (λ p k. elim (Bool-cases (4 == p)) [
        | inl e ↦ rw e (omega (arith, hit_self 16391 p (omega arith) (==→eq 4 p e), hit-no_entry p))
        | inr e ↦ rw e (omega (arith, hit_ne 16391 p (λ h. ground arith), hit-no_entry p))
      ])
