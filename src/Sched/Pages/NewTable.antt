-- ===== src/Sched/Pages/NewTable.antt =====
-- That a new page table keeps the memory of pmap.c sound.
use mathlib.Core.Path.{subst}
use tps_sistemas_operativos.Base.{
  ℕ, ◌+◌, ◌*◌, ◌/◌, ◌<◌, ◌≡◌, ◌≢◌, refl, false, inl, inr, Bool-cases, ◌==◌, ==→eq, arith, ap, sym,
  ◌∙◌, update, update_self, update-ne, update-elim, none, List, or32, or32-page,
}
use tps_sistemas_operativos.Sched.Pages.{PageInfo, Memory, store, clear, set_ref}
use tps_sistemas_operativos.Sched.Pages.Count.{
  Kind, plain, directory, table, is_table, row, refs, hit-le-refs, hit-zero, refs_same, row_same,
  row-no_table, row_empty,
}
use tps_sistemas_operativos.Sched.Pages.Sound.{Has, Has_ne, Refers, Sound, Chain-update}

-- The memory with page `p` as the new table of that entry of the directory.
abbrev pub tabled : Memory → ℕ → ℕ → ℕ → Memory
tabled m d i p = store d i (or32 (p * 4096) 7) (set_ref p 1 (clear p m))

module _ {m : Memory} {held : ℕ → ℕ} {kind : ℕ → Kind} {free : List ℕ} (ok : Sound m held kind free)
    (d i p : ℕ) (is_dir : kind d ≡ directory) (inside : p < m.npages) (out : Has p free → ⊥)
    (unused : kind p ≡ plain) (none_left : (m.pages p).pp_ref ≡ 0) where
  abbrev words' : ℕ → ℕ → ℕ
  words' = (tabled m d i p).words

  abbrev kind' : ℕ → Kind
  kind' = update kind p (table d i)

  abbrev value : ℕ
  value = or32 (p * 4096) 7

  pub page_of_value : value / 4096 ≡ p
  page_of_value =
      let it : value ≡ p * 4096 + 7 =
        or32-page p 7 (omega (arith, inside, ok.memory)) (omega arith) in
      omega (arith, it)

  pub apart : d ≢ p
  apart same = cc (ap kind same, is_dir, unused)

  kind_self : kind' p ≡ table d i
  kind_self = update_self kind p (table d i)

  pub kind_ne : (q : ℕ) → p ≢ q → kind' q ≡ kind q
  kind_ne q ne = update-ne kind p (table d i) q ne

  -- A page that is not a table now was not one, and is another page.
  kind_back : (q : ℕ) (k : Kind) → is_table k ≡ false → kind' q ≡ k → (p ≢ q) × (kind q ≡ k)
  kind_back q k no_table is =
      let ne : p ≢ q = (λ (e : p ≡ q).
        cc (ap kind' e, kind_self, is, no_table, ap is_table kind_self, ap is_table is)) in
      (ne, sym (kind_ne q ne) ∙ is)

  pub word_new : (j : ℕ) → words' p j ≡ 0
  word_new j =
      ap (λ (r : ℕ → ℕ). r j)
        (update-ne (update (m.words) p (λ k. 0)) d _ p apart ∙ update_self (m.words) p (λ k. 0))

  pub word_ne : (t : ℕ) → d ≢ t → p ≢ t → words' t ≡ m.words t
  word_ne t ned nep =
      update-ne (update (m.words) p (λ k. 0)) d _ t ned ∙ update-ne (m.words) p (λ k. 0) t nep

  pub row_dir : words' d ≡ update (m.words d) i value
  row_dir =
      update_self (update (m.words) p (λ k. 0)) d _
      ∙ ap (λ (r : ℕ → ℕ). update r i value) (update-ne (m.words) p (λ k. 0) d (λ e. apart (sym e)))

  pub entry_new : words' d i ≡ p * 4096 + 7
  entry_new =
      ap (λ (r : ℕ → ℕ). r i) row_dir
      ∙ update_self (m.words d) i value
      ∙ or32-page p 7 (omega (arith, inside, ok.memory)) (omega arith)

  no_refs : refs (m.npages) (m.words) kind p ≡ 0
  no_refs = omega (arith, ok.counted p unused, none_left)

  row_kept : (q t : ℕ) → row words' kind' q t ≡ row (m.words) kind q t
  row_kept q t = elim (Bool-cases (p == t)) [
    | inl e ↦
        let same : p ≡ t = ==→eq p t e in
        rw (← same) (
          row_empty words' kind' q p word_new
          ∙ sym (row-no_table (m.words) kind q p (ap is_table unused)))
    | inr e ↦
        let ne : p ≢ t = (λ (h : p ≡ t). ground arith) in
        elim (Bool-cases (d == t)) [
          | inl f ↦
              let same : d ≡ t = ==→eq d t f in
              rw (← same) (
                row-no_table words' kind' q d
                  (ap is_table (kind_ne d (λ h. apart (sym h)) ∙ is_dir))
                ∙ sym (row-no_table (m.words) kind q d (ap is_table is_dir)))
          | inr f ↦
              let ned : d ≢ t = (λ (h : d ≡ t). ground arith) in
              row_same (m.words) words' kind kind' q t (kind_ne t ne) (word_ne t ned ne)
        ]
  ]

  refs_kept : (q : ℕ) → refs (m.npages) words' kind' q ≡ refs (m.npages) (m.words) kind q
  refs_kept q = refs_same (m.npages) (m.words) words' kind kind' q (row_kept q)

  -- An old reference still leads to a page of that use.
  Refers-kept :
      (v : ℕ) (k : Kind) → p ≢ v / 4096 → Refers m kind v k → Refers (tabled m d i p) kind' v k
  Refers-kept v k ne (lt, use_) = (lt, kind_ne (v / 4096) ne ∙ use_)

  old_tables :
      (d' i' : ℕ)
      → kind d' ≡ directory
      → i' < 955
      → m.words d' i' ≢ 0
      → Refers (tabled m d i p) kind' (m.words d' i') (table d' i')
  old_tables d' i' is lt nonzero =
      let to = ok.tables d' i' is lt nonzero in
      Refers-kept (m.words d' i') (table d' i') (λ e. cc (ap kind e, unused, to.1)) to

  old_mapped :
      (t d' i' j : ℕ)
      → kind t ≡ table d' i'
      → j < 1024
      → m.words t j ≢ 0
      → Refers (tabled m d i p) kind' (m.words t j) plain
  old_mapped t d' i' j is lt nonzero =
      let few =
        hit-le-refs (m.npages) (m.words) kind t j p (ok.placed t d' i' is) lt (ap is_table is) in
      Refers-kept (m.words t j) plain
        (hit-zero (m.words t j) p nonzero (omega (arith, few, no_refs)))
        (ok.mapped t d' i' j is lt nonzero)

  Refers_new : Refers (tabled m d i p) kind' value (table d i)
  Refers_new = (rw page_of_value inside, ap kind' page_of_value ∙ kind_self)

  new_tables :
      (d' i' : ℕ)
      → kind' d' ≡ directory
      → i' < 955
      → words' d' i' ≢ 0
      → Refers (tabled m d i p) kind' (words' d' i') (table d' i')
  new_tables d' i' k lt nonzero =
      let (ne, was) = kind_back d' directory refl k in
      let kept = λ (e : words' d' i' ≡ m.words d' i').
        subst (λ w. Refers (tabled m d i p) kind' w (table d' i')) (sym e)
          (old_tables d' i' was lt (λ z. nonzero (e ∙ z))) in
      elim (Bool-cases (d == d')) [
        | inl e ↦
            let same : d ≡ d' = ==→eq d d' e in
            let at : words' d' i' ≡ update (m.words d') i value i' =
              ap (λ x. words' x i') (sym same)
              ∙ ap (λ (r : ℕ → ℕ). r i') row_dir
              ∙ ap (λ x. update (m.words x) i value i') same in
            elim (Bool-cases (i == i')) [
              | inl f ↦
                  let same' : i ≡ i' = ==→eq i i' f in
                  subst (λ w. Refers (tabled m d i p) kind' w (table d' i')) (sym (at ∙ rw f refl))
                    (
                      Refers_new.0,
                      Refers_new.1 ∙ ap (λ x. table x i) same ∙ ap (λ x. table d' x) same',
                    )
              | inr f ↦ kept (at ∙ rw f refl)
            ]
        | inr e ↦ kept (ap (λ (r : ℕ → ℕ). r i') (word_ne d' (λ h. ground arith) ne))
      ]

  new_mapped :
      (t d' i' j : ℕ)
      → kind' t ≡ table d' i'
      → j < 1024
      → words' t j ≢ 0
      → Refers (tabled m d i p) kind' (words' t j) plain
  new_mapped t d' i' j k lt nonzero = elim (Bool-cases (p == t)) [
    | inl e ↦ absurd (nonzero (ap (λ x. words' x j) (sym (==→eq p t e)) ∙ word_new j))
    | inr e ↦
        let ne : p ≢ t = (λ (h : p ≡ t). ground arith) in
        let was : kind t ≡ table d' i' = sym (kind_ne t ne) ∙ k in
        let same : words' t j ≡ m.words t j =
          ap (λ (r : ℕ → ℕ). r j) (word_ne t (λ h. cc (ap kind h, is_dir, was)) ne) in
        subst (λ w. Refers (tabled m d i p) kind' w plain) (sym same)
          (old_mapped t d' i' j was lt (λ z. nonzero (same ∙ z)))
  ]

  pub tabled-Sound : Sound (tabled m d i p) held kind' free
  tabled-Sound =
      let info : PageInfo = record (m.pages p) { pp_ref = 1 } in
      record {
        memory = ok.memory;
        chain = Chain-update (m.pages) p info (m.page_free_list) free out (ok.chain);
        once = ok.once;
        free_ok = λ q at.
            let ne : p ≢ q = Has_ne p q free out at in
            let (inside', use_, zero_refs) = ok.free_ok q at in
            (
              inside',
              kind_ne q ne ∙ use_,
              ap (λ (x : PageInfo). x.pp_ref) (update-ne (m.pages) p info q ne) ∙ zero_refs,
            );
        unlinked =
            update-elim (λ (q' : ℕ) (x : PageInfo). (Has q' free → ⊥) → x.pp_link ≡ none) (m.pages)
              p info (ok.unlinked p) (λ q' ne. ok.unlinked q');
        small =
            update-elim (λ (q' : ℕ) (x : PageInfo). x.pp_ref < 65536) (m.pages) p info (omega arith)
              (λ q' ne. ok.small q');
        placed = λ t d' i' k. elim (Bool-cases (p == t)) [
          | inl e ↦ rw (← ==→eq p t e) inside
          | inr e ↦
              let ne : p ≢ t = (λ (h : p ≡ t). ground arith) in
              ok.placed t d' i' (sym (kind_ne t ne) ∙ k)
        ];
        tables = new_tables;
        mapped = new_mapped;
        counted = λ q use_.
            let (ne, was) = kind_back q plain refl use_ in
            ap (λ (x : PageInfo). x.pp_ref) (update-ne (m.pages) p info q ne)
            ∙ ok.counted q was
            ∙ ap (λ r. held q + r) (sym (refs_kept q));
      }
