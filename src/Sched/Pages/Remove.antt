-- ===== src/Sched/Pages/Remove.antt =====
-- page_lookup and page_remove of pmap.c.
use tps_sistemas_operativos.Base.{
  ℕ, suc, ◌+◌, ◌<◌, ◌≡◌, ◌≢◌, refl, true, false, inl, inr, Bool-cases, ◌==◌, ==→eq, eq→==, ltb,
  lt→ltb, arith, ap, sym, ◌∙◌, update, update_self, update-ne, none, some, List,
}
use tps_sistemas_operativos.Sched.Pages.{
  Memory, store, utop, pdx, ptx, pgnum, pa2page, table_entry, lookup_at, page_lookup, remove_found,
  page_remove, ◌>>=◌,
}
use tps_sistemas_operativos.Sched.Pages.Count.{
  Kind, plain, directory, is_table, hit, hit-le-refs, hit_self, hit_ne, hit-no_entry,
}
use tps_sistemas_operativos.Sched.Pages.Sound.{Has, Sound, held-Sound}
use tps_sistemas_operativos.Sched.Pages.Entries.{store-Sound}
use tps_sistemas_operativos.Sched.Pages.Decref.{page_decref-store, page_decref-Released}
use tps_sistemas_operativos.Sched.Pages.Space.{
  mapping, mapping-words, KeepsOthers, pdx-lt, no_table, in_table, mapping-store, store-KeepsOthers,
}

-- What page_remove leaves: nothing at the address, everything else as before.
pub record Removed (m m' : Memory) (held : ℕ → ℕ) (kind : ℕ → Kind) (free' : List ℕ) (d va : ℕ)
    : Type 0 where
  pub sound : Sound m' held kind free'
  pub unmapped : mapping m' d va ≡ 0
  pub others : KeepsOthers m m' kind d va
  pub dir_same : m'.words d ≡ m.words d
  pub npages_same : m'.npages ≡ m.npages

module _ {m : Memory} {held : ℕ → ℕ} {kind : ℕ → Kind} {free : List ℕ} (ok : Sound m held kind free)
    (d va : ℕ) (is_dir : kind d ≡ directory) (user : va < utop) where
  abbrev dir_entry : ℕ
  dir_entry = m.words d (pdx va)

  abbrev t : ℕ
  t = pgnum dir_entry

  abbrev v : ℕ
  v = m.words t (ptx va)

  pub table_entry-none : dir_entry ≡ 0 → table_entry d va m ≡ some none
  unfolding table_entry
  table_entry-none e = rw (eq→== _ 0 e) refl

  pub table_entry-some : dir_entry ≢ 0 → table_entry d va m ≡ some (some (t, ptx va))
  unfolding table_entry pa2page
  table_entry-some nonzero =
      let (lt, use_) = ok.tables d (pdx va) is_dir (pdx-lt va user) nonzero in
      let some_table : (dir_entry == 0) ≡ false = ground arith in
      let inside : ltb (pgnum dir_entry) (m.npages) ≡ true = lt→ltb _ _ lt in
      rw (some_table, inside) refl

  pub page_lookup-none : mapping m d va ≡ 0 → page_lookup d va m ≡ some none
  unfolding page_lookup
  page_lookup-none e = elim (Bool-cases (dir_entry == 0)) [
    | inl z ↦ ap (λ o. o >>= lookup_at m) (table_entry-none (==→eq _ 0 z))
    | inr z ↦
        let nonzero : dir_entry ≢ 0 = (λ (h : dir_entry ≡ 0). ground arith) in
        let empty : v ≡ 0 = sym (in_table m d va nonzero) ∙ e in
        ap (λ o. o >>= lookup_at m) (table_entry-some nonzero) ∙ rw (eq→== _ 0 empty) refl
  ]

  pub page_lookup-some :
      dir_entry ≢ 0 → v ≢ 0 → page_lookup d va m ≡ some (some (pgnum v, (t, ptx va)))
  unfolding page_lookup pa2page
  page_lookup-some nonzero full =
      let (lt, use_) = ok.tables d (pdx va) is_dir (pdx-lt va user) nonzero in
      let (lt', use_') = ok.mapped t d (pdx va) (ptx va) use_ (omega arith) full in
      let some_page : (v == 0) ≡ false = ground arith in
      let inside : ltb (pgnum v) (m.npages) ≡ true = lt→ltb _ _ lt' in
      ap (λ o. o >>= lookup_at m) (table_entry-some nonzero) ∙ rw (some_page, inside) refl

  -- A page that is mapped: it is in the array, neither free nor a table, and page_lookup finds it.
  pub page_lookup-mapping :
      mapping m d va ≢ 0
      → (page_lookup d va m ≡ some (some (pgnum (mapping m d va), (t, ptx va))))
        × (pgnum (mapping m d va) < m.npages)
        × (kind (pgnum (mapping m d va)) ≡ plain)
        × (Has (pgnum (mapping m d va)) free → ⊥)
        × (m.words t (ptx va) ≡ mapping m d va)
  page_lookup-mapping full =
      let nonzero : dir_entry ≢ 0 = (λ z. full (no_table m d va z)) in
      let same : mapping m d va ≡ v = in_table m d va nonzero in
      let some_word : v ≢ 0 = (λ z. full (same ∙ z)) in
      let (lt, use_) = ok.tables d (pdx va) is_dir (pdx-lt va user) nonzero in
      let (lt', use_') = ok.mapped t d (pdx va) (ptx va) use_ (omega arith) some_word in
      let counted_once =
        hit-le-refs (m.npages) (m.words) kind t (ptx va) (pgnum v) lt (omega arith)
          (ap is_table use_) in
      let once = hit_self v (pgnum v) some_word refl in
      rw same (
        page_lookup-some nonzero some_word,
        lt',
        use_',
        λ at.
            omega
              (arith, counted_once, once, ok.counted (pgnum v) use_', (ok.free_ok (pgnum v) at).2),
        refl,
      )

  -- Another reference stands for the entry that goes.
  fits :
      v ≢ 0 → (q : ℕ) → held q + hit v q ≡ update held (pgnum v) (suc (held (pgnum v))) q + hit 0 q
  fits full q = elim (Bool-cases (pgnum v == q)) [
    | inl e ↦
        let same : pgnum v ≡ q = ==→eq _ q e in
        rw (e) (omega (arith, hit_self v q full same, hit-no_entry q, ap held same))
    | inr e ↦ rw e (omega (arith, hit_ne v q (λ h. ground arith), hit-no_entry q))
  ]

  emptied :
      dir_entry ≢ 0
      → v ≢ 0
      → Sound (store t (ptx va) 0 m) (update held (pgnum v) (suc (held (pgnum v)))) kind free
  emptied nonzero full =
      let (lt, use_) = ok.tables d (pdx va) is_dir (pdx-lt va user) nonzero in
      store-Sound ok t d (pdx va) (ptx va) 0 (update held (pgnum v) (suc (held (pgnum v)))) use_
        (omega arith) (λ z. absurd (z refl)) (λ q k. fits full q)

  back :
      (q : ℕ)
      → update (update held (pgnum v) (suc (held (pgnum v)))) (pgnum v) (held (pgnum v)) q ≡ held q
  back q = elim (Bool-cases (pgnum v == q)) [
    | inl e ↦ rw e (ap held (==→eq _ q e))
    | inr e ↦ rw e refl
  ]

  already : mapping m d va ≡ 0 → Removed m m held kind free d va
  already e = record {
    sound = ok;
    unmapped = e;
    others = λ d' va' k user' other. refl;
    dir_same = refl;
    npages_same = refl;
  }

  abbrev Removes : Type 0
  Removes =
      (m' : Memory) × (free' : List ℕ) × (page_remove d va m ≡ some m')
      × Removed m m' held kind free' d va

  remove_none : mapping m d va ≡ 0 → Removes
  unfolding page_remove remove_found
  remove_none e = (m, free, ap (λ o. o >>= remove_found m) (page_lookup-none e), already e)

  remove_some : dir_entry ≢ 0 → v ≢ 0 → Removes
  unfolding page_remove remove_found
  remove_some nonzero full =
      let (lt, use_) = ok.tables d (pdx va) is_dir (pdx-lt va user) nonzero in
      let (lt', use_') = ok.mapped t d (pdx va) (ptx va) use_ (omega arith) full in
      let (m', free', ends, gone) =
        page_decref-Released (emptied nonzero full) (pgnum v) (held (pgnum v)) use_' lt'
          (update_self held (pgnum v) _) in
      (
        m',
        free',
        ap (λ o. o >>= remove_found m) (page_lookup-some nonzero full)
            ∙ sym (page_decref-store (pgnum v) t (ptx va) 0 m)
            ∙ ends,
        record {
          sound = held-Sound _ held back (gone.sound);
          unmapped =
              mapping-words (store t (ptx va) 0 m) m' d va (gone.same_words)
              ∙ mapping-store ok d va is_dir user t 0 use_ nonzero refl;
          others = λ d' va' k user' other.
              mapping-words (store t (ptx va) 0 m) m' d' va' (gone.same_words)
              ∙ store-KeepsOthers ok d va is_dir user t 0 use_ d' va' k user' other;
          dir_same =
              ap (λ (w : ℕ → ℕ → ℕ). w d) (gone.same_words)
              ∙ update-ne (m.words) t _ d (λ e. cc (ap kind e, use_, is_dir));
          npages_same = gone.same_npages;
        },
      )

  -- On a sound memory, for an address of an environment: page_remove does not panic, leaves nothing mapped
  -- at the address and every other page of every environment as it was, and the memory sound.
  pub page_remove-Removed : Removes
  page_remove-Removed = elim (Bool-cases (dir_entry == 0)) [
    | inl z ↦ remove_none (no_table m d va (==→eq _ 0 z))
    | inr z ↦
        let nonzero : dir_entry ≢ 0 = (λ (h : dir_entry ≡ 0). ground arith) in
        elim (Bool-cases (v == 0)) [
          | inl e ↦ remove_none (in_table m d va nonzero ∙ ==→eq v 0 e)
          | inr e ↦ remove_some nonzero (λ (h : v ≡ 0). ground arith)
        ]
  ]
