-- ===== src/Sched/Pages/Insert.antt =====
-- page_insert of pmap.c.
use tps_sistemas_operativos.Base.{
  ℕ, suc, ◌+◌, ◌*◌, ◌/◌, ◌%◌, ◌<◌, ◌≡◌, ◌≢◌, ◌⊎◌, inl, inr, Bool-cases, ◌==◌, ==→eq, arith, ap, sym,
  ◌∙◌, update, some, List, [], or32, or32-page, or32-one,
}
use tps_sistemas_operativos.Sched.Pages.{
  Memory, store, incref, utop, pdx, ptx, pgnum, pte_of, mapped, failed, e_no_mem, insert_at,
  page_insert, ◌>>=◌,
}
use tps_sistemas_operativos.Sched.Pages.Count.{
  Kind, plain, directory, table, hit, hit_self, hit_ne, hit-no_entry,
}
use tps_sistemas_operativos.Sched.Pages.Sound.{Has, Refers, Sound, set_ref-Sound}
use tps_sistemas_operativos.Sched.Pages.Entries.{store-Sound}
use tps_sistemas_operativos.Sched.Pages.Space.{
  mapping, KeepsOthers, pdx-lt, in_table, mapping-store, store-KeepsOthers,
}
use tps_sistemas_operativos.Sched.Pages.Remove.{page_remove-Removed}
use tps_sistemas_operativos.Sched.Pages.Walk.{Stuck, pgdir_walk-Walked}

pte_of_lem :
    (p perm : ℕ) → p < 1048576 → perm < 4096 → pte_of p perm ≡ p * 4096 + (perm / 2 * 2 + 1)
pte_of_lem p perm lt lt' =
    let first = or32-page p perm lt lt' in
    ap (λ w. or32 w 1) first
    ∙ or32-one (p * 4096 + perm) (omega (arith, lt, lt'))
    ∙ omega (arith, lt, lt')

-- The memory with the page at the address, with these permissions and PTE_P.
pub record Inserted (m m' : Memory) (held : ℕ → ℕ) (kind kind' : ℕ → Kind) (free' : List ℕ)
    (d va p perm : ℕ) : Type 0 where
  pub sound : Sound m' held kind' free'
  pub there : mapping m' d va ≡ p * 4096 + (perm / 2 * 2 + 1)
  pub others : KeepsOthers m m' kind d va
  pub same_directories : (q : ℕ) → kind q ≡ directory → kind' q ≡ directory

-- On the memory that pgdir_walk leaves.
module _ {m : Memory} {held : ℕ → ℕ} {kind : ℕ → Kind} {free : List ℕ} (ok : Sound m held kind free)
    (d va p perm : ℕ) (is_dir : kind d ≡ directory) (user : va < utop)
    (has_table : m.words d (pdx va) ≢ 0) (inside : p < m.npages) (use_ : kind p ≡ plain)
    (out : Has p free → ⊥) (few : (m.pages p).pp_ref < 65535) (bits : perm < 4096) where
  abbrev t : ℕ
  t = pgnum (m.words d (pdx va))

  more : Sound (incref p m) (update held p (suc (held p))) kind free
  more =
      set_ref-Sound ok p (((m.pages p).pp_ref + 1) % 65536) (suc (held p)) (omega arith) out
        (λ k. omega (arith, few, ok.counted p use_))

  value : pte_of p perm ≡ p * 4096 + (perm / 2 * 2 + 1)
  value = pte_of_lem p perm (omega (arith, inside, ok.memory)) bits

  fits :
      (v : ℕ)
      → v ≢ 0
      → v / 4096 ≡ p
      → (q : ℕ) → update held p (suc (held p)) q + hit 0 q ≡ held q + hit v q
  fits v nonzero is q = elim (Bool-cases (p == q)) [
    | inl e ↦
        let same : p ≡ q = ==→eq p q e in
        rw e (omega (arith, hit_self v q nonzero (is ∙ same), hit-no_entry q, ap held same))
    | inr e ↦
        let ne : p ≢ q = (λ (h : p ≡ q). ground arith) in
        rw e (omega (arith, hit_ne v q (λ h. ne (sym is ∙ h)), hit-no_entry q))
  ]

  use_t : kind t ≡ table d (pdx va)
  use_t = (ok.tables d (pdx va) is_dir (pdx-lt va user) has_table).1

  pub inserted :
      (m' : Memory) × (free' : List ℕ) × (insert_at d p va perm (some (t, ptx va), m)
        ≡ some (mapped m'))
      × Inserted m m' held kind kind free' d va p perm
  unfolding insert_at mapping
  inserted =
      let (m2, free2, ends, gone) = page_remove-Removed more d va is_dir user in
      let same_entry : m2.words d (pdx va) ≡ m.words d (pdx va) =
        ap (λ (r : ℕ → ℕ). r (pdx va)) (gone.dir_same) in
      let there2 : m2.words d (pdx va) ≢ 0 = (λ z. has_table (sym same_entry ∙ z)) in
      let v = pte_of p perm in
      let v_page : v / 4096 ≡ p = omega (arith, value, bits) in
      let v_nonzero : v ≢ 0 = (λ z. omega (arith, sym value ∙ z)) in
      let empty : m2.words t (ptx va) ≡ 0 =
        ap (λ w. m2.words (pgnum w) (ptx va)) (sym same_entry)
        ∙ sym (in_table m2 d va there2)
        ∙ gone.unmapped in
      let refers : Refers m2 kind v plain =
        (rw (v_page, gone.npages_same) inside, ap kind v_page ∙ use_) in
      (
        store t (ptx va) v m2,
        free2,
        ap (λ o. o >>= λ m'. some (mapped (store t (ptx va) v m'))) ends,
        record {
          sound =
              store-Sound (gone.sound) t d (pdx va) (ptx va) v held use_t (omega arith)
                (λ z. refers)
                (λ q k.
                  ap (λ w. update held p (suc (held p)) q + hit w q) empty
                  ∙ fits v v_nonzero v_page q);
          there =
              mapping-store (gone.sound) d va is_dir user t v use_t there2
                (ap pgnum (sym same_entry))
              ∙ value;
          others = λ d' va' k user' other.
              store-KeepsOthers (gone.sound) d va is_dir user t v use_t d' va' k user' other
              ∙ gone.others d' va' k user' other;
          same_directories = λ q k. k;
        },
      )

-- page_insert of a page that is neither free, nor a table or directory, nor referred to 65535 times, at an
-- address of an environment, with permissions of twelve bits, on a sound memory. If no page is free and the
-- address has no page table, it returns -E_NO_MEM and leaves the memory as it was. Otherwise it maps the address to the page with these
-- permissions and PTE_P, leaves every other page of every environment as it was and the memory sound: each
-- page is counted as often as it is mapped.
pub page_insert-Inserted :
    {m : Memory} {held : ℕ → ℕ} {kind : ℕ → Kind} (free : List ℕ) (ok : Sound m held kind free)
    (d va p perm : ℕ)
    → kind d ≡ directory
    → va < utop
    → p < m.npages
    → kind p ≡ plain
    → (Has p free → ⊥)
    → (m.pages p).pp_ref < 65535
    → perm < 4096
    → (Stuck m d va free × (page_insert d p va perm m ≡ some (failed e_no_mem m)))
      ⊎ ((Stuck m d va free → ⊥)
          × (m' : Memory) × (kind' : ℕ → Kind) × (free' : List ℕ) × (page_insert d p va perm m
              ≡ some (mapped m'))
          × Inserted m m' held kind kind' free' d va p perm)
unfolding page_insert insert_at
page_insert-Inserted {m} {held} {kind} free ok d va p perm is_dir user inside use_ out few bits =
    elim (pgdir_walk-Walked free ok d va is_dir user) [
      | inl (stuck, fails) ↦ inl (stuck, ap (λ o. o >>= insert_at d p va perm) fails)
      | inr (can, (m1, kind1, free1, walks, walked)) ↦
          let still = λ (q : ℕ) (k : kind q ≡ directory).
            walked.kind_kept q (λ at. cc ((ok.free_ok q at).1, k)) ∙ k in
          let (m', free', ends, done_) =
            inserted (walked.sound) d va p perm (still d is_dir) user (walked.has_table)
              (rw (walked.npages_same) inside) (walked.kind_kept p out ∙ use_)
              (λ at. out (walked.fewer p at)) (rw (walked.pages_kept p out) few) bits in
          inr (
            can,
            m',
            kind1,
            free',
            ap (λ o. o >>= insert_at d p va perm) walks ∙ ends,
            record {
              sound = done_.sound;
              there = done_.there;
              others = λ d' va' k user' other.
                  done_.others d' va' (still d' k) user' other ∙ walked.maps_same d' va' k user';
              same_directories = still;
            },
          )
    ]

-- With any permissions.
module _ {m : Memory} {held : ℕ → ℕ} {kind : ℕ → Kind} {free : List ℕ} (ok : Sound m held kind free)
    (d va p : ℕ) (is_dir : kind d ≡ directory) (user : va < utop)
    (has_table : m.words d (pdx va) ≢ 0) (inside : p < m.npages) (use_ : kind p ≡ plain)
    (out : Has p free → ⊥) (few : (m.pages p).pp_ref < 65535) where
  inserted_there :
      (perm : ℕ)
      → (m' : Memory) × (insert_at d p va perm (some (pgnum (m.words d (pdx va)), ptx va), m)
          ≡ some (mapped m'))
        × (mapping m' d va ≡ pte_of p perm)
  unfolding insert_at
  inserted_there perm =
      let more =
        set_ref-Sound ok p (((m.pages p).pp_ref + 1) % 65536) (suc (held p)) (omega arith) out
          (λ k. omega (arith, few, ok.counted p use_)) in
      let (m2, free2, ends, gone) = page_remove-Removed more d va is_dir user in
      let same_entry : m2.words d (pdx va) ≡ m.words d (pdx va) =
        ap (λ (r : ℕ → ℕ). r (pdx va)) (gone.dir_same) in
      let there2 : m2.words d (pdx va) ≢ 0 = (λ z. has_table (sym same_entry ∙ z)) in
      let t = pgnum (m.words d (pdx va)) in
      (
        store t (ptx va) (pte_of p perm) m2,
        ap (λ o. o >>= λ m'. some (mapped (store t (ptx va) (pte_of p perm) m'))) ends,
        mapping-store (gone.sound) d va is_dir user t (pte_of p perm)
            ((ok.tables d (pdx va) is_dir (pdx-lt va user) has_table).1) there2
            (ap pgnum (sym same_entry)),
      )

-- Whatever the permissions, the address gets `page2pa(pp) | perm | PTE_P`, or no page is free.
pub page_insert-there :
    {m : Memory} {held : ℕ → ℕ} {kind : ℕ → Kind} (free : List ℕ) (ok : Sound m held kind free)
    (d va p perm : ℕ)
    → kind d ≡ directory
    → va < utop
    → p < m.npages
    → kind p ≡ plain
    → (Has p free → ⊥)
    → (m.pages p).pp_ref < 65535
    → ((free ≡ []) × (page_insert d p va perm m ≡ some (failed e_no_mem m)))
      ⊎ ((m' : Memory) × (page_insert d p va perm m ≡ some (mapped m'))
          × (mapping m' d va ≡ pte_of p perm))
unfolding page_insert insert_at
page_insert-there {m} {held} {kind} free ok d va p perm is_dir user inside use_ out few =
    elim (pgdir_walk-Walked free ok d va is_dir user) [
      | inl (stuck, fails) ↦ inl (stuck.0, ap (λ o. o >>= insert_at d p va perm) fails)
      | inr (can, (m1, kind1, free1, walks, walked)) ↦
          let (m', ends, there) =
            inserted_there (walked.sound) d va p
              (walked.kind_kept d (λ at. cc ((ok.free_ok d at).1, is_dir)) ∙ is_dir) user
              (walked.has_table) (rw (walked.npages_same) inside) (walked.kind_kept p out ∙ use_)
              (λ at. out (walked.fewer p at)) (rw (walked.pages_kept p out) few) perm in
          inr (m', ap (λ o. o >>= insert_at d p va perm) walks ∙ ends, there)
    ]
