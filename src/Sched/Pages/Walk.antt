-- ===== src/Sched/Pages/Walk.antt =====
-- pgdir_walk of pmap.c with `create`: the table of an address, made from a free page where there is none.
use tps_sistemas_operativos.Base.{
  ℕ, ◌+◌, ◌*◌, ◌%◌, ◌<◌, ◌≡◌, ◌≢◌, ◌⊎◌, refl, true, false, inl, inr, Bool-cases, ◌==◌, ==→eq, eq→==,
  arith, ap, sym, ◌∙◌, update, update_self, update-ne, none, some, List, [], ◌∷◌, length, or32,
}
use tps_sistemas_operativos.Sched.Pages.{
  PageInfo, Memory, store, clear, taken, set_ref, utop, pdx, ptx, pgnum, put_table, alloc_from,
  page_alloc, table_entry, with_table, pgdir_walk, ◌>>=◌,
}
use tps_sistemas_operativos.Sched.Pages.Count.{Kind, directory, table}
use tps_sistemas_operativos.Sched.Pages.Sound.{Has, Sound}
use tps_sistemas_operativos.Sched.Pages.Entries.{taken-Sound}
use tps_sistemas_operativos.Sched.Pages.NewTable.{tabled, tabled-Sound, entry_new}
use tps_sistemas_operativos.Sched.Pages.Space.{mapping, mapping-tabled}
use tps_sistemas_operativos.Sched.Pages.Remove.{table_entry-none, table_entry-some}

-- The memory with a table for the address: what was mapped still is, and no page in use has changed.
pub record Walked (m m' : Memory) (held : ℕ → ℕ) (kind kind' : ℕ → Kind) (free free' : List ℕ)
    (d va : ℕ) : Type 0 where
  pub sound : Sound m' held kind' free'
  pub has_table : m'.words d (pdx va) ≢ 0
  pub npages_same : m'.npages ≡ m.npages
  pub maps_same :
      (d' va' : ℕ) → kind d' ≡ directory → va' < utop → mapping m' d' va' ≡ mapping m d' va'
  pub kind_kept : (q : ℕ) → (Has q free → ⊥) → kind' q ≡ kind q
  pub pages_kept : (q : ℕ) → (Has q free → ⊥) → m'.pages q ≡ m.pages q
  pub fewer : (q : ℕ) → Has q free' → Has q free

-- pgdir_walk gives the entry of such a table.
abbrev pub Walks : Memory → (ℕ → ℕ) → (ℕ → Kind) → ℕ → ℕ → List ℕ → Type 0
Walks m held kind d va free =
    (m' : Memory) × (kind' : ℕ → Kind) × (free' : List ℕ) × (pgdir_walk d va true m
      ≡ some (some (pgnum (m'.words d (pdx va)), ptx va), m'))
    × Walked m m' held kind kind' free free' d va

module _ {m : Memory} {held : ℕ → ℕ} {kind : ℕ → Kind} (d va : ℕ) (is_dir : kind d ≡ directory)
    (user : va < utop) where
  pub walk_there :
      (free : List ℕ)
      → Sound m held kind free
      → m.words d (pdx va) ≢ 0
      → Walks m held kind d va free
  unfolding pgdir_walk with_table
  walk_there free ok nonzero =
      let some_table : (m.words d (pdx va) == 0) ≡ false = ground arith in
      (
        m,
        kind,
        free,
        rw some_table
            (ap (λ o. o >>= λ pte. some (pte, m)) (table_entry-some ok d va is_dir user nonzero)),
        record {
          sound = ok;
          has_table = nonzero;
          npages_same = refl;
          maps_same = λ d' va' k user'. refl;
          kind_kept = λ q out. refl;
          pages_kept = λ q out. refl;
          fewer = λ q at. at;
        },
      )

  pub walk_fails :
      Sound m held kind [] → m.words d (pdx va) ≡ 0 → pgdir_walk d va true m ≡ some (none, m)
  unfolding pgdir_walk with_table page_alloc alloc_from
  walk_fails ok empty =
      let none_there : (m.words d (pdx va) == 0) ≡ true = eq→== _ 0 empty in
      let with_none : with_table d va true m ≡ m =
        rw none_there (ap (λ h. put_table d (pdx va) (alloc_from h true m)) (ok.chain)) in
      ap (λ (x : Memory). table_entry d va x >>= λ pte. some (pte, x)) with_none
      ∙ ap (λ o. o >>= λ pte. some (pte, m)) (table_entry-none ok d va is_dir user empty)

  module _ (p : ℕ) (free : List ℕ) (ok : Sound m held kind (p ∷ free))
      (empty : m.words d (pdx va) ≡ 0) where
    taken_ok : Sound (taken p m) held kind free
    taken_ok = taken-Sound p free ok

    zero_refs : ((taken p m).pages p).pp_ref ≡ 0
    zero_refs =
        ap (λ (x : PageInfo). x.pp_ref) (update_self (m.pages) p _) ∙ (ok.free_ok p (inl refl)).2

    abbrev m' : Memory
    m' = tabled (taken p m) d (pdx va) p

    with_new : with_table d va true m ≡ m'
    unfolding with_table page_alloc alloc_from
    with_new =
        let none_there : (m.words d (pdx va) == 0) ≡ true = eq→== _ 0 empty in
        rw none_there (
          ap (λ h. put_table d (pdx va) (alloc_from h true m)) (ok.chain.0)
          ∙ ap (λ r. store d (pdx va) (or32 (p * 4096) 7) (set_ref p r (clear p (taken p m))))
              (ap (λ r. (r + 1) % 65536) zero_refs))

    walk_new : Walks m held kind d va (p ∷ free)
    unfolding pgdir_walk mapping
    walk_new =
        let kind' : ℕ → Kind = update kind p (table d (pdx va)) in
        let (inside, unused, none_left) = ok.free_ok p (inl refl) in
        let fresh = ok.once.0 in
        let sound = tabled-Sound taken_ok d (pdx va) p is_dir inside fresh unused zero_refs in
        let ne : p ≢ d = (λ (e : p ≡ d). cc (ap kind e, unused, is_dir)) in
        let entry_is = entry_new taken_ok d (pdx va) p is_dir inside fresh unused zero_refs in
        let nonzero : m'.words d (pdx va) ≢ 0 = (λ z. omega (arith, sym entry_is ∙ z)) in
        (
          m',
          kind',
          free,
          ap (λ (x : Memory). table_entry d va x >>= λ pte. some (pte, x)) with_new
              ∙ ap (λ o. o >>= λ pte. some (pte, m'))
                  (table_entry-some sound d va (update-ne kind p _ d ne ∙ is_dir) user nonzero),
          record {
            sound = sound;
            has_table = nonzero;
            npages_same = refl;
            maps_same = λ d' va' k user'.
                mapping-tabled taken_ok d va is_dir user p inside unused zero_refs fresh empty d'
                  va' k user';
            kind_kept = λ q out. update-ne kind p _ q (λ e. out (inl (sym e)));
            pages_kept = λ q out.
                let other : p ≢ q = (λ e. out (inl (sym e))) in
                update-ne ((taken p m).pages) p _ q other ∙ update-ne (m.pages) p _ q other;
            fewer = λ q at. inr at;
          },
        )

-- No page is free, and the address has no table.
abbrev pub Stuck : Memory → ℕ → ℕ → List ℕ → Type 0
Stuck m d va free = (free ≡ []) × (m.words d (pdx va) ≡ 0)

-- pgdir_walk with `create` fails just where a table is missing and no page is free, and changes nothing then.
pub pgdir_walk-Walked :
    {m : Memory} {held : ℕ → ℕ} {kind : ℕ → Kind} (free : List ℕ) (ok : Sound m held kind free)
    (d va : ℕ)
    → kind d ≡ directory
    → va < utop
    → (Stuck m d va free × (pgdir_walk d va true m ≡ some (none, m)))
      ⊎ ((Stuck m d va free → ⊥) × Walks m held kind d va free)
pgdir_walk-Walked {m} [] ok d va is_dir user = elim (Bool-cases (m.words d (pdx va) == 0)) [
  | inl e ↦ inl ((refl, ==→eq _ 0 e), walk_fails d va is_dir user ok (==→eq _ 0 e))
  | inr e ↦
      let there : m.words d (pdx va) ≢ 0 = (λ h. ground arith) in
      inr (λ stuck. there (stuck.1), walk_there d va is_dir user [] ok there)
]
pgdir_walk-Walked {m} (p ∷ free) ok d va is_dir user = elim (Bool-cases (m.words d (pdx va) == 0)) [
  | inl e ↦ inr (
    λ stuck. omega (arith, ap length (stuck.0)),
    walk_new d va is_dir user p free ok (==→eq _ 0 e),
  )
  | inr e ↦ inr (
    λ stuck. omega (arith, ap length (stuck.0)),
    walk_there d va is_dir user (p ∷ free) ok (λ h. ground arith),
  )
]
