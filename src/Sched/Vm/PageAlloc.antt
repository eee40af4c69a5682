-- ===== src/Sched/Vm/PageAlloc.antt =====
-- sys_page_alloc of syscall.c, from its checks to the page table.
use mathlib.Core.Path.{subst}
use tps_sistemas_operativos.Base.{
  ℕ, ◌+◌, ◌*◌, ◌/◌, ◌%◌, ◌<◌, ◌≡◌, ◌⊎◌, true, inl, inr, arith, ap, ◌∙◌, sym, some, List, [], ◌∷◌,
  or32,
}
use tps_sistemas_operativos.Sched.Env.{env_found, envid2env}
use tps_sistemas_operativos.Sched.Pages.{◌>>=◌, utop, pdx, pgsize, e_no_mem, page_insert}
use tps_sistemas_operativos.Sched.Pages.Count.{Kind, directory}
use tps_sistemas_operativos.Sched.Pages.Sound.{Sound}
use tps_sistemas_operativos.Sched.Pages.Space.{mapping, KeepsOthers}
use tps_sistemas_operativos.Sched.Pages.Allocated.{page_alloc-Allocated, page_alloc_empty}
use tps_sistemas_operativos.Sched.Pages.Walk.{Stuck}
use tps_sistemas_operativos.Sched.Pages.Insert.{page_insert-Inserted}
use tps_sistemas_operativos.Sched.Vm.{
  Vm, Answer, answered, for_found, check_perm, alloc_inserted, env_page_alloc, sys_page_alloc,
}
use tps_sistemas_operativos.Sched.Vm.Grants.{good_va}

-- The page that was free is mapped, and all other pages of all environments as before.
pub record Grown (vm vm' : Vm) (held : ℕ → ℕ) (kind' : ℕ → Kind) (free' : List ℕ) (kind : ℕ → Kind)
    (i va p perm : ℕ) : Type 0 where
  pub sound : Sound (vm'.memory) held kind' free'
  pub there : mapping (vm'.memory) (vm.pgdirs i) va ≡ p * 4096 + (perm / 2 * 2 + 1)
  pub others : KeepsOthers (vm.memory) (vm'.memory) kind (vm.pgdirs i) va

-- The page that was the last free one is lost: no page is free, and nothing refers to it.
pub record Leaked (vm vm' : Vm) (held : ℕ → ℕ) (kind : ℕ → Kind) (p : ℕ) : Type 0 where
  pub sound : Sound (vm'.memory) held kind []
  pub unreferenced : (vm'.memory.pages p).pp_ref ≡ 0

-- What the call returns, and what it leaves.
abbrev pub Allocates : Vm → (ℕ → ℕ) → (ℕ → Kind) → List ℕ → ℕ → ℕ → ℕ → Answer → Type 0
Allocates vm held kind [] i va perm answer = answer ≡ some (e_no_mem, vm)
Allocates vm held kind (p ∷ free) i va perm answer =
    (Stuck (vm.memory) (vm.pgdirs i) va free
      × (vm' : Vm) × (answer ≡ some (e_no_mem, vm'))
      × Leaked vm vm' held kind p)
    ⊎ ((Stuck (vm.memory) (vm.pgdirs i) va free → ⊥)
        × (vm' : Vm) × (kind' : ℕ → Kind) × (free' : List ℕ) × (answer ≡ some (0, vm'))
        × Grown vm vm' held kind' free' kind i va p perm)

module _ (vm : Vm) {held : ℕ → ℕ} {kind : ℕ → Kind} (i va perm : ℕ)
    (is_dir : kind (vm.pgdirs i) ≡ directory) (user : va < utop) (allowed : check_perm perm ≡ true)
    (bits : perm < 4096) where
  env_page_alloc-Allocates :
      (free : List ℕ)
      → Sound (vm.memory) held kind free
      → Allocates vm held kind free i va perm (env_page_alloc i va perm vm)
  unfolding env_page_alloc alloc_inserted
  env_page_alloc-Allocates [] ok =
      rw allowed (ap (alloc_inserted i va perm vm) (page_alloc_empty true ok))
  env_page_alloc-Allocates (p ∷ free) ok =
      let (m1, allocs, taken_page) = page_alloc-Allocated p free ok in
      let runs : env_page_alloc i va perm vm
          ≡ (page_insert (vm.pgdirs i) p va perm m1 >>= answered vm) =
        rw allowed (ap (alloc_inserted i va perm vm) allocs) in
      let same_entry : m1.words (vm.pgdirs i) (pdx va) ≡ vm.memory.words (vm.pgdirs i) (pdx va) =
        ap (λ (r : ℕ → ℕ). r (pdx va)) (taken_page.directories_same (vm.pgdirs i) is_dir) in
      elim (page_insert-Inserted free (taken_page.sound) (vm.pgdirs i) va p perm is_dir user
        (taken_page.inside) (taken_page.plain_page) (taken_page.not_free)
        (omega (arith, taken_page.unreferenced)) bits) [
          | inl (stuck, fails) ↦ inl (
            (stuck.0, sym same_entry ∙ stuck.1),
            record vm { memory = m1 },
            runs ∙ ap (λ o. o >>= answered vm) fails,
            record {
              sound = rw (← stuck.0) (taken_page.sound);
              unreferenced = taken_page.unreferenced;
            },
          )
          | inr (can, m', kind', free', ends, done_) ↦ inr (
            λ stuck. can (stuck.0, same_entry ∙ stuck.1),
            record vm { memory = m' },
            kind',
            free',
            runs ∙ ap (λ o. o >>= answered vm) ends,
            record {
              sound = done_.sound;
              there = done_.there;
              others = λ d' va' k user' other.
                  done_.others d' va' k user' other ∙ taken_page.maps_same d' va' k user';
            },
          )
        ]

-- sys_page_alloc on a sound memory, for an environment that the caller may change, at a page-aligned address
-- below UTOP and with permissions that check_perm accepts. If no page is free it returns -E_NO_MEM. If one
-- page is free and the address has no page table, it returns -E_NO_MEM and the page is lost: nothing
-- refers to it, and it is not free. Otherwise it maps the address to the first free page with these
-- permissions, and leaves every other page of every environment as it was and the memory sound.
pub sys_page_alloc-Allocates :
    (vm : Vm) {held : ℕ → ℕ} {kind : ℕ → Kind} (free : List ℕ) (envid i va perm : ℕ)
    → Sound (vm.memory) held kind free
    → envid2env envid true (vm.kernel) ≡ env_found (some i)
    → kind (vm.pgdirs i) ≡ directory
    → va < utop
    → va % pgsize ≡ 0
    → check_perm (or32 perm 5) ≡ true
    → or32 perm 5 < 4096
    → Allocates vm held kind free i va (or32 perm 5) (sys_page_alloc envid va perm vm)
unfolding sys_page_alloc
sys_page_alloc-Allocates vm {held} {kind} free envid i va perm ok finds is_dir user aligned allowed
      bits =
    let runs : sys_page_alloc envid va perm vm ≡ env_page_alloc i va (or32 perm 5) vm =
      rw (good_va va user aligned)
        (ap (λ f. for_found f (λ j. env_page_alloc j va (or32 perm 5)) vm) finds) in
    subst (Allocates vm held kind free i va (or32 perm 5)) (sym runs)
      (env_page_alloc-Allocates vm i va (or32 perm 5) is_dir user allowed bits free ok)
