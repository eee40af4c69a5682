-- ===== src/Sched/Vm/Grants.antt =====
-- What sys_page_map and sys_page_alloc of syscall.c let through.
use tps_sistemas_operativos.Base.{
  ℕ, ◌+◌, ◌*◌, ◌%◌, ◌<◌, ◌≡◌, ◌≢◌, ◌⊎◌, refl, true, false, inl, inr, eq→==, lt→leb, arith, ap, ◌∙◌,
  some, List, [], or32, or_bits, or32-page, or32-pages, or32-one, or_bits-page,
}
use tps_sistemas_operativos.Sched.Env.{env_found, Kernel, envid2env}
use tps_sistemas_operativos.Sched.Ipc.{is_writeable}
use tps_sistemas_operativos.Sched.Pages.{
  ◌>>=◌, utop, pgsize, pgnum, pte_of, Pte, e_no_mem, page_lookup, page_insert,
}
use tps_sistemas_operativos.Sched.Pages.Count.{Kind, directory}
use tps_sistemas_operativos.Sched.Pages.Sound.{Sound}
use tps_sistemas_operativos.Sched.Pages.Space.{mapping}
use tps_sistemas_operativos.Sched.Pages.Remove.{page_lookup-mapping}
use tps_sistemas_operativos.Sched.Pages.Insert.{page_insert-there}
use tps_sistemas_operativos.Sched.Vm.{
  Vm, Answer, answered, is_bad_va, for_found, for_env, map_found, env_page_map, sys_page_map,
}

pub good_va : (va : ℕ) → va < utop → va % pgsize ≡ 0 → is_bad_va va ≡ false
good_va va lt aligned = rw (lt→leb utop va lt, eq→== _ 0 aligned) refl

self_found : (k : Kernel) (i : ℕ) → k.curenv ≡ some i → envid2env 0 true k ≡ env_found (some i)
unfolding envid2env
self_found k i current = ap env_found current

for_self :
    (vm : Vm) (i : ℕ) (rest : ℕ → Vm → Answer)
    → vm.kernel.curenv ≡ some i
    → for_env 0 rest vm ≡ rest i vm
for_self vm i rest current = ap (λ f. for_found f rest vm) (self_found (vm.kernel) i current)

maps :
    (vm : Vm) (i srcva dstva perm p : ℕ) (pte : Pte)
    → page_lookup (vm.pgdirs i) srcva (vm.memory) ≡ some (some (p, pte))
    → is_writeable perm ≡ false
    → env_page_map i srcva i dstva perm vm
      ≡ (page_insert (vm.pgdirs i) p dstva perm (vm.memory) >>= answered vm)
unfolding env_page_map map_found
maps vm i srcva dstva perm p pte finds read_only =
    ap (λ o. o >>= map_found i dstva perm vm) finds ∙ rw read_only refl

-- `page2pa(pp) | perm | PTE_P` for permissions that name a page.
pte_of-page : (p q : ℕ) → pte_of p (q * 4096 + 5) ≡ or_bits 20 p q * 4096 + 5
pte_of-page p q =
    ap (λ w. or32 w 1) (or32-pages p q 5 (omega arith))
    ∙ or32-one (or_bits 20 p q * 4096 + 5) (omega (arith, or_bits-page p q))
    ∙ omega arith

-- sys_page_map does not test `perm` for bits of an address. The current environment calls it for itself, with
-- the envid 0 twice, from one page-aligned address below UTOP, where it has a page mapped, to another, and
-- with the permissions `q * PGSIZE`, `q` below 2^20, on a sound memory where that page is not referred to
-- 65535 times. It gets the second address mapped, readable by the user, to the page whose number is that of its page with the
-- bits of `q`, whoever has that page; or no page is free, and it gets -E_NO_MEM.
pub sys_page_map_any_page :
    (vm : Vm) {held : ℕ → ℕ} {kind : ℕ → Kind} (free : List ℕ)
    (ok : Sound (vm.memory) held kind free) (i srcva dstva q : ℕ)
    → vm.kernel.curenv ≡ some i
    → kind (vm.pgdirs i) ≡ directory
    → srcva < utop
    → srcva % pgsize ≡ 0
    → dstva < utop
    → dstva % pgsize ≡ 0
    → q < 1048576
    → mapping (vm.memory) (vm.pgdirs i) srcva ≢ 0
    → (vm.memory.pages (pgnum (mapping (vm.memory) (vm.pgdirs i) srcva))).pp_ref < 65535
    → ((free ≡ []) × (sys_page_map 0 srcva 0 dstva (q * 4096) vm ≡ some (e_no_mem, vm)))
      ⊎ ((vm' : Vm) × (sys_page_map 0 srcva 0 dstva (q * 4096) vm ≡ some (0, vm'))
          × (mapping (vm'.memory) (vm.pgdirs i) dstva
              ≡ or_bits 20 (pgnum (mapping (vm.memory) (vm.pgdirs i) srcva)) q * 4096 + 5))
unfolding sys_page_map
sys_page_map_any_page vm free ok i srcva dstva q current is_dir lt aligned lt' aligned' few full
      many =
    let d = vm.pgdirs i in
    let p = pgnum (mapping (vm.memory) d srcva) in
    let (finds, inside, use_, out, word_is) = page_lookup-mapping ok d srcva is_dir lt full in
    let perm_is : or32 (q * 4096) 5 ≡ q * 4096 + 5 = or32-page q 5 few (omega arith) in
    let read_only : is_writeable (q * 4096 + 5) ≡ false = ground arith in
    let runs : sys_page_map 0 srcva 0 dstva (q * 4096) vm
        ≡ (page_insert d p dstva (q * 4096 + 5) (vm.memory) >>= answered vm) =
      rw (good_va srcva lt aligned, good_va dstva lt' aligned', perm_is)
        (for_self vm i (λ src. for_env 0 (λ dst. env_page_map src srcva dst dstva (q * 4096 + 5)))
            current
          ∙ for_self vm i (λ dst. env_page_map i srcva dst dstva (q * 4096 + 5)) current
          ∙ maps vm i srcva dstva (q * 4096 + 5) p _ finds read_only) in
    elim (page_insert-there free ok d dstva p (q * 4096 + 5) is_dir lt' inside use_ out many) [
      | inl (empty, fails) ↦ inl (empty, runs ∙ ap (λ o. o >>= answered vm) fails)
      | inr (m', ends, there) ↦ inr (
        record vm { memory = m' },
        runs ∙ ap (λ o. o >>= answered vm) ends,
        there ∙ pte_of-page p q,
      )
    ]
