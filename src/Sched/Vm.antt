-- ===== src/Sched/Vm.antt =====
-- The address spaces of the environments: env_setup_vm of env.c and what env_free does to the address space,
-- and the system calls on pages of syscall.c. `none` is a panic, or a read through NULL.
pub mod Grants
pub mod PageAlloc
mod Tests
use tps_sistemas_operativos.Base.{
  ℕ, zero, suc, ◌+◌, ◌*◌, ◌/◌, ◌%◌, Bool, true, false, not, ◌&&◌, ◌||◌, Option, none, some, ◌==◌,
  leb, if◌then◌else◌, update, or32, and32,
}
use tps_sistemas_operativos.Sched.Env.{Kernel, Found, bad_env, env_found, envid2env}
use tps_sistemas_operativos.Sched.Destroy.{e_bad_env, e_inval}
use tps_sistemas_operativos.Sched.Ipc.{is_present, is_writeable}
use tps_sistemas_operativos.Sched.Pages.{
  Memory, ◌>>=◌, utop, pgsize, pgnum, store, incref, Pte, entry, page_alloc, page_decref, pa2page,
  page_lookup, page_remove, Mapped, mapped, failed, page_insert, e_no_mem,
}

-- The kernel, the physical memory, and `env_pgdir` of each slot as the page of the directory.
pub record Vm : Type 0 where
  pub kernel : Kernel
  pub memory : Memory
  pub pgdirs : ℕ → ℕ

-- What a call returns, 0 or the number of an error, and the state it leaves.
abbrev pub Answer : Type 0
Answer = Option (ℕ × Vm)

abbrev pub return_ : ℕ → Vm → Answer
return_ code vm = some (code, vm)

abbrev pub with_memory : Memory → Vm → Vm
with_memory m vm = record vm { memory = m }

abbrev pub answered : Vm → Mapped → Answer
answered vm (mapped m) = return_ 0 (with_memory m vm)
answered vm (failed code m) = return_ code (with_memory m vm)

-- `perm & ~PTE_SYSCALL`, with the bits of `~(PTE_AVAIL | PTE_P | PTE_W | PTE_U)`.
abbrev pub pte_syscall_clear : ℕ
pte_syscall_clear = 4294963704

abbrev pub is_user : ℕ → Bool
is_user perm = perm / 4 % 2 == 1

-- The check without a table entry, as all callers make it.
unfoldable pub check_perm : ℕ → Bool
check_perm perm = and32 perm pte_syscall_clear == 0 && is_present perm && is_user perm

unfoldable pub alloc_inserted : ℕ → ℕ → ℕ → Vm → Option ℕ × Memory → Answer
alloc_inserted i va perm vm (none, m) = return_ e_no_mem (with_memory m vm)
alloc_inserted i va perm vm (some p, m) = page_insert (vm.pgdirs i) p va perm m >>= answered vm

unfoldable pub env_page_alloc : ℕ → ℕ → ℕ → Vm → Answer
unfolding check_perm alloc_inserted
env_page_alloc i va perm vm =
    if check_perm perm
    then alloc_inserted i va perm vm (page_alloc true (vm.memory))
    else return_ e_inval vm

unfoldable pub map_found : ℕ → ℕ → ℕ → Vm → Option (ℕ × Pte) → Answer
map_found dst dstva perm vm none = return_ e_inval vm
map_found dst dstva perm vm (some (p, pte)) =
    if is_writeable perm && not (is_writeable (entry pte (vm.memory)))
    then return_ e_inval vm
    else page_insert (vm.pgdirs dst) p dstva perm (vm.memory) >>= answered vm

unfoldable pub env_page_map : ℕ → ℕ → ℕ → ℕ → ℕ → Vm → Answer
unfolding map_found
env_page_map src srcva dst dstva perm vm =
    page_lookup (vm.pgdirs src) srcva (vm.memory) >>= map_found dst dstva perm vm

-- `va >= UTOP || va % PGSIZE`
abbrev pub is_bad_va : ℕ → Bool
is_bad_va va = leb utop va || not (va % pgsize == 0)

-- envid2env with the permission check, and the rest of the call.
abbrev pub for_found : Found → (ℕ → Vm → Answer) → Vm → Answer
for_found bad_env rest vm = return_ e_bad_env vm
for_found (env_found none) rest vm = none
for_found (env_found (some i)) rest vm = rest i vm

abbrev pub for_env : ℕ → (ℕ → Vm → Answer) → Vm → Answer
for_env envid rest vm = for_found (envid2env envid true (vm.kernel)) rest vm

unfoldable pub sys_page_alloc : ℕ → ℕ → ℕ → Vm → Answer
unfolding env_page_alloc
sys_page_alloc envid va perm vm =
    if is_bad_va va
    then return_ e_inval vm
    else for_env envid (λ i. env_page_alloc i va (or32 perm 5)) vm

unfoldable pub sys_page_map : ℕ → ℕ → ℕ → ℕ → ℕ → Vm → Answer
unfolding env_page_map
sys_page_map srcenvid srcva dstenvid dstva perm vm =
    if is_bad_va srcva
    then return_ e_inval vm
    else if is_bad_va dstva
    then return_ e_inval vm
    else for_env srcenvid
        (λ src. for_env dstenvid (λ dst. env_page_map src srcva dst dstva (or32 perm 5))) vm

unfoldable pub removed : Vm → Option Memory → Answer
removed vm r = r >>= λ m. return_ 0 (with_memory m vm)

unfoldable pub sys_page_unmap : ℕ → ℕ → Vm → Answer
unfolding removed
sys_page_unmap envid va vm =
    if is_bad_va va
    then return_ e_inval vm
    else for_env envid (λ i vm'. removed vm' (page_remove (vm'.pgdirs i) va (vm'.memory))) vm

-- PDX(UVPT) and PDX(UTOP)
abbrev pub uvpt_slot : ℕ
uvpt_slot = 957

abbrev pub utop_slot : ℕ
utop_slot = 955

-- A copy of the kernel's directory, with itself at UVPT.
abbrev pub copied : ℕ → ℕ → Memory → Memory
copied kern_pgdir p m = record m { words = update (m.words) p (m.words kern_pgdir) }

unfoldable pub set_up : ℕ → ℕ → Vm → Option ℕ × Memory → ℕ × Vm
set_up kern_pgdir i vm (none, m) = (e_no_mem, with_memory m vm)
set_up kern_pgdir i vm (some p, m) = (
  0,
  record vm {
    memory = store p uvpt_slot (or32 (p * 4096) 5) (incref p (copied kern_pgdir p m));
    pgdirs = update (vm.pgdirs) i p;
  },
)

unfoldable pub env_setup_vm : ℕ → ℕ → Vm → ℕ × Vm
unfolding set_up
env_setup_vm kern_pgdir i vm = set_up kern_pgdir i vm (page_alloc true (vm.memory))

-- The inner loop of env_free over the table `t`, from entry `pteno` on.
unfoldable pub remove_entries : ℕ → ℕ → ℕ → ℕ → ℕ → Memory → Option Memory
remove_entries zero pteno pdeno pgdir t m = some m
remove_entries (suc n) pteno pdeno pgdir t m =
    (if is_present (m.words t pteno)
      then page_remove pgdir (pdeno * 4194304 + pteno * 4096) m
      else some m)
    >>= remove_entries n (pteno + 1) pdeno pgdir t

-- One entry of the directory, with the page table behind it.
unfoldable pub free_table : ℕ → ℕ → Memory → Option Memory
unfolding remove_entries
free_table pgdir pdeno m =
    if is_present (m.words pgdir pdeno)
    then (pa2page (m.words pgdir pdeno) m >>= λ t.
        remove_entries 1024 0 pdeno pgdir t m >>= λ m'. page_decref t (store pgdir pdeno 0 m'))
    else some m

unfoldable pub free_tables : ℕ → ℕ → ℕ → Memory → Option Memory
unfolding free_table
free_tables zero pdeno pgdir m = some m
free_tables (suc n) pdeno pgdir m = free_table pgdir pdeno m >>= free_tables n (pdeno + 1) pgdir

-- The address space of the slot, as env_free gives it up.
unfoldable pub free_space : ℕ → Vm → Option Vm
unfolding free_tables
free_space i vm = free_tables utop_slot 0 (vm.pgdirs i) (vm.memory) >>= λ m.
    page_decref (vm.pgdirs i) m >>= λ m'.
    some (record vm { memory = m'; pgdirs = update (vm.pgdirs) i 0 })
