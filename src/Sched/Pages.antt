-- ===== src/Sched/Pages.antt =====
-- Physical pages and page tables: pmap.c, and pmap.h with what it uses of inc/mmu.h. `none` is a panic.
pub mod Count
pub mod Sound
pub mod Entries
pub mod NewTable
pub mod Decref
pub mod Space
pub mod Remove
pub mod Walk
pub mod Insert
pub mod Init
pub mod Allocated
pub mod Check
pub mod Samples
mod Tests
use tps_sistemas_operativos.Base.{
  ℕ, zero, suc, ◌+◌, ◌*◌, ◌/◌, ◌%◌, Bool, true, false, not, ◌&&◌, ◌||◌, Option, none, some, ◌==◌,
  ltb, leb, if◌then◌else◌, update, add32, ◌-◌, or32, and32,
}

-- `struct PageInfo`; pages go by their place in the array `pages`.
pub record PageInfo : Type 0 where
  pub pp_link : Option ℕ
  pub pp_ref : ℕ

-- The array `pages` of `npages` entries, `page_free_list`, and the words of each physical page.
pub record Memory : Type 0 where
  pub npages : ℕ
  pub pages : ℕ → PageInfo
  pub page_free_list : Option ℕ
  pub words : ℕ → ℕ → ℕ

abbrev pub ◌>>=◌ : {A B : Type 0} → Option A → (A → Option B) → Option B
none >>= f = none
some a >>= f = f a

infixl 5 ◌>>=◌
abbrev pub pgsize : ℕ
pgsize = 4096

abbrev pub utop : ℕ
utop = 4005560320

-- PDX, PTX, PGNUM and PGOFF
abbrev pub pdx : ℕ → ℕ
pdx va = va / 4194304 % 1024

abbrev pub ptx : ℕ → ℕ
ptx va = va / 4096 % 1024

abbrev pub pgnum : ℕ → ℕ
pgnum pa = pa / 4096

abbrev pub put_page : ℕ → PageInfo → Memory → Memory
put_page p info m = record m { pages = update (m.pages) p info }

abbrev pub store : ℕ → ℕ → ℕ → Memory → Memory
store t i v m = record m { words = update (m.words) t (update (m.words t) i v) }

-- `memset(page2kva(free_page), 0, PGSIZE)`
abbrev pub clear : ℕ → Memory → Memory
clear p m = record m { words = update (m.words) p (λ i. 0) }

-- The head of the free list leaves it.
abbrev pub taken : ℕ → Memory → Memory
taken p m =
    put_page p (record (m.pages p) { pp_link = none })
      (record m { page_free_list = (m.pages p).pp_link })

alloc_from : Option ℕ → Bool → Memory → Option ℕ × Memory
alloc_from none alloc_zero m = (none, m)
alloc_from (some p) alloc_zero m = (some p, if alloc_zero then clear p (taken p m) else taken p m)

unfoldable pub page_alloc : Bool → Memory → Option ℕ × Memory
unfolding alloc_from
page_alloc alloc_zero m = alloc_from (m.page_free_list) alloc_zero m

-- The loop of page_init over the first pages, that many. `first` is the page of boot_alloc(0).
unfoldable pub is_reserved : ℕ → ℕ → Bool
is_reserved first i = i == 0 || i == 7 || leb 160 i && ltb i 256 || leb 256 i && ltb i first

abbrev pub init_page : ℕ → Memory → Memory
init_page i m =
    put_page i (record { pp_link = m.page_free_list; pp_ref = 0 })
      (record m { page_free_list = some i })

unfoldable pub init_pages : ℕ → ℕ → Memory → Memory
unfolding is_reserved
init_pages first zero m = m
init_pages first (suc i) m =
    let m' = init_pages first i m in
    if is_reserved first i
    then put_page i (record (m'.pages i) { pp_link = none }) m'
    else init_page i m'

unfoldable pub page_init : ℕ → Memory → Memory
unfolding init_pages
page_init first m = init_pages first (m.npages) m

abbrev pub is_null : Option ℕ → Bool
is_null none = true
is_null (some p) = false

unfoldable pub page_free : ℕ → Memory → Option Memory
page_free p m =
    if (m.pages p).pp_ref == 0 && is_null ((m.pages p).pp_link)
    then some (
        put_page p (record (m.pages p) { pp_link = m.page_free_list })
          (record m { page_free_list = some p }))
    else none

-- `pp_ref` has 16 bits.
abbrev pub set_ref : ℕ → ℕ → Memory → Memory
set_ref p r m = put_page p (record (m.pages p) { pp_ref = r }) m

abbrev pub incref : ℕ → Memory → Memory
incref p m = set_ref p (((m.pages p).pp_ref + 1) % 65536) m

abbrev pub decref : ℕ → Memory → Memory
decref p m = set_ref p (((m.pages p).pp_ref + 65535) % 65536) m

unfoldable pub page_decref : ℕ → Memory → Option Memory
unfolding page_free
page_decref p m =
    if ((decref p m).pages p).pp_ref == 0 then page_free p (decref p m) else some (decref p m)

-- pa2page, and KADDR of a page's address, panic behind the last page.
unfoldable pub pa2page : ℕ → Memory → Option ℕ
pa2page pa m = if ltb (pgnum pa) (m.npages) then some (pgnum pa) else none

-- A pointer to an entry: its page and its place there.
abbrev pub Pte : Type 0
Pte = ℕ × ℕ

abbrev pub entry : Pte → Memory → ℕ
entry pte m = m.words pte.0 pte.1

-- The table that an entry of the directory points to, and the place of `va` in it. A NULL is `none`.
unfoldable pub table_entry : ℕ → ℕ → Memory → Option (Option Pte)
unfolding pa2page
table_entry pgdir va m =
    if m.words pgdir (pdx va) == 0
    then some none
    else pa2page (m.words pgdir (pdx va)) m >>= λ t. some (some (t, ptx va))

-- A new table, with `page2pa(page) | PTE_P | PTE_W | PTE_U` in the directory.
abbrev pub put_table : ℕ → ℕ → Option ℕ × Memory → Memory
put_table pgdir i (none, m) = m
put_table pgdir i (some p, m) = store pgdir i (or32 (p * 4096) 7) (incref p m)

unfoldable pub with_table : ℕ → ℕ → Bool → Memory → Memory
unfolding page_alloc
with_table pgdir va create m =
    if m.words pgdir (pdx va) == 0 && create
    then put_table pgdir (pdx va) (page_alloc true m)
    else m

unfoldable pub pgdir_walk : ℕ → ℕ → Bool → Memory → Option (Option Pte × Memory)
unfolding with_table table_entry
pgdir_walk pgdir va create m =
    let m' = with_table pgdir va create m in table_entry pgdir va m' >>= λ pte. some (pte, m')

-- `*pte && PTE_P` is the test that the entry is not 0.
abbrev pub lookup_at : Memory → Option Pte → Option (Option (ℕ × Pte))
lookup_at m none = some none
lookup_at m (some pte) =
    if entry pte m == 0 then some none else pa2page (entry pte m) m >>= λ p. some (some (p, pte))

-- The page, and the pointer that goes to `*pte_store`.
unfoldable pub page_lookup : ℕ → ℕ → Memory → Option (Option (ℕ × Pte))
unfolding table_entry pa2page
page_lookup pgdir va m = table_entry pgdir va m >>= lookup_at m

unfoldable pub remove_found : Memory → Option (ℕ × Pte) → Option Memory
unfolding page_decref
remove_found m none = some m
remove_found m (some (p, pte)) = page_decref p m >>= λ m'. some (store pte.0 pte.1 0 m')

unfoldable pub page_remove : ℕ → ℕ → Memory → Option Memory
unfolding page_lookup remove_found
page_remove pgdir va m = page_lookup pgdir va m >>= remove_found m

-- `page2pa(pp) | perm | PTE_P`
abbrev pub pte_of : ℕ → ℕ → ℕ
pte_of p perm = or32 (or32 (p * 4096) perm) 1

-- What a call that may fail returns: 0, or an error with the state it leaves.
pub data Mapped : Type 0 where
  mapped : Memory → Mapped
  failed : ℕ → Memory → Mapped

abbrev pub e_no_mem : ℕ
e_no_mem = 4

unfoldable pub insert_at : ℕ → ℕ → ℕ → ℕ → Option Pte × Memory → Option Mapped
unfolding page_remove
insert_at pgdir p va perm (none, m) = some (failed e_no_mem m)
insert_at pgdir p va perm (some pte, m) =
    page_remove pgdir va (incref p m) >>= λ m'. some (mapped (store pte.0 pte.1 (pte_of p perm) m'))

unfoldable pub page_insert : ℕ → ℕ → ℕ → ℕ → Memory → Option Mapped
unfolding pgdir_walk insert_at
page_insert pgdir p va perm m = pgdir_walk pgdir va true m >>= insert_at pgdir p va perm

-- ROUNDDOWN and ROUNDUP to a page, as `uint32_t`.
abbrev pub round_down : ℕ → ℕ
round_down a = a / 4096 * 4096

abbrev pub round_up : ℕ → ℕ
round_up a = round_down (add32 a 4095)

unfoldable pub allows : ℕ → Memory → Option Pte → Bool
allows bits m none = false
allows bits m (some pte) = and32 (entry pte m) bits == bits

-- The loop of user_mem_check from `va` on, `rounds` pages: the first page that is not allowed.
unfoldable pub check_pages : ℕ → ℕ → ℕ → ℕ → Memory → Option (Option ℕ)
unfolding table_entry allows
check_pages zero pgdir va bits m = some none
check_pages (suc rounds) pgdir va bits m =
    let rest = check_pages rounds pgdir (va + 4096) bits m in
    table_entry pgdir va m >>= λ pte. if allows bits m pte then rest else some (some va)

-- What user_mem_check returns: 0, or -E_FAULT with user_mem_check_addr.
pub data Access : Type 0 where
  granted : Access
  refused : ℕ → Access

abbrev pub answer : ℕ → Option ℕ → Access
answer va_lo none = granted
answer va_lo (some va) = refused (if ltb va_lo va then va else va_lo)

unfoldable pub user_mem_check : ℕ → ℕ → ℕ → ℕ → Memory → Option Access
unfolding check_pages
user_mem_check pgdir va len perm m =
    let va_hi = round_up (add32 va len) in
    if ltb utop va_hi
    then some (refused va)
    else check_pages ((va_hi - round_down va) / 4096) pgdir (round_down va) (or32 perm 1) m
      >>= λ bad. some (answer va bad)
