-- ===== src/Sched/Pages/Check.antt =====
-- user_mem_check of pmap.c.
use mathlib.Core.Path.{subst}
use tps_sistemas_operativos.Base.{
  ℕ, zero, suc, ◌+◌, ◌-◌, ◌*◌, ◌/◌, ◌%◌, ◌<◌, ◌≤◌, ◌≡◌, ◌≢◌, refl, Bool, true, false, inl, inr,
  Bool-cases, ◌==◌, ==→eq, eq→==, if◌then◌else◌, arith, ap, sym, ◌∙◌, Option, none, some, List, ltb,
  add32, or32, and32,
}
use tps_sistemas_operativos.Sched.Pages.{
  Memory, utop, pdx, ptx, pgnum, table_entry, allows, check_pages, granted, answer, round_down,
  round_up, user_mem_check, ◌>>=◌,
}
use tps_sistemas_operativos.Sched.Pages.Count.{Kind, directory}
use tps_sistemas_operativos.Sched.Pages.Sound.{Sound}
use tps_sistemas_operativos.Sched.Pages.Space.{mapping, in_table}
use tps_sistemas_operativos.Sched.Pages.Remove.{table_entry-none, table_entry-some}

-- The address has a table, and its entry has all these bits.
abbrev pub Allowed : Memory → ℕ → ℕ → ℕ → Type 0
Allowed m d bits va = (m.words d (pdx va) ≢ 0) × (and32 (mapping m d va) bits ≡ bits)

-- Of the `n` pages from `va` on, this is the first that is not allowed, or all are.
abbrev pub FirstBad : Memory → ℕ → ℕ → ℕ → ℕ → Option ℕ → Type 0
FirstBad m d bits va n none = (k : ℕ) → k < n → Allowed m d bits (va + k * 4096)
FirstBad m d bits va n (some a) =
    (k : ℕ) × (k < n)
    × (a ≡ va + k * 4096)
    × (Allowed m d bits a → ⊥)
    × ((j : ℕ) → j < k → Allowed m d bits (va + j * 4096))

ne : {b : Bool} → b ≡ true → b ≡ false → ⊥
ne yes_ no_ = cc (yes_, no_)

-- The first page joins what holds of the others.
all_before :
    (m : Memory) (d bits va k : ℕ)
    → Allowed m d bits va
    → ((j : ℕ) → j < k → Allowed m d bits (va + 4096 + j * 4096))
    → (j : ℕ) → j < suc k
    → Allowed m d bits (va + j * 4096)
all_before m d bits va k here before zero lt = subst (Allowed m d bits) (omega arith) here
all_before m d bits va k here before (suc j) lt =
    subst (Allowed m d bits) (omega arith) (before j (omega (arith, lt)))

FirstBad-suc :
    (m : Memory) (d bits va n : ℕ) (r : Option ℕ)
    → Allowed m d bits va
    → FirstBad m d bits (va + 4096) n r
    → FirstBad m d bits va (suc n) r
FirstBad-suc m d bits va n none here rest = all_before m d bits va n here rest
FirstBad-suc m d bits va n (some a) here (k, lt, is, bad, before) =
    (suc k, omega (arith, lt), omega (arith, is), bad, all_before m d bits va k here before)

module _ {m : Memory} {held : ℕ → ℕ} {kind : ℕ → Kind} {free : List ℕ} (ok : Sound m held kind free)
    (d bits : ℕ) (is_dir : kind d ≡ directory) where
  -- One page, as the loop tests it.
  test_page :
      (va : ℕ)
      → va < utop
      → (b : Bool) × ((rest : Option (Option ℕ))
          → (table_entry d va m >>= λ pte. if allows bits m pte then rest else some (some va))
            ≡ (if b then rest else some (some va)))
        × ((b ≡ true) → Allowed m d bits va)
        × ((b ≡ false) → Allowed m d bits va → ⊥)
  unfolding allows
  test_page va user = elim (Bool-cases (m.words d (pdx va) == 0)) [
    | inl e ↦
        let missing = table_entry-none ok d va is_dir user (==→eq _ 0 e) in
        (
          false,
          λ rest. ap (λ o. o >>= λ pte. if allows bits m pte then rest else some (some va)) missing,
          λ h. cc,
          λ h ok'. ok'.0 (==→eq _ 0 e),
        )
    | inr e ↦
        let nonzero : m.words d (pdx va) ≢ 0 = (λ h. ground arith) in
        let there = table_entry-some ok d va is_dir user nonzero in
        let at = in_table m d va nonzero in
        (
          and32 (m.words (pgnum (m.words d (pdx va))) (ptx va)) bits == bits,
          λ rest. ap (λ o. o >>= λ pte. if allows bits m pte then rest else some (some va)) there,
          λ h. (nonzero, ap (λ w. and32 w bits) at ∙ ==→eq _ bits h),
          λ h ok'. ne (eq→== _ bits (ap (λ w. and32 w bits) (sym at) ∙ ok'.1)) h,
        )
  ]

  check_pages-FirstBad :
      (n va : ℕ)
      → va + n * 4096 ≤ utop
      → (r : Option ℕ) × (check_pages n d va bits m ≡ some r) × FirstBad m d bits va n r
  unfolding check_pages
  check_pages-FirstBad zero va user = (none, refl, λ k lt. absurd (omega (arith, lt)))
  check_pages-FirstBad (suc n) va user =
      let (b, steps, good, bad) = test_page va (omega (arith, user)) in
      let (r, ends, first) = check_pages-FirstBad n (va + 4096) (omega (arith, user)) in
      elim (Bool-cases b) [
        | inl yes_ ↦ (
          r,
          steps (check_pages n d (va + 4096) bits m) ∙ rw yes_ ends,
          FirstBad-suc m d bits va n r (good yes_) first,
        )
        | inr no_ ↦ (
          some va,
          steps (check_pages n d (va + 4096) bits m) ∙ rw no_ refl,
          (0, omega arith, omega arith, bad no_, λ j lt. absurd (omega (arith, lt))),
        )
      ]

-- The pages that a range of bytes lies in.
abbrev pub page_count : ℕ → ℕ → ℕ
page_count va len = (va % 4096 + len + 4095) / 4096

-- On a sound memory, for a range of bytes that ends at UTOP or below: user_mem_check does not panic. It
-- grants the access if each page of the range has a table and an entry with all the bits of `perm | PTE_P`,
-- and otherwise refuses it at the first page that has not, or at `va` if that is the first.
pub user_mem_check-FirstBad :
    {m : Memory} {held : ℕ → ℕ} {kind : ℕ → Kind} {free : List ℕ} (ok : Sound m held kind free)
    (d va len perm : ℕ)
    → kind d ≡ directory
    → va + len ≤ utop
    → (r : Option ℕ) × (user_mem_check d va len perm m ≡ some (answer va r))
      × FirstBad m d (or32 perm 1) (round_down va) (page_count va len) r
unfolding user_mem_check
user_mem_check-FirstBad {m} ok d va len perm is_dir user =
    let (r, ends, first) =
      check_pages-FirstBad ok d (or32 perm 1) is_dir (page_count va len) (round_down va)
        (omega (arith, user)) in
    let count : (round_up (add32 va len) - round_down va) / 4096 ≡ page_count va len =
      omega (arith, user) in
    let low : ltb utop (round_up (add32 va len)) ≡ false = ground (arith) in
    (r, rw (low, count) (ap (λ o. o >>= λ bad. some (answer va bad)) ends), first)

-- For a range of at most 2^32 - 4096 bytes that reaches past the last address, back to at most UTOP - 4096,
-- user_mem_check grants the access whatever the page tables hold: `va + len` wraps, and the loop tests no page.
pub user_mem_check_wraps :
    (m : Memory) (d va len perm : ℕ)
    → va < 4294967296
    → len ≤ 4294963200
    → 4294967296 ≤ va + len
    → va + len ≤ 8300523520
    → user_mem_check d va len perm m ≡ some granted
unfolding user_mem_check check_pages
user_mem_check_wraps m d va len perm lt few wraps low =
    let not_high : ltb utop (round_up (add32 va len)) ≡ false = ground arith in
    let no_rounds : (round_up (add32 va len) - round_down va) / 4096 ≡ 0 =
      omega (arith, lt, few, wraps, low) in
    rw (not_high, no_rounds) refl
