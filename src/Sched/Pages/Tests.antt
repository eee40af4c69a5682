-- ===== src/Sched/Pages/Tests.antt =====
-- The theorems about pmap.c at a memory of eight pages.
use tps_sistemas_operativos.Base.{
  ℕ, ◌<◌, ◌≡◌, ◌⊎◌, refl, inl, inr, arith, Option, some, List, ◌↔◌, or32,
}
use tps_sistemas_operativos.Sched.Pages.{
  Memory, page_init, page_remove, page_insert, mapped, failed, e_no_mem, user_mem_check, answer,
  granted, round_down,
}
use tps_sistemas_operativos.Sched.Pages.Count.{Kind}
use tps_sistemas_operativos.Sched.Pages.Sound.{Has, Sound}
use tps_sistemas_operativos.Sched.Pages.Init.{zeroed, unused, IsUsable, page_init-Sound}
use tps_sistemas_operativos.Sched.Pages.Remove.{Removed, page_remove-Removed}
use tps_sistemas_operativos.Sched.Pages.Walk.{Stuck}
use tps_sistemas_operativos.Sched.Pages.Insert.{Inserted, page_insert-Inserted}
use tps_sistemas_operativos.Sched.Pages.Check.{
  FirstBad, page_count, user_mem_check-FirstBad, user_mem_check_wraps,
}
use tps_sistemas_operativos.Sched.Pages.Samples.{kinds, free_pages, sample, sample-Sound}

page_init-Sound_example :
    (free : List ℕ) × Sound (page_init 300 (zeroed 1000 (λ t i. 7))) (λ p. 0) unused free
    × ((p : ℕ) → Has p free ↔ ((p < 1000) × IsUsable 300 p))
page_init-Sound_example = page_init-Sound 300 1000 (λ t i. 7) (omega arith)

page_remove-Removed_example :
    (m' : Memory) × (free' : List ℕ) × (page_remove 1 0 sample ≡ some m')
    × Removed sample m' (λ p. 0) kinds free' 1 0
page_remove-Removed_example = page_remove-Removed sample-Sound 1 0 refl (omega arith)

outside : Has 4 free_pages → ⊥
outside at = elim at [
  | inl e ↦ omega (arith, e)
  | inr h ↦ elim h [ inl e ↦ omega (arith, e) | inr h' ↦ absurd h' ]
]

page_insert-Inserted_example :
    Stuck sample 1 8388608 free_pages
      × (page_insert 1 4 8388608 7 sample ≡ some (failed e_no_mem sample))
    ⊎ ((Stuck sample 1 8388608 free_pages → ⊥)
        × (m' : Memory) × (kind' : ℕ → Kind) × (free' : List ℕ) × (page_insert 1 4 8388608 7 sample
            ≡ some (mapped m'))
        × Inserted sample m' (λ p. 0) kinds kind' free' 1 8388608 4 7)
page_insert-Inserted_example =
    page_insert-Inserted free_pages sample-Sound 1 8388608 4 7 refl (omega arith) (omega arith) refl
      outside (omega arith) (omega arith)

user_mem_check-FirstBad_example :
    (r : Option ℕ) × (user_mem_check 1 100 5000 4 sample ≡ some (answer 100 r))
    × FirstBad sample 1 (or32 4 1) (round_down 100) (page_count 100 5000) r
user_mem_check-FirstBad_example =
    user_mem_check-FirstBad sample-Sound 1 100 5000 4 refl (omega arith)

user_mem_check_wraps_example : user_mem_check 1 4026531840 268435456 4 sample ≡ some granted
user_mem_check_wraps_example =
    user_mem_check_wraps sample 1 4026531840 268435456 4 (omega arith) (omega arith) (omega arith)
      (omega arith)
