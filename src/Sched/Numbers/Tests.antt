-- ===== src/Sched/Numbers/Tests.antt =====
-- 255 in hexadecimal, as "%6x" prints it.
use tps_sistemas_operativos.Base.{ℕ, ◌≡◌, refl, inl, arith, some, List, [], ◌∷◌}
use tps_sistemas_operativos.Sched.Numbers.{digit_char, put_digit, printnum, strtol}
use tps_sistemas_operativos.Sched.Numbers.RoundTrip.{strtol-printnum}

printed : printnum 64 255 16 6 32 ≡ some (32 ∷ 32 ∷ 32 ∷ 32 ∷ 102 ∷ 102 ∷ [])
unfolding printnum put_digit digit_char
printed = refl

strtol-printnum_example :
    (out : List ℕ) × (printnum 64 255 16 6 32 ≡ some out) × (strtol out 16 ≡ (255, []))
strtol-printnum_example =
    strtol-printnum 255 16 6 32 (omega arith) (omega arith) (omega arith) (inl refl)
