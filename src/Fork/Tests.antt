-- ===== src/Fork/Tests.antt =====
-- The primes up to 30.
use tps_sistemas_operativos.Base.{ℕ, ◌≡◌, refl, some, List, [], ◌∷◌, arith}
use tps_sistemas_operativos.Fork.Primes.{terminal, redirected, printed, main}
use tps_sistemas_operativos.Fork.Primes.Sieve.{ArePrimes, main-ArePrimes}

up_to_thirty :
    main terminal 2 30 ≡ printed (some (2 ∷ 3 ∷ 5 ∷ 7 ∷ 11 ∷ 13 ∷ 17 ∷ 19 ∷ 23 ∷ 29 ∷ []))
unfolding main
up_to_thirty = refl

main-ArePrimes_example :
    (out : List ℕ) × (main terminal 2 30 ≡ printed (some out)) × ArePrimes 2 30 out
main-ArePrimes_example = main-ArePrimes 30 (omega arith)

-- Into a file, every process repeats the lines of those before it.
repeated : main redirected 2 3 ≡ printed (some (2 ∷ 3 ∷ 2 ∷ 3 ∷ 2 ∷ []))
unfolding main
repeated = refl
