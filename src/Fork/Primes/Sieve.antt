-- ===== src/Fork/Primes/Sieve.antt =====
-- What the chain of processes prints.
use native.Mathlib.Nat.{dvd_trans, dvd_of_mod-eq-zero, mod-eq-zero_of_dvd}
use mathlib.Core.List.{append-nil}
use tps_sistemas_operativos.Base.{
  ℕ, zero, suc, ◌+◌, ◌-◌, ◌%◌, ◌<◌, ◌≤◌, ◌≡◌, ◌≢◌, ◌⊎◌, refl, sym, ◌∙◌, ap, false, inl, inr,
  Bool-cases, ◌==◌, ==→eq, ne→==, ltb, le→ltb, arith, some, List, [], ◌∷◌, length,
}
use tps_sistemas_operativos.Fork.Primes.{
  feed, filter_pipe, terminal, print_line, flushed, child, printed, main,
}

abbrev pub IsPrime : ℕ → Type 0
IsPrime p = (2 ≤ p) × ((d : ℕ) → 2 ≤ d → d < p → p % d ≢ 0)

abbrev pub In : ℕ → List ℕ → Type 0
In x [] = ⊥
In x (y ∷ ys) = (x ≡ y) ⊎ In x ys

-- The numbers grow, from `k` on.
abbrev pub IsGrowing : ℕ → List ℕ → Type 0
IsGrowing k [] = Unit {0}
IsGrowing k (x ∷ xs) = (k ≤ x) × IsGrowing (suc x) xs

-- No number from 2 to below `k` divides `x`.
abbrev Clean : ℕ → ℕ → Type 0
Clean k x = (d : ℕ) → 2 ≤ d → d < k → x % d ≢ 0

divides_trans : (x d e : ℕ) → x % d ≡ 0 → d % e ≡ 0 → x % e ≡ 0
divides_trans x d e p q =
    mod-eq-zero_of_dvd e (dvd_trans e (dvd_of_mod-eq-zero e q) (dvd_of_mod-eq-zero d p))

-- A number is clean, or has a divisor below `k`.
find_divisor : (k x : ℕ) → Clean k x ⊎ ((e : ℕ) × (2 ≤ e) × (e < k) × (x % e ≡ 0))
find_divisor zero x = inl (λ d two lt. absurd (omega (arith, lt)))
find_divisor (suc k) x = elim (find_divisor k x) [
  | inr (e, two, lt, divides) ↦ inr (e, two, omega (arith, lt), divides)
  | inl clean ↦ elim (Bool-cases (x % k == 0)) [
    | inl yes_ ↦ elim (Bool-cases (ltb k 2)) [
      | inl low ↦ inl (λ d two lt. absurd (ground arith))
      | inr high ↦ inr (k, ground arith, omega arith, ==→eq _ 0 yes_)
    ]
    | inr no_ ↦ inl (λ d two lt z. elim (Bool-cases (d == k)) [
      | inl e ↦ let at : x % k ≡ 0 = ap (λ j. x % j) (sym (==→eq d k e)) ∙ z in ground arith
      | inr e ↦ clean d two (ground arith) z
    ])
  ]
]

-- What a process reads: the clean numbers from `k` to `n`, in their order.
record Reads (k n : ℕ) (xs : List ℕ) : Type 0 where
  growing : IsGrowing k xs
  holds : (x : ℕ) → In x xs → (x ≤ n) × Clean k x
  all : (x : ℕ) → k ≤ x → x ≤ n → Clean k x → In x xs

In-ge : (k : ℕ) (xs : List ℕ) (x : ℕ) → IsGrowing k xs → In x xs → k ≤ x
In-ge k [] x g at = absurd at
In-ge k (y ∷ ys) x (le, g) (inl e) = omega (arith, le, e)
In-ge k (y ∷ ys) x (le, g) (inr at) = omega (arith, le, In-ge (suc y) ys x g at)

module _ (k n p : ℕ) (rest : List ℕ) (two : 2 ≤ k) (reads : Reads k n (p ∷ rest)) where
  -- A number below the first one has a divisor that is smaller than `k`.
  skipped : (d : ℕ) → k ≤ d → d < p → (e : ℕ) × (2 ≤ e) × (e < k) × (d % e ≡ 0)
  skipped d le lt = elim (find_divisor k d) [
    | inr divided ↦ divided
    | inl clean ↦
        let bound = (reads.holds p (inl refl)).0 in
        let at = reads.all d le (omega (arith, lt, bound)) clean in
        absurd (omega (arith, lt, In-ge p (p ∷ rest) d (omega arith, reads.growing.1) at))
  ]

  -- So a number that no number below `k` divides has no divisor below the first one.
  Clean-first : (x : ℕ) → Clean k x → Clean p x
  Clean-first x clean d two' lt z = elim (Bool-cases (ltb d k)) [
    | inl low ↦ clean d two' (ground arith) z
    | inr high ↦
        let (e, two'', lt', divides) = skipped d (ground arith) lt in
        clean e two'' lt' (divides_trans x d e z divides)
  ]

  first-IsPrime : IsPrime p
  first-IsPrime =
      let le = reads.growing.0 in
      (omega (arith, le, two), Clean-first p ((reads.holds p (inl refl)).1))

IsGrowing-le : (j k : ℕ) (xs : List ℕ) → j ≤ k → IsGrowing k xs → IsGrowing j xs
IsGrowing-le j k [] le g = g
IsGrowing-le j k (x ∷ xs) le (le', g) = (omega (arith, le, le'), g)

filter_pipe-IsGrowing : (p k : ℕ) (xs : List ℕ) → IsGrowing k xs → IsGrowing k (filter_pipe p xs)
unfolding filter_pipe
filter_pipe-IsGrowing p k [] g = g
filter_pipe-IsGrowing p k (x ∷ xs) (le, g) =
    let rest = filter_pipe-IsGrowing p (suc x) xs g in
    elim (Bool-cases (x % p == 0)) [
      | inl e ↦ rw e (IsGrowing-le k (suc x) (filter_pipe p xs) (omega (arith, le)) rest)
      | inr e ↦ rw e (le, rest)
    ]

In-filter_pipe : (p x : ℕ) (xs : List ℕ) → In x (filter_pipe p xs) → In x xs × (x % p ≢ 0)
unfolding filter_pipe
In-filter_pipe p x [] at = absurd at
In-filter_pipe p x (y ∷ ys) at = elim (Bool-cases (y % p == 0)) [
  | inl e ↦
      let at' : In x (filter_pipe p ys) = rw e at at in
      let (there, ne) = In-filter_pipe p x ys at' in (inr there, ne)
  | inr e ↦
      let at' : (x ≡ y) ⊎ In x (filter_pipe p ys) = rw e at at in
      elim at' [
        | inl same ↦ (
          inl same,
          λ z. let zero_rest : y % p ≡ 0 = ap (λ w. w % p) (sym same) ∙ z in ground arith,
        )
        | inr there ↦ let (there', ne) = In-filter_pipe p x ys there in (inr there', ne)
      ]
]

length-filter_pipe : (p : ℕ) (xs : List ℕ) → length (filter_pipe p xs) ≤ length xs
unfolding filter_pipe
length-filter_pipe p [] = omega arith
length-filter_pipe p (x ∷ xs) = let rest = length-filter_pipe p xs in ground (arith, rest)

filter_pipe-keeps : (p x : ℕ) (xs : List ℕ) → In x xs → x % p ≢ 0 → In x (filter_pipe p xs)
unfolding filter_pipe
filter_pipe-keeps p x [] at ne = absurd at
filter_pipe-keeps p x (y ∷ ys) (inl same) ne =
    let kept : (y % p == 0) ≡ false = ne→== _ 0 (λ z. ne (ap (λ w. w % p) same ∙ z)) in
    rw kept (inl same)
filter_pipe-keeps p x (y ∷ ys) (inr there) ne =
    let rest = filter_pipe-keeps p x ys there ne in
    elim (Bool-cases (y % p == 0)) [ inl e ↦ rw e rest | inr e ↦ rw e (inr rest) ]

-- The right neighbour reads the clean numbers behind the first one.
module _ (k n p : ℕ) (rest : List ℕ) (two : 2 ≤ k) (reads : Reads k n (p ∷ rest)) where
  holds_next : (x : ℕ) → In x (filter_pipe p rest) → (x ≤ n) × Clean (suc p) x
  holds_next x at =
      let (there, ne) = In-filter_pipe p x rest at in
      let (le, clean) = reads.holds x (inr there) in
      (
        le,
        λ d two' lt z. elim (Bool-cases (d == p)) [
          | inl e ↦ ne (ap (λ j. x % j) (sym (==→eq d p e)) ∙ z)
          | inr e ↦ Clean-first k n p rest two reads x clean d two' (ground arith) z
        ],
      )

  all_next : (x : ℕ) → suc p ≤ x → x ≤ n → Clean (suc p) x → In x (filter_pipe p rest)
  all_next x le le' clean =
      let low = reads.growing.0 in
      let at =
        reads.all x (omega (arith, le, low)) le'
          (λ d two' lt. clean d two' (omega (arith, lt, low))) in
      elim at [
        | inl same ↦ absurd (omega (arith, le, same))
        | inr there ↦
            filter_pipe-keeps p x rest there (clean p (omega (arith, two, low)) (omega arith))
      ]

  Reads-filter_pipe : Reads (suc p) n (filter_pipe p rest)
  Reads-filter_pipe = record {
    growing = filter_pipe-IsGrowing p (suc p) rest (reads.growing.1);
    holds = holds_next;
    all = all_next;
  }

-- The primes from `k` to `n`, each once and in their order.
pub record ArePrimes (k n : ℕ) (out : List ℕ) : Type 0 where
  pub growing : IsGrowing k out
  pub are : (x : ℕ) → In x out → (k ≤ x) × (x ≤ n) × IsPrime x
  pub all : (x : ℕ) → k ≤ x → x ≤ n → IsPrime x → In x out

ArePrimes-first :
    (k n p : ℕ) (rest out : List ℕ)
    → 2 ≤ k
    → Reads k n (p ∷ rest)
    → ArePrimes (suc p) n out
    → ArePrimes k n (p ∷ out)
ArePrimes-first k n p rest out two reads primes = record {
  growing = (reads.growing.0, primes.growing);
  are = λ x at. elim at [
    | inl same ↦
        rw same (reads.growing.0, (reads.holds p (inl refl)).0, first-IsPrime k n p rest two reads)
    | inr there ↦
        let (le, le', prime) = primes.are x there in
        let low = reads.growing.0 in (omega (arith, le, low), le', prime)
  ];
  all = λ x le le' prime.
      elim (reads.all x le le' (λ d two' lt. prime.1 d two' (omega (arith, lt, le)))) [
        | inl same ↦ inl same
        | inr there ↦ inr (primes.all x (In-ge (suc p) rest x (reads.growing.1) there) le' prime)
      ];
}

child-ArePrimes :
    (fuel k n : ℕ) (xs : List ℕ)
    → 2 ≤ k
    → length xs < fuel
    → Reads k n xs
    → (out : List ℕ) × (child terminal fuel [] xs ≡ some out) × ArePrimes k n out
unfolding child print_line
child-ArePrimes zero k n xs two lt reads = absurd (omega (arith, lt))
child-ArePrimes (suc fuel) k n [] two lt reads = (
  [],
  refl,
  record {
    growing = tt;
    are = λ x at. absurd at;
    all = λ x le le' prime.
        reads.all x le le' (λ d two' lt'. prime.1 d two' (omega (arith, lt', le)));
  },
)
child-ArePrimes (suc fuel) k n (p ∷ rest) two lt reads =
    let low = reads.growing.0 in
    let (out, ends, primes) =
      child-ArePrimes fuel (suc p) n (filter_pipe p rest) (omega (arith, two, low))
        (omega (arith, lt, length-filter_pipe p rest)) (Reads-filter_pipe k n p rest two reads) in
    (
      p ∷ out,
      ap (flushed (p ∷ []) []) ends ∙ ap (λ o. some (p ∷ o)) (append-nil out),
      ArePrimes-first k n p rest out two reads primes,
    )

length-feed : (rounds buf : ℕ) → length (feed rounds buf) ≡ rounds
unfolding feed
length-feed zero buf = refl
length-feed (suc rounds) buf = omega (arith, length-feed rounds (buf + 1))

feed-IsGrowing : (rounds buf : ℕ) → IsGrowing buf (feed rounds buf)
unfolding feed
feed-IsGrowing zero buf = tt
feed-IsGrowing (suc rounds) buf = (
  omega arith,
  IsGrowing-le (suc buf) (buf + 1) (feed rounds (buf + 1)) (omega arith)
      (feed-IsGrowing rounds (buf + 1)),
)

In-feed : (rounds buf x : ℕ) → In x (feed rounds buf) → x < buf + rounds
unfolding feed
In-feed zero buf x at = absurd at
In-feed (suc rounds) buf x (inl e) = omega (arith, e)
In-feed (suc rounds) buf x (inr at) = omega (arith, In-feed rounds (buf + 1) x at)

feed-all : (rounds buf x : ℕ) → buf ≤ x → x < buf + rounds → In x (feed rounds buf)
unfolding feed
feed-all zero buf x le lt = absurd (omega (arith, le, lt))
feed-all (suc rounds) buf x le lt = elim (Bool-cases (x == buf)) [
  | inl e ↦ inl (==→eq x buf e)
  | inr e ↦ inr (feed-all rounds (buf + 1) x (ground arith) (omega (arith, lt)))
]

-- Called with one argument, a number `n` of at least 2, and with a terminal as its standard output, the chain
-- of processes ends, and prints the primes up to `n`: each of them
-- once, in their order, and nothing else.
pub main-ArePrimes :
    (n : ℕ) → 2 ≤ n → (out : List ℕ) × (main terminal 2 n ≡ printed (some out)) × ArePrimes 2 n out
unfolding main
main-ArePrimes n two =
    let (out, ends, primes) =
      child-ArePrimes n 2 n (feed (n - 1) 2) (omega arith)
        (omega (arith, two, length-feed (n - 1) 2))
        (record {
          growing = feed-IsGrowing (n - 1) 2;
          holds = λ x at. (
            omega (arith, two, In-feed (n - 1) 2 x at),
            λ d two' lt. absurd (omega (arith, two', lt)),
          );
          all = λ x le le' clean. feed-all (n - 1) 2 x le (omega (arith, two, le'));
        }) in
    (out, rw (le→ltb n 2 two) (ap printed ends), primes)
