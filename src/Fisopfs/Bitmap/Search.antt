-- ===== src/Fisopfs/Bitmap/Search.antt =====
-- The laws of fisopfs/bitmap.c: what a set and a cleared bit read, and the search for a clear one.
use tps_sistemas_operativos.Base.{
  ℕ, zero, suc, ◌+◌, ◌*◌, ◌/◌, ◌%◌, ◌<◌, ◌≤◌, ◌≡◌, refl, ◌≢◌, ◌⊎◌, inl, inr, true, false, Option,
  none, some, length, get_or, ◌==◌, if◌then◌else◌, arith, Bool-cases, get_or-set_self,
  get_or-set_ne, ap, ltb, ltb→lt, ltb→le, ==→eq, [], ◌∷◌, length-set, sym, ne→==, eq→==,
}
use mathlib.Core.Path.{subst}
use tps_sistemas_operativos.Fisopfs.Bitmap.{
  Bitmap, raise_bit, lower_bit, test_bit, set_bit, clear_bit, get_bit, search_word, search_words,
  found_or, get_free_bit,
}

test-raise_self : (w k : ℕ) → test_bit (raise_bit w k) k ≡ true
unfolding test_bit raise_bit
test-raise_self w zero = eq→== _ _ (omega arith)
test-raise_self w (suc k) =
    let e : (w % 2 + raise_bit (w / 2) k * 2) / 2 ≡ raise_bit (w / 2) k = omega arith in
    rw e (test-raise_self (w / 2) k)

test-lower_self : (w k : ℕ) → test_bit (lower_bit w k) k ≡ false
unfolding test_bit lower_bit
test-lower_self w zero = ne→== _ _ (omega arith)
test-lower_self w (suc k) =
    let e : (w % 2 + lower_bit (w / 2) k * 2) / 2 ≡ lower_bit (w / 2) k = omega arith in
    rw e (test-lower_self (w / 2) k)

test-raise_ne : (w k j : ℕ) → k ≢ j → test_bit (raise_bit w k) j ≡ test_bit w j
unfolding test_bit raise_bit
test-raise_ne w zero zero h = absurd (h refl)
test-raise_ne w zero (suc j) h = ap (λ v. test_bit v j) (omega arith)
test-raise_ne w (suc k) zero h = ap (λ v. v == 1) (omega arith)
test-raise_ne w (suc k) (suc j) h =
    let e : (w % 2 + raise_bit (w / 2) k * 2) / 2 ≡ raise_bit (w / 2) k = omega arith in
    rw e (test-raise_ne (w / 2) k j (λ p. h (ap suc p)))

test-lower_ne : (w k j : ℕ) → k ≢ j → test_bit (lower_bit w k) j ≡ test_bit w j
unfolding test_bit lower_bit
test-lower_ne w zero zero h = absurd (h refl)
test-lower_ne w zero (suc j) h = ap (λ v. test_bit v j) (omega arith)
test-lower_ne w (suc k) zero h = ap (λ v. v == 1) (omega arith)
test-lower_ne w (suc k) (suc j) h =
    let e : (w % 2 + lower_bit (w / 2) k * 2) / 2 ≡ lower_bit (w / 2) k = omega arith in
    rw e (test-lower_ne (w / 2) k j (λ p. h (ap suc p)))

-- One word changes: the same bit of it, another bit of it, or a bit of another word.
module _ (b : Bitmap) (n : ℕ) (inside : n / 32 < length b) where
  pub get-set_self : get_bit (set_bit b n) n ≡ true
  unfolding get_bit set_bit
  get-set_self =
      rw (get_or-set_self b (n / 32) (raise_bit (get_or b (n / 32) 0) (n % 32)) 0 inside)
        (test-raise_self (get_or b (n / 32) 0) (n % 32))

  pub get-clear_self : get_bit (clear_bit b n) n ≡ false
  unfolding get_bit clear_bit
  get-clear_self =
      rw (get_or-set_self b (n / 32) (lower_bit (get_or b (n / 32) 0) (n % 32)) 0 inside)
        (test-lower_self (get_or b (n / 32) 0) (n % 32))

  word_cases : (m : ℕ) → n ≢ m → (n / 32 ≢ m / 32) ⊎ ((m / 32 ≡ n / 32) × (n % 32 ≢ m % 32))
  word_cases m h = elim (Bool-cases (n / 32 == m / 32)) [
    | inl same ↦ inr (ground arith, λ e. absurd (h (ground arith)))
    | inr other ↦ inl (ground arith)
  ]

  pub get-set_ne : (m : ℕ) → n ≢ m → get_bit (set_bit b n) m ≡ get_bit b m
  unfolding get_bit set_bit
  get-set_ne m h = elim (word_cases m h) [
    | inl other ↦
        rw (get_or-set_ne b (n / 32) (m / 32) (raise_bit (get_or b (n / 32) 0) (n % 32)) 0 other)
    | inr (same, differ) ↦
        rw (same, get_or-set_self b (n / 32) (raise_bit (get_or b (n / 32) 0) (n % 32)) 0 inside)
          (test-raise_ne (get_or b (n / 32) 0) (n % 32) (m % 32) differ)
  ]

  pub get-clear_ne : (m : ℕ) → n ≢ m → get_bit (clear_bit b n) m ≡ get_bit b m
  unfolding get_bit clear_bit
  get-clear_ne m h = elim (word_cases m h) [
    | inl other ↦
        rw (get_or-set_ne b (n / 32) (m / 32) (lower_bit (get_or b (n / 32) 0) (n % 32)) 0 other)
    | inr (same, differ) ↦
        rw (same, get_or-set_self b (n / 32) (lower_bit (get_or b (n / 32) 0) (n % 32)) 0 inside)
          (test-lower_ne (get_or b (n / 32) 0) (n % 32) (m % 32) differ)
  ]

-- The numbers from `lo` below `hi` have their bits set.
abbrev pub AllSet : Bitmap → ℕ → ℕ → Type 0
AllSet b lo hi = (n : ℕ) → lo ≤ n → n < hi → get_bit b n ≡ true

-- `r` is the first number from `lo` below `hi` whose bit is clear, or none, where there is no such.
abbrev pub FirstClear : Bitmap → ℕ → ℕ → Option ℕ → Type 0
FirstClear b lo hi none = AllSet b lo hi
FirstClear b lo hi (some n) = (lo ≤ n) × (n < hi) × (get_bit b n ≡ false) × AllSet b lo n

AllSet-join : (b : Bitmap) (lo mid hi : ℕ) → AllSet b lo mid → AllSet b mid hi → AllSet b lo hi
AllSet-join b lo mid hi f g n p q = elim (Bool-cases (ltb n mid)) [
  | inl below ↦ f n p (ltb→lt n mid below)
  | inr above ↦ g n (ltb→le n mid above) q
]

FirstClear-join :
    (b : Bitmap) (lo mid hi : ℕ) (r : Option ℕ)
    → lo ≤ mid
    → AllSet b lo mid
    → FirstClear b mid hi r
    → FirstClear b lo hi r
FirstClear-join b lo mid hi none le f g = AllSet-join b lo mid hi f g
FirstClear-join b lo mid hi (some n) le f (p, q, clear, g) =
    (omega arith, q, clear, AllSet-join b lo mid n f g)

search_word-FirstClear :
    (b : Bitmap) (i j rounds : ℕ)
    → FirstClear b (j + i * 32) (j + i * 32 + rounds) (search_word b i j rounds)
unfolding search_word
search_word-FirstClear b i j zero = λ n p q. absurd (omega arith)
search_word-FirstClear b i j (suc rounds) = elim (Bool-cases (get_bit b (j + i * 32))) [
  | inl taken ↦ rw taken (
      FirstClear-join b (j + i * 32) (suc j + i * 32) (j + i * 32 + suc rounds)
        (search_word b i (suc j) rounds) (omega arith)
        (λ n p q. let e : n ≡ j + i * 32 = omega arith in rw e taken)
        (let e : j + i * 32 + suc rounds ≡ suc j + i * 32 + rounds = omega arith in
          rw e (search_word-FirstClear b i (suc j) rounds)))
  | inr clear ↦ rw clear (omega arith, omega arith, clear, λ n p q. absurd (omega arith))
]

found-FirstClear :
    (b : Bitmap) (lo mid hi : ℕ) (r rest : Option ℕ)
    → lo ≤ mid
    → mid ≤ hi
    → FirstClear b lo mid r
    → FirstClear b mid hi rest
    → FirstClear b lo hi (found_or r rest)
found-FirstClear b lo mid hi none rest p q f g = FirstClear-join b lo mid hi rest p f g
found-FirstClear b lo mid hi (some n) rest p q (a, c, clear, f) g = (a, omega arith, clear, f)

search_words-FirstClear :
    (b : Bitmap) (i rounds : ℕ)
    → FirstClear b (i * 32) ((i + rounds) * 32) (search_words b i rounds)
unfolding search_words
search_words-FirstClear b i zero = λ n p q. absurd (omega arith)
search_words-FirstClear b i (suc rounds) =
    found-FirstClear b (i * 32) (suc i * 32) ((i + suc rounds) * 32) (search_word b i 0 32)
      (search_words b (suc i) rounds) (omega arith) (omega arith)
      (let e : suc i * 32 ≡ 0 + i * 32 + 32 = omega arith in
        let e' : i * 32 ≡ 0 + i * 32 = omega arith in
        subst (λ v. FirstClear b v (suc i * 32) (search_word b i 0 32)) (sym e')
          (subst (λ v. FirstClear b (0 + i * 32) v (search_word b i 0 32)) (sym e)
            (search_word-FirstClear b i 0 32)))
      (let e : (i + suc rounds) * 32 ≡ (suc i + rounds) * 32 = omega arith in
        rw e (search_words-FirstClear b (suc i) rounds))

-- get_free_bit returns the lowest number whose bit is clear, and -1 exactly if the bits of all the
-- words are set.
pub get_free_bit-FirstClear : (b : Bitmap) → FirstClear b 0 (length b * 32) (get_free_bit b)
unfolding get_free_bit
get_free_bit-FirstClear b =
    let e : length b * 32 ≡ (0 + length b) * 32 = omega arith in
    rw e (search_words-FirstClear b 0 (length b))

-- The bits after set_bit, as a map: the one at `n` is set and each other is as before.
pub get-set :
    (b : Bitmap) (n m : ℕ)
    → n < length b * 32
    → get_bit (set_bit b n) m ≡ (if n == m then true else get_bit b m)
get-set b n m h = elim (Bool-cases (n == m)) [
  | inl same ↦ rw (same, ← ==→eq n m same) (get-set_self b n (omega arith))
  | inr other ↦ rw other (get-set_ne b n (omega arith) m (ground arith))
]

pub get-clear :
    (b : Bitmap) (n m : ℕ)
    → n < length b * 32
    → get_bit (clear_bit b n) m ≡ (if n == m then false else get_bit b m)
get-clear b n m h = elim (Bool-cases (n == m)) [
  | inl same ↦ rw (same, ← ==→eq n m same) (get-clear_self b n (omega arith))
  | inr other ↦ rw other (get-clear_ne b n (omega arith) m (ground arith))
]

-- Beyond the words, no bit reads as set.
get_or-beyond : (b : Bitmap) (i : ℕ) → length b ≤ i → get_or b i 0 ≡ 0
get_or-beyond [] i h = refl
get_or-beyond (w ∷ b) zero h = absurd (omega arith)
get_or-beyond (w ∷ b) (suc i) h = get_or-beyond b i (omega arith)

test_bit-zero : (k : ℕ) → test_bit 0 k ≡ false
unfolding test_bit
test_bit-zero zero = refl
test_bit-zero (suc k) = test_bit-zero k

pub get_bit-lt : (b : Bitmap) (n : ℕ) → get_bit b n ≡ true → n < length b * 32
unfolding get_bit
get_bit-lt b n h = elim (Bool-cases (ltb n (length b * 32))) [
  | inl below ↦ ltb→lt n (length b * 32) below
  | inr above ↦ absurd (
      cc (
        h,
        ap (λ w. test_bit w (n % 32))
            (get_or-beyond b (n / 32) (omega (arith, ltb→le n (length b * 32) above))),
        test_bit-zero (n % 32),
      ))
]

pub length-set_bit : (b : Bitmap) (n : ℕ) → length (set_bit b n) ≡ length b
unfolding set_bit
length-set_bit b n = length-set b _ _

pub length-clear_bit : (b : Bitmap) (n : ℕ) → length (clear_bit b n) ≡ length b
unfolding clear_bit
length-clear_bit b n = length-set b _ _
