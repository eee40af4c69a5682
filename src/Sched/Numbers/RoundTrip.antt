-- ===== src/Sched/Numbers/RoundTrip.antt =====
-- strtol on what printnum prints.
use native.Mathlib.Nat.{pow-suc, div-add-mod', mod-lt, mod-eq_of_lt, mul-le-mul_left}
use mathlib.Core.Path.{subst}
use tps_sistemas_operativos.Base.{
  ℕ, zero, suc, ◌+◌, ◌*◌, ◌-◌, ◌/◌, ◌%◌, ◌^◌, ◌<◌, ◌≤◌, ◌≡◌, ◌⊎◌, refl, ◌∙◌, ap, false, inl, inr,
  Bool-cases, ◌==◌, ◌||◌, leb, arith, Option, some, List, [], ◌∷◌, ◌++◌, append_assoc, replicate,
}
use tps_sistemas_operativos.Sched.Numbers.{
  digit_char, put_digit, printnum, skip_blanks, skip_sign, skip_prefix, digit, read_digits, signed,
  strtol,
}

-- Digits that take the value from `v` to `w`.
abbrev Reads : ℕ → ℕ → List ℕ → ℕ → Type 0
Reads base v [] w = v ≡ w
Reads base v (c ∷ s) w =
    (d : ℕ) × (digit c ≡ some d) × (d < base) × Reads base ((v * base + d) % 2 ^ 32) s w

Reads-append :
    (base v w d c : ℕ) (s : List ℕ)
    → Reads base v s w
    → digit c ≡ some d
    → d < base
    → Reads base v (s ++ c ∷ []) ((w * base + d) % 2 ^ 32)
Reads-append base v w d c [] e is lt = (d, is, lt, ap (λ u. (u * base + d) % 2 ^ 32) e)
Reads-append base v w d c (c' ∷ s) (d', is', lt', r) is lt =
    (d', is', lt', Reads-append base ((v * base + d') % 2 ^ 32) w d c s r is lt)

read_digits-Reads : (base v w : ℕ) (s : List ℕ) → Reads base v s w → read_digits base v s ≡ (w, [])
unfolding read_digits
read_digits-Reads base v w [] e = ap (λ u. (u, [])) e
read_digits-Reads base v w (c ∷ s) (d, is, lt, r) =
    let below : leb base d ≡ false = ground (arith, lt) in
    rw (read_digits, is, below) (read_digits-Reads base ((v * base + d) % 2 ^ 32) w s r)

digit-digit_char : (d : ℕ) → d < 16 → (c : ℕ) × (digit_char d ≡ some c) × (digit c ≡ some d)
unfolding digit_char digit
digit-digit_char d lt = elim (Bool-cases (leb d 9)) [
  | inl e ↦ (48 + d, rw e refl, ground arith)
  | inr e ↦ (87 + d, ground arith, ground arith)
]

-- The values of the digits.
shifted : (num base : ℕ) → 2 ≤ base → num < 2 ^ 32 → (num / base * base + num % base) % 2 ^ 32 ≡ num
shifted num base two lt = ap (λ u. u % 2 ^ 32) (div-add-mod' num base) ∙ mod-eq_of_lt lt

halved : (num base : ℕ) → 2 ≤ base → num / base + num / base ≤ num
halved num base two =
    let at = mul-le-mul_left (num / base) two in omega (arith, at, div-add-mod' num base)

-- What printnum prints: the padding, and at least one digit.
record Prints (base num padc : ℕ) (printed : Option (List ℕ)) : Type 0 where
  pads : ℕ
  first : ℕ
  rest : List ℕ
  prints : printed ≡ some (replicate pads padc ++ first ∷ rest)
  reads : Reads base 0 (first ∷ rest) num

fuel_left : (fuel num : ℕ) → 2 ≤ num → num < 2 ^ suc fuel → 0 < fuel
fuel_left zero num two lt = absurd (omega (arith, two, lt))
fuel_left (suc fuel) num two lt = omega arith

module _ (base padc : ℕ) (two : 2 ≤ base) (low : base ≤ 16) where
  last-lt : (num : ℕ) → num % base < base
  last-lt num = mod-lt num (omega (arith, two))

  last_digit :
      (num : ℕ) → (c : ℕ) × (digit_char (num % base) ≡ some c) × (digit c ≡ some (num % base))
  last_digit num = digit-digit_char (num % base) (omega (arith, low, last-lt num))

  one_digit : (num : ℕ) → num < base → num < 2 ^ 32 → (0 * base + num % base) % 2 ^ 32 ≡ num
  one_digit num lt word = omega (arith, word, mod-eq_of_lt lt)

  printnum-Prints :
      (fuel num width : ℕ)
      → num < 2 ^ fuel
      → num < 2 ^ 32
      → 0 < fuel
      → Prints base num padc (printnum fuel num base width padc)
  unfolding printnum put_digit
  printnum-Prints zero num width lt word some_fuel = absurd (omega (arith, some_fuel))
  printnum-Prints (suc fuel) num width lt word some_fuel =
      let (c, is, value) = last_digit num in
      elim (Bool-cases (leb base num)) [
        | inl more ↦
            let small : num / base < 2 ^ fuel =
              omega (arith, lt, halved num base two, pow-suc 2 fuel) in
            let front =
              printnum-Prints fuel (num / base) (width - 1) small
                (omega (arith, word, halved num base two))
                (fuel_left fuel num (ground (arith, two)) lt) in
            record {
              pads = front.pads;
              first = front.first;
              rest = front.rest ++ c ∷ [];
              prints = rw (more, front.prints, is, append_assoc) refl;
              reads =
                  subst (Reads base 0 (front.first ∷ front.rest ++ c ∷ []))
                    (shifted num base two word)
                    (Reads-append base 0 (num / base) (num % base) c (front.first ∷ front.rest)
                      (front.reads) value (last-lt num));
            }
        | inr less ↦ record {
          pads = width - 1;
          first = c;
          rest = [];
          prints = rw (less, is) refl;
          reads = (num % base, value, last-lt num, one_digit num (ground arith) word);
        }
      ]

-- What strtol tests at the first digits.
record Plain (c : ℕ) : Type 0 where
  blank : (c == 32 || c == 9) ≡ false
  plus : (c == 43) ≡ false
  minus : (c == 45) ≡ false
  no_x : (c == 120) ≡ false

digit-Plain : (c d : ℕ) → digit c ≡ some d → d < 16 → Plain c
unfolding digit
digit-Plain c d is lt = record {
  blank = ground arith;
  plus = ground arith;
  minus = ground arith;
  no_x = ground arith;
}

no_base : (base : ℕ) → 2 ≤ base → (base == 0) ≡ false
no_base base two = ground (arith, two)

skip_prefix-keeps :
    (base c c' : ℕ) (s : List ℕ)
    → 2 ≤ base
    → (c' == 120) ≡ false
    → skip_prefix base (c ∷ c' ∷ s) ≡ (base, c ∷ c' ∷ s)
unfolding skip_prefix
skip_prefix-keeps base c c' s two no_x = elim (Bool-cases (base == 16)) [
  | inl e ↦ elim (Bool-cases (c == 48)) [
    | inl e' ↦ rw (no_base base two, e, e', no_x) refl
    | inr e' ↦ rw (no_base base two, e, e') refl
  ]
  | inr e ↦ rw (no_base base two, e) refl
]

module _ (base : ℕ) (two : 2 ≤ base) (low : base ≤ 16) where
  skip_prefix-Reads : (v w : ℕ) (s : List ℕ) → Reads base v s w → skip_prefix base s ≡ (base, s)
  unfolding skip_prefix
  skip_prefix-Reads v w [] r = rw (no_base base two) refl
  skip_prefix-Reads v w (c ∷ []) r = rw (no_base base two) refl
  skip_prefix-Reads v w (c ∷ c' ∷ s) (d, is, lt, (d', is', lt', r)) =
      skip_prefix-keeps base c c' s two ((digit-Plain c' d' is' (omega (arith, lt', low))).no_x)

  strtol-Reads : (c w : ℕ) (s : List ℕ) → Reads base 0 (c ∷ s) w → strtol (c ∷ s) base ≡ (w, [])
  unfolding strtol skip_blanks skip_sign signed
  strtol-Reads c w s r =
      let first = digit-Plain c (r.0) (r.1) (omega (arith, r.2, low)) in
      rw
        (
          first.blank,
          first.plus,
          first.minus,
          skip_prefix-Reads 0 w (c ∷ s) r,
          read_digits-Reads base 0 w (c ∷ s) r,
        )
        refl

  skip_blanks-pads : (pads : ℕ) (s : List ℕ) → strtol (replicate pads 32 ++ s) base ≡ strtol s base
  unfolding strtol skip_blanks
  skip_blanks-pads zero s = refl
  skip_blanks-pads (suc pads) s = skip_blanks-pads pads s

  Reads-zeros :
      (pads w : ℕ) (s : List ℕ) → Reads base 0 s w → Reads base 0 (replicate pads 48 ++ s) w
  unfolding digit
  Reads-zeros zero w s r = r
  Reads-zeros (suc pads) w s r =
      let same : 0 ≡ (0 * base + 0) % 2 ^ 32 = omega arith in
      (
        0,
        refl,
        omega (arith, two),
        subst (λ v. Reads base v (replicate pads 48 ++ s) w) same (Reads-zeros pads w s r),
      )

  -- With blanks or zeros for padding.
  strtol-pads :
      (pads padc c w : ℕ) (s : List ℕ)
      → (padc ≡ 32) ⊎ (padc ≡ 48)
      → Reads base 0 (c ∷ s) w
      → strtol (replicate pads padc ++ c ∷ s) base ≡ (w, [])
  strtol-pads pads padc c w s (inl e) r =
      rw e (skip_blanks-pads pads (c ∷ s) ∙ strtol-Reads c w s r)
  strtol-pads zero padc c w s (inr e) r = strtol-Reads c w s r
  strtol-pads (suc pads) padc c w s (inr e) r =
      rw e (strtol-Reads 48 w _ (Reads-zeros (suc pads) w (c ∷ s) r))

-- A number below 2^32 that printnum prints to any width, in a base from 2 to 16 and padded with blanks or
-- zeros, strtol reads back in this base: the printing ends within 64 calls, strtol returns the number, and
-- stops at the end of the text.
pub strtol-printnum :
    (num base width padc : ℕ)
    → 2 ≤ base
    → base ≤ 16
    → num < 2 ^ 32
    → (padc ≡ 32) ⊎ (padc ≡ 48)
    → (out : List ℕ) × (printnum 64 num base width padc ≡ some out) × (strtol out base ≡ (num, []))
strtol-printnum num base width padc two low word padding =
    let text =
      printnum-Prints base padc two low 64 num width (omega (arith, word)) word (omega arith) in
    (
      replicate (text.pads) padc ++ text.first ∷ text.rest,
      text.prints,
      strtol-pads base two low (text.pads) padc (text.first) num (text.rest) padding (text.reads),
    )
