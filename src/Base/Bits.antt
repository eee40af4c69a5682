-- ===== src/Base/Bits.antt =====
-- The bitwise operators of C on words of 32 bits, by their binary digits.
use Prim.Native.Nat.{ℕ, zero, suc, ◌+◌, ◌*◌, ◌/◌, ◌%◌, ◌<◌, ◌^◌}
use mathlib.Core.Path.{◌≡◌, refl, ◌∙◌, ap}
use native.Mathlib.Omega.{arith}
use native.Mathlib.Nat.{pow-suc}
use tps_sistemas_operativos.Base.Tests.{◌==◌, if◌then◌else◌}

-- `a | b`, on that many digits.
unfoldable pub or_bits : ℕ → ℕ → ℕ → ℕ
or_bits zero a b = 0
or_bits (suc n) a b = (if a % 2 + b % 2 == 0 then 0 else 1) + or_bits n (a / 2) (b / 2) * 2

-- `a & b`
unfoldable pub and_bits : ℕ → ℕ → ℕ → ℕ
and_bits zero a b = 0
and_bits (suc n) a b = a % 2 * (b % 2) + and_bits n (a / 2) (b / 2) * 2

unfoldable pub or32 : ℕ → ℕ → ℕ
or32 a b = or_bits 32 a b

unfoldable pub and32 : ℕ → ℕ → ℕ
and32 a b = and_bits 32 a b

or_bits-zero : (n a : ℕ) → a < 2 ^ n → or_bits n a 0 ≡ a
unfolding or_bits
or_bits-zero zero a lt = omega (arith, lt)
or_bits-zero (suc n) a lt =
    let rest = or_bits-zero n (a / 2) (omega (arith, pow-suc 2 n, lt)) in ground (arith, rest)

or_bits-even : (n a b : ℕ) → or_bits (suc n) (a * 2) b ≡ b % 2 + or_bits n a (b / 2) * 2
unfolding or_bits
or_bits-even n a b = let half : a * 2 / 2 ≡ a = omega arith in rw half (ground arith)

-- A number of `k` digits joins a multiple of 2 ^ k without carries.
or_bits_apart :
    (k n a b : ℕ) → a < 2 ^ n → b < 2 ^ k → or_bits (k + n) (a * 2 ^ k) b ≡ a * 2 ^ k + b
or_bits_apart zero n a b lt lt' =
    let none : b ≡ 0 = omega (arith, lt') in
    let one : a * 2 ^ 0 ≡ a = omega arith in
    let same : 0 + n ≡ n = omega arith in rw (none, one, same) (omega (arith, or_bits-zero n a lt))
or_bits_apart (suc k) n a b lt lt' =
    let twice : a * 2 ^ suc k ≡ a * 2 ^ k * 2 = rw (pow-suc 2 k) (grind arith) in
    let more : suc k + n ≡ suc (k + n) = omega arith in
    let rest = or_bits_apart k n a (b / 2) lt (omega (arith, pow-suc 2 k, lt')) in
    rw (twice, more) (omega (arith, or_bits-even (k + n) (a * 2 ^ k) b, rest))

or_bits_both :
    (k n a b c : ℕ)
    → c < 2 ^ k
    → or_bits (k + n) (a * 2 ^ k) (b * 2 ^ k + c) ≡ or_bits n a b * 2 ^ k + c
or_bits_both zero n a b c lt =
    let none : c ≡ 0 = omega (arith, lt) in
    let one : (x : ℕ) → x * 2 ^ 0 ≡ x = (λ x. omega arith) in
    let same : 0 + n ≡ n = omega arith in
    let right : b * 2 ^ 0 + c ≡ b = omega (arith, none, one b) in
    rw (same, right, one a, one (or_bits n a b)) (omega (arith, none))
or_bits_both (suc k) n a b c lt =
    let twice : (x : ℕ) → x * 2 ^ suc k ≡ x * 2 ^ k * 2 = (λ x. rw (pow-suc 2 k) (grind arith)) in
    let more : suc k + n ≡ suc (k + n) = omega arith in
    let half : (b * 2 ^ k * 2 + c) / 2 ≡ b * 2 ^ k + c / 2 = omega arith in
    let rest = or_bits_both k n a b (c / 2) (omega (arith, pow-suc 2 k, lt)) in
    rw (more, twice a, twice b, twice (or_bits n a b))
      (omega (
        arith,
        or_bits-even (k + n) (a * 2 ^ k) (b * 2 ^ k * 2 + c),
        ap (or_bits (k + n) (a * 2 ^ k)) half,
        rest,
      ))

-- Two entries join their pages' addresses, too.
pub or32-pages : (p q f : ℕ) → f < 4096 → or32 (p * 4096) (q * 4096 + f) ≡ or_bits 20 p q * 4096 + f
unfolding or32
or32-pages p q f lt = or_bits_both 12 20 p q f lt

or_bits-lt : (n a b : ℕ) → or_bits n a b < 2 ^ n
unfolding or_bits
or_bits-lt zero a b = omega arith
or_bits-lt (suc n) a b =
    let rest = or_bits-lt n (a / 2) (b / 2) in ground (arith, rest, pow-suc 2 n)

pub or_bits-page : (p q : ℕ) → or_bits 20 p q < 1048576
or_bits-page p q = or_bits-lt 20 p q

-- A page's address takes the low twelve bits of an entry.
pub or32-page : (p f : ℕ) → p < 1048576 → f < 4096 → or32 (p * 4096) f ≡ p * 4096 + f
unfolding or32
or32-page p f lt lt' = or_bits_apart 12 20 p f lt lt'

or_bits-one :
    (n p f : ℕ) → p * 2 + f < 2 ^ suc n → f < 2 → or_bits (suc n) (p * 2 + f) 1 ≡ p * 2 + 1
unfolding or_bits
or_bits-one n p f lt lt' =
    let half : (p * 2 + f) / 2 ≡ p = omega (arith, lt') in
    let rest = or_bits-zero n p (omega (arith, pow-suc 2 n, lt)) in rw half (ground (arith, rest))

pub or32-one : (w : ℕ) → w < 4294967296 → or32 w 1 ≡ w / 2 * 2 + 1
unfolding or32
or32-one w lt =
    let parts : w ≡ w / 2 * 2 + w % 2 = omega arith in
    let two : 2 ^ 32 ≡ 4294967296 = refl in
    ap (λ v. or_bits 32 v 1) parts
    ∙ or_bits-one 31 (w / 2) (w % 2) (omega (arith, lt)) (omega arith)
