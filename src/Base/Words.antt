-- ===== src/Base/Words.antt =====
-- The `int` and `unsigned` of 32 bits as bit patterns: numbers below 2^32, read as signed by
-- `is_negative` and `signed_leb`.
use Prim.Native.Nat.{ℕ, ◌+◌, ◌-◌, ◌*◌, ◌/◌, ◌%◌, ◌^◌}
use mathlib.Core.Bool.{Bool}
use tps_sistemas_operativos.Base.Tests.{ltb, leb, if◌then◌else◌}

abbrev pub word : ℕ
word = 2 ^ 32

abbrev pub half_word : ℕ
half_word = 2 ^ 31

abbrev pub add32 : ℕ → ℕ → ℕ
add32 a b = (a + b) % word

abbrev pub sub32 : ℕ → ℕ → ℕ
sub32 a b = (a + (word - b % word)) % word

abbrev pub mul32 : ℕ → ℕ → ℕ
mul32 a b = a * b % word

abbrev pub is_negative : ℕ → Bool
is_negative a = leb half_word a

abbrev pub signed_leb : ℕ → ℕ → Bool
signed_leb a b = leb ((a + half_word) % word) ((b + half_word) % word)

abbrev pub signed_ltb : ℕ → ℕ → Bool
signed_ltb a b = ltb ((a + half_word) % word) ((b + half_word) % word)

-- Signed division by a positive constant goes towards zero.
abbrev pub signed_div : ℕ → ℕ → ℕ
signed_div a d = if is_negative a then sub32 0 ((word - a) / d) else a / d
