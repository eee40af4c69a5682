-- ===== src/Sched/Numbers.antt =====
-- Numbers as text: printnum of lib/printfmt.c and strtol of lib/string.c. A string is its characters up to
-- the NUL; a `long` is its bit pattern below 2^32.
pub mod RoundTrip
mod Tests
use tps_sistemas_operativos.Base.{
  ℕ, zero, suc, ◌+◌, ◌*◌, ◌-◌, ◌/◌, ◌%◌, ◌^◌, Bool, true, false, ◌&&◌, ◌||◌, ◌==◌, leb,
  if◌then◌else◌, Option, none, some, List, [], ◌∷◌, ◌++◌, replicate,
}

-- `"0123456789abcdef"[d]`, for a digit
unfoldable pub digit_char : ℕ → Option ℕ
digit_char d = if leb d 9 then some (48 + d) else if leb d 15 then some (87 + d) else none

unfoldable pub put_digit : Option ℕ → Option (List ℕ) → Option (List ℕ)
put_digit (some c) (some out) = some (out ++ c ∷ [])
put_digit (some c) none = none
put_digit none out = none

-- What putch gets, in order, with `fuel` calls at most; a width below 0 is 0.
unfoldable pub printnum : ℕ → ℕ → ℕ → ℕ → ℕ → Option (List ℕ)
printnum zero num base width padc = none
printnum (suc fuel) num base width padc =
    let front = printnum fuel (num / base) base (width - 1) padc in
    put_digit (digit_char (num % base))
      (if leb base num then front else some (replicate (width - 1) padc))

unfoldable pub skip_blanks : List ℕ → List ℕ
skip_blanks [] = []
skip_blanks (c ∷ s) = if c == 32 || c == 9 then skip_blanks s else c ∷ s

unfoldable pub skip_sign : List ℕ → Bool × List ℕ
skip_sign [] = (false, [])
skip_sign (c ∷ s) = if c == 43 then (false, s) else if c == 45 then (true, s) else (false, c ∷ s)

-- The base and the rest, once "0x" or "0" is skipped.
unfoldable pub skip_prefix : ℕ → List ℕ → ℕ × List ℕ
skip_prefix base [] = (if base == 0 then 10 else base, [])
skip_prefix base (c ∷ []) =
    if base == 0 && c == 48 then (8, []) else (if base == 0 then 10 else base, c ∷ [])
skip_prefix base (c ∷ c' ∷ s) =
    if (base == 0 || base == 16) && (c == 48 && c' == 120)
    then (16, s)
    else if base == 0 && c == 48
    then (8, c' ∷ s)
    else (if base == 0 then 10 else base, c ∷ c' ∷ s)

unfoldable pub digit : ℕ → Option ℕ
digit c =
    if leb 48 c && leb c 57
    then some (c - 48)
    else if leb 97 c && leb c 122
    then some (c - 97 + 10)
    else if leb 65 c && leb c 90
    then some (c - 65 + 10)
    else none

-- The loop over the digits: the value, and where it stops.
unfoldable pub read_digits : ℕ → ℕ → List ℕ → ℕ × List ℕ
read_digits base val [] = (val, [])
read_digits base val (c ∷ s) = elim (digit c) [
  | none ↦ (val, c ∷ s)
  | some dig ↦
      if leb base dig then (val, c ∷ s) else read_digits base ((val * base + dig) % 2 ^ 32) s
]

unfoldable pub signed : Bool → ℕ × List ℕ → ℕ × List ℕ
signed neg (val, s) = (if neg then (2 ^ 32 - val) % 2 ^ 32 else val, s)

-- What strtol returns, and `*endptr`.
unfoldable pub strtol : List ℕ → ℕ → ℕ × List ℕ
strtol s base =
    let (neg, rest) = skip_sign (skip_blanks s) in
    let (base', rest') = skip_prefix base rest in signed neg (read_digits base' 0 rest')
