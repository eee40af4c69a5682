-- ===== src/Fisopfs/Bitmap.antt =====
-- fisopfs/bitmap.c: a bitmap of 32-bit words, with its laws in the child.
use tps_sistemas_operativos.Base.{
  ℕ, zero, suc, ◌+◌, ◌-◌, ◌*◌, ◌/◌, ◌%◌, Bool, true, Option, none, some, List, length, get_or, set,
  ◌==◌, if◌then◌else◌,
}
pub mod Search

abbrev pub bits_per_word : ℕ
bits_per_word = 32

-- `words`, and `nwords` as its length.
abbrev pub Bitmap : Type 0
Bitmap = List ℕ

abbrev pub word_offset : ℕ → ℕ
word_offset n = n / bits_per_word

abbrev pub bit_offset : ℕ → ℕ
bit_offset n = n % bits_per_word

-- `w | 1 << k`, `w & ~(1 << k)` and `(w & 1 << k) != 0`, by the binary digits of `w`.
unfoldable pub raise_bit : ℕ → ℕ → ℕ
raise_bit w zero = w - w % 2 + 1
raise_bit w (suc k) = w % 2 + raise_bit (w / 2) k * 2

unfoldable pub lower_bit : ℕ → ℕ → ℕ
lower_bit w zero = w - w % 2
lower_bit w (suc k) = w % 2 + lower_bit (w / 2) k * 2

unfoldable pub test_bit : ℕ → ℕ → Bool
test_bit w zero = w % 2 == 1
test_bit w (suc k) = test_bit (w / 2) k

unfoldable pub set_bit : Bitmap → ℕ → Bitmap
set_bit b n = set b (word_offset n) (raise_bit (get_or b (word_offset n) 0) (bit_offset n))

unfoldable pub clear_bit : Bitmap → ℕ → Bitmap
clear_bit b n = set b (word_offset n) (lower_bit (get_or b (word_offset n) 0) (bit_offset n))

unfoldable pub get_bit : Bitmap → ℕ → Bool
get_bit b n = test_bit (get_or b (word_offset n) 0) (bit_offset n)

-- The inner loop, with `rounds` values of `j` left.
unfoldable pub search_word : Bitmap → ℕ → ℕ → ℕ → Option ℕ
search_word b i j zero = none
search_word b i j (suc rounds) =
    let rest = search_word b i (suc j) rounds in
    if get_bit b (j + i * bits_per_word) then rest else some (j + i * bits_per_word)

-- The outer loop, with `rounds` words left. What the inner loop returns, it returns.
abbrev pub found_or : Option ℕ → Option ℕ → Option ℕ
found_or none rest = rest
found_or (some n) rest = some n

unfoldable pub search_words : Bitmap → ℕ → ℕ → Option ℕ
search_words b i zero = none
search_words b i (suc rounds) =
    found_or (search_word b i 0 bits_per_word) (search_words b (suc i) rounds)

-- `none` is -1.
unfoldable pub get_free_bit : Bitmap → Option ℕ
get_free_bit b = search_words b 0 (length b)
