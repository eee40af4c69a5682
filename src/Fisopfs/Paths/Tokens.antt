-- ===== src/Fisopfs/Paths/Tokens.antt =====
-- The components that find_inode of fisopfs/fisopfs.c takes from a path.
use mathlib.Core.List.{append-nil}
use tps_sistemas_operativos.Base.{
  ℕ, suc, ◌+◌, ◌<◌, ◌≤◌, ◌≡◌, refl, true, false, none, some, List, [], ◌∷◌, ◌++◌, length, arith,
  ne→==, le→ltb, All, append_assoc, ap, ◌∙◌, ltb, ltb→lt, Bool-cases, inl, inr, Bool, if◌then◌else◌,
  lt→ltb,
}
use tps_sistemas_operativos.Fisopfs.Disk.{Name, max_level, filename_len}
use tps_sistemas_operativos.Fisopfs.Paths.{tokens, finish, store_tokens, row_fits, cons_row}
use tps_sistemas_operativos.Fisopfs.Paths.Split.{Plain}

-- A path of the components, with a delimiter before each.
abbrev pub join : List Name → Name
join [] = []
join (t ∷ ts) = 47 ∷ t ++ join ts

-- A component is not empty and has no delimiter.
abbrev pub Component : Name → Type 0
Component t = Plain t × (0 < length t)

finish-append :
    (word : Name) (c : ℕ) (rest : List Name)
    → finish (word ++ c ∷ []) rest ≡ (word ++ c ∷ []) ∷ rest
finish-append [] c rest = refl
finish-append (x ∷ word) c rest = refl

-- A stretch is collected up to the next delimiter or the end.
tokens-append :
    (word t : Name) (ts : List Name)
    → Plain t
    → tokens word (t ++ join ts) ≡ finish (word ++ t) (tokens [] (join ts))
unfolding tokens
tokens-append word [] [] h = rw append-nil
tokens-append word [] (t ∷ ts) h = rw append-nil
tokens-append word (c ∷ t) ts h =
    rw (ne→== c 47 (h.0), tokens) (tokens-append (word ++ c ∷ []) t ts (h.1) ∙ rw append_assoc)

-- The components of a path are those that it was joined from.
pub tokens-join : (ts : List Name) → All Component ts → tokens [] (join ts) ≡ ts
unfolding tokens
tokens-join [] h = refl
tokens-join ([] ∷ ts) h = absurd (omega (arith, h.0.1))
tokens-join ((c ∷ t) ∷ ts) h =
    tokens-append [] (c ∷ t) ts (h.0.0) ∙ ap (λ r. (c ∷ t) ∷ r) (tokens-join ts (h.1))

no_row : (t : Name) (b : Bool) → (if b then cons_row t none else none) ≡ none
no_row t true = refl
no_row t false = refl

-- More tokens than rows have no place: the copy of the eleventh goes behind the array.
pub store_tokens-none :
    (level : ℕ) (ts : List Name)
    → level ≤ max_level
    → max_level < level + length ts
    → store_tokens level ts ≡ none
unfolding store_tokens
store_tokens-none level [] h m = absurd (omega arith)
store_tokens-none level (t ∷ ts) h m = elim (Bool-cases (ltb level max_level)) [
  | inl more ↦
      rw
        (
          le→ltb max_level level h,
          store_tokens-none (suc level) ts (omega (arith, ltb→lt level max_level more))
              (omega arith),
        )
        (no_row t (row_fits level t))
  | inr last ↦ rw (le→ltb max_level level h, last)
]

-- As many tokens as rows, each shorter than a row, are all copied.
pub store_tokens-some :
    (level : ℕ) (ts : List Name)
    → level + length ts ≤ max_level
    → All (λ t. length t < filename_len) ts
    → store_tokens level ts ≡ some (some ts)
unfolding store_tokens
store_tokens-some level [] h short = refl
store_tokens-some level (t ∷ ts) h short = rw (
  le→ltb max_level level (omega arith),
  lt→ltb level max_level (omega arith),
  lt→ltb (length t) filename_len (short.0),
  store_tokens-some (suc level) ts (omega arith) (short.1),
)
