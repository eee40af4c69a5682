-- ===== src/Fisopfs/Paths/Split.antt =====
-- split_path of fisopfs/fisopfs.c on a parent, a delimiter and a name.
use tps_sistemas_operativos.Base.{
  ℕ, zero, suc, ◌+◌, ◌-◌, ◌<◌, ◌≤◌, ◌≡◌, refl, ◌≢◌, some, [], ◌∷◌, ◌++◌, length, get_or, take, drop,
  arith, ne→==, eq→==, lt→ltb, length-append, ap, ◌∙◌, sym, All,
}
use tps_sistemas_operativos.Fisopfs.Disk.{Name, filename_len, max_path}
use tps_sistemas_operativos.Fisopfs.Paths.{last_delim, trimmed, parent_part, split_path}

-- No character is a delimiter.
abbrev pub Plain : Name → Type 0
Plain = All (λ c. c ≢ 47)

get_or-append_right : (xs ys : Name) (i : ℕ) → get_or (xs ++ ys) (length xs + i) 0 ≡ get_or ys i 0
get_or-append_right [] ys i = let e : 0 + i ≡ i = omega arith in rw e
get_or-append_right (x ∷ xs) ys i =
    let e : suc (length xs) + i ≡ suc (length xs + i) = omega arith in
    rw e (get_or-append_right xs ys i)

take-append : (xs ys : Name) → take (length xs) (xs ++ ys) ≡ xs
take-append [] ys = refl
take-append (x ∷ xs) ys = ap (λ t. x ∷ t) (take-append xs ys)

drop-append : (xs ys : Name) (y : ℕ) → drop (suc (length xs)) (xs ++ y ∷ ys) ≡ ys
drop-append [] ys y = refl
drop-append (x ∷ xs) ys y = drop-append xs ys y

take-all : (xs : Name) (n : ℕ) → n ≡ length xs → take n xs ≡ xs
take-all [] zero h = refl
take-all [] (suc n) h = absurd (omega arith)
take-all (x ∷ xs) zero h = absurd (omega arith)
take-all (x ∷ xs) (suc n) h = ap (λ t. x ∷ t) (take-all xs n (omega arith))

Plain-get_or : (xs : Name) (i : ℕ) → Plain xs → i < length xs → get_or xs i 0 ≢ 47
Plain-get_or [] i h lt = absurd (omega arith)
Plain-get_or (x ∷ xs) zero h lt = h.0
Plain-get_or (x ∷ xs) (suc i) h lt = Plain-get_or xs i (h.1) (omega arith)

module _ (parent : Name) (name : Name) (plain : Plain name) where
  abbrev path : Name
  path = parent ++ 47 ∷ name

  path-name : (i : ℕ) → i < length name → get_or path (suc (length parent + i)) 0 ≢ 47
  path-name i lt e =
      let step : length parent + suc i ≡ suc (length parent + i) = omega arith in
      Plain-get_or name i plain lt
        (sym (get_or-append_right parent (47 ∷ name) (suc i)) ∙ ap (λ k. get_or path k 0) step ∙ e)

  path-delim : get_or path (length parent) 0 ≡ 47
  path-delim =
      let step : length parent ≡ length parent + 0 = omega arith in
      ap (λ k. get_or path k 0) step ∙ get_or-append_right parent (47 ∷ name) 0

  last_delim-at : (k : ℕ) → k ≡ length parent → last_delim path k ≡ length parent
  unfolding last_delim
  last_delim-at zero e = e
  last_delim-at (suc k) e =
      rw (eq→== (get_or path (suc k) 0) 47 (ap (λ j. get_or path j 0) e ∙ path-delim)) e

  last_delim-path : (i : ℕ) → i ≤ length name → last_delim path (length parent + i) ≡ length parent
  unfolding last_delim
  last_delim-path zero le = last_delim-at (length parent + 0) (omega arith)
  last_delim-path (suc i) le =
      let e : length parent + suc i ≡ suc (length parent + i) = omega arith in
      rw (e, ne→== (get_or path (suc (length parent + i)) 0) 47 (path-name i (omega arith)))
        (last_delim-path i (omega arith))

  length-path : length path ≡ suc (length parent + length name)
  length-path = omega (arith, length-append parent (47 ∷ name))

  trimmed-path : 0 < length name → trimmed path ≡ length path
  trimmed-path pos =
      let e : length path - 1 ≡ suc (length parent + (length name - 1)) =
        omega (arith, length-path) in
      rw (
        ne→== (get_or path (length path - 1) 0) 47
          (λ z. path-name (length name - 1) (omega arith) (sym (ap (λ k. get_or path k 0) e) ∙ z)))

-- The parent of a path: "/" for a name in the root.
abbrev pub parent_or_root : Name → Name
parent_or_root [] = 47 ∷ []
parent_or_root (x ∷ parent) = x ∷ parent

parent_part-path :
    (parent name : Name) → parent_part (parent ++ 47 ∷ name) (length parent) ≡ parent_or_root parent
parent_part-path [] name = refl
parent_part-path (x ∷ parent) name =
    rw (ne→== (suc (length parent)) 0 (omega arith))
      (ap (λ t. x ∷ t) (take-append parent (47 ∷ name)))

length-parent_or_root :
    (parent : Name) → length parent < max_path → length (parent_or_root parent) < max_path
length-parent_or_root [] h = omega arith
length-parent_or_root (x ∷ parent) h = h

-- For a name without delimiters of 1 to 255 characters and a parent of less than 1024, split_path of the
-- parent, a delimiter and the name gives back the parent, or "/" if it is empty, and the name.
pub split_path-append :
    (parent name : Name)
    → Plain name
    → 0 < length name
    → length name < filename_len
    → length parent < max_path
    → split_path (parent ++ 47 ∷ name) ≡ some (parent_or_root parent, name)
unfolding split_path
split_path-append parent name plain pos short short' =
    let len = length-path parent name plain in
    let from_end : length (parent ++ 47 ∷ name) - 1 ≡ length parent + length name =
      omega (arith, len) in
    let rest : length (parent ++ 47 ∷ name) - length parent - 1 ≡ length name =
      omega (arith, len) in
    rw (
      trimmed-path parent name plain pos,
      from_end,
      last_delim-path parent name plain (length name) (omega arith),
      ne→== (length (parent ++ 47 ∷ name)) 0 (omega (arith, len)),
      rest,
      drop-append parent name 47,
      take-all name (length name) refl,
      lt→ltb (length name) filename_len short,
      parent_part-path parent name,
      lt→ltb (length (parent_or_root parent)) max_path (length-parent_or_root parent short'),
    )
