-- ===== src/Fisopfs/Paths.antt =====
-- The paths of fisopfs/fisopfs.c: split_path, and the components that find_inode takes with strtok.
pub mod Split
pub mod Tokens
use tps_sistemas_operativos.Base.{
  ℕ, zero, suc, ◌+◌, ◌-◌, Bool, true, false, ◌&&◌, Option, none, some, List, [], ◌∷◌, ◌++◌, length,
  get_or, take, drop, ltb, leb, ◌==◌, if◌then◌else◌,
}
use tps_sistemas_operativos.Fisopfs.Disk.{Name, filename_len, max_path, max_level}

abbrev pub delim_char : ℕ
delim_char = 47

-- strcmp(a, b) == 0.
abbrev pub same_name : Name → Name → Bool
same_name [] [] = true
same_name [] (y ∷ b) = false
same_name (x ∷ a) [] = false
same_name (x ∷ a) (y ∷ b) = x == y && same_name a b

-- The tokens that strtok gives one after the other: the stretches without a delimiter that are not
-- empty. `word` is the stretch read so far, from its last character.
abbrev pub finish : Name → List Name → List Name
finish [] rest = rest
finish (x ∷ word) rest = (x ∷ word) ∷ rest

abbrev pub snoc : Name → ℕ → Name
snoc word c = word ++ c ∷ []

unfoldable pub tokens : Name → Name → List Name
tokens word [] = finish word []
tokens word (c ∷ path) = elim (c == delim_char) [
  | true ↦ finish word (tokens [] path)
  | false ↦ tokens (snoc word c) path
]

-- The copies into the rows of `tokens[MAX_LEVEL][FS_FILENAME_LEN]`, from row `level` on: the tokens, or
-- none where find_inode returns NULL. A row behind the array and a token longer than a row have no
-- result.
abbrev pub cons_row : Name → Option (Option (List Name)) → Option (Option (List Name))
cons_row t none = none
cons_row t (some none) = some none
cons_row t (some (some ts)) = some (some (t ∷ ts))

abbrev pub row_fits : ℕ → Name → Bool
row_fits level t = ltb level max_level && ltb (length t) filename_len

unfoldable pub store_tokens : ℕ → List Name → Option (Option (List Name))
store_tokens level [] = some (some [])
store_tokens level (t ∷ ts) =
    let rest = store_tokens (suc level) ts in
    if ltb max_level level then some none else if row_fits level t then cons_row t rest else none

-- The last position from `pos` down that holds a delimiter, and 0 where there is none above it.
unfoldable pub last_delim : Name → ℕ → ℕ
last_delim path zero = 0
last_delim path (suc pos) =
    let rest = last_delim path pos in
    if get_or path (suc pos) 0 == delim_char then suc pos else rest

-- `pathlen` without a delimiter at the end.
abbrev pub trimmed : Name → ℕ
trimmed path =
    if get_or path (length path - 1) 0 == delim_char then length path - 1 else length path

abbrev pub parent_part : Name → ℕ → Name
parent_part path pos = if pos == 0 then take 1 path else take pos path

abbrev pub name_part : Name → ℕ → Name
name_part path pos = take (trimmed path - pos - 1) (drop (suc pos) path)

-- The path of the parent, and the name. There is no result for the empty path and for "/", where
-- last_delim_pos starts at -1 as unsigned, and for a name or a parent longer than its array.
unfoldable pub split_path : Name → Option (Name × Name)
split_path path =
    let pos = last_delim path (trimmed path - 1) in
    if trimmed path == 0
    then none
    else if ltb (length (name_part path pos)) filename_len
        && ltb (length (parent_part path pos)) max_path
    then some (parent_part path pos, name_part path pos)
    else none
