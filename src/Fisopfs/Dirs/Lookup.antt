-- ===== src/Fisopfs/Dirs/Lookup.antt =====
-- find_inode of fisopfs/fisopfs.c: the walk over the components of a path.
use tps_sistemas_operativos.Base.{
  ◌<◌, ◌≤◌, ◌≡◌, refl, true, false, none, List, [], ◌∷◌, length, arith, All, lt→ltb, le→ltb, ne→==,
}
use tps_sistemas_operativos.Fisopfs.Disk.{
  Name, Fs, is_dir, n_inodes, max_level, max_path, filename_len,
}
use tps_sistemas_operativos.Fisopfs.Paths.{same_name}
use tps_sistemas_operativos.Fisopfs.Paths.Tokens.{
  join, Component, tokens-join, store_tokens-none, store_tokens-some,
}
use tps_sistemas_operativos.Fisopfs.Dirs.{find_inode, walk}

same_name-join :
    (ts : List Name) → All Component ts → 0 < length ts → same_name (join ts) (47 ∷ []) ≡ false
same_name-join [] h pos = absurd (omega arith)
same_name-join ([] ∷ ts) h pos = absurd (omega (arith, h.0.1))
same_name-join ((c ∷ t) ∷ ts) h pos = refl

length-join : (ts : List Name) → 0 < length ts → 0 < length (join ts)
length-join [] h = absurd (omega arith)
length-join (t ∷ ts) h = omega arith

module _ (fs : Fs) (root : fs.root_ino < n_inodes) (dir : is_dir (fs.inodes (fs.root_ino)) ≡ true)
    (ts : List Name) (components : All Component ts) (some_name : 0 < length ts)
    (short : length (join ts) < max_path) where
  -- For a path of one to ten components of less than 256 characters each, and of less than 1024
  -- characters in all, find_inode walks from the root along just these components.
  pub find_inode-join :
      length ts ≤ max_level
      → All (λ t. length t < filename_len) ts
      → find_inode (join ts) fs ≡ walk ts (fs.root_ino) fs
  unfolding find_inode
  find_inode-join few fit = rw (
    lt→ltb (fs.root_ino) n_inodes root,
    dir,
    le→ltb max_path (length (join ts)) (omega arith),
    ne→== (length (join ts)) 0 (omega (arith, length-join ts some_name)),
    same_name-join ts components some_name,
    lt→ltb (length (join ts)) max_path short,
    tokens-join ts components,
    ne→== (length ts) 0 (omega arith),
    store_tokens-some 0 ts (omega arith) fit,
  )

  -- For a path of more than ten components find_inode does not return NULL: it copies a component
  -- behind the array before its test of the level.
  find_inode-deep : max_level < length ts → find_inode (join ts) fs ≡ none
  unfolding find_inode
  find_inode-deep many = rw (
    lt→ltb (fs.root_ino) n_inodes root,
    dir,
    le→ltb max_path (length (join ts)) (omega arith),
    ne→== (length (join ts)) 0 (omega (arith, length-join ts some_name)),
    same_name-join ts components some_name,
    lt→ltb (length (join ts)) max_path short,
    tokens-join ts components,
    ne→== (length ts) 0 (omega arith),
    store_tokens-none 0 ts (omega arith) (omega arith),
  )
