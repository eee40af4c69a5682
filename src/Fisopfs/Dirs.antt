-- ===== src/Fisopfs/Dirs.antt =====
-- The directories of fisopfs/fisopfs.c: find_in_dir, find_inode, insert_dentry, and the loop by which
-- unlink_inode takes an entry out.
pub mod Lookup
pub mod Entries
pub mod Insert
pub mod Append
use tps_sistemas_operativos.Base.{
  update, ℕ, zero, suc, ◌+◌, ◌-◌, ◌*◌, ◌/◌, ◌%◌, Bool, true, false, ◌&&◌, ◌||◌, not, Option, none,
  some, List, [], ◌∷◌, get_elem?, length, set, ltb, leb, ◌==◌, if◌then◌else◌, is_some,
}
use tps_sistemas_operativos.Fisopfs.Disk.{
  Name, Inode, Dirent, Fs, Context, Ret, ok, err, enomem, enoent, Cmd, pure, fault, access, gets,
  modify, put_inode, get_inode_at, is_dir, get_inode, get_dirent, init_data_block, block_size,
  dir_blocks, dentry_size, n_dentry_per_block, filename_len, max_path, ◌>>=◌, ◌>>◌, continue,
}
use tps_sistemas_operativos.Fisopfs.Paths.{same_name, tokens, store_tokens}
use tps_sistemas_operativos.Fisopfs.Files.{add_block, grow_file}

-- The entry that a pointer points at.
abbrev pub entry_at : Option ℕ → Cmd Dirent
entry_at none = fault
entry_at (some d) = gets λ fs. fs.dentries d

-- The loop of find_in_dir from entry `i`, with `rounds` left.
unfoldable pub find_from : Name → Inode → ℕ → ℕ → Cmd (Option ℕ)
find_from d_name dir zero i = pure none
find_from d_name dir (suc rounds) i =
    let rest = find_from d_name dir rounds (suc i) in
    entry_at (get_dirent i dir) >>= λ dentry.
    if same_name d_name (dentry.d_name) then pure (get_inode (dentry.d_ino)) else rest

unfoldable pub find_in_dir : Name → Inode → Cmd (Option ℕ)
find_in_dir d_name dir =
    if is_dir dir then find_from d_name dir (dir.size / dentry_size) 0 else pure none

-- The walk of find_inode over the tokens.
unfoldable pub walk : List Name → ℕ → Cmd (Option ℕ)
walk [] ino = pure (some ino)
walk (t ∷ ts) ino = get_inode_at ino >>= λ dir.
    find_in_dir t dir >>= λ next. elim next [ none ↦ pure none | some ino' ↦ walk ts ino' ]

abbrev pub walk_tokens : Option (List Name) → ℕ → Cmd (Option ℕ)
walk_tokens none root = pure none
walk_tokens (some ts) root = walk ts root

-- A path of 1024 characters leaves no place for the NUL in the copy that strtok cuts.
unfoldable pub find_inode : Name → Cmd (Option ℕ)
find_inode path = do
  root_ino ← gets λ fs. fs.root_ino
  root ← access (get_inode root_ino)
  dir ← get_inode_at root
  if is_dir dir
      then (if ltb max_path (length path) || (length path == 0)
          then pure none
          else if same_name path (47 ∷ [])
          then pure (some root)
          else if not (ltb (length path) max_path)
          then fault
          else if length (tokens [] path) == 0
          then pure none
          else (access (store_tokens 0 (tokens [] path)) >>= λ ts. walk_tokens ts root))
      else fault

-- `dent->d_ino = ino` and the copy of the name.
abbrev pub put_entry : Option ℕ → ℕ → Name → Cmd (Unit {0})
put_entry none ino d_name = fault
put_entry (some d) ino d_name =
    if ltb (length d_name) filename_len
    then modify (λ fs. record fs {
      dentries = update fs.dentries d (record { d_name = d_name; d_ino = ino });
    })
    else fault

-- The block for one more entry: false where the disk is full.
unfoldable pub room_for_entry : ℕ → Cmd Bool
room_for_entry parent = do
  dir ← get_inode_at parent
  if dir.size == dir.n_blocks * block_size
      then (init_data_block >>= grow_file parent >>= λ b. pure (is_some b))
      else pure true

abbrev pub count_entry : Context → ℕ → Cmd (Unit {0})
count_entry ctx parent = do
  dir ← get_inode_at parent
  put_inode parent (record dir { size = dir.size + dentry_size; atim = ctx.now; mtim = ctx.now })

unfoldable pub insert_dentry : Context → ℕ → ℕ → Name → Cmd Ret
insert_dentry ctx parent ino d_name = do
  room ← room_for_entry parent
  if room
      then (do
        dir ← get_inode_at parent
        put_entry (get_dirent (dir.size / dentry_size) dir) ino d_name
        count_entry ctx parent
        pure (ok 0))
      else pure (err enomem)

-- `nentries` of block `i` in unlink_inode.
abbrev pub entries_in : ℕ → ℕ → ℕ
entries_in n_dentries i =
    if leb (suc i * n_dentry_per_block) n_dentries
    then n_dentry_per_block
    else n_dentries % n_dentry_per_block

-- The test at an entry: it has the inode and the name.
abbrev pub is_entry : ℕ → Name → Dirent → Bool
is_entry ino filename e = ino == e.d_ino && same_name (e.d_name) filename

abbrev pub copy_entry : Option ℕ → Option ℕ → Cmd (Unit {0})
copy_entry none next = fault
copy_entry (some d) none = fault
copy_entry (some d) (some e) =
    modify λ fs. record fs { dentries = update fs.dentries d (fs.dentries e) }

-- Round `j` of block `i`; `found` says that index is not -1. What it becomes is returned.
abbrev pub shift_entry : Inode → ℕ → Name → ℕ → ℕ → ℕ → Bool → Cmd Bool
shift_entry parent ino filename n_dentries i j found = do
  e ← entry_at (get_dirent (j + i * n_dentry_per_block) parent)
  let found' = is_entry ino filename e || found
  if found' && not (suc j == entries_in n_dentries i && (suc i == parent.n_blocks))
      then copy_entry (get_dirent (j + i * n_dentry_per_block) parent)
          (get_dirent (suc j + i * n_dentry_per_block) parent)
      else pure tt
  pure found'

unfoldable pub shift_block : Inode → ℕ → Name → ℕ → ℕ → ℕ → ℕ → Bool → Cmd Bool
shift_block parent ino filename n_dentries i zero j found = pure found
shift_block parent ino filename n_dentries i (suc rounds) j found =
    shift_entry parent ino filename n_dentries i j found
    >>= shift_block parent ino filename n_dentries i rounds (suc j)

unfoldable pub shift_blocks : Inode → ℕ → Name → ℕ → ℕ → ℕ → Bool → Cmd Bool
shift_blocks parent ino filename n_dentries zero i found = pure found
shift_blocks parent ino filename n_dentries (suc rounds) i found =
    shift_block parent ino filename n_dentries i (entries_in n_dentries i) 0 found
    >>= shift_blocks parent ino filename n_dentries rounds (suc i)
