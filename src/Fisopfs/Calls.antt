-- ===== src/Fisopfs/Calls.antt =====
-- The operations of fisopfs/fisopfs.c that fuse calls, by path.
use tps_sistemas_operativos.Base.{
  ℕ, zero, suc, ◌-◌, ◌/◌, ◌%◌, false, ◌&&◌, Option, none, some, List, [], ◌∷◌, get_elem?, length,
  ltb, ◌==◌, if◌then◌else◌, is_some,
}
use Prim.Native.Nat.{bit_or}
use tps_sistemas_operativos.Base.{◌⊎◌, inl, inr}
use tps_sistemas_operativos.Fisopfs.Bitmap.{clear_bit, get_free_bit}
use tps_sistemas_operativos.Fisopfs.Disk.{
  Name, Fs, Context, Ret, Errno, ok, err, enomem, enoent, eisdir, enotdir, eexist, enametoolong,
  edquot, enotempty, eperm, efbig, Cmd, pure, access, gets, modify, put_inode, get_inode_at, is_dir,
  get_inode, get_dirent, init_inode, dentry_size, n_dentry_per_block, n_dentry_per_dir, max_path,
  ◌>>=◌, ◌>>◌,
}
use tps_sistemas_operativos.Fisopfs.Paths.{split_path}
use tps_sistemas_operativos.Fisopfs.Dirs.{find_inode, insert_dentry, shift_blocks, entry_at}
use tps_sistemas_operativos.Fisopfs.Files.{
  Buffer, max_size, shrink_file, read_file, write_file, truncate_file,
}

-- `struct stat`, without the block size, which is constant.
pub record Stat : Type 0 where
  pub st_ino : ℕ
  pub st_mode : ℕ
  pub st_uid : ℕ
  pub st_gid : ℕ
  pub st_size : ℕ
  pub st_blocks : ℕ
  pub st_atime : ℕ
  pub st_mtime : ℕ
  pub st_ctime : ℕ

-- fill_stat sets the access time as well.
unfoldable pub fill_stat : Context → ℕ → Cmd Stat
fill_stat ctx ino = do
  node ← get_inode_at ino
  put_inode ino (record node { atim = ctx.now })
  pure (record {
    st_ino = node.ino;
    st_mode = node.mode;
    st_uid = node.uid;
    st_gid = node.gid;
    st_size = node.size;
    st_blocks = node.n_blocks;
    st_atime = ctx.now;
    st_mtime = node.mtim;
    st_ctime = node.ctim;
  })

-- `inode == NULL` returns -ENOENT.
abbrev pub or_enoent : Option ℕ → (ℕ → Cmd Ret) → Cmd Ret
or_enoent none f = pure (err enoent)
or_enoent (some ino) f = f ino

abbrev pub or_else {ℓ} : {A : Type ℓ} → Option ℕ → A → (ℕ → A) → A
or_else none a f = a
or_else (some ino) a f = f ino

unfoldable pub fisopfs_getattr : Context → Name → Cmd (Errno ⊎ Stat)
fisopfs_getattr ctx path = find_inode path >>= λ p.
    or_else p (pure (inl enoent)) (λ ino. fill_stat ctx ino >>= λ st. pure (inr st))

-- The calls of `filler` in fisopfs_readdir, in their order: names with the files' data.
abbrev pub Listing : Type 0
Listing = List (Name × Stat)

unfoldable pub list_entries : Context → ℕ → ℕ → ℕ → Cmd Listing
list_entries ctx dir zero i = pure []
list_entries ctx dir (suc rounds) i = do
  node ← get_inode_at dir
  e ← entry_at (get_dirent i node)
  ino ← access (get_inode (e.d_ino))
  st ← fill_stat ctx ino
  rest ← list_entries ctx dir rounds (suc i)
  pure ((e.d_name, st) ∷ rest)

abbrev pub list_dir : Context → ℕ → Cmd (Errno ⊎ Listing)
list_dir ctx dir = do
  node ← get_inode_at dir
  if is_dir node
      then (do
        self ← fill_stat ctx dir
        parent ← access (get_inode (node.parent))
        up ← fill_stat ctx parent
        rest ← list_entries ctx dir (node.size / dentry_size) 0
        pure (inr ((46 ∷ [], self) ∷ (46 ∷ 46 ∷ [], up) ∷ rest)))
      else pure (inl enotdir)

unfoldable pub fisopfs_readdir : Context → Name → Cmd (Errno ⊎ Listing)
fisopfs_readdir ctx path = find_inode path >>= λ p. or_else p (pure (inl enoent)) (list_dir ctx)

unfoldable pub fisopfs_read : Context → Name → ℕ → ℕ → Buffer → Cmd (Ret × Buffer)
fisopfs_read ctx path size offset buffer = find_inode path >>= λ p.
    or_else p (pure (err enoent, buffer)) (λ ino. read_file ctx ino size offset buffer)

unfoldable pub fisopfs_write : Context → Name → Buffer → ℕ → ℕ → Cmd Ret
fisopfs_write ctx path buffer size offset =
    find_inode path >>= λ p. or_enoent p (λ ino. write_file ctx ino buffer size offset)

unfoldable pub fisopfs_truncate : Context → Name → ℕ → Cmd Ret
fisopfs_truncate ctx path length =
    if ltb max_size length
    then pure (err efbig)
    else (find_inode path >>= λ p. or_enoent p (λ ino. truncate_file ctx ino length))

unfoldable pub fisopfs_utimens : Name → ℕ → ℕ → Cmd Ret
fisopfs_utimens path atime mtime = find_inode path >>= λ p. or_enoent p (λ ino. do
  node ← get_inode_at ino
  put_inode ino (record node { atim = atime; mtim = mtime; ctim = mtime })
  pure (ok 0))

-- fisopfs_create and fisopfs_mkdir from init_inode on. The result of insert_dentry is not looked at.
abbrev pub link_new : Context → ℕ → Name → (Fs → Fs) → ℕ → Cmd ℕ
link_new ctx parent name counted ino = do
  dir ← get_inode_at parent
  node ← get_inode_at ino
  put_inode ino (record node { parent = dir.ino })
  insert_dentry ctx parent (node.ino) name
  modify counted
  pure (node.ino)

unfoldable pub make_in : Context → ℕ → Errno → (Fs → Fs) → ℕ → Name → Cmd Ret
make_in ctx mode full counted parent name = do
  dir ← get_inode_at parent
  if is_dir dir
      then (if dir.size / dentry_size == n_dentry_per_dir
          then pure (err enomem)
          else (init_inode ctx mode >>= λ p.
              or_else p (pure (err full))
                (λ ino. link_new ctx parent name counted ino >>= λ n. pure (ok n))))
      else pure (err enotdir)

-- The common checks of both. The test of the name's length follows the copy into an array as long.
unfoldable pub make_node : Context → ℕ → Errno → (Fs → Fs) → Name → Cmd Ret
make_node ctx mode full counted path =
    if ltb max_path (length path) then pure (err enametoolong) else (do
      free ← gets λ fs. get_free_bit (fs.data_bitmap)
      if is_some free
          then (do
            old ← find_inode path
            if is_some old then pure (err eexist) else (do
              parts ← access (split_path path)
              parent ← find_inode (parts.0)
              or_enoent parent (λ dir. make_in ctx mode full counted dir (parts.1))))
          else pure (err enomem))

abbrev pub one_file : Fs → Fs
one_file fs = record fs { n_files = suc (fs.n_files) }

abbrev pub one_dir : Fs → Fs
one_dir fs = record fs { n_dirs = suc (fs.n_dirs) }

-- The number of the new inode, which the code puts into `info->fh` before it returns 0.
unfoldable pub fisopfs_create : Context → Name → ℕ → Cmd Ret
fisopfs_create ctx path mode = make_node ctx (bit_or mode 32768) enomem one_file path

abbrev pub returns_zero : Ret → Ret
returns_zero (ok n) = ok 0
returns_zero (err e) = err e

unfoldable pub fisopfs_mkdir : Context → Name → ℕ → Cmd Ret
fisopfs_mkdir ctx path mode =
    make_node ctx (bit_or mode 16384) edquot one_dir path >>= λ r. pure (returns_zero r)

-- The end of unlink_inode, where the entry is found: the size of the parent, its last block if that is
-- empty now, the blocks of a file, and the inode.
abbrev pub drop_block : ℕ → ℕ → Cmd (Unit {0})
drop_block parent n_dentries =
    if (n_dentries - 1) % n_dentry_per_block == 0
    then (do
      dir ← get_inode_at parent
      b ← access (get_elem? (dir.data_blocks) (dir.n_blocks - 1))
      modify (λ fs. record fs { data_bitmap = clear_bit (fs.data_bitmap) b })
      put_inode parent (record dir { n_blocks = dir.n_blocks - 1 }))
    else pure tt

unfoldable pub remove_entry : Context → ℕ → ℕ → ℕ → Cmd Ret
remove_entry ctx parent n_dentries ino = do
  dir ← get_inode_at parent
  put_inode parent (record dir { size = dir.size - dentry_size })
  drop_block parent n_dentries
  node ← get_inode_at ino
  if is_dir node then pure tt else shrink_file ctx ino 0
  modify (λ fs. record fs { inode_bitmap = clear_bit (fs.inode_bitmap) (node.ino) })
  pure (ok 0)

unfoldable pub unlink_inode : Context → Name → ℕ → Cmd Ret
unlink_inode ctx path ino = do
  node ← get_inode_at ino
  if is_dir node && ltb 0 (node.size) then pure (err enotempty) else (do
    parts ← access (split_path path)
    p ← find_inode (parts.0)
    parent ← access p
    dir ← get_inode_at parent
    found ← shift_blocks dir (node.ino) (parts.1) (dir.size / dentry_size) (dir.n_blocks) 0 false
    if found then remove_entry ctx parent (dir.size / dentry_size) ino else pure (err enoent))

unfoldable pub fisopfs_unlink : Context → Name → Cmd Ret
fisopfs_unlink ctx path = find_inode path >>= λ p. or_enoent p (λ ino. do
  node ← get_inode_at ino
  if is_dir node then pure (err eisdir) else unlink_inode ctx path ino)

unfoldable pub fisopfs_rmdir : Context → Name → Cmd Ret
fisopfs_rmdir ctx path = find_inode path >>= λ p. or_enoent p (λ ino. do
  node ← get_inode_at ino
  root ← gets λ fs. fs.root_ino
  if is_dir node
      then (if node.ino == root
          then pure (err eperm)
          else if ltb 0 (node.size)
          then pure (err enotempty)
          else unlink_inode ctx path ino)
      else pure (err enotdir))

-- save_file_system writes the objects, and load_file_system reads them back, so that what is saved is
-- the state; fisopfs_destroy and fisopfs_flush save.
unfoldable pub save_file_system : Cmd Fs
save_file_system fs = some (fs, fs)

abbrev pub fisopfs_flush : Cmd Fs
fisopfs_flush = save_file_system
