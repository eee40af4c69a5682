-- ===== src/Fisopfs/Disk.antt =====
-- The state of fisopfs/fisopfs.c: the superblock, the bitmaps, the inode table and the data blocks;
-- how a run ends; and the functions that take an inode, a block or a directory entry from them.
use tps_sistemas_operativos.Base.{
  update, ℕ, ◌+◌, ◌*◌, ◌/◌, ◌%◌, Bool, Option, none, some, List, [], get_elem?, replicate, ltb, leb,
  ◌==◌, if◌then◌else◌,
}
use Prim.Native.Nat.{bit_and}
use tps_sistemas_operativos.Fisopfs.Bitmap.{Bitmap, set_bit, get_free_bit}

abbrev pub dir_blocks : ℕ
dir_blocks = 32

abbrev pub block_size : ℕ
block_size = 4096

-- `sizeof(inode_t)` is 192 and `sizeof(dirent_t)` is 260 on a 64-bit machine, so that 16 inodes and
-- 8 entries go into a block, 4096 inodes take 256 blocks, and 3837 blocks are left for data.
abbrev pub n_inodes : ℕ
n_inodes = 4096

abbrev pub n_data_blocks : ℕ
n_data_blocks = 3837

abbrev pub dentry_size : ℕ
dentry_size = 512

abbrev pub n_dentry_per_block : ℕ
n_dentry_per_block = 8

abbrev pub n_dentry_per_dir : ℕ
n_dentry_per_dir = 256

abbrev pub filename_len : ℕ
filename_len = 256

abbrev pub max_path : ℕ
max_path = 1024

abbrev pub max_level : ℕ
max_level = 10

-- The bytes of a string, without the NUL that ends it.
abbrev pub Name : Type 0
Name = List ℕ

pub record Inode : Type 0 where
  pub ino : ℕ
  pub mode : ℕ
  pub uid : ℕ
  pub gid : ℕ
  pub size : ℕ
  pub n_blocks : ℕ
  pub data_blocks : List ℕ
  pub atim : ℕ
  pub mtim : ℕ
  pub ctim : ℕ
  pub parent : ℕ

pub record Dirent : Type 0 where
  pub d_name : Name
  pub d_ino : ℕ

-- The data region is seen as bytes by files, at `block * 4096 + offset`, and as entries by
-- directories, at `block * 8 + slot`.
pub record Fs : Type 0 where
  pub n_files : ℕ
  pub n_dirs : ℕ
  pub root_ino : ℕ
  pub inode_bitmap : Bitmap
  pub data_bitmap : Bitmap
  pub inodes : ℕ → Inode
  pub bytes : ℕ → ℕ
  pub dentries : ℕ → Dirent

-- What `time`, `getuid` and `getgid` return in a call.
pub record Context : Type 0 where
  pub now : ℕ
  pub uid : ℕ
  pub gid : ℕ

pub data Errno : Type 0 where
  enoent eisdir enotdir efbig erange enomem eexist enametoolong edquot enotempty eperm : Errno

-- A returned number, or a negated error.
pub data Ret : Type 0 where
  ok : ℕ → Ret
  err : Errno → Ret

-- A run has no result where the code reads or writes outside an object, reads through NULL, or fails
-- an assertion.
abbrev pub Cmd : Type 0 → Type 0
Cmd A = Fs → Option (A × Fs)

abbrev pub pure : {A : Type 0} → A → Cmd A
pure a fs = some (a, fs)

module _ {A B : Type 0} where
  abbrev pub continue : Option (A × Fs) → (A → Cmd B) → Option (B × Fs)
  continue none k = none
  continue (some (a, fs)) k = k a fs

  infixl 5 ◌>>=◌ ◌>>◌
  abbrev pub ◌>>=◌ : Cmd A → (A → Cmd B) → Cmd B
  m >>= k = λ fs. continue (m fs) k

  abbrev pub ◌>>◌ : Cmd A → Cmd B → Cmd B
  m >> n = m >>= λ _. n

abbrev pub fault : {A : Type 0} → Cmd A
fault fs = none

abbrev pub access : {A : Type 0} → Option A → Cmd A
access none = fault
access (some a) = pure a

abbrev pub gets : {A : Type 0} → (Fs → A) → Cmd A
gets f fs = some (f fs, fs)

abbrev pub modify : (Fs → Fs) → Cmd (Unit {0})
modify f fs = some (tt, f fs)

-- `inodes[ino] = i`, as the assignments to the fields of an inode together.
abbrev pub put_inode : ℕ → Inode → Cmd (Unit {0})
put_inode ino i = modify λ fs. record fs { inodes = update fs.inodes ino i }

abbrev pub get_inode_at : ℕ → Cmd Inode
get_inode_at ino = gets λ fs. fs.inodes ino

-- S_ISDIR.
abbrev pub is_dir : Inode → Bool
is_dir i = bit_and (i.mode) 61440 == 16384

-- A pointer to an inode is its index, and `none` is NULL.
abbrev pub get_inode : ℕ → Option ℕ
get_inode ino = if ltb ino n_inodes then some ino else none

-- A pointer to a data block is its number.
abbrev pub get_data_block : ℕ → Option ℕ
get_data_block block_no = if ltb block_no n_data_blocks then some block_no else none

abbrev pub slot_of : Option ℕ → ℕ → Option ℕ
slot_of none offset = none
slot_of (some block_no) offset =
    if ltb block_no n_data_blocks then some (block_no * n_dentry_per_block + offset) else none

-- The index of an entry; none for NULL, and for a block number outside the array or the disk. Each
-- caller reads through the pointer.
unfoldable pub get_dirent : ℕ → Inode → Option ℕ
get_dirent dentry_no dir =
    if is_dir dir
    then (if leb (dir.n_blocks) (dentry_no / n_dentry_per_block)
        then none
        else slot_of (get_elem? (dir.data_blocks) (dentry_no / n_dentry_per_block))
            (dentry_no % n_dentry_per_block))
    else none

abbrev pub inode_on : Context → ℕ → Option ℕ → Cmd (Option ℕ)
inode_on ctx mode none fs = some (none, fs)
inode_on ctx mode (some n) fs = some (
  get_inode n,
  record fs {
    inode_bitmap = set_bit (fs.inode_bitmap) n;
    inodes = update fs.inodes n (record (fs.inodes n) {
      ino = n;
      mode = mode;
      uid = ctx.uid;
      gid = ctx.gid;
      size = 0;
      n_blocks = 0;
      atim = ctx.now;
      mtim = ctx.now;
      ctim = ctx.now;
    });
  },
)

unfoldable pub init_inode : Context → ℕ → Cmd (Option ℕ)
init_inode ctx mode fs = inode_on ctx mode (get_free_bit (fs.inode_bitmap)) fs

abbrev pub block_on : Option ℕ → Cmd (Option ℕ)
block_on none fs = some (none, fs)
block_on (some n) fs =
    some (get_data_block n, record fs { data_bitmap = set_bit (fs.data_bitmap) n })

-- The number of the new block, which the code passes back with the pointer.
unfoldable pub init_data_block : Cmd (Option ℕ)
init_data_block fs = block_on (get_free_bit (fs.data_bitmap)) fs

abbrev pub zero_inode : Inode
zero_inode = record {
  ino = 0;
  mode = 0;
  uid = 0;
  gid = 0;
  size = 0;
  n_blocks = 0;
  data_blocks = replicate 32 0;
  atim = 0;
  mtim = 0;
  ctim = 0;
  parent = 0;
}

-- The static objects before main. The bitmaps have whole words: 4096 / 32 and 3837 / 32.
abbrev pub zero_fs : Fs
zero_fs = record {
  n_files = 0;
  n_dirs = 0;
  root_ino = 0;
  inode_bitmap = replicate 128 0;
  data_bitmap = replicate 119 0;
  inodes = λ _. zero_inode;
  bytes = λ _. 0;
  dentries = λ _. record { d_name = []; d_ino = 0 };
}

abbrev pub root_of : Option ℕ → Fs → Option Fs
root_of none fs = none
root_of (some ino) fs = some (record fs { n_dirs = 1; n_files = 0; root_ino = (fs.inodes ino).ino })

-- fisopfs_init where no saved file system is found: the root has mode S_IFDIR | 0775. Where there is
-- one, the state is the saved one.
unfoldable pub fisopfs_init : Context → Option Fs → Fs → Option Fs
fisopfs_init ctx (some saved) fs = some saved
fisopfs_init ctx none fs = elim (init_inode ctx 16893 fs) [
  | none ↦ none
  | some (root, fs') ↦ root_of root fs'
]
