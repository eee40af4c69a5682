-- ===== src/Fisopfs/Files/Sound.antt =====
-- Which blocks the inodes of fisopfs/fisopfs.c own, and the bytes at the positions of a file.
use tps_sistemas_operativos.Base.{
  ℕ, zero, suc, ◌+◌, ◌*◌, ◌/◌, ◌%◌, ◌<◌, ◌≤◌, ◌≡◌, refl, true, some, List, length, get_or,
  get_elem?, arith, [], ◌∷◌,
}
use tps_sistemas_operativos.Fisopfs.Bitmap.{get_bit}
use tps_sistemas_operativos.Fisopfs.Disk.{Inode, Fs}

abbrev pub block_of : Inode → ℕ → ℕ
block_of node i = get_or (node.data_blocks) i 0

-- The byte at a position of a file.
abbrev pub content : Fs → ℕ → ℕ → ℕ
content fs ino pos = fs.bytes (block_of (fs.inodes ino) (pos / 4096) * 4096 + pos % 4096)

-- Each block of an inode is marked in the bitmap and belongs to no other place of any inode, and the
-- blocks of an inode have room for its size.
pub record Sound (fs : Fs) : Type 0 where
  pub disk : length (fs.data_bitmap) ≡ 119
  pub wide : (ino : ℕ) → length ((fs.inodes ino).data_blocks) ≡ 32
  pub few : (ino : ℕ) → (fs.inodes ino).n_blocks ≤ 32
  pub covered : (ino : ℕ) → (fs.inodes ino).size ≤ (fs.inodes ino).n_blocks * 4096
  pub held :
      (ino i : ℕ)
      → i < (fs.inodes ino).n_blocks
      → get_bit (fs.data_bitmap) (block_of (fs.inodes ino) i) ≡ true
  pub alone :
      (ino jno i j : ℕ)
      → i < (fs.inodes ino).n_blocks
      → j < (fs.inodes jno).n_blocks
      → block_of (fs.inodes ino) i ≡ block_of (fs.inodes jno) j
      → (ino ≡ jno) × (i ≡ j)

module _ {ℓ} {A : Type ℓ} where
  pub get_elem-lt :
      (xs : List A) (i : ℕ) (d : A) → i < length xs → get_elem? xs i ≡ some (get_or xs i d)
  get_elem-lt [] i d h = absurd (omega arith)
  get_elem-lt (x ∷ xs) zero d h = refl
  get_elem-lt (x ∷ xs) (suc i) d h = get_elem-lt xs i d (omega arith)
