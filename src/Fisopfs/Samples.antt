-- ===== src/Fisopfs/Samples.antt =====
-- Concrete states of the file system: an empty disk, a file of five bytes, and a file of 128 KiB.
use tps_sistemas_operativos.Base.{
  update, update-elim, ℕ, zero, suc, ◌+◌, ◌*◌, ◌<◌, ◌≤◌, ◌≡◌, refl, Bool, true, false, ◌&&◌, List,
  [], ◌∷◌, length, get_or, replicate, arith, ◌==◌, if◌then◌else◌, ap, ◌∙◌, sym,
}
use tps_sistemas_operativos.Fisopfs.Bitmap.{get_bit, test_bit}
use tps_sistemas_operativos.Fisopfs.Disk.{Inode, Fs, Context, zero_fs, zero_inode}
use tps_sistemas_operativos.Fisopfs.Files.{Buffer, put_part}
use tps_sistemas_operativos.Fisopfs.Files.Sound.{Sound, block_of}
use tps_sistemas_operativos.Fisopfs.Files.Growth.{grown, grown-Sound}
use tps_sistemas_operativos.Fisopfs.Files.Written.{part-Sound}

abbrev pub ctx : Context
ctx = record { now = 7; uid = 1000; gid = 1000 }

abbrev pub hello : Buffer
hello i = get_or (104 ∷ 101 ∷ 108 ∷ 108 ∷ 111 ∷ []) i 0

-- Inode 0 is the root, and each other is an empty file.
abbrev pub disk : Fs
disk = record zero_fs {
  inodes = λ ino. record zero_inode { mode = if ino == 0 then 16893 else 33188 };
}

pub disk-Sound : Sound disk
disk-Sound = record {
  disk = refl;
  wide = λ ino. refl;
  few = λ ino. omega arith;
  covered = λ ino. omega arith;
  held = λ ino i lt. absurd (omega arith);
  alone = λ ino jno i j p q e. absurd (omega arith);
}

first_clear : get_bit (zero_fs.data_bitmap) 0 ≡ false
unfolding get_bit test_bit
first_clear = refl

-- File 1 has five bytes in block 0.
abbrev pub disk5 : Fs
disk5 = put_part ctx 1 hello 0 0 0 5 0 (grown disk 1 0)

pub disk5-Sound : Sound disk5
disk5-Sound =
    part-Sound ctx (grown disk 1 0) 1 0 0 hello 0 0 5 0
      (grown-Sound disk 1 0 disk-Sound first_clear (omega arith) (omega arith)) (omega arith) refl
      (omega arith) (omega arith) (omega arith)

abbrev count_from : ℕ → ℕ → List ℕ
count_from k zero = []
count_from k (suc n) = k ∷ count_from (suc k) n

get_or-count_from : (k n i : ℕ) → i < n → get_or (count_from k n) i 0 ≡ k + i
get_or-count_from k zero i h = absurd (omega arith)
get_or-count_from k (suc n) zero h = omega arith
get_or-count_from k (suc n) (suc i) h = omega (arith, get_or-count_from (suc k) n i (omega arith))

abbrev big : Inode
big = record zero_inode {
  mode = 33188;
  size = 131072;
  n_blocks = 32;
  data_blocks = count_from 0 32;
}

-- File 1 has the blocks 0 to 31.
abbrev pub disk_big : Fs
disk_big = record zero_fs {
  data_bitmap = 4294967295 ∷ replicate 118 0;
  inodes = update (λ _. zero_inode) 1 big;
}

all_below : ℕ → (ℕ → Bool) → Bool
all_below zero p = true
all_below (suc n) p = p n && all_below n p

all_below-lt : (n : ℕ) (p : ℕ → Bool) (x : ℕ) → all_below n p ≡ true → x < n → p x ≡ true
unfolding all_below
all_below-lt zero p x h lt = absurd (omega arith)
all_below-lt (suc n) p x h lt = ground (arith, all_below-lt n p x)

big_held : all_below 32 (λ i. get_bit (disk_big.data_bitmap) i) ≡ true
unfolding all_below get_bit test_bit
big_held = refl

owner : (ino : ℕ) → 0 < (disk_big.inodes ino).n_blocks → ino ≡ 1
owner =
    update-elim (λ ino v. 0 < v.n_blocks → ino ≡ 1) (λ _. zero_inode) 1 big (λ _. refl)
      (λ j d h. absurd (omega arith))

big_block : (ino i : ℕ) → i < (disk_big.inodes ino).n_blocks → block_of (disk_big.inodes ino) i ≡ i
big_block =
    update-elim (λ ino v. (i : ℕ) → i < v.n_blocks → block_of v i ≡ i) (λ _. zero_inode) 1 big
      (λ i lt. get_or-count_from 0 32 i lt ∙ omega arith) (λ j d i h. absurd (omega arith))

big_few : (ino : ℕ) → (disk_big.inodes ino).n_blocks ≤ 32
big_few =
    update-elim (λ ino v. v.n_blocks ≤ 32) (λ _. zero_inode) 1 big (omega arith)
      (λ j d. omega arith)

pub disk_big-Sound : Sound disk_big
disk_big-Sound = record {
  disk = refl;
  wide =
      update-elim (λ ino v. length (v.data_blocks) ≡ 32) (λ _. zero_inode) 1 big refl (λ j d. refl);
  few = big_few;
  covered =
      update-elim (λ ino v. v.size ≤ v.n_blocks * 4096) (λ _. zero_inode) 1 big (omega arith)
        (λ j d. omega arith);
  held = λ ino i lt.
      ap (λ b. get_bit (disk_big.data_bitmap) b) (big_block ino i lt)
      ∙ all_below-lt 32 (λ k. get_bit (disk_big.data_bitmap) k) i big_held
          (omega (arith, big_few ino, lt));
  alone = λ ino jno i j p q e. (
    owner ino (omega arith) ∙ sym (owner jno (omega arith)),
    sym (big_block ino i p) ∙ e ∙ big_block jno j q,
  );
}
