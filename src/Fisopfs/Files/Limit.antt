-- ===== src/Fisopfs/Files/Limit.antt =====
-- The transfers of fisopfs/fisopfs.c that end at 128 KiB, where the last block number is 32.
use mathlib.Core.Path.{subst}
use tps_sistemas_operativos.Base.{
  ℕ, zero, suc, ◌+◌, ◌-◌, ◌*◌, ◌/◌, ◌<◌, ◌≤◌, ◌≡◌, refl, sym, ap, ◌∙◌, inl, inr, false, none, some,
  List, [], ◌∷◌, arith, ne→==, eq→==, ◌==◌, le→ltb, lt→ltb, ltb, ltb→lt, ltb→le, Bool-cases, get_or,
  get_elem?, length,
}
use tps_sistemas_operativos.Fisopfs.Bitmap.{get_free_bit, set_bit}
use tps_sistemas_operativos.Fisopfs.Bitmap.Search.{FirstClear, get_free_bit-FirstClear}
use tps_sistemas_operativos.Fisopfs.Disk.{Inode, Fs, Context, is_dir, init_data_block}
use tps_sistemas_operativos.Fisopfs.Files.{
  Buffer, start_offset, part_size, read_blocks, read_file, min, block_for, write_blocks, write_file,
  add_block, put_part,
}
use tps_sistemas_operativos.Fisopfs.Files.Sound.{Sound, block_of, get_elem-lt}
use tps_sistemas_operativos.Fisopfs.Files.Write.{init_data_block-at, block_for-owned}

get_elem-ge {ℓ} : {A : Type ℓ} (xs : List A) (i : ℕ) → length xs ≤ i → get_elem? xs i ≡ none
get_elem-ge [] i h = refl
get_elem-ge (x ∷ xs) zero h = absurd (omega arith)
get_elem-ge (x ∷ xs) (suc i) h = get_elem-ge xs i (omega arith)

read_blocks-none :
    (fs : Fs) (node : Inode) (offset end : ℕ)
    → length (node.data_blocks) ≡ 32
    → (rounds i count : ℕ) (buffer : Buffer) → 0 < rounds
    → i + rounds ≡ 33
    → read_blocks node offset end rounds i count buffer fs ≡ none
unfolding read_blocks
read_blocks-none fs node offset end wide zero i count buffer pos e = absurd (omega arith)
read_blocks-none fs node offset end wide (suc rounds) i count buffer pos e =
    elim (Bool-cases (ltb i 32)) [
      | inr last ↦ rw (get_elem-ge (node.data_blocks) i (omega (arith, wide, ltb→le i 32 last)))
      | inl more ↦
          let b = get_or (node.data_blocks) i 0 in
          let start = start_offset offset i in
          let n = part_size offset end i in
          let at = get_elem-lt (node.data_blocks) i 0 (omega (arith, wide, ltb→lt i 32 more)) in
          let left : 0 < rounds = omega (arith, ltb→lt i 32 more) in
          elim (Bool-cases (ltb b 3837)) [
            | inl there ↦
                rw (at, there)
                  (read_blocks-none fs node offset end wide rounds (suc i) (count + n) _ left
                    (omega arith))
            | inr beyond ↦ elim (Bool-cases (n == 0)) [
              | inl nothing ↦
                  rw (at, beyond, nothing)
                    (read_blocks-none fs node offset end wide rounds (suc i) (count + n) buffer left
                      (omega arith))
              | inr bytes ↦ rw (at, beyond, bytes)
            ]
          ]
    ]

-- A read that ends at 128 KiB, the largest size of a file, reads data_blocks[32], behind the array.
pub read_file-overflow :
    (ctx : Context) (ino offset size count : ℕ) (buffer : Buffer) (fs : Fs)
    → Sound fs
    → is_dir (fs.inodes ino) ≡ false
    → offset ≤ (fs.inodes ino).size
    → min size ((fs.inodes ino).size - offset) ≡ count
    → 0 < count
    → offset + count ≡ 131072
    → read_file ctx ino size offset buffer fs ≡ none
unfolding read_file
read_file-overflow ctx ino offset size count buffer fs s file le e pos end = rw (
  file,
  le→ltb ((fs.inodes ino).size) offset le,
  e,
  ne→== count 0 (omega arith),
  end,
  read_blocks-none fs (fs.inodes ino) offset 131072 (s.wide ino) (33 - offset / 4096)
      (offset / 4096) 0 buffer (omega arith) (omega arith),
)

-- With all its blocks in use, a file gets no block for round 32.
block_for-overflow :
    (fs : Fs) (ino b : ℕ)
    → length ((fs.inodes ino).data_blocks) ≡ 32
    → (fs.inodes ino).n_blocks ≡ 32
    → length (fs.data_bitmap) ≡ 119
    → get_free_bit (fs.data_bitmap) ≡ some b
    → block_for ino 32 fs ≡ none
unfolding block_for
block_for-overflow fs ino b wide full disk free =
    let found : FirstClear (fs.data_bitmap) 0 (length (fs.data_bitmap) * 32) (some b) =
      subst (λ o. FirstClear (fs.data_bitmap) 0 (length (fs.data_bitmap) * 32) o) free
        (get_free_bit-FirstClear (fs.data_bitmap)) in
    rw (
      le→ltb 32 ((fs.inodes ino).n_blocks) (omega arith),
      init_data_block-at fs (some b) free,
      lt→ltb b 3837 (omega (arith, found.1, disk)),
      le→ltb ((fs.inodes ino).n_blocks) (length ((fs.inodes ino).data_blocks)) (omega arith),
    )

write_blocks-overflow :
    (ctx : Context) (ino : ℕ) (buffer : Buffer) (offset b : ℕ) (fs : Fs)
    → Sound fs
    → offset ≤ (fs.inodes ino).size
    → (fs.inodes ino).n_blocks ≡ 32
    → get_free_bit (fs.data_bitmap) ≡ some b
    → write_blocks ctx ino buffer offset 131072 2 31 0 fs ≡ none
unfolding write_blocks
write_blocks-overflow ctx ino buffer offset b fs s le full free =
    let first = block_for-owned fs ino 31 buffer offset 0 s (omega arith) (omega arith) in
    let last_round =
      put_part ctx ino buffer offset (block_of (fs.inodes ino) 31) (start_offset offset 31)
        (part_size offset 131072 31) 0 fs in
    let blocks : (last_round.inodes ino).n_blocks ≡ 32 = rw (eq→== ino ino refl) full in
    let wide : length ((last_round.inodes ino).data_blocks) ≡ 32 =
      rw (eq→== ino ino refl) (s.wide ino) in
    rw (first.0, block_for-overflow last_round ino b wide blocks (s.disk) free)

-- The rounds of a write from the last block of a file of 32 blocks up to 128 KiB.
module _ (ctx : Context) (ino : ℕ) (buffer : Buffer) (size offset b : ℕ) (fs : Fs) (s : Sound fs)
    (le : offset ≤ (fs.inodes ino).size) (full : (fs.inodes ino).n_blocks ≡ 32)
    (high : 126976 ≤ offset) (pos : 0 < size) (end : size + offset ≡ 131072)
    (free : get_free_bit (fs.data_bitmap) ≡ some b) where
  abbrev last_round : Fs
  last_round =
      put_part ctx ino buffer offset (block_of (fs.inodes ino) 31) (start_offset offset 31)
        (part_size offset 131072 31) 0 fs

  all_bytes : 0 + part_size offset 131072 31 ≡ size
  all_bytes = ground (arith, high, pos, end)

  -- Round 31 writes all of the bytes.
  write_blocks-last : write_blocks ctx ino buffer offset 131072 1 31 0 fs ≡ some (size, last_round)
  unfolding write_blocks
  write_blocks-last =
      rw ((block_for-owned fs ino 31 buffer offset 0 s (omega arith) (omega arith)).0)
        (ap (λ n. some (n, last_round)) all_bytes)

  is_free : b < 3808
  is_free =
      let found : FirstClear (fs.data_bitmap) 0 (length (fs.data_bitmap) * 32) (some b) =
        subst (λ o. FirstClear (fs.data_bitmap) 0 (length (fs.data_bitmap) * 32) o) free
          (get_free_bit-FirstClear (fs.data_bitmap)) in
      omega (arith, found.1, s.disk)

  abbrev block_taken : Fs
  block_taken = record last_round { data_bitmap = set_bit (fs.data_bitmap) b }

  -- Round 32 takes the free block.
  init_data_block-taken : init_data_block last_round ≡ some (some b, block_taken)
  init_data_block-taken =
      init_data_block-at last_round (some b) free ∙ rw (lt→ltb b 3837 (omega (arith, is_free)))

  -- The array is full.
  array_full : (block_taken.inodes ino).n_blocks ≡ length ((block_taken.inodes ino).data_blocks)
  array_full = rw (eq→== ino ino refl) (full ∙ sym (s.wide ino))

  -- Its number goes behind the array.
  add_block-behind : add_block ino b (block_taken.inodes ino) block_taken ≡ none
  add_block-behind = rw (
      le→ltb ((block_taken.inodes ino).n_blocks) (length ((block_taken.inodes ino).data_blocks))
        (omega (arith, array_full)))

-- A write of the last bytes of a file of 32 blocks, from its last block up to 128 KiB, while a data block is
-- free, fails: round 31 writes all of the bytes, round 32 takes the first free block and stores its number
-- at the place n_blocks, which is the length of the array.
pub write_file-overflow :
    (ctx : Context) (ino : ℕ) (buffer : Buffer) (size offset b : ℕ) (fs : Fs)
    → Sound fs
    → is_dir (fs.inodes ino) ≡ false
    → offset ≤ (fs.inodes ino).size
    → (fs.inodes ino).n_blocks ≡ 32
    → 126976 ≤ offset
    → 0 < size
    → size + offset ≡ 131072
    → get_free_bit (fs.data_bitmap) ≡ some b
    → (fs1 : Fs) × (fs2 : Fs) × (write_blocks ctx ino buffer offset 131072 1 31 0 fs
        ≡ some (size, fs1))
      × (init_data_block fs1 ≡ some (some b, fs2))
      × ((fs2.inodes ino).n_blocks ≡ length ((fs2.inodes ino).data_blocks))
      × (add_block ino b (fs2.inodes ino) fs2 ≡ none)
      × (write_file ctx ino buffer size offset fs ≡ none)
unfolding write_file
write_file-overflow ctx ino buffer size offset b fs s file le full high pos end free =
    let first : offset / 4096 ≡ 31 = omega arith in
    (
      last_round ctx ino buffer size offset b fs s le full high pos end free,
      block_taken ctx ino buffer size offset b fs s le full high pos end free,
      write_blocks-last ctx ino buffer size offset b fs s le full high pos end free,
      init_data_block-taken ctx ino buffer size offset b fs s le full high pos end free,
      array_full ctx ino buffer size offset b fs s le full high pos end free,
      add_block-behind ctx ino buffer size offset b fs s le full high pos end free,
      rw (
        file,
        le→ltb ((fs.inodes ino).size) offset le,
        end,
        ne→== size 0 (omega arith),
        first,
        write_blocks-overflow ctx ino buffer offset b fs s le full free,
      ),
    )
