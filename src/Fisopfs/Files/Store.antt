-- ===== src/Fisopfs/Files/Store.antt =====
-- write_file of fisopfs/fisopfs.c stores the bytes of the buffer.
use tps_sistemas_operativos.Base.{
  ℕ, zero, suc, ◌+◌, ◌-◌, ◌*◌, ◌/◌, ◌%◌, ◌<◌, ◌≤◌, ◌≡◌, refl, ◌⊎◌, inl, inr, false, none, some,
  arith, ne→==, le→ltb, lt→ltb, ◌∙◌, sym,
}
use tps_sistemas_operativos.Fisopfs.Bitmap.{get_free_bit}
use tps_sistemas_operativos.Fisopfs.Disk.{Fs, Context, ok, is_dir}
use tps_sistemas_operativos.Fisopfs.Files.{
  Buffer, put_part, write_blocks, write_file, start_offset, part_size, size_mod,
}
use tps_sistemas_operativos.Fisopfs.Files.Sound.{Sound}
use tps_sistemas_operativos.Fisopfs.Files.Written.{
  Written, Written-trans, Written-le, part-Written, part-Sound,
}
use tps_sistemas_operativos.Fisopfs.Files.Write.{same-Written, block_for_cases}
use tps_sistemas_operativos.Fisopfs.Files.Parts.{
  position, position-part, position-le, part_fits, position-suc,
}

module _ (ctx : Context) (ino : ℕ) (buffer : Buffer) (offset end : ℕ) (some_bytes : offset < end)
    (small : end < 131072) where
  -- What the loop from `fs` at `w` bytes ends in: `n` bytes are written, all of them unless the disk
  -- is full.
  abbrev Stored : Fs → ℕ → ℕ → Fs → Type 0
  Stored fs w n fs' =
      (w ≤ n)
      × (offset + n ≤ end)
      × Sound fs'
      × Written fs fs' ino buffer offset w n
      × ((offset + n ≡ end) ⊎ (get_free_bit (fs'.data_bitmap) ≡ none))

  write_blocks-Stored :
      (rounds i w : ℕ) (fs : Fs)
      → Sound fs
      → offset / 4096 ≤ i
      → i ≤ (fs.inodes ino).n_blocks
      → i + rounds ≡ suc (end / 4096)
      → position offset end i ≡ offset + w
      → offset + w ≤ (fs.inodes ino).size
      → (n : ℕ) × (fs' : Fs) × (write_blocks ctx ino buffer offset end rounds i w fs
          ≡ some (n, fs'))
        × Stored fs w n fs'
  unfolding write_blocks
  write_blocks-Stored zero i w fs s from have count at le =
      let e : end ≡ offset + w = rw (← at) (rw (lt→ltb (end / 4096) i (omega arith))) in
      (
        w,
        fs,
        refl,
        (omega arith, omega arith, s, same-Written fs ino buffer offset w s le, inl (sym e)),
      )
  write_blocks-Stored (suc rounds) i w fs s from have count at le =
      let to : i ≤ end / 4096 = omega arith in
      let at' : i * 4096 + start_offset offset i ≡ offset + w =
        sym (position-part offset end i some_bytes small from to) ∙ at in
      elim (block_for_cases fs ino i buffer offset w s le have (omega arith)) [
        | inl (run, full) ↦ (
          w,
          fs,
          rw run,
          (
            omega arith,
            omega (arith, at', position-le offset end i some_bytes small from to),
            s,
            same-Written fs ino buffer offset w s le,
            inr full,
          ),
        )
        | inr (b, fs1, run, got) ↦
            let fit = part_fits offset end i some_bytes small from to in
            let le1 : offset + w ≤ (fs1.inodes ino).size =
              Written-le fs fs1 ino buffer offset w w (got.written) in
            let part =
              part-Written ctx fs1 ino i b buffer offset (start_offset offset i)
                (part_size offset end i) w (got.sound) (got.owned) (got.block) fit at' le1 in
            let sound =
              part-Sound ctx fs1 ino i b buffer offset (start_offset offset i)
                (part_size offset end i) w (got.sound) (got.owned) (got.block) fit at' le1 in
            let rest =
              write_blocks-Stored rounds (suc i) (w + part_size offset end i)
                (put_part ctx ino buffer offset b (start_offset offset i) (part_size offset end i) w
                  fs1)
                sound (omega arith) (omega (arith, got.owned, part.more)) (omega arith)
                (position-suc offset end i some_bytes small from to ∙ omega (arith, at'))
                (Written-le fs1 _ ino buffer offset w (w + part_size offset end i) part) in
            (
              rest.0,
              rest.1,
              rw run (rest.2),
              (
                omega (arith, rest.3.0),
                rest.3.1,
                rest.3.2,
                Written-trans fs fs1 (rest.1) ino buffer offset w w (rest.0) (omega arith)
                    (omega (arith, rest.3.0)) (got.written)
                    (Written-trans fs1 _ (rest.1) ino buffer offset w (w + part_size offset end i)
                      (rest.0) (omega arith) (rest.3.0) part (rest.3.3)),
                rest.3.4,
              ),
            )
      ]

write_file-run :
    (ctx : Context) (ino : ℕ) (buffer : Buffer) (size offset : ℕ) (fs : Fs)
    → is_dir (fs.inodes ino) ≡ false
    → offset ≤ (fs.inodes ino).size
    → 0 < size
    → size + offset < 131072
    → (n : ℕ) (fs' : Fs)
    → write_blocks ctx ino buffer offset
        (size + offset)
        (suc ((size + offset) / 4096) - offset / 4096)
        (offset / 4096)
        0
        fs
      ≡ some (n, fs')
    → write_file ctx ino buffer size offset fs ≡ some (ok n, fs')
unfolding write_file
write_file-run ctx ino buffer size offset fs file le pos small n fs' run =
    let whole : (size + offset) % size_mod ≡ size + offset = omega arith in
    rw (
      file,
      le→ltb ((fs.inodes ino).size) offset le,
      whole,
      le→ltb 131072 (size + offset) (omega arith),
      ne→== size 0 (omega arith),
      run,
    )

all_or_full : (offset n size : ℕ) (P : Type 0) → (offset + n ≡ size + offset) ⊎ P → (n ≡ size) ⊎ P
all_or_full offset n size P (inl e) = inl (omega arith)
all_or_full offset n size P (inr full) = inr full

-- A write inside a file or at its end, of at least one byte and to less than 128 KiB, returns a count
-- `n` of bytes, which is the whole size unless no data block is left. Then the file holds the first
-- `n` bytes of the buffer at the offset and its old bytes elsewhere, its size has grown to the end of
-- what is written if it was smaller, each other file has its old bytes, and each block still belongs to
-- one place of one file.
pub write_file-Written :
    (ctx : Context) (ino : ℕ) (buffer : Buffer) (size offset : ℕ) (fs : Fs)
    → Sound fs
    → is_dir (fs.inodes ino) ≡ false
    → offset ≤ (fs.inodes ino).size
    → 0 < size
    → size + offset < 131072
    → (n : ℕ) × (fs' : Fs) × (write_file ctx ino buffer size offset fs ≡ some (ok n, fs'))
      × (n ≤ size)
      × ((n ≡ size) ⊎ (get_free_bit (fs'.data_bitmap) ≡ none))
      × Sound fs'
      × Written fs fs' ino buffer offset 0 n
write_file-Written ctx ino buffer size offset fs s file le pos small =
    let r =
      write_blocks-Stored ctx ino buffer offset (size + offset) (omega arith) small
        (suc ((size + offset) / 4096) - offset / 4096) (offset / 4096) 0 fs s (omega arith)
        (omega (arith, s.covered ino, le)) (omega arith)
        (position-part offset (size + offset) (offset / 4096) (omega arith) small (omega arith)
            (omega arith)
          ∙ ground arith)
        (omega arith) in
    (
      r.0,
      r.1,
      write_file-run ctx ino buffer size offset fs file le pos small (r.0) (r.1) (r.2),
      omega (arith, r.3.1),
      all_or_full offset (r.0) size (get_free_bit ((r.1).data_bitmap) ≡ none) (r.3.4),
      r.3.2,
      r.3.3,
    )
