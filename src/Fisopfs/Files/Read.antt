-- ===== src/Fisopfs/Files/Read.antt =====
-- fisopfs_read of fisopfs/fisopfs.c on an inode, and a read of what write_file stored.
use mathlib.Core.Path.{subst}
use tps_sistemas_operativos.Base.{
  update, ℕ, zero, suc, ◌+◌, ◌-◌, ◌*◌, ◌/◌, ◌<◌, ◌≤◌, ◌≡◌, refl, ◌⊎◌, inl, inr, false, some, arith,
  eq→==, ne→==, le→ltb, lt→ltb, ltb, ltb→lt, ltb→le, Bool-cases, ap, ◌∙◌, sym,
}
use tps_sistemas_operativos.Fisopfs.Bitmap.Search.{get_bit-lt}
use tps_sistemas_operativos.Fisopfs.Disk.{Fs, Context, ok, is_dir, get_data_block}
use tps_sistemas_operativos.Fisopfs.Files.{
  Buffer, memcpy, start_offset, part_size, read_part, read_blocks, read_file, min,
}
use tps_sistemas_operativos.Fisopfs.Files.Sound.{Sound, block_of, content, get_elem-lt}
use tps_sistemas_operativos.Fisopfs.Files.Written.{memcpy-in, memcpy-out}
use tps_sistemas_operativos.Fisopfs.Files.Parts.{
  position, position-part, part_fits, position-suc, part_end,
}

-- `buffer'` is `buffer` with the bytes of the file from `offset + from` to `offset + to` in their places.
pub record Loaded (fs : Fs) (ino offset from to : ℕ) (buffer buffer' : Buffer) : Type 0 where
  pub got : (k : ℕ) → from ≤ k → k < to → buffer' k ≡ content fs ino (offset + k)
  pub kept : (k : ℕ) → (k < from) ⊎ (to ≤ k) → buffer' k ≡ buffer k

Loaded-trans :
    (fs : Fs) (ino offset from mid to : ℕ) (b0 b1 b2 : Buffer)
    → from ≤ mid
    → mid ≤ to
    → Loaded fs ino offset from mid b0 b1
    → Loaded fs ino offset mid to b1 b2
    → Loaded fs ino offset from to b0 b2
Loaded-trans fs ino offset from mid to b0 b1 b2 p q v w = record {
  got = λ k a b. elim (Bool-cases (ltb k mid)) [
    | inl first ↦ w.kept k (inl (ltb→lt k mid first)) ∙ v.got k a (ltb→lt k mid first)
    | inr second ↦ w.got k (ltb→le k mid second) b
  ];
  kept = λ k c. elim c [
    | inl l ↦ w.kept k (inl (omega arith)) ∙ v.kept k (inl l)
    | inr r ↦ w.kept k (inr r) ∙ v.kept k (inr (omega arith))
  ];
}

module _ (fs : Fs) (ino : ℕ) (s : Sound fs) (offset end : ℕ) (some_bytes : offset < end)
    (small : end < 131072) (inside : end ≤ (fs.inodes ino).size) where
  -- One round: the block is on the disk, or the round copies no bytes.
  read_part-Loaded :
      (i count : ℕ) (buffer : Buffer)
      → offset / 4096 ≤ i
      → i ≤ end / 4096
      → i * 4096 + start_offset offset i ≡ offset + count
      → (buffer' : Buffer) × (read_part
            (get_data_block (block_of (fs.inodes ino) i))
            (start_offset offset i)
            (part_size offset end i)
            count
            buffer
            fs
          ≡ some (buffer', fs))
        × Loaded fs ino offset count (count + part_size offset end i) buffer buffer'
  read_part-Loaded i count buffer from to at =
      let b = block_of (fs.inodes ino) i in
      let start = start_offset offset i in
      let fit = part_fits offset end i some_bytes small from to in
      elim (Bool-cases (ltb b 3837)) [
        | inl there ↦ (
          memcpy buffer count fs.bytes (b * 4096 + start) (part_size offset end i),
          rw there,
          record {
            got = λ k p q.
                memcpy-in buffer count fs.bytes (b * 4096 + start) (part_size offset end i) k p q
                ∙ ap fs.bytes (let e : (offset + k) / 4096 ≡ i = omega arith in rw e (omega arith));
            kept = λ k c.
                memcpy-out buffer count fs.bytes (b * 4096 + start) (part_size offset end i) k c;
          },
        )
        | inr beyond ↦
            let nothing : part_size offset end i ≡ 0 =
              elim (Bool-cases (ltb i ((fs.inodes ino).n_blocks))) [
                | inl owned ↦ absurd (
                    omega (
                      arith,
                      s.disk,
                      ltb→le b 3837 beyond,
                      get_bit-lt (fs.data_bitmap) b
                          (s.held ino i (ltb→lt i ((fs.inodes ino).n_blocks) owned)),
                    ))
                | inr past ↦ omega (
                  arith,
                  part_end offset end i some_bytes small from to,
                  s.covered ino,
                  inside,
                  ltb→le i ((fs.inodes ino).n_blocks) past,
                )
              ] in
            (
              buffer,
              rw (beyond, eq→== (part_size offset end i) 0 nothing),
              record { got = λ k p q. absurd (omega (arith, p, q, nothing)); kept = λ k c. refl },
            )
      ]

  read_blocks-Loaded :
      (rounds i count : ℕ) (buffer : Buffer)
      → offset / 4096 ≤ i
      → i + rounds ≡ suc (end / 4096)
      → position offset end i ≡ offset + count
      → (buffer' : Buffer) × (read_blocks (fs.inodes ino) offset end rounds i count buffer fs
          ≡ some ((end - offset, buffer'), fs))
        × Loaded fs ino offset count (end - offset) buffer buffer'
  unfolding read_blocks
  read_blocks-Loaded zero i count buffer from n at =
      let e : end ≡ offset + count = rw (← at) (rw (lt→ltb (end / 4096) i (omega arith))) in
      let done : count ≡ end - offset = omega arith in
      (
        buffer,
        ap (λ c. some ((c, buffer), fs)) done,
        record { got = λ k p q. absurd (omega (arith, p, q, done)); kept = λ k c. refl },
      )
  read_blocks-Loaded (suc rounds) i count buffer from n at =
      let to : i ≤ end / 4096 = omega arith in
      let at' : i * 4096 + start_offset offset i ≡ offset + count =
        sym (position-part offset end i some_bytes small from to) ∙ at in
      let part = read_part-Loaded i count buffer from to at' in
      let rest =
        read_blocks-Loaded rounds (suc i) (count + part_size offset end i) (part.0) (omega arith)
          (omega arith) (position-suc offset end i some_bytes small from to ∙ omega (arith, at')) in
      let end_here = part_end offset end i some_bytes small from to in
      (
        rest.0,
        rw (
          get_elem-lt ((fs.inodes ino).data_blocks) i 0 (omega (arith, s.wide ino)),
          part.1,
          rest.1,
        ),
        Loaded-trans fs ino offset count (count + part_size offset end i) (end - offset) buffer
            (part.0) (rest.0) (omega arith) (omega (arith, end_here, at')) (part.2) (rest.2),
      )

min-le : (a b : ℕ) → min a b ≤ b
min-le a b = ground arith

read_file-run :
    (ctx : Context) (ino offset count : ℕ) (size : ℕ) (buffer : Buffer) (fs : Fs)
    → is_dir (fs.inodes ino) ≡ false
    → offset ≤ (fs.inodes ino).size
    → min size ((fs.inodes ino).size - offset) ≡ count
    → 0 < count
    → (buffer' : Buffer)
    → read_blocks
        (fs.inodes ino)
        offset
        (offset + count)
        (suc ((offset + count) / 4096) - offset / 4096)
        (offset / 4096)
        0
        buffer
        fs
      ≡ some ((count, buffer'), fs)
    → read_file ctx ino size offset buffer fs
      ≡ some (
        (ok count, buffer'),
        record fs { inodes = update fs.inodes ino (record (fs.inodes ino) { atim = ctx.now }) },
      )
unfolding read_file
read_file-run ctx ino offset count size buffer fs file le e pos buffer' run = rw (
  file,
  le→ltb ((fs.inodes ino).size) offset le,
  e,
  ne→== count 0 (omega arith),
  run,
  eq→== count count refl,
)

-- A read inside a file that asks for `size` bytes and ends below 128 KiB returns the smaller of `size`
-- and what is left of the file, puts just these bytes of the file into the buffer, and changes nothing
-- but the access time.
pub read_file-Loaded :
    (ctx : Context) (ino offset count size : ℕ) (buffer : Buffer) (fs : Fs)
    → Sound fs
    → is_dir (fs.inodes ino) ≡ false
    → offset ≤ (fs.inodes ino).size
    → min size ((fs.inodes ino).size - offset) ≡ count
    → 0 < count
    → offset + count < 131072
    → (buffer' : Buffer) × (read_file ctx ino size offset buffer fs
        ≡ some (
          (ok count, buffer'),
          record fs { inodes = update fs.inodes ino (record (fs.inodes ino) { atim = ctx.now }) },
        ))
      × Loaded fs ino offset 0 count buffer buffer'
read_file-Loaded ctx ino offset count size buffer fs s file le e pos small =
    let within : count ≤ (fs.inodes ino).size - offset =
      rw (← e) (min-le size ((fs.inodes ino).size - offset)) in
    let r =
      read_blocks-Loaded fs ino s offset (offset + count) (omega arith) small (omega arith)
        (suc ((offset + count) / 4096) - offset / 4096) (offset / 4096) 0 buffer (omega arith)
        (omega arith)
        (position-part offset (offset + count) (offset / 4096) (omega arith) small (omega arith)
            (omega arith)
          ∙ ground arith) in
    let same : offset + count - offset ≡ count = omega arith in
    (
      r.0,
      read_file-run ctx ino offset count size buffer fs file le e pos (r.0)
          (r.1 ∙ ap (λ c. some ((c, r.0), fs)) same),
      subst (λ c. Loaded fs ino offset 0 c buffer (r.0)) same (r.2),
    )
