-- ===== src/Fisopfs/Files/RoundTrip.antt =====
-- A read of fisopfs/fisopfs.c of what a write stored, and the transfers that end at 128 KiB.
use mathlib.Core.Path.{subst}
use tps_sistemas_operativos.Base.{ℕ, ◌+◌, ◌-◌, ◌<◌, ◌≤◌, ◌≡◌, false, some, arith, ap, ◌∙◌, sym}
use tps_sistemas_operativos.Fisopfs.Disk.{Fs, Context, ok, is_dir}
use tps_sistemas_operativos.Fisopfs.Files.{Buffer, min, write_file, read_file}
use tps_sistemas_operativos.Fisopfs.Files.Sound.{Sound}
use tps_sistemas_operativos.Fisopfs.Files.Written.{Written, Written-le}
use tps_sistemas_operativos.Fisopfs.Files.Store.{write_file-Written}
use tps_sistemas_operativos.Fisopfs.Files.Read.{read_file-Loaded}

-- What the reader of a stored stretch needs of the state that the write left.
record Readable (fs fs' : Fs) (ino : ℕ) (buffer : Buffer) (offset size n : ℕ) : Type 0 where
  at_most : n ≤ size
  sound : Sound fs'
  stored : Written fs fs' ino buffer offset 0 n

le-min : (a b : ℕ) → a ≤ b → min a b ≡ a
le-min a b h = ground arith

module _ (ctx : Context) (ino : ℕ) (buffer : Buffer) (size offset : ℕ) (fs : Fs) (s : Sound fs)
    (file : is_dir (fs.inodes ino) ≡ false) (le : offset ≤ (fs.inodes ino).size) (pos : 0 < size)
    (small : size + offset < 131072) where
  written_here :
      (n : ℕ) (fs' : Fs)
      → write_file ctx ino buffer size offset fs ≡ some (ok n, fs')
      → Readable fs fs' ino buffer offset size n
  written_here n fs' run =
      let r = write_file-Written ctx ino buffer size offset fs s file le pos small in
      let same : some (ok (r.0), r.1) ≡ some (ok n, fs') = sym (r.2) ∙ run in
      let en : r.0 ≡ n = cc (same) in
      let ef : r.1 ≡ fs' = cc (same) in
      subst (λ m. Readable fs fs' ino buffer offset size m) en
        (subst (λ g. Readable fs g ino buffer offset size (r.0)) ef
          (record { at_most = r.3; sound = r.5; stored = r.6 }))

  -- After a write inside a file or at its end, to less than 128 KiB, that returned a count `n` of at
  -- least one, a read of `n` bytes at the same offset returns `n`, and its buffer holds the first `n`
  -- bytes that were written.
  pub read_file-write_file :
      (n : ℕ) (fs' : Fs)
      → write_file ctx ino buffer size offset fs ≡ some (ok n, fs')
      → 0 < n
      → (target : Buffer)
      → (target' : Buffer) × (fs'' : Fs) × (read_file ctx ino n offset target fs'
          ≡ some ((ok n, target'), fs''))
        × ((k : ℕ) → k < n → target' k ≡ buffer k)
  read_file-write_file n fs' run some_bytes target =
      let w = written_here n fs' run in
      let reach = Written-le fs fs' ino buffer offset 0 n (w.stored) in
      let r =
        read_file-Loaded ctx ino offset n n target fs' (w.sound)
          (ap (λ m. is_dir (record (fs'.inodes ino) { mode = m })) ((w.stored).same_mode) ∙ file)
          (omega (arith, reach)) (le-min n ((fs'.inodes ino).size - offset) (omega (arith, reach)))
          some_bytes (omega (arith, w.at_most)) in
      (
        r.0,
        _,
        r.1,
        λ k lt.
            (r.2).got k (omega arith) lt
            ∙ (w.stored).new (offset + k) (omega arith) (omega (arith, lt))
            ∙ ap buffer (omega arith),
      )
