-- ===== src/Fisopfs/Files/Write.antt =====
-- write_file of fisopfs/fisopfs.c: the block of a round, the loop, and the whole.
use mathlib.Core.Path.{subst}
use tps_sistemas_operativos.Base.{
  update_self, Option-cases, ℕ, ◌+◌, ◌*◌, ◌<◌, ◌≤◌, ◌≡◌, refl, ◌⊎◌, inl, inr, Option, none, some,
  length, arith, Bool-cases, ap, ◌∙◌, lt→ltb, le→ltb, ltb, ltb→lt, ltb→le,
}
use tps_sistemas_operativos.Fisopfs.Bitmap.{get_free_bit}
use tps_sistemas_operativos.Fisopfs.Bitmap.Search.{get_bit-lt, get_free_bit-FirstClear, FirstClear}
use tps_sistemas_operativos.Fisopfs.Disk.{Inode, Fs, init_data_block, block_on}
use tps_sistemas_operativos.Fisopfs.Files.{Buffer, block_for}
use tps_sistemas_operativos.Fisopfs.Files.Sound.{Sound, block_of, get_elem-lt}
use tps_sistemas_operativos.Fisopfs.Files.Growth.{grown, longer, grown-Sound, block-longer_new}
use tps_sistemas_operativos.Fisopfs.Files.Written.{Written, grown-Written}

-- The state with a block for round `i`, that block, and what its taking left alone.
pub record Supplied (fs fs' : Fs) (ino i b : ℕ) (buffer : Buffer) (offset w : ℕ) : Type 0 where
  pub sound : Sound fs'
  pub owned : i < (fs'.inodes ino).n_blocks
  pub block : block_of (fs'.inodes ino) i ≡ b
  pub written : Written fs fs' ino buffer offset w w

pub same-Written :
    (fs : Fs) (ino : ℕ) (buffer : Buffer) (offset w : ℕ)
    → Sound fs
    → offset + w ≤ (fs.inodes ino).size
    → Written fs fs ino buffer offset w w
same-Written fs ino buffer offset w s le = record {
  new = λ pos p q. absurd (omega (arith, p, q));
  old = λ pos _ _. refl;
  others = λ jno pos _ _. refl;
  away = λ jno _. refl;
  sized = ground arith;
  more = omega arith;
  room = omega (arith, s.covered ino);
  same_mode = refl;
  entries = refl;
}

pub init_data_block-at :
    (fs : Fs) (o : Option ℕ)
    → get_free_bit (fs.data_bitmap) ≡ o
    → init_data_block fs ≡ block_on o fs
unfolding init_data_block
init_data_block-at fs o e = ap (λ p. block_on p fs) e

module _ (fs : Fs) (ino i : ℕ) (buffer : Buffer) (offset w : ℕ) (s : Sound fs)
    (le : offset + w ≤ (fs.inodes ino).size) where
  pub block_for-owned :
      i < (fs.inodes ino).n_blocks
      → (block_for ino i fs ≡ some (some (block_of (fs.inodes ino) i), fs))
        × Supplied fs fs ino i (block_of (fs.inodes ino) i) buffer offset w
  unfolding block_for
  block_for-owned lt = (
    rw (
      lt→ltb i ((fs.inodes ino).n_blocks) lt,
      get_elem-lt ((fs.inodes ino).data_blocks) i 0 (omega (arith, s.wide ino, s.few ino, lt)),
      lt→ltb (block_of (fs.inodes ino) i) 3837
          (omega (arith, get_bit-lt (fs.data_bitmap) _ (s.held ino i lt), s.disk)),
    ),
    record {
      sound = s;
      owned = lt;
      block = refl;
      written = same-Written fs ino buffer offset w s le;
    },
  )

  block_for-full :
      (fs.inodes ino).n_blocks ≤ i
      → get_free_bit (fs.data_bitmap) ≡ none
      → block_for ino i fs ≡ some (none, fs)
  unfolding block_for
  block_for-full ge full =
      rw (le→ltb i ((fs.inodes ino).n_blocks) ge, init_data_block-at fs none full)

  block_for-grown :
      (b : ℕ)
      → i ≡ (fs.inodes ino).n_blocks
      → i < 32
      → get_free_bit (fs.data_bitmap) ≡ some b
      → (block_for ino i fs ≡ some (some b, grown fs ino b))
        × Supplied fs (grown fs ino b) ino i b buffer offset w
  unfolding block_for
  block_for-grown b here lt e =
      let found : FirstClear (fs.data_bitmap) 0 (length (fs.data_bitmap) * 32) (some b) =
        subst (λ o. FirstClear (fs.data_bitmap) 0 (length (fs.data_bitmap) * 32) o) e
          (get_free_bit-FirstClear (fs.data_bitmap)) in
      let inside : b < 3808 = omega (arith, found.1, s.disk) in
      let room : (fs.inodes ino).n_blocks < 32 = omega arith in
      let top = update_self fs.inodes ino (longer (fs.inodes ino) b) in
      (
        rw (
          le→ltb i ((fs.inodes ino).n_blocks) (omega arith),
          init_data_block-at fs (some b) e,
          lt→ltb b 3837 (omega arith),
          lt→ltb ((fs.inodes ino).n_blocks) (length ((fs.inodes ino).data_blocks))
              (omega (arith, s.wide ino)),
        ),
        record {
          sound = grown-Sound fs ino b s (found.2) inside room;
          owned = let e' = ap (λ (v : Inode). v.n_blocks) top in omega (arith, e');
          block =
              ap (λ (v : Inode). block_of v i) top
              ∙ ap (λ k. block_of (longer (fs.inodes ino) b) k) here
              ∙ block-longer_new fs ino b s (found.2) inside room;
          written = grown-Written fs ino b buffer offset w s (found.2) inside room le;
        },
      )

  pub block_for_cases :
      i ≤ (fs.inodes ino).n_blocks
      → i < 32
      → ((block_for ino i fs ≡ some (none, fs)) × (get_free_bit (fs.data_bitmap) ≡ none))
        ⊎ ((b : ℕ) × (fs' : Fs) × (block_for ino i fs ≡ some (some b, fs'))
            × Supplied fs fs' ino i b buffer offset w)
  block_for_cases p lt = elim (Bool-cases (ltb i ((fs.inodes ino).n_blocks))) [
    | inl old ↦
        let r = block_for-owned (ltb→lt i ((fs.inodes ino).n_blocks) old) in
        inr (block_of (fs.inodes ino) i, fs, r.0, r.1)
    | inr new ↦
        let ge = ltb→le i ((fs.inodes ino).n_blocks) new in
        elim (Option-cases (get_free_bit (fs.data_bitmap))) [
          | inl full ↦ inl (block_for-full ge full, full)
          | inr (b, e) ↦
              let r = block_for-grown b (omega arith) lt e in inr (b, grown fs ino b, r.0, r.1)
        ]
  ]
