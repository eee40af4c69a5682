-- ===== src/Fisopfs/Dirs/Insert.antt =====
-- insert_dentry of fisopfs/fisopfs.c puts an entry behind the others.
use mathlib.Core.Path.{subst}
use tps_sistemas_operativos.Base.{
  update_self, update-ne, Option-cases, ℕ, ◌+◌, ◌*◌, ◌/◌, ◌%◌, ◌<◌, ◌≤◌, ◌≡◌, refl, ◌≢◌, ◌⊎◌, inl,
  inr, true, false, none, some, arith, Bool-cases, lt→ltb, ne→==, eq→==, ==→eq, ◌==◌, ap, ◌∙◌,
  length,
}
use tps_sistemas_operativos.Fisopfs.Bitmap.{get_free_bit}
use tps_sistemas_operativos.Fisopfs.Bitmap.Search.{FirstClear, get_free_bit-FirstClear}
use tps_sistemas_operativos.Fisopfs.Disk.{Inode, Fs}
use tps_sistemas_operativos.Fisopfs.Files.Sound.{Sound}
use tps_sistemas_operativos.Fisopfs.Files.Growth.{grown, longer, grown-Sound, block-longer_old}
use tps_sistemas_operativos.Fisopfs.Files.Write.{init_data_block-at}
use tps_sistemas_operativos.Fisopfs.Dirs.{room_for_entry}
use tps_sistemas_operativos.Fisopfs.Dirs.Entries.{place}

-- Room for entry `n`: the state, and what the taking of a block left alone.
pub record Roomy (fs fs' : Fs) (ino n : ℕ) : Type 0 where
  pub sound : Sound fs'
  pub room : n < (fs'.inodes ino).n_blocks * 8
  pub places :
      (i : ℕ)
      → i < (fs.inodes ino).n_blocks * 8
      → place (fs'.inodes ino) i ≡ place (fs.inodes ino) i
  pub more : (fs.inodes ino).n_blocks ≤ (fs'.inodes ino).n_blocks
  pub away : (jno : ℕ) → ino ≢ jno → fs'.inodes jno ≡ fs.inodes jno
  pub same_size : (fs'.inodes ino).size ≡ (fs.inodes ino).size
  pub same_mode : (fs'.inodes ino).mode ≡ (fs.inodes ino).mode
  pub entries : fs'.dentries ≡ fs.dentries

module _ (fs : Fs) (ino n : ℕ) (s : Sound fs) (counted : (fs.inodes ino).size ≡ n * 512)
    (few : n < 256) where
  abbrev node : Inode
  node = fs.inodes ino

  room_for_entry-old :
      node.size ≢ node.n_blocks * 4096
      → (room_for_entry ino fs ≡ some (true, fs)) × Roomy fs fs ino n
  unfolding room_for_entry
  room_for_entry-old other = (
    rw (ne→== (node.size) (node.n_blocks * 4096) other),
    record {
      sound = s;
      room = omega (arith, s.covered ino, other);
      places = λ i _. refl;
      more = omega arith;
      away = λ _ _. refl;
      same_size = refl;
      same_mode = refl;
      entries = refl;
    },
  )

  room_for_entry-full :
      node.size ≡ node.n_blocks * 4096
      → get_free_bit (fs.data_bitmap) ≡ none
      → room_for_entry ino fs ≡ some (false, fs)
  unfolding room_for_entry
  room_for_entry-full e full =
      rw (eq→== (node.size) (node.n_blocks * 4096) e, init_data_block-at fs none full)

  room_for_entry-grown :
      (b : ℕ)
      → node.size ≡ node.n_blocks * 4096
      → get_free_bit (fs.data_bitmap) ≡ some b
      → (room_for_entry ino fs ≡ some (true, grown fs ino b)) × Roomy fs (grown fs ino b) ino n
  unfolding room_for_entry
  room_for_entry-grown b e free =
      let found : FirstClear (fs.data_bitmap) 0 (length (fs.data_bitmap) * 32) (some b) =
        subst (λ o. FirstClear (fs.data_bitmap) 0 (length (fs.data_bitmap) * 32) o) free
          (get_free_bit-FirstClear (fs.data_bitmap)) in
      let inside : b < 3808 = omega (arith, found.1, s.disk) in
      let room : node.n_blocks < 32 = omega arith in
      let top = update_self fs.inodes ino (longer node b) in
      let blocks = ap (λ (v : Inode). v.n_blocks) top in
      (
        rw (
          eq→== (node.size) (node.n_blocks * 4096) e,
          init_data_block-at fs (some b) free,
          lt→ltb b 3837 (omega arith),
          lt→ltb (node.n_blocks) (length (node.data_blocks)) (omega (arith, s.wide ino)),
        ),
        record {
          sound = grown-Sound fs ino b s (found.2) inside room;
          room = omega (arith, blocks);
          places = λ i lt.
              ap (λ (v : Inode). place v i) top
              ∙ ap (λ k. k * 8 + i % 8)
                  (block-longer_old fs ino b s (found.2) inside room (i / 8) (omega arith));
          more = omega (arith, blocks);
          away = λ jno d. update-ne fs.inodes ino (longer node b) jno d;
          same_size = ap (λ (v : Inode). v.size) top;
          same_mode = ap (λ (v : Inode). v.mode) top;
          entries = refl;
        },
      )

  pub room_for_entry_cases :
      ((room_for_entry ino fs ≡ some (false, fs)) × (get_free_bit (fs.data_bitmap) ≡ none))
      ⊎ ((fs' : Fs) × (room_for_entry ino fs ≡ some (true, fs')) × Roomy fs fs' ino n)
  room_for_entry_cases = elim (Bool-cases (node.size == node.n_blocks * 4096)) [
    | inr other ↦
        let r = room_for_entry-old (λ e. cc (eq→== (node.size) (node.n_blocks * 4096) e, other)) in
        inr (fs, r.0, r.1)
    | inl same ↦
        let e = ==→eq (node.size) (node.n_blocks * 4096) same in
        elim (Option-cases (get_free_bit (fs.data_bitmap))) [
          | inl full ↦ inl (room_for_entry-full e full, full)
          | inr (b, free) ↦ let r = room_for_entry-grown b e free in inr (grown fs ino b, r.0, r.1)
        ]
  ]
