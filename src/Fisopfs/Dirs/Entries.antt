-- ===== src/Fisopfs/Dirs/Entries.antt =====
-- The entries of a directory of fisopfs/fisopfs.c as a sequence, and find_in_dir on it.
use mathlib.Core.Path.{subst}
use tps_sistemas_operativos.Base.{
  ℕ, zero, suc, ◌+◌, ◌*◌, ◌/◌, ◌%◌, ◌<◌, ◌≤◌, ◌≡◌, refl, inl, inr, true, false, Option, none, some,
  arith, Bool-cases, ltb, ltb→lt, ltb→le, lt→ltb, lt→leb, ap, ◌∙◌,
}
use tps_sistemas_operativos.Fisopfs.Bitmap.Search.{get_bit-lt}
use tps_sistemas_operativos.Fisopfs.Disk.{Name, Inode, Dirent, Fs, is_dir, get_inode, get_dirent}
use tps_sistemas_operativos.Fisopfs.Paths.{same_name}
use tps_sistemas_operativos.Fisopfs.Files.Sound.{Sound, block_of, get_elem-lt}
use tps_sistemas_operativos.Fisopfs.Dirs.{find_from, find_in_dir}

-- Where entry `i` of an inode stands, and the entry.
abbrev pub place : Inode → ℕ → ℕ
place node i = block_of node (i / 8) * 8 + i % 8

abbrev pub slot : Fs → ℕ → ℕ → Dirent
slot fs ino i = fs.dentries (place (fs.inodes ino) i)

-- The entries from `lo` below `hi` have other names.
abbrev pub NoneNamed : Fs → ℕ → Name → ℕ → ℕ → Type 0
NoneNamed fs ino name lo hi =
    (k : ℕ) → lo ≤ k → k < hi → same_name name ((slot fs ino k).d_name) ≡ false

-- `r` is the first entry of the name from `lo` below `hi`, or none, where there is no such.
abbrev pub FirstNamed : Fs → ℕ → Name → ℕ → ℕ → Option ℕ → Type 0
FirstNamed fs ino name lo hi none = NoneNamed fs ino name lo hi
FirstNamed fs ino name lo hi (some k) =
    (lo ≤ k)
    × (k < hi)
    × (same_name name ((slot fs ino k).d_name) ≡ true)
    × NoneNamed fs ino name lo k

-- What find_in_dir returns for it.
abbrev pub inode_of : Fs → ℕ → Option ℕ → Option ℕ
inode_of fs ino none = none
inode_of fs ino (some k) = get_inode ((slot fs ino k).d_ino)

NoneNamed-cons :
    (fs : Fs) (ino : ℕ) (name : Name) (lo hi : ℕ)
    → same_name name ((slot fs ino lo).d_name) ≡ false
    → NoneNamed fs ino name (suc lo) hi
    → NoneNamed fs ino name lo hi
NoneNamed-cons fs ino name lo hi other rest k p q = elim (Bool-cases (ltb lo k)) [
  | inl above ↦ rest k (ltb→lt lo k above) q
  | inr here ↦
      let e : k ≡ lo = omega (arith, p, ltb→le lo k here) in
      ap (λ j. same_name name ((slot fs ino j).d_name)) e ∙ other
]

FirstNamed-cons :
    (fs : Fs) (ino : ℕ) (name : Name) (lo hi : ℕ) (r : Option ℕ)
    → same_name name ((slot fs ino lo).d_name) ≡ false
    → FirstNamed fs ino name (suc lo) hi r
    → FirstNamed fs ino name lo hi r
FirstNamed-cons fs ino name lo hi none other rest = NoneNamed-cons fs ino name lo hi other rest
FirstNamed-cons fs ino name lo hi (some k) other (p, q, hit, rest) =
    (omega arith, q, hit, NoneNamed-cons fs ino name lo k other rest)

module _ (fs : Fs) (ino : ℕ) (s : Sound fs) (dir : is_dir (fs.inodes ino) ≡ true) where
  pub get_dirent-some :
      (i : ℕ)
      → i < (fs.inodes ino).n_blocks * 8
      → get_dirent i (fs.inodes ino) ≡ some (place (fs.inodes ino) i)
  unfolding get_dirent
  get_dirent-some i lt =
      let owned : i / 8 < (fs.inodes ino).n_blocks = omega arith in
      rw (
        dir,
        lt→leb ((fs.inodes ino).n_blocks) (i / 8) owned,
        get_elem-lt ((fs.inodes ino).data_blocks) (i / 8) 0
            (omega (arith, owned, s.wide ino, s.few ino)),
        lt→ltb (block_of (fs.inodes ino) (i / 8)) 3837
            (omega (arith, s.disk, get_bit-lt (fs.data_bitmap) _ (s.held ino (i / 8) owned))),
      )

  find_from-FirstNamed :
      (name : Name) (rounds i : ℕ)
      → i + rounds ≤ (fs.inodes ino).n_blocks * 8
      → (r : Option ℕ) × (find_from name (fs.inodes ino) rounds i fs ≡ some (inode_of fs ino r, fs))
        × FirstNamed fs ino name i (i + rounds) r
  unfolding find_from
  find_from-FirstNamed name zero i h = (none, refl, λ k p q. absurd (omega (arith, p, q)))
  find_from-FirstNamed name (suc rounds) i h =
      elim (Bool-cases (same_name name ((slot fs ino i).d_name))) [
        | inl hit ↦ (
          some i,
          rw (get_dirent-some i (omega arith), hit),
          (omega arith, omega arith, hit, λ k p q. absurd (omega (arith, p, q))),
        )
        | inr miss ↦
            let rest = find_from-FirstNamed name rounds (suc i) (omega arith) in
            let e : suc i + rounds ≡ i + suc rounds = omega arith in
            (
              rest.0,
              rw (get_dirent-some i (omega arith), miss) (rest.1),
              FirstNamed-cons fs ino name i (i + suc rounds) (rest.0) miss
                  (subst (λ v. FirstNamed fs ino name (suc i) v (rest.0)) e (rest.2)),
            )
      ]

  -- On a directory whose blocks hold its entries, find_in_dir returns the inode of the first entry with
  -- the name, or NULL if no entry has it.
  pub find_in_dir-FirstNamed :
      (name : Name)
      → (r : Option ℕ) × (find_in_dir name (fs.inodes ino) fs ≡ some (inode_of fs ino r, fs))
        × FirstNamed fs ino name 0 ((fs.inodes ino).size / 512) r
  unfolding find_in_dir
  find_in_dir-FirstNamed name =
      let r =
        find_from-FirstNamed name ((fs.inodes ino).size / 512) 0 (omega (arith, s.covered ino)) in
      let e : 0 + (fs.inodes ino).size / 512 ≡ (fs.inodes ino).size / 512 = omega arith in
      (r.0, rw dir (r.1), subst (λ v. FirstNamed fs ino name 0 v (r.0)) e (r.2))
