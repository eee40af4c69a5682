-- ===== src/Fisopfs/Files/Growth.antt =====
-- A file of fisopfs/fisopfs.c takes a new block: what stays as it was.
use tps_sistemas_operativos.Base.{
  update, update-elim, ℕ, suc, ◌*◌, ◌<◌, ◌≤◌, ◌≡◌, refl, ◌≢◌, ◌⊎◌, inl, inr, true, false, length,
  set, arith, Bool-cases, eq→==, ap, ◌∙◌, sym, get_or-set_self, get_or-set_ne, length-set, ltb,
  ltb→lt, ltb→le,
}
use tps_sistemas_operativos.Fisopfs.Bitmap.{get_bit, set_bit}
use tps_sistemas_operativos.Fisopfs.Bitmap.Search.{get-set, length-set_bit}
use tps_sistemas_operativos.Fisopfs.Disk.{Inode, Fs}
use tps_sistemas_operativos.Fisopfs.Files.Sound.{Sound, block_of}

abbrev pub longer : Inode → ℕ → Inode
longer node b = record node {
  data_blocks = set (node.data_blocks) (node.n_blocks) b;
  n_blocks = suc (node.n_blocks);
}

abbrev pub grown : Fs → ℕ → ℕ → Fs
grown fs ino b = record fs {
  data_bitmap = set_bit (fs.data_bitmap) b;
  inodes = update fs.inodes ino (longer (fs.inodes ino) b);
}

module _ (fs : Fs) (ino b : ℕ) (s : Sound fs) (clear : get_bit (fs.data_bitmap) b ≡ false)
    (inside : b < 3808) (room : (fs.inodes ino).n_blocks < 32) where
  abbrev node : Inode
  node = fs.inodes ino

  fresh : (jno j : ℕ) → j < (fs.inodes jno).n_blocks → block_of (fs.inodes jno) j ≢ b
  fresh jno j lt e = cc (s.held jno j lt, clear, ap (λ v. get_bit (fs.data_bitmap) v) e)

  still_set :
      (m : ℕ) → get_bit (fs.data_bitmap) m ≡ true → get_bit (set_bit (fs.data_bitmap) b) m ≡ true
  still_set m h = get-set (fs.data_bitmap) b m (omega (arith, s.disk)) ∙ ground arith

  pub block-longer_old : (i : ℕ) → i < node.n_blocks → block_of (longer node b) i ≡ block_of node i
  block-longer_old i lt =
      get_or-set_ne (node.data_blocks) (node.n_blocks) i b 0 (λ e. absurd (omega (arith, e)))

  pub block-longer_new : block_of (longer node b) (node.n_blocks) ≡ b
  block-longer_new =
      get_or-set_self (node.data_blocks) (node.n_blocks) b 0 (omega (arith, s.wide ino))

  -- A place of the longer inode is an old one, or the new one with the fresh block.
  place_cases :
      (i : ℕ)
      → i < suc (node.n_blocks)
      → ((i < node.n_blocks) × (block_of (longer node b) i ≡ block_of node i))
        ⊎ ((i ≡ node.n_blocks) × (block_of (longer node b) i ≡ b))
  place_cases i lt = elim (Bool-cases (ltb i (node.n_blocks))) [
    | inl old ↦
        inl (ltb→lt i (node.n_blocks) old, block-longer_old i (ltb→lt i (node.n_blocks) old))
    | inr new ↦
        let e : i ≡ node.n_blocks = omega (arith, lt, ltb→le i (node.n_blocks) new) in
        inr (e, ap (λ k. block_of (longer node b) k) e ∙ block-longer_new)
  ]

  held-longer :
      (i : ℕ)
      → i < suc (node.n_blocks)
      → get_bit (set_bit (fs.data_bitmap) b) (block_of (longer node b) i) ≡ true
  held-longer i lt = elim (place_cases i lt) [
    | inl (old, e) ↦
        ap (λ v. get_bit (set_bit (fs.data_bitmap) b) v) e ∙ still_set _ (s.held ino i old)
    | inr (new, e) ↦
        ap (λ v. get_bit (set_bit (fs.data_bitmap) b) v) e
        ∙ get-set (fs.data_bitmap) b b (omega (arith, s.disk))
        ∙ rw (eq→== b b refl)
  ]

  alone-longer :
      (i j : ℕ)
      → i < suc (node.n_blocks)
      → j < suc (node.n_blocks)
      → block_of (longer node b) i ≡ block_of (longer node b) j
      → i ≡ j
  alone-longer i j p q e = elim (place_cases i p) [
    | inl (old, ei) ↦ elim (place_cases j q) [
      | inl (old', ej) ↦ (s.alone ino ino i j old old' (sym ei ∙ e ∙ ej)).1
      | inr (new', ej) ↦ absurd (fresh ino i old (sym ei ∙ e ∙ ej))
    ]
    | inr (new, ei) ↦ elim (place_cases j q) [
      | inl (old', ej) ↦ absurd (fresh ino j old' (sym ej ∙ sym e ∙ ei))
      | inr (new', ej) ↦ new ∙ sym new'
    ]
  ]

  alone-other :
      (i jno j : ℕ)
      → i < suc (node.n_blocks)
      → j < (fs.inodes jno).n_blocks
      → ino ≢ jno
      → block_of (longer node b) i ≢ block_of (fs.inodes jno) j
  alone-other i jno j p q differ e = elim (place_cases i p) [
    | inl (old, ei) ↦ differ ((s.alone ino jno i j old q (sym ei ∙ e)).0)
    | inr (new, ei) ↦ fresh jno j q (sym e ∙ ei)
  ]

  pub grown-Sound : Sound (grown fs ino b)
  grown-Sound = record {
    disk = length-set_bit (fs.data_bitmap) b ∙ s.disk;
    wide =
        update-elim (λ _ v. length (v.data_blocks) ≡ 32) fs.inodes ino (longer node b)
          (length-set (node.data_blocks) (node.n_blocks) b ∙ s.wide ino) (λ j _. s.wide j);
    few =
        update-elim (λ _ v. v.n_blocks ≤ 32) fs.inodes ino (longer node b) (omega arith)
          (λ j _. s.few j);
    covered =
        update-elim (λ _ v. v.size ≤ v.n_blocks * 4096) fs.inodes ino (longer node b)
          (omega (arith, s.covered ino)) (λ j _. s.covered j);
    held =
        update-elim
          (λ _ v.
            (i : ℕ) → i < v.n_blocks → get_bit (set_bit (fs.data_bitmap) b) (block_of v i) ≡ true)
          fs.inodes ino (longer node b) held-longer (λ j _ i lt. still_set _ (s.held j i lt));
    alone =
        update-elim
          (λ k v.
            (jno i j : ℕ)
            → i < v.n_blocks
            → j < (update fs.inodes ino (longer node b) jno).n_blocks
            → block_of v i ≡ block_of (update fs.inodes ino (longer node b) jno) j
            → (k ≡ jno) × (i ≡ j))
          fs.inodes ino (longer node b)
          (update-elim
            (λ jno w.
              (i j : ℕ)
              → i < suc (node.n_blocks)
              → j < w.n_blocks
              → block_of (longer node b) i ≡ block_of w j
              → (ino ≡ jno) × (i ≡ j))
            fs.inodes ino (longer node b) (λ i j p q e. (refl, alone-longer i j p q e))
            (λ jno differ i j p q e. absurd (alone-other i jno j p q differ e)))
          (λ k away.
            update-elim
              (λ jno w.
                (i j : ℕ)
                → i < (fs.inodes k).n_blocks
                → j < w.n_blocks
                → block_of (fs.inodes k) i ≡ block_of w j
                → (k ≡ jno) × (i ≡ j))
              fs.inodes ino (longer node b)
              (λ i j p q e. absurd (alone-other j k i q p away (sym e)))
              (λ jno _ i j p q e. s.alone k jno i j p q e));
  }
