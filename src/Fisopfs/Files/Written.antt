-- ===== src/Fisopfs/Files/Written.antt =====
-- What a stretch of write_file in fisopfs/fisopfs.c does to a file and leaves alone in the others.
use tps_sistemas_operativos.Base.{
  update_self, update-ne, update-elim, ℕ, ◌+◌, ◌-◌, ◌*◌, ◌/◌, ◌%◌, ◌<◌, ◌≤◌, ◌≡◌, refl, ◌≢◌, ◌⊎◌,
  inl, inr, false, length, arith, Bool-cases, ==→eq, eq→==, ◌==◌, ap, ◌∙◌, sym, ltb, ltb→lt, ltb→le,
}
use tps_sistemas_operativos.Fisopfs.Bitmap.{get_bit}
use tps_sistemas_operativos.Fisopfs.Disk.{Inode, Fs, Context}
use tps_sistemas_operativos.Fisopfs.Files.{Buffer, memcpy, max, put_part}
use tps_sistemas_operativos.Fisopfs.Files.Sound.{Sound, block_of, content}
use tps_sistemas_operativos.Fisopfs.Files.Growth.{grown, longer, block-longer_old}

-- From `fs` to `fs'`, the bytes of the buffer from `from` to `to` came to the file `ino` at `offset`.
pub record Written (fs fs' : Fs) (ino : ℕ) (buffer : Buffer) (offset from to : ℕ) : Type 0 where
  pub new :
      (pos : ℕ)
      → offset + from ≤ pos
      → pos < offset + to
      → content fs' ino pos ≡ buffer (pos - offset)
  pub old :
      (pos : ℕ)
      → pos < (fs.inodes ino).n_blocks * 4096
      → (pos < offset + from) ⊎ (offset + to ≤ pos)
      → content fs' ino pos ≡ content fs ino pos
  pub others :
      (jno pos : ℕ)
      → ino ≢ jno
      → pos < (fs.inodes jno).n_blocks * 4096
      → content fs' jno pos ≡ content fs jno pos
  pub away : (jno : ℕ) → ino ≢ jno → fs'.inodes jno ≡ fs.inodes jno
  pub sized : (fs'.inodes ino).size ≡ max ((fs.inodes ino).size) (offset + to)
  pub more : (fs.inodes ino).n_blocks ≤ (fs'.inodes ino).n_blocks
  pub room : offset + to ≤ (fs'.inodes ino).n_blocks * 4096
  pub same_mode : (fs'.inodes ino).mode ≡ (fs.inodes ino).mode
  pub entries : fs'.dentries ≡ fs.dentries

max-le : (a b c : ℕ) → a ≤ c → b ≤ c → max a b ≤ c
max-le a b c p q = ground arith

le-max_right : (a b : ℕ) → b ≤ max a b
le-max_right a b = ground arith

-- The file reaches to the end of the stretch.
pub Written-le :
    (fs fs' : Fs) (ino : ℕ) (buffer : Buffer) (offset from to : ℕ)
    → Written fs fs' ino buffer offset from to
    → offset + to ≤ (fs'.inodes ino).size
Written-le fs fs' ino buffer offset from to w =
    rw (w.sized) (le-max_right ((fs.inodes ino).size) (offset + to))

pub Written-trans :
    (fs fs' fs'' : Fs) (ino : ℕ) (buffer : Buffer) (offset from mid to : ℕ)
    → from ≤ mid
    → mid ≤ to
    → Written fs fs' ino buffer offset from mid
    → Written fs' fs'' ino buffer offset mid to
    → Written fs fs'' ino buffer offset from to
Written-trans fs fs' fs'' ino buffer offset from mid to p q v w = record {
  new = λ pos a b. elim (Bool-cases (ltb pos (offset + mid))) [
    | inl first ↦
        w.old pos (omega (arith, v.room, ltb→lt pos (offset + mid) first))
          (inl (ltb→lt pos (offset + mid) first))
        ∙ v.new pos a (ltb→lt pos (offset + mid) first)
    | inr second ↦ w.new pos (ltb→le pos (offset + mid) second) b
  ];
  old = λ pos a c.
      w.old pos (omega (arith, v.more, a)) (elim c [ inl l ↦ inl (omega arith) | inr r ↦ inr r ])
      ∙ v.old pos a (elim c [ inl l ↦ inl l | inr r ↦ inr (omega arith) ]);
  others = λ jno pos d a.
      w.others jno pos d
        (let e = ap (λ (n : Inode). n.n_blocks) (v.away jno d) in omega (arith, e, a))
      ∙ v.others jno pos d a;
  away = λ jno d. w.away jno d ∙ v.away jno d;
  sized = w.sized ∙ ap (λ z. max z (offset + to)) (v.sized) ∙ ground arith;
  more = omega (arith, v.more, w.more);
  room = w.room;
  same_mode = w.same_mode ∙ v.same_mode;
  entries = w.entries ∙ v.entries;
}

pub memcpy-in :
    (dst : Buffer) (at : ℕ) (src : Buffer) (from n i : ℕ)
    → at ≤ i
    → i < at + n
    → memcpy dst at src from n i ≡ src (from + (i - at))
memcpy-in dst at src from n i p q = ground arith

pub memcpy-out :
    (dst : Buffer) (at : ℕ) (src : Buffer) (from n i : ℕ)
    → (i < at) ⊎ (at + n ≤ i)
    → memcpy dst at src from n i ≡ dst i
memcpy-out dst at src from n i (inl p) = ground arith
memcpy-out dst at src from n i (inr p) = ground arith

pub grown-Written :
    (fs : Fs) (ino b : ℕ) (buffer : Buffer) (offset w : ℕ)
    → Sound fs
    → get_bit (fs.data_bitmap) b ≡ false
    → b < 3808
    → (fs.inodes ino).n_blocks < 32
    → offset + w ≤ (fs.inodes ino).size
    → Written fs (grown fs ino b) ino buffer offset w w
grown-Written fs ino b buffer offset w s clear inside room le = record {
  new = λ pos p q. absurd (omega (arith, p, q));
  old = λ pos p _.
      ap (λ (v : Inode). fs.bytes (block_of v (pos / 4096) * 4096 + pos % 4096))
        (update_self fs.inodes ino (longer (fs.inodes ino) b))
      ∙ ap (λ k. fs.bytes (k * 4096 + pos % 4096))
          (block-longer_old fs ino b s clear inside room (pos / 4096) (omega arith));
  others = λ jno pos d p.
      ap (λ (v : Inode). fs.bytes (block_of v (pos / 4096) * 4096 + pos % 4096))
        (update-ne fs.inodes ino (longer (fs.inodes ino) b) jno d);
  away = λ jno d. update-ne fs.inodes ino (longer (fs.inodes ino) b) jno d;
  sized =
      ap (λ (v : Inode). v.size) (update_self fs.inodes ino (longer (fs.inodes ino) b))
      ∙ ground arith;
  more =
      let e =
        ap (λ (v : Inode). v.n_blocks) (update_self fs.inodes ino (longer (fs.inodes ino) b)) in
      omega (arith, e);
  room =
      let e =
        ap (λ (v : Inode). v.n_blocks) (update_self fs.inodes ino (longer (fs.inodes ino) b)) in
      omega (arith, e, s.covered ino, le);
  same_mode = ap (λ (v : Inode). v.mode) (update_self fs.inodes ino (longer (fs.inodes ino) b));
  entries = refl;
}

module _ (ctx : Context) (fs : Fs) (ino i b : ℕ) (buffer : Buffer) (offset start n w : ℕ)
    (s : Sound fs) (owned : i < (fs.inodes ino).n_blocks) (block : block_of (fs.inodes ino) i ≡ b)
    (fit : start + n ≤ 4096) (at : i * 4096 + start ≡ offset + w)
    (le : offset + w ≤ (fs.inodes ino).size) where
  abbrev after : Fs
  after = put_part ctx ino buffer offset b start n w fs

  abbrev here : Inode
  here = record (fs.inodes ino) {
    size = max ((fs.inodes ino).size) (offset + (w + n));
    atim = ctx.now;
    mtim = ctx.now;
  }

  same_blocks : (jno k : ℕ) → block_of (after.inodes jno) k ≡ block_of (fs.inodes jno) k
  same_blocks =
      update-elim (λ jno v. (k : ℕ) → block_of v k ≡ block_of (fs.inodes jno) k) fs.inodes ino here
        (λ k. refl) (λ jno d k. refl)

  same_n_blocks : (jno : ℕ) → (after.inodes jno).n_blocks ≡ (fs.inodes jno).n_blocks
  same_n_blocks =
      update-elim (λ jno v. v.n_blocks ≡ (fs.inodes jno).n_blocks) fs.inodes ino here refl
        (λ jno d. refl)

  -- The bytes of another place keep what they were.
  elsewhere :
      (jno pos : ℕ)
      → pos < (fs.inodes jno).n_blocks * 4096
      → (jno ≡ ino → pos / 4096 ≢ i)
      → content after jno pos ≡ content fs jno pos
  elsewhere jno pos p d =
      let differ : block_of (fs.inodes jno) (pos / 4096) ≢ b = λ e.
        let both = s.alone jno ino (pos / 4096) i (omega arith) owned (e ∙ sym block) in
        d (both.0) (both.1) in
      ap (λ k. after.bytes (k * 4096 + pos % 4096)) (same_blocks jno (pos / 4096))
      ∙ memcpy-out fs.bytes (b * 4096 + start) buffer w n
          (block_of (fs.inodes jno) (pos / 4096) * 4096 + pos % 4096)
          (elim (Bool-cases (ltb (block_of (fs.inodes jno) (pos / 4096)) b)) [
            | inl below ↦
                inl (omega (arith, ltb→lt (block_of (fs.inodes jno) (pos / 4096)) b below))
            | inr above ↦
                inr (omega (arith, ltb→le (block_of (fs.inodes jno) (pos / 4096)) b above, differ))
          ])

  part-new :
      (pos : ℕ)
      → offset + w ≤ pos
      → pos < offset + (w + n)
      → content after ino pos ≡ buffer (pos - offset)
  part-new pos p q =
      let e : pos / 4096 ≡ i = omega arith in
      ap (λ k. after.bytes (k * 4096 + pos % 4096))
        (same_blocks ino (pos / 4096) ∙ ap (λ k. block_of (fs.inodes ino) k) e ∙ block)
      ∙ memcpy-in fs.bytes (b * 4096 + start) buffer w n (b * 4096 + pos % 4096) (omega arith)
          (omega arith)
      ∙ ap buffer (omega arith)

  part-old :
      (pos : ℕ)
      → pos < (fs.inodes ino).n_blocks * 4096
      → (pos < offset + w) ⊎ (offset + (w + n) ≤ pos)
      → content after ino pos ≡ content fs ino pos
  part-old pos p c = elim (Bool-cases (pos / 4096 == i)) [
    | inr other ↦ elsewhere ino pos p (λ _ e. cc (eq→== (pos / 4096) i e, other))
    | inl same ↦
        let e : pos / 4096 ≡ i = ==→eq (pos / 4096) i same in
        let at_b = ap (λ k. block_of (fs.inodes ino) k) e ∙ block in
        ap (λ k. after.bytes (k * 4096 + pos % 4096)) (same_blocks ino (pos / 4096) ∙ at_b)
        ∙ memcpy-out fs.bytes (b * 4096 + start) buffer w n (b * 4096 + pos % 4096)
            (elim c [ inl l ↦ inl (omega arith) | inr r ↦ inr (omega arith) ])
        ∙ ap (λ k. fs.bytes (k * 4096 + pos % 4096)) (sym at_b)
  ]

  pub part-Written : Written fs after ino buffer offset w (w + n)
  part-Written = record {
    new = part-new;
    old = part-old;
    others = λ jno pos d p. elsewhere jno pos p (λ e _. d (sym e));
    away = λ jno d. update-ne fs.inodes ino here jno d;
    sized = ap (λ (v : Inode). v.size) (update_self fs.inodes ino here);
    more = omega (arith, same_n_blocks ino);
    room = omega (arith, same_n_blocks ino);
    same_mode = ap (λ (v : Inode). v.mode) (update_self fs.inodes ino here);
    entries = refl;
  }

  pub part-Sound : Sound after
  part-Sound = record {
    disk = s.disk;
    wide =
        update-elim (λ _ v. length (v.data_blocks) ≡ 32) fs.inodes ino here (s.wide ino)
          (λ j _. s.wide j);
    few = update-elim (λ _ v. v.n_blocks ≤ 32) fs.inodes ino here (s.few ino) (λ j _. s.few j);
    covered =
        update-elim (λ _ v. v.size ≤ v.n_blocks * 4096) fs.inodes ino here
          (max-le _ _ _ (s.covered ino) (omega arith)) (λ j _. s.covered j);
    held = λ jno k p.
        ap (λ v. get_bit (fs.data_bitmap) v) (same_blocks jno k)
        ∙ s.held jno k (omega (arith, same_n_blocks jno));
    alone = λ jno kno k l p q e.
        s.alone jno kno k l (omega (arith, same_n_blocks jno)) (omega (arith, same_n_blocks kno))
          (sym (same_blocks jno k) ∙ e ∙ same_blocks kno l);
  }
