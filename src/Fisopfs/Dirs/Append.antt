-- ===== src/Fisopfs/Dirs/Append.antt =====
-- insert_dentry of fisopfs/fisopfs.c: the new entry, the others, and a lookup of the new name.
use mathlib.Core.Path.{subst}
use tps_sistemas_operativos.Base.{
  update, update_self, update-ne, update-elim, ℕ, suc, ◌+◌, ◌*◌, ◌/◌, ◌<◌, ◌≤◌, ◌≡◌, refl, ◌≢◌, ◌⊎◌,
  inl, inr, true, false, Option, none, some, arith, Bool-cases, ltb, ltb→lt, ltb→le, lt→ltb, ap,
  ◌∙◌, sym, length, eq→==, [], ◌∷◌,
}
use tps_sistemas_operativos.Fisopfs.Bitmap.{get_bit, get_free_bit}
use tps_sistemas_operativos.Fisopfs.Disk.{
  Name, Inode, Dirent, Fs, Context, ok, err, enomem, is_dir, get_inode, filename_len,
}
use tps_sistemas_operativos.Fisopfs.Paths.{same_name}
use tps_sistemas_operativos.Fisopfs.Files.Sound.{Sound, block_of}
use tps_sistemas_operativos.Fisopfs.Dirs.{room_for_entry, insert_dentry, find_in_dir}
use tps_sistemas_operativos.Fisopfs.Dirs.Entries.{
  place, slot, get_dirent-some, NoneNamed, FirstNamed, inode_of, find_in_dir-FirstNamed,
}
use tps_sistemas_operativos.Fisopfs.Dirs.Insert.{Roomy, room_for_entry_cases}

-- Two places of entries are the same only for the same entry of the same inode.
pub place-inj :
    (fs : Fs) (ino jno i j : ℕ)
    → Sound fs
    → i < (fs.inodes ino).n_blocks * 8
    → j < (fs.inodes jno).n_blocks * 8
    → place (fs.inodes ino) i ≡ place (fs.inodes jno) j
    → (ino ≡ jno) × (i ≡ j)
place-inj fs ino jno i j s p q e =
    let both = s.alone ino jno (i / 8) (j / 8) (omega arith) (omega arith) (omega (arith, e)) in
    (both.0, omega (arith, both.1, e))

-- From `fs` to `fs'`, directory `ino` got entry `n`; its other entries and those of other directories stay.
pub record Inserted (fs fs' : Fs) (ino n : ℕ) (entry : Dirent) : Type 0 where
  pub sound : Sound fs'
  pub last : slot fs' ino n ≡ entry
  pub kept : (i : ℕ) → i < n → slot fs' ino i ≡ slot fs ino i
  pub others :
      (jno i : ℕ) → ino ≢ jno → i < (fs.inodes jno).n_blocks * 8 → slot fs' jno i ≡ slot fs jno i
  pub away : (jno : ℕ) → ino ≢ jno → fs'.inodes jno ≡ fs.inodes jno
  pub sized : (fs'.inodes ino).size ≡ suc n * 512
  pub same_mode : (fs'.inodes ino).mode ≡ (fs.inodes ino).mode

module _ (ctx : Context) (fs fs1 : Fs) (ino n : ℕ) (entry : Dirent) (s : Sound fs)
    (r : Roomy fs fs1 ino n) (counted : (fs.inodes ino).size ≡ n * 512) where
  abbrev here : Inode
  here = record (fs1.inodes ino) {
    size = (fs1.inodes ino).size + 512;
    atim = ctx.now;
    mtim = ctx.now;
  }

  abbrev after : Fs
  after = record fs1 {
    dentries = update fs1.dentries (place (fs1.inodes ino) n) entry;
    inodes = update fs1.inodes ino here;
  }

  same_place : (jno i : ℕ) → place (after.inodes jno) i ≡ place (fs1.inodes jno) i
  same_place =
      update-elim (λ jno v. (i : ℕ) → place v i ≡ place (fs1.inodes jno) i) fs1.inodes ino here
        (λ i. refl) (λ jno d i. refl)

  same_blocks : (jno i : ℕ) → block_of (after.inodes jno) i ≡ block_of (fs1.inodes jno) i
  same_blocks =
      update-elim (λ jno v. (i : ℕ) → block_of v i ≡ block_of (fs1.inodes jno) i) fs1.inodes ino
        here (λ i. refl) (λ jno d i. refl)

  same_n_blocks : (jno : ℕ) → (after.inodes jno).n_blocks ≡ (fs1.inodes jno).n_blocks
  same_n_blocks =
      update-elim (λ jno v. v.n_blocks ≡ (fs1.inodes jno).n_blocks) fs1.inodes ino here refl
        (λ jno d. refl)

  slot-else :
      (jno i : ℕ)
      → i < (fs1.inodes jno).n_blocks * 8
      → (ino ≡ jno → n ≢ i)
      → slot after jno i ≡ slot fs1 jno i
  slot-else jno i lt d =
      ap (λ k. after.dentries k) (same_place jno i)
      ∙ update-ne fs1.dentries (place (fs1.inodes ino) n) entry (place (fs1.inodes jno) i)
          (λ e. let both = place-inj fs1 ino jno n i (r.sound) (r.room) lt e in d (both.0) (both.1))

  after-Inserted : Inserted fs after ino n entry
  after-Inserted = record {
    sound = record {
      disk = (r.sound).disk;
      wide =
          update-elim (λ _ v. length (v.data_blocks) ≡ 32) fs1.inodes ino here ((r.sound).wide ino)
            (λ j _. (r.sound).wide j);
      few =
          update-elim (λ _ v. v.n_blocks ≤ 32) fs1.inodes ino here ((r.sound).few ino)
            (λ j _. (r.sound).few j);
      covered =
          update-elim (λ _ v. v.size ≤ v.n_blocks * 4096) fs1.inodes ino here
            (omega (arith, r.room, r.same_size, counted)) (λ j _. (r.sound).covered j);
      held = λ jno k p.
          ap (λ v. get_bit (fs1.data_bitmap) v) (same_blocks jno k)
          ∙ (r.sound).held jno k (omega (arith, same_n_blocks jno, p));
      alone = λ jno kno k l p q e.
          (r.sound).alone jno kno k l (omega (arith, same_n_blocks jno, p))
            (omega (arith, same_n_blocks kno, q)) (sym (same_blocks jno k) ∙ e ∙ same_blocks kno l);
    };
    last =
        ap (λ k. after.dentries k) (same_place ino n)
        ∙ update_self fs1.dentries (place (fs1.inodes ino) n) entry;
    kept = λ i lt.
        let old : i < (fs.inodes ino).n_blocks * 8 = omega (arith, s.covered ino, counted, lt) in
        slot-else ino i (omega (arith, r.room, lt)) (λ _ e. absurd (omega (arith, e, lt)))
        ∙ ap (λ k. fs1.dentries k) (r.places i old)
        ∙ ap (λ (f : ℕ → Dirent). f (place (fs.inodes ino) i)) (r.entries);
    others = λ jno i d lt.
        let blocks = ap (λ (v : Inode). v.n_blocks) (r.away jno d) in
        slot-else jno i (omega (arith, blocks, lt)) (λ e. absurd (d e))
        ∙ ap (λ (v : Inode). fs1.dentries (place v i)) (r.away jno d)
        ∙ ap (λ (f : ℕ → Dirent). f (place (fs.inodes jno) i)) (r.entries);
    away = λ jno d. update-ne fs1.inodes ino here jno d ∙ r.away jno d;
    sized =
        let e = ap (λ (v : Inode). v.size) (update_self fs1.inodes ino here) in
        omega (arith, e, r.same_size, counted);
    same_mode = ap (λ (v : Inode). v.mode) (update_self fs1.inodes ino here) ∙ r.same_mode;
  }

module _ (ctx : Context) (fs : Fs) (ino n new : ℕ) (name : Name) (s : Sound fs)
    (dir : is_dir (fs.inodes ino) ≡ true) (counted : (fs.inodes ino).size ≡ n * 512) (few : n < 256)
    (short : length name < filename_len) where
  abbrev entry : Dirent
  entry = record { d_name = name; d_ino = new }

  insert_dentry-run :
      (fs1 : Fs) (r : Roomy fs fs1 ino n)
      → room_for_entry ino fs ≡ some (true, fs1)
      → insert_dentry ctx ino new name fs ≡ some (ok 0, after ctx fs fs1 ino n entry s r counted)
  unfolding insert_dentry
  insert_dentry-run fs1 r run =
      let dir1 : is_dir (fs1.inodes ino) ≡ true =
        ap (λ m. is_dir (record (fs1.inodes ino) { mode = m })) (r.same_mode) ∙ dir in
      let index : (fs1.inodes ino).size / 512 ≡ n = omega (arith, r.same_size, counted) in
      rw (
        run,
        index,
        get_dirent-some fs1 ino (r.sound) dir1 n (r.room),
        lt→ltb (length name) filename_len short,
      )

  insert_dentry-full :
      room_for_entry ino fs ≡ some (false, fs)
      → insert_dentry ctx ino new name fs ≡ some (err enomem, fs)
  unfolding insert_dentry
  insert_dentry-full run = rw run

  -- On a directory of fewer than 256 entries, with a name of less than 256 characters: insert_dentry
  -- returns -ENOMEM and changes nothing, and then no data block is free; or it returns 0, and then the
  -- directory has one more entry, the new one, behind its old ones, the entries of the other
  -- directories stay, and each block still belongs to one place of one inode.
  pub insert_dentry-Inserted :
      ((insert_dentry ctx ino new name fs ≡ some (err enomem, fs))
        × (get_free_bit (fs.data_bitmap) ≡ none))
      ⊎ ((fs' : Fs) × (insert_dentry ctx ino new name fs ≡ some (ok 0, fs'))
          × Inserted fs fs' ino n entry)
  insert_dentry-Inserted = elim (room_for_entry_cases fs ino n s counted few) [
    | inl (run, full) ↦ inl (insert_dentry-full run, full)
    | inr (fs1, run, r) ↦ inr (
      after ctx fs fs1 ino n entry s r counted,
      insert_dentry-run fs1 r run,
      after-Inserted ctx fs fs1 ino n entry s r counted,
    )
  ]

same_name_refl : (a : Name) → same_name a a ≡ true
same_name_refl [] = refl
same_name_refl (x ∷ a) = rw (eq→== x x refl) (same_name_refl a)

module _ (fs fs' : Fs) (ino n : ℕ) (entry : Dirent) (was : NoneNamed fs ino (entry.d_name) 0 n)
    (w : Inserted fs fs' ino n entry) where
  -- The first entry of the new name is the new one.
  found-last :
      (r : Option ℕ)
      → FirstNamed fs' ino (entry.d_name) 0 (suc n) r
      → inode_of fs' ino r ≡ get_inode (entry.d_ino)
  found-last none f = absurd (
      cc (
        f n (omega arith) (omega arith),
        same_name_refl (entry.d_name),
        ap (λ (e : Dirent). same_name (entry.d_name) (e.d_name)) (w.last),
      ))
  found-last (some k) (p, q, hit, f) = elim (Bool-cases (ltb k n)) [
    | inl old ↦ absurd (
        cc (
          hit,
          was k p (ltb→lt k n old),
          ap (λ (e : Dirent). same_name (entry.d_name) (e.d_name)) (w.kept k (ltb→lt k n old)),
        ))
    | inr new ↦
        let e : k ≡ n = omega (arith, q, ltb→le k n new) in
        ap (λ i. get_inode ((slot fs' ino i).d_ino)) e
        ∙ ap (λ (d : Dirent). get_inode (d.d_ino)) (w.last)
  ]

-- After an entry of a name that the directory did not have is put into it, find_in_dir of the name
-- returns its inode.
pub find_in_dir-insert_dentry :
    (ctx : Context) (fs fs' : Fs) (ino n new : ℕ) (name : Name)
    → Sound fs
    → is_dir (fs.inodes ino) ≡ true
    → (fs.inodes ino).size ≡ n * 512
    → n < 256
    → length name < filename_len
    → NoneNamed fs ino name 0 n
    → insert_dentry ctx ino new name fs ≡ some (ok 0, fs')
    → find_in_dir name (fs'.inodes ino) fs' ≡ some (get_inode new, fs')
find_in_dir-insert_dentry ctx fs fs' ino n new name s dir counted few short was run =
    elim (insert_dentry-Inserted ctx fs ino n new name s dir counted few short) [
      | inl (failed, _) ↦ absurd (cc (failed, run))
      | inr (fs1, done, w) ↦
          let same : fs1 ≡ fs' = cc (done, run) in
          let w' : Inserted fs fs' ino n (record { d_name = name; d_ino = new }) =
            subst (λ g. Inserted fs g ino n (record { d_name = name; d_ino = new })) same w in
          let dir' : is_dir (fs'.inodes ino) ≡ true =
            ap (λ m. is_dir (record (fs'.inodes ino) { mode = m })) (w'.same_mode) ∙ dir in
          let r = find_in_dir-FirstNamed fs' ino (w'.sound) dir' name in
          let count : (fs'.inodes ino).size / 512 ≡ suc n = omega (arith, w'.sized) in
          r.1
          ∙ ap (λ o. some (o, fs'))
              (found-last fs fs' ino n (record { d_name = name; d_ino = new }) was w' (r.0)
                (subst (λ v. FirstNamed fs' ino name 0 v (r.0)) count (r.2)))
    ]
