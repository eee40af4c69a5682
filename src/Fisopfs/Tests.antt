-- ===== src/Fisopfs/Tests.antt =====
-- Runs of the file system, and the theorems at concrete states.
use tps_sistemas_operativos.Base.{
  update, ℕ, ◌<◌, ◌≤◌, ◌⊎◌, ◌≡◌, refl, Option, none, some, List, [], ◌∷◌, arith, length,
}
use tps_sistemas_operativos.Fisopfs.Bitmap.{
  get_free_bit, search_words, search_word, get_bit, test_bit, set_bit, raise_bit, clear_bit,
  lower_bit,
}
use tps_sistemas_operativos.Fisopfs.Disk.{
  init_inode, init_data_block, get_dirent, Fs, enomem, Ret, ok, err, enoent, enotempty, eexist,
  Name, Cmd, fisopfs_init, zero_fs, ◌>>=◌, pure,
}
use tps_sistemas_operativos.Fisopfs.Files.{
  Buffer, add_block, write_file, write_blocks, block_for, shrink_file, free_blocks,
}
use tps_sistemas_operativos.Fisopfs.Paths.{tokens, store_tokens, split_path, last_delim}
use tps_sistemas_operativos.Fisopfs.Dirs.{
  find_inode, walk, find_in_dir, find_from, insert_dentry, room_for_entry, shift_blocks,
  shift_block,
}
use tps_sistemas_operativos.Fisopfs.Samples.{
  ctx, hello, disk, disk-Sound, disk5, disk5-Sound, disk_big, disk_big-Sound,
}
use tps_sistemas_operativos.Fisopfs.Bitmap.Search.{FirstClear, get_free_bit-FirstClear}
use tps_sistemas_operativos.Fisopfs.Files.{read_file}
use tps_sistemas_operativos.Fisopfs.Files.Sound.{Sound}
use tps_sistemas_operativos.Fisopfs.Files.Growth.{grown}
use tps_sistemas_operativos.Fisopfs.Files.Written.{Written}
use tps_sistemas_operativos.Fisopfs.Files.Store.{write_file-Written}
use tps_sistemas_operativos.Fisopfs.Files.Read.{Loaded, read_file-Loaded}
use tps_sistemas_operativos.Fisopfs.Files.RoundTrip.{read_file-write_file}
use tps_sistemas_operativos.Fisopfs.Files.Limit.{write_file-overflow}
use tps_sistemas_operativos.Fisopfs.Paths.Split.{split_path-append}
use tps_sistemas_operativos.Fisopfs.Dirs.Lookup.{find_inode-join}
use tps_sistemas_operativos.Fisopfs.Dirs.Entries.{FirstNamed, inode_of, find_in_dir-FirstNamed}
use tps_sistemas_operativos.Fisopfs.Dirs.Append.{
  Inserted, insert_dentry-Inserted, find_in_dir-insert_dentry,
}
use tps_sistemas_operativos.Fisopfs.Calls.{
  make_node, make_in, unlink_inode, remove_entry, fisopfs_create, fisopfs_mkdir, fisopfs_write,
  fisopfs_unlink, fisopfs_rmdir,
}

-- "/a", "/a/b", "/a/c".
abbrev dir_a : Name
dir_a = 47 ∷ 97 ∷ []

abbrev file_b : Name
file_b = 47 ∷ 97 ∷ 47 ∷ 98 ∷ []

abbrev file_c : Name
file_c = 47 ∷ 97 ∷ 47 ∷ 99 ∷ []

abbrev results : {A : Type 0} → Option (A × Fs) → Option A
results none = none
results (some (a, fs)) = some a

abbrev on_new_disk : {A : Type 0} → Cmd A → Option A
on_new_disk run = elim (fisopfs_init ctx none zero_fs) [ none ↦ none | some fs ↦ results (run fs) ]

scenario : Cmd (List Ret)
scenario = do
  a ← fisopfs_mkdir ctx dir_a 493
  b ← fisopfs_create ctx file_b 420
  c ← fisopfs_create ctx file_c 420
  again ← fisopfs_create ctx file_b 420
  w ← fisopfs_write ctx file_b hello 5 0
  busy ← fisopfs_rmdir ctx dir_a
  ub ← fisopfs_unlink ctx file_b
  gone ← fisopfs_unlink ctx file_b
  uc ← fisopfs_unlink ctx file_c
  done ← fisopfs_rmdir ctx dir_a
  pure (a ∷ b ∷ c ∷ again ∷ w ∷ busy ∷ ub ∷ gone ∷ uc ∷ done ∷ [])

-- A directory and two files come and go, with the errors on the way.
scenario_runs :
    on_new_disk scenario
    ≡ some (
        ok 0
        ∷ ok 2
        ∷ ok 3
        ∷ err eexist
        ∷ ok 5
        ∷ err enotempty
        ∷ ok 0
        ∷ err enoent
        ∷ ok 0
        ∷ ok 0
        ∷ [])
unfolding scenario fisopfs_init init_inode init_data_block get_free_bit search_words search_word
    get_bit test_bit set_bit raise_bit clear_bit lower_bit fisopfs_mkdir fisopfs_create make_node
    make_in find_inode tokens store_tokens walk find_in_dir find_from get_dirent split_path
    last_delim insert_dentry room_for_entry fisopfs_write write_file write_blocks block_for
    fisopfs_rmdir fisopfs_unlink unlink_inode shift_blocks shift_block remove_entry shrink_file
    free_blocks
scenario_runs = refl

get_free_bit-FirstClear_example : FirstClear (255 ∷ 0 ∷ []) 0 64 (get_free_bit (255 ∷ 0 ∷ []))
get_free_bit-FirstClear_example = get_free_bit-FirstClear (255 ∷ 0 ∷ [])

write_file-Written_example :
    (n : ℕ) × (fs' : Fs) × (write_file ctx 1 hello 5 0 disk ≡ some (ok n, fs'))
    × (n ≤ 5)
    × ((n ≡ 5) ⊎ (get_free_bit (fs'.data_bitmap) ≡ none))
    × Sound fs'
    × Written disk fs' 1 hello 0 0 n
write_file-Written_example =
    write_file-Written ctx 1 hello 5 0 disk disk-Sound refl (omega arith) (omega arith)
      (omega arith)

read_file-Loaded_example :
    (buffer' : Buffer) × (read_file ctx 1 9 1 hello disk5
      ≡ some (
        (ok 4, buffer'),
        record disk5 { inodes = update disk5.inodes 1 (record (disk5.inodes 1) { atim = 7 }) },
      ))
    × Loaded disk5 1 1 0 4 hello buffer'
read_file-Loaded_example =
    read_file-Loaded ctx 1 1 4 9 hello disk5 disk5-Sound refl (omega arith) refl (omega arith)
      (omega arith)

hello_is_written : write_file ctx 1 hello 5 0 disk ≡ some (ok 5, disk5)
unfolding write_file write_blocks block_for init_data_block get_free_bit search_words search_word
    get_bit test_bit
hello_is_written = refl

read_file-write_file_example :
    (target' : Buffer) × (fs'' : Fs) × (read_file ctx 1 5 0 (λ _. 0) disk5
      ≡ some ((ok 5, target'), fs''))
    × ((k : ℕ) → k < 5 → target' k ≡ hello k)
read_file-write_file_example =
    read_file-write_file ctx 1 hello 5 0 disk disk-Sound refl (omega arith) (omega arith)
      (omega arith) 5 disk5 hello_is_written (omega arith) (λ _. 0)

one_is_free : get_free_bit (disk_big.data_bitmap) ≡ some 32
unfolding get_free_bit search_words search_word get_bit test_bit
one_is_free = refl

write_file-overflow_example :
    (fs1 : Fs) × (fs2 : Fs) × (write_blocks ctx 1 hello 130000 131072 1 31 0 disk_big
      ≡ some (1072, fs1))
    × (init_data_block fs1 ≡ some (some 32, fs2))
    × ((fs2.inodes 1).n_blocks ≡ length ((fs2.inodes 1).data_blocks))
    × (add_block 1 32 (fs2.inodes 1) fs2 ≡ none)
    × (write_file ctx 1 hello 1072 130000 disk_big ≡ none)
write_file-overflow_example =
    write_file-overflow ctx 1 hello 1072 130000 32 disk_big disk_big-Sound refl (omega arith) refl
      (omega arith) (omega arith) refl one_is_free

split_path-append_example : split_path file_b ≡ some (dir_a, 98 ∷ [])
split_path-append_example =
    split_path-append dir_a (98 ∷ []) (omega arith) (omega arith) (omega arith) (omega arith)

find_inode-join_example : find_inode file_b disk ≡ walk ((97 ∷ []) ∷ (98 ∷ []) ∷ []) 0 disk
find_inode-join_example =
    find_inode-join disk (omega arith) refl ((97 ∷ []) ∷ (98 ∷ []) ∷ []) (omega arith) (omega arith)
      (omega arith) (omega arith) (omega arith)

-- Eleven components "a".
find_in_dir-FirstNamed_example :
    (r : Option ℕ) × (find_in_dir (97 ∷ []) (disk.inodes 0) disk ≡ some (inode_of disk 0 r, disk))
    × FirstNamed disk 0 (97 ∷ []) 0 0 r
find_in_dir-FirstNamed_example = find_in_dir-FirstNamed disk 0 disk-Sound refl (97 ∷ [])

insert_dentry-Inserted_example :
    ((insert_dentry ctx 0 1 (97 ∷ []) disk ≡ some (err enomem, disk))
      × (get_free_bit (disk.data_bitmap) ≡ none))
    ⊎ ((fs' : Fs) × (insert_dentry ctx 0 1 (97 ∷ []) disk ≡ some (ok 0, fs'))
        × Inserted disk fs' 0 0 (record { d_name = 97 ∷ []; d_ino = 1 }))
insert_dentry-Inserted_example =
    insert_dentry-Inserted ctx disk 0 0 1 (97 ∷ []) disk-Sound refl refl (omega arith) (omega arith)

-- The root with the entry "a".
abbrev disk_a : Fs
disk_a = record (grown disk 0 0) {
  dentries = update (disk.dentries) 0 (record { d_name = 97 ∷ []; d_ino = 1 });
  inodes =
      update ((grown disk 0 0).inodes) 0
        (record ((grown disk 0 0).inodes 0) { size = 512; atim = 7; mtim = 7 });
}

a_is_inserted : insert_dentry ctx 0 1 (97 ∷ []) disk ≡ some (ok 0, disk_a)
unfolding insert_dentry room_for_entry get_dirent init_data_block get_free_bit search_words
    search_word get_bit test_bit
a_is_inserted = refl

find_in_dir-insert_dentry_example :
    find_in_dir (97 ∷ []) (disk_a.inodes 0) disk_a ≡ some (some 1, disk_a)
find_in_dir-insert_dentry_example =
    find_in_dir-insert_dentry ctx disk disk_a 0 0 1 (97 ∷ []) disk-Sound refl refl (omega arith)
      (omega arith) (λ k p q. absurd (omega (arith, p, q))) a_is_inserted
