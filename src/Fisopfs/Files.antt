-- ===== src/Fisopfs/Files.antt =====
-- The bytes of a file in fisopfs/fisopfs.c: write_file, shrink_file, and fisopfs_read,
-- fisopfs_write, fisopfs_truncate behind the lookup of the path.
pub mod Sound
pub mod Growth
pub mod Written
pub mod Write
pub mod Parts
pub mod Store
pub mod Read
pub mod RoundTrip
pub mod Limit
use tps_sistemas_operativos.Base.{
  update, ℕ, zero, suc, ◌+◌, ◌-◌, ◌*◌, ◌/◌, ◌%◌, ◌^◌, Bool, true, false, ◌&&◌, ◌||◌, Option, none,
  some, List, [], ◌∷◌, get_elem?, length, set, ltb, leb, ◌==◌, if◌then◌else◌, sub32,
}
use tps_sistemas_operativos.Fisopfs.Bitmap.{Bitmap, set_bit, clear_bit, get_free_bit}
use tps_sistemas_operativos.Fisopfs.Disk.{
  Inode, Fs, Context, Ret, ok, err, efbig, erange, eisdir, Cmd, pure, fault, access, gets, modify,
  put_inode, get_inode_at, is_dir, get_data_block, init_data_block, block_size, dir_blocks, ◌>>=◌,
  ◌>>◌, continue,
}

-- What a pointer to bytes points at.
abbrev pub Buffer : Type 0
Buffer = ℕ → ℕ

-- memcpy of `n` bytes from `src` to `dst`.
abbrev pub memcpy : Buffer → ℕ → Buffer → ℕ → ℕ → Buffer
memcpy dst at src from n i = if leb at i && ltb i (at + n) then src (from + (i - at)) else dst i

abbrev pub size_mod : ℕ
size_mod = 2 ^ 64

abbrev pub max_size : ℕ
max_size = dir_blocks * block_size

-- The bytes of block `i` that a transfer of the range reaches: where they start, and how many.
abbrev pub start_offset : ℕ → ℕ → ℕ
start_offset offset i = if i == offset / block_size then offset % block_size else 0

abbrev pub part_size : ℕ → ℕ → ℕ → ℕ
part_size offset end i =
    if i == end / block_size
    then sub32 (end % block_size) (start_offset offset i)
    else block_size - start_offset offset i

abbrev pub add_block : ℕ → ℕ → Inode → Cmd (Option ℕ)
add_block ino b i =
    if ltb (i.n_blocks) (length (i.data_blocks))
    then (do
      put_inode ino (record i {
        data_blocks = set (i.data_blocks) (i.n_blocks) b;
        n_blocks = suc (i.n_blocks);
      })
      pure (some b))
    else fault

abbrev pub grow_file : ℕ → Option ℕ → Cmd (Option ℕ)
grow_file ino none = pure none
grow_file ino (some b) = get_inode_at ino >>= add_block ino b

abbrev pub owned_block : Option ℕ → Cmd (Option ℕ)
owned_block none = fault
owned_block (some b) = access (get_data_block b) >>= λ p. pure (some p)

-- The block that round `i` of write_file writes to, or none if the disk is full.
unfoldable pub block_for : ℕ → ℕ → Cmd (Option ℕ)
block_for ino i = do
  node ← get_inode_at ino
  if ltb i (node.n_blocks)
      then owned_block (get_elem? (node.data_blocks) i)
      else init_data_block >>= grow_file ino

abbrev pub max : ℕ → ℕ → ℕ
max a b = if ltb b a then a else b

-- The end of a round: the copy, the size and the times.
abbrev pub put_part : Context → ℕ → Buffer → ℕ → ℕ → ℕ → ℕ → ℕ → Fs → Fs
put_part ctx ino buffer offset b start n written fs = record fs {
  bytes = memcpy fs.bytes (b * block_size + start) buffer written n;
  inodes = update fs.inodes ino (record (fs.inodes ino) {
    size = max ((fs.inodes ino).size) (offset + (written + n));
    atim = ctx.now;
    mtim = ctx.now;
  });
}

-- The loop of write_file from block `i`, with `rounds` left; `written` is bytes_written.
unfoldable pub write_blocks : Context → ℕ → Buffer → ℕ → ℕ → ℕ → ℕ → ℕ → Cmd ℕ
write_blocks ctx ino buffer offset end zero i written = pure written
write_blocks ctx ino buffer offset end (suc rounds) i written = block_for ino i >>= λ block.
    elim block [
      | none ↦ pure written
      | some b ↦
          modify (
            put_part ctx ino buffer offset b (start_offset offset i) (part_size offset end i)
              written)
          >> write_blocks ctx ino buffer offset end rounds (suc i)
              (written + part_size offset end i)
    ]

unfoldable pub write_file : Context → ℕ → Buffer → ℕ → ℕ → Cmd Ret
write_file ctx ino buffer size offset = do
  node ← get_inode_at ino
  if is_dir node
      then pure (err eisdir)
      else if ltb (node.size) offset
      then pure (err efbig)
      else if ltb max_size ((size + offset) % size_mod)
      then pure (err efbig)
      else if size == 0
      then pure (ok 0)
      else (do
        let end = (size + offset) % size_mod
        n ←
            write_blocks ctx ino buffer offset end (suc (end / block_size) - offset / block_size)
              (offset / block_size) 0
        pure (ok n))

-- The loop of shrink_file over the blocks from `i`, with `rounds` left.
abbrev pub free_block : ℕ → ℕ → Fs → Fs
free_block ino b fs = record fs {
  data_bitmap = clear_bit (fs.data_bitmap) b;
  inodes =
      update fs.inodes ino (record (fs.inodes ino) { n_blocks = (fs.inodes ino).n_blocks - 1 });
}

abbrev pub keeps_part : ℕ → ℕ → Bool
keeps_part length i = i == length / block_size && ltb 0 (length % block_size)

unfoldable pub free_blocks : ℕ → ℕ → ℕ → ℕ → Cmd (Unit {0})
free_blocks ino length zero i = pure tt
free_blocks ino length (suc rounds) i =
    (if keeps_part length i then pure tt else (do
      node ← get_inode_at ino
      b ← access (get_elem? (node.data_blocks) i)
      modify (free_block ino b)))
    >> free_blocks ino length rounds (suc i)

unfoldable pub shrink_file : Context → ℕ → ℕ → Cmd (Unit {0})
shrink_file ctx ino length = do
  node ← get_inode_at ino
  if is_dir node || leb (node.size) length then pure tt else (do
    free_blocks ino length (node.n_blocks - length / block_size) (length / block_size)
    node' ← get_inode_at ino
    put_inode ino (record node' { size = length; ctim = ctx.now; mtim = ctx.now }))

-- The loop of fisopfs_read. A block that is not on the disk is NULL, which only a copy of no bytes
-- leaves alone.
abbrev pub read_part : Option ℕ → ℕ → ℕ → ℕ → Buffer → Cmd Buffer
read_part none start n count buffer = if n == 0 then pure buffer else fault
read_part (some b) start n count buffer =
    gets λ fs. memcpy buffer count fs.bytes (b * block_size + start) n

unfoldable pub read_blocks : Inode → ℕ → ℕ → ℕ → ℕ → ℕ → Buffer → Cmd (ℕ × Buffer)
read_blocks node offset end zero i count buffer = pure (count, buffer)
read_blocks node offset end (suc rounds) i count buffer = do
  b ← access (get_elem? (node.data_blocks) i)
  buffer' ←
      read_part (get_data_block b) (start_offset offset i) (part_size offset end i) count buffer
  read_blocks node offset end rounds (suc i) (count + part_size offset end i) buffer'

abbrev pub min : ℕ → ℕ → ℕ
min a b = if ltb b a then b else a

-- fisopfs_read on an inode: what it returns, and the caller's buffer. The assertion that ends it
-- compares the bytes read with the size.
unfoldable pub read_file : Context → ℕ → ℕ → ℕ → Buffer → Cmd (Ret × Buffer)
read_file ctx ino size offset buffer = do
  node ← get_inode_at ino
  if is_dir node
      then pure (err eisdir, buffer)
      else if ltb (node.size) offset
      then pure (err erange, buffer)
      else if min size (node.size - offset) == 0
      then pure (ok 0, buffer)
      else (do
        let end = offset + min size (node.size - offset)
        (count, buffer') ←
            read_blocks node offset end (suc (end / block_size) - offset / block_size)
              (offset / block_size) 0 buffer
        put_inode ino (record node { atim = ctx.now })
        if count == min size (node.size - offset) then pure (ok count, buffer') else fault)

abbrev pub zeros : Buffer
zeros _ = 0

-- A write that returns an error or a count: a count becomes 0.
abbrev pub zero_if_ok : Ret → Ret
zero_if_ok (ok n) = ok 0
zero_if_ok (err e) = err e

-- fisopfs_truncate on an inode, behind the test of the length.
unfoldable pub truncate_file : Context → ℕ → ℕ → Cmd Ret
truncate_file ctx ino length = do
  node ← get_inode_at ino
  if is_dir node
      then pure (err eisdir)
      else if length == node.size
      then pure (ok 0)
      else if ltb (node.size) length
      then (write_file ctx ino zeros (length - node.size) (node.size) >>= λ r. pure (zero_if_ok r))
      else (shrink_file ctx ino length >> pure (ok 0))
