-- ===== src/Fisopfs/Files/Parts.antt =====
-- How write_file and fisopfs_read of fisopfs/fisopfs.c cut a range of bytes at the blocks.
use tps_sistemas_operativos.Base.{
  ℕ, suc, ◌+◌, ◌*◌, ◌/◌, ◌<◌, ◌≤◌, ◌≡◌, arith, ltb, le→ltb, if◌then◌else◌,
}
use tps_sistemas_operativos.Fisopfs.Files.{start_offset, part_size}

-- Where round `i` starts, and behind the last round the end.
abbrev pub position : ℕ → ℕ → ℕ → ℕ
position offset end i = if ltb (end / 4096) i then end else i * 4096 + start_offset offset i

module _ (offset end i : ℕ) (some_bytes : offset < end) (small : end < 131072)
    (from : offset / 4096 ≤ i) (to : i ≤ end / 4096) where
  pub position-part : position offset end i ≡ i * 4096 + start_offset offset i
  position-part = rw (le→ltb (end / 4096) i to)

  pub position-le : i * 4096 + start_offset offset i ≤ end
  position-le = ground arith

  pub part_fits : start_offset offset i + part_size offset end i ≤ 4096
  part_fits = ground arith

  pub position-suc :
      position offset end (suc i) ≡ i * 4096 + start_offset offset i + part_size offset end i
  position-suc = ground arith

  pub part_end : i * 4096 + start_offset offset i + part_size offset end i ≤ end
  part_end = ground arith
