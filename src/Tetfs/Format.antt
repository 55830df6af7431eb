-- ===== src/Tetfs/Format.antt =====
-- Formatting and mounting, of kernel/fs/tetfs.c.
pub mod Mount
use tet_os.Prelude.{
  ℕ, zero, suc, ◌+◌, ◌-◌, ◌*◌, ◌/◌, ◌%◌, ◌^◌, Bool, true, false, not, Option, none, some, ltb, ◌==◌,
  if◌then◌else◌,
}
use tet_os.Tetfs.Layout.{
  tetfs_magic, tetfs_version, tetfs_lba_super, tetfs_lba_inodes, tetfs_lba_bitmap, tetfs_lba_data,
  tetfs_max_blocks, tetfs_max_inodes, tetfs_type_dir,
}
use tet_os.Tetfs.Drive.{Ata}
use tet_os.Tetfs.Inode.{Inode, empty_inode, write_inode}

-- `tetfs_super_t`, without its reserved bytes, which are written as zeros and never read.
pub record Super : Type 0 where
  pub magic : ℕ
  pub version : ℕ
  pub total_blocks : ℕ
  pub free_blocks : ℕ
  pub inode_count : ℕ
  pub first_data_lba : ℕ

-- The byte of the sector at an offset; the numbers are little-endian.
unfoldable pub super_byte : Super → ℕ → ℕ
super_byte s k =
    if ltb k 4
    then s.magic / 256 ^ k % 256
    else if ltb k 8
    then s.version / 256 ^ (k - 4) % 256
    else if ltb k 12
    then s.total_blocks / 256 ^ (k - 8) % 256
    else if ltb k 16
    then s.free_blocks / 256 ^ (k - 12) % 256
    else if ltb k 20
    then s.inode_count / 256 ^ (k - 16) % 256
    else if ltb k 24
    then s.first_data_lba / 256 ^ (k - 20) % 256
    else 0

-- The `uint32_t` at an offset of a sector.
unfoldable pub word_at : (ℕ → ℕ) → ℕ → ℕ
word_at m k = m k + 256 * m (k + 1) + 65536 * m (k + 2) + 16777216 * m (k + 3)

unfoldable pub super_of : (ℕ → ℕ) → Super
super_of m = record {
  magic = word_at m 0;
  version = word_at m 4;
  total_blocks = word_at m 8;
  free_blocks = word_at m 12;
  inode_count = word_at m 16;
  first_data_lba = word_at m 20;
}

-- The superblock and the root directory that `tetfs_format` writes.
abbrev pub fresh_super : Super
fresh_super = record {
  magic = tetfs_magic;
  version = tetfs_version;
  total_blocks = tetfs_max_blocks;
  free_blocks = tetfs_max_blocks;
  inode_count = tetfs_max_inodes;
  first_data_lba = tetfs_lba_data;
}

abbrev pub root_inode : Inode
root_inode = record empty_inode {
  type = tetfs_type_dir;
  name = λ j. if j == 0 then 47 else 0;
  parent = 0xFFFF;
}

module _ (ata : Ata) where
  unfoldable pub read_super : ata.Disk → Option Super
  read_super d = elim (ata.ata_read tetfs_lba_super d) [
    | none ↦ none
    | some sector ↦ some (super_of sector)
  ]

  unfoldable pub write_super : Super → ata.Disk → Bool × ata.Disk
  write_super s d = ata.ata_write tetfs_lba_super (super_byte s) d

  -- `if (ata_write(lba + i, 1, zero) != 0) return -1;` in a loop, the rounds left first.
  unfoldable pub zero_sectors : ℕ → ℕ → ata.Disk → Bool × ata.Disk
  zero_sectors zero lba d = (true, d)
  zero_sectors (suc left) lba d =
      let (ok, d') = ata.ata_write lba (λ k. 0) d in
      let rest = zero_sectors left (lba + 1) d' in if ok then rest else (false, d')

  -- The steps of `tetfs_format` on the disk; each that fails ends the function.
  unfoldable pub format_disk : ata.Disk → Bool × ata.Disk
  format_disk d =
      let (super_ok, d1) = write_super fresh_super d in
      let (inodes_ok, d2) = zero_sectors 4 tetfs_lba_inodes d1 in
      let (bitmap_ok, d3) = zero_sectors 2 tetfs_lba_bitmap d2 in
      if not super_ok
      then (false, d1)
      else if not inodes_ok
      then (false, d2)
      else if not bitmap_ok
      then (false, d3)
      else write_inode ata 0 root_inode d3

  -- With `fs_mounted`, before and after; `false` is the -1 of the C functions.
  unfoldable pub tetfs_format : ℕ → ata.Disk → Bool × ℕ × ata.Disk
  tetfs_format fs_mounted d =
      let (ok, d') = format_disk d in if ok then (true, 1, d') else (false, fs_mounted, d')

  unfoldable pub tetfs_mount : ℕ → ata.Disk → Bool × ℕ
  tetfs_mount fs_mounted d = elim (read_super d) [
    | none ↦ (false, fs_mounted)
    | some s ↦
        (if not (s.magic == tetfs_magic)
          then (false, fs_mounted)
          else if not (s.version == tetfs_version)
          then (false, fs_mounted)
          else (true, 1))
  ]
