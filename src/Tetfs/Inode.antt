-- ===== src/Tetfs/Inode.antt =====
-- `tetfs_inode_t` of kernel/fs/tetfs.h, its 64 bytes on the disk, and the two functions of
-- kernel/fs/tetfs.c that move an inode between the disk and memory.
pub mod Bytes
pub mod Store
use tet_os.Prelude.{
  ℕ, ◌+◌, ◌-◌, ◌*◌, ◌/◌, ◌%◌, ◌^◌, Bool, true, false, Option, none, some, ltb, leb, ◌&&◌, ◌==◌,
  if◌then◌else◌,
}
use tet_os.Tetfs.Layout.{tetfs_lba_inodes, tetfs_inode_size, tetfs_max_inodes}
use tet_os.Tetfs.Drive.{Ata}

-- The arrays of the struct are functions from an index.
pub record Inode : Type 0 where
  pub type : ℕ
  pub name : ℕ → ℕ
  pub size : ℕ
  pub start_block : ℕ
  pub block_count : ℕ
  pub parent : ℕ
  pub reserved : ℕ → ℕ

abbrev pub name_size : ℕ
name_size = 51

-- `memset(&node, 0, sizeof(node))`
abbrev pub empty_inode : Inode
empty_inode = record {
  type = 0;
  name = λ j. 0;
  size = 0;
  start_block = 0;
  block_count = 0;
  parent = 0;
  reserved = λ j. 0;
}

-- The byte at an offset of the packed struct; the numbers are little-endian.
unfoldable pub inode_byte : Inode → ℕ → ℕ
inode_byte n k =
    if k == 0
    then n.type % 256
    else if ltb k 52
    then n.name (k - 1) % 256
    else if ltb k 56
    then n.size / 256 ^ (k - 52) % 256
    else if ltb k 58
    then n.start_block / 256 ^ (k - 56) % 256
    else if ltb k 60
    then n.block_count / 256 ^ (k - 58) % 256
    else if ltb k 62
    then n.parent / 256 ^ (k - 60) % 256
    else n.reserved (k - 62) % 256

-- The struct that 64 bytes from `at` on are.
unfoldable pub inode_at : (ℕ → ℕ) → ℕ → Inode
inode_at m at = record {
  type = m at;
  name = λ j. if ltb j name_size then m (at + 1 + j) else 0;
  size = m (at + 52) + 256 * m (at + 53) + 65536 * m (at + 54) + 16777216 * m (at + 55);
  start_block = m (at + 56) + 256 * m (at + 57);
  block_count = m (at + 58) + 256 * m (at + 59);
  parent = m (at + 60) + 256 * m (at + 61);
  reserved = λ j. if ltb j 2 then m (at + 62 + j) else 0;
}

-- The bytes of an inode written over a sector from offset `at` on.
unfoldable pub put_inode : (ℕ → ℕ) → ℕ → Inode → ℕ → ℕ
put_inode m at n k =
    if leb at k && ltb k (at + tetfs_inode_size) then inode_byte n (k - at) else m k

module _ (ata : Ata) where
  -- `none` is the -1 of the C functions that read, `false` that of those that write.
  unfoldable pub tetfs_read_inode : ℕ → ata.Disk → Option Inode
  tetfs_read_inode idx d =
      if leb tetfs_max_inodes idx
      then none
      else elim (ata.ata_read (tetfs_lba_inodes + idx / 8) d) [
        | none ↦ none
        | some buf ↦ some (inode_at buf (idx % 8 * tetfs_inode_size))
      ]

  unfoldable pub write_inode : ℕ → Inode → ata.Disk → Bool × ata.Disk
  write_inode idx n d =
      if leb tetfs_max_inodes idx
      then (false, d)
      else elim (ata.ata_read (tetfs_lba_inodes + idx / 8) d) [
        | none ↦ (false, d)
        | some buf ↦
            ata.ata_write (tetfs_lba_inodes + idx / 8)
              (put_inode buf (idx % 8 * tetfs_inode_size) n) d
      ]
