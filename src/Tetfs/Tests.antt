-- ===== src/Tetfs/Tests.antt =====
-- kernel/fs/tetfs.c on a disk that is a memory.
use tet_os.Prelude.{
  ◌+◌, ◌&&◌, ltb, leb, ◌≢◌, ℕ, ◌-◌, ◌^◌, ◌≤◌, ◌<◌, ◌≡◌, refl, arith, [], ◌∷◌, get_or, true, Option,
  none, some, ◌==◌, if◌then◌else◌, update, ◌↔◌, if_cases, sym, ap, ◌∙◌,
}
use tet_os.Tetfs.Drive.{Ata}
use tet_os.Tetfs.Bitmap.{alloc_blocks}
use tet_os.Tetfs.Bitmap.Alloc.{Lowest, alloc_blocks_lem}
use tet_os.Tetfs.Inode.{
  put_inode, inode_byte, empty_inode, Inode, inode_at, tetfs_read_inode, write_inode,
}
use tet_os.Tetfs.Format.{
  root_inode, tetfs_format, tetfs_mount, format_disk, write_super, zero_sectors,
}
use tet_os.Tetfs.Format.Mount.{tetfs_mount-tetfs_format}
use tet_os.Tetfs.Descriptors.{Fs, claim_fd, inode_for, fs_open}
use tet_os.Tetfs.Descriptors.Open.{Opened, fs_open_lem}
use tet_os.Tetfs.File.{free_blocks, tetfs_delete}
use tet_os.Tetfs.File.Delete.{tetfs_delete_lem}
use tet_os.Tetfs.Inode.Bytes.{IsInode}
use tet_os.Tetfs.Bitmap.{bitmap_get, read_bitmap, write_bitmap}
use tet_os.Tetfs.Inode.Store.{tetfs_read_inode-write_inode}
use tet_os.Tetfs.Directory.{new_inode, is_entry, tetfs_find, find_loop, tetfs_create, create_loop}
use tet_os.Tetfs.Directory.Names.{new_inode-IsInode}
use tet_os.Tetfs.Directory.Find.{IsNamed, tetfs_find_lem}
use tet_os.Tetfs.Directory.LongNames.{IsTerminated, tetfs_find-tetfs_create_long}
use tet_os.Tetfs.Directory.Create.{IsFree, tetfs_create_lem}

update_read :
    (lba j : ℕ) (sector : ℕ → ℕ) (d : ℕ → ℕ → ℕ)
    → some (update d lba sector j) ≡ (if lba == j then some sector else some (d j))
update_read lba j sector d = ground arith

-- Reads and writes never fail.
abbrev ram : Ata
ram = record {
  Disk = ℕ → ℕ → ℕ;
  ata_read = λ lba d. some (d lba);
  ata_write = λ lba sector d. (true, update d lba sector);
  read-write = λ lba j sector d done. update_read lba j sector d;
}

abbrev blank : ℕ → ℕ → ℕ
blank lba k = 0

-- Blocks 0, 2 and 4 are in use.
abbrev blocks : ℕ → ℕ
blocks k = if k == 0 then 21 else 0

-- "ab"
abbrev ab : ℕ → ℕ
ab k = get_or (97 ∷ 98 ∷ []) k 0

alloc_blocks_lem_example : Lowest blocks 2 1024 (alloc_blocks blocks 2)
alloc_blocks_lem_example = alloc_blocks_lem blocks 2 (omega arith) (omega arith)

ab_bytes : (j : ℕ) → ab j < 2 ^ 8
ab_bytes j = ground arith

written_ok : (write_inode ram 9 (new_inode ab 0 1) blank).0 ≡ true
unfolding write_inode
written_ok = refl

tetfs_read_inode-write_inode_example :
    tetfs_read_inode ram 10 (write_inode ram 9 (new_inode ab 0 1) blank).1
    ≡ (if 9 == 10 then some (new_inode ab 0 1) else tetfs_read_inode ram 10 blank)
tetfs_read_inode-write_inode_example =
    tetfs_read_inode-write_inode ram 9 10 (new_inode ab 0 1) blank
      (new_inode-IsInode ab 0 1 ab_bytes (omega arith) (omega arith)) written_ok

tetfs_find_lem_example :
    ((k : ℕ)
      → (tetfs_find ram ab 0 blank ≡ some k) ↔ (
          (1 ≤ k)
          × (k < 32)
          × IsNamed ram ab 0 blank k
          × ((j : ℕ) → 1 ≤ j → j < k → ¬ IsNamed ram ab 0 blank j)))
    × ((tetfs_find ram ab 0 blank ≡ none) ↔ ((j : ℕ) → 1 ≤ j → j < 32 → ¬ IsNamed ram ab 0 blank j))
tetfs_find_lem_example = tetfs_find_lem ram ab 0 blank

create_runs : (tetfs_create ram ab 0 1 blank).0 ≡ some 1
unfolding tetfs_create create_loop tetfs_find find_loop is_entry write_inode tetfs_read_inode
    inode_at
create_runs = refl

tetfs_create_lem_example :
    (tetfs_find ram ab 0 blank ≡ none)
    × (1 ≤ 1)
    × (1 < 32)
    × IsFree ram ab 0 1 blank 1
    × ((j : ℕ)
        → tetfs_read_inode ram j (tetfs_create ram ab 0 1 blank).1
          ≡ (if 1 == j then some (new_inode ab 0 1) else tetfs_read_inode ram j blank))
    × (tetfs_find ram ab 0 (tetfs_create ram ab 0 1 blank).1 ≡ some 1)
tetfs_create_lem_example =
    tetfs_create_lem ram ab 0 1 blank 2 1 ab_bytes refl (omega arith) (omega arith) (omega arith)
      (omega arith) create_runs

-- A name of letters without an end.
abbrev endless : ℕ → ℕ
endless k = 97

blank-IsTerminated : IsTerminated ram blank
unfolding tetfs_read_inode inode_at
blank-IsTerminated j node read = sym (ap last_byte read) ∙ blank_end j
  where
    last_byte : Option Inode → ℕ
    last_byte none = 0
    last_byte (some n) = n.name 50

    blank_end : (j : ℕ) → last_byte (tetfs_read_inode ram j blank) ≡ 0
    blank_end j = if_cases (λ r. last_byte r ≡ 0) (leb 32 j) (λ out. refl) (λ inside. refl)

create_long_runs : (tetfs_create ram endless 0 1 blank).0 ≡ some 1
unfolding tetfs_create create_loop tetfs_find find_loop is_entry write_inode tetfs_read_inode
    inode_at
create_long_runs = refl

tetfs_find-tetfs_create_long_example :
    (tetfs_find ram endless 0 (tetfs_create ram endless 0 1 blank).1 ≡ none)
    × IsTerminated ram (tetfs_create ram endless 0 1 blank).1
tetfs_find-tetfs_create_long_example =
    tetfs_find-tetfs_create_long ram endless 0 1 1 blank (λ j. omega arith) (λ j l. omega arith)
      blank-IsTerminated (omega arith) (omega arith) create_long_runs

-- A file of the three blocks 2 to 4, which are in use; block 0 is in use as well.
abbrev file : Inode
file = record {
  type = 1;
  name = ab;
  size = 1500;
  start_block = 2;
  block_count = 3;
  parent = 0;
  reserved = λ j. 0;
}

file-IsInode : IsInode file
file-IsInode = record {
  type = omega arith;
  name = ab_bytes;
  name_end = λ j l. ground arith;
  size = omega arith;
  start_block = omega arith;
  block_count = omega arith;
  parent = omega arith;
  reserved = λ j. omega arith;
  reserved_end = λ j l. refl;
}

abbrev in_blocks : ℕ → ℕ → ℕ
in_blocks lba k = if lba == 261 && (k == 0) then 29 else 0

abbrev disk : ℕ → ℕ → ℕ
disk = (write_inode ram 3 file in_blocks).1

file_stored : tetfs_read_inode ram 3 disk ≡ some file
unfolding write_inode
file_stored = tetfs_read_inode-write_inode ram 3 3 file in_blocks file-IsInode stored
  where
    stored : (write_inode ram 3 file in_blocks).0 ≡ true
    stored = refl

abbrev map_bytes : ℕ → ℕ
map_bytes k = if ltb k 512 then disk 261 k else disk 262 (k - 512)

map_stored : read_bitmap ram disk ≡ some map_bytes
unfolding read_bitmap
map_stored = refl

delete_runs : (tetfs_delete ram 3 disk).0 ≡ true
unfolding tetfs_delete free_blocks write_bitmap read_bitmap write_inode tetfs_read_inode inode_at
    put_inode inode_byte
delete_runs = refl

tetfs_delete_lem_example :
    ◌≢◌ {A = ℕ} 3 0
    × (file.type ≢ 0)
    × ((j : ℕ)
        → tetfs_read_inode ram j (tetfs_delete ram 3 disk).1
          ≡ (if 3 == j then some empty_inode else tetfs_read_inode ram j disk))
    × ((bm' : ℕ → ℕ) × (read_bitmap ram (tetfs_delete ram 3 disk).1 ≡ some bm')
        × ((b : ℕ)
            → b < 8192
            → bitmap_get bm' b ≡ (
                if leb file.start_block b && ltb b (file.start_block + file.block_count)
                then 0
                else bitmap_get map_bytes b)))
tetfs_delete_lem_example =
    tetfs_delete_lem ram 3 file disk map_bytes file_stored map_stored (omega arith) delete_runs

format_runs : (tetfs_format ram 0 blank).0 ≡ true
unfolding tetfs_format format_disk write_super zero_sectors write_inode
format_runs = refl

tetfs_mount-tetfs_format_example :
    ((tetfs_format ram 0 blank).1 ≡ 1)
    × (tetfs_mount ram 0 (tetfs_format ram 0 blank).2 ≡ (true, 1))
    × ((j : ℕ)
        → j < 32
        → tetfs_read_inode ram j (tetfs_format ram 0 blank).2
          ≡ some (if j == 0 then root_inode else empty_inode))
    × ((bm : ℕ → ℕ) × (read_bitmap ram (tetfs_format ram 0 blank).2 ≡ some bm)
        × ((b : ℕ) → bitmap_get bm b ≡ 0))
tetfs_mount-tetfs_format_example = tetfs_mount-tetfs_format ram 0 0 blank format_runs

-- Mounted, with descriptor 0 in use.
abbrev open_files : Fs
open_files = record {
  fs_mounted = 1;
  fd_table = λ fd.
      if fd == 0
      then record { used = 1; inode = 5; offset = 9 }
      else record { used = 0; inode = 0; offset = 0 };
}

open_runs : (fs_open ram ab 1 open_files blank).0 ≡ some 1
unfolding fs_open inode_for claim_fd tetfs_create create_loop tetfs_find find_loop is_entry
    write_inode tetfs_read_inode inode_at
open_runs = refl

fs_open_lem_example : Opened ram ab 1 blank open_files (fs_open ram ab 1 open_files blank)
fs_open_lem_example = fs_open_lem ram ab 1 blank open_files
