-- ===== src/Tetfs/Layout.antt =====
-- The constants of kernel/fs/tetfs.h.
use tet_os.Prelude.{ℕ}

abbrev pub tetfs_magic : ℕ
tetfs_magic = 0x7445_5453

abbrev pub tetfs_version : ℕ
tetfs_version = 1

abbrev pub tetfs_lba_super : ℕ
tetfs_lba_super = 256

abbrev pub tetfs_lba_inodes : ℕ
tetfs_lba_inodes = 257

abbrev pub tetfs_lba_bitmap : ℕ
tetfs_lba_bitmap = 261

abbrev pub tetfs_lba_data : ℕ
tetfs_lba_data = 263

abbrev pub tetfs_inode_size : ℕ
tetfs_inode_size = 64

abbrev pub tetfs_max_inodes : ℕ
tetfs_max_inodes = 32

abbrev pub tetfs_block_size : ℕ
tetfs_block_size = 512

abbrev pub tetfs_max_blocks : ℕ
tetfs_max_blocks = 1024

abbrev pub tetfs_max_file_blocks : ℕ
tetfs_max_file_blocks = 16

abbrev pub tetfs_root_inode : ℕ
tetfs_root_inode = 0

abbrev pub tetfs_type_free : ℕ
tetfs_type_free = 0

abbrev pub tetfs_type_file : ℕ
tetfs_type_file = 1

abbrev pub tetfs_type_dir : ℕ
tetfs_type_dir = 2

abbrev pub tetfs_max_fd : ℕ
tetfs_max_fd = 8
