-- ===== src/Tetfs/Descriptors.antt =====
-- The open files of kernel/fs/tetfs.c: `fs_open` and `fs_close` over the table of descriptors.
pub mod Open
use tet_os.Prelude.{
  ℕ, zero, suc, ◌+◌, Bool, true, false, not, Option, none, some, ltb, leb, ◌==◌, ◌&&◌,
  if◌then◌else◌, update, u16,
}
use tet_os.Prelude.Int.{ℤ, pos, negsuc}
use tet_os.Tetfs.Layout.{tetfs_max_fd, tetfs_root_inode, tetfs_type_file}
use tet_os.Tetfs.Drive.{Ata}
use tet_os.Tetfs.Directory.{tetfs_find, tetfs_create}

pub record Fd : Type 0 where
  pub used : ℕ
  pub inode : ℕ
  pub offset : ℕ

-- The two static variables.
pub record Fs : Type 0 where
  pub fs_mounted : ℕ
  pub fd_table : ℕ → Fd

-- The loop of `fs_open` from descriptor `fd` on, for the inode `idx`, the rounds left first.
unfoldable pub claim_fd : ℕ → ℕ → ℕ → Fs → Option ℕ × Fs
claim_fd zero fd idx fs = (none, fs)
claim_fd (suc left) fd idx fs =
    let rest = claim_fd left (fd + 1) idx fs in
    if (fs.fd_table fd).used == 0
    then (
      some fd,
      record fs {
        fd_table = update fs.fd_table fd (record { used = 1; inode = u16 idx; offset = 0 });
      },
    )
    else rest

-- `fd >= 0 && fd < TETFS_MAX_FD`
unfoldable pub fs_close : ℤ → Fs → Fs
fs_close (pos fd) fs =
    if ltb fd tetfs_max_fd
    then record fs { fd_table = update fs.fd_table fd (record (fs.fd_table fd) { used = 0 }) }
    else fs
fs_close (negsuc n) fs = fs

module _ (ata : Ata) where
  -- The inode of the name, created if there is none and `write` is not 0.
  unfoldable pub inode_for : (ℕ → ℕ) → ℕ → ata.Disk → Option ℕ × ata.Disk
  inode_for name write d = elim (tetfs_find ata name tetfs_root_inode d) [
    | some idx ↦ (some idx, d)
    | none ↦
        (if write == 0 then (none, d) else tetfs_create ata name tetfs_root_inode tetfs_type_file d)
  ]

  -- `none` is the -1 of the C function.
  unfoldable pub fs_open : (ℕ → ℕ) → ℕ → Fs → ata.Disk → Option ℕ × Fs × ata.Disk
  fs_open name write fs d =
      let (found, d') = inode_for name write d in
      if fs.fs_mounted == 0 then (none, fs, d) else elim found [
        | none ↦ (none, fs, d')
        | some idx ↦ (let (fd, fs') = claim_fd tetfs_max_fd 0 idx fs in (fd, fs', d'))
      ]
