-- ===== src/Tetfs/File.antt =====
-- The operations of kernel/fs/tetfs.c on one file.
pub mod Delete
use tet_os.Prelude.{ℕ, Bool, true, false, Option, none, some, ◌==◌, ltb, if◌then◌else◌}
use tet_os.Tetfs.Layout.{tetfs_root_inode, tetfs_type_free}
use tet_os.Tetfs.Drive.{Ata}
use tet_os.Tetfs.Bitmap.{clear_run, read_bitmap, write_bitmap}
use tet_os.Tetfs.Inode.{Inode, empty_inode, tetfs_read_inode, write_inode}

module _ (ata : Ata) where
  -- The part under `if (node.block_count > 0)`; `false` where the function answers -1 there.
  unfoldable pub free_blocks : Inode → ata.Disk → Bool × ata.Disk
  free_blocks node d =
      if ltb 0 node.block_count
      then elim (read_bitmap ata d) [
        | none ↦ (false, d)
        | some bm ↦ write_bitmap ata (clear_run node.block_count 0 node.start_block bm) d
      ]
      else (true, d)

  -- `false` is the -1 of the C function.
  unfoldable pub tetfs_delete : ℕ → ata.Disk → Bool × ata.Disk
  tetfs_delete idx d =
      if idx == tetfs_root_inode then (false, d) else elim (tetfs_read_inode ata idx d) [
        | none ↦ (false, d)
        | some node ↦
            (if node.type == tetfs_type_free
              then (false, d)
              else (let (ok, d') = free_blocks node d in
                  if ok
                  then write_inode ata idx (record empty_inode { type = tetfs_type_free }) d'
                  else (false, d')))
      ]
