-- ===== src/Tetfs/File/Delete.antt =====
-- What `tetfs_delete` leaves on the disk.
use tet_os.Prelude.{
  ℕ, ◌+◌, ◌/◌, ◌≤◌, ◌<◌, ◌≡◌, ◌≢◌, refl, sym, ap, ◌∙◌, true, false, ◌&&◌, some, arith, ltb, leb,
  ◌==◌, if◌then◌else◌, Bool-cases, Option-cases, inl, inr,
}
use tet_os.Tetfs.Layout.{tetfs_lba_inodes, tetfs_lba_bitmap}
use tet_os.Tetfs.Drive.{Ata}
use tet_os.Tetfs.Bitmap.{bitmap_get, clear_run, read_bitmap, write_bitmap}
use tet_os.Tetfs.Bitmap.Store.{
  bitmap_get-clear_run, bitmap_get-cong, ata_read-write_bitmap, read_bitmap-cong,
  read_bitmap-write_bitmap,
}
use tet_os.Tetfs.Inode.{Inode, empty_inode, tetfs_read_inode, write_inode}
use tet_os.Tetfs.Inode.Bytes.{IsInode}
use tet_os.Tetfs.Inode.Store.{
  tetfs_read_inode-write_inode, same_sector, beyond, ata_read-write_inode,
}
use tet_os.Tetfs.File.{free_blocks, tetfs_delete}

module _ (ata : Ata) (idx : ℕ) (node : Inode) (d : ata.Disk) where
  -- A successful deletion frees the blocks and then writes the inode.
  deleted :
      tetfs_read_inode ata idx d ≡ some node
      → (tetfs_delete ata idx d).0 ≡ true
      → (idx ≢ 0)
        × (node.type ≢ 0)
        × ((free_blocks ata node d).0 ≡ true)
        × (tetfs_delete ata idx d ≡ write_inode ata idx empty_inode (free_blocks ata node d).1)
  unfolding tetfs_delete
  deleted read done = elim (Bool-cases (idx == 0)) [
    | inl root ↦ absurd (ground (arith, done, root))
    | inr other ↦ elim (Bool-cases (node.type == 0)) [
      | inl free ↦ absurd (no_success (rw (other, read, tetfs_delete, free) refl))
      | inr used ↦ elim (Bool-cases (free_blocks ata node d).0) [
        | inl ok ↦ (
          ground (arith, other),
          ground (arith, used),
          ok,
          rw (other, read, tetfs_delete, used, ok) refl,
        )
        | inr failed ↦ absurd (no_success (rw (other, read, tetfs_delete, used, failed) refl))
      ]
    ]
  ]
    where
      no_success : (tetfs_delete ata idx d).0 ≡ false → ⊥
      no_success e = ground (arith, done, e)

  freed :
      (bm : ℕ → ℕ)
      → 0 < node.block_count
      → read_bitmap ata d ≡ some bm
      → free_blocks ata node d
        ≡ write_bitmap ata (clear_run node.block_count 0 node.start_block bm) d
  unfolding free_blocks
  freed bm some_block read =
      let on : ltb 0 node.block_count ≡ true = ground arith in rw (on, read, free_blocks) refl

  kept : ltb 0 node.block_count ≡ false → free_blocks ata node d ≡ (true, d)
  unfolding free_blocks
  kept empty = rw (empty, free_blocks) refl

  -- Freeing the blocks changes no sector in front of the bitmap.
  ata_read-free_blocks :
      (j : ℕ)
      → j < tetfs_lba_bitmap
      → (free_blocks ata node d).0 ≡ true
      → ata.ata_read j (free_blocks ata node d).1 ≡ ata.ata_read j d
  unfolding free_blocks
  ata_read-free_blocks j l done = elim (Bool-cases (ltb 0 node.block_count)) [
    | inr empty ↦ ap (λ r. ata.ata_read j r.1) (kept empty)
    | inl some_block ↦ elim (Option-cases (read_bitmap ata d)) [
      | inl failed ↦ rw (some_block, failed, free_blocks) refl
      | inr (bm, read) ↦
          let e = freed bm (ground (arith, some_block)) read in
          let second : (tetfs_lba_bitmap + 1 == j) ≡ false = ground arith in
          let first : (tetfs_lba_bitmap == j) ≡ false = ground arith in
          ap (λ r. ata.ata_read j r.1) e
          ∙ ata_read-write_bitmap ata (clear_run node.block_count 0 node.start_block bm) d j
              (ap (λ r. r.0) (sym e) ∙ done)
          ∙ rw (second, first) refl
    ]
  ]

  -- Freeing the blocks leaves every inode.
  read_inode-free_blocks :
      (j : ℕ)
      → (free_blocks ata node d).0 ≡ true
      → tetfs_read_inode ata j (free_blocks ata node d).1 ≡ tetfs_read_inode ata j d
  read_inode-free_blocks j done = elim (Bool-cases (ltb j 32)) [
    | inl inside ↦
        same_sector ata j d (free_blocks ata node d).1
          (ata_read-free_blocks (tetfs_lba_inodes + j / 8) (ground (arith, inside)) done)
    | inr out ↦ beyond ata j (ground (arith, out)) d (free_blocks ata node d).1
  ]

  -- The bitmap after the blocks are freed.
  bitmap-free_blocks :
      (bm : ℕ → ℕ)
      → node.start_block + node.block_count ≤ 8192
      → read_bitmap ata d ≡ some bm
      → (free_blocks ata node d).0 ≡ true
      → (bm' : ℕ → ℕ) × (read_bitmap ata (free_blocks ata node d).1 ≡ some bm')
        × ((b : ℕ)
            → b < 8192
            → bitmap_get bm' b ≡ (
                if leb node.start_block b && ltb b (node.start_block + node.block_count)
                then 0
                else bitmap_get bm b))
  bitmap-free_blocks bm fits read done = elim (Bool-cases (ltb 0 node.block_count)) [
    | inr empty ↦
        (bm, ap (λ r. read_bitmap ata r.1) (kept empty) ∙ read, λ b l. ground (arith, empty))
    | inl some_block ↦
        let e = freed bm (ground (arith, some_block)) read in
        let (bm', stored, same) =
          read_bitmap-write_bitmap ata (clear_run node.block_count 0 node.start_block bm) d
            (ap (λ r. r.0) (sym e) ∙ done) in
        (
          bm',
          ap (λ r. read_bitmap ata r.1) e ∙ stored,
          λ b l.
              bitmap_get-cong bm' (clear_run node.block_count 0 node.start_block bm) b same l
              ∙ ground (
                arith,
                bitmap_get-clear_run node.block_count 0 node.start_block bm b (omega arith),
              ),
        )
  ]

empty_inode-IsInode : IsInode empty_inode
empty_inode-IsInode = record {
  type = omega arith;
  name = λ j. omega arith;
  name_end = λ j l. refl;
  size = omega arith;
  start_block = omega arith;
  block_count = omega arith;
  parent = omega arith;
  reserved = λ j. omega arith;
  reserved_end = λ j l. refl;
}

-- A file whose blocks lie among the 8192 of the bitmap. When `tetfs_delete` succeeds, the file was
-- not the root and was in use, its inode is read back as all zeros (so it is free), every other inode
-- is read as before, and in the bitmap on the disk the blocks of the file are free and all others as
-- they were.
pub tetfs_delete_lem :
    (ata : Ata) (idx : ℕ) (node : Inode) (d : ata.Disk) (bm : ℕ → ℕ)
    → tetfs_read_inode ata idx d ≡ some node
    → read_bitmap ata d ≡ some bm
    → node.start_block + node.block_count ≤ 8192
    → (tetfs_delete ata idx d).0 ≡ true
    → (idx ≢ 0)
      × (node.type ≢ 0)
      × ((j : ℕ)
          → tetfs_read_inode ata j (tetfs_delete ata idx d).1
            ≡ (if idx == j then some empty_inode else tetfs_read_inode ata j d))
      × ((bm' : ℕ → ℕ) × (read_bitmap ata (tetfs_delete ata idx d).1 ≡ some bm')
          × ((b : ℕ)
              → b < 8192
              → bitmap_get bm' b ≡ (
                  if leb node.start_block b && ltb b (node.start_block + node.block_count)
                  then 0
                  else bitmap_get bm b)))
tetfs_delete_lem ata idx node d bm read map fits done =
    let (not_root, used, ok, e) = deleted ata idx node d read done in
    let (bm', stored, bits) = bitmap-free_blocks ata idx node d bm fits map ok in
    let ok' : (write_inode ata idx empty_inode (free_blocks ata node d).1).0 ≡ true =
      ap (λ r. r.0) (sym e) ∙ done in
    (
      not_root,
      used,
      (λ j.
          ap (λ r. tetfs_read_inode ata j r.1) e
          ∙ tetfs_read_inode-write_inode ata idx j empty_inode (free_blocks ata node d).1
              empty_inode-IsInode ok'
          ∙ rw (read_inode-free_blocks ata idx node d j ok) refl),
      (
        bm',
        ap (λ r. read_bitmap ata r.1) e
            ∙ read_bitmap-cong ata (free_blocks ata node d).1
                (write_inode ata idx empty_inode (free_blocks ata node d).1).1
                (ata_read-write_inode ata idx tetfs_lba_bitmap empty_inode
                  (free_blocks ata node d).1 (inl (omega arith)) ok')
                (ata_read-write_inode ata idx (tetfs_lba_bitmap + 1) empty_inode
                  (free_blocks ata node d).1 (inl (omega arith)) ok')
            ∙ stored,
        bits,
      ),
    )
