-- ===== src/Tetfs/Inode/Store.antt =====
-- Reading an inode back from the disk after `write_inode`.
use tet_os.Prelude.{
  ℕ, ◌+◌, ◌*◌, ◌/◌, ◌%◌, ◌≤◌, ◌<◌, ◌≡◌, refl, ap, ◌∙◌, sym, true, false, some, arith, ltb, leb,
  ◌==◌, if◌then◌else◌, inl, inr, ◌⊎◌, Bool-cases, Option-cases,
}
use native.Mathlib.Decide.{ℕ_discrete}
use tet_os.Tetfs.Layout.{tetfs_lba_inodes, tetfs_inode_size, tetfs_max_inodes}
use tet_os.Tetfs.Drive.{Ata}
use tet_os.Tetfs.Inode.{Inode, inode_at, put_inode, tetfs_read_inode, write_inode}
use tet_os.Tetfs.Inode.Bytes.{IsInode, inode_at-put_inode, inode_at-other}

module _ (ata : Ata) where
  -- A successful `write_inode` has read the sector and written it back.
  written :
      (idx : ℕ) (n : Inode) (d : ata.Disk)
      → (write_inode ata idx n d).0 ≡ true
      → (idx < tetfs_max_inodes)
        × ((buf : ℕ → ℕ) × (ata.ata_read (tetfs_lba_inodes + idx / 8) d ≡ some buf)
            × (write_inode ata idx n d
                ≡ ata.ata_write
                    (tetfs_lba_inodes + idx / 8)
                    (put_inode buf (idx % 8 * tetfs_inode_size) n)
                    d))
  unfolding write_inode
  written idx n d done = elim (Bool-cases (leb tetfs_max_inodes idx)) [
    | inl out ↦ ground (arith, done, out)
    | inr in_table ↦ elim (Option-cases (ata.ata_read (tetfs_lba_inodes + idx / 8) d)) [
      | inl failed ↦ ground (arith, done, in_table, failed)
      | inr (buf, read) ↦ (ground (arith, in_table), (buf, read, rw (in_table, read) refl))
    ]
  ]

  pub read_some :
      (j : ℕ) (d : ata.Disk) (buf : ℕ → ℕ)
      → j < tetfs_max_inodes
      → ata.ata_read (tetfs_lba_inodes + j / 8) d ≡ some buf
      → tetfs_read_inode ata j d ≡ some (inode_at buf (j % 8 * tetfs_inode_size))
  unfolding tetfs_read_inode
  read_some j d buf l read =
      let inside : leb tetfs_max_inodes j ≡ false = ground arith in rw (inside, read) refl

  pub same_sector :
      (j : ℕ) (d d' : ata.Disk)
      → ata.ata_read (tetfs_lba_inodes + j / 8) d' ≡ ata.ata_read (tetfs_lba_inodes + j / 8) d
      → tetfs_read_inode ata j d' ≡ tetfs_read_inode ata j d
  unfolding tetfs_read_inode
  same_sector j d d' same = rw same refl

  -- The inode `j` of the sector `buf` that is written back with the inode `idx`.
  read_back :
      (idx j : ℕ) (n : Inode) (d d' : ata.Disk) (buf : ℕ → ℕ)
      → IsInode n
      → idx < tetfs_max_inodes
      → j < tetfs_max_inodes
      → ata.ata_read (tetfs_lba_inodes + idx / 8) d ≡ some buf
      → ata.ata_read (tetfs_lba_inodes + j / 8) d' ≡ (
          if tetfs_lba_inodes + idx / 8 == tetfs_lba_inodes + j / 8
          then some (put_inode buf (idx % 8 * tetfs_inode_size) n)
          else ata.ata_read (tetfs_lba_inodes + j / 8) d)
      → tetfs_read_inode ata j d' ≡ (if idx == j then some n else tetfs_read_inode ata j d)
  unfolding tetfs_read_inode
  read_back idx j n d d' buf v l m read read' = elim (ℕ_discrete idx j) [
    | yes e ↦
        let hit : (idx == j) ≡ true = ground arith in
        let sector : (tetfs_lba_inodes + idx / 8 == tetfs_lba_inodes + j / 8) ≡ true =
          ground arith in
        rw hit (
          read_some j d' (put_inode buf (idx % 8 * tetfs_inode_size) n) m (read' ∙ rw sector refl)
          ∙ ap some (
              ap
                (λ x.
                  inode_at (put_inode buf (idx % 8 * tetfs_inode_size) n)
                    (x % 8 * tetfs_inode_size))
                (sym e)
              ∙ inode_at-put_inode buf (idx % 8 * tetfs_inode_size) n v))
    | no other ↦
        let miss : (idx == j) ≡ false = ground arith in
        rw miss (elim (ℕ_discrete (idx / 8) (j / 8)) [
          | yes e ↦
              let sector : (tetfs_lba_inodes + idx / 8 == tetfs_lba_inodes + j / 8) ≡ true =
                ground arith in
              let same : tetfs_lba_inodes + j / 8 ≡ tetfs_lba_inodes + idx / 8 = omega arith in
              read_some j d' (put_inode buf (idx % 8 * tetfs_inode_size) n) m
                (read' ∙ rw sector refl)
              ∙ ap some (
                  inode_at-other buf (idx % 8 * tetfs_inode_size) n (j % 8 * tetfs_inode_size)
                    (omega arith))
              ∙ sym (read_some j d buf m (ap (λ x. ata.ata_read x d) same ∙ read))
          | no apart ↦
              let sector : (tetfs_lba_inodes + idx / 8 == tetfs_lba_inodes + j / 8) ≡ false =
                ground arith in
              same_sector j d d' (read' ∙ rw sector refl)
        ])
  ]

  pub beyond :
      (j : ℕ)
      → tetfs_max_inodes ≤ j
      → (d d' : ata.Disk) → tetfs_read_inode ata j d' ≡ tetfs_read_inode ata j d
  unfolding tetfs_read_inode
  beyond j l d d' = let out : leb tetfs_max_inodes j ≡ true = ground arith in rw out refl

  -- An inode that `write_inode` has written with success is read back as it was written, and every
  -- other inode is read as before.
  pub tetfs_read_inode-write_inode :
      (idx j : ℕ) (n : Inode) (d : ata.Disk)
      → IsInode n
      → (write_inode ata idx n d).0 ≡ true
      → tetfs_read_inode ata j (write_inode ata idx n d).1
        ≡ (if idx == j then some n else tetfs_read_inode ata j d)
  tetfs_read_inode-write_inode idx j n d v done =
      let (l, (buf, read, e)) = written idx n d done in
      let ok : (ata.ata_write (tetfs_lba_inodes + idx / 8)
            (put_inode buf (idx % 8 * tetfs_inode_size) n) d).0
          ≡ true =
        ap (λ r. r.0) (sym e) ∙ done in
      elim (Bool-cases (ltb j tetfs_max_inodes)) [
        | inl m ↦ rw e (
            read_back idx j n d
              (ata.ata_write (tetfs_lba_inodes + idx / 8)
                (put_inode buf (idx % 8 * tetfs_inode_size) n) d).1
              buf v l (ground (arith, m)) read
              (ata.read-write (tetfs_lba_inodes + idx / 8) (tetfs_lba_inodes + j / 8)
                (put_inode buf (idx % 8 * tetfs_inode_size) n) d ok))
        | inr out ↦
            let miss : (idx == j) ≡ false = ground (arith, out, l) in
            rw miss (beyond j (ground (arith, out)) _ _)
      ]

  -- No sector but those of the table of inodes changes.
  pub ata_read-write_inode :
      (idx j : ℕ) (n : Inode) (d : ata.Disk)
      → (tetfs_lba_inodes + 4 ≤ j) ⊎ (j < tetfs_lba_inodes)
      → (write_inode ata idx n d).0 ≡ true
      → ata.ata_read j (write_inode ata idx n d).1 ≡ ata.ata_read j d
  ata_read-write_inode idx j n d far done =
      let (l, (buf, read, e)) = written idx n d done in
      let other : (tetfs_lba_inodes + idx / 8 == j) ≡ false = ground (arith, far, l) in
      ap (λ r. ata.ata_read j r.1) e
      ∙ ata.read-write (tetfs_lba_inodes + idx / 8) j (put_inode buf (idx % 8 * tetfs_inode_size) n)
          d (ap (λ r. r.0) (sym e) ∙ done)
      ∙ rw other refl
