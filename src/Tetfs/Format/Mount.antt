-- ===== src/Tetfs/Format/Mount.antt =====
-- A disk that `tetfs_format` has written is mounted, and holds an empty root directory.
use tet_os.Prelude.{
  ℕ, zero, suc, ◌+◌, ◌/◌, ◌%◌, ◌*◌, ◌<◌, ◌≡◌, refl, sym, ap, ◌∙◌, Bool, true, false, not, ◌&&◌,
  some, arith, ltb, leb, ◌==◌, if◌then◌else◌, Bool-cases, inl, inr, fun_ext,
}
use tet_os.Tetfs.Layout.{tetfs_lba_super, tetfs_lba_inodes, tetfs_lba_bitmap}
use tet_os.Tetfs.Drive.{Ata}
use tet_os.Tetfs.Inode.{empty_inode, inode_at, tetfs_read_inode, write_inode}
use tet_os.Tetfs.Inode.Bytes.{IsInode}
use tet_os.Tetfs.Inode.Store.{tetfs_read_inode-write_inode, ata_read-write_inode, read_some}
use tet_os.Bits.{bit, bit_of_zero}
use tet_os.Tetfs.Bitmap.{bitmap_get, read_bitmap}
use tet_os.Tetfs.Bitmap.Store.{read_bitmap-some}
use tet_os.Tetfs.Format.{
  super_byte, word_at, super_of, fresh_super, root_inode, read_super, write_super, zero_sectors,
  format_disk, tetfs_format, tetfs_mount,
}

-- Three tests that end a function, and what is left when none of them does.
all_passed :
    {D : Type 0} (a b c : Bool) (x y z : D) (r : Bool × D)
    → (if not a
        then (false, x)
        else if not b
        then (false, y)
        else if not c
        then (false, z)
        else r).0
      ≡ true
    → (a ≡ true)
      × (b ≡ true)
      × (c ≡ true)
      × ((if not a
            then (false, x)
            else if not b
            then (false, y)
            else if not c
            then (false, z)
            else r)
          ≡ r)
all_passed false b c x y z r done = absurd (ground (arith, done))
all_passed true false c x y z r done = absurd (ground (arith, done))
all_passed true true false x y z r done = absurd (ground (arith, done))
all_passed true true true x y z r done = (refl, refl, refl, refl)

module _ (ata : Ata) where
  ata_read-zero_sectors :
      (n lba j : ℕ) (d : ata.Disk)
      → (zero_sectors ata n lba d).0 ≡ true
      → ata.ata_read j (zero_sectors ata n lba d).1
        ≡ (if leb lba j && ltb j (lba + n) then some (λ k. 0) else ata.ata_read j d)
  unfolding zero_sectors
  ata_read-zero_sectors zero lba j d done =
      let out : (leb lba j && ltb j (lba + 0)) ≡ false = ground arith in rw out refl
  ata_read-zero_sectors (suc n) lba j d done = elim (Bool-cases (ata.ata_write lba (λ k. 0) d).0) [
    | inl ok ↦
        let rest =
          ata_read-zero_sectors n (lba + 1) j (ata.ata_write lba (λ k. 0) d).1 (rw ok at done) in
        let here = ata.read-write lba j (λ k. 0) d ok in rw ok (rest ∙ rw here (ground arith))
    | inr failed ↦ absurd (ground (arith, done, failed))
  ]

  -- A successful `format_disk` has done all its steps.
  steps :
      (d : ata.Disk)
      → (format_disk ata d).0 ≡ true
      → (d1 : ata.Disk) × (d2 : ata.Disk) × (d3 : ata.Disk) × ((j : ℕ)
          → ata.ata_read j d1
            ≡ (if tetfs_lba_super == j then some (super_byte fresh_super) else ata.ata_read j d))
        × ((j : ℕ)
            → ata.ata_read j d2 ≡ (
                if leb tetfs_lba_inodes j && ltb j (tetfs_lba_inodes + 4)
                then some (λ k. 0)
                else ata.ata_read j d1))
        × ((j : ℕ)
            → ata.ata_read j d3 ≡ (
                if leb tetfs_lba_bitmap j && ltb j (tetfs_lba_bitmap + 2)
                then some (λ k. 0)
                else ata.ata_read j d2))
        × (format_disk ata d ≡ write_inode ata 0 root_inode d3)
  unfolding format_disk write_super
  steps d done =
      let d1 = (write_super ata fresh_super d).1 in
      let d2 = (zero_sectors ata 4 tetfs_lba_inodes d1).1 in
      let (ok1, ok2, ok3, e) =
        all_passed (write_super ata fresh_super d).0 (zero_sectors ata 4 tetfs_lba_inodes d1).0
          (zero_sectors ata 2 tetfs_lba_bitmap d2).0 d1 d2
          (zero_sectors ata 2 tetfs_lba_bitmap d2).1
          (write_inode ata 0 root_inode (zero_sectors ata 2 tetfs_lba_bitmap d2).1) done in
      (
        d1,
        d2,
        (zero_sectors ata 2 tetfs_lba_bitmap d2).1,
        (λ j. ata.read-write tetfs_lba_super j (super_byte fresh_super) d ok1),
        (λ j. ata_read-zero_sectors 4 tetfs_lba_inodes j d1 ok2),
        (λ j. ata_read-zero_sectors 2 tetfs_lba_bitmap j d2 ok3),
        e,
      )

zero_inode : (at : ℕ) → inode_at (λ k. 0) at ≡ empty_inode
unfolding inode_at
zero_inode at = λ i. record {
  type = 0;
  name = fun_ext name i;
  size = 0;
  start_block = 0;
  block_count = 0;
  parent = 0;
  reserved = fun_ext reserved i;
}
  where
    name : (j : ℕ) → ◌≡◌ {A = ℕ} (if ltb j 51 then 0 else 0) 0
    name j = ground arith

    reserved : (j : ℕ) → ◌≡◌ {A = ℕ} (if ltb j 2 then 0 else 0) 0
    reserved j = ground arith

root_inode-IsInode : IsInode root_inode
root_inode-IsInode = record {
  type = omega arith;
  name = λ j. ground arith;
  name_end = λ j l. ground arith;
  size = omega arith;
  start_block = omega arith;
  block_count = omega arith;
  parent = omega arith;
  reserved = λ j. omega arith;
  reserved_end = λ j l. refl;
}

mounts :
    (ata : Ata) (m : ℕ) (d : ata.Disk)
    → ata.ata_read tetfs_lba_super d ≡ some (super_byte fresh_super)
    → tetfs_mount ata m d ≡ (true, 1)
unfolding tetfs_mount read_super super_of word_at super_byte
mounts ata m d read = rw (read, tetfs_mount) refl

pick :
    {A : Type 0} (x y : A) (j : ℕ)
    → (if 0 == j then some x else some y) ≡ some (if j == 0 then x else y)
pick x y j = ground arith

no_bits : (b : ℕ) → bitmap_get (λ k. if ltb k 512 then 0 else 0) b ≡ 0
unfolding bitmap_get
no_bits b =
    let none_set : ◌≡◌ {A = ℕ} (if ltb (b / 8) 512 then 0 else 0) 0 = ground arith in
    ap (λ x. bit x (b % 8)) none_set ∙ bit_of_zero (b % 8)

-- The sectors of the table of inodes are zeros.
fresh_inode :
    (ata : Ata) (j : ℕ) (d : ata.Disk)
    → j < 32
    → ata.ata_read (tetfs_lba_inodes + j / 8) d ≡ some (λ k. 0)
    → tetfs_read_inode ata j d ≡ some empty_inode
fresh_inode ata j d l read = read_some ata j d (λ k. 0) l read ∙ ap some (zero_inode (j % 8 * 64))

-- After a `tetfs_format` that succeeds, `fs_mounted` is 1 and `tetfs_mount` succeeds as well; inode 0
-- is read as the root directory, all other inodes of the table as zeros (so they are free), and every
-- block is free in the bitmap on the disk.
pub tetfs_mount-tetfs_format :
    (ata : Ata) (m m' : ℕ) (d : ata.Disk)
    → (tetfs_format ata m d).0 ≡ true
    → ((tetfs_format ata m d).1 ≡ 1)
      × (tetfs_mount ata m' (tetfs_format ata m d).2 ≡ (true, 1))
      × ((j : ℕ)
          → j < 32
          → tetfs_read_inode ata j (tetfs_format ata m d).2
            ≡ some (if j == 0 then root_inode else empty_inode))
      × ((bm : ℕ → ℕ) × (read_bitmap ata (tetfs_format ata m d).2 ≡ some bm)
          × ((b : ℕ) → bitmap_get bm b ≡ 0))
unfolding tetfs_format
tetfs_mount-tetfs_format ata m m' d done = elim (Bool-cases (format_disk ata d).0) [
  | inr failed ↦ absurd (ground (arith, done, failed))
  | inl ok ↦
      let (d1, d2, d3, read1, read2, read3, e) = steps ata d ok in
      let ok' : (write_inode ata 0 root_inode d3).0 ≡ true = ap (λ r. r.0) (sym e) ∙ ok in
      rw (ok, e)
        (
          refl,
          mounts ata m' (write_inode ata 0 root_inode d3).1 (
              ata_read-write_inode ata 0 tetfs_lba_super root_inode d3 (inr (omega arith)) ok'
              ∙ read3 tetfs_lba_super
              ∙ read2 tetfs_lba_super
              ∙ read1 tetfs_lba_super),
          (λ j l.
              let behind : (leb tetfs_lba_bitmap (tetfs_lba_inodes + j / 8)
                    && ltb (tetfs_lba_inodes + j / 8) (tetfs_lba_bitmap + 2))
                  ≡ false =
                ground arith in
              let inside : (leb tetfs_lba_inodes (tetfs_lba_inodes + j / 8)
                    && ltb (tetfs_lba_inodes + j / 8) (tetfs_lba_inodes + 4))
                  ≡ true =
                ground arith in
              let zeros : ata.ata_read (tetfs_lba_inodes + j / 8) d3 ≡ some (λ k. 0) =
                read3 (tetfs_lba_inodes + j / 8)
                ∙ rw behind (read2 (tetfs_lba_inodes + j / 8) ∙ rw inside refl) in
              tetfs_read_inode-write_inode ata 0 j root_inode d3 root_inode-IsInode ok'
              ∙ rw (fresh_inode ata j d3 l zeros) (pick root_inode empty_inode j)),
          (
            (λ k. if ltb k 512 then 0 else 0),
            read_bitmap-some ata (write_inode ata 0 root_inode d3).1 (λ k. 0) (λ k. 0)
                (ata_read-write_inode ata 0 tetfs_lba_bitmap root_inode d3 (inl (omega arith)) ok'
                  ∙ read3 tetfs_lba_bitmap)
                (ata_read-write_inode ata 0 (tetfs_lba_bitmap + 1) root_inode d3 (inl (omega arith))
                    ok'
                  ∙ read3 (tetfs_lba_bitmap + 1)),
            no_bits,
          ),
        )
]
