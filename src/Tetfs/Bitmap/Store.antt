-- ===== src/Tetfs/Bitmap/Store.antt =====
-- The bitmap on the disk, and blocks that are freed in it.
use tet_os.Prelude.{
  ℕ, zero, suc, ◌+◌, ◌-◌, ◌≤◌, ◌<◌, ◌^◌, ◌/◌, ◌%◌, ◌≡◌, refl, sym, ap, ◌∙◌, true, ◌&&◌, some, arith,
  ltb, leb, ◌==◌, if◌then◌else◌, if_cases, Bool-cases, Option-cases, inl, inr, u16,
}
use tet_os.Bits.{bit}
use tet_os.Tetfs.Layout.{tetfs_lba_bitmap}
use tet_os.Tetfs.Drive.{Ata}
use tet_os.Tetfs.Bitmap.{bitmap_get, bitmap_set, clear_run, read_bitmap, write_bitmap}
use tet_os.Tetfs.Bitmap.Alloc.{bitmap_get-set}

pub bitmap_get-clear_run :
    (n i start : ℕ) (bm : ℕ → ℕ) (j : ℕ)
    → start + i + n ≤ 2 ^ 16
    → bitmap_get (clear_run n i start bm) j
      ≡ (if leb (start + i) j && ltb j (start + i + n) then 0 else bitmap_get bm j)
unfolding clear_run
bitmap_get-clear_run zero i start bm j l = ground arith
bitmap_get-clear_run (suc n) i start bm j l =
    let here : u16 (start + i) ≡ start + i = omega arith in
    rw here (
      ground (
        arith,
        bitmap_get-clear_run n (i + 1) start (bitmap_set bm (start + i) 0) j (omega arith),
        bitmap_get-set bm (start + i) j 0,
      ))

-- Two arrays that agree on the 1024 bytes of the bitmap.
abbrev pub SameBytes : (ℕ → ℕ) → (ℕ → ℕ) → Type 0
SameBytes a b = (k : ℕ) → k < 1024 → a k ≡ b k

pub bitmap_get-cong :
    (a b : ℕ → ℕ) (j : ℕ) → SameBytes a b → j < 8192 → bitmap_get a j ≡ bitmap_get b j
unfolding bitmap_get
bitmap_get-cong a b j same l = ap (λ x. bit x (j % 8)) (same (j / 8) (omega arith))

module _ (ata : Ata) where
  both_written :
      (bm : ℕ → ℕ) (d : ata.Disk)
      → (write_bitmap ata bm d).0 ≡ true
      → ((ata.ata_write tetfs_lba_bitmap bm d).0 ≡ true)
        × (write_bitmap ata bm d
            ≡ ata.ata_write
                (tetfs_lba_bitmap + 1)
                (λ k. bm (k + 512))
                (ata.ata_write tetfs_lba_bitmap bm d).1)
  unfolding write_bitmap
  both_written bm d done = elim (Bool-cases (ata.ata_write tetfs_lba_bitmap bm d).0) [
    | inl ok ↦ (ok, rw ok refl)
    | inr failed ↦ absurd (ground (arith, done, failed))
  ]

  -- After a successful write every sector but the two of the bitmap is read as before.
  pub ata_read-write_bitmap :
      (bm : ℕ → ℕ) (d : ata.Disk) (j : ℕ)
      → (write_bitmap ata bm d).0 ≡ true
      → ata.ata_read j (write_bitmap ata bm d).1 ≡ (
          if tetfs_lba_bitmap + 1 == j
          then some (λ k. bm (k + 512))
          else if tetfs_lba_bitmap == j
          then some bm
          else ata.ata_read j d)
  ata_read-write_bitmap bm d j done =
      let (ok, e) = both_written bm d done in
      let ok' : (ata.ata_write (tetfs_lba_bitmap + 1) (λ k. bm (k + 512))
            (ata.ata_write tetfs_lba_bitmap bm d).1).0
          ≡ true =
        ap (λ r. r.0) (sym e) ∙ done in
      ap (λ r. ata.ata_read j r.1) e
      ∙ ata.read-write (tetfs_lba_bitmap + 1) j (λ k. bm (k + 512))
          (ata.ata_write tetfs_lba_bitmap bm d).1 ok'
      ∙ rw (ata.read-write tetfs_lba_bitmap j bm d ok) refl

  pub read_bitmap-some :
      (d : ata.Disk) (low high : ℕ → ℕ)
      → ata.ata_read tetfs_lba_bitmap d ≡ some low
      → ata.ata_read (tetfs_lba_bitmap + 1) d ≡ some high
      → read_bitmap ata d ≡ some (λ k. if ltb k 512 then low k else high (k - 512))
  unfolding read_bitmap
  read_bitmap-some d low high first second = rw (first, second, read_bitmap) refl

  -- The bitmap that is read back has the 1024 bytes that were written.
  pub read_bitmap-write_bitmap :
      (bm : ℕ → ℕ) (d : ata.Disk)
      → (write_bitmap ata bm d).0 ≡ true
      → (bm' : ℕ → ℕ) × (read_bitmap ata (write_bitmap ata bm d).1 ≡ some bm') × SameBytes bm' bm
  read_bitmap-write_bitmap bm d done = (
    (λ k. if ltb k 512 then bm k else bm (k - 512 + 512)),
    read_bitmap-some (write_bitmap ata bm d).1 bm (λ k. bm (k + 512))
        (ata_read-write_bitmap bm d tetfs_lba_bitmap done)
        (ata_read-write_bitmap bm d (tetfs_lba_bitmap + 1) done),
    (λ k l.
        if_cases (λ v. v ≡ bm k) (ltb k 512) (λ low. refl)
          (λ high. let back : k - 512 + 512 ≡ k = ground (arith, high) in ap bm back)),
  )

  -- A disk whose two sectors of the bitmap are read as before has the same bitmap.
  pub read_bitmap-cong :
      (d d' : ata.Disk)
      → ata.ata_read tetfs_lba_bitmap d' ≡ ata.ata_read tetfs_lba_bitmap d
      → ata.ata_read (tetfs_lba_bitmap + 1) d' ≡ ata.ata_read (tetfs_lba_bitmap + 1) d
      → read_bitmap ata d' ≡ read_bitmap ata d
  unfolding read_bitmap
  read_bitmap-cong d d' first second = elim (Option-cases (ata.ata_read tetfs_lba_bitmap d)) [
    | inl failed ↦ rw (first ∙ failed, failed, read_bitmap) refl
    | inr (low, read) ↦ rw (first ∙ read, read, second, read_bitmap) refl
  ]
