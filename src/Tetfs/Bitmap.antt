-- ===== src/Tetfs/Bitmap.antt =====
-- The block bitmap of kernel/fs/tetfs.c, an array of bytes; a set bit is a block in use.
pub mod Alloc
pub mod Store
use tet_os.Prelude.{
  ℕ, zero, suc, ◌+◌, ◌-◌, Bool, true, false, ltb, ◌/◌, ◌%◌, ◌^◌, bit_and, bit_or, Option, none,
  some, leb, ◌==◌, if◌then◌else◌, update, u8, u16,
}
use tet_os.Bits.{bit, mask, complement}
use tet_os.Tetfs.Layout.{tetfs_lba_bitmap, tetfs_max_blocks}
use tet_os.Tetfs.Drive.{Ata}

unfoldable pub bitmap_get : (ℕ → ℕ) → ℕ → ℕ
bitmap_get bm b = bit (bm (b / 8)) (b % 8)

unfoldable pub bitmap_set : (ℕ → ℕ) → ℕ → ℕ → ℕ → ℕ
bitmap_set bm b val =
    if val == 0
    then update bm (b / 8) (bit_and (bm (b / 8)) (complement 8 (u8 (mask (b % 8)))))
    else update bm (b / 8) (bit_or (bm (b / 8)) (u8 (mask (b % 8))))

-- `for (j = start; j < start + count; j++) bitmap_set(bm, j, 1)`
unfoldable pub mark_run : ℕ → ℕ → (ℕ → ℕ) → ℕ → ℕ
mark_run zero j bm = bm
mark_run (suc left) j bm = mark_run left (j + 1) (bitmap_set bm j 1)

-- The loop of `alloc_blocks` from block `i` on, the rounds left first. `none` is its -1.
unfoldable pub alloc_run : ℕ → ℕ → ℕ → ℕ → ℕ → (ℕ → ℕ) → Option (ℕ × (ℕ → ℕ))
alloc_run zero i start run count bm = none
alloc_run (suc left) i start run count bm =
    let start' = if run == 0 then i else start in
    let longer = alloc_run left (i + 1) start' (u16 (run + 1)) count bm in
    let broken = alloc_run left (i + 1) start 0 count bm in
    if bitmap_get bm i == 0
    then (if leb count (u16 (run + 1)) then some (start', mark_run count start' bm) else longer)
    else broken

unfoldable pub alloc_blocks : (ℕ → ℕ) → ℕ → Option (ℕ × (ℕ → ℕ))
alloc_blocks bm count = alloc_run tetfs_max_blocks 0 0 0 count bm

-- `for (i = 0; i < count; i++) bitmap_set(bm, (uint16_t)(start + i), 0)`
unfoldable pub clear_run : ℕ → ℕ → ℕ → (ℕ → ℕ) → ℕ → ℕ
clear_run zero i start bm = bm
clear_run (suc left) i start bm = clear_run left (i + 1) start (bitmap_set bm (u16 (start + i)) 0)

module _ (ata : Ata) where
  -- The 1024 bytes; behind them the array is not read.
  unfoldable pub read_bitmap : ata.Disk → Option (ℕ → ℕ)
  read_bitmap d = elim (ata.ata_read tetfs_lba_bitmap d) [
    | none ↦ none
    | some low ↦ elim (ata.ata_read (tetfs_lba_bitmap + 1) d) [
      | none ↦ none
      | some high ↦ some (λ k. if ltb k 512 then low k else high (k - 512))
    ]
  ]

  unfoldable pub write_bitmap : (ℕ → ℕ) → ata.Disk → Bool × ata.Disk
  write_bitmap bm d =
      let (ok, d') = ata.ata_write tetfs_lba_bitmap bm d in
      if ok then ata.ata_write (tetfs_lba_bitmap + 1) (λ k. bm (k + 512)) d' else (false, d')
