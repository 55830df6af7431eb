-- ===== src/Tetfs/Drive.antt =====
-- What the file system relies on of the disk driver, kernel/ata/ata.c, one sector at a time. A
-- sector is a function from the offset of a byte. A failed read is `none`, a failed write `false`;
-- after a failed write nothing is assumed of the disk.
use tet_os.Prelude.{ℕ, ◌≡◌, Bool, true, Option, some, ◌==◌, if◌then◌else◌}

pub record Ata : Type 1 where
  pub Disk : Type 0
  pub ata_read : ℕ → Disk → Option (ℕ → ℕ)
  pub ata_write : ℕ → (ℕ → ℕ) → Disk → Bool × Disk
  pub read-write :
      (lba j : ℕ) (sector : ℕ → ℕ) (d : Disk)
      → (ata_write lba sector d).0 ≡ true
      → ata_read j (ata_write lba sector d).1 ≡ (if lba == j then some sector else ata_read j d)
