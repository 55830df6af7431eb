-- ===== src/Pmm.antt =====
-- kernel/pmm/pmm.c: the allocator of physical page frames, over a bitmap of 32-bit words. A set
-- bit is a frame in use. The bitmap is the array at the end of the kernel; its other cells and the
-- rest of memory are no part of this state.
pub mod Frames
pub mod Init
pub mod Alloc
mod Tests
use tet_os.Prelude.{
  ℕ, zero, suc, ◌+◌, ◌-◌, ◌*◌, ◌/◌, ◌%◌, ◌^◌, bit_and, bit_or, ltb, leb, ◌==◌, if◌then◌else◌,
  update, add32, sub32,
}
use tet_os.Bits.{bit, mask, complement}

pub record Pmm : Type 0 where
  pub bitmap : ℕ → ℕ
  pub total : ℕ
  pub used : ℕ

abbrev pub pmm_frame_size : ℕ
pmm_frame_size = 4096

abbrev pub pmm_memory_size : ℕ
pmm_memory_size = 128 * 1024 * 1024

abbrev pub pmm_total_frames_max : ℕ
pmm_total_frames_max = pmm_memory_size / pmm_frame_size

abbrev pub pmm_reserved_end : ℕ
pmm_reserved_end = 0xC00000

unfoldable pub pmm_set_used : ℕ → Pmm → Pmm
pmm_set_used frame p = record p {
  bitmap = update p.bitmap (frame / 32) (bit_or (p.bitmap (frame / 32)) (mask (frame % 32)));
}

unfoldable pub pmm_set_free : ℕ → Pmm → Pmm
pmm_set_free frame p = record p {
  bitmap =
      update p.bitmap (frame / 32)
        (bit_and (p.bitmap (frame / 32)) (complement 32 (mask (frame % 32))));
}

unfoldable pub pmm_is_used : ℕ → Pmm → ℕ
pmm_is_used frame p = bit (p.bitmap (frame / 32)) (frame % 32)

-- `for (i = k; i < n; i++) pmm_bitmap[i] = 0xFFFFFFFF`, the rounds left first.
unfoldable pub fill_bitmap : ℕ → ℕ → (ℕ → ℕ) → ℕ → ℕ
fill_bitmap zero i bitmap = bitmap
fill_bitmap (suc left) i bitmap = fill_bitmap left (i + 1) (update bitmap i 0xFFFF_FFFF)

-- Where the free memory starts.
unfoldable pub free_start : ℕ → ℕ → ℕ
free_start kernel_end_addr bitmap_size =
    let start =
      bit_and (sub32 (add32 (add32 kernel_end_addr bitmap_size) pmm_frame_size) 1)
        (complement 32 (pmm_frame_size - 1)) in
    if ltb start pmm_reserved_end then pmm_reserved_end else start

-- The second loop of `pmm_init`; a round for each frame is enough.
unfoldable pub free_loop : ℕ → ℕ → Pmm → Pmm
free_loop zero addr p = p
free_loop (suc fuel) addr p =
    let freed = pmm_set_free (addr / pmm_frame_size) p in
    let rest =
      free_loop fuel (add32 addr pmm_frame_size) (record freed { used = sub32 p.used 1 }) in
    if ltb addr pmm_memory_size then rest else p

unfoldable pub pmm_init : ℕ → Pmm → Pmm
pmm_init kernel_end_addr p =
    free_loop pmm_total_frames_max (free_start kernel_end_addr (pmm_total_frames_max / 8)) (record {
      bitmap = fill_bitmap (pmm_total_frames_max / 32) 0 p.bitmap;
      total = pmm_total_frames_max;
      used = pmm_total_frames_max;
    })

-- The loop of `pmm_alloc_frame` from frame `i` on, the rounds left first.
unfoldable pub alloc_loop : ℕ → ℕ → Pmm → ℕ × Pmm
alloc_loop zero i p = (0, p)
alloc_loop (suc left) i p =
    let rest = alloc_loop left (i + 1) p in
    let taken = pmm_set_used i p in
    if pmm_is_used i p == 0
    then (i * pmm_frame_size % 2 ^ 32, record taken { used = add32 p.used 1 })
    else rest

unfoldable pub pmm_alloc_frame : Pmm → ℕ × Pmm
pmm_alloc_frame p = alloc_loop p.total 0 p

unfoldable pub pmm_free_frame : ℕ → Pmm → Pmm
pmm_free_frame addr p =
    let freed = pmm_set_free (addr / pmm_frame_size) p in
    if leb p.total (addr / pmm_frame_size) then p else record freed { used = sub32 p.used 1 }

unfoldable pub pmm_free_frames : Pmm → ℕ
pmm_free_frames p = sub32 p.total p.used
