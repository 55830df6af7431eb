-- ===== src/Pmm/Init.antt =====
-- `pmm_init` of kernel/pmm/pmm.c: which frames are free at the start.
use tet_os.Prelude.{
  ℕ, zero, suc, ◌+◌, ◌-◌, ◌*◌, ◌/◌, ◌%◌, ◌^◌, ◌≤◌, ◌<◌, ◌≡◌, refl, ap, ◌∙◌, arith, ltb, leb, ◌==◌,
  if◌then◌else◌, update, add32, sub32, Bool-cases, inl, inr, min, max, ◌&&◌,
}
use tet_os.Bits.{bit, bit_and_high, bit-complement, bit_of_zero}
use tet_os.Pmm.{
  Pmm, pmm_frame_size, pmm_memory_size, pmm_total_frames_max, pmm_reserved_end, pmm_set_free,
  pmm_is_used, fill_bitmap, free_start, free_loop, pmm_init,
}
use tet_os.Pmm.Frames.{is_used-set_free, in_use, in_use-below, IsValid}

-- The start of the free memory: past the bitmap, rounded up to a frame, and not below 12 MB.
abbrev pub first_free : ℕ → ℕ
first_free kernel_end_addr =
    max pmm_reserved_end ((kernel_end_addr + 4096 + 4095) / pmm_frame_size * pmm_frame_size)

free_start_lem :
    (kernel_end_addr : ℕ)
    → kernel_end_addr + 8192 ≤ 2 ^ 32
    → free_start kernel_end_addr 4096 ≡ first_free kernel_end_addr
unfolding free_start
free_start_lem k h =
    let x : ℕ = sub32 (add32 (add32 k 4096) pmm_frame_size) 1 in
    ground (arith, bit_and_high 12 32 x (omega arith) (omega arith))

fill_bitmap_lem :
    (left i w : ℕ) (bitmap : ℕ → ℕ)
    → fill_bitmap left i bitmap w ≡ (if leb i w && ltb w (i + left) then 0xFFFF_FFFF else bitmap w)
unfolding fill_bitmap
fill_bitmap_lem zero i w bitmap = ground arith
fill_bitmap_lem (suc left) i w bitmap =
    ground (arith, fill_bitmap_lem left (i + 1) w (update bitmap i 0xFFFF_FFFF))

-- The pool after the first loop, with every frame in use.
abbrev full : Pmm → Pmm
full p = record {
  bitmap = fill_bitmap (pmm_total_frames_max / 32) 0 p.bitmap;
  total = pmm_total_frames_max;
  used = pmm_total_frames_max;
}

filled : (g : ℕ) (p : Pmm) → g < pmm_total_frames_max → pmm_is_used g (full p) ≡ 1
unfolding pmm_is_used
filled g p h =
    rw (fill_bitmap_lem 1024 0 (g / 32) p.bitmap) (ground (arith, ones (g % 32) (omega arith)))
  where
    ones : (j : ℕ) → j < 32 → bit 0xFFFF_FFFF j ≡ 1
    ones j h = bit-complement 32 0 j (omega arith) h ∙ ground (arith, bit_of_zero j)

abbrev Freed : ℕ → Pmm → Pmm → Type 0
Freed a p q =
    ((g : ℕ)
      → pmm_is_used g q ≡ (if leb a g && ltb g pmm_total_frames_max then 0 else pmm_is_used g p))
    × (q.used + (pmm_total_frames_max - a) ≡ p.used)
    × (q.total ≡ p.total)

-- One round of the loop.
abbrev freed_once : ℕ → Pmm → Pmm
freed_once a p = record (pmm_set_free a p) { used = sub32 p.used 1 }

freed_once-used :
    (a g : ℕ) (p : Pmm) → pmm_is_used g (freed_once a p) ≡ (if a == g then 0 else pmm_is_used g p)
unfolding pmm_is_used
freed_once-used a g p = is_used-set_free a g p

Freed-step :
    (a : ℕ) (p q : Pmm)
    → a < pmm_total_frames_max
    → 0 < p.used
    → p.used < 2 ^ 32
    → Freed (a + 1) (freed_once a p) q
    → Freed a p q
unfolding pmm_set_free
Freed-step a p q l hu hw (bits, used, total) =
    ((λ g. bits g ∙ ground (arith, freed_once-used a g p)), omega (arith, used), total)

free_loop_lem :
    (fuel a : ℕ) (p : Pmm)
    → pmm_total_frames_max - a ≤ fuel
    → pmm_total_frames_max - a ≤ p.used
    → p.used < 2 ^ 32
    → a < 2 ^ 19
    → Freed a p (free_loop fuel (a * pmm_frame_size) p)
unfolding free_loop
free_loop_lem zero a p hf hu hw ha = ((λ g. ground arith), omega arith, refl)
free_loop_lem (suc fuel) a p hf hu hw ha =
    elim (Bool-cases (ltb (a * pmm_frame_size) pmm_memory_size)) [
      | inl more ↦
          let l : a < pmm_total_frames_max = ground arith in
          rw (more, here, on)
            (Freed-step a p _ l (omega arith) hw (
              free_loop_lem fuel (a + 1) (freed_once a p) (omega arith) (omega arith) (omega arith)
                (omega arith)))
      | inr stop ↦ rw stop ((λ g. ground arith), ground arith, refl)
    ]
  where
    here : a * pmm_frame_size / pmm_frame_size ≡ a
    here = omega arith

    on : add32 (a * pmm_frame_size) pmm_frame_size ≡ (a + 1) * pmm_frame_size
    on = omega arith

-- After `pmm_init` the pool is the 32768 frames of the 128 MB; a frame is in use exactly when it
-- lies below the start of the free memory, which is 12 MB or, if that is higher, the end of the
-- bitmap behind the kernel rounded up to a frame. The counter is right.
pub pmm_init_lem :
    (kernel_end_addr : ℕ) (p : Pmm)
    → kernel_end_addr + 8192 ≤ 2 ^ 31
    → let q = pmm_init kernel_end_addr p in
      (q.total ≡ pmm_total_frames_max)
      × ((g : ℕ)
          → g < pmm_total_frames_max
          → pmm_is_used g q
            ≡ (if ltb (g * pmm_frame_size) (first_free kernel_end_addr) then 1 else 0))
      × IsValid q
unfolding pmm_init
pmm_init_lem k p h =
    rw (free_start_lem k (omega arith), start)
      (
        done.2,
        (λ g l. bits g l ∙ ground arith),
        record { total_in = omega (arith, done.2); counted = omega (arith, count, done.1) },
      )
  where
    a : ℕ
    a = first_free k / pmm_frame_size

    start : first_free k ≡ a * pmm_frame_size
    start = omega arith

    q : Pmm
    q = free_loop pmm_total_frames_max (a * pmm_frame_size) (full p)

    done : Freed a (full p) q
    done =
        free_loop_lem pmm_total_frames_max a (full p) (omega arith) (omega arith) (omega arith)
          (omega arith)

    bits : (g : ℕ) → g < pmm_total_frames_max → pmm_is_used g q ≡ (if ltb g a then 1 else 0)
    bits g l = done.0 g ∙ ground (arith, filled g p l)

    count : in_use q.total q ≡ min a pmm_total_frames_max
    count = ap (λ n. in_use n q) done.2 ∙ in_use-below pmm_total_frames_max a q bits
