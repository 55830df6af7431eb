-- ===== src/Pmm/Tests.antt =====
-- kernel/pmm/pmm.c on a small pool: eight frames, of which the first three are in use.
use tet_os.Prelude.{◌-◌, ℕ, ◌+◌, ◌*◌, ◌<◌, ◌≡◌, refl, arith, ltb, ◌==◌, ◌⊎◌, if◌then◌else◌}
use tet_os.Pmm.{
  Pmm, pmm_frame_size, pmm_total_frames_max, pmm_is_used, pmm_alloc_frame, alloc_loop,
  pmm_free_frame, pmm_free_frames, pmm_init,
}
use tet_os.Pmm.Frames.{IsValid, in_use}
use tet_os.Pmm.Init.{pmm_init_lem}
use tet_os.Pmm.Alloc.{pmm_alloc_frame_lem, pmm_free_frame_lem, pmm_free_frame_twice, pmm_free-alloc}

abbrev small : Pmm
small = record { bitmap = λ _. 0b111; total = 8; used = 3 }

small-IsValid : IsValid small
unfolding in_use pmm_is_used
small-IsValid = record { total_in = omega arith; counted = refl }

alloc-small : (pmm_alloc_frame small).0 ≡ 3 * 4096
unfolding pmm_alloc_frame alloc_loop pmm_is_used
alloc-small = refl

pmm_alloc_frame_lem_example :
    let (addr, q) = pmm_alloc_frame small in
    ((f : ℕ) × (f < 8)
      × (pmm_is_used f small ≡ 0)
      × ((g : ℕ) → g < f → pmm_is_used g small ≡ 1)
      × (addr ≡ f * pmm_frame_size)
      × ((g : ℕ) → pmm_is_used g q ≡ (if f == g then 1 else pmm_is_used g small))
      × IsValid q
      × (pmm_free_frames q + 1 ≡ pmm_free_frames small))
    ⊎ (((g : ℕ) → g < 8 → pmm_is_used g small ≡ 1) × (addr ≡ 0) × (q ≡ small))
pmm_alloc_frame_lem_example = pmm_alloc_frame_lem small small-IsValid

pmm_free_frame_lem_example :
    let q = pmm_free_frame 8192 small in
    ((g : ℕ) → pmm_is_used g q ≡ (if 2 == g then 0 else pmm_is_used g small))
    × IsValid q
    × (pmm_free_frames q ≡ pmm_free_frames small + 1)
unfolding pmm_is_used
pmm_free_frame_lem_example = pmm_free_frame_lem 8192 small small-IsValid (omega arith) refl

pmm_free_frame_twice_example :
    let q = pmm_free_frame 20480 small in
    ((g : ℕ) → pmm_is_used g q ≡ pmm_is_used g small) × (q.used ≡ small.used - 1) × ¬ IsValid q
unfolding pmm_is_used
pmm_free_frame_twice_example = pmm_free_frame_twice 20480 small small-IsValid (omega arith) refl

pmm_free-alloc_example :
    let q = pmm_free_frame (pmm_alloc_frame small).0 (pmm_alloc_frame small).1 in
    ((g : ℕ) → pmm_is_used g q ≡ pmm_is_used g small) × (q.used ≡ 3) × IsValid q
pmm_free-alloc_example = pmm_free-alloc small small-IsValid (omega (arith, alloc-small))

-- A kernel that ends at 128 KB: the free memory starts at 12 MB.
pmm_init_lem_example :
    let q = pmm_init 0x20000 small in
    (q.total ≡ pmm_total_frames_max)
    × ((g : ℕ)
        → g < pmm_total_frames_max
        → pmm_is_used g q ≡ (if ltb (g * pmm_frame_size) 0xC00000 then 1 else 0))
    × IsValid q
pmm_init_lem_example = pmm_init_lem 0x20000 small (omega arith)
