-- ===== src/Pmm/Alloc.antt =====
-- `pmm_alloc_frame` and `pmm_free_frame` of kernel/pmm/pmm.c.
use tet_os.Prelude.{
  ◌-◌, ℕ, zero, suc, ◌+◌, ◌*◌, ◌/◌, ◌%◌, ◌^◌, ◌≤◌, ◌<◌, ◌≡◌, ◌≢◌, refl, sym, ap, ◌∙◌, arith, ◌==◌,
  ◌⊎◌, inl, inr, if◌then◌else◌, add32, sub32, Bool-cases,
}
use native.Mathlib.Decide.{ℕ_discrete}
use tet_os.Pmm.{
  Pmm, pmm_frame_size, pmm_set_used, pmm_set_free, pmm_is_used, alloc_loop, pmm_alloc_frame,
  pmm_free_frame, pmm_free_frames,
}
use tet_os.Pmm.Frames.{
  pmm_is_used-lt, is_used-set_used, is_used-set_free, in_use, in_use-ext, in_use-differ, in_use-le,
  in_use-pos, in_use-lt, IsValid,
}

-- The pool after frame `f` was taken.
pub taken : ℕ → Pmm → Pmm
taken f p = record (pmm_set_used f p) { used = add32 p.used 1 }

-- The lowest free frame from `i` on, as the loop finds it within `left` frames.
record Found (i left : ℕ) (p : Pmm) (f : ℕ) (out : ℕ × Pmm) : Type 0 where
  above : i ≤ f
  below : f < i + left
  free : pmm_is_used f p ≡ 0
  lowest : (g : ℕ) → i ≤ g → g < f → pmm_is_used g p ≡ 1
  result : out ≡ (f * pmm_frame_size % 2 ^ 32, taken f p)

abbrev Cases : ℕ → ℕ → Pmm → ℕ × Pmm → Type 0
Cases i left p out =
    ((f : ℕ) × Found i left p f out)
    ⊎ (((g : ℕ) → i ≤ g → g < i + left → pmm_is_used g p ≡ 1) × (out ≡ (0, p)))

-- A frame in use in front does not change which free frame is lowest.
later :
    (left i : ℕ) (p : Pmm) {out : ℕ × Pmm}
    → pmm_is_used i p ≡ 1
    → Cases (i + 1) left p out
    → Cases i (suc left) p out
later left i p used (inl (f, v)) = inl (
  f,
  record {
    above = omega (arith, v.above);
    below = omega (arith, v.below);
    free = v.free;
    lowest = λ g a b. elim (ℕ_discrete i g) [
      | yes e ↦ ap (λ k. pmm_is_used k p) (sym e) ∙ used
      | no ne ↦ v.lowest g (omega arith) b
    ];
    result = v.result;
  },
)
later left i p used (inr (all, e)) = inr (
  (λ g a b. elim (ℕ_discrete i g) [
    | yes e ↦ ap (λ k. pmm_is_used k p) (sym e) ∙ used
    | no ne ↦ all g (omega arith) (omega arith)
  ]),
  e,
)

alloc_loop-Cases : (left i : ℕ) (p : Pmm) → Cases i left p (alloc_loop left i p)
unfolding alloc_loop taken
alloc_loop-Cases zero i p = inr ((λ g a b. absurd (omega arith)), refl)
alloc_loop-Cases (suc left) i p = elim (Bool-cases (pmm_is_used i p == 0)) [
  | inl free ↦ inl (
    i,
    record {
      above = omega arith;
      below = omega arith;
      free = ground arith;
      lowest = λ g a b. absurd (omega arith);
      result = rw free;
    },
  )
  | inr used ↦
      rw used
        (later left i p (ground (arith, pmm_is_used-lt i p)) (alloc_loop-Cases left (i + 1) p))
]

-- Taking or giving back one frame.
taken-used :
    (f g : ℕ) (p : Pmm) → pmm_is_used g (taken f p) ≡ (if f == g then 1 else pmm_is_used g p)
unfolding taken pmm_is_used
taken-used f g p = is_used-set_used f g p

taken-IsValid :
    (f : ℕ) (p : Pmm)
    → IsValid p
    → f < p.total
    → pmm_is_used f p ≡ 0
    → IsValid (taken f p) × (pmm_free_frames (taken f p) + 1 ≡ pmm_free_frames p)
unfolding taken pmm_free_frames pmm_set_used
taken-IsValid f p v l free = (
  record {
    total_in = v.total_in;
    counted = omega (arith, v.counted, v.total_in, change, one, in_use-lt p.total f p l free);
  },
  omega (arith, v.counted, v.total_in, in_use-lt p.total f p l free),
)
  where
    one : pmm_is_used f (taken f p) ≡ 1
    one = ground (arith, taken-used f f p)

    change :
        in_use p.total (taken f p) + pmm_is_used f p ≡ in_use p.total p + pmm_is_used f (taken f p)
    change = in_use-differ p.total f p (taken f p) (λ g ne. ground (arith, taken-used f g p)) l

-- `pmm_alloc_frame` returns the address of the lowest free frame, marks that frame and no other,
-- keeps the counter right and takes one from the number of free frames; when every frame is in use
-- it returns 0 and changes nothing.
pub pmm_alloc_frame_lem :
    (p : Pmm)
    → IsValid p
    → let (addr, q) = pmm_alloc_frame p in
      ((f : ℕ) × (f < p.total)
        × (pmm_is_used f p ≡ 0)
        × ((g : ℕ) → g < f → pmm_is_used g p ≡ 1)
        × (addr ≡ f * pmm_frame_size)
        × ((g : ℕ) → pmm_is_used g q ≡ (if f == g then 1 else pmm_is_used g p))
        × IsValid q
        × (pmm_free_frames q + 1 ≡ pmm_free_frames p))
      ⊎ (((g : ℕ) → g < p.total → pmm_is_used g p ≡ 1) × (addr ≡ 0) × (q ≡ p))
unfolding pmm_alloc_frame
pmm_alloc_frame_lem p v = elim (alloc_loop-Cases p.total 0 p) [
  | inl (f, found) ↦
      let l : f < p.total = omega (arith, found.below) in
      let after = taken-IsValid f p v l found.free in
      rw found.result (
        inl (
          f,
          l,
          found.free,
          (λ g lt. found.lowest g (omega arith) lt),
          omega (arith, v.total_in),
          (λ g. taken-used f g p),
          after.0,
          after.1,
        ))
  | inr (all, e) ↦ rw e (inr ((λ g lt. all g (omega arith) (omega arith)), refl, refl))
]

-- The pool after frame `f` was given back.
pub returned : ℕ → Pmm → Pmm
returned f p = record (pmm_set_free f p) { used = sub32 p.used 1 }

returned-used :
    (f g : ℕ) (p : Pmm) → pmm_is_used g (returned f p) ≡ (if f == g then 0 else pmm_is_used g p)
unfolding returned pmm_is_used
returned-used f g p = is_used-set_free f g p

pmm_free_frame-returned :
    (addr : ℕ) (p : Pmm)
    → addr / pmm_frame_size < p.total
    → pmm_free_frame addr p ≡ returned (addr / pmm_frame_size) p
unfolding pmm_free_frame returned
pmm_free_frame-returned addr p l = ground arith

-- What giving back does to the count of set bits, whatever the frame's own bit was.
returned-in_use :
    (f : ℕ) (p : Pmm)
    → f < p.total
    → in_use p.total (returned f p) + pmm_is_used f p ≡ in_use p.total p
returned-in_use f p l = omega (
  arith,
  zero_bit,
  in_use-differ p.total f p (returned f p) (λ g ne. ground (arith, returned-used f g p)) l,
)
  where
    zero_bit : pmm_is_used f (returned f p) ≡ 0
    zero_bit = ground (arith, returned-used f f p)

-- `pmm_free_frame` on an address in a frame that is in use frees that frame and no other, keeps
-- the counter right and adds one to the number of free frames.
pub pmm_free_frame_lem :
    (addr : ℕ) (p : Pmm)
    → IsValid p
    → addr / pmm_frame_size < p.total
    → pmm_is_used (addr / pmm_frame_size) p ≡ 1
    → let q = pmm_free_frame addr p in
      ((g : ℕ) → pmm_is_used g q ≡ (if addr / pmm_frame_size == g then 0 else pmm_is_used g p))
      × IsValid q
      × (pmm_free_frames q ≡ pmm_free_frames p + 1)
unfolding pmm_free_frames returned pmm_set_free
pmm_free_frame_lem addr p v l used =
    let f : ℕ = addr / pmm_frame_size in
    let few = in_use-le p.total p in
    let pos = in_use-pos p.total f p l used in
    rw (pmm_free_frame-returned addr p l) (
      (λ g. returned-used f g p),
      record {
        total_in = v.total_in;
        counted = omega (arith, v.counted, v.total_in, returned-in_use f p l);
      },
      omega (arith, v.counted, v.total_in),
    )

-- Of a frame that is free already `pmm_free_frame` changes no bit, but takes one from `pmm_used`,
-- around 0: the counter no longer is the number of frames in use. So a second `pmm_free_frame` of
-- one address breaks the pool.
pub pmm_free_frame_twice :
    (addr : ℕ) (p : Pmm)
    → IsValid p
    → addr / pmm_frame_size < p.total
    → pmm_is_used (addr / pmm_frame_size) p ≡ 0
    → let q = pmm_free_frame addr p in
      ((g : ℕ) → pmm_is_used g q ≡ pmm_is_used g p)
      × (q.used ≡ (if p.used == 0 then 2 ^ 32 - 1 else p.used - 1))
      × ¬ IsValid q
unfolding returned pmm_set_free
pmm_free_frame_twice addr p v l free =
    let f : ℕ = addr / pmm_frame_size in
    rw (pmm_free_frame-returned addr p l) (
      (λ g. ground (arith, returned-used f g p)),
      ground (arith, v.counted, v.total_in, in_use-le p.total p),
      λ w.
          omega
            (arith, w.counted, v.counted, v.total_in, returned-in_use f p l, in_use-le p.total p),
    )

abbrev Restored : Pmm → Pmm → Type 0
Restored p q = ((g : ℕ) → pmm_is_used g q ≡ pmm_is_used g p) × (q.used ≡ p.used) × IsValid q

returned-taken :
    (f : ℕ) (p : Pmm)
    → IsValid p
    → f < p.total
    → pmm_is_used f p ≡ 0
    → Restored p (pmm_free_frame (f * pmm_frame_size % 2 ^ 32) (taken f p))
unfolding returned taken pmm_set_used pmm_set_free
returned-taken f p v l free =
    rw
      (
        pmm_free_frame-returned (f * pmm_frame_size % 2 ^ 32) (taken f p)
            (omega (arith, v.total_in)),
        there,
      )
      (
        bits,
        same,
        record {
          total_in = v.total_in;
          counted =
              same
              ∙ v.counted
              ∙ sym (in_use-ext p.total p (returned f (taken f p)) (λ g lt. bits g));
        },
      )
  where
    there : f * pmm_frame_size % 2 ^ 32 / pmm_frame_size ≡ f
    there = omega (arith, v.total_in)

    bits : (g : ℕ) → pmm_is_used g (returned f (taken f p)) ≡ pmm_is_used g p
    bits g = ground (arith, returned-used f g (taken f p), taken-used f g p)

    same : (returned f (taken f p)).used ≡ p.used
    same = omega (arith, v.counted, v.total_in, in_use-le p.total p)

-- Freeing the address that a successful `pmm_alloc_frame` returned leaves every frame and the
-- counter as they were before.
pub pmm_free-alloc :
    (p : Pmm)
    → IsValid p
    → (pmm_alloc_frame p).0 ≢ 0
    → let q = pmm_free_frame (pmm_alloc_frame p).0 (pmm_alloc_frame p).1 in
      ((g : ℕ) → pmm_is_used g q ≡ pmm_is_used g p) × (q.used ≡ p.used) × IsValid q
unfolding pmm_alloc_frame
pmm_free-alloc p v ok = elim (alloc_loop-Cases p.total 0 p) [
  | inl (f, found) ↦ rw found.result (returned-taken f p v (omega (arith, found.below)) found.free)
  | inr (all, e) ↦ absurd (ok (ap (λ (r : ℕ × Pmm). r.0) e))
]
