-- ===== src/Pmm/Frames.antt =====
-- The bitmap of kernel/pmm/pmm.c as a set of frames, and how many it holds.
use tet_os.Prelude.{
  ℕ, zero, suc, ◌+◌, ◌/◌, ◌%◌, ◌^◌, ◌≤◌, ◌<◌, ◌≡◌, ◌≢◌, refl, ap, arith, ltb, min, ◌==◌,
  if◌then◌else◌,
}
use native.Mathlib.Decide.{ℕ_discrete}
use tet_os.Bits.{bit-set, bit-clear, mask-lt}
use tet_os.Pmm.{Pmm, pmm_set_used, pmm_set_free, pmm_is_used}

pub pmm_is_used-lt : (f : ℕ) (p : Pmm) → pmm_is_used f p < 2
unfolding pmm_is_used
pmm_is_used-lt f p = omega arith

-- Marking a frame changes that frame alone.
pub is_used-set_used :
    (f g : ℕ) (p : Pmm) → pmm_is_used g (pmm_set_used f p) ≡ (if f == g then 1 else pmm_is_used g p)
unfolding pmm_is_used pmm_set_used
is_used-set_used f g p = ground (arith, bit-set (p.bitmap (f / 32)) (f % 32) (g % 32))

pub is_used-set_free :
    (f g : ℕ) (p : Pmm) → pmm_is_used g (pmm_set_free f p) ≡ (if f == g then 0 else pmm_is_used g p)
unfolding pmm_is_used pmm_set_free
is_used-set_free f g p = ground (
  arith,
  bit-clear 32 (p.bitmap (f / 32)) (f % 32) (g % 32) (omega arith) (omega arith)
      (mask-lt {j = f % 32} {w = 32} (omega arith)),
)

-- How many of the first `n` frames are in use.
unfoldable pub in_use : ℕ → Pmm → ℕ
in_use zero p = 0
in_use (suc n) p = in_use n p + pmm_is_used n p

pub in_use-ext :
    (n : ℕ) (p q : Pmm)
    → ((f : ℕ) → f < n → pmm_is_used f q ≡ pmm_is_used f p)
    → in_use n q ≡ in_use n p
unfolding in_use
in_use-ext zero p q h = refl
in_use-ext (suc n) p q h =
    omega (arith, in_use-ext n p q (λ f l. h f (omega arith)), h n (omega arith))

-- A set that differs in frame `f` alone differs by that frame in its count.
pub in_use-differ :
    (n f : ℕ) (p q : Pmm)
    → ((g : ℕ) → f ≢ g → pmm_is_used g q ≡ pmm_is_used g p)
    → f < n
    → in_use n q + pmm_is_used f p ≡ in_use n p + pmm_is_used f q
unfolding in_use
in_use-differ zero f p q h l = absurd (omega arith)
in_use-differ (suc n) f p q h l = elim (ℕ_discrete f n) [
  | yes e ↦ rw e (omega (arith, in_use-ext n p q (λ g lt. h g (omega arith))))
  | no ne ↦ omega (arith, in_use-differ n f p q h (omega arith), h n ne)
]

pub in_use-le : (n : ℕ) (p : Pmm) → in_use n p ≤ n
unfolding in_use
in_use-le zero p = omega arith
in_use-le (suc n) p = omega (arith, in_use-le n p, pmm_is_used-lt n p)

-- A frame in use, or a free one, is within the count.
pub in_use-pos : (n f : ℕ) (p : Pmm) → f < n → pmm_is_used f p ≡ 1 → 0 < in_use n p
unfolding in_use
in_use-pos zero f p l e = absurd (omega arith)
in_use-pos (suc n) f p l e = elim (ℕ_discrete f n) [
  | yes eq ↦ omega (arith, ap (λ k. pmm_is_used k p) eq)
  | no ne ↦ omega (arith, in_use-pos n f p (omega arith) e)
]

pub in_use-lt : (n f : ℕ) (p : Pmm) → f < n → pmm_is_used f p ≡ 0 → in_use n p < n
unfolding in_use
in_use-lt zero f p l e = absurd (omega arith)
in_use-lt (suc n) f p l e = elim (ℕ_discrete f n) [
  | yes eq ↦ omega (arith, ap (λ k. pmm_is_used k p) eq, in_use-le n p)
  | no ne ↦ omega (arith, in_use-lt n f p (omega arith) e, pmm_is_used-lt n p)
]

-- The frames below `k` make `min k n`.
pub in_use-below :
    (n k : ℕ) (p : Pmm)
    → ((g : ℕ) → g < n → pmm_is_used g p ≡ (if ltb g k then 1 else 0))
    → in_use n p ≡ min k n
unfolding in_use
in_use-below zero k p h = omega arith
in_use-below (suc n) k p h =
    ground (arith, in_use-below n k p (λ g l. h g (omega arith)), h n (omega arith))

-- The counter `pmm_used` counts the set bits.
pub record IsValid (p : Pmm) : Type 0 where
  pub total_in : p.total ≤ 2 ^ 20
  pub counted : p.used ≡ in_use p.total p
