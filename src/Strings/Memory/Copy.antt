-- ===== src/Strings/Memory/Copy.antt =====
-- `memset`, `memcpy` and `memcmp` against the bytes of the regions.
use native.Mathlib.Decide.{ℕ_discrete}
use tet_os.Prelude.{
  ℕ, zero, suc, ◌+◌, ◌-◌, ◌≤◌, ◌<◌, ◌≡◌, refl, sym, true, false, ap, ◌∙◌, not, ◌&&◌, ◌==◌,
  if◌then◌else◌, update, u8, ltb, leb, arith, ◌⊎◌, ◌↔◌, Bool-cases, inl, inr,
}
use tet_os.Prelude.Int.{pos}
use tet_os.Strings.Memory.{memset, memcpy, memcmp}

-- `memset` sets the bytes of the region to the value as a byte, and no others.
memset_lem :
    (ptr value num : ℕ) (m : ℕ → ℕ) (j : ℕ)
    → memset ptr value num m j ≡ (if leb ptr j && ltb j (ptr + num) then u8 value else m j)
unfolding memset
memset_lem ptr value zero m j = ground arith
memset_lem ptr value (suc num) m j =
    ground (arith, memset_lem (ptr + 1) value num (update m ptr (u8 value)) j)

-- `memcpy` with a destination that does not overlap the source, or lies in front of it: the
-- destination has the bytes that the source had, and no other byte changes.
memcpy_lem :
    (dest src num : ℕ) (m : ℕ → ℕ) (j : ℕ)
    → (dest ≤ src) ⊎ (src + num ≤ dest)
    → memcpy dest src num m j
      ≡ (if leb dest j && ltb j (dest + num) then m (src + (j - dest)) else m j)
unfolding memcpy
memcpy_lem dest src zero m j apart = ground arith
memcpy_lem dest src (suc num) m j apart =
    memcpy_lem (dest + 1) (src + 1) num (update m dest (m src)) j (omega (arith, apart))
    ∙ elim (ℕ_discrete dest j) [
      | yes at ↦ let here : src + (j - dest) ≡ src = omega arith in rw here (ground (arith, at))
      | no other ↦ elim (Bool-cases (leb (dest + 1) j && ltb j (dest + 1 + num))) [
        | inl inside ↦
            let next : src + 1 + (j - (dest + 1)) ≡ src + (j - dest) = ground (arith, inside) in
            rw next (ground (arith, inside, apart))
        | inr outside ↦ ground (arith, outside, other)
      ]
    ]

-- The two regions have the same bytes.
abbrev pub SameRegion : ℕ → ℕ → ℕ → (ℕ → ℕ) → Type 0
SameRegion ptr1 ptr2 num m = (k : ℕ) → k < num → m (ptr1 + k) ≡ m (ptr2 + k)

first_same : (ptr1 ptr2 num : ℕ) (m : ℕ → ℕ) → SameRegion ptr1 ptr2 (suc num) m → m ptr1 ≡ m ptr2
first_same ptr1 ptr2 num m same =
    let left : ptr1 + 0 ≡ ptr1 = omega arith in
    let right : ptr2 + 0 ≡ ptr2 = omega arith in ap m (sym left) ∙ same 0 (omega arith) ∙ ap m right

rest_same :
    (ptr1 ptr2 num : ℕ) (m : ℕ → ℕ)
    → SameRegion ptr1 ptr2 (suc num) m
    → SameRegion (ptr1 + 1) (ptr2 + 1) num m
rest_same ptr1 ptr2 num m same k l =
    let left : ptr1 + (k + 1) ≡ ptr1 + 1 + k = omega arith in
    let right : ptr2 + (k + 1) ≡ ptr2 + 1 + k = omega arith in
    ap m (sym left) ∙ same (k + 1) (omega arith) ∙ ap m right

all_same :
    (ptr1 ptr2 num : ℕ) (m : ℕ → ℕ)
    → m ptr1 ≡ m ptr2
    → SameRegion (ptr1 + 1) (ptr2 + 1) num m
    → SameRegion ptr1 ptr2 (suc num) m
all_same ptr1 ptr2 num m first rest zero l =
    let left : ptr1 + 0 ≡ ptr1 = omega arith in
    let right : ptr2 + 0 ≡ ptr2 = omega arith in ap m left ∙ first ∙ ap m (sym right)
all_same ptr1 ptr2 num m first rest (suc k) l =
    let left : ptr1 + suc k ≡ ptr1 + 1 + k = omega arith in
    let right : ptr2 + suc k ≡ ptr2 + 1 + k = omega arith in
    ap m left ∙ rest k (omega arith) ∙ ap m (sym right)

-- `memcmp` answers 0 exactly when the two regions have the same bytes.
memcmp_lem :
    (ptr1 ptr2 num : ℕ) (m : ℕ → ℕ) → (memcmp ptr1 ptr2 num m ≡ pos 0) ↔ SameRegion ptr1 ptr2 num m
unfolding memcmp
memcmp_lem ptr1 ptr2 zero m = ((λ e k l. absurd (omega arith)), (λ same. refl))
memcmp_lem ptr1 ptr2 (suc num) m = elim (ℕ_discrete (m ptr1) (m ptr2)) [
  | yes same ↦
      let test : not (m ptr1 == m ptr2) ≡ false = ground arith in
      let tail = memcmp_lem (ptr1 + 1) (ptr2 + 1) num m in
      rw test (
        (λ e. all_same ptr1 ptr2 num m same (tail.0 e)),
        (λ all. tail.1 (rest_same ptr1 ptr2 num m all)),
      )
  | no differ ↦
      let test : not (m ptr1 == m ptr2) ≡ true = ground arith in
      rw test (
        (λ e. absurd (differ (ground (arith, e)))),
        (λ all. absurd (differ (first_same ptr1 ptr2 num m all))),
      )
]
