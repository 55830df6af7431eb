-- ===== src/Prelude/Distinct.antt =====
-- Lists of numbers without repetition.
use Prim.Native.Nat.{ℕ, zero, suc, ◌≤◌, ◌<◌}
use mathlib.Core.Path.{◌≡◌, refl, sym, ap, subst}
use mathlib.Core.Bool.{true, false}
use mathlib.Core.Logic.{◌≢◌, ◌⊎◌, inl, inr}
use mathlib.Core.List.{List, [], ◌∷◌, ◌++◌}
use native.Mathlib.Omega.{arith}
use native.Mathlib.Decide.{ℕ_discrete}
use tet_os.Prelude.Tests.{◌==◌, if◌then◌else◌}
use tet_os.Prelude.Lists.{length}

abbrev pub All {ℓ κ} : {A : Type ℓ} → (A → Type κ) → List A → Type κ
All P [] = Unit
All P (x ∷ xs) = P x × All P xs

abbrev pub Absent : ℕ → List ℕ → Type 0
Absent a xs = All (λ x. a ≢ x) xs

abbrev pub Distinct : List ℕ → Type 0
Distinct [] = Unit
Distinct (x ∷ xs) = Absent x xs × Distinct xs

pub All-map {ℓ κ μ} :
    {A : Type ℓ} {P : A → Type κ} {Q : A → Type μ} (xs : List A)
    → ((x : A) → P x → Q x)
    → All P xs
    → All Q xs
All-map [] f h = tt
All-map (x ∷ xs) f (p, h) = (f x p, All-map xs f h)

pub All-both {ℓ κ μ} :
    {A : Type ℓ} (P : A → Type κ) (Q : A → Type μ) (xs : List A)
    → All P xs
    → All Q xs
    → All (λ x. P x × Q x) xs
All-both P Q [] h g = tt
All-both P Q (x ∷ xs) (p, h) (q, g) = ((p, q), All-both P Q xs h g)

pub All-append {ℓ κ} :
    {A : Type ℓ} (P : A → Type κ) (xs ys : List A) → All P xs → All P ys → All P (xs ++ ys)
All-append P [] ys h g = g
All-append P (x ∷ xs) ys (p, h) g = (p, All-append P xs ys h g)

pub All-left {ℓ κ} : {A : Type ℓ} (P : A → Type κ) (xs ys : List A) → All P (xs ++ ys) → All P xs
All-left P [] ys h = tt
All-left P (x ∷ xs) ys (p, h) = (p, All-left P xs ys h)

pub All-right {ℓ κ} : {A : Type ℓ} (P : A → Type κ) (xs ys : List A) → All P (xs ++ ys) → All P ys
All-right P [] ys h = h
All-right P (x ∷ xs) ys (p, h) = All-right P xs ys h

module _ {ℓ κ} {A : Type ℓ} (P : A → Type κ) where
  pub All-drop : (xs : List A) (y : A) (ys : List A) → All P (xs ++ y ∷ ys) → P y × All P (xs ++ ys)
  All-drop [] y ys h = h
  All-drop (x ∷ xs) y ys (p, h) = let (q, g) = All-drop xs y ys h in (q, (p, g))

  pub All-insert :
      (xs : List A) (y : A) (ys : List A) → P y → All P (xs ++ ys) → All P (xs ++ y ∷ ys)
  All-insert [] y ys q h = (q, h)
  All-insert (x ∷ xs) y ys q (p, h) = (p, All-insert xs y ys q h)

pub Distinct-drop :
    (xs : List ℕ) (y : ℕ) (ys : List ℕ)
    → Distinct (xs ++ y ∷ ys)
    → Distinct (xs ++ ys) × Absent y (xs ++ ys)
Distinct-drop [] y ys (h, d) = (d, h)
Distinct-drop (x ∷ xs) y ys (h, d) =
    let (e, g) = Distinct-drop xs y ys d in
    let (n, m) = All-drop (λ z. x ≢ z) xs y ys h in ((m, e), ((λ q. n (sym q)), g))

-- A number is in a list, or it is not.
pub Absent-cases :
    (a : ℕ) (xs : List ℕ)
    → Absent a xs ⊎ ((pre : List ℕ) × (post : List ℕ) × (xs ≡ pre ++ a ∷ post))
Absent-cases a [] = inl tt
Absent-cases a (x ∷ xs) = elim (ℕ_discrete a x) [
  | yes e ↦ inr ([], xs, ap (λ y. y ∷ xs) (sym e))
  | no d ↦ elim (Absent-cases a xs) [
    | inl h ↦ inl (d, h)
    | inr (pre, post, e) ↦ inr (x ∷ pre, post, ap (◌∷◌ x) e)
  ]
]

pub not-Absent : (a : ℕ) (pre post : List ℕ) → ¬ Absent a (pre ++ a ∷ post)
not-Absent a [] post (h, hs) = h refl
not-Absent a (x ∷ pre) post (h, hs) = not-Absent a pre post hs

-- No number is in both lists.
abbrev pub Apart : List ℕ → List ℕ → Type 0
Apart xs ys = All (λ x. Absent x ys) xs

Apart-nil : (xs : List ℕ) → Apart xs []
Apart-nil [] = tt
Apart-nil (x ∷ xs) = (tt, Apart-nil xs)

Apart-cons : (xs : List ℕ) (y : ℕ) (ys : List ℕ) → Absent y xs → Apart xs ys → Apart xs (y ∷ ys)
Apart-cons [] y ys h g = tt
Apart-cons (x ∷ xs) y ys (h, hs) (g, gs) = (((λ e. h (sym e)), g), Apart-cons xs y ys hs gs)

Absent-Apart : (xs : List ℕ) (y : ℕ) (ys : List ℕ) → Apart xs (y ∷ ys) → Absent y xs
Absent-Apart [] y ys h = tt
Absent-Apart (x ∷ xs) y ys ((h, g), hs) = ((λ e. h (sym e)), Absent-Apart xs y ys hs)

pub Apart-sym : (xs ys : List ℕ) → Apart xs ys → Apart ys xs
Apart-sym xs [] h = tt
Apart-sym xs (y ∷ ys) h = (Absent-Apart xs y ys h, Apart-sym xs ys (All-map xs (λ x g. g.1) h))

pub Distinct-append :
    (xs ys : List ℕ) → Distinct (xs ++ ys) → Distinct xs × Distinct ys × Apart xs ys
Distinct-append [] ys h = (tt, h, tt)
Distinct-append (x ∷ xs) ys (h, hs) =
    let (d, e, a) = Distinct-append xs ys hs in
    ((All-left (λ z. x ≢ z) xs ys h, d), e, (All-right (λ z. x ≢ z) xs ys h, a))

pub Distinct-join : (xs ys : List ℕ) → Distinct xs → Distinct ys → Apart xs ys → Distinct (xs ++ ys)
Distinct-join [] ys d e a = e
Distinct-join (x ∷ xs) ys (h, d) e (b, a) =
    (All-append (λ z. x ≢ z) xs ys h b, Distinct-join xs ys d e a)

-- The front of a list may be moved behind the rest.
pub Distinct-rotate : (xs ys : List ℕ) → Distinct (xs ++ ys) → Distinct (ys ++ xs)
Distinct-rotate xs ys h =
    let (d, e, a) = Distinct-append xs ys h in Distinct-join ys xs e d (Apart-sym xs ys a)

-- A list without the number `n`.
without : ℕ → List ℕ → List ℕ
without n [] = []
without n (x ∷ xs) = let rest = without n xs in if x == n then rest else x ∷ rest

without-Absent : (n : ℕ) (xs : List ℕ) → Absent n xs → without n xs ≡ xs
unfolding without
without-Absent n [] h = refl
without-Absent n (x ∷ xs) (h, hs) = elim (ℕ_discrete x n) [
  | yes e ↦ absurd (h (sym e))
  | no d ↦
      let test : (x == n) ≡ false = ground arith in rw test (ap (◌∷◌ x) (without-Absent n xs hs))
]

without-All {κ} :
    (P : ℕ → Type κ) (n : ℕ) (xs : List ℕ) → All P xs → All (λ x. P x × (x ≢ n)) (without n xs)
unfolding without
without-All P n [] h = tt
without-All P n (x ∷ xs) (h, hs) = elim (ℕ_discrete x n) [
  | yes e ↦ let test : (x == n) ≡ true = ground arith in rw test (without-All P n xs hs)
  | no d ↦ let test : (x == n) ≡ false = ground arith in rw test ((h, d), without-All P n xs hs)
]

without-Distinct : (n : ℕ) (xs : List ℕ) → Distinct xs → Distinct (without n xs)
unfolding without
without-Distinct n [] h = tt
without-Distinct n (x ∷ xs) (h, hs) = elim (ℕ_discrete x n) [
  | yes e ↦ let test : (x == n) ≡ true = ground arith in rw test (without-Distinct n xs hs)
  | no d ↦
      let test : (x == n) ≡ false = ground arith in
      rw test (
        All-map (without n xs) (λ y g. g.0) (without-All (λ y. x ≢ y) n xs h),
        without-Distinct n xs hs,
      )
]

length-without : (n : ℕ) (xs : List ℕ) → Distinct xs → length xs ≤ suc (length (without n xs))
unfolding without
length-without n [] h = omega arith
length-without n (x ∷ xs) (h, hs) = elim (ℕ_discrete x n) [
  | yes e ↦
      let test : (x == n) ≡ true = ground arith in
      let same : without n xs ≡ xs = without-Absent n xs (subst (λ y. Absent y xs) e h) in
      rw (test, same) (omega arith)
  | no d ↦
      let test : (x == n) ≡ false = ground arith in
      let rest = length-without n xs hs in rw test (omega (arith, rest))
]

-- A list of different numbers below `n` has at most `n` of them.
pub Distinct-length : (n : ℕ) (xs : List ℕ) → Distinct xs → All (λ x. x < n) xs → length xs ≤ n
Distinct-length zero [] d h = omega arith
Distinct-length zero (x ∷ xs) d (h, hs) = elim h [ ]
Distinct-length (suc n) xs d h =
    let shorter = Distinct-length n (without n xs) (without-Distinct n xs d) (
      All-map (without n xs) (λ x g. omega (arith, g.0, g.1))
        (without-All (λ x. x < suc n) n xs h)) in
    omega (arith, shorter, length-without n xs d)
