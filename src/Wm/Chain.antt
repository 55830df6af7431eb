-- ===== src/Wm/Chain.antt =====
-- Doubly linked chains through the windows.
use tet_os.Prelude.{ℕ, ◌≡◌, ◌≢◌, refl, sym, ◌∙◌, List, [], ◌∷◌, ◌++◌, arith, ◌==◌, if◌then◌else◌}
use tet_os.Prelude.Distinct.{All, Absent, Distinct, All-map, All-both}

abbrev pub first : List ℕ → ℕ → ℕ
first [] a = a
first (x ∷ xs) a = x

abbrev pub last : ℕ → List ℕ → ℕ
last b [] = b
last b (x ∷ xs) = last x xs

-- The list from behind `b` to before `a`.
abbrev pub Linked : (ℕ → ℕ) → (ℕ → ℕ) → ℕ → List ℕ → ℕ → Type 0
Linked nx pv b [] a = Unit
Linked nx pv b (x ∷ xs) a = (pv x ≡ b) × (nx x ≡ first xs a) × Linked nx pv x xs a

pub first-append : (xs ys : List ℕ) (a : ℕ) → first (xs ++ ys) a ≡ first xs (first ys a)
first-append [] ys a = refl
first-append (x ∷ xs) ys a = refl

pub last-append : (b : ℕ) (xs ys : List ℕ) → last b (xs ++ ys) ≡ last (last b xs) ys
last-append b [] ys = refl
last-append b (x ∷ xs) ys = last-append x xs ys

pub last-ne : (b y x : ℕ) (xs : List ℕ) → Absent y (x ∷ xs) → last b (x ∷ xs) ≢ y
last-ne b y x [] (n, absent) e = n (sym e)
last-ne b y x (z ∷ zs) (n, absent) e = last-ne x y z zs absent e

module _ (nx pv : ℕ → ℕ) where
  pub Linked-split :
      (b : ℕ) (pre : List ℕ) (x : ℕ) (post : List ℕ) (a : ℕ)
      → Linked nx pv b (pre ++ x ∷ post) a
      → Linked nx pv b pre x × (pv x ≡ last b pre) × (nx x ≡ first post a) × Linked nx pv x post a
  Linked-split b [] x post a (p, n, l) = (tt, p, n, l)
  Linked-split b (y ∷ ys) x post a (p, n, l) =
      let (front, at, next, back) = Linked-split y ys x post a l in
      ((p, n ∙ first-append ys (x ∷ post) a, front), at, next, back)

  pub Linked-join :
      (b : ℕ) (pre post : List ℕ) (a : ℕ)
      → Linked nx pv b pre (first post a)
      → Linked nx pv (last b pre) post a
      → Linked nx pv b (pre ++ post) a
  Linked-join b [] post a front back = back
  Linked-join b (y ∷ ys) post a (p, n, l) back =
      (p, n ∙ sym (first-append ys post a), Linked-join y ys post a l back)

-- What stays of a chain under other links.
module _ (nx pv nx' pv' : ℕ → ℕ) where
  pub Linked-same :
      (b : ℕ) (xs : List ℕ) (a : ℕ)
      → Linked nx pv b xs a
      → All (λ y. nx' y ≡ nx y) xs
      → All (λ y. pv' y ≡ pv y) xs
      → Linked nx' pv' b xs a
  Linked-same b [] a l n p = tt
  Linked-same b (x ∷ xs) a (at, next, l) (n, ns) (p, ps) =
      (p ∙ at, n ∙ next, Linked-same x xs a l ns ps)

  -- The last one leads elsewhere.
  pub Linked-retarget :
      (b : ℕ) (xs : List ℕ) (a a' : ℕ)
      → Linked nx pv b xs a
      → Distinct xs
      → All (λ y. nx' y ≡ (if last b xs == y then a' else nx y)) xs
      → All (λ y. pv' y ≡ pv y) xs
      → Linked nx' pv' b xs a'
  Linked-retarget b [] a a' l d n p = tt
  Linked-retarget b (x ∷ []) a a' (at, next, l) d (n, ns) (p, ps) = (p ∙ at, n ∙ ground arith, tt)
  Linked-retarget b (x ∷ z ∷ zs) a a' (at, next, l) (absent, d) (n, ns) (p, ps) =
      let stays : nx' x ≡ nx x = ground (arith, n, last-ne x x z zs absent) in
      (p ∙ at, stays ∙ next, Linked-retarget x (z ∷ zs) a a' l d ns ps)

  -- The first one leads back elsewhere.
  pub Linked-rebase :
      (b b' : ℕ) (xs : List ℕ) (a : ℕ)
      → Linked nx pv b xs a
      → Distinct xs
      → All (λ y. nx' y ≡ nx y) xs
      → All (λ y. pv' y ≡ (if first xs a == y then b' else pv y)) xs
      → Linked nx' pv' b' xs a
  Linked-rebase b b' [] a l d n p = tt
  Linked-rebase b b' (x ∷ xs) a (at, next, l) (absent, d) (n, ns) (p, ps) = (
    p ∙ ground arith,
    n ∙ next,
    Linked-same x xs a l ns (
        All-map xs (λ y (e, other). ground (arith, e, other))
          (All-both (λ y. pv' y ≡ (if x == y then b' else pv y)) (λ y. x ≢ y) xs ps absent)),
  )
