-- ===== src/Process/Cycle.antt =====
-- Links in a table, followed round: the shape of the run queue.
use native.Mathlib.Decide.{ℕ_discrete}
use tet_os.Prelude.{
  ℕ, ◌≡◌, ◌≢◌, refl, sym, ap, ◌∙◌, List, [], ◌∷◌, ◌++◌, true, false, arith, ◌==◌, if◌then◌else◌,
}
use tet_os.Prelude.Distinct.{
  All, Absent, Distinct, All-left, All-right, All-map, All-both, All-append, All-drop,
  Distinct-drop,
}

-- The links lead from `a` through `xs` to `b`.
abbrev pub Links : (ℕ → ℕ) → ℕ → List ℕ → ℕ → Type 0
Links next a [] b = next a ≡ b
Links next a (x ∷ xs) b = (next a ≡ x) × Links next x xs b

-- The slot before the end.
abbrev pub last : ℕ → List ℕ → ℕ
last a [] = a
last a (x ∷ xs) = last x xs

pub Links-split :
    (next : ℕ → ℕ) (a : ℕ) (xs : List ℕ) (y : ℕ) (ys : List ℕ) (b : ℕ)
    → Links next a (xs ++ y ∷ ys) b
    → Links next a xs y × Links next y ys b
Links-split next a [] y ys b h = h
Links-split next a (x ∷ xs) y ys b (e, h) =
    let (l, r) = Links-split next x xs y ys b h in ((e, l), r)

pub Links-join :
    (next : ℕ → ℕ) (a : ℕ) (xs : List ℕ) (y : ℕ) (ys : List ℕ) (b : ℕ)
    → Links next a xs y
    → Links next y ys b
    → Links next a (xs ++ y ∷ ys) b
Links-join next a [] y ys b l r = (l, r)
Links-join next a (x ∷ xs) y ys b (e, l) r = (e, Links-join next x xs y ys b l r)

-- A ring may be read from any of its slots on.
pub Links-rotate :
    (next : ℕ → ℕ) (x : ℕ) (xs : List ℕ) (y : ℕ) (ys : List ℕ)
    → Links next x (xs ++ y ∷ ys) x
    → Links next y (ys ++ x ∷ xs) y
Links-rotate next x xs y ys h =
    let (l, r) = Links-split next x xs y ys x h in Links-join next y ys x xs y r l

-- Other links that agree on the way.
pub Links-from :
    (next next' : ℕ → ℕ) (a a' : ℕ) (xs : List ℕ) (b : ℕ)
    → next' a' ≡ next a
    → All (λ x. next' x ≡ next x) xs
    → Links next a xs b
    → Links next' a' xs b
Links-from next next' a a' [] b e h l = e ∙ l
Links-from next next' a a' (x ∷ xs) b e (h, hs) (f, l) =
    (e ∙ f, Links-from next next' x x xs b h hs l)

pub Absent-last : (a x : ℕ) (xs : List ℕ) → Absent a (x ∷ xs) → a ≢ last x xs
Absent-last a x [] (h, hs) = h
Absent-last a x (y ∷ xs) (h, hs) = Absent-last a y xs hs

-- `prev->next = p->next` takes `p` out of the ring.
pub Links-remove :
    (next next' : ℕ → ℕ) (a : ℕ) (xs : List ℕ) (p : ℕ) (ys : List ℕ) (b : ℕ)
    → Distinct (a ∷ xs ++ p ∷ ys)
    → ((j : ℕ) → j ≢ p → next' j ≡ (if last a xs == j then next p else next j))
    → Links next a (xs ++ p ∷ ys) b
    → Links next' a (xs ++ ys) b
Links-remove next next' a [] p ys b ((ap_ne, a_ys), (p_ys, d)) same (e, l) =
    Links-from next next' p a ys b (same a ap_ne ∙ rw self refl)
      (All-map ys other (All-both (λ y. a ≢ y) (λ y. p ≢ y) ys a_ys p_ys)) l
  where
    self : (a == a) ≡ true
    self = ground arith

    other : (y : ℕ) → (a ≢ y) × (p ≢ y) → next' y ≡ next y
    other y (n, m) =
        let miss : (a == y) ≡ false = ground arith in same y (λ h. m (sym h)) ∙ rw miss refl
Links-remove next next' a (x ∷ xs) p ys b (h, d) same (e, l) = (
  same a (λ q. (All-right (λ z. a ≢ z) (x ∷ xs) (p ∷ ys) h).0 q) ∙ rw miss e,
  Links-remove next next' x xs p ys b d same l,
)
  where
    miss : (last x xs == a) ≡ false
    miss = ground (arith, Absent-last a x xs (All-left (λ z. a ≢ z) (x ∷ xs) (p ∷ ys) h))

-- `while (prev->next != end) prev = prev->next`
pub last_lem :
    (next : ℕ → ℕ) (a : ℕ) (xs : List ℕ) (b : ℕ) → Links next a xs b → next (last a xs) ≡ b
last_lem next a [] b l = l
last_lem next a (x ∷ xs) b (e, l) = last_lem next x xs b l

-- No slot but the last leads to what the links do not go through.
pub Links-misses :
    (next : ℕ → ℕ) (a : ℕ) (xs : List ℕ) (b p : ℕ)
    → Links next a xs b
    → Absent p xs
    → All (λ x. x ≢ last a xs → next x ≢ p) (a ∷ xs)
Links-misses next a [] b p e h = ((λ n. absurd (n refl)), tt)
Links-misses next a (x ∷ xs) b p (e, l) (h, hs) =
    ((λ n q. h (sym q ∙ e)), Links-misses next x xs b p l hs)

-- Only the slot before `p` in the ring leads to it.
pub before_unique :
    (next : ℕ → ℕ) (a : ℕ) (xs : List ℕ) (p : ℕ) (ys : List ℕ) (q : ℕ)
    → Links next a (xs ++ p ∷ ys) a
    → Distinct (a ∷ xs ++ p ∷ ys)
    → next q ≡ p
    → ¬ Absent q (a ∷ xs ++ p ∷ ys)
    → q ≡ last a xs
before_unique next a xs p ys q l (a_fresh, d) e member =
    let (front, back) = Links-split next a xs p ys a l in
    let (fresh, p_fresh) = Distinct-drop xs p ys d in
    let p_a : a ≢ p = (All-drop (λ z. a ≢ z) xs p ys a_fresh).0 in
    let front_misses = Links-misses next a xs p p front (All-left (λ z. p ≢ z) xs ys p_fresh) in
    let back_misses = Links-misses next p ys a p back (All-right (λ z. p ≢ z) xs ys p_fresh) in
    elim (ℕ_discrete q (last a xs)) [
      | yes same ↦ same
      | no other ↦ absurd (
          member (
            All-append (λ z. q ≢ z) (a ∷ xs) (p ∷ ys)
              (All-map (a ∷ xs) (λ x f s. f (λ t. other (s ∙ t)) (ap next (sym s) ∙ e))
                front_misses)
              (All-map (p ∷ ys)
                (λ x f s. elim (ℕ_discrete x (last p ys)) [
                  | yes end ↦
                      p_a
                        (sym (last_lem next p ys a back) ∙ ap next (sym end) ∙ ap next (sym s) ∙ e)
                  | no inner ↦ f inner (ap next (sym s) ∙ e)
                ])
                back_misses)))
    ]

pub not-Absent-last : (a : ℕ) (xs : List ℕ) → ¬ Absent (last a xs) (a ∷ xs)
not-Absent-last a [] (h, hs) = h refl
not-Absent-last a (x ∷ xs) (h, hs) = not-Absent-last x xs hs
