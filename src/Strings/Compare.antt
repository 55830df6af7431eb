-- ===== src/Strings/Compare.antt =====
-- `strcmp` is 0 exactly on strings that agree up to the terminator.
use tet_os.Prelude.{
  ℕ, zero, suc, ◌+◌, ◌≤◌, ◌<◌, ◌≡◌, ◌≢◌, sym, ap, ◌∙◌, not, ◌&&◌, ◌==◌, arith, if_cases, Bool-cases,
  ◌⊎◌, inl, inr,
}
use mathlib.Core.Bool.{true}
use native.Mathlib.Decide.{ℕ_discrete}
use tet_os.Prelude.Int.{pos, sub_ℕ}
use tet_os.Strings.{strcmp, strcmp_loop}

-- The strings agree at every offset from `k` on that no terminator of the first comes before.
abbrev pub AgreeFrom : ℕ → (ℕ → ℕ) → (ℕ → ℕ) → Type 0
AgreeFrom k a b = (j : ℕ) → k ≤ j → ((i : ℕ) → k ≤ i → i < j → a i ≢ 0) → a j ≡ b j

-- A zero difference, where the loop has stopped at `k`.
stopped :
    (k j : ℕ) (a b : ℕ → ℕ)
    → sub_ℕ (a k) (b k) ≡ pos 0
    → (a k ≢ b k) ⊎ (a k ≡ 0)
    → k ≤ j
    → ((i : ℕ) → k ≤ i → i < j → a i ≢ 0)
    → a j ≡ b j
stopped k j a b e why n before = elim (ℕ_discrete k j) [
  | yes at ↦ ap a (sym at) ∙ same ∙ ap b at
  | no past ↦ absurd (before k (omega arith) (omega arith) (omega (arith, same, why)))
]
  where
    same : a k ≡ b k
    same = ground (arith, e)

goes_on : (a b : ℕ → ℕ) (k : ℕ) → (not (a k == 0) && (a k == b k)) ≡ true → a k ≢ 0
goes_on a b k more = ground (arith, more)

pub not_end : (a : ℕ → ℕ) (k end : ℕ) → a k ≢ 0 → a end ≡ 0 → k ≤ end → k + 1 ≤ end
not_end a k end on stop l = elim (ℕ_discrete k end) [
  | yes at ↦ absurd (on (ap a at ∙ stop))
  | no past ↦ omega arith
]

strcmp_loop-zero :
    (fuel k end : ℕ) (a b : ℕ → ℕ)
    → a end ≡ 0
    → k ≤ end
    → end ≤ k + fuel
    → strcmp_loop fuel a b k ≡ pos 0
    → AgreeFrom k a b
unfolding strcmp_loop
strcmp_loop-zero zero k end a b stop l m same j n before =
    let here : end ≡ k = omega arith in stopped k j a b same (inr (ap a (sym here) ∙ stop)) n before
strcmp_loop-zero (suc fuel) k end a b stop l m same j n before =
    elim (Bool-cases (not (a k == 0) && (a k == b k))) [
      | inl more ↦ elim (ℕ_discrete k j) [
        | yes at ↦ let equal : a k ≡ b k = ground (arith, more) in ap a (sym at) ∙ equal ∙ ap b at
        | no past ↦
            strcmp_loop-zero fuel (k + 1) end a b stop (not_end a k end (goes_on a b k more) stop l)
              (omega arith) (rw more at same) j (omega arith) (λ i p q. before i (omega arith) q)
      ]
      | inr last ↦ stopped k j a b (rw last at same) (ground (arith, last)) n before
    ]

strcmp_loop-same :
    (fuel k end : ℕ) (a b : ℕ → ℕ)
    → a end ≡ 0
    → k ≤ end
    → end ≤ k + fuel
    → AgreeFrom k a b
    → strcmp_loop fuel a b k ≡ pos 0
unfolding strcmp_loop
strcmp_loop-same zero k end a b stop l m same =
    let here : a k ≡ b k = same k (omega arith) (λ i p q. absurd (omega arith)) in
    ground (arith, here)
strcmp_loop-same (suc fuel) k end a b stop l m same =
    let here : a k ≡ b k = same k (omega arith) (λ i p q. absurd (omega arith)) in
    if_cases (λ r. r ≡ pos 0) (not (a k == 0) && (a k == b k))
      (λ more.
        strcmp_loop-same fuel (k + 1) end a b stop (not_end a k end (goes_on a b k more) stop l)
          (omega arith)
          (λ j p before. same j (omega arith) (λ i p q. elim (ℕ_discrete k i) [
            | yes at ↦ λ z. goes_on a b k more (ap a at ∙ z)
            | no past ↦ before i (omega arith) q
          ])))
      (λ last. ground (arith, here))

-- A first string with its terminator at offset `end`, and fuel for that many bytes: `strcmp` answers
-- 0 exactly when the second string agrees with the first on every byte up to the first terminator.
pub strcmp_lem :
    (fuel end : ℕ) (a b : ℕ → ℕ)
    → a end ≡ 0
    → end ≤ fuel
    → (strcmp fuel a b ≡ pos 0 → AgreeFrom 0 a b) × (AgreeFrom 0 a b → strcmp fuel a b ≡ pos 0)
unfolding strcmp
strcmp_lem fuel end a b stop l = (
  strcmp_loop-zero fuel 0 end a b stop (omega arith) (omega arith),
  strcmp_loop-same fuel 0 end a b stop (omega arith) (omega arith),
)
