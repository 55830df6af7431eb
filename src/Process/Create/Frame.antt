-- ===== src/Process/Create/Frame.antt =====
-- The frame that a new process starts from.
use tet_os.Prelude.{
  ℕ, zero, suc, ◌+◌, ◌-◌, ◌*◌, ◌≤◌, ◌<◌, ◌^◌, ◌≡◌, refl, ◌∙◌, List, [], ◌∷◌, arith, length, get_or,
  sub32, update, update_self,
}
use tet_os.Process.Create.{push_words}

-- Pushing leaves the words at the old stack pointer and above it alone.
push_words-above :
    (vs : List ℕ) (sp : ℕ) (words : ℕ → ℕ) (a : ℕ)
    → 4 * length vs ≤ sp
    → sp < 2 ^ 32
    → sp ≤ a
    → (push_words vs sp words).1 a ≡ words a
unfolding push_words
push_words-above [] sp words a l m h = refl
push_words-above (v ∷ vs) sp words a l m h =
    let next : sub32 sp 4 ≡ sp - 4 = omega arith in
    rw (push_words, next)
      (push_words-above vs (sp - 4) (update words (sp - 4) v) a (omega arith) (omega arith)
          (omega arith)
        ∙ ground arith)

push_words-low :
    (vs : List ℕ) (sp : ℕ) (words : ℕ → ℕ)
    → 4 * length vs ≤ sp
    → sp < 2 ^ 32
    → (push_words vs sp words).0 ≡ sp - 4 * length vs
unfolding push_words
push_words-low [] sp words l m = omega arith
push_words-low (v ∷ vs) sp words l m =
    let next : sub32 sp 4 ≡ sp - 4 = omega arith in
    let low = push_words-low vs (sp - 4) (update words (sp - 4) v) (omega arith) (omega arith) in
    rw (push_words, next) (omega (arith, low))

push_words-value :
    (vs : List ℕ) (sp : ℕ) (words : ℕ → ℕ) (k : ℕ)
    → 4 * length vs ≤ sp
    → sp < 2 ^ 32
    → k < length vs
    → (push_words vs sp words).1 (sp - 4 * (k + 1)) ≡ get_or vs k 0
unfolding push_words
push_words-value [] sp words k l m h = absurd (omega arith)
push_words-value (v ∷ vs) sp words zero l m h =
    let next : sub32 sp 4 ≡ sp - 4 = omega arith in
    let top : sp - 4 * (0 + 1) ≡ sp - 4 = omega arith in
    rw (push_words, next, top)
      (push_words-above vs (sp - 4) (update words (sp - 4) v) (sp - 4) (omega arith) (omega arith)
          (omega arith)
        ∙ update_self words (sp - 4) v)
push_words-value (v ∷ vs) sp words (suc k) l m h =
    let next : sub32 sp 4 ≡ sp - 4 = omega arith in
    let lower : sp - 4 * (suc k + 1) ≡ sp - 4 - 4 * (k + 1) = omega arith in
    rw (push_words, next, lower)
      (push_words-value vs (sp - 4) (update words (sp - 4) v) k (omega arith) (omega arith)
        (omega arith))

-- `n` values that are pushed move the stack pointer down by `n` words, and the value pushed as
-- number `k` lies `k + 1` words below the old stack pointer; the memory above is as it was.
push_words_lem :
    (vs : List ℕ) (sp : ℕ) (words : ℕ → ℕ)
    → 4 * length vs ≤ sp
    → sp < 2 ^ 32
    → ((push_words vs sp words).0 ≡ sp - 4 * length vs)
      × ((k : ℕ) → k < length vs → (push_words vs sp words).1 (sp - 4 * (k + 1)) ≡ get_or vs k 0)
      × ((a : ℕ) → sp ≤ a → (push_words vs sp words).1 a ≡ words a)
push_words_lem vs sp words l m = (
  push_words-low vs sp words l m,
  (λ k h. push_words-value vs sp words k l m h),
  (λ a h. push_words-above vs sp words a l m h),
)
