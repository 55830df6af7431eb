-- ===== src/Strings/Memory/Length.antt =====
-- `strlen`, and the string that `strcpy` and `strcat` leave.
use native.Mathlib.Decide.{ℕ_discrete}
use tet_os.Prelude.{
  ℕ, zero, suc, ◌+◌, ◌-◌, ◌≤◌, ◌<◌, ◌≡◌, ◌≢◌, sym, ap, ◌∙◌, not, ◌&&◌, ◌==◌, if◌then◌else◌, update,
  leb, arith, ◌⊎◌, Bool-cases, inl, inr, true,
}
use tet_os.Strings.Memory.{strlen_loop, strlen, strcpy, strcat}

-- The string at `str` has its terminator, the first, `n` bytes on.
pub record IsString (m : ℕ → ℕ) (str n : ℕ) : Type 0 where
  pub ends : m (str + n) ≡ 0
  pub before : (k : ℕ) → k < n → m (str + k) ≢ 0

strlen_loop_lem :
    (fuel str len n : ℕ) (m : ℕ → ℕ)
    → IsString m str n
    → len ≤ n
    → n ≤ len + fuel
    → strlen_loop fuel m str len ≡ n
unfolding strlen_loop
strlen_loop_lem zero str len n m v l h = omega arith
strlen_loop_lem (suc fuel) str len n m v l h = elim (ℕ_discrete len n) [
  | yes at ↦ let here : m (str + len) ≡ 0 = ap (λ x. m (str + x)) at ∙ v.ends in rw here at
  | no inside ↦
      let test : not (m (str + len) == 0) ≡ true = ground (arith, v.before len (omega arith)) in
      rw test (strlen_loop_lem fuel str (len + 1) n m v (omega arith) (omega arith))
]

pub strlen_lem : (fuel str n : ℕ) (m : ℕ → ℕ) → IsString m str n → n ≤ fuel → strlen fuel m str ≡ n
unfolding strlen
strlen_lem fuel str n m v l = strlen_loop_lem fuel str 0 n m v (omega arith) (omega arith)

terminator :
    (dest src n j : ℕ) (m : ℕ → ℕ)
    → n ≡ 0
    → m src ≡ 0
    → update m dest 0 j ≡ (if leb dest j && leb j (dest + n) then m (src + (j - dest)) else m j)
terminator dest src n j m e stop = elim (ℕ_discrete dest j) [
  | yes at ↦ let here : src + (j - dest) ≡ src = omega arith in rw here (ground (arith, at, stop))
  | no other ↦ ground (arith, other, e)
]

-- The rest of the string, after a write that does not touch it.
tail-IsString :
    (m : ℕ → ℕ) (dest src n v : ℕ)
    → 0 < n
    → (dest + n < src) ⊎ (src + n < dest)
    → IsString m src n
    → IsString (update m dest v) (src + 1) (n - 1)
tail-IsString m dest src n v some_byte apart s = record {
  ends =
      let at_end : src + 1 + (n - 1) ≡ src + n = omega arith in
      rw at_end (ground (arith, apart, s.ends));
  before = λ k l.
      let here : src + 1 + k ≡ src + (k + 1) = omega arith in
      rw here (ground (arith, apart, s.before (k + 1) (omega arith)));
}

after_first :
    (dest src n j : ℕ) (m : ℕ → ℕ)
    → 0 < n
    → (dest + n < src) ⊎ (src + n < dest)
    → (if leb (dest + 1) j && leb j (dest + 1 + (n - 1))
        then update m dest (m src) (src + 1 + (j - (dest + 1)))
        else update m dest (m src) j)
      ≡ (if leb dest j && leb j (dest + n) then m (src + (j - dest)) else m j)
after_first dest src n j m some_byte apart = elim (ℕ_discrete dest j) [
  | yes at ↦ let here : src + (j - dest) ≡ src = omega arith in rw here (ground (arith, at))
  | no other ↦ elim (Bool-cases (leb (dest + 1) j && leb j (dest + 1 + (n - 1)))) [
    | inl inside ↦
        let next : src + 1 + (j - (dest + 1)) ≡ src + (j - dest) = ground (arith, inside) in
        rw next (ground (arith, inside, apart))
    | inr outside ↦ ground (arith, outside, other)
  ]
]

-- `strcpy` of a string of `n` bytes, with fuel for them, to a destination that does not overlap
-- the source with its terminator: the destination has the bytes and the terminator of the source,
-- and no other byte changes.
pub strcpy_lem :
    (fuel dest src n : ℕ) (m : ℕ → ℕ) (j : ℕ)
    → IsString m src n
    → n ≤ fuel
    → (dest + n < src) ⊎ (src + n < dest)
    → strcpy fuel dest src m j
      ≡ (if leb dest j && leb j (dest + n) then m (src + (j - dest)) else m j)
unfolding strcpy
strcpy_lem zero dest src n m j v l apart =
    let here : src + n ≡ src = omega arith in
    terminator dest src n j m (omega arith) (ap m (sym here) ∙ v.ends)
strcpy_lem (suc fuel) dest src n m j v l apart = elim (ℕ_discrete 0 n) [
  | yes none_left ↦
      let here : src + n ≡ src = omega arith in
      let stop : m src ≡ 0 = ap m (sym here) ∙ v.ends in
      rw stop (terminator dest src n j m (sym none_left) stop)
  | no some_left ↦
      let here : src + 0 ≡ src = omega arith in
      let goes_on : m src ≢ 0 = λ z. v.before 0 (omega arith) (ap m here ∙ z) in
      let test : not (m src == 0) ≡ true = ground (arith, goes_on) in
      rw test (
        strcpy_lem fuel (dest + 1) (src + 1) (n - 1) (update m dest (m src)) j
          (tail-IsString m dest src n (m src) (omega arith) apart v) (omega arith)
          (omega (arith, apart))
        ∙ after_first dest src n j m (omega arith) apart)
]

-- `strcat` of a string of `n` bytes to one of `a` bytes, with fuel for each, where the source with its
-- terminator does not overlap the string that results: the source and its terminator stand from the
-- old terminator of the destination on, and no other byte changes.
pub strcat_lem :
    (fuel dest src a n : ℕ) (m : ℕ → ℕ) (j : ℕ)
    → IsString m dest a
    → IsString m src n
    → a ≤ fuel
    → n ≤ fuel
    → (dest + a + n < src) ⊎ (src + n < dest)
    → strcat fuel dest src m j
      ≡ (if leb (dest + a) j && leb j (dest + a + n) then m (src + (j - (dest + a))) else m j)
unfolding strcat
strcat_lem fuel dest src a n m j u v k l apart =
    rw (strlen_lem fuel dest a m u k)
      (strcpy_lem fuel (dest + a) src n m j v l (omega (arith, apart)))
