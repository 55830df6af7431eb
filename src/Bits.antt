-- ===== src/Bits.antt =====
-- Single bits of the words that the kernel keeps its bitmaps and flags in, at every width.
mod Step
pub mod Split
use Prim.Native.Nat.{bit_and-bitwise}
use Step.{bit_or_step, bit_and_step}
use native.Mathlib.Nat.{
  suc-le-suc_iff, pow-suc, div-div-eq-div-mul, mul_comm, one-le-pow, pow-le-pow_right,
}
use tet_os.Prelude.{
  ℕ, zero, suc, ◌+◌, ◌-◌, ◌*◌, ◌/◌, ◌%◌, ◌^◌, ◌≤◌, ◌<◌, min, max, bit_and, bit_or, ◌≡◌, refl, arith,
  ◌==◌, if◌then◌else◌, ap, ap₂, ◌∙◌, sym,
}

-- `(x >> k) & 1`
abbrev pub bit : ℕ → ℕ → ℕ
bit x k = x / 2 ^ k % 2

-- `1 << k`, and `~x` in a word of `w` bits
abbrev pub mask : ℕ → ℕ
mask k = 2 ^ k

abbrev pub complement : ℕ → ℕ → ℕ
complement w x = 2 ^ w - 1 - x

pub bit-suc : (x k : ℕ) → bit x (suc k) ≡ bit (x / 2) k
bit-suc x k =
    ap (λ (d : ℕ). d % 2)
      (ap (λ (p : ℕ). x / p) (omega (arith, pow-suc 2 k)) ∙ sym (div-div-eq-div-mul x 2 (2 ^ k)))

pub bit-or : (k a b : ℕ) → bit (bit_or a b) k ≡ max (bit a k) (bit b k)
bit-or zero a b = omega (arith, bit_or_step a b)
bit-or (suc k) a b =
    rw (bit-suc (bit_or a b) k, bit-suc a k, bit-suc b k)
      (ap (λ (x : ℕ). bit x k) halves ∙ bit-or k (a / 2) (b / 2))
  where
    halves : bit_or a b / 2 ≡ bit_or (a / 2) (b / 2)
    halves = omega (arith, bit_or_step a b)

pub bit-and : (k a b : ℕ) → bit (bit_and a b) k ≡ min (bit a k) (bit b k)
bit-and zero a b = omega (arith, bit_and_step a b)
bit-and (suc k) a b =
    rw (bit-suc (bit_and a b) k, bit-suc a k, bit-suc b k)
      (ap (λ (x : ℕ). bit x k) halves ∙ bit-and k (a / 2) (b / 2))
  where
    halves : bit_and a b / 2 ≡ bit_and (a / 2) (b / 2)
    halves = omega (arith, bit_and_step a b)

pub bit_of_zero : (k : ℕ) → bit 0 k ≡ 0
bit_of_zero zero = refl
bit_of_zero (suc k) = bit-suc 0 k ∙ bit_of_zero k

pub bit-mask : (j k : ℕ) → bit (mask j) k ≡ (if j == k then 1 else 0)
bit-mask zero zero = refl
bit-mask zero (suc k) = bit-suc 1 k ∙ bit_of_zero k ∙ ground arith
bit-mask (suc j) zero = ground (arith, pow-suc 2 j)
bit-mask (suc j) (suc k) =
    rw (bit-suc (mask (suc j)) k) (ap (λ (x : ℕ). bit x k) halves ∙ bit-mask j k ∙ ground arith)
  where
    halves : mask (suc j) / 2 ≡ mask j
    halves = omega (arith, pow-suc 2 j)

pub bit-complement : (w x k : ℕ) → x < 2 ^ w → k < w → bit (complement w x) k ≡ 1 - bit x k
bit-complement zero x k h l = absurd (omega arith)
bit-complement (suc w) x zero h l = omega (arith, pow-suc 2 w)
bit-complement (suc w) x (suc k) h l =
    rw (bit-suc (complement (suc w) x) k, bit-suc x k)
      (ap (λ (y : ℕ). bit y k) halves
        ∙ bit-complement w (x / 2) k (omega (arith, pow-suc 2 w)) (omega arith))
  where
    halves : complement (suc w) x / 2 ≡ complement w (x / 2)
    halves = omega (arith, pow-suc 2 w)

-- Setting a bit, `x |= 1 << j`, and clearing it, `x &= ~(1 << j)`.
pub bit-set : (x j k : ℕ) → bit (bit_or x (mask j)) k ≡ (if j == k then 1 else bit x k)
bit-set x j k = ground (arith, bit-or k x (mask j), bit-mask j k)

pub bit-clear :
    (w x j k : ℕ)
    → j < w
    → k < w
    → mask j < 2 ^ w
    → bit (bit_and x (complement w (mask j))) k ≡ (if j == k then 0 else bit x k)
bit-clear w x j k hj hk hm =
    ground
      (arith, bit-and k x (complement w (mask j)), bit-complement w (mask j) k hm hk, bit-mask j k)

pub mask-lt : {j w : ℕ} → j < w → mask j < 2 ^ w
mask-lt {j} {w} h =
    omega (arith, pow-suc 2 j, one-le-pow j 2, pow-le-pow_right {n = 2} (omega arith) h)

zero_of_lt : {a : ℕ} → a < 2 ^ 0 → a ≡ 0
zero_of_lt h = omega arith

zero-bit_and : (b : ℕ) → bit_and 0 b ≡ 0
zero-bit_and b = bit_and-bitwise 0 b

-- The results stay in the word.
pub bit_or-lt : (w a b : ℕ) → a < 2 ^ w → b < 2 ^ w → bit_or a b < 2 ^ w
bit_or-lt zero a b ha hb = rw (zero_of_lt ha, zero_of_lt hb) (omega arith)
bit_or-lt (suc w) a b ha hb = omega (
  arith,
  bit_or_step a b,
  pow-suc 2 w,
  bit_or-lt w (a / 2) (b / 2) (omega (arith, pow-suc 2 w)) (omega (arith, pow-suc 2 w)),
)

pub bit_and-lt : (w a b : ℕ) → a < 2 ^ w → bit_and a b < 2 ^ w
bit_and-lt zero a b ha = rw (zero_of_lt ha) (omega (arith, bit_and_step 0 b, zero-bit_and b))
bit_and-lt (suc w) a b ha = omega (
  arith,
  bit_and_step a b,
  pow-suc 2 w,
  bit_and-lt w (a / 2) (b / 2) (omega (arith, pow-suc 2 w)),
)

-- `x & ~(2^k - 1)` clears the low `k` bits.
bit_and-ones : (w x : ℕ) → x < 2 ^ w → bit_and x (2 ^ w - 1) ≡ x
bit_and-ones zero x h = rw (zero_of_lt h) (zero-bit_and 0)
bit_and-ones (suc w) x h =
    ground (arith, bit_and_step x (2 ^ suc w - 1), pow-suc 2 w, half, bit_and-ones w (x / 2))
  where
    half : (2 ^ suc w - 1) / 2 ≡ 2 ^ w - 1
    half = omega (arith, pow-suc 2 w)

pub bit_and_high :
    (k w x : ℕ) → x < 2 ^ w → k ≤ w → bit_and x (complement w (2 ^ k - 1)) ≡ x / 2 ^ k * 2 ^ k
bit_and_high zero w x h l =
    let low : complement w (2 ^ 0 - 1) ≡ 2 ^ w - 1 = omega arith in
    rw low (bit_and-ones w x h ∙ omega arith)
bit_and_high (suc k) zero x h l = absurd (omega arith)
bit_and_high (suc k) (suc w) x h l =
    bit_and_step x (complement (suc w) (2 ^ suc k - 1))
    ∙ ap₂ (λ (y z : ℕ). 2 * bit_and (x / 2) y + z) half low
    ∙ ap (λ (y : ℕ). 2 * y + 0)
        (bit_and_high k w (x / 2) (omega (arith, pow-suc 2 w)) (omega arith))
    ∙ grouped
  where
    fits : 2 ^ k ≤ 2 ^ w
    fits = pow-le-pow_right {n = 2} (omega arith) (suc-le-suc_iff.0 l)

    half : complement (suc w) (2 ^ suc k - 1) / 2 ≡ complement w (2 ^ k - 1)
    half = omega (arith, pow-suc 2 w, pow-suc 2 k, fits, one-le-pow k 2)

    low : min (x % 2) (complement (suc w) (2 ^ suc k - 1) % 2) ≡ 0
    low = omega (arith, pow-suc 2 w, pow-suc 2 k, fits, one-le-pow k 2)

    grouped : 2 * (x / 2 / 2 ^ k * 2 ^ k) + 0 ≡ x / 2 ^ suc k * 2 ^ suc k
    grouped =
        let two : 2 ^ suc k ≡ 2 * 2 ^ k = omega (arith, pow-suc 2 k) in
        rw (two, div-div-eq-div-mul x 2 (2 ^ k)) (grind arith)
