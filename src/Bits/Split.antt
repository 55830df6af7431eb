-- ===== src/Bits/Split.antt =====
-- A word as its high and its low bits.
use Prim.Native.Nat.{bit_or-bitwise, bit_and-bitwise}
use native.Mathlib.Nat.{pow-suc, one-le-pow, div-div-eq-div-mul, div-add-mod'}
use tet_os.Prelude.{
  ◌≤◌, ℕ, zero, suc, ◌+◌, ◌-◌, ◌*◌, ◌/◌, ◌%◌, ◌^◌, ◌<◌, ◌≡◌, ap, ap₂, sym, ◌∙◌, max, min, bit_or,
  bit_and, arith,
}
use tet_os.Bits.Step.{bit_or_step, bit_and_step}

double : (a k : ℕ) → a * 2 ^ suc k ≡ 2 * (a * 2 ^ k)
double a k = rw (pow-suc 2 k) (omega arith)

-- The low `k` bits of one word stay beside the high bits of both.
pub bit_or-split :
    (k a b r : ℕ) → r < 2 ^ k → bit_or (a * 2 ^ k + r) (b * 2 ^ k) ≡ bit_or a b * 2 ^ k + r
bit_or-split zero a b r l =
    let left : a * 2 ^ 0 + r ≡ a = omega arith in
    let right : b * 2 ^ 0 ≡ b = omega arith in rw (left, right) (omega arith)
bit_or-split (suc k) a b r l =
    let left : (a * 2 ^ suc k + r) / 2 ≡ a * 2 ^ k + r / 2 = omega (arith, double a k) in
    let right : (b * 2 ^ suc k) / 2 ≡ b * 2 ^ k = omega (arith, double b k) in
    let low : max ((a * 2 ^ suc k + r) % 2) ((b * 2 ^ suc k) % 2) ≡ r % 2 =
      omega (arith, double a k, double b k) in
    let rest = bit_or-split k a b (r / 2) (omega (arith, pow-suc 2 k)) in
    bit_or_step (a * 2 ^ suc k + r) (b * 2 ^ suc k)
    ∙ ap₂ (λ (y z : ℕ). 2 * y + z) (ap₂ bit_or left right ∙ rest) low
    ∙ omega (arith, double (bit_or a b) k)

pub zero-bit_or : (a : ℕ) → bit_or 0 a ≡ a
zero-bit_or a = bit_or-bitwise 0 a

bit_or-zero_below : (n a : ℕ) → a ≤ n → bit_or a 0 ≡ a
bit_or-zero_below zero a l = let none : a ≡ 0 = omega arith in rw none (zero-bit_or 0)
bit_or-zero_below (suc n) a l =
    omega (arith, bit_or_step a 0, bit_or-zero_below n (a / 2) (omega arith))

pub bit_or-zero : (a : ℕ) → bit_or a 0 ≡ a
bit_or-zero a = bit_or-zero_below a a (omega arith)

bit_and-zero_below : (n x : ℕ) → x ≤ n → bit_and x 0 ≡ 0
bit_and-zero_below zero x l = let none : x ≡ 0 = omega arith in rw none (bit_and-bitwise 0 0)
bit_and-zero_below (suc n) x l =
    omega (arith, bit_and_step x 0, bit_and-zero_below n (x / 2) (omega arith))

low_step : (x k : ℕ) → 2 * (x / 2 % 2 ^ k) + x % 2 ≡ x % 2 ^ suc k
low_step x k =
    let same : x / 2 ^ suc k ≡ x / 2 / 2 ^ k =
      ap (λ (p : ℕ). x / p) (omega (arith, pow-suc 2 k)) ∙ sym (div-div-eq-div-mul x 2 (2 ^ k)) in
    let whole : x / 2 / 2 ^ k * 2 ^ suc k + x % 2 ^ suc k ≡ x =
      ap (λ q. q * 2 ^ suc k + x % 2 ^ suc k) (sym same) ∙ div-add-mod' x (2 ^ suc k) in
    omega (arith, whole, div-add-mod' (x / 2) (2 ^ k), double (x / 2 / 2 ^ k) k)

-- The low `k` bits of a word.
pub bit_and-low : (k x : ℕ) → bit_and x (2 ^ k - 1) ≡ x % 2 ^ k
bit_and-low zero x = bit_and-zero_below x x (omega arith) ∙ omega arith
bit_and-low (suc k) x =
    let half : (2 ^ suc k - 1) / 2 ≡ 2 ^ k - 1 = omega (arith, pow-suc 2 k) in
    let low : min (x % 2) ((2 ^ suc k - 1) % 2) ≡ x % 2 =
      omega (arith, pow-suc 2 k, one-le-pow k 2 (omega arith)) in
    bit_and_step x (2 ^ suc k - 1)
    ∙ ap₂ (λ (y z : ℕ). 2 * y + z) (ap (bit_and (x / 2)) half ∙ bit_and-low k (x / 2)) low
    ∙ low_step x k
