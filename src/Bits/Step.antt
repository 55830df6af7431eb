-- ===== src/Bits/Step.antt =====
-- The lowest digit of `|` and `&`, from the digit recursion that the native operations stand for.
use Prim.Native.Nat.{digits, bit_and-bitwise, bit_or-bitwise}
use tet_os.Prelude.{
  ℕ, zero, suc, ◌+◌, ◌*◌, ◌/◌, ◌%◌, ◌≤◌, min, max, bit_and, bit_or, ◌≡◌, refl, ap, arith,
}

-- The recursion takes a fuel, which does not matter once it reaches the first word.
module _ (last : ℕ → ℕ) (digit : ℕ → ℕ → ℕ) where
  enough_fuel : (f g a b : ℕ) → a ≤ f → a ≤ g → digits last digit f a b ≡ digits last digit g a b
  enough_fuel zero zero a b h k = refl
  enough_fuel zero (suc g) zero b h k = refl
  enough_fuel (suc f) zero zero b h k = refl
  enough_fuel (suc f) (suc g) zero b h k = refl
  enough_fuel zero g (suc a) b h k = absurd (omega arith)
  enough_fuel (suc f) zero (suc a) b h k = absurd (omega arith)
  enough_fuel (suc f) (suc g) (suc a) b h k =
      let shorter = enough_fuel f g (suc a / 2) (b / 2) (omega arith) (omega arith) in
      ap (λ t. t * 2 + digit (suc a % 2) (b % 2)) shorter

abbrev or_digits : ℕ → ℕ → ℕ → ℕ
or_digits = digits (λ y. y) max

abbrev and_digits : ℕ → ℕ → ℕ → ℕ
and_digits = digits (λ _. zero) min

-- One step of either, on the halves.
pub bit_or_step : (x y : ℕ) → bit_or x y ≡ 2 * bit_or (x / 2) (y / 2) + max (x % 2) (y % 2)
bit_or_step zero y = omega (arith, bit_or-bitwise 0 y, bit_or-bitwise (0 / 2) (y / 2))
bit_or_step (suc x) y =
    let fuel =
      enough_fuel (λ z. z) max x (suc x / 2) (suc x / 2) (y / 2) (omega arith) (omega arith) in
    omega (arith, fuel, bit_or-bitwise (suc x) y, bit_or-bitwise (suc x / 2) (y / 2))

pub bit_and_step : (x y : ℕ) → bit_and x y ≡ 2 * bit_and (x / 2) (y / 2) + min (x % 2) (y % 2)
bit_and_step zero y = omega (arith, bit_and-bitwise 0 y, bit_and-bitwise (0 / 2) (y / 2))
bit_and_step (suc x) y =
    let fuel =
      enough_fuel (λ _. zero) min x (suc x / 2) (suc x / 2) (y / 2) (omega arith) (omega arith) in
    omega (arith, fuel, bit_and-bitwise (suc x) y, bit_and-bitwise (suc x / 2) (y / 2))
