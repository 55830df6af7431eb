-- ===== src/Prelude/Mem.antt =====
-- Arrays and memory as functions from an index, with the word arithmetic that the kernel does.
use Prim.Native.Nat.{ℕ, zero, suc, ◌+◌, ◌-◌, ◌%◌, ◌^◌, ◌<◌}
use mathlib.Core.Path.{◌≡◌, ap}
use mathlib.Core.List.{List, [], ◌∷◌}
use mathlib.Core.Logic.{◌≢◌}
use native.Mathlib.Omega.{arith}
use tet_os.Prelude.Tests.{◌==◌, if◌then◌else◌}

-- A write to one cell.
abbrev pub update {ℓ} : {A : Type ℓ} → (ℕ → A) → ℕ → A → ℕ → A
update f i v j = if i == j then v else f j

-- `uint32_t` addition and subtraction, and the cast to `uint8_t`, `uint16_t` and `uint32_t`.
abbrev pub add32 : ℕ → ℕ → ℕ
add32 a b = (a + b) % 2 ^ 32

abbrev pub sub32 : ℕ → ℕ → ℕ
sub32 a b = (a + 2 ^ 32 - b % 2 ^ 32) % 2 ^ 32

abbrev pub u8 : ℕ → ℕ
u8 a = a % 2 ^ 8

abbrev pub u16 : ℕ → ℕ
u16 a = a % 2 ^ 16

abbrev pub u32 : ℕ → ℕ
u32 a = a % 2 ^ 32

module _ {ℓ} {A : Type ℓ} where
  pub update_self : (f : ℕ → A) (i : ℕ) (v : A) → update f i v i ≡ v
  update_self f i v = ground arith

  pub update_ne : (f : ℕ → A) (i j : ℕ) (v : A) → i ≢ j → update f i v j ≡ f j
  update_ne f i j v h = ground arith

-- The `n` cells of a memory from `i` on, as a list.
module _ {ℓ} {A : Type ℓ} where
  abbrev pub cells_at : (ℕ → A) → ℕ → ℕ → List A
  cells_at m i zero = []
  cells_at m i (suc n) = m i ∷ cells_at m (i + 1) n

  pub cells_at-ne_zero :
      (m : ℕ → A) (i n : ℕ) → 0 < n → cells_at m i n ≡ m i ∷ cells_at m (i + 1) (n - 1)
  cells_at-ne_zero m i zero h = absurd (omega arith)
  cells_at-ne_zero m i (suc n) h = ap (λ k. m i ∷ cells_at m (i + 1) k) (omega arith)
