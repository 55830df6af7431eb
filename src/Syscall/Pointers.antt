-- ===== src/Syscall/Pointers.antt =====
-- Which pointers `validate_user_ptr` lets through.
use tet_os.Prelude.{ℕ, zero, suc, ◌+◌, ◌-◌, ◌^◌, ◌≤◌, ◌<◌, ◌≡◌, ◌↔◌, true, arith}
use tet_os.Syscall.{validate_user_ptr}

accepted :
    (p len : ℕ)
    → p < 2 ^ 32
    → len < 2 ^ 32
    → validate_user_ptr p len ≡ true
    → (0x1000 ≤ p) × (p ≤ 0xBFFFFFFF) × (p + (len - 1) ≤ 0xBFFFFFFF)
unfolding validate_user_ptr
accepted p len l m ok = (ground arith, ground arith, ground arith)

in_range :
    (p len : ℕ)
    → 0x1000 ≤ p
    → p ≤ 0xBFFFFFFF
    → p + (len - 1) ≤ 0xBFFFFFFF
    → validate_user_ptr p len ≡ true
unfolding validate_user_ptr
in_range p len l m n = ground arith

last_byte :
    (p len : ℕ)
    → p ≤ 0xBFFFFFFF
    → ((k : ℕ) → k < len → p + k ≤ 0xBFFFFFFF)
    → p + (len - 1) ≤ 0xBFFFFFFF
last_byte p zero high bytes = omega arith
last_byte p (suc n) high bytes = omega (arith, bytes n (omega arith))

-- Of a 32-bit pointer and length, `validate_user_ptr` accepts exactly those whose pointer lies in
-- the user's range and whose bytes all do, without a wrap around the end of memory.
pub validate_user_ptr_lem :
    (p len : ℕ)
    → p < 2 ^ 32
    → len < 2 ^ 32
    → (validate_user_ptr p len ≡ true)
      ↔ ((0x1000 ≤ p) × (p ≤ 0xBFFFFFFF) × ((k : ℕ) → k < len → p + k ≤ 0xBFFFFFFF))
validate_user_ptr_lem p len l m = (
  (λ ok. let (low, high, end) = accepted p len l m ok in (low, high, λ k h. omega (arith, end))),
  (λ (low, high, bytes). in_range p len low high (last_byte p len high bytes)),
)
