-- ===== src/Syscall/Tests.antt =====
-- kernel/syscall/syscall.c on concrete inputs.
use tet_os.Prelude.{ℕ, ◌+◌, ◌≡◌, ◌≤◌, ◌<◌, ◌↔◌, refl, true, false, arith}
use tet_os.Syscall.{validate_user_ptr}
use tet_os.Syscall.Pointers.{validate_user_ptr_lem}

-- Sixteen bytes that end at the last byte of the user's range.
validate_user_ptr_lem_example : (validate_user_ptr 0xBFFFFFF0 16 ≡ true) ↔ (
    (0x1000 ≤ 0xBFFFFFF0)
    × (0xBFFFFFF0 ≤ 0xBFFFFFFF)
    × ((k : ℕ) → k < 16 → 0xBFFFFFF0 + k ≤ 0xBFFFFFFF))
validate_user_ptr_lem_example = validate_user_ptr_lem 0xBFFFFFF0 16 (omega arith) (omega arith)

edges :
    (validate_user_ptr 0xBFFFFFF0 16 ≡ true)
    × (validate_user_ptr 0xBFFFFFF0 17 ≡ false)
    × (validate_user_ptr 0x2000 0xFFFFFFFF ≡ false)
unfolding validate_user_ptr
edges = (refl, refl, refl)
