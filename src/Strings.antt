-- ===== src/Strings.antt =====
-- kernel/string/string.c. A C string is a function from the offset of a byte; a read behind its
-- terminator is a read of that function.
pub mod Compare
pub mod Memory
mod Tests
use tet_os.Prelude.{ℕ, zero, suc, ◌+◌, not, ◌&&◌, ◌||◌, ◌==◌, if◌then◌else◌}
use tet_os.Prelude.Int.{ℤ, sub_ℕ}

-- The loop of `strcmp` from offset `k` on. The fuel bounds the bytes it compares.
unfoldable pub strcmp_loop : ℕ → (ℕ → ℕ) → (ℕ → ℕ) → ℕ → ℤ
strcmp_loop zero str1 str2 k = sub_ℕ (str1 k) (str2 k)
strcmp_loop (suc fuel) str1 str2 k =
    let rest = strcmp_loop fuel str1 str2 (k + 1) in
    if not (str1 k == 0) && (str1 k == str2 k) then rest else sub_ℕ (str1 k) (str2 k)

unfoldable pub strcmp : ℕ → (ℕ → ℕ) → (ℕ → ℕ) → ℤ
strcmp fuel str1 str2 = strcmp_loop fuel str1 str2 0

-- The loop of `strncmp` from offset `k` on, the rounds left first.
unfoldable strncmp_loop : ℕ → (ℕ → ℕ) → (ℕ → ℕ) → ℕ → ℤ
strncmp_loop zero str1 str2 k = sub_ℕ 0 0
strncmp_loop (suc left) str1 str2 k =
    let rest = strncmp_loop left str1 str2 (k + 1) in
    if not (str1 k == str2 k) || (str1 k == 0) then sub_ℕ (str1 k) (str2 k) else rest

unfoldable strncmp : (ℕ → ℕ) → (ℕ → ℕ) → ℕ → ℤ
strncmp str1 str2 n = strncmp_loop n str1 str2 0
