-- ===== src/Strings/Memory.antt =====
-- The functions of kernel/string/string.c that walk over memory, a function from the address of a
-- byte. Addresses do not wrap.
pub mod Copy
pub mod Length
use tet_os.Prelude.{ℕ, zero, suc, ◌+◌, ◌-◌, not, ◌==◌, if◌then◌else◌, update, u8}
use tet_os.Prelude.Int.{ℤ, pos, sub_ℕ}

-- `while (str[len]) len++` from `len` on; the fuel bounds the bytes.
unfoldable pub strlen_loop : ℕ → (ℕ → ℕ) → ℕ → ℕ → ℕ
strlen_loop zero m str len = len
strlen_loop (suc fuel) m str len =
    let rest = strlen_loop fuel m str (len + 1) in if not (m (str + len) == 0) then rest else len

unfoldable pub strlen : ℕ → (ℕ → ℕ) → ℕ → ℕ
strlen fuel m str = strlen_loop fuel m str 0

-- `while (*src) *dest++ = *src++; *dest = '\0'`
unfoldable pub strcpy : ℕ → ℕ → ℕ → (ℕ → ℕ) → ℕ → ℕ
strcpy zero dest src m = update m dest 0
strcpy (suc fuel) dest src m =
    let rest = strcpy fuel (dest + 1) (src + 1) (update m dest (m src)) in
    if not (m src == 0) then rest else update m dest 0

-- `while (*dest) dest++`, and then the loop that `strcpy` has as well.
unfoldable pub strcat : ℕ → ℕ → ℕ → (ℕ → ℕ) → ℕ → ℕ
strcat fuel dest src m = strcpy fuel (dest + strlen fuel m dest) src m

unfoldable pub memset : ℕ → ℕ → ℕ → (ℕ → ℕ) → ℕ → ℕ
memset ptr value zero m = m
memset ptr value (suc num) m = memset (ptr + 1) value num (update m ptr (u8 value))

unfoldable pub memcpy : ℕ → ℕ → ℕ → (ℕ → ℕ) → ℕ → ℕ
memcpy dest src zero m = m
memcpy dest src (suc num) m = memcpy (dest + 1) (src + 1) num (update m dest (m src))

unfoldable pub memcmp : ℕ → ℕ → ℕ → (ℕ → ℕ) → ℤ
memcmp ptr1 ptr2 zero m = pos 0
memcmp ptr1 ptr2 (suc num) m =
    let rest = memcmp (ptr1 + 1) (ptr2 + 1) num m in
    if not (m ptr1 == m ptr2) then sub_ℕ (m ptr1) (m ptr2) else rest
