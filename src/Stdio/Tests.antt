-- ===== src/Stdio/Tests.antt =====
-- kernel/stdio/stdio.c on concrete inputs.
use tet_os.Prelude.{◌⊎◌, ◌≢◌, ℕ, ◌≡◌, ◌≤◌, ◌<◌, refl, List, [], ◌∷◌, ◌++◌, arith, length, get_or}
use tet_os.Prelude.Distinct.{All}
use tet_os.Stdio.{
  Console, put_both, digit_char, digits_loop, print_digits, kprintf_uint, kprintf_int, va_arg,
  directive, vprintk, printk,
}
use tet_os.Stdio.Digits.{IsDigit, leading, read_digits, shown, kprintf_uint_lem}
use tet_os.Prelude.Int.{◌-ℤ◌}

abbrev idle : Console
idle = record {
  vga = record { vga_buffer = λ i. 0; vga_index = 0; vga_current_color = 15 };
  serial = [];
}

kprintf_uint_lem_example :
    (text : List ℕ) × ((kprintf_uint 48879 16 idle).serial ≡ [] ++ text)
    × ((kprintf_uint 48879 16 idle).vga ≡ shown text idle.vga)
    × (read_digits 16 0 text ≡ 48879)
    × (0 < length text)
    × (length text ≤ 32)
    × All (IsDigit 16) text
    × ((text ≡ 48 ∷ []) ⊎ (leading text ≢ 48))
kprintf_uint_lem_example = kprintf_uint_lem 48879 16 idle (omega arith) (omega arith) (omega arith)

-- "%d=%x" with -5 and 255
abbrev format : ℕ → ℕ
format i = get_or (37 ∷ 100 ∷ 61 ∷ 37 ∷ 120 ∷ []) i 0

printed :
    (printk 0 9 (λ i. 0) format (4294967291 ∷ 255 ∷ []) idle).serial ≡ 45 ∷ 53 ∷ 61 ∷ 102 ∷ 102 ∷ []
unfolding printk vprintk directive va_arg kprintf_int kprintf_uint print_digits digits_loop
    digit_char put_both ◌-ℤ◌
printed = refl
