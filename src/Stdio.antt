-- ===== src/Stdio.antt =====
-- kernel/stdio/stdio.c: formatted printing, to the text console and to the serial port. What was sent
-- to the serial port is a list; the registers of the port are left out.
pub mod Digits
mod Tests
use tet_os.Prelude.{
  ℕ, zero, suc, ◌+◌, ◌/◌, ◌%◌, List, [], ◌∷◌, ◌++◌, not, ◌&&◌, ◌||◌, ◌==◌, if◌then◌else◌, ltb,
  update, u8,
}
use tet_os.Prelude.Int.{ℤ, pos, ◌-ℤ◌, ltb_ℤ, signed32, unsigned32}
use tet_os.Vga.{Vga, vga_putchar, vga_write}

pub record Console : Type 0 where
  pub vga : Vga
  pub serial : List ℕ

-- `vga_putchar(c); serial_putchar(c);`
unfoldable pub put_both : ℕ → Console → Console
put_both c s = record s { vga = vga_putchar c s.vga; serial = s.serial ++ c ∷ [] }

unfoldable pub digit_char : ℕ → ℕ
digit_char digit = if ltb digit 10 then 48 + digit else 87 + digit

-- The first loop of `kprintf_uint`: the length of the number, and its digits from the lowest on.
unfoldable pub digits_loop : ℕ → ℕ → ℕ → ℕ → (ℕ → ℕ) → ℕ × (ℕ → ℕ)
digits_loop zero value base i buf = (i, buf)
digits_loop (suc fuel) value base i buf =
    let rest =
      digits_loop fuel (value / base) base (suc i) (update buf i (digit_char (value % base))) in
    if ltb 0 value then rest else (i, buf)

-- The second loop.
unfoldable pub print_digits : ℕ → (ℕ → ℕ) → Console → Console
print_digits zero buf s = s
print_digits (suc i) buf s = print_digits i buf (put_both (buf i) s)

-- 32 rounds fill the buffer; the digits of a 32-bit number are no more. The buffer is not set
-- before, and no cell is read that was not written.
unfoldable pub kprintf_uint : ℕ → ℕ → Console → Console
kprintf_uint value base s =
    let (i, buf) = digits_loop 32 value base 0 (λ j. 0) in
    if value == 0 then put_both 48 s else print_digits i buf s

unfoldable pub kprintf_int : ℤ → Console → Console
kprintf_int value s =
    if ltb_ℤ value (pos 0)
    then kprintf_uint (unsigned32 (pos 0 -ℤ value)) 10 (put_both 45 s)
    else kprintf_uint (unsigned32 value) 10 s

-- `serial_puts` of kernel/io/serial.c; the fuel is a bound of the length.
unfoldable pub serial_puts : ℕ → ℕ → (ℕ → ℕ) → List ℕ
serial_puts zero i str = []
serial_puts (suc fuel) i str =
    let rest = serial_puts fuel (i + 1) str in if str i == 0 then [] else str i ∷ rest

-- `va_arg`: the next word of the arguments; a missing one is taken as 0.
unfoldable pub va_arg : List ℕ → ℕ × List ℕ
va_arg [] = (0, [])
va_arg (a ∷ args) = (a, args)

-- The switch of `vprintk`. `mem` is the memory that strings stand in, and `len` bounds their length.
unfoldable pub directive : ℕ → (ℕ → ℕ) → ℕ → List ℕ → Console → List ℕ × Console
directive len mem d args s =
    let (a, args') = va_arg args in
    let text : ℕ → ℕ = λ i. mem (a + i) in
    if (d == 100) || (d == 105)
    then (args', kprintf_int (signed32 a) s)
    else if d == 117
    then (args', kprintf_uint a 10 s)
    else if d == 120
    then (args', kprintf_uint a 16 s)
    else if d == 115
    then (
      args',
      record s { vga = vga_write len text s.vga; serial = s.serial ++ serial_puts len 0 text },
    )
    else if d == 99
    then (args', put_both (u8 a) s)
    else if d == 37
    then (args, put_both 37 s)
    else (args, put_both d (put_both 37 s))

-- The loop of `vprintk` from the character `i` on; the fuel is a bound of the length.
unfoldable pub vprintk : ℕ → ℕ → (ℕ → ℕ) → ℕ → (ℕ → ℕ) → List ℕ → Console → Console
vprintk len zero mem i fmt args s = s
vprintk len (suc fuel) mem i fmt args s =
    let (args', s') = directive len mem (fmt (i + 1)) args s in
    let behind = vprintk len fuel mem (i + 2) fmt args' s' in
    let plain = vprintk len fuel mem (i + 1) fmt args (put_both (fmt i) s) in
    if fmt i == 0 then s else if (fmt i == 37) && not (fmt (i + 1) == 0) then behind else plain

unfoldable pub printk : ℕ → ℕ → (ℕ → ℕ) → (ℕ → ℕ) → List ℕ → Console → Console
printk len fuel mem fmt args s = vprintk len fuel mem 0 fmt args s
