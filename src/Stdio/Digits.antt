-- ===== src/Stdio/Digits.antt =====
-- The digits that `kprintf_uint` prints are those of the number.
use mathlib.Core.List.{append-nil, append_assoc}
use tet_os.Prelude.Distinct.{All}
use tet_os.Prelude.{
  ◌⊎◌, true, subst, if_cases, ℕ, zero, suc, ◌+◌, ◌-◌, ◌*◌, ◌/◌, ◌%◌, ◌^◌, ◌≤◌, ◌<◌, ◌≡◌, ◌≢◌, refl,
  sym, ap, ap₂, ◌∙◌, List, [], ◌∷◌, ◌++◌, arith, length, ltb, ◌==◌, if◌then◌else◌, update,
  update_ne, update_self, Bool-cases, inl, inr,
}
use native.Mathlib.Nat.{pow-suc, div-add-mod', mod-lt}
use tet_os.Vga.{Vga, vga_putchar}
use tet_os.Stdio.{Console, put_both, digit_char, digits_loop, print_digits, kprintf_uint}

-- The digit that a character stands for, and the number that a text stands for behind `acc`.
abbrev pub digit_of : ℕ → ℕ
digit_of c = if ltb c 58 then c - 48 else c - 87

abbrev pub read_digits : ℕ → ℕ → List ℕ → ℕ
read_digits base acc [] = acc
read_digits base acc (c ∷ cs) = read_digits base (acc * base + digit_of c) cs

-- The first `i` cells, the last one first.
abbrev rev_cells : ℕ → (ℕ → ℕ) → List ℕ
rev_cells zero buf = []
rev_cells (suc i) buf = buf i ∷ rev_cells i buf

length-rev_cells : (i : ℕ) (buf : ℕ → ℕ) → length (rev_cells i buf) ≡ i
length-rev_cells zero buf = refl
length-rev_cells (suc i) buf = ap suc (length-rev_cells i buf)

rev_cells-update :
    (i j : ℕ) (buf : ℕ → ℕ) (x : ℕ) → i ≤ j → rev_cells i (update buf j x) ≡ rev_cells i buf
rev_cells-update zero j buf x l = refl
rev_cells-update (suc i) j buf x l =
    ap₂ ◌∷◌ (update_ne buf j i x (omega arith)) (rev_cells-update i j buf x (omega arith))

digit_of-digit_char : (d : ℕ) → d < 16 → digit_of (digit_char d) ≡ d
unfolding digit_char
digit_of-digit_char d l = ground arith

quotient_low : (v base n : ℕ) → 2 ≤ base → v < 2 ^ suc n → v / base < 2 ^ n
quotient_low v base n l m =
    let two : base ≡ base - 2 + 2 = omega arith in
    let split : v / base * (base - 2 + 2) ≡ v / base * (base - 2) + v / base * 2 = omega arith in
    let whole : v / base * (base - 2 + 2) + v % base ≡ v =
      ap (λ (z : ℕ). v / base * z + v % base) (sym two) ∙ div-add-mod' v base in
    omega (arith, split, whole, pow-suc 2 n)

-- A digit that is read back: what `value` has lost by the division.
read_first :
    (value base i : ℕ) (buf : ℕ → ℕ)
    → 2 ≤ base
    → base ≤ 16
    → read_digits base (value / base) (rev_cells (suc i) (update buf i (digit_char (value % base))))
      ≡ read_digits base value (rev_cells i buf)
read_first value base i buf l m =
    let x = digit_char (value % base) in
    let some_base : 0 < base = omega arith in
    let low : value % base < base = mod-lt value some_base in
    let digit : digit_of (update buf i x i) ≡ value % base =
      ap digit_of (update_self buf i x) ∙ digit_of-digit_char (value % base) (omega (arith, low)) in
    ap₂ (read_digits base) (ap (λ z. value / base * base + z) digit ∙ div-add-mod' value base)
      (rev_cells-update i i buf x (omega arith))

digits_value :
    (fuel value base i : ℕ) (buf : ℕ → ℕ)
    → 2 ≤ base
    → base ≤ 16
    → value < 2 ^ fuel
    → let (i', buf') = digits_loop fuel value base i buf in
      (read_digits base 0 (rev_cells i' buf') ≡ read_digits base value (rev_cells i buf))
      × (i ≤ i')
      × (i' ≤ i + fuel)
unfolding digits_loop
digits_value zero value base i buf l m below =
    let none : value ≡ 0 = omega arith in
    (ap (λ v. read_digits base v (rev_cells i buf)) (sym none), omega arith, omega arith)
digits_value (suc fuel) value base i buf l m below = elim (Bool-cases (ltb 0 value)) [
  | inl go ↦
      let x = digit_char (value % base) in
      let (read, low, high) =
        digits_value fuel (value / base) base (suc i) (update buf i x) l m
          (quotient_low value base fuel l below) in
      rw go (read ∙ read_first value base i buf l m, omega (arith, low), omega (arith, high))
  | inr stop ↦
      let none : value ≡ 0 = ground (arith, stop) in
      rw stop (ap (λ v. read_digits base v (rev_cells i buf)) (sym none), omega arith, omega arith)
]

-- The console after the characters of a text.
abbrev pub shown : List ℕ → Vga → Vga
shown [] v = v
shown (c ∷ cs) v = shown cs (vga_putchar c v)

print_digits_lem :
    (i : ℕ) (buf : ℕ → ℕ) (s : Console)
    → ((print_digits i buf s).serial ≡ s.serial ++ rev_cells i buf)
      × ((print_digits i buf s).vga ≡ shown (rev_cells i buf) s.vga)
unfolding print_digits put_both
print_digits_lem zero buf s = (sym (append-nil s.serial), refl)
print_digits_lem (suc i) buf s =
    let (serial, vga) = print_digits_lem i buf (put_both (buf i) s) in
    (serial ∙ append_assoc s.serial (buf i ∷ []) (rev_cells i buf), vga)

longer : (base : ℕ) (text : List ℕ) → read_digits base 0 text ≢ 0 → 0 < length text
longer base [] other = absurd (other refl)
longer base (c ∷ cs) other = omega arith

-- A lower-case digit of the base.
abbrev pub IsDigit : ℕ → ℕ → Type 0
IsDigit base c = (((48 ≤ c) × (c ≤ 57)) ⊎ ((97 ≤ c) × (c ≤ 102))) × (digit_of c < base)

digit_char-IsDigit : (base d : ℕ) → base ≤ 16 → d < base → IsDigit base (digit_char d)
unfolding digit_char
digit_char-IsDigit base d m l = (ground arith, ground arith)

digits_loop-digits :
    (fuel value base i : ℕ) (buf : ℕ → ℕ)
    → 2 ≤ base
    → base ≤ 16
    → All (IsDigit base) (rev_cells i buf)
    → let (i', buf') = digits_loop fuel value base i buf in All (IsDigit base) (rev_cells i' buf')
unfolding digits_loop
digits_loop-digits zero value base i buf l m h = h
digits_loop-digits (suc fuel) value base i buf l m h =
    let x = digit_char (value % base) in
    let some_base : 0 < base = omega arith in
    let first : IsDigit base (update buf i x i) =
      subst (IsDigit base) (sym (update_self buf i x))
        (digit_char-IsDigit base (value % base) m (mod-lt value some_base)) in
    let others = subst (All (IsDigit base)) (sym (rev_cells-update i i buf x (omega arith))) h in
    let rest =
      digits_loop-digits fuel (value / base) base (suc i) (update buf i x) l m (first, others) in
    if_cases (λ (r : ℕ × (ℕ → ℕ)). All (IsDigit base) (rev_cells r.0 r.1)) (ltb 0 value)
      (λ go. rest) (λ stop. h)

digits_loop_stop : (fuel base i : ℕ) (buf : ℕ → ℕ) → digits_loop fuel 0 base i buf ≡ (i, buf)
unfolding digits_loop
digits_loop_stop zero base i buf = refl
digits_loop_stop (suc fuel) base i buf = refl

-- The first character.
abbrev pub leading : List ℕ → ℕ
leading [] = 0
leading (c ∷ cs) = c

-- The highest digit is not 0.
digits_loop-leading :
    (fuel value base i : ℕ) (buf : ℕ → ℕ)
    → 2 ≤ base
    → base ≤ 16
    → value < 2 ^ fuel
    → value ≢ 0
    → let (i', buf') = digits_loop fuel value base i buf in leading (rev_cells i' buf') ≢ 48
unfolding digits_loop digit_char
digits_loop-leading zero value base i buf l m below some = absurd (omega arith)
digits_loop-leading (suc fuel) value base i buf l m below some =
    let x = digit_char (value % base) in
    let go : ltb 0 value ≡ true = ground (arith, some) in
    let some_base : 0 < base = omega arith in
    elim (Bool-cases (value / base == 0)) [
      | inl last ↦
          let none : value / base ≡ 0 = ground (arith, last) in
          let whole : 0 * base + value % base ≡ value =
            ap (λ (z : ℕ). z * base + value % base) (sym none) ∙ div-add-mod' value base in
          let same : value % base ≡ value = omega (arith, whole) in
          rw (go, none, digits_loop_stop fuel base (suc i) (update buf i x))
            (λ e.
              let shown : digit_char (value % base) ≡ 48 = sym (update_self buf i x) ∙ e in
              ground (arith, shown, same, some, mod-lt value some_base))
      | inr more ↦ rw go (
          digits_loop-leading fuel (value / base) base (suc i) (update buf i x) l m
            (quotient_low value base fuel l below) (ground (arith, more)))
    ]

-- For a 32-bit number, in a base from 2 to 16, `kprintf_uint` prints the same text to the console
-- and to the serial port; it has from 1 to 32 characters, which are digits of that base in lower
-- case; read in that base it is the number; and it is "0" or does not begin with a 0.
pub kprintf_uint_lem :
    (value base : ℕ) (s : Console)
    → value < 2 ^ 32
    → 2 ≤ base
    → base ≤ 16
    → (text : List ℕ) × ((kprintf_uint value base s).serial ≡ s.serial ++ text)
      × ((kprintf_uint value base s).vga ≡ shown text s.vga)
      × (read_digits base 0 text ≡ value)
      × (0 < length text)
      × (length text ≤ 32)
      × All (IsDigit base) text
      × ((text ≡ 48 ∷ []) ⊎ (leading text ≢ 48))
unfolding kprintf_uint put_both
kprintf_uint_lem value base s below l m = elim (Bool-cases (value == 0)) [
  | inl none ↦
      let is_zero : value ≡ 0 = ground (arith, none) in
      rw none (
        48 ∷ [],
        refl,
        refl,
        omega (arith, is_zero),
        omega arith,
        omega arith,
        ((inl (omega arith, omega arith), omega arith), tt),
        inl refl,
      )
  | inr some ↦
      let (i, buf) = digits_loop 32 value base 0 (λ j. 0) in
      let (read, low, high) = digits_value 32 value base 0 (λ j. 0) l m below in
      let (serial, vga) = print_digits_lem i buf s in
      let sized = length-rev_cells i buf in
      let nonzero : value ≢ 0 = ground (arith, some) in
      rw some (
        rev_cells i buf,
        serial,
        vga,
        read,
        longer base (rev_cells i buf) (λ e. nonzero (sym read ∙ e)),
        omega (arith, sized, high),
        digits_loop-digits 32 value base 0 (λ j. 0) l m tt,
        inr (digits_loop-leading 32 value base 0 (λ j. 0) l m below nonzero),
      )
]
