-- ===== src/Vga/Text.antt =====
-- Text on the screen.
use native.Mathlib.Decide.{dec_le, ℕ_discrete}
use tet_os.Bits.Split.{bit_or-split, zero-bit_or}
use tet_os.Prelude.{
  ==_iff, holds_below, holds_below-lt, u16, bit_or, ◌*◌, ◌^◌, if_cases, true, subst, ℕ, zero, suc,
  ◌+◌, ◌-◌, ◌<◌, ◌≡◌, ◌≢◌, refl, sym, ◌∙◌, ap, ◌&&◌, false, arith, ltb, leb, ◌==◌, if◌then◌else◌,
  update, add32, Bool-cases, inl, inr,
}
use tet_os.Vga.{Vga, vga_entry, put_cell, vga_putchar, vga_write_loop, vga_write}

-- A byte that `vga_putchar` shows, and that does not end a string.
abbrev pub IsPlain : ℕ → Type 0
IsPlain c = (c ≢ 0) × (c ≢ 8) × (c ≢ 10) × (c ≢ 13) × (c < 256)

-- The cell of a character: its colour above it; all bits of the colour are set from 0x80 on.
abbrev pub cell_of : ℕ → ℕ → ℕ
cell_of c color = if ltb c 128 then color * 256 + c else 0xFF00 + c

put_plain :
    (c : ℕ) (v : Vga)
    → IsPlain c
    → v.vga_index + 1 < 4000
    → vga_putchar c v ≡ record v {
      vga_buffer = update v.vga_buffer v.vga_index (vga_entry c v.vga_current_color);
      vga_index = v.vga_index + 1;
    }
unfolding vga_putchar put_cell
put_plain c v (nul, back, feed, return, byte) l =
    let next : add32 v.vga_index 1 ≡ v.vga_index + 1 = omega arith in
    let is_feed : (c == 10) ≡ false = ground (arith, feed) in
    let is_return : (c == 13) ≡ false = ground (arith, return) in
    let is_back : (c == 8) ≡ false = ground (arith, back) in
    let inside : leb 4000 (v.vga_index + 1) ≡ false = ground arith in
    rw (vga_putchar, is_feed, is_return, is_back, put_cell, next, inside) refl

-- The cell that the first character takes, before the other `n`.
shown :
    (str : ℕ → ℕ) (v : Vga) (i j n : ℕ)
    → (if leb (v.vga_index + 1) j && ltb j (v.vga_index + 1 + n)
        then vga_entry (str (i + 1 + (j - (v.vga_index + 1)))) v.vga_current_color
        else update v.vga_buffer v.vga_index (vga_entry (str i) v.vga_current_color) j)
      ≡ (if leb v.vga_index j && ltb j (v.vga_index + suc n)
          then vga_entry (str (i + (j - v.vga_index))) v.vga_current_color
          else v.vga_buffer j)
shown str v i j n = elim (dec_le (v.vga_index + 1) j) [
  | yes above ↦
      let same : i + 1 + (j - (v.vga_index + 1)) ≡ i + (j - v.vga_index) = omega arith in
      rw same (ground arith)
  | no low ↦ elim (ℕ_discrete v.vga_index j) [
    | yes here ↦
        let same : i + (j - v.vga_index) ≡ i = omega (arith, here) in rw same (ground (arith, here))
    | no other ↦ ground (arith, other)
  ]
]

write_plain :
    (n i fuel : ℕ) (str : ℕ → ℕ) (v : Vga)
    → v.vga_index + n < 4000
    → ((k : ℕ) → k < n → IsPlain (str (i + k)))
    → str (i + n) ≡ 0
    → n < fuel
    → ((vga_write_loop fuel i str v).vga_index ≡ v.vga_index + n)
      × ((j : ℕ)
          → (vga_write_loop fuel i str v).vga_buffer j ≡ (
              if leb v.vga_index j && ltb j (v.vga_index + n)
              then vga_entry (str (i + (j - v.vga_index))) v.vga_current_color
              else v.vga_buffer j))
unfolding vga_write_loop
write_plain n i zero str v l plain end f = absurd (omega arith)
write_plain zero i (suc fuel) str v l plain end f =
    let at : i + 0 ≡ i = omega arith in
    let stop : (str i == 0) ≡ true = ground (arith, ap str (sym at) ∙ end) in
    rw stop (omega arith, λ j. ground arith)
write_plain (suc n) i (suc fuel) str v l plain end f =
    let at : i + 0 ≡ i = omega arith in
    let behind : (k : ℕ) → i + suc k ≡ i + 1 + k = λ k. omega arith in
    let first : IsPlain (str i) = subst (λ k. IsPlain (str k)) at (plain 0 (omega arith)) in
    let go : (str i == 0) ≡ false = ground (arith, first.0) in
    let put = record v {
      vga_buffer = update v.vga_buffer v.vga_index (vga_entry (str i) v.vga_current_color);
      vga_index = v.vga_index + 1;
    } in
    let (index, cells) =
      write_plain n (i + 1) fuel str put (omega arith)
        (λ k m. subst (λ a. IsPlain (str a)) (behind k) (plain (suc k) (omega arith)))
        (ap str (sym (behind n)) ∙ end) (omega arith) in
    rw (go, put_plain (str i) v first (omega arith))
      (omega (arith, index), λ j. cells j ∙ shown str v i j n)

full : (color : ℕ) → color < 256 → bit_or 255 color ≡ 255
unfolding holds_below
full color l =
    (==_iff (bit_or 255 color) 255).0 (holds_below-lt 256 (λ x. bit_or 255 x == 255) color refl l)

-- The colour of a character with the top bit set is lost, as `char` is signed and the cast fills the
-- byte of the colour with ones; the cell of any other character holds the colour above it.
pub vga_entry_lem :
    (c color : ℕ)
    → c < 256
    → color < 256
    → vga_entry c color ≡ (if ltb c 128 then color * 256 + c else 0xFF00 + c)
unfolding vga_entry
vga_entry_lem c color l m =
    if_cases
      (λ e. u16 (bit_or e (color * 2 ^ 8)) ≡ (if ltb c 128 then color * 256 + c else 0xFF00 + c))
      (ltb c 128)
      (λ h.
        let low : bit_or c (color * 2 ^ 8) ≡ color * 2 ^ 8 + c =
          ap (λ x. bit_or x (color * 2 ^ 8)) (omega arith)
          ∙ bit_or-split 8 0 color c l
          ∙ ap (λ x. x * 2 ^ 8 + c) (zero-bit_or color) in
        rw (h, low) (omega arith))
      (λ h.
        let ones : bit_or 255 color ≡ 255 = full color m in
        let high : bit_or (c + 0xFF00) (color * 2 ^ 8) ≡ 255 * 2 ^ 8 + c =
          ap (λ x. bit_or x (color * 2 ^ 8)) (omega arith)
          ∙ bit_or-split 8 255 color c l
          ∙ ap (λ x. x * 2 ^ 8 + c) ones in
        rw (h, high) (omega arith))

-- A text of `n` characters to be shown, none of them a control character, that ends before the last
-- cell of the screen, appears behind the cursor, and moves the cursor by `n`; no other cell changes.
-- A cell holds the character below its colour, which is the current one, except that a character of
-- 0x80 or more gets the colour 0xFF.
pub vga_write_lem :
    (n fuel : ℕ) (str : ℕ → ℕ) (v : Vga)
    → v.vga_index + n < 4000
    → v.vga_current_color < 256
    → ((k : ℕ) → k < n → IsPlain (str k))
    → str n ≡ 0
    → n < fuel
    → ((vga_write fuel str v).vga_index ≡ v.vga_index + n)
      × ((j : ℕ)
          → (vga_write fuel str v).vga_buffer j ≡ (
              if leb v.vga_index j && ltb j (v.vga_index + n)
              then cell_of (str (j - v.vga_index)) v.vga_current_color
              else v.vga_buffer j))
unfolding vga_write
vga_write_lem n fuel str v l color plain end f =
    let at : (k : ℕ) → k ≡ 0 + k = λ k. omega arith in
    let (index, cells) =
      write_plain n 0 fuel str v l (λ k m. subst (λ a. IsPlain (str a)) (at k) (plain k m))
        (ap str (sym (at n)) ∙ end) f in
    (
      index,
      λ j. cells j ∙ elim (Bool-cases (leb v.vga_index j && ltb j (v.vga_index + n))) [
        | inl inside ↦
            let within : j - v.vga_index < n = ground (arith, inside) in
            rw inside (
              ap (λ a. vga_entry (str a) v.vga_current_color) (sym (at (j - v.vga_index)))
              ∙ vga_entry_lem (str (j - v.vga_index)) v.vga_current_color
                  (plain (j - v.vga_index) within).4 color)
        | inr outside ↦ rw outside refl
      ],
    )
