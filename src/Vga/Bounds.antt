-- ===== src/Vga/Bounds.antt =====
-- No text leads out of the screen.
use tet_os.Prelude.{
  min, ap₂, ℕ, zero, suc, ◌+◌, ◌≤◌, ◌<◌, ◌≡◌, refl, ◌∙◌, arith, leb, ◌==◌, update, add32, if_cases,
}
use tet_os.Vga.{
  Vga, vga_entry, vga_newline, put_cell, erase_cell, vga_putchar, vga_write_loop, vga_write,
  vga_set_cursor, vga_get_cursor,
}
use tet_os.Vga.Cells.{vga_newline_lem}

-- `w` is on the screen, and has the same cells behind the screen as `v`.
abbrev pub IsInside : Vga → Vga → Type 0
IsInside v w = (w.vga_index < 4000) × ((j : ℕ) → 4000 ≤ j → w.vga_buffer j ≡ v.vga_buffer j)

newline-IsInside : (v : Vga) → v.vga_index ≤ 4000 → IsInside v (vga_newline v)
newline-IsInside v l =
    let (at, color, cells) = vga_newline_lem v l in
    (omega (arith, at), λ j m. ground (arith, cells j))

put_cell-IsInside : (c : ℕ) (v : Vga) → v.vga_index < 4000 → IsInside v (put_cell c v)
unfolding put_cell
put_cell-IsInside c v l =
    let put = record v {
      vga_buffer = update v.vga_buffer v.vga_index (vga_entry c v.vga_current_color);
      vga_index = add32 v.vga_index 1;
    } in
    let (low, same) = newline-IsInside put (omega arith) in
    if_cases (IsInside v) (leb 4000 put.vga_index) (λ h. (low, λ j m. same j m ∙ ground arith))
      (λ h. (ground (arith, h), λ j m. ground arith))

erase_cell-IsInside : (v : Vga) → v.vga_index < 4000 → IsInside v (erase_cell v)
unfolding erase_cell
erase_cell-IsInside v l =
    if_cases (IsInside v) (v.vga_index == 0) (λ h. (l, λ j m. refl))
      (λ h. (omega arith, λ j m. ground arith))

putchar-IsInside : (c : ℕ) (v : Vga) → v.vga_index < 4000 → IsInside v (vga_putchar c v)
unfolding vga_putchar
putchar-IsInside c v l =
    if_cases (IsInside v) (c == 10) (λ h. newline-IsInside v (omega arith))
      (λ h.
        if_cases (IsInside v) (c == 13) (λ h. (omega arith, λ j m. refl))
          (λ h.
            if_cases (IsInside v) (c == 8) (λ h. erase_cell-IsInside v l)
              (λ h. put_cell-IsInside c v l)))

write-IsInside :
    (fuel i : ℕ) (str : ℕ → ℕ) (v : Vga)
    → v.vga_index < 4000
    → IsInside v (vga_write_loop fuel i str v)
unfolding vga_write_loop
write-IsInside zero i str v l = (l, λ j m. refl)
write-IsInside (suc fuel) i str v l =
    let (l', same) = putchar-IsInside (str i) v l in
    let (l'', same') = write-IsInside fuel (i + 1) str (vga_putchar (str i) v) l' in
    if_cases (IsInside v) (str i == 0) (λ h. (l, λ j m. refl))
      (λ h. (l'', λ j m. same' j m ∙ same j m))

-- From a cursor on the screen, whatever the characters are, `vga_write` leaves the cursor on the
-- screen and writes no cell behind the screen, after any number of characters.
pub vga_write-IsInside :
    (fuel : ℕ) (str : ℕ → ℕ) (v : Vga)
    → v.vga_index < 4000
    → ((vga_write fuel str v).vga_index < 4000)
      × ((j : ℕ) → 4000 ≤ j → (vga_write fuel str v).vga_buffer j ≡ v.vga_buffer j)
unfolding vga_write
vga_write-IsInside fuel str v l = write-IsInside fuel 0 str v l

-- `vga_get_cursor` reads back the position that `vga_set_cursor` was given, each coordinate cut at
-- the edge of the screen.
pub vga_get_cursor-vga_set_cursor :
    (x y : ℕ) (v : Vga) → vga_get_cursor (vga_set_cursor x y v) ≡ (min x 79, min y 49)
unfolding vga_get_cursor vga_set_cursor
vga_get_cursor-vga_set_cursor x y v = ap₂ (λ a b. (a, b)) (ground arith) (ground arith)
