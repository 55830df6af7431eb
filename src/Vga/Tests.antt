-- ===== src/Vga/Tests.antt =====
-- kernel/vga/vga.c on concrete inputs.
use tet_os.Prelude.{
  ℕ, ◌-◌, ◌≤◌, ◌<◌, ◌≡◌, ◌⊎◌, inl, inr, refl, [], ◌∷◌, get_or, arith, leb, ltb, ◌&&◌, if◌then◌else◌,
}
use tet_os.Vga.{
  Vga, vga_entry, vga_newline, vga_write, vga_set_cursor, vga_get_cursor, vga_putchar, put_cell,
  vga_write_loop,
}
use tet_os.Vga.Cells.{vga_newline_twice}
use tet_os.Vga.Bounds.{vga_write-IsInside}
use tet_os.Vga.Text.{cell_of, vga_write_lem}

-- "ok" and a new line in white at the cell 3990 of the last row.
abbrev line : ℕ → ℕ
line i = get_or (111 ∷ 107 ∷ 10 ∷ []) i 0

abbrev plain : ℕ → ℕ
plain i = get_or (111 ∷ 107 ∷ []) i 0

abbrev low : Vga
low = record { vga_buffer = λ i. 0; vga_index = 3990; vga_current_color = 15 }

below_two : (k : ℕ) → k < 2 → (k ≡ 0) ⊎ (k ≡ 1)
below_two k l = omega arith

vga_newline_twice_example : vga_newline (vga_newline low) ≡ vga_newline low
vga_newline_twice_example = vga_newline_twice low (omega arith)

vga_write-IsInside_example :
    ((vga_write 10 line low).vga_index < 4000)
    × ((j : ℕ) → 4000 ≤ j → (vga_write 10 line low).vga_buffer j ≡ 0)
vga_write-IsInside_example = vga_write-IsInside 10 line low (omega arith)

vga_write_lem_example :
    ((vga_write 10 plain low).vga_index ≡ 3992)
    × ((j : ℕ)
        → (vga_write 10 plain low).vga_buffer j
          ≡ (if leb 3990 j && ltb j 3992 then cell_of (plain (j - 3990)) 15 else 0))
vga_write_lem_example =
    vga_write_lem 2 10 plain low (omega arith) (omega arith)
      (λ k l. elim (below_two k l) [
        | inl e ↦ rw e (omega arith, omega arith, omega arith, omega arith, omega arith)
        | inr e ↦ rw e (omega arith, omega arith, omega arith, omega arith, omega arith)
      ])
      refl (omega arith)

corner : vga_get_cursor (vga_set_cursor 90 70 low) ≡ (79, 49)
unfolding vga_get_cursor vga_set_cursor
corner = refl

typed : (vga_write 10 plain low).vga_buffer 3991 ≡ 0x0F6B
unfolding vga_write vga_write_loop vga_putchar put_cell vga_entry
typed = refl
