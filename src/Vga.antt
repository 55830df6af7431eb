-- ===== src/Vga.antt =====
-- kernel/vga/vga.c: the text console. The video memory is a function from the index of a cell; the
-- ports of the hardware's cursor are left out.
pub mod Cells
pub mod Bounds
pub mod Text
mod Tests
use tet_os.Prelude.{
  ℕ, zero, suc, ◌+◌, ◌-◌, ◌*◌, ◌/◌, ◌%◌, ◌^◌, bit_or, not, ◌==◌, if◌then◌else◌, ltb, leb, update,
  add32, u8, u16,
}

abbrev pub vga_width : ℕ
vga_width = 80

abbrev pub vga_height : ℕ
vga_height = 50

pub record Vga : Type 0 where
  pub vga_buffer : ℕ → ℕ
  pub vga_index : ℕ
  pub vga_current_color : ℕ

-- `(uint16_t)c` for a `char`, which is signed.
abbrev pub extend_char : ℕ → ℕ
extend_char c = if ltb c 128 then c else c + 0xFF00

unfoldable pub vga_entry : ℕ → ℕ → ℕ
vga_entry c color = u16 (bit_or (extend_char c) (color * 2 ^ 8))

unfoldable pub vga_color_byte : ℕ → ℕ → ℕ
vga_color_byte fg bg = u8 (bit_or fg (bg * 2 ^ 4))

-- A loop that writes `v` to the cells from `i` on, the rounds left first.
unfoldable pub fill_cells : ℕ → ℕ → ℕ → (ℕ → ℕ) → ℕ → ℕ
fill_cells zero i v buffer = buffer
fill_cells (suc left) i v buffer = fill_cells left (i + 1) v (update buffer i v)

-- The loop of `vga_newline` that moves each row up by one.
unfoldable pub copy_rows : ℕ → ℕ → (ℕ → ℕ) → ℕ → ℕ
copy_rows zero i buffer = buffer
copy_rows (suc left) i buffer = copy_rows left (i + 1) (update buffer i (buffer (i + vga_width)))

unfoldable pub vga_clear : Vga → Vga
vga_clear v = record v {
  vga_buffer =
      fill_cells (vga_width * vga_height) 0 (vga_entry 32 v.vga_current_color) v.vga_buffer;
  vga_index = 0;
}

-- White on black.
unfoldable pub vga_init : Vga → Vga
vga_init v = vga_clear (record v { vga_current_color = vga_color_byte 15 0 })

unfoldable pub vga_set_color : ℕ → ℕ → Vga → Vga
vga_set_color fg bg v = record v { vga_current_color = vga_color_byte fg bg }

-- What `vga_newline` does when the index is behind the last row.
unfoldable pub scroll : Vga → Vga
scroll v = record v {
  vga_buffer =
      fill_cells vga_width (vga_width * (vga_height - 1)) (vga_entry 32 v.vga_current_color)
        (copy_rows (vga_width * (vga_height - 1)) 0 v.vga_buffer);
  vga_index = vga_width * (vga_height - 1);
}

unfoldable pub vga_newline : Vga → Vga
vga_newline v =
    let col = v.vga_index % vga_width in
    let next = if col == 0 then v.vga_index else add32 v.vga_index (vga_width - col) in
    let moved = record v { vga_index = next } in
    if leb (vga_width * vga_height) next then scroll moved else moved

-- The part of `vga_putchar` for a character that is shown.
unfoldable pub put_cell : ℕ → Vga → Vga
put_cell c v =
    let put = record v {
      vga_buffer = update v.vga_buffer v.vga_index (vga_entry c v.vga_current_color);
      vga_index = add32 v.vga_index 1;
    } in
    if leb (vga_width * vga_height) put.vga_index then vga_newline put else put

-- The part for a backspace.
unfoldable pub erase_cell : Vga → Vga
erase_cell v = if v.vga_index == 0 then v else record v {
  vga_buffer = update v.vga_buffer (v.vga_index - 1) (vga_entry 32 v.vga_current_color);
  vga_index = v.vga_index - 1;
}

unfoldable pub vga_putchar : ℕ → Vga → Vga
vga_putchar c v =
    if c == 10
    then vga_newline v
    else if c == 13
    then record v { vga_index = v.vga_index / vga_width * vga_width }
    else if c == 8
    then erase_cell v
    else put_cell c v

-- The loop of `vga_write` from the character `i` on; the fuel is a bound of the length.
unfoldable pub vga_write_loop : ℕ → ℕ → (ℕ → ℕ) → Vga → Vga
vga_write_loop zero i str v = v
vga_write_loop (suc fuel) i str v =
    let rest = vga_write_loop fuel (i + 1) str (vga_putchar (str i) v) in
    if str i == 0 then v else rest

unfoldable pub vga_write : ℕ → (ℕ → ℕ) → Vga → Vga
vga_write fuel str v = vga_write_loop fuel 0 str v

unfoldable pub vga_write_color : ℕ → (ℕ → ℕ) → ℕ → ℕ → Vga → Vga
vga_write_color fuel str fg bg v = record (vga_write fuel str (vga_set_color fg bg v)) {
  vga_current_color = v.vga_current_color;
}

unfoldable pub vga_set_cursor : ℕ → ℕ → Vga → Vga
vga_set_cursor x y v =
    let x' = if leb vga_width x then vga_width - 1 else x in
    let y' = if leb vga_height y then vga_height - 1 else y in
    record v { vga_index = y' * vga_width + x' }

unfoldable pub vga_get_cursor : Vga → ℕ × ℕ
vga_get_cursor v = (v.vga_index % vga_width, v.vga_index / vga_width)
