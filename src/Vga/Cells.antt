-- ===== src/Vga/Cells.antt =====
-- The loops over the cells of the screen, and what a new line does.
use native.Mathlib.Decide.{dec_le}
use tet_os.Prelude.{
  ◌/◌, min, add32, ℕ, zero, suc, ◌+◌, ◌-◌, ◌*◌, ◌%◌, ◌≤◌, ◌<◌, ◌≡◌, refl, ◌∙◌, ◌&&◌, arith, ltb,
  leb, ◌==◌, if◌then◌else◌, update, Bool-cases, inl, inr, true, false,
}
use tet_os.Vga.{Vga, vga_entry, fill_cells, copy_rows, scroll, vga_newline}

pub fill_cells_lem :
    (left i v : ℕ) (buffer : ℕ → ℕ) (j : ℕ)
    → fill_cells left i v buffer j ≡ (if leb i j && ltb j (i + left) then v else buffer j)
unfolding fill_cells
fill_cells_lem zero i v buffer j = ground arith
fill_cells_lem (suc left) i v buffer j =
    ground (arith, fill_cells_lem left (i + 1) v (update buffer i v) j)

pub copy_rows_lem :
    (left i : ℕ) (buffer : ℕ → ℕ) (j : ℕ)
    → copy_rows left i buffer j
      ≡ (if leb i j && ltb j (i + left) then buffer (j + 80) else buffer j)
unfolding copy_rows
copy_rows_lem zero i buffer j = ground arith
copy_rows_lem (suc left) i buffer j =
    ground (arith, copy_rows_lem left (i + 1) (update buffer i (buffer (i + 80))) j)

pub scroll_cell :
    (v : Vga) (j : ℕ)
    → (scroll v).vga_buffer j ≡ (
        if ltb j 3920
        then v.vga_buffer (j + 80)
        else if ltb j 4000
        then vga_entry 32 v.vga_current_color
        else v.vga_buffer j)
unfolding scroll
scroll_cell v j =
    fill_cells_lem 80 3920 (vga_entry 32 v.vga_current_color) (copy_rows 3920 0 v.vga_buffer) j
    ∙ ground (arith, copy_rows_lem 3920 0 v.vga_buffer j)

pub scroll_index : (v : Vga) → (scroll v).vga_index ≡ 3920
unfolding scroll
scroll_index v = refl

pub scroll_color : (v : Vga) → (scroll v).vga_current_color ≡ v.vga_current_color
unfolding scroll
scroll_color v = refl

-- The two cases of a new line from inside the screen, or from just behind it.
newline_stays :
    (v : Vga)
    → v.vga_index ≤ 3920
    → vga_newline v ≡ record v { vga_index = (v.vga_index + 79) / 80 * 80 }
unfolding vga_newline
newline_stays v l = elim (Bool-cases (v.vga_index % 80 == 0)) [
  | inl start ↦
      let inside : leb 4000 v.vga_index ≡ false = ground arith in
      let same : v.vga_index ≡ (v.vga_index + 79) / 80 * 80 = ground (arith, start) in
      rw (vga_newline, start, inside) (λ i. record v { vga_index = same i })
  | inr middle ↦
      let inside : leb 4000 (add32 v.vga_index (80 - v.vga_index % 80)) ≡ false =
        ground (arith, middle) in
      let same : add32 v.vga_index (80 - v.vga_index % 80) ≡ (v.vga_index + 79) / 80 * 80 =
        ground (arith, middle) in
      rw (vga_newline, middle, inside) (λ i. record v { vga_index = same i })
]

newline_scrolls : (v : Vga) → 3920 < v.vga_index → v.vga_index ≤ 4000 → vga_newline v ≡ scroll v
unfolding vga_newline scroll
newline_scrolls v l m = elim (Bool-cases (v.vga_index % 80 == 0)) [
  | inl start ↦
      let outside : leb 4000 v.vga_index ≡ true = ground (arith, start) in
      rw (vga_newline, start, outside) refl
  | inr middle ↦
      let outside : leb 4000 (add32 v.vga_index (80 - v.vga_index % 80)) ≡ true =
        ground (arith, middle) in
      rw (vga_newline, middle, outside) refl
]

-- A new line, from an index of the screen or just behind it, leads to the start of the next row,
-- but stays where it is at the start of a row. When that row would be behind the last one, each
-- cell takes what the cell of the row below it held, the last row becomes blank, and the index is
-- the start of the last row. No cell behind the screen changes.
pub vga_newline_lem :
    (v : Vga)
    → v.vga_index ≤ 4000
    → ((vga_newline v).vga_index ≡ min 3920 ((v.vga_index + 79) / 80 * 80))
      × ((vga_newline v).vga_current_color ≡ v.vga_current_color)
      × ((j : ℕ)
          → (vga_newline v).vga_buffer j ≡ (
              if ltb 3920 v.vga_index && ltb j 4000
              then if ltb j 3920 then v.vga_buffer (j + 80) else vga_entry 32 v.vga_current_color
              else v.vga_buffer j))
vga_newline_lem v l = elim (dec_le v.vga_index 3920) [
  | yes low ↦ rw (newline_stays v low) (omega arith, refl, λ j. ground arith)
  | no high ↦
      rw (newline_scrolls v (omega arith) l)
        (omega (arith, scroll_index v), scroll_color v, λ j. ground (arith, scroll_cell v j))
]

-- A second new line changes nothing: an empty line is never printed.
pub vga_newline_twice : (v : Vga) → v.vga_index ≤ 4000 → vga_newline (vga_newline v) ≡ vga_newline v
vga_newline_twice v l =
    let at = (vga_newline_lem v l).0 in
    let start : ((vga_newline v).vga_index + 79) / 80 * 80 ≡ (vga_newline v).vga_index =
      omega (arith, at) in
    newline_stays (vga_newline v) (omega (arith, at))
    ∙ (λ i. record (vga_newline v) { vga_index = start i })
