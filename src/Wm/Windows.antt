-- ===== src/Wm/Windows.antt =====
-- The operations on windows of kernel/wm/wm.c.
use tet_os.Prelude.{ℕ, zero, suc, ◌+◌, ◌==◌, if◌then◌else◌, ltb, add32, update, Option, none, some}
use tet_os.Prelude.Int.{ℤ, pos}
use tet_os.Heap.{kmalloc, kfree}
use tet_os.Strings.Memory.{strlen}
use tet_os.Wm.{
  wm_title_max_len, wm_min_width, wm_min_height, WmWindowOps, WmWindow, Wm, set_window,
  wm_refresh_screen, wm_work_h,
}
use tet_os.Wm.Stack.{wm_list_detach, wm_list_attach_tail, wm_focus_internal}
use tet_os.Wm.Geometry.{wm_apply_bounds}

-- The loop of `wm_copy_title` with its terminator, the rounds left first.
unfoldable pub title_loop : ℕ → ℕ → (ℕ → ℕ) → (ℕ → ℕ) → ℕ → ℕ
title_loop zero i src dst = update dst i 0
title_loop (suc left) i src dst = title_loop left (i + 1) src (update dst i (src i))

-- No title is `none`. The length counts for no more than 31, so `strlen` takes 32 bytes of fuel.
unfoldable pub wm_copy_title : Option (ℕ → ℕ) → WmWindow → WmWindow
wm_copy_title none w = record w { title = update w.title 0 0 }
wm_copy_title (some title) w =
    let len = strlen (wm_title_max_len + 1) title 0 in
    let len' = if ltb wm_title_max_len len then wm_title_max_len else len in
    record w { title = title_loop len' 0 title w.title }

-- sizeof(struct wm_window)
abbrev window_size : ℕ
window_size = 112

-- A window behind `memset`.
abbrev pub zero_window : WmWindow
zero_window = record {
  id = 0;
  x = pos 0;
  y = pos 0;
  width = 0;
  height = 0;
  bg_color = 0;
  visible = 0;
  dragging = 0;
  maximized = 0;
  drag_offset_x = pos 0;
  drag_offset_y = pos 0;
  saved_x = pos 0;
  saved_y = pos 0;
  saved_w = 0;
  saved_h = 0;
  title = λ i. 0;
  ops = record { draw = 0; key = 0; click = 0; close = 0 };
  user = 0;
  prev = 0;
  next = 0;
}

-- What the new window holds before it is placed; `bg` is `graphics_rgb(40, 44, 58)`.
unfoldable pub new_window : ℕ → ℕ → ℤ → ℤ → ℕ → ℕ → Option (ℕ → ℕ) → WmWindow
new_window bg id x y width height title = wm_copy_title title (record zero_window {
  id = id;
  x = x;
  y = y;
  width = if width == 0 then wm_min_width else width;
  height = if height == 0 then wm_min_height else height;
  bg_color = bg;
  visible = 1;
})

-- The result is the address of the window, or NULL.
unfoldable pub wm_create_window : ℕ → ℕ → ℕ → ℤ → ℤ → ℕ → ℕ → Option (ℕ → ℕ) → Wm → ℕ × Wm
wm_create_window gw gh bg x y width height title s =
    let (win, heap') = kmalloc window_size s.heap in
    let filled =
      set_window win (new_window bg s.wm_next_id x y width height title)
        (record s { heap = heap'; wm_next_id = add32 s.wm_next_id 1 }) in
    let placed = wm_apply_bounds win (wm_refresh_screen gw gh filled) in
    if win == 0
    then (0, record s { heap = heap' })
    else (win, wm_focus_internal win (wm_list_attach_tail win placed))

-- NULL where a pointer is `win`.
abbrev forget : ℕ → ℕ → ℕ
forget win p = if p == win then 0 else p

unfoldable pub wm_destroy_window : ℕ → Wm → Wm
wm_destroy_window win s =
    let s1 = record s {
      wm_dragging = forget win s.wm_dragging;
      wm_focused = forget win s.wm_focused;
    } in
    let s2 = wm_list_detach win s1 in if win == 0 then s else record s2 { heap = kfree win s2.heap }

unfoldable pub wm_show_window : ℕ → Wm → Wm
wm_show_window win s =
    if win == 0 then s else set_window win (record (s.windows win) { visible = 1 }) s

unfoldable pub wm_hide_window : ℕ → Wm → Wm
wm_hide_window win s =
    let hidden = set_window win (record (s.windows win) { visible = 0 }) s in
    if win == 0 then s else record hidden {
      wm_focused = forget win s.wm_focused;
      wm_dragging = forget win s.wm_dragging;
    }

unfoldable pub wm_set_title : ℕ → Option (ℕ → ℕ) → Wm → Wm
wm_set_title win title s =
    if win == 0 then s else set_window win (wm_copy_title title (s.windows win)) s

unfoldable pub wm_set_position : ℕ → ℕ → ℕ → ℤ → ℤ → Wm → Wm
wm_set_position gw gh win x y s =
    if win == 0
    then s
    else wm_apply_bounds win
        (wm_refresh_screen gw gh (set_window win (record (s.windows win) { x = x; y = y }) s))

unfoldable pub wm_set_size : ℕ → ℕ → ℕ → ℕ → ℕ → Wm → Wm
wm_set_size gw gh win width height s =
    if win == 0
    then s
    else wm_apply_bounds win (
        wm_refresh_screen gw gh
          (set_window win (record (s.windows win) { width = width; height = height }) s))

unfoldable pub wm_set_background : ℕ → ℕ → Wm → Wm
wm_set_background win color s =
    if win == 0 then s else set_window win (record (s.windows win) { bg_color = color }) s

unfoldable pub wm_set_ops : ℕ → Option WmWindowOps → ℕ → Wm → Wm
wm_set_ops win ops user s =
    let ops' : WmWindowOps = elim ops [ none ↦ zero_window.ops | some o ↦ o ] in
    if win == 0 then s else set_window win (record (s.windows win) { ops = ops'; user = user }) s

-- The loop of `wm_set_reserved_bottom`; the fuel is a bound of the number of windows.
unfoldable pub bound_all : ℕ → ℕ → Wm → Wm
bound_all zero win s = s
bound_all (suc fuel) win s =
    let s' = wm_apply_bounds win s in
    let rest = bound_all fuel (s'.windows win).next s' in if win == 0 then s else rest

unfoldable pub wm_set_reserved_bottom : ℕ → ℕ → ℕ → ℕ → Wm → Wm
wm_set_reserved_bottom gw gh fuel height s =
    bound_all fuel s.wm_head (wm_refresh_screen gw gh (record s { wm_reserved_bottom = height }))

-- `a ? a : b`
abbrev or_else : ℕ → ℕ → ℕ
or_else a b = if a == 0 then b else a

-- The window with its two rectangles exchanged, before its bounds are applied.
unfoldable pub toggled : ℕ → ℕ → WmWindow → WmWindow
toggled screen_w work_h w =
    if w.maximized == 0
    then record w {
      saved_x = w.x;
      saved_y = w.y;
      saved_w = w.width;
      saved_h = w.height;
      x = pos 0;
      y = pos 0;
      width = or_else screen_w w.width;
      height = or_else work_h w.height;
      maximized = 1;
    }
    else record w {
      x = w.saved_x;
      y = w.saved_y;
      width = or_else w.saved_w w.width;
      height = or_else w.saved_h w.height;
      maximized = 0;
    }

unfoldable pub wm_maximize_toggle : ℕ → ℕ → ℕ → Wm → Wm
wm_maximize_toggle gw gh win s =
    let s1 = wm_refresh_screen gw gh s in
    if win == 0
    then s
    else wm_apply_bounds win
        (set_window win (toggled s1.wm_screen_w (wm_work_h s1) (s1.windows win)) s1)
