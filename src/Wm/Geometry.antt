-- ===== src/Wm/Geometry.antt =====
-- Where a window is, and which point it contains, of kernel/wm/wm.c.
use tet_os.Prelude.{
  ℕ, zero, suc, ◌+◌, ◌-◌, ◌*◌, ◌/◌, not, ◌&&◌, ◌||◌, ◌==◌, if◌then◌else◌, ltb, add32, Bool, true,
  false,
}
use tet_os.Prelude.Int.{ℤ, pos, ◌+ℤ◌, ◌-ℤ◌, ltb_ℤ, signed32, unsigned32}
use tet_os.Wm.{
  wm_min_width, wm_min_height, wm_title_height, wm_border_size, wm_btn_size, wm_btn_margin,
  WmWindow, Wm, int32, set_window, wm_clamp_i32, wm_clamp_u32, wm_work_h,
}

unfoldable pub wm_point_in_window : WmWindow → ℤ → ℤ → Bool
wm_point_in_window w x y =
    if w.visible == 0
    then false
    else if ltb_ℤ x w.x || ltb_ℤ y w.y
    then false
    else if not (ltb_ℤ x (int32 (w.x +ℤ signed32 w.width)))
    then false
    else if not (ltb_ℤ y (int32 (w.y +ℤ signed32 w.height)))
    then false
    else true

unfoldable pub wm_point_in_title : WmWindow → ℤ → ℤ → Bool
wm_point_in_title w x y =
    if not (wm_point_in_window w x y) then false else ltb_ℤ y (int32 (w.y +ℤ pos wm_title_height))

-- The left edges of the buttons, and their upper one.
pub record ButtonRects : Type 0 where
  pub close_x : ℤ
  pub max_x : ℤ
  pub btn_y : ℤ

unfoldable pub wm_button_rects : WmWindow → ButtonRects
wm_button_rects w =
    let right = int32 (int32 (w.x +ℤ signed32 w.width) -ℤ pos wm_btn_margin) in
    let close_x = int32 (right -ℤ pos wm_btn_size) in
    record {
      close_x = close_x;
      max_x = int32 (int32 (close_x -ℤ pos wm_btn_size) -ℤ pos wm_btn_margin);
      btn_y = int32 (w.y +ℤ pos ((wm_title_height - wm_btn_size) / 2));
    }

unfoldable pub wm_hit_point : ℤ → ℤ → ℤ → ℤ → ℤ → ℤ → Bool
wm_hit_point px py rx ry rw' rh =
    not (ltb_ℤ px rx)
    && not (ltb_ℤ py ry)
    && ltb_ℤ px (int32 (rx +ℤ rw'))
    && ltb_ℤ py (int32 (ry +ℤ rh))

unfoldable pub wm_hit_close : WmWindow → ℤ → ℤ → Bool
wm_hit_close w x y =
    let r = wm_button_rects w in
    wm_hit_point x y r.close_x r.btn_y (pos wm_btn_size) (pos wm_btn_size)

unfoldable pub wm_hit_max : WmWindow → ℤ → ℤ → Bool
wm_hit_max w x y =
    let r = wm_button_rects w in
    wm_hit_point x y r.max_x r.btn_y (pos wm_btn_size) (pos wm_btn_size)

-- The loop of `wm_find_topmost` from `win` down.
unfoldable pub topmost_loop : ℕ → ℕ → ℤ → ℤ → (ℕ → WmWindow) → ℕ
topmost_loop zero win x y windows = 0
topmost_loop (suc fuel) win x y windows =
    let rest = topmost_loop fuel (windows win).prev x y windows in
    if win == 0 then 0 else if wm_point_in_window (windows win) x y then win else rest

-- The fuel is a bound of the number of windows.
unfoldable pub wm_find_topmost : ℕ → ℤ → ℤ → Wm → ℕ
wm_find_topmost fuel x y s = topmost_loop fuel s.wm_tail x y s.windows

-- The size that `wm_apply_bounds` gives, for one of the two axes: `space` is the length of the work
-- area, 0 when there is no screen.
unfoldable pub bound_size : ℕ → ℕ → ℕ → ℕ
bound_size space least size =
    let least' = if not (space == 0) && ltb space least then space else least in
    wm_clamp_u32 size least' (if space == 0 then size else space)

-- The position, for one of the two axes.
unfoldable pub bound_position : ℕ → ℕ → ℤ → ℤ
bound_position space size at =
    let most = int32 (signed32 space -ℤ signed32 size) in
    if space == 0 then at else wm_clamp_i32 at (pos 0) (if ltb_ℤ most (pos 0) then pos 0 else most)

unfoldable pub bounded : ℕ → ℕ → WmWindow → WmWindow
bounded screen_w work_h w =
    let width' = bound_size screen_w wm_min_width w.width in
    let height' = bound_size work_h wm_min_height w.height in
    record w {
      width = width';
      height = height';
      x = bound_position screen_w width' w.x;
      y = bound_position work_h height' w.y;
    }

unfoldable pub wm_apply_bounds : ℕ → Wm → Wm
wm_apply_bounds win s =
    if win == 0 then s else set_window win (bounded s.wm_screen_w (wm_work_h s) (s.windows win)) s

-- The client area: left, top, width and height.
unfoldable pub wm_get_client_rect : WmWindow → ℕ × ℕ × ℕ × ℕ
wm_get_client_rect w = (
  add32 (unsigned32 w.x) wm_border_size,
  add32 (add32 (unsigned32 w.y) wm_title_height) 1,
  if ltb (2 * wm_border_size) w.width then w.width - 2 * wm_border_size else 0,
  if ltb (wm_title_height + wm_border_size + 1) w.height
      then w.height - wm_title_height - wm_border_size - 1
      else 0,
)
