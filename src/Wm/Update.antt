-- ===== src/Wm/Update.antt =====
-- `wm_update` of kernel/wm/wm.c: what the events of the mouse do. The functions that `ops` points to
-- are parameters: `on_close` and `on_click` call the function at an address.
use tet_os.Prelude.{ℕ, zero, suc, not, ◌&&◌, ◌==◌, if◌then◌else◌, bit_and, none, some, Bool}
use tet_os.Prelude.Int.{ℤ, pos, ◌-ℤ◌}
use tet_os.Mouse.{Mouse, MouseEvent, mouse_read_event}
use tet_os.Wm.{wm_border_size, wm_title_height, WmWindow, Wm, int32, set_window}
use tet_os.Wm.Stack.{wm_focus_internal}
use tet_os.Wm.Geometry.{
  wm_find_topmost, wm_point_in_title, wm_hit_close, wm_hit_max, wm_apply_bounds,
}
use tet_os.Wm.Windows.{wm_maximize_toggle}

-- `buttons & MOUSE_BUTTON_LEFT`
abbrev left_button : ℕ → Bool
left_button buttons = not (bit_and buttons 1 == 0)

-- The coordinates in the client area.
abbrev client_x : WmWindow → ℤ → ℤ
client_x w x = int32 (int32 (x -ℤ w.x) -ℤ pos wm_border_size)

abbrev client_y : WmWindow → ℤ → ℤ
client_y w y = int32 (int32 (int32 (y -ℤ w.y) -ℤ pos wm_title_height) -ℤ pos 1)

-- The branch that begins to drag a window.
unfoldable pub start_drag : ℕ → ℤ → ℤ → Wm → Wm
start_drag target x y s =
    let w = s.windows target in
    record (set_window target
      (record w {
        dragging = 1;
        drag_offset_x = int32 (x -ℤ w.x);
        drag_offset_y = int32 (y -ℤ w.y);
      })
      s) { wm_dragging = target }

-- The window that is dragged follows the pointer.
unfoldable pub drag : ℤ → ℤ → Wm → Wm
drag x y s =
    let w = s.windows s.wm_dragging in
    let moved =
      set_window s.wm_dragging
        (record w { x = int32 (x -ℤ w.drag_offset_x); y = int32 (y -ℤ w.drag_offset_y) }) s in
    if s.wm_dragging == 0 then s else wm_apply_bounds s.wm_dragging moved

-- `on_key` calls the function at an address.
unfoldable wm_deliver_key : (ℕ → ℕ → ℕ → ℕ → Wm → Wm) → ℕ → Wm → Wm
wm_deliver_key on_key key s =
    let w = s.windows s.wm_focused in
    if not (s.wm_focused == 0) && not (w.visible == 0) && not (w.ops.key == 0)
    then on_key w.ops.key s.wm_focused key w.user s
    else s

module _ (gw gh fuel : ℕ)
    -- The function, the window and the user's pointer.
    (on_close : ℕ → ℕ → ℕ → Wm → Wm)
    -- The function, the window, the coordinates, whether the button is pressed, the user's pointer.
    (on_click : ℕ → ℕ → ℤ → ℤ → ℕ → ℕ → Wm → Wm) where
  unfoldable pub handle_press : ℤ → ℤ → Wm → Wm
  handle_press x y s =
      let target = wm_find_topmost fuel x y s in
      let s1 = wm_focus_internal target s in
      let w = s1.windows target in
      if target == 0
      then s
      else if wm_hit_close w x y
      then (if w.ops.close == 0
          then set_window target (record w { visible = 0 }) s1
          else on_close w.ops.close target w.user s1)
      else if wm_hit_max w x y
      then wm_maximize_toggle gw gh target s1
      else if wm_point_in_title w x y
      then (if w.maximized == 0 then start_drag target x y s1 else s1)
      else if w.ops.click == 0
      then s1
      else on_click w.ops.click target (client_x w x) (client_y w y) 1 w.user s1

  unfoldable pub handle_release : ℤ → ℤ → Wm → Wm
  handle_release x y s =
      let dropped =
        if s.wm_dragging == 0
        then s
        else set_window s.wm_dragging (record (s.windows s.wm_dragging) { dragging = 0 }) s in
      let s1 = record dropped { wm_dragging = 0 } in
      let w = s1.windows s1.wm_focused in
      if s1.wm_focused == 0
      then s1
      else if w.ops.click == 0
      then s1
      else on_click w.ops.click s1.wm_focused (client_x w x) (client_y w y) 0 w.user s1

  -- One round of the loop.
  unfoldable pub handle_event : MouseEvent → Wm → Wm
  handle_event event s =
      let pressed = left_button event.buttons && not (left_button s.wm_last_buttons) in
      let released = not (left_button event.buttons) && left_button s.wm_last_buttons in
      let s1 = if pressed then handle_press event.x event.y s else s in
      let s2 = if released then handle_release event.x event.y s1 else s1 in
      record (drag event.x event.y s2) { wm_last_buttons = event.buttons }

  -- The rounds are at most the events that wait.
  unfoldable pub wm_update : ℕ → Mouse → Wm → Mouse × Wm
  wm_update zero m s = (m, s)
  wm_update (suc rounds) m s =
      let (event, m') = mouse_read_event m in
      elim event [ none ↦ (m', s) | some e ↦ wm_update rounds m' (handle_event e s) ]
