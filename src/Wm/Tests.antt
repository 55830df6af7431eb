-- ===== src/Wm/Tests.antt =====
-- kernel/wm/wm.c on concrete inputs.
use tet_os.Prelude.{ℕ, ◌+◌, ◌-◌, ◌≡◌, refl, [], ◌∷◌, arith, ◌==◌, if◌then◌else◌}
use tet_os.Prelude.Int.{ℤ, pos, ◌+ℤ◌}
use tet_os.Wm.{WmWindow, Wm, wm_refresh_screen, wm_work_h}
use tet_os.Wm.Stack.{wm_focus_window, wm_focus_internal, wm_list_detach, wm_list_attach_tail}
use tet_os.Wm.Geometry.{wm_find_topmost, topmost_loop, wm_point_in_window}
use tet_os.Wm.Windows.{zero_window, wm_set_position, wm_set_size, wm_maximize_toggle}
use tet_os.Wm.Placement.{IsPlaced, work, operations-IsPlaced, wm_maximize_toggle_twice}
use tet_os.Wm.Order.{IsOrder}
use tet_os.Wm.Focus.{wm_focus_window_lem}

-- A window at the address `a`, whose neighbours in the list are 100 away.
abbrev window_at : ℕ → WmWindow
window_at a = record zero_window {
  id = a;
  x = pos 10;
  y = pos 20;
  width = 200;
  height = 100;
  visible = 1;
  prev = a - 100;
  next = if a == 300 then 0 else a + 100;
}

abbrev three : Wm
three = record {
  windows = window_at;
  heap = record {
    headers = λ a. record { size = 0; used = 0; magic = 0; next = 0 };
    heap_head = 0;
  };
  wm_head = 100;
  wm_tail = 300;
  wm_focused = 300;
  wm_dragging = 0;
  wm_next_id = 4;
  wm_screen_w = 640;
  wm_screen_h = 480;
  wm_reserved_bottom = 30;
  wm_last_buttons = 0;
}

three-IsOrder : IsOrder three (100 ∷ 200 ∷ 300 ∷ [])
three-IsOrder = record {
  head = refl;
  tail = refl;
  links = (refl, refl, (refl, refl, (refl, refl, tt)));
  distinct = ((omega arith, (omega arith, tt)), ((omega arith, tt), (tt, tt)));
  some = (omega arith, (omega arith, (omega arith, tt)));
}

wm_focus_window_lem_example :
    IsOrder (wm_focus_window 200 three) (100 ∷ 300 ∷ 200 ∷ [])
    × ((wm_focus_window 200 three).wm_focused ≡ 200)
wm_focus_window_lem_example = wm_focus_window_lem 200 three (100 ∷ []) (300 ∷ []) three-IsOrder

work_lem : work 640 480 three ≡ 450
unfolding wm_refresh_screen wm_work_h
work_lem = refl

operations-IsPlaced_example :
    ((x y : ℤ)
      → IsPlaced 640 (work 640 480 three) ((wm_set_position 640 480 100 x y three).windows 100))
    × ((width height : ℕ)
        → IsPlaced 640
            (work 640 480 three)
            ((wm_set_size 640 480 100 width height three).windows 100))
    × IsPlaced 640 (work 640 480 three) ((wm_maximize_toggle 640 480 100 three).windows 100)
operations-IsPlaced_example =
    operations-IsPlaced 640 480 100 three (omega arith) (omega arith) (omega arith)
      (omega (arith, work_lem)) (omega (arith, work_lem))

wm_maximize_toggle_twice_example :
    let once = (wm_maximize_toggle 640 480 100 three).windows 100 in
    let twice =
      (wm_maximize_toggle 640 480 100 (wm_maximize_toggle 640 480 100 three)).windows 100 in
    ((once.x ≡ pos 0) × (once.y ≡ pos 0) × (once.width ≡ 640) × (once.height ≡ work 640 480 three))
    × ((twice.x ≡ pos 10) × (twice.y ≡ pos 20))
    × ((twice.width ≡ 200) × (twice.height ≡ 100))
    × ((once.maximized ≡ 1) × (twice.maximized ≡ 0))
wm_maximize_toggle_twice_example =
    wm_maximize_toggle_twice 640 480 100 three (omega arith) (omega arith) (omega arith)
      (omega (arith, work_lem)) (omega (arith, work_lem)) refl
      ((omega arith, refl, omega arith), (omega (arith, work_lem), refl, omega (arith, work_lem)))

topmost : wm_find_topmost 3 (pos 50) (pos 60) (wm_focus_window 200 three) ≡ 200
unfolding wm_find_topmost topmost_loop wm_point_in_window wm_focus_window wm_focus_internal
    wm_list_detach wm_list_attach_tail ◌+ℤ◌
topmost = refl
