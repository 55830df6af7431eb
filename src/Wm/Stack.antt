-- ===== src/Wm/Stack.antt =====
-- The doubly linked list of windows, from the lowest to the topmost, of kernel/wm/wm.c.
use tet_os.Prelude.{ℕ, ◌==◌, if◌then◌else◌}
use tet_os.Wm.{Wm, set_window}

unfoldable pub wm_list_detach : ℕ → Wm → Wm
wm_list_detach win s =
    let w = s.windows win in
    let s1 =
      if w.prev == 0
      then record s { wm_head = w.next }
      else set_window w.prev (record (s.windows w.prev) { next = w.next }) s in
    let w1 = s1.windows win in
    let s2 =
      if w1.next == 0
      then record s1 { wm_tail = w1.prev }
      else set_window w1.next (record (s1.windows w1.next) { prev = w1.prev }) s1 in
    if win == 0 then s else set_window win (record (s2.windows win) { prev = 0; next = 0 }) s2

unfoldable pub wm_list_attach_tail : ℕ → Wm → Wm
wm_list_attach_tail win s =
    let s1 = set_window win (record (s.windows win) { prev = s.wm_tail; next = 0 }) s in
    let s2 =
      if s1.wm_tail == 0
      then record s1 { wm_head = win }
      else set_window s1.wm_tail (record (s1.windows s1.wm_tail) { next = win }) s1 in
    if win == 0 then s else record s2 { wm_tail = win }

unfoldable pub wm_focus_internal : ℕ → Wm → Wm
wm_focus_internal win s =
    if win == 0
    then record s { wm_focused = win }
    else if win == s.wm_tail
    then record s { wm_focused = win }
    else record (wm_list_attach_tail win (wm_list_detach win s)) { wm_focused = win }

unfoldable pub wm_focus_window : ℕ → Wm → Wm
wm_focus_window win s = wm_focus_internal win s
