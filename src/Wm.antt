-- ===== src/Wm.antt =====
-- kernel/wm/wm.c: the window manager. A `struct wm_window *` is the address of the window in `windows`,
-- and NULL is 0. The width and the height that the graphics functions answer are arguments, `gw` and
-- `gh`; colours of the frames and the drawing are left out.
pub mod Stack
pub mod Geometry
pub mod Windows
pub mod Update
pub mod Placement
pub mod Chain
pub mod Links
pub mod Order
pub mod Focus
mod Tests
use tet_os.Prelude.{
  ℕ, zero, suc, ◌+◌, ◌-◌, ◌%◌, ◌^◌, not, ◌&&◌, ◌==◌, if◌then◌else◌, ltb, leb, update, sub32, Bool,
}
use tet_os.Prelude.Int.{ℤ, pos, negsuc, ◌+ℤ◌, ◌-ℤ◌, ltb_ℤ, signed32, unsigned32}
use tet_os.Heap.{Heap}

abbrev pub wm_title_max_len : ℕ
wm_title_max_len = 31

abbrev pub wm_min_width : ℕ
wm_min_width = 120

abbrev pub wm_min_height : ℕ
wm_min_height = 80

abbrev pub wm_title_height : ℕ
wm_title_height = 22

abbrev pub wm_border_size : ℕ
wm_border_size = 1

abbrev pub wm_btn_size : ℕ
wm_btn_size = 14

abbrev pub wm_btn_margin : ℕ
wm_btn_margin = 4

-- Function pointers; 0 is NULL.
pub record WmWindowOps : Type 0 where
  pub draw : ℕ
  pub key : ℕ
  pub click : ℕ
  pub close : ℕ

pub record WmWindow : Type 0 where
  pub id : ℕ
  pub x : ℤ
  pub y : ℤ
  pub width : ℕ
  pub height : ℕ
  pub bg_color : ℕ
  pub visible : ℕ
  pub dragging : ℕ
  pub maximized : ℕ
  pub drag_offset_x : ℤ
  pub drag_offset_y : ℤ
  pub saved_x : ℤ
  pub saved_y : ℤ
  pub saved_w : ℕ
  pub saved_h : ℕ
  pub title : ℕ → ℕ
  pub ops : WmWindowOps
  pub user : ℕ
  pub prev : ℕ
  pub next : ℕ

-- The static variables, the windows, and the heap that they come from.
pub record Wm : Type 0 where
  pub windows : ℕ → WmWindow
  pub heap : Heap
  pub wm_head : ℕ
  pub wm_tail : ℕ
  pub wm_focused : ℕ
  pub wm_dragging : ℕ
  pub wm_next_id : ℕ
  pub wm_screen_w : ℕ
  pub wm_screen_h : ℕ
  pub wm_reserved_bottom : ℕ
  pub wm_last_buttons : ℕ

-- The result of an `int32_t` operation, in the word.
abbrev pub int32 : ℤ → ℤ
int32 a = signed32 (unsigned32 a)

abbrev pub set_window : ℕ → WmWindow → Wm → Wm
set_window win w s = record s { windows = update s.windows win w }

unfoldable pub wm_refresh_screen : ℕ → ℕ → Wm → Wm
wm_refresh_screen gw gh s = record s { wm_screen_w = gw; wm_screen_h = gh }

unfoldable pub wm_clamp_i32 : ℤ → ℤ → ℤ → ℤ
wm_clamp_i32 v lo hi = if ltb_ℤ v lo then lo else if ltb_ℤ hi v then hi else v

unfoldable pub wm_clamp_u32 : ℕ → ℕ → ℕ → ℕ
wm_clamp_u32 v lo hi = if ltb v lo then lo else if ltb hi v then hi else v

unfoldable pub wm_work_h : Wm → ℕ
wm_work_h s =
    if not (s.wm_reserved_bottom == 0) && ltb s.wm_reserved_bottom s.wm_screen_h
    then s.wm_screen_h - s.wm_reserved_bottom
    else s.wm_screen_h

unfoldable pub wm_init : ℕ → ℕ → Wm → Wm
wm_init gw gh s = wm_refresh_screen gw gh (record s {
  wm_head = 0;
  wm_tail = 0;
  wm_focused = 0;
  wm_dragging = 0;
  wm_next_id = 1;
  wm_last_buttons = 0;
  wm_reserved_bottom = 0;
})
