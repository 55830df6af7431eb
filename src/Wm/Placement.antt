-- ===== src/Wm/Placement.antt =====
-- Windows stay in the work area.
use tet_os.Prelude.{
  ℕ, ◌+◌, ◌≤◌, ◌<◌, ◌^◌, ◌≡◌, ◌≢◌, refl, ap₂, ◌∙◌, sym, subst, arith, min, ◌==◌, true, false,
}
use tet_os.Prelude.Int.{ℤ, pos, negsuc, pos_part, neg_part, ◌-ℤ◌}
use tet_os.Wm.{WmWindow, Wm, set_window, wm_clamp_i32, wm_clamp_u32, wm_work_h, wm_refresh_screen}
use tet_os.Wm.Geometry.{bound_size, bound_position, bounded, wm_apply_bounds}
use tet_os.Wm.Windows.{toggled, wm_set_position, wm_set_size, wm_maximize_toggle}

-- On one axis: the length is at least the least one that the work area admits, and the stretch from
-- the position on lies in the work area.
abbrev pub Fits : ℕ → ℕ → ℕ → ℤ → Type 0
Fits space least size at =
    (min least space ≤ size) × (neg_part at ≡ 0) × (pos_part at + size ≤ space)

abbrev pub IsPlaced : ℕ → ℕ → WmWindow → Type 0
IsPlaced screen_w work_h w = Fits screen_w 120 w.width w.x × Fits work_h 80 w.height w.y

size-Fits :
    (space least size : ℕ)
    → 0 < space
    → (min least space ≤ bound_size space least size) × (bound_size space least size ≤ space)
unfolding bound_size wm_clamp_u32
size-Fits space least size l = (ground arith, ground arith)

position-Fits :
    (space size : ℕ) (at : ℤ)
    → 0 < space
    → space < 2 ^ 31
    → size ≤ space
    → (neg_part (bound_position space size at) ≡ 0)
      × (pos_part (bound_position space size at) + size ≤ space)
unfolding bound_position wm_clamp_i32 ◌-ℤ◌
position-Fits space size (pos n) l m k = (ground arith, ground arith)
position-Fits space size (negsuc n) l m k = (ground arith, ground arith)

size_kept :
    (space least size : ℕ)
    → 0 < space
    → min least space ≤ size
    → size ≤ space
    → bound_size space least size ≡ size
unfolding bound_size wm_clamp_u32
size_kept space least size l m k = ground arith

position_kept :
    (space size : ℕ) (at : ℤ)
    → 0 < space
    → space < 2 ^ 31
    → neg_part at ≡ 0
    → pos_part at + size ≤ space
    → bound_position space size at ≡ at
unfolding bound_position wm_clamp_i32 ◌-ℤ◌
position_kept space size (pos n) l m e k = ground arith
position_kept space size (negsuc n) l m e k = ground arith

pub bounded-IsPlaced :
    (screen_w work_h : ℕ) (w : WmWindow)
    → 0 < screen_w
    → screen_w < 2 ^ 31
    → 0 < work_h
    → work_h < 2 ^ 31
    → IsPlaced screen_w work_h (bounded screen_w work_h w)
unfolding bounded
bounded-IsPlaced screen_w work_h w l m k n =
    let (w_min, w_max) = size-Fits screen_w 120 w.width l in
    let (h_min, h_max) = size-Fits work_h 80 w.height k in
    let (x_min, x_max) = position-Fits screen_w (bound_size screen_w 120 w.width) w.x l m w_max in
    let (y_min, y_max) = position-Fits work_h (bound_size work_h 80 w.height) w.y k n h_max in
    ((w_min, x_min, x_max), (h_min, y_min, y_max))

bounded_kept :
    (screen_w work_h : ℕ) (w : WmWindow)
    → 0 < screen_w
    → screen_w < 2 ^ 31
    → 0 < work_h
    → work_h < 2 ^ 31
    → IsPlaced screen_w work_h w
    → bounded screen_w work_h w ≡ w
unfolding bounded
bounded_kept screen_w work_h w l m k n ((wl, wn, wf), (hl, hn, hf)) =
    let width = size_kept screen_w 120 w.width l wl (omega (arith, wf)) in
    let height = size_kept work_h 80 w.height k hl (omega (arith, hf)) in
    rw (width, height)
      (λ i. record w {
        x = position_kept screen_w w.width w.x l m wn wf i;
        y = position_kept work_h w.height w.y k n hn hf i;
        width = w.width;
        height = w.height;
      })

-- The height of the work area after the screen's size was read.
abbrev pub work : ℕ → ℕ → Wm → ℕ
work gw gh s = wm_work_h (wm_refresh_screen gw gh s)

module _ (gw gh win : ℕ) (s : Wm) (some_win : win ≢ 0) (w_pos : 0 < gw) (w_low : gw < 2 ^ 31)
    (h_pos : 0 < work gw gh s) (h_low : work gw gh s < 2 ^ 31) where
  -- The window that the last steps of each operation leave.
  applied :
      (w : WmWindow)
      → (wm_apply_bounds win (wm_refresh_screen gw gh (set_window win w s))).windows win
        ≡ bounded gw (work gw gh s) w
  unfolding wm_apply_bounds wm_refresh_screen wm_work_h
  applied w =
      let nonzero : (win == 0) ≡ false = ground (arith, some_win) in
      let self : (win == win) ≡ true = ground arith in rw (wm_apply_bounds, nonzero, self) refl

  applied-IsPlaced :
      (w : WmWindow)
      → IsPlaced gw
          (work gw gh s)
          ((wm_apply_bounds win (wm_refresh_screen gw gh (set_window win w s))).windows win)
  applied-IsPlaced w =
      subst (IsPlaced gw (work gw gh s)) (sym (applied w))
        (bounded-IsPlaced gw (work gw gh s) w w_pos w_low h_pos h_low)

  toggle_run :
      wm_maximize_toggle gw gh win s
      ≡ wm_apply_bounds win
          (wm_refresh_screen gw gh (set_window win (toggled gw (work gw gh s) (s.windows win)) s))
  unfolding wm_maximize_toggle wm_refresh_screen wm_work_h
  toggle_run =
      let nonzero : (win == 0) ≡ false = ground (arith, some_win) in
      rw (wm_maximize_toggle, nonzero) refl

  toggle_work : work gw gh (wm_maximize_toggle gw gh win s) ≡ work gw gh s
  unfolding wm_apply_bounds wm_refresh_screen wm_work_h
  toggle_work =
      let nonzero : (win == 0) ≡ false = ground (arith, some_win) in
      rw (toggle_run, wm_apply_bounds, nonzero) refl

  toggle_window :
      (wm_maximize_toggle gw gh win s).windows win
      ≡ bounded gw (work gw gh s) (toggled gw (work gw gh s) (s.windows win))
  toggle_window = rw toggle_run (applied (toggled gw (work gw gh s) (s.windows win)))

  -- On a screen of fewer than 2^31 pixels each way with a work area that is not empty, wherever a
  -- window is moved, it lies in the work area afterwards and is not smaller than the least size
  -- that the work area admits; the same holds after any change of its size, and after maximizing
  -- or restoring it.
  pub operations-IsPlaced :
      ((x y : ℤ) → IsPlaced gw (work gw gh s) ((wm_set_position gw gh win x y s).windows win))
      × ((width height : ℕ)
          → IsPlaced gw (work gw gh s) ((wm_set_size gw gh win width height s).windows win))
      × IsPlaced gw (work gw gh s) ((wm_maximize_toggle gw gh win s).windows win)
  unfolding wm_set_position wm_set_size
  operations-IsPlaced =
      let nonzero : (win == 0) ≡ false = ground (arith, some_win) in
      (
        (λ x y.
            rw (wm_set_position, nonzero)
              (applied-IsPlaced (record (s.windows win) { x = x; y = y }))),
        (λ width height.
            rw (wm_set_size, nonzero)
              (applied-IsPlaced (record (s.windows win) { width = width; height = height }))),
        rw toggle_run (applied-IsPlaced (toggled gw (work gw gh s) (s.windows win))),
      )

-- A window that covers the work area, with the rectangle of `w` saved.
abbrev covering : ℕ → ℕ → WmWindow → WmWindow
covering screen_w work_h w = record w {
  saved_x = w.x;
  saved_y = w.y;
  saved_w = w.width;
  saved_h = w.height;
  x = pos 0;
  y = pos 0;
  width = screen_w;
  height = work_h;
  maximized = 1;
}

module _ (screen_w work_h : ℕ) (w : WmWindow) (l : 0 < screen_w) (m : screen_w < 2 ^ 31)
    (k : 0 < work_h) (n : work_h < 2 ^ 31) where
  toggled_normal :
      w.maximized ≡ 0
      → bounded screen_w work_h (toggled screen_w work_h w) ≡ covering screen_w work_h w
  unfolding toggled
  toggled_normal normal =
      let is_normal : (w.maximized == 0) ≡ true = ground (arith, normal) in
      let some_w : (screen_w == 0) ≡ false = ground (arith, l) in
      let some_h : (work_h == 0) ≡ false = ground (arith, k) in
      rw (toggled, is_normal, some_w, some_h)
        (bounded_kept screen_w work_h (covering screen_w work_h w) l m k n
          ((omega arith, refl, omega arith), (omega arith, refl, omega arith)))

  toggled-covering :
      IsPlaced screen_w work_h w
      → bounded screen_w work_h (toggled screen_w work_h (covering screen_w work_h w))
        ≡ record (covering screen_w work_h w) {
          x = w.x;
          y = w.y;
          width = w.width;
          height = w.height;
          maximized = 0;
        }
  unfolding toggled
  toggled-covering ((wl, wn, wf), (hl, hn, hf)) =
      let some_w : (w.width == 0) ≡ false = ground (arith, l, wl) in
      let some_h : (w.height == 0) ≡ false = ground (arith, k, hl) in
      let back : WmWindow = record (covering screen_w work_h w) {
        x = w.x;
        y = w.y;
        width = w.width;
        height = w.height;
        maximized = 0;
      } in
      rw (toggled, some_w, some_h)
        (bounded_kept screen_w work_h back l m k n ((wl, wn, wf), (hl, hn, hf)))

-- On a screen of fewer than 2^31 pixels each way, a window that is not maximized and lies in the
-- work area covers the work area after `wm_maximize_toggle`, and has its old place and size again
-- after the next one.
pub wm_maximize_toggle_twice :
    (gw gh win : ℕ) (s : Wm)
    → win ≢ 0
    → 0 < gw
    → gw < 2 ^ 31
    → 0 < work gw gh s
    → work gw gh s < 2 ^ 31
    → (s.windows win).maximized ≡ 0
    → IsPlaced gw (work gw gh s) (s.windows win)
    → let once = (wm_maximize_toggle gw gh win s).windows win in
      let twice = (wm_maximize_toggle gw gh win (wm_maximize_toggle gw gh win s)).windows win in
      ((once.x ≡ pos 0) × (once.y ≡ pos 0) × (once.width ≡ gw) × (once.height ≡ work gw gh s))
      × ((twice.x ≡ (s.windows win).x) × (twice.y ≡ (s.windows win).y))
      × ((twice.width ≡ (s.windows win).width) × (twice.height ≡ (s.windows win).height))
      × ((once.maximized ≡ 1) × (twice.maximized ≡ 0))
wm_maximize_toggle_twice gw gh win s some_win w_pos w_low h_pos h_low normal inside =
    let w = s.windows win in
    let same = toggle_work gw gh win s some_win w_pos w_low h_pos h_low in
    let one : (wm_maximize_toggle gw gh win s).windows win ≡ covering gw (work gw gh s) w =
      toggle_window gw gh win s some_win w_pos w_low h_pos h_low
      ∙ toggled_normal gw (work gw gh s) w w_pos w_low h_pos h_low normal in
    let two : (wm_maximize_toggle gw gh win (wm_maximize_toggle gw gh win s)).windows win
        ≡ bounded gw (work gw gh s) (toggled gw (work gw gh s) (covering gw (work gw gh s) w)) =
      toggle_window gw gh win (wm_maximize_toggle gw gh win s) some_win w_pos w_low
        (subst (λ h. 0 < h) (sym same) h_pos) (subst (λ h. h < 2 ^ 31) (sym same) h_low)
      ∙ ap₂ (λ h v. bounded gw h (toggled gw h v)) same one in
    rw (one, two ∙ toggled-covering gw (work gw gh s) w w_pos w_low h_pos h_low inside)
      ((refl, refl, refl, refl), (refl, refl), (refl, refl), (refl, refl))
