-- ===== src/Wm/Focus.antt =====
-- The focus of kernel/wm/wm.c moves a window to the top.
use mathlib.Core.List.{append-nil}
use tet_os.Prelude.{
  ℕ, ◌≡◌, refl, sym, ◌∙◌, subst, List, [], ◌∷◌, ◌++◌, arith, ◌==◌, false, inl, inr, Bool-cases,
}
use tet_os.Wm.{Wm}
use tet_os.Wm.Stack.{wm_list_detach, wm_list_attach_tail, wm_focus_internal, wm_focus_window}
use tet_os.Wm.Order.{IsOrder, attach-IsOrder, detach-IsOrder, detached-Absent, some_win, parts}
use tet_os.Wm.Chain.{last-append, last-ne}

refocus :
    (win : ℕ) (s : Wm) (xs : List ℕ) → IsOrder s xs → IsOrder (record s { wm_focused = win }) xs
refocus win s xs v = record {
  head = v.head;
  tail = v.tail;
  links = v.links;
  distinct = v.distinct;
  some = v.some;
}

topmost_last :
    (win : ℕ) (s : Wm) (pre post : List ℕ)
    → IsOrder s (pre ++ win ∷ post)
    → win ≡ s.wm_tail
    → IsOrder s (pre ++ post ++ win ∷ [])
topmost_last win s pre [] v top = subst (λ xs. IsOrder s (xs ++ win ∷ [])) (sym (append-nil pre)) v
topmost_last win s pre (x ∷ xs) v top =
    let (win_post, d_post) = (parts win s pre (x ∷ xs) v).1 in
    absurd (
      last-ne win win x xs win_post (sym (last-append 0 pre (win ∷ x ∷ xs)) ∙ sym v.tail ∙ sym top))

-- When a window of the list gets the focus, it is the topmost one afterwards, and the others keep
-- their order; the links of both directions lead through the new order.
pub wm_focus_window_lem :
    (win : ℕ) (s : Wm) (pre post : List ℕ)
    → IsOrder s (pre ++ win ∷ post)
    → IsOrder (wm_focus_window win s) (pre ++ post ++ win ∷ [])
      × ((wm_focus_window win s).wm_focused ≡ win)
unfolding wm_focus_window wm_focus_internal
wm_focus_window_lem win s pre post v =
    let nonzero : (win == 0) ≡ false = ground (arith, some_win win s pre post v) in
    elim (Bool-cases (win == s.wm_tail)) [
      | inl top ↦
          rw (wm_focus_window, wm_focus_internal, nonzero, top)
            (
              refocus win s (pre ++ post ++ win ∷ [])
                  (topmost_last win s pre post v (ground (arith, top))),
              refl,
            )
      | inr below ↦
          rw (wm_focus_window, wm_focus_internal, nonzero, below)
            (
              refocus win (wm_list_attach_tail win (wm_list_detach win s)) (pre ++ post ++ win ∷ [])
                  (attach-IsOrder win (wm_list_detach win s) (pre ++ post)
                    (some_win win s pre post v) (detach-IsOrder win s pre post v)
                    (detached-Absent win s pre post v)),
              refl,
            )
    ]
