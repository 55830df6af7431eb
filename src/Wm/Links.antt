-- ===== src/Wm/Links.antt =====
-- What detaching and attaching a window does to the links.
use tet_os.Prelude.{ℕ, ◌≡◌, ◌≢◌, arith, ◌==◌, if◌then◌else◌, false, Bool-cases, inl, inr}
use tet_os.Wm.{Wm}
use tet_os.Wm.Stack.{wm_list_detach, wm_list_attach_tail}

module _ (win : ℕ) (s : Wm) (some_win : win ≢ 0) where
  pub detach_next :
      (s.windows win).prev ≢ win
      → (j : ℕ) → j ≢ 0
      → ((wm_list_detach win s).windows j).next ≡ (
          if win == j
          then 0
          else if (s.windows win).prev == j
          then (s.windows win).next
          else (s.windows j).next)
  unfolding wm_list_detach
  detach_next before j some_j =
      let nonzero : (win == 0) ≡ false = ground (arith, some_win) in
      let apart : ((s.windows win).prev == win) ≡ false = ground (arith, before) in
      elim (Bool-cases ((s.windows win).prev == 0)) [
        | inl p ↦ elim (Bool-cases ((s.windows win).next == 0)) [
          | inl n ↦ rw (wm_list_detach, nonzero, p, n) (ground (arith, p, n, before, some_j))
          | inr n ↦ rw (wm_list_detach, nonzero, p, n) (ground (arith, p, n, before, some_j))
        ]
        | inr p ↦ elim (Bool-cases ((s.windows win).next == 0)) [
          | inl n ↦ rw (wm_list_detach, nonzero, p, apart, n) (ground (arith, p, n, before, some_j))
          | inr n ↦ rw (wm_list_detach, nonzero, p, apart, n) (ground (arith, p, n, before, some_j))
        ]
      ]

  pub detach_prev :
      (s.windows win).prev ≢ win
      → (s.windows win).next ≢ win
      → (j : ℕ) → j ≢ 0
      → ((wm_list_detach win s).windows j).prev ≡ (
          if win == j
          then 0
          else if (s.windows win).next == j
          then (s.windows win).prev
          else (s.windows j).prev)
  unfolding wm_list_detach
  detach_prev before behind j some_j =
      let nonzero : (win == 0) ≡ false = ground (arith, some_win) in
      let apart : ((s.windows win).prev == win) ≡ false = ground (arith, before) in
      elim (Bool-cases ((s.windows win).prev == 0)) [
        | inl p ↦ elim (Bool-cases ((s.windows win).next == 0)) [
          | inl n ↦
              rw (wm_list_detach, nonzero, p, n) (ground (arith, p, n, before, behind, some_j))
          | inr n ↦
              rw (wm_list_detach, nonzero, p, n) (ground (arith, p, n, before, behind, some_j))
        ]
        | inr p ↦ elim (Bool-cases ((s.windows win).next == 0)) [
          | inl n ↦
              rw (wm_list_detach, nonzero, p, apart, n)
                (ground (arith, p, n, before, behind, some_j))
          | inr n ↦
              rw (wm_list_detach, nonzero, p, apart, n)
                (ground (arith, p, n, before, behind, some_j))
        ]
      ]

  pub detach_head :
      (wm_list_detach win s).wm_head
      ≡ (if (s.windows win).prev == 0 then (s.windows win).next else s.wm_head)
  unfolding wm_list_detach
  detach_head = ground (arith, some_win)

  pub detach_tail :
      (s.windows win).prev ≢ win
      → (wm_list_detach win s).wm_tail
        ≡ (if (s.windows win).next == 0 then (s.windows win).prev else s.wm_tail)
  unfolding wm_list_detach
  detach_tail other = ground (arith, some_win, other)

  pub attach_next :
      (j : ℕ)
      → j ≢ 0
      → s.wm_tail ≢ win
      → ((wm_list_attach_tail win s).windows j).next
        ≡ (if win == j then 0 else if s.wm_tail == j then win else (s.windows j).next)
  unfolding wm_list_attach_tail
  attach_next j some_j other = ground (arith, some_win, some_j, other)

  pub attach_prev :
      (j : ℕ)
      → ((wm_list_attach_tail win s).windows j).prev
        ≡ (if win == j then s.wm_tail else (s.windows j).prev)
  unfolding wm_list_attach_tail
  attach_prev j = ground (arith, some_win)

  pub attach_head :
      (wm_list_attach_tail win s).wm_head ≡ (if s.wm_tail == 0 then win else s.wm_head)
  unfolding wm_list_attach_tail
  attach_head = ground (arith, some_win)

  pub attach_tail : (wm_list_attach_tail win s).wm_tail ≡ win
  unfolding wm_list_attach_tail
  attach_tail = ground (arith, some_win)
