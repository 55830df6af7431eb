-- ===== src/Wm/Order.antt =====
-- The stacking order of the windows: the list that `wm_head` and `wm_tail` lead to.
use tet_os.Prelude.{ℕ, ◌≡◌, ◌≢◌, sym, ap, ap₂, ◌∙◌, List, [], ◌∷◌, ◌++◌, arith, ◌==◌, if◌then◌else◌}
use tet_os.Prelude.Distinct.{
  All, Absent, Apart, Apart-sym, Distinct, Distinct-append, Distinct-join, All-map, All-both,
  All-append, All-left, All-right, All-drop, Distinct-drop,
}
use tet_os.Wm.{Wm}
use tet_os.Wm.Stack.{wm_list_detach, wm_list_attach_tail}
use tet_os.Wm.Chain.{
  first, last, last-append, last-ne, Linked, Linked-split, Linked-join, Linked-retarget,
  Linked-rebase,
}
use tet_os.Wm.Links.{
  detach_next, detach_prev, detach_head, detach_tail, attach_next, attach_prev, attach_head,
  attach_tail,
}

abbrev nexts : Wm → ℕ → ℕ
nexts s j = (s.windows j).next

abbrev prevs : Wm → ℕ → ℕ
prevs s j = (s.windows j).prev

-- `xs` are the windows of the list, the topmost last.
pub record IsOrder (s : Wm) (xs : List ℕ) : Type 0 where
  pub head : s.wm_head ≡ first xs 0
  pub tail : s.wm_tail ≡ last 0 xs
  pub links : Linked (nexts s) (prevs s) 0 xs 0
  pub distinct : Distinct xs
  pub some : All (λ x. x ≢ 0) xs

-- The end of a list is not a number that is neither in it nor before it.
last_other : (b y : ℕ) (xs : List ℕ) → b ≢ y → Absent y xs → last b xs ≢ y
last_other b y [] other absent = other
last_other b y (x ∷ xs) other absent = last-ne b y x xs absent

first_other : (xs : List ℕ) (a y : ℕ) → a ≢ y → Absent y xs → first xs a ≢ y
first_other [] a y other absent = other
first_other (x ∷ xs) a y other (n, absent) = λ e. n (sym e)

unless_here : (a b u v : ℕ) → a ≢ b → (if a == b then u else v) ≡ v
unless_here a b u v other = ground (arith, other)

exactly_here : (a u v : ℕ) → (if a == a then u else v) ≡ u
exactly_here a u v = ground arith

attached_head :
    (win : ℕ) (s : Wm) (xs : List ℕ)
    → win ≢ 0
    → IsOrder s xs
    → (wm_list_attach_tail win s).wm_head ≡ first (xs ++ win ∷ []) 0
attached_head win s [] some_win v =
    attach_head win s some_win
    ∙ ap (λ t. if t == 0 then win else s.wm_head) v.tail
    ∙ exactly_here 0 win s.wm_head
attached_head win s (x ∷ xs) some_win v =
    attach_head win s some_win
    ∙ unless_here s.wm_tail 0 win s.wm_head (λ e.
      last_other x 0 xs v.some.0 (All-map xs (λ y n z. n (sym z)) v.some.1) (sym v.tail ∙ e))
    ∙ v.head

-- The window behind the last one of a list.
module _ (win : ℕ) (s : Wm) (xs : List ℕ) (some_win : win ≢ 0) (v : IsOrder s xs)
    (absent : Absent win xs) where
  tail_other : s.wm_tail ≢ win
  tail_other e = last_other 0 win xs (λ z. some_win (sym z)) absent (sym v.tail ∙ e)

  attached_next :
      (y : ℕ)
      → win ≢ y
      → y ≢ 0
      → nexts (wm_list_attach_tail win s) y ≡ (if last 0 xs == y then win else nexts s y)
  attached_next y other some_y =
      attach_next win s some_win y some_y tail_other
      ∙ unless_here win y 0 (if s.wm_tail == y then win else nexts s y) other
      ∙ ap (λ t. if t == y then win else nexts s y) v.tail

  attached_prev : (y : ℕ) → win ≢ y → prevs (wm_list_attach_tail win s) y ≡ prevs s y
  attached_prev y other =
      attach_prev win s some_win y ∙ unless_here win y s.wm_tail (prevs s y) other

  pub attach-IsOrder : IsOrder (wm_list_attach_tail win s) (xs ++ win ∷ [])
  attach-IsOrder =
      let facts = All-both (λ x. win ≢ x) (λ x. x ≢ 0) xs absent v.some in
      record {
        head = attached_head win s xs some_win v;
        tail = attach_tail win s some_win ∙ sym (last-append 0 xs (win ∷ []));
        links =
            Linked-join (nexts (wm_list_attach_tail win s)) (prevs (wm_list_attach_tail win s)) 0 xs
              (win ∷ []) 0
              (Linked-retarget (nexts s) (prevs s) (nexts (wm_list_attach_tail win s))
                (prevs (wm_list_attach_tail win s)) 0 xs 0 win v.links v.distinct
                (All-map xs (λ y (n, z). attached_next y n z) facts)
                (All-map xs (λ y n. attached_prev y n) absent))
              (
                attach_prev win s some_win win ∙ exactly_here win s.wm_tail (prevs s win) ∙ v.tail,
                attach_next win s some_win win some_win tail_other
                    ∙ exactly_here win 0 (if s.wm_tail == win then win else nexts s win),
                tt,
              );
        distinct =
            Distinct-join xs (win ∷ []) v.distinct (tt, tt)
              (All-map xs (λ y n. ((λ e. n (sym e)), tt)) absent);
        some = All-append (λ x. x ≢ 0) xs (win ∷ []) v.some (some_win, tt);
      }

-- A window inside a list.
module _ (win : ℕ) (s : Wm) (pre post : List ℕ) (v : IsOrder s (pre ++ win ∷ post)) where
  pub some_win : win ≢ 0
  some_win = (All-drop (λ x. x ≢ 0) pre win post v.some).0

  pub parts : Distinct pre × Distinct (win ∷ post) × Apart pre (win ∷ post)
  parts = Distinct-append pre (win ∷ post) v.distinct

  win_pre : Absent win pre
  win_pre = (Apart-sym pre (win ∷ post) parts.2).0

  segments :
      Linked (nexts s) (prevs s) 0 pre win
      × (prevs s win ≡ last 0 pre)
      × (nexts s win ≡ first post 0)
      × Linked (nexts s) (prevs s) win post 0
  segments = Linked-split (nexts s) (prevs s) 0 pre win post 0 v.links

  before : prevs s win ≢ win
  before e = last_other 0 win pre (λ z. some_win (sym z)) win_pre (sym segments.1 ∙ e)

  behind : nexts s win ≢ win
  behind e = first_other post 0 win (λ z. some_win (sym z)) parts.1.0 (sym segments.2 ∙ e)

  detached_next :
      (y : ℕ)
      → win ≢ y
      → y ≢ 0
      → nexts (wm_list_detach win s) y ≡ (if last 0 pre == y then first post 0 else nexts s y)
  detached_next y other some_y =
      detach_next win s some_win before y some_y
      ∙ unless_here win y 0 (if prevs s win == y then nexts s win else nexts s y) other
      ∙ ap₂ (λ p n. if p == y then n else nexts s y) segments.1 segments.2

  detached_prev :
      (y : ℕ)
      → win ≢ y
      → y ≢ 0
      → prevs (wm_list_detach win s) y ≡ (if first post 0 == y then last 0 pre else prevs s y)
  detached_prev y other some_y =
      detach_prev win s some_win before behind y some_y
      ∙ unless_here win y 0 (if nexts s win == y then prevs s win else prevs s y) other
      ∙ ap₂ (λ n p. if n == y then p else prevs s y) segments.2 segments.1

detached_head :
    (win : ℕ) (s : Wm) (pre post : List ℕ)
    → IsOrder s (pre ++ win ∷ post)
    → (wm_list_detach win s).wm_head ≡ first (pre ++ post) 0
detached_head win s [] post v =
    let (front, p, n, back) = segments win s [] post v in
    detach_head win s (some_win win s [] post v)
    ∙ ap (λ q. if q == 0 then nexts s win else s.wm_head) p
    ∙ exactly_here 0 (nexts s win) s.wm_head
    ∙ n
detached_head win s (x ∷ xs) post v =
    let (front, p, n, back) = segments win s (x ∷ xs) post v in
    let some_xs = All-left (λ y. y ≢ 0) xs (win ∷ post) v.some.1 in
    detach_head win s (some_win win s (x ∷ xs) post v)
    ∙ unless_here (prevs s win) 0 (nexts s win) s.wm_head
        (λ e. last_other x 0 xs v.some.0 (All-map xs (λ y z q. z (sym q)) some_xs) (sym p ∙ e))
    ∙ v.head

detached_tail :
    (win : ℕ) (s : Wm) (pre post : List ℕ)
    → IsOrder s (pre ++ win ∷ post)
    → (wm_list_detach win s).wm_tail ≡ last 0 (pre ++ post)
detached_tail win s pre [] v =
    let (front, p, n, back) = segments win s pre [] v in
    detach_tail win s (some_win win s pre [] v) (before win s pre [] v)
    ∙ ap (λ q. if q == 0 then prevs s win else s.wm_tail) n
    ∙ exactly_here 0 (prevs s win) s.wm_tail
    ∙ p
    ∙ sym (last-append 0 pre [])
detached_tail win s pre (x ∷ xs) v =
    let (front, p, n, back) = segments win s pre (x ∷ xs) v in
    let some_x = (All-right (λ y. y ≢ 0) pre (win ∷ x ∷ xs) v.some).1.0 in
    detach_tail win s (some_win win s pre (x ∷ xs) v) (before win s pre (x ∷ xs) v)
    ∙ unless_here (nexts s win) 0 (prevs s win) s.wm_tail (λ e. some_x (sym n ∙ e))
    ∙ v.tail
    ∙ last-append 0 pre (win ∷ x ∷ xs)
    ∙ sym (last-append 0 pre (x ∷ xs))

module _ (win : ℕ) (s : Wm) (pre post : List ℕ) (v : IsOrder s (pre ++ win ∷ post)) where
  pub detach-IsOrder : IsOrder (wm_list_detach win s) (pre ++ post)
  detach-IsOrder =
      let nx = nexts (wm_list_detach win s) in
      let pv = prevs (wm_list_detach win s) in
      let some_pre = All-left (λ x. x ≢ 0) pre (win ∷ post) v.some in
      let some_post = (All-right (λ x. x ≢ 0) pre (win ∷ post) v.some).1 in
      let (d_pre, (win_post, d_post), apart) = parts win s pre post v in
      let (front, p, n, back) = segments win s pre post v in
      let pre_facts =
        All-both (λ y. win ≢ y) (λ y. (y ≢ 0) × Absent y (win ∷ post)) pre
          (win_pre win s pre post v)
          (All-both (λ y. y ≢ 0) (λ y. Absent y (win ∷ post)) pre some_pre apart) in
      let post_facts =
        All-both (λ y. win ≢ y) (λ y. (y ≢ 0) × Absent y pre) post win_post
          (All-both (λ y. y ≢ 0) (λ y. Absent y pre) post some_post
            (Apart-sym pre (win ∷ post) apart).1) in
      record {
        head = detached_head win s pre post v;
        tail = detached_tail win s pre post v;
        links =
            Linked-join nx pv 0 pre post 0
              (Linked-retarget (nexts s) (prevs s) nx pv 0 pre win (first post 0) front d_pre
                (All-map pre (λ y (o, (z, a)). detached_next win s pre post v y o z) pre_facts)
                (All-map pre
                  (λ y (o, (z, a)).
                    detached_prev win s pre post v y o z
                    ∙ unless_here (first post 0) y (last 0 pre) (prevs s y)
                        (first_other post 0 y (λ e. z (sym e)) a.1))
                  pre_facts))
              (Linked-rebase (nexts s) (prevs s) nx pv win (last 0 pre) post 0 back d_post
                (All-map post
                  (λ y (o, (z, a)).
                    detached_next win s pre post v y o z
                    ∙ unless_here (last 0 pre) y (first post 0) (nexts s y)
                        (last_other 0 y pre (λ e. z (sym e)) a))
                  post_facts)
                (All-map post (λ y (o, (z, a)). detached_prev win s pre post v y o z) post_facts));
        distinct = (Distinct-drop pre win post v.distinct).0;
        some = All-append (λ x. x ≢ 0) pre post some_pre some_post;
      }

  pub detached-Absent : Absent win (pre ++ post)
  detached-Absent = (Distinct-drop pre win post v.distinct).1
