-- ===== src/Process/Walks.antt =====
-- The loops of kernel/process/process.c that follow the links round the run queue.
use tet_os.Prelude.{
  ℕ, zero, suc, ◌≤◌, ◌<◌, ◌≡◌, ◌≢◌, refl, ap, ◌∙◌, List, [], ◌∷◌, ◌++◌, true, false, not, ◌&&◌,
  arith, length, ◌==◌, if◌then◌else◌, ◌⊎◌, inl, inr, Bool-cases,
}
use tet_os.Prelude.Distinct.{All, Absent}
use tet_os.Process.{Proc}
use tet_os.Process.Kill.{kill_walk}
use tet_os.Process.Schedule.{find_ready, find_prev}
use tet_os.Process.Cycle.{Links, last}

abbrev pub nexts : (ℕ → Proc) → ℕ → ℕ
nexts table p = (table p).next

module _ (table : ℕ → Proc) where
  pub find_prev_lem :
      (fuel a : ℕ) (xs : List ℕ) (b : ℕ)
      → Links (nexts table) a xs b
      → Absent b xs
      → length xs ≤ fuel
      → find_prev fuel a b table ≡ last a xs
  unfolding find_prev
  find_prev_lem zero a [] b l h m = refl
  find_prev_lem zero a (x ∷ xs) b l h m = elim m [ ]
  find_prev_lem (suc fuel) a [] b l h m =
      let stop : not ((table a).next == b) ≡ false = ground (arith, l) in rw stop refl
  find_prev_lem (suc fuel) a (x ∷ xs) b (e, l) (h, hs) m =
      let on : not ((table a).next == b) ≡ true = ground (arith, e, h) in
      rw on (ap (λ y. find_prev fuel y b table) e ∙ find_prev_lem fuel x xs b l hs (omega arith))

  -- The first slot that is ready, or the end.
  unfoldable pub first_ready : List ℕ → ℕ → ℕ
  first_ready [] stop = stop
  first_ready (x ∷ xs) stop = if (table x).state == 0 then x else first_ready xs stop

  pub find_ready_lem :
      (fuel a : ℕ) (xs : List ℕ) (b : ℕ)
      → Links (nexts table) a xs b
      → Absent b xs
      → length xs ≤ fuel
      → find_ready fuel (table a).next b table ≡ first_ready xs b
  unfolding find_ready first_ready
  find_ready_lem zero a [] b l h m = l
  find_ready_lem zero a (x ∷ xs) b l h m = elim m [ ]
  find_ready_lem (suc fuel) a [] b l h m =
      let stop : (not ((table a).next == b) && not ((table (table a).next).state == 0)) ≡ false =
        ground (arith, l) in
      rw stop l
  find_ready_lem (suc fuel) a (x ∷ xs) b (e, l) (h, hs) m =
      let other : (x == b) ≡ false = ground (arith, h) in
      ap (λ y. find_ready (suc fuel) y b table) e ∙ elim (Bool-cases ((table x).state == 0)) [
        | inl ready ↦ rw (ready, find_ready, other) refl
        | inr busy ↦ rw (busy, find_ready, other) (find_ready_lem fuel x xs b l hs (omega arith))
      ]

  -- Either no slot is ready, or the first one that is has been found.
  pub first_ready-cases :
      (xs : List ℕ) (b : ℕ)
      → ((first_ready xs b ≡ b) × All (λ x. (table x).state ≢ 0) xs)
        ⊎ ((pre : List ℕ) × (c : ℕ) × (post : List ℕ) × (xs ≡ pre ++ c ∷ post)
            × (first_ready xs b ≡ c)
            × ((table c).state ≡ 0)
            × All (λ x. (table x).state ≢ 0) pre)
  unfolding first_ready
  first_ready-cases [] b = inl (refl, tt)
  first_ready-cases (x ∷ xs) b = elim (Bool-cases ((table x).state == 0)) [
    | inl ready ↦ rw ready (inr ([], x, xs, refl, refl, ground (arith, ready), tt))
    | inr busy ↦
        let here : (table x).state ≢ 0 = ground (arith, busy) in
        rw busy (elim (first_ready-cases xs b) [
          | inl (e, h) ↦ inl (e, (here, h))
          | inr (pre, c, post, split, e, s, h) ↦
              inr (x ∷ pre, c, post, ap (◌∷◌ x) split, e, s, (here, h))
        ])
  ]

  -- Where the walk of `process_kill` stops: at the first process with the number, or at none.
  pub kill_walk_lem :
      (fuel prev p : ℕ) (xs : List ℕ) (head pid : ℕ)
      → Links (nexts table) p xs head
      → Absent head xs
      → length xs < fuel
      → ((pre : List ℕ) × (q : ℕ) × (post : List ℕ) × (p ∷ xs ≡ pre ++ q ∷ post)
          × (kill_walk fuel prev p head pid table ≡ (last prev pre, q))
          × ((table q).pid ≡ pid)
          × All (λ x. (table x).pid ≢ pid) pre)
        ⊎ ((kill_walk fuel prev p head pid table ≡ (last prev (p ∷ xs), head))
            × All (λ x. (table x).pid ≢ pid) (p ∷ xs))
  unfolding kill_walk
  kill_walk_lem zero prev p xs head pid l h m = elim m [ ]
  kill_walk_lem (suc fuel) prev p [] head pid l h m = elim (Bool-cases ((table p).pid == pid)) [
    | inl hit ↦ inl ([], p, [], refl, rw (hit, kill_walk) refl, ground (arith, hit), tt)
    | inr miss ↦
        let end : ((table p).next == head) ≡ true = ground (arith, l) in
        inr (rw (miss, kill_walk, end) refl, (ground (arith, miss), tt))
  ]
  kill_walk_lem (suc fuel) prev p (x ∷ xs) head pid (e, l) (h, hs) m =
      elim (Bool-cases ((table p).pid == pid)) [
        | inl hit ↦ inl ([], p, x ∷ xs, refl, rw (hit, kill_walk) refl, ground (arith, hit), tt)
        | inr miss ↦
            let other : ((table p).next == head) ≡ false = ground (arith, e, h) in
            let here : (table p).pid ≢ pid = ground (arith, miss) in
            let go : kill_walk (suc fuel) prev p head pid table
                ≡ kill_walk fuel p x head pid table =
              rw (miss, kill_walk, other) (ap (λ y. kill_walk fuel p y head pid table) e) in
            elim (kill_walk_lem fuel p x xs head pid l hs (omega arith)) [
              | inl (pre, q, post, split, f, at, before) ↦
                  inl (p ∷ pre, q, post, ap (◌∷◌ p) split, go ∙ f, at, (here, before))
              | inr (f, none) ↦ inr (go ∙ f, (here, none))
            ]
      ]
