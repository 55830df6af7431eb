-- ===== src/Process/Invariant.antt =====
-- The invariant of the run queue: a ring through the table that begins with the current process.
use native.Mathlib.Decide.{ℕ_discrete}
use tet_os.Prelude.{
  ℕ, ◌<◌, ◌≡◌, ◌≢◌, sym, ap, subst, ◌∙◌, List, ◌∷◌, ◌++◌, arith, length, ◌==◌, if◌then◌else◌, ◌⊎◌,
  inl, inr,
}
use tet_os.Prelude.Distinct.{
  All, Absent, Distinct, Distinct-length, All-map, All-both, All-append, All-left, All-right,
  All-drop, All-insert, Distinct-drop, Absent-cases, Distinct-rotate,
}
use tet_os.Process.{Proc, Procs}
use tet_os.Process.Cycle.{Links, Links-from, Links-rotate, Links-remove, last}
use tet_os.Process.Walks.{nexts}

-- A process in the queue that does not run: it is ready, or a zombie.
abbrev pub IsWaiting : Proc → Type 0
IsWaiting p = (p.state ≡ 0) ⊎ (p.state ≡ 3)

-- `rest` are the slots behind the current process `cur`, in the order of the links.
pub record IsQueue (table : ℕ → Proc) (cur head : ℕ) (rest : List ℕ) : Type 0 where
  pub links : Links (nexts table) cur rest cur
  pub distinct : Distinct (cur ∷ rest)
  pub slots : All (λ p. p < 16) (cur ∷ rest)
  -- The current process runs, or has died and waits for the next tick.
  pub current : ((table cur).state ≡ 1) ⊎ ((table cur).state ≡ 3)
  pub waiting : All (λ p. IsWaiting (table p)) rest
  -- Every other slot is unused.
  pub unused : (p : ℕ) → p < 16 → Absent p (cur ∷ rest) → (table p).state ≡ 255
  -- `run_queue` is a slot of the ring.
  pub in_ring : ¬ Absent head (cur ∷ rest)

abbrev pub IsSched : Procs → List ℕ → Type 0
IsSched s rest = IsQueue s.process_table s.current_process s.run_queue rest

module _ (table : ℕ → Proc) (cur head : ℕ) (rest : List ℕ) (v : IsQueue table cur head rest) where
  pub IsQueue-length : length rest < 16
  IsQueue-length = Distinct-length 16 (cur ∷ rest) v.distinct v.slots

  -- An unused slot is not in the ring.
  pub unused-Absent : (i : ℕ) → (table i).state ≡ 255 → Absent i (cur ∷ rest)
  unused-Absent i u = (
    (λ e.
        let same : (table cur).state ≡ 255 = ap (λ x. (table x).state) (sym e) ∙ u in
        omega (arith, same, v.current)),
    All-map rest
        (λ x w e.
          let same : (table x).state ≡ 255 = ap (λ y. (table y).state) (sym e) ∙ u in
          omega (arith, same, w))
        v.waiting,
  )

  -- A new process that is ready goes behind the current one.
  pub insert-IsQueue :
      (table' : ℕ → Proc) (i : ℕ)
      → i < 16
      → (table i).state ≡ 255
      → ((j : ℕ)
          → (table' j).next
            ≡ (if cur == j then i else if i == j then (table cur).next else (table j).next))
      → ((j : ℕ) → (table' j).state ≡ (if i == j then 0 else (table j).state))
      → IsQueue table' cur head (i ∷ rest)
  insert-IsQueue table' i l u next state =
      let (i_cur, i_rest) = unused-Absent i u in
      let apart = All-both (λ x. cur ≢ x) (λ x. i ≢ x) rest v.distinct.0 i_rest in
      let state_cur : (table' cur).state ≡ (table cur).state = ground (arith, state cur, i_cur) in
      record {
        links = (
          ground (arith, next cur),
          Links-from (nexts table) (nexts table') cur i rest cur (ground (arith, next i, i_cur))
              (All-map rest (λ x (n, m). ground (arith, next x, n, m)) apart) v.links,
        );
        distinct = (((λ e. i_cur (sym e)), v.distinct.0), (i_rest, v.distinct.1));
        slots = (v.slots.0, (l, v.slots.1));
        current = rw state_cur v.current;
        waiting = (
          inl (ground (arith, state i)),
          All-map rest
              (λ x (w, n).
                let same : (table' x).state ≡ (table x).state = ground (arith, state x, n) in
                rw same w)
              (All-both (λ x. IsWaiting (table x)) (λ x. i ≢ x) rest v.waiting i_rest),
        );
        unused = λ p lp (a, (b, c)).
            let same : (table' p).state ≡ (table p).state = ground (arith, state p, b) in
            same ∙ v.unused p lp (a, c);
        in_ring = λ (a, (b, c)). v.in_ring (a, c);
      }

  -- The ring read from `run_queue` on.
  pub from_head :
      (xs : List ℕ) × Links (nexts table) head xs head
      × Distinct (head ∷ xs)
      × ((P : ℕ → Type 0) → All P (cur ∷ rest) → All P (head ∷ xs))
      × ((P : ℕ → Type 0) → All P (head ∷ xs) → All P (cur ∷ rest))
  from_head = elim (ℕ_discrete head cur) [
    | yes e ↦
        subst
          (λ h.
            (xs : List ℕ) × Links (nexts table) h xs h
            × Distinct (h ∷ xs)
            × ((P : ℕ → Type 0) → All P (cur ∷ rest) → All P (h ∷ xs))
            × ((P : ℕ → Type 0) → All P (h ∷ xs) → All P (cur ∷ rest)))
          (sym e) (rest, v.links, v.distinct, (λ P h. h), (λ P h. h))
    | no d ↦ elim (Absent-cases head rest) [
      | inl absent ↦ absurd (v.in_ring (d, absent))
      | inr (pre, post, e) ↦ (
        post ++ cur ∷ pre,
        Links-rotate (nexts table) cur pre head post
            (subst (λ xs. Links (nexts table) cur xs cur) e v.links),
        Distinct-rotate (cur ∷ pre) (head ∷ post) (subst (λ xs. Distinct (cur ∷ xs)) e v.distinct),
        (λ P h.
            let all = subst (λ xs. All P (cur ∷ xs)) e h in
            All-append P (head ∷ post) (cur ∷ pre) (All-right P (cur ∷ pre) (head ∷ post) all)
              (All-left P (cur ∷ pre) (head ∷ post) all)),
        (λ P h.
            subst (λ xs. All P (cur ∷ xs)) (sym e)
              (All-append P (cur ∷ pre) (head ∷ post) (All-right P (head ∷ post) (cur ∷ pre) h)
                (All-left P (head ∷ post) (cur ∷ pre) h))),
      )
    ]
  ]

module _ (table table' : ℕ → Proc) (cur head : ℕ) (rest : List ℕ) (v : IsQueue table cur head rest)
    (next : (j : ℕ) → (table' j).next ≡ (table j).next) where
  -- The links stay, and the processes of the ring change their states.
  pub restate-IsQueue :
      ((table' cur).state ≡ 1) ⊎ ((table' cur).state ≡ 3)
      → All (λ p. IsWaiting (table' p)) rest
      → ((j : ℕ) → Absent j (cur ∷ rest) → (table' j).state ≡ (table j).state)
      → IsQueue table' cur head rest
  restate-IsQueue current waiting others = record {
    links =
        Links-from (nexts table) (nexts table') cur cur rest cur (next cur)
          (All-map rest (λ x n. next x) v.distinct.0) v.links;
    distinct = v.distinct;
    slots = v.slots;
    current = current;
    waiting = waiting;
    unused = λ p l absent. others p absent ∙ v.unused p l absent;
    in_ring = v.in_ring;
  }

  -- Only the current process changes its state.
  pub recur-IsQueue :
      ((table' cur).state ≡ 1) ⊎ ((table' cur).state ≡ 3)
      → ((j : ℕ) → cur ≢ j → (table' j).state ≡ (table j).state)
      → IsQueue table' cur head rest
  recur-IsQueue current others =
      restate-IsQueue current
        (All-map rest (λ x (w, n). rw (others x n) w)
          (All-both (λ x. IsWaiting (table x)) (λ x. cur ≢ x) rest v.waiting v.distinct.0))
        (λ j (n, m). others j (λ e. n (sym e)))

-- A process behind the current one leaves the ring; `prev->next` has been set to its `next`.
pub remove-IsQueue :
    (table table' : ℕ → Proc) (cur head head' : ℕ) (pre : List ℕ) (p : ℕ) (post : List ℕ)
    → IsQueue table cur head (pre ++ p ∷ post)
    → ((j : ℕ)
        → j ≢ p
        → (table' j).next ≡ (if last cur pre == j then (table p).next else (table j).next))
    → ((j : ℕ) → (table' j).state ≡ (if p == j then 255 else (table j).state))
    → ¬ Absent head' (cur ∷ pre ++ post)
    → IsQueue table' cur head' (pre ++ post)
remove-IsQueue table table' cur head head' pre p post v next state in_ring =
    let (fresh, away) = Distinct-drop (cur ∷ pre) p post v.distinct in
    let state_cur : (table' cur).state ≡ (table cur).state = ground (arith, state cur, away.0) in
    record {
      links = Links-remove (nexts table) (nexts table') cur pre p post cur v.distinct next v.links;
      distinct = fresh;
      slots = (All-drop (λ x. x < 16) (cur ∷ pre) p post v.slots).1;
      current = rw state_cur v.current;
      waiting =
          All-map (pre ++ post)
            (λ x (w, n).
              let same : (table' x).state ≡ (table x).state = ground (arith, state x, n) in
              rw same w)
            (All-both (λ x. IsWaiting (table x)) (λ x. p ≢ x) (pre ++ post)
              (All-drop (λ x. IsWaiting (table x)) pre p post v.waiting).1 away.1);
      unused = λ q lq absent. elim (ℕ_discrete p q) [
        | yes e ↦ ground (arith, state q, e)
        | no d ↦
            let same : (table' q).state ≡ (table q).state = ground (arith, state q, d) in
            same
            ∙ v.unused q lq (All-insert (λ x. q ≢ x) (cur ∷ pre) p post (λ e. d (sym e)) absent)
      ];
      in_ring = in_ring;
    }
