-- ===== src/Process/Schedule/Turn.antt =====
-- How the ring turns to the next process.
use native.Mathlib.Decide.{ℕ_discrete}
use tet_os.Prelude.{
  ℕ, ◌<◌, ◌≡◌, ◌≢◌, sym, ◌∙◌, subst, List, [], ◌∷◌, ◌++◌, arith, ◌==◌, if◌then◌else◌, inl,
}
use tet_os.Prelude.Distinct.{
  All, Absent, Distinct, All-map, All-both, All-append, All-left, All-right, All-drop, All-insert,
  Distinct-drop, Distinct-rotate,
}
use tet_os.Process.{Proc}
use tet_os.Process.Cycle.{Links, last, Links-rotate, Links-remove, Links-from}
use tet_os.Process.Walks.{nexts}
use tet_os.Process.Invariant.{IsWaiting, IsQueue}

-- A property of all slots of the ring does not depend on where the ring begins.
turn-All :
    (P : ℕ → Type 0) (cur : ℕ) (pre : List ℕ) (c : ℕ) (post : List ℕ)
    → All P (cur ∷ pre ++ c ∷ post)
    → All P (c ∷ post ++ cur ∷ pre)
turn-All P cur pre c post h =
    All-append P (c ∷ post) (cur ∷ pre) (All-right P (cur ∷ pre) (c ∷ post) h)
      (All-left P (cur ∷ pre) (c ∷ post) h)

turn-back :
    (P : ℕ → Type 0) (cur : ℕ) (pre : List ℕ) (c : ℕ) (post : List ℕ)
    → All P (c ∷ post ++ cur ∷ pre)
    → All P (cur ∷ pre ++ c ∷ post)
turn-back P cur pre c post h = turn-All P c post cur pre h

first_member :
    (next : ℕ → ℕ) (cur : ℕ) (pre : List ℕ) (c : ℕ) (post : List ℕ)
    → Links next cur (pre ++ c ∷ post) cur
    → ¬ Absent (next cur) (c ∷ post ++ pre)
first_member next cur [] c post (e, l) absent = absent.0 e
first_member next cur (x ∷ pre) c post (e, l) absent =
    (All-right (λ y. next cur ≢ y) (c ∷ post) (x ∷ pre) absent).0 e

module _ (table table' : ℕ → Proc) (cur head : ℕ) (pre : List ℕ) (c : ℕ) (post : List ℕ)
    (v : IsQueue table cur head (pre ++ c ∷ post)) where
  -- The ring read from `c` on.
  turned : Links (nexts table) c (post ++ cur ∷ pre) c
  turned = Links-rotate (nexts table) cur pre c post v.links

  turned-Distinct : Distinct (c ∷ post ++ cur ∷ pre)
  turned-Distinct = Distinct-rotate (cur ∷ pre) (c ∷ post) v.distinct

  turned-slots : All (λ x. x < 16) (c ∷ post ++ cur ∷ pre)
  turned-slots = turn-All (λ x. x < 16) cur pre c post v.slots

  -- The process behind the current one stays in the ring.
  next_in : ¬ Absent (table cur).next (c ∷ post ++ pre)
  next_in = first_member (nexts table) cur pre c post v.links

  -- Every slot of the ring but the old and the new current one waits, as before.
  turned-waiting : All (λ x. IsWaiting (table x)) (post ++ pre)
  turned-waiting =
      All-append (λ x. IsWaiting (table x)) post pre
        (All-right (λ x. IsWaiting (table x)) pre (c ∷ post) v.waiting).1
        (All-left (λ x. IsWaiting (table x)) pre (c ∷ post) v.waiting)

  c_fresh : (c ≢ cur) × Absent c (post ++ pre)
  c_fresh = All-drop (λ x. c ≢ x) post cur pre turned-Distinct.0

  cur_fresh : Distinct (post ++ pre) × Absent cur (post ++ pre)
  cur_fresh = Distinct-drop post cur pre turned-Distinct.1

  still-waiting :
      ((j : ℕ) → c ≢ j → cur ≢ j → (table' j).state ≡ (table j).state)
      → All (λ x. IsWaiting (table' x)) (post ++ pre)
  still-waiting same =
      All-map (post ++ pre) (λ x (w, (m, n)). rw (same x m n) w)
        (All-both (λ x. IsWaiting (table x)) (λ x. (c ≢ x) × (cur ≢ x)) (post ++ pre) turned-waiting
          (All-both (λ x. c ≢ x) (λ x. cur ≢ x) (post ++ pre) c_fresh.1 cur_fresh.1))

  -- `c` runs now, and the old current process is ready again.
  pub preempt-IsQueue :
      ((j : ℕ) → (table' j).next ≡ (table j).next)
      → ((j : ℕ)
          → (table' j).state ≡ (if c == j then 1 else if cur == j then 0 else (table j).state))
      → IsQueue table' c head (post ++ cur ∷ pre)
  preempt-IsQueue next state = record {
    links =
        Links-from (nexts table) (nexts table') c c (post ++ cur ∷ pre) c (next c)
          (All-map (post ++ cur ∷ pre) (λ x u. next x) turned-slots.1) turned;
    distinct = turned-Distinct;
    slots = turned-slots;
    current = inl (ground (arith, state c));
    waiting =
        All-insert (λ x. IsWaiting (table' x)) post cur pre
          (inl (ground (arith, state cur, c_fresh.0)))
          (still-waiting (λ j m n. ground (arith, state j, m, n)));
    unused = λ q lq absent.
        let (q_c, others) = absent in
        let (q_cur, kept) = All-drop (λ x. q ≢ x) post cur pre others in
        let same : (table' q).state ≡ (table q).state = ground (arith, state q, q_c, q_cur) in
        same ∙ v.unused q lq (turn-back (λ x. q ≢ x) cur pre c post absent);
    in_ring = λ absent. v.in_ring (turn-back (λ x. head ≢ x) cur pre c post absent);
  }

  -- `c` runs now, and the old current process has left the ring.
  pub bury-IsQueue :
      (head' : ℕ)
      → ((j : ℕ)
          → j ≢ cur
          → (table' j).next ≡ (if last c post == j then (table cur).next else (table j).next))
      → ((j : ℕ)
          → (table' j).state ≡ (if c == j then 1 else if cur == j then 255 else (table j).state))
      → head' ≡ (if head == cur then (table cur).next else head)
      → IsQueue table' c head' (post ++ pre)
  bury-IsQueue head' next state e = record {
    links = Links-remove (nexts table) (nexts table') c post cur pre c turned-Distinct next turned;
    distinct = (c_fresh.1, cur_fresh.0);
    slots = (turned-slots.0, (All-drop (λ x. x < 16) post cur pre turned-slots.1).1);
    current = inl (ground (arith, state c));
    waiting = still-waiting (λ j m n. ground (arith, state j, m, n));
    unused = λ q lq (q_c, others). elim (ℕ_discrete q cur) [
      | yes at ↦ ground (arith, state q, at, q_c)
      | no other ↦
          let same : (table' q).state ≡ (table q).state = ground (arith, state q, q_c, other) in
          same
          ∙ v.unused q lq (
              turn-back (λ x. q ≢ x) cur pre c post
                (q_c, All-insert (λ x. q ≢ x) post cur pre other others))
    ];
    in_ring = λ absent. elim (ℕ_discrete head cur) [
      | yes at ↦ first_in (head_moves at) absent
      | no other ↦
          let stays : head ≡ head' = ground (arith, e, other) in
          v.in_ring (
            turn-back (λ x. head ≢ x) cur pre c post
              (
                subst (λ h. h ≢ c) (sym stays) absent.0,
                All-insert (λ x. head ≢ x) post cur pre other
                    (subst (λ h. Absent h (post ++ pre)) (sym stays) absent.1),
              ))
    ];
  }
    where
      head_moves : head ≡ cur → head' ≡ (table cur).next
      head_moves at = ground (arith, e, at)

      first_in : head' ≡ (table cur).next → ¬ Absent head' (c ∷ post ++ pre)
      first_in moved absent = next_in (subst (λ h. Absent h (c ∷ post ++ pre)) moved absent)
