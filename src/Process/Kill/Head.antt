-- ===== src/Process/Kill/Head.antt =====
-- Killing the process that `run_queue` points to.
use tet_os.Prelude.{
  ℕ, ◌≡◌, ◌≢◌, ◌<◌, inl, inr, refl, sym, ap, ◌∙◌, subst, List, ◌∷◌, ◌++◌, true, false, arith, ◌==◌,
}
use tet_os.Prelude.Int.{pos}
use tet_os.Prelude.Distinct.{Absent, All-left, Distinct-drop, Absent-cases}
use tet_os.Process.{Procs}
use tet_os.Process.Cycle.{last, last_lem, not-Absent-last, Links-split}
use tet_os.Process.Walks.{nexts}
use tet_os.Process.Invariant.{IsSched, unused-Absent}
use tet_os.Process.Kill.{kill_walk, unlink, process_kill}
use tet_os.Process.Kill.Removal.{head_slot, unlink_next, unlink_state}

head_found :
    (pid : ℕ) (s : Procs)
    → (s.process_table s.run_queue).pid ≡ pid
    → kill_walk 16 s.run_queue s.run_queue s.run_queue pid s.process_table
      ≡ (s.run_queue, s.run_queue)
unfolding kill_walk
head_found pid s e =
    let hit : ((s.process_table s.run_queue).pid == pid) ≡ true = ground arith in
    rw (kill_walk, hit) refl

-- The slot in front of `run_queue`.
before_head :
    (s : Procs) (pre post : List ℕ)
    → IsSched s (pre ++ s.run_queue ∷ post)
    → (q : ℕ) × ¬ Absent q (s.current_process ∷ pre ++ s.run_queue ∷ post)
      × (s.run_queue ≢ q)
      × ((s.process_table q).state ≢ 255)
      × ((s.process_table q).next ≡ s.run_queue)
before_head s pre post v =
    let q = last s.current_process pre in
    let member : ¬ Absent q (s.current_process ∷ pre ++ s.run_queue ∷ post) = λ absent.
      not-Absent-last s.current_process pre
        (All-left (λ x. q ≢ x) (s.current_process ∷ pre) (s.run_queue ∷ post) absent) in
    let fresh = (Distinct-drop (s.current_process ∷ pre) s.run_queue post v.distinct).1 in
    (
      q,
      member,
      (λ e. not-Absent-last s.current_process pre (
          subst (λ x. Absent x (s.current_process ∷ pre)) e
            (All-left (λ x. s.run_queue ≢ x) (s.current_process ∷ pre) post fresh))),
      (λ free. member (
          unused-Absent s.process_table s.current_process s.run_queue (pre ++ s.run_queue ∷ post) v
            q free)),
      last_lem (nexts s.process_table) s.current_process pre s.run_queue
          (Links-split (nexts s.process_table) s.current_process pre s.run_queue post
            s.current_process v.links).0,
    )

killed :
    (pid : ℕ) (s : Procs)
    → (s.process_table s.run_queue).pid ≡ pid
    → (s.process_table s.current_process).pid ≢ pid
    → s.run_queue ≢ s.current_process
    → s.current_process < 16
    → s.run_queue < 16
    → process_kill pid s ≡ (pos 0, unlink s.run_queue s.run_queue s)
unfolding process_kill
killed pid s at other apart l m =
    let a : (s.run_queue == 16) ≡ false = ground arith in
    let b : (s.current_process == 16) ≡ false = ground arith in
    let c : (pid == (s.process_table s.current_process).pid) ≡ false = ground arith in
    let d : ((s.process_table s.run_queue).pid == pid) ≡ true = ground arith in
    let e : (s.run_queue == s.current_process) ≡ false = ground arith in
    rw (process_kill, head_found pid s at, a, b, c, d, e) refl

-- From a ring that begins with the current process: `process_kill` of the process at `run_queue`,
-- when that is not the current one, answers 0 and leaves its slot unused and its `next` NULL; but
-- another slot of the ring still points to it, so the run queue is no ring any more.
pub process_kill_head :
    (pid : ℕ) (s : Procs) (rest : List ℕ)
    → IsSched s rest
    → (s.process_table s.run_queue).pid ≡ pid
    → (s.process_table s.current_process).pid ≢ pid
    → ((process_kill pid s).0 ≡ pos 0)
      × (((process_kill pid s).1.process_table s.run_queue).state ≡ 255)
      × (((process_kill pid s).1.process_table s.run_queue).next ≡ 16)
      × ((q : ℕ) × ¬ Absent q (s.current_process ∷ rest)
          × (((process_kill pid s).1.process_table q).state ≢ 255)
          × (((process_kill pid s).1.process_table q).next ≡ s.run_queue))
process_kill_head pid s rest v at other =
    let head_cur : s.run_queue ≢ s.current_process =
      λ e. other (ap (λ x. (s.process_table x).pid) (sym e) ∙ at) in
    elim (Absent-cases s.run_queue rest) [
      | inl absent ↦ absurd (v.in_ring (head_cur, absent))
      | inr (pre, post, e) ↦
          let (q, member, not_q, used, leads) = before_head s pre post (subst (IsSched s) e v) in
          rw (killed pid s at other head_cur v.slots.0 (head_slot s rest v)) (
            refl,
            ground (arith, unlink_state s.run_queue s.run_queue s s.run_queue),
            ground (arith, unlink_next s.run_queue s.run_queue s s.run_queue),
            (
              q,
              subst (λ xs. ¬ Absent q (s.current_process ∷ xs)) (sym e) member,
              (λ z. used (ground (arith, unlink_state s.run_queue s.run_queue s q, not_q, z))),
              ground (arith, unlink_next s.run_queue s.run_queue s q, not_q, leads),
            ),
          )
    ]
