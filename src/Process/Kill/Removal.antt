-- ===== src/Process/Kill/Removal.antt =====
-- What `process_kill` does to the ring.
use mathlib.Core.List.{head-eq_of_cons-eq, tail-eq_of_cons-eq}
use tet_os.Prelude.{
  false, ℕ, ◌<◌, ◌≡◌, ◌≢◌, refl, sym, ap, ◌∙◌, subst, List, [], ◌∷◌, ◌++◌, not, arith, ◌==◌,
  if◌then◌else◌, ◌⊎◌, inl, inr, if_cases,
}
use tet_os.Prelude.Int.{ℤ, pos, negsuc}
use tet_os.Prelude.Distinct.{
  All, Absent, Absent-cases, All-left, All-insert, Distinct-length, not-Absent,
}
use tet_os.Process.{Proc, Procs, clear_fds, reset_process_slot}
use tet_os.Process.Cycle.{Links, last, last_lem, Links-split, before_unique, not-Absent-last}
use tet_os.Process.Walks.{nexts, kill_walk_lem}
use tet_os.Process.Invariant.{IsQueue, IsSched, from_head, remove-IsQueue}
use tet_os.Process.Kill.{kill_walk, unlink, process_kill}

module _ (prev p : ℕ) (s : Procs) where
  pub unlink_next :
      (j : ℕ)
      → ((unlink prev p s).process_table j).next ≡ (
          if p == j
          then 16
          else if prev == j
          then (s.process_table p).next
          else (s.process_table j).next)
  unfolding unlink reset_process_slot clear_fds
  unlink_next j = ground arith

  pub unlink_state :
      (j : ℕ)
      → ((unlink prev p s).process_table j).state
        ≡ (if p == j then 255 else (s.process_table j).state)
  unfolding unlink reset_process_slot clear_fds
  unlink_state j = ground arith

module _ (table : ℕ → Proc) (cur head : ℕ) (rest : List ℕ) (v : IsQueue table cur head rest)
    (pid : ℕ) (not_head : (table head).pid ≢ pid) where
  -- The walk finds a process with the number, and the one before it in the ring.
  Found : ℕ × ℕ → Type 0
  Found (prev, q) =
      ((table q).pid ≡ pid)
      × ((table prev).next ≡ q)
      × ¬ Absent prev (cur ∷ rest)
      × ¬ Absent q (cur ∷ rest)

  walk :
      (((table (kill_walk 16 head head head pid table).1).pid ≢ pid)
        × All (λ q. (table q).pid ≢ pid) (cur ∷ rest))
      ⊎ Found (kill_walk 16 head head head pid table)
  unfolding Found
  walk =
      let (xs, links, distinct, over, back) = from_head table cur head rest v in
      elim (kill_walk_lem table 16 head head xs head pid links distinct.0
        (Distinct-length 16 (head ∷ xs) distinct (over (λ x. x < 16) v.slots))) [
          | inr (w, none) ↦ inl (
            (λ e. not_head (ap (λ r. (table r.1).pid) (sym w) ∙ e)),
            back (λ q. (table q).pid ≢ pid) none,
          )
          | inl ([], q, post, e, w, at, before) ↦
              absurd (not_head (ap (λ x. (table x).pid) (head-eq_of_cons-eq e) ∙ at))
          | inl (x ∷ pre, q, post, e, w, at, before) ↦
              let same : xs ≡ pre ++ q ∷ post = tail-eq_of_cons-eq e in
              let start : x ≡ head = sym (head-eq_of_cons-eq e) in
              let here : kill_walk 16 head head head pid table ≡ (last head pre, q) =
                w ∙ ap (λ y. (last y pre, q)) start in
              let ring = subst (λ ys. Links (nexts table) head ys head) same links in
              let front = (Links-split (nexts table) head pre q post head ring).0 in
              inr (
                subst Found (sym here) (
                  at,
                  last_lem (nexts table) head pre q front,
                  (λ absent. not-Absent-last head pre (
                      All-left (λ y. last head pre ≢ y) (head ∷ pre) (q ∷ post)
                        (subst (λ ys. Absent (last head pre) (head ∷ ys)) same
                          (over (λ y. last head pre ≢ y) absent)))),
                  (λ absent.
                      not-Absent q (head ∷ pre) post
                        (subst (λ ys. Absent q (head ∷ ys)) same (over (λ y. q ≢ y) absent))),
                ))
        ]

-- Taking out a process that is neither the current one nor the head.
unlink-IsSched :
    (prev p : ℕ) (s : Procs) (pre post : List ℕ)
    → IsSched s (pre ++ p ∷ post)
    → prev ≡ last s.current_process pre
    → p ≢ s.run_queue
    → IsSched (unlink prev p s) (pre ++ post)
unfolding unlink reset_process_slot
unlink-IsSched prev p s pre post v e head =
    remove-IsQueue s.process_table (unlink prev p s).process_table s.current_process s.run_queue
      (unlink prev p s).run_queue pre p post v (λ j n. ground (arith, unlink_next prev p s j, n, e))
      (unlink_state prev p s)
      (λ absent.
        let same : (unlink prev p s).run_queue ≡ s.run_queue = ground (arith, head) in
        v.in_ring (
          All-insert (λ x. s.run_queue ≢ x) (s.current_process ∷ pre) p post (λ q. head (sym q))
            (subst (λ h. Absent h (s.current_process ∷ pre ++ post)) same absent)))

gone : (prev p : ℕ) (s : Procs) → ((unlink prev p s).process_table p).state ≡ 255
gone prev p s = ground (arith, unlink_state prev p s p)

spared :
    (prev p : ℕ) (s : Procs) (j : ℕ)
    → p ≢ j
    → ((unlink prev p s).process_table j).state ≡ (s.process_table j).state
spared prev p s j apart = ground (arith, unlink_state prev p s j, apart)

module _ (pid : ℕ) (s : Procs) (prev p : ℕ) where
  -- What `process_kill` answers when its walk has stopped at `prev` and `p`.
  Outcome : ℤ × Procs → Type 0
  Outcome r =
      (((s.process_table s.current_process).pid ≡ pid) × (r ≡ (negsuc 1, s)))
      ⊎ (((s.process_table s.current_process).pid ≢ pid)
          × ((((s.process_table p).pid ≢ pid) × (r ≡ (negsuc 0, s)))
              ⊎ (((s.process_table p).pid ≡ pid)
                  × (p ≢ s.current_process)
                  × (r ≡ (pos 0, unlink prev p s)))))

  process_kill-Outcome :
      kill_walk 16 s.run_queue s.run_queue s.run_queue pid s.process_table ≡ (prev, p)
      → s.run_queue ≢ 16
      → s.current_process ≢ 16
      → Outcome (process_kill pid s)
  unfolding process_kill Outcome
  process_kill-Outcome w head cur =
      let some_head : (s.run_queue == 16) ≡ false = ground (arith, head) in
      let some_cur : (s.current_process == 16) ≡ false = ground (arith, cur) in
      rw (process_kill, w, some_head, some_cur)
        (if_cases Outcome (pid == (s.process_table s.current_process).pid)
          (λ h. inl (ground (arith, h), refl))
          (λ h.
            let other : (s.process_table s.current_process).pid ≢ pid = ground (arith, h) in
            if_cases Outcome (not ((s.process_table p).pid == pid))
              (λ h. inr (other, inl (ground (arith, h), refl)))
              (λ h.
                let found : (s.process_table p).pid ≡ pid = ground (arith, h) in
                let apart : p ≢ s.current_process =
                  λ e. other (ap (λ x. (s.process_table x).pid) (sym e) ∙ found) in
                let not_cur : (p == s.current_process) ≡ false = ground (arith, apart) in
                rw not_cur (inr (other, inr (found, apart, refl))))))

-- The slot at `run_queue` is one of the table.
pub head_slot : (s : Procs) (rest : List ℕ) → IsSched s rest → s.run_queue < 16
head_slot s rest v =
    let (xs, links, distinct, over, back) =
      from_head s.process_table s.current_process s.run_queue rest v in
    (over (λ x. x < 16) v.slots).0

-- From a ring that begins with the current process, and with `run_queue` not the process to be
-- killed: `process_kill` answers -2 and changes nothing when the number is that of the current
-- process; -1, and changes nothing, when no process of the ring has the number; and otherwise 0, and
-- one process with that number, not the current one, has left the ring: its slot is unused, the
-- others keep their order and states, and what is left is such a ring again.
pub process_kill_lem :
    (pid : ℕ) (s : Procs) (rest : List ℕ)
    → IsSched s rest
    → (s.process_table s.run_queue).pid ≢ pid
    → (((s.process_table s.current_process).pid ≡ pid) × (process_kill pid s ≡ (negsuc 1, s)))
      ⊎ (All (λ q. (s.process_table q).pid ≢ pid) (s.current_process ∷ rest)
          × (process_kill pid s ≡ (negsuc 0, s)))
      ⊎ (((s.process_table s.current_process).pid ≢ pid)
          × ((pre : List ℕ) × (p : ℕ) × (post : List ℕ) × (rest ≡ pre ++ p ∷ post)
              × ((s.process_table p).pid ≡ pid)
              × ((process_kill pid s).0 ≡ pos 0)
              × (((process_kill pid s).1.process_table p).state ≡ 255)
              × ((j : ℕ)
                  → p ≢ j
                  → ((process_kill pid s).1.process_table j).state ≡ (s.process_table j).state)
              × IsSched (process_kill pid s).1 (pre ++ post)))
unfolding Outcome Found
process_kill_lem pid s rest v not_head =
    let (prev, q) = kill_walk 16 s.run_queue s.run_queue s.run_queue pid s.process_table in
    let some_head : s.run_queue ≢ 16 = omega (arith, head_slot s rest v) in
    let some_cur : s.current_process ≢ 16 = omega (arith, v.slots.0) in
    elim (process_kill-Outcome pid s prev q refl some_head some_cur) [
      | inl self ↦ inl self
      | inr (not_self, inl (missing, e)) ↦
          elim (walk s.process_table s.current_process s.run_queue rest v pid not_head) [
            | inl (none, all) ↦ inr (inl (all, e))
            | inr (at, link, prev_in, q_in) ↦ absurd (missing at)
          ]
      | inr (not_self, inr (found, other, e)) ↦
          elim (walk s.process_table s.current_process s.run_queue rest v pid not_head) [
            | inl (none, all) ↦ absurd (none found)
            | inr (at, link, prev_in, q_in) ↦ elim (Absent-cases q rest) [
              | inl absent ↦ absurd (q_in (other, absent))
              | inr (pre, post, split) ↦
                  let v' = subst (IsSched s) split v in
                  let before : prev ≡ last s.current_process pre =
                    before_unique (nexts s.process_table) s.current_process pre q post prev v'.links
                      v'.distinct link
                      (subst (λ ys. ¬ Absent prev (s.current_process ∷ ys)) split prev_in) in
                  inr (
                    inr (
                      not_self,
                      (
                        pre,
                        q,
                        post,
                        split,
                        found,
                        ap (λ r. r.0) e,
                        ap (λ r. (r.1.process_table q).state) e ∙ gone prev q s,
                        (λ j apart.
                            ap (λ r. (r.1.process_table j).state) e ∙ spared prev q s j apart),
                        subst (λ r. IsSched r.1 (pre ++ post)) (sym e)
                            (unlink-IsSched prev q s pre post v' before
                              (λ h. not_head (ap (λ x. (s.process_table x).pid) (sym h) ∙ found))),
                      ),
                    ))
            ]
          ]
    ]
