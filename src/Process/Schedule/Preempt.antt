-- ===== src/Process/Schedule/Preempt.antt =====
-- What `schedule` does to the ring at the end of a quantum.
use tet_os.Prelude.{
  ℕ, ◌≡◌, ◌≢◌, refl, sym, ap, ◌∙◌, subst, List, ◌∷◌, ◌++◌, true, false, arith, ◌==◌, if◌then◌else◌,
  inl, update,
}
use tet_os.Prelude.Distinct.{All, All-map, All-both, All-left}
use tet_os.Process.{Procs}
use tet_os.Process.Cycle.{Links-from}
use tet_os.Process.Walks.{nexts, first_ready, find_ready_lem}
use tet_os.Process.Invariant.{IsSched, IsQueue-length, recur-IsQueue}
use tet_os.Process.Schedule.{find_ready, set_state, switch_to, give_up, preempt}
use tet_os.Process.Schedule.Turn.{preempt-IsQueue}
use tet_os.Process.Schedule.Switch.{IsLoaded, HasNoSwitch, first_ready-next, first_ready-none}

-- The current process gives up the processor: its registers are saved, and it is ready.
yielded : ℕ → Procs → Procs
yielded regs s = set_state s.current_process 0 (record s {
  process_table =
      update s.process_table s.current_process
        (record (s.process_table s.current_process) { esp = regs });
})

gave_up :
    (regs : ℕ) (s : Procs)
    → (s.process_table s.current_process).state ≡ 1
    → give_up regs s ≡ yielded regs s
unfolding give_up yielded
gave_up regs s running =
    let saved =
      update s.process_table s.current_process
        (record (s.process_table s.current_process) { esp = regs }) in
    let on : ((saved s.current_process).state == 1) ≡ true = ground (arith, running) in rw on refl

module _ (regs : ℕ) (s : Procs) where
  yielded_cur : (yielded regs s).current_process ≡ s.current_process
  unfolding yielded set_state
  yielded_cur = refl

  yielded_next : (j : ℕ) → ((yielded regs s).process_table j).next ≡ (s.process_table j).next
  unfolding yielded set_state
  yielded_next j = ground arith

  yielded_state :
      (j : ℕ)
      → ((yielded regs s).process_table j).state
        ≡ (if s.current_process == j then 0 else (s.process_table j).state)
  unfolding yielded set_state
  yielded_state j = ground arith

resumed_cur :
    (regs : ℕ) (s : Procs)
    → (set_state s.current_process 1 (yielded regs s)).current_process ≡ s.current_process
unfolding set_state yielded
resumed_cur regs s = refl

resumed-IsSched :
    (kernel_pd regs : ℕ) (s : Procs) (rest : List ℕ)
    → IsSched s rest
    → IsSched (set_state s.current_process 1 (yielded regs s)) rest
unfolding set_state yielded
resumed-IsSched kernel_pd regs s rest v =
    recur-IsQueue s.process_table (set_state s.current_process 1 (yielded regs s)).process_table
      s.current_process s.run_queue rest v (λ j. ground arith) (inl (ground arith))
      (λ j n. ground (arith, n))

-- The table after the switch to `c`.
module _ (kernel_pd regs c : ℕ) (s : Procs) where
  switched_next :
      (j : ℕ)
      → ((switch_to kernel_pd c (yielded regs s)).process_table j).next ≡ (s.process_table j).next
  unfolding switch_to set_state
  switched_next j = ground (arith, yielded_next regs s j)

  switched_state :
      (j : ℕ)
      → ((switch_to kernel_pd c (yielded regs s)).process_table j).state
        ≡ (if c == j then 1 else if s.current_process == j then 0 else (s.process_table j).state)
  unfolding switch_to set_state
  switched_state j = ground (arith, yielded_state regs s j)

module _ (kernel_pd regs : ℕ) (s : Procs) (rest : List ℕ) (v : IsSched s rest)
    (running : (s.process_table s.current_process).state ≡ 1) where
  candidate :
      find_ready 16
        ((yielded regs s).process_table s.current_process).next
        s.current_process
        (yielded regs s).process_table
      ≡ first_ready (yielded regs s).process_table rest s.current_process
  candidate =
      find_ready_lem (yielded regs s).process_table 16 s.current_process rest s.current_process
        (Links-from (nexts s.process_table) (nexts (yielded regs s).process_table) s.current_process
          s.current_process rest s.current_process (yielded_next regs s s.current_process)
          (All-map rest (λ x n. yielded_next regs s x) v.distinct.0) v.links)
        v.distinct.0
        (omega (arith, IsQueue-length s.process_table s.current_process s.run_queue rest v))

  -- The tests of `preempt`, with the candidate that its loop finds.
  preempt_run :
      (c : ℕ)
      → first_ready (yielded regs s).process_table rest s.current_process ≡ c
      → preempt kernel_pd regs s ≡ (
          if c == s.current_process
          then set_state s.current_process 1 (yielded regs s)
          else switch_to kernel_pd c (yielded regs s))
  unfolding preempt
  preempt_run c e =
      let same = gave_up regs s running in
      let found = candidate ∙ e in
      let ready : (((yielded regs s).process_table s.current_process).state == 0) ≡ true =
        ground (arith, yielded_state regs s s.current_process) in
      rw (preempt, same, yielded_cur regs s, found, ready) refl

  preempt-alone_run :
      All (λ p. (s.process_table p).state ≢ 0) rest
      → preempt kernel_pd regs s ≡ set_state s.current_process 1 (yielded regs s)
  preempt-alone_run busy =
      let none = first_ready-none (yielded regs s).process_table rest s.current_process (
        All-map rest
          (λ x (b, n).
            let kept : ((yielded regs s).process_table x).state ≡ (s.process_table x).state =
              ground (arith, yielded_state regs s x, n) in
            λ z. b (sym kept ∙ z))
          (All-both (λ x. (s.process_table x).state ≢ 0) (λ x. s.current_process ≢ x) rest busy
            v.distinct.0)) in
      let self : (s.current_process == s.current_process) ≡ true = ground arith in
      preempt_run s.current_process none ∙ rw self refl

  -- No other process is ready: the current one goes on, with its registers saved.
  pub preempt-alone :
      All (λ p. (s.process_table p).state ≢ 0) rest
      → ((preempt kernel_pd regs s).current_process ≡ s.current_process)
        × IsSched (preempt kernel_pd regs s) rest
  preempt-alone busy =
      subst (λ r. (r.current_process ≡ s.current_process) × IsSched r rest)
        (sym (preempt-alone_run busy)) (resumed_cur regs s, resumed-IsSched kernel_pd regs s rest v)

  pub preempt-alone-HasNoSwitch :
      All (λ p. (s.process_table p).state ≢ 0) rest → HasNoSwitch s (preempt kernel_pd regs s)
  unfolding set_state yielded
  preempt-alone-HasNoSwitch busy =
      subst (HasNoSwitch s) (sym (preempt-alone_run busy)) (refl, refl, λ j n. ground (arith, n))

  pub preempt-alone_state :
      All (λ p. (s.process_table p).state ≢ 0) rest
      → ((preempt kernel_pd regs s).process_table s.current_process).state ≡ 1
  unfolding set_state
  preempt-alone_state busy =
      ap (λ r. (r.process_table s.current_process).state) (preempt-alone_run busy) ∙ ground arith

module _ (kernel_pd regs : ℕ) (s : Procs) (pre : List ℕ) (c : ℕ) (post : List ℕ)
    (v : IsSched s (pre ++ c ∷ post)) (running : (s.process_table s.current_process).state ≡ 1)
    (busy : All (λ p. (s.process_table p).state ≢ 0) pre)
    (ready : (s.process_table c).state ≡ 0) where
  switched : preempt kernel_pd regs s ≡ switch_to kernel_pd c (yielded regs s)
  switched =
      let other : (c == s.current_process) ≡ false = ground (arith, ready, running) in
      let apart : All (λ x. s.current_process ≢ x) pre =
        All-left (λ x. s.current_process ≢ x) pre (c ∷ post) v.distinct.0 in
      let found =
        first_ready-next (yielded regs s).process_table pre c post s.current_process
          (All-map pre
            (λ x (b, n).
              let kept : ((yielded regs s).process_table x).state ≡ (s.process_table x).state =
                ground (arith, yielded_state regs s x, n) in
              λ z. b (sym kept ∙ z))
            (All-both (λ x. (s.process_table x).state ≢ 0) (λ x. s.current_process ≢ x) pre busy
              apart))
          (ground (arith, yielded_state regs s c, other, ready)) in
      preempt_run kernel_pd regs s (pre ++ c ∷ post) v running c found ∙ rw other refl

  -- The first process behind the current one that is ready takes its turn.
  pub preempt-next :
      ((preempt kernel_pd regs s).current_process ≡ c)
      × IsSched (preempt kernel_pd regs s) (post ++ s.current_process ∷ pre)
  unfolding switch_to set_state yielded
  preempt-next = rw switched (
    refl,
    preempt-IsQueue s.process_table (switch_to kernel_pd c (yielded regs s)).process_table
        s.current_process s.run_queue pre c post v (switched_next kernel_pd regs c s)
        (switched_state kernel_pd regs c s),
  )

  pub preempt_kept :
      (j : ℕ)
      → c ≢ j
      → s.current_process ≢ j
      → ((preempt kernel_pd regs s).process_table j).state ≡ (s.process_table j).state
  preempt_kept j n m = rw switched (ground (arith, switched_state kernel_pd regs c s j, n, m))

  pub preempt_quantum : (preempt kernel_pd regs s).quantum_count ≡ s.quantum_count
  unfolding switch_to set_state yielded
  preempt_quantum = rw switched refl

  -- The new process runs, and its stack pointer and page directory are handed to the switch.
  pub preempt-IsLoaded : IsLoaded kernel_pd c s (preempt kernel_pd regs s)
  unfolding switch_to set_state yielded
  preempt-IsLoaded =
      let other : (s.current_process == c) ≡ false = ground (arith, ready, running) in
      rw switched (
        ground (arith, switched_state kernel_pd regs c s c),
        ground (arith, other),
        ground (arith, other),
      )

  -- The old one keeps its registers, and is ready.
  pub preempt_saved :
      (((preempt kernel_pd regs s).process_table s.current_process).esp ≡ regs)
      × (((preempt kernel_pd regs s).process_table s.current_process).state ≡ 0)
  unfolding switch_to set_state yielded
  preempt_saved =
      let other : (c == s.current_process) ≡ false = ground (arith, ready, running) in
      rw switched (
        ground (arith, other),
        ground (arith, other, switched_state kernel_pd regs c s s.current_process),
      )
