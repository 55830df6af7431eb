-- ===== src/Process/Schedule/Tick.antt =====
-- One timer interrupt: the cases of `schedule`.
use tet_os.Prelude.{
  ℕ, ◌<◌, ◌≤◌, ◌≡◌, ◌≢◌, refl, sym, ap, ◌∙◌, subst, List, ◌∷◌, ◌++◌, false, arith, ◌==◌, ◌⊎◌, inl,
  inr, Bool-cases, ltb, add32,
}
use tet_os.Prelude.Distinct.{All}
use tet_os.Process.{Procs}
use tet_os.Process.Walks.{first_ready-cases}
use tet_os.Process.Invariant.{IsSched, recur-IsQueue}
use tet_os.Process.Schedule.{set_state, bury, preempt, schedule}
use tet_os.Process.Schedule.Switch.{
  bury-next, bury-alone, bury_kept, bury_quantum, IsLoaded, bury-IsLoaded, HasNoSwitch,
}
use tet_os.Process.Schedule.Preempt.{
  preempt-alone, preempt-next, preempt_kept, preempt_quantum, preempt-IsLoaded, preempt_saved,
  preempt-alone_state, preempt-alone-HasNoSwitch,
}

-- The current process has died, or its quantum ends with this tick.
abbrev pub IsDue : Procs → Type 0
IsDue s =
    ((s.process_table s.current_process).state ≡ 3)
    ⊎ (((s.process_table s.current_process).state ≡ 1) × (5 ≤ add32 s.quantum_count 1))

-- Where the old current process is, when the processes `tail` follow at the end of the ring: at the
-- end of its quantum behind `pre`, ready, with its registers saved; or nowhere if it has died.
abbrev pub HasLeft : ℕ → Procs → Procs → List ℕ → List ℕ → Type 0
HasLeft regs s s' pre tail =
    (((s.process_table s.current_process).state ≡ 1)
      × (5 ≤ add32 s.quantum_count 1)
      × (tail ≡ s.current_process ∷ pre)
      × ((s'.process_table s.current_process).esp ≡ regs)
      × ((s'.process_table s.current_process).state ≡ 0))
    ⊎ (((s.process_table s.current_process).state ≡ 3)
        × (tail ≡ pre)
        × ((s'.process_table s.current_process).state ≡ 255))

-- How a tick leads from `s`, with the ring `rest` behind the current process, to `s'`.
pub data Ticked (kernel_pd regs : ℕ) (s s' : Procs) (rest : List ℕ) : Type 0 where
  -- The quantum goes on.
  counted :
      (s.process_table s.current_process).state ≡ 1
      → add32 s.quantum_count 1 < 5
      → s' ≡ record s { quantum_count = add32 s.quantum_count 1 }
      → Ticked kernel_pd regs s s' rest
  -- No other process is ready: the current one goes on, or runs again if it had died, without a
  -- switch.
  alone :
      IsDue s
      → All (λ p. (s.process_table p).state ≢ 0) rest
      → s'.current_process ≡ s.current_process
      → (s'.process_table s.current_process).state ≡ 1
      → IsSched s' rest
      → HasNoSwitch s s'
      → Ticked kernel_pd regs s s' rest
  -- `c` is the first one that is ready; the old current process goes behind the others, or it has
  -- died and its slot is unused.
  turned :
      (pre : List ℕ) (c : ℕ) (post tail : List ℕ)
      → rest ≡ pre ++ c ∷ post
      → All (λ p. (s.process_table p).state ≢ 0) pre
      → (s.process_table c).state ≡ 0
      → s'.current_process ≡ c
      → IsLoaded kernel_pd c s s'
      → HasLeft regs s s' pre tail
      → IsSched s' (post ++ tail)
      → s'.quantum_count ≡ 0
      → ((j : ℕ)
          → c ≢ j
          → s.current_process ≢ j
          → (s'.process_table j).state ≡ (s.process_table j).state)
      → Ticked kernel_pd regs s s' rest

revived_cur : (s : Procs) → (set_state s.current_process 1 s).current_process ≡ s.current_process
unfolding set_state
revived_cur s = refl

revived_state :
    (s : Procs) → ((set_state s.current_process 1 s).process_table s.current_process).state ≡ 1
unfolding set_state
revived_state s = ground arith

revived-IsSched :
    (s : Procs) (rest : List ℕ) → IsSched s rest → IsSched (set_state s.current_process 1 s) rest
unfolding set_state
revived-IsSched s rest v =
    recur-IsQueue s.process_table (set_state s.current_process 1 s).process_table s.current_process
      s.run_queue rest v (λ j. ground arith) (inl (ground arith)) (λ j n. ground (arith, n))

revived-HasNoSwitch : (s : Procs) → HasNoSwitch s (set_state s.current_process 1 s)
unfolding set_state
revived-HasNoSwitch s = (refl, refl, λ j n. ground (arith, n))

module _ (kernel_pd regs : ℕ) (s : Procs) (rest : List ℕ) (v : IsSched s rest) where
  bury-Ticked :
      (s.process_table s.current_process).state ≡ 3
      → Ticked kernel_pd regs s (bury kernel_pd s) rest
  bury-Ticked dead = elim (first_ready-cases s.process_table rest s.current_process) [
    | inl (e, none) ↦
        let run = bury-alone kernel_pd s rest v none in
        alone (inl dead) none (ap (λ r. r.current_process) run ∙ revived_cur s)
          (ap (λ r. (r.process_table s.current_process).state) run ∙ revived_state s)
          (subst (λ r. IsSched r rest) (sym run) (revived-IsSched s rest v))
          (subst (HasNoSwitch s) (sym run) (revived-HasNoSwitch s))
    | inr (pre, c, post, split, e, ready, busy) ↦
        let v' = subst (IsSched s) split v in
        let (at, gone, w) = bury-next kernel_pd s pre c post v' busy ready in
        turned pre c post pre split busy ready at
          (bury-IsLoaded kernel_pd s pre c post v' busy ready) (inr (dead, refl, gone)) w
          (bury_quantum kernel_pd s pre c post v' busy ready)
          (bury_kept kernel_pd s pre c post v' busy ready)
  ]

  -- The state in which `schedule` calls it has the quantum reset.
  preempt-Ticked :
      (s.process_table s.current_process).state ≡ 1
      → 5 ≤ add32 s.quantum_count 1
      → Ticked kernel_pd regs s (preempt kernel_pd regs (record s { quantum_count = 0 })) rest
  preempt-Ticked running over =
      let s0 = record s { quantum_count = 0 } in
      elim (first_ready-cases s.process_table rest s.current_process) [
        | inl (e, none) ↦
            let (at, w) = preempt-alone kernel_pd regs s0 rest v running none in
            alone (inr (running, over)) none at
              (preempt-alone_state kernel_pd regs s0 rest v running none) w
              (preempt-alone-HasNoSwitch kernel_pd regs s0 rest v running none)
        | inr (pre, c, post, split, e, ready, busy) ↦
            let v' = subst (IsSched s0) split v in
            let (at, w) = preempt-next kernel_pd regs s0 pre c post v' running busy ready in
            let (saved, waits) = preempt_saved kernel_pd regs s0 pre c post v' running busy ready in
            turned pre c post (s.current_process ∷ pre) split busy ready at
              (preempt-IsLoaded kernel_pd regs s0 pre c post v' running busy ready)
              (inl (running, over, refl, saved, waits)) w
              (preempt_quantum kernel_pd regs s0 pre c post v' running busy ready)
              (preempt_kept kernel_pd regs s0 pre c post v' running busy ready)
      ]

  -- On a ring that begins with the current process: within the quantum of a running process a tick
  -- only counts. When the quantum ends or the current process has died, the first process behind it
  -- that is ready becomes the current one and runs, with its stack pointer and page directory handed
  -- to the switch and the count at 0; the others keep their order and states, and the old one has
  -- moved to the end, ready and with its registers saved, or out of the ring if it had died. If no
  -- other process is ready the current one runs on, even if it had died, no switch is asked for, and
  -- every other process is as before. The ring stays one.
  pub schedule-Ticked : Ticked kernel_pd regs s (schedule kernel_pd regs s) rest
  unfolding schedule
  schedule-Ticked =
      let some_proc : (s.current_process == 16) ≡ false = ground (arith, v.slots.0) in
      elim (Bool-cases ((s.process_table s.current_process).state == 3)) [
        | inl dead ↦ rw (schedule, some_proc, dead) (bury-Ticked (ground (arith, dead)))
        | inr alive ↦
            let running : (s.process_table s.current_process).state ≡ 1 =
              ground (arith, alive, v.current) in
            elim (Bool-cases (ltb (add32 s.quantum_count 1) 5)) [
              | inl within ↦
                  rw (schedule, some_proc, alive, within)
                    (counted running (ground (arith, within)) refl)
              | inr due ↦
                  rw (schedule, some_proc, alive, due)
                    (preempt-Ticked running (ground (arith, due)))
            ]
      ]
