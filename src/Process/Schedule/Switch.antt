-- ===== src/Process/Schedule/Switch.antt =====
-- What `schedule` does to the ring, on each of its paths.
use tet_os.Prelude.{
  ℕ, ◌≡◌, ◌≢◌, refl, ◌∙◌, List, [], ◌∷◌, ◌++◌, true, false, arith, ◌==◌, if◌then◌else◌,
}
use tet_os.Prelude.Distinct.{All}
use tet_os.Process.{Proc, Procs, reset_process_slot}
use tet_os.Process.Cycle.{last}
use tet_os.Process.Walks.{find_prev_lem, first_ready, find_ready_lem}
use tet_os.Process.Invariant.{IsSched, IsQueue-length}
use tet_os.Process.Kill.{unlink}
use tet_os.Process.Kill.Removal.{unlink_next, unlink_state}
use tet_os.Process.Schedule.{find_ready, find_prev, set_state, switch_to, bury}
use tet_os.Process.Schedule.Turn.{bury-IsQueue}

pub first_ready-next :
    (table : ℕ → Proc) (pre : List ℕ) (c : ℕ) (post : List ℕ) (stop : ℕ)
    → All (λ p. (table p).state ≢ 0) pre
    → (table c).state ≡ 0
    → first_ready table (pre ++ c ∷ post) stop ≡ c
unfolding first_ready
first_ready-next table [] c post stop busy ready = ground (arith, ready)
first_ready-next table (x ∷ pre) c post stop (b, busy) ready =
    ground (arith, b, first_ready-next table pre c post stop busy ready)

pub first_ready-none :
    (table : ℕ → Proc) (xs : List ℕ) (stop : ℕ)
    → All (λ p. (table p).state ≢ 0) xs
    → first_ready table xs stop ≡ stop
unfolding first_ready
first_ready-none table [] stop busy = refl
first_ready-none table (x ∷ xs) stop (b, busy) =
    ground (arith, b, first_ready-none table xs stop busy)

pub last-cons :
    (a : ℕ) (pre : List ℕ) (c : ℕ) (post : List ℕ) → last a (pre ++ c ∷ post) ≡ last c post
last-cons a [] c post = refl
last-cons a (x ∷ pre) c post = last-cons x pre c post

-- No switch is asked for, and every process but the current one is as before.
abbrev pub HasNoSwitch : Procs → Procs → Type 0
HasNoSwitch s s' =
    (s'.sched_switch_esp ≡ s.sched_switch_esp)
    × (s'.sched_switch_cr3 ≡ s.sched_switch_cr3)
    × ((j : ℕ) → s.current_process ≢ j → s'.process_table j ≡ s.process_table j)

-- `c` runs in `s'`, and the switch was given the stack pointer and the page directory that `c` had in
-- `s`, the kernel's if it has none of its own.
abbrev pub IsLoaded : ℕ → ℕ → Procs → Procs → Type 0
IsLoaded kernel_pd c s s' =
    ((s'.process_table c).state ≡ 1)
    × (s'.sched_switch_esp ≡ (s.process_table c).esp)
    × (s'.sched_switch_cr3 ≡ (
        if (s.process_table c).user_page_dir == 0
        then kernel_pd
        else (s.process_table c).user_page_dir))

-- The state after the current process has been taken out and `c` runs.
buried : ℕ → ℕ → ℕ → Procs → Procs
buried kernel_pd prev c s = record (switch_to kernel_pd c (unlink prev s.current_process s)) {
  quantum_count = 0;
}

module _ (kernel_pd : ℕ) (s : Procs) (prev c : ℕ) where
  buried_next :
      (j : ℕ)
      → j ≢ s.current_process
      → ((buried kernel_pd prev c s).process_table j).next
        ≡ (if prev == j then (s.process_table s.current_process).next else (s.process_table j).next)
  unfolding buried switch_to set_state
  buried_next j n = ground (arith, n, unlink_next prev s.current_process s j)

  buried_state :
      (j : ℕ)
      → ((buried kernel_pd prev c s).process_table j).state
        ≡ (if c == j then 1 else if s.current_process == j then 255 else (s.process_table j).state)
  unfolding buried switch_to set_state
  buried_state j = ground (arith, unlink_state prev s.current_process s j)

  buried_head : (buried kernel_pd prev c s).run_queue ≡ (
      if s.run_queue == s.current_process
      then (s.process_table s.current_process).next
      else s.run_queue)
  unfolding buried switch_to set_state unlink reset_process_slot
  buried_head = ground arith

module _ (kernel_pd : ℕ) (s : Procs) (rest : List ℕ) (v : IsSched s rest) where
  candidate :
      find_ready 16 (s.process_table s.current_process).next s.current_process s.process_table
      ≡ first_ready s.process_table rest s.current_process
  candidate =
      find_ready_lem s.process_table 16 s.current_process rest s.current_process v.links
        v.distinct.0
        (omega (arith, IsQueue-length s.process_table s.current_process s.run_queue rest v))

  before :
      find_prev 16 s.current_process s.current_process s.process_table ≡ last s.current_process rest
  before =
      find_prev_lem s.process_table 16 s.current_process rest s.current_process v.links v.distinct.0
        (omega (arith, IsQueue-length s.process_table s.current_process s.run_queue rest v))

  -- There is no other process: the dead one runs again.
  pub bury-alone :
      All (λ p. (s.process_table p).state ≢ 0) rest
      → bury kernel_pd s ≡ set_state s.current_process 1 s
  unfolding bury set_state
  bury-alone none =
      let self : (s.current_process == s.current_process) ≡ true = ground arith in
      rw (bury, candidate, first_ready-none s.process_table rest s.current_process none, self) refl

module _ (kernel_pd : ℕ) (s : Procs) (pre : List ℕ) (c : ℕ) (post : List ℕ)
    (v : IsSched s (pre ++ c ∷ post)) (busy : All (λ p. (s.process_table p).state ≢ 0) pre)
    (ready : (s.process_table c).state ≡ 0) where
  bury_run : bury kernel_pd s ≡ buried kernel_pd (last c post) c s
  unfolding buried bury switch_to
  bury_run =
      let found =
        candidate kernel_pd s (pre ++ c ∷ post) v
        ∙ first_ready-next s.process_table pre c post s.current_process busy ready in
      let prev = before kernel_pd s (pre ++ c ∷ post) v ∙ last-cons s.current_process pre c post in
      let other : (c == s.current_process) ≡ false = ground (arith, ready, v.current) in
      rw (bury, found, prev, other) refl

  -- Another process takes the place of one that has died.
  pub bury-next :
      ((bury kernel_pd s).current_process ≡ c)
      × (((bury kernel_pd s).process_table s.current_process).state ≡ 255)
      × IsSched (bury kernel_pd s) (post ++ pre)
  unfolding buried switch_to
  bury-next =
      let other : (c == s.current_process) ≡ false = ground (arith, ready, v.current) in
      rw bury_run (
        refl,
        ground (arith, buried_state kernel_pd s (last c post) c s.current_process, other),
        bury-IsQueue s.process_table (buried kernel_pd (last c post) c s).process_table
            s.current_process s.run_queue pre c post v
            (buried kernel_pd (last c post) c s).run_queue (buried_next kernel_pd s (last c post) c)
            (buried_state kernel_pd s (last c post) c) (buried_head kernel_pd s (last c post) c),
      )

  pub bury_kept :
      (j : ℕ)
      → c ≢ j
      → s.current_process ≢ j
      → ((bury kernel_pd s).process_table j).state ≡ (s.process_table j).state
  bury_kept j n m = rw bury_run (ground (arith, buried_state kernel_pd s (last c post) c j, n, m))

  pub bury_quantum : (bury kernel_pd s).quantum_count ≡ 0
  unfolding buried
  bury_quantum = rw bury_run refl

  -- The new process runs, and its stack pointer and page directory are handed to the switch.
  pub bury-IsLoaded : IsLoaded kernel_pd c s (bury kernel_pd s)
  unfolding buried switch_to set_state unlink reset_process_slot
  bury-IsLoaded =
      let other : (c == s.current_process) ≡ false = ground (arith, ready, v.current) in
      rw bury_run (
        ground (arith, buried_state kernel_pd s (last c post) c c),
        ground (arith, other),
        ground (arith, other),
      )
