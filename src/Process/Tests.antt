-- ===== src/Process/Tests.antt =====
-- kernel/process/process.c on concrete inputs.
use tet_os.Prelude.{
  ℕ, ◌+◌, ◌*◌, ◌≤◌, ◌<◌, ◌≡◌, ◌≢◌, refl, [], ◌∷◌, ◌++◌, List, arith, if◌then◌else◌, ◌==◌, ltb, ◌⊎◌,
  inl,
}
use tet_os.Prelude.Int.{pos, negsuc}
use tet_os.Prelude.Distinct.{All, Absent}
use tet_os.Heap.{heap_init}
use tet_os.Process.{Proc, Procs, process_init}
use tet_os.Process.Create.{process_create}
use tet_os.Process.Kill.{process_kill}
use tet_os.Process.Kill.Removal.{process_kill_lem}
use tet_os.Process.Kill.Head.{process_kill_head}
use tet_os.Process.Schedule.{schedule, preempt, find_ready, give_up, switch_to, set_state}
use tet_os.Process.Schedule.Tick.{Ticked, schedule-Ticked}
use tet_os.Process.Schedule.Fair.{ticks, round_robin}
use tet_os.Process.Invariant.{IsSched}
use tet_os.Process.Runs.{here, next, created, ticked, HasRing, ring_invariant}

-- Slots 0, 1 and 2 are in use, with the pids 10, 11 and 12, and linked in a ring.
abbrev three : ℕ → Proc
three i = record {
  pid = if ltb i 3 then i + 10 else 0;
  state = if i == 0 then 1 else if ltb i 3 then 0 else 255;
  esp = 0;
  stack = 0;
  name = λ j. 0;
  next = if i == 2 then 0 else if ltb i 3 then i + 1 else 16;
  user_page_dir = 0;
  user_fd = λ j. record { inode_idx = 0; offset = 0 };
  user_fd_used = λ j. 0;
}

-- The ring with `run_queue` at the slot `head`; the first process runs.
abbrev queued : ℕ → Procs
queued head = record {
  process_table = three;
  run_queue = head;
  current_process = 0;
  next_pid = 13;
  sched_switch_esp = 0;
  sched_switch_cr3 = 0;
  quantum_count = 0;
  heap =
      heap_init (record {
        headers = λ a. record { size = 0; used = 0; magic = 0; next = 0 };
        heap_head = 0;
      });
  words = λ a. 0;
}

queued-IsSched : (head : ℕ) → head < 2 → IsSched (queued head) (1 ∷ 2 ∷ [])
queued-IsSched head l = record {
  links = (refl, (refl, refl));
  distinct = ((omega arith, (omega arith, tt)), ((omega arith, tt), (tt, tt)));
  slots = (omega arith, (omega arith, (omega arith, tt)));
  current = inl refl;
  waiting = (inl refl, (inl refl, tt));
  unused = λ p m (a, (b, (c, d))). ground (arith, a, b, c);
  in_ring = λ (a, (b, (c, d))). omega (arith, a, b, l);
}

process_kill_lem_example :
    ((◌≡◌ {A = ℕ} 10 12) × (process_kill 12 (queued 0) ≡ (negsuc 1, queued 0)))
    ⊎ (All (λ q. (three q).pid ≢ 12) (0 ∷ 1 ∷ 2 ∷ [])
        × (process_kill 12 (queued 0) ≡ (negsuc 0, queued 0)))
    ⊎ ((◌≢◌ {A = ℕ} 10 12)
        × ((pre : List ℕ) × (p : ℕ) × (post : List ℕ) × (1 ∷ 2 ∷ [] ≡ pre ++ p ∷ post)
            × ((three p).pid ≡ 12)
            × ((process_kill 12 (queued 0)).0 ≡ pos 0)
            × (((process_kill 12 (queued 0)).1.process_table p).state ≡ 255)
            × ((j : ℕ)
                → p ≢ j
                → ((process_kill 12 (queued 0)).1.process_table j).state ≡ (three j).state)
            × IsSched (process_kill 12 (queued 0)).1 (pre ++ post)))
process_kill_lem_example =
    process_kill_lem 12 (queued 0) (1 ∷ 2 ∷ []) (queued-IsSched 0 (omega arith)) (omega arith)

process_kill_head_example :
    ((process_kill 11 (queued 1)).0 ≡ pos 0)
    × (((process_kill 11 (queued 1)).1.process_table 1).state ≡ 255)
    × (((process_kill 11 (queued 1)).1.process_table 1).next ≡ 16)
    × ((q : ℕ) × ¬ Absent q (0 ∷ 1 ∷ 2 ∷ [])
        × (((process_kill 11 (queued 1)).1.process_table q).state ≢ 255)
        × (((process_kill 11 (queued 1)).1.process_table q).next ≡ 1))
process_kill_head_example =
    process_kill_head 11 (queued 1) (1 ∷ 2 ∷ []) (queued-IsSched 1 (omega arith)) refl (omega arith)

schedule-Ticked_example : Ticked 4096 500 (queued 0) (schedule 4096 500 (queued 0)) (1 ∷ 2 ∷ [])
schedule-Ticked_example =
    schedule-Ticked 4096 500 (queued 0) (1 ∷ 2 ∷ []) (queued-IsSched 0 (omega arith))

round_robin_example :
    (n : ℕ) × (n ≤ 5 * 2) × ((ticks 4096 (λ i. 500) n (queued 0)).current_process ≡ 2)
round_robin_example =
    round_robin 4096 (λ i. 500) (queued 0) (1 ∷ []) 2 [] (queued-IsSched 0 (omega arith)) refl
      (omega arith)

-- The second process runs after five ticks, the third after ten.
turns :
    ((ticks 4096 (λ i. 500) 4 (queued 0)).current_process ≡ 0)
    × ((ticks 4096 (λ i. 500) 5 (queued 0)).current_process ≡ 1)
    × ((ticks 4096 (λ i. 500) 10 (queued 0)).current_process ≡ 2)
unfolding ticks schedule preempt find_ready give_up switch_to set_state
turns = (refl, refl, refl)

abbrev booted : Procs
booted = process_init (queued 0)

abbrev later : Procs
later = schedule 4096 500 (process_create 77 (λ j. 65) booted).1

ring_invariant_example :
    HasRing later
    × ((p : ℕ) → p < 16 → (later.process_table p).state ≡ 1 → p ≡ later.current_process)
ring_invariant_example =
    ring_invariant (queued 0) later (next (next here (created 77 (λ j. 65))) (ticked 4096 500))
