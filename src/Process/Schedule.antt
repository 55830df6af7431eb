-- ===== src/Process/Schedule.antt =====
-- `schedule` of kernel/process/process.c, which the timer interrupt calls.
pub mod Turn
pub mod Switch
pub mod Preempt
pub mod Tick
pub mod Fair
use tet_os.Prelude.{
  ℕ, zero, suc, ◌+◌, Bool, not, ◌&&◌, ◌||◌, ◌==◌, if◌then◌else◌, update, add32, ltb,
}
use tet_os.Process.{
  proc_ready, proc_running, proc_dead, max_procs, no_proc, sched_quantum, Proc, Procs,
}
use tet_os.Process.Kill.{unlink}

-- `while (candidate != stop && candidate->state != PROC_READY) candidate = candidate->next;`
unfoldable pub find_ready : ℕ → ℕ → ℕ → (ℕ → Proc) → ℕ
find_ready zero candidate stop table = candidate
find_ready (suc fuel) candidate stop table =
    let rest = find_ready fuel (table candidate).next stop table in
    if not (candidate == stop) && not ((table candidate).state == proc_ready)
    then rest
    else candidate

-- `while (prev->next != dead) prev = prev->next;`
unfoldable pub find_prev : ℕ → ℕ → ℕ → (ℕ → Proc) → ℕ
find_prev zero prev dead table = prev
find_prev (suc fuel) prev dead table =
    let rest = find_prev fuel (table prev).next dead table in
    if not ((table prev).next == dead) then rest else prev

unfoldable pub set_state : ℕ → ℕ → Procs → Procs
set_state i st s = record s {
  process_table = update s.process_table i (record (s.process_table i) { state = st });
}

-- The end of both paths: `candidate` becomes the running process. `kernel_pd` is the page directory
-- that `vmm_get_kernel_pd` answers.
unfoldable pub switch_to : ℕ → ℕ → Procs → Procs
switch_to kernel_pd candidate s =
    let s' = set_state candidate proc_running s in
    let p = s'.process_table candidate in
    record s' {
      current_process = candidate;
      sched_switch_esp = p.esp;
      sched_switch_cr3 = if p.user_page_dir == 0 then kernel_pd else p.user_page_dir;
    }

-- The path for a current process that has died.
unfoldable pub bury : ℕ → Procs → Procs
bury kernel_pd s =
    let dead = s.current_process in
    let prev = find_prev max_procs dead dead s.process_table in
    let candidate = find_ready max_procs (s.process_table dead).next dead s.process_table in
    if candidate == dead
    then set_state dead proc_running s
    else record (switch_to kernel_pd candidate (unlink prev dead s)) { quantum_count = 0 }

-- The current process is saved, and ready again if it was running.
unfoldable pub give_up : ℕ → Procs → Procs
give_up regs s =
    let saved = record s {
      process_table =
          update s.process_table s.current_process
            (record (s.process_table s.current_process) { esp = regs });
    } in
    if (saved.process_table s.current_process).state == proc_running
    then set_state s.current_process proc_ready saved
    else saved

-- The path at the end of a quantum.
unfoldable pub preempt : ℕ → ℕ → Procs → Procs
preempt kernel_pd regs s =
    let ready = give_up regs s in
    let cur = ready.current_process in
    let candidate = find_ready max_procs (ready.process_table cur).next cur ready.process_table in
    if candidate == cur
    then (if (ready.process_table cur).state == proc_ready
        then set_state cur proc_running ready
        else ready)
    else switch_to kernel_pd candidate ready

-- `regs` is the address of the saved registers.
unfoldable pub schedule : ℕ → ℕ → Procs → Procs
schedule kernel_pd regs s =
    let ticked = record s { quantum_count = add32 s.quantum_count 1 } in
    if s.current_process == no_proc
    then s
    else if (s.process_table s.current_process).state == proc_dead
    then bury kernel_pd s
    else if ltb ticked.quantum_count sched_quantum
    then ticked
    else preempt kernel_pd regs (record ticked { quantum_count = 0 })
