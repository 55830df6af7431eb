-- ===== src/Process/Kill.antt =====
-- `process_kill`, `process_exit` and `process_list` of kernel/process/process.c.
pub mod Removal
pub mod Head
use tet_os.Prelude.{
  ℕ, zero, suc, ◌+◌, List, [], ◌∷◌, ◌++◌, Bool, not, ◌&&◌, ◌==◌, if◌then◌else◌, update, ltb,
}
use tet_os.Prelude.Int.{ℤ, pos, negsuc}
use tet_os.Process.{proc_dead, max_procs, no_proc, Proc, Procs, reset_process_slot}

-- The `do … while (p != run_queue)` of `process_kill`: `prev` and `p` where it stops.
unfoldable pub kill_walk : ℕ → ℕ → ℕ → ℕ → ℕ → (ℕ → Proc) → ℕ × ℕ
kill_walk zero prev p head pid table = (prev, p)
kill_walk (suc fuel) prev p head pid table =
    let rest = kill_walk fuel p (table p).next head pid table in
    if (table p).pid == pid then (prev, p) else if (table p).next == head then (p, head) else rest

-- `prev->next = p->next; if (run_queue == p) run_queue = p->next; reset_process_slot(p);`
unfoldable pub unlink : ℕ → ℕ → Procs → Procs
unlink prev p s =
    let table =
      update s.process_table prev
        (record (s.process_table prev) { next = (s.process_table p).next }) in
    reset_process_slot p (record s {
      process_table = table;
      run_queue = if s.run_queue == p then (table p).next else s.run_queue;
    })

unfoldable pub process_kill : ℕ → Procs → ℤ × Procs
process_kill pid s =
    let (prev, p) = kill_walk max_procs s.run_queue s.run_queue s.run_queue pid s.process_table in
    if s.run_queue == no_proc
    then (negsuc 0, s)
    else if s.current_process == no_proc
    then (negsuc 0, s)
    else if pid == (s.process_table s.current_process).pid
    then (negsuc 1, s)
    else if not ((s.process_table p).pid == pid)
    then (negsuc 0, s)
    else if p == s.current_process
    then (negsuc 1, s)
    else (pos 0, unlink prev p s)

-- The state that the loop of `process_exit` waits in; it never returns.
unfoldable pub process_exit : Procs → Procs
process_exit s = record s {
  process_table =
      update s.process_table s.current_process
        (record (s.process_table s.current_process) { state = proc_dead });
}

-- The loop of `process_list` from `p` on, with `n` processes in `out` so far.
unfoldable pub list_procs : ℕ → ℕ → ℕ → ℕ → ℕ → (ℕ → Proc) → List ℕ
list_procs zero p n head max table = []
list_procs (suc fuel) p n head max table =
    let kept = if ltb n max then p ∷ [] else [] in
    let n' = if ltb n max then n + 1 else n in
    let rest = list_procs fuel (table p).next n' head max table in
    if (table p).next == head then kept else kept ++ rest

-- The processes in `out`; the C function answers their number.
unfoldable pub process_list : ℕ → Procs → List ℕ
process_list max s =
    if s.run_queue == no_proc
    then []
    else list_procs max_procs s.run_queue 0 s.run_queue max s.process_table
