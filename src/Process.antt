-- ===== src/Process.antt =====
-- kernel/process/process.c: the table of processes and their circular run queue. A `process_t *` is
-- the number of the slot in the table; NULL is the number behind the last slot. The heap that the
-- stacks come from and the words of the stacks are part of the state.
pub mod Create
pub mod Kill
pub mod Schedule
pub mod Cycle
pub mod Walks
pub mod Invariant
pub mod Runs
mod Tests
use tet_os.Prelude.{
  ℕ, zero, suc, ◌+◌, not, ◌==◌, if◌then◌else◌, update, add32, [], ◌∷◌, get_or, ltb,
}
use tet_os.Heap.{Heap, kfree}

abbrev pub proc_ready : ℕ
proc_ready = 0

abbrev pub proc_running : ℕ
proc_running = 1

-- `PROC_ZOMBIE` is the same number.
abbrev pub proc_dead : ℕ
proc_dead = 3

abbrev pub proc_unused : ℕ
proc_unused = 0xFF

abbrev pub max_procs : ℕ
max_procs = 16

abbrev pub proc_stack : ℕ
proc_stack = 4096

abbrev pub sched_quantum : ℕ
sched_quantum = 5

abbrev max_fd : ℕ
max_fd = 16

abbrev pub no_proc : ℕ
no_proc = max_procs

pub record FdEntry : Type 0 where
  pub inode_idx : ℕ
  pub offset : ℕ

-- `process_t`; its arrays are functions from the index, and every entry behind their ends stays.
pub record Proc : Type 0 where
  pub pid : ℕ
  pub state : ℕ
  pub esp : ℕ
  pub stack : ℕ
  pub name : ℕ → ℕ
  pub next : ℕ
  pub user_page_dir : ℕ
  pub user_fd : ℕ → FdEntry
  pub user_fd_used : ℕ → ℕ

-- The static variables of the file, the one of `schedule`, and the memory that the file writes.
pub record Procs : Type 0 where
  pub process_table : ℕ → Proc
  pub run_queue : ℕ
  pub current_process : ℕ
  pub next_pid : ℕ
  pub sched_switch_esp : ℕ
  pub sched_switch_cr3 : ℕ
  pub quantum_count : ℕ
  pub heap : Heap
  pub words : ℕ → ℕ

-- `for (i = 0; i < 31 && src[i]; i++) dst[i] = src[i]; dst[i] = '\0';`, the rounds left first.
unfoldable pub name_loop : ℕ → ℕ → (ℕ → ℕ) → (ℕ → ℕ) → ℕ → ℕ
name_loop zero i dst src = update dst i 0
name_loop (suc left) i dst src =
    let rest = name_loop left (i + 1) (update dst i (src i)) src in
    if not (src i == 0) then rest else update dst i 0

unfoldable pub copy_name : (ℕ → ℕ) → (ℕ → ℕ) → ℕ → ℕ
copy_name dst src = name_loop 31 0 dst src

-- The loop over the descriptors of a process.
unfoldable pub clear_fds : Proc → Proc
clear_fds p = record p {
  user_fd = λ i. if ltb i max_fd then record { inode_idx = 0; offset = 0 } else p.user_fd i;
  user_fd_used = λ i. if ltb i max_fd then 0 else p.user_fd_used i;
}

unfoldable pub reset_process_slot : ℕ → Procs → Procs
reset_process_slot i s =
    let p = s.process_table i in
    record s {
      heap = if p.stack == 0 then s.heap else kfree p.stack s.heap;
      process_table = update s.process_table i (
          clear_fds (record p {
            stack = 0;
            pid = 0;
            state = proc_unused;
            esp = 0;
            name = update p.name 0 0;
            next = no_proc;
            user_page_dir = 0;
          }));
    }

-- The loop of `process_init` from slot `i` on, the rounds left first.
unfoldable pub init_slots : ℕ → ℕ → (ℕ → Proc) → ℕ → Proc
init_slots zero i table = table
init_slots (suc left) i table =
    init_slots left (i + 1)
      (update table i (record (table i) { state = proc_unused; stack = 0; next = no_proc }))

-- "shell"
abbrev pub shell_name : ℕ → ℕ
shell_name i = get_or (115 ∷ 104 ∷ 101 ∷ 108 ∷ 108 ∷ []) i 0

unfoldable pub process_init : Procs → Procs
process_init s =
    let table = init_slots max_procs 0 s.process_table in
    let p = table 0 in
    record s {
      process_table = update table 0 (
          clear_fds (record p {
            pid = s.next_pid;
            state = proc_running;
            esp = 0;
            stack = 0;
            next = 0;
            name = copy_name p.name shell_name;
            user_page_dir = 0;
          }));
      next_pid = add32 s.next_pid 1;
      run_queue = 0;
      current_process = 0;
    }
