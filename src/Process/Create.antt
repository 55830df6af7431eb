-- ===== src/Process/Create.antt =====
-- `process_create`, `process_create_user` and `process_fork_stub` of kernel/process/process.c.
pub mod Insertion
pub mod Frame
use tet_os.Prelude.{
  ℕ, zero, suc, ◌+◌, List, [], ◌∷◌, Option, none, some, ◌==◌, if◌then◌else◌, update, add32, sub32,
  get_or,
}
use tet_os.Prelude.Int.{ℤ, pos, negsuc}
use tet_os.Heap.{Heap, kmalloc}
use tet_os.Process.{
  proc_ready, proc_dead, proc_unused, proc_stack, no_proc, Proc, Procs, copy_name, clear_fds,
}

-- `*(--sp) = v` for each value in turn: the stack pointer and the words after it.
unfoldable pub push_words : List ℕ → ℕ → (ℕ → ℕ) → ℕ × (ℕ → ℕ)
push_words [] sp words = (sp, words)
push_words (v ∷ vs) sp words = push_words vs (sub32 sp 4) (update words (sub32 sp 4) v)

-- The values of the interrupt frame, in the order in which they are pushed.
abbrev pub kernel_frame : ℕ → List ℕ
kernel_frame entry = 0x202 ∷ 0x08 ∷ entry ∷ 0 ∷ 32 ∷ 0 ∷ 0 ∷ 0 ∷ 0 ∷ 0 ∷ 0 ∷ 0 ∷ 0 ∷ 0x10 ∷ []

abbrev pub user_frame : ℕ → ℕ → List ℕ
user_frame entry user_stack_top =
    0x23 ∷ user_stack_top ∷ 0x202 ∷ 0x1B ∷ entry ∷ 0 ∷ 32 ∷ 0 ∷ 0 ∷ 0 ∷ 0 ∷ 0 ∷ 0 ∷ 0 ∷ 0 ∷ 0x23
    ∷ []

-- The search for an unused slot from slot `i` on, the rounds left first; slot 0 is skipped.
unfoldable pub find_slot : ℕ → ℕ → (ℕ → Proc) → Option ℕ
find_slot zero i table = none
find_slot (suc left) i table =
    let rest = find_slot left (i + 1) table in
    if (table i).state == proc_unused then some i else rest

-- `p->next = current_process->next; current_process->next = p;`
unfoldable pub insert_after_current : ℕ → Procs → Procs
insert_after_current i s =
    let linked =
      update s.process_table i
        (record (s.process_table i) { next = (s.process_table s.current_process).next }) in
    record s {
      process_table =
          update linked s.current_process (record (linked s.current_process) { next = i });
    }

-- The fields that both functions set. `clear` is the part that only `process_create_user` has.
unfoldable pub new_proc : Proc → ℕ → ℕ → (ℕ → ℕ) → (Proc → Proc) → Proc
new_proc p pid stack name clear =
    clear (record p { pid = pid; state = proc_ready; stack = stack; name = copy_name p.name name })

-- What both functions do with the slot, once the stack is there.
unfoldable pub fill_slot : ℕ → ℕ → (ℕ → ℕ) → List ℕ → (Proc → Proc) → Procs → Procs
fill_slot i stack name frame clear s =
    let (sp, words') = push_words frame (add32 stack proc_stack) s.words in
    insert_after_current i (record s {
      next_pid = add32 s.next_pid 1;
      words = words';
      process_table =
          update s.process_table i
            (record (new_proc (s.process_table i) s.next_pid stack name clear) { esp = sp });
    })

unfoldable pub create_with : List ℕ → (Proc → Proc) → (ℕ → ℕ) → Procs → ℕ × Procs
create_with frame clear name s =
    let (stack, heap') = kmalloc proc_stack s.heap in
    elim (find_slot 15 1 s.process_table) [
      | none ↦ (no_proc, s)
      | some i ↦
          (if stack == 0
            then (no_proc, record s { heap = heap' })
            else (i, fill_slot i stack name frame clear (record s { heap = heap' })))
    ]

-- The result is the new process, or NULL.
unfoldable pub process_create : ℕ → (ℕ → ℕ) → Procs → ℕ × Procs
process_create entry name s = create_with (kernel_frame entry) (λ p. p) name s

unfoldable pub process_create_user : ℕ → ℕ → (ℕ → ℕ) → Procs → ℕ × Procs
process_create_user entry user_stack_top name s =
    create_with (user_frame entry user_stack_top) (λ p. clear_fds (record p { user_page_dir = 0 }))
      name s

-- "fork-child"
abbrev pub fork_name : ℕ → ℕ
fork_name i = get_or (102 ∷ 111 ∷ 114 ∷ 107 ∷ 45 ∷ 99 ∷ 104 ∷ 105 ∷ 108 ∷ 100 ∷ []) i 0

-- `none` is its -1.
unfoldable pub process_fork_stub : Procs → Option ℕ × Procs
process_fork_stub s =
    let (child, s') = process_create 0 fork_name s in
    if s.current_process == no_proc then (none, s) else if child == no_proc then (none, s') else (
      some (s'.process_table child).pid,
      record s' {
        process_table =
            update s'.process_table child (record (s'.process_table child) { state = proc_dead });
      },
    )
