-- ===== src/Syscall.antt =====
-- kernel/syscall/syscall.c: the test of the pointers that user code passes, and the calls that end in
-- the process table, the heap and the console. The calls on files are left out.
pub mod Pointers
mod Tests
use tet_os.Prelude.{
  ℕ, zero, suc, ◌+◌, ◌==◌, if◌then◌else◌, ltb, add32, sub32, Bool, true, false, Option, none, some,
}
use tet_os.Prelude.Int.{ℤ, pos, minus, signed32}
use tet_os.Heap.{Heap, kmalloc, kfree}
use tet_os.Vga.{Vga, vga_putchar}
use tet_os.Process.{Procs, no_proc}
use tet_os.Process.Kill.{process_exit}
use tet_os.Process.Create.{process_fork_stub}

abbrev pub user_ptr_min : ℕ
user_ptr_min = 0x1000

abbrev pub user_ptr_max : ℕ
user_ptr_max = 0xBFFFFFFF

unfoldable pub validate_user_ptr : ℕ → ℕ → Bool
validate_user_ptr p len =
    let last = sub32 (add32 p len) 1 in
    if ltb p user_ptr_min
    then false
    else if ltb user_ptr_max p
    then false
    else if len == 0
    then true
    else if ltb last p
    then false
    else if ltb user_ptr_max last
    then false
    else true

unfoldable sys_exit : Procs → Procs
sys_exit s = process_exit s

-- The loop of `sys_write` from the byte `i` on, the rounds left first; `buf` is the memory.
unfoldable sys_write_loop : ℕ → ℕ → ℕ → (ℕ → ℕ) → Vga → Vga
sys_write_loop zero i p buf v = v
sys_write_loop (suc left) i p buf v =
    sys_write_loop left (i + 1) p buf (vga_putchar (buf (p + i)) v)

unfoldable sys_write : ℕ → ℕ → (ℕ → ℕ) → Vga → ℤ × Vga
sys_write ebx ecx buf v =
    let written = sys_write_loop ecx 0 ebx buf v in
    if validate_user_ptr ebx ecx then (signed32 ecx, written) else (minus 1, v)

unfoldable sys_getpid : Procs → ℤ
sys_getpid s =
    if s.current_process == no_proc then pos 0 else signed32 (s.process_table s.current_process).pid

unfoldable sys_fork : Procs → ℤ × Procs
sys_fork s =
    let (child, s') = process_fork_stub s in
    let result : ℤ = elim child [ none ↦ minus 1 | some pid ↦ signed32 pid ] in (result, s')

unfoldable sys_malloc : ℕ → Heap → ℤ × Heap
sys_malloc ebx h = let (p, h') = kmalloc ebx h in (signed32 p, h')

unfoldable sys_free : ℕ → Heap → ℤ × Heap
sys_free ebx h = (pos 0, kfree ebx h)
