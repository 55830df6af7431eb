-- ===== src/Ipc/Signal.antt =====
-- The signals of kernel/ipc/ipc.c.
use tet_os.Prelude.{ℕ, ◌==◌, if◌then◌else◌}
use tet_os.Prelude.Int.{ℤ, pos}
use tet_os.Process.{Procs}
use tet_os.Process.Kill.{process_kill, process_exit}

abbrev sigkill : ℕ
sigkill = 9

unfoldable send_signal : ℕ → ℕ → Procs → ℤ × Procs
send_signal pid sig s = if sig == sigkill then process_kill pid s else (pos 0, s)

unfoldable handle_signal : ℕ → Procs → Procs
handle_signal sig s = if sig == sigkill then process_exit s else s
