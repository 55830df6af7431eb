-- ===== src/Ipc/Tests.antt =====
-- kernel/ipc/ipc.c on concrete inputs.
use tet_os.Prelude.{ℕ, ◌+◌, ◌≡◌, ◌≢◌, refl, true, [], ◌∷◌, ◌++◌, none, some, arith, cells_at, ◌≤◌}
use tet_os.Prelude.Int.{pos, minus}
use tet_os.Ipc.Spin.{spin_lock_init}
use tet_os.Ipc.Pipe.{Pipe, pipe_write, pipe_read}
use tet_os.Ipc.Pipe.Refine.{IsValid, contents, pipe_write_refines, pipe_read_refines}
use tet_os.Ipc.Mutex.{Mutex, mutex_init, lock_section}
use tet_os.Ipc.Mutex.Exclusion.{
  System, spinning, entered, winning, owns, guards, move, grab, start, Reach, here, next, call,
  enter, win, mutual_exclusion,
}

-- Three bytes across the end of the buffer.
abbrev wrapped : Pipe
wrapped = record {
  buffer = λ i. i;
  read_idx = 254;
  write_idx = 1;
  size = 3;
  lock = record { locked = 0 };
}

wrapped-IsValid : IsValid wrapped
wrapped-IsValid = omega arith

contents-wrapped : contents wrapped ≡ 254 ∷ 255 ∷ 0 ∷ []
contents-wrapped = refl

null_arguments :
    (pipe_write 1 none (some λ i. i) 2 ≡ some (minus 1, none))
    × (pipe_read 1 (some wrapped) none 2 ≡ some (minus 1, some wrapped, none))
unfolding pipe_write pipe_read
null_arguments = (refl, refl)

pipe_write_refines_example :
    (q : Pipe) × (pipe_write 1 (some wrapped) (some λ i. i + 65) 2 ≡ some (pos 2, some q))
    × IsValid q
    × (contents q ≡ (254 ∷ 255 ∷ 0 ∷ []) ++ 65 ∷ 66 ∷ [])
    × (q.lock.locked ≡ 0)
pipe_write_refines_example =
    pipe_write_refines 0 wrapped (λ i. i + 65) 2 wrapped-IsValid refl (omega arith)

pipe_read_refines_example :
    (q : Pipe) × (out : ℕ → ℕ) × (pipe_read 1 (some wrapped) (some λ i. 7) 2
      ≡ some (pos 2, some q, some out))
    × IsValid q
    × (cells_at out 0 2 ≡ 254 ∷ 255 ∷ [])
    × ((i : ℕ) → 2 ≤ i → out i ≡ 7)
    × (contents q ≡ 0 ∷ [])
    × (q.lock.locked ≡ 0)
pipe_read_refines_example =
    pipe_read_refines 0 wrapped (λ i. 7) 2 wrapped-IsValid refl (omega arith)

abbrev stale : Mutex
stale = record {
  guard = record { locked = 9 };
  locked = 9;
  owner_pid = 9;
  waiters = λ i. i;
  waiter_count = 3;
}

-- Process 7 asks for a fresh mutex and gets it.
abbrev asked : System
asked = move (start stale) 7 spinning (mutex_init stale)

abbrev inside : System
inside = move asked 7 entered (grab asked.mutex)

abbrev won : System
won = move inside 7 winning (lock_section 42 inside.mutex).1

won-Reach : Reach (start stale) won
unfolding mutex_init spin_lock_init lock_section
won-Reach =
    next (next (next here (call (start stale) 7 refl)) (enter asked 7 refl refl))
      (win inside 7 42 refl refl)

mutual_exclusion_example :
    ((t u : ℕ) → owns (won.point t) ≡ true → owns (won.point u) ≡ true → t ≡ u)
    × ((t u : ℕ) → guards (won.point t) ≡ true → guards (won.point u) ≡ true → t ≡ u)
    × ((t : ℕ) → owns (won.point t) ≡ true → won.mutex.locked ≢ 0)
mutual_exclusion_example = mutual_exclusion stale won-Reach
