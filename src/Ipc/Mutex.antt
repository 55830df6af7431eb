-- ===== src/Ipc/Mutex.antt =====
-- The mutexes of kernel/ipc/ipc.c. The caller's pid, `process_current()->pid` or 0, is an argument.
pub mod Exclusion
use tet_os.Prelude.{
  ℕ, zero, suc, ◌+◌, ◌-◌, Option, none, some, Bool, true, false, ltb, ◌==◌, if◌then◌else◌, update,
  add32, sub32,
}
use tet_os.Ipc.Spin.{Spinlock, spin_lock_init, spin_lock, spin_unlock}

-- `mutex_t`
pub record Mutex : Type 0 where
  pub guard : Spinlock
  pub locked : ℕ
  pub owner_pid : ℕ
  pub waiters : ℕ → ℕ
  pub waiter_count : ℕ

abbrev pub max_waiters : ℕ
max_waiters = 16

unfoldable pub mutex_init : Mutex → Mutex
mutex_init m = record {
  guard = spin_lock_init m.guard;
  locked = 0;
  owner_pid = 0;
  waiters = λ i. if ltb i max_waiters then 0 else m.waiters i;
  waiter_count = 0;
}

-- What `mutex_lock` does between `spin_lock` and `spin_unlock`, and whether it returns.
unfoldable pub lock_section : ℕ → Mutex → Bool × Mutex
lock_section pid m =
    if m.locked == 0
    then (true, record m { locked = 1; owner_pid = pid })
    else if ltb m.waiter_count max_waiters
    then (
      false,
      record m {
        waiters = update m.waiters m.waiter_count pid;
        waiter_count = add32 m.waiter_count 1;
      },
    )
    else (false, m)

-- The `for (;;)` of `mutex_lock`. `others` is what the other processes do to the mutex while the
-- caller halts between two rounds; `none` is a caller that has not returned yet.
unfoldable pub mutex_lock : ℕ → ℕ → (ℕ → Mutex → Mutex) → ℕ → Mutex → Option Mutex
mutex_lock spins zero others pid m = none
mutex_lock spins (suc rounds) others pid m = elim (spin_lock spins m.guard) [
  | none ↦ none
  | some held ↦
      let (done, m') = lock_section pid (record m { guard = held }) in
      let m'' = record m' { guard = spin_unlock m'.guard } in
      let again = mutex_lock spins rounds others pid (others rounds m'') in
      if done then some m'' else again
]

-- `for (i = k; i < waiter_count; i++) waiters[i - 1] = waiters[i]`, the rounds left first.
unfoldable pub shift_waiters : ℕ → ℕ → (ℕ → ℕ) → ℕ → ℕ
shift_waiters zero i waiters = waiters
shift_waiters (suc left) i waiters = shift_waiters left (i + 1) (update waiters (i - 1) (waiters i))

-- What `mutex_unlock` does between `spin_lock` and `spin_unlock`.
unfoldable pub unlock_section : Mutex → Mutex
unlock_section m =
    let free = record m { locked = 0; owner_pid = 0 } in
    if ltb 0 m.waiter_count
    then record free {
      waiters = shift_waiters (m.waiter_count - 1) 1 m.waiters;
      waiter_count = sub32 m.waiter_count 1;
    }
    else free

unfoldable pub mutex_unlock : ℕ → Mutex → Option Mutex
mutex_unlock spins m = elim (spin_lock spins m.guard) [
  | none ↦ none
  | some held ↦
      let m' = unlock_section (record m { guard = held }) in
      some (record m' { guard = spin_unlock m'.guard })
]
