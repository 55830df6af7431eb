-- ===== src/Ipc/Spin.antt =====
-- The spin lock of kernel/ipc/ipc.c, alone on its processor: nobody else writes the word while the
-- caller spins.
use tet_os.Prelude.{ℕ, zero, suc, ◌≡◌, refl, Option, none, some, false, arith, ◌==◌, if◌then◌else◌}

-- `spinlock_t`
pub record Spinlock : Type 0 where
  pub locked : ℕ

unfoldable pub spin_lock_init : Spinlock → Spinlock
spin_lock_init lock = record lock { locked = 0 }

-- `__sync_lock_test_and_set(&lock->locked, 1)`: the old value, and the lock set.
abbrev pub test_and_set : Spinlock → ℕ × Spinlock
test_and_set lock = (lock.locked, record lock { locked = 1 })

-- The loop has a fuel; `none` is a caller that still spins when it runs out.
unfoldable pub spin_lock : ℕ → Spinlock → Option Spinlock
spin_lock zero lock = none
spin_lock (suc fuel) lock =
    let spin = spin_lock fuel (test_and_set lock).1 in
    if (test_and_set lock).0 == 0 then some (test_and_set lock).1 else spin

unfoldable pub spin_unlock : Spinlock → Spinlock
spin_unlock lock = record lock { locked = 0 }

-- A free lock is taken by the first exchange.
pub spin_lock_free :
    (fuel : ℕ) (lock : Spinlock)
    → lock.locked ≡ 0
    → spin_lock (suc fuel) lock ≡ some (record { locked = 1 })
unfolding spin_lock
spin_lock_free fuel lock h = ground arith

-- A held one is never taken.
pub spin_lock_held :
    (fuel : ℕ) (lock : Spinlock) → (lock.locked == 0) ≡ false → spin_lock fuel lock ≡ none
unfolding spin_lock
spin_lock_held zero lock h = refl
spin_lock_held (suc fuel) lock h = rw h (spin_lock_held fuel (record { locked = 1 }) refl)
