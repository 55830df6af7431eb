-- ===== src/Ipc/Pipe.antt =====
-- The pipes of kernel/ipc/ipc.c. A `NULL` argument is `none`; a user's buffer is a function from
-- the index. Each function returns `none` where its caller spins on the pipe's lock for ever.
pub mod Refine
use tet_os.Prelude.{
  ℕ, zero, suc, ◌+◌, ◌-◌, ◌%◌, ◌^◌, Option, none, some, Bool, true, false, ◌&&◌, ltb, if◌then◌else◌,
  update, add32, sub32,
}
use tet_os.Prelude.Int.{ℤ, signed32, minus}
use tet_os.Ipc.Spin.{Spinlock, spin_lock_init, spin_lock, spin_unlock}

-- `pipe_t`
pub record Pipe : Type 0 where
  pub buffer : ℕ → ℕ
  pub read_idx : ℕ
  pub write_idx : ℕ
  pub size : ℕ
  pub lock : Spinlock

-- `sizeof(p->buffer)`
abbrev pub capacity : ℕ
capacity = 256

unfoldable pub pipe_create : Pipe → Pipe
pipe_create p = record {
  buffer = λ i. if ltb i capacity then 0 else p.buffer i;
  read_idx = 0;
  write_idx = 0;
  size = 0;
  lock = spin_lock_init p.lock;
}

-- The body of the loop of `pipe_read`: one byte leaves the pipe.
abbrev pub get : Pipe → Pipe
get p = record p { read_idx = add32 p.read_idx 1 % capacity; size = sub32 p.size 1 }

-- Every round takes a byte, so `p->size` rounds are enough.
unfoldable pub read_loop : ℕ → ℕ → Pipe → (ℕ → ℕ) → ℕ → ℕ × Pipe × (ℕ → ℕ)
read_loop zero len p buf n = (n, p, buf)
read_loop (suc fuel) len p buf n =
    let rest = read_loop fuel len (get p) (update buf n (p.buffer p.read_idx)) (add32 n 1) in
    if ltb n len && ltb 0 p.size then rest else (n, p, buf)

-- The result, the pipe and the caller's buffer.
unfoldable pub pipe_read :
    ℕ → Option Pipe → Option (ℕ → ℕ) → ℕ → Option (ℤ × Option Pipe × Option (ℕ → ℕ))
pipe_read spins none buf len = some (minus 1, none, buf)
pipe_read spins (some p) none len = some (minus 1, some p, none)
pipe_read spins (some p) (some buf) len = elim (spin_lock spins p.lock) [
  | none ↦ none
  | some held ↦
      let (n, q, out) = read_loop p.size len (record p { lock = held }) buf 0 in
      some (signed32 n, some (record q { lock = spin_unlock q.lock }), some out)
]

-- The body of the loop of `pipe_write`: one byte enters.
abbrev pub put : Pipe → ℕ → Pipe
put p byte = record p {
  buffer = update p.buffer p.write_idx byte;
  write_idx = add32 p.write_idx 1 % capacity;
  size = add32 p.size 1;
}

-- Every round fills a cell, so `sizeof(p->buffer)` rounds are enough.
unfoldable pub write_loop : ℕ → ℕ → (ℕ → ℕ) → Pipe → ℕ → ℕ × Pipe
write_loop zero len buf p n = (n, p)
write_loop (suc fuel) len buf p n =
    let rest = write_loop fuel len buf (put p (buf n)) (add32 n 1) in
    if ltb n len && ltb p.size capacity then rest else (n, p)

unfoldable pub pipe_write : ℕ → Option Pipe → Option (ℕ → ℕ) → ℕ → Option (ℤ × Option Pipe)
pipe_write spins none buf len = some (minus 1, none)
pipe_write spins (some p) none len = some (minus 1, some p)
pipe_write spins (some p) (some buf) len = elim (spin_lock spins p.lock) [
  | none ↦ none
  | some held ↦
      let (n, q) = write_loop capacity len buf (record p { lock = held }) 0 in
      some (signed32 n, some (record q { lock = spin_unlock q.lock }))
]
