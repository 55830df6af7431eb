-- ===== src/Ipc/Pipe/Refine.antt =====
-- A pipe behaves as a queue of at most 256 bytes.
use tet_os.Prelude.{
  ℕ, zero, suc, ◌+◌, ◌-◌, ◌%◌, ◌^◌, ◌≤◌, ◌<◌, min, ◌≡◌, refl, sym, ap, ap₂, ◌∙◌, inl, inr, ◌&&◌,
  List, [], ◌∷◌, ◌++◌, arith, ltb, Bool-cases, update, update_self, update_ne, add32, cells_at,
  cells_at-ne_zero, some, take, drop,
}
use mathlib.Core.List.{append_assoc, append-nil}
use tet_os.Prelude.Int.{pos}
use tet_os.Ring.{window, window-push}
use tet_os.Ipc.Spin.{spin_lock_init, spin_unlock, spin_lock_free}
use tet_os.Ipc.Pipe.{
  Pipe, capacity, pipe_create, put, get, write_loop, pipe_write, read_loop, pipe_read,
}

-- The indices stay in the buffer, and the bytes between them are as many as `size` says.
pub record IsValid (p : Pipe) : Type 0 where
  pub read_in : p.read_idx < capacity
  pub size_in : p.size ≤ capacity
  pub write_at : p.write_idx ≡ (p.read_idx + p.size) % capacity

-- The bytes in a pipe, oldest first.
abbrev pub contents : Pipe → List ℕ
contents p = window capacity p.buffer p.read_idx p.size

-- A fresh pipe is valid, empty and not locked.
pub pipe_create-IsValid :
    (p : Pipe)
    → IsValid (pipe_create p) × (contents (pipe_create p) ≡ []) × ((pipe_create p).lock.locked ≡ 0)
unfolding pipe_create spin_lock_init
pipe_create-IsValid p = (omega arith, refl, refl)

pub put-IsValid : (p : Pipe) (byte : ℕ) → IsValid p → p.size < capacity → IsValid (put p byte)
put-IsValid p byte v h = omega arith

pub contents-put :
    (p : Pipe) (byte : ℕ)
    → IsValid p
    → p.size < capacity
    → contents (put p byte) ≡ contents p ++ byte ∷ []
contents-put p byte v h =
    ap (window capacity (put p byte).buffer p.read_idx) grown
    ∙ window-push capacity p.buffer byte p.read_idx p.size p.write_idx v.read_in h v.write_at
  where
    grown : (put p byte).size ≡ suc p.size
    grown = omega arith

-- How many bytes a writer at byte `n` of `len` still moves, and a reader.
abbrev room : ℕ → ℕ → Pipe → ℕ
room len n p = min (len - n) (capacity - p.size)

abbrev supply : ℕ → ℕ → Pipe → ℕ
supply len n p = min (len - n) p.size

-- What the loop of `pipe_write` has done when it stops, started with `n` bytes written.
record Wrote (len : ℕ) (buf : ℕ → ℕ) (p : Pipe) (n : ℕ) (out : ℕ × Pipe) : Type 0 where
  count : out.0 ≡ n + room len n p
  valid : IsValid out.1
  bytes : contents out.1 ≡ contents p ++ cells_at buf n (room len n p)
  held : out.1.lock ≡ p.lock

Wrote-stop :
    (len : ℕ) (buf : ℕ → ℕ) (p : Pipe) (n : ℕ)
    → IsValid p
    → room len n p ≡ 0
    → Wrote len buf p n (n, p)
Wrote-stop len buf p n v e = record {
  count = omega arith;
  valid = v;
  bytes = rw e (sym (append-nil (contents p)));
  held = refl;
}

Wrote-step :
    (len : ℕ) (buf : ℕ → ℕ) (p : Pipe) (n : ℕ) (out : ℕ × Pipe)
    → IsValid p
    → len < 2 ^ 32
    → n < len
    → p.size < capacity
    → Wrote len buf (put p (buf n)) (add32 n 1) out
    → Wrote len buf p n out
Wrote-step len buf p n out v hl hn hs w = record {
  count = w.count ∙ omega arith;
  valid = w.valid;
  bytes =
      w.bytes
      ∙ ap (λ l. l ++ cells_at buf (add32 n 1) (room len (add32 n 1) (put p (buf n))))
          (contents-put p (buf n) v hs)
      ∙ append_assoc (contents p) (buf n ∷ []) _
      ∙ ap (λ l. contents p ++ l) tail;
  held = w.held;
}
  where
    tail :
        buf n ∷ cells_at buf (add32 n 1) (room len (add32 n 1) (put p (buf n)))
        ≡ cells_at buf n (room len n p)
    tail =
        ap₂ (λ i k. buf n ∷ cells_at buf i k) (omega arith) (omega arith)
        ∙ sym (cells_at-ne_zero buf n (room len n p) (omega arith))

write_loop-Wrote :
    (fuel len : ℕ) (buf : ℕ → ℕ) (p : Pipe) (n : ℕ)
    → IsValid p
    → len < 2 ^ 32
    → n ≤ len
    → capacity - p.size ≤ fuel
    → Wrote len buf p n (write_loop fuel len buf p n)
unfolding write_loop
write_loop-Wrote zero len buf p n v hl hn hf = Wrote-stop len buf p n v (omega arith)
write_loop-Wrote (suc fuel) len buf p n v hl hn hf =
    elim (Bool-cases (ltb n len && ltb p.size capacity)) [
      | inl more ↦ rw more (
          Wrote-step len buf p n _ v hl (ground arith) (ground arith) (
            write_loop-Wrote fuel len buf (put p (buf n)) (add32 n 1)
              (put-IsValid p (buf n) v (ground arith)) hl (ground arith) (ground arith)))
      | inr stop ↦ rw stop (Wrote-stop len buf p n v (ground arith))
    ]

-- `pipe_write` on a valid pipe whose lock is free writes as many bytes as fit, the first of the
-- buffer in order, behind those in the pipe; it returns their number, the pipe stays valid, and
-- the lock is free again.
pub pipe_write_refines :
    (spins : ℕ) (p : Pipe) (buf : ℕ → ℕ) (len : ℕ)
    → IsValid p
    → p.lock.locked ≡ 0
    → len < 2 ^ 32
    → let n = min len (capacity - p.size) in
      (q : Pipe) × (pipe_write (suc spins) (some p) (some buf) len ≡ some (pos n, some q))
      × IsValid q
      × (contents q ≡ contents p ++ cells_at buf 0 n)
      × (q.lock.locked ≡ 0)
unfolding pipe_write spin_unlock
pipe_write_refines spins p buf len v free hl = (
  record out.1 { lock = spin_unlock out.1.lock },
  rw (spin_lock_free spins p.lock free, pipe_write) (ground (arith, done.count)),
  record {
    read_in = done.valid.read_in;
    size_in = done.valid.size_in;
    write_at = done.valid.write_at;
  },
  rw all at done.bytes,
  refl,
)
  where
    held : Pipe
    held = record p { lock = record { locked = 1 } }

    all : room len 0 held ≡ min len (capacity - p.size)
    all = omega arith

    out : ℕ × Pipe
    out = write_loop capacity len buf held 0

    done : Wrote len buf held 0 out
    done =
        write_loop-Wrote capacity len buf held 0
          (record { read_in = v.read_in; size_in = v.size_in; write_at = v.write_at }) hl
          (omega arith) (omega arith)

pub get-IsValid : (p : Pipe) → IsValid p → 0 < p.size → IsValid (get p)
get-IsValid p v h = omega arith

pub contents-get :
    (p : Pipe) → IsValid p → 0 < p.size → contents p ≡ p.buffer p.read_idx ∷ contents (get p)
contents-get p v h =
    ap (window capacity p.buffer p.read_idx) some_left
    ∙ ap₂ (λ i k. p.buffer p.read_idx ∷ window capacity p.buffer i k) turn fewer
  where
    some_left : p.size ≡ suc (p.size - 1)
    some_left = omega arith

    turn : (p.read_idx + 1) % capacity ≡ (get p).read_idx
    turn = omega arith

    fewer : p.size - 1 ≡ (get p).size
    fewer = omega arith

-- What the loop of `pipe_read` has done when it stops, started with `n` bytes read.
record Took (len : ℕ) (p : Pipe) (buf : ℕ → ℕ) (n : ℕ) (out : ℕ × Pipe × (ℕ → ℕ)) : Type 0 where
  count : out.0 ≡ n + supply len n p
  valid : IsValid out.1
  bytes : cells_at out.2 n (supply len n p) ≡ take (supply len n p) (contents p)
  left : contents out.1 ≡ drop (supply len n p) (contents p)
  before : (i : ℕ) → i < n → out.2 i ≡ buf i
  behind : (i : ℕ) → n + supply len n p ≤ i → out.2 i ≡ buf i
  held : out.1.lock ≡ p.lock

Took-stop :
    (len : ℕ) (p : Pipe) (buf : ℕ → ℕ) (n : ℕ)
    → IsValid p
    → supply len n p ≡ 0
    → Took len p buf n (n, p, buf)
Took-stop len p buf n v e = record {
  count = omega arith;
  valid = v;
  bytes = rw e;
  left = rw e;
  before = λ i h. refl;
  behind = λ i h. refl;
  held = refl;
}

Took-step :
    (len : ℕ) (p : Pipe) (buf : ℕ → ℕ) (n : ℕ) (out : ℕ × Pipe × (ℕ → ℕ))
    → IsValid p
    → len < 2 ^ 32
    → n < len
    → 0 < p.size
    → Took len (get p) (update buf n (p.buffer p.read_idx)) (add32 n 1) out
    → Took len p buf n out
Took-step len p buf n out v hl hn hs t = record {
  count = t.count ∙ omega arith;
  valid = t.valid;
  bytes =
      rw (more, contents-get p v hs)
        (ap₂ ◌∷◌ (t.before n (omega arith) ∙ update_self buf n _)
          (ap (λ i. cells_at out.2 i k) (omega arith) ∙ t.bytes));
  left = t.left ∙ (rw (more, contents-get p v hs));
  before = λ i h. t.before i (omega arith) ∙ update_ne buf n i _ (omega arith);
  behind = λ i h. t.behind i (omega arith) ∙ update_ne buf n i _ (omega arith);
  held = t.held;
}
  where
    k : ℕ
    k = supply len (add32 n 1) (get p)

    more : supply len n p ≡ suc k
    more = omega arith

read_loop-Took :
    (fuel len : ℕ) (p : Pipe) (buf : ℕ → ℕ) (n : ℕ)
    → IsValid p
    → len < 2 ^ 32
    → n ≤ len
    → p.size ≤ fuel
    → Took len p buf n (read_loop fuel len p buf n)
unfolding read_loop
read_loop-Took zero len p buf n v hl hn hf = Took-stop len p buf n v (omega arith)
read_loop-Took (suc fuel) len p buf n v hl hn hf = elim (Bool-cases (ltb n len && ltb 0 p.size)) [
  | inl more ↦ rw more (
      Took-step len p buf n _ v hl (ground arith) (ground arith) (
        read_loop-Took fuel len (get p) (update buf n (p.buffer p.read_idx)) (add32 n 1)
          (get-IsValid p v (ground arith)) hl (ground arith) (ground arith)))
  | inr stop ↦ rw stop (Took-stop len p buf n v (ground arith))
]

-- `pipe_read` on a valid pipe whose lock is free takes the oldest bytes, as many as there are and
-- the caller asks for; it returns their number, stores them in order at the start of the caller's
-- buffer and changes nothing behind them, the pipe stays valid, and the lock is free again.
pub pipe_read_refines :
    (spins : ℕ) (p : Pipe) (buf : ℕ → ℕ) (len : ℕ)
    → IsValid p
    → p.lock.locked ≡ 0
    → len < 2 ^ 32
    → let n = min len p.size in
      (q : Pipe) × (out : ℕ → ℕ) × (pipe_read (suc spins) (some p) (some buf) len
        ≡ some (pos n, some q, some out))
      × IsValid q
      × (cells_at out 0 n ≡ take n (contents p))
      × ((i : ℕ) → n ≤ i → out i ≡ buf i)
      × (contents q ≡ drop n (contents p))
      × (q.lock.locked ≡ 0)
unfolding pipe_read spin_unlock
pipe_read_refines spins p buf len v free hl = (
  record out.1 { lock = spin_unlock out.1.lock },
  out.2,
  rw (spin_lock_free spins p.lock free, pipe_read) (ground (arith, done.count)),
  record {
    read_in = done.valid.read_in;
    size_in = done.valid.size_in;
    write_at = done.valid.write_at;
  },
  rw all at done.bytes,
  (λ i h. done.behind i (omega arith)),
  rw all at done.left,
  refl,
)
  where
    held : Pipe
    held = record p { lock = record { locked = 1 } }

    all : supply len 0 held ≡ min len p.size
    all = omega arith

    out : ℕ × Pipe × (ℕ → ℕ)
    out = read_loop p.size len held buf 0

    done : Took len held buf 0 out
    done =
        read_loop-Took p.size len held buf 0
          (record { read_in = v.read_in; size_in = v.size_in; write_at = v.write_at }) hl
          (omega arith) (omega arith)
