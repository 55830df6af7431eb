-- ===== src/Ipc/Mutex/Exclusion.antt =====
-- Processes that lock and unlock one mutex in any interleaving. A process is at one of the points
-- below; each step is one access to shared memory, or a section that the guard protects.
use tet_os.Prelude.{ℕ, ◌≡◌, ◌≢◌, Bool, true, false, update, arith, ◌⊎◌}
use tet_os.Ipc.Spin.{test_and_set, spin_unlock}
use tet_os.Ipc.Mutex.{Mutex, lock_section, unlock_section, mutex_init}

-- outside; spinning on the guard in `mutex_lock`; between the guard's lock and unlock there, before
-- the section, after it with the mutex, and after it without; halted; owning the mutex; spinning
-- on the guard in `mutex_unlock`; before and after the section there.
pub data Point : Type 0 where
  outside spinning entered winning losing halted owning leaving unlocking unlocked : Point

-- Between the lock and the unlock of the guard.
abbrev pub guards : Point → Bool
guards entered = true
guards winning = true
guards losing = true
guards unlocking = true
guards unlocked = true
guards _ = false

-- From the section of `mutex_lock` that takes the mutex up to the one of `mutex_unlock` that gives
-- it back.
abbrev pub owns : Point → Bool
owns winning = true
owns owning = true
owns leaving = true
owns unlocking = true
owns _ = false

pub record System : Type 0 where
  pub mutex : Mutex
  pub point : ℕ → Point

abbrev pub move : System → ℕ → Point → Mutex → System
move s t p m = record { mutex = m; point = update s.point t p }

-- The exchange of `spin_lock` on the guard, and its release.
abbrev pub grab : Mutex → Mutex
grab m = record m { guard = (test_and_set m.guard).1 }

abbrev pub ungrab : Mutex → Mutex
ungrab m = record m { guard = spin_unlock m.guard }

-- Only an owner unlocks; any process may call `mutex_lock` when it is outside.
pub data Step : System → System → Type 0 where
  call : (s : System) (t : ℕ) → s.point t ≡ outside → Step s (move s t spinning s.mutex)
  spin :
      (s : System) (t : ℕ)
      → s.point t ≡ spinning
      → (test_and_set s.mutex.guard).0 ≢ 0
      → Step s (move s t spinning (grab s.mutex))
  enter :
      (s : System) (t : ℕ)
      → s.point t ≡ spinning
      → (test_and_set s.mutex.guard).0 ≡ 0
      → Step s (move s t entered (grab s.mutex))
  win :
      (s : System) (t pid : ℕ)
      → s.point t ≡ entered
      → (lock_section pid s.mutex).0 ≡ true
      → Step s (move s t winning (lock_section pid s.mutex).1)
  lose :
      (s : System) (t pid : ℕ)
      → s.point t ≡ entered
      → (lock_section pid s.mutex).0 ≡ false
      → Step s (move s t losing (lock_section pid s.mutex).1)
  own : (s : System) (t : ℕ) → s.point t ≡ winning → Step s (move s t owning (ungrab s.mutex))
  halt : (s : System) (t : ℕ) → s.point t ≡ losing → Step s (move s t halted (ungrab s.mutex))
  wake : (s : System) (t : ℕ) → s.point t ≡ halted → Step s (move s t spinning s.mutex)
  leave : (s : System) (t : ℕ) → s.point t ≡ owning → Step s (move s t leaving s.mutex)
  respin :
      (s : System) (t : ℕ)
      → s.point t ≡ leaving
      → (test_and_set s.mutex.guard).0 ≢ 0
      → Step s (move s t leaving (grab s.mutex))
  reenter :
      (s : System) (t : ℕ)
      → s.point t ≡ leaving
      → (test_and_set s.mutex.guard).0 ≡ 0
      → Step s (move s t unlocking (grab s.mutex))
  release :
      (s : System) (t : ℕ)
      → s.point t ≡ unlocking
      → Step s (move s t unlocked (unlock_section s.mutex))
  exit : (s : System) (t : ℕ) → s.point t ≡ unlocked → Step s (move s t outside (ungrab s.mutex))

pub data Reach (s : System) : System → Type 0 where
  here : Reach s s
  next : {a b : System} → Reach s a → Step a b → Reach s b

-- A part of the points that at most one process is in at a time, and only while a word of the mutex
-- is set.
pub record IsExclusive (part : Point → Bool) (word : Mutex → ℕ) (s : System) : Type 0 where
  pub one : (t u : ℕ) → part (s.point t) ≡ true → part (s.point u) ≡ true → t ≡ u
  pub set : (t : ℕ) → part (s.point t) ≡ true → word s.mutex ≢ 0

abbrev pub guard_word : Mutex → ℕ
guard_word m = m.guard.locked

abbrev pub mutex_word : Mutex → ℕ
mutex_word m = m.locked

-- A move that keeps such a part: who comes into it finds the word clear and sets it, and the word
-- is cleared only by the process in it.
record Keeps (part : Point → Bool) (word : Mutex → ℕ) (s : System) (t : ℕ) (p : Point) (m : Mutex)
    : Type 0 where
  finds : part p ≡ true → (part (s.point t) ≡ true) ⊎ (word s.mutex ≡ 0)
  sets : part p ≡ true → word m ≢ 0
  clears : word m ≡ 0 → (part (s.point t) ≡ true) ⊎ (word s.mutex ≡ 0)

move-IsExclusive :
    (part : Point → Bool) (word : Mutex → ℕ) (s : System) (t : ℕ) (p : Point) (m : Mutex)
    → IsExclusive part word s
    → Keeps part word s t p m
    → IsExclusive part word (move s t p m)
move-IsExclusive part word s t p m v k = record {
  one = λ x y hx hy. ground (arith, v.one x y, v.one t x, v.one t y, v.set x, v.set y, k.finds);
  set = λ x hx. ground (arith, v.one t x, v.set x, k.sets, k.clears);
}

lock_section-win :
    (pid : ℕ) (m : Mutex)
    → (lock_section pid m).0 ≡ true
    → (m.locked ≡ 0)
      × ((lock_section pid m).1.locked ≡ 1)
      × ((lock_section pid m).1.guard ≡ m.guard)
unfolding lock_section
lock_section-win pid m h = ground arith

lock_section-lose :
    (pid : ℕ) (m : Mutex)
    → (lock_section pid m).0 ≡ false
    → ((lock_section pid m).1.locked ≡ m.locked) × ((lock_section pid m).1.guard ≡ m.guard)
unfolding lock_section
lock_section-lose pid m h = ground arith

unlock_section-guard : (m : Mutex) → (unlock_section m).guard ≡ m.guard
unfolding unlock_section
unlock_section-guard m = ground arith

-- Each step keeps the guard's section to one process, and the mutex to one owner.
record IsSafe (s : System) : Type 0 where
  guarded : IsExclusive guards guard_word s
  owned : IsExclusive owns mutex_word s

move-IsSafe :
    (s : System) (t : ℕ) (p : Point) (m : Mutex)
    → IsSafe s
    → Keeps guards guard_word s t p m
    → Keeps owns mutex_word s t p m
    → IsSafe (move s t p m)
move-IsSafe s t p m v g o = record {
  guarded = move-IsExclusive guards guard_word s t p m v.guarded g;
  owned = move-IsExclusive owns mutex_word s t p m v.owned o;
}

Step-IsSafe : {a b : System} → Step a b → IsSafe a → IsSafe b
unfolding spin_unlock
Step-IsSafe (call s t e) v = move-IsSafe s t _ _ v (ground arith) (ground arith)
Step-IsSafe (spin s t e h) v = move-IsSafe s t _ _ v (ground arith) (ground arith)
Step-IsSafe (enter s t e h) v = move-IsSafe s t _ _ v (ground arith) (ground arith)
Step-IsSafe (win s t pid e h) v =
    let body = lock_section-win pid s.mutex h in
    let held = v.guarded.set t in
    move-IsSafe s t _ _ v (ground (arith, body, held)) (ground (arith, body))
Step-IsSafe (lose s t pid e h) v =
    let body = lock_section-lose pid s.mutex h in
    let held = v.guarded.set t in
    move-IsSafe s t _ _ v (ground (arith, body, held)) (ground (arith, body))
Step-IsSafe (own s t e) v = move-IsSafe s t _ _ v (ground arith) (ground (arith, v.owned.set t))
Step-IsSafe (halt s t e) v = move-IsSafe s t _ _ v (ground arith) (ground arith)
Step-IsSafe (wake s t e) v = move-IsSafe s t _ _ v (ground arith) (ground arith)
Step-IsSafe (leave s t e) v = move-IsSafe s t _ _ v (ground arith) (ground (arith, v.owned.set t))
Step-IsSafe (respin s t e h) v =
    move-IsSafe s t _ _ v (ground arith) (ground (arith, v.owned.set t))
Step-IsSafe (reenter s t e h) v =
    move-IsSafe s t _ _ v (ground arith) (ground (arith, v.owned.set t))
Step-IsSafe (release s t e) v =
    let body = unlock_section-guard s.mutex in
    move-IsSafe s t _ _ v (ground (arith, body, v.guarded.set t)) (ground arith)
Step-IsSafe (exit s t e) v = move-IsSafe s t _ _ v (ground arith) (ground arith)

Reach-IsSafe : {a b : System} → IsSafe a → Reach a b → IsSafe b
Reach-IsSafe v here = v
Reach-IsSafe v (next r st) = Step-IsSafe st (Reach-IsSafe v r)

-- A mutex fresh from `mutex_init`, with every process outside.
abbrev pub start : Mutex → System
start m = record { mutex = mutex_init m; point = λ _. outside }

start-IsSafe : (m : Mutex) → IsSafe (start m)
start-IsSafe m = record {
  guarded = record { one = λ x y hx hy. cc; set = λ x hx. cc };
  owned = record { one = λ x y hx hy. cc; set = λ x hx. cc };
}

-- From a fresh mutex, however the steps of any number of processes interleave, two processes never
-- both hold the mutex, nor are both in the sections that its guard protects; while one holds it the
-- word `locked` is set.
pub mutual_exclusion :
    (m : Mutex) {s : System}
    → Reach (start m) s
    → ((t u : ℕ) → owns (s.point t) ≡ true → owns (s.point u) ≡ true → t ≡ u)
      × ((t u : ℕ) → guards (s.point t) ≡ true → guards (s.point u) ≡ true → t ≡ u)
      × ((t : ℕ) → owns (s.point t) ≡ true → s.mutex.locked ≢ 0)
mutual_exclusion m r =
    let v = Reach-IsSafe (start-IsSafe m) r in (v.owned.one, v.guarded.one, v.owned.set)
