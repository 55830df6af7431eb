-- ===== src/Process/Runs.antt =====
-- Every run of the process functions keeps the ring.
use native.Mathlib.Decide.{ℕ_discrete}
use tet_os.Prelude.{
  ℕ, zero, suc, ◌+◌, ◌<◌, ◌≡◌, ◌≢◌, refl, sym, subst, List, [], ◌∷◌, ◌++◌, true, false, arith, ◌==◌,
  ◌&&◌, leb, ltb, if◌then◌else◌, inl, inr, update,
}
use tet_os.Prelude.Distinct.{All, All-map, All-both, Absent-cases, All-right}
use tet_os.Process.{Proc, Procs, clear_fds, init_slots, process_init}
use tet_os.Process.Invariant.{IsWaiting, IsSched, recur-IsQueue, restate-IsQueue}
use tet_os.Process.Create.{
  create_with, kernel_frame, user_frame, process_create, process_create_user, process_fork_stub,
  fork_name,
}
use tet_os.Process.Create.Insertion.{create_with-Inserted}
use tet_os.Process.Kill.{process_kill, process_exit}
use tet_os.Process.Kill.Removal.{process_kill_lem}
use tet_os.Process.Schedule.{schedule}
use tet_os.Process.Schedule.Tick.{counted, alone, turned, schedule-Ticked}

-- One call of the kernel. A process is killed only if `run_queue` does not point to it.
pub data Step (s : Procs) : Procs → Type 0 where
  created : (entry : ℕ) (name : ℕ → ℕ) → Step s (process_create entry name s).1
  created_user :
      (entry user_stack_top : ℕ) (name : ℕ → ℕ)
      → Step s (process_create_user entry user_stack_top name s).1
  forked : Step s (process_fork_stub s).1
  killed : (pid : ℕ) → (s.process_table s.run_queue).pid ≢ pid → Step s (process_kill pid s).1
  exited : Step s (process_exit s)
  ticked : (kernel_pd regs : ℕ) → Step s (schedule kernel_pd regs s)

pub data Reach (s : Procs) : Procs → Type 0 where
  here : Reach s s
  next : {t u : Procs} → Reach s t → Step t u → Reach s u

init_slots_lem :
    (left i : ℕ) (table : ℕ → Proc) (j : ℕ)
    → (init_slots left i table j).state
      ≡ (if leb i j && ltb j (i + left) then 255 else (table j).state)
unfolding init_slots
init_slots_lem zero i table j = ground arith
init_slots_lem (suc left) i table j = ground (
  arith,
  init_slots_lem left (i + 1)
      (update table i (record (table i) { state = 255; stack = 0; next = 16 })) j,
)

init-IsSched : (s : Procs) → IsSched (process_init s) []
unfolding process_init clear_fds
init-IsSched s = record {
  links = refl;
  distinct = (tt, tt);
  slots = (omega arith, tt);
  current = inl refl;
  waiting = tt;
  unused = λ p l (n, absent). ground (arith, init_slots_lem 16 0 s.process_table p, n);
  in_ring = λ (n, absent). n refl;
}

-- A state with a ring.
abbrev pub HasRing : Procs → Type 0
HasRing s = (rest : List ℕ) × IsSched s rest

exit-IsSched : (s : Procs) (rest : List ℕ) → IsSched s rest → IsSched (process_exit s) rest
unfolding process_exit
exit-IsSched s rest v =
    recur-IsQueue s.process_table (process_exit s).process_table s.current_process s.run_queue rest
      v (λ j. ground arith) (inr (ground arith)) (λ j n. ground (arith, n))

-- The child of a fork becomes a zombie.
mark_dead :
    (s : Procs) (i : ℕ) (rest : List ℕ)
    → IsSched s (i ∷ rest)
    → IsSched
        (record s {
          process_table = update s.process_table i (record (s.process_table i) { state = 3 });
        })
        (i ∷ rest)
mark_dead s i rest v =
    let marked = record (s.process_table i) { state = 3 } in
    let same : (update s.process_table i marked s.current_process).state
        ≡ (s.process_table s.current_process).state =
      ground (arith, v.distinct.0.0) in
    restate-IsQueue s.process_table (update s.process_table i marked) s.current_process s.run_queue
      (i ∷ rest) v (λ j. ground arith) (rw same v.current)
      (
        inr (ground arith),
        All-map rest
            (λ x (w, n).
              let keeps : (update s.process_table i marked x).state ≡ (s.process_table x).state =
                ground (arith, n) in
              rw keeps w)
            (All-both (λ x. IsWaiting (s.process_table x)) (λ x. i ≢ x) rest v.waiting.1
              v.distinct.1.0),
      )
      (λ j (n, (m, h)). ground (arith, m))

-- No process of the table but the current one is in the running state.
only_current :
    (s : Procs) (rest : List ℕ)
    → IsSched s rest
    → (p : ℕ) → p < 16
    → (s.process_table p).state ≡ 1
    → p ≡ s.current_process
only_current s rest v p l running = elim (ℕ_discrete p s.current_process) [
  | yes e ↦ e
  | no d ↦ elim (Absent-cases p rest) [
    | inl absent ↦ let free = v.unused p l (d, absent) in absurd (omega (arith, running, free))
    | inr (pre, post, e) ↦
        let here =
          (All-right (λ x. IsWaiting (s.process_table x)) pre (p ∷ post)
            (subst (All (λ x. IsWaiting (s.process_table x))) e v.waiting)).0 in
        absurd (omega (arith, running, here))
  ]
]

module _ (s : Procs) (rest : List ℕ) (v : IsSched s rest) where
  create-HasRing : (entry : ℕ) (name : ℕ → ℕ) → HasRing (process_create entry name s).1
  unfolding process_create
  create-HasRing entry name =
      elim (create_with-Inserted (kernel_frame entry) (λ p. p) name s rest v (λ p. refl)
        (λ p. refl)) [ inl (null, same, w) ↦ (rest, w) | inr (l, m, free, new, cur, w) ↦ (_, w) ]

  create_user-HasRing :
      (entry top : ℕ) (name : ℕ → ℕ) → HasRing (process_create_user entry top name s).1
  unfolding process_create_user clear_fds
  create_user-HasRing entry top name =
      elim (create_with-Inserted (user_frame entry top)
        (λ p. clear_fds (record p { user_page_dir = 0 })) name s rest v (λ p. refl) (λ p. refl)) [
          | inl (null, same, w) ↦ (rest, w)
          | inr (l, m, free, new, cur, w) ↦ (_, w)
        ]

  kill-HasRing :
      (pid : ℕ) → (s.process_table s.run_queue).pid ≢ pid → HasRing (process_kill pid s).1
  kill-HasRing pid n = elim (process_kill_lem pid s rest v n) [
    | inl (self, e) ↦ (rest, subst (λ r. IsSched r.1 rest) (sym e) v)
    | inr (inl (none, e)) ↦ (rest, subst (λ r. IsSched r.1 rest) (sym e) v)
    | inr (inr (other, (pre, p, post, split, at, ok, gone, kept, w))) ↦ (pre ++ post, w)
  ]

  tick-HasRing : (kernel_pd regs : ℕ) → HasRing (schedule kernel_pd regs s)
  tick-HasRing kernel_pd regs = elim (schedule-Ticked kernel_pd regs s rest v) [
    | counted running within e ↦ (rest, subst (λ t. IsSched t rest) (sym e) v)
    | alone due busy at on w still ↦ (rest, w)
    | turned pre c post tail split busy ready at loaded moved w reset kept ↦ (post ++ tail, w)
  ]

  fork-HasRing : HasRing (process_fork_stub s).1
  unfolding process_fork_stub process_create
  fork-HasRing =
      let some_proc : (s.current_process == 16) ≡ false = ground (arith, v.slots.0) in
      elim (create_with-Inserted (kernel_frame 0) (λ p. p) fork_name s rest v (λ p. refl)
        (λ p. refl)) [
          | inl (null, same, w) ↦
              let none : ((create_with (kernel_frame 0) (λ p. p) fork_name s).0 == 16) ≡ true =
                ground arith in
              rw (process_fork_stub, some_proc, none) (rest, w)
          | inr (l, m, free, new, cur, w) ↦
              let child : ((create_with (kernel_frame 0) (λ p. p) fork_name s).0 == 16) ≡ false =
                ground arith in
              rw (process_fork_stub, some_proc, child)
                (
                  _,
                  mark_dead (create_with (kernel_frame 0) (λ p. p) fork_name s).1
                      (create_with (kernel_frame 0) (λ p. p) fork_name s).0 rest w,
                )
        ]

-- A call keeps the ring.
Step-HasRing : {s t : Procs} (rest : List ℕ) → IsSched s rest → Step s t → HasRing t
Step-HasRing {s} rest v (created entry name) = create-HasRing s rest v entry name
Step-HasRing {s} rest v (created_user entry top name) = create_user-HasRing s rest v entry top name
Step-HasRing {s} rest v forked = fork-HasRing s rest v
Step-HasRing {s} rest v (killed pid n) = kill-HasRing s rest v pid n
Step-HasRing {s} rest v exited = (rest, exit-IsSched s rest v)
Step-HasRing {s} rest v (ticked kernel_pd regs) = tick-HasRing s rest v kernel_pd regs

Reach-HasRing : {s t : Procs} → HasRing s → Reach s t → HasRing t
Reach-HasRing h here = h
Reach-HasRing h (next r st) = let (rest, v) = Reach-HasRing h r in Step-HasRing rest v st

-- From `process_init`, after any calls of `process_create`, `process_create_user`,
-- `process_fork_stub`, `process_exit`, `schedule`, and of `process_kill` for a process that
-- `run_queue` does not point to: the links from the current process lead once through different
-- slots, each of a process that is ready or a zombie, and back; all other slots are unused; and no
-- process but the current one is in the running state.
pub ring_invariant :
    (s t : Procs)
    → Reach (process_init s) t
    → HasRing t × ((p : ℕ) → p < 16 → (t.process_table p).state ≡ 1 → p ≡ t.current_process)
ring_invariant s t r =
    let (rest, v) = Reach-HasRing ([], init-IsSched s) r in ((rest, v), only_current t rest v)
