-- ===== src/Process/Schedule/Fair.antt =====
-- Every ready process gets its turn: round robin.
use mathlib.Core.List.{head-eq_of_cons-eq, tail-eq_of_cons-eq, append_assoc}
use native.Mathlib.Decide.{ℕ_discrete}
use tet_os.Prelude.{
  ℕ, zero, suc, ◌+◌, ◌-◌, ◌*◌, ◌≤◌, ◌<◌, ◌≡◌, ◌≢◌, sym, ap, ◌∙◌, subst, List, [], ◌∷◌, ◌++◌, arith,
  length,
}
use tet_os.Prelude.Distinct.{All, All-drop}
use tet_os.Process.{Proc, Procs}
use tet_os.Process.Invariant.{IsSched}
use tet_os.Process.Schedule.{schedule}
use tet_os.Process.Schedule.Tick.{counted, alone, turned, schedule-Ticked}

-- The state after `n` timer interrupts; `regs` are the addresses that they pass.
unfoldable pub ticks : ℕ → (ℕ → ℕ) → ℕ → Procs → Procs
ticks kernel_pd regs zero s = s
ticks kernel_pd regs (suc n) s =
    ticks kernel_pd (λ i. regs (i + 1)) n (schedule kernel_pd (regs 0) s)

-- A ready process that is not the first ready one stands behind it.
behind :
    (table : ℕ → Proc) (pre : List ℕ) (p : ℕ) (post pre1 : List ℕ) (c : ℕ) (post1 : List ℕ)
    → pre ++ p ∷ post ≡ pre1 ++ c ∷ post1
    → (table p).state ≡ 0
    → All (λ q. (table q).state ≢ 0) pre1
    → c ≢ p
    → (pre2 : List ℕ) × (length pre2 < length pre) × (post1 ≡ pre2 ++ p ∷ post)
behind table [] p post [] c post1 e ready busy other = absurd (other (sym (head-eq_of_cons-eq e)))
behind table (x ∷ pre) p post [] c post1 e ready busy other =
    (pre, omega arith, sym (tail-eq_of_cons-eq e))
behind table [] p post (y ∷ pre1) c post1 e ready (b, busy) other =
    absurd (b (ap (λ q. (table q).state) (sym (head-eq_of_cons-eq e)) ∙ ready))
behind table (x ∷ pre) p post (y ∷ pre1) c post1 e ready (b, busy) other =
    let (pre2, l, f) =
      behind table pre p post pre1 c post1 (tail-eq_of_cons-eq e) ready busy other in
    (pre2, omega arith, f)

fair :
    (kernel_pd : ℕ) (fuel : ℕ) (regs : ℕ → ℕ) (s : Procs) (pre : List ℕ) (p : ℕ) (post : List ℕ)
    → IsSched s (pre ++ p ∷ post)
    → (s.process_table p).state ≡ 0
    → s.quantum_count < 5
    → 5 * length pre + (5 - s.quantum_count) ≤ fuel
    → (n : ℕ) × (n ≤ fuel) × ((ticks kernel_pd regs n s).current_process ≡ p)
unfolding ticks
fair kernel_pd zero regs s pre p post v ready q m = absurd (omega arith)
fair kernel_pd (suc fuel) regs s pre p post v ready q m =
    elim (schedule-Ticked kernel_pd (regs 0) s (pre ++ p ∷ post) v) [
      | counted running within e ↦
          let count = ap (λ r. r.quantum_count) e in
          let (n, l, at) =
            fair kernel_pd fuel (λ i. regs (i + 1)) (schedule kernel_pd (regs 0) s) pre p post
              (subst (λ r. IsSched r (pre ++ p ∷ post)) (sym e) v)
              (ap (λ r. (r.process_table p).state) e ∙ ready) (omega (arith, count, within))
              (omega (arith, count)) in
          (suc n, omega arith, at)
      | alone due busy at on w still ↦
          absurd ((All-drop (λ x. (s.process_table x).state ≢ 0) pre p post busy).0 ready)
      | turned pre1 c post1 tail split busy now at loaded moved w reset kept ↦
          elim (ℕ_discrete c p) [
            | yes here ↦ (1, omega arith, at ∙ here)
            | no other ↦
                let (pre2, shorter, f) =
                  behind s.process_table pre p post pre1 c post1 split ready busy other in
                let apart = (All-drop (λ x. s.current_process ≢ x) pre p post v.distinct.0).0 in
                let ring = subst (λ xs. IsSched (schedule kernel_pd (regs 0) s) (xs ++ tail)) f w in
                let (n, l, at') =
                  fair kernel_pd fuel (λ i. regs (i + 1)) (schedule kernel_pd (regs 0) s) pre2 p
                    (post ++ tail)
                    (subst (IsSched (schedule kernel_pd (regs 0) s))
                      (append_assoc pre2 (p ∷ post) tail) ring)
                    (kept p other apart ∙ ready) (omega (arith, reset)) (omega (arith, reset)) in
                (suc n, omega arith, at')
          ]
    ]

-- A process that is ready, with `length pre` others between it and the current one in the ring,
-- becomes the current one within five timer interrupts for each of these and for the current one,
-- if nothing but the timer interrupts, whatever registers they pass.
pub round_robin :
    (kernel_pd : ℕ) (regs : ℕ → ℕ) (s : Procs) (pre : List ℕ) (p : ℕ) (post : List ℕ)
    → IsSched s (pre ++ p ∷ post)
    → (s.process_table p).state ≡ 0
    → s.quantum_count < 5
    → (n : ℕ) × (n ≤ 5 * (length pre + 1)) × ((ticks kernel_pd regs n s).current_process ≡ p)
round_robin kernel_pd regs s pre p post v ready q =
    fair kernel_pd (5 * (length pre + 1)) regs s pre p post v ready q (omega arith)
