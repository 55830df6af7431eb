-- ===== src/Process/Create/Insertion.antt =====
-- What `process_create` and `process_create_user` do to the ring.
use native.Mathlib.Decide.{ℕ_discrete}
use tet_os.Prelude.{
  ℕ, zero, suc, ◌+◌, ◌≤◌, ◌<◌, ◌≡◌, ◌≢◌, refl, sym, ap, ◌∙◌, List, ◌∷◌, some, arith, ◌==◌,
  if◌then◌else◌, ◌⊎◌, inl, inr, Bool-cases, Option-cases,
}
use tet_os.Heap.{Heap, kmalloc}
use tet_os.Process.{Proc, Procs}
use tet_os.Process.Invariant.{IsSched, insert-IsQueue, unused-Absent}
use tet_os.Process.Create.{find_slot, insert_after_current, new_proc, fill_slot, create_with}

find_slot_lem :
    (left i k : ℕ) (table : ℕ → Proc)
    → find_slot left i table ≡ some k
    → (i ≤ k)
      × (k < i + left)
      × ((table k).state ≡ 255)
      × ((j : ℕ) → i ≤ j → j < k → (table j).state ≢ 255)
unfolding find_slot
find_slot_lem zero i k table e = absurd (ground (arith, e))
find_slot_lem (suc left) i k table e = elim (Bool-cases ((table i).state == 255)) [
  | inl free ↦
      let at : i ≡ k = ground (arith, free, e) in
      (
        omega arith,
        omega arith,
        ap (λ x. (table x).state) (sym at) ∙ ground (arith, free),
        λ j p q. absurd (omega arith),
      )
  | inr used ↦
      let (l, m, free, lower) = find_slot_lem left (i + 1) k table (rw used at e) in
      (
        omega arith,
        omega (arith, m),
        free,
        λ j p q. elim (ℕ_discrete i j) [
          | yes at ↦ λ z.
              let here : (table i).state ≡ 255 = ap (λ x. (table x).state) at ∙ z in
              ground (arith, used, here)
          | no past ↦ lower j (omega arith) q
        ],
      )
]

module _ (i stack : ℕ) (name : ℕ → ℕ) (frame : List ℕ) (clear : Proc → Proc) (s : Procs)
    (keeps_state : (p : Proc) → (clear p).state ≡ p.state)
    (keeps_next : (p : Proc) → (clear p).next ≡ p.next) (other : i ≢ s.current_process) where
  new_proc_state : (new_proc (s.process_table i) s.next_pid stack name clear).state ≡ 0
  unfolding new_proc
  new_proc_state = keeps_state _

  fill_slot_next :
      (j : ℕ)
      → ((fill_slot i stack name frame clear s).process_table j).next ≡ (
          if s.current_process == j
          then i
          else if i == j
          then (s.process_table s.current_process).next
          else (s.process_table j).next)
  unfolding fill_slot insert_after_current
  fill_slot_next j = ground (arith, other)

  fill_slot_state :
      (j : ℕ)
      → ((fill_slot i stack name frame clear s).process_table j).state
        ≡ (if i == j then 0 else (s.process_table j).state)
  unfolding fill_slot insert_after_current
  fill_slot_state j = ground (arith, new_proc_state, other)

module _ (frame : List ℕ) (clear : Proc → Proc) (name : ℕ → ℕ) (s : Procs) (rest : List ℕ)
    (v : IsSched s rest) (keeps_state : (p : Proc) → (clear p).state ≡ p.state)
    (keeps_next : (p : Proc) → (clear p).next ≡ p.next) where
  -- NULL, and nothing but the heap has changed; or a new process behind the current one.
  abbrev pub Inserted : ℕ × Procs → Type 0
  Inserted (i, s') =
      ((i ≡ 16) × (s'.process_table ≡ s.process_table) × IsSched s' rest)
      ⊎ ((1 ≤ i)
          × (i < 16)
          × ((s.process_table i).state ≡ 255)
          × ((s'.process_table i).state ≡ 0)
          × (s'.current_process ≡ s.current_process)
          × IsSched s' (i ∷ rest))

  filled-IsSched :
      (i stack : ℕ) (heap' : Heap)
      → i < 16
      → (s.process_table i).state ≡ 255
      → (((fill_slot i stack name frame clear (record s { heap = heap' })).process_table i).state
          ≡ 0)
        × ((fill_slot i stack name frame clear (record s { heap = heap' })).current_process
            ≡ s.current_process)
        × IsSched (fill_slot i stack name frame clear (record s { heap = heap' })) (i ∷ rest)
  unfolding fill_slot insert_after_current
  filled-IsSched i stack heap' l free =
      let s0 = record s { heap = heap' } in
      let other = (unused-Absent s.process_table s.current_process s.run_queue rest v i free).0 in
      let state = fill_slot_state i stack name frame clear s0 keeps_state keeps_next other in
      (
        ground (arith, state i),
        refl,
        insert-IsQueue s.process_table s.current_process s.run_queue rest v
            (fill_slot i stack name frame clear s0).process_table i l free
            (fill_slot_next i stack name frame clear s0 keeps_state keeps_next other) state,
      )

  pub create_with-Inserted : Inserted (create_with frame clear name s)
  unfolding create_with
  create_with-Inserted = elim (Option-cases (find_slot 15 1 s.process_table)) [
    | inl full ↦ rw (create_with, full) (inl (refl, refl, v))
    | inr (i, found) ↦
        let (l, m, free, lower) = find_slot_lem 15 1 i s.process_table found in
        elim (Bool-cases ((kmalloc 4096 s.heap).0 == 0)) [
          | inl none_left ↦ rw (create_with, found, none_left) (inl (refl, refl, v))
          | inr stack ↦
              let (new, cur, w) =
                filled-IsSched i (kmalloc 4096 s.heap).0 (kmalloc 4096 s.heap).1 m free in
              rw (create_with, found, stack) (inr (l, m, free, new, cur, w))
        ]
  ]
