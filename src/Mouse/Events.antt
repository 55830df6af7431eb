-- ===== src/Mouse/Events.antt =====
-- The event buffer as a queue of at most 63 events.
use tet_os.Prelude.{
  ℕ, suc, ◌+◌, ◌-◌, ◌%◌, ◌<◌, ◌≡◌, ap, List, [], ◌∷◌, ◌++◌, arith, length, ltb, ◌==◌, if◌then◌else◌,
  Bool-cases, inl, inr, add32, true, none, some, refl, Option,
}
use tet_os.Ring.{window, window-push, length-window}
use tet_os.Mouse.{Mouse, MouseEvent, mouse_event_buffer_size, push_event, mouse_read_event}

abbrev pub IsQueue : Mouse → Type 0
IsQueue m = (m.event_read < mouse_event_buffer_size) × (m.event_write < mouse_event_buffer_size)

abbrev pub count : Mouse → ℕ
count m = (m.event_write + mouse_event_buffer_size - m.event_read) % mouse_event_buffer_size

-- The events that wait, oldest first.
abbrev pub events : Mouse → List MouseEvent
events m = window mouse_event_buffer_size m.event_buffer m.event_read (count m)

pub push_event_lem :
    (event : MouseEvent) (m : Mouse)
    → IsQueue m
    → IsQueue (push_event event m)
      × (events (push_event event m)
          ≡ (if ltb (length (events m)) 63 then events m ++ event ∷ [] else events m))
unfolding push_event
push_event_lem event m (r, w) =
    let sized = length-window 64 m.event_buffer m.event_read (count m) in
    elim (Bool-cases (add32 m.event_write 1 % 64 == m.event_read)) [
      | inl full ↦ rw (full, sized) ((r, w), ground arith)
      | inr room ↦
          let more : (add32 m.event_write 1 % 64 + 64 - m.event_read) % 64 ≡ suc (count m) =
            ground arith in
          let below : ltb (count m) 63 ≡ true = ground arith in
          rw (room, sized, below, more)
            (
              (r, omega arith),
              window-push 64 m.event_buffer event m.event_read (count m) m.event_write r
                  (omega arith) (omega arith),
            )
    ]

-- What `mouse_read_event` answers of a queue.
abbrev pub popped : List MouseEvent → Option MouseEvent
popped [] = none
popped (e ∷ es) = some e

abbrev pub rest : List MouseEvent → List MouseEvent
rest [] = []
rest (e ∷ es) = es

pub mouse_read_event_lem :
    (m : Mouse)
    → IsQueue m
    → IsQueue (mouse_read_event m).1
      × ((mouse_read_event m).0 ≡ popped (events m))
      × (events (mouse_read_event m).1 ≡ rest (events m))
unfolding mouse_read_event
mouse_read_event_lem m (r, w) = elim (Bool-cases (m.event_read == m.event_write)) [
  | inl empty ↦
      let none_wait : count m ≡ 0 = ground (arith, empty) in
      rw (empty, none_wait) ((r, w), refl, refl)
  | inr some_wait ↦
      let more : count m ≡ suc ((m.event_write + 64 - add32 m.event_read 1 % 64) % 64) =
        ground (arith, some_wait) in
      let at : add32 m.event_read 1 % 64 ≡ (m.event_read + 1) % 64 = omega arith in
      rw (some_wait, more)
        (
          (omega arith, w),
          refl,
          ap
              (λ h.
                window 64 m.event_buffer h ((m.event_write + 64 - add32 m.event_read 1 % 64) % 64))
              at,
        )
]
