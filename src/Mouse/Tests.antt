-- ===== src/Mouse/Tests.antt =====
-- kernel/mouse/mouse.c on concrete inputs.
use tet_os.Prelude.{ℕ, List, ◌≡◌, refl, [], ◌∷◌, arith}
use tet_os.Prelude.Int.{pos, ◌+ℤ◌, ◌-ℤ◌}
use tet_os.Mouse.{Mouse, MouseEvent, center, push_event, clamp_axis, mouse_handle_packet, mouse_irq}
use tet_os.Mouse.Events.{events}
use tet_os.Mouse.Packets.{IsPointer, irqs, packet_event, irqs-IsPointer, mouse_packet_lem}

abbrev still : MouseEvent
still = record { dx = pos 0; dy = pos 0; buttons = 0; x = pos 0; y = pos 0 }

-- The last slot of the event buffer is next.
abbrev idle : Mouse
idle = record {
  event_read = 63;
  event_write = 63;
  event_buffer = λ i. still;
  packet = λ i. 0;
  packet_index = 0;
  mouse_x = pos 5;
  mouse_y = pos 100;
  mouse_buttons = 0;
}

-- The left button, nine to the left and two down.
abbrev bytes : List (ℕ × ℕ)
bytes = (0x21, 0x19) ∷ (0x21, 0xF7) ∷ (0x21, 0xFE) ∷ []

irqs-IsPointer_example : IsPointer 640 480 (irqs 640 480 bytes idle)
irqs-IsPointer_example =
    irqs-IsPointer 640 480 (omega arith) (omega arith) (omega arith) (omega arith) bytes idle
      ((omega arith, omega arith), omega arith, (refl, omega arith), (refl, omega arith))

mouse_packet_lem_example :
    let m' = irqs 640 480 bytes idle in
    let event = packet_event 640 480 0x19 0xF7 0xFE idle in
    (m'.packet_index ≡ 0)
    × (m'.mouse_x ≡ event.x)
    × (m'.mouse_y ≡ event.y)
    × (m'.mouse_buttons ≡ event.buttons)
    × (events m' ≡ event ∷ [])
mouse_packet_lem_example =
    mouse_packet_lem 640 480 (omega arith) (omega arith) (omega arith) (omega arith) 0x21 0x21 0x21
      0x19 0xF7 0xFE idle
      ((omega arith, omega arith), omega arith, (refl, omega arith), (refl, omega arith)) refl
      (omega arith) (omega arith) (omega arith) (omega arith) (omega arith) (omega arith)

moved : ((irqs 640 480 bytes idle).mouse_x ≡ pos 0) × ((irqs 640 480 bytes idle).mouse_y ≡ pos 102)
unfolding mouse_irq mouse_handle_packet push_event clamp_axis ◌+ℤ◌ ◌-ℤ◌
moved = (refl, refl)

-- A byte without bit 3 is no first byte.
skipped : irqs 640 480 ((0x21, 0x10) ∷ []) idle ≡ idle
unfolding mouse_irq
skipped = refl

centered : (center 640 480 idle).mouse_x ≡ pos 320
unfolding center
centered = refl
