-- ===== src/Mouse.antt =====
-- kernel/mouse/mouse.c: packets of the mouse, its position and the buffer of events. The bytes that
-- the interrupt handler reads from the ports are arguments, as are the width and the height that
-- the graphics functions answer; the commands of `mouse_init` to the ports are left out.
pub mod Events
pub mod Packets
mod Tests
use tet_os.Prelude.{
  ℕ, ◌+◌, ◌-◌, ◌/◌, ◌%◌, ◌^◌, bit_and, Option, none, some, not, ◌&&◌, ◌==◌, if◌then◌else◌, ltb, leb,
  update, add32, sub32, u8, Bool,
}
use tet_os.Prelude.Int.{ℤ, pos, negsuc, ◌+ℤ◌, ◌-ℤ◌, ltb_ℤ, signed32, unsigned32}

abbrev pub mouse_event_buffer_size : ℕ
mouse_event_buffer_size = 64

pub record MouseEvent : Type 0 where
  pub dx : ℤ
  pub dy : ℤ
  pub buttons : ℕ
  pub x : ℤ
  pub y : ℤ

pub record Mouse : Type 0 where
  pub event_read : ℕ
  pub event_write : ℕ
  pub event_buffer : ℕ → MouseEvent
  pub packet : ℕ → ℕ
  pub packet_index : ℕ
  pub mouse_x : ℤ
  pub mouse_y : ℤ
  pub mouse_buttons : ℕ

-- The cast of a byte to `int8_t`.
abbrev pub signed8 : ℕ → ℤ
signed8 b = if ltb b 128 then pos b else negsuc (255 - b)

-- The cast of an `int` to `int8_t`.
abbrev pub cast8 : ℤ → ℤ
cast8 a = signed8 (u8 (unsigned32 a))

-- The result of an `int32_t` operation, in the word.
abbrev pub cast32 : ℤ → ℤ
cast32 a = signed32 (unsigned32 a)

unfoldable pub push_event : MouseEvent → Mouse → Mouse
push_event event m =
    let next = add32 m.event_write 1 % mouse_event_buffer_size in
    if next == m.event_read
    then m
    else record m { event_buffer = update m.event_buffer m.event_write event; event_write = next }

-- The clamp of one coordinate to a screen of this size, of 0 when there is no screen.
unfoldable pub clamp_axis : ℕ → ℤ → ℤ
clamp_axis size v =
    let low = if ltb_ℤ v (pos 0) then pos 0 else v in
    if size == 0 then v else if leb size (unsigned32 low) then signed32 (sub32 size 1) else low

-- `if (status & flag) d = 0;`
abbrev pub unless_overflow : ℕ → ℕ → ℤ → ℤ
unless_overflow flag status d = if bit_and status flag == 0 then d else pos 0

unfoldable pub mouse_handle_packet : ℕ → ℕ → Mouse → Mouse
mouse_handle_packet screen_w screen_h m =
    let status = m.packet 0 in
    let dx = unless_overflow 0x40 status (signed8 (m.packet 1)) in
    let dy = unless_overflow 0x80 status (signed8 (m.packet 2)) in
    let moved = record m {
      mouse_buttons = bit_and status 0x07;
      mouse_x = clamp_axis screen_w (cast32 (m.mouse_x +ℤ dx));
      mouse_y = clamp_axis screen_h (cast32 (m.mouse_y -ℤ dy));
    } in
    push_event
      (record {
        dx = dx;
        dy = cast8 (pos 0 -ℤ dy);
        buttons = moved.mouse_buttons;
        x = moved.mouse_x;
        y = moved.mouse_y;
      })
      moved

-- `status` and `byte` are the bytes of the two ports.
unfoldable pub mouse_irq : ℕ → ℕ → ℕ → ℕ → Mouse → Mouse
mouse_irq screen_w screen_h status byte m =
    let stored = record m {
      packet = update m.packet m.packet_index byte;
      packet_index = u8 (m.packet_index + 1);
    } in
    let handled = mouse_handle_packet screen_w screen_h (record stored { packet_index = 0 }) in
    if bit_and status 0x20 == 0
    then m
    else if (m.packet_index == 0) && (bit_and byte 0x08 == 0)
    then m
    else if ltb stored.packet_index 3
    then stored
    else handled

-- What `mouse_init` does to the state: the pointer starts in the middle of the screen.
unfoldable pub center : ℕ → ℕ → Mouse → Mouse
center screen_w screen_h m = record m {
  mouse_x = if screen_w == 0 then m.mouse_x else signed32 (screen_w / 2);
  mouse_y = if screen_h == 0 then m.mouse_y else signed32 (screen_h / 2);
}

unfoldable pub mouse_has_event : Mouse → Bool
mouse_has_event m = not (m.event_read == m.event_write)

-- The event, when there is one.
unfoldable pub mouse_read_event : Mouse → Option MouseEvent × Mouse
mouse_read_event m = if m.event_read == m.event_write then (none, m) else (
  some (m.event_buffer m.event_read),
  record m { event_read = add32 m.event_read 1 % mouse_event_buffer_size },
)
