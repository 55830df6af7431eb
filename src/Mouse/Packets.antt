-- ===== src/Mouse/Packets.antt =====
-- Packets of three bytes, and the position of the pointer.
use tet_os.Prelude.{
  subst, sym, add32, ℕ, ◌+◌, ◌-◌, ◌%◌, ◌^◌, ◌<◌, ◌≡◌, ◌≢◌, refl, ap, ◌∙◌, List, [], ◌∷◌, ◌++◌,
  arith, length, ltb, leb, ◌==◌, if◌then◌else◌, update, true, false, bit_and, u8, if_cases, ◌&&◌,
}
use tet_os.Prelude.Int.{ℤ, pos, negsuc, pos_part, neg_part, ◌+ℤ◌, ◌-ℤ◌, ltb_ℤ}
use tet_os.Mouse.{
  Mouse, MouseEvent, signed8, cast8, cast32, unless_overflow, clamp_axis, push_event,
  mouse_handle_packet, mouse_irq,
}
use tet_os.Mouse.Events.{IsQueue, events, push_event_lem}

-- The coordinate is one of the screen.
abbrev pub IsInside : ℕ → ℤ → Type 0
IsInside size v = (neg_part v ≡ 0) × (pos_part v < size)

-- An integer cut at both ends of the screen.
abbrev pub cut : ℕ → ℤ → ℤ
cut size v = if ltb_ℤ v (pos 0) then pos 0 else if leb size (pos_part v) then pos (size - 1) else v

clamp_axis-IsInside :
    (size : ℕ) (a : ℤ) → 0 < size → size < 2 ^ 16 → IsInside size (clamp_axis size (cast32 a))
unfolding clamp_axis
clamp_axis-IsInside size (pos n) l m = ground arith
clamp_axis-IsInside size (negsuc n) l m = ground arith

clamp_axis-cut :
    (size : ℕ) (a : ℤ)
    → 0 < size
    → size < 2 ^ 16
    → pos_part a < 2 ^ 17
    → neg_part a < 2 ^ 17
    → clamp_axis size (cast32 a) ≡ cut size a
unfolding clamp_axis
clamp_axis-cut size (pos n) l m p q = ground arith
clamp_axis-cut size (negsuc n) l m p q = ground arith

-- An event does not move the pointer.
abbrev SamePointer : Mouse → Mouse → Type 0
SamePointer m m' =
    (m'.mouse_x ≡ m.mouse_x)
    × (m'.mouse_y ≡ m.mouse_y)
    × (m'.mouse_buttons ≡ m.mouse_buttons)
    × (m'.packet_index ≡ m.packet_index)

push_event_frame : (event : MouseEvent) (m : Mouse) → SamePointer m (push_event event m)
unfolding push_event
push_event_frame event m =
    if_cases (SamePointer m) (add32 m.event_write 1 % 64 == m.event_read)
      (λ h. (refl, refl, refl, refl)) (λ h. (refl, refl, refl, refl))

-- The three interrupts of a packet; `s` are the bytes of the status port.
abbrev pub irqs : ℕ → ℕ → List (ℕ × ℕ) → Mouse → Mouse
irqs w h [] m = m
irqs w h ((status, byte) ∷ bytes) m = irqs w h bytes (mouse_irq w h status byte m)

abbrev pub IsPointer : ℕ → ℕ → Mouse → Type 0
IsPointer w h m = IsQueue m × (m.packet_index < 3) × IsInside w m.mouse_x × IsInside h m.mouse_y

-- The event of a packet, behind the move from `m`.
abbrev pub packet_event : ℕ → ℕ → ℕ → ℕ → ℕ → Mouse → MouseEvent
packet_event w h b0 b1 b2 m = record {
  dx = unless_overflow 0x40 b0 (signed8 b1);
  dy = cast8 (pos 0 -ℤ unless_overflow 0x80 b0 (signed8 b2));
  buttons = bit_and b0 7;
  x = cut w (m.mouse_x +ℤ unless_overflow 0x40 b0 (signed8 b1));
  y = cut h (m.mouse_y -ℤ unless_overflow 0x80 b0 (signed8 b2));
}

irq_stores :
    (w h status byte : ℕ) (m : Mouse) (k : ℕ)
    → bit_and status 0x20 ≢ 0
    → (k ≡ 0 → bit_and byte 0x08 ≢ 0)
    → m.packet_index ≡ k
    → k < 2
    → mouse_irq w h status byte m
      ≡ record m { packet = update m.packet k byte; packet_index = k + 1 }
unfolding mouse_irq
irq_stores w h status byte m k aux sync at l =
    let is_aux : (bit_and status 0x20 == 0) ≡ false = ground (arith, aux) in
    let in_sync : ((m.packet_index == 0) && (bit_and byte 0x08 == 0)) ≡ false =
      ground (arith, at, sync) in
    let more : ltb (u8 (m.packet_index + 1)) 3 ≡ true = ground (arith, at) in
    let next : u8 (m.packet_index + 1) ≡ k + 1 = omega (arith, at) in
    rw (mouse_irq, is_aux, in_sync, more)
      (λ i. record m { packet = update m.packet (at i) byte; packet_index = next i })

irq_completes :
    (w h status byte : ℕ) (m : Mouse)
    → bit_and status 0x20 ≢ 0
    → m.packet_index ≡ 2
    → mouse_irq w h status byte m
      ≡ mouse_handle_packet w h (record m { packet = update m.packet 2 byte; packet_index = 0 })
unfolding mouse_irq
irq_completes w h status byte m aux at =
    let is_aux : (bit_and status 0x20 == 0) ≡ false = ground (arith, aux) in
    let in_sync : ((m.packet_index == 0) && (bit_and byte 0x08 == 0)) ≡ false =
      ground (arith, at) in
    let last : ltb (u8 (m.packet_index + 1)) 3 ≡ false = ground (arith, at) in
    rw (mouse_irq, is_aux, in_sync, last)
      (λ i.
        mouse_handle_packet w h
          (record m { packet = update m.packet (at i) byte; packet_index = 0 }))

distance :
    (flag status b : ℕ)
    → b < 256
    → (pos_part (unless_overflow flag status (signed8 b)) < 2 ^ 8)
      × (neg_part (unless_overflow flag status (signed8 b)) < 2 ^ 8)
distance flag status b l = (ground arith, ground arith)

+ℤ_low :
    (a b : ℤ)
    → pos_part a < 2 ^ 16
    → neg_part a < 2 ^ 16
    → pos_part b < 2 ^ 8
    → neg_part b < 2 ^ 8
    → (pos_part (a +ℤ b) < 2 ^ 17) × (neg_part (a +ℤ b) < 2 ^ 17)
unfolding ◌+ℤ◌
+ℤ_low a b p q r t = (ground arith, ground arith)

-ℤ_low :
    (a b : ℤ)
    → pos_part a < 2 ^ 16
    → neg_part a < 2 ^ 16
    → pos_part b < 2 ^ 8
    → neg_part b < 2 ^ 8
    → (pos_part (a -ℤ b) < 2 ^ 17) × (neg_part (a -ℤ b) < 2 ^ 17)
unfolding ◌-ℤ◌
-ℤ_low a b p q r t = (ground arith, ground arith)

module _ (w h : ℕ) (w_pos : 0 < w) (w_low : w < 2 ^ 16) (h_pos : 0 < h) (h_low : h < 2 ^ 16) where
  handle-IsPointer :
      (m : Mouse) → IsQueue m → m.packet_index < 3 → IsPointer w h (mouse_handle_packet w h m)
  unfolding mouse_handle_packet
  handle-IsPointer m q i =
      let dx = unless_overflow 0x40 (m.packet 0) (signed8 (m.packet 1)) in
      let dy = unless_overflow 0x80 (m.packet 0) (signed8 (m.packet 2)) in
      let moved = record m {
        mouse_buttons = bit_and (m.packet 0) 7;
        mouse_x = clamp_axis w (cast32 (m.mouse_x +ℤ dx));
        mouse_y = clamp_axis h (cast32 (m.mouse_y -ℤ dy));
      } in
      let event : MouseEvent = record {
        dx = dx;
        dy = cast8 (pos 0 -ℤ dy);
        buttons = bit_and (m.packet 0) 7;
        x = moved.mouse_x;
        y = moved.mouse_y;
      } in
      let (x, y, b, p) = push_event_frame event moved in
      (
        (push_event_lem event moved q).0,
        omega (arith, p),
        subst (IsInside w) (sym x) (clamp_axis-IsInside w (m.mouse_x +ℤ dx) w_pos w_low),
        subst (IsInside h) (sym y) (clamp_axis-IsInside h (m.mouse_y -ℤ dy) h_pos h_low),
      )

  irq-IsPointer :
      (status byte : ℕ) (m : Mouse) → IsPointer w h m → IsPointer w h (mouse_irq w h status byte m)
  unfolding mouse_irq
  irq-IsPointer status byte m (q, i, x, y) =
      let stored = record m {
        packet = update m.packet m.packet_index byte;
        packet_index = u8 (m.packet_index + 1);
      } in
      if_cases (IsPointer w h) (bit_and status 0x20 == 0) (λ e. (q, i, x, y))
        (λ e.
          if_cases (IsPointer w h) ((m.packet_index == 0) && (bit_and byte 0x08 == 0))
            (λ e. (q, i, x, y))
            (λ e.
              if_cases (IsPointer w h) (ltb stored.packet_index 3)
                (λ e. (q, ground (arith, e), x, y))
                (λ e. handle-IsPointer (record stored { packet_index = 0 }) q (omega arith))))

  -- On a screen of at most 65535 pixels each way, the pointer stays on the screen, the index in the
  -- packet and the indices of the event buffer in their arrays, whatever bytes the interrupts bring.
  pub irqs-IsPointer :
      (bytes : List (ℕ × ℕ)) (m : Mouse) → IsPointer w h m → IsPointer w h (irqs w h bytes m)
  irqs-IsPointer [] m v = v
  irqs-IsPointer ((status, byte) ∷ bytes) m v =
      irqs-IsPointer bytes (mouse_irq w h status byte m) (irq-IsPointer status byte m v)

  handled :
      (m : Mouse)
      → IsQueue m
      → IsInside w m.mouse_x
      → IsInside h m.mouse_y
      → m.packet 1 < 256
      → m.packet 2 < 256
      → let event = packet_event w h (m.packet 0) (m.packet 1) (m.packet 2) m in
        ((mouse_handle_packet w h m).packet_index ≡ m.packet_index)
        × ((mouse_handle_packet w h m).mouse_x ≡ event.x)
        × ((mouse_handle_packet w h m).mouse_y ≡ event.y)
        × ((mouse_handle_packet w h m).mouse_buttons ≡ event.buttons)
        × (events (mouse_handle_packet w h m)
            ≡ (if ltb (length (events m)) 63 then events m ++ event ∷ [] else events m))
  unfolding mouse_handle_packet
  handled m q (x0, x1) (y0, y1) l1 l2 =
      let dx = unless_overflow 0x40 (m.packet 0) (signed8 (m.packet 1)) in
      let dy = unless_overflow 0x80 (m.packet 0) (signed8 (m.packet 2)) in
      let (dx_pos, dx_neg) = distance 0x40 (m.packet 0) (m.packet 1) l1 in
      let (dy_pos, dy_neg) = distance 0x80 (m.packet 0) (m.packet 2) l2 in
      let at_x : clamp_axis w (cast32 (m.mouse_x +ℤ dx)) ≡ cut w (m.mouse_x +ℤ dx) =
        clamp_axis-cut w (m.mouse_x +ℤ dx) w_pos w_low
          (+ℤ_low m.mouse_x dx (omega arith) (omega arith) dx_pos dx_neg).0
          (+ℤ_low m.mouse_x dx (omega arith) (omega arith) dx_pos dx_neg).1 in
      let at_y : clamp_axis h (cast32 (m.mouse_y -ℤ dy)) ≡ cut h (m.mouse_y -ℤ dy) =
        clamp_axis-cut h (m.mouse_y -ℤ dy) h_pos h_low
          (-ℤ_low m.mouse_y dy (omega arith) (omega arith) dy_pos dy_neg).0
          (-ℤ_low m.mouse_y dy (omega arith) (omega arith) dy_pos dy_neg).1 in
      let event = packet_event w h (m.packet 0) (m.packet 1) (m.packet 2) m in
      let moved = record m {
        mouse_buttons = bit_and (m.packet 0) 7;
        mouse_x = event.x;
        mouse_y = event.y;
      } in
      let (x, y, b, p) = push_event_frame event moved in
      rw (at_x, at_y) (p, x, y, b, (push_event_lem event moved q).1)

  -- Three bytes with the auxiliary bit in the status, the first one with its bit 3, from the start of
  -- a packet: the pointer moves by the two distances, an overflow counting as none, cut at the edges
  -- of the screen, and one event with the new position and the buttons goes behind the events that
  -- wait, unless 63 of them do.
  pub mouse_packet_lem :
      (s0 s1 s2 b0 b1 b2 : ℕ) (m : Mouse)
      → IsPointer w h m
      → m.packet_index ≡ 0
      → bit_and s0 0x20 ≢ 0
      → bit_and s1 0x20 ≢ 0
      → bit_and s2 0x20 ≢ 0
      → bit_and b0 0x08 ≢ 0
      → b1 < 256
      → b2 < 256
      → let m' = irqs w h ((s0, b0) ∷ (s1, b1) ∷ (s2, b2) ∷ []) m in
        let event = packet_event w h b0 b1 b2 m in
        (m'.packet_index ≡ 0)
        × (m'.mouse_x ≡ event.x)
        × (m'.mouse_y ≡ event.y)
        × (m'.mouse_buttons ≡ event.buttons)
        × (events m' ≡ (if ltb (length (events m)) 63 then events m ++ event ∷ [] else events m))
  mouse_packet_lem s0 s1 s2 b0 b1 b2 m (q, i, x, y) at a0 a1 a2 sync l1 l2 =
      let m1 = record m { packet = update m.packet 0 b0; packet_index = 1 } in
      let m2 = record m1 { packet = update m1.packet 1 b1; packet_index = 2 } in
      let m3 = record m2 { packet = update m2.packet 2 b2; packet_index = 0 } in
      let run : irqs w h ((s0, b0) ∷ (s1, b1) ∷ (s2, b2) ∷ []) m ≡ mouse_handle_packet w h m3 =
        ap (λ n. mouse_irq w h s2 b2 (mouse_irq w h s1 b1 n))
          (irq_stores w h s0 b0 m 0 a0 (λ e. sync) at (omega arith))
        ∙ ap (mouse_irq w h s2 b2)
            (irq_stores w h s1 b1 m1 1 a1 (λ e. absurd (omega (arith, e))) refl (omega arith))
        ∙ irq_completes w h s2 b2 m2 a2 refl in
      rw run (handled m3 q x y l1 l2)
