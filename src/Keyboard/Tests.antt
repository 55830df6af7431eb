-- ===== src/Keyboard/Tests.antt =====
-- kernel/keyboard/keyboard.c on concrete scan codes.
use mathlib.Core.Option
use tet_os.Prelude.{ℕ, ◌<◌, ◌≡◌, ◌≢◌, refl, [], ◌∷◌, some, arith, ◌⊎◌}
use tet_os.Keyboard.{
  Keyboard, push_key, take_key, keyboard_callback, keyboard_has_input, keyboard_getkey, press,
  extended, decode_ascii, decode_function, decode_extended, apply_case,
}
use tet_os.Keyboard.Queue.{IsValid, contents, push_key_refines, take_key_refines}
use tet_os.Keyboard.Decode.{decode_ascii_letter, keyboard_callback-AtMostOne}
use tet_os.Keyboard.Typing.{feed, strokes, feed-strokes}

abbrev idle : Keyboard
idle = record {
  key_buffer = λ _. 0;
  buffer_read = 0;
  buffer_write = 0;
  shift_down = 0;
  ctrl_down = 0;
  alt_down = 0;
  caps_lock = 0;
  ext_prefix = 0;
}

-- One key waits, at the end of the buffer.
abbrev waiting : Keyboard
waiting = record idle { key_buffer = λ _. 65; buffer_read = 255; caps_lock = 1 }

waiting-IsValid : IsValid waiting
waiting-IsValid = omega arith

-- Shift and `a`, then the up arrow with its prefix, then F1, and the releases.
typed :
    contents (feed (0x2A ∷ 0x1E ∷ 0x9E ∷ 0xAA ∷ 0xE0 ∷ 0x48 ∷ 0xE0 ∷ 0xC8 ∷ 0x3B ∷ []) idle)
    ≡ b'A' ∷ 0x100 ∷ 0x120 ∷ []
unfolding keyboard_callback press extended push_key decode_ascii decode_function decode_extended
    apply_case
typed = refl

getkey_waits : Option.map (λ r. r.0) (keyboard_getkey (0x9E ∷ 0x1E ∷ 0x30 ∷ []) idle) ≡ some b'a'
unfolding keyboard_getkey keyboard_has_input take_key keyboard_callback press push_key decode_ascii
    decode_function apply_case
getkey_waits = refl

push_key_refines_example :
    IsValid (push_key 66 waiting) × (contents (push_key 66 waiting) ≡ 65 ∷ 66 ∷ [])
push_key_refines_example = push_key_refines 66 waiting waiting-IsValid

take_key_refines_example :
    IsValid (take_key waiting).1 × (65 ∷ [] ≡ (take_key waiting).0 ∷ contents (take_key waiting).1)
unfolding keyboard_has_input
take_key_refines_example = take_key_refines waiting waiting-IsValid refl

decode_ascii_letter_example : decode_ascii waiting 0x1E ≡ b'A'
decode_ascii_letter_example = decode_ascii_letter waiting 0x1E (omega arith) refl

keyboard_callback-AtMostOne_example :
    IsValid (keyboard_callback 0x9E waiting)
    × ((contents (keyboard_callback 0x9E waiting) ≡ 65 ∷ [])
        ⊎ ((key : ℕ) × (key ≢ 0)
            × (0x9E < 128)
            × (contents (keyboard_callback 0x9E waiting) ≡ 65 ∷ key ∷ [])))
keyboard_callback-AtMostOne_example =
    keyboard_callback-AtMostOne 0x9E waiting waiting-IsValid (omega arith)

-- `hi` with caps lock on, behind the key that waits.
feed-strokes_example : contents (feed (strokes (0x23 ∷ 0x17 ∷ [])) waiting) ≡ 65 ∷ b'H' ∷ b'I' ∷ []
feed-strokes_example =
    feed-strokes (0x23 ∷ 0x17 ∷ []) waiting waiting-IsValid refl (refl, (refl, tt)) (omega arith)
