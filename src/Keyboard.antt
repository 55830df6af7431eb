-- ===== src/Keyboard.antt =====
-- kernel/keyboard/keyboard.c: the scan code decoder and its buffer of keys. The byte that the
-- interrupt handler reads from port 0x60 is an argument; `keyboard_getkey` takes the bytes that
-- interrupts bring while it halts.
mod Tables
pub mod Queue
pub mod Decode
pub mod Typing
mod Tests
use Tables.{scancode_ascii, scancode_shift_ascii, extended_keys, function_keys}
use tet_os.Prelude.{
  ℕ, ◌+◌, ◌-◌, ◌%◌, ◌^◌, bit_and, List, [], ◌∷◌, Option, none, some, Bool, true, false, not, ◌&&◌,
  ◌||◌, ltb, leb, ◌==◌, if◌then◌else◌, update, add32, length, get_or, u8, lookup_or,
}

abbrev pub key_buffer_size : ℕ
key_buffer_size = 256

abbrev pub key_enter : ℕ
key_enter = 0x0A

abbrev pub key_backspace : ℕ
key_backspace = 0x08

pub record Keyboard : Type 0 where
  pub key_buffer : ℕ → ℕ
  pub buffer_read : ℕ
  pub buffer_write : ℕ
  pub shift_down : ℕ
  pub ctrl_down : ℕ
  pub alt_down : ℕ
  pub caps_lock : ℕ
  pub ext_prefix : ℕ

unfoldable pub push_key : ℕ → Keyboard → Keyboard
push_key key k =
    let next = add32 k.buffer_write 1 % key_buffer_size in
    if next == k.buffer_read
    then k
    else record k { key_buffer = update k.key_buffer k.buffer_write key; buffer_write = next }

-- The ladder of `if`s is the first pair of the table that fits, or 0.
unfoldable pub decode_extended : ℕ → ℕ
decode_extended scancode = lookup_or scancode extended_keys 0

unfoldable pub decode_function : ℕ → ℕ
decode_function scancode = lookup_or scancode function_keys 0

-- `caps_lock ^ shift_down` is not 0 exactly when the two differ.
abbrev pub shifted : Keyboard → Bool
shifted k = not (k.caps_lock == k.shift_down)

-- The change of case at the end of `decode_ascii`.
unfoldable pub apply_case : Bool → ℕ → ℕ
apply_case upper c =
    if leb b'a' c && leb c b'z' && upper
    then b'A' + (c - b'a')
    else if leb b'A' c && leb c b'Z' && not upper
    then b'a' + (c - b'A')
    else c

unfoldable pub decode_ascii : Keyboard → ℕ → ℕ
decode_ascii k scancode =
    if leb (length scancode_ascii) scancode
    then 0
    else apply_case (shifted k) (
        if k.shift_down == 0
        then get_or scancode_ascii scancode 0
        else get_or scancode_shift_ascii scancode 0)

-- `released ? 0 : 1`
abbrev pub held : Bool → ℕ
held released = if released then 0 else 1

-- The part of `keyboard_callback` behind the prefix 0xE0.
unfoldable pub extended : Bool → ℕ → Keyboard → Keyboard
extended released code k =
    if code == 0x1D
    then record k { ctrl_down = held released }
    else if code == 0x38
    then record k { alt_down = held released }
    else if not released && not (decode_extended code == 0)
    then push_key (decode_extended code) k
    else k

-- The key that an ordinary press puts into the buffer.
abbrev pub named_key : ℕ → ℕ
named_key key =
    let enter = if key == b'\n' then key_enter else key in
    if enter == b'\x08' then key_backspace else enter

-- The end of `keyboard_callback`, for a code that is no modifier.
unfoldable pub press : ℕ → Keyboard → Keyboard
press code k =
    if not (decode_function code == 0)
    then push_key (decode_function code) k
    else if not (decode_ascii k code == 0)
    then push_key (named_key (decode_ascii k code)) k
    else k

unfoldable pub keyboard_callback : ℕ → Keyboard → Keyboard
keyboard_callback scancode k =
    let released = not (bit_and scancode 0x80 == 0) in
    let code = u8 (bit_and scancode 0x7F) in
    if scancode == 0xE0
    then record k { ext_prefix = 1 }
    else if not (k.ext_prefix == 0)
    then extended released code (record k { ext_prefix = 0 })
    else if code == 0x2A || code == 0x36
    then record k { shift_down = held released }
    else if code == 0x1D
    then record k { ctrl_down = held released }
    else if code == 0x38
    then record k { alt_down = held released }
    else if code == 0x3A && not released
    then record k { caps_lock = if k.caps_lock == 0 then 1 else 0 }
    else if released
    then k
    else press code k

unfoldable pub keyboard_has_input : Keyboard → Bool
keyboard_has_input k = not (k.buffer_read == k.buffer_write)

-- The end of `keyboard_getkey`, with a key in the buffer.
unfoldable pub take_key : Keyboard → ℕ × Keyboard
take_key k =
    (k.key_buffer k.buffer_read, record k { buffer_read = add32 k.buffer_read 1 % key_buffer_size })

-- `none` is a caller that still halts after the last byte.
unfoldable pub keyboard_getkey : List ℕ → Keyboard → Option (ℕ × List ℕ × Keyboard)
keyboard_getkey [] k =
    let (key, k') = take_key k in if keyboard_has_input k then some (key, [], k') else none
keyboard_getkey (byte ∷ bytes) k =
    let wait = keyboard_getkey bytes (keyboard_callback byte k) in
    let (key, k') = take_key k in
    if keyboard_has_input k then some (key, byte ∷ bytes, k') else wait
