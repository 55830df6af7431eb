-- ===== src/Keyboard/Typing.antt =====
-- Typing a text of letters: each key pressed and released, with caps lock and shift as they are.
use tet_os.Prelude.{
  ℕ, ◌+◌, ◌-◌, ◌≤◌, ◌≡◌, ◌≢◌, refl, sym, ap, ap₂, ◌∙◌, List, [], ◌∷◌, ◌++◌, map, Bool, true, false,
  not, arith, length, length-append, ltb, ◌==◌, ◌&&◌, ◌||◌, if◌then◌else◌, bit_and, get_or,
  holds_below, holds_below-lt, u8,
}
use mathlib.Core.List.{append_assoc, append-nil}
use tet_os.Keyboard.{Keyboard, push_key, decode_function, press, keyboard_callback, named_key}
use tet_os.Keyboard.Tables.{scancode_ascii}
use tet_os.Keyboard.Queue.{IsValid, contents, push_key_refines}
use tet_os.Keyboard.Decode.{is_lower, decode_ascii_letter}

-- The codes of the letters.
abbrev pub is_letter : ℕ → Bool
is_letter code = ltb code 58 && is_lower (get_or scancode_ascii code 0)

abbrev pub All : (ℕ → Bool) → List ℕ → Type 0
All p [] = Unit {0}
All p (x ∷ xs) = (p x ≡ true) × All p xs

-- The bytes of a text typed on letter keys, and the handler's run over bytes.
abbrev pub strokes : List ℕ → List ℕ
strokes [] = []
strokes (code ∷ codes) = code ∷ (code + 128) ∷ strokes codes

abbrev pub feed : List ℕ → Keyboard → Keyboard
feed [] k = k
feed (byte ∷ bytes) k = feed bytes (keyboard_callback byte k)

-- What the key with this code stands for.
abbrev pub letter : Keyboard → ℕ → ℕ
letter k code =
    if k.caps_lock == k.shift_down
    then get_or scancode_ascii code 0
    else get_or scancode_ascii code 0 - 32

-- How the handler reads the two bytes of a letter's key.
record Plain (code : ℕ) : Type 0 where
  low : u8 (bit_and code 0x7F) ≡ code
  down : bit_and code 0x80 ≡ 0
  low' : u8 (bit_and (code + 128) 0x7F) ≡ code
  up : bit_and (code + 128) 0x80 ≡ 128
  no_prefix : code ≢ 0xE0
  no_prefix' : code + 128 ≢ 0xE0
  no_shift : (code == 0x2A || code == 0x36) ≡ false
  no_ctrl : (code == 0x1D) ≡ false
  no_alt : (code == 0x38) ≡ false
  no_caps : (code == 0x3A) ≡ false
  no_function : decode_function code ≡ 0

plain : ℕ → Bool
plain code =
    (u8 (bit_and code 0x7F) == code)
    && (bit_and code 0x80 == 0)
    && (u8 (bit_and (code + 128) 0x7F) == code)
    && (bit_and (code + 128) 0x80 == 128)
    && not (code == 0xE0)
    && not (code + 128 == 0xE0)
    && not (code == 0x2A || code == 0x36)
    && not (code == 0x1D)
    && not (code == 0x38)
    && not (code == 0x3A)
    && (decode_function code == 0)

plain-Plain : (code : ℕ) → plain code ≡ true → Plain code
unfolding plain
plain-Plain code h = ground arith

plain_table :
    holds_below 58 (λ code. if is_lower (get_or scancode_ascii code 0) then plain code else true)
    ≡ true
unfolding holds_below plain decode_function
plain_table = refl

is_letter-Plain : (code : ℕ) → is_letter code ≡ true → Plain code
is_letter-Plain code h = plain-Plain code (
    picked (is_lower (get_or scancode_ascii code 0)) (ground arith) (
      holds_below-lt 58 (λ c. if is_lower (get_or scancode_ascii c 0) then plain c else true) code
        plain_table (ground arith)))
  where
    picked : (b : Bool) → b ≡ true → (if b then plain code else true) ≡ true → plain code ≡ true
    picked true e r = r
    picked false e r = cc

press-letter :
    (code : ℕ) (k : Keyboard) → is_letter code ≡ true → press code k ≡ push_key (letter k code) k
unfolding press
press-letter code k h =
    rw
      (
        (is_letter-Plain code h).no_function,
        decode_ascii_letter k code (ground arith) (ground arith),
      )
      (by_case (get_or scancode_ascii code 0) (k.caps_lock == k.shift_down) (ground arith))
  where
    by_case :
        (small : ℕ) (same : Bool)
        → is_lower small ≡ true
        → (let key = (if same then small else small - 32) in
            if not (key == 0) then push_key (named_key key) k else k)
          ≡ push_key (if same then small else small - 32) k
    by_case small true l = ground arith
    by_case small false l = ground arith

keyboard_callback-press :
    (code : ℕ) (k : Keyboard)
    → is_letter code ≡ true
    → k.ext_prefix ≡ 0
    → keyboard_callback code k ≡ push_key (letter k code) k
unfolding keyboard_callback
keyboard_callback-press code k h e =
    let p = is_letter-Plain code h in
    let q : (code == 0xE0) ≡ false = ground (arith, p.no_prefix) in
    let r : (k.ext_prefix == 0) ≡ true = ground arith in
    rw (q, r, p.low, p.down, p.no_shift, p.no_ctrl, p.no_alt, p.no_caps) (press-letter code k h)

keyboard_callback-release :
    (code : ℕ) (k : Keyboard)
    → is_letter code ≡ true
    → k.ext_prefix ≡ 0
    → keyboard_callback (code + 128) k ≡ k
unfolding keyboard_callback
keyboard_callback-release code k h e =
    let p = is_letter-Plain code h in
    let q : (code + 128 == 0xE0) ≡ false = ground (arith, p.no_prefix') in
    let r : (k.ext_prefix == 0) ≡ true = ground arith in
    rw (q, r, p.low', p.up, p.no_shift, p.no_ctrl, p.no_alt, p.no_caps)

push_key-flags :
    (key : ℕ) (k : Keyboard)
    → ((push_key key k).ext_prefix ≡ k.ext_prefix)
      × ((push_key key k).caps_lock ≡ k.caps_lock)
      × ((push_key key k).shift_down ≡ k.shift_down)
unfolding push_key
push_key-flags key k = ground arith

-- Letters typed on their keys, each pressed and released, arrive in the buffer in order, as
-- capitals exactly when one of shift and caps lock is on, as long as there is room for them.
pub feed-strokes :
    (codes : List ℕ) (k : Keyboard)
    → IsValid k
    → k.ext_prefix ≡ 0
    → All is_letter codes
    → length (contents k) + length codes ≤ 255
    → contents (feed (strokes codes) k) ≡ contents k ++ map (letter k) codes
feed-strokes [] k v e l room = sym (append-nil (contents k))
feed-strokes (code ∷ codes) k v e l room =
    let k' : Keyboard = push_key (letter k code) k in
    let flags = push_key-flags (letter k code) k in
    let pushed = push_key_refines (letter k code) k v in
    let grown : contents k' ≡ contents k ++ letter k code ∷ [] = pushed.1 ∙ ground arith in
    let fed : feed (strokes (code ∷ codes)) k ≡ feed (strokes codes) k' =
      ap (λ s. feed (strokes codes) (keyboard_callback (code + 128) s))
        (keyboard_callback-press code k l.0 e)
      ∙ ap (feed (strokes codes)) (keyboard_callback-release code k' l.0 (flags.0 ∙ e)) in
    let fits : length (contents k') + length codes ≤ 255 =
      omega (arith, ap length grown, length-append (contents k) (letter k code ∷ [])) in
    let same : map (letter k') codes ≡ map (letter k) codes = rw (flags.1, flags.2) in
    ap contents fed
    ∙ feed-strokes codes k' pushed.0 (flags.0 ∙ e) l.1 fits
    ∙ ap₂ ◌++◌ grown same
    ∙ append_assoc (contents k) (letter k code ∷ []) (map (letter k) codes)
