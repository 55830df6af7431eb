-- ===== src/Keyboard/Decode.antt =====
-- What `keyboard_callback` makes of one byte.
use tet_os.Prelude.{
  ℕ, ◌+◌, ◌-◌, ◌<◌, ◌≡◌, ◌≢◌, refl, [], ◌∷◌, ◌++◌, Bool, not, ◌&&◌, ◌||◌, ◌⊎◌, arith, length, ltb,
  leb, ◌==◌, if◌then◌else◌, Bool-cases, inl, inr, bit_and, get_or, holds_below, holds_below-lt,
  true, false, u8, ==_iff, if_cases,
}
use tet_os.Keyboard.{
  Keyboard, push_key, decode_extended, decode_function, apply_case, decode_ascii, extended, press,
  keyboard_callback, named_key,
}
use tet_os.Keyboard.Tables.{scancode_ascii, scancode_shift_ascii}
use tet_os.Keyboard.Queue.{IsValid, contents, push_key_refines}

abbrev pub is_lower : ℕ → Bool
is_lower c = leb b'a' c && leb c b'z'

-- On the keys of the letters the second table is the first in capitals.
letters_table :
    holds_below 58 (λ code.
      let c = get_or scancode_ascii code 0 in
      if is_lower c then get_or scancode_shift_ascii code 0 + 32 == c else true)
    ≡ true
unfolding holds_below
letters_table = refl

letter_case :
    (caps shift small big : ℕ)
    → is_lower small ≡ true
    → big + 32 ≡ small
    → apply_case (not (caps == shift)) (if shift == 0 then small else big)
      ≡ (if caps == shift then small else small - 32)
unfolding apply_case
letter_case caps shift small big l e = ground arith

-- A key whose plain character is a letter gives the capital exactly when one of shift and caps
-- lock is on, and the small letter otherwise.
pub decode_ascii_letter :
    (k : Keyboard) (code : ℕ)
    → code < 58
    → is_lower (get_or scancode_ascii code 0) ≡ true
    → decode_ascii k code ≡ (
        if k.caps_lock == k.shift_down
        then get_or scancode_ascii code 0
        else get_or scancode_ascii code 0 - 32)
unfolding decode_ascii
decode_ascii_letter k code l h = rw inside (
    letter_case k.caps_lock k.shift_down (get_or scancode_ascii code 0)
      (get_or scancode_shift_ascii code 0) h big)
  where
    inside : leb 58 code ≡ false
    inside = ground arith

    row :
        (if is_lower (get_or scancode_ascii code 0)
          then get_or scancode_shift_ascii code 0 + 32 == get_or scancode_ascii code 0
          else true)
        ≡ true
    row =
        holds_below-lt 58
          (λ c.
            if is_lower (get_or scancode_ascii c 0)
            then get_or scancode_shift_ascii c 0 + 32 == get_or scancode_ascii c 0
            else true)
          code letters_table l

    big : get_or scancode_shift_ascii code 0 + 32 ≡ get_or scancode_ascii code 0
    big = (==_iff _ _).0 (rw h at row)

-- What one byte may do to the buffer: nothing, or one key more at the end.
abbrev pub AtMostOne : ℕ → Keyboard → Keyboard → Type 0
AtMostOne byte k k' =
    IsValid k'
    × ((contents k' ≡ contents k)
        ⊎ ((key : ℕ) × (key ≢ 0) × (byte < 128) × (contents k' ≡ contents k ++ key ∷ [])))

push_key-AtMostOne :
    (byte key : ℕ) (k : Keyboard)
    → IsValid k
    → key ≢ 0
    → byte < 128
    → AtMostOne byte k (push_key key k)
push_key-AtMostOne byte key k v nz l =
    let (valid, e) = push_key_refines key k v in
    elim (Bool-cases (ltb (length (contents k)) 255)) [
      | inl room ↦ (valid, inr (key, nz, l, rw room at e))
      | inr full ↦ (valid, inl (rw full at e))
    ]

-- A change of flags alone.
quiet :
    (byte : ℕ) (k : Keyboard) (shift ctrl alt caps ext : ℕ)
    → IsValid k
    → AtMostOne byte k (record k {
      shift_down = shift;
      ctrl_down = ctrl;
      alt_down = alt;
      caps_lock = caps;
      ext_prefix = ext;
    })
quiet byte k shift ctrl alt caps ext v =
    (record { read_in = v.read_in; write_in = v.write_in }, inl refl)

high_bit_table : holds_below 256 (λ byte. ltb byte 128 || not (bit_and byte 0x80 == 0)) ≡ true
unfolding holds_below
high_bit_table = refl

high_bit : (byte : ℕ) → byte < 256 → not (bit_and byte 0x80 == 0) ≡ false → byte < 128
high_bit byte l h =
    ground (
      arith,
      holds_below-lt 256 (λ b. ltb b 128 || not (bit_and b 0x80 == 0)) byte high_bit_table l,
    )

named_key-ne-zero : (key : ℕ) → key ≢ 0 → named_key key ≢ 0
named_key-ne-zero key h = ground arith

press-AtMostOne :
    (byte code : ℕ) (k : Keyboard) → IsValid k → byte < 128 → AtMostOne byte k (press code k)
unfolding press
press-AtMostOne byte code k v l =
    if_cases (AtMostOne byte k) (not (decode_function code == 0))
      (λ h. push_key-AtMostOne byte (decode_function code) k v (ground arith) l)
      λ _.
        if_cases (AtMostOne byte k) (not (decode_ascii k code == 0))
          (λ h.
            push_key-AtMostOne byte (named_key (decode_ascii k code)) k v
              (named_key-ne-zero (decode_ascii k code) (ground arith)) l)
          λ _. quiet byte k _ _ _ _ _ v

extended-AtMostOne :
    (byte code : ℕ) (k : Keyboard)
    → IsValid k
    → byte < 256
    → AtMostOne byte k (extended (not (bit_and byte 0x80 == 0)) code k)
unfolding extended
extended-AtMostOne byte code k v l =
    if_cases (AtMostOne byte k) (code == 0x1D) (λ _. quiet byte k _ _ _ _ _ v)
      λ _.
        if_cases (AtMostOne byte k) (code == 0x38) (λ _. quiet byte k _ _ _ _ _ v)
          λ _.
            if_cases (AtMostOne byte k)
              (not (not (bit_and byte 0x80 == 0)) && not (decode_extended code == 0))
              (λ h.
                push_key-AtMostOne byte (decode_extended code) k v (ground arith)
                  (high_bit byte l (ground arith)))
              λ _. quiet byte k _ _ _ _ _ v

-- One byte from the keyboard keeps the buffer valid and puts at most one key at its end, which is
-- not 0; the byte of a released key, 128 or more, puts none.
pub keyboard_callback-AtMostOne :
    (byte : ℕ) (k : Keyboard)
    → IsValid k
    → byte < 256
    → IsValid (keyboard_callback byte k)
      × ((contents (keyboard_callback byte k) ≡ contents k)
          ⊎ ((key : ℕ) × (key ≢ 0)
              × (byte < 128)
              × (contents (keyboard_callback byte k) ≡ contents k ++ key ∷ [])))
unfolding keyboard_callback
keyboard_callback-AtMostOne byte k v l =
    if_cases P (byte == 0xE0) (λ _. still)
      λ _.
        if_cases P (not (k.ext_prefix == 0))
          (λ _.
            extended-AtMostOne byte code (record k { ext_prefix = 0 })
              (record { read_in = v.read_in; write_in = v.write_in }) l)
          λ _.
            if_cases P (code == 0x2A || code == 0x36) (λ _. still)
              λ _.
                if_cases P (code == 0x1D) (λ _. still)
                  λ _.
                    if_cases P (code == 0x38) (λ _. still)
                      λ _.
                        if_cases P (code == 0x3A && not (not (bit_and byte 0x80 == 0))) (λ _. still)
                          λ _.
                            if_cases P (not (bit_and byte 0x80 == 0)) (λ _. still)
                              λ h. press-AtMostOne byte code k v (high_bit byte l h)
  where
    P : Keyboard → Type 0
    P = AtMostOne byte k

    code : ℕ
    code = u8 (bit_and byte 0x7F)

    still :
        {shift ctrl alt caps ext : ℕ}
        → AtMostOne byte k (record k {
          shift_down = shift;
          ctrl_down = ctrl;
          alt_down = alt;
          caps_lock = caps;
          ext_prefix = ext;
        })
    still = quiet byte k _ _ _ _ _ v
