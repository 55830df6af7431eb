-- ===== src/Keyboard/Queue.antt =====
-- The key buffer as a queue of at most 255 keys.
use tet_os.Prelude.{
  ℕ, suc, ◌+◌, ◌-◌, ◌%◌, ◌<◌, ◌≡◌, ◌≢◌, ap, ap₂, ◌∙◌, List, [], ◌∷◌, ◌++◌, arith, length, ltb, ◌==◌,
  if◌then◌else◌, Bool-cases, inl, inr, update, add32, true,
}
use tet_os.Ring.{window, window-push, length-window}
use tet_os.Keyboard.{Keyboard, key_buffer_size, push_key, take_key, keyboard_has_input}

pub record IsValid (k : Keyboard) : Type 0 where
  pub read_in : k.buffer_read < key_buffer_size
  pub write_in : k.buffer_write < key_buffer_size

abbrev pub count : Keyboard → ℕ
count k = (k.buffer_write + key_buffer_size - k.buffer_read) % key_buffer_size

-- The keys in the buffer, oldest first.
abbrev pub contents : Keyboard → List ℕ
contents k = window key_buffer_size k.key_buffer k.buffer_read (count k)

-- `push_key` appends the key while fewer than 255 keys wait, and otherwise drops it.
pub push_key_refines :
    (key : ℕ) (k : Keyboard)
    → IsValid k
    → IsValid (push_key key k)
      × (contents (push_key key k)
          ≡ (if ltb (length (contents k)) 255 then contents k ++ key ∷ [] else contents k))
unfolding push_key
push_key_refines key k v =
    elim (Bool-cases (add32 k.buffer_write 1 % key_buffer_size == k.buffer_read)) [
      | inl full ↦ rw (full, sized) (v, (ground arith))
      | inr room ↦
          rw (room, sized)
            (record { read_in = v.read_in; write_in = omega arith }, pushed (ground arith))
    ]
  where
    sized : length (contents k) ≡ count k
    sized = length-window key_buffer_size k.key_buffer k.buffer_read (count k)

    pushed :
        add32 k.buffer_write 1 % key_buffer_size ≢ k.buffer_read
        → window key_buffer_size (update k.key_buffer k.buffer_write key) k.buffer_read (
            (add32 k.buffer_write 1 % key_buffer_size + key_buffer_size - k.buffer_read)
            % key_buffer_size)
          ≡ (if ltb (count k) 255 then contents k ++ key ∷ [] else contents k)
    pushed ne =
        let more : (add32 k.buffer_write 1 % key_buffer_size + key_buffer_size - k.buffer_read)
              % key_buffer_size
            ≡ suc (count k) =
          omega arith in
        rw more (
          window-push key_buffer_size k.key_buffer key k.buffer_read (count k) k.buffer_write
            v.read_in (omega arith) (omega arith)
          ∙ ground arith)

-- With a key in the buffer `take_key` removes the oldest.
pub take_key_refines :
    (k : Keyboard)
    → IsValid k
    → keyboard_has_input k ≡ true
    → IsValid (take_key k).1 × (contents k ≡ (take_key k).0 ∷ contents (take_key k).1)
unfolding take_key keyboard_has_input
take_key_refines k v h = (
  record { read_in = omega arith; write_in = v.write_in },
  ap (window key_buffer_size k.key_buffer k.buffer_read) some_wait
      ∙ ap₂ (λ i n. k.key_buffer k.buffer_read ∷ window key_buffer_size k.key_buffer i n)
          (omega arith) fewer,
)
  where
    differ : k.buffer_read ≢ k.buffer_write
    differ = ground arith

    some_wait : count k ≡ suc (count k - 1)
    some_wait = omega (arith, differ)

    fewer :
        count k - 1
        ≡ (k.buffer_write + key_buffer_size - add32 k.buffer_read 1 % key_buffer_size)
          % key_buffer_size
    fewer = omega (arith, differ)

-- `keyboard_has_input` says whether a key waits.
pub keyboard_has_input_lem :
    (k : Keyboard) → IsValid k → keyboard_has_input k ≡ ltb 0 (length (contents k))
unfolding keyboard_has_input
keyboard_has_input_lem k v =
    rw (length-window key_buffer_size k.key_buffer k.buffer_read (count k)) (ground arith)
