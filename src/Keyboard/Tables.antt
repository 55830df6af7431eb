-- ===== src/Keyboard/Tables.antt =====
-- The key tables of kernel/keyboard/keyboard.c, with the codes of keyboard.h.
use tet_os.Prelude.{ℕ, List, [], ◌∷◌}

abbrev pub scancode_ascii : List ℕ
scancode_ascii =
    0 ∷ 0 ∷ b'1' ∷ b'2' ∷ b'3' ∷ b'4' ∷ b'5' ∷ b'6' ∷ b'7' ∷ b'8' ∷ b'9' ∷ b'0' ∷ b'-' ∷ b'='
    ∷ b'\x08' ∷ b'\t' ∷ b'q' ∷ b'w' ∷ b'e' ∷ b'r' ∷ b't' ∷ b'y' ∷ b'u' ∷ b'i' ∷ b'o' ∷ b'p' ∷ b'['
    ∷ b']' ∷ b'\n' ∷ 0 ∷ b'a' ∷ b's' ∷ b'd' ∷ b'f' ∷ b'g' ∷ b'h' ∷ b'j' ∷ b'k' ∷ b'l' ∷ b';' ∷ b'\''
    ∷ b'`' ∷ 0 ∷ b'\\' ∷ b'z' ∷ b'x' ∷ b'c' ∷ b'v' ∷ b'b' ∷ b'n' ∷ b'm' ∷ b',' ∷ b'.' ∷ b'/' ∷ 0
    ∷ b'*' ∷ 0 ∷ b' ' ∷ []

abbrev pub scancode_shift_ascii : List ℕ
scancode_shift_ascii =
    0 ∷ 0 ∷ b'!' ∷ b'@' ∷ b'#' ∷ b'$' ∷ b'%' ∷ b'^' ∷ b'&' ∷ b'*' ∷ b'(' ∷ b')' ∷ b'_' ∷ b'+'
    ∷ b'\x08' ∷ b'\t' ∷ b'Q' ∷ b'W' ∷ b'E' ∷ b'R' ∷ b'T' ∷ b'Y' ∷ b'U' ∷ b'I' ∷ b'O' ∷ b'P' ∷ b'{'
    ∷ b'}' ∷ b'\n' ∷ 0 ∷ b'A' ∷ b'S' ∷ b'D' ∷ b'F' ∷ b'G' ∷ b'H' ∷ b'J' ∷ b'K' ∷ b'L' ∷ b':' ∷ b'"'
    ∷ b'~' ∷ 0 ∷ b'|' ∷ b'Z' ∷ b'X' ∷ b'C' ∷ b'V' ∷ b'B' ∷ b'N' ∷ b'M' ∷ b'<' ∷ b'>' ∷ b'?' ∷ 0
    ∷ b'*' ∷ 0 ∷ b' ' ∷ []

-- The scan code and the key of each line of `decode_extended`: up, down, left, right, home, end,
-- page up, page down, insert, delete.
abbrev pub extended_keys : List (ℕ × ℕ)
extended_keys =
    (0x48, 0x100)
    ∷ (0x50, 0x101)
    ∷ (0x4B, 0x102)
    ∷ (0x4D, 0x103)
    ∷ (0x47, 0x104)
    ∷ (0x4F, 0x105)
    ∷ (0x49, 0x106)
    ∷ (0x51, 0x107)
    ∷ (0x52, 0x108)
    ∷ (0x53, 0x109)
    ∷ []

-- Of `decode_function`: F1 to F12.
abbrev pub function_keys : List (ℕ × ℕ)
function_keys =
    (0x3B, 0x120)
    ∷ (0x3C, 0x121)
    ∷ (0x3D, 0x122)
    ∷ (0x3E, 0x123)
    ∷ (0x3F, 0x124)
    ∷ (0x40, 0x125)
    ∷ (0x41, 0x126)
    ∷ (0x42, 0x127)
    ∷ (0x43, 0x128)
    ∷ (0x44, 0x129)
    ∷ (0x57, 0x12A)
    ∷ (0x58, 0x12B)
    ∷ []
