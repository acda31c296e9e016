-- ===== src/Keyboard.antt =====
-- The keyboard driver (kernel/keyboard.c): the line that is typed, the shift and the stop flag. An
-- access past an array is a fault, `none`. `line_len`, an `int`, is never negative.
pub mod Live
pub mod Faults
pub mod Typing
pub mod Editor
pub mod Steps
pub mod Lines
pub mod Screen
pub mod Examples
use jordan_os.Base.{
  ℕ, zero, suc, ◌+◌, ◌-◌, ◌<◌, u8, u32, bit_and, Option, none, some, List, [], ◌∷◌, ◌^◌, ltb, not,
  ◌==◌, ◌||◌, if◌then◌else◌, ◌>>=◌,
}
use jordan_os.Io.{Hardware, Log, inb}
use jordan_os.Mem.{write}
use jordan_os.Str.{Bytes, bytes, array_text}
use jordan_os.Pic.{pic_eoi, pic_unmask}
use jordan_os.Fb.{Fb, fb_get_row, fb_set_col, fb_cursor_activity}
use jordan_os.Fb.Draw.{fb_erase_cursor, fb_draw_cursor, fb_backspace}
use jordan_os.Fb.Print.{fb_set_row, fb_print}
use jordan_os.Shell.{Machine, shell_exec}

-- The characters of the scancodes; 10 is a newline, 39 a quote and 92 a backslash.
abbrev pub scancode_map : List ℕ
scancode_map =
    0 ∷ 0 ∷ b'1' ∷ b'2' ∷ b'3' ∷ b'4' ∷ b'5' ∷ b'6' ∷ b'7' ∷ b'8' ∷ b'9' ∷ b'0' ∷ b'-' ∷ b'=' ∷ 0
    ∷ 0 ∷ b'q' ∷ b'w' ∷ b'e' ∷ b'r' ∷ b't' ∷ b'y' ∷ b'u' ∷ b'i' ∷ b'o' ∷ b'p' ∷ b'[' ∷ b']' ∷ 10 ∷ 0
    ∷ b'a' ∷ b's' ∷ b'd' ∷ b'f' ∷ b'g' ∷ b'h' ∷ b'j' ∷ b'k' ∷ b'l' ∷ b';' ∷ 39 ∷ b'`' ∷ 0 ∷ 92
    ∷ b'z' ∷ b'x' ∷ b'c' ∷ b'v' ∷ b'b' ∷ b'n' ∷ b'm' ∷ b',' ∷ b'.' ∷ b'/' ∷ 0 ∷ b'*' ∷ 0 ∷ b' ' ∷ []

abbrev pub uppercase_map : List ℕ
uppercase_map =
    0 ∷ 0 ∷ b'!' ∷ b'@' ∷ b'#' ∷ b'$' ∷ b'%' ∷ b'^' ∷ b'&' ∷ b'*' ∷ b'(' ∷ b')' ∷ b'_' ∷ b'+' ∷ 0
    ∷ 0 ∷ b'Q' ∷ b'W' ∷ b'E' ∷ b'R' ∷ b'T' ∷ b'Y' ∷ b'U' ∷ b'I' ∷ b'O' ∷ b'P' ∷ b'{' ∷ b'}' ∷ 10 ∷ 0
    ∷ b'A' ∷ b'S' ∷ b'D' ∷ b'F' ∷ b'G' ∷ b'H' ∷ b'J' ∷ b'K' ∷ b'L' ∷ b':' ∷ b'"' ∷ b'~' ∷ 0 ∷ b'|'
    ∷ b'Z' ∷ b'X' ∷ b'C' ∷ b'V' ∷ b'B' ∷ b'N' ∷ b'M' ∷ b'<' ∷ b'>' ∷ b'?' ∷ 0 ∷ b'*' ∷ 0 ∷ b' ' ∷ []

-- `map[code]`
abbrev pub get_elem? : List ℕ → ℕ → Option ℕ
get_elem? [] i = none
get_elem? (c ∷ map) zero = some c
get_elem? (c ∷ map) (suc i) = get_elem? map i

-- The driver's state, and what the rest of the kernel has: `ticks` is the timer's count.
pub record Console : Type 0 where
  pub shift : ℕ
  pub stopped : ℕ
  pub line : ℕ → ℕ
  pub line_len : ℕ
  pub ticks : ℕ
  pub machine : Machine

unfoldable pub keyboard_init : Hardware → Log → Log
keyboard_init hw log = pic_unmask hw 1 log

abbrev pub keyboard_stop : Console → Console
keyboard_stop c = record c { stopped = 1 }

abbrev pub keyboard_start : Console → Console
keyboard_start c = record c { stopped = 0 }

-- A write to `line`, an array of 256 bytes.
abbrev pub line_size : ℕ
line_size = 256

unfoldable pub set_line : ℕ → ℕ → Console → Option Console
set_line i v c = if ltb i line_size then some (record c { line = write c.line i v }) else none

-- A step of the terminal, and of all that the shell changes.
abbrev pub set_fb : Fb → Console → Console
set_fb f c = record c { machine = record c.machine { fb = f } }

-- The code of Enter.
unfoldable pub enter : Console → Option Console
enter c = do
  f ←
      fb_set_row (u32 (fb_get_row (fb_erase_cursor c.machine.fb) + 1))
        (fb_erase_cursor c.machine.fb)
  d ← set_line c.line_len 0 (set_fb (fb_set_col 0 f) c)
  m ← shell_exec (array_text 256 0 d.line) d.machine
  g ← fb_print (bytes "> ") m.fb
  some (record d { line_len = 0; machine = record m { fb = fb_draw_cursor g } })

-- The code of Backspace.
unfoldable pub erase : Console → Console
erase c =
    if c.line_len == 0
    then c
    else record (set_fb (fb_backspace c.machine.fb) c) { line_len = c.line_len - 1 }

-- The code of a character.
unfoldable pub type_char : ℕ → Console → Option Console
type_char code c = do
  ch ← get_elem? (if c.shift == 0 then scancode_map else uppercase_map) code
  d ← set_line c.line_len ch c
  f ← fb_print (ch ∷ []) d.machine.fb
  some (record (set_fb f d) { line_len = c.line_len + 1 })

-- What `keyboard_handler` does with a code.
unfoldable pub handle_code : ℕ → Console → Option Console
handle_code code c =
    let active = set_fb (fb_cursor_activity c.ticks c.machine.fb) c in
    if not (c.stopped == 0)
    then some c
    else if (code == 0xAA) || (code == 0xB6)
    then some (record c { shift = 0 })
    else if not (bit_and code (2 ^ 7) == 0)
    then some c
    else if (code == 0x2A) || (code == 0x36)
    then some (record active { shift = 1 })
    else if code == 0x1C
    then enter active
    else if code == 0x0E
    then some (erase active)
    else type_char code active

unfoldable pub keyboard_handler : Hardware → Console → Option Console
keyboard_handler hw c =
    let (code, asked) = inb hw 0x60 c.machine.log in
    handle_code code (record c { machine = record c.machine { log = pic_eoi 1 asked } })
