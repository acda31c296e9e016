-- ===== src/Keyboard/Examples.antt =====
-- The theorems on the keyboard driver at a line of two characters.
use jordan_os.Base.{
  inl, inr, List, ℕ, u32, ◌++◌, ◌+◌, ◌≡◌, ◌⊎◌, refl, arith, true, false, none, some, [], ◌∷◌,
  if◌then◌else◌, ◌==◌,
}
use jordan_os.Str.{Bytes, IsText, array_text, bytes}
use jordan_os.Fb.{Fb, fb_white, fb_black}
use jordan_os.Fb.Draw.{fb_erase_cursor, fb_draw_cursor}
use jordan_os.Fb.Print.{fb_set_row, fb_print}
use jordan_os.Shell.{Machine, shell_exec}
use jordan_os.Shell.Sample.{screen, machine, machine-Sound}
use jordan_os.Shell.Terminal.{are_bytes, are_bytes-AreBytes}
use jordan_os.Keyboard.Screen.{Neat}
use jordan_os.Fb.Tidy.{Tidy}
use jordan_os.Keyboard.{Console, handle_code}
use jordan_os.Keyboard.Live.{Live, Lives, overflows, below}
use jordan_os.Keyboard.Faults.{active, handle_code_lem}
use jordan_os.Keyboard.Editor.{Edits, edit}
use jordan_os.Keyboard.Lines.{
  IsCodes, edits, handle_codes, handle_codes-edits, handle_codes-shell_exec,
}

abbrev pub console : Console
console = record {
  shift = 1;
  stopped = 0;
  line = λ i. if i == 0 then b'h' else b'i';
  line_len = 2;
  ticks = 7;
  machine = machine;
}

pub console-Live : Live console
console-Live = (machine-Sound, omega arith)

-- `hi`
abbrev typed_text : Bytes
typed_text = b'h' ∷ b'i' ∷ []

console-Edits : Edits console (1, typed_text)
unfolding array_text
console-Edits = (refl, refl, refl, refl)

typed_text-IsText : IsText typed_text
typed_text-IsText = ((omega arith, omega arith), ((omega arith, omega arith), tt))

-- F1
handle_code_lem_example :
    ((overflows 0x3B console ≡ true) × (handle_code 0x3B console ≡ none))
    ⊎ ((overflows 0x3B console ≡ false) × Lives (handle_code 0x3B console))
handle_code_lem_example = handle_code_lem 0x3B console console-Live (omega arith)

edit_run : edit 0x1E (1, typed_text) ≡ (1, b'h' ∷ b'i' ∷ b'A' ∷ [])
edit_run = refl

back_run : edit 0x0E (1, typed_text) ≡ (1, b'h' ∷ [])
back_run = refl

-- The shift key let go, Backspace, E, L and P.
abbrev codes : List ℕ
codes = 0xAA ∷ 0x0E ∷ 0x12 ∷ 0x26 ∷ 0x19 ∷ []

codes-IsCodes : IsCodes codes
codes-IsCodes = (omega arith, (omega arith, (omega arith, (omega arith, (omega arith, tt)))))

-- `help`
abbrev command : Bytes
command = b'h' ∷ b'e' ∷ b'l' ∷ b'p' ∷ []

command-IsText : IsText command
command-IsText = (
  (omega arith, omega arith),
  ((omega arith, omega arith), ((omega arith, omega arith), ((omega arith, omega arith), tt))),
)

codes_run : edits codes (1, typed_text) ≡ some (0, command)
unfolding edits
codes_run = refl

handle_codes-edits_example :
    ((handle_codes codes console ≡ none) × (edits codes (1, typed_text) ≡ none))
    ⊎ ((d : Console) × (shift' : ℕ) × (text' : Bytes) × (handle_codes codes console ≡ some d)
        × (edits codes (1, typed_text) ≡ some (shift', text'))
        × Live d
        × Edits d (shift', text'))
handle_codes-edits_example =
    handle_codes-edits codes console 1 typed_text console-Live console-Edits codes-IsCodes

handle_codes-shell_exec_example :
    (b : Console) × (f : Fb) × (m : Machine) × (d : Console) × (handle_codes codes console ≡ some b)
    × (fb_set_row
          (u32 ((fb_erase_cursor (active b).machine.fb).cur_row + 1))
          (fb_erase_cursor (active b).machine.fb)
        ≡ some f)
    × (shell_exec command (below f b.machine) ≡ some m)
    × (handle_codes (codes ++ 0x1C ∷ []) console ≡ some d)
    × Live d
    × Edits d (0, [])
    × (g : Fb) × (fb_print (bytes "> ") m.fb ≡ some g)
    × (d.machine ≡ record m { fb = fb_draw_cursor g })
handle_codes-shell_exec_example =
    handle_codes-shell_exec codes console 1 typed_text 0 command console-Live console-Edits
      codes-IsCodes codes_run (omega arith) command-IsText

screen-Tidy : Tidy fb_white fb_black screen
screen-Tidy = record {
  fits = machine-Sound.0;
  canvas = (
    (
      (refl, omega arith, omega arith, omega arith),
      omega arith,
      omega arith,
      omega arith,
      omega arith,
    ),
    refl,
    λ a. omega arith,
  );
  colored = refl;
  ground_color = refl;
  edge = inl (omega arith);
  behind = λ r c hr hc after. refl;
  text = λ r c hr hc. omega arith;
  lit = (0, λ r c. 0, inr (inl refl), λ r c. inl refl, λ r c dx dy hr hc hx hy. ground arith);
}

pub console-Neat : Neat console
unfolding are_bytes array_text
console-Neat = record {
  screen = (fb_white, fb_black, screen-Tidy);
  pages = machine-Sound.1;
  disk = machine-Sound.2;
  model = are_bytes-AreBytes (array_text 41 0 machine.drive.model) refl;
  line_bytes = λ i. ground arith;
  room = omega arith;
}
