-- ===== src/Shell/Examples.antt =====
-- Runs of the shell's line cutting, and the theorem at a concrete line.
use jordan_os.Base.{◌≡◌, refl, some, [], ◌∷◌, arith}
use jordan_os.Str.{Bytes, IsText, strcmp}
use jordan_os.Shell.{skip_spaces, word_at, past_word, split_args, theme, shell_exec}
use jordan_os.Shell.Total.{Obeys, shell_exec-Obeys}
use jordan_os.Shell.Sample.{machine, machine-Sound}
use jordan_os.Shell.Words.{take, words, split_args_lem}

-- `  ls  a `
abbrev line : Bytes
line = b' ' ∷ b' ' ∷ b'l' ∷ b's' ∷ b' ' ∷ b' ' ∷ b'a' ∷ b' ' ∷ []

line-IsText : IsText line
line-IsText = (
  (omega arith, omega arith),
  (
    (omega arith, omega arith),
    (
      (omega arith, omega arith),
      (
        (omega arith, omega arith),
        (
          (omega arith, omega arith),
          (
            (omega arith, omega arith),
            ((omega arith, omega arith), ((omega arith, omega arith), tt)),
          ),
        ),
      ),
    ),
  ),
)

split_run : split_args 16 line ≡ (b'l' ∷ b's' ∷ []) ∷ (b'a' ∷ []) ∷ []
unfolding split_args skip_spaces word_at past_word
split_run = refl

-- `rose`
theme_run : theme (b'r' ∷ b'o' ∷ b's' ∷ b'e' ∷ []) ≡ some (0xFFB3C6, 0x1A0010)
unfolding theme strcmp
theme_run = refl

split_args_lem_example : split_args 16 line ≡ take 16 (words [] line)
split_args_lem_example = split_args_lem 16 line line-IsText

shell_exec-Obeys_example : Obeys machine (shell_exec line machine)
shell_exec-Obeys_example = shell_exec-Obeys line machine machine-Sound
