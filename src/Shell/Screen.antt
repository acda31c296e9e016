-- ===== src/Shell/Screen.antt =====
-- The runs of whole lines in the shell (kernel/shell.c) on a screen whose pixels show the text.
use jordan_os.Base.{
  ℕ, zero, suc, ◌≡◌, ◌⊎◌, Bool, true, false, Bool-cases, inl, inr, All, [], ◌∷◌, some, ◌==◌,
  if◌then◌else◌,
}
use jordan_os.Io.{outb}
use jordan_os.Str.{Bytes, AreBytes, array_text, front, next}
use jordan_os.Fb.{Fb}
use jordan_os.Fb.Print.{fb_clear_screen}
use jordan_os.Fb.Tidy.{Tidy, fb_print-Tidy, fb_println-Tidy, Clean-Tidy}
use jordan_os.Fb.Cleared.{fb_clear_screen-Clean}
use jordan_os.Fb.Themed.{fb_update_theme-Tidy}
use jordan_os.Shell.{Machine, copy_line, skip_spaces, word_at, past_word, split_args, shell_exec}
use jordan_os.Shell.Runs.{shell_exec_args-Ran}
use jordan_os.Shell.Terminal.{Terminal, PmmFits, DriveFits}

-- A screen that is tidy in some theme.
abbrev pub OnScreen : Fb → Type 0
OnScreen f = (fg : ℕ) × (bg : ℕ) × Tidy fg bg f

tidy_terminal : Terminal AreBytes OnScreen
tidy_terminal = record {
  bytes_taken = λ text small. small;
  print_ends = λ text f small (fg, bg, tidy).
      let (g, run, tidy') = fb_print-Tidy text fg bg f small tidy in (g, run, (fg, bg, tidy'));
  println_ends = λ text f small (fg, bg, tidy).
      let (g, run, tidy') = fb_println-Tidy text fg bg f small tidy in (g, run, (fg, bg, tidy'));
  clear_ends = λ f (fg, bg, tidy). (
    f.theme_fg,
    f.theme_bg,
    Clean-Tidy f.theme_fg f.theme_bg (fb_clear_screen f)
        (fb_clear_screen-Clean f tidy.fits tidy.canvas),
  );
  theme_ends =
      λ fg bg f hf hb (fg', bg', tidy). (fg, bg, fb_update_theme-Tidy fg bg fg' bg' f hf hb tidy);
}

pick : (P : Bytes → Type 0) (test : Bool) (a b : Bytes) → P a → P b → P (if test then a else b)
pick P true a b ha hb = ha
pick P false a b ha hb = hb

copy_line-AreBytes : (room : ℕ) (line : Bytes) → AreBytes line → AreBytes (copy_line room line)
unfolding copy_line
copy_line-AreBytes zero line h = tt
copy_line-AreBytes (suc room) [] h = tt
copy_line-AreBytes (suc room) (c ∷ line) (small, h) =
    pick AreBytes (c == 0) _ _ tt (small, copy_line-AreBytes room line h)

skip_spaces-AreBytes : (p : Bytes) → AreBytes p → AreBytes (skip_spaces p)
unfolding skip_spaces
skip_spaces-AreBytes [] h = tt
skip_spaces-AreBytes (c ∷ p) (small, h) =
    pick AreBytes (c == b' ') _ _ (skip_spaces-AreBytes p h) (small, h)

word_at-AreBytes : (p : Bytes) → AreBytes p → AreBytes (word_at p)
unfolding word_at
word_at-AreBytes [] h = tt
word_at-AreBytes (c ∷ p) (small, h) =
    pick AreBytes (c == 0) _ _ tt (pick AreBytes (c == b' ') _ _ tt (small, word_at-AreBytes p h))

past_word-AreBytes : (p : Bytes) → AreBytes p → AreBytes (past_word p)
unfolding past_word
past_word-AreBytes [] h = tt
past_word-AreBytes (c ∷ p) (small, h) =
    pick AreBytes (c == 0) _ _ (small, h)
      (pick AreBytes (c == b' ') _ _ (small, h) (past_word-AreBytes p h))

next-AreBytes : (p : Bytes) → AreBytes p → AreBytes (next p)
next-AreBytes [] h = tt
next-AreBytes (c ∷ p) (small, h) = h

split_args-AreBytes : (room : ℕ) (p : Bytes) → AreBytes p → All AreBytes (split_args room p)
unfolding split_args
split_args-AreBytes zero p h = tt
split_args-AreBytes (suc room) p h =
    let q = skip_spaces p in
    let hq = skip_spaces-AreBytes p h in
    let rest =
      split_args-AreBytes room (next (past_word q))
        (next-AreBytes (past_word q) (past_word-AreBytes q hq)) in
    elim (Bool-cases (front p == 0)) [
      | inl end ↦ rw end tt
      | inr more ↦ elim (Bool-cases (front q == 0)) [
        | inl blank ↦ rw (more, blank) tt
        | inr word ↦ rw (more, word) (word_at-AreBytes q hq, rest)
      ]
    ]

pub shell_exec-OnScreen :
    (line : Bytes) (m : Machine)
    → AreBytes line
    → OnScreen m.fb
    → PmmFits m.pmm
    → DriveFits m.drive
    → AreBytes (array_text 41 0 m.drive.model)
    → (n : Machine) × (shell_exec line m ≡ some n)
      × OnScreen n.fb
      × (n.pmm ≡ m.pmm)
      × (n.drive ≡ m.drive)
      × ((n.log ≡ m.log) ⊎ (n.log ≡ outb 0xCF9 0x06 (outb 0x64 0xFE m.log)))
unfolding shell_exec
shell_exec-OnScreen line m small shown pages disk model =
    shell_exec_args-Ran AreBytes OnScreen tidy_terminal (split_args 16 (copy_line 255 line)) m
      (split_args-AreBytes 16 (copy_line 255 line) (copy_line-AreBytes 255 line small)) shown pages
      disk model
