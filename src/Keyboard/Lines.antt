-- ===== src/Keyboard/Lines.antt =====
-- Sequences of codes, and lines that Enter ends.
use jordan_os.Base.{
  Option-cases, All, Bool, List, ◌&&◌, not, ltb, ◌⊎◌, ◌>>=◌, some_inj, u32, ℕ, ◌+◌, ◌<◌, ◌≡◌, refl,
  sym, ◌∙◌, arith, inl, inr, true, leb, ◌==◌, ◌||◌, Option, none, some, [], ◌∷◌, ◌++◌, length,
  if◌then◌else◌,
}
use mathlib.Core.Path.{subst}
use jordan_os.Str.{Bytes, IsText, array_text, bytes}
use jordan_os.Fb.{Fb}
use jordan_os.Fb.Draw.{fb_erase_cursor, fb_draw_cursor}
use jordan_os.Fb.Print.{fb_set_row, fb_print}
use jordan_os.Shell.{Machine, shell_exec}
use jordan_os.Keyboard.{Console, enter, handle_code}
use jordan_os.Keyboard.Typing.{shell_exec-array_text}
use jordan_os.Keyboard.Live.{Live, overflows, below, entered, enter-entered}
use jordan_os.Keyboard.Faults.{active, handle_code-press, handle_code_lem}
use jordan_os.Keyboard.Editor.{edit, Edits}
use jordan_os.Keyboard.Steps.{handle_code-edit}

-- A key that is pressed, is neither shift nor Backspace, and comes to a full line or is not in the
-- tables.
abbrev pub strays : ℕ → Bytes → Bool
strays code text =
    ltb code 128
    && not ((code == 0x2A) || (code == 0x36) || (code == 0x0E))
    && (leb 256 (length text) || leb 58 code)

-- The line editor on a sequence of codes.
unfoldable pub edits : List ℕ → ℕ × Bytes → Option (ℕ × Bytes)
edits [] state = some state
edits (code ∷ codes) state =
    let rest = edits codes (edit code state) in if strays code state.1 then none else rest

-- The driver on a sequence of codes.
unfoldable pub handle_codes : List ℕ → Console → Option Console
handle_codes [] c = some c
handle_codes (code ∷ codes) c = do d ← handle_code code c; handle_codes codes d

abbrev pub IsCodes : List ℕ → Type 0
IsCodes = All (λ code. code < 256)

overflows-strays :
    (code : ℕ) (c : Console) (shift : ℕ) (text : Bytes)
    → Edits c (shift, text)
    → overflows code c ≡ strays code text
overflows-strays code c shift text (on, sh, len, held) =
    let on' : (c.stopped == 0) ≡ true = rw on refl in rw (on', len) refl

-- From a live state of a driver that is on, with a line editor in the same state, a sequence of
-- codes either makes the driver leave its arrays, and the editor refuses the sequence too, or the
-- driver ends in a live state that again holds the editor's shift flag and text.
pub handle_codes-edits :
    (codes : List ℕ) (c : Console) (shift : ℕ) (text : Bytes)
    → Live c
    → Edits c (shift, text)
    → IsCodes codes
    → ((handle_codes codes c ≡ none) × (edits codes (shift, text) ≡ none))
      ⊎ ((d : Console) × (shift' : ℕ) × (text' : Bytes) × (handle_codes codes c ≡ some d)
          × (edits codes (shift, text) ≡ some (shift', text'))
          × Live d
          × Edits d (shift', text'))
unfolding edits handle_codes
handle_codes-edits [] c shift text live held small = inr (c, shift, text, refl, refl, live, held)
handle_codes-edits (code ∷ codes) c shift text live held (small, more) =
    let same = overflows-strays code c shift text held in
    elim (handle_code_lem code c live small) [
      | inl (over, fault) ↦ inl (rw fault refl, rw (sym same ∙ over) refl)
      | inr (fine, _) ↦
          let (d, run, live', held') = handle_code-edit code c shift text live held small fine in
          rw (run, sym same ∙ fine)
            (handle_codes-edits codes d (edit code (shift, text)).0 (edit code (shift, text)).1
              live' held' more)
    ]

-- Enter takes the text to the shell, on the machine with the cursor at the start of the next row.
enter-shell_exec :
    (c : Console) (shift : ℕ) (text : Bytes)
    → Live c
    → Edits c (shift, text)
    → length text < 256
    → IsText text
    → (f : Fb) × (m : Machine) × (d : Console) × (fb_set_row
          (u32 ((fb_erase_cursor c.machine.fb).cur_row + 1))
          (fb_erase_cursor c.machine.fb)
        ≡ some f)
      × (shell_exec text (below f c.machine) ≡ some m)
      × (enter c ≡ some d)
      × Live d
      × Edits d (shift, [])
      × (g : Fb) × (fb_print (bytes "> ") m.fb ≡ some g)
      × (d.machine ≡ record m { fb = fb_draw_cursor g })
unfolding array_text
enter-shell_exec c shift text live (on, sh, len, held) room ok =
    let (f, m, g, up, run, shown, ends, live') = enter-entered c live (omega (arith, len)) in
    (
      f,
      m,
      entered m g c,
      up,
      rw (← shell_exec-array_text c.line_len c.line text (omega (arith, len)) held ok) run,
      ends,
      live',
      (on, sh, refl, refl),
      g,
      shown,
      refl,
    )

handle_codes-append :
    (codes : List ℕ) (code : ℕ) (c d : Console)
    → handle_codes codes c ≡ some d
    → handle_codes (codes ++ code ∷ []) c ≡ handle_code code d
unfolding handle_codes
handle_codes-append [] code c d run =
    rw (← some_inj.0 run)
      (elim (Option-cases (handle_code code c)) [ inl e ↦ rw e refl | inr (b, e) ↦ rw e refl ])
handle_codes-append (k ∷ codes) code c d run = elim (Option-cases (handle_code k c)) [
  | inl e ↦ cc (rw e at run)
  | inr (b, e) ↦ rw e (handle_codes-append codes code b d (rw e at run))
]

-- From a live state of a driver that is on, with a line editor in the same state, codes that the
-- editor takes to a text of fewer than 256 characters, which are no zeros, and Enter behind them run
-- the text as a command of the shell, on the machine with the cursor at the start of the next row.
-- The driver ends in a live state with the editor's shift flag and an empty line. Its machine is the
-- one that the command left, with the prompt printed behind the command's output, and the cursor
-- drawn.
pub handle_codes-shell_exec :
    (codes : List ℕ) (c : Console) (shift : ℕ) (start : Bytes) (shift' : ℕ) (text : Bytes)
    → Live c
    → Edits c (shift, start)
    → IsCodes codes
    → edits codes (shift, start) ≡ some (shift', text)
    → length text < 256
    → IsText text
    → (b : Console) × (f : Fb) × (m : Machine) × (d : Console) × (handle_codes codes c ≡ some b)
      × (fb_set_row
            (u32 ((fb_erase_cursor (active b).machine.fb).cur_row + 1))
            (fb_erase_cursor (active b).machine.fb)
          ≡ some f)
      × (shell_exec text (below f b.machine) ≡ some m)
      × (handle_codes (codes ++ 0x1C ∷ []) c ≡ some d)
      × Live d
      × Edits d (shift', [])
      × (g : Fb) × (fb_print (bytes "> ") m.fb ≡ some g)
      × (d.machine ≡ record m { fb = fb_draw_cursor g })
handle_codes-shell_exec codes c shift start shift' text live held small taken room ok =
    elim (handle_codes-edits codes c shift start live held small) [
      | inl (_, refused) ↦ cc
      | inr (b, shift1, text1, run, same, live1, held1) ↦
          let agree = some_inj.0 (sym same ∙ taken) in
          let held2 = subst (Edits b) agree held1 in
          let on : (b.stopped == 0) ≡ true = rw held2.0 refl in
          let (f, m, d, up, command, ends, live2, held3, g, shown, same_machine) =
            enter-shell_exec (active b) shift' text live1 held2 room ok in
          (
            b,
            f,
            m,
            d,
            run,
            up,
            command,
            handle_codes-append codes 0x1C c b run
                ∙ handle_code-press 0x1C b on (omega arith)
                ∙ ends,
            live2,
            held3,
            g,
            shown,
            same_machine,
          )
    ]
