-- ===== src/Keyboard/Steps.antt =====
-- One code in the keyboard handler (kernel/keyboard.c) and in the line editor.
use jordan_os.Base.{
  le→leb, ℕ, ◌^◌, ◌<◌, ◌≤◌, ◌≡◌, refl, arith, inl, inr, true, false, Bool-cases, bit_and, leb, ◌==◌,
  ◌||◌, some, beq_of_ne, eq_of_beq, lt→ltb, lt→leb, leb→le, leb→lt,
}
use jordan_os.Str.{Bytes}
use jordan_os.Keyboard.{Console, handle_code}
use jordan_os.Keyboard.Live.{Live, overflows}
use jordan_os.Keyboard.Faults.{press, active, handle_code-press, released}
use jordan_os.Keyboard.Editor.{edit, Edits, Turns, type_char-Turns, enter-Turns, erase-Turns}

-- The two ways in which a key is typed: its code is neither shift's nor Backspace's.
typed_key :
    (code : ℕ) (c : Console) (shift : ℕ) (text : Bytes)
    → Live c
    → Edits c (shift, text)
    → code < 128
    → ((code == 0x2A) || (code == 0x36)) ≡ false
    → (code == 0x0E) ≡ false
    → c.line_len < 256
    → code < 58
    → Turns (press code c) (edit code (shift, text))
typed_key code c shift text live edits small other ne room known =
    rw
      (
        beq_of_ne code 0xAA (omega arith),
        beq_of_ne code 0xB6 (omega arith),
        lt→leb 128 code small,
        other,
      )
      (elim (Bool-cases (code == 0x1C)) [
        | inl e ↦ rw e (enter-Turns c shift text live edits room)
        | inr e ↦ rw (e, ne) (type_char-Turns code c shift text live edits room known)
      ])

-- What of the condition is left for a key that is pressed and is neither shift's nor Backspace's.
fine_parts :
    (code : ℕ) (c : Console)
    → (c.stopped == 0) ≡ true
    → code < 128
    → ((code == 0x2A) || (code == 0x36)) ≡ false
    → (code == 0x0E) ≡ false
    → overflows code c ≡ false
    → (c.line_len < 256) × (code < 58)
fine_parts code c on small other ne fine = elim (Bool-cases (leb 256 c.line_len)) [
  | inl full ↦ cc (rw (on, lt→ltb code 128 small, other, ne, full) at fine)
  | inr room ↦ elim (Bool-cases (leb 58 code)) [
    | inl unknown ↦ cc (rw (on, lt→ltb code 128 small, other, ne, room, unknown) at fine)
    | inr known ↦ (leb→lt 256 c.line_len room, leb→lt 58 code known)
  ]
]

press-Turns :
    (code : ℕ) (c : Console) (shift : ℕ) (text : Bytes)
    → Live c
    → Edits c (shift, text)
    → code < 128
    → overflows code c ≡ false
    → Turns (press code c) (edit code (shift, text))
press-Turns code c shift text live edits small fine =
    let on : (c.stopped == 0) ≡ true = rw edits.0 refl in
    let high = lt→leb 128 code small in
    let up = beq_of_ne code 0xAA (omega arith) in
    let up' = beq_of_ne code 0xB6 (omega arith) in
    elim (Bool-cases ((code == 0x2A) || (code == 0x36))) [
      | inl held ↦
          let (on', sh, len, text_held) = edits in
          rw (up, up', high, held) (record c { shift = 1 }, refl, live, (on', refl, len, text_held))
      | inr other ↦ elim (Bool-cases (code == 0x0E)) [
        | inl back ↦
            let later = beq_of_ne code 0x1C (omega (arith, eq_of_beq code 0x0E back)) in
            rw (up, up', high, other, later, back) (erase-Turns c shift text live edits)
        | inr ne ↦
            let (room, known) = fine_parts code c on small other ne fine in
            typed_key code c shift text live edits small other ne room known
      ]
    ]

release-Turns :
    (code : ℕ) (c : Console) (shift : ℕ) (text : Bytes)
    → Live c
    → Edits c (shift, text)
    → code < 256
    → 128 ≤ code
    → Turns (handle_code code c) (edit code (shift, text))
unfolding handle_code
release-Turns code c shift text live edits h up =
    let on : (c.stopped == 0) ≡ true = rw edits.0 refl in
    let top : (bit_and code (2 ^ 7) == 0) ≡ false =
      rw (released code h) (beq_of_ne _ _ (omega arith)) in
    let (on', sh, len, text_held) = edits in
    elim (Bool-cases ((code == 0xAA) || (code == 0xB6))) [
      | inl shifted ↦
          rw (on, shifted) (record c { shift = 0 }, refl, live, (on', refl, len, text_held))
      | inr other ↦ rw (on, other, top, le→leb 128 code up) (c, refl, live, edits)
    ]

-- In a live state of a driver that is on, a code that does not fault the handler ends in a live
-- state whose shift flag and text are what the line editor makes of the code: letting a shift key go
-- or pressing it sets the flag, Enter empties the text, Backspace drops the last character, if there
-- is one, any other key that is pressed appends its character from the flag's table, and any other
-- key that is let go changes nothing.
pub handle_code-edit :
    (code : ℕ) (c : Console) (shift : ℕ) (text : Bytes)
    → Live c
    → Edits c (shift, text)
    → code < 256
    → overflows code c ≡ false
    → (d : Console) × (handle_code code c ≡ some d) × Live d × Edits d (edit code (shift, text))
handle_code-edit code c shift text live edits h fine = elim (Bool-cases (leb 128 code)) [
  | inl up ↦ release-Turns code c shift text live edits h (leb→le 128 code up)
  | inr down ↦
      let small = leb→lt 128 code down in
      rw (handle_code-press code c (rw edits.0 refl) small)
        (press-Turns code (active c) shift text live edits small fine)
]
