-- ===== src/Keyboard/Faults.antt =====
-- The faults of the keyboard handler (kernel/keyboard.c).
use jordan_os.Base.{
  ℕ, ◌*◌, ◌/◌, ◌^◌, ◌<◌, ◌≤◌, ◌≡◌, ◌⊎◌, refl, arith, inl, inr, Bool, true, false, Bool-cases,
  bit_and, ltb, leb, not, ◌&&◌, ◌||◌, ◌==◌, Option, none, some, if◌then◌else◌, holds_from,
  holds_from-at, eq_of_beq, beq_of_ne, ltb→lt, ltb→le, leb→le, leb→lt,
}
use jordan_os.Fb.{fb_cursor_activity}
use jordan_os.Keyboard.{Console, set_fb, enter, erase, type_char, handle_code}
use jordan_os.Keyboard.Live.{
  Live, Lives, overflows, type_char-Lives, type_char_unknown, type_char_full, erase-Live,
  enter-Lives, enter_full,
}

released_table : holds_from 0 256 (λ v. bit_and v (2 ^ 7) == v / 128 * 128) ≡ true
unfolding holds_from
released_table = refl

-- The top bit of a code: the key is let go.
pub released : (code : ℕ) → code < 256 → bit_and code (2 ^ 7) ≡ code / 128 * 128
released code h = eq_of_beq _ _ (
    holds_from-at 0 256 (λ v. bit_and v (2 ^ 7) == v / 128 * 128) released_table code (omega arith)
      (omega arith))

-- The state behind `fb_cursor_activity`.
abbrev pub active : Console → Console
active c = set_fb (fb_cursor_activity c.ticks c.machine.fb) c

-- What a key does that is pressed.
abbrev pub press : ℕ → Console → Option Console
press code a =
    if (code == 0x2A) || (code == 0x36)
    then some (record a { shift = 1 })
    else if code == 0x1C
    then enter a
    else if code == 0x0E
    then some (erase a)
    else type_char code a

pub handle_code-press :
    (code : ℕ) (c : Console)
    → (c.stopped == 0) ≡ true
    → code < 128
    → handle_code code c ≡ press code (active c)
unfolding handle_code
handle_code-press code c on h =
    let top : bit_and code (2 ^ 7) ≡ 0 = rw (released code (omega arith)) (omega arith) in
    rw (on, top, beq_of_ne code 0xAA (omega arith), beq_of_ne code 0xB6 (omega arith)) refl

-- A key that is pressed with the line full, or that is not in the tables.
abbrev beyond : ℕ → Console → Bool
beyond code a =
    not ((code == 0x2A) || (code == 0x36) || (code == 0x0E)) && (leb 256 a.line_len || leb 58 code)

press_lem :
    (code : ℕ) (a : Console)
    → Live a
    → ((beyond code a ≡ true) × (press code a ≡ none))
      ⊎ ((beyond code a ≡ false) × Lives (press code a))
press_lem code a live = elim (Bool-cases ((code == 0x2A) || (code == 0x36))) [
  | inl shift ↦ inr (rw shift refl, rw shift (_, refl, live))
  | inr other ↦ elim (Bool-cases (code == 0x0E)) [
    | inl back ↦
        let later = beq_of_ne code 0x1C (omega (arith, eq_of_beq code 0x0E back)) in
        inr (rw (other, back) refl, rw (other, later, back) (erase a, refl, erase-Live a live))
    | inr typed ↦ elim (Bool-cases (leb 256 a.line_len)) [
      | inl full ↦
          inl (rw (other, typed, full) refl, full_none other typed (leb→le 256 a.line_len full))
      | inr room ↦ elim (Bool-cases (leb 58 code)) [
        | inl unknown ↦ inl (
          rw (other, typed, room, unknown) refl,
          rw (other, beq_of_ne code 0x1C (omega (arith, leb→le 58 code unknown)), typed)
              (type_char_unknown code a (leb→le 58 code unknown)),
        )
        | inr known ↦ inr (
          rw (other, typed, room, known) refl,
          known_Lives other typed (leb→lt 256 a.line_len room) (leb→lt 58 code known),
        )
      ]
    ]
  ]
]
  where
    full_none :
        ((code == 0x2A) || (code == 0x36)) ≡ false
        → (code == 0x0E) ≡ false
        → 256 ≤ a.line_len
        → press code a ≡ none
    full_none other typed full = elim (Bool-cases (code == 0x1C)) [
      | inl e ↦ rw (other, e) (enter_full a live.0 full)
      | inr e ↦ rw (other, e, typed) (type_char_full code a full)
    ]

    known_Lives :
        ((code == 0x2A) || (code == 0x36)) ≡ false
        → (code == 0x0E) ≡ false
        → a.line_len < 256
        → code < 58
        → Lives (press code a)
    known_Lives other typed room known = elim (Bool-cases (code == 0x1C)) [
      | inl e ↦ rw (other, e) (enter-Lives a live room)
      | inr e ↦ rw (other, e, typed) (type_char-Lives code a live room known)
    ]

handle_code_off : (code : ℕ) (c : Console) → (c.stopped == 0) ≡ false → handle_code code c ≡ some c
unfolding handle_code
handle_code_off code c off = rw off refl

let_go :
    (code : ℕ) (c : Console)
    → Live c
    → code < 256
    → (c.stopped == 0) ≡ true
    → 128 ≤ code
    → Lives (handle_code code c)
unfolding handle_code
let_go code c live h on up =
    let top : (bit_and code (2 ^ 7) == 0) ≡ false =
      rw (released code h) (beq_of_ne _ _ (omega arith)) in
    elim (Bool-cases ((code == 0xAA) || (code == 0xB6))) [
      | inl shift ↦ rw (on, shift) (_, refl, live)
      | inr other ↦ rw (on, other, top) (c, refl, live)
    ]

-- In a live state a code faults the keyboard handler exactly if the driver is on, a key is pressed,
-- it is neither shift nor Backspace, and either 256 characters are in the line already or the code
-- has no entry in the tables of 58. In all other cases the handler ends in a live state.
pub handle_code_lem :
    (code : ℕ) (c : Console)
    → Live c
    → code < 256
    → ((overflows code c ≡ true) × (handle_code code c ≡ none))
      ⊎ ((overflows code c ≡ false) × Lives (handle_code code c))
handle_code_lem code c live h = elim (Bool-cases (c.stopped == 0)) [
  | inr off ↦ inr (rw off refl, (c, handle_code_off code c off, live))
  | inl on ↦ elim (Bool-cases (ltb code 128)) [
    | inl down ↦
        let small = ltb→lt code 128 down in
        rw (handle_code-press code c on small, on, down) (press_lem code (active c) live)
    | inr up ↦ inr (rw (on, up) refl, let_go code c live h on (ltb→le code 128 up))
  ]
]
