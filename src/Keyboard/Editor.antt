-- ===== src/Keyboard/Editor.antt =====
-- The keyboard driver (kernel/keyboard.c) against a line editor, whose state is the shift flag
-- and the text so far.
use jordan_os.Base.{
  ℕ, zero, suc, ◌+◌, ◌-◌, ◌<◌, ◌≡◌, ◌≢◌, refl, ap, sym, ◌∙◌, arith, inl, inr, Bool-cases, leb, ◌==◌,
  ◌||◌, Option, none, some, [], ◌∷◌, ◌++◌, length, length-append, if◌then◌else◌, eq_of_beq,
  ne_of_beq,
}
use jordan_os.Mem.{write, write_self}
use jordan_os.Str.{Bytes, array_text}
use jordan_os.Keyboard.{Console, scancode_map, uppercase_map, get_elem?, enter, erase, type_char}
use jordan_os.Keyboard.Typing.{array_text-write, array_text-split}
use jordan_os.Keyboard.Live.{Live, typed, type_char-typed, entered, enter-entered, erase-Live}

abbrev pub drop_last : Bytes → Bytes
drop_last [] = []
drop_last (c ∷ []) = []
drop_last (c ∷ d ∷ text) = c ∷ drop_last (d ∷ text)

abbrev or_zero : Option ℕ → ℕ
or_zero none = 0
or_zero (some ch) = ch

-- The character of a key.
abbrev pub key_char : ℕ → ℕ → ℕ
key_char shift code = or_zero (get_elem? (if shift == 0 then scancode_map else uppercase_map) code)

-- What a key does to the shift flag and the text.
abbrev pub edit : ℕ → ℕ × Bytes → ℕ × Bytes
edit code (shift, text) =
    if (code == 0xAA) || (code == 0xB6)
    then (0, text)
    else if leb 128 code
    then (shift, text)
    else if (code == 0x2A) || (code == 0x36)
    then (1, text)
    else if code == 0x1C
    then (shift, [])
    else if code == 0x0E
    then (shift, drop_last text)
    else (shift, text ++ key_char shift code ∷ [])

-- The driver is on, and holds this shift flag and text.
abbrev pub Edits : Console → ℕ × Bytes → Type 0
Edits c (shift, text) =
    (c.stopped ≡ 0)
    × (c.shift ≡ shift)
    × (c.line_len ≡ length text)
    × (array_text c.line_len 0 c.line ≡ text)

array_text-snoc : (n : ℕ) (a : ℕ → ℕ) → array_text (n + 1) 0 a ≡ array_text n 0 a ++ a n ∷ []
array_text-snoc n a =
    array_text-split n 0 (n + 1) 0 a (omega arith)
    ∙ (let here : 0 + n ≡ n = omega arith in rw here (unfold array_text in refl))

array_text-drop_last : (n i : ℕ) (a : ℕ → ℕ) → array_text n i a ≡ drop_last (array_text (suc n) i a)
unfolding array_text
array_text-drop_last zero i a = refl
array_text-drop_last (suc n) i a = ap (λ t. a i ∷ t) (array_text-drop_last n (i + 1) a)

length-drop_last : (text : Bytes) → length (drop_last text) ≡ length text - 1
length-drop_last [] = refl
length-drop_last (c ∷ []) = omega arith
length-drop_last (c ∷ d ∷ text) = omega (arith, length-drop_last (d ∷ text))

drop_last_empty : (text : Bytes) → length text ≡ 0 → drop_last text ≡ text
drop_last_empty [] e = refl
drop_last_empty (c ∷ text) e = absurd (omega arith)

-- A handler that ends in a live state that holds this shift flag and text.
abbrev pub Turns : Option Console → ℕ × Bytes → Type 0
Turns run state = (d : Console) × (run ≡ some d) × Live d × Edits d state

pub type_char-Turns :
    (code : ℕ) (c : Console) (shift : ℕ) (text : Bytes)
    → Live c
    → Edits c (shift, text)
    → c.line_len < 256
    → code < 58
    → Turns (type_char code c) (shift, text ++ key_char shift code ∷ [])
type_char-Turns code c shift text live (on, sh, len, held) room known =
    let (ch, f, e, run, live') = type_char-typed code c live room known in
    let key : key_char c.shift code ≡ ch = ap or_zero e in
    (
      typed ch f c,
      run,
      live',
      (
        on,
        sh,
        rw length-append (omega (arith, len)),
        rw (← sh, key)
            (array_text-snoc c.line_len (write c.line c.line_len ch)
              ∙ rw
                  (
                    array_text-write c.line_len 0 c.line c.line_len ch (omega arith),
                    write_self c.line c.line_len ch,
                    held,
                  )
                  refl),
      ),
    )

erase-Edits :
    (c : Console) (shift : ℕ) (text : Bytes)
    → Edits c (shift, text)
    → Edits (erase c) (shift, drop_last text)
unfolding erase
erase-Edits c shift text (on, sh, len, held) = elim (Bool-cases (c.line_len == 0)) [
  | inl none_left ↦ rw none_left (
    on,
    sh,
    omega (arith, length-drop_last text, eq_of_beq c.line_len 0 none_left),
    held ∙ sym (drop_last_empty text (omega (arith, eq_of_beq c.line_len 0 none_left))),
  )
  | inr more ↦
      rw more (on, sh, omega (arith, length-drop_last text), shorter (ne_of_beq c.line_len 0 more))
]
  where
    shorter : c.line_len ≢ 0 → array_text (c.line_len - 1) 0 c.line ≡ drop_last text
    shorter ne =
        array_text-drop_last (c.line_len - 1) 0 c.line
        ∙ ap drop_last (ap (λ k. array_text k 0 c.line) (omega arith) ∙ held)

pub enter-Turns :
    (c : Console) (shift : ℕ) (text : Bytes)
    → Live c
    → Edits c (shift, text)
    → c.line_len < 256
    → Turns (enter c) (shift, [])
unfolding array_text
enter-Turns c shift text live (on, sh, len, held) room =
    let (f, m, g, _, _, _, run, live') = enter-entered c live room in
    (entered m g c, run, live', (on, sh, refl, refl))

pub erase-Turns :
    (c : Console) (shift : ℕ) (text : Bytes)
    → Live c
    → Edits c (shift, text)
    → Turns (some (erase c)) (shift, drop_last text)
erase-Turns c shift text live edits =
    (erase c, refl, erase-Live c live, erase-Edits c shift text edits)
