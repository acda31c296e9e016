-- ===== src/Fb/Printed.antt =====
-- `fb_print` of kernel/fb.c on the tape that the screen shows.
use jordan_os.Base.{
  ℕ, ◌+◌, ◌<◌, ◌≡◌, refl, ap, ◌∙◌, arith, ltb, ◌&&◌, some, [], ◌∷◌, length, inl, inr, Bool-cases,
  beq_of_ne,
}
use mathlib.Core.Path.{subst, subst₂}
use jordan_os.Mem.{write}
use jordan_os.Str.{Bytes, IsText}
use jordan_os.Fb.{Fb}
use jordan_os.Fb.Draw.{fb_draw_char}
use jordan_os.Fb.Print.{advance, print_loop}
use jordan_os.Fb.Draw.{fb_draw_cursor, fb_erase_cursor, fb_fill_cell}
use jordan_os.Fb.Print.{fb_print_color, fb_print}
use jordan_os.Fb.Tape.{Fits, Shows, position, put, scroll_below_lem}
use jordan_os.Fb.Round.{fb_draw_char-Drawn, advance_lem, round-Shows}

-- One character on a screen with the cursor on it.
put_char-Shows :
    (base : ℕ) (tape : ℕ → ℕ) (f : Fb) (ch fg bg : ℕ)
    → Fits f
    → f.cur_row < f.rows
    → Shows base tape f
    → ch < 256
    → let g = advance (fb_draw_char f.cur_col f.cur_row ch fg bg f) in
      Fits g
      × Shows base (write tape (position base f) ch) g
      × (position base g ≡ position base f + 1)
      × (g.cols ≡ f.cols)
      × (g.rows ≡ f.rows)
put_char-Shows base tape f ch fg bg fits on shown small =
    let drawn = fb_draw_char f.cur_col f.cur_row ch fg bg f in
    let (buf, cols, rows, col, row) = fb_draw_char-Drawn f ch fg bg fits on small in
    let fits' : Fits drawn = rw (cols, rows, col, row) fits in
    let on' : drawn.cur_row < drawn.rows = rw (rows, row) on in
    let (fits2, buf2, at, cols2, rows2) = advance_lem base drawn fits' on' in
    (
      fits2,
      round-Shows base tape f (advance drawn) ch fits on shown (buf2 ∙ buf) (cols2 ∙ cols)
          (rows2 ∙ rows),
      at ∙ rw (cols, col, row) refl,
      cols2 ∙ cols,
      rows2 ∙ rows,
    )

-- Printing from a screen that shows a tape never faults, and leaves a screen that shows the tape
-- with the text written from the cursor on, and the cursor behind the text.
pub print_loop-Shows :
    (text : Bytes) (base : ℕ) (tape : ℕ → ℕ) (f : Fb) (fg bg : ℕ)
    → IsText text
    → Fits f
    → Shows base tape f
    → (g : Fb) × (base' : ℕ) × (print_loop text fg bg f ≡ some g)
      × Fits g
      × Shows base' (put (position base f) text tape) g
      × (position base' g ≡ position base f + length text)
      × (g.cols ≡ f.cols)
      × (g.rows ≡ f.rows)
unfolding print_loop put
print_loop-Shows [] base tape f fg bg ok fits shown =
    (f, base, refl, fits, shown, omega arith, refl, refl)
print_loop-Shows (ch ∷ text) base tape f fg bg ((pos, small), ok) fits shown =
    let (g, b1, up, fits1, on, shown1, same, cols1, rows1) =
      scroll_below_lem base tape f fits shown in
    let next = advance (fb_draw_char g.cur_col g.cur_row ch fg bg g) in
    let (fits2, shown2, at2, cols2, rows2) =
      put_char-Shows b1 tape g ch fg bg fits1 on shown1 small in
    let (h, b2, run, fits3, shown3, at3, cols3, rows3) =
      print_loop-Shows text b1 (write tape (position b1 g) ch) next fg bg ok fits2 shown2 in
    let here : position b1 next ≡ position base f + 1 = at2 ∙ ap (λ (k : ℕ). k + 1) same in
    (
      h,
      b2,
      rw (beq_of_ne ch 0 (omega arith), up) run,
      fits3,
      subst₂ (λ p q. Shows b2 (put p text (write tape q ch)) h) here same shown3,
      at3 ∙ omega (arith, here),
      cols3 ∙ cols2 ∙ cols1,
      rows3 ∙ rows2 ∙ rows1,
    )

-- The cursor is drawn without a change of the text, the geometry or the cursor's place.
abbrev pub Same : Fb → Fb → Type 0
Same f g =
    (g.screen_buf ≡ f.screen_buf)
    × (g.cols ≡ f.cols)
    × (g.rows ≡ f.rows)
    × (g.cur_col ≡ f.cur_col)
    × (g.cur_row ≡ f.cur_row)

pub fb_erase_cursor-Same : (f : Fb) → Same f (fb_erase_cursor f)
unfolding fb_erase_cursor fb_fill_cell
fb_erase_cursor-Same f = elim (Bool-cases (ltb f.cur_col f.cols && ltb f.cur_row f.rows)) [
  | inl shown ↦ rw shown (refl, refl, refl, refl, refl)
  | inr hidden ↦ rw hidden (refl, refl, refl, refl, refl)
]

pub fb_draw_cursor-Same : (f : Fb) → Same f (fb_draw_cursor f)
unfolding fb_draw_cursor fb_fill_cell
fb_draw_cursor-Same f = elim (Bool-cases (ltb f.cur_col f.cols && ltb f.cur_row f.rows)) [
  | inl shown ↦ rw shown (refl, refl, refl, refl, refl)
  | inr hidden ↦ rw hidden (refl, refl, refl, refl, refl)
]

pub Same-Shows :
    (base : ℕ) (tape : ℕ → ℕ) (f g : Fb)
    → Same f g
    → Fits f
    → Shows base tape f
    → Fits g × Shows base tape g × (position base g ≡ position base f)
Same-Shows base tape f g (buf, cols, rows, col, row) fits shown =
    (rw (cols, rows, col, row) fits, rw (buf, cols, rows) shown, rw (cols, col, row) refl)

-- On a screen of at most 64 rows and 128 columns `fb_print` of a byte string never faults. Seen as a
-- window on an endless tape, the screen shows the tape with the text written from the cursor on,
-- wrapped at the last column and scrolled as far as it takes, and the cursor is behind the text.
pub fb_print-Shows :
    (text : Bytes) (base : ℕ) (tape : ℕ → ℕ) (f : Fb)
    → IsText text
    → Fits f
    → Shows base tape f
    → (g : Fb) × (base' : ℕ) × (fb_print text f ≡ some g)
      × Fits g
      × Shows base' (put (position base f) text tape) g
      × (position base' g ≡ position base f + length text)
unfolding fb_print fb_print_color
fb_print-Shows text base tape f ok fits shown =
    let e = fb_erase_cursor f in
    let (fits1, shown1, at1) = Same-Shows base tape f e (fb_erase_cursor-Same f) fits shown in
    let (h, base', run, fits2, shown2, at2, _, _) =
      print_loop-Shows text base tape e f.theme_fg f.theme_bg ok fits1 shown1 in
    let shown2' = subst (λ p. Shows base' (put p text tape) h) at1 shown2 in
    let (fits3, shown3, at3) =
      Same-Shows base' (put (position base f) text tape) h (fb_draw_cursor h)
        (fb_draw_cursor-Same h) fits2 shown2' in
    (fb_draw_cursor h, base', rw run refl, fits3, shown3, at3 ∙ at2 ∙ ap (λ k. k + length text) at1)
