-- ===== src/Fb/Erase.antt =====
-- Backspace on the tape that the screen shows.
use mathlib.Core.Path.{subst}
use jordan_os.Base.{ℕ, ◌+◌, ◌-◌, ◌<◌, ◌≡◌, refl, ap, ◌∙◌, arith, lt→ltb, beq_of_ne}
use jordan_os.Mem.{write}
use jordan_os.Fb.{Fb}
use jordan_os.Fb.Draw.{write2, fb_draw_cursor, fb_erase_cursor, fb_fill_cell, fb_backspace}
use jordan_os.Fb.Tape.{Fits, Shows, position}
use jordan_os.Fb.Printed.{fb_erase_cursor-Same, fb_draw_cursor-Same, Same-Shows}
use jordan_os.Fb.Round.{round-Shows}

-- The screen before the cursor is drawn again.
abbrev blanked : Fb → Fb
blanked f =
    let col = f.cur_col - 1 in
    let g = fb_fill_cell col f.cur_row f.theme_bg (record (fb_erase_cursor f) { cur_col = col }) in
    record g { screen_buf = write2 g.screen_buf f.cur_row col 0 }

fb_backspace-blanked :
    (f : Fb)
    → Fits f
    → 0 < f.cur_col
    → f.cur_row < f.rows
    → fb_backspace f ≡ fb_draw_cursor (blanked f)
unfolding fb_backspace
fb_backspace-blanked f (c0, c1, r0, r1, inside, cr) moved on =
    rw
      (
        beq_of_ne f.cur_col 0 (omega arith),
        lt→ltb (f.cur_col - 1) 128 (omega arith),
        lt→ltb f.cur_row 64 (omega arith),
      )
      refl

blanked-Shows :
    (base : ℕ) (tape : ℕ → ℕ) (f : Fb)
    → Fits f
    → 0 < f.cur_col
    → f.cur_row < f.rows
    → Shows base tape f
    → Fits (blanked f)
      × Shows base (write tape (position base f - 1) 0) (blanked f)
      × (position base (blanked f) + 1 ≡ position base f)
unfolding fb_fill_cell
blanked-Shows base tape f (c0, c1, r0, r1, inside, cr) moved on shown =
    let col = f.cur_col - 1 in
    let back : Fb = record f { cur_col = col } in
    let (buf, cols, rows, _, row) = fb_erase_cursor-Same f in
    let at : position base back ≡ position base f - 1 = omega arith in
    (
      rw (cols, rows, row) (c0, c1, r0, r1, omega arith, cr),
      subst (λ p. Shows base (write tape p 0) (blanked f)) at
          (round-Shows base tape back (blanked f) 0 (c0, c1, r0, r1, omega arith, cr) on shown
            (ap (λ s. write2 s f.cur_row col 0) buf) cols rows),
      rw (cols, row) (omega arith),
    )

-- With the cursor on the screen and not in the first column, `fb_backspace` moves it back by one
-- place of its row and blanks the tape there.
pub fb_backspace-Shows :
    (base : ℕ) (tape : ℕ → ℕ) (f : Fb)
    → Fits f
    → 0 < f.cur_col
    → f.cur_row < f.rows
    → Shows base tape f
    → Fits (fb_backspace f)
      × Shows base (write tape (position base f - 1) 0) (fb_backspace f)
      × (position base (fb_backspace f) + 1 ≡ position base f)
fb_backspace-Shows base tape f fits moved on shown =
    let (fits1, shown1, at1) = blanked-Shows base tape f fits moved on shown in
    let (fits2, shown2, at2) =
      Same-Shows base (write tape (position base f - 1) 0) (blanked f) (fb_draw_cursor (blanked f))
        (fb_draw_cursor-Same (blanked f)) fits1 shown1 in
    rw (fb_backspace-blanked f fits moved on) (fits2, shown2, ap (λ k. k + 1) at2 ∙ at1)
