-- ===== src/Fb/Total.antt =====
-- The operations of the terminal (kernel/fb.c) on a screen that fits `screen_buf`.
use jordan_os.Base.{
  ℕ, ◌+◌, ◌^◌, ◌-◌, ◌≡◌, refl, ◌∙◌, arith, ltb, leb, ◌==◌, ◌&&◌, ◌||◌, not, some, [], ◌∷◌, inl, inr,
  Bool-cases, u32, ◌>>=◌,
}
use jordan_os.Str.{Bytes}
use jordan_os.Fb.{Fb}
use jordan_os.Fb.Draw.{
  for_upto, fb_draw_char, fb_draw_cursor, fb_erase_cursor, fb_fill_cell, fb_backspace, fb_clear,
}
use jordan_os.Fb.Print.{
  scroll_below, fb_set_row, advance, print_loop, write_loop, write_fb, fb_print_color, fb_print,
  fb_println_color, fb_println, buf_rows, buf_cols, fb_clear_screen, redraw_cell, redraw_screen,
  fb_update_theme,
}
use jordan_os.Fb.Tape.{Fits}
use jordan_os.Fb.Loops.{for_upto-keeps}
use jordan_os.Fb.Still.{
  Still, Ends, Still-Fits, Still-trans, fb_erase_cursor-Still, fb_draw_cursor-Still,
  fb_draw_char-Still, scroll_below-Ends, advance-Fits,
}

print_loop-Ends : (text : Bytes) (fg bg : ℕ) (f : Fb) → Fits f → Ends f (print_loop text fg bg f)
unfolding print_loop
print_loop-Ends [] fg bg f fits = (f, refl, fits, refl, refl)
print_loop-Ends (ch ∷ text) fg bg f fits = elim (Bool-cases (ch == 0)) [
  | inl end ↦ rw end (f, refl, fits, refl, refl)
  | inr more ↦
      let (c0, c1, r0, r1, inside, cr) = fits in
      let (g, up, fits1, on, cols1, rows1) = scroll_below-Ends f (c0, c1, r0, r1, inside) in
      let drawn = fb_draw_char g.cur_col g.cur_row ch fg bg g in
      let still = fb_draw_char-Still g.cur_col g.cur_row ch fg bg g in
      let (fits2, cols2, rows2) =
        advance-Fits drawn (Still-Fits g drawn still fits1) (omega (arith, still)) in
      let (h, run, fits3, cols3, rows3) = print_loop-Ends text fg bg (advance drawn) fits2 in
      rw (more, up)
        (h, run, fits3, cols3 ∙ cols2 ∙ still.0 ∙ cols1, rows3 ∙ rows2 ∙ still.1 ∙ rows1)
]

write_loop-Still :
    (text : Bytes) (row col fg bg : ℕ) (f : Fb) → Still f (write_loop text row col fg bg f)
unfolding write_loop
write_loop-Still [] row col fg bg f = (refl, refl, refl, refl)
write_loop-Still (ch ∷ text) row col fg bg f = elim (Bool-cases (not (ch == 0) && ltb col f.cols)) [
  | inr end ↦ rw end (refl, refl, refl, refl)
  | inl more ↦
      let drawn = fb_draw_char col row ch fg bg f in
      rw more (
        Still-trans f drawn (write_loop text row (col + 1) fg bg drawn)
          (fb_draw_char-Still col row ch fg bg f) (write_loop-Still text row (col + 1) fg bg drawn))
]

pub write_fb-Still :
    (row col : ℕ) (text : Bytes) (fg bg : ℕ) (f : Fb) → Still f (write_fb row col text fg bg f)
unfolding write_fb
write_fb-Still row col text fg bg f =
    elim (Bool-cases (leb (2 ^ 31) row || leb f.rows row || leb (2 ^ 31) col || leb f.cols col)) [
      | inl outside ↦ rw outside (refl, refl, refl, refl)
      | inr inside ↦ rw inside (write_loop-Still text row col fg bg f)
    ]

-- The cursor is drawn at the end of a run.
drawn_cursor-Ends :
    (f g : Fb) → Fits g → g.cols ≡ f.cols → g.rows ≡ f.rows → Ends f (some (fb_draw_cursor g))
drawn_cursor-Ends f g fits cols rows =
    let still = fb_draw_cursor-Still g in
    (
      fb_draw_cursor g,
      refl,
      Still-Fits g (fb_draw_cursor g) still fits,
      still.0 ∙ cols,
      still.1 ∙ rows,
    )

pub fb_print_color-Ends :
    (text : Bytes) (fg bg : ℕ) (f : Fb) → Fits f → Ends f (fb_print_color text fg bg f)
unfolding fb_print_color
fb_print_color-Ends text fg bg f fits =
    let still = fb_erase_cursor-Still f in
    let (g, run, fits1, cols, rows) =
      print_loop-Ends text fg bg (fb_erase_cursor f)
        (Still-Fits f (fb_erase_cursor f) still fits) in
    rw run (drawn_cursor-Ends f g fits1 (cols ∙ still.0) (rows ∙ still.1))

pub fb_print-Ends : (text : Bytes) (f : Fb) → Fits f → Ends f (fb_print text f)
unfolding fb_print
fb_print-Ends text f fits = fb_print_color-Ends text f.theme_fg f.theme_bg f fits

-- The end of `fb_println_color`: the start of the next row.
newline-Ends :
    (f g : Fb) (row : ℕ)
    → Fits g
    → g.cols ≡ f.cols
    → g.rows ≡ f.rows
    → Ends f (do
      h ← scroll_below (record g { cur_col = 0; cur_row = u32 (row + 1) })
      some (fb_draw_cursor h))
newline-Ends f g row (c0, c1, r0, r1, inside, cr) cols rows =
    let (h, run, fits, on, cols', rows') =
      scroll_below-Ends (record g { cur_col = 0; cur_row = u32 (row + 1) }) (c0, c1, r0, r1, c0) in
    rw run (drawn_cursor-Ends f h fits (cols' ∙ cols) (rows' ∙ rows))

pub fb_println-Ends : (text : Bytes) (f : Fb) → Fits f → Ends f (fb_println text f)
unfolding fb_println fb_println_color
fb_println-Ends text f fits =
    let still = fb_erase_cursor-Still f in
    let (c0, c1, r0, r1, inside, cr) = Still-Fits f (fb_erase_cursor f) still fits in
    let (g, run, fits1, on, cols, rows) =
      scroll_below-Ends (fb_erase_cursor f) (c0, c1, r0, r1, inside) in
    let written = write_fb g.cur_row g.cur_col text f.theme_fg f.theme_bg g in
    let kept = write_fb-Still g.cur_row g.cur_col text f.theme_fg f.theme_bg g in
    rw run (
      newline-Ends f written g.cur_row (Still-Fits g written kept fits1) (kept.0 ∙ cols ∙ still.0)
        (kept.1 ∙ rows ∙ still.1))

pub fb_set_row-Ends : (row : ℕ) (f : Fb) → Fits f → Ends f (fb_set_row row f)
unfolding fb_set_row
fb_set_row-Ends row f (c0, c1, r0, r1, inside, cr) =
    let (g, run, fits, on, cols, rows) =
      scroll_below-Ends (record f { cur_row = row }) (c0, c1, r0, r1, inside) in
    (g, run, fits, cols, rows)

pub fb_clear_screen-Fits : (f : Fb) → Fits f → Fits (fb_clear_screen f)
unfolding fb_clear_screen fb_clear
fb_clear_screen-Fits f (c0, c1, r0, r1, inside, cr) = (c0, c1, r0, r1, c0, omega arith)

redraw_cell-Still : (r c : ℕ) (f : Fb) → Still f (redraw_cell r c f)
unfolding redraw_cell
redraw_cell-Still r c f =
    ground (arith, fb_draw_char-Still c r (f.screen_buf r c) f.theme_fg f.theme_bg f)

pub fb_update_theme-Fits : (fg bg : ℕ) (f : Fb) → Fits f → Fits (fb_update_theme fg bg f)
unfolding fb_update_theme redraw_screen fb_clear
fb_update_theme-Fits fg bg f fits =
    let start = fb_clear bg (record f { theme_fg = fg; theme_bg = bg }) in
    let redrawn =
      for_upto (buf_rows start) (λ r. for_upto (buf_cols start) (redraw_cell r)) start in
    let cells : Still start redrawn =
      for_upto-keeps (Still start) (buf_rows start) _ start
        (λ r t kept.
          for_upto-keeps (Still start) (buf_cols start) (redraw_cell r) t
            (λ c u h. Still-trans start u (redraw_cell r c u) h (redraw_cell-Still r c u)) kept)
        (refl, refl, refl, refl) in
    Still-Fits redrawn (fb_draw_cursor redrawn) (fb_draw_cursor-Still redrawn)
      (Still-Fits start redrawn cells fits)

fb_draw_cursor-Fits : (f : Fb) → Fits f → Fits (fb_draw_cursor f)
fb_draw_cursor-Fits f fits = Still-Fits f (fb_draw_cursor f) (fb_draw_cursor-Still f) fits

pub fb_backspace-Fits : (f : Fb) → Fits f → Fits (fb_backspace f)
unfolding fb_backspace fb_fill_cell
fb_backspace-Fits f (c0, c1, r0, r1, inside, cr) =
    let (cols, rows, col, row) = fb_erase_cursor-Still f in
    elim (Bool-cases (f.cur_col == 0)) [
      | inl first ↦ rw first (c0, c1, r0, r1, inside, cr)
      | inr moved ↦ elim (Bool-cases (ltb (f.cur_col - 1) 128 && ltb f.cur_row 64)) [
        | inl held ↦
            rw (moved, held)
              (fb_draw_cursor-Fits _ (rw (cols, rows, row) (c0, c1, r0, r1, omega arith, cr)))
        | inr beyond ↦
            rw (moved, beyond)
              (fb_draw_cursor-Fits _ (rw (cols, rows, row) (c0, c1, r0, r1, omega arith, cr)))
      ]
    ]
