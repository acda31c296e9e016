-- ===== src/Fb/Still.antt =====
-- The drawing operations of kernel/fb.c: the screen's size and the cursor's place behind them.
use jordan_os.Base.{
  ℕ, ◌<◌, ◌≤◌, ◌≡◌, refl, ◌∙◌, arith, leb, Option, some, inl, inr, Bool-cases, leb→lt, beq_of_ne,
}
use jordan_os.Fb.{Fb}
use jordan_os.Fb.Draw.{
  fb_draw_char, fb_draw_cursor, fb_erase_cursor, fb_fill_cell, fb_update_cursor,
}
use jordan_os.Fb.Print.{fb_scroll, scroll_below, advance}
use jordan_os.Fb.Tape.{Fits, scrolled}

-- The size of a screen and the cursor's column; the row may be anywhere.
abbrev pub Sized : Fb → Type 0
Sized f = (0 < f.cols) × (f.cols ≤ 128) × (0 < f.rows) × (f.rows ≤ 64) × (f.cur_col < f.cols)

-- The cursor and the geometry.
abbrev pub Still : Fb → Fb → Type 0
Still f g =
    (g.cols ≡ f.cols) × (g.rows ≡ f.rows) × (g.cur_col ≡ f.cur_col) × (g.cur_row ≡ f.cur_row)

-- A run that ends on a screen that fits, as large as `f`.
abbrev pub Ends : Fb → Option Fb → Type 0
Ends f run = (g : Fb) × (run ≡ some g) × Fits g × (g.cols ≡ f.cols) × (g.rows ≡ f.rows)

pub Still-Fits : (f g : Fb) → Still f g → Fits f → Fits g
Still-Fits f g (cols, rows, col, row) fits = rw (cols, rows, col, row) fits

Still-Sized : (f g : Fb) → Still f g → Sized f → Sized g
Still-Sized f g (cols, rows, col, row) sized = rw (cols, rows, col) sized

pub Still-trans : (f g h : Fb) → Still f g → Still g h → Still f h
Still-trans f g h (a, b, c, d) (a', b', c', d') = (a' ∙ a, b' ∙ b, c' ∙ c, d' ∙ d)

pub fb_erase_cursor-Still : (f : Fb) → Still f (fb_erase_cursor f)
unfolding fb_erase_cursor fb_fill_cell
fb_erase_cursor-Still f = ground arith

pub fb_draw_cursor-Still : (f : Fb) → Still f (fb_draw_cursor f)
unfolding fb_draw_cursor fb_fill_cell
fb_draw_cursor-Still f = ground arith

pub fb_update_cursor-Still : (ticks : ℕ) (f : Fb) → Still f (fb_update_cursor ticks f)
unfolding fb_update_cursor
fb_update_cursor-Still ticks f = ground (arith, fb_draw_cursor-Still f, fb_erase_cursor-Still f)

pub fb_draw_char-Still : (col row ch fg bg : ℕ) (f : Fb) → Still f (fb_draw_char col row ch fg bg f)
unfolding fb_draw_char
fb_draw_char-Still col row ch fg bg f = ground arith

pub scroll_below-Ends :
    (f : Fb)
    → Sized f
    → (g : Fb) × (scroll_below f ≡ some g)
      × Fits g
      × (g.cur_row < g.rows)
      × (g.cols ≡ f.cols)
      × (g.rows ≡ f.rows)
unfolding scroll_below fb_scroll
scroll_below-Ends f (c0, c1, r0, r1, inside) = elim (Bool-cases (leb f.rows f.cur_row)) [
  | inr on ↦
      let lt = leb→lt f.rows f.cur_row on in
      (f, rw on refl, (c0, c1, r0, r1, inside, omega arith), lt, refl, refl)
  | inl below ↦ (
    scrolled f,
    rw (below, beq_of_ne f.rows 0 (omega arith)) refl,
    (c0, c1, r0, r1, inside, omega arith),
    omega arith,
    refl,
    refl,
  )
]

pub advance-Fits :
    (g : Fb)
    → Fits g
    → g.cur_row < g.rows
    → Fits (advance g) × ((advance g).cols ≡ g.cols) × ((advance g).rows ≡ g.rows)
unfolding advance
advance-Fits g (c0, c1, r0, r1, inside, cr) on = ground arith
