-- ===== src/Fb/Rows.antt =====
-- `fb_set_row`, `fb_set_col` and `fb_cursor_activity` (kernel/fb.c), as the keyboard driver calls them.
use jordan_os.Base.{
  ℕ, ◌+◌, ◌≡◌, refl, arith, inl, inr, Bool-cases, u32, leb, some, leb→lt, beq_of_ne,
}
use jordan_os.Fb.{Fb, fb_set_col, fb_cursor_activity}
use jordan_os.Fb.Print.{fb_set_row, scroll_below, fb_scroll, shift_pixels}
use jordan_os.Fb.Tape.{scrolled}
use jordan_os.Fb.Clean.{Clean, scrolled-Clean, next_line-Clean}
use jordan_os.Fb.Tidy.{Tidy}

-- The start of the row below the cursor's.
pub fb_set_row-Clean :
    (fg bg : ℕ) (f : Fb)
    → Clean fg bg f
    → (g : Fb) × (fb_set_row (u32 (f.cur_row + 1)) f ≡ some g) × Clean fg bg (fb_set_col 0 g)
unfolding fb_set_row scroll_below fb_scroll shift_pixels
fb_set_row-Clean fg bg f clean =
    let (c0, c1, r0, r1, inside, cr) = clean.fits in
    let down : u32 (f.cur_row + 1) ≡ f.cur_row + 1 = omega arith in
    elim (Bool-cases (leb f.rows (f.cur_row + 1))) [
      | inl below ↦ (
        scrolled f,
        rw (down, below, beq_of_ne f.rows 0 (omega arith)) refl,
        scrolled-Clean fg bg 0 f c0 clean,
      )
      | inr on ↦ (
        record f { cur_row = f.cur_row + 1 },
        rw (down, on) refl,
        next_line-Clean fg bg f clean (omega (arith, leb→lt f.rows (f.cur_row + 1) on)),
      )
    ]

pub fb_cursor_activity-Tidy :
    (ticks fg bg : ℕ) (f : Fb) → Tidy fg bg f → Tidy fg bg (fb_cursor_activity ticks f)
fb_cursor_activity-Tidy ticks fg bg f tidy = record {
  fits = tidy.fits;
  canvas = tidy.canvas;
  colored = tidy.colored;
  ground_color = tidy.ground_color;
  edge = tidy.edge;
  behind = tidy.behind;
  text = tidy.text;
  lit = tidy.lit;
}
