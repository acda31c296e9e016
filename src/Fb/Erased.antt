-- ===== src/Fb/Erased.antt =====
-- `fb_backspace` (kernel/fb.c) on a screen whose pixels show the text.
use jordan_os.Base.{
  ℕ, ◌+◌, ◌-◌, ◌<◌, ◌≤◌, ◌≡◌, ◌⊎◌, refl, ap, sym, ◌∙◌, arith, inl, inr, Bool-cases, ◌==◌, lt→ltb,
  beq_of_ne, ne_of_beq,
}
use mathlib.Core.Path.{subst}
use jordan_os.Fb.{Fb}
use jordan_os.Fb.Draw.{
  fb_draw_cursor, fb_erase_cursor, fb_backspace, fb_draw_pixel, fb_fill_cell, write2,
}
use jordan_os.Fb.Cells.{fb_fill_cell-cell}
use jordan_os.Fb.Picture.{inked, fb_fill_cell-IsBytes, inked-ByteText, inked-Painted}
use jordan_os.Fb.Clean.{Clean}
use jordan_os.Fb.Pictured.{drawn-Pictured}
use jordan_os.Fb.Tidy.{Tidy, fb_erase_cursor-Clean, Clean-Tidy, fb_draw_cursor-Tidy}
use jordan_os.Fb.Printed.{fb_erase_cursor-Same}

-- A screen after a cell is blanked, with the cursor there.
abbrev blanked : ℕ → ℕ → ℕ → Fb → Fb
blanked row col bg e =
    let g = fb_fill_cell col row bg (record e { cur_col = col }) in
    record g { screen_buf = write2 g.screen_buf row col 0 }

blanked-Behind :
    (s : ℕ → ℕ → ℕ) (row col r c : ℕ)
    → (((row < r) ⊎ ((r ≡ row) × (col + 1 ≤ c))) → s r c ≡ 0)
    → (row < r) ⊎ ((r ≡ row) × (col ≤ c))
    → write2 s row col 0 r c ≡ 0
unfolding write2
blanked-Behind s row col r c behind (inl below) = ground (arith, behind (inl below))
blanked-Behind s row col r c behind (inr (same, right)) = elim (Bool-cases (c == col)) [
  | inl here ↦ rw (same, here) (ground arith)
  | inr away ↦ rw away (ground (arith, behind (inr (same, omega (arith, ne_of_beq c col away)))))
]

blanked-Clean :
    (fg bg row col : ℕ) (e : Fb)
    → Clean fg bg e
    → e.cur_row ≡ row
    → e.cur_col ≡ col + 1
    → row < e.rows
    → Clean fg bg (blanked row col bg e)
unfolding fb_fill_cell fb_draw_pixel
blanked-Clean fg bg row col e clean at_row at_col on =
    let (c0, c1, r0, r1, inside, cr) = clean.fits in
    let (framed, align, bytes) = clean.canvas in
    let (_, _, _, _, small) = framed in
    let m = (fb_fill_cell col row bg e).mem in
    record {
      fits = (c0, c1, r0, r1, omega (arith, at_col), cr);
      canvas = (framed, align, fb_fill_cell-IsBytes col row bg e bytes);
      colored = clean.colored;
      ground_color = clean.ground_color;
      edge = inl (omega (arith, at_row));
      behind = λ r c hr hc after.
          blanked-Behind e.screen_buf row col r c
            (λ before. clean.behind r c hr hc (rw (at_row, at_col) before))
            (subst (λ k. (k < r) ⊎ ((r ≡ k) × (col ≤ c))) at_row after);
      text = inked-ByteText e col row 0 m clean.text (omega arith);
      painted =
          drawn-Pictured bg row col e (inked col row 0 m e) clean.ground_color
            (λ blank painted. inked-Painted e blank col row 0 m painted λ r c dx dy hr hc hx hy.
              fb_fill_cell-cell e col row bg r c dx dy framed
                (omega (arith, clean.ground_color, small)) (omega (arith, at_col)) on hr hc hx hy
              ∙ rw (clean.ground_color) refl)
            clean.painted;
    }

-- `fb_backspace` of a screen with the cursor on it and not in the first column.
fb_backspace-blanked :
    (bg : ℕ) (f : Fb)
    → f.cols ≤ 128
    → f.rows ≤ 64
    → f.cur_col < f.cols
    → 0 < f.cur_col
    → f.cur_row < f.rows
    → f.theme_bg ≡ bg
    → fb_backspace f ≡ fb_draw_cursor (blanked f.cur_row (f.cur_col - 1) bg (fb_erase_cursor f))
unfolding fb_backspace
fb_backspace-blanked bg f c1 r1 inside moved on ground_color =
    rw
      (
        beq_of_ne f.cur_col 0 (omega arith),
        lt→ltb (f.cur_col - 1) 128 (omega arith),
        lt→ltb f.cur_row 64 (omega arith),
      )
      (ap (λ k. fb_draw_cursor (blanked f.cur_row (f.cur_col - 1) k (fb_erase_cursor f)))
        ground_color)

pub fb_backspace-Tidy : (fg bg : ℕ) (f : Fb) → Tidy fg bg f → Tidy fg bg (fb_backspace f)
unfolding fb_backspace
fb_backspace-Tidy fg bg f tidy = elim (Bool-cases (f.cur_col == 0)) [
  | inl first ↦ rw first tidy
  | inr moved ↦
      let (c0, c1, r0, r1, inside, cr) = tidy.fits in
      let pos : 0 < f.cur_col = omega (arith, ne_of_beq f.cur_col 0 moved) in
      let on : f.cur_row < f.rows = ground arith in
      let (_, cols, rows, at_col, at_row) = fb_erase_cursor-Same f in
      let back = blanked f.cur_row (f.cur_col - 1) bg (fb_erase_cursor f) in
      subst (Tidy fg bg) (sym (fb_backspace-blanked bg f c1 r1 inside pos on tidy.ground_color)) (
        fb_draw_cursor-Tidy fg bg back (
          Clean-Tidy fg bg back (
            blanked-Clean fg bg f.cur_row (f.cur_col - 1) (fb_erase_cursor f)
              (fb_erase_cursor-Clean fg bg f tidy) at_row (at_col ∙ omega arith)
              (omega (arith, rows)))))
]
