-- ===== src/Fb/Themed.antt =====
-- `redraw_screen` and `fb_update_theme` (kernel/fb.c): the text drawn again on a cleared screen.
use jordan_os.Base.{
  ℕ, suc, ◌+◌, ◌*◌, ◌^◌, ◌<◌, ◌≡◌, ◌≢◌, refl, ap, sym, ◌∙◌, arith, inl, inr, Bool-cases, ◌==◌,
  lt→ltb, beq_of_ne, ne_of_beq,
}
use mathlib.Core.Path.{subst}
use jordan_os.Mem.{Mem}
use jordan_os.Fb.{Fb}
use jordan_os.Fb.Draw.{for_upto, fb_clear, fb_draw_char, fb_draw_cursor}
use jordan_os.Fb.Print.{redraw_cell, redraw_screen, fb_update_theme, buf_rows, buf_cols}
use jordan_os.Fb.Loops.{for_upto-counts}
use jordan_os.Fb.Moved.{IsBytes}
use jordan_os.Fb.Tape.{Fits}
use jordan_os.Fb.Pixels.{glyph_color}
use jordan_os.Fb.Cells.{Framed, at_cell, cell_below, fb_draw_char-cell}
use jordan_os.Fb.Canvas.{recolored, Recolors, fb_draw_cursor-Fills, Painted-Lit}
use jordan_os.Fb.Picture.{
  Canvas, Painted, Lit, Behind, ByteText, cell_color, fb_draw_char-inked, fb_draw_char-IsBytes,
}
use jordan_os.Fb.Cleared.{fb_clear-pixel, fb_clear-IsBytes}
use jordan_os.Fb.Tidy.{Tidy}
use jordan_os.Fb.Progress.{Redrawn, before, one_more, blank_more, same_text}

module _ (f : Fb) (fits : Fits f) (framed : Framed f) (text : ByteText f) where
  -- The loops have reached this cell, and changed the pixels alone.
  Reached : ℕ → ℕ → Fb → Type 0
  Reached row col g = Recolors (Redrawn (before row col)) f g

  drawn_cell :
      (row col : ℕ) (m : Mem)
      → row < f.rows
      → col < f.cols
      → f.screen_buf row col ≢ 0
      → Redrawn (before row col) (recolored m f)
      → IsBytes m
      → Reached row
          (suc col)
          (fb_draw_char col row (f.screen_buf row col) f.theme_fg f.theme_bg (recolored m f))
  unfolding Reached
  drawn_cell row col m hr hc char drawn bytes =
      let (_, _, _, hf, hb) = framed in
      let ch = f.screen_buf row col in
      let g = fb_draw_char col row ch f.theme_fg f.theme_bg (recolored m f) in
      (
        g.mem,
        fb_draw_char-inked (recolored m f) col row ch f.theme_fg f.theme_bg (omega (arith, fits))
              (omega (arith, fits)) (text row col hr hc)
            ∙ ap (λ s. record f { mem = g.mem; screen_buf = s }) (same_text f.screen_buf row col),
        (λ r c dx dy hr' hc' hx hy.
            fb_draw_char-cell (recolored m f) col row ch f.theme_fg f.theme_bg r c dx dy framed hf
              hb hc hr hr' hc' hx hy
            ∙ one_more row col r c (cell_color f f.theme_bg (f.screen_buf r c) dx dy) f.theme_bg
                (glyph_color f ch f.theme_fg f.theme_bg dx dy) (at_cell f m r c dx dy)
                (drawn r c dx dy hr' hc' hx hy) (λ er ec. rw (er, ec, beq_of_ne ch 0 char) refl)),
        fb_draw_char-IsBytes col row ch f.theme_fg f.theme_bg (recolored m f) bytes,
      )

  redraw_cell-Reached :
      (row col : ℕ) (g : Fb)
      → row < f.rows
      → col < f.cols
      → Reached row col g
      → Reached row (suc col) (redraw_cell row col g)
  unfolding Reached redraw_cell
  redraw_cell-Reached row col g hr hc (m, same, drawn, bytes) =
      subst (λ h. Reached row (suc col) (redraw_cell row col h)) (sym same)
        (elim (Bool-cases (f.screen_buf row col == 0)) [
          | inr char ↦
              rw char
                (drawn_cell row col m hr hc (ne_of_beq (f.screen_buf row col) 0 char) drawn bytes)
          | inl blank ↦ rw blank (
            m,
            refl,
            (λ r c dx dy hr' hc' hx hy.
                blank_more row col r c (cell_color f f.theme_bg (f.screen_buf r c) dx dy) f.theme_bg
                  (at_cell f m r c dx dy) (drawn r c dx dy hr' hc' hx hy)
                  λ er ec. rw (er, ec, blank) refl),
            bytes,
          )
        ])

  row-Reached :
      (row : ℕ) (g : Fb)
      → row < f.rows
      → Reached row 0 g
      → Reached (suc row) 0 (for_upto f.cols (redraw_cell row) g)
  unfolding Reached
  row-Reached row g hr start =
      let (m, same, drawn, bytes) =
        for_upto-counts (λ col. Reached row col) f.cols (redraw_cell row) g
          (λ col h hc. redraw_cell-Reached row col h hr hc) start in
      (m, same, λ r c dx dy hr' hc' hx hy. drawn r c dx dy hr' hc' hx hy ∙ ground arith, bytes)

  cells-Painted :
      (g : Fb)
      → Reached 0 0 g
      → Recolors
          (Painted (λ r c. f.theme_bg))
          f
          (for_upto f.rows (λ r. for_upto f.cols (redraw_cell r)) g)
  unfolding Reached
  cells-Painted g start =
      let (m, same, drawn, bytes) =
        for_upto-counts (λ row. Reached row 0) f.rows (λ r. for_upto f.cols (redraw_cell r)) g
          (λ row h hr. row-Reached row h hr) start in
      (
        m,
        same,
        λ r c dx dy hr hc hx hy. drawn r c dx dy hr hc hx hy ∙ rw (lt→ltb r f.rows hr) refl,
        bytes,
      )

  cleared-Reached : IsBytes f.mem → Reached 0 0 (fb_clear f.theme_bg f)
  unfolding Reached fb_clear
  cleared-Reached bytes =
      let (packed, wide, high, _, small) = framed in
      (
        (fb_clear f.theme_bg f).mem,
        refl,
        λ r c dx dy hr hc hx hy.
            fb_clear-pixel f f.theme_bg (c * f.glyph_w + dx) (r * f.glyph_h + dy) packed small
              (cell_below f.glyph_w c f.cols dx f.width hx hc wide)
              (cell_below f.glyph_h r f.rows dy f.height hy hr high)
            ∙ ground arith,
        fb_clear-IsBytes f f.theme_bg bytes,
      )

  redrawn-Painted :
      IsBytes f.mem
      → Recolors (Painted (λ r c. f.theme_bg)) f (
          for_upto
            (buf_rows f)
            (λ r. for_upto (buf_cols f) (redraw_cell r))
            (fb_clear f.theme_bg f))
  redrawn-Painted bytes =
      let (c0, c1, r0, r1, _, _) = fits in
      let rows : buf_rows f ≡ f.rows = ground arith in
      let cols : buf_cols f ≡ f.cols = ground arith in
      rw (rows, cols) (cells-Painted (fb_clear f.theme_bg f) (cleared-Reached bytes))

pub redraw_screen-Lit :
    (f : Fb)
    → Fits f
    → Canvas f
    → Behind f
    → ByteText f
    → Recolors (Lit f.theme_fg (λ r c. f.theme_bg)) f (redraw_screen f)
unfolding redraw_screen fb_clear
redraw_screen-Lit f fits (framed, align, bytes) behind text =
    let (m, same, painted, bytes1) = redrawn-Painted f fits framed text bytes in
    let (m2, same2, fills, bytes2) =
      fb_draw_cursor-Fills (recolored m f) fits (framed, align, bytes1) in
    let lit =
      fills f.theme_bg (λ r c. f.theme_bg)
        (Painted-Lit (recolored m f) (λ r c. f.theme_bg) behind painted) in
    (m2, ap fb_draw_cursor same ∙ same2, lit, bytes2)

-- On a screen of at most 64 rows and 128 columns with the cursor on it, and no character in a cell
-- from the cursor on, on a framebuffer of packed 32-bit pixels that the cells lie in, whose rows are
-- whole 64-bit words, in a memory of bytes, and with a text of bytes, let the new colors have 24
-- bits. `fb_update_theme` changes nothing but the theme and the pixels, and whatever the pixels were,
-- every cell then shows its character in the new colors, the cells without one the background, and
-- the cursor's cell the color of the text.
pub fb_update_theme-Lit :
    (fg bg : ℕ) (f : Fb)
    → Fits f
    → Canvas (record f { theme_fg = fg; theme_bg = bg })
    → Behind f
    → ByteText f
    → Recolors
        (Lit fg (λ r c. bg))
        (record f { theme_fg = fg; theme_bg = bg })
        (fb_update_theme fg bg f)
unfolding fb_update_theme
fb_update_theme-Lit fg bg f fits canvas behind text =
    redraw_screen-Lit (record f { theme_fg = fg; theme_bg = bg }) fits canvas behind text

pub fb_update_theme-Tidy :
    (fg bg old_fg old_bg : ℕ) (f : Fb)
    → fg < 2 ^ 24
    → bg < 2 ^ 24
    → Tidy old_fg old_bg f
    → Tidy fg bg (fb_update_theme fg bg f)
fb_update_theme-Tidy fg bg old_fg old_bg f hf hb tidy =
    let ((packed, wide, high, _, _), align, bytes) = tidy.canvas in
    let (m, same, lit, bytes1) =
      fb_update_theme-Lit fg bg f tidy.fits ((packed, wide, high, hf, hb), align, bytes) tidy.behind
        tidy.text in
    subst (Tidy fg bg) (sym same) (record {
      fits = tidy.fits;
      canvas = ((packed, wide, high, hf, hb), align, bytes1);
      colored = refl;
      ground_color = refl;
      edge = tidy.edge;
      behind = tidy.behind;
      text = tidy.text;
      lit = (fg, λ r c. bg, inl refl, λ r c. inl refl, lit);
    })
