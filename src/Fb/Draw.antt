-- ===== src/Fb/Draw.antt =====
-- Drawing (kernel/fb.c): pixels, cells, characters and the cursor.
use jordan_os.Base.{
  ℕ, zero, suc, ◌+◌, ◌-◌, ◌*◌, ◌/◌, ◌%◌, ◌^◌, bit_and, bit_or, u8, u32, sub32, ltb, ◌==◌,
  if◌then◌else◌, ◌&&◌, ◌||◌,
}
use jordan_os.Mem.{Mem, store32}
use jordan_os.Fb.{Fb, screen_max_cols, screen_max_rows}
use jordan_os.Fb.Font.{font_glyphs}

-- `for (i = 0; i < n; i++)` with a body that changes a state.
unfoldable pub for_upto {ℓ} : {S : Type ℓ} → ℕ → (ℕ → S → S) → S → S
for_upto zero body s = s
for_upto (suc n) body s = body n (for_upto n body s)

abbrev pub red : ℕ → ℕ
red color = bit_and (color / 2 ^ 16) 0xFF

abbrev pub green : ℕ → ℕ
green color = bit_and (color / 2 ^ 8) 0xFF

abbrev pub blue : ℕ → ℕ
blue color = bit_and color 0xFF

-- Where `fb_draw_pixel` writes, and what.
abbrev pub pixel_at : Fb → ℕ → ℕ → ℕ
pixel_at f x y = f.addr + u32 (y * f.pitch) + u32 (x * (f.bpp / 8))

unfoldable pub fb_draw_pixel : Fb → ℕ → ℕ → ℕ → Mem → Mem
fb_draw_pixel f x y color m =
    store32 m (pixel_at f x y)
      (bit_or (bit_or (red color * 2 ^ 16) (green color * 2 ^ 8)) (blue color))

unfoldable pub fb_clear : ℕ → Fb → Fb
unfolding for_upto
fb_clear color f = record f {
  mem =
      for_upto f.height
        (λ y. for_upto f.width (λ x m. store32 m (f.addr + u32 (y * f.pitch) + 4 * x) color)) f.mem;
}

unfoldable pub fb_fill_cell : ℕ → ℕ → ℕ → Fb → Fb
fb_fill_cell col row color f =
    let px = u32 (col * f.glyph_w) in
    let py = u32 (row * f.glyph_h) in
    record f {
      mem =
          for_upto f.glyph_h
            (λ sy. for_upto f.glyph_w (λ sx. fb_draw_pixel f (u32 (px + sx)) (u32 (py + sy)) color))
            f.mem;
    }

unfoldable pub fb_draw_cursor : Fb → Fb
fb_draw_cursor f =
    if ltb f.cur_col f.cols && ltb f.cur_row f.rows
    then fb_fill_cell f.cur_col f.cur_row f.theme_fg f
    else f

unfoldable pub fb_erase_cursor : Fb → Fb
fb_erase_cursor f =
    if ltb f.cur_col f.cols && ltb f.cur_row f.rows
    then fb_fill_cell f.cur_col f.cur_row f.theme_bg f
    else f

-- A write to `screen_buf`.
unfoldable pub write2 : (ℕ → ℕ → ℕ) → ℕ → ℕ → ℕ → ℕ → ℕ → ℕ
write2 s row col v r c = if (r == row) && (c == col) then v else s r c

unfoldable pub fb_backspace : Fb → Fb
fb_backspace f =
    let e = fb_erase_cursor f in
    let col = f.cur_col - 1 in
    let g = fb_fill_cell col f.cur_row f.theme_bg (record e { cur_col = col }) in
    let h =
      if ltb col screen_max_cols && ltb f.cur_row screen_max_rows
      then record g { screen_buf = write2 g.screen_buf f.cur_row col 0 }
      else g in
    if f.cur_col == 0 then f else fb_draw_cursor h

unfoldable pub fb_update_cursor : ℕ → Fb → Fb
fb_update_cursor ticks f =
    if ltb (sub32 ticks f.last_activity) 30 || (ticks / 50 % 2 == 0)
    then fb_draw_cursor f
    else fb_erase_cursor f

-- The color of a glyph's pixel in a cell.
abbrev pub glyph_pixel : Fb → ℕ → ℕ → ℕ → ℕ → ℕ → ℕ
glyph_pixel f ch fg bg dx dy =
    let bits = font_glyphs (u8 ch * 16 + u32 (dy * 16) / f.glyph_h) in
    let src_x = u32 (dx * 8) / f.glyph_w in if bit_and bits (0x80 / 2 ^ src_x) == 0 then bg else fg

unfoldable pub fb_draw_char : ℕ → ℕ → ℕ → ℕ → ℕ → Fb → Fb
fb_draw_char col row ch fg bg f =
    let px = u32 (col * f.glyph_w) in
    let py = u32 (row * f.glyph_h) in
    let drawn = record f {
      mem =
          for_upto f.glyph_h
            (λ dy. for_upto f.glyph_w (λ dx.
              fb_draw_pixel f (u32 (px + dx)) (u32 (py + dy)) (glyph_pixel f ch fg bg dx dy)))
            f.mem;
    } in
    if ltb col screen_max_cols && ltb row screen_max_rows
    then record drawn { screen_buf = write2 f.screen_buf row col (u8 ch) }
    else drawn
