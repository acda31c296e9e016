-- ===== src/Fb/Print.antt =====
-- Text (kernel/fb.c): scrolling, printing, and drawing the screen again.
use jordan_os.Base.{
  ℕ, ◌+◌, ◌-◌, ◌*◌, ◌/◌, ◌^◌, u32, u64, Option, none, some, [], ◌∷◌, ltb, leb, not, ◌==◌,
  if◌then◌else◌, ◌&&◌, ◌||◌, ◌>>=◌,
}
use jordan_os.Mem.{Mem, load64, store64}
use jordan_os.Str.{Bytes}
use jordan_os.Fb.{Fb, screen_max_cols, screen_max_rows}
use jordan_os.Fb.Draw.{for_upto, fb_clear, fb_draw_char, fb_draw_cursor, fb_erase_cursor, write2}

abbrev pub buf_rows : Fb → ℕ
buf_rows f = if ltb f.rows screen_max_rows then f.rows else screen_max_rows

abbrev pub buf_cols : Fb → ℕ
buf_cols f = if ltb f.cols screen_max_cols then f.cols else screen_max_cols

-- The text of the rows moves up, and the last row is cleared.
unfoldable pub shift_text : ℕ → ℕ → (ℕ → ℕ → ℕ) → ℕ → ℕ → ℕ
shift_text rows cols s =
    let moved = for_upto (rows - 1) (λ r. for_upto cols (λ c t. write2 t r c (t (r + 1) c))) s in
    for_upto cols (λ c t. write2 t (rows - 1) c 0) moved

-- `rep movsq` and `rep stosq`, eight bytes a round.
unfoldable pub shift_pixels : Fb → Mem
shift_pixels f =
    let row_bytes = u32 (f.glyph_h * f.pitch) in
    let count = u64 ((f.rows - 1) * row_bytes) / 8 in
    let moved =
      for_upto count (λ i m. store64 m (f.addr + 8 * i) (load64 m (f.addr + row_bytes + 8 * i)))
        f.mem in
    for_upto (row_bytes / 8) (λ i m. store64 m (f.addr + 8 * (count + i)) 0) moved

-- With no rows `buf_rows - 1` wraps to 2^32 - 1, and the loop leaves `screen_buf`.
unfoldable pub fb_scroll : Fb → Option Fb
fb_scroll f =
    if f.rows == 0
    then none
    else some (record f {
      mem = shift_pixels f;
      screen_buf = shift_text (buf_rows f) (buf_cols f) f.screen_buf;
      cur_row = f.rows - 1;
    })

-- `if (cur_row >= fb_rows) fb_scroll();`
unfoldable pub scroll_below : Fb → Option Fb
scroll_below f = if leb f.rows f.cur_row then fb_scroll f else some f

-- An `int` is its 32-bit pattern.
unfoldable pub fb_set_row : ℕ → Fb → Option Fb
fb_set_row row f = scroll_below (record f { cur_row = row })

-- The loop of `write_fb` from column `col` on.
unfoldable pub write_loop : Bytes → ℕ → ℕ → ℕ → ℕ → Fb → Fb
write_loop [] row col fg bg f = f
write_loop (ch ∷ text) row col fg bg f =
    let rest = write_loop text row (col + 1) fg bg (fb_draw_char col row ch fg bg f) in
    if not (ch == 0) && ltb col f.cols then rest else f

unfoldable pub write_fb : ℕ → ℕ → Bytes → ℕ → ℕ → Fb → Fb
write_fb row col text fg bg f =
    if leb (2 ^ 31) row || leb f.rows row || leb (2 ^ 31) col || leb f.cols col
    then f
    else write_loop text row col fg bg f

-- `if (++cur_col >= fb_cols) { cur_col = 0; cur_row++; }`
unfoldable pub advance : Fb → Fb
advance f =
    let col = u32 (f.cur_col + 1) in
    if leb f.cols col
    then record f { cur_col = 0; cur_row = u32 (f.cur_row + 1) }
    else record f { cur_col = col }

unfoldable pub print_loop : Bytes → ℕ → ℕ → Fb → Option Fb
print_loop [] fg bg f = some f
print_loop (ch ∷ text) fg bg f =
    let rest = (do
      g ← scroll_below f
      print_loop text fg bg (advance (fb_draw_char g.cur_col g.cur_row ch fg bg g))) in
    if ch == 0 then some f else rest

unfoldable pub fb_print_color : Bytes → ℕ → ℕ → Fb → Option Fb
fb_print_color text fg bg f = do
  g ← print_loop text fg bg (fb_erase_cursor f)
  some (fb_draw_cursor g)

unfoldable pub fb_println_color : Bytes → ℕ → ℕ → Fb → Option Fb
fb_println_color text fg bg f = do
  g ← scroll_below (fb_erase_cursor f)
  h ← scroll_below (record (write_fb g.cur_row g.cur_col text fg bg g) {
    cur_col = 0;
    cur_row = u32 (g.cur_row + 1);
  })
  some (fb_draw_cursor h)

unfoldable pub fb_print : Bytes → Fb → Option Fb
fb_print text f = fb_print_color text f.theme_fg f.theme_bg f

unfoldable pub fb_println : Bytes → Fb → Option Fb
fb_println text f = fb_println_color text f.theme_fg f.theme_bg f

unfoldable pub fb_clear_screen : Fb → Fb
fb_clear_screen f =
    let clear = fb_clear f.theme_bg f in
    record clear {
      screen_buf =
          for_upto (buf_rows f) (λ r. for_upto (buf_cols f) (λ c t. write2 t r c 0)) f.screen_buf;
      cur_row = 0;
      cur_col = 0;
    }

-- One cell of `redraw_screen`.
unfoldable pub redraw_cell : ℕ → ℕ → Fb → Fb
redraw_cell r c f =
    if f.screen_buf r c == 0 then f else fb_draw_char c r (f.screen_buf r c) f.theme_fg f.theme_bg f

unfoldable pub redraw_screen : Fb → Fb
redraw_screen f =
    fb_draw_cursor
      (for_upto (buf_rows f) (λ r. for_upto (buf_cols f) (redraw_cell r)) (fb_clear f.theme_bg f))

unfoldable pub fb_update_theme : ℕ → ℕ → Fb → Fb
fb_update_theme fg bg f = redraw_screen (record f { theme_fg = fg; theme_bg = bg })
