-- ===== src/Fb/Cleared.antt =====
-- `fb_clear` and `fb_clear_screen` (kernel/fb.c): the screen in one color.
use jordan_os.Base.{
  ℕ, ◌+◌, ◌*◌, ◌/◌, ◌^◌, ◌<◌, ◌≡◌, refl, ap, sym, ◌∙◌, arith, inl, true, u32, ltb, lt→ltb,
}
use jordan_os.Mem.{Mem, store32}
use jordan_os.Fb.{Fb}
use jordan_os.Fb.Draw.{for_upto, fb_draw_pixel, fb_clear}
use jordan_os.Fb.Print.{fb_clear_screen, buf_rows, buf_cols}
use jordan_os.Fb.Scroll.{rows_cleared}
use jordan_os.Fb.Loops.{for_upto-keeps, for_upto-ext}
use jordan_os.Fb.Boxes.{Packed, pixel, row_below, color_whole}
use jordan_os.Fb.Pixels.{box_drawn}
use jordan_os.Fb.Moved.{IsBytes}
use jordan_os.Fb.Tape.{Fits}
use jordan_os.Fb.Cells.{cell_below}
use jordan_os.Fb.Picture.{Canvas, cell_color, store32-IsBytes}
use jordan_os.Fb.Clean.{Clean}

pub fb_clear-IsBytes : (f : Fb) (color : ℕ) → IsBytes f.mem → IsBytes (fb_clear color f).mem
unfolding fb_clear
fb_clear-IsBytes f color bytes =
    for_upto-keeps IsBytes f.height _ f.mem
      (λ y m h. for_upto-keeps IsBytes f.width _ m (λ x n g. store32-IsBytes n _ color g) h) bytes

-- A pixel of the loops is one that `fb_draw_pixel` draws.
cleared_pixel :
    (f : Fb) (color x y : ℕ) (m : Mem)
    → Packed f
    → color < 2 ^ 24
    → x < f.width
    → y < f.height
    → store32 m (f.addr + u32 (y * f.pitch) + 4 * x) color
      ≡ fb_draw_pixel f (u32 (u32 0 + x)) (u32 (u32 0 + y)) color m
unfolding fb_draw_pixel
cleared_pixel f color x y m packed small hx hy =
    let inside = row_below f.pitch y f.height hy in
    let wide : u32 (u32 0 + x) ≡ x = omega (arith, packed) in
    let high : u32 (u32 0 + y) ≡ y = omega (arith, packed) in
    let row : u32 (y * f.pitch) ≡ y * f.pitch = omega (arith, packed) in
    let four : f.bpp / 8 ≡ 4 = omega (arith, packed) in
    let col : u32 (x * 4) ≡ 4 * x = omega (arith, packed) in
    rw (wide, high, row, four, col, color_whole color small) refl

fb_clear-drawn :
    (f : Fb) (color : ℕ)
    → Packed f
    → color < 2 ^ 24
    → (fb_clear color f).mem
      ≡ for_upto f.height
          (λ y. for_upto f.width (λ x. fb_draw_pixel f (u32 (u32 0 + x)) (u32 (u32 0 + y)) color))
          f.mem
unfolding fb_clear
fb_clear-drawn f color packed small =
    for_upto-ext f.height _ _ f.mem
      λ y m hy. for_upto-ext f.width _ _ m λ x n hx. cleared_pixel f color x y n packed small hx hy

-- On a framebuffer of packed 32-bit pixels `fb_clear` gives every pixel the color.
pub fb_clear-pixel :
    (f : Fb) (color x y : ℕ)
    → Packed f
    → color < 2 ^ 24
    → x < f.width
    → y < f.height
    → pixel f (fb_clear color f).mem x y ≡ color
fb_clear-pixel f color x y packed small hx hy =
    let inside = row_below f.pitch y f.height hy in
    ap (λ m. pixel f m x y) (fb_clear-drawn f color packed small)
    ∙ box_drawn f packed f.height f.width 0 0 (λ i j. color) f.mem x y (λ i j. small)
        (omega (arith, packed)) (omega (arith, packed)) hx hy
    ∙ (let right : ltb x f.width ≡ true = lt→ltb x f.width hx in
        let low : ltb y f.height ≡ true = lt→ltb y f.height hy in ground arith)

-- `fb_clear_screen` leaves a blank screen with the cursor in its first cell, whatever was on it.
pub fb_clear_screen-Clean :
    (f : Fb) → Fits f → Canvas f → Clean f.theme_fg f.theme_bg (fb_clear_screen f)
unfolding fb_clear_screen fb_clear
fb_clear_screen-Clean f (c0, c1, r0, r1, inside, cr) (framed, align, bytes) =
    let (packed, wide, high, _, small) = framed in
    let rows : buf_rows f ≡ f.rows = ground arith in
    let cols : buf_cols f ≡ f.cols = ground arith in
    let blank : ((r c : ℕ) → r < f.rows → c < f.cols → (fb_clear_screen f).screen_buf r c ≡ 0) =
      λ r c hr hc.
        rw (rows, cols)
          (rows_cleared f.rows f.cols f.screen_buf r c
            ∙ rw (lt→ltb r f.rows hr, lt→ltb c f.cols hc) refl) in
    record {
      fits = (c0, c1, r0, r1, c0, omega arith);
      canvas = (framed, align, fb_clear-IsBytes f f.theme_bg bytes);
      colored = refl;
      ground_color = refl;
      edge = inl r0;
      behind = λ r c hr hc after. blank r c hr hc;
      text = λ r c hr hc. omega (arith, blank r c hr hc);
      painted = (
        λ r c. f.theme_bg,
        λ r c. inl refl,
        λ r c dx dy hr hc hx hy.
            fb_clear-pixel f f.theme_bg (c * f.glyph_w + dx) (r * f.glyph_h + dy) packed small
              (cell_below f.glyph_w c f.cols dx f.width hx hc wide)
              (cell_below f.glyph_h r f.rows dy f.height hy hr high)
            ∙ ap (λ ch. cell_color f f.theme_bg ch dx dy) (sym (blank r c hr hc)),
      );
    }
