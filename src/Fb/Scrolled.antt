-- ===== src/Fb/Scrolled.antt =====
-- What `fb_scroll` (kernel/fb.c) does to the pixels and the text of a screen.
use jordan_os.Base.{
  ℕ, suc, ◌+◌, ◌-◌, ◌*◌, ◌%◌, ◌<◌, ◌≤◌, ◌≡◌, refl, ap, sym, ◌∙◌, arith, inl, inr, Bool-cases, ltb,
  if◌then◌else◌, ltb→lt, ltb→le, lt→ltb, le→ltb, beq_of_ne, some,
}
use native.Mathlib.Nat.{mul-le-mul_right}
use jordan_os.Fb.{Fb}
use jordan_os.Fb.Print.{buf_rows, buf_cols, shift_pixels, fb_scroll}
use jordan_os.Fb.Scroll.{shift_text_lem}
use jordan_os.Fb.Loops.{for_upto-keeps}
use jordan_os.Fb.Tape.{Fits, scrolled}
use jordan_os.Fb.Boxes.{row_below, pixel, Packed}
use jordan_os.Fb.Moved.{IsBytes}
use jordan_os.Fb.Shifted.{shift_pixels-pixel}
use jordan_os.Fb.Cells.{cell_below}
use jordan_os.Fb.Picture.{Canvas, Painted, Shades, ByteText, cell_color, store64-IsBytes}

pub shift_pixels-IsBytes : (f : Fb) → IsBytes f.mem → IsBytes (shift_pixels f)
unfolding shift_pixels
shift_pixels-IsBytes f bytes =
    for_upto-keeps IsBytes _ _ _ (λ i m h. store64-IsBytes m _ 0 h)
      (for_upto-keeps IsBytes _ _ f.mem (λ i m h. store64-IsBytes m _ _ h) bytes)

row_test : (r n h d : ℕ) → d < h → ltb (r * h + d) (n * h) ≡ ltb r n
row_test r n h d lt = elim (Bool-cases (ltb r n)) [
  | inl above ↦
      let below = row_below h r n (ltb→lt r n above) in
      rw above (lt→ltb (r * h + d) (n * h) (omega arith))
  | inr last ↦
      let over = mul-le-mul_right h (ltb→le r n last) in
      rw last (le→ltb (r * h + d) (n * h) (omega arith))
]

pub whole_text :
    (f : Fb) (r c : ℕ)
    → Fits f
    → r < f.rows
    → c < f.cols
    → (scrolled f).screen_buf r c ≡ (if ltb (r + 1) f.rows then f.screen_buf (r + 1) c else 0)
whole_text f r c (c0, c1, r0, r1, _, _) hr hc =
    let rows : buf_rows f ≡ f.rows = ground arith in
    let cols : buf_cols f ≡ f.cols = ground arith in
    rw (rows, cols) (shift_text_lem f.rows f.cols f.screen_buf r c hr hc)

-- The colors of the cells without a character, a row higher, with a black row behind them.
abbrev pub moved_up : ℕ → (ℕ → ℕ → ℕ) → ℕ → ℕ → ℕ
moved_up n blank r c = if ltb r n then blank (r + 1) c else 0

pub moved_up-Shades :
    (bg n : ℕ) (blank : ℕ → ℕ → ℕ) → Shades bg blank → Shades bg (moved_up n blank)
moved_up-Shades bg n blank shades r c = elim (Bool-cases (ltb r n)) [
  | inl above ↦ rw above (shades (r + 1) c)
  | inr last ↦ rw last (inr refl)
]

pub scrolled-Painted :
    (f : Fb) (n : ℕ) (blank : ℕ → ℕ → ℕ)
    → f.rows ≡ suc n
    → Fits f
    → Canvas f
    → Painted blank f
    → Painted (moved_up n blank) (scrolled f)
scrolled-Painted f n blank rows fits (framed, align, bytes) painted r c dx dy hr hc hx hy =
    let (packed, wide, high, _, _) = framed in
    let x = cell_below f.glyph_w c f.cols dx f.width hx hc wide in
    let low = row_below f.glyph_h r f.rows hr in
    let moved =
      shift_pixels-pixel f n (c * f.glyph_w + dx) (r * f.glyph_h + dy) packed align bytes rows high
        x (omega arith) in
    let text = whole_text f r c fits hr hc in
    let test = row_test r n f.glyph_h dy hy in
    let same : ltb (r + 1) f.rows ≡ ltb r n = ground arith in
    elim (Bool-cases (ltb r n)) [
      | inl above ↦
          let next : r * f.glyph_h + dy + f.glyph_h ≡ (r + 1) * f.glyph_h + dy = omega arith in
          let from : (scrolled f).screen_buf r c ≡ f.screen_buf (r + 1) c =
            text ∙ rw (same, above) refl in
          let inside : r + 1 < f.rows = omega (arith, ltb→lt r n above) in
          moved
          ∙ rw (test, above) (ap (pixel f f.mem (c * f.glyph_w + dx)) next)
          ∙ painted (r + 1) c dx dy inside hc hx hy
          ∙ rw above (ap (λ ch. cell_color f (blank (r + 1) c) ch dx dy) (sym from))
      | inr last ↦
          let none : (scrolled f).screen_buf r c ≡ 0 = text ∙ rw (same, last) refl in
          moved ∙ rw (test, last) (ap (λ ch. cell_color f 0 ch dx dy) (sym none))
    ]

pub scrolled-ByteText : (f : Fb) → Fits f → ByteText f → ByteText (scrolled f)
scrolled-ByteText f fits text r c hr hc =
    rw (whole_text f r c fits hr hc) (elim (Bool-cases (ltb (r + 1) f.rows)) [
      | inl above ↦ rw above (text (r + 1) c (ltb→lt (r + 1) f.rows above) hc)
      | inr last ↦ rw last (omega arith)
    ])

-- On a framebuffer of packed 32-bit pixels, in rows of whole 64-bit words and a memory of bytes, that
-- the cells lie in, and whose text fits `screen_buf`, `fb_scroll` moves every row of pixels up by the
-- height of a character and makes the last row of characters black. The text moves up by a row, the
-- last row is blank, and the cursor is in it.
pub fb_scroll_lem :
    (f : Fb)
    → Fits f
    → Packed f
    → f.pitch % 8 ≡ 0
    → IsBytes f.mem
    → f.rows * f.glyph_h ≤ f.height
    → (g : Fb) × (fb_scroll f ≡ some g)
      × ((x y : ℕ)
          → x < f.width
          → y < f.rows * f.glyph_h
          → pixel f g.mem x y ≡ (
              if ltb (y + f.glyph_h) (f.rows * f.glyph_h)
              then pixel f f.mem x (y + f.glyph_h)
              else 0))
      × ((r c : ℕ)
          → r < f.rows
          → c < f.cols
          → g.screen_buf r c ≡ (if ltb (r + 1) f.rows then f.screen_buf (r + 1) c else 0))
      × (g.cur_row + 1 ≡ f.rows)
unfolding fb_scroll
fb_scroll_lem f fits packed align bytes high =
    let n = f.rows - 1 in
    let rows : f.rows ≡ suc n = omega (arith, fits) in
    let size : f.rows * f.glyph_h ≡ n * f.glyph_h + f.glyph_h =
      ap (λ (k : ℕ). k * f.glyph_h) rows ∙ omega arith in
    (
      scrolled f,
      rw (beq_of_ne f.rows 0 (omega arith)) refl,
      (λ x y hx hy.
          let same : ltb (y + f.glyph_h) (f.rows * f.glyph_h) ≡ ltb y (n * f.glyph_h) =
            ground arith in
          shift_pixels-pixel f n x y packed align bytes rows high hx hy ∙ rw same refl),
      (λ r c hr hc. whole_text f r c fits hr hc),
      omega arith,
    )
