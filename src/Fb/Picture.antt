-- ===== src/Fb/Picture.antt =====
-- Screens whose pixels show the text, and characters drawn (kernel/fb.c) on them.
use jordan_os.Base.{
  ℕ, ◌+◌, ◌%◌, ◌<◌, ◌≤◌, ◌≡◌, ◌⊎◌, refl, ◌∙◌, arith, inl, inr, Bool-cases, u8, ltb, ◌==◌, ◌&&◌,
  if◌then◌else◌, lt→ltb, beq_of_ne,
}
use jordan_os.Mem.{Mem, write, store32, store64}
use jordan_os.Fb.{Fb}
use jordan_os.Fb.Draw.{fb_draw_pixel, fb_fill_cell, fb_draw_char, glyph_pixel, write2}
use jordan_os.Fb.Loops.{for_upto-keeps}
use jordan_os.Fb.Tape.{Fits}
use jordan_os.Fb.Moved.{IsBytes}
use jordan_os.Fb.Pixels.{glyph_color}
use jordan_os.Fb.Cells.{Framed, at_cell, fb_draw_char-cell}

-- What a cell with a character looks like; a cell without one has this color.
abbrev pub cell_color : Fb → ℕ → ℕ → ℕ → ℕ → ℕ
cell_color f blank ch dx dy =
    if ch == 0 then blank else glyph_color f ch f.theme_fg f.theme_bg dx dy

-- Every cell shows its character; a cell without one has its color of these.
abbrev pub Painted : (ℕ → ℕ → ℕ) → Fb → Type 0
Painted blank f =
    (r c dx dy : ℕ)
    → r < f.rows
    → c < f.cols
    → dx < f.glyph_w
    → dy < f.glyph_h
    → at_cell f f.mem r c dx dy ≡ cell_color f (blank r c) (f.screen_buf r c) dx dy

-- Every cell shows its character, but the cursor's cell has this color.
abbrev pub Lit : ℕ → (ℕ → ℕ → ℕ) → Fb → Type 0
Lit color blank f =
    (r c dx dy : ℕ)
    → r < f.rows
    → c < f.cols
    → dx < f.glyph_w
    → dy < f.glyph_h
    → at_cell f f.mem r c dx dy ≡ (
        if (r == f.cur_row) && (c == f.cur_col)
        then color
        else cell_color f (blank r c) (f.screen_buf r c) dx dy)

-- The background's color, or black.
abbrev pub Dark : ℕ → ℕ → Type 0
Dark bg color = (color ≡ bg) ⊎ (color ≡ 0)

abbrev pub Shades : ℕ → (ℕ → ℕ → ℕ) → Type 0
Shades bg blank = (r c : ℕ) → Dark bg (blank r c)

pub write2-Shades :
    (bg : ℕ) (blank : ℕ → ℕ → ℕ) (row col : ℕ)
    → Shades bg blank
    → Shades bg (write2 blank row col bg)
unfolding write2
write2-Shades bg blank row col shades r c = elim (Bool-cases ((r == row) && (c == col))) [
  | inl here ↦ rw here (inl refl)
  | inr other ↦ rw other (shades r c)
]

-- From the cursor on there is no text.
abbrev pub Behind : Fb → Type 0
Behind f =
    (r c : ℕ)
    → r < f.rows
    → c < f.cols
    → (f.cur_row < r) ⊎ ((r ≡ f.cur_row) × (f.cur_col ≤ c))
    → f.screen_buf r c ≡ 0

-- The text is bytes.
abbrev pub ByteText : Fb → Type 0
ByteText f = (r c : ℕ) → r < f.rows → c < f.cols → f.screen_buf r c < 256

-- A framebuffer in a memory of bytes, whose rows are whole 64-bit words.
abbrev pub Canvas : Fb → Type 0
Canvas f = Framed f × (f.pitch % 8 ≡ 0) × IsBytes f.mem

pub store32-IsBytes : (m : Mem) (a v : ℕ) → IsBytes m → IsBytes (store32 m a v)
unfolding store32 write
store32-IsBytes m a v bytes b = ground (arith, bytes b)

pub store64-IsBytes : (m : Mem) (a v : ℕ) → IsBytes m → IsBytes (store64 m a v)
unfolding store64
store64-IsBytes m a v bytes = store32-IsBytes _ (a + 4) _ (store32-IsBytes m a _ bytes)

fb_draw_pixel-IsBytes :
    (f : Fb) (x y color : ℕ) (m : Mem) → IsBytes m → IsBytes (fb_draw_pixel f x y color m)
unfolding fb_draw_pixel
fb_draw_pixel-IsBytes f x y color m bytes = store32-IsBytes m _ _ bytes

pub fb_fill_cell-IsBytes :
    (col row color : ℕ) (f : Fb) → IsBytes f.mem → IsBytes (fb_fill_cell col row color f).mem
unfolding fb_fill_cell
fb_fill_cell-IsBytes col row color f bytes =
    for_upto-keeps IsBytes f.glyph_h _ f.mem
      (λ j m h.
        for_upto-keeps IsBytes f.glyph_w _ m (λ i n g. fb_draw_pixel-IsBytes f _ _ color n g) h)
      bytes

pub fb_draw_char-IsBytes :
    (col row ch fg bg : ℕ) (f : Fb) → IsBytes f.mem → IsBytes (fb_draw_char col row ch fg bg f).mem
unfolding fb_draw_char
fb_draw_char-IsBytes col row ch fg bg f bytes =
    let drawn =
      for_upto-keeps IsBytes f.glyph_h _ f.mem
        (λ j m h.
          for_upto-keeps IsBytes f.glyph_w _ m
            (λ i n g. fb_draw_pixel-IsBytes f _ _ (glyph_pixel f ch fg bg i j) n g) h)
        bytes in
    elim (Bool-cases (ltb col 128 && ltb row 64)) [
      | inl kept ↦ rw kept drawn
      | inr beyond ↦ rw beyond drawn
    ]

-- A screen with this memory and this character in a cell.
abbrev pub inked : ℕ → ℕ → ℕ → Mem → Fb → Fb
inked col row ch m f = record f { mem = m; screen_buf = write2 f.screen_buf row col ch }

pub inked-ByteText :
    (f : Fb) (col row ch : ℕ) (m : Mem) → ByteText f → ch < 256 → ByteText (inked col row ch m f)
unfolding write2
inked-ByteText f col row ch m text small r c hr hc = ground (arith, text r c hr hc)

pub inked-Painted :
    (f : Fb) (blank : ℕ → ℕ → ℕ) (col row ch : ℕ) (m : Mem)
    → Painted blank f
    → ((r c dx dy : ℕ)
        → r < f.rows
        → c < f.cols
        → dx < f.glyph_w
        → dy < f.glyph_h
        → at_cell f m r c dx dy ≡ (
            if (r == row) && (c == col)
            then cell_color f f.theme_bg ch dx dy
            else at_cell f f.mem r c dx dy))
    → Painted (write2 blank row col f.theme_bg) (inked col row ch m f)
unfolding write2
inked-Painted f blank col row ch m painted drawn r c dx dy hr hc hx hy =
    elim (Bool-cases ((r == row) && (c == col))) [
      | inl here ↦ drawn r c dx dy hr hc hx hy ∙ rw here refl
      | inr other ↦ drawn r c dx dy hr hc hx hy ∙ rw other (painted r c dx dy hr hc hx hy)
    ]

pub fb_draw_char-inked :
    (f : Fb) (col row ch fg bg : ℕ)
    → col < 128
    → row < 64
    → ch < 256
    → fb_draw_char col row ch fg bg f ≡ inked col row ch (fb_draw_char col row ch fg bg f).mem f
unfolding fb_draw_char
fb_draw_char-inked f col row ch fg bg hc hr small =
    let byte : u8 ch ≡ ch = omega arith in rw (lt→ltb col 128 hc, lt→ltb row 64 hr, byte) refl

-- Character `ch` is drawn at a cell in the theme's colors.
pub fb_draw_char-Painted :
    (f : Fb) (col row ch : ℕ)
    → Fits f
    → Canvas f
    → row < f.rows
    → col < f.cols
    → (0 < ch) × (ch < 256)
    → let m = (fb_draw_char col row ch f.theme_fg f.theme_bg f).mem in
      (fb_draw_char col row ch f.theme_fg f.theme_bg f ≡ inked col row ch m f)
      × ((blank : ℕ → ℕ → ℕ)
          → Painted blank f
          → Painted (write2 blank row col f.theme_bg) (inked col row ch m f))
      × IsBytes m
fb_draw_char-Painted f col row ch (c0, c1, r0, r1, _, _) (framed, align, bytes) hr hc (pos, small) =
    let (_, _, _, hf, hb) = framed in
    let some_char = beq_of_ne ch 0 (omega arith) in
    (
      fb_draw_char-inked f col row ch f.theme_fg f.theme_bg (omega arith) (omega arith) small,
      (λ blank painted.
          inked-Painted f blank col row ch (fb_draw_char col row ch f.theme_fg f.theme_bg f).mem
            painted
            λ r c dx dy hr' hc' hx hy. rw some_char (
              fb_draw_char-cell f col row ch f.theme_fg f.theme_bg r c dx dy framed hf hb hc hr hr'
                hc' hx hy)),
      fb_draw_char-IsBytes col row ch f.theme_fg f.theme_bg f bytes,
    )
