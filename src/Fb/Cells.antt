-- ===== src/Fb/Cells.antt =====
-- The pixels of a screen, cell by cell, and what drawing a character or filling a cell (kernel/fb.c)
-- does to them.
use jordan_os.Base.{
  ℕ, ◌+◌, ◌-◌, ◌*◌, ◌^◌, ◌<◌, ◌≤◌, ◌≡◌, refl, ap, ◌∙◌, arith, inl, inr, Bool, true, false,
  Bool-cases, u32, ltb, leb, ◌==◌, ◌&&◌, if◌then◌else◌, ltb→lt, ltb→le,
}
use jordan_os.Mem.{Mem}
use jordan_os.Fb.{Fb}
use jordan_os.Fb.Draw.{for_upto, fb_draw_pixel, fb_fill_cell, glyph_pixel, fb_draw_char}
use jordan_os.Fb.Boxes.{Packed, pixel, row_below}
use jordan_os.Fb.Pixels.{
  box_drawn, glyph_pixel-small, glyph_color, glyph_pixel-color, fb_draw_char-mem,
}

-- A framebuffer that the grid of cells lies in, and colors of 24 bits.
abbrev pub Framed : Fb → Type 0
Framed f =
    Packed f
    × (f.cols * f.glyph_w ≤ f.width)
    × (f.rows * f.glyph_h ≤ f.height)
    × (f.theme_fg < 2 ^ 24)
    × (f.theme_bg < 2 ^ 24)

-- The color of a pixel of a cell.
abbrev pub at_cell : Fb → Mem → ℕ → ℕ → ℕ → ℕ → ℕ
at_cell f m r c dx dy = pixel f m (c * f.glyph_w + dx) (r * f.glyph_h + dy)

span_test :
    (n c col d : ℕ)
    → d < n
    → (leb (col * n) (c * n + d) && ltb (c * n + d) (col * n + n)) ≡ (c == col)
span_test n c col d h = elim (Bool-cases (ltb c col)) [
  | inl lt ↦ ground (arith, row_below n c col (ltb→lt c col lt), ltb→lt c col lt)
  | inr ge ↦ elim (Bool-cases (ltb col c)) [
    | inl lt ↦ ground (arith, row_below n col c (ltb→lt col c lt), ltb→lt col c lt)
    | inr le ↦
        let same : c ≡ col = omega (arith, ltb→le c col ge, ltb→le col c le) in
        rw same (ground arith)
  ]
]

pub cell_below : (n c cols d width : ℕ) → d < n → c < cols → cols * n ≤ width → c * n + d < width
cell_below n c cols d width hd hc h = omega (arith, row_below n c cols hc)

-- The color in a box, by the test for the cell.
pick :
    (left right top bottom in_row in_col : Bool) (inside here old : ℕ)
    → (left && right) ≡ in_col
    → (top && bottom) ≡ in_row
    → ((in_row && in_col) ≡ true → inside ≡ here)
    → (if left && right && (top && bottom) then inside else old)
      ≡ (if in_row && in_col then here else old)
pick left right top bottom true true inside here old a b same = ground (arith, same refl)
pick left right top bottom true false inside here old a b same = ground arith
pick left right top bottom false in_col inside here old a b same = ground arith

box_cell :
    (f : Fb) (col row : ℕ) (colors : ℕ → ℕ → ℕ) (m : Mem) (r c dx dy : ℕ)
    → Framed f
    → ((i j : ℕ) → colors i j < 2 ^ 24)
    → col < f.cols
    → row < f.rows
    → r < f.rows
    → c < f.cols
    → dx < f.glyph_w
    → dy < f.glyph_h
    → at_cell f
        (for_upto f.glyph_h
          (λ j. for_upto f.glyph_w (λ i.
            fb_draw_pixel f
              (u32 (u32 (col * f.glyph_w) + i))
              (u32 (u32 (row * f.glyph_h) + j))
              (colors i j)))
          m)
        r
        c
        dx
        dy
      ≡ (if (r == row) && (c == col) then colors dx dy else at_cell f m r c dx dy)
box_cell f col row colors m r c dx dy (packed, wide, high, _, _) small hcol hrow hr hc hx hy =
    let right = row_below f.glyph_w col f.cols hcol in
    let low = row_below f.glyph_h row f.rows hrow in
    let x = cell_below f.glyph_w c f.cols dx f.width hx hc wide in
    let y = cell_below f.glyph_h r f.rows dy f.height hy hr high in
    let inside = row_below f.pitch (r * f.glyph_h + dy) f.height y in
    let px : u32 (col * f.glyph_w) ≡ col * f.glyph_w = omega (arith, packed) in
    let py : u32 (row * f.glyph_h) ≡ row * f.glyph_h = omega (arith, packed) in
    rw (px, py)
      (box_drawn f packed f.glyph_h f.glyph_w (col * f.glyph_w) (row * f.glyph_h) colors m
          (c * f.glyph_w + dx) (r * f.glyph_h + dy) small (omega arith) (omega arith) x y
        ∙ pick (leb (col * f.glyph_w) (c * f.glyph_w + dx))
            (ltb (c * f.glyph_w + dx) (col * f.glyph_w + f.glyph_w))
            (leb (row * f.glyph_h) (r * f.glyph_h + dy))
            (ltb (r * f.glyph_h + dy) (row * f.glyph_h + f.glyph_h)) (r == row) (c == col) _
            (colors dx dy) (at_cell f m r c dx dy) (span_test f.glyph_w c col dx hx)
            (span_test f.glyph_h r row dy hy)
            λ here.
              let row_same : r ≡ row = ground arith in
              let col_same : c ≡ col = ground arith in
              let ex : col * f.glyph_w + dx - col * f.glyph_w ≡ dx = omega arith in
              let ey : row * f.glyph_h + dy - row * f.glyph_h ≡ dy = omega arith in
              rw (row_same, col_same, ex, ey) refl)

pub fb_draw_char-cell :
    (f : Fb) (col row ch fg bg r c dx dy : ℕ)
    → Framed f
    → fg < 2 ^ 24
    → bg < 2 ^ 24
    → col < f.cols
    → row < f.rows
    → r < f.rows
    → c < f.cols
    → dx < f.glyph_w
    → dy < f.glyph_h
    → at_cell f (fb_draw_char col row ch fg bg f).mem r c dx dy ≡ (
        if (r == row) && (c == col)
        then glyph_color f ch fg bg dx dy
        else at_cell f f.mem r c dx dy)
fb_draw_char-cell f col row ch fg bg r c dx dy framed hf hb hcol hrow hr hc hx hy =
    ap (λ m. at_cell f m r c dx dy) (fb_draw_char-mem f col row ch fg bg)
    ∙ box_cell f col row (glyph_pixel f ch fg bg) f.mem r c dx dy framed
        (λ i j. glyph_pixel-small f ch fg bg i j hf hb) hcol hrow hr hc hx hy
    ∙ ap (λ v. if (r == row) && (c == col) then v else at_cell f f.mem r c dx dy)
        (glyph_pixel-color f ch fg bg dx dy hx)

pub fb_fill_cell-cell :
    (f : Fb) (col row color r c dx dy : ℕ)
    → Framed f
    → color < 2 ^ 24
    → col < f.cols
    → row < f.rows
    → r < f.rows
    → c < f.cols
    → dx < f.glyph_w
    → dy < f.glyph_h
    → at_cell f (fb_fill_cell col row color f).mem r c dx dy
      ≡ (if (r == row) && (c == col) then color else at_cell f f.mem r c dx dy)
unfolding fb_fill_cell
fb_fill_cell-cell f col row color r c dx dy framed small hcol hrow hr hc hx hy =
    box_cell f col row (λ i j. color) f.mem r c dx dy framed (λ i j. small) hcol hrow hr hc hx hy
