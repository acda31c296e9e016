-- ===== src/Fb/Pixels.antt =====
-- The pixels that drawing changes.
use jordan_os.Base.{
  ℕ, zero, suc, ◌+◌, ◌-◌, ◌*◌, ◌/◌, ◌^◌, ◌<◌, ◌≤◌, ◌≡◌, ◌⊎◌, refl, ap, ◌∙◌, arith, inl, inr, Bool,
  true, false, Bool-cases, u32, u8, zero, suc, ◌%◌, bit_and, ltb, leb, ◌==◌, ◌&&◌, if◌then◌else◌,
  ltb→lt, ltb→le,
}
use native.Mathlib.Nat.{div-lt_iff_lt-mul}
use jordan_os.Base.Bits.{bit_at, bit_at-le, bit_and-pow}
use jordan_os.Mem.{Mem}
use jordan_os.Fb.{Fb}
use jordan_os.Fb.Font.{font_glyphs}
use jordan_os.Fb.Draw.{for_upto, pixel_at, fb_draw_pixel, glyph_pixel, fb_draw_char}
use jordan_os.Fb.Boxes.{
  load32-store32, load32-store32_apart, color_whole, Packed, pixel, row_below, span_grows,
  box_grows, span_zero, box_zero,
}

module _ (f : Fb) (packed : Packed f) where
  pub pixel_at-packed :
      (x y : ℕ) → x < f.width → y < f.height → pixel_at f x y ≡ f.addr + y * f.pitch + 4 * x
  pixel_at-packed x y hx hy =
      let (bpp, wide, whole, _) = packed in
      let four : f.bpp / 8 ≡ 4 = omega (arith, bpp) in
      let inside = row_below f.pitch y f.height hy in
      let row : u32 (y * f.pitch) ≡ y * f.pitch = omega arith in
      let col : u32 (x * 4) ≡ 4 * x = omega arith in rw (four, row, col) refl

  pixel_at-apart :
      (x y x' y' : ℕ)
      → x < f.width
      → y < f.height
      → x' < f.width
      → y' < f.height
      → ((x' == x) && (y' == y)) ≡ false
      → (pixel_at f x y + 4 ≤ pixel_at f x' y') ⊎ (pixel_at f x' y' + 4 ≤ pixel_at f x y)
  pixel_at-apart x y x' y' hx hy hx' hy' ne =
      rw (pixel_at-packed x y hx hy, pixel_at-packed x' y' hx' hy')
        (elim (Bool-cases (ltb y y')) [
          | inl lt ↦ inl (omega (arith, packed, row_below f.pitch y y' (ltb→lt y y' lt)))
          | inr ge ↦ elim (Bool-cases (ltb y' y)) [
            | inl lt ↦ inr (omega (arith, packed, row_below f.pitch y' y (ltb→lt y' y lt)))
            | inr le ↦
                let same : y' ≡ y = omega (arith, ltb→le y y' ge, ltb→le y' y le) in
                let rows : y' * f.pitch ≡ y * f.pitch = ap (λ (k : ℕ). k * f.pitch) same in
                elim (Bool-cases (ltb x x')) [
                  | inl lt ↦ inl (omega (arith, rows, ltb→lt x x' lt))
                  | inr ge' ↦ inr (ground (arith, rows, same))
                ]
          ]
        ])

  -- One pixel is drawn.
  fb_draw_pixel_lem :
      (x y color x' y' : ℕ) (m : Mem)
      → color < 2 ^ 24
      → x < f.width
      → y < f.height
      → x' < f.width
      → y' < f.height
      → pixel f (fb_draw_pixel f x y color m) x' y'
        ≡ (if (x' == x) && (y' == y) then color else pixel f m x' y')
  unfolding fb_draw_pixel
  fb_draw_pixel_lem x y color x' y' m small hx hy hx' hy' =
      rw (color_whole color small) (elim (Bool-cases ((x' == x) && (y' == y))) [
        | inl here ↦
            let ex : x' ≡ x = ground arith in
            let ey : y' ≡ y = ground arith in
            rw (here, ex, ey) (load32-store32 m (pixel_at f x y) color (omega arith))
        | inr other ↦ rw other (
            load32-store32_apart m (pixel_at f x y) (pixel_at f x' y') color
              (pixel_at-apart x y x' y' hx hy hx' hy' other))
      ])

  row_drawn :
      (n px py dy : ℕ) (c : ℕ → ℕ → ℕ) (m : Mem) (x y : ℕ)
      → ((i j : ℕ) → c i j < 2 ^ 24)
      → px + n ≤ f.width
      → py + dy < f.height
      → x < f.width
      → y < f.height
      → pixel f (for_upto n (λ dx. fb_draw_pixel f (u32 (px + dx)) (u32 (py + dy)) (c dx dy)) m) x y
        ≡ (if leb px x && ltb x (px + n) && (y == py + dy) then c (x - px) dy else pixel f m x y)
  unfolding for_upto
  row_drawn zero px py dy c m x y small hp hq hx hy =
      span_zero px x (pixel f m x y) (c (x - px) dy) (y == py + dy)
  row_drawn (suc n) px py dy c m x y small hp hq hx hy =
      let before = for_upto n (λ dx. fb_draw_pixel f (u32 (px + dx)) (u32 (py + dy)) (c dx dy)) m in
      let rest = row_drawn n px py dy c m x y small (omega arith) hq hx hy in
      let inside = row_below f.pitch y f.height hy in
      let px' : u32 (px + n) ≡ px + n = omega (arith, packed) in
      let py' : u32 (py + dy) ≡ py + dy = omega (arith, packed) in
      span_grows (λ i. c i dy) n px (py + dy) x y (pixel f m x y) (pixel f before x y) _
        (u32 (px + n)) (u32 (py + dy)) px' py' rest
        (fb_draw_pixel_lem (u32 (px + n)) (u32 (py + dy)) (c n dy) x y before (small n dy)
          (omega (arith, px')) (omega (arith, py')) hx hy)

  pub box_drawn :
      (k n px py : ℕ) (c : ℕ → ℕ → ℕ) (m : Mem) (x y : ℕ)
      → ((i j : ℕ) → c i j < 2 ^ 24)
      → px + n ≤ f.width
      → py + k ≤ f.height
      → x < f.width
      → y < f.height
      → pixel f
          (for_upto k
            (λ dy. for_upto n (λ dx. fb_draw_pixel f (u32 (px + dx)) (u32 (py + dy)) (c dx dy)))
            m)
          x
          y
        ≡ (if leb px x && ltb x (px + n) && (leb py y && ltb y (py + k))
            then c (x - px) (y - py)
            else pixel f m x y)
  unfolding for_upto
  box_drawn zero n px py c m x y small hp hq hx hy =
      box_zero px n py x y (pixel f m x y) (c (x - px) (y - py))
  box_drawn (suc k) n px py c m x y small hp hq hx hy =
      let before =
        for_upto k
          (λ dy. for_upto n (λ dx. fb_draw_pixel f (u32 (px + dx)) (u32 (py + dy)) (c dx dy))) m in
      box_grows c n k px py x y (pixel f m x y) (pixel f before x y) _
        (box_drawn k n px py c m x y small hp (omega arith) hx hy)
        (row_drawn n px py k c before x y small hp (omega arith) hx hy)

-- Whether a character's glyph has ink in a column, from the left, and a row, from the top: the left
-- column is the highest of the row's eight bits.
abbrev pub has_ink : ℕ → ℕ → ℕ → Bool
has_ink ch col row = bit_at (7 - col) (font_glyphs (16 * ch + row)) == 1

-- The color that the glyph of 8 by 16 has in a pixel of a cell, stretched to the cell's width and
-- height; the products have 32 bits.
abbrev pub glyph_color : Fb → ℕ → ℕ → ℕ → ℕ → ℕ → ℕ
glyph_color f ch fg bg dx dy =
    if has_ink (ch % 256) (u32 (8 * dx) / f.glyph_w) (u32 (16 * dy) / f.glyph_h) then fg else bg

-- The mask of a column finds its bit.
mask-column :
    (col bits fg bg : ℕ)
    → col < 8
    → (if bit_and bits (0x80 / 2 ^ col) == 0 then bg else fg)
      ≡ (if bit_at (7 - col) bits == 1 then fg else bg)
mask-column zero bits fg bg h = rw (bit_and-pow 7 bits) (ground (arith, bit_at-le 7 bits))
mask-column (suc zero) bits fg bg h = rw (bit_and-pow 6 bits) (ground (arith, bit_at-le 6 bits))
mask-column (suc (suc zero)) bits fg bg h =
    rw (bit_and-pow 5 bits) (ground (arith, bit_at-le 5 bits))
mask-column (suc (suc (suc zero))) bits fg bg h =
    rw (bit_and-pow 4 bits) (ground (arith, bit_at-le 4 bits))
mask-column (suc (suc (suc (suc zero)))) bits fg bg h =
    rw (bit_and-pow 3 bits) (ground (arith, bit_at-le 3 bits))
mask-column (suc (suc (suc (suc (suc zero))))) bits fg bg h =
    rw (bit_and-pow 2 bits) (ground (arith, bit_at-le 2 bits))
mask-column (suc (suc (suc (suc (suc (suc zero)))))) bits fg bg h =
    rw (bit_and-pow 1 bits) (ground (arith, bit_at-le 1 bits))
mask-column (suc (suc (suc (suc (suc (suc (suc zero))))))) bits fg bg h =
    rw (bit_and-pow 0 bits) (ground (arith, bit_at-le 0 bits))
mask-column (suc (suc (suc (suc (suc (suc (suc (suc col)))))))) bits fg bg h = absurd (omega arith)

-- In a cell the source computes that color.
pub glyph_pixel-color :
    (f : Fb) (ch fg bg dx dy : ℕ)
    → dx < f.glyph_w
    → glyph_pixel f ch fg bg dx dy ≡ glyph_color f ch fg bg dx dy
glyph_pixel-color f ch fg bg dx dy h =
    let across : dx * 8 ≡ 8 * dx = omega arith in
    let down : dy * 16 ≡ 16 * dy = omega arith in
    let place : (n : ℕ) → u8 ch * 16 + n ≡ 16 * (ch % 256) + n = λ n. omega arith in
    let inside : u32 (8 * dx) / f.glyph_w < 8 =
      (div-lt_iff_lt-mul {k = f.glyph_w} (omega arith)).1 (omega arith) in
    rw (across, down, place (u32 (16 * dy) / f.glyph_h))
      (mask-column (u32 (8 * dx) / f.glyph_w) _ fg bg inside)

pub glyph_pixel-small :
    (f : Fb) (ch fg bg dx dy : ℕ)
    → fg < 2 ^ 24
    → bg < 2 ^ 24
    → glyph_pixel f ch fg bg dx dy < 2 ^ 24
glyph_pixel-small f ch fg bg dx dy hf hb = pick _ fg bg hf hb
  where
    pick : (test : Bool) (a b : ℕ) → a < 2 ^ 24 → b < 2 ^ 24 → (if test then b else a) < 2 ^ 24
    pick true a b ha hb = hb
    pick false a b ha hb = ha

in_box :
    (test : Bool) (inside here old : ℕ)
    → (test ≡ true → inside ≡ here)
    → (if test then inside else old) ≡ (if test then here else old)
in_box true inside here old same = same refl
in_box false inside here old same = refl

pub fb_draw_char-mem :
    (f : Fb) (col row ch fg bg : ℕ)
    → (fb_draw_char col row ch fg bg f).mem
      ≡ for_upto f.glyph_h
          (λ dy. for_upto f.glyph_w (λ dx.
            fb_draw_pixel f
              (u32 (u32 (col * f.glyph_w) + dx))
              (u32 (u32 (row * f.glyph_h) + dy))
              (glyph_pixel f ch fg bg dx dy)))
          f.mem
unfolding fb_draw_char
fb_draw_char-mem f col row ch fg bg = elim (Bool-cases (ltb col 128 && ltb row 64)) [
  | inl kept ↦ rw kept refl
  | inr beyond ↦ rw beyond refl
]

-- On a framebuffer of packed 32-bit pixels, for a cell inside it and colors of 24 bits,
-- `fb_draw_char` gives each pixel of the cell the first color if the character's glyph, scaled to the
-- cell, has ink there, and the second one if not, and every other pixel of the screen keeps its color.
pub fb_draw_char-pixel :
    (f : Fb) (col row ch fg bg x y : ℕ)
    → Packed f
    → fg < 2 ^ 24
    → bg < 2 ^ 24
    → (col + 1) * f.glyph_w ≤ f.width
    → (row + 1) * f.glyph_h ≤ f.height
    → x < f.width
    → y < f.height
    → pixel f (fb_draw_char col row ch fg bg f).mem x y ≡ (
        if leb (col * f.glyph_w) x
          && ltb x (col * f.glyph_w + f.glyph_w)
          && (leb (row * f.glyph_h) y && ltb y (row * f.glyph_h + f.glyph_h))
        then glyph_color f ch fg bg (x - col * f.glyph_w) (y - row * f.glyph_h)
        else pixel f f.mem x y)
fb_draw_char-pixel f col row ch fg bg x y packed hf hb hc hr hx hy =
    let inside = row_below f.pitch y f.height hy in
    let px : u32 (col * f.glyph_w) ≡ col * f.glyph_w = omega (arith, packed) in
    let py : u32 (row * f.glyph_h) ≡ row * f.glyph_h = omega (arith, packed) in
    ap (λ m. pixel f m x y) (fb_draw_char-mem f col row ch fg bg)
    ∙ rw (px, py)
        (box_drawn f packed f.glyph_h f.glyph_w (col * f.glyph_w) (row * f.glyph_h)
          (glyph_pixel f ch fg bg) f.mem x y (λ i j. glyph_pixel-small f ch fg bg i j hf hb)
          (omega arith) (omega arith) hx hy)
    ∙ in_box
        (leb (col * f.glyph_w) x
          && ltb x (col * f.glyph_w + f.glyph_w)
          && (leb (row * f.glyph_h) y && ltb y (row * f.glyph_h + f.glyph_h)))
        (glyph_pixel f ch fg bg (x - col * f.glyph_w) (y - row * f.glyph_h))
        (glyph_color f ch fg bg (x - col * f.glyph_w) (y - row * f.glyph_h)) (pixel f f.mem x y)
        λ hit.
          glyph_pixel-color f ch fg bg (x - col * f.glyph_w) (y - row * f.glyph_h)
            (ground (arith, hit))
