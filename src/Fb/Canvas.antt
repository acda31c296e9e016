-- ===== src/Fb/Canvas.antt =====
-- The cursor (kernel/fb.c) on a screen whose pixels show the text.
use jordan_os.Base.{
  ℕ, ◌^◌, ◌<◌, ◌≤◌, ◌≡◌, refl, ◌∙◌, arith, inl, inr, Bool-cases, ltb, ◌==◌, ◌&&◌, if◌then◌else◌,
  ltb→lt, ltb→le, lt→ltb, beq_of_ne,
}
use jordan_os.Mem.{Mem}
use jordan_os.Fb.{Fb}
use jordan_os.Fb.Draw.{write2, fb_fill_cell, fb_draw_cursor, fb_erase_cursor}
use jordan_os.Fb.Tape.{Fits}
use jordan_os.Fb.Moved.{IsBytes}
use jordan_os.Fb.Cells.{fb_fill_cell-cell}
use jordan_os.Fb.Picture.{Painted, Lit, Behind, Canvas, fb_fill_cell-IsBytes}

-- A screen with this memory alone.
abbrev pub recolored : Mem → Fb → Fb
recolored m f = record f { mem = m }

fb_fill_cell-recolored :
    (f : Fb) (col row color : ℕ)
    → fb_fill_cell col row color f ≡ recolored (fb_fill_cell col row color f).mem f
unfolding fb_fill_cell
fb_fill_cell-recolored f col row color = refl

-- The cursor's cell is filled on a screen on which it is.
fill-Lit :
    (f : Fb) (old color : ℕ) (blank : ℕ → ℕ → ℕ)
    → Canvas f
    → Lit old blank f
    → color < 2 ^ 24
    → f.cur_row < f.rows
    → f.cur_col < f.cols
    → Lit color blank (recolored (fb_fill_cell f.cur_col f.cur_row color f).mem f)
fill-Lit f old color blank (framed, align, bytes) lit small on inside r c dx dy hr hc hx hy =
    let drawn =
      fb_fill_cell-cell f f.cur_col f.cur_row color r c dx dy framed small inside on hr hc hx hy in
    elim (Bool-cases ((r == f.cur_row) && (c == f.cur_col))) [
      | inl here ↦ rw here (drawn ∙ rw here refl)
      | inr other ↦ rw other (drawn ∙ rw other (lit r c dx dy hr hc hx hy ∙ rw other refl))
    ]

-- Without a cursor on the screen its color makes no difference.
Lit-hidden :
    (f : Fb) (old color : ℕ) (blank : ℕ → ℕ → ℕ)
    → f.rows ≤ f.cur_row
    → Lit old blank f
    → Lit color blank f
Lit-hidden f old color blank off lit r c dx dy hr hc hx hy =
    let away = beq_of_ne r f.cur_row (omega arith) in lit r c dx dy hr hc hx hy ∙ rw away refl

-- A cursor of a color without text cannot be seen, since there is no text where it is.
pub Lit-Painted :
    (f : Fb) (color : ℕ) (blank : ℕ → ℕ → ℕ)
    → Behind f
    → Lit color blank f
    → Painted (write2 blank f.cur_row f.cur_col color) f
unfolding write2
Lit-Painted f color blank behind lit r c dx dy hr hc hx hy =
    elim (Bool-cases ((r == f.cur_row) && (c == f.cur_col))) [
      | inr other ↦ lit r c dx dy hr hc hx hy ∙ rw other refl
      | inl here ↦
          let row : r ≡ f.cur_row = ground arith in
          let col : c ≡ f.cur_col = ground arith in
          lit r c dx dy hr hc hx hy ∙ rw (here, behind r c hr hc (inr (row, omega arith))) refl
    ]

pub Painted-Lit :
    (f : Fb) (blank : ℕ → ℕ → ℕ)
    → Behind f
    → Painted blank f
    → Lit (blank f.cur_row f.cur_col) blank f
Painted-Lit f blank behind painted r c dx dy hr hc hx hy =
    elim (Bool-cases ((r == f.cur_row) && (c == f.cur_col))) [
      | inr other ↦ painted r c dx dy hr hc hx hy ∙ rw other refl
      | inl here ↦
          let row : r ≡ f.cur_row = ground arith in
          let col : c ≡ f.cur_col = ground arith in
          painted r c dx dy hr hc hx hy
          ∙ rw (here, behind r c hr hc (inr (row, omega arith))) (rw (row, col) refl)
    ]

-- A run that changes the pixels alone.
abbrev pub Recolors : (Fb → Type 0) → Fb → Fb → Type 0
Recolors P f g = (m : Mem) × (g ≡ recolored m f) × P (recolored m f) × IsBytes m

-- A run that gives the cursor's cell a color, if it is on the screen, and changes nothing else.
abbrev pub Fills : ℕ → Fb → Fb → Type 0
Fills color f g =
    (m : Mem) × (g ≡ recolored m f)
    × ((old : ℕ) (blank : ℕ → ℕ → ℕ) → Lit old blank f → Lit color blank (recolored m f))
    × IsBytes m

blink :
    (f : Fb) (color : ℕ)
    → Fits f
    → Canvas f
    → color < 2 ^ 24
    → Fills color f (
        if ltb f.cur_col f.cols && ltb f.cur_row f.rows
        then fb_fill_cell f.cur_col f.cur_row color f
        else f)
blink f color (_, _, _, _, inside, _) (framed, align, bytes) small =
    elim (Bool-cases (ltb f.cur_row f.rows)) [
      | inl on ↦
          rw (lt→ltb f.cur_col f.cols inside, on)
            (
              (fb_fill_cell f.cur_col f.cur_row color f).mem,
              fb_fill_cell-recolored f f.cur_col f.cur_row color,
              (λ old blank lit.
                  fill-Lit f old color blank (framed, align, bytes) lit small
                    (ltb→lt f.cur_row f.rows on) inside),
              fb_fill_cell-IsBytes f.cur_col f.cur_row color f bytes,
            )
      | inr off ↦
          rw (lt→ltb f.cur_col f.cols inside, off)
            (
              f.mem,
              refl,
              (λ old blank lit. Lit-hidden f old color blank (ltb→le f.cur_row f.rows off) lit),
              bytes,
            )
    ]

pub fb_draw_cursor-Fills : (f : Fb) → Fits f → Canvas f → Fills f.theme_fg f (fb_draw_cursor f)
unfolding fb_draw_cursor
fb_draw_cursor-Fills f fits canvas = blink f f.theme_fg fits canvas canvas.0.3

pub fb_erase_cursor-Fills : (f : Fb) → Fits f → Canvas f → Fills f.theme_bg f (fb_erase_cursor f)
unfolding fb_erase_cursor
fb_erase_cursor-Fills f fits canvas = blink f f.theme_bg fits canvas canvas.0.4
