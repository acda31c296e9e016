-- ===== src/Fb/Round.antt =====
-- One character of a text on the tape, and the step of the cursor.
use jordan_os.Base.{
  ℕ, ◌+◌, ◌*◌, ◌<◌, ◌≤◌, ◌≡◌, refl, ap, ◌∙◌, arith, leb, inl, inr, Bool-cases, u8, u32, leb→le,
  leb→lt, lt→ltb,
}
use native.Mathlib.Nat.{mul-le-mul_right}
use jordan_os.Mem.{write, write_ne}
use jordan_os.Fb.{Fb}
use jordan_os.Fb.Draw.{write2, fb_draw_char}
use jordan_os.Fb.Print.{advance}
use jordan_os.Fb.Tape.{Fits, Shows, position, cell_inj, le_add}

written-Shows :
    (base : ℕ) (tape : ℕ → ℕ) (f : Fb) (ch r c : ℕ)
    → Fits f
    → f.cur_row < f.rows
    → Shows base tape f
    → r < f.rows
    → c < f.cols
    → write2 f.screen_buf f.cur_row f.cur_col ch r c
      ≡ write tape (position base f) ch ((base + r) * f.cols + c)
unfolding write2 write
written-Shows base tape f ch r c (c0, c1, r0, r1, cc, cr) on (shows, blank) hr hc =
    grind (arith, cell_inj f.cols (base + r) (base + f.cur_row) c f.cur_col hc cc, shows r c hr hc)

-- On the screen `fb_draw_char` changes one cell of the text and, of the rest, only the pixels.
abbrev Drawn : ℕ → Fb → Fb → Type 0
Drawn ch f g =
    (g.screen_buf ≡ write2 f.screen_buf f.cur_row f.cur_col ch)
    × (g.cols ≡ f.cols)
    × (g.rows ≡ f.rows)
    × (g.cur_col ≡ f.cur_col)
    × (g.cur_row ≡ f.cur_row)

pub fb_draw_char-Drawn :
    (f : Fb) (ch fg bg : ℕ)
    → Fits f
    → f.cur_row < f.rows
    → ch < 256
    → Drawn ch f (fb_draw_char f.cur_col f.cur_row ch fg bg f)
unfolding fb_draw_char
fb_draw_char-Drawn f ch fg bg (c0, c1, r0, r1, cc, cr) on small =
    let byte : u8 ch ≡ ch = omega arith in
    rw (lt→ltb f.cur_col 128 (omega arith), lt→ltb f.cur_row 64 (omega arith))
      (ap (write2 f.screen_buf f.cur_row f.cur_col) byte, refl, refl, refl, refl)

-- `advance` moves the cursor one place on.
pub advance_lem :
    (base : ℕ) (g : Fb)
    → Fits g
    → g.cur_row < g.rows
    → Fits (advance g)
      × ((advance g).screen_buf ≡ g.screen_buf)
      × (position base (advance g) ≡ position base g + 1)
      × ((advance g).cols ≡ g.cols)
      × ((advance g).rows ≡ g.rows)
unfolding advance
advance_lem base g (c0, c1, r0, r1, cc, cr) on =
    let step : u32 (g.cur_col + 1) ≡ g.cur_col + 1 = omega arith in
    let down : u32 (g.cur_row + 1) ≡ g.cur_row + 1 = omega arith in
    elim (Bool-cases (leb g.cols (g.cur_col + 1))) [
      | inl end ↦
          rw (step, down, end)
            (
              (c0, c1, r0, r1, omega arith, omega arith),
              refl,
              omega (arith, leb→le g.cols (g.cur_col + 1) end),
              refl,
              refl,
            )
      | inr room ↦
          rw (step, room)
            (
              (c0, c1, r0, r1, omega (arith, leb→lt g.cols (g.cur_col + 1) room), omega arith),
              refl,
              omega arith,
              refl,
              refl,
            )
    ]

in_window :
    (base : ℕ) (f : Fb)
    → f.cur_col < f.cols
    → f.cur_row < f.rows
    → position base f < (base + f.rows) * f.cols
in_window base f inside on =
    omega (arith, mul-le-mul_right f.cols (le_add base (f.cur_row + 1) f.rows (omega arith)))

pub round-Shows :
    (base : ℕ) (tape : ℕ → ℕ) (f g : Fb) (ch : ℕ)
    → Fits f
    → f.cur_row < f.rows
    → Shows base tape f
    → g.screen_buf ≡ write2 f.screen_buf f.cur_row f.cur_col ch
    → g.cols ≡ f.cols
    → g.rows ≡ f.rows
    → Shows base (write tape (position base f) ch) g
round-Shows base tape f g ch (c0, c1, r0, r1, cc, cr) on shown buf cols rows =
    let (shows, blank) = shown in
    (
      λ r c hr hc.
          rw (buf, cols)
            (written-Shows base tape f ch r c (c0, c1, r0, r1, cc, cr) on shown (omega arith)
              (omega arith)),
      λ p h.
          let far : (base + f.rows) * f.cols ≤ p = rw (← rows, ← cols) h in
          write_ne tape (position base f) ch p (omega (arith, in_window base f cc on))
          ∙ blank p far,
    )
