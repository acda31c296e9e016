-- ===== src/Fb/Println.antt =====
-- `fb_println` of kernel/fb.c on the tape that the screen shows.
use jordan_os.Base.{
  ℕ, zero, suc, ◌+◌, ◌-◌, ◌*◌, ◌^◌, ◌<◌, ◌≤◌, ◌≡◌, refl, ap, sym, ◌∙◌, arith, ltb, some, [], ◌∷◌,
  inl, inr, Bool-cases, u8, u32, lt→ltb, ltb→lt, ltb→le, lt→leb, beq_of_ne,
}
use mathlib.Core.Path.{subst₂}
use jordan_os.Mem.{write}
use jordan_os.Str.{Bytes, IsText}
use jordan_os.Str.Copy.{take}
use jordan_os.Fb.{Fb}
use jordan_os.Fb.Draw.{write2, fb_draw_char, fb_draw_cursor, fb_erase_cursor}
use jordan_os.Fb.Print.{write_loop, write_fb, scroll_below, fb_println_color, fb_println}
use jordan_os.Fb.Tape.{Fits, Shows, position, put, cell_inj, scroll_below_lem}
use jordan_os.Fb.Printed.{Same-Shows, fb_erase_cursor-Same, fb_draw_cursor-Same}
use jordan_os.Fb.Round.{round-Shows}

-- A screen with the cursor at another place of it.
abbrev at : ℕ → ℕ → Fb → Fb
at row col f = record f { cur_col = col; cur_row = row }

-- The size and the cursor's place of a screen.
abbrev Kept : Fb → Fb → Type 0
Kept f g = (g.cols ≡ f.cols) × (g.rows ≡ f.rows) × (g.cur_col ≡ f.cur_col) × (g.cur_row ≡ f.cur_row)

fb_draw_char-at :
    (f : Fb) (row col ch fg bg : ℕ)
    → (f.cols ≤ 128) × (f.rows ≤ 64)
    → row < f.rows
    → col < f.cols
    → ch < 256
    → ((fb_draw_char col row ch fg bg f).screen_buf ≡ write2 f.screen_buf row col ch)
      × Kept f (fb_draw_char col row ch fg bg f)
unfolding fb_draw_char
fb_draw_char-at f row col ch fg bg (wide, high) hr hc small =
    let byte : u8 ch ≡ ch = omega arith in
    rw (lt→ltb col 128 (omega arith), lt→ltb row 64 (omega arith))
      (ap (write2 f.screen_buf row col) byte, (refl, refl, refl, refl))

take_nil : (n : ℕ) → take n [] ≡ []
take_nil zero = refl
take_nil (suc n) = refl

write_loop-Shows :
    (text : Bytes) (base : ℕ) (tape : ℕ → ℕ) (f : Fb) (row col fg bg : ℕ)
    → IsText text
    → (f.cols ≤ 128) × (f.rows ≤ 64)
    → row < f.rows
    → col ≤ f.cols
    → Shows base tape f
    → Shows base
        (put ((base + row) * f.cols + col) (take (f.cols - col) text) tape)
        (write_loop text row col fg bg f)
      × Kept f (write_loop text row col fg bg f)
unfolding write_loop put
write_loop-Shows [] base tape f row col fg bg ok size hr hc shown =
    rw (take_nil (f.cols - col)) (shown, (refl, refl, refl, refl))
write_loop-Shows (ch ∷ text) base tape f row col fg bg ((pos, small), ok) (wide, high) hr hc shown =
    elim (Bool-cases (ltb col f.cols)) [
      | inr full ↦
          let none_left : f.cols - col ≡ 0 = omega (arith, ltb→le col f.cols full) in
          rw (full, none_left, beq_of_ne ch 0 (omega arith)) (shown, (refl, refl, refl, refl))
      | inl room ↦
          let lt = ltb→lt col f.cols room in
          let drawn = fb_draw_char col row ch fg bg f in
          let (buf, (cols, rows, ccol, crow)) =
            fb_draw_char-at f row col ch fg bg (wide, high) hr lt small in
          let next : f.cols - col ≡ suc (f.cols - (col + 1)) = omega arith in
          let shown1 =
            round-Shows base tape (at row col f) drawn ch
              (omega arith, wide, omega arith, high, lt, omega arith) hr shown buf cols rows in
          let (shown2, (cols2, rows2, ccol2, crow2)) =
            write_loop-Shows text base (write tape ((base + row) * f.cols + col) ch) drawn row
              (col + 1) fg bg ok (omega (arith, cols), omega (arith, rows)) (omega (arith, rows))
              (omega (arith, cols)) shown1 in
          let here : (base + row) * drawn.cols + (col + 1) ≡ (base + row) * f.cols + col + 1 =
            rw cols (omega arith) in
          let less : drawn.cols - (col + 1) ≡ f.cols - (col + 1) =
            ap (λ (k : ℕ). k - (col + 1)) cols in
          let last = write_loop text row (col + 1) fg bg drawn in
          rw (room, next, beq_of_ne ch 0 (omega arith))
            (
              subst₂
                  (λ p n.
                    Shows base (put p (take n text) (write tape ((base + row) * f.cols + col) ch))
                      last)
                  here less shown2,
              (cols2 ∙ cols, rows2 ∙ rows, ccol2 ∙ ccol, crow2 ∙ crow),
            )
    ]

write_fb-Shows :
    (text : Bytes) (base : ℕ) (tape : ℕ → ℕ) (f : Fb) (fg bg : ℕ)
    → IsText text
    → Fits f
    → f.cur_row < f.rows
    → Shows base tape f
    → Shows base
        (put (position base f) (take (f.cols - f.cur_col) text) tape)
        (write_fb f.cur_row f.cur_col text fg bg f)
      × Kept f (write_fb f.cur_row f.cur_col text fg bg f)
unfolding write_fb
write_fb-Shows text base tape f fg bg ok (c0, c1, r0, r1, inside, cr) on shown =
    rw
      (
        lt→leb (2 ^ 31) f.cur_row (omega arith),
        lt→leb f.rows f.cur_row on,
        lt→leb (2 ^ 31) f.cur_col (omega arith),
        lt→leb f.cols f.cur_col inside,
      )
      (write_loop-Shows text base tape f f.cur_row f.cur_col fg bg ok (c1, r1) on (omega arith)
        shown)

-- The step to the start of the next row, after a screen on which the cursor was at `g`'s place.
newline-Shows :
    (base : ℕ) (tape : ℕ → ℕ) (g w : Fb)
    → Fits g
    → g.cur_row < g.rows
    → Kept g w
    → Shows base tape w
    → (h : Fb) × (base' : ℕ) × (scroll_below
          (record w { cur_col = 0; cur_row = u32 (g.cur_row + 1) })
        ≡ some h)
      × Fits (fb_draw_cursor h)
      × Shows base' tape (fb_draw_cursor h)
      × (position base' (fb_draw_cursor h) ≡ (base + g.cur_row + 1) * g.cols)
newline-Shows base tape g w (c0, c1, r0, r1, inside, cr) on (cols, rows, ccol, crow) shown =
    let down : u32 (g.cur_row + 1) ≡ g.cur_row + 1 = omega arith in
    let next : Fb = record w { cur_col = 0; cur_row = u32 (g.cur_row + 1) } in
    let fits : Fits next = rw (cols, rows, down) (c0, c1, r0, r1, c0, omega arith) in
    let (h, base', up, fits1, _, shown1, same, _, _) = scroll_below_lem base tape next fits shown in
    let (fits2, shown2, at2) =
      Same-Shows base' tape h (fb_draw_cursor h) (fb_draw_cursor-Same h) fits1 shown1 in
    let assoc : base + (g.cur_row + 1) ≡ base + g.cur_row + 1 = omega arith in
    let start : position base next ≡ (base + g.cur_row + 1) * g.cols =
      rw (cols, down, assoc) (omega arith) in
    (h, base', up, fits2, shown2, at2 ∙ same ∙ start)

-- The same place of a tape is in the same row and column.
same_cell :
    (base base' : ℕ) (f g : Fb)
    → Fits f
    → Fits g
    → g.cols ≡ f.cols
    → position base' g ≡ position base f
    → (base' + g.cur_row ≡ base + f.cur_row) × (g.cur_col ≡ f.cur_col)
same_cell base base' f g (c0, c1, r0, r1, inside, cr) (c0', c1', r0', r1', inside', cr') cols same =
    cell_inj f.cols (base' + g.cur_row) (base + f.cur_row) g.cur_col f.cur_col (omega (arith, cols))
      inside (ap (λ (n : ℕ). (base' + g.cur_row) * n + g.cur_col) (sym cols) ∙ same)

-- On a screen of at most 64 rows and 128 columns `fb_println` of a byte string never faults. Seen as
-- a window on an endless tape, the screen shows the tape with as much of the text written from the
-- cursor on as fits in the cursor's row, and the cursor is at the start of the next row.
pub fb_println-Shows :
    (text : Bytes) (base : ℕ) (tape : ℕ → ℕ) (f : Fb)
    → IsText text
    → Fits f
    → Shows base tape f
    → (g : Fb) × (base' : ℕ) × (fb_println text f ≡ some g)
      × Fits g
      × Shows base' (put (position base f) (take (f.cols - f.cur_col) text) tape) g
      × (position base' g ≡ (base + f.cur_row + 1) * f.cols)
unfolding fb_println fb_println_color
fb_println-Shows text base tape f ok fits shown =
    let e = fb_erase_cursor f in
    let (_, ecols, _, _, _) = fb_erase_cursor-Same f in
    let (fits1, shown1, at1) = Same-Shows base tape f e (fb_erase_cursor-Same f) fits shown in
    let (g, base1, up, fits2, on, shown2, same, cols, rows) =
      scroll_below_lem base tape e fits1 shown1 in
    let written = write_fb g.cur_row g.cur_col text f.theme_fg f.theme_bg g in
    let (shown3, kept) =
      write_fb-Shows text base1 tape g f.theme_fg f.theme_bg ok fits2 on shown2 in
    let (h, base2, down, fits4, shown4, at4) =
      newline-Shows base1 (put (position base1 g) (take (g.cols - g.cur_col) text) tape) g written
        fits2 on kept shown3 in
    let wide : g.cols ≡ f.cols = cols ∙ ecols in
    let (row, col) = same_cell base base1 f g fits fits2 wide (same ∙ at1) in
    let left : g.cols - g.cur_col ≡ f.cols - f.cur_col = omega (arith, wide, col) in
    (
      fb_draw_cursor h,
      base2,
      rw (up, down) refl,
      fits4,
      subst₂ (λ p n. Shows base2 (put p (take n text) tape) (fb_draw_cursor h)) (same ∙ at1) left
          shown4,
      at4 ∙ rw wide (ap (λ (k : ℕ). (k + 1) * f.cols) row),
    )
