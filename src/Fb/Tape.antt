-- ===== src/Fb/Tape.antt =====
-- The terminal as a window on an endless tape of characters, which rows of `cols` columns make: row
-- `r` of the screen shows the tape's row `base + r`, and everything below the window is blank.
use jordan_os.Base.{
  ℕ, ◌+◌, ◌-◌, ◌*◌, ◌<◌, ◌≤◌, ◌≡◌, refl, ap, sym, arith, ltb, leb, some, [], ◌∷◌, inl, inr,
  Bool-cases, leb→le, leb→lt, ltb→lt, ltb→le, beq_of_ne,
}
use native.Mathlib.Nat.{mul-le-mul_right}
use jordan_os.Mem.{write}
use jordan_os.Str.{Bytes}
use jordan_os.Fb.{Fb}
use jordan_os.Fb.Print.{buf_rows, buf_cols, fb_scroll, shift_text, shift_pixels, scroll_below}
use jordan_os.Fb.Scroll.{shift_text_lem}

cell_le : (n a b c d : ℕ) → c < n → d < n → a * n + c ≡ b * n + d → a ≤ b
cell_le n a b c d hc hd e = elim (Bool-cases (leb a b)) [
  | inl le ↦ leb→le a b le
  | inr gt ↦ absurd (omega (arith, mul-le-mul_right n (leb→lt a b gt)))
]

pub cell_inj : (n a b c d : ℕ) → c < n → d < n → a * n + c ≡ b * n + d → (a ≡ b) × (c ≡ d)
cell_inj n a b c d hc hd e =
    let same : a ≡ b = omega (arith, cell_le n a b c d hc hd e, cell_le n b a d c hd hc (sym e)) in
    (same, omega (arith, ap (λ (k : ℕ). k * n) same))

pub le_add : (a b c : ℕ) → b ≤ c → a + b ≤ a + c
le_add a b c h = omega arith

-- A screen that fits `screen_buf`, with the cursor on it or at the start of the row below it.
abbrev pub Fits : Fb → Type 0
Fits f =
    (0 < f.cols)
    × (f.cols ≤ 128)
    × (0 < f.rows)
    × (f.rows ≤ 64)
    × (f.cur_col < f.cols)
    × (f.cur_row ≤ f.rows)

abbrev pub Shows : ℕ → (ℕ → ℕ) → Fb → Type 0
Shows base tape f =
    ((r c : ℕ) → r < f.rows → c < f.cols → f.screen_buf r c ≡ tape ((base + r) * f.cols + c))
    × ((p : ℕ) → (base + f.rows) * f.cols ≤ p → tape p ≡ 0)

-- Where on the tape the cursor is.
abbrev pub position : ℕ → Fb → ℕ
position base f = (base + f.cur_row) * f.cols + f.cur_col

-- The tape with a text from a position on.
unfoldable pub put : ℕ → Bytes → (ℕ → ℕ) → ℕ → ℕ
put p [] tape = tape
put p (ch ∷ text) tape = put (p + 1) text (write tape p ch)

-- The screen that `fb_scroll` makes.
abbrev pub scrolled : Fb → Fb
scrolled f = record f {
  mem = shift_pixels f;
  screen_buf = shift_text (buf_rows f) (buf_cols f) f.screen_buf;
  cur_row = f.rows - 1;
}

whole_buffer : (f : Fb) → f.cols ≤ 128 → f.rows ≤ 64 → (buf_rows f ≡ f.rows) × (buf_cols f ≡ f.cols)
whole_buffer f hc hr = (ground arith, ground arith)

next_row : (base r cols c : ℕ) → (base + 1 + r) * cols + c ≡ (base + (r + 1)) * cols + c
next_row base r cols c = ap (λ (k : ℕ). k * cols + c) (omega arith)

scrolled-Shows :
    (base : ℕ) (tape : ℕ → ℕ) (f : Fb)
    → Fits f
    → Shows base tape f
    → Shows (base + 1) tape (scrolled f)
scrolled-Shows base tape f (c0, c1, r0, r1, cc, cr) (shows, blank) = (
  λ r c hr hc.
      rw
        (
          (whole_buffer f c1 r1).0,
          (whole_buffer f c1 r1).1,
          shift_text_lem f.rows f.cols f.screen_buf r c hr hc,
          next_row base r f.cols c,
        )
        (elim (Bool-cases (ltb (r + 1) f.rows)) [
          | inl in_text ↦ rw in_text (shows (r + 1) c (ltb→lt (r + 1) f.rows in_text) hc)
          | inr last ↦ rw last (
              sym (
                blank _ (
                  omega (
                    arith,
                    mul-le-mul_right f.cols
                        (le_add base f.rows (r + 1) (ltb→le (r + 1) f.rows last)),
                  ))))
        ]),
  λ p h.
      blank p
        (omega (arith, mul-le-mul_right f.cols (le_add f.rows base (base + 1) (omega arith)))),
)

-- `scroll_below` puts the cursor back on the screen, at the same place of the tape.
pub scroll_below_lem :
    (base : ℕ) (tape : ℕ → ℕ) (f : Fb)
    → Fits f
    → Shows base tape f
    → (g : Fb) × (base' : ℕ) × (scroll_below f ≡ some g)
      × Fits g
      × (g.cur_row < g.rows)
      × Shows base' tape g
      × (position base' g ≡ position base f)
      × (g.cols ≡ f.cols)
      × (g.rows ≡ f.rows)
unfolding scroll_below fb_scroll
scroll_below_lem base tape f (c0, c1, r0, r1, cc, cr) (shows, blank) =
    elim (Bool-cases (leb f.rows f.cur_row)) [
      | inr on ↦ (
        f,
        base,
        rw on refl,
        (c0, c1, r0, r1, cc, cr),
        leb→lt f.rows f.cur_row on,
        (shows, blank),
        refl,
        refl,
        refl,
      )
      | inl below ↦ (
        scrolled f,
        base + 1,
        rw (below, beq_of_ne f.rows 0 (omega arith)) refl,
        (c0, c1, r0, r1, cc, omega arith),
        omega arith,
        scrolled-Shows base tape f (c0, c1, r0, r1, cc, cr) (shows, blank),
        ap (λ (k : ℕ). k * f.cols + f.cur_col) (omega (arith, leb→le f.rows f.cur_row below)),
        refl,
        refl,
      )
    ]
