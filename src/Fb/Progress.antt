-- ===== src/Fb/Progress.antt =====
-- How far the loops of `redraw_screen` (kernel/fb.c) have come.
use jordan_os.Base.{
  ℕ, suc, ◌<◌, ◌≡◌, arith, inl, inr, Bool, Bool-cases, ltb, ◌==◌, ◌&&◌, ◌||◌, if◌then◌else◌,
}
use jordan_os.Fb.{Fb}
use jordan_os.Fb.Draw.{write2}
use jordan_os.Fb.Cells.{at_cell}
use jordan_os.Fb.Picture.{cell_color}

-- The cells that this test picks show their characters, and the others the background.
abbrev pub Redrawn : (ℕ → ℕ → Bool) → Fb → Type 0
Redrawn done f =
    (r c dx dy : ℕ)
    → r < f.rows
    → c < f.cols
    → dx < f.glyph_w
    → dy < f.glyph_h
    → at_cell f f.mem r c dx dy
      ≡ (if done r c then cell_color f f.theme_bg (f.screen_buf r c) dx dy else f.theme_bg)

-- The rows above `row`, and the cells of `row` left of `col`.
abbrev pub before : ℕ → ℕ → ℕ → ℕ → Bool
before row col r c = ltb r row || ((r == row) && ltb c col)

pub one_more :
    (row col r c shown ground_color here old : ℕ)
    → old ≡ (if before row col r c then shown else ground_color)
    → (r ≡ row → c ≡ col → here ≡ shown)
    → (if (r == row) && (c == col) then here else old)
      ≡ (if before row (suc col) r c then shown else ground_color)
one_more row col r c shown ground_color here old drawn same =
    elim (Bool-cases ((r == row) && (c == col))) [
      | inl at ↦
          let row_same : r ≡ row = ground arith in
          let col_same : c ≡ col = ground arith in ground (arith, same row_same col_same)
      | inr other ↦ ground (arith, drawn)
    ]

-- A cell without a character keeps the background.
pub blank_more :
    (row col r c shown ground_color old : ℕ)
    → old ≡ (if before row col r c then shown else ground_color)
    → (r ≡ row → c ≡ col → shown ≡ ground_color)
    → old ≡ (if before row (suc col) r c then shown else ground_color)
blank_more row col r c shown ground_color old drawn same =
    elim (Bool-cases ((r == row) && (c == col))) [
      | inl at ↦
          let row_same : r ≡ row = ground arith in
          let col_same : c ≡ col = ground arith in ground (arith, drawn, same row_same col_same)
      | inr other ↦ ground (arith, drawn)
    ]

pub same_text : (s : ℕ → ℕ → ℕ) (row col : ℕ) → write2 s row col (s row col) ≡ s
unfolding write2
same_text s row col = λ i r c. cell r c i
  where
    cell : (r c : ℕ) → (if (r == row) && (c == col) then s row col else s r c) ≡ s r c
    cell r c = ground arith
