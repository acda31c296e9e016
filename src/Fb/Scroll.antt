-- ===== src/Fb/Scroll.antt =====
-- What scrolling does to the text of the screen.
use jordan_os.Base.{ℕ, zero, suc, ◌+◌, ◌-◌, ◌<◌, ◌≡◌, arith, ltb, ◌==◌, ◌&&◌, if◌then◌else◌}
use jordan_os.Fb.Draw.{for_upto, write2}
use jordan_os.Fb.Print.{shift_text}

abbrev Text : Type 0
Text = ℕ → ℕ → ℕ

row_cleared :
    (n row : ℕ) (s : Text) (r c : ℕ)
    → for_upto n (λ k t. write2 t row k 0) s r c ≡ (if (r == row) && ltb c n then 0 else s r c)
unfolding for_upto write2
row_cleared zero row s r c = ground arith
row_cleared (suc n) row s r c = ground (arith, row_cleared n row s r c)

row_moved :
    (n row : ℕ) (s : Text) (r c : ℕ)
    → for_upto n (λ k t. write2 t row k (t (row + 1) k)) s r c
      ≡ (if (r == row) && ltb c n then s (row + 1) c else s r c)
unfolding for_upto write2
row_moved zero row s r c = ground arith
row_moved (suc n) row s r c = grind (arith, row_moved n row s (row + 1) n, row_moved n row s r c)

rows_moved :
    (m cols : ℕ) (s : Text) (r c : ℕ)
    → for_upto m (λ row. for_upto cols (λ k t. write2 t row k (t (row + 1) k))) s r c
      ≡ (if ltb r m && ltb c cols then s (r + 1) c else s r c)
unfolding for_upto
rows_moved zero cols s r c = ground arith
rows_moved (suc m) cols s r c =
    let before = for_upto m (λ row. for_upto cols (λ k t. write2 t row k (t (row + 1) k))) s in
    grind
      (arith, row_moved cols m before r c, rows_moved m cols s (m + 1) c, rows_moved m cols s r c)

-- Inside the moved part every row has the text of the next one, and the last row is blank.
pub shift_text_lem :
    (rows cols : ℕ) (s : Text) (r c : ℕ)
    → r < rows
    → c < cols
    → shift_text rows cols s r c ≡ (if ltb (r + 1) rows then s (r + 1) c else 0)
unfolding shift_text
shift_text_lem rows cols s r c hr hc =
    let moved =
      for_upto (rows - 1) (λ row. for_upto cols (λ k t. write2 t row k (t (row + 1) k))) s in
    ground (arith, row_cleared cols (rows - 1) moved r c, rows_moved (rows - 1) cols s r c)

-- Every row of the text is cleared.
pub rows_cleared :
    (m cols : ℕ) (s : Text) (r c : ℕ)
    → for_upto m (λ row. for_upto cols (λ k t. write2 t row k 0)) s r c
      ≡ (if ltb r m && ltb c cols then 0 else s r c)
unfolding for_upto
rows_cleared zero cols s r c = ground arith
rows_cleared (suc m) cols s r c =
    let before = for_upto m (λ row. for_upto cols (λ k t. write2 t row k 0)) s in
    ground (arith, row_cleared cols m before r c, rows_cleared m cols s r c)
