-- ===== src/Fb/Loops.antt =====
-- The loops of kernel/fb.c: what holds in every round.
use jordan_os.Base.{ℕ, zero, suc, ◌<◌, ◌≡◌, refl, ap, ◌∙◌, arith}
use jordan_os.Fb.Draw.{for_upto}

-- What holds at the start of a loop, and after a round if it holds before it, holds at the end.
pub for_upto-keeps :
    {S : Type 0} (P : S → Type 0) (n : ℕ) (body : ℕ → S → S) (s : S)
    → ((i : ℕ) (t : S) → P t → P (body i t))
    → P s
    → P (for_upto n body s)
unfolding for_upto
for_upto-keeps P zero body s round start = start
for_upto-keeps P (suc n) body s round start =
    round n (for_upto n body s) (for_upto-keeps P n body s round start)

-- The same for a property that counts the rounds.
pub for_upto-counts :
    {S : Type 0} (P : ℕ → S → Type 0) (n : ℕ) (body : ℕ → S → S) (s : S)
    → ((i : ℕ) (t : S) → i < n → P i t → P (suc i) (body i t))
    → P 0 s
    → P n (for_upto n body s)
unfolding for_upto
for_upto-counts P zero body s round start = start
for_upto-counts P (suc n) body s round start =
    round n (for_upto n body s) (omega arith)
      (for_upto-counts P n body s (λ i t h. round i t (omega arith)) start)

-- Bodies that agree on every round.
pub for_upto-ext :
    {S : Type 0} (n : ℕ) (body body' : ℕ → S → S) (s : S)
    → ((i : ℕ) (t : S) → i < n → body i t ≡ body' i t)
    → for_upto n body s ≡ for_upto n body' s
unfolding for_upto
for_upto-ext zero body body' s same = refl
for_upto-ext (suc n) body body' s same =
    same n (for_upto n body s) (omega arith)
    ∙ ap (body' n) (for_upto-ext n body body' s λ i t h. same i t (omega arith))
