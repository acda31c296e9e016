-- ===== src/Pmm/Count.antt =====
-- The count of free pages that pmm.c keeps, against the bitmap.
use jordan_os.Base.{ℕ, zero, suc, ◌+◌, ◌-◌, ◌≤◌, ◌<◌, ◌≡◌, refl, arith}
use jordan_os.Pmm.{Pmm}
use jordan_os.Pmm.Bitmap.{page_bit, page_bit-le, WithBit, max_pages}

-- How many of the first `n` pages are free.
unfoldable pub free_count : (ℕ → ℕ) → ℕ → ℕ
free_count bitmap zero = 0
free_count bitmap (suc n) = free_count bitmap n + (1 - page_bit bitmap n)

pub free_count-le : (bitmap : ℕ → ℕ) (n : ℕ) → free_count bitmap n ≤ n
unfolding free_count
free_count-le bitmap zero = omega arith
free_count-le bitmap (suc n) = omega (arith, free_count-le bitmap n)

pub free_count_pos :
    (bitmap : ℕ → ℕ) (i n : ℕ) → i < n → page_bit bitmap i ≡ 0 → 0 < free_count bitmap n
unfolding free_count
free_count_pos bitmap i zero h free = absurd (omega arith)
free_count_pos bitmap i (suc n) h free = ground (arith, free_count_pos bitmap i n)

module _ (old new : ℕ → ℕ) (page v : ℕ) (bits : WithBit old page v new) where
  pub free_count_outside : (n : ℕ) → n ≤ page → free_count new n ≡ free_count old n
  unfolding free_count
  free_count_outside zero h = refl
  free_count_outside (suc n) h = ground (arith, free_count_outside n, bits n)

  pub free_count_inside :
      (n : ℕ) → page < n → free_count new n + (1 - page_bit old page) ≡ free_count old n + (1 - v)
  unfolding free_count
  free_count_inside zero h = absurd (omega arith)
  free_count_inside (suc n) h =
      ground (arith, free_count_inside n, free_count_outside n, bits n, page_bit-le old n)

-- No more pages than the bitmap has bits, and a free count that is exact.
pub record IsValid (p : Pmm) : Type 0 where
  pub bounded : p.pages_num ≤ max_pages
  pub counted : p.free_pages ≡ free_count p.bitmap p.pages_num
