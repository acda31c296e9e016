-- ===== src/Pmm/Bitmap.antt =====
-- The bit operations of kernel/pmm.c, page by page.
use native.Mathlib.Nat.{one-le-pow}
use jordan_os.Base.{
  ℕ, ◌-◌, ◌/◌, ◌%◌, ◌^◌, ◌≤◌, ◌<◌, ◌≡◌, refl, some, arith, ◌==◌, if◌then◌else◌, bit_and, bit_or,
}
use jordan_os.Base.Bits.{
  bit_at, bit_at-le, bit_at-bit_or, bit_at-bit_and, bit_at-pow_self, bit_at-pow_ne,
  bit_at-mask_self, bit_at-mask_ne, bit_and-pow,
}
use jordan_os.Mem.{write}
use jordan_os.Pmm.{Pmm, bitmap_set, bitmap_clear, bitmap_test}

-- The bit of a page: 0 is free, 1 is in use.
unfoldable pub page_bit : (ℕ → ℕ) → ℕ → ℕ
page_bit bitmap page = bit_at (page % 32) (bitmap (page / 32))

pub page_bit-le : (bitmap : ℕ → ℕ) (i : ℕ) → page_bit bitmap i ≤ 1
unfolding page_bit
page_bit-le bitmap i = bit_at-le (i % 32) (bitmap (i / 32))

-- The bitmap after a page's bit has been written.
abbrev pub WithBit : (ℕ → ℕ) → ℕ → ℕ → (ℕ → ℕ) → Type 0
WithBit old page v new = (j : ℕ) → page_bit new j ≡ (if j == page then v else page_bit old j)

module _ (bitmap : ℕ → ℕ) (i : ℕ) where
  set_word : ℕ → ℕ
  set_word = write bitmap (i / 32) (bit_or (bitmap (i / 32)) (2 ^ (i % 32)))

  clear_word : ℕ → ℕ
  clear_word = write bitmap (i / 32) (bit_and (bitmap (i / 32)) (2 ^ 32 - 1 - 2 ^ (i % 32)))

  set_word-WithBit : WithBit bitmap i 1 set_word
  unfolding set_word page_bit write
  set_word-WithBit j = ground (
    arith,
    bit_at-bit_or (j % 32) (bitmap (i / 32)) (2 ^ (i % 32)),
    bit_at-pow_self (i % 32),
    bit_at-pow_ne (j % 32) (i % 32),
    bit_at-le (j % 32) (bitmap (i / 32)),
  )

  clear_word-WithBit : WithBit bitmap i 0 clear_word
  unfolding clear_word page_bit write
  clear_word-WithBit j = ground (
    arith,
    bit_at-bit_and (j % 32) (bitmap (i / 32)) (2 ^ 32 - 1 - 2 ^ (i % 32)),
    bit_at-mask_self (i % 32),
    bit_at-mask_ne (j % 32) (i % 32),
    bit_at-le (j % 32) (bitmap (i / 32)),
  )

-- `q` is `p` with one page's bit written and all else kept.
pub record Marks (page v : ℕ) (p q : Pmm) : Type 0 where
  pub bits : WithBit p.bitmap page v q.bitmap
  pub same_total : q.pages_num ≡ p.pages_num
  pub same_free : q.free_pages ≡ p.free_pages

abbrev pub max_pages : ℕ
max_pages = 2 ^ 20

module _ (i : ℕ) (p : Pmm) (small : i < max_pages) where
  pub bitmap_set_lem : (q : Pmm) × (bitmap_set i p ≡ some q) × Marks i 1 p q
  unfolding bitmap_set set_word
  bitmap_set_lem = (
    record p { bitmap = set_word p.bitmap i },
    ground arith,
    record { bits = set_word-WithBit p.bitmap i; same_total = refl; same_free = refl },
  )

  pub bitmap_clear_lem : (q : Pmm) × (bitmap_clear i p ≡ some q) × Marks i 0 p q
  unfolding bitmap_clear clear_word
  bitmap_clear_lem = (
    record p { bitmap = clear_word p.bitmap i },
    ground arith,
    record { bits = clear_word-WithBit p.bitmap i; same_total = refl; same_free = refl },
  )

  pub bitmap_test_lem :
      (w : ℕ) × (bitmap_test i p ≡ some w) × ((w == 0) ≡ (page_bit p.bitmap i == 0))
  unfolding bitmap_test page_bit
  bitmap_test_lem = (
    bit_and (p.bitmap (i / 32)) (2 ^ (i % 32)),
    ground arith,
    rw bit_and-pow (ground (arith, one-le-pow (i % 32) 2, bit_at-le (i % 32) (p.bitmap (i / 32)))),
  )
