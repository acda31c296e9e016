-- ===== src/Pmm/Regions.antt =====
-- What `pmm_init` makes of a memory map: its regions, laid end to end as pages.
use jordan_os.Base.{
  ℕ, zero, suc, ◌+◌, ◌-◌, ◌/◌, ◌≤◌, ◌<◌, ◌≡◌, refl, List, [], ◌∷◌, some, arith, ltb, ◌==◌,
  if◌then◌else◌, u32, ◌^◌, ◌%◌, none, bit_and, inl, inr, Bool-cases,
}
use jordan_os.Pmm.{Pmm, bitmap_clear, add_available, add_reserved}
use jordan_os.Mem.{write}
use jordan_os.Pmm.Bitmap.{page_bit, WithBit, max_pages, bitmap_clear_lem, bitmap_set_lem}
use jordan_os.Pmm.Count.{free_count, free_count-le, free_count_outside, IsValid}

pub record Region : Type 0 where
  pub base : ℕ
  pub length : ℕ
  pub kind : ℕ

-- The pages that `pmm_init` counts for a region, and their bit.
abbrev pub pages_of : Region → ℕ
pages_of r = u32 r.length / 4096

abbrev pub bit_of : Region → ℕ
bit_of r = if r.kind == 1 then 0 else 1

abbrev pub total_pages : List Region → ℕ
total_pages [] = 0
total_pages (r ∷ rs) = pages_of r + total_pages rs

-- The bit of page `i` among the pages of the regions laid end to end in their order; where a region
-- begins is not looked at.
abbrev pub region_bit : List Region → ℕ → ℕ
region_bit [] i = 1
region_bit (r ∷ rs) i = if ltb i (pages_of r) then bit_of r else region_bit rs (i - pages_of r)

-- `q` is `p` with `n` pages of bit `v` added behind the last.
pub record Added (v n : ℕ) (p q : Pmm) : Type 0 where
  pub total : q.pages_num ≡ p.pages_num + n
  pub old : (j : ℕ) → j < p.pages_num → page_bit q.bitmap j ≡ page_bit p.bitmap j
  pub new : (j : ℕ) → p.pages_num ≤ j → j < p.pages_num + n → page_bit q.bitmap j ≡ v
  pub valid : IsValid q

Added-zero : (v : ℕ) (p : Pmm) → IsValid p → Added v 0 p p
Added-zero v p valid = record {
  total = omega arith;
  old = λ j b. refl;
  new = λ j a b. absurd (omega arith);
  valid = valid;
}

-- One page with bit `v`, and `n` more behind it.
Added-suc :
    {v n : ℕ} (p m q : Pmm)
    → WithBit p.bitmap p.pages_num v m.bitmap
    → m.pages_num ≡ suc p.pages_num
    → Added v n m q
    → Added v (suc n) p q
Added-suc p m q bits more added = record {
  total = omega (arith, added.total);
  old = λ j b. ground (arith, added.old j, bits j);
  new = λ j a b. ground (arith, added.old j, added.new j, bits j);
  valid = added.valid;
}

pub add_available_lem :
    (n : ℕ) (p : Pmm)
    → IsValid p
    → p.pages_num + n ≤ max_pages
    → (q : Pmm) × (add_available n p ≡ some q) × Added 0 n p q
unfolding add_available free_count
add_available_lem zero p v h = (p, refl, Added-zero 0 p v)
add_available_lem (suc n) p v h =
    let (m, cleared, marks) = bitmap_clear_lem p.pages_num p (omega arith) in
    let step : Pmm = record m {
      pages_num = u32 (m.pages_num + 1);
      free_pages = u32 (m.free_pages + 1);
    } in
    let more : step.pages_num ≡ suc p.pages_num = omega (arith, marks.same_total) in
    let (q, run, added) =
      add_available_lem n step
        (record {
          bounded = omega arith;
          counted = rw more (
              ground (
                arith,
                marks.same_free,
                v.counted,
                marks.bits p.pages_num,
                free_count-le p.bitmap p.pages_num,
                free_count_outside p.bitmap m.bitmap p.pages_num 0 marks.bits p.pages_num,
              ));
        })
        (omega arith) in
    (q, rw cleared run, Added-suc p step q marks.bits more added)

pub add_reserved_lem :
    (n : ℕ) (p : Pmm)
    → IsValid p
    → p.pages_num + n ≤ max_pages
    → (q : Pmm) × (add_reserved n p ≡ some q) × Added 1 n p q
unfolding add_reserved free_count
add_reserved_lem zero p v h = (p, refl, Added-zero 1 p v)
add_reserved_lem (suc n) p v h =
    let (m, marked, marks) = bitmap_set_lem p.pages_num p (omega arith) in
    let step : Pmm = record m { pages_num = u32 (m.pages_num + 1) } in
    let more : step.pages_num ≡ suc p.pages_num = omega (arith, marks.same_total) in
    let (q, run, added) =
      add_reserved_lem n step
        (record {
          bounded = omega arith;
          counted = rw more (
              ground (
                arith,
                marks.same_free,
                v.counted,
                marks.bits p.pages_num,
                free_count_outside p.bitmap m.bitmap p.pages_num 1 marks.bits p.pages_num,
              ));
        })
        (omega arith) in
    (q, rw marked run, Added-suc p step q marks.bits more added)

-- With pages for more than 4 GiB the loop leaves the bitmap.
pub add_available_overflow :
    (n : ℕ) (p : Pmm)
    → p.pages_num ≤ max_pages
    → max_pages < p.pages_num + n
    → add_available n p ≡ none
unfolding add_available bitmap_clear
add_available_overflow zero p h over = absurd (omega arith)
add_available_overflow (suc n) p h over = elim (Bool-cases (ltb p.pages_num max_pages)) [
  | inl below ↦ ground (
    arith,
    add_available_overflow n (record p {
      bitmap =
          write p.bitmap (p.pages_num / 32)
            (bit_and (p.bitmap (p.pages_num / 32)) (2 ^ 32 - 1 - 2 ^ (p.pages_num % 32)));
      pages_num = u32 (p.pages_num + 1);
      free_pages = u32 (p.free_pages + 1);
    }),
  )
  | inr full ↦ ground arith
]
