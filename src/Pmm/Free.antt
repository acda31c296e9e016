-- ===== src/Pmm/Free.antt =====
-- `pmm_free` of kernel/pmm.c.
use jordan_os.Base.{ℕ, zero, suc, ◌+◌, ◌*◌, ◌/◌, ◌<◌, ◌≡◌, inl, inr, some, arith, u32, ap, ◌∙◌}
use jordan_os.Pmm.{Pmm, bitmap_clear, pmm_alloc, pmm_free}
use jordan_os.Pmm.Bitmap.{page_bit, WithBit, bitmap_clear_lem}
use jordan_os.Pmm.Count.{free_count, free_count-le, free_count_inside, IsValid}
use jordan_os.Pmm.Alloc.{Allocated, AllocOutcome, AllocOutcome-IsValid, pmm_alloc_lem}

-- Page `i` has been given back.
pub record Freed (p : Pmm) (i : ℕ) (q : Pmm) : Type 0 where
  pub bits : WithBit p.bitmap i 0 q.bitmap
  pub same_total : q.pages_num ≡ p.pages_num
  pub one_more : q.free_pages ≡ p.free_pages + 1

-- One page fewer than all is free while some page is used.
free_count-lt : (bitmap : ℕ → ℕ) (i n : ℕ) → i < n → page_bit bitmap i ≡ 1 → free_count bitmap n < n
unfolding free_count
free_count-lt bitmap i zero h used = absurd (omega arith)
free_count-lt bitmap i (suc n) h used =
    ground (arith, free_count-lt bitmap i n, free_count-le bitmap n)

module _ (p : Pmm) (i : ℕ) (v : IsValid p) (h : i < p.pages_num) where
  -- `pmm_free` of a used page in range, by its address, stays inside the bitmap, clears that page's
  -- bit alone, and raises the free count by one, which stays exact.
  pub pmm_free_lem :
      page_bit p.bitmap i ≡ 1
      → (q : Pmm) × (pmm_free (i * 4096) p ≡ some q) × Freed p i q × IsValid q
  unfolding pmm_free
  pmm_free_lem used =
      let raised : Pmm = record p { free_pages = u32 (p.free_pages + 1) } in
      let page : u32 (i * 4096) / 4096 ≡ i = omega (arith, v.bounded) in
      let (q, run, marks) = bitmap_clear_lem i raised (omega (arith, v.bounded)) in
      let below : free_count p.bitmap p.pages_num < p.pages_num =
        free_count-lt p.bitmap i p.pages_num h used in
      let one_more : q.free_pages ≡ p.free_pages + 1 =
        omega (arith, marks.same_free, v.counted, v.bounded, below) in
      (
        q,
        ap (λ (k : ℕ). bitmap_clear k raised) page ∙ run,
        record { bits = marks.bits; same_total = marks.same_total; one_more = one_more },
        record {
          bounded = omega (arith, v.bounded, marks.same_total);
          counted = rw marks.same_total (
              omega (
                arith,
                v.counted,
                one_more,
                used,
                free_count_inside p.bitmap q.bitmap i 0 marks.bits p.pages_num h,
              ));
        },
      )

free_after :
    {p q : Pmm} {i addr : ℕ}
    → IsValid p
    → Allocated p i addr q
    → (r : Pmm) × (pmm_free addr q ≡ some r)
      × ((j : ℕ) → page_bit r.bitmap j ≡ page_bit p.bitmap j)
      × (r.pages_num ≡ p.pages_num)
      × (r.free_pages ≡ p.free_pages)
free_after {p} {q} {i} v a =
    let (r, run, freed, valid) =
      pmm_free_lem q i (AllocOutcome-IsValid v (inr (i, a)))
        (omega (arith, a.in_range, a.same_total)) (ground (arith, a.bits i)) in
    (
      r,
      ap (λ (k : ℕ). pmm_free k q) a.address ∙ run,
      λ j. ground (arith, freed.bits j, a.bits j, a.was_free),
      omega (arith, freed.same_total, a.same_total),
      omega (arith, freed.one_more, a.one_less),
    )

-- While some page is free, giving back what `pmm_alloc` handed out restores every page's bit and
-- both counts.
pub pmm_free-pmm_alloc :
    (p : Pmm) (j : ℕ)
    → IsValid p
    → j < p.pages_num
    → page_bit p.bitmap j ≡ 0
    → (addr : ℕ) × (q : Pmm) × (r : Pmm) × (pmm_alloc p ≡ some (addr, q))
      × (pmm_free addr q ≡ some r)
      × ((k : ℕ) → page_bit r.bitmap k ≡ page_bit p.bitmap k)
      × (r.pages_num ≡ p.pages_num)
      × (r.free_pages ≡ p.free_pages)
pmm_free-pmm_alloc p j v h free = go (pmm_alloc_lem p v)
  where
    go :
        (addr : ℕ) × (q : Pmm) × (pmm_alloc p ≡ some (addr, q)) × AllocOutcome p addr q × IsValid q
        → (addr : ℕ) × (q : Pmm) × (r : Pmm) × (pmm_alloc p ≡ some (addr, q))
          × (pmm_free addr q ≡ some r)
          × ((k : ℕ) → page_bit r.bitmap k ≡ page_bit p.bitmap k)
          × (r.pages_num ≡ p.pages_num)
          × (r.free_pages ≡ p.free_pages)
    go (addr, q, run, inl (used, null, same), valid) = absurd (omega (arith, used j h))
    go (addr, q, run, inr (i, a), valid) =
        let (r, back, bits, total, free) = free_after v a in
        (addr, q, r, run, back, bits, total, free)
