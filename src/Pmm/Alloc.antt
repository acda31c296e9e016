-- ===== src/Pmm/Alloc.antt =====
-- `pmm_alloc` and `pmm_free` of kernel/pmm.c on every branch.
use jordan_os.Base.{
  ℕ, zero, suc, ◌+◌, ◌*◌, ◌<◌, ◌≡◌, ◌⊎◌, inl, inr, refl, some, arith, ◌==◌, Bool-cases, eq_of_beq,
  u32, sub32,
}
use jordan_os.Pmm.{Pmm, alloc_loop, pmm_alloc}
use jordan_os.Pmm.Bitmap.{page_bit, page_bit-le, WithBit, bitmap_set_lem, bitmap_test_lem}
use jordan_os.Pmm.Count.{free_count-le, free_count_pos, free_count_inside, IsValid}

abbrev pub AllUsed : Pmm → ℕ → Type 0
AllUsed p n = (j : ℕ) → j < n → page_bit p.bitmap j ≡ 1

-- Page `i`, the lowest free one, has been handed out.
pub record Allocated (p : Pmm) (i : ℕ) (addr : ℕ) (q : Pmm) : Type 0 where
  pub in_range : i < p.pages_num
  pub was_free : page_bit p.bitmap i ≡ 0
  pub lowest : AllUsed p i
  pub address : addr ≡ i * 4096
  pub bits : WithBit p.bitmap i 1 q.bitmap
  pub same_total : q.pages_num ≡ p.pages_num
  pub one_less : q.free_pages + 1 ≡ p.free_pages

abbrev pub AllocOutcome : Pmm → ℕ → Pmm → Type 0
AllocOutcome p addr q =
    (AllUsed p p.pages_num × (addr ≡ 0) × (q ≡ p)) ⊎ ((i : ℕ) × Allocated p i addr q)

alloc_hit :
    (n i : ℕ) (p : Pmm)
    → IsValid p
    → i < p.pages_num
    → AllUsed p i
    → page_bit p.bitmap i ≡ 0
    → (addr : ℕ) × (q : Pmm) × (alloc_loop (suc n) i p ≡ some (addr, q)) × Allocated p i addr q
unfolding alloc_loop
alloc_hit n i p v h used free =
    let (w, tested, is) = bitmap_test_lem i p (omega (arith, v.bounded)) in
    let (q, set, marks) = bitmap_set_lem i p (omega (arith, v.bounded)) in
    (
      u32 (i * 4096),
      record q { free_pages = sub32 q.free_pages 1 },
      rw (tested, is, free, set) refl,
      record {
        in_range = h;
        was_free = free;
        lowest = used;
        address = omega (arith, v.bounded);
        bits = marks.bits;
        same_total = marks.same_total;
        one_less = omega (
          arith,
          v.counted,
          v.bounded,
          marks.same_free,
          free_count_pos p.bitmap i p.pages_num h free,
          free_count-le p.bitmap p.pages_num,
        );
      },
    )

alloc_loop_lem :
    (n i : ℕ) (p : Pmm)
    → IsValid p
    → i + n ≡ p.pages_num
    → AllUsed p i
    → (addr : ℕ) × (q : Pmm) × (alloc_loop n i p ≡ some (addr, q)) × AllocOutcome p addr q
unfolding alloc_loop
alloc_loop_lem zero i p v e used = (0, p, refl, inl (λ j h. used j (omega arith), refl, refl))
alloc_loop_lem (suc n) i p v e used = elim (Bool-cases (page_bit p.bitmap i == 0)) [
  | inl free ↦
      let (addr, q, run, a) = alloc_hit n i p v (omega arith) used (eq_of_beq _ _ free) in
      (addr, q, run, inr (i, a))
  | inr taken ↦
      let (w, tested, is) = bitmap_test_lem i p (omega (arith, v.bounded)) in
      let (addr, q, run, o) =
        alloc_loop_lem n (i + 1) p v (omega arith)
          λ j h. ground (arith, used j, page_bit-le p.bitmap i) in
      (addr, q, rw (tested, is, taken) run, o)
]

Allocated-IsValid : {p q : Pmm} {i addr : ℕ} → IsValid p → Allocated p i addr q → IsValid q
Allocated-IsValid {p} {q} {i} v a = record {
  bounded = omega (arith, v.bounded, a.same_total);
  counted = rw a.same_total (
      omega (
        arith,
        v.counted,
        a.one_less,
        a.was_free,
        free_count_inside p.bitmap q.bitmap i 1 a.bits p.pages_num a.in_range,
      ));
}

pub AllocOutcome-IsValid : {p q : Pmm} {addr : ℕ} → IsValid p → AllocOutcome p addr q → IsValid q
AllocOutcome-IsValid v (inl (used, zero_addr, same)) = rw same v
AllocOutcome-IsValid v (inr (i, a)) = Allocated-IsValid v a

-- `pmm_alloc` never reads or writes outside the bitmap. It hands out the lowest free page, marks
-- that page alone as used and lowers the free count by one; with every page in use it returns 0
-- and changes nothing. The free count stays exact.
pub pmm_alloc_lem :
    (p : Pmm)
    → IsValid p
    → (addr : ℕ) × (q : Pmm) × (pmm_alloc p ≡ some (addr, q)) × AllocOutcome p addr q × IsValid q
unfolding pmm_alloc
pmm_alloc_lem p v =
    let (addr, q, run, o) =
      alloc_loop_lem p.pages_num 0 p v (omega arith) (λ j h. absurd (omega arith)) in
    (addr, q, run, o, AllocOutcome-IsValid v o)
