-- ===== src/Heap/Outcome.antt =====
-- `kmalloc` of kernel/heap.c when no block is long enough, on every answer of the page allocator.
use mathlib.Core.Path.{subst}
use jordan_os.Base.{
  ℕ, zero, suc, ◌+◌, ◌-◌, ◌*◌, ◌≤◌, ◌<◌, ◌≡◌, ◌≢◌, ◌⊎◌, inl, inr, refl, sym, some, List, [], ◌∷◌,
  ◌++◌, length, arith,
}
use jordan_os.Heap.{Heap, kmalloc}
use jordan_os.Heap.Blocks.{header_size, Block, block}
use jordan_os.Heap.Place.{Short}
use jordan_os.Heap.Taken.{carve}
use jordan_os.Heap.Inv.{IsHeap}
use jordan_os.Heap.Grown.{kmalloc-grow, kmalloc-exhausted}
use jordan_os.Pmm.{Pmm, pmm_alloc}
use jordan_os.Pmm.Alloc.{Allocated, AllocOutcome, pmm_alloc_lem}

-- A new page: its number, the address returned, and the heap with its blocks behind the others.
abbrev pub Extended : ℕ → Heap → List Block → ℕ → Heap → Type 0
Extended n h bs a h' =
    (i : ℕ) × (a ≡ i * 4096 + header_size)
    × Allocated h.pmm i (i * 4096) h'.pmm
    × IsHeap h' (bs ++ carve n (block (i * 4096) (4096 - header_size) 0) [])

-- Null, and the blocks are kept. The page allocator had no page left and is as it was, or page 0 was
-- its lowest free page and is used now.
abbrev pub Refused : Heap → List Block → ℕ → Heap → Type 0
Refused h bs a h' =
    (a ≡ 0) × (h'.at ≡ h.at) × (h'.head ≡ h.head) × AllocOutcome h.pmm 0 h'.pmm × IsHeap h' bs

module _ (fuel n : ℕ) (h : Heap) (b : Block) (bs : List Block) (is : IsHeap h (b ∷ bs))
    (small : n ≤ 4096 - header_size) (f : length (b ∷ bs) < fuel) (short : Short n (b ∷ bs)) where
  -- No block is long enough.
  abbrev Answer : Type 0
  Answer =
      (a : ℕ) × (h' : Heap) × (kmalloc fuel n h ≡ some (a, h'))
      × (Extended n h (b ∷ bs) a h' ⊎ Refused h (b ∷ bs) a h')

  answer_null : (q : Pmm) → AllocOutcome h.pmm 0 q → pmm_alloc h.pmm ≡ some (0, q) → Answer
  answer_null q o got =
      let (run, is') = kmalloc-exhausted n fuel h q b bs is small f short o got in
      (0, record h { pmm = q }, run, inr (refl, refl, refl, o, is'))

  answer_page :
      (i : ℕ) (q : Pmm)
      → Allocated h.pmm i (i * 4096) q
      → pmm_alloc h.pmm ≡ some (i * 4096, q)
      → i ≢ 0
      → Answer
  answer_page i q a got ne =
      let (h', run, is', same) = kmalloc-grow n i h q b bs is small a ne fuel f short got in
      (
        i * 4096 + header_size,
        h',
        run,
        inl (i, refl, subst (Allocated h.pmm i (i * 4096)) (sym same) a, is'),
      )

  answer :
      (addr : ℕ) (q : Pmm) → AllocOutcome h.pmm addr q → pmm_alloc h.pmm ≡ some (addr, q) → Answer
  answer addr q (inl (used, null, same)) got =
      answer_null q (inl (used, refl, same)) (subst (λ x. pmm_alloc h.pmm ≡ some (x, q)) null got)
  answer addr q (inr (zero, a)) got =
      let null : addr ≡ 0 = omega (arith, a.address) in
      answer_null q (inr (zero, subst (λ x. Allocated h.pmm 0 x q) null a))
        (subst (λ x. pmm_alloc h.pmm ≡ some (x, q)) null got)
  answer addr q (inr (suc i, a)) got =
      answer_page (suc i) q (subst (λ x. Allocated h.pmm (suc i) x q) a.address a)
        (subst (λ x. pmm_alloc h.pmm ≡ some (x, q)) a.address got) (omega arith)

  -- On a heap of one or more blocks, with fuel for them, and with every block too short for a
  -- request of at most a page less a header, `kmalloc` ends without a fault. It takes the lowest
  -- free page, returns the place behind that page's header, and the page's blocks, the first of them
  -- handed out, join the heap behind the others. Only if no page is free, or page 0 is the lowest
  -- free one, it returns null and keeps the blocks; page 0 is then used, and the allocator is
  -- otherwise as it was. The invariant is kept either way.
  pub kmalloc-Extended-Refused : Answer
  kmalloc-Extended-Refused =
      let (addr, q, got, o, valid) = pmm_alloc_lem h.pmm is.pages in answer addr q o got
