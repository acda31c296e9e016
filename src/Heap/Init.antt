-- ===== src/Heap/Init.antt =====
-- `heap_init` of kernel/heap.c, and a heap whose first page is page 0.
use jordan_os.Base.{
  ℕ, zero, suc, ◌-◌, ◌*◌, ◌≤◌, ◌<◌, ◌≡◌, ◌≢◌, inl, inr, refl, sym, ◌∙◌, some, none, [], ◌∷◌, arith,
}
use mathlib.Core.Path.{subst}
use jordan_os.Heap.{Heap, put, heap_init, kmalloc}
use jordan_os.Heap.Blocks.{header_size, Chain-cons, block}
use jordan_os.Heap.Inv.{IsHeap}
use jordan_os.Heap.Kmalloc.{kmalloc_small}
use jordan_os.Heap.Place.{kmalloc_loop_end}
use jordan_os.Heap.Grow.{grow_uninitialised}
use jordan_os.Pmm.{Pmm, pmm_alloc}
use jordan_os.Pmm.Alloc.{Allocated, AllocOutcome, AllocOutcome-IsValid, pmm_alloc_lem}
use jordan_os.Pmm.Bitmap.{page_bit}
use jordan_os.Pmm.Count.{IsValid}

-- The heap that `heap_init` makes of a page.
abbrev started : ℕ → Pmm → Heap → Heap
started page q h = record {
  at = put page (record { size = 4096 - header_size; in_use = 0; next = 0; prev = 0 }) h.at;
  head = page;
  pmm = q;
}

heap_init-started :
    (h : Heap) (page : ℕ) (q : Pmm)
    → pmm_alloc h.pmm ≡ some (page, q)
    → heap_init h ≡ some (started page q h)
unfolding heap_init
heap_init-started h page q got = rw got

started_first :
    (h : Heap) (page : ℕ) (q : Pmm)
    → (started page q h).at page
      ≡ record { size = 4096 - header_size; in_use = 0; next = 0; prev = 0 }
unfolding put
started_first h page q = ground arith

heap_of_page :
    (h : Heap) (i : ℕ) (q : Pmm)
    → IsValid h.pmm
    → pmm_alloc h.pmm ≡ some (i * 4096, q)
    → Allocated h.pmm i (i * 4096) q
    → i ≢ 0
    → (h' : Heap) × (heap_init h ≡ some h')
      × IsHeap h' (block (i * 4096) (4096 - header_size) 0 ∷ [])
      × (h'.pmm ≡ q)
heap_of_page h i q v got a ne = (
  started (i * 4096) q h,
  heap_init-started h (i * 4096) q got,
  record {
    chain =
        Chain-cons (started (i * 4096) q h).at 0 (i * 4096) (4096 - header_size) 0 0 []
          (omega arith) (started_first h (i * 4096) q) refl;
    apart = (tt, tt);
    low = (omega (arith, a.in_range, v.bounded), tt);
    pages = AllocOutcome-IsValid v (inr (i, a));
    owned = λ j b free. let other : j ≢ i = ground (arith, a.bits j) in (omega arith, tt);
  },
  refl,
)

-- With a null head the walk ends at once, with `old_block` uninitialised.
kmalloc_null_head :
    (fuel n addr : ℕ) (h : Heap) (r : Pmm)
    → h.head ≡ 0
    → n ≤ 4096 - header_size
    → 0 < fuel
    → pmm_alloc h.pmm ≡ some (addr, r)
    → addr ≢ 0
    → kmalloc fuel n h ≡ none
kmalloc_null_head fuel n addr h r null small f got ne =
    kmalloc_small fuel n h small
    ∙ kmalloc_loop_end fuel n 0 h.head none h [] null f tt
    ∙ grow_uninitialised n addr h r got ne

-- While page 0 is taken and some page is free, the page allocator answers with another page.
next_page :
    (q : Pmm)
    → IsValid q
    → page_bit q.bitmap 0 ≡ 1
    → (j : ℕ) → j < q.pages_num
    → page_bit q.bitmap j ≡ 0
    → (addr : ℕ) × (r : Pmm) × (pmm_alloc q ≡ some (addr, r)) × (addr ≢ 0)
next_page q v taken j b free = go (pmm_alloc_lem q v)
  where
    go :
        (addr : ℕ) × (r : Pmm) × (pmm_alloc q ≡ some (addr, r)) × AllocOutcome q addr r × IsValid r
        → (addr : ℕ) × (r : Pmm) × (pmm_alloc q ≡ some (addr, r)) × (addr ≢ 0)
    go (addr, r, got, inl (used, null, same), valid) = absurd (omega (arith, used j b))
    go (addr, r, got, inr (zero, a), valid) = absurd (omega (arith, a.was_free))
    go (addr, r, got, inr (suc i, a), valid) = (addr, r, got, omega (arith, a.address))

-- When page 0 is free as the kernel starts its heap, the heap's head is null, and if another page
-- is free too, a request of at most a page less a header reads the uninitialised `old_block`.
pub heap_init_page_zero :
    (h : Heap) (j n fuel : ℕ)
    → IsValid h.pmm
    → page_bit h.pmm.bitmap 0 ≡ 0
    → 0 < j
    → j < h.pmm.pages_num
    → page_bit h.pmm.bitmap j ≡ 0
    → n ≤ 4096 - header_size
    → 0 < fuel
    → (h' : Heap) × (heap_init h ≡ some h') × (h'.head ≡ 0) × (kmalloc fuel n h' ≡ none)
heap_init_page_zero h j n fuel v free pos b e small f = go (pmm_alloc_lem h.pmm v)
  where
    go :
        (addr : ℕ) × (q : Pmm) × (pmm_alloc h.pmm ≡ some (addr, q))
          × AllocOutcome h.pmm addr q
          × IsValid q
        → (h' : Heap) × (heap_init h ≡ some h') × (h'.head ≡ 0) × (kmalloc fuel n h' ≡ none)
    go (addr, q, got, inl (used, null, same), valid) = absurd (omega (arith, used 0 (omega arith)))
    go (addr, q, got, inr (suc i, a), valid) = absurd (omega (arith, a.lowest 0 (omega arith)))
    go (addr, q, got, inr (zero, a), valid) =
        let (x, r, got', ne) =
          next_page q (AllocOutcome-IsValid v (inr (zero, a))) (ground (arith, a.bits 0)) j
            (omega (arith, a.same_total)) (ground (arith, a.bits j)) in
        (
          started addr q h,
          heap_init-started h addr q got,
          omega (arith, a.address),
          kmalloc_null_head fuel n x (started addr q h) r (omega (arith, a.address)) small f got'
              ne,
        )

-- With page 0 in use and some page free, `heap_init` takes the lowest free page and makes a heap
-- of one free block, that page less a header, with the allocator's invariant.
pub heap_init-IsHeap :
    (h : Heap) (j : ℕ)
    → IsValid h.pmm
    → page_bit h.pmm.bitmap 0 ≡ 1
    → j < h.pmm.pages_num
    → page_bit h.pmm.bitmap j ≡ 0
    → (h' : Heap) × (i : ℕ) × (heap_init h ≡ some h')
      × IsHeap h' (block (i * 4096) (4096 - header_size) 0 ∷ [])
      × Allocated h.pmm i (i * 4096) h'.pmm
heap_init-IsHeap h j v taken b free = go (pmm_alloc_lem h.pmm v)
  where
    go :
        (addr : ℕ) × (q : Pmm) × (pmm_alloc h.pmm ≡ some (addr, q))
          × AllocOutcome h.pmm addr q
          × IsValid q
        → (h' : Heap) × (i : ℕ) × (heap_init h ≡ some h')
          × IsHeap h' (block (i * 4096) (4096 - header_size) 0 ∷ [])
          × Allocated h.pmm i (i * 4096) h'.pmm
    go (addr, q, got, inl (used, null, same), valid) = absurd (omega (arith, used j b))
    go (addr, q, got, inr (zero, a), valid) = absurd (omega (arith, a.was_free))
    go (addr, q, got, inr (suc i, a), valid) =
        let page = subst (λ x. Allocated h.pmm (suc i) x q) a.address a in
        let (h', run, is, same) =
          heap_of_page h (suc i) q v (subst (λ x. pmm_alloc h.pmm ≡ some (x, q)) a.address got) page
            (omega arith) in
        (h', suc i, run, is, subst (λ x. Allocated h.pmm (suc i) (suc i * 4096) x) (sym same) page)
