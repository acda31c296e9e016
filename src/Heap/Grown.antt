-- ===== src/Heap/Grown.antt =====
-- The heap's invariant where `kmalloc` of kernel/heap.c asks for a new page.
use jordan_os.Base.{
  ℕ, ◌+◌, ◌-◌, ◌*◌, ◌^◌, ◌≤◌, ◌<◌, ◌≡◌, ◌≢◌, inl, inr, refl, ap, ◌∙◌, some, none, List, [], ◌∷◌,
  ◌++◌, All, All-append, All-map, length, arith,
}
use jordan_os.Heap.{Heap, grow, kmalloc}
use jordan_os.Heap.Blocks.{
  Header, header_size, Block, end_of, Chain, Disjoint, SameOutside, Chain-cons, block,
}
use jordan_os.Heap.Place.{Short, kmalloc_loop_end}
use jordan_os.Heap.Taken.{carve, taken, taken-Chain}
use jordan_os.Heap.Inv.{
  IsHeap, Inherited, Misses, carve-All, carve-Apart, Disjoint-Inherited, Misses-Inherited,
  Low-Inherited, Apart-append,
}
use jordan_os.Heap.Kmalloc.{kmalloc_small}
use jordan_os.Heap.Grow.{
  last_addr, last_of_lem, last_ne_zero, last-Disjoint, Chain-extend, linked, page_block, linked_new,
  linked_last, linked_other, grow_lem, grow_none,
}
use jordan_os.Pmm.{Pmm, pmm_alloc}
use jordan_os.Pmm.Alloc.{Allocated, AllocOutcome, AllocOutcome-IsValid}
use jordan_os.Pmm.Bitmap.{page_bit}
use jordan_os.Pmm.Count.{IsValid}

-- The end of the walk: the request goes to a new page.
kmalloc_end :
    (fuel n : ℕ) (h : Heap) (b : Block) (bs : List Block)
    → IsHeap h (b ∷ bs)
    → n ≤ 4096 - header_size
    → length (b ∷ bs) < fuel
    → Short n (b ∷ bs)
    → kmalloc fuel n h ≡ grow n (some (last_addr b bs)) h
kmalloc_end fuel n h b bs is small f short =
    kmalloc_small fuel n h small
    ∙ kmalloc_loop_end fuel n 0 h.head none h (b ∷ bs) is.chain f short
    ∙ ap (λ o. grow n o h) (last_of_lem none b bs)

Misses-page :
    (i : ℕ) (c : Block) (u : ℕ) → Misses i c → Disjoint (block (i * 4096) (4096 - header_size) u) c
Misses-page i c u m = omega arith

Misses-page' :
    (i : ℕ) (c : Block) (u : ℕ) → Misses i c → Disjoint c (block (i * 4096) (4096 - header_size) u)
Misses-page' i c u m = omega arith

module _ (n i : ℕ) (h : Heap) (q : Pmm) (b : Block) (bs : List Block) (is : IsHeap h (b ∷ bs))
    (small : n ≤ 4096 - header_size) (a : Allocated h.pmm i (i * 4096) q) (ne : i ≢ 0) where
  abbrev new : ℕ
  new = i * 4096

  abbrev page : Block
  page = page_block new h.at

  abbrev l : ℕ
  l = last_addr b bs

  abbrev final : ℕ → Header
  final = taken n page (linked l new h.at)

  out : All (Disjoint page) (b ∷ bs)
  out =
      All-map (Misses i) (Disjoint page) (λ c m. Misses-page i c page.in_use m) (b ∷ bs)
        (is.owned i a.in_range a.was_free)

  below : end_of page ≤ 2 ^ 32
  below = omega (arith, a.in_range, is.pages)

  l_ne : l ≢ new
  l_ne = omega (arith, last-Disjoint page b bs out)

  taken_page :
      Chain final l new (carve n page []) × SameOutside (page ∷ []) (linked l new h.at) final
  taken_page =
      taken-Chain (linked l new h.at) l new n page [] small below
        (Chain-cons (linked l new h.at) l new (4096 - header_size) page.in_use 0 [] (omega arith)
          (linked_new l new h.at l_ne) refl)
        (tt, tt)

  Chain-grown : Chain final 0 h.head ((b ∷ bs) ++ carve n page [])
  Chain-grown =
      Chain-extend h.at final new 0 h.head b bs (carve n page []) page is.chain is.apart out
        (taken_page.1 l (last_ne_zero h.at 0 h.head b bs is.chain) (last-Disjoint page b bs out, tt)
          ∙ linked_last l new h.at l_ne)
        (λ x null far away.
          taken_page.1 x null away ∙ linked_other l new h.at l_ne x far (omega (arith, away.0)))
        taken_page.0

  page_carved : (P : Block → Type 0) → Inherited P → P page → All P (carve n page [])
  page_carved P down p = carve-All P down n page [] small p tt

  IsHeap-grown : IsHeap (record h { at = final; pmm = q }) ((b ∷ bs) ++ carve n page [])
  IsHeap-grown = record {
    chain = Chain-grown;
    apart =
        Apart-append (b ∷ bs) (carve n page []) is.apart (carve-Apart n page [] small (tt, tt)) (
          All-map (Misses i) (λ c. All (Disjoint c) (carve n page []))
            (λ c m.
              page_carved (Disjoint c) (Disjoint-Inherited c) (Misses-page' i c page.in_use m))
            (b ∷ bs) (is.owned i a.in_range a.was_free));
    low = All-append _ (b ∷ bs) (carve n page []) is.low (page_carved _ Low-Inherited below);
    pages = AllocOutcome-IsValid is.pages (inr (i, a));
    owned = λ j h' free.
        let other : j ≢ i = ground (arith, a.bits j) in
        All-append (Misses j) (b ∷ bs) (carve n page [])
          (is.owned j (omega (arith, a.same_total)) (ground (arith, a.bits j)))
          (page_carved (Misses j) (Misses-Inherited j) (omega arith));
  }

  -- When no block is long enough and the page allocator hands out a page other than page 0,
  -- `kmalloc` returns the place behind that page's header, and the heap holds the blocks it had
  -- with those of the new page, split if the request leaves room, behind them.
  pub kmalloc-grow :
      (fuel : ℕ)
      → length (b ∷ bs) < fuel
      → Short n (b ∷ bs)
      → pmm_alloc h.pmm ≡ some (i * 4096, q)
      → (h' : Heap) × (kmalloc fuel n h ≡ some (i * 4096 + header_size, h'))
        × IsHeap h' ((b ∷ bs) ++ carve n (block (i * 4096) (4096 - header_size) 0) [])
        × (h'.pmm ≡ q)
  kmalloc-grow fuel f short got = (
    record h { at = final; pmm = q },
    kmalloc_end fuel n h b bs is small f short ∙ grow_lem n l new h q got (omega arith),
    IsHeap-grown,
    refl,
  )

-- The page allocator's state changes, and no page becomes free.
IsHeap-pmm :
    {h : Heap} {bs : List Block} (q : Pmm)
    → IsHeap h bs
    → IsValid q
    → q.pages_num ≡ h.pmm.pages_num
    → ((j : ℕ) → page_bit q.bitmap j ≡ 0 → page_bit h.pmm.bitmap j ≡ 0)
    → IsHeap (record h { pmm = q }) bs
IsHeap-pmm q is v total free = record {
  chain = is.chain;
  apart = is.apart;
  low = is.low;
  pages = v;
  owned = λ j b e. is.owned j (omega (arith, total)) (free j e);
}

module _ (n fuel : ℕ) (h : Heap) (q : Pmm) (b : Block) (bs : List Block) (is : IsHeap h (b ∷ bs))
    (small : n ≤ 4096 - header_size) (f : length (b ∷ bs) < fuel) (short : Short n (b ∷ bs)) where
  -- When the page allocator answers 0, which it does when it has no page left and when it hands
  -- out page 0, `kmalloc` returns null and keeps the blocks.
  pub kmalloc-exhausted :
      AllocOutcome h.pmm 0 q
      → pmm_alloc h.pmm ≡ some (0, q)
      → (kmalloc fuel n h ≡ some (0, record h { pmm = q })) × IsHeap (record h { pmm = q }) (b ∷ bs)
  kmalloc-exhausted (inl (used, zero_addr, same)) got = (
    kmalloc_end fuel n h b bs is small f short ∙ grow_none n (some (last_addr b bs)) h q got,
    rw same is,
  )
  kmalloc-exhausted (inr (i, a)) got = (
    kmalloc_end fuel n h b bs is small f short ∙ grow_none n (some (last_addr b bs)) h q got,
    IsHeap-pmm q is (AllocOutcome-IsValid is.pages (inr (i, a))) a.same_total
        (λ j e. ground (arith, a.bits j)),
  )
