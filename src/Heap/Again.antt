-- ===== src/Heap/Again.antt =====
-- The same request made twice of `kmalloc` (kernel/heap.c), which does not look at `in_use`.
use jordan_os.Base.{
  ℕ, zero, suc, ◌+◌, ◌-◌, ◌*◌, ◌≤◌, ◌<◌, ◌≡◌, ◌≢◌, ◌⊎◌, inl, inr, refl, Bool, true, false, some,
  List, [], ◌∷◌, ◌++◌, length, length-append, arith, leb, leb→le, leb→lt, le→leb, lt→leb,
  if◌then◌else◌, Bool-cases, Option-cases,
}
use mathlib.Core.Path.{subst}
use jordan_os.Heap.{Heap, kmalloc}
use jordan_os.Heap.Blocks.{header_size, Block, block}
use jordan_os.Heap.Resize.{front_of, rest_of}
use jordan_os.Heap.Place.{place_take, place_skip, Short, Short-of_none}
use jordan_os.Heap.Taken.{used, carve, place}
use jordan_os.Heap.Inv.{IsHeap}
use jordan_os.Heap.Kmalloc.{kmalloc-place}
use jordan_os.Heap.Grown.{kmalloc-grow, kmalloc-exhausted}
use jordan_os.Pmm.{Pmm, pmm_alloc}
use jordan_os.Pmm.Alloc.{Allocated, AllocOutcome, pmm_alloc_lem}

-- `place` answers with this address.
abbrev Answers : ℕ → List Block → ℕ → Type 0
Answers n bs a = (cs : List Block) × (place n bs ≡ some (a, cs))

place_here :
    (n : ℕ) (b : Block) (bs : List Block) → n ≤ b.size → Answers n (b ∷ bs) (b.addr + header_size)
unfolding place
place_here n b bs fits = (carve n b bs, rw (le→leb n b.size fits))

place_later :
    (n : ℕ) (b : Block) (bs : List Block) (a : ℕ)
    → b.size < n
    → Answers n bs a
    → Answers n (b ∷ bs) a
unfolding place
place_later n b bs a short (cs, e) = (b ∷ cs, rw (lt→leb n b.size short, e))

place-carve :
    (n : ℕ) (b : Block) (bs : List Block)
    → n ≤ b.size
    → Answers n (carve n b bs) (b.addr + header_size)
place-carve n b bs fits = go (leb (n + header_size + 4) b.size)
  where
    go :
        (t : Bool)
        → Answers n
            (if t then front_of b n ∷ rest_of b n ∷ bs else used b ∷ bs)
            (b.addr + header_size)
    go true = place_here n (front_of b n) (rest_of b n ∷ bs) (omega arith)
    go false = place_here n (used b) bs fits

place-place :
    (n : ℕ) (bs : List Block) (a : ℕ) (cs : List Block) → place n bs ≡ some (a, cs) → Answers n cs a
place-place n [] a cs e = unfold place in cc
place-place n (b ∷ bs) a cs e = elim (Bool-cases (leb n b.size)) [
  | inl fits ↦
      let (at_b, cut) = place_take n b bs a cs (leb→le n b.size fits) e in
      subst (λ x. Answers n cs x) at_b
        (subst (λ xs. Answers n xs (b.addr + header_size)) cut
          (place-carve n b bs (leb→le n b.size fits)))
  | inr short ↦
      let (ds, found, is) = place_skip n b bs a cs (leb→lt n b.size short) e in
      subst (λ xs. Answers n xs a) is
        (place_later n b ds a (leb→lt n b.size short) (place-place n bs a ds found))
]

place-append :
    (n : ℕ) (bs cs : List Block) (a : ℕ) → Short n bs → Answers n cs a → Answers n (bs ++ cs) a
place-append n [] cs a short found = found
place-append n (b ∷ bs) cs a (s, short) found =
    place_later n b (bs ++ cs) a s (place-append n bs cs a short found)

length-carve : (n : ℕ) (b : Block) (bs : List Block) → length (carve n b bs) ≤ length bs + 2
length-carve n b bs = go (leb (n + header_size + 4) b.size)
  where
    go :
        (t : Bool)
        → length (if t then front_of b n ∷ rest_of b n ∷ bs else used b ∷ bs) ≤ length bs + 2
    go true = omega arith
    go false = omega arith

-- One request adds at most one block.
pub length-place :
    (n : ℕ) (bs : List Block) (a : ℕ) (cs : List Block)
    → place n bs ≡ some (a, cs)
    → length cs ≤ length bs + 1
length-place n [] a cs e = unfold place in cc
length-place n (b ∷ bs) a cs e = elim (Bool-cases (leb n b.size)) [
  | inl fits ↦
      let (at_b, cut) = place_take n b bs a cs (leb→le n b.size fits) e in
      subst (λ (xs : List Block). length xs ≤ length (b ∷ bs) + 1) cut
        (omega (arith, length-carve n b bs))
  | inr short ↦
      let (ds, found, is) = place_skip n b bs a cs (leb→lt n b.size short) e in
      subst (λ (xs : List Block). length xs ≤ length (b ∷ bs) + 1) is
        (omega (arith, length-place n bs a ds found))
]

-- The request comes out with an address, null or one that the same request made again comes out
-- with too.
abbrev pub Repeats : ℕ → ℕ → Heap → Type 0
Repeats fuel n h =
    (a : ℕ) × (h' : Heap) × (kmalloc fuel n h ≡ some (a, h'))
    × ((a ≡ 0) ⊎ ((h'' : Heap) × (kmalloc fuel n h' ≡ some (a, h''))))

Repeats-placed :
    (fuel n : ℕ) (h : Heap) (bs : List Block)
    → IsHeap h bs
    → n ≤ 4096 - header_size
    → length bs + 3 < fuel
    → (a : ℕ) (cs : List Block) → place n bs ≡ some (a, cs)
    → Repeats fuel n h
Repeats-placed fuel n h bs is small f a cs e =
    let (h', first, is', _) = kmalloc-place fuel n h bs a cs is small (omega arith) e in
    let (ds, again) = place-place n bs a cs e in
    let (h'', second, _, _) =
      kmalloc-place fuel n h' cs a ds is' small (omega (arith, length-place n bs a cs e)) again in
    (a, h', first, inr (h'', second))

Repeats-grown :
    (fuel n : ℕ) (h : Heap) (b : Block) (bs : List Block)
    → IsHeap h (b ∷ bs)
    → n ≤ 4096 - header_size
    → length (b ∷ bs) + 3 < fuel
    → Short n (b ∷ bs)
    → (i : ℕ) (q : Pmm) → pmm_alloc h.pmm ≡ some (i * 4096, q)
    → Allocated h.pmm i (i * 4096) q
    → i ≢ 0
    → Repeats fuel n h
Repeats-grown fuel n h b bs is small f short i q got a ne =
    let page = block (i * 4096) (4096 - header_size) 0 in
    let (h', first, is', _) =
      kmalloc-grow n i h q b bs is small a ne fuel (omega arith) short got in
    let (ds, again) =
      place-append n (b ∷ bs) (carve n page []) _ short (place-carve n page [] small) in
    let (h'', second, _, _) =
      kmalloc-place fuel n h' ((b ∷ bs) ++ carve n page []) (i * 4096 + header_size) ds is' small
        (omega (arith, length-append (b ∷ bs) (carve n page []), length-carve n page [])) again in
    (i * 4096 + header_size, h', first, inr (h'', second))

Repeats-outcome :
    (fuel n : ℕ) (h : Heap) (b : Block) (bs : List Block)
    → IsHeap h (b ∷ bs)
    → n ≤ 4096 - header_size
    → length (b ∷ bs) + 3 < fuel
    → Short n (b ∷ bs)
    → (addr : ℕ) (q : Pmm) → pmm_alloc h.pmm ≡ some (addr, q)
    → AllocOutcome h.pmm addr q
    → Repeats fuel n h
Repeats-outcome fuel n h b bs is small f short addr q got (inl (used, null, same)) = (
  0,
  record h { pmm = q },
  (kmalloc-exhausted n fuel h q b bs is small (omega arith) short (inl (used, refl, same))
      (subst (λ x. pmm_alloc h.pmm ≡ some (x, q)) null got)).0,
  inl refl,
)
Repeats-outcome fuel n h b bs is small f short addr q got (inr (zero, a)) =
    let null : addr ≡ 0 = omega (arith, a.address) in
    (
      0,
      record h { pmm = q },
      (kmalloc-exhausted n fuel h q b bs is small (omega arith) short
          (inr (zero, subst (λ x. Allocated h.pmm 0 x q) null a))
          (subst (λ x. pmm_alloc h.pmm ≡ some (x, q)) null got)).0,
      inl refl,
    )
Repeats-outcome fuel n h b bs is small f short addr q got (inr (suc i, a)) =
    Repeats-grown fuel n h b bs is small f short (suc i) q
      (subst (λ x. pmm_alloc h.pmm ≡ some (x, q)) a.address got)
      (subst (λ x. Allocated h.pmm (suc i) x q) a.address a) (omega arith)

-- On a heap of one or more blocks, with fuel for them, a request of at most a page less a header
-- never faults, and it returns null or an address that the same request made again returns too:
-- the second caller is given the block that the first one still holds.
pub kmalloc-Repeats :
    (fuel n : ℕ) (h : Heap) (b : Block) (bs : List Block)
    → IsHeap h (b ∷ bs)
    → n ≤ 4096 - header_size
    → length (b ∷ bs) + 3 < fuel
    → Repeats fuel n h
kmalloc-Repeats fuel n h b bs is small f = elim (Option-cases (place n (b ∷ bs))) [
  | inl none_fits ↦
      let (addr, q, got, o, valid) = pmm_alloc_lem h.pmm is.pages in
      Repeats-outcome fuel n h b bs is small f (Short-of_none n (b ∷ bs) none_fits) addr q got o
  | inr ((a, cs), e) ↦ Repeats-placed fuel n h (b ∷ bs) is small f a cs e
]
