-- ===== src/Heap/Return.antt =====
-- A request of `kmalloc` (kernel/heap.c) that `kfree` takes back.
use mathlib.Core.Path.{subst}
use jordan_os.Base.{
  ℕ, ◌+◌, ◌-◌, ◌≤◌, ◌<◌, ◌≡◌, ◌≢◌, ◌⊎◌, refl, ap, sym, ◌∙◌, inl, inr, true, false, Bool-cases, some,
  List, [], ◌∷◌, All, length, arith, leb, leb→le, leb→lt, ◌==◌, ◌&&◌, beq_of_eq, beq_of_ne,
}
use jordan_os.Heap.{Heap, kmalloc, kfree}
use jordan_os.Heap.Blocks.{header_size, Block, Disjoint, Apart}
use jordan_os.Heap.Resize.{front_of, rest_of}
use jordan_os.Heap.Join.{merged, freed, joins, join}
use jordan_os.Heap.Place.{place_take, place_skip}
use jordan_os.Heap.Taken.{used, carve, place}
use jordan_os.Heap.Inv.{IsHeap}
use jordan_os.Heap.Merge.{Holds}
use jordan_os.Heap.Release.{takes, release, release_after}
use jordan_os.Heap.Kmalloc.{kmalloc-place}
use jordan_os.Heap.Kfree.{Holds-ne, kfree-release}

-- The block and the next one, if there is one, do not both wait to be joined.
abbrev Alone : Block → List Block → Type 0
Alone b [] = Unit
Alone b (c ∷ cs) = (takes b c && (c.in_use == 0)) ≡ false

-- No free block meets a free block behind it.
abbrev pub Joined : List Block → Type 0
Joined [] = Unit
Joined (b ∷ bs) = Alone b bs × Joined bs

-- The block whose bytes begin at `a`, if there is one, is free.
abbrev pub FreeAt : ℕ → List Block → Type 0
FreeAt a bs = All (λ b. (b.addr + header_size ≢ a) ⊎ (b.in_use ≡ 0)) bs

-- A block that was free is what it is when it is freed.
freed-used : (b : Block) → b.in_use ≡ 0 → freed (used b) ≡ b
freed-used b free = ap (λ u. record b { in_use = u }) (sym free)

merged_back :
    (n : ℕ) (b : Block)
    → n + header_size ≤ b.size
    → b.in_use ≡ 0
    → freed (merged (front_of b n) (rest_of b n)) ≡ b
merged_back n b room free =
    let whole : n + (b.size - n - header_size) + header_size ≡ b.size = omega arith in
    ap (λ s. record b { size = s; in_use = 0 }) whole ∙ freed-used b free

-- What freeing makes of the blocks that a request was carved into.
carve_back :
    (n : ℕ) (b : Block) (bs : List Block)
    → n ≤ b.size
    → b.in_use ≡ 0
    → Alone b bs
    → (f : Block) × (rest : List Block) × (carve n b bs ≡ f ∷ rest)
      × (f.addr ≡ b.addr)
      × (join f rest ≡ b ∷ bs)
carve_back n b bs fits free alone = elim (Bool-cases (leb (n + header_size + 4) b.size)) [
  | inl room ↦
      let le = leb→le (n + header_size + 4) b.size room in
      let meets : joins (front_of b n) (rest_of b n) ≡ true = ground arith in
      (
        front_of b n,
        rest_of b n ∷ bs,
        rw room refl,
        refl,
        rw meets (ap (λ c. c ∷ bs) (merged_back n b (omega arith) free)),
      )
  | inr whole ↦ (used b, bs, rw whole refl, refl, whole_back bs alone)
]
  where
    whole_back : (cs : List Block) → Alone b cs → join (used b) cs ≡ b ∷ cs
    whole_back [] alone = ap (λ c. c ∷ []) (freed-used b free)
    whole_back (c ∷ cs) apart =
        let away : joins (used b) c ≡ false = ground (arith, apart, free) in
        rw away (ap (λ d. d ∷ c ∷ cs) (freed-used b free))

-- What a request leaves, and what freeing it gives back, on its own and behind a block.
record Returned (a : ℕ) (bs cs : List Block) : Type 0 where
  start : ℕ
  behind : a ≡ start + header_size
  there : Holds start bs
  held : Holds start cs
  alone : release start cs ≡ bs
  after : (p : Block) → Alone p bs → release_after start p cs ≡ p ∷ bs

Returned-here :
    (n : ℕ) (b : Block) (bs : List Block)
    → n ≤ b.size
    → b.in_use ≡ 0
    → Alone b bs
    → Returned (b.addr + header_size) (b ∷ bs) (carve n b bs)
unfolding release release_after
Returned-here n b bs fits free apart =
    let (f, rest, same, at, back) = carve_back n b bs fits free apart in
    subst (Returned (b.addr + header_size) (b ∷ bs)) (sym same) (record {
      start = b.addr;
      behind = refl;
      there = inl refl;
      held = inl at;
      alone = rw (beq_of_eq f.addr b.addr at) back;
      after = λ p free_p.
          let stays : takes p f ≡ false = ground (arith, at, free_p, free) in
          rw (beq_of_eq f.addr b.addr at, stays) (ap (λ ds. p ∷ ds) back);
    })

Returned-later :
    (a : ℕ) (b : Block) (bs ds : List Block)
    → All (Disjoint b) bs
    → Alone b bs
    → Returned a bs ds
    → Returned a (b ∷ bs) (b ∷ ds)
unfolding release release_after
Returned-later a b bs ds apart free r =
    let ne = beq_of_ne b.addr r.start (Holds-ne b bs r.start apart r.there) in
    record {
      start = r.start;
      behind = r.behind;
      there = inr r.there;
      held = inr r.held;
      alone = rw ne (r.after b free);
      after = λ p free_p. rw ne (ap (λ xs. p ∷ xs) (r.after b free));
    }

place-Returned :
    (n : ℕ) (bs : List Block) (a : ℕ) (cs : List Block)
    → Apart bs
    → Joined bs
    → place n bs ≡ some (a, cs)
    → FreeAt a bs
    → Returned a bs cs
place-Returned n [] a cs apart joined e free = unfold place in cc
place-Returned n (b ∷ bs) a cs (apart, more) (alone, joined) e (here, free) =
    elim (Bool-cases (leb n b.size)) [
      | inl fits ↦
          let le = leb→le n b.size fits in
          let (at_b, cut) = place_take n b bs a cs le e in
          let was_free : b.in_use ≡ 0 = elim here [ inl ne ↦ absurd (ne at_b) | inr z ↦ z ] in
          subst (λ x. Returned x (b ∷ bs) cs) at_b
            (subst (Returned (b.addr + header_size) (b ∷ bs)) cut
              (Returned-here n b bs le was_free alone))
      | inr short ↦
          let (ds, found, is) = place_skip n b bs a cs (leb→lt n b.size short) e in
          subst (Returned a (b ∷ bs)) is
            (Returned-later a b bs ds apart alone (place-Returned n bs a ds more joined found free))
    ]

-- On a heap in which no free block meets a free one behind it, with fuel for its blocks, a request of
-- at most a page less a header that is given a free block never faults, and `kfree` of the address
-- that it returns leaves a heap with the blocks from before, and the page allocator as it was.
pub kfree-kmalloc :
    (fuel n : ℕ) (h : Heap) (bs : List Block) (a : ℕ) (cs : List Block)
    → IsHeap h bs
    → Joined bs
    → n ≤ 4096 - header_size
    → length bs < fuel
    → place n bs ≡ some (a, cs)
    → FreeAt a bs
    → (h' : Heap) × (kmalloc fuel n h ≡ some (a, h'))
      × IsHeap (kfree a h') bs
      × ((kfree a h').pmm ≡ h.pmm)
kfree-kmalloc fuel n h bs a cs is joined small f e free =
    let (h', run, is', same) = kmalloc-place fuel n h bs a cs is small f e in
    let r = place-Returned n bs a cs is.apart joined e free in
    let (is'', same') = kfree-release h' cs r.start is' r.held in
    (
      h',
      run,
      subst (λ x. IsHeap (kfree x h') bs) (sym r.behind)
          (subst (IsHeap (kfree (r.start + header_size) h')) r.alone is''),
      subst (λ x. (kfree x h').pmm ≡ h.pmm) (sym r.behind) (same' ∙ same),
    )
