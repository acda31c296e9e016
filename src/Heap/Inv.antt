-- ===== src/Heap/Inv.antt =====
-- The allocator's invariant, and what placing a request does to the places of the blocks.
use jordan_os.Base.{
  ℕ, ◌+◌, ◌*◌, ◌^◌, ◌≤◌, ◌<◌, ◌≡◌, ◌⊎◌, inl, inr, refl, Bool, some, List, [], ◌∷◌, ◌++◌, All,
  All-append, arith, leb, if◌then◌else◌, Bool-cases, leb→le, leb→lt, true, false,
}
use mathlib.Core.Path.{subst}
use jordan_os.Heap.{Heap}
use jordan_os.Heap.Blocks.{header_size, Block, end_of, Chain, Disjoint, Apart}
use jordan_os.Heap.Resize.{front_of, rest_of}
use jordan_os.Heap.Place.{place_take, place_skip}
use jordan_os.Heap.Taken.{used, carve, place, Low}
use jordan_os.Pmm.Bitmap.{page_bit}
use jordan_os.Pmm.Count.{IsValid}

-- The block does not touch the page.
abbrev pub Misses : ℕ → Block → Type 0
Misses j b = (end_of b ≤ j * 4096) ⊎ ((j + 1) * 4096 ≤ b.addr)

-- The headers are a chain of the blocks, which do not overlap, end below 4 GiB, and touch no page
-- that the page allocator takes for free.
pub record IsHeap (h : Heap) (bs : List Block) : Type 0 where
  pub chain : Chain h.at 0 h.head bs
  pub apart : Apart bs
  pub low : Low bs
  pub pages : IsValid h.pmm
  pub owned : (j : ℕ) → j < h.pmm.pages_num → page_bit h.pmm.bitmap j ≡ 0 → All (Misses j) bs

-- A statement about blocks that holds of every block inside a block of which it holds.
abbrev pub Inherited : (Block → Type 0) → Type 0
Inherited P = (b c : Block) → b.addr ≤ c.addr → end_of c ≤ end_of b → P b → P c

pub carve-All :
    (P : Block → Type 0)
    → Inherited P
    → (n : ℕ) (b : Block) (bs : List Block) → n ≤ b.size
    → P b
    → All P bs
    → All P (carve n b bs)
carve-All P down n b bs fits pb ps = go (leb (n + header_size + 4) b.size) refl
  where
    go :
        (t : Bool)
        → leb (n + header_size + 4) b.size ≡ t
        → All P (if t then front_of b n ∷ rest_of b n ∷ bs else used b ∷ bs)
    go true long =
        let room = leb→le _ _ long in
        (
          down b (front_of b n) (omega arith) (omega arith) pb,
          (down b (rest_of b n) (omega arith) (omega arith) pb, ps),
        )
    go false short = (down b (used b) (omega arith) (omega arith) pb, ps)

pub place-All :
    (P : Block → Type 0)
    → Inherited P
    → (n : ℕ) (bs : List Block) (a : ℕ) (cs : List Block) → place n bs ≡ some (a, cs)
    → All P bs
    → All P cs
place-All P down n [] a cs e ps = unfold place in cc
place-All P down n (b ∷ bs) a cs e (pb, ps) = elim (Bool-cases (leb n b.size)) [
  | inl fits ↦
      subst (All P) (place_take n b bs a cs (leb→le n b.size fits) e).1
        (carve-All P down n b bs (leb→le n b.size fits) pb ps)
  | inr short ↦
      let (ds, found, is) = place_skip n b bs a cs (leb→lt n b.size short) e in
      subst (All P) is (pb, place-All P down n bs a ds found ps)
]

pub Disjoint-Inherited : (b : Block) → Inherited (Disjoint b)
Disjoint-Inherited b c d lo hi h = omega arith

pub Misses-Inherited : (j : ℕ) → Inherited (Misses j)
Misses-Inherited j b c lo hi h = omega arith

pub Low-Inherited : Inherited (λ b. end_of b ≤ 2 ^ 32)
Low-Inherited b c lo hi h = omega arith

Disjoint-inside :
    (b c : Block) (ds : List Block)
    → b.addr ≤ c.addr
    → end_of c ≤ end_of b
    → All (Disjoint b) ds
    → All (Disjoint c) ds
Disjoint-inside b c [] lo hi h = tt
Disjoint-inside b c (d ∷ ds) lo hi (x, h) = (omega arith, Disjoint-inside b c ds lo hi h)

pub carve-Apart :
    (n : ℕ) (b : Block) (bs : List Block) → n ≤ b.size → Apart (b ∷ bs) → Apart (carve n b bs)
carve-Apart n b bs fits (apart, more) = go (leb (n + header_size + 4) b.size) refl
  where
    go :
        (t : Bool)
        → leb (n + header_size + 4) b.size ≡ t
        → Apart (if t then front_of b n ∷ rest_of b n ∷ bs else used b ∷ bs)
    go true long =
        let room = leb→le _ _ long in
        (
          (omega arith, Disjoint-inside b (front_of b n) bs (omega arith) (omega arith) apart),
          (Disjoint-inside b (rest_of b n) bs (omega arith) (omega arith) apart, more),
        )
    go false short = (Disjoint-inside b (used b) bs (omega arith) (omega arith) apart, more)

pub place-Apart :
    (n : ℕ) (bs : List Block) (a : ℕ) (cs : List Block)
    → place n bs ≡ some (a, cs)
    → Apart bs
    → Apart cs
place-Apart n [] a cs e apart = unfold place in cc
place-Apart n (b ∷ bs) a cs e apart = elim (Bool-cases (leb n b.size)) [
  | inl fits ↦
      subst Apart (place_take n b bs a cs (leb→le n b.size fits) e).1
        (carve-Apart n b bs (leb→le n b.size fits) apart)
  | inr short ↦
      let (ds, found, is) = place_skip n b bs a cs (leb→lt n b.size short) e in
      subst Apart is (
        place-All (Disjoint b) (Disjoint-Inherited b) n bs a ds found apart.0,
        place-Apart n bs a ds found apart.1,
      )
]

pub Apart-append :
    (bs cs : List Block)
    → Apart bs
    → Apart cs
    → All (λ b. All (Disjoint b) cs) bs
    → Apart (bs ++ cs)
Apart-append [] cs ab ac across = ac
Apart-append (b ∷ bs) cs ab ac across =
    (All-append (Disjoint b) bs cs ab.0 across.0, Apart-append bs cs ab.1 ac across.1)
