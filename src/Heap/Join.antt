-- ===== src/Heap/Join.antt =====
-- The two merges of `kfree` (kernel/heap.c), each of a block with the one behind it.
use jordan_os.Base.{
  ℕ, ◌+◌, ◌^◌, ◌≤◌, ◌≡◌, ◌≢◌, refl, ap, sym, ◌∙◌, Bool, true, false, List, [], ◌∷◌, All, arith,
  ◌==◌, if◌then◌else◌, ◌&&◌, u32, Bool-cases, inl, inr,
}
use mathlib.Core.Path.{subst, subst₂}
use jordan_os.Heap.{put, set_in_use, link_back, meets, merge_next}
use jordan_os.Heap.Blocks.{
  Header, header_size, Block, end_of, Chain, Disjoint, Away, Apart, SameOutside, Chain-SameOutside,
  Chain-cons, header, header_of_Chain, block, Away-two,
}
use jordan_os.Heap.Taken.{Low, mark-Chain}

-- The block with the header and the bytes of the one behind it.
abbrev pub merged : Block → Block → Block
merged b c = block b.addr (b.size + c.size + header_size) b.in_use

-- What either merge writes.
unfoldable pub absorb : ℕ → ℕ → ℕ → (ℕ → Header) → ℕ → Header
absorb b c n at =
    link_back n b (
      put b (record (at b) { size = u32 ((at b).size + ((at c).size + header_size)); next = n }) at)

module _ (at : ℕ → Header) (b c n : ℕ) (ne : n ≢ b) where
  pub absorb_self :
      absorb b c n at b
      ≡ record (at b) { size = u32 ((at b).size + ((at c).size + header_size)); next = n }
  unfolding absorb link_back put
  absorb_self = ground arith

  absorb_next : n ≢ 0 → absorb b c n at n ≡ record (at n) { prev = b }
  unfolding absorb link_back put
  absorb_next null = ground arith

  absorb_other : (a : ℕ) → a ≢ 0 → a ≢ b → a ≢ n → absorb b c n at a ≡ at a
  unfolding absorb link_back put
  absorb_other a null x y = ground arith

pub absorb-Chain :
    (at : ℕ → Header) (prev p : ℕ) (b c : Block) (bs : List Block)
    → Chain at prev p (b ∷ c ∷ bs)
    → Apart (b ∷ c ∷ bs)
    → end_of b ≡ c.addr
    → end_of c ≤ 2 ^ 32
    → let at' = absorb b.addr c.addr (at c.addr).next at in
      Chain at' prev p (merged b c ∷ bs) × SameOutside (b ∷ c ∷ bs) at at'
absorb-Chain at prev p b c [] ch apart adjacent low =
    let n = (at c.addr).next in
    let at' = absorb b.addr c.addr n at in
    let old = header_of_Chain at prev p b (c ∷ []) ch in
    let old' = header_of_Chain at b.addr (at b.addr).next c [] ch.5 in
    let null : n ≡ 0 = ch.5.5 in
    let self : at' b.addr ≡ header (b.size + c.size + header_size) b.in_use 0 prev =
      ground (arith, absorb_self at b.addr c.addr n (omega (arith, ch.1)), old, old', null) in
    (
      rw ch.0
          (Chain-cons at' prev b.addr (b.size + c.size + header_size) b.in_use 0 [] ch.1 self refl),
      λ a ne (away, _).
          absorb_other at b.addr c.addr n (omega (arith, ch.1)) a ne (omega arith) (omega arith),
    )
absorb-Chain at prev p b c (d ∷ ds) ch apart adjacent low =
    let n = (at c.addr).next in
    let at' = absorb b.addr c.addr n at in
    let old = header_of_Chain at prev p b (c ∷ d ∷ ds) ch in
    let old' = header_of_Chain at b.addr (at b.addr).next c (d ∷ ds) ch.5 in
    let tail = ch.5.5 in
    let next : n ≡ d.addr = tail.0 in
    let ne : n ≢ b.addr = omega (arith, apart.0.1.0) in
    let old'' = header_of_Chain at c.addr n d ds tail in
    let self : at' b.addr ≡ header (b.size + c.size + header_size) b.in_use d.addr prev =
      ground (arith, absorb_self at b.addr c.addr n ne, old, old', next) in
    let other : at' d.addr ≡ header d.size d.in_use (at d.addr).next b.addr =
      ground (arith, absorb_next at b.addr c.addr n ne (omega (arith, tail.1)), old'', next) in
    let same : SameOutside (b ∷ d ∷ []) at at' =
      λ a null (x, (y, _)). absorb_other at b.addr c.addr n ne a null (omega arith) (omega arith) in
    (
      rw ch.0 (
          Chain-cons at' prev b.addr (b.size + c.size + header_size) b.in_use d.addr (d ∷ ds) ch.1
            self
            (Chain-cons at' b.addr d.addr d.size d.in_use (at d.addr).next ds tail.1 other (
              Chain-SameOutside (b ∷ d ∷ []) at at' d.addr (at d.addr).next ds same tail.5
                (Away-two b d ds apart.0.1.1 apart.1.1.0)))),
      λ a null (x, (y, (z, _))).
          absorb_other at b.addr c.addr n ne a null (omega arith) (omega arith),
    )

-- The block freed, and joined with the one behind it if that is free and begins where it ends.
abbrev pub freed : Block → Block
freed b = record b { in_use = 0 }

abbrev pub joins : Block → Block → Bool
joins b c = (end_of b == c.addr) && (c.in_use == 0)

abbrev pub join : Block → List Block → List Block
join b [] = freed b ∷ []
join b (c ∷ cs) = if joins b c then freed (merged b c) ∷ cs else freed b ∷ c ∷ cs

merge_next_none : (at : ℕ → Header) (b : ℕ) → merge_next b 0 at ≡ at
unfolding merge_next
merge_next_none at b = refl

merge_next-joins :
    (at : ℕ → Header) (prev p : ℕ) (b c : Block) (cs : List Block)
    → Chain at prev p (b ∷ c ∷ cs)
    → joins b c ≡ true
    → merge_next b.addr (at b.addr).next at ≡ absorb b.addr c.addr (at c.addr).next at
unfolding merge_next absorb meets put
merge_next-joins at prev p b c cs ch j = rw (ch.5.0) (ground (arith, ch.2, ch.5.1, ch.5.3))

merge_next_keeps :
    (at : ℕ → Header) (prev p : ℕ) (b c : Block) (cs : List Block)
    → Chain at prev p (b ∷ c ∷ cs)
    → joins b c ≡ false
    → merge_next b.addr (at b.addr).next at ≡ at
unfolding merge_next meets
merge_next_keeps at prev p b c cs ch j = rw (ch.5.0) (ground (arith, ch.2, ch.5.1, ch.5.3))

-- The end of `kfree`: the second merge, and the mark.
abbrev pub settled : ℕ → (ℕ → Header) → ℕ → Header
settled b at = set_in_use b 0 (merge_next b (at b).next at)

pub SameOutside-trans :
    (bs cs : List Block) (at at' at'' : ℕ → Header)
    → SameOutside bs at at'
    → SameOutside cs at' at''
    → ((a : ℕ) → Away a bs → Away a cs)
    → SameOutside bs at at''
SameOutside-trans bs cs at at' at'' f g sub a ne away = g a ne (sub a away) ∙ f a ne away

pub Away-merged :
    (b c : Block) (cs : List Block)
    → end_of b ≡ c.addr
    → (a : ℕ) → Away a (b ∷ c ∷ cs)
    → Away a (merged b c ∷ cs)
Away-merged b c cs e a (x, (y, z)) = (omega arith, z)

pub merged-Apart :
    (b c : Block) (cs : List Block)
    → end_of b ≡ c.addr
    → Apart (b ∷ c ∷ cs)
    → Apart (merged b c ∷ cs)
merged-Apart b c cs e (x, (y, z)) = (go cs x.1 y, z)
  where
    go :
        (ds : List Block)
        → All (Disjoint b) ds
        → All (Disjoint c) ds
        → All (Disjoint (merged b c)) ds
    go [] p q = tt
    go (d ∷ ds) (p, ps) (q, qs) = (omega arith, go ds ps qs)

-- Freeing the first block of a chain.
pub settled-Chain :
    (at : ℕ → Header) (prev p : ℕ) (b : Block) (bs : List Block)
    → Chain at prev p (b ∷ bs)
    → Apart (b ∷ bs)
    → Low (b ∷ bs)
    → Chain (settled b.addr at) prev p (join b bs) × SameOutside (b ∷ bs) at (settled b.addr at)
settled-Chain at prev p b [] ch apart low =
    subst
      (λ at'.
        Chain (set_in_use b.addr 0 at') prev p (freed b ∷ [])
        × SameOutside (b ∷ []) at (set_in_use b.addr 0 at'))
      (sym (ap (λ n. merge_next b.addr n at) ch.5 ∙ merge_next_none at b.addr))
      (mark-Chain at prev p 0 b [] ch apart)
settled-Chain at prev p b (c ∷ cs) ch apart low = elim (Bool-cases (joins b c)) [
  | inl j ↦
      let at1 = absorb b.addr c.addr (at c.addr).next at in
      let e : end_of b ≡ c.addr = ground arith in
      let (first, same) = absorb-Chain at prev p b c cs ch apart e low.1.0 in
      let (second, same') =
        mark-Chain at1 prev p 0 (merged b c) cs first (merged-Apart b c cs e apart) in
      subst₂ Done (sym (merge_next-joins at prev p b c cs ch j)) (sym (ap (λ t. pick t) j)) (
        second,
        SameOutside-trans (b ∷ c ∷ cs) (merged b c ∷ cs) at at1 (set_in_use b.addr 0 at1) same same'
            (Away-merged b c cs e),
      )
  | inr k ↦
      subst₂ Done (sym (merge_next_keeps at prev p b c cs ch k)) (sym (ap (λ t. pick t) k))
        (mark-Chain at prev p 0 b (c ∷ cs) ch apart)
]
  where
    Done : (ℕ → Header) → List Block → Type 0
    Done at' bs =
        Chain (set_in_use b.addr 0 at') prev p bs
        × SameOutside (b ∷ c ∷ cs) at (set_in_use b.addr 0 at')

    pick : Bool → List Block
    pick t = if t then freed (merged b c) ∷ cs else freed b ∷ c ∷ cs
