-- ===== src/Heap/Place.antt =====
-- The walk of `kmalloc` over the blocks, as a function of the list of blocks.
use mathlib.Core.Path.{subst, subst₂}
use jordan_os.Base.{
  ℕ, zero, suc, ◌+◌, ◌^◌, ◌≤◌, ◌<◌, ◌≡◌, ◌≢◌, refl, ap, ◌∙◌, true, false, Option, none, some, List,
  [], ◌∷◌, All, length, arith, leb, inl, inr, Bool-cases, some_pair, leb→le, leb→lt, beq_of_ne,
  le→leb, lt→leb,
}
use jordan_os.Heap.{Heap, kmalloc_loop, grow}
use jordan_os.Heap.Blocks.{
  Header, header_size, Block, end_of, Chain, Apart, SameOutside, Away-of_Disjoint, Chain-cons,
  header_of_Chain,
}
use jordan_os.Heap.Taken.{carve, with_front, place, Low, taken, taken-Chain}

-- The loop returns what `place` says, and leaves the chain of the blocks that `place` says.
pub record Placed (n prev p : ℕ) (bs : List Block) (old : Option ℕ) (fuel : ℕ) (h : Heap) (a : ℕ)
    (bs' : List Block) : Type 0 where
  pub at' : ℕ → Header
  pub returns : kmalloc_loop fuel n p old h ≡ some (a, record h { at = at' })
  pub chain : Chain at' prev p bs'
  pub same : SameOutside bs h.at at'

loop_step :
    (fuel n prev p : ℕ) (old : Option ℕ) (h : Heap) (b : Block) (bs : List Block)
    → Chain h.at prev p (b ∷ bs)
    → n ≤ b.size
    → kmalloc_loop (suc fuel) n p old h
      ≡ some (b.addr + header_size, record h { at = taken n b h.at })
unfolding kmalloc_loop
loop_step fuel n prev p old h b bs (is, ne, size, in_use, back, rest) fits =
    rw (is, beq_of_ne b.addr 0 ne, size, le→leb n b.size fits) (ground arith)

loop_skip :
    (fuel n prev p : ℕ) (old : Option ℕ) (h : Heap) (b : Block) (bs : List Block)
    → Chain h.at prev p (b ∷ bs)
    → b.size < n
    → kmalloc_loop (suc fuel) n p old h ≡ kmalloc_loop fuel n (h.at b.addr).next (some b.addr) h
unfolding kmalloc_loop
loop_skip fuel n prev p old h b bs (is, ne, size, in_use, back, rest) short =
    rw (is, beq_of_ne b.addr 0 ne, size, lt→leb n b.size short)

-- `place` on a first block that is long enough, or too short.
pub place_take :
    (n : ℕ) (b : Block) (bs : List Block) (a : ℕ) (cs : List Block)
    → n ≤ b.size
    → place n (b ∷ bs) ≡ some (a, cs)
    → (b.addr + header_size ≡ a) × (carve n b bs ≡ cs)
unfolding place
place_take n b bs a cs fits e = some_pair (rw (le→leb n b.size fits) at e)

pub place_skip :
    (n : ℕ) (b : Block) (bs : List Block) (a : ℕ) (cs : List Block)
    → b.size < n
    → place n (b ∷ bs) ≡ some (a, cs)
    → (ds : List Block) × (place n bs ≡ some (a, ds)) × (b ∷ ds ≡ cs)
unfolding place
place_skip n b bs a cs short e = go (place n bs) refl (rw (lt→leb n b.size short) at e)
  where
    go :
        (o : Option (ℕ × List Block))
        → place n bs ≡ o
        → with_front b o ≡ some (a, cs)
        → (ds : List Block) × (place n bs ≡ some (a, ds)) × (b ∷ ds ≡ cs)
    go none found q = cc
    go (some (x, ds)) found q =
        (ds, found ∙ ap (λ (y : ℕ). some (y, ds)) ((some_pair q).0), (some_pair q).1)

Placed-take :
    (fuel n prev p : ℕ) (old : Option ℕ) (h : Heap) (b : Block) (bs : List Block)
    → Chain h.at prev p (b ∷ bs)
    → Apart (b ∷ bs)
    → end_of b ≤ 2 ^ 32
    → n ≤ b.size
    → Placed n prev p (b ∷ bs) old (suc fuel) h (b.addr + header_size) (carve n b bs)
Placed-take fuel n prev p old h b bs c apart low fits = record {
  at' = taken n b h.at;
  returns = loop_step fuel n prev p old h b bs c fits;
  chain = (taken-Chain h.at prev p n b bs fits low c apart).0;
  same = (taken-Chain h.at prev p n b bs fits low c apart).1;
}

Placed-skip :
    (fuel n prev p : ℕ) (old : Option ℕ) (h : Heap) (b : Block) (bs : List Block) (a : ℕ)
    (ds : List Block)
    → Chain h.at prev p (b ∷ bs)
    → Apart (b ∷ bs)
    → b.size < n
    → Placed n b.addr (h.at b.addr).next bs (some b.addr) fuel h a ds
    → Placed n prev p (b ∷ bs) old (suc fuel) h a (b ∷ ds)
Placed-skip fuel n prev p old h b bs a ds c apart short rest =
    let kept : rest.at' b.addr ≡ h.at b.addr =
      rest.same b.addr c.1 (Away-of_Disjoint b bs apart.0) in
    record {
      at' = rest.at';
      returns = loop_skip fuel n prev p old h b bs c short ∙ rest.returns;
      chain = rw c.0 (
          Chain-cons rest.at' prev b.addr b.size b.in_use (h.at b.addr).next ds c.1
            (kept ∙ header_of_Chain h.at prev p b bs c) rest.chain);
      same = λ x null (out, away). rest.same x null away;
    }

pub kmalloc_loop_found :
    (fuel n prev p : ℕ) (old : Option ℕ) (h : Heap) (bs : List Block) (a : ℕ) (bs' : List Block)
    → Chain h.at prev p bs
    → Apart bs
    → Low bs
    → length bs < fuel
    → place n bs ≡ some (a, bs')
    → Placed n prev p bs old fuel h a bs'
kmalloc_loop_found zero n prev p old h bs a bs' c apart low f e = absurd (omega arith)
kmalloc_loop_found (suc fuel) n prev p old h [] a bs' c apart low f e = unfold place in cc
kmalloc_loop_found (suc fuel) n prev p old h (b ∷ bs) a bs' c apart low f e =
    elim (Bool-cases (leb n b.size)) [
      | inl fits ↦
          let (at_b, cut) = place_take n b bs a bs' (leb→le n b.size fits) e in
          subst₂ (Placed n prev p (b ∷ bs) old (suc fuel) h) at_b cut
            (Placed-take fuel n prev p old h b bs c apart low.0 (leb→le n b.size fits))
      | inr short ↦
          let (ds, found, is) = place_skip n b bs a bs' (leb→lt n b.size short) e in
          subst (Placed n prev p (b ∷ bs) old (suc fuel) h a) is (
            Placed-skip fuel n prev p old h b bs a ds c apart (leb→lt n b.size short) (
              kmalloc_loop_found fuel n b.addr (h.at b.addr).next (some b.addr) h bs a ds c.5
                apart.1 low.1 (omega arith) found))
    ]

-- With no block long enough the loop comes to its end with the last block in `old`.
abbrev pub last_of : Option ℕ → List Block → Option ℕ
last_of old [] = old
last_of old (b ∷ bs) = last_of (some b.addr) bs

abbrev pub Short : ℕ → List Block → Type 0
Short n = All (λ b. b.size < n)

pub kmalloc_loop_end :
    (fuel n prev p : ℕ) (old : Option ℕ) (h : Heap) (bs : List Block)
    → Chain h.at prev p bs
    → length bs < fuel
    → Short n bs
    → kmalloc_loop fuel n p old h ≡ grow n (last_of old bs) h
kmalloc_loop_end zero n prev p old h bs c f short = absurd (omega arith)
kmalloc_loop_end (suc fuel) n prev p old h [] c f short = unfold kmalloc_loop in rw c
kmalloc_loop_end (suc fuel) n prev p old h (b ∷ bs) c f (short, more) =
    loop_skip fuel n prev p old h b bs c short
    ∙ kmalloc_loop_end fuel n b.addr (h.at b.addr).next (some b.addr) h bs c.5 (omega arith) more

place-none_tail :
    (n : ℕ) (b : Block) (bs : List Block)
    → leb n b.size ≡ false
    → place n (b ∷ bs) ≡ none
    → place n bs ≡ none
unfolding place
place-none_tail n b bs short e = go (place n bs) (rw short at e)
  where
    go : (o : Option (ℕ × List Block)) → with_front b o ≡ none → o ≡ none
    go none q = refl
    go (some r) q = cc

place-none_fits :
    (n : ℕ) (b : Block) (bs : List Block) → leb n b.size ≡ true → place n (b ∷ bs) ≢ none
unfolding place
place-none_fits n b bs fits e = ground arith

pub Short-of_none : (n : ℕ) (bs : List Block) → place n bs ≡ none → Short n bs
Short-of_none n [] e = tt
Short-of_none n (b ∷ bs) e = elim (Bool-cases (leb n b.size)) [
  | inl fits ↦ absurd (place-none_fits n b bs fits e)
  | inr short ↦ (leb→lt n b.size short, Short-of_none n bs (place-none_tail n b bs short e))
]
