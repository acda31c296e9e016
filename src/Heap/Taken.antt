-- ===== src/Heap/Taken.antt =====
-- The list of blocks after a request, and the chain of the block that is handed out.
use mathlib.Core.Path.{subst₂}
use jordan_os.Base.{
  ℕ, ◌+◌, ◌^◌, ◌≤◌, ◌≡◌, sym, ap, Bool, true, false, Option, none, some, List, [], ◌∷◌, All, arith,
  leb, if◌then◌else◌, inl, inr, Bool-cases, leb→le, leb→lt, sub32, le→leb, lt→leb,
}
use jordan_os.Heap.{set_in_use, resize_block}
use jordan_os.Heap.Blocks.{
  Header, header_size, Block, end_of, Chain, Apart, SameOutside, Chain-SameOutside, Chain-cons,
  header_of_Chain, Away-one,
}
use jordan_os.Heap.Resize.{front_of, rest_of, split-Chain}

abbrev pub used : Block → Block
used b = record b { in_use = 1 }

-- The block handed out for `n` bytes, split if at least 4 bytes remain behind a second header.
abbrev pub carve : ℕ → Block → List Block → List Block
carve n b bs =
    if leb (n + header_size + 4) b.size then front_of b n ∷ rest_of b n ∷ bs else used b ∷ bs

abbrev pub with_front : Block → Option (ℕ × List Block) → Option (ℕ × List Block)
with_front b none = none
with_front b (some (a, cs)) = some (a, b ∷ cs)

-- The request is met by the first block that is long enough, whether or not it is in use.
unfoldable pub place : ℕ → List Block → Option (ℕ × List Block)
place n [] = none
place n (b ∷ bs) =
    let rest = with_front b (place n bs) in
    if leb n b.size then some (b.addr + header_size, carve n b bs) else rest

-- Every block ends below 4 GiB.
abbrev pub Low : List Block → Type 0
Low = All (λ b. end_of b ≤ 2 ^ 32)

-- What the two branches of the loop write for a block that is long enough.
abbrev pub taken : ℕ → Block → (ℕ → Header) → ℕ → Header
taken n b at =
    if leb (header_size + 4) (sub32 b.size n)
    then set_in_use b.addr 1 (resize_block b.addr n at)
    else set_in_use b.addr 1 at

pub mark-Chain :
    (at : ℕ → Header) (prev p u : ℕ) (b : Block) (bs : List Block)
    → Chain at prev p (b ∷ bs)
    → Apart (b ∷ bs)
    → Chain (set_in_use b.addr u at) prev p (record b { in_use = u } ∷ bs)
      × SameOutside (b ∷ bs) at (set_in_use b.addr u at)
unfolding set_in_use
mark-Chain at prev p u b bs c apart =
    let at' = set_in_use b.addr u at in
    let old = header_of_Chain at prev p b bs c in
    let same : SameOutside (b ∷ []) at at' = λ a null (x, _). ground arith in
    (
      rw c.0 (
          Chain-cons at' prev b.addr b.size u (at b.addr).next bs c.1 (ground (arith, old)) (
            Chain-SameOutside (b ∷ []) at at' b.addr (at b.addr).next bs same c.5
              (Away-one b bs apart.0))),
      λ a null (x, _). ground arith,
    )

pub taken-Chain :
    (at : ℕ → Header) (prev p n : ℕ) (b : Block) (bs : List Block)
    → n ≤ b.size
    → end_of b ≤ 2 ^ 32
    → Chain at prev p (b ∷ bs)
    → Apart (b ∷ bs)
    → Chain (taken n b at) prev p (carve n b bs) × SameOutside (b ∷ bs) at (taken n b at)
taken-Chain at prev p n b bs fits low c apart =
    elim (Bool-cases (leb (n + header_size + 4) b.size)) [
      | inl long ↦
          let test : leb (header_size + 4) (sub32 b.size n) ≡ true =
            le→leb _ _ (omega (arith, leb→le _ _ long)) in
          subst₂ Done (sym (ap (λ t. pick t) test)) (sym (ap (λ t. cut t) long))
            (split-Chain at prev p b bs n (omega (arith, leb→le _ _ long)) low c apart)
      | inr short ↦
          let test : leb (header_size + 4) (sub32 b.size n) ≡ false =
            lt→leb _ _ (omega (arith, leb→lt _ _ short)) in
          subst₂ Done (sym (ap (λ t. pick t) test)) (sym (ap (λ t. cut t) short))
            (mark-Chain at prev p 1 b bs c apart)
    ]
  where
    Done : (ℕ → Header) → List Block → Type 0
    Done at' cs = Chain at' prev p cs × SameOutside (b ∷ bs) at at'

    pick : Bool → ℕ → Header
    pick t = if t then set_in_use b.addr 1 (resize_block b.addr n at) else set_in_use b.addr 1 at

    cut : Bool → List Block
    cut t = if t then front_of b n ∷ rest_of b n ∷ bs else used b ∷ bs
