-- ===== src/Heap/Resize.antt =====
-- `resize_block` of kernel/heap.c, on a chain of blocks.
use jordan_os.Base.{ℕ, ◌+◌, ◌-◌, ◌^◌, ◌≤◌, ◌≡◌, ◌≢◌, refl, List, [], ◌∷◌, arith}
use jordan_os.Heap.{set_in_use, resize_block}
use jordan_os.Heap.Blocks.{
  Header, header_size, Block, end_of, Chain, Apart, SameOutside, Chain-SameOutside, Chain-cons,
  header, header_of_Chain, block, Away-two,
}

-- The block cut to `n` bytes and handed out, and the free rest behind it.
abbrev pub front_of : Block → ℕ → Block
front_of b n = block b.addr n 1

abbrev pub rest_of : Block → ℕ → Block
rest_of b n = block (b.addr + header_size + n) (b.size - n - header_size) 0

module _ (at : ℕ → Header) (b : Block) (n : ℕ) (room : n + header_size ≤ b.size)
    (small : end_of b ≤ 2 ^ 32) where
  abbrev split : ℕ → Header
  split = set_in_use b.addr 1 (resize_block b.addr n at)

  module _ (size : (at b.addr).size ≡ b.size) where
    split_front :
        (at b.addr).next ≢ b.addr
        → split b.addr ≡ record {
          size = n;
          in_use = 1;
          next = b.addr + header_size + n;
          prev = (at b.addr).prev;
        }
    unfolding set_in_use resize_block
    split_front ne = ground arith

    split_rest :
        (at b.addr).next ≢ b.addr + header_size + n
        → split (b.addr + header_size + n) ≡ record {
          size = b.size - n - header_size;
          in_use = 0;
          next = (at b.addr).next;
          prev = b.addr;
        }
    unfolding set_in_use resize_block
    split_rest ne = ground arith

  split_next :
      (at b.addr).next ≢ 0
      → (at b.addr).next ≢ b.addr
      → (at b.addr).next ≢ b.addr + header_size + n
      → split (at b.addr).next ≡ record (at (at b.addr).next) { prev = b.addr + header_size + n }
  unfolding set_in_use resize_block
  split_next null self rest = ground arith

  split_other :
      (a : ℕ)
      → a ≢ 0
      → a ≢ b.addr
      → a ≢ b.addr + header_size + n
      → a ≢ (at b.addr).next
      → split a ≡ at a
  unfolding set_in_use resize_block
  split_other a zero_ne self rest next = ground arith

  split-SameOutside :
      (bs : List Block) → Chain at b.addr (at b.addr).next bs → SameOutside (b ∷ bs) at split
  split-SameOutside [] null a ne (away, _) =
      split_other a ne (omega arith) (omega arith) (ground arith)
  split-SameOutside (c ∷ bs) (is, ne', size, used, back, more) a ne (away, (other, _)) =
      split_other a ne (omega arith) (omega arith) (rw is (omega arith))

-- Splitting the first block of a chain and handing out its front: both parts lie in the place of
-- the block, and no header outside the blocks changes.
pub split-Chain :
    (at : ℕ → Header) (prev p : ℕ) (b : Block) (bs : List Block) (n : ℕ)
    → n + header_size ≤ b.size
    → end_of b ≤ 2 ^ 32
    → Chain at prev p (b ∷ bs)
    → Apart (b ∷ bs)
    → let at' = set_in_use b.addr 1 (resize_block b.addr n at) in
      Chain at' prev p (front_of b n ∷ rest_of b n ∷ bs) × SameOutside (b ∷ bs) at at'
split-Chain at prev p b [] n room small (is, ne, size, used, back, null) apart =
    let at' = set_in_use b.addr 1 (resize_block b.addr n at) in
    let front = split_front at b n room small size (omega arith) in
    let rest = split_rest at b n room small size (omega arith) in
    (
      rw is (
          Chain-cons at' prev b.addr n 1 (b.addr + header_size + n) (rest_of b n ∷ []) ne
            (rw back at front)
            (Chain-cons at' b.addr (b.addr + header_size + n) (b.size - n - header_size) 0 0 []
              (omega arith) (rw null at rest) refl)),
      split-SameOutside at b n room small [] null,
    )
split-Chain at prev p b (c ∷ cs) n room small (is, ne, size, used, back, tail)
      (apart, (apart', more)) =
    let at' = set_in_use b.addr 1 (resize_block b.addr n at) in
    let new = b.addr + header_size + n in
    let next : (at b.addr).next ≡ c.addr = tail.0 in
    let front = split_front at b n room small size (omega (arith, apart.0)) in
    let rest = split_rest at b n room small size (omega (arith, apart.0)) in
    let other =
      split_next at b n room small (omega (arith, tail.1)) (omega (arith, apart.0))
        (omega (arith, apart.0)) in
    let old = header_of_Chain at b.addr (at b.addr).next c cs tail in
    let changed : at' c.addr ≡ header c.size c.in_use (at c.addr).next new =
      ground (arith, next, other, old) in
    let same : SameOutside (b ∷ c ∷ []) at at' = λ a null (x, (y, _)).
      split_other at b n room small a null (omega arith) (omega arith) (omega arith) in
    (
      rw is (
          Chain-cons at' prev b.addr n 1 new (rest_of b n ∷ c ∷ cs) ne (rw back at front) (
            Chain-cons at' b.addr new (b.size - n - header_size) 0 c.addr (c ∷ cs) (omega arith)
              (rw next at rest)
              (Chain-cons at' new c.addr c.size c.in_use (at c.addr).next cs tail.1 changed (
                Chain-SameOutside (b ∷ c ∷ []) at at' c.addr (at c.addr).next cs same tail.5
                  (Away-two b c cs apart.1 apart'))))),
      split-SameOutside at b n room small (c ∷ cs) tail,
    )
