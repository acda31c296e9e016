-- ===== src/Heap/Grow.antt =====
-- `kmalloc` of kernel/heap.c when no block is long enough: a new page behind the last block.
use jordan_os.Base.{
  ℕ, ◌+◌, ◌-◌, ◌≤◌, ◌<◌, ◌≡◌, ◌≢◌, ◌⊎◌, refl, ◌∙◌, Option, some, none, List, [], ◌∷◌, ◌++◌, All,
  arith, beq_of_ne,
}
use jordan_os.Heap.{Heap, put, set_next, grow}
use jordan_os.Heap.Blocks.{
  Header, header_size, Block, end_of, Chain, Disjoint, Away, Apart, Chain-cons, header_of_Chain,
  header, block,
}
use jordan_os.Heap.Place.{last_of}
use jordan_os.Heap.Taken.{taken}
use jordan_os.Pmm.{Pmm, pmm_alloc}

-- The address of the last of one or more blocks.
abbrev pub last_addr : Block → List Block → ℕ
last_addr b [] = b.addr
last_addr b (c ∷ bs) = last_addr c bs

pub last_of_lem :
    (old : Option ℕ) (b : Block) (bs : List Block) → last_of old (b ∷ bs) ≡ some (last_addr b bs)
last_of_lem old b [] = refl
last_of_lem old b (c ∷ bs) = last_of_lem (some b.addr) c bs

last_ne : (b c : Block) (bs : List Block) → All (Disjoint b) (c ∷ bs) → b.addr ≢ last_addr c bs
last_ne b c [] (x, _) = omega arith
last_ne b c (d ∷ bs) (x, h) = last_ne b d bs h

pub last-Disjoint :
    (b c : Block) (bs : List Block)
    → All (Disjoint b) (c ∷ bs)
    → (last_addr c bs < b.addr) ⊎ (end_of b ≤ last_addr c bs)
last-Disjoint b c [] (x, _) = omega arith
last-Disjoint b c (d ∷ bs) (x, h) = last-Disjoint b d bs h

pub last_ne_zero :
    (at : ℕ → Header) (prev p : ℕ) (b : Block) (bs : List Block)
    → Chain at prev p (b ∷ bs)
    → last_addr b bs ≢ 0
last_ne_zero at prev p b [] c = c.1
last_ne_zero at prev p b (d ∷ bs) c = last_ne_zero at b.addr (at b.addr).next d bs c.5

-- The last block's `next` comes to lead to a further chain.
pub Chain-extend :
    (at at' : ℕ → Header) (new prev p : ℕ) (b : Block) (bs cs : List Block) (page : Block)
    → Chain at prev p (b ∷ bs)
    → Apart (b ∷ bs)
    → All (Disjoint page) (b ∷ bs)
    → at' (last_addr b bs) ≡ record (at (last_addr b bs)) { next = new }
    → ((a : ℕ) → a ≢ 0 → a ≢ last_addr b bs → Away a (page ∷ []) → at' a ≡ at a)
    → Chain at' (last_addr b bs) new cs
    → Chain at' prev p ((b ∷ bs) ++ cs)
Chain-extend at at' new prev p b [] cs page c apart out changed same tail =
    let old = header_of_Chain at prev p b [] c in
    rw c.0
      (Chain-cons at' prev b.addr b.size b.in_use new cs c.1 (ground (arith, changed, old)) tail)
Chain-extend at at' new prev p b (d ∷ bs) cs page c apart out changed same tail =
    let old = header_of_Chain at prev p b (d ∷ bs) c in
    let kept : at' b.addr ≡ at b.addr =
      same b.addr c.1 (last_ne b d bs apart.0) (omega (arith, out.0), tt) in
    rw c.0 (
      Chain-cons at' prev b.addr b.size b.in_use (at b.addr).next ((d ∷ bs) ++ cs) c.1 (kept ∙ old)
        (Chain-extend at at' new b.addr (at b.addr).next d bs cs page c.5 apart.1 out.1 changed same
          tail))

-- The headers after a new page at `new` has been linked behind the block at `l`.
unfoldable pub linked : ℕ → ℕ → (ℕ → Header) → ℕ → Header
linked l new at =
    let at1 = set_next l new at in
    put new (record (at1 new) { prev = l; next = 0; size = 4096 - header_size }) at1

-- The block of a page that was just linked; its `in_use` is whatever the memory held.
abbrev pub page_block : ℕ → (ℕ → Header) → Block
page_block new at = block new (4096 - header_size) (at new).in_use

module _ (l new : ℕ) (at : ℕ → Header) (apart : l ≢ new) where
  pub linked_new : linked l new at new ≡ header (4096 - header_size) (at new).in_use 0 l
  unfolding linked set_next
  linked_new = ground arith

  pub linked_last : linked l new at l ≡ record (at l) { next = new }
  unfolding linked set_next
  linked_last = ground arith

  pub linked_other : (a : ℕ) → a ≢ l → a ≢ new → linked l new at a ≡ at a
  unfolding linked set_next
  linked_other a x y = ground arith

pub grow_lem :
    (n l new : ℕ) (h : Heap) (q : Pmm)
    → pmm_alloc h.pmm ≡ some (new, q)
    → new ≢ 0
    → grow n (some l) h
      ≡ some (
        new + header_size,
        record h { at = taken n (page_block new h.at) (linked l new h.at); pmm = q },
      )
unfolding grow linked
grow_lem n l new h q got ne = rw (got, beq_of_ne new 0 ne) (ground arith)

pub grow_none :
    (n : ℕ) (old : Option ℕ) (h : Heap) (q : Pmm)
    → pmm_alloc h.pmm ≡ some (0, q)
    → grow n old h ≡ some (0, record h { pmm = q })
unfolding grow
grow_none n old h q got = rw got

-- Without a last block `old_block` is read uninitialised.
pub grow_uninitialised :
    (n new : ℕ) (h : Heap) (q : Pmm)
    → pmm_alloc h.pmm ≡ some (new, q)
    → new ≢ 0
    → grow n none h ≡ none
unfolding grow
grow_uninitialised n new h q got ne = rw (got, beq_of_ne new 0 ne)
