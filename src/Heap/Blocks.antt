-- ===== src/Heap/Blocks.antt =====
-- Block headers, and the list of blocks that a chain of headers stands for.
use mathlib.Core.Path.{subst}
use jordan_os.Base.{ℕ, ◌+◌, ◌≤◌, ◌<◌, ◌≡◌, ◌≢◌, ◌⊎◌, List, [], ◌∷◌, All, arith, refl, ap, sym}

-- `block_header_t`: a `uint32_t`, a `uint8_t`, three bytes of padding and two pointers.
pub record Header : Type 0 where
  pub size : ℕ
  pub in_use : ℕ
  pub next : ℕ
  pub prev : ℕ

abbrev pub header_size : ℕ
header_size = 24

-- A block as the allocator's user sees it: where its header lies, how many bytes follow the
-- header, and whether they are handed out.
pub record Block : Type 0 where
  pub addr : ℕ
  pub size : ℕ
  pub in_use : ℕ

abbrev pub end_of : Block → ℕ
end_of b = b.addr + header_size + b.size

-- From `p` on the headers are those of the blocks, linked both ways; the first one's `prev` is
-- `prev`, and the last one's `next` is null.
abbrev pub Chain : (ℕ → Header) → ℕ → ℕ → List Block → Type 0
Chain at prev p [] = p ≡ 0
Chain at prev p (b ∷ bs) =
    (p ≡ b.addr)
    × (b.addr ≢ 0)
    × ((at b.addr).size ≡ b.size)
    × ((at b.addr).in_use ≡ b.in_use)
    × ((at b.addr).prev ≡ prev)
    × Chain at b.addr (at b.addr).next bs

abbrev pub Disjoint : Block → Block → Type 0
Disjoint b c = (end_of b ≤ c.addr) ⊎ (end_of c ≤ b.addr)

-- The address lies in none of the blocks.
abbrev pub Away : ℕ → List Block → Type 0
Away a bs = All (λ b. (a < b.addr) ⊎ (end_of b ≤ a)) bs

abbrev pub Apart : List Block → Type 0
Apart [] = Unit
Apart (b ∷ bs) = All (Disjoint b) bs × Apart bs

-- Headers outside the blocks are as before.
abbrev pub SameOutside : List Block → (ℕ → Header) → (ℕ → Header) → Type 0
SameOutside bs at at' = (a : ℕ) → a ≢ 0 → Away a bs → at' a ≡ at a

pub Away-of_Disjoint : (b : Block) (bs : List Block) → All (Disjoint b) bs → Away b.addr bs
Away-of_Disjoint b [] h = tt
Away-of_Disjoint b (c ∷ bs) (d, h) = (omega arith, Away-of_Disjoint b bs h)

-- A chain survives a change of the headers that spares its own.
pub Chain-frame :
    (at at' : ℕ → Header) (prev p : ℕ) (bs : List Block)
    → Chain at prev p bs
    → All (λ b. at' b.addr ≡ at b.addr) bs
    → Chain at' prev p bs
Chain-frame at at' prev p [] c same = c
Chain-frame at at' prev p (b ∷ bs) (is, ne, size, used, back, rest) (e, same) =
    rw e (is, ne, size, used, back, Chain-frame at at' b.addr (at b.addr).next bs rest same)

pub Chain-SameOutside :
    (zs : List Block) (at at' : ℕ → Header) (prev p : ℕ) (bs : List Block)
    → SameOutside zs at at'
    → Chain at prev p bs
    → All (λ b. Away b.addr zs) bs
    → Chain at' prev p bs
Chain-SameOutside zs at at' prev p [] same c away = c
Chain-SameOutside zs at at' prev p (b ∷ bs) same (is, ne, size, used, back, rest) (away, more) =
    rw (same b.addr ne away) (
      is,
      ne,
      size,
      used,
      back,
      Chain-SameOutside zs at at' b.addr (at b.addr).next bs same rest more,
    )

pub Away-one :
    (b : Block) (cs : List Block) → All (Disjoint b) cs → All (λ c. Away c.addr (b ∷ [])) cs
Away-one b [] h = tt
Away-one b (c ∷ cs) (d, h) = ((omega arith, tt), Away-one b cs h)

pub Away-two :
    (b c : Block) (ds : List Block)
    → All (Disjoint b) ds
    → All (Disjoint c) ds
    → All (λ d. Away d.addr (b ∷ c ∷ [])) ds
Away-two b c [] h k = tt
Away-two b c (d ∷ ds) (x, h) (y, k) = ((omega arith, (omega arith, tt)), Away-two b c ds h k)

abbrev pub block : ℕ → ℕ → ℕ → Block
block a n u = record { addr = a; size = n; in_use = u }

abbrev pub header : ℕ → ℕ → ℕ → ℕ → Header
header n u next prev = record { size = n; in_use = u; next = next; prev = prev }

-- A header and a chain behind it make a longer chain.
pub Chain-cons :
    (at : ℕ → Header) (prev a n u next : ℕ) (bs : List Block)
    → a ≢ 0
    → at a ≡ header n u next prev
    → Chain at a next bs
    → Chain at prev a (block a n u ∷ bs)
Chain-cons at prev a n u next bs ne e rest = (
  refl,
  ne,
  ap (λ (h : Header). h.size) e,
  ap (λ (h : Header). h.in_use) e,
  ap (λ (h : Header). h.prev) e,
  subst (λ q. Chain at a q bs) (sym (ap (λ (h : Header). h.next) e)) rest,
)

-- The header that starts a chain.
pub header_of_Chain :
    (at : ℕ → Header) (prev p : ℕ) (b : Block) (bs : List Block)
    → Chain at prev p (b ∷ bs)
    → at b.addr ≡ header b.size b.in_use (at b.addr).next prev
header_of_Chain at prev p b bs (is, ne, size, used, back, rest) = ground arith
