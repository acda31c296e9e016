-- ===== src/Heap/Release.antt =====
-- What `kfree` does to the list of blocks.
use jordan_os.Base.{
  ℕ, ◌^◌, ◌≤◌, ◌≡◌, Bool, true, false, List, [], ◌∷◌, All, arith, ◌==◌, if◌then◌else◌, ◌&&◌, refl,
}
use jordan_os.Heap.Blocks.{Block, end_of, Disjoint, Apart}
use jordan_os.Heap.Inv.{Misses}
use jordan_os.Heap.Join.{merged, freed, joins, join}

-- The free block `b` ends where `c` begins.
abbrev pub takes : Block → Block → Bool
takes b c = (end_of b == c.addr) && (b.in_use == 0)

-- The block at `a`, behind `b`, is freed and joined with its neighbours where they are free and
-- meet it.
unfoldable pub release_after : ℕ → Block → List Block → List Block
release_after a b [] = b ∷ []
release_after a b (c ∷ cs) =
    let further = b ∷ release_after a c cs in
    if c.addr == a then (if takes b c then join (merged b c) cs else b ∷ join c cs) else further

unfoldable pub release : ℕ → List Block → List Block
unfolding release_after
release a [] = []
release a (b ∷ bs) = if b.addr == a then join b bs else release_after a b bs

-- A statement about blocks that marks do not change, and that two blocks that meet hand on to
-- their union.
pub record Joinable (P : Block → Type 0) : Type 0 where
  pub marked : (b : Block) (u : ℕ) → P b → P (record b { in_use = u })
  pub union : (b c : Block) → end_of b ≡ c.addr → P b → P c → P (merged b c)

module _ (P : Block → Type 0) (ok : Joinable P) where
  pub join-All : (b : Block) (bs : List Block) → P b → All P bs → All P (join b bs)
  join-All b [] p ps = (ok.marked b 0 p, tt)
  join-All b (c ∷ cs) p (q, ps) = go (joins b c) refl
    where
      go :
          (t : Bool)
          → joins b c ≡ t
          → All P (if t then freed (merged b c) ∷ cs else freed b ∷ c ∷ cs)
      go true e = (ok.marked (merged b c) 0 (ok.union b c (ground arith) p q), ps)
      go false e = (ok.marked b 0 p, (q, ps))

  pub release_after-All :
      (a : ℕ) (b : Block) (bs : List Block) → P b → All P bs → All P (release_after a b bs)
  unfolding release_after
  release_after-All a b [] p ps = (p, tt)
  release_after-All a b (c ∷ cs) p (q, ps) =
      go (c.addr == a) (takes b c) refl (release_after a c cs) (release_after-All a c cs q ps)
    where
      go :
          (s t : Bool)
          → takes b c ≡ t
          → (rest : List Block) → All P rest
          → All P (if s then (if t then join (merged b c) cs else b ∷ join c cs) else b ∷ rest)
      go true true e rest h = join-All (merged b c) cs (ok.union b c (ground arith) p q) ps
      go true false e rest h = (p, join-All c cs q ps)
      go false t e rest h = (p, h)

  pub release-All : (a : ℕ) (bs : List Block) → All P bs → All P (release a bs)
  unfolding release
  release-All a [] ps = tt
  release-All a (b ∷ bs) (p, ps) = go (b.addr == a)
    where
      go : (s : Bool) → All P (if s then join b bs else release_after a b bs)
      go true = join-All b bs p ps
      go false = release_after-All a b bs p ps

pub Disjoint-Joinable : (x : Block) → Joinable (Disjoint x)
Disjoint-Joinable x = record { marked = λ b u h. omega arith; union = λ b c e h k. omega arith }

pub Misses-Joinable : (j : ℕ) → Joinable (Misses j)
Misses-Joinable j = record { marked = λ b u h. omega arith; union = λ b c e h k. omega arith }

pub Low-Joinable : Joinable (λ b. end_of b ≤ 2 ^ 32)
Low-Joinable = record { marked = λ b u h. omega arith; union = λ b c e h k. omega arith }

All-merged :
    (b c : Block) (ds : List Block)
    → end_of b ≡ c.addr
    → All (Disjoint b) ds
    → All (Disjoint c) ds
    → All (Disjoint (merged b c)) ds
All-merged b c [] e h k = tt
All-merged b c (d ∷ ds) e (x, h) (y, k) = (omega arith, All-merged b c ds e h k)

All-marked :
    (b : Block) (u : ℕ) (ds : List Block)
    → All (Disjoint b) ds
    → All (Disjoint (record b { in_use = u })) ds
All-marked b u [] h = tt
All-marked b u (d ∷ ds) (x, h) = (omega arith, All-marked b u ds h)

join-Apart : (b : Block) (bs : List Block) → Apart (b ∷ bs) → Apart (join b bs)
join-Apart b [] apart = (tt, tt)
join-Apart b (c ∷ cs) ((x, h), (k, more)) = go (joins b c) refl
  where
    go :
        (t : Bool) → joins b c ≡ t → Apart (if t then freed (merged b c) ∷ cs else freed b ∷ c ∷ cs)
    go true e = (All-marked (merged b c) 0 cs (All-merged b c cs (ground arith) h k), more)
    go false e = (All-marked b 0 (c ∷ cs) (x, h), (k, more))

release_after-Apart :
    (a : ℕ) (b : Block) (bs : List Block) → Apart (b ∷ bs) → Apart (release_after a b bs)
unfolding release_after
release_after-Apart a b [] apart = (tt, tt)
release_after-Apart a b (c ∷ cs) ((x, h), (k, more)) =
    go (c.addr == a) (takes b c) refl (release_after a c cs)
      (release_after-All (Disjoint b) (Disjoint-Joinable b) a c cs x h)
      (release_after-Apart a c cs (k, more))
  where
    go :
        (s t : Bool)
        → takes b c ≡ t
        → (rest : List Block) → All (Disjoint b) rest
        → Apart rest
        → Apart (if s then (if t then join (merged b c) cs else b ∷ join c cs) else b ∷ rest)
    go true true e rest out apart =
        join-Apart (merged b c) cs (All-merged b c cs (ground arith) h k, more)
    go true false e rest out apart =
        (join-All (Disjoint b) (Disjoint-Joinable b) c cs x h, join-Apart c cs (k, more))
    go false t e rest out apart = (out, apart)

pub release-Apart : (a : ℕ) (bs : List Block) → Apart bs → Apart (release a bs)
unfolding release
release-Apart a [] apart = tt
release-Apart a (b ∷ bs) apart = go (b.addr == a)
  where
    go : (s : Bool) → Apart (if s then join b bs else release_after a b bs)
    go true = join-Apart b bs apart
    go false = release_after-Apart a b bs apart
