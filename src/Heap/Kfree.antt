-- ===== src/Heap/Kfree.antt =====
-- `kfree` of kernel/heap.c against `release` on the list of blocks.
use jordan_os.Base.{
  ℕ, ◌+◌, ◌≡◌, ◌≢◌, refl, sym, ◌∙◌, Bool, true, false, List, [], ◌∷◌, All, arith, ◌==◌,
  if◌then◌else◌, not, ◌&&◌, inl, inr, beq_of_ne, beq_of_eq,
}
use mathlib.Core.Path.{subst}
use jordan_os.Heap.{Heap, meets, kfree}
use jordan_os.Heap.Blocks.{
  Header, header_size, Block, end_of, Chain, Disjoint, Apart, SameOutside, Chain-cons,
  header_of_Chain, Away-of_Disjoint,
}
use jordan_os.Heap.Taken.{Low}
use jordan_os.Heap.Inv.{IsHeap, Misses}
use jordan_os.Heap.Join.{
  merged, join, absorb, absorb-Chain, settled, settled-Chain, SameOutside-trans, Away-merged,
  merged-Apart,
}
use jordan_os.Heap.Release.{
  takes, release_after, release, release-All, release-Apart, Misses-Joinable, Low-Joinable,
}
use jordan_os.Heap.Merge.{Holds, Stays, kfree-Stays, kfree-Moves}

-- `kfree` of the block at `a` leaves the chain of these blocks in the place of those.
record Released (h : Heap) (a prev p : ℕ) (bs bs' : List Block) : Type 0 where
  at' : ℕ → Header
  returns : kfree (a + header_size) h ≡ record h { at = at' }
  chain : Chain at' prev p bs'
  same : SameOutside bs h.at at'

Released-here :
    (h : Heap) (prev p : ℕ) (b : Block) (bs : List Block)
    → Chain h.at prev p (b ∷ bs)
    → Apart (b ∷ bs)
    → Low (b ∷ bs)
    → Stays prev b.addr h.at
    → Released h b.addr prev p (b ∷ bs) (join b bs)
Released-here h prev p b bs ch apart low stays = record {
  at' = settled b.addr h.at;
  returns =
      kfree-Stays h b.addr (omega (arith, low.0))
        (subst (λ q. Stays q b.addr h.at) (sym ch.4) stays);
  chain = (settled-Chain h.at prev p b bs ch apart low).0;
  same = (settled-Chain h.at prev p b bs ch apart low).1;
}

next_ne :
    (at : ℕ → Header) (prev p : ℕ) (b c : Block) (cs : List Block)
    → Chain at prev p (b ∷ c ∷ cs)
    → Apart (b ∷ c ∷ cs)
    → (at c.addr).next ≢ b.addr
next_ne at prev p b c [] ch apart = omega (arith, ch.5.5, ch.1)
next_ne at prev p b c (d ∷ ds) ch apart = omega (arith, ch.5.5.0, apart.0.1.0)

merged-Low :
    (b c : Block) (cs : List Block) → end_of b ≡ c.addr → Low (b ∷ c ∷ cs) → Low (merged b c ∷ cs)
merged-Low b c cs e low = (omega (arith, low.1.0), low.1.1)

Released-prev :
    (h : Heap) (prev p : ℕ) (b c : Block) (cs : List Block)
    → Chain h.at prev p (b ∷ c ∷ cs)
    → Apart (b ∷ c ∷ cs)
    → Low (b ∷ c ∷ cs)
    → takes b c ≡ true
    → Released h c.addr prev p (b ∷ c ∷ cs) (join (merged b c) cs)
unfolding meets
Released-prev h prev p b c cs ch apart low t =
    let e : end_of b ≡ c.addr = ground arith in
    let at1 = absorb b.addr c.addr (h.at c.addr).next h.at in
    let (first, same) = absorb-Chain h.at prev p b c cs ch apart e low.1.0 in
    let (second, same') =
      settled-Chain at1 prev p (merged b c) cs first (merged-Apart b c cs e apart)
        (merged-Low b c cs e low) in
    record {
      at' = settled b.addr at1;
      returns =
          kfree-Moves h c.addr b.addr (omega (arith, low.1.0)) ch.5.4
            (moves (h.at b.addr) ch.1 ch.2 ch.3) (next_ne h.at prev p b c cs ch apart);
      chain = second;
      same =
          SameOutside-trans (b ∷ c ∷ cs) (merged b c ∷ cs) h.at at1 (settled b.addr at1) same same'
            (Away-merged b c cs e);
    }
  where
    moves :
        (x : Header)
        → b.addr ≢ 0
        → x.size ≡ b.size
        → x.in_use ≡ b.in_use
        → (not (b.addr == 0) && ((b.addr + header_size + x.size) == c.addr) && (x.in_use == 0))
          ≡ true
    moves x null size used = ground arith

-- A first block that stays what it was.
Released-keep :
    (h : Heap) (a prev p : ℕ) (b : Block) (bs cs : List Block)
    → Chain h.at prev p (b ∷ bs)
    → Apart (b ∷ bs)
    → Released h a b.addr (h.at b.addr).next bs cs
    → Released h a prev p (b ∷ bs) (b ∷ cs)
Released-keep h a prev p b bs cs ch apart rest =
    let kept : rest.at' b.addr ≡ h.at b.addr =
      rest.same b.addr ch.1 (Away-of_Disjoint b bs apart.0) in
    record {
      at' = rest.at';
      returns = rest.returns;
      chain = rw ch.0 (
          Chain-cons rest.at' prev b.addr b.size b.in_use (h.at b.addr).next cs ch.1
            (kept ∙ header_of_Chain h.at prev p b bs ch) rest.chain);
      same = λ x null (out, away). rest.same x null away;
    }

-- The second of two blocks is freed, and the first one takes it or does not.
Released-second :
    (h : Heap) (prev p : ℕ) (b c : Block) (cs : List Block)
    → Chain h.at prev p (b ∷ c ∷ cs)
    → Apart (b ∷ c ∷ cs)
    → Low (b ∷ c ∷ cs)
    → Released h c.addr prev p
        (b ∷ c ∷ cs)
        (if takes b c then join (merged b c) cs else b ∷ join c cs)
unfolding meets
Released-second h prev p b c cs ch apart low = go (takes b c) refl
  where
    stays :
        (x : Header)
        → x.size ≡ b.size
        → x.in_use ≡ b.in_use
        → takes b c ≡ false
        → (not (b.addr == 0) && ((b.addr + header_size + x.size) == c.addr) && (x.in_use == 0))
          ≡ false
    stays x size used e = ground arith

    go :
        (t : Bool)
        → takes b c ≡ t
        → Released h c.addr prev p (b ∷ c ∷ cs) (if t then join (merged b c) cs else b ∷ join c cs)
    go true e = Released-prev h prev p b c cs ch apart low e
    go false e = Released-keep h c.addr prev p b (c ∷ cs) (join c cs) ch apart (
        Released-here h b.addr (h.at b.addr).next c cs ch.5 apart.1 low.1
          (stays (h.at b.addr) ch.2 ch.3 e))

pub Holds-ne : (c : Block) (cs : List Block) (a : ℕ) → All (Disjoint c) cs → Holds a cs → c.addr ≢ a
Holds-ne c [] a h at = absurd at
Holds-ne c (d ∷ ds) a (x, h) (inl here) = omega arith
Holds-ne c (d ∷ ds) a (x, h) (inr there) = Holds-ne c ds a h there

release_after_later :
    (a : ℕ) (b c : Block) (cs : List Block)
    → c.addr ≢ a
    → b ∷ release_after a c cs ≡ release_after a b (c ∷ cs)
unfolding release_after
release_after_later a b c cs ne = rw (beq_of_ne c.addr a ne)

Released-after :
    (h : Heap) (a prev p : ℕ) (b : Block) (bs : List Block)
    → Chain h.at prev p (b ∷ bs)
    → Apart (b ∷ bs)
    → Low (b ∷ bs)
    → Holds a bs
    → Released h a prev p (b ∷ bs) (release_after a b bs)
Released-after h a prev p b [] ch apart low at = absurd at
Released-after h a prev p b (c ∷ cs) ch apart low (inl here) =
    unfold release_after in
    rw (← here, beq_of_eq c.addr c.addr refl) (Released-second h prev p b c cs ch apart low)
Released-after h a prev p b (c ∷ cs) ch apart low (inr there) =
    subst (Released h a prev p (b ∷ c ∷ cs))
      (release_after_later a b c cs (Holds-ne c cs a apart.1.0 there))
      (Released-keep h a prev p b (c ∷ cs) (release_after a c cs) ch apart
        (Released-after h a b.addr (h.at b.addr).next c cs ch.5 apart.1 low.1 there))

Released-all :
    (h : Heap) (a p : ℕ) (bs : List Block)
    → Chain h.at 0 p bs
    → Apart bs
    → Low bs
    → Holds a bs
    → Released h a 0 p bs (release a bs)
unfolding release
Released-all h a p [] ch apart low at = absurd at
Released-all h a p (b ∷ bs) ch apart low (inl here) =
    rw (← here, beq_of_eq b.addr b.addr refl) (Released-here h 0 p b bs ch apart low refl)
Released-all h a p (b ∷ bs) ch apart low (inr there) =
    rw (beq_of_ne b.addr a (Holds-ne b bs a apart.0 there))
      (Released-after h a 0 p b bs ch apart low there)

-- Freeing the block at `a` leaves the heap holding the blocks that `release` says: that block is
-- marked free and joined with the neighbours that are free and meet it. The invariant is kept,
-- and the page allocator is left alone.
pub kfree-release :
    (h : Heap) (bs : List Block) (a : ℕ)
    → IsHeap h bs
    → Holds a bs
    → IsHeap (kfree (a + header_size) h) (release a bs) × ((kfree (a + header_size) h).pmm ≡ h.pmm)
kfree-release h bs a is at =
    let r = Released-all h a h.head bs is.chain is.apart is.low at in
    subst (λ h'. IsHeap h' (release a bs) × (h'.pmm ≡ h.pmm)) (sym r.returns)
      (
        record {
          chain = r.chain;
          apart = release-Apart a bs is.apart;
          low = release-All _ Low-Joinable a bs is.low;
          pages = is.pages;
          owned = λ j b free. release-All (Misses j) (Misses-Joinable j) a bs (is.owned j b free);
        },
        refl,
      )
