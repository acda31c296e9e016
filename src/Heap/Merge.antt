-- ===== src/Heap/Merge.antt =====
-- What the steps of kfree do where a block joins the one before it, and where it does not.
use jordan_os.Base.{
  ℕ, ◌+◌, ◌-◌, ◌^◌, ◌<◌, ◌≡◌, ◌≢◌, ◌⊎◌, ap, sym, ◌∙◌, true, false, List, [], ◌∷◌, arith, ◌==◌, not,
  ◌&&◌, u64,
}
use jordan_os.Heap.{Heap, set_in_use, meets, merge_prev, merge_next, kfree}
use jordan_os.Heap.Blocks.{Header, header_size, Block}
use jordan_os.Heap.Join.{absorb, absorb_self, settled}

-- One of the blocks lies at the address.
abbrev pub Holds : ℕ → List Block → Type 0
Holds a [] = ⊥
Holds a (b ∷ bs) = (b.addr ≡ a) ⊎ Holds a bs

-- The first merge does not happen for a block at `a` with this `prev`.
abbrev pub Stays : ℕ → ℕ → (ℕ → Header) → Type 0
Stays prev a at = (not (prev == 0) && meets prev a at && ((at prev).in_use == 0)) ≡ false

-- The first merge happens.
abbrev Moves : ℕ → ℕ → (ℕ → Header) → Type 0
Moves prev a at = (not (prev == 0) && meets prev a at && ((at prev).in_use == 0)) ≡ true

start_of : (a : ℕ) → a < 2 ^ 64 → u64 (a + header_size + 2 ^ 64 - header_size) ≡ a
start_of a h = omega arith

-- The end of `kfree` for what the first merge returned.
abbrev finish : ℕ → ℕ × (ℕ → Header) → ℕ → Header
finish n r = set_in_use r.0 0 (merge_next r.0 n r.1)

kfree_start :
    (h : Heap) (a : ℕ)
    → a < 2 ^ 64
    → kfree (a + header_size) h
      ≡ record h { at = finish (h.at a).next (merge_prev (h.at a).prev a (h.at a).next h.at) }
unfolding kfree
kfree_start h a small = rw (start_of a small)

merge_prev-Stays :
    (prev a n : ℕ) (at : ℕ → Header) → Stays prev a at → merge_prev prev a n at ≡ (a, at)
unfolding merge_prev
merge_prev-Stays prev a n at stays = rw stays

merge_prev-Moves :
    (prev a n : ℕ) (at : ℕ → Header)
    → Moves prev a at
    → merge_prev prev a n at ≡ (prev, absorb prev a n at)
unfolding merge_prev absorb
merge_prev-Moves prev a n at moves = rw moves

pub kfree-Stays :
    (h : Heap) (a : ℕ)
    → a < 2 ^ 64
    → Stays (h.at a).prev a h.at
    → kfree (a + header_size) h ≡ record h { at = settled a h.at }
kfree-Stays h a small stays =
    kfree_start h a small
    ∙ ap (λ r. record h { at = finish (h.at a).next r })
        (merge_prev-Stays (h.at a).prev a (h.at a).next h.at stays)

pub kfree-Moves :
    (h : Heap) (a b : ℕ)
    → a < 2 ^ 64
    → (h.at a).prev ≡ b
    → Moves b a h.at
    → (h.at a).next ≢ b
    → kfree (a + header_size) h ≡ record h { at = settled b (absorb b a (h.at a).next h.at) }
kfree-Moves h a b small is moves ne =
    let n = (h.at a).next in
    let next : (absorb b a n h.at b).next ≡ n =
      ap (λ (x : Header). x.next) (absorb_self h.at b a n ne) in
    kfree_start h a small
    ∙ ap (λ p. record h { at = finish n (merge_prev p a n h.at) }) is
    ∙ ap (λ r. record h { at = finish n r }) (merge_prev-Moves b a n h.at moves)
    ∙ ap (λ m. record h { at = set_in_use b 0 (merge_next b m (absorb b a n h.at)) }) (sym next)
