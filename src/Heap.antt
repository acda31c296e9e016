-- ===== src/Heap.antt =====
-- The heap allocator (kernel/heap.c). Block headers are the values of a map from addresses, and 0
-- is the null pointer; address 0 is mapped memory on this machine, so reading or writing a header
-- there is no fault. `none` is a fault: an uninitialised `old_block`, or a page outside the bitmap
-- of the page allocator. The walk over the blocks takes fuel.
pub mod Blocks
pub mod Resize
pub mod Taken
pub mod Place
pub mod Inv
pub mod Kmalloc
pub mod Grow
pub mod Grown
pub mod Again
pub mod Init
pub mod Join
pub mod Release
pub mod Merge
pub mod Kfree
pub mod Return
pub mod Outcome
mod Examples
use jordan_os.Base.{
  ℕ, zero, suc, ◌+◌, ◌-◌, ◌%◌, ◌^◌, Bool, ◌&&◌, u32, u64, sub32, Option, none, some, leb, not, ◌==◌,
  if◌then◌else◌, ◌>>=◌,
}
use jordan_os.Heap.Blocks.{Header, header_size}
use jordan_os.Pmm.{Pmm, pmm_alloc}

pub record Heap : Type 0 where
  pub at : ℕ → Header
  pub head : ℕ
  pub pmm : Pmm

-- A header is written at an address.
unfoldable pub put : ℕ → Header → (ℕ → Header) → ℕ → Header
put a v at b = if b == a then v else at b

unfoldable pub set_next : ℕ → ℕ → (ℕ → Header) → ℕ → Header
unfolding put
set_next a next at = put a (record (at a) { next = next }) at

unfoldable pub set_prev : ℕ → ℕ → (ℕ → Header) → ℕ → Header
unfolding put
set_prev a prev at = put a (record (at a) { prev = prev }) at

unfoldable pub set_in_use : ℕ → ℕ → (ℕ → Header) → ℕ → Header
unfolding put
set_in_use a v at = put a (record (at a) { in_use = v }) at

-- `if (p) p->prev = q;`
unfoldable pub link_back : ℕ → ℕ → (ℕ → Header) → ℕ → Header
unfolding set_prev
link_back p q at = if p == 0 then at else set_prev p q at

unfoldable pub heap_init : Heap → Option Heap
unfolding put
heap_init h = do
  (page, pmm) ← pmm_alloc h.pmm
  let first : Header = record { size = 4096 - header_size; in_use = 0; next = 0; prev = 0 }
  some (record { at = put page first h.at; head = page; pmm = pmm })

-- The new header lies behind `size` bytes of the block, so it is never the block's own header.
-- `block->size - (size + sizeof(block_header_t))` is computed in `size_t`, then cut to 32 bits.
unfoldable pub resize_block : ℕ → ℕ → (ℕ → Header) → ℕ → Header
unfolding put link_back
resize_block block size at =
    let new_block = block + header_size + size in
    let rest = u32 (u64 ((at block).size + 2 ^ 64 - (size + header_size))) in
    let at1 =
      put new_block (record { size = rest; in_use = 0; next = (at block).next; prev = block }) at in
    let at2 = link_back (at1 block).next new_block at1 in
    put block (record (at2 block) { next = new_block; size = size }) at2

-- The end of `kmalloc`, when no block was found. `old` is `none` while it is uninitialised.
unfoldable pub grow : ℕ → Option ℕ → Heap → Option (ℕ × Heap)
unfolding put set_next set_in_use resize_block
grow size old h = do
  (new_block, pmm) ← pmm_alloc h.pmm
  if new_block == 0 then some (0, record h { pmm = pmm }) else do
    old_block ← old
    let at1 = set_next old_block new_block h.at
    let at2 =
        put new_block
          (record (at1 new_block) { prev = old_block; next = 0; size = 4096 - header_size }) at1
    let at3 =
        if leb (header_size + 4) (sub32 (4096 - header_size) size)
        then resize_block new_block size at2
        else at2
    some (new_block + header_size, record h { at = set_in_use new_block 1 at3; pmm = pmm })

unfoldable pub kmalloc_loop : ℕ → ℕ → ℕ → Option ℕ → Heap → Option (ℕ × Heap)
unfolding set_in_use resize_block
kmalloc_loop zero size block old h = none
kmalloc_loop (suc fuel) size block old h =
    let found = (h.at block).size in
    let rest = kmalloc_loop fuel size (h.at block).next (some block) h in
    if block == 0
    then grow size old h
    else if leb size found && leb (header_size + 4) (sub32 found size)
    then some
        (block + header_size, record h { at = set_in_use block 1 (resize_block block size h.at) })
    else if leb size found
    then some (block + header_size, record h { at = set_in_use block 1 h.at })
    else rest

-- The result is the address, 0 for a request that cannot be met.
unfoldable pub kmalloc : ℕ → ℕ → Heap → Option (ℕ × Heap)
unfolding kmalloc_loop
kmalloc fuel size h =
    if leb size (4096 - header_size) then kmalloc_loop fuel size h.head none h else some (0, h)

-- `a`, if not null, ends where `b` begins.
unfoldable pub meets : ℕ → ℕ → (ℕ → Header) → Bool
meets a b at = (a + header_size + (at a).size) == b

-- The first `if` of `kfree`, with the block that it goes on with.
unfoldable pub merge_prev : ℕ → ℕ → ℕ → (ℕ → Header) → ℕ × (ℕ → Header)
unfolding put link_back meets
merge_prev prev_block block next_block at =
    if not (prev_block == 0) && meets prev_block block at && ((at prev_block).in_use == 0)
    then (
      prev_block,
      link_back next_block prev_block (
          put prev_block
            (record (at prev_block) {
              size = u32 ((at prev_block).size + ((at block).size + header_size));
              next = next_block;
            })
            at),
    )
    else (block, at)

-- The second.
unfoldable pub merge_next : ℕ → ℕ → (ℕ → Header) → ℕ → Header
unfolding put link_back meets
merge_next block next_block at =
    if not (next_block == 0) && meets block next_block at && ((at next_block).in_use == 0)
    then (let at1 =
          put block
            (record (at block) {
              size = u32 ((at block).size + ((at next_block).size + header_size));
              next = (at next_block).next;
            })
            at in
        link_back (at1 block).next block at1)
    else at

unfoldable pub kfree : ℕ → Heap → Heap
unfolding merge_prev merge_next set_in_use
kfree ptr h =
    let start = u64 (ptr + 2 ^ 64 - header_size) in
    let next_block = (h.at start).next in
    let (block, at1) = merge_prev (h.at start).prev start next_block h.at in
    record h { at = set_in_use block 0 (merge_next block next_block at1) }
