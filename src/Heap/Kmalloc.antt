-- ===== src/Heap/Kmalloc.antt =====
-- `kmalloc` of kernel/heap.c on a request that one of its blocks can meet.
use jordan_os.Base.{ℕ, ◌-◌, ◌≤◌, ◌<◌, ◌≡◌, refl, ◌∙◌, some, none, List, length, le→leb, lt→leb}
use jordan_os.Heap.{Heap, kmalloc, kmalloc_loop}
use jordan_os.Heap.Blocks.{header_size, Block}
use jordan_os.Heap.Place.{Placed, kmalloc_loop_found}
use jordan_os.Heap.Taken.{place}
use jordan_os.Heap.Inv.{IsHeap, Misses, place-All, place-Apart, Low-Inherited, Misses-Inherited}

pub kmalloc_small :
    (fuel n : ℕ) (h : Heap)
    → n ≤ 4096 - header_size
    → kmalloc fuel n h ≡ kmalloc_loop fuel n h.head none h
unfolding kmalloc
kmalloc_small fuel n h small = rw (le→leb n (4096 - header_size) small)

-- A request for more than a page less a header gets null, and nothing changes.
pub kmalloc_large :
    (fuel n : ℕ) (h : Heap) → 4096 - header_size < n → kmalloc fuel n h ≡ some (0, h)
unfolding kmalloc
kmalloc_large fuel n h large = rw (lt→leb n (4096 - header_size) large)

Placed-IsHeap :
    {h : Heap} {bs : List Block} (fuel n a : ℕ) (cs : List Block)
    → IsHeap h bs
    → place n bs ≡ some (a, cs)
    → (placed : Placed n 0 h.head bs none fuel h a cs) → IsHeap (record h { at = placed.at' }) cs
Placed-IsHeap {bs} fuel n a cs is e placed = record {
  chain = placed.chain;
  apart = place-Apart n bs a cs e is.apart;
  low = place-All _ Low-Inherited n bs a cs e is.low;
  pages = is.pages;
  owned = λ j b free. place-All (Misses j) (Misses-Inherited j) n bs a cs e (is.owned j b free);
}

-- With fuel for the blocks of the heap, and one of them long enough for a request of at most a page
-- less a header, `kmalloc` ends without a fault, returns what `place` says of the list of blocks,
-- leaves the heap holding the blocks that `place` says, and asks the page allocator for nothing.
pub kmalloc-place :
    (fuel n : ℕ) (h : Heap) (bs : List Block) (a : ℕ) (cs : List Block)
    → IsHeap h bs
    → n ≤ 4096 - header_size
    → length bs < fuel
    → place n bs ≡ some (a, cs)
    → (h' : Heap) × (kmalloc fuel n h ≡ some (a, h')) × IsHeap h' cs × (h'.pmm ≡ h.pmm)
kmalloc-place fuel n h bs a cs is small f e =
    let placed = kmalloc_loop_found fuel n 0 h.head none h bs a cs is.chain is.apart is.low f e in
    (
      record h { at = placed.at' },
      kmalloc_small fuel n h small ∙ placed.returns,
      Placed-IsHeap fuel n a cs is e placed,
      refl,
    )
