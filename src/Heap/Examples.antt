-- ===== src/Heap/Examples.antt =====
-- The heap's theorems at a heap of one page, and runs.
use jordan_os.Base.{
  ℕ, zero, suc, ◌*◌, ◌<◌, ◌≡◌, ◌⊎◌, refl, some, none, List, [], ◌∷◌, arith, ◌==◌, if◌then◌else◌,
  inl, inr,
}
use jordan_os.Base.Bits.{bit_at}
use jordan_os.Heap.{Heap, kmalloc, kfree, heap_init}
use jordan_os.Heap.Blocks.{Block, block, header}
use jordan_os.Heap.Taken.{place}
use jordan_os.Heap.Inv.{IsHeap, Misses}
use jordan_os.Heap.Kmalloc.{kmalloc-place}
use jordan_os.Heap.Outcome.{Extended, Refused, kmalloc-Extended-Refused}
use jordan_os.Heap.Again.{Repeats, kmalloc-Repeats}
use jordan_os.Heap.Init.{heap_init-IsHeap, heap_init_page_zero}
use jordan_os.Heap.Release.{release}
use jordan_os.Heap.Kfree.{kfree-release}
use jordan_os.Heap.Return.{kfree-kmalloc}
use jordan_os.Pmm.{Pmm}
use jordan_os.Pmm.Alloc.{Allocated}
use jordan_os.Pmm.Bitmap.{page_bit}
use jordan_os.Pmm.Count.{free_count, IsValid}

-- Pages 0, 1 and 2 of four are in use.
abbrev pages : Pmm
pages = record { bitmap = λ i. if i == 0 then 7 else 0; pages_num = 4; free_pages = 1 }

pages-IsValid : IsValid pages
unfolding free_count page_bit bit_at
pages-IsValid = record { bounded = omega arith; counted = refl }

-- Page 1 holds one block of 4072 bytes.
abbrev one_block : Heap
one_block = record {
  at = λ a. if a == 4096 then header 4072 0 0 0 else header 0 0 0 0;
  head = 4096;
  pmm = pages;
}

-- Page 1 holds a block of 100 bytes in use, and the free rest.
abbrev two_blocks : Heap
two_blocks = record {
  at = λ a.
      if a == 4096
      then header 100 1 4220 0
      else if a == 4220
      then header 3948 0 0 4096
      else header 0 0 0 0;
  head = 4096;
  pmm = pages;
}

page_one_owned : (j : ℕ) → j < 4 → page_bit pages.bitmap j ≡ 0 → Misses j (block 4096 4072 0)
unfolding page_bit bit_at
page_one_owned zero h free = omega arith
page_one_owned (suc zero) h free = absurd (omega arith)
page_one_owned (suc (suc j)) h free = omega arith

one_block-IsHeap : IsHeap one_block (block 4096 4072 0 ∷ [])
one_block-IsHeap = record {
  chain = (refl, (λ e. omega arith), refl, refl, refl, refl);
  apart = (tt, tt);
  low = (omega arith, tt);
  pages = pages-IsValid;
  owned = λ j h free. (page_one_owned j h free, tt);
}

abbrev split_page : List Block
split_page = block 4096 100 1 ∷ block 4220 3948 0 ∷ []

two_blocks-IsHeap : IsHeap two_blocks split_page
two_blocks-IsHeap = record {
  chain = (
    refl,
    (λ e. omega arith),
    refl,
    refl,
    refl,
    (refl, (λ e. omega arith), refl, refl, refl, refl),
  );
  apart = ((omega arith, tt), (tt, tt));
  low = (omega arith, (omega arith, tt));
  pages = pages-IsValid;
  owned = λ j h free. let m = page_one_owned j h free in (omega arith, (omega arith, tt));
}

kmalloc-place_example :
    (h' : Heap) × (kmalloc 2 100 one_block ≡ some (4120, h'))
    × IsHeap h' split_page
    × (h'.pmm ≡ pages)
unfolding place
kmalloc-place_example =
    kmalloc-place 2 100 one_block (block 4096 4072 0 ∷ []) 4120 split_page one_block-IsHeap
      (omega arith) (omega arith) refl

kmalloc-Extended-Refused_example :
    (a : ℕ) × (h' : Heap) × (kmalloc 3 4000 two_blocks ≡ some (a, h'))
    × (Extended 4000 two_blocks split_page a h' ⊎ Refused two_blocks split_page a h')
kmalloc-Extended-Refused_example =
    kmalloc-Extended-Refused 3 4000 two_blocks (block 4096 100 1) (block 4220 3948 0 ∷ [])
      two_blocks-IsHeap (omega arith) (omega arith) (omega arith)

kmalloc-Repeats_example : Repeats 6 50 two_blocks
kmalloc-Repeats_example =
    kmalloc-Repeats 6 50 two_blocks (block 4096 100 1) (block 4220 3948 0 ∷ []) two_blocks-IsHeap
      (omega arith) (omega arith)

kfree-release_example :
    IsHeap (kfree 4120 two_blocks) (block 4096 4072 0 ∷ []) × ((kfree 4120 two_blocks).pmm ≡ pages)
unfolding release
kfree-release_example = kfree-release two_blocks split_page 4096 two_blocks-IsHeap (inl refl)

heap_init-IsHeap_example :
    (h' : Heap) × (i : ℕ) × (heap_init one_block ≡ some h')
    × IsHeap h' (block (i * 4096) 4072 0 ∷ [])
    × Allocated pages i (i * 4096) h'.pmm
unfolding page_bit bit_at
heap_init-IsHeap_example = heap_init-IsHeap one_block 3 pages-IsValid refl (omega arith) refl

-- Two free pages, the first of them page 0.
abbrev fresh_pages : Pmm
fresh_pages = record { bitmap = λ i. 0; pages_num = 2; free_pages = 2 }

fresh_pages-IsValid : IsValid fresh_pages
unfolding free_count page_bit bit_at
fresh_pages-IsValid = record { bounded = omega arith; counted = refl }

heap_init_page_zero_example :
    (h' : Heap) × (heap_init (record one_block { pmm = fresh_pages }) ≡ some h')
    × (h'.head ≡ 0)
    × (kmalloc 9 16 h' ≡ none)
unfolding page_bit bit_at
heap_init_page_zero_example =
    heap_init_page_zero (record one_block { pmm = fresh_pages }) 1 16 9 fresh_pages-IsValid refl
      (omega arith) (omega arith) refl (omega arith) (omega arith)

-- The second block, cut behind 200 bytes.
abbrev cut_page : List Block
cut_page = block 4096 100 1 ∷ block 4220 200 1 ∷ block 4444 3724 0 ∷ []

kfree-kmalloc_example :
    (h' : Heap) × (kmalloc 3 200 two_blocks ≡ some (4244, h'))
    × IsHeap (kfree 4244 h') split_page
    × ((kfree 4244 h').pmm ≡ pages)
unfolding place
kfree-kmalloc_example =
    kfree-kmalloc 3 200 two_blocks split_page 4244 cut_page two_blocks-IsHeap (refl, (tt, tt))
      (omega arith) (omega arith) refl (inl (λ e. omega arith), (inr refl, tt))
