-- ===== src/Pmm.antt =====
-- The physical memory manager (kernel/pmm.c): one bit for each 4 KiB page, 1 for a page in use.
-- `bitmap` is the array by word; an access past its 32768 words is a fault, `none`.
pub mod Bitmap
pub mod Count
pub mod Alloc
pub mod Free
pub mod Regions
pub mod Init
pub mod Gapless
mod Examples
use jordan_os.Base.{
  ℕ, zero, suc, ◌+◌, ◌-◌, ◌*◌, ◌/◌, ◌%◌, ◌^◌, bit_and, bit_or, u32, sub32, Option, none, some, ltb,
  ◌==◌, if◌then◌else◌, ◌>>=◌,
}
use jordan_os.Mem.{Mem, write, load32, load64}
use jordan_os.Multiboot.{mmap_first, mmap_next, read_mmap_entry}

abbrev pub bitmap_words : ℕ
bitmap_words = 32768

pub record Pmm : Type 0 where
  pub bitmap : ℕ → ℕ
  pub pages_num : ℕ
  pub free_pages : ℕ

unfoldable pub bitmap_set : ℕ → Pmm → Option Pmm
bitmap_set page p =
    let word = p.bitmap (page / 32) in
    if ltb (page / 32) bitmap_words
    then some (record p { bitmap = write p.bitmap (page / 32) (bit_or word (2 ^ (page % 32))) })
    else none

-- `~(1 << k)` has every bit of the word but `k`.
unfoldable pub bitmap_clear : ℕ → Pmm → Option Pmm
bitmap_clear page p =
    let word = p.bitmap (page / 32) in
    if ltb (page / 32) bitmap_words
    then some (record p {
      bitmap = write p.bitmap (page / 32) (bit_and word (2 ^ 32 - 1 - 2 ^ (page % 32)));
    })
    else none

unfoldable pub bitmap_test : ℕ → Pmm → Option ℕ
bitmap_test page p =
    if ltb (page / 32) bitmap_words
    then some (bit_and (p.bitmap (page / 32)) (2 ^ (page % 32)))
    else none

-- The two inner loops of `pmm_init`, by the rounds left.
unfoldable pub add_available : ℕ → Pmm → Option Pmm
add_available zero p = some p
add_available (suc n) p = do
  q ← bitmap_clear p.pages_num p
  add_available n
      (record q { pages_num = u32 (q.pages_num + 1); free_pages = u32 (q.free_pages + 1) })

unfoldable pub add_reserved : ℕ → Pmm → Option Pmm
add_reserved zero p = some p
add_reserved (suc n) p = do
  q ← bitmap_set p.pages_num p
  add_reserved n (record q { pages_num = u32 (q.pages_num + 1) })

-- The cast to `uint32_t` cuts `length`.
unfoldable pub add_entry : Mem → ℕ → Pmm → Option Pmm
unfolding add_available add_reserved
add_entry m entry p =
    let byte_size = u32 (read_mmap_entry m entry).length in
    if (read_mmap_entry m entry).type == 1
    then add_available (byte_size / 4096) p
    else add_reserved (byte_size / 4096) p

-- `tags` is the fuel of each walk over the tags, and `fuel` that of the loop over the entries.
unfoldable pub init_loop : ℕ → ℕ → Mem → ℕ → ℕ → Pmm → Option Pmm
init_loop zero tags m mbi entry p = none
init_loop (suc fuel) tags m mbi entry p = if entry == 0 then some p else do
  q ← add_entry m entry p
  next ← mmap_next tags m mbi entry
  init_loop fuel tags m mbi next q

unfoldable pub pmm_init : ℕ → ℕ → Mem → ℕ → Pmm → Option Pmm
unfolding init_loop
pmm_init fuel tags m mbi p = do
  entry ← mmap_first tags m mbi
  init_loop fuel tags m mbi entry (record p { pages_num = 0; free_pages = 0 })

-- `for (i = …; i < pages_num; i++)`, by the rounds left. The result is the address, 0 for none.
unfoldable pub alloc_loop : ℕ → ℕ → Pmm → Option (ℕ × Pmm)
alloc_loop zero i p = some (0, p)
alloc_loop (suc n) i p = do
  bit ← bitmap_test i p
  let rest = alloc_loop n (i + 1) p
  if bit == 0
      then (do
        q ← bitmap_set i p
        some (u32 (i * 4096), record q { free_pages = sub32 q.free_pages 1 }))
      else rest

unfoldable pub pmm_alloc : Pmm → Option (ℕ × Pmm)
pmm_alloc p = alloc_loop p.pages_num 0 p

-- The address is cut to 32 bits.
unfoldable pub pmm_free : ℕ → Pmm → Option Pmm
pmm_free addr p = bitmap_clear (u32 addr / 4096) (record p { free_pages = u32 (p.free_pages + 1) })

unfoldable pub pmm_get_total_pages : Pmm → ℕ
pmm_get_total_pages p = p.pages_num

unfoldable pub pmm_get_free_pages : Pmm → ℕ
pmm_get_free_pages p = p.free_pages
