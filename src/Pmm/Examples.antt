-- ===== src/Pmm/Examples.antt =====
-- The page allocator's theorems at concrete bitmaps and memory maps, and runs.
use jordan_os.Base.{
  ℕ, zero, suc, ◌-◌, ◌*◌, ◌<◌, ◌≡◌, refl, some, none, List, [], ◌∷◌, arith, ◌==◌, if◌then◌else◌,
}
use jordan_os.Base.Bits.{bit_at}
use jordan_os.Mem.{Mem}
use jordan_os.Multiboot.{find_tag, next_tag}
use jordan_os.Multiboot.Tags.{TagsAt, find_tag_lem}
use jordan_os.Pmm.{Pmm, pmm_alloc, pmm_free, pmm_init, add_available}
use jordan_os.Pmm.Bitmap.{page_bit}
use jordan_os.Pmm.Count.{free_count, IsValid}
use jordan_os.Pmm.Alloc.{AllocOutcome, pmm_alloc_lem}
use jordan_os.Pmm.Free.{Freed, pmm_free_lem, pmm_free-pmm_alloc}
use jordan_os.Pmm.Regions.{Region, region_bit, add_available_overflow}
use jordan_os.Pmm.Init.{EntriesAt, pmm_init_lem}
use jordan_os.Pmm.Gapless.{end_of, kind_at, pmm_init-Gapless}

-- Pages 0 and 2 of four are in use.
abbrev four : Pmm
four = record { bitmap = λ i. if i == 0 then 5 else 0; pages_num = 4; free_pages = 2 }

four-IsValid : IsValid four
unfolding free_count page_bit bit_at
four-IsValid = record { bounded = omega arith; counted = refl }

pmm_alloc_lem_example :
    (addr : ℕ) × (q : Pmm) × (pmm_alloc four ≡ some (addr, q))
    × AllocOutcome four addr q
    × IsValid q
pmm_alloc_lem_example = pmm_alloc_lem four four-IsValid

pmm_free-pmm_alloc_example :
    (addr : ℕ) × (q : Pmm) × (r : Pmm) × (pmm_alloc four ≡ some (addr, q))
    × (pmm_free addr q ≡ some r)
    × ((k : ℕ) → page_bit r.bitmap k ≡ page_bit four.bitmap k)
    × (r.pages_num ≡ 4)
    × (r.free_pages ≡ 2)
unfolding page_bit bit_at
pmm_free-pmm_alloc_example = pmm_free-pmm_alloc four 3 four-IsValid (omega arith) refl

pmm_free_lem_example : (q : Pmm) × (pmm_free 8192 four ≡ some q) × Freed four 2 q × IsValid q
unfolding page_bit bit_at
pmm_free_lem_example = pmm_free_lem four 2 four-IsValid (omega arith) refl

add_available_overflow_example : add_available 5 (record four { pages_num = 1048575 }) ≡ none
add_available_overflow_example =
    add_available_overflow 5 (record four { pages_num = 1048575 }) (omega arith) (omega arith)

-- A Multiboot2 block at 256: a memory map of 8 KiB available and 4 KiB reserved, and the end tag.
abbrev byte_of : List ℕ → ℕ → ℕ
byte_of [] i = 0
byte_of (b ∷ bs) zero = b
byte_of (b ∷ bs) (suc i) = byte_of bs i

abbrev entry : ℕ → ℕ → ℕ → List ℕ → List ℕ
entry first pages kind rest =
    0
    ∷ (16 * first)
    ∷ 0
    ∷ 0
    ∷ 0
    ∷ 0
    ∷ 0
    ∷ 0
    ∷ 0
    ∷ (16 * pages)
    ∷ 0
    ∷ 0
    ∷ 0
    ∷ 0
    ∷ 0
    ∷ 0
    ∷ kind
    ∷ 0
    ∷ 0
    ∷ 0
    ∷ 0
    ∷ 0
    ∷ 0
    ∷ 0
    ∷ rest

abbrev boot_info : Mem
boot_info a =
    byte_of
      (80
        ∷ 0
        ∷ 0
        ∷ 0
        ∷ 0
        ∷ 0
        ∷ 0
        ∷ 0
        ∷ 6
        ∷ 0
        ∷ 0
        ∷ 0
        ∷ 64
        ∷ 0
        ∷ 0
        ∷ 0
        ∷ 24
        ∷ 0
        ∷ 0
        ∷ 0
        ∷ 0
        ∷ 0
        ∷ 0
        ∷ 0
        ∷ entry 0 2 1 (entry 2 1 2 []))
      (a - 256)

abbrev available : Region
available = record { base = 0; length = 8192; kind = 1 }

abbrev reserved : Region
reserved = record { base = 8192; length = 4096; kind = 2 }

boot_tags : TagsAt boot_info 264 (6 ∷ [])
unfolding next_tag
boot_tags = (refl, (λ e. omega arith), refl)

find_tag_lem_example : find_tag 2 boot_info 256 6 ≡ some 264
find_tag_lem_example = find_tag_lem 2 boot_info 256 (6 ∷ []) boot_tags (omega arith) 6

map_entries : EntriesAt boot_info 328 24 280 available (reserved ∷ [])
map_entries =
    (omega arith, (refl, refl, refl), omega arith, (omega arith, (refl, refl, refl), omega arith))

pmm_init_lem_example :
    (q : Pmm) × (pmm_init 3 2 boot_info 256 four ≡ some q)
    × (q.pages_num ≡ 3)
    × ((j : ℕ) → j < 3 → page_bit q.bitmap j ≡ region_bit (available ∷ reserved ∷ []) j)
    × IsValid q
pmm_init_lem_example =
    pmm_init_lem 2 boot_info 256 (6 ∷ []) boot_tags (omega arith) 264 refl (λ e. omega arith) 3
      available (reserved ∷ []) four map_entries (omega arith) (omega arith)

pmm_init-Gapless_example :
    (q : Pmm) × (pmm_init 3 2 boot_info 256 four ≡ some q)
    × (q.pages_num * 4096 ≡ end_of 0 (available ∷ reserved ∷ []))
    × ((j : ℕ)
        → j < q.pages_num
        → page_bit q.bitmap j
          ≡ (if kind_at (available ∷ reserved ∷ []) (j * 4096) == 1 then 0 else 1))
    × IsValid q
pmm_init-Gapless_example =
    pmm_init-Gapless 2 boot_info 256 (6 ∷ []) boot_tags (omega arith) 264 refl (λ e. omega arith) 3
      available (reserved ∷ []) four map_entries
      (refl, refl, omega arith, (refl, refl, omega arith, omega arith)) (omega arith) (omega arith)
