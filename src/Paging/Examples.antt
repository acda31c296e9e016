-- ===== src/Paging/Examples.antt =====
-- The theorem on the framebuffer's mapping at the usual place of a framebuffer.
use jordan_os.Base.{ℕ, ◌≡◌, ◌≢◌, arith}
use jordan_os.Paging.{Tables, paging_map_fb}
use jordan_os.Paging.Map.{Identity, paging_map_fb-Identity}

abbrev blank : Tables
blank = record { pdpt = λ i. 0; fb_pd = λ i. 0 }

paging_map_fb-Identity_example :
    Identity 0x108000 (paging_map_fb 0x108000 0xFD000000 0x300000 blank) 0xFD2FFFFF
    × ((i : ℕ) → i ≢ 3 → (paging_map_fb 0x108000 0xFD000000 0x300000 blank).pdpt i ≡ blank.pdpt i)
paging_map_fb-Identity_example =
    paging_map_fb-Identity 0x108000 0xFD000000 0x300000 blank 0xFD2FFFFF (omega arith) (omega arith)
      (omega arith) (omega arith) (omega arith)
