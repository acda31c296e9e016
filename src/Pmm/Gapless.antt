-- ===== src/Pmm/Gapless.antt =====
-- `pmm_init` over a memory map without holes, against the regions by their addresses.
use jordan_os.Base.{
  ℕ, ◌+◌, ◌-◌, ◌*◌, ◌%◌, ◌^◌, ◌≤◌, ◌<◌, ◌≡◌, ◌≢◌, refl, List, [], ◌∷◌, length, some, arith, ltb,
  leb, ◌==◌, ◌&&◌, if◌then◌else◌, u64, Bool-cases, inl, inr, ltb→lt, ltb→le, le→leb, lt→ltb, le→ltb,
  ap, ◌∙◌,
}
use native.Mathlib.Nat.{zero-add}
use jordan_os.Mem.{Mem, load32}
use jordan_os.Multiboot.{tag_mmap, size_of}
use jordan_os.Multiboot.Tags.{TagsAt, first_tag}
use jordan_os.Pmm.{Pmm, pmm_init}
use jordan_os.Pmm.Bitmap.{page_bit, max_pages}
use jordan_os.Pmm.Count.{IsValid}
use jordan_os.Pmm.Regions.{Region, pages_of, total_pages, region_bit}
use jordan_os.Pmm.Init.{EntriesAt, pmm_init_lem}

-- From this address on the regions lie one behind the other, each of them whole pages.
abbrev pub Gapless : ℕ → List Region → Type 0
Gapless a [] = 0 ≤ a
Gapless a (r ∷ rs) =
    (r.base ≡ a) × (r.length % 4096 ≡ 0) × (r.length < 2 ^ 32) × Gapless (a + r.length) rs

-- Where the last of them ends.
abbrev pub end_of : ℕ → List Region → ℕ
end_of a [] = a
end_of a (r ∷ rs) = end_of (a + r.length) rs

-- The type of the first region that an address lies in, 0 for none.
abbrev pub kind_at : List Region → ℕ → ℕ
kind_at [] a = 0
kind_at (r ∷ rs) a = if leb r.base a && ltb a (r.base + r.length) then r.kind else kind_at rs a

total_pages-Gapless :
    (a : ℕ) (rs : List Region) → Gapless a rs → a + total_pages rs * 4096 ≡ end_of a rs
total_pages-Gapless a [] gapless = omega arith
total_pages-Gapless a (r ∷ rs) (at, whole, small, more) =
    omega (arith, total_pages-Gapless (a + r.length) rs more)

region_bit-kind_at :
    (a : ℕ) (rs : List Region)
    → Gapless a rs
    → (j : ℕ) → j < total_pages rs
    → region_bit rs j ≡ (if kind_at rs (a + j * 4096) == 1 then 0 else 1)
region_bit-kind_at a [] gapless j h = absurd (omega arith)
region_bit-kind_at a (r ∷ rs) (at, whole, small, more) j h =
    elim (Bool-cases (ltb j (pages_of r))) [
      | inl front ↦
          let lt = ltb→lt j (pages_of r) front in
          rw
            (
              front,
              le→leb r.base (a + j * 4096) (omega arith),
              lt→ltb (a + j * 4096) (r.base + r.length) (omega arith),
            )
            refl
      | inr back ↦
          let le = ltb→le j (pages_of r) back in
          let place : a + r.length + (j - pages_of r) * 4096 ≡ a + j * 4096 = omega arith in
          rw
            (
              back,
              le→leb r.base (a + j * 4096) (omega arith),
              le→ltb (a + j * 4096) (r.base + r.length) (omega arith),
            )
            (region_bit-kind_at (a + r.length) rs more (j - pages_of r) (omega arith)
              ∙ ap (λ b. if kind_at rs b == 1 then 0 else 1) place)
    ]

module _ (tags : ℕ) (m : Mem) (mbi : ℕ) (ts : List ℕ) (at : TagsAt m (mbi + 8) ts)
    (enough : length ts < tags) (tag : ℕ) (found : first_tag m (mbi + 8) ts tag_mmap ≡ tag)
    (present : tag ≢ 0) where
  -- When the regions lie one behind the other from address 0 on, without holes, each of them whole
  -- pages and shorter than 4 GiB, and have at most 2^20 pages, `pmm_init` with fuel for the tags and
  -- the regions ends with a bitmap of physical memory: the pages up to the end of the last region are
  -- counted, and the one at address 4096 * j is free exactly if it lies in a region of type 1.
  pub pmm_init-Gapless :
      (fuel : ℕ) (r : Region) (rs : List Region) (p : Pmm)
      → EntriesAt m (u64 (tag + size_of m tag)) (load32 m (tag + 8)) (tag + 16) r rs
      → Gapless 0 (r ∷ rs)
      → total_pages (r ∷ rs) ≤ max_pages
      → length rs + 1 < fuel
      → (q : Pmm) × (pmm_init fuel tags m mbi p ≡ some q)
        × (q.pages_num * 4096 ≡ end_of 0 (r ∷ rs))
        × ((j : ℕ)
            → j < q.pages_num
            → page_bit q.bitmap j ≡ (if kind_at (r ∷ rs) (j * 4096) == 1 then 0 else 1))
        × IsValid q
  pmm_init-Gapless fuel r rs p es gapless h f =
      let (q, run, total, bits, valid) =
        pmm_init_lem tags m mbi ts at enough tag found present fuel r rs p es h f in
      (
        q,
        run,
        omega (arith, total, total_pages-Gapless 0 (r ∷ rs) gapless),
        λ j b.
            bits j (omega (arith, total))
            ∙ rw zero-add at (region_bit-kind_at 0 (r ∷ rs) gapless j (omega (arith, total))),
        valid,
      )
