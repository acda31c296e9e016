-- ===== src/Pmm/Init.antt =====
-- `pmm_init` over a well-formed memory map.
use jordan_os.Base.{
  ℕ, zero, suc, ◌+◌, ◌-◌, ◌≤◌, ◌<◌, ◌≡◌, ◌≢◌, refl, List, [], ◌∷◌, length, some, arith, ltb, ◌==◌,
  u64, Bool-cases, inl, inr, ltb→lt, ltb→le, le→leb, lt→leb, beq_of_ne, ap, ◌∙◌,
}
use native.Mathlib.Nat.{zero-add}
use jordan_os.Mem.{Mem, load32, load64}
use jordan_os.Multiboot.{tag_mmap, size_of}
use jordan_os.Multiboot.Tags.{TagsAt, first_tag, mmap_first_lem, mmap_next_lem}
use jordan_os.Pmm.{Pmm, add_entry, init_loop, pmm_init}
use jordan_os.Pmm.Bitmap.{page_bit, max_pages}
use jordan_os.Pmm.Count.{free_count, IsValid}
use jordan_os.Pmm.Regions.{
  Region, pages_of, bit_of, total_pages, region_bit, Added, add_available_lem, add_reserved_lem,
}

-- `q` is `p` with the pages of the regions added behind the last.
pub record Laid (rs : List Region) (p q : Pmm) : Type 0 where
  pub total : q.pages_num ≡ p.pages_num + total_pages rs
  pub old : (j : ℕ) → j < p.pages_num → page_bit q.bitmap j ≡ page_bit p.bitmap j
  pub new : (j : ℕ) → j < total_pages rs → page_bit q.bitmap (p.pages_num + j) ≡ region_bit rs j
  pub valid : IsValid q

-- The memory holds an `mb2_mmap_entry_t` for the region.
abbrev pub EntryAt : Mem → ℕ → Region → Type 0
EntryAt m entry r =
    (load64 m entry ≡ r.base) × (load64 m (entry + 8) ≡ r.length) × (load32 m (entry + 16) ≡ r.kind)

-- From `entry` on lie the entries of one or more regions, `step` bytes apart, the last of them
-- within `step` bytes of `limit`.
abbrev pub EntriesAt : Mem → ℕ → ℕ → ℕ → Region → List Region → Type 0
EntriesAt m limit step entry r [] = (0 < entry) × EntryAt m entry r × (limit ≤ u64 (entry + step))
EntriesAt m limit step entry r (s ∷ rs) =
    (0 < entry)
    × EntryAt m entry r
    × (u64 (entry + step) < limit)
    × EntriesAt m limit step (u64 (entry + step)) s rs

add_entry_lem :
    (m : Mem) (entry : ℕ) (r : Region) (p : Pmm)
    → EntryAt m entry r
    → IsValid p
    → p.pages_num + pages_of r ≤ max_pages
    → (q : Pmm) × (add_entry m entry p ≡ some q) × Added (bit_of r) (pages_of r) p q
unfolding add_entry
add_entry_lem m entry r p (_, size, kind) v h = elim (Bool-cases (r.kind == 1)) [
  | inl is ↦ rw (size, kind, is) (add_available_lem (pages_of r) p v h)
  | inr other ↦ rw (size, kind, other) (add_reserved_lem (pages_of r) p v h)
]

Laid-bit :
    (r : Region) (rs : List Region) (p m q : Pmm)
    → Added (bit_of r) (pages_of r) p m
    → Laid rs m q
    → (j : ℕ) → j < total_pages (r ∷ rs)
    → page_bit q.bitmap (p.pages_num + j) ≡ region_bit (r ∷ rs) j
Laid-bit r rs p m q added laid j h = elim (Bool-cases (ltb j (pages_of r))) [
  | inl front ↦ rw front (
      laid.old (p.pages_num + j) (omega (arith, added.total, ltb→lt j (pages_of r) front))
      ∙ added.new (p.pages_num + j) (omega arith) (omega (arith, ltb→lt j (pages_of r) front)))
  | inr back ↦
      let place : p.pages_num + j ≡ m.pages_num + (j - pages_of r) =
        omega (arith, added.total, ltb→le j (pages_of r) back) in
      rw back (
        ap (page_bit q.bitmap) place
        ∙ laid.new (j - pages_of r) (omega (arith, ltb→le j (pages_of r) back)))
]

Laid-cons :
    (r : Region) (rs : List Region) (p m q : Pmm)
    → Added (bit_of r) (pages_of r) p m
    → Laid rs m q
    → Laid (r ∷ rs) p q
Laid-cons r rs p m q added laid = record {
  total = omega (arith, added.total, laid.total);
  old = λ j h. ground (arith, added.old j, laid.old j, added.total);
  new = Laid-bit r rs p m q added laid;
  valid = laid.valid;
}

module _ (tags : ℕ) (m : Mem) (mbi : ℕ) (ts : List ℕ) (at : TagsAt m (mbi + 8) ts)
    (enough : length ts < tags) (tag : ℕ) (found : first_tag m (mbi + 8) ts tag_mmap ≡ tag)
    (present : tag ≢ 0) where
  abbrev limit : ℕ
  limit = u64 (tag + size_of m tag)

  abbrev step : ℕ
  step = load32 m (tag + 8)

  init_loop_end : (fuel : ℕ) (p : Pmm) → init_loop (suc fuel) tags m mbi 0 p ≡ some p
  unfolding init_loop
  init_loop_end fuel p = refl

  init_loop_lem :
      (fuel entry : ℕ) (r : Region) (rs : List Region) (p : Pmm)
      → EntriesAt m limit step entry r rs
      → IsValid p
      → p.pages_num + total_pages (r ∷ rs) ≤ max_pages
      → length rs + 1 < fuel
      → (q : Pmm) × (init_loop fuel tags m mbi entry p ≡ some q) × Laid (r ∷ rs) p q
  unfolding init_loop
  init_loop_lem zero entry r rs p es v h f = absurd (omega arith)
  init_loop_lem (suc zero) entry r rs p es v h f = absurd (omega arith)
  init_loop_lem (suc (suc fuel)) entry r [] p (pos, here, last) v h f =
      let (q, run, added) = add_entry_lem m entry r p here v (omega arith) in
      (
        q,
        rw
            (
              beq_of_ne entry 0 (omega arith),
              run,
              mmap_next_lem tags m mbi ts at enough tag entry found present,
              le→leb _ _ last,
            )
            refl,
        Laid-cons r [] p q q added (record {
          total = omega arith;
          old = λ j b. refl;
          new = λ j b. absurd (omega arith);
          valid = added.valid;
        }),
      )
  init_loop_lem (suc (suc fuel)) entry r (s ∷ rs) p (pos, here, more, rest) v h f =
      let (o, run, added) = add_entry_lem m entry r p here v (omega arith) in
      let (q, runs, laid) =
        init_loop_lem (suc fuel) (u64 (entry + step)) s rs o rest added.valid
          (omega (arith, added.total)) (omega arith) in
      (
        q,
        rw
            (
              beq_of_ne entry 0 (omega arith),
              run,
              mmap_next_lem tags m mbi ts at enough tag entry found present,
              lt→leb _ _ more,
            )
            runs,
        Laid-cons r (s ∷ rs) p o q added laid,
      )

  -- Given fuel for the tags and the regions, and at most 2^20 pages in all, where a region has the
  -- whole pages of its length cut to 32 bits, `pmm_init` ends without leaving the bitmap. Whatever
  -- the state was, it then counts the pages of all regions, and the free count is exact. The bits
  -- are those of the regions laid end to end from page 0 on, in the order of the map and wherever
  -- the regions begin: 0 for the pages of a region of type 1, and 1 for the others.
  pub pmm_init_lem :
      (fuel : ℕ) (r : Region) (rs : List Region) (p : Pmm)
      → EntriesAt m limit step (tag + 16) r rs
      → total_pages (r ∷ rs) ≤ max_pages
      → length rs + 1 < fuel
      → (q : Pmm) × (pmm_init fuel tags m mbi p ≡ some q)
        × (q.pages_num ≡ total_pages (r ∷ rs))
        × ((j : ℕ) → j < total_pages (r ∷ rs) → page_bit q.bitmap j ≡ region_bit (r ∷ rs) j)
        × IsValid q
  unfolding pmm_init free_count
  pmm_init_lem fuel r rs p es h f =
      let start : Pmm = record p { pages_num = 0; free_pages = 0 } in
      let (q, run, laid) =
        init_loop_lem fuel (tag + 16) r rs start es
          (record { bounded = omega arith; counted = refl }) (omega arith) f in
      (
        q,
        rw (mmap_first_lem tags m mbi ts at enough tag found present) run,
        omega (arith, laid.total),
        λ j b. rw zero-add at (laid.new j b),
        laid.valid,
      )
