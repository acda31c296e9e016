-- ===== src/Multiboot/Tags.antt =====
-- The walk over the tags of include/multiboot.h, against the list of their types.
use jordan_os.Base.{
  ℕ, zero, suc, ◌+◌, ◌<◌, ◌≡◌, ◌≢◌, List, [], ◌∷◌, length, some, arith, ◌==◌, if◌then◌else◌, u64,
  leb, ◌*◌, ◌/◌, ◌%◌, ◌^◌,
}
use jordan_os.Base.Bits.{bit_and-high}
use jordan_os.Mem.{Mem, load32}
use jordan_os.Multiboot.{
  tag_end, tag_mmap, type_of, size_of, next_tag, find_tag_loop, find_tag, mmap_first, mmap_next,
}

-- The next multiple of 8 from a tag's end on, cut to 64 bits.
abbrev pub following : Mem → ℕ → ℕ
following m tag = (tag + size_of m tag + 7) % 2 ^ 64 / 8 * 8

next_tag-following : (m : Mem) (tag : ℕ) → next_tag m tag ≡ following m tag
unfolding next_tag
next_tag-following m tag = bit_and-high 61 3 (u64 (tag + size_of m tag + 7)) (omega arith)

-- From `tag` on lie tags of these types, and then the end tag.
abbrev pub TagsAt : Mem → ℕ → List ℕ → Type 0
TagsAt m tag [] = type_of m tag ≡ tag_end
TagsAt m tag (t ∷ ts) = (type_of m tag ≡ t) × (t ≢ tag_end) × TagsAt m (following m tag) ts

-- The address of the first tag of a type, 0 for none.
abbrev pub first_tag : Mem → ℕ → List ℕ → ℕ → ℕ
first_tag m tag [] type = 0
first_tag m tag (t ∷ ts) type = if t == type then tag else first_tag m (following m tag) ts type

find_tag_loop_lem :
    (fuel : ℕ) (m : Mem) (type tag : ℕ) (ts : List ℕ)
    → TagsAt m tag ts
    → length ts < fuel
    → find_tag_loop fuel m type tag ≡ some (first_tag m tag ts type)
unfolding find_tag_loop
find_tag_loop_lem zero m type tag ts at h = absurd (omega arith)
find_tag_loop_lem (suc fuel) m type tag [] at h = rw at
find_tag_loop_lem (suc fuel) m type tag (t ∷ ts) (is, ne, rest) h =
    rw (next_tag-following m tag)
      (ground (arith, find_tag_loop_lem fuel m type (following m tag) ts rest))

module _ (fuel : ℕ) (m : Mem) (mbi : ℕ) (ts : List ℕ) (at : TagsAt m (mbi + 8) ts)
    (enough : length ts < fuel) where
  -- Over a chain of tags, each at the next multiple of 8 behind the one before, that an end tag
  -- closes, and with a round of fuel more than there are tags, `mb2_find_tag` ends and returns the
  -- first tag of the type, or null if there is none.
  pub find_tag_lem : (type : ℕ) → find_tag fuel m mbi type ≡ some (first_tag m (mbi + 8) ts type)
  unfolding find_tag
  find_tag_lem type = find_tag_loop_lem fuel m type (mbi + 8) ts at enough

  pub mmap_first_lem :
      (tag : ℕ)
      → first_tag m (mbi + 8) ts tag_mmap ≡ tag
      → tag ≢ 0
      → mmap_first fuel m mbi ≡ some (tag + 16)
  unfolding mmap_first
  mmap_first_lem tag e ne = rw (find_tag_lem tag_mmap, e) (ground arith)

  pub mmap_next_lem :
      (tag current : ℕ)
      → first_tag m (mbi + 8) ts tag_mmap ≡ tag
      → tag ≢ 0
      → mmap_next fuel m mbi current
        ≡ some (
            if leb (u64 (tag + size_of m tag)) (u64 (current + load32 m (tag + 8)))
            then 0
            else u64 (current + load32 m (tag + 8)))
  unfolding mmap_next
  mmap_next_lem tag current e ne = rw (find_tag_lem tag_mmap, e) (ground arith)
