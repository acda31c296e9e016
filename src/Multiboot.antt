-- ===== src/Multiboot.antt =====
-- The Multiboot2 information block (include/multiboot.h) and its readers (kernel/memory.c): the
-- chain of tags behind the 8-byte block header, and the memory map in the tag of type 6. Pointers
-- are addresses, and 0 is the null pointer. The loop over the tags ends only at a tag of type 0, so
-- it takes fuel.
pub mod Tags
use jordan_os.Base.{
  ℕ, zero, suc, ◌+◌, ◌-◌, ◌^◌, bit_and, u64, Option, none, some, ◌==◌, leb, if◌then◌else◌, ◌>>=◌,
}
use jordan_os.Mem.{Mem, load32, load64}

abbrev pub tag_end : ℕ
tag_end = 0

abbrev pub tag_mem : ℕ
tag_mem = 4

abbrev pub tag_mmap : ℕ
tag_mmap = 6

abbrev pub tag_fb : ℕ
tag_fb = 8

-- `tag->type` and `tag->size`
abbrev pub type_of : Mem → ℕ → ℕ
type_of m tag = load32 m tag

abbrev pub size_of : Mem → ℕ → ℕ
size_of m tag = load32 m (tag + 4)

pub record MemTag : Type 0 where
  pub mem_lower : ℕ
  pub mem_upper : ℕ

pub record MmapTag : Type 0 where
  pub entry_size : ℕ
  pub entry_version : ℕ

pub record MmapEntry : Type 0 where
  pub base_addr : ℕ
  pub length : ℕ
  pub type : ℕ

pub record FbTag : Type 0 where
  pub addr : ℕ
  pub pitch : ℕ
  pub width : ℕ
  pub height : ℕ
  pub bpp : ℕ
  pub fb_type : ℕ

-- What a pointer to a packed structure reads; a tag's type and size are in front of these fields.
abbrev pub read_mem_tag : Mem → ℕ → MemTag
read_mem_tag m tag = record { mem_lower = load32 m (tag + 8); mem_upper = load32 m (tag + 12) }

abbrev pub read_mmap_tag : Mem → ℕ → MmapTag
read_mmap_tag m tag = record {
  entry_size = load32 m (tag + 8);
  entry_version = load32 m (tag + 12);
}

abbrev pub read_mmap_entry : Mem → ℕ → MmapEntry
read_mmap_entry m entry = record {
  base_addr = load64 m entry;
  length = load64 m (entry + 8);
  type = load32 m (entry + 16);
}

abbrev pub read_fb_tag : Mem → ℕ → FbTag
read_fb_tag m tag = record {
  addr = load64 m (tag + 8);
  pitch = load32 m (tag + 16);
  width = load32 m (tag + 20);
  height = load32 m (tag + 24);
  bpp = m (tag + 28);
  fb_type = m (tag + 29);
}

-- `~7` of `int` has all but the three low bits in a `uintptr_t`.
unfoldable pub next_tag : Mem → ℕ → ℕ
next_tag m tag = bit_and (u64 (tag + size_of m tag + 7)) (2 ^ 64 - 8)

unfoldable pub find_tag_loop : ℕ → Mem → ℕ → ℕ → Option ℕ
find_tag_loop zero m type tag = none
find_tag_loop (suc fuel) m type tag =
    let rest = find_tag_loop fuel m type (next_tag m tag) in
    if type_of m tag == tag_end then some 0 else if type_of m tag == type then some tag else rest

-- `sizeof(mb2_info_t)` is 8.
unfoldable pub find_tag : ℕ → Mem → ℕ → ℕ → Option ℕ
unfolding find_tag_loop
find_tag fuel m mbi type = find_tag_loop fuel m type (mbi + 8)

unfoldable pub mem_get_lower : ℕ → Mem → ℕ → Option ℕ
mem_get_lower fuel m mbi = do
  tag ← find_tag fuel m mbi tag_mem
  if tag == 0 then some 0 else some (read_mem_tag m tag).mem_lower

unfoldable pub mem_get_upper : ℕ → Mem → ℕ → Option ℕ
mem_get_upper fuel m mbi = do
  tag ← find_tag fuel m mbi tag_mem
  if tag == 0 then some 0 else some (read_mem_tag m tag).mem_upper

-- `sizeof(mb2_read_mmap_tag_t)` is 16.
unfoldable pub mmap_first : ℕ → Mem → ℕ → Option ℕ
mmap_first fuel m mbi = do
  tag ← find_tag fuel m mbi tag_mmap
  if tag == 0 then some 0 else some (tag + 16)

unfoldable pub mmap_next : ℕ → Mem → ℕ → ℕ → Option ℕ
mmap_next fuel m mbi current = do
  tag ← find_tag fuel m mbi tag_mmap
  let next = u64 (current + (read_mmap_tag m tag).entry_size)
  if tag == 0 then some 0 else if leb (u64 (tag + size_of m tag)) next then some 0 else some next
