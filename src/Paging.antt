-- ===== src/Paging.antt =====
-- Mapping the framebuffer (kernel/paging.c): one entry of the page directory pointer table is sent
-- to the page directory `fb_pd`, whose entries map 2 MiB each. The tables and the address of `fb_pd`
-- belong to the boot code. The reload of cr3 at the end changes no table.
pub mod Map
pub mod Walk
mod Examples
use jordan_os.Base.{
  ℕ, zero, suc, ◌+◌, ◌-◌, ◌*◌, ◌/◌, ◌^◌, bit_and, bit_or, u32, u64, ltb, ◌==◌, ◌||◌, if◌then◌else◌,
}
use jordan_os.Mem.{write}

pub record Tables : Type 0 where
  pub pdpt : ℕ → ℕ
  pub fb_pd : ℕ → ℕ

-- The loop from page `i` on, by the rounds left.
unfoldable pub map_pages : ℕ → ℕ → ℕ → ℕ → Tables → Tables
map_pages zero i pd_start base t = t
map_pages (suc left) i pd_start base t =
    let entry = bit_or (u64 (base + i * 0x200000)) 0x83 in
    let rest =
      map_pages left (i + 1) pd_start base
        (record t { fb_pd = write t.fb_pd (u32 (pd_start + i)) entry }) in
    if ltb (u32 (pd_start + i)) 512 then rest else t

-- `~(uint64_t)0x1FFFFF` is 2^64 - 2^21.
unfoldable pub paging_map_fb : ℕ → ℕ → ℕ → Tables → Tables
paging_map_fb fb_pd_address phys_addr size t =
    let pdpt_idx = bit_and (phys_addr / 2 ^ 30) 0x1FF in
    let pd_start = bit_and (phys_addr / 2 ^ 21) 0x1FF in
    let base = bit_and phys_addr (2 ^ 64 - 2 ^ 21) in
    let n_pages = u32 (u32 (u64 (size + 0x1FFFFF) / 2 ^ 21) + 1) in
    let mapped = record t { pdpt = write t.pdpt pdpt_idx (bit_or fb_pd_address 0x3) } in
    if (phys_addr == 0) || (size == 0) then t else map_pages n_pages 0 pd_start base mapped
