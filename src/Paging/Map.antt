-- ===== src/Paging/Map.antt =====
-- What the tables say of an address in the framebuffer.
use jordan_os.Base.{
  ℕ, zero, suc, ◌+◌, ◌-◌, ◌*◌, ◌/◌, ◌%◌, ◌^◌, ◌<◌, ◌≤◌, ◌≡◌, ◌≢◌, refl, ap, ◌∙◌, arith, true, ltb,
  ◌==◌, Bool-cases, inl, inr, bit_and, bit_or, u32, u64, lt→ltb, ltb→lt, eq_of_beq, ne_of_beq,
  beq_of_ne,
}
use mathlib.Core.Path.{subst}
use jordan_os.Base.Bits.{bit_and-low, bit_and-high, low_bits}
use jordan_os.Mem.{write, write_self, write_ne}
use jordan_os.Paging.{Tables, map_pages, paging_map_fb}

map_pages_pdpt :
    (left i pd_start base : ℕ) (t : Tables) → (map_pages left i pd_start base t).pdpt ≡ t.pdpt
unfolding map_pages
map_pages_pdpt zero i pd_start base t = refl
map_pages_pdpt (suc left) i pd_start base t = elim (Bool-cases (ltb (u32 (pd_start + i)) 512)) [
  | inl below ↦ rw below (map_pages_pdpt left (i + 1) pd_start base _)
  | inr past ↦ rw past refl
]

-- The rounds write upwards from `pd_start + i`, and stop at the end of the directory.
map_pages_before :
    (left i pd_start base k : ℕ) (t : Tables)
    → pd_start + i ≤ 512
    → k < pd_start + i
    → (map_pages left i pd_start base t).fb_pd k ≡ t.fb_pd k
unfolding map_pages
map_pages_before zero i pd_start base k t s h = refl
map_pages_before (suc left) i pd_start base k t s h =
    let cut : u32 (pd_start + i) ≡ pd_start + i = omega arith in
    elim (Bool-cases (ltb (pd_start + i) 512)) [
      | inl below ↦
          let entry = bit_or (u64 (base + i * 0x200000)) 0x83 in
          rw (cut, below)
            (map_pages_before left (i + 1) pd_start base k
                (record t { fb_pd = write t.fb_pd (pd_start + i) entry })
                (omega (arith, ltb→lt (pd_start + i) 512 below)) (omega arith)
              ∙ write_ne t.fb_pd (pd_start + i) entry k (omega arith))
      | inr past ↦ rw (cut, past) refl
    ]

map_pages_at :
    (left i pd_start base k : ℕ) (t : Tables)
    → pd_start + k < 512
    → i ≤ k
    → k < i + left
    → (map_pages left i pd_start base t).fb_pd (pd_start + k)
      ≡ bit_or (u64 (base + k * 0x200000)) 0x83
unfolding map_pages
map_pages_at zero i pd_start base k t s lo hi = absurd (omega arith)
map_pages_at (suc left) i pd_start base k t s lo hi =
    let cut : u32 (pd_start + i) ≡ pd_start + i = omega arith in
    let below : ltb (pd_start + i) 512 ≡ true = lt→ltb (pd_start + i) 512 (omega arith) in
    let entry = bit_or (u64 (base + i * 0x200000)) 0x83 in
    let written : Tables = record t { fb_pd = write t.fb_pd (pd_start + i) entry } in
    rw (cut, below)
      (elim (Bool-cases (i == k)) [
        | inl same ↦
            subst
              (λ m.
                (map_pages left (i + 1) pd_start base written).fb_pd (pd_start + m)
                ≡ bit_or (u64 (base + m * 0x200000)) 0x83)
              (eq_of_beq i k same)
              (map_pages_before left (i + 1) pd_start base (pd_start + i) written (omega arith)
                  (omega arith)
                ∙ write_self t.fb_pd (pd_start + i) entry)
        | inr other ↦
            map_pages_at left (i + 1) pd_start base k written s (omega (arith, ne_of_beq i k other))
              (omega arith)
      ])

-- The tables map this address to itself: the one entry that the boot code fills in the table above
-- `pdpt`, entry 0, is the address's, its entry in `pdpt` leads to `fb_pd`, whose entry has the 2 MiB
-- page of the address. The low bits are flags.
abbrev pub Identity : ℕ → Tables → ℕ → Type 0
Identity fb_pd_address t a =
    (a / 2 ^ 39 % 2 ^ 9 ≡ 0)
    × (t.pdpt (a / 2 ^ 30 % 2 ^ 9) ≡ bit_or fb_pd_address 0x3)
    × (t.fb_pd (a / 2 ^ 21 % 2 ^ 9) ≡ bit_or (a / 2 ^ 21 * 2 ^ 21) 0x83)

index_of : (w : ℕ) → bit_and w 0x1FF ≡ w % 2 ^ 9
unfolding low_bits
index_of w = bit_and-low 9 w ∙ omega arith

base_of : (w : ℕ) → w < 2 ^ 64 → bit_and w (2 ^ 64 - 2 ^ 21) ≡ w / 2 ^ 21 * 2 ^ 21
base_of w h = bit_and-high 43 21 w (omega arith)

-- Every address of a framebuffer below 512 GiB, not at 0, that does not cross a multiple of 1 GiB is
-- mapped to itself by `paging_map_fb`, and the entries of `pdpt` for the other gigabytes are kept.
pub paging_map_fb-Identity :
    (fb_pd_address phys_addr size : ℕ) (t : Tables) (a : ℕ)
    → phys_addr ≢ 0
    → phys_addr ≤ a
    → a < phys_addr + size
    → phys_addr + size ≤ 2 ^ 39
    → (phys_addr + size - 1) / 2 ^ 30 ≡ phys_addr / 2 ^ 30
    → Identity fb_pd_address (paging_map_fb fb_pd_address phys_addr size t) a
      × ((i : ℕ)
          → i ≢ phys_addr / 2 ^ 30
          → (paging_map_fb fb_pd_address phys_addr size t).pdpt i ≡ t.pdpt i)
unfolding paging_map_fb
paging_map_fb-Identity fb_pd_address phys_addr size t a ne lo hi top one =
    let some_size : size ≢ 0 = omega arith in
    let d = phys_addr / 2 ^ 21 % 2 ^ 9 in
    let k = a / 2 ^ 21 - phys_addr / 2 ^ 21 in
    let n = u32 (u32 (u64 (size + 0x1FFFFF) / 2 ^ 21) + 1) in
    let base = phys_addr / 2 ^ 21 * 2 ^ 21 in
    let pdpt_idx = phys_addr / 2 ^ 30 % 2 ^ 9 in
    let same : a / 2 ^ 30 % 2 ^ 9 ≡ pdpt_idx = omega arith in
    let at : a / 2 ^ 21 % 2 ^ 9 ≡ d + k = omega arith in
    let page : u64 (base + k * 0x200000) ≡ a / 2 ^ 21 * 2 ^ 21 = omega arith in
    let mapped : Tables = record t { pdpt = write t.pdpt pdpt_idx (bit_or fb_pd_address 0x3) } in
    rw
      (
        beq_of_ne phys_addr 0 ne,
        beq_of_ne size 0 some_size,
        index_of (phys_addr / 2 ^ 21),
        index_of (phys_addr / 2 ^ 30),
        base_of phys_addr (omega arith),
        same,
        at,
      )
      (
        (
          omega arith,
          ap (λ (f : ℕ → ℕ). f pdpt_idx) (map_pages_pdpt n 0 d base mapped)
              ∙ write_self t.pdpt pdpt_idx (bit_or fb_pd_address 0x3),
          map_pages_at n 0 d base k mapped (omega arith) (omega arith) (omega arith)
              ∙ ap (λ (b : ℕ). bit_or b 0x83) page,
        ),
        λ i far.
            ap (λ (f : ℕ → ℕ). f i) (map_pages_pdpt n 0 d base mapped)
            ∙ write_ne t.pdpt pdpt_idx (bit_or fb_pd_address 0x3) i (omega arith),
      )
