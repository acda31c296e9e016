-- ===== src/Paging/Walk.antt =====
-- What the processor makes of the tables behind `paging_map_fb` (kernel/paging.c): which pages it
-- reaches, and that those are the framebuffer's and the kernel's own.
use jordan_os.Base.{
  ℕ, zero, suc, ◌+◌, ◌-◌, ◌*◌, ◌/◌, ◌%◌, ◌^◌, ◌<◌, ◌≤◌, ◌≡◌, refl, arith, Bool, true, ltb, ◌==◌,
  ◌&&◌, ◌||◌, Bool-cases, inl, inr, bit_or, ltb→lt, ltb→le, beq_of_eq, Option, some, none,
  if◌then◌else◌,
}
use mathlib.Core.Path.{subst}
use jordan_os.Paging.{Tables, paging_map_fb}
use jordan_os.Paging.Map.{Identity, paging_map_fb-Identity}

-- The walk for a page of 2 MiB, by its number: of the table above `pdpt` the boot code has filled
-- entry 0 alone. It leads to the page itself through `fb_pd`, or, in the first gigabyte, through the
-- directory of the boot code.
abbrev pub walks : ℕ → Tables → ℕ → Bool
walks fb_pd_address t p =
    ((p / 2 ^ 18 % 2 ^ 9 == 0)
      && (t.pdpt (p / 2 ^ 9 % 2 ^ 9) == bit_or fb_pd_address 0x3)
      && (t.fb_pd (p % 2 ^ 9) == bit_or (p * 2 ^ 21) 0x83))
    || (p / 2 ^ 9 == 0)

-- A test of `n` pages from page `p` on.
unfoldable pub all_pages : (ℕ → Bool) → ℕ → ℕ → Bool
all_pages test zero p = true
all_pages test (suc n) p = test p && all_pages test n (p + 1)

-- The tables, if the processor still finds the kernel by them, in the first gigabyte, and finds the
-- framebuffer; anything else is a fault. `old` is the tables of the boot code.
unfoldable pub reached : ℕ → Tables → Tables → ℕ → ℕ → Option Tables
reached fb_pd_address old t addr size =
    if (t.pdpt 0 == old.pdpt 0)
      && all_pages (walks fb_pd_address t) ((addr + size - 1) / 2 ^ 21 + 1 - addr / 2 ^ 21)
          (addr / 2 ^ 21)
    then some t
    else none

walks-Identity :
    (fb_pd_address : ℕ) (t : Tables) (a : ℕ)
    → Identity fb_pd_address t a
    → walks fb_pd_address t (a / 2 ^ 21) ≡ true
walks-Identity fb_pd_address t a (top, upper, lower) =
    let first : a / 2 ^ 21 / 2 ^ 18 % 2 ^ 9 ≡ 0 = omega arith in
    let second : a / 2 ^ 21 / 2 ^ 9 % 2 ^ 9 ≡ a / 2 ^ 30 % 2 ^ 9 = omega arith in
    rw (first, second, beq_of_eq _ _ upper, beq_of_eq _ _ lower) refl

all_pages-true :
    (test : ℕ → Bool) (n p : ℕ)
    → ((k : ℕ) → p ≤ k → k < p + n → test k ≡ true)
    → all_pages test n p ≡ true
unfolding all_pages
all_pages-true test zero p ok = refl
all_pages-true test (suc n) p ok =
    rw (ok p (omega arith) (omega arith))
      (all_pages-true test n (p + 1) (λ k lo hi. ok k (omega arith) (omega arith)))

-- A framebuffer in one gigabyte that is not the first, below 512 GiB.
abbrev pub Placed : ℕ → ℕ → Type 0
Placed addr size =
    (2 ^ 30 ≤ addr)
    × (0 < size)
    × (addr + size ≤ 2 ^ 39)
    × ((addr + size - 1) / 2 ^ 30 ≡ addr / 2 ^ 30)

pub Placed-Identity :
    (fb_pd_address addr size : ℕ) (t : Tables) (a : ℕ)
    → Placed addr size
    → addr ≤ a
    → a < addr + size
    → Identity fb_pd_address (paging_map_fb fb_pd_address addr size t) a
Placed-Identity fb_pd_address addr size t a (high, some_size, top, one) lo hi =
    (paging_map_fb-Identity fb_pd_address addr size t a (λ e. omega arith) lo hi top one).0

page_reached :
    (fb_pd_address addr size : ℕ) (t : Tables) (p : ℕ)
    → Placed addr size
    → addr / 2 ^ 21 ≤ p
    → p ≤ (addr + size - 1) / 2 ^ 21
    → walks fb_pd_address (paging_map_fb fb_pd_address addr size t) p ≡ true
page_reached fb_pd_address addr size t p placed lo hi =
    let mapped = paging_map_fb fb_pd_address addr size t in
    let (high, some_size, _, _) = placed in
    let from : (a : ℕ)
        → a / 2 ^ 21 ≡ p
        → addr ≤ a
        → a < addr + size
        → walks fb_pd_address mapped p ≡ true =
      λ a same from_addr to_end.
        subst (λ k. walks fb_pd_address mapped k ≡ true) same
          (walks-Identity fb_pd_address mapped a
            (Placed-Identity fb_pd_address addr size t a placed from_addr to_end)) in
    elim (Bool-cases (ltb (p * 2 ^ 21) addr)) [
      | inl first ↦
          from addr (omega (arith, ltb→lt (p * 2 ^ 21) addr first)) (omega arith) (omega arith)
      | inr later ↦ from (p * 2 ^ 21) (omega arith) (ltb→le (p * 2 ^ 21) addr later) (omega arith)
    ]

-- `paging_map_fb` makes such a framebuffer reachable, and keeps the kernel so.
pub paging_map_fb-reached :
    (fb_pd_address addr size : ℕ) (t : Tables)
    → Placed addr size
    → reached fb_pd_address t (paging_map_fb fb_pd_address addr size t) addr size
      ≡ some (paging_map_fb fb_pd_address addr size t)
unfolding reached
paging_map_fb-reached fb_pd_address addr size t placed =
    let (high, some_size, top, one) = placed in
    let mapped = paging_map_fb fb_pd_address addr size t in
    let kept =
      (paging_map_fb-Identity fb_pd_address addr size t addr (λ e. omega arith) (omega arith)
          (omega arith) top one).1
        0 (λ e. omega arith) in
    let all =
      all_pages-true (walks fb_pd_address mapped) ((addr + size - 1) / 2 ^ 21 + 1 - addr / 2 ^ 21)
        (addr / 2 ^ 21)
        (λ k lo hi. page_reached fb_pd_address addr size t k placed lo (omega arith)) in
    rw (beq_of_eq _ _ kept, all) refl
