-- ===== src/Pic/Chips.antt =====
-- What the accesses of kernel/pic.c do to the two chips, by the 8259's description: a command byte
-- with bit 4 starts a setup. Its next data byte is the first vector; then comes the cascade, unless
-- bit 1 said that the chip is alone, and then the mode, if bit 0 asked for it, which is 0 without.
-- Outside a setup a data byte is the mask, and reading the data port answers it.
use jordan_os.Base.{
  ℕ, zero, suc, ◌+◌, ◌-◌, ◌%◌, ◌^◌, ◌<◌, ◌≡◌, inl, inr, refl, [], ◌∷◌, bit_and, arith, u8, ltb,
  ◌==◌, if◌then◌else◌, Bool-cases,
}
use jordan_os.Base.Bits.{bit_at, bit_at-le, bit_at-bit_and, bit_at-mask_ne, bit_at-mask_self}
use jordan_os.Io.{Access, Hardware, Log}
use jordan_os.Pic.{pic_init, pic_unmask}

-- Which byte of a setup is next, 3 for the vector, 2 for the cascade, 1 for the mode and 0 for none,
-- whether the setup has a cascade and a mode, what it said, the mask, and how many ends of
-- interrupts were acknowledged.
pub record Chip : Type 0 where
  pub awaits : ℕ
  pub alone : ℕ
  pub with_mode : ℕ
  pub vector : ℕ
  pub cascade : ℕ
  pub mode : ℕ
  pub mask : ℕ
  pub acks : ℕ

abbrev pub command : ℕ → Chip → Chip
command v c =
    if bit_at 4 v == 1
    then record c { awaits = 3; alone = bit_at 1 v; with_mode = bit_at 0 v; mode = 0; mask = 0 }
    else if v == 0x20
    then record c { acks = c.acks + 1 }
    else c

abbrev pub datum : ℕ → Chip → Chip
datum v c = elim c.awaits [
  | zero ↦ record c { mask = v }
  | suc zero ↦ record c { awaits = 0; mode = v }
  | suc (suc zero) ↦ record c { awaits = c.with_mode; cascade = v }
  | suc (suc (suc n)) ↦ record c { awaits = if c.alone == 1 then c.with_mode else 2; vector = v }
]

pub record Chips : Type 0 where
  pub main : Chip
  pub second : Chip

abbrev access : Access → Chips → Chips
access (Access.asked port) c = c
access (Access.wrote port v) c =
    if port == 0x20
    then record c { main = command v c.main }
    else if port == 0x21
    then record c { main = datum v c.main }
    else if port == 0xA0
    then record c { second = command v c.second }
    else if port == 0xA1
    then record c { second = datum v c.second }
    else c

-- The chips after a log, from the state that they were switched on in.
unfoldable pub chips : Chips → Log → Chips
chips start [] = start
chips start (e ∷ log) = access e (chips start log)

-- Set up for these vectors and this cascade, with every interrupt masked.
abbrev pub SetUp : ℕ → ℕ → Chip → Type 0
SetUp vector cascade c =
    (c.awaits ≡ 0) × (c.vector ≡ vector) × (c.cascade ≡ cascade) × (c.mode ≡ 1) × (c.mask ≡ 0xFF)

-- Whatever state the chips are in, also in the middle of a setup, `pic_init` leaves both of them set
-- up and fully masked: the first one with vectors from 32 and the second chip on line 2, the second
-- one with vectors from 40 and cascade number 2.
pub pic_init-SetUp :
    (start : Chips) (log : Log)
    → SetUp 0x20 0x04 (chips start (pic_init log)).main
      × SetUp 0x28 0x02 (chips start (pic_init log)).second
unfolding pic_init chips bit_at
pic_init-SetUp start log = ((refl, refl, refl, refl, refl), (refl, refl, refl, refl, refl))

-- The chip that a line belongs to, and the other one.
abbrev pub line_of : ℕ → Chips → Chip
line_of irq c = if ltb irq 8 then c.main else c.second

abbrev pub other_of : ℕ → Chips → Chip
other_of irq c = if ltb irq 8 then c.second else c.main

-- A data port answers its chip's mask.
abbrev pub Answers : Hardware → Chips → Type 0
Answers hw start =
    (log : Log)
    → (hw.byte log 0x21 ≡ (chips start log).main.mask)
      × (hw.byte log 0xA1 ≡ (chips start log).second.mask)

bit_at-u8 : (j w : ℕ) → j < 8 → bit_at j (u8 w) ≡ bit_at j w
unfolding bit_at
bit_at-u8 zero w h = omega arith
bit_at-u8 (suc zero) w h = omega arith
bit_at-u8 (suc (suc zero)) w h = omega arith
bit_at-u8 (suc (suc (suc zero))) w h = omega arith
bit_at-u8 (suc (suc (suc (suc zero)))) w h = omega arith
bit_at-u8 (suc (suc (suc (suc (suc zero))))) w h = omega arith
bit_at-u8 (suc (suc (suc (suc (suc (suc zero)))))) w h = omega arith
bit_at-u8 (suc (suc (suc (suc (suc (suc (suc zero))))))) w h = omega arith
bit_at-u8 (suc (suc (suc (suc (suc (suc (suc (suc j)))))))) w h = absurd (omega arith)

mod_small : (w : ℕ) → w < 256 → u8 w ≡ w
mod_small w h = omega arith

-- The mask that `pic_unmask` writes.
unmasked_bit :
    (k j w : ℕ)
    → k < 8
    → j < 8
    → w < 256
    → bit_at j (u8 (bit_and (u8 w) (2 ^ 32 - 1 - 2 ^ k))) ≡ (if j == k then 0 else bit_at j w)
unmasked_bit k j w hk hj hw = rw (mod_small w hw) (
    ground (
      arith,
      bit_at-u8 j (bit_and w (2 ^ 32 - 1 - 2 ^ k)) hj,
      bit_at-bit_and j w (2 ^ 32 - 1 - 2 ^ k),
      bit_at-le j w,
      bit_at-mask_self j (omega arith),
      bit_at-mask_ne j k (omega arith) (omega arith),
    ))

-- If both chips are set up and answer their masks, `pic_unmask` of one of the sixteen lines clears
-- the line's bit in its chip's mask, keeps the other seven, and leaves the other chip alone.
pub pic_unmask_lem :
    (hw : Hardware) (start : Chips) (log : Log) (irq : ℕ)
    → Answers hw start
    → irq < 16
    → (chips start log).main.awaits ≡ 0
    → (chips start log).second.awaits ≡ 0
    → (chips start log).main.mask < 256
    → (chips start log).second.mask < 256
    → ((j : ℕ)
        → j < 8
        → bit_at j (line_of irq (chips start (pic_unmask hw irq log))).mask
          ≡ (if j == irq % 8 then 0 else bit_at j (line_of irq (chips start log)).mask))
      × (other_of irq (chips start (pic_unmask hw irq log)) ≡ other_of irq (chips start log))
unfolding pic_unmask chips
pic_unmask_lem hw start log irq answers small ready ready' mask mask' =
    elim (Bool-cases (ltb irq 8)) [
      | inl low ↦
          rw (low, (answers log).0, ready)
            (λ j hj. unmasked_bit (irq % 8) j _ (omega arith) hj mask, refl)
      | inr high ↦
          rw (high, (answers log).1, ready')
            (λ j hj. unmasked_bit (irq % 8) j _ (omega arith) hj mask', refl)
    ]
