-- ===== src/Idt/Gates.antt =====
-- The gates that `idt_init` (kernel/idt.c) sets, and the addresses that the processor reads in
-- them.
use mathlib.Core.Path.{subst}
use jordan_os.Base.{
  ℕ, zero, suc, ◌+◌, ◌*◌, ◌/◌, ◌%◌, ◌^◌, ◌<◌, ◌≤◌, ◌≡◌, inl, inr, refl, ◌∙◌, arith, ◌==◌,
  Bool-cases, bit_and, ◌≢◌, beq_of_eq, beq_of_ne, eq_of_beq, ne_of_beq,
}
use jordan_os.Base.Bits.{bit_and-low, low_bits}
use jordan_os.Idt.{IdtEntry, Idt, idt_set_entry, set_handlers, idt_init}

-- The address that the processor takes from an entry, and a present 64-bit interrupt gate of the
-- kernel's code segment.
abbrev pub offset : IdtEntry → ℕ
offset e = e.offset_low + 2 ^ 16 * e.offset_mid + 2 ^ 32 * e.offset_high

abbrev pub IsGate : ℕ → IdtEntry → Type 0
IsGate handler e = (offset e ≡ handler) × (e.selector ≡ 0x08) × (e.type_attr ≡ 0x8E) × (e.ist ≡ 0)

word_of : (w : ℕ) → bit_and w 0xFFFF ≡ w % 2 ^ 16
unfolding low_bits
word_of w = bit_and-low 16 w ∙ omega arith

dword_of : (w : ℕ) → bit_and w 0xFFFFFFFF ≡ w % 2 ^ 32
unfolding low_bits
dword_of w = bit_and-low 32 w ∙ omega arith

whole :
    (h : ℕ)
    → h < 2 ^ 64
    → bit_and h 0xFFFF
        + 2 ^ 16 * bit_and (h / 2 ^ 16) 0xFFFF
        + 2 ^ 32 * bit_and (h / 2 ^ 32) 0xFFFFFFFF
      ≡ h
whole h small = omega (arith, word_of h, word_of (h / 2 ^ 16), dword_of (h / 2 ^ 32))

idt_set_entry_ne :
    (vector handler v : ℕ) (idt : Idt)
    → v ≢ vector
    → idt_set_entry vector handler 0x08 0x8E idt v ≡ idt v
unfolding idt_set_entry
idt_set_entry_ne vector handler v idt ne = rw (beq_of_ne v vector ne) refl

idt_set_entry-IsGate :
    (v handler : ℕ) (idt : Idt)
    → handler < 2 ^ 64
    → IsGate handler (idt_set_entry v handler 0x08 0x8E idt v)
unfolding idt_set_entry
idt_set_entry-IsGate v handler idt h = rw (beq_of_eq v v refl) (whole handler h, refl, refl, refl)

-- A vector below the rounds made has its handler's gate, and the others are as before.
set_handlers-IsGate :
    (handlers : ℕ → ℕ) (rounds : ℕ) (idt : Idt) (v : ℕ)
    → v < rounds
    → handlers v < 2 ^ 64
    → IsGate (handlers v) (set_handlers handlers rounds idt v)
unfolding set_handlers
set_handlers-IsGate handlers zero idt v lt h = absurd (omega arith)
set_handlers-IsGate handlers (suc i) idt v lt h = elim (Bool-cases (v == i)) [
  | inl same ↦
      let e = eq_of_beq v i same in
      subst
        (λ k.
          IsGate (handlers v)
            (idt_set_entry k (handlers k) 0x08 0x8E (set_handlers handlers i idt) v))
        e (idt_set_entry-IsGate v (handlers v) (set_handlers handlers i idt) h)
  | inr other ↦
      rw (idt_set_entry_ne i (handlers i) v (set_handlers handlers i idt) (ne_of_beq v i other))
        (set_handlers-IsGate handlers i idt v (omega (arith, ne_of_beq v i other)) h)
]

set_handlers_above :
    (handlers : ℕ → ℕ) (rounds : ℕ) (idt : Idt) (v : ℕ)
    → rounds ≤ v
    → set_handlers handlers rounds idt v ≡ idt v
unfolding set_handlers
set_handlers_above handlers zero idt v le = refl
set_handlers_above handlers (suc i) idt v le =
    idt_set_entry_ne i (handlers i) v (set_handlers handlers i idt) (omega arith)
    ∙ set_handlers_above handlers i idt v (omega arith)

-- With stubs at 64-bit addresses `idt_init` gives the 32 processor interrupts, the timer's interrupt
-- 32 and the keyboard's 33 a gate with its stub's address, and leaves every other entry alone; its
-- descriptor covers the table's 4096 bytes.
pub idt_init-IsGate :
    (handlers : ℕ → ℕ) (irq0 irq1 address : ℕ) (idt : Idt)
    → ((v : ℕ) → handlers v < 2 ^ 64)
    → irq0 < 2 ^ 64
    → irq1 < 2 ^ 64
    → ((v : ℕ) → v < 32 → IsGate (handlers v) ((idt_init handlers irq0 irq1 address idt).0 v))
      × IsGate irq0 ((idt_init handlers irq0 irq1 address idt).0 32)
      × IsGate irq1 ((idt_init handlers irq0 irq1 address idt).0 33)
      × ((v : ℕ) → 34 ≤ v → (idt_init handlers irq0 irq1 address idt).0 v ≡ idt v)
      × ((idt_init handlers irq0 irq1 address idt).1.size + 1 ≡ 4096)
unfolding idt_init
idt_init-IsGate handlers irq0 irq1 address idt hs h0 h1 =
    let cpu = set_handlers handlers 32 idt in
    let timer = idt_set_entry 32 irq0 0x08 0x8E cpu in
    (
      λ v lt.
          rw
            (
              idt_set_entry_ne 33 irq1 v timer (omega arith),
              idt_set_entry_ne 32 irq0 v cpu (omega arith),
            )
            (set_handlers-IsGate handlers 32 idt v lt (hs v)),
      rw (idt_set_entry_ne 33 irq1 32 timer (omega arith)) (idt_set_entry-IsGate 32 irq0 cpu h0),
      idt_set_entry-IsGate 33 irq1 timer h1,
      λ v le.
          idt_set_entry_ne 33 irq1 v timer (omega arith)
          ∙ idt_set_entry_ne 32 irq0 v cpu (omega arith)
          ∙ set_handlers_above handlers 32 idt v (omega arith),
      refl,
    )
