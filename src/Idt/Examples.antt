-- ===== src/Idt/Examples.antt =====
-- The theorem on the interrupt table at concrete addresses.
use jordan_os.Base.{ℕ, ◌+◌, ◌*◌, ◌%◌, ◌<◌, ◌≤◌, ◌≡◌, arith}
use jordan_os.Idt.{Idt, idt_init}
use jordan_os.Idt.Gates.{IsGate, idt_init-IsGate}

abbrev empty : Idt
empty v = record {
  offset_low = 0;
  selector = 0;
  ist = 0;
  type_attr = 0;
  offset_mid = 0;
  offset_high = 0;
  reserved = 0;
}

-- Stubs of 16 bytes, the first 64 in the upper half of the address space.
abbrev stubs : ℕ → ℕ
stubs v = 0xFFFF800000100000 + v % 64 * 16

abbrev built : Idt
built = (idt_init stubs 0x200000 0x200040 0x300000 empty).0

idt_init-IsGate_example :
    ((v : ℕ) → v < 32 → IsGate (stubs v) (built v))
    × IsGate 0x200000 (built 32)
    × IsGate 0x200040 (built 33)
    × ((v : ℕ) → 34 ≤ v → built v ≡ empty v)
    × ((idt_init stubs 0x200000 0x200040 0x300000 empty).1.size + 1 ≡ 4096)
idt_init-IsGate_example =
    idt_init-IsGate stubs 0x200000 0x200040 0x300000 empty (λ v. omega arith) (omega arith)
      (omega arith)
