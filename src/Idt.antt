-- ===== src/Idt.antt =====
-- The interrupt descriptor table (kernel/idt.c). `idt` is the array by vector. The addresses of the
-- entry stubs, which are assembly, are parameters.
pub mod Gates
mod Examples
use jordan_os.Base.{ℕ, zero, suc, ◌-◌, ◌*◌, ◌/◌, ◌^◌, bit_and, u16, ◌==◌, if◌then◌else◌}

pub record IdtEntry : Type 0 where
  pub offset_low : ℕ
  pub selector : ℕ
  pub ist : ℕ
  pub type_attr : ℕ
  pub offset_mid : ℕ
  pub offset_high : ℕ
  pub reserved : ℕ

abbrev pub Idt : Type 0
Idt = ℕ → IdtEntry

unfoldable pub idt_set_entry : ℕ → ℕ → ℕ → ℕ → Idt → Idt
idt_set_entry vector handler selector type_attr idt v =
    if v == vector
    then record {
      offset_low = bit_and handler 0xFFFF;
      selector = selector;
      ist = 0;
      type_attr = type_attr;
      offset_mid = bit_and (handler / 2 ^ 16) 0xFFFF;
      offset_high = bit_and (handler / 2 ^ 32) 0xFFFFFFFF;
      reserved = 0;
    }
    else idt v

-- `for (int i = 0; i < 32; i++)`, by the rounds made.
unfoldable pub set_handlers : (ℕ → ℕ) → ℕ → Idt → Idt
set_handlers handlers zero idt = idt
set_handlers handlers (suc i) idt =
    idt_set_entry i (handlers i) 0x08 0x8E (set_handlers handlers i idt)

-- The descriptor that `lidt` takes: the size of 256 entries of 16 bytes less 1, and the address.
pub record IdtDescriptor : Type 0 where
  pub size : ℕ
  pub addr : ℕ

unfoldable pub idt_init : (ℕ → ℕ) → ℕ → ℕ → ℕ → Idt → Idt × IdtDescriptor
idt_init handlers irq0 irq1 address idt =
    let cpu = set_handlers handlers 32 idt in
    let timer = idt_set_entry 32 irq0 0x08 0x8E cpu in
    (idt_set_entry 33 irq1 0x08 0x8E timer, record { size = 256 * 16 - 1; addr = address })
