-- ===== src/Io.antt =====
-- Port input and output (include/io.h). The log of a machine has every port access so far, the last
-- one first; what a port answers is up to the hardware, which may look at the whole log.
use jordan_os.Base.{ℕ, u8, u16, List, ◌∷◌}

pub data Access : Type 0 where
  wrote : ℕ → ℕ → Access
  asked : ℕ → Access

abbrev pub Log : Type 0
Log = List Access

-- The answer of a port to an access of one byte, and to one of a word.
pub record Hardware : Type 0 where
  pub byte : Log → ℕ → ℕ
  pub word : Log → ℕ → ℕ

abbrev pub outb : ℕ → ℕ → Log → Log
outb port val log = Access.wrote port val ∷ log

abbrev pub inb : Hardware → ℕ → Log → ℕ × Log
inb hw port log = (u8 (hw.byte log port), Access.asked port ∷ log)

abbrev pub io_wait : Log → Log
io_wait log = outb 0x80 0x00 log

abbrev pub inw : Hardware → ℕ → Log → ℕ × Log
inw hw port log = (u16 (hw.word log port), Access.asked port ∷ log)
