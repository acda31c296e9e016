-- ===== src/Timer.antt =====
-- The interval timer and the speaker (kernel/pit.c and kernel/beep.c). `tick_count` is a number of
-- the state; the rest is port output. A division by 0 is a fault, `none`.
pub mod Channels
mod Examples
use jordan_os.Base.{
  ℕ, zero, suc, ◌+◌, ◌-◌, ◌/◌, ◌^◌, bit_and, bit_or, u8, u16, u32, Option, none, some, ◌==◌,
  if◌then◌else◌, ◌>>=◌,
}
use jordan_os.Io.{Hardware, Log, outb, inb}
use jordan_os.Pic.{pic_unmask}

abbrev pub tick_hz : ℕ
tick_hz = 100

unfoldable pub pit_init : Hardware → Log → Log
pit_init hw log =
    let divisor = u16 (1193182 / tick_hz) in
    let sent =
      outb 0x40 (bit_and (divisor / 2 ^ 8) 0xFF)
        (outb 0x40 (bit_and divisor 0xFF) (outb 0x43 0x36 log)) in
    pic_unmask hw 0 sent

unfoldable pub inc_ticks : ℕ → ℕ
inc_ticks tick_count = u32 (tick_count + 1)

-- What `beep` sends once it has its divisor. The delays between the accesses change nothing that the
-- kernel can see; `~0x03` of `int` is 2^32 - 4.
unfoldable pub sound : Hardware → ℕ → Log → Log
sound hw divisor log =
    let sent =
      outb 0x42 (u8 (divisor / 2 ^ 8))
        (outb 0x42 (u8 (bit_and divisor 0xFF)) (outb 0x43 0xB6 log)) in
    let (tmp, asked) = inb hw 0x61 sent in
    let on = outb 0x61 (u8 (bit_or tmp 0x03)) asked in outb 0x61 (u8 (bit_and tmp (2 ^ 32 - 4))) on

unfoldable pub beep : Hardware → ℕ → Log → Option Log
beep hw freq log = if freq == 0 then none else some (sound hw (u16 (1193180 / freq)) log)

-- `n` is the `int` when it is not negative; with a negative one no round is made, as with 0.
unfoldable pub beep_n : Hardware → ℕ → Log → Option Log
beep_n hw zero log = some log
beep_n hw (suc n) log = do next ← beep hw 1000 log; beep_n hw n next
