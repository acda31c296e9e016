-- ===== src/Pic.antt =====
-- The interrupt controllers (kernel/pic.c): two chained 8259 chips, the first one behind ports 0x20
-- and 0x21 and the second one behind 0xA0 and 0xA1.
pub mod Chips
mod Examples
use jordan_os.Base.{ℕ, ◌-◌, ◌%◌, ◌^◌, bit_and, u8, ltb, if◌then◌else◌}
use jordan_os.Io.{Hardware, Log, outb, inb, io_wait}

unfoldable pub pic_init : Log → Log
pic_init log =
    let main = io_wait (
      outb 0x21 0x01
        (io_wait (outb 0x21 0x04 (io_wait (outb 0x21 0x20 (io_wait (outb 0x20 0x11 log))))))) in
    let second = io_wait (
      outb 0xA1 0x01
        (io_wait (outb 0xA1 0x02 (io_wait (outb 0xA1 0x28 (io_wait (outb 0xA0 0x11 main))))))) in
    outb 0xA1 0xFF (outb 0x21 0xFF second)

unfoldable pub pic_eoi : ℕ → Log → Log
pic_eoi irq log =
    let main = io_wait (outb 0x20 0x20 log) in if ltb 7 irq then outb 0xA0 0x20 main else main

-- `irq` is not negative. The complement of the `int` is its 32-bit pattern.
unfoldable pub pic_unmask : Hardware → ℕ → Log → Log
pic_unmask hw irq log =
    let port = if ltb irq 8 then 0x21 else 0xA1 in
    let (currval, asked) = inb hw port log in
    let newval = u8 (bit_and currval (2 ^ 32 - 1 - 2 ^ (irq % 8))) in
    io_wait (outb port newval (io_wait asked))
