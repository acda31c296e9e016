-- ===== src/Ata.antt =====
-- The disk driver (kernel/ata.c): programmed input and output at ports 0x1F0 to 0x1F7 and 0x3F6. A
-- buffer of 16-bit words is a function of the index. The waits of `ata_read` have no timeout, so they
-- take fuel, and `none` is a wait that the fuel did not see the end of.
pub mod Wait
pub mod Identify
pub mod Model
pub mod Registers
pub mod Read
pub mod Init
pub mod Bounds
mod Examples
use jordan_os.Base.{
  ℕ, zero, suc, ◌+◌, ◌-◌, ◌*◌, ◌/◌, ◌%◌, ◌^◌, bit_and, bit_or, u8, u16, u32, u64, Bool, true, false,
  not, Option, none, some, List, [], ◌∷◌, ◌==◌, ltb, if◌then◌else◌, ◌>>=◌,
}
use jordan_os.Io.{Access, Hardware, Log, outb, inb, inw}
use jordan_os.Mem.{write}
use jordan_os.Str.{Bytes}

pub record Drive : Type 0 where
  pub model : ℕ → ℕ
  pub present : ℕ
  pub total_sectors : ℕ

-- The status port answers with the busy bit, and with the bit that says that data are there.
abbrev pub is_busy : ℕ → Bool
is_busy status = not (bit_and status 0x80 == 0)

abbrev pub has_data : ℕ → Bool
has_data status = not (bit_and status 0x08 == 0)

abbrev pub lacks_data : ℕ → Bool
lacks_data status = not (has_data status)

-- `while (test(inb(0x3F6)) && --timeout);`: the timeout that is left, 0 when it has run out.
unfoldable pub wait : Hardware → (ℕ → Bool) → ℕ → Log → ℕ × Log
wait hw test zero log = (zero, log)
wait hw test (suc timeout) log =
    let (status, asked) = inb hw 0x3F6 log in
    let rest = wait hw test timeout asked in
    if test status then (if timeout == 0 then (zero, asked) else rest) else (suc timeout, asked)

-- `rep insw`, by the words still to come: `buf[i]` and on.
unfoldable pub insw : Hardware → ℕ → ℕ → (ℕ → ℕ) → Log → (ℕ → ℕ) × Log
insw hw zero i buf log = (buf, log)
insw hw (suc left) i buf log =
    let (word, asked) = inw hw 0x1F0 log in insw hw left (i + 1) (write buf i word) asked

-- The command of `ata_identify`.
abbrev pub send_identify : Log → Log
send_identify log =
    outb 0x1F7 0xEC
      (outb 0x1F5 0x00 (outb 0x1F4 0x00 (outb 0x1F3 0x00 (outb 0x1F2 0x00 (outb 0x1F6 0xA0 log)))))

abbrev pub timeout_start : ℕ
timeout_start = 100000

-- The end of `ata_identify`, once the drive is not busy: a status of 0, or of -1, the buffer, and the
-- log.
unfoldable pub fetch : Hardware → ℕ → (ℕ → ℕ) → Log → ℕ × (ℕ → ℕ) × Log
fetch hw timeout buf log =
    let (left, ready) = wait hw lacks_data timeout log in
    let (words, done) = insw hw 256 0 buf ready in
    if left == 0 then (2 ^ 32 - 1, buf, ready) else (0, words, done)

unfoldable pub poll : Hardware → ℕ → (ℕ → ℕ) → Log → ℕ × (ℕ → ℕ) × Log
poll hw timeout buf log =
    let (left, idle) = wait hw is_busy timeout log in
    let fetched = fetch hw timeout buf idle in
    if left == 0 then (2 ^ 32 - 1, buf, idle) else fetched

unfoldable pub ata_identify : Hardware → (ℕ → ℕ) → Log → ℕ × (ℕ → ℕ) × Log
ata_identify hw buf log =
    let (status, asked) = inb hw 0x3F6 (send_identify log) in
    let polled = poll hw timeout_start buf asked in
    if status == 0 then (2 ^ 32 - 1, buf, asked) else polled

-- The two bytes of each of the words 27 to 46, the upper one first; byte 40 is the terminator.
unfoldable pub copy_model : ℕ → (ℕ → ℕ) → (ℕ → ℕ) → ℕ → ℕ
copy_model zero buf model = model
copy_model (suc i) buf model =
    let word = buf (i + 27) in
    write (write (copy_model i buf model) (i * 2) (word / 2 ^ 8)) (i * 2 + 1) (bit_and word 0xFF)

-- `for (int i = 39; i >= 0 && drive.model[i] == ' '; i--)`, by `i + 1`.
unfoldable pub trim_model : ℕ → (ℕ → ℕ) → ℕ → ℕ
trim_model zero model = model
trim_model (suc i) model =
    let rest = trim_model i (write model i 0) in if model i == b' ' then rest else model

abbrev pub lba48 : (ℕ → ℕ) → ℕ
lba48 buf =
    bit_or
      (bit_or (bit_or (u64 (buf 103 * 2 ^ 48)) (u64 (buf 102 * 2 ^ 32))) (u64 (buf 101 * 2 ^ 16)))
      (buf 100)

abbrev pub lba32 : (ℕ → ℕ) → ℕ
lba32 buf = bit_or (u32 (buf 61 * 2 ^ 16)) (buf 60)

-- What `ata_init` keeps of the words.
unfoldable pub set_drive : (ℕ → ℕ) → Drive → Drive
set_drive buf drive = record {
  model = trim_model 40 (write (copy_model 20 buf drive.model) 40 0);
  present = 1;
  total_sectors = if lba48 buf == 0 then lba32 buf else lba48 buf;
}

-- `while (test(inb(0x3F6)));` with fuel for so many rounds.
unfoldable pub spin : Hardware → (ℕ → Bool) → ℕ → Log → Option Log
spin hw test zero log = none
spin hw test (suc fuel) log =
    let (status, asked) = inb hw 0x3F6 log in
    let rest = spin hw test fuel asked in if test status then rest else some asked

-- The command of `ata_read`; `0xE0 | (lba >> 24)` is cut to a byte.
abbrev pub send_read : ℕ → ℕ → Log → Log
send_read lba sectors log = outb 0x1F7 0x20 (
    outb 0x1F2 sectors (
      outb 0x1F5 (u8 (lba / 2 ^ 16)) (
        outb 0x1F4 (u8 (lba / 2 ^ 8))
          (outb 0x1F3 (u8 lba) (outb 0x1F6 (u8 (bit_or 0xE0 (lba / 2 ^ 24))) log)))))

-- `while (busy); while (!data);`
unfoldable pub spin_ready : Hardware → ℕ → Log → Option Log
spin_ready hw fuel log = do idle ← spin hw is_busy fuel log; spin hw lacks_data fuel idle

-- The rounds of `ata_read`, by the sectors still to come: `buf[i]` and on.
unfoldable pub read_sectors : Hardware → ℕ → ℕ → ℕ → (ℕ → ℕ) → Log → Option ((ℕ → ℕ) × Log)
read_sectors hw fuel zero i buf log = some (buf, log)
read_sectors hw fuel (suc left) i buf log = do
  ready ← spin_ready hw fuel log
  let filled = insw hw 256 i buf ready
  read_sectors hw fuel left (i + 256) filled.0 filled.1

unfoldable pub ata_read : Hardware → ℕ → ℕ → (ℕ → ℕ) → ℕ → Log → Option ((ℕ → ℕ) × Log)
ata_read hw fuel lba buf sectors log =
    let run = (do
      idle ← spin hw is_busy fuel log
      ready ← spin_ready hw fuel (send_read lba sectors idle)
      read_sectors hw fuel sectors 0 buf ready) in
    if sectors == 0 then some (buf, log) else run
