-- ===== src/Ata/Registers.antt =====
-- What a disk drive makes of the accesses of kernel/ata.c, by the description of its registers: the
-- sector's number is in ports 0x1F3 to 0x1F5 and the low half of 0x1F6, whose bit 6 says that it is a
-- number, the count in 0x1F2, the command in 0x1F7, which the drive takes only when its status has
-- been seen not busy. A read command makes the data port give the words of these sectors in order,
-- but those of each sector only once the status port has been seen not busy and then with data.
use jordan_os.Base.{
  ℕ, zero, suc, ◌+◌, ◌*◌, ◌%◌, ◌^◌, ◌<◌, ◌≡◌, refl, ◌∙◌, inl, inr, arith, Bool-cases, Bool, true,
  not, u16, [], ◌∷◌, ◌==◌, if◌then◌else◌, beq_of_ne, u8, ◌&&◌, false,
}
use jordan_os.Base.Bits.{bit_at}
use jordan_os.Io.{Access, Hardware, Log}
use jordan_os.Ata.{is_busy, has_data, lacks_data}
use jordan_os.Ata.Wait.{asks, answer, Until, word_asks}

-- The byte that a port was sent last.
unfoldable pub latched : ℕ → Log → ℕ
latched port [] = 0
latched port (Access.asked p ∷ log) = latched port log
latched port (Access.wrote p v ∷ log) = if p == port then v else latched port log

-- The words read since the last command.
unfoldable pub given : Log → ℕ
given [] = 0
given (Access.asked p ∷ log) = if p == 0x1F0 then given log + 1 else given log
given (Access.wrote p v ∷ log) = if p == 0x1F7 then 0 else given log

abbrev pub address : Log → ℕ
address log =
    latched 0x1F3 log
    + 2 ^ 8 * latched 0x1F4 log
    + 2 ^ 16 * latched 0x1F5 log
    + 2 ^ 24 * (latched 0x1F6 log % 16)

-- The last answer of the status port, since a command, said that the drive is not busy.
unfoldable pub idle : Hardware → Log → Bool
idle hw [] = false
idle hw (Access.asked p ∷ log) =
    if p == 0x3F6 then not (is_busy (u8 (hw.byte log 0x3F6))) else idle hw log
idle hw (Access.wrote p v ∷ log) = if p == 0x1F7 then false else idle hw log

-- The command that was sent last, 0 if the drive had not been seen to be ready for it.
unfoldable pub command : Hardware → Log → ℕ
command hw [] = 0
command hw (Access.asked p ∷ log) = command hw log
command hw (Access.wrote p v ∷ log) =
    if p == 0x1F7 then (if idle hw log then v else 0) else command hw log

-- A read command for a sector's number is under way, and some of its words are still to come.
abbrev pub Reading : Hardware → Log → Type 0
Reading hw log =
    (command hw log ≡ 0x20)
    × (bit_at 6 (latched 0x1F6 log) ≡ 1)
    × (given log < 256 * latched 0x1F2 log)

-- What the answers of the status port have shown of the sector that is to be read next: nothing, 0,
-- that the drive is no longer busy, 1, and that its data are there, 2.
abbrev pub advance : ℕ → ℕ → ℕ
advance status zero = if is_busy status then 0 else if has_data status then 2 else 1
advance status (suc phase) = if has_data status then 2 else suc phase

-- A command, and the last word of a sector, start that anew.
unfoldable pub shown : Hardware → Log → ℕ
shown hw [] = 0
shown hw (Access.wrote p v ∷ log) = if p == 0x1F7 then 0 else shown hw log
shown hw (Access.asked p ∷ log) =
    if p == 0x3F6
    then advance (u8 (hw.byte log 0x3F6)) (shown hw log)
    else if (p == 0x1F0) && (given log % 256 == 255)
    then 0
    else shown hw log

-- Within `n` reads of the status port the drive stops being busy, and, once it has been seen not
-- busy, has the data of a read command.
abbrev pub Prompt : Hardware → ℕ → Type 0
Prompt hw n =
    ((log : Log) → (k : ℕ) × (k < n) × Until hw is_busy k log)
    × ((log : Log)
        → Reading hw log
        → 0 < shown hw log
        → (k : ℕ) × (k < n) × Until hw lacks_data k log)

-- The data port gives the words of a sector whose data have been seen to be there.
abbrev pub Serves : Hardware → (ℕ → ℕ) → Type 0
Serves hw disk =
    (log : Log)
    → Reading hw log
    → shown hw log ≡ 2
    → u16 (hw.word log 0x1F0) ≡ disk (256 * address log + given log)

-- What the waits have shown at their ends.
pub seen_idle :
    (hw : Hardware) (k : ℕ) (log : Log) → Until hw is_busy k log → 0 < shown hw (asks (suc k) log)
unfolding shown
seen_idle hw zero log u = advance_idle (answer hw 0 log) (shown hw log) u
  where
    advance_idle : (s phase : ℕ) → is_busy s ≡ false → 0 < advance s phase
    advance_idle s zero idle = elim (Bool-cases (has_data s)) [
      | inl data_there ↦ rw (idle, data_there) (omega arith)
      | inr lacks ↦ rw (idle, lacks) (omega arith)
    ]
    advance_idle s (suc phase) idle = elim (Bool-cases (has_data s)) [
      | inl data_there ↦ rw data_there (omega arith)
      | inr lacks ↦ rw lacks (omega arith)
    ]
seen_idle hw (suc k) log (_, u) = seen_idle hw k (Access.asked 0x3F6 ∷ log) u

pub seen_data :
    (hw : Hardware) (k : ℕ) (log : Log)
    → 0 < shown hw log
    → Until hw lacks_data k log
    → shown hw (asks (suc k) log) ≡ 2
unfolding shown
seen_data hw zero log h u = advance_data (answer hw 0 log) (shown hw log) h u
  where
    advance_data : (s phase : ℕ) → 0 < phase → lacks_data s ≡ false → advance s phase ≡ 2
    advance_data s zero h there = absurd (omega arith)
    advance_data s (suc phase) h there = elim (Bool-cases (has_data s)) [
      | inl data_there ↦ rw data_there refl
      | inr lacks ↦ cc (rw lacks at there)
    ]
seen_data hw (suc k) log h (_, u) =
    seen_data hw k (Access.asked 0x3F6 ∷ log) (advance_stays (answer hw 0 log) (shown hw log) h) u
  where
    advance_stays : (s phase : ℕ) → 0 < phase → 0 < advance s phase
    advance_stays s zero h = absurd (omega arith)
    advance_stays s (suc phase) h = elim (Bool-cases (has_data s)) [
      | inl data_there ↦ rw data_there (omega arith)
      | inr lacks ↦ rw lacks (omega arith)
    ]

-- Within a sector the words leave it as it is.
pub shown-word_asks :
    (hw : Hardware) (k : ℕ) (log : Log)
    → given log % 256 + k < 256
    → shown hw (word_asks k log) ≡ shown hw log
unfolding shown given
shown-word_asks hw zero log h = refl
shown-word_asks hw (suc k) log h =
    shown-word_asks hw k (Access.asked 0x1F0 ∷ log) (omega arith)
    ∙ rw (beq_of_ne (given log % 256) 255 (omega arith)) refl

-- Two logs leave the drive's registers the same.
abbrev pub Alike : Hardware → Log → Log → Type 0
Alike hw old new =
    ((port : ℕ) → latched port new ≡ latched port old) × (command hw new ≡ command hw old)

pub Alike-trans : (hw : Hardware) (a b c : Log) → Alike hw a b → Alike hw b c → Alike hw a c
Alike-trans hw a b c (ports, same) (ports', same') =
    (λ port. ports' port ∙ ports port, same' ∙ same)

pub asks-Alike : (hw : Hardware) (k : ℕ) (log : Log) → Alike hw log (asks k log)
unfolding latched command
asks-Alike hw zero log = (λ port. refl, refl)
asks-Alike hw (suc k) log = asks-Alike hw k (Access.asked 0x3F6 ∷ log)

-- A wait for a drive that is not busy sees that.
pub idle-asks :
    (hw : Hardware) (k : ℕ) (log : Log) → Until hw is_busy k log → idle hw (asks (suc k) log) ≡ true
unfolding idle
idle-asks hw zero log u = rw u refl
idle-asks hw (suc k) log (_, u) = idle-asks hw k (Access.asked 0x3F6 ∷ log) u

pub given-asks : (k : ℕ) (log : Log) → given (asks k log) ≡ given log
unfolding given
given-asks zero log = refl
given-asks (suc k) log = given-asks k (Access.asked 0x3F6 ∷ log)

pub word_asks-Alike : (hw : Hardware) (k : ℕ) (log : Log) → Alike hw log (word_asks k log)
unfolding latched command
word_asks-Alike hw zero log = (λ port. refl, refl)
word_asks-Alike hw (suc k) log = word_asks-Alike hw k (Access.asked 0x1F0 ∷ log)

pub given-word_asks : (k : ℕ) (log : Log) → given (word_asks k log) ≡ given log + k
unfolding given
given-word_asks zero log = omega arith
given-word_asks (suc k) log = given-word_asks k (Access.asked 0x1F0 ∷ log) ∙ omega arith

pub address-Alike : (hw : Hardware) (old new : Log) → Alike hw old new → address new ≡ address old
address-Alike hw old new (same, _) = rw (same 0x1F3, same 0x1F4, same 0x1F5, same 0x1F6) refl

pub Reading-Alike :
    (hw : Hardware) (old new : Log)
    → Alike hw old new
    → given new ≡ given old
    → Reading hw old
    → Reading hw new
Reading-Alike hw old new (same, last) counted (cmd, by_number, more) =
    (last ∙ cmd, rw (same 0x1F6) by_number, rw (counted, same 0x1F2) more)
