-- ===== src/Ata/Examples.antt =====
-- The disk driver's theorems with a drive that is always ready.
use jordan_os.Base.{ℕ, ◌+◌, ◌-◌, ◌*◌, ◌%◌, ◌^◌, ◌<◌, ◌≡◌, ◌≢◌, ◌⊎◌, arith, [], ◌==◌, if◌then◌else◌}
use jordan_os.Io.{Hardware}
use jordan_os.Ata.{Drive, set_drive, send_identify, ata_identify}
use jordan_os.Ata.Wait.{asks, answer}
use jordan_os.Ata.Identify.{Answers, Fetched, ata_identify_lem}
use jordan_os.Ata.Model.{name_byte, size_at, Trimmed, set_drive_lem}
use jordan_os.Ata.Registers.{address, given}

-- What the disk holds, by word.
abbrev disk : ℕ → ℕ
disk i = i * 7 % 2 ^ 16

abbrev drive : Hardware
drive = record { byte = λ log port. 0x48; word = λ log port. disk (256 * address log + given log) }

abbrev empty : ℕ → ℕ
empty i = 0

ata_identify_lem_example :
    let first = send_identify [] in
    let (status, words, done) = ata_identify drive empty [] in
    ((answer drive 0 first ≢ 0) × Fetched drive 100000 (asks 1 first) status words)
    ⊎ (((answer drive 0 first ≡ 0) ⊎ (¬ Answers drive 100000 (asks 1 first)))
        × (status ≡ 2 ^ 32 - 1)
        × (words ≡ empty))
ata_identify_lem_example = ata_identify_lem drive empty []

-- A name of the letter A and spaces, and 2^20 sectors.
abbrev identity : ℕ → ℕ
identity i = if i == 27 then 0x4120 else if i == 61 then 16 else if i == 60 then 0 else 0x2020

abbrev none_yet : Drive
none_yet = record { model = λ i. 0; present = 0; total_sectors = 0 }

identity-small : (i : ℕ) → identity i < 2 ^ 16
identity-small i = ground arith

set_drive_lem_example :
    let kept = set_drive identity none_yet in
    let large = size_at identity 100 + 2 ^ 32 * size_at identity 102 in
    (name : ℕ → ℕ) × ((j : ℕ) → j < 40 → name j ≡ name_byte identity j)
    × Trimmed 40 name kept.model
    × (kept.model 40 ≡ 0)
    × (kept.present ≡ 1)
    × (kept.total_sectors ≡ (if large == 0 then size_at identity 60 else large))
set_drive_lem_example = set_drive_lem identity none_yet identity-small
