-- ===== src/Ata/Bounds.antt =====
-- The drive's name (kernel/ata.c) is bytes.
use jordan_os.Base.{ℕ, zero, suc, ◌+◌, ◌^◌, ◌<◌, arith, Bool-cases, inl, inr, ◌==◌}
use jordan_os.Base.Bits.{bit_and-byte}
use jordan_os.Io.{Hardware, Log, inb}
use jordan_os.Mem.{write}
use jordan_os.Ata.{
  Drive, copy_model, trim_model, set_drive, insw, fetch, poll, ata_identify, wait, lacks_data,
  is_busy, timeout_start, send_identify,
}

-- Everything in an array is below a bound.
abbrev pub Below : ℕ → (ℕ → ℕ) → Type 0
Below n a = (i : ℕ) → a i < n

write-Below : (n : ℕ) (a : ℕ → ℕ) (i v : ℕ) → Below n a → v < n → Below n (write a i v)
unfolding write
write-Below n a i v below hv j = ground (arith, below j)

copy_model-Below :
    (i : ℕ) (buf model : ℕ → ℕ)
    → Below (2 ^ 16) buf
    → Below 256 model
    → Below 256 (copy_model i buf model)
unfolding copy_model
copy_model-Below zero buf model words bytes = bytes
copy_model-Below (suc i) buf model words bytes =
    let word = words (i + 27) in
    write-Below 256 _ _ _
      (write-Below 256 _ _ _ (copy_model-Below i buf model words bytes) (omega arith))
      (rw (bit_and-byte (buf (i + 27))) (omega arith))

trim_model-Below : (i : ℕ) (model : ℕ → ℕ) → Below 256 model → Below 256 (trim_model i model)
unfolding trim_model
trim_model-Below zero model bytes = bytes
trim_model-Below (suc i) model bytes = elim (Bool-cases (model i == b' ')) [
  | inl space ↦
      rw space
        (trim_model-Below i (write model i 0) (write-Below 256 model i 0 bytes (omega arith)))
  | inr other ↦ rw other bytes
]

insw-Below :
    (hw : Hardware) (left i : ℕ) (buf : ℕ → ℕ) (log : Log)
    → Below (2 ^ 16) buf
    → Below (2 ^ 16) (insw hw left i buf log).0
unfolding insw
insw-Below hw zero i buf log words = words
insw-Below hw (suc left) i buf log words =
    insw-Below hw left (i + 1) _ _ (write-Below (2 ^ 16) buf i _ words (omega arith))

fetch-Below :
    (hw : Hardware) (timeout : ℕ) (buf : ℕ → ℕ) (log : Log)
    → Below (2 ^ 16) buf
    → Below (2 ^ 16) (fetch hw timeout buf log).1
unfolding fetch
fetch-Below hw timeout buf log words = elim (Bool-cases ((wait hw lacks_data timeout log).0 == 0)) [
  | inl out ↦ rw out words
  | inr there ↦ rw there (insw-Below hw 256 0 buf _ words)
]

poll-Below :
    (hw : Hardware) (timeout : ℕ) (buf : ℕ → ℕ) (log : Log)
    → Below (2 ^ 16) buf
    → Below (2 ^ 16) (poll hw timeout buf log).1
unfolding poll
poll-Below hw timeout buf log words = elim (Bool-cases ((wait hw is_busy timeout log).0 == 0)) [
  | inl out ↦ rw out words
  | inr idle ↦ rw idle (fetch-Below hw _ buf _ words)
]

ata_identify-Below :
    (hw : Hardware) (buf : ℕ → ℕ) (log : Log)
    → Below (2 ^ 16) buf
    → Below (2 ^ 16) (ata_identify hw buf log).1
unfolding ata_identify
ata_identify-Below hw buf log words =
    elim (Bool-cases ((inb hw 0x3F6 (send_identify log)).0 == 0)) [
      | inl away ↦ rw away words
      | inr there ↦ rw there (poll-Below hw timeout_start buf _ words)
    ]

pub set_drive-Below :
    (hw : Hardware) (buf : ℕ → ℕ) (drive : Drive) (log : Log)
    → Below (2 ^ 16) buf
    → Below 256 drive.model
    → Below 256 (set_drive (ata_identify hw buf log).1 drive).model
unfolding set_drive
set_drive-Below hw buf drive log words bytes = trim_model-Below 40 _ (
    write-Below 256 _ 40 0
      (copy_model-Below 20 _ drive.model (ata_identify-Below hw buf log words) bytes) (omega arith))
