-- ===== src/Ata/Model.antt =====
-- What the driver keeps of an identified drive: its name, cut behind the last character that is no
-- space, and its size.
use jordan_os.Base.{
  ℕ, zero, suc, ◌+◌, ◌-◌, ◌*◌, ◌/◌, ◌%◌, ◌^◌, ◌<◌, ◌≤◌, ◌≡◌, ◌≢◌, ◌⊎◌, refl, ap, sym, ◌∙◌, inl, inr,
  arith, Bool-cases, eq_of_beq, ne_of_beq, bit_or, u32, u64, ◌==◌, if◌then◌else◌,
}
use mathlib.Core.Path.{subst}
use jordan_os.Base.Bits.{bit_and-byte, bit_or-add}
use jordan_os.Mem.{write, write_self, write_ne}
use jordan_os.Ata.{Drive, copy_model, trim_model, set_drive}

-- Byte `j` of the name in the words from 27 on, the upper byte of a word first.
abbrev pub name_byte : (ℕ → ℕ) → ℕ → ℕ
name_byte buf j = if j % 2 == 0 then buf (27 + j / 2) / 2 ^ 8 else buf (27 + j / 2) % 2 ^ 8

copy_model_beyond :
    (n : ℕ) (buf model : ℕ → ℕ) (j : ℕ) → 2 * n ≤ j → copy_model n buf model j ≡ model j
unfolding copy_model write
copy_model_beyond zero buf model j h = refl
copy_model_beyond (suc i) buf model j h =
    ground (arith, copy_model_beyond i buf model j (omega arith))

copy_model_at :
    (n : ℕ) (buf model : ℕ → ℕ) (j : ℕ) → j < 2 * n → copy_model n buf model j ≡ name_byte buf j
unfolding copy_model write
copy_model_at zero buf model j h = absurd (omega arith)
copy_model_at (suc i) buf model j h = elim (Bool-cases (j / 2 == i)) [
  | inl here ↦
      let word : buf (i + 27) ≡ buf (27 + j / 2) =
        ap buf (omega (arith, eq_of_beq (j / 2) i here)) in
      grind (arith, word, bit_and-byte (buf (i + 27)))
  | inr other ↦ ground (arith, ne_of_beq (j / 2) i other, copy_model_at i buf model j)
]

-- An array cut in front of the spaces at the end of its first `n` bytes.
abbrev pub Trimmed : ℕ → (ℕ → ℕ) → (ℕ → ℕ) → Type 0
Trimmed n model result =
    (k : ℕ) × (k ≤ n)
    × ((k ≡ 0) ⊎ (model (k - 1) ≢ b' '))
    × ((j : ℕ) → k ≤ j → j < n → (model j ≡ b' ') × (result j ≡ 0))
    × ((j : ℕ) → j < k → result j ≡ model j)
    × ((j : ℕ) → n ≤ j → result j ≡ model j)

trim_model-Trimmed : (n : ℕ) (model : ℕ → ℕ) → Trimmed n model (trim_model n model)
unfolding trim_model
trim_model-Trimmed zero model =
    (0, omega arith, inl refl, λ j h g. absurd (omega arith), λ j h. refl, λ j h. refl)
trim_model-Trimmed (suc i) model = elim (Bool-cases (model i == b' ')) [
  | inr other ↦ rw other (
    suc i,
    omega arith,
    inr (subst (λ (m : ℕ). model m ≢ b' ') (omega arith) (ne_of_beq (model i) b' ' other)),
    λ j h g. absurd (omega arith),
    λ j h. refl,
    λ j h. refl,
  )
  | inl space ↦
      let (k, le, last, blank, kept, beyond) = trim_model-Trimmed i (write model i 0) in
      let same = λ (j : ℕ) (h : j ≢ i). write_ne model i 0 j h in
      rw space (
        k,
        omega arith,
        elim last [
          | inl z ↦ inl z
          | inr ne ↦ elim (Bool-cases (k == 0)) [
            | inl z ↦ inl (eq_of_beq k 0 z)
            | inr pos ↦
                let apart = same (k - 1) (omega (arith, ne_of_beq k 0 pos)) in
                inr (λ e. ne (apart ∙ e))
          ]
        ],
        λ j h g. elim (Bool-cases (j == i)) [
          | inl e ↦
              let here = eq_of_beq j i e in
              (
                ap model here ∙ eq_of_beq (model i) b' ' space,
                beyond j (omega arith) ∙ ap (write model i 0) here ∙ write_self model i 0,
              )
          | inr ne ↦
              let (was, now) = blank j h (omega (arith, ne_of_beq j i ne)) in
              (sym (same j (ne_of_beq j i ne)) ∙ was, now)
        ],
        λ j h. kept j h ∙ same j (omega arith),
        λ j h. beyond j (omega arith) ∙ same j (omega arith),
      )
]

-- A size in the words from `n` on, the lowest first.
abbrev pub size_at : (ℕ → ℕ) → ℕ → ℕ
size_at buf n = buf n + 2 ^ 16 * buf (n + 1)

join_two : (a b : ℕ) → a < 2 ^ 16 → b < 2 ^ 16 → bit_or (u32 (a * 2 ^ 16)) b ≡ b + 2 ^ 16 * a
join_two a b ha hb =
    let upper : u32 (a * 2 ^ 16) ≡ a * 2 ^ 16 = omega arith in
    rw upper (bit_or-add 16 a b hb ∙ omega arith)

join_four :
    (a b c d : ℕ)
    → a < 2 ^ 16
    → b < 2 ^ 16
    → c < 2 ^ 16
    → d < 2 ^ 16
    → bit_or (bit_or (bit_or (u64 (a * 2 ^ 48)) (u64 (b * 2 ^ 32))) (u64 (c * 2 ^ 16))) d
      ≡ d + 2 ^ 16 * c + 2 ^ 32 * (b + 2 ^ 16 * a)
join_four a b c d ha hb hc hd =
    let first : u64 (a * 2 ^ 48) ≡ a * 2 ^ 48 = omega arith in
    let second : u64 (b * 2 ^ 32) ≡ b * 2 ^ 32 = omega arith in
    let third : u64 (c * 2 ^ 16) ≡ c * 2 ^ 16 = omega arith in
    let two : bit_or (a * 2 ^ 48) (b * 2 ^ 32) ≡ (a * 2 ^ 16 + b) * 2 ^ 32 =
      bit_or-add 48 a (b * 2 ^ 32) (omega arith) ∙ omega arith in
    let three : bit_or ((a * 2 ^ 16 + b) * 2 ^ 32) (c * 2 ^ 16)
        ≡ (a * 2 ^ 32 + b * 2 ^ 16 + c) * 2 ^ 16 =
      bit_or-add 32 (a * 2 ^ 16 + b) (c * 2 ^ 16) (omega arith) ∙ omega arith in
    rw (first, second, third, two, three)
      (bit_or-add 16 (a * 2 ^ 32 + b * 2 ^ 16 + c) d hd ∙ omega arith)

-- From 256 words `ata_init` keeps the drive's name, the bytes of the words 27 to 46 without the
-- spaces at their end and with a terminator behind them, and as the number of sectors the words 100
-- to 103 or, if these are 0, the words 60 and 61.
pub set_drive_lem :
    (buf : ℕ → ℕ) (old : Drive)
    → ((i : ℕ) → buf i < 2 ^ 16)
    → let drive = set_drive buf old in
      let large = size_at buf 100 + 2 ^ 32 * size_at buf 102 in
      (name : ℕ → ℕ) × ((j : ℕ) → j < 40 → name j ≡ name_byte buf j)
      × Trimmed 40 name drive.model
      × (drive.model 40 ≡ 0)
      × (drive.present ≡ 1)
      × (drive.total_sectors ≡ (if large == 0 then size_at buf 60 else large))
unfolding set_drive
set_drive_lem buf old words =
    let name = write (copy_model 20 buf old.model) 40 0 in
    let trimmed = trim_model-Trimmed 40 name in
    let (k, le, last, blank, kept, beyond) = trimmed in
    (
      name,
      λ j h.
          write_ne (copy_model 20 buf old.model) 40 0 j (omega arith)
          ∙ copy_model_at 20 buf old.model j (omega arith),
      trimmed,
      beyond 40 (omega arith) ∙ write_self (copy_model 20 buf old.model) 40 0,
      refl,
      rw
          (
            join_four (buf 103) (buf 102) (buf 101) (buf 100) (words 103) (words 102) (words 101)
                (words 100),
            join_two (buf 61) (buf 60) (words 61) (words 60),
          )
          refl,
    )
