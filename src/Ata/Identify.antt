-- ===== src/Ata/Identify.antt =====
-- Identifying a drive (kernel/ata.c): when `ata_identify` succeeds, and what it reads.
use jordan_os.Base.{
  ℕ, zero, suc, ◌-◌, ◌^◌, ◌<◌, ◌≡◌, ◌≢◌, ◌⊎◌, refl, ap, inl, inr, arith, Bool, Bool-cases,
  eq_of_beq, ne_of_beq, ◌==◌,
}
use mathlib.Core.Path.{subst}
use jordan_os.Io.{Hardware, Log}
use jordan_os.Ata.{is_busy, lacks_data, wait, fetch, poll, ata_identify, send_identify}
use jordan_os.Ata.Wait.{asks, answer, Until, wait-Until, wait_left, word_at, insw_at}

-- Within the timeout the drive has data.
abbrev pub HasData : Hardware → ℕ → Log → Type 0
HasData hw timeout log = (k : ℕ) × (k < timeout) × Until hw lacks_data k log

-- Within the timeout the drive is no longer busy, and within another it has data.
abbrev pub Answers : Hardware → ℕ → Log → Type 0
Answers hw timeout log =
    (k : ℕ) × (k < timeout) × Until hw is_busy k log × HasData hw timeout (asks (suc k) log)

fetch_lem :
    (hw : Hardware) (timeout : ℕ) (buf : ℕ → ℕ) (log : Log)
    → let (status, words, done) = fetch hw timeout buf log in
      ((k : ℕ) × (k < timeout)
        × Until hw lacks_data k log
        × (status ≡ 0)
        × ((i : ℕ) → i < 256 → words i ≡ word_at hw i (asks (suc k) log)))
      ⊎ ((¬ HasData hw timeout log) × (status ≡ 2 ^ 32 - 1) × (words ≡ buf))
unfolding fetch
fetch_lem hw timeout buf log = elim (Bool-cases ((wait hw lacks_data timeout log).0 == 0)) [
  | inl out ↦ rw out (
      inr (
        λ (k, lt, u).
            let run = wait-Until hw lacks_data timeout k log lt u in
            omega (arith, eq_of_beq _ 0 out, ap (λ (r : ℕ × Log). r.0) run),
        refl,
        refl,
      ))
  | inr left ↦
      let (k, lt, u) = wait_left hw lacks_data timeout log (omega (arith, ne_of_beq _ 0 left)) in
      let run = wait-Until hw lacks_data timeout k log lt u in
      rw left (
        inl (
          k,
          lt,
          u,
          refl,
          λ i h. rw run (insw_at hw 256 0 buf (asks (suc k) log) i i h (omega arith)),
        ))
]

-- The words of a drive that answers: those read once it is idle and has data.
abbrev pub Fetched : Hardware → ℕ → Log → ℕ → (ℕ → ℕ) → Type 0
Fetched hw timeout log status words =
    (k : ℕ) × (j : ℕ) × (k < timeout)
    × Until hw is_busy k log
    × (j < timeout)
    × Until hw lacks_data j (asks (suc k) log)
    × (status ≡ 0)
    × ((i : ℕ) → i < 256 → words i ≡ word_at hw i (asks (suc j) (asks (suc k) log)))

Until-unique :
    (hw : Hardware) (test : ℕ → Bool) (j k : ℕ) (log : Log)
    → Until hw test j log
    → Until hw test k log
    → j ≡ k
Until-unique hw test zero zero log u v = refl
Until-unique hw test zero (suc k) log u v = cc
Until-unique hw test (suc j) zero log u v = cc
Until-unique hw test (suc j) (suc k) log u v =
    omega (arith, Until-unique hw test j k (asks 1 log) u.1 v.1)

poll_lem :
    (hw : Hardware) (timeout : ℕ) (buf : ℕ → ℕ) (log : Log)
    → let (status, words, done) = poll hw timeout buf log in
      Fetched hw timeout log status words
      ⊎ ((¬ Answers hw timeout log) × (status ≡ 2 ^ 32 - 1) × (words ≡ buf))
unfolding poll
poll_lem hw timeout buf log = elim (Bool-cases ((wait hw is_busy timeout log).0 == 0)) [
  | inl out ↦ rw out (
      inr (
        λ (k, lt, u, d).
            let run = wait-Until hw is_busy timeout k log lt u in
            omega (arith, eq_of_beq _ 0 out, ap (λ (r : ℕ × Log). r.0) run),
        refl,
        refl,
      ))
  | inr left ↦
      let (k, lt, u) = wait_left hw is_busy timeout log (omega (arith, ne_of_beq _ 0 left)) in
      let run = ap (λ (r : ℕ × Log). r.1) (wait-Until hw is_busy timeout k log lt u) in
      rw (left, run)
        (elim (fetch_lem hw timeout buf (asks (suc k) log)) [
          | inl (j, lt', u', zero_status, read) ↦ inl (k, j, lt, u, lt', u', zero_status, read)
          | inr (no_data, failed, kept) ↦ inr (
            λ (k', lt', u', d). no_data (
                subst (λ n. HasData hw timeout (asks (suc n) log))
                  (Until-unique hw is_busy k' k log u' u) d),
            failed,
            kept,
          )
        ])
]

-- `ata_identify` always ends. If the first status is not 0, and the drive stops being busy and then
-- has data, each within 100000 reads of the status port, it returns 0 and `buf` holds the 256 words
-- that the drive then gives, in their order. Otherwise it returns -1 and leaves `buf` alone.
pub ata_identify_lem :
    (hw : Hardware) (buf : ℕ → ℕ) (log : Log)
    → let first = send_identify log in
      let (status, words, done) = ata_identify hw buf log in
      ((answer hw 0 first ≢ 0) × Fetched hw 100000 (asks 1 first) status words)
      ⊎ (((answer hw 0 first ≡ 0) ⊎ (¬ Answers hw 100000 (asks 1 first)))
          × (status ≡ 2 ^ 32 - 1)
          × (words ≡ buf))
unfolding ata_identify
ata_identify_lem hw buf log = elim (Bool-cases (answer hw 0 (send_identify log) == 0)) [
  | inl none_there ↦ rw none_there (inr (inl (eq_of_beq _ 0 none_there), refl, refl))
  | inr there ↦ rw there (elim (poll_lem hw 100000 buf (asks 1 (send_identify log))) [
    | inl fetched ↦ inl (ne_of_beq _ 0 there, fetched)
    | inr (silent, failed, kept) ↦ inr (inr silent, failed, kept)
  ])
]
