-- ===== src/Ata/Wait.antt =====
-- The waits of the disk driver, by the answers that the status port would give one after another.
use jordan_os.Base.{
  ℕ, zero, suc, ◌+◌, ◌-◌, ◌<◌, ◌≤◌, ◌≡◌, refl, ap, inl, inr, arith, Bool, true, false, Bool-cases,
  u8, u16, ◌∙◌, some, ◌∷◌, ◌==◌,
}
use jordan_os.Io.{Access, Hardware, Log}
use jordan_os.Mem.{write, write_self, write_ne}
use jordan_os.Ata.{wait, spin, insw}

-- The log with `k` more reads of the status port, and the answer to the read that comes then.
abbrev pub asks : ℕ → Log → Log
asks zero log = log
asks (suc k) log = asks k (Access.asked 0x3F6 ∷ log)

abbrev pub answer : Hardware → ℕ → Log → ℕ
answer hw k log = u8 (hw.byte (asks k log) 0x3F6)

-- The first answer that fails the test is the one after `k` reads.
abbrev pub Until : Hardware → (ℕ → Bool) → ℕ → Log → Type 0
Until hw test zero log = test (answer hw 0 log) ≡ false
Until hw test (suc k) log =
    (test (answer hw 0 log) ≡ true) × Until hw test k (Access.asked 0x3F6 ∷ log)

-- With an answer that fails the test in time, `wait` stops there with some of its timeout left.
pub wait-Until :
    (hw : Hardware) (test : ℕ → Bool) (timeout k : ℕ) (log : Log)
    → k < timeout
    → Until hw test k log
    → wait hw test timeout log ≡ (timeout - k, asks (suc k) log)
unfolding wait
wait-Until hw test zero k log h u = absurd (omega arith)
wait-Until hw test (suc timeout) zero log h u =
    rw u (ap (λ (left : ℕ). (left, Access.asked 0x3F6 ∷ log)) (omega arith))
wait-Until hw test (suc timeout) (suc k) log h (t, u) =
    ground (arith, t, wait-Until hw test timeout k (Access.asked 0x3F6 ∷ log) (omega arith) u)

-- A wait that has some of its timeout left has seen such an answer.
pub wait_left :
    (hw : Hardware) (test : ℕ → Bool) (timeout : ℕ) (log : Log)
    → 0 < (wait hw test timeout log).0
    → (k : ℕ) × (k < timeout) × Until hw test k log
unfolding wait
wait_left hw test zero log h = absurd (omega arith)
wait_left hw test (suc timeout) log h = elim (Bool-cases (test (answer hw 0 log))) [
  | inr fails ↦ (0, omega arith, fails)
  | inl holds ↦ elim (Bool-cases (timeout == 0)) [
    | inl out ↦ absurd (omega (arith, rw (holds, out) at h))
    | inr more ↦
        let (k, lt, u) =
          wait_left hw test timeout (Access.asked 0x3F6 ∷ log) (rw (holds, more) at h) in
        (suc k, omega arith, (holds, u))
  ]
]

-- The wait without a timeout ends on fuel for the reads that it takes.
pub spin-Until :
    (hw : Hardware) (test : ℕ → Bool) (fuel k : ℕ) (log : Log)
    → k < fuel
    → Until hw test k log
    → spin hw test fuel log ≡ some (asks (suc k) log)
unfolding spin
spin-Until hw test zero k log h u = absurd (omega arith)
spin-Until hw test (suc fuel) zero log h u = rw u refl
spin-Until hw test (suc fuel) (suc k) log h (t, u) =
    rw t (spin-Until hw test fuel k (Access.asked 0x3F6 ∷ log) (omega arith) u)

-- The log with `k` more words read, and the word that is read then.
abbrev pub word_asks : ℕ → Log → Log
word_asks zero log = log
word_asks (suc k) log = word_asks k (Access.asked 0x1F0 ∷ log)

abbrev pub word_at : Hardware → ℕ → Log → ℕ
word_at hw k log = u16 (hw.word (word_asks k log) 0x1F0)

-- `insw` stores the words in the order in which they are read, and nothing else.
pub insw_before :
    (hw : Hardware) (n i : ℕ) (buf : ℕ → ℕ) (log : Log) (j : ℕ)
    → j < i
    → (insw hw n i buf log).0 j ≡ buf j
unfolding insw
insw_before hw zero i buf log j h = refl
insw_before hw (suc n) i buf log j h =
    insw_before hw n (i + 1) (write buf i (word_at hw 0 log)) (Access.asked 0x1F0 ∷ log) j
      (omega arith)
    ∙ write_ne buf i (word_at hw 0 log) j (omega arith)

pub insw_at :
    (hw : Hardware) (n i : ℕ) (buf : ℕ → ℕ) (log : Log) (k j : ℕ)
    → k < n
    → j ≡ i + k
    → (insw hw n i buf log).0 j ≡ word_at hw k log
unfolding insw
insw_at hw zero i buf log k j h e = absurd (omega arith)
insw_at hw (suc n) i buf log zero j h e =
    let here : j ≡ i = omega arith in
    insw_before hw n (i + 1) (write buf i (word_at hw 0 log)) (Access.asked 0x1F0 ∷ log) j
      (omega arith)
    ∙ ap (write buf i (word_at hw 0 log)) here
    ∙ write_self buf i (word_at hw 0 log)
insw_at hw (suc n) i buf log (suc k) j h e =
    insw_at hw n (i + 1) (write buf i (word_at hw 0 log)) (Access.asked 0x1F0 ∷ log) k j
      (omega arith) (omega arith)

pub insw_log :
    (hw : Hardware) (n i : ℕ) (buf : ℕ → ℕ) (log : Log) → (insw hw n i buf log).1 ≡ word_asks n log
unfolding insw
insw_log hw zero i buf log = refl
insw_log hw (suc n) i buf log =
    insw_log hw n (i + 1) (write buf i (word_at hw 0 log)) (Access.asked 0x1F0 ∷ log)

pub insw_after :
    (hw : Hardware) (n i : ℕ) (buf : ℕ → ℕ) (log : Log) (j : ℕ)
    → i + n ≤ j
    → (insw hw n i buf log).0 j ≡ buf j
unfolding insw
insw_after hw zero i buf log j h = refl
insw_after hw (suc n) i buf log j h =
    insw_after hw n (i + 1) (write buf i (word_at hw 0 log)) (Access.asked 0x1F0 ∷ log) j
      (omega arith)
    ∙ write_ne buf i (word_at hw 0 log) j (omega arith)
