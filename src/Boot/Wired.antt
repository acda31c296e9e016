-- ===== src/Boot/Wired.antt =====
-- The interrupt controllers and the timer behind the initialisations of `kernel_main`
-- (kernel/kernel.c), with the accesses of the disk driver between them.
use jordan_os.Base.{
  ℕ, zero, suc, ◌+◌, ◌%◌, ◌^◌, ◌<◌, ◌≡◌, refl, sym, ap, ◌∙◌, arith, inl, inr, Bool, Bool-cases, ltb,
  lt→ltb, le→ltb, ◌==◌, if◌then◌else◌, ◌∷◌,
}
use mathlib.Core.Path.{subst}
use jordan_os.Base.Bits.{bit_at}
use jordan_os.Io.{Access, Hardware, Log}
use jordan_os.Pic.{pic_init, pic_unmask}
use jordan_os.Pic.Chips.{Chip, Chips, chips, SetUp, Answers, pic_init-SetUp, pic_unmask_lem}
use jordan_os.Timer.{pit_init}
use jordan_os.Timer.Channels.{Channel, channel, pit_init_lem}
use jordan_os.Ata.{is_busy, lacks_data, wait, fetch, poll, ata_identify, send_identify}
use jordan_os.Ata.Wait.{word_asks, insw_log}
use jordan_os.Keyboard.{keyboard_init}

-- A view of the log that a read of a port, and the command of `ata_identify`, leave as it is.
module _ {A : Type 0} (view : Log → A)
    (quiet : (port : ℕ) (log : Log) → view (Access.asked port ∷ log) ≡ view log)
    (sent : (log : Log) → view (send_identify log) ≡ view log) where
  wait-view :
      (hw : Hardware) (test : ℕ → Bool) (timeout : ℕ) (log : Log)
      → view (wait hw test timeout log).1 ≡ view log
  unfolding wait
  wait-view hw test zero log = refl
  wait-view hw test (suc timeout) log =
      let asked : Log = Access.asked 0x3F6 ∷ log in
      elim (Bool-cases (test (hw.byte log 0x3F6 % 2 ^ 8))) [
        | inr stops ↦ rw stops (quiet 0x3F6 log)
        | inl more ↦ elim (Bool-cases (timeout == 0)) [
          | inl out ↦ rw (more, out) (quiet 0x3F6 log)
          | inr left ↦ rw (more, left) (wait-view hw test timeout asked ∙ quiet 0x3F6 log)
        ]
      ]

  word_asks-view : (k : ℕ) (log : Log) → view (word_asks k log) ≡ view log
  word_asks-view zero log = refl
  word_asks-view (suc k) log = word_asks-view k (Access.asked 0x1F0 ∷ log) ∙ quiet 0x1F0 log

  fetch-view :
      (hw : Hardware) (timeout : ℕ) (buf : ℕ → ℕ) (log : Log)
      → view (fetch hw timeout buf log).2 ≡ view log
  unfolding fetch
  fetch-view hw timeout buf log = elim (Bool-cases ((wait hw lacks_data timeout log).0 == 0)) [
    | inl out ↦ rw out (wait-view hw lacks_data timeout log)
    | inr left ↦
        rw (left, insw_log hw 256 0 buf (wait hw lacks_data timeout log).1)
          (word_asks-view 256 (wait hw lacks_data timeout log).1
            ∙ wait-view hw lacks_data timeout log)
  ]

  poll-view :
      (hw : Hardware) (timeout : ℕ) (buf : ℕ → ℕ) (log : Log)
      → view (poll hw timeout buf log).2 ≡ view log
  unfolding poll
  poll-view hw timeout buf log = elim (Bool-cases ((wait hw is_busy timeout log).0 == 0)) [
    | inl out ↦ rw out (wait-view hw is_busy timeout log)
    | inr left ↦ rw left (fetch-view hw _ buf _ ∙ wait-view hw is_busy timeout log)
  ]

  ata_identify-view :
      (hw : Hardware) (buf : ℕ → ℕ) (log : Log) → view (ata_identify hw buf log).2 ≡ view log
  unfolding ata_identify
  ata_identify-view hw buf log =
      let first = send_identify log in
      elim (Bool-cases (hw.byte first 0x3F6 % 2 ^ 8 == 0)) [
        | inl nothing ↦ rw nothing (quiet 0x3F6 first ∙ sent log)
        | inr drive ↦ rw drive (poll-view hw _ buf _ ∙ quiet 0x3F6 first ∙ sent log)
      ]

-- The first chip is set up for the vectors from 32, and the lines below `n` are the ones that it
-- lets through.
abbrev pub Open : ℕ → Chip → Type 0
Open n c =
    (c.awaits ≡ 0)
    × (c.vector ≡ 0x20)
    × (c.cascade ≡ 0x04)
    × (c.mode ≡ 1)
    × (c.mask < 256)
    × ((j : ℕ) → j < 8 → bit_at j c.mask ≡ (if ltb j n then 0 else 1))

-- The next line of the first chip is let through too.
pic_unmask-Open :
    (hw : Hardware) (start : Chips) (log : Log) (n : ℕ)
    → Answers hw start
    → n < 8
    → Open n (chips start log).main
    → SetUp 0x28 0x02 (chips start log).second
    → Open (n + 1) (chips start (pic_unmask hw n log)).main
      × SetUp 0x28 0x02 (chips start (pic_unmask hw n log)).second
unfolding pic_unmask chips
pic_unmask-Open hw start log n answers small (ready, vector, cascade, mode, below, bits) second =
    let main = lt→ltb n 8 small in
    let (ready', _, _, _, mask') = second in
    let (changed, other) =
      pic_unmask_lem hw start log n answers (omega arith) ready ready' below
        (omega (arith, mask')) in
    let whole : n % 8 ≡ n = omega arith in
    (
      rw (main, (answers log).0, ready)
          (
            refl,
            vector,
            cascade,
            mode,
            omega arith,
            λ j h.
                ground (arith, rw (main, (answers log).0, ready, whole) at (changed j h), bits j h),
          ),
      rw main second,
    )

-- Lines 0 and 1 of the first chip are let through and no other line of it, both chips are set up,
-- and channel 0 of the timer makes 100 ticks in a second.
abbrev pub Wired : Chips → Channel → Log → Type 0
Wired start timer log =
    Open 2 (chips start log).main
    × SetUp 0x28 0x02 (chips start log).second
    × ((channel 0 timer log).awaits ≡ 0)
    × ((channel 0 timer log).mode ≡ 3)
    × ((channel 0 timer log).decimal ≡ 0)
    × ((channel 0 timer log).count ≡ 11931)

pic_init-Open : (start : Chips) (log : Log) → Open 0 (chips start (pic_init log)).main
unfolding bit_at
pic_init-Open start log =
    let ((ready, vector, cascade, mode, mask), _) = pic_init-SetUp start log in
    (
      ready,
      vector,
      cascade,
      mode,
      omega (arith, mask),
      λ j h. rw (mask, le→ltb j 0 (omega arith)) (all_ones j h),
    )
  where
    all_ones : (j : ℕ) → j < 8 → bit_at j 255 ≡ 1
    all_ones zero h = refl
    all_ones (suc zero) h = refl
    all_ones (suc (suc zero)) h = refl
    all_ones (suc (suc (suc zero))) h = refl
    all_ones (suc (suc (suc (suc zero)))) h = refl
    all_ones (suc (suc (suc (suc (suc zero))))) h = refl
    all_ones (suc (suc (suc (suc (suc (suc zero)))))) h = refl
    all_ones (suc (suc (suc (suc (suc (suc (suc zero))))))) h = refl
    all_ones (suc (suc (suc (suc (suc (suc (suc (suc j)))))))) h = absurd (omega arith)

pit_init-Open :
    (hw : Hardware) (start : Chips) (log : Log)
    → Answers hw start
    → Open 0 (chips start log).main
    → SetUp 0x28 0x02 (chips start log).second
    → Open 1 (chips start (pit_init hw log)).main
      × SetUp 0x28 0x02 (chips start (pit_init hw log)).second
unfolding pit_init chips
pit_init-Open hw start log answers main second =
    pic_unmask-Open hw start
      (Access.wrote 0x40 46 ∷ Access.wrote 0x40 155 ∷ Access.wrote 0x43 0x36 ∷ log) 0 answers
      (omega arith) main second

-- The calls of `kernel_main` that touch these chips.
pub started-Wired :
    (hw : Hardware) (start : Chips) (timer : Channel) (buf : ℕ → ℕ) (log : Log)
    → Answers hw start
    → Wired start timer (keyboard_init hw (ata_identify hw buf (pit_init hw (pic_init log))).2)
unfolding keyboard_init chips channel pic_unmask
started-Wired hw start timer buf log answers =
    let before = pit_init hw (pic_init log) in
    let found = (ata_identify hw buf before).2 in
    let (main, second) =
      pit_init-Open hw start (pic_init log) answers (pic_init-Open start log)
        (pic_init-SetUp start log).1 in
    let same : chips start found ≡ chips start before =
      ata_identify-view (chips start) (λ port l. refl) (λ l. refl) hw buf before in
    let same_timer : channel 0 timer found ≡ channel 0 timer before =
      ata_identify-view (channel 0 timer) (λ port l. refl) (λ l. refl) hw buf before in
    let (main', second') =
      pic_unmask-Open hw start found 1 answers (omega arith)
        (subst (λ c. Open 1 c.main) (sym same) main)
        (subst (λ c. SetUp 0x28 0x02 c.second) (sym same) second) in
    let (done, square, binary, count, _) = pit_init_lem hw timer (pic_init log) in
    (
      main',
      second',
      ap (λ c. c.awaits) same_timer ∙ done,
      ap (λ c. c.mode) same_timer ∙ square,
      ap (λ c. c.decimal) same_timer ∙ binary,
      ap (λ c. c.count) same_timer ∙ count,
    )
