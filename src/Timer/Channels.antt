-- ===== src/Timer/Channels.antt =====
-- What the accesses of kernel/pit.c and kernel/beep.c do to the timer, by the 8253's description: a
-- control byte names a channel, the bytes that its counts come in, its mode, and whether it counts in
-- decimal. A count is then a low byte alone, a high byte alone, or a low and a high one; a control
-- byte that names no bytes latches the count and changes nothing. The two low bits of port 0x61 switch the speaker on.
use jordan_os.Base.{
  ℕ, zero, suc, ◌+◌, ◌*◌, ◌-◌, ◌/◌, ◌%◌, ◌^◌, ◌≤◌, ◌<◌, ◌≡◌, refl, [], ◌∷◌, some, true, bit_and,
  arith, u8, u16, ◌==◌, if◌then◌else◌, eq_of_beq, beq_of_ne, holds_from, holds_from-at,
}
use native.Mathlib.Nat.{div-le_of_le-mul}
use jordan_os.Base.Bits.{bit_and-byte}
use jordan_os.Io.{Access, Hardware, Log}
use jordan_os.Pic.{pic_unmask}
use jordan_os.Timer.{pit_init, sound, beep, beep_n}

-- The bytes of a count, 1 for the low, 2 for the high and 3 for both, how many bytes of a count are
-- still to come, its low byte, the count that the channel starts from, its mode, and whether it is
-- decimal.
pub record Channel : Type 0 where
  pub bytes : ℕ
  pub awaits : ℕ
  pub low : ℕ
  pub count : ℕ
  pub mode : ℕ
  pub decimal : ℕ

abbrev counted : ℕ → Channel → Channel
counted v c =
    if c.bytes == 1
    then record c { awaits = 0; count = v }
    else if c.bytes == 2
    then record c { awaits = 0; count = 2 ^ 8 * v }
    else if c.awaits == 1
    then record c { awaits = 0; count = c.low + 2 ^ 8 * v }
    else record c { awaits = 1; low = v }

abbrev access : ℕ → Access → Channel → Channel
access k (Access.asked port) c = c
access k (Access.wrote port v) c =
    if port == 0x43
    then (if v / 64 == k
        then (if v / 16 % 4 == 0 then c else record c {
          bytes = v / 16 % 4;
          awaits = if v / 16 % 4 == 3 then 2 else 1;
          mode = v / 2 % 8;
          decimal = v % 2;
        })
        else c)
    else if port == 0x40 + k
    then counted v c
    else c

-- Channel `k` after a log, from the state that it was switched on in.
unfoldable pub channel : ℕ → Channel → Log → Channel
channel k start [] = start
channel k start (e ∷ log) = access k e (channel k start log)

-- The last byte sent to port 0x61.
unfoldable pub gate : ℕ → Log → ℕ
gate start [] = start
gate start (Access.asked port ∷ log) = gate start log
gate start (Access.wrote port v ∷ log) = if port == 0x61 then v else gate start log

-- Whatever was sent to the timer before, after `pit_init` channel 0 has its whole count, makes a
-- square wave, mode 3, and counts down in binary from 11931, so that its 1193182 steps in a second make 100 ticks.
pub pit_init_lem :
    (hw : Hardware) (start : Channel) (log : Log)
    → let c = channel 0 start (pit_init hw log) in
      (c.awaits ≡ 0)
      × (c.mode ≡ 3)
      × (c.decimal ≡ 0)
      × (c.count ≡ 11931)
      × (1193182 / c.count ≡ 100)
unfolding pit_init pic_unmask channel
pit_init_lem hw start log = (refl, refl, refl, refl, refl)

-- Port 0x61 answers what was sent to it last.
abbrev pub Keeps : Hardware → ℕ → Type 0
Keeps hw start = (log : Log) → hw.byte log 0x61 ≡ gate start log

off_table : holds_from 0 256 (λ v. u8 (bit_and v (2 ^ 32 - 4)) == v / 4 * 4) ≡ true
unfolding holds_from
off_table = refl

gate_off : (v : ℕ) → v < 256 → u8 (bit_and (u8 v) (2 ^ 32 - 4)) ≡ v / 4 * 4
gate_off v h =
    let small : u8 v ≡ v = omega arith in
    rw small (
      eq_of_beq _ _ (
        holds_from-at 0 256 (λ v. u8 (bit_and v (2 ^ 32 - 4)) == v / 4 * 4) off_table v
          (omega arith) (omega arith)))

sound-channel :
    (hw : Hardware) (timer : Channel) (log : Log) (d : ℕ)
    → d < 2 ^ 16
    → let c = channel 2 timer (sound hw d log) in (c.awaits ≡ 0) × (c.mode ≡ 3) × (c.count ≡ d)
unfolding sound channel
sound-channel hw timer log d h = (refl, refl, rw (bit_and-byte d) (omega arith))

sound-gate :
    (hw : Hardware) (port : ℕ) (log : Log) (d : ℕ)
    → Keeps hw port
    → gate port log < 256
    → gate port (sound hw d log) ≡ gate port log / 4 * 4
unfolding sound gate
sound-gate hw port log d keeps small = rw (keeps _) (gate_off (gate port log) small)

-- From 19 Hz on `beep` comes to its end with channel 2 at the count of that pitch, and, where port
-- 0x61 answers what it was sent, with the speaker's two bits off and the port's other bits kept.
beep_lem :
    (hw : Hardware) (timer : Channel) (port : ℕ) (log : Log) (freq : ℕ)
    → Keeps hw port
    → gate port log < 256
    → 19 ≤ freq
    → (after : Log) × (beep hw freq log ≡ some after)
      × ((channel 2 timer after).awaits ≡ 0)
      × ((channel 2 timer after).mode ≡ 3)
      × ((channel 2 timer after).count ≡ 1193180 / freq)
      × (gate port after ≡ gate port log / 4 * 4)
unfolding beep
beep_lem hw timer port log freq keeps small audible =
    let fits : 1193180 / freq ≤ 62799 = div-le_of_le-mul freq (omega arith) in
    let d = u16 (1193180 / freq) in
    let (done, square, count) = sound-channel hw timer log d (omega arith) in
    (
      sound hw d log,
      rw (beq_of_ne freq 0 (omega arith)) refl,
      done,
      square,
      omega (arith, count),
      sound-gate hw port log d keeps small,
    )

-- Any number of beeps comes to its end, and with the speaker off at the start it is off at the end.
beep_n_lem :
    (hw : Hardware) (port n : ℕ) (log : Log)
    → Keeps hw port
    → gate port log < 256
    → gate port log % 4 ≡ 0
    → (after : Log) × (beep_n hw n log ≡ some after) × (gate port after ≡ gate port log)
unfolding beep_n
beep_n_lem hw port zero log keeps small off = (log, refl, refl)
beep_n_lem hw port (suc n) log keeps small off =
    let silent : Channel = record {
      bytes = 3;
      awaits = 0;
      low = 0;
      count = 0;
      mode = 0;
      decimal = 0;
    } in
    let (one, run, _, _, _, same) = beep_lem hw silent port log 1000 keeps small (omega arith) in
    let (after, more, end) = beep_n_lem hw port n one keeps (omega arith) (omega arith) in
    (after, rw run more, omega arith)
