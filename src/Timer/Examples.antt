-- ===== src/Timer/Examples.antt =====
-- The theorems on the timer and the speaker at a concrete machine, whose port 0x61 answers what it
-- was sent.
use jordan_os.Base.{◌≡◌, ◌/◌, refl, []}
use jordan_os.Io.{Hardware}
use jordan_os.Timer.{pit_init}
use jordan_os.Timer.Channels.{Channel, channel, gate, Keeps, pit_init_lem}

abbrev machine : Hardware
machine = record { byte = λ log port. gate 48 log; word = λ log port. 0 }

abbrev counting : Channel
counting = record { bytes = 3; awaits = 1; low = 7; count = 512; mode = 2; decimal = 0 }

machine-Keeps : Keeps machine 48
machine-Keeps log = refl

pit_init_lem_example :
    let c = channel 0 counting (pit_init machine []) in
    (c.awaits ≡ 0) × (c.mode ≡ 3) × (c.decimal ≡ 0) × (c.count ≡ 11931) × (1193182 / c.count ≡ 100)
pit_init_lem_example = pit_init_lem machine counting []

at_start : gate 48 [] ≡ 48
unfolding gate
at_start = refl
