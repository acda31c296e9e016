-- ===== src/Pic/Examples.antt =====
-- Runs of the interrupt controllers' setup, and the theorems at a concrete machine.
use jordan_os.Base.{ℕ, ◌≡◌, ◌<◌, refl, [], arith, if◌then◌else◌, ◌==◌}
use jordan_os.Base.Bits.{bit_at}
use jordan_os.Io.{Hardware, Log}
use jordan_os.Pic.{pic_init, pic_unmask}
use jordan_os.Pic.Chips.{
  Chip, Chips, chips, SetUp, Answers, line_of, other_of, pic_init-SetUp, pic_unmask_lem,
}

abbrev fresh : Chip
fresh = record {
  awaits = 2;
  alone = 1;
  with_mode = 0;
  vector = 8;
  cascade = 0;
  mode = 0;
  mask = 184;
  acks = 0;
}

abbrev start : Chips
start = record { main = fresh; second = fresh }

abbrev machine : Hardware
machine = record {
  byte = λ log port.
      if port == 0x21 then (chips start log).main.mask else (chips start log).second.mask;
  word = λ log port. 0;
}

abbrev ready : Log
ready = pic_init []

pic_init-SetUp_example :
    SetUp 0x20 0x04 (chips start (pic_init [])).main
    × SetUp 0x28 0x02 (chips start (pic_init [])).second
pic_init-SetUp_example = pic_init-SetUp start []

machine-Answers : Answers machine start
machine-Answers log = (refl, refl)

ready-main : ((chips start ready).main.awaits ≡ 0) × ((chips start ready).main.mask ≡ 255)
unfolding pic_init chips bit_at
ready-main = (refl, refl)

ready-second : ((chips start ready).second.awaits ≡ 0) × ((chips start ready).second.mask ≡ 255)
unfolding pic_init chips bit_at
ready-second = (refl, refl)

pic_unmask_lem_example :
    ((j : ℕ)
      → j < 8
      → bit_at j (line_of 9 (chips start (pic_unmask machine 9 ready))).mask
        ≡ (if j == 1 then 0 else bit_at j (line_of 9 (chips start ready)).mask))
    × (other_of 9 (chips start (pic_unmask machine 9 ready)) ≡ other_of 9 (chips start ready))
pic_unmask_lem_example =
    pic_unmask_lem machine start ready 9 machine-Answers (omega arith) (ready-main.0)
      (ready-second.0) (omega (arith, ready-main.1)) (omega (arith, ready-second.1))
