-- ===== src/Isr/Examples.antt =====
-- The interrupts' theorem at a press of a shift key and a tick of the timer.
use jordan_os.Base.{◌≡◌, refl, arith, some, []}
use jordan_os.Io.{Hardware, inb}
use jordan_os.Pic.{pic_eoi}
use jordan_os.Keyboard.{Console, handle_code, keyboard_handler}
use jordan_os.Keyboard.Live.{Live, Lives}
use jordan_os.Keyboard.Faults.{active}
use jordan_os.Keyboard.Examples.{console, console-Live, console-Neat}
use jordan_os.Isr.{isr_handler, timer_tick}
use jordan_os.Isr.Inputs.{Inputs, Ends, Inputs-serves}
use jordan_os.Keyboard.Screen.{Neat}
use jordan_os.Isr.Run.{Allowed, Reach, Reach-serves}

-- Port 0x60 answers with the shift key's code.
abbrev keys : Hardware
keys = record { byte = λ log port. 0x2A; word = λ log port. 0 }

key_Allowed : Allowed keys 33 0 console
key_Allowed = ((omega arith, omega arith), (omega arith, omega arith), λ same. refl)

abbrev asked : Console
asked = record console { machine = record console.machine { log = pic_eoi 1 (inb keys 0x60 []).1 } }

abbrev after_key : Console
after_key = record (active asked) { shift = 1 }

key_run : isr_handler keys 33 0 0 console ≡ some after_key
unfolding isr_handler keyboard_handler handle_code
key_run = refl

tick_Allowed : (c : Console) → Allowed keys 32 0 c
tick_Allowed c =
    ((omega arith, omega arith), (omega arith, omega arith), λ same. absurd (omega arith))

tick_run : (c : Console) → isr_handler keys 32 0 0 c ≡ some (timer_tick c)
unfolding isr_handler
tick_run c = refl

key_and_tick : Reach keys console (timer_tick after_key)
key_and_tick =
    Reach.next (Reach.next Reach.here 33 0 0 key_Allowed key_run) 32 0 0 (tick_Allowed after_key)
      (tick_run after_key)

-- A page fault behind them.
fault_Allowed : (c : Console) → Allowed keys 14 2 c
fault_Allowed c =
    ((omega arith, omega arith), (omega arith, omega arith), λ same. absurd (omega arith))

Reach-serves_example :
    Live (timer_tick after_key) × Lives (isr_handler keys 14 2 0x1234 (timer_tick after_key))
Reach-serves_example =
    Reach-serves keys console (timer_tick after_key) 14 2 0x1234 console-Live key_and_tick
      (fault_Allowed (timer_tick after_key))

key_then_tick : Inputs keys console (timer_tick after_key)
key_then_tick = Inputs.tick (Inputs.key Inputs.start 0 0 refl key_run) 0 0 (tick_run after_key)

Inputs-serves_example :
    Neat (timer_tick after_key)
    × Ends (isr_handler keys 33 0 0 (timer_tick after_key))
    × Ends (isr_handler keys 32 0 0 (timer_tick after_key))
unfolding timer_tick
Inputs-serves_example =
    Inputs-serves keys console (timer_tick after_key) 0 0 console-Neat key_then_tick refl
