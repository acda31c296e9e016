-- ===== src/Isr/Inputs.antt =====
-- Interrupts of the keyboard and the timer, one after another, on a screen whose pixels show the text.
use jordan_os.Base.{ℕ, ◌<◌, ◌≡◌, refl, sym, ◌∙◌, arith, inl, inr, false, u8, Option, some}
use mathlib.Core.Path.{subst}
use mathlib.Core.Option.{some_inj}
use jordan_os.Io.{Hardware}
use jordan_os.Fb.Tidy.{fb_update_cursor-Tidy}
use jordan_os.Timer.{inc_ticks}
use jordan_os.Keyboard.{Console, handle_code, keyboard_handler}
use jordan_os.Keyboard.Live.{overflows}
use jordan_os.Keyboard.Faults.{handle_code_lem}
use jordan_os.Keyboard.Screen.{Neat, Neat-Live, handle_code-Keeps}
use jordan_os.Isr.{timer_tick, isr_handler}
use jordan_os.Isr.Run.{acknowledged}

-- A handler that ends in a neat state.
abbrev pub Ends : Option Console → Type 0
Ends run = (d : Console) × (run ≡ some d) × Neat d

timer_tick-Neat : (c : Console) → Neat c → Neat (timer_tick c)
unfolding timer_tick
timer_tick-Neat c neat =
    let (fg, bg, tidy) = neat.screen in
    record {
      screen = (fg, bg, fb_update_cursor-Tidy (inc_ticks c.ticks) fg bg c.machine.fb tidy);
      pages = neat.pages;
      disk = neat.disk;
      model = neat.model;
      line_bytes = neat.line_bytes;
      room = neat.room;
    }

acknowledged-Neat : (hw : Hardware) (c : Console) → Neat c → Neat (acknowledged hw c)
acknowledged-Neat hw c neat = record {
  screen = neat.screen;
  pages = neat.pages;
  disk = neat.disk;
  model = neat.model;
  line_bytes = neat.line_bytes;
  room = neat.room;
}

-- In a neat state a code that does not leave the driver's arrays is handled to its end, in a neat
-- state.
handle_code-Ends :
    (code : ℕ) (c : Console)
    → Neat c
    → code < 256
    → overflows code c ≡ false
    → Ends (handle_code code c)
handle_code-Ends code c neat small fine = elim (handle_code_lem code c (Neat-Live c neat) small) [
  | inl (over, _) ↦ cc
  | inr (_, (d, run, _)) ↦ elim (handle_code-Keeps code c neat) [ inl fault ↦ cc | inr ends ↦ ends ]
]

-- What the keyboard's port answers in a state.
abbrev pub scancode : Hardware → Console → ℕ
scancode hw c = u8 (hw.byte c.machine.log 0x60)

key-Ends :
    (hw : Hardware) (code fault_addr : ℕ) (c : Console)
    → Neat c
    → overflows (scancode hw c) c ≡ false
    → Ends (isr_handler hw 33 code fault_addr c)
unfolding isr_handler keyboard_handler
key-Ends hw code fault_addr c neat fine =
    handle_code-Ends (scancode hw c) (acknowledged hw c) (acknowledged-Neat hw c neat) (omega arith)
      fine

tick-Ends :
    (hw : Hardware) (code fault_addr : ℕ) (c : Console)
    → Neat c
    → Ends (isr_handler hw 32 code fault_addr c)
unfolding isr_handler
tick-Ends hw code fault_addr c neat = (timer_tick c, refl, timer_tick-Neat c neat)

-- The states that the keyboard's interrupts, with codes that do not leave the driver's arrays, and
-- the timer's lead to.
pub data Inputs (hw : Hardware) (s : Console) : Console → Type 0 where
  start : Inputs hw s s
  key :
      {t u : Console}
      → Inputs hw s t
      → (code fault_addr : ℕ) → overflows (scancode hw t) t ≡ false
      → isr_handler hw 33 code fault_addr t ≡ some u
      → Inputs hw s u
  tick :
      {t u : Console}
      → Inputs hw s t
      → (code fault_addr : ℕ) → isr_handler hw 32 code fault_addr t ≡ some u
      → Inputs hw s u

ended : {run : Option Console} {u : Console} → Ends run → run ≡ some u → Neat u
ended {run} {u} (d, e, neat) same =
    let both : ◌≡◌ {A = Option Console} (some u) (some d) = sym same ∙ e in
    subst Neat (sym (some_inj.0 both)) neat

Inputs-Neat : {hw : Hardware} {s t : Console} → Neat s → Inputs hw s t → Neat t
Inputs-Neat neat start = neat
Inputs-Neat {hw} neat (key {t} r code addr fine run) =
    ended (key-Ends hw code addr t (Inputs-Neat neat r) fine) run
Inputs-Neat {hw} neat (tick {t} r code addr run) =
    ended (tick-Ends hw code addr t (Inputs-Neat neat r)) run

-- Let the screen fit `screen_buf`, with packed 32-bit pixels in rows of whole 64-bit words and a
-- memory of bytes; let the text on it, the line and the drive's name be bytes, the line in its array,
-- and the numbers that the shell prints in range. Let no cell from the cursor on have a character,
-- every cell but the cursor's show its character in the theme's colors, or if it has none be in
-- the background's color or black, and the cursor's cell be in the text's or the background's color
-- or black. All of this holds again after any sequence of interrupts of the timer, and of the
-- keyboard with codes that do not leave the driver's arrays, in any order. If the next code does not
-- leave them either, the next interrupt of the keyboard, and that of the timer, is handled without a
-- fault, to such a state again.
pub Inputs-serves :
    (hw : Hardware) (s t : Console) (code fault_addr : ℕ)
    → Neat s
    → Inputs hw s t
    → overflows (scancode hw t) t ≡ false
    → Neat t
      × Ends (isr_handler hw 33 code fault_addr t)
      × Ends (isr_handler hw 32 code fault_addr t)
Inputs-serves hw s t code fault_addr neat r fine =
    let neat' = Inputs-Neat neat r in
    (neat', key-Ends hw code fault_addr t neat' fine, tick-Ends hw code fault_addr t neat')
