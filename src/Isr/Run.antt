-- ===== src/Isr/Run.antt =====
-- The kernel behind its start: interrupts one after another, in any order.
use jordan_os.Base.{
  ℕ, ◌≡◌, refl, sym, ◌∙◌, arith, inl, inr, false, Bool-cases, ◌==◌, u8, Option, some, eq_of_beq,
}
use mathlib.Core.Path.{subst}
use mathlib.Core.Option.{some_inj}
use jordan_os.Io.{Hardware, inb}
use jordan_os.Str.{Bytes, bytes}
use jordan_os.Digits.{addr_to_str}
use jordan_os.Digits.Decimal.{int_to_str_lem}
use jordan_os.Fb.{Fb, fb_white, fb_black}
use jordan_os.Fb.Draw.{fb_update_cursor}
use jordan_os.Fb.Print.{fb_set_row}
use jordan_os.Fb.Tape.{Fits}
use jordan_os.Fb.Total.{write_fb-Still, fb_set_row-Ends}
use jordan_os.Fb.Still.{Still-Fits, fb_update_cursor-Still}
use jordan_os.Shell.Total.{Prints}
use jordan_os.Shell.Terminal.{Printable}
use jordan_os.Pic.{pic_eoi}
use jordan_os.Keyboard.{Console, set_fb, keyboard_handler}
use jordan_os.Keyboard.Live.{Live, Lives, overflows}
use jordan_os.Keyboard.Faults.{handle_code_lem}
use jordan_os.Isr.{write_here, page_fault, exception, timer_tick, on_screen, isr_handler}

write_here-Fits : (col : ℕ) (text : Bytes) (f : Fb) → Fits f → Fits (write_here col text f)
write_here-Fits col text f fits =
    Still-Fits f (write_here col text f) (write_fb-Still f.cur_row col text fb_white fb_black f)
      fits

row_ends : (row : ℕ) (f : Fb) → Fits f → Prints (fb_set_row row f)
row_ends row f fits = let (g, run, fits', _, _) = fb_set_row-Ends row f fits in (g, run, fits')

page_fault_ends : (fault_addr : ℕ) (f : Fb) → Fits f → Prints (page_fault fault_addr f)
unfolding page_fault
page_fault_ends fault_addr f fits =
    let g = write_here 0 (bytes "Page fault at: ") f in
    row_ends _ (write_here 15 (addr_to_str fault_addr) g) (
      write_here-Fits 15 (addr_to_str fault_addr) g
        (write_here-Fits 0 (bytes "Page fault at: ") f fits))

exception_ends :
    (int_num code : ℕ) (f : Fb)
    → Printable int_num
    → Printable code
    → Fits f
    → Prints (exception int_num code f)
unfolding exception
exception_ends int_num code f (small, ne) (small', ne') fits =
    let (number, e, _) = int_to_str_lem int_num small ne in
    let (error, e', _) = int_to_str_lem code small' ne' in
    let g1 = write_here 0 (bytes "CPU interrupt: ") f in
    let g2 = write_here 15 number g1 in
    let g3 = write_here 18 (bytes "code: ") g2 in
    let fits3 =
      write_here-Fits 18 (bytes "code: ") g2
        (write_here-Fits 15 number g1 (write_here-Fits 0 (bytes "CPU interrupt: ") f fits)) in
    rw (e, e') (row_ends _ (write_here 24 error g3) (write_here-Fits 24 error g3 fits3))

on_screen-Lives : (run : Option Fb) (c : Console) → Live c → Prints run → Lives (on_screen run c)
on_screen-Lives run c ((fits, pages, disk), len) (g, e, fits') =
    rw e (set_fb g c, refl, ((fits', pages, disk), len))

timer_tick-Live : (c : Console) → Live c → Live (timer_tick c)
unfolding timer_tick
timer_tick-Live c ((fits, pages, disk), len) =
    let f = c.machine.fb in
    ((Still-Fits f (fb_update_cursor _ f) (fb_update_cursor-Still _ f) fits, pages, disk), len)

-- The state in which the keyboard's code is handled.
abbrev pub acknowledged : Hardware → Console → Console
acknowledged hw c = record c {
  machine = record c.machine { log = pic_eoi 1 (inb hw 0x60 c.machine.log).1 };
}

-- An interrupt with numbers that can be printed and, if it is the keyboard's, with a code that does
-- not leave the driver's arrays.
abbrev pub Allowed : Hardware → ℕ → ℕ → Console → Type 0
Allowed hw int_num code c =
    Printable int_num
    × Printable code
    × (int_num ≡ 33 → overflows (u8 (hw.byte c.machine.log 0x60)) c ≡ false)

keyboard_Lives :
    (hw : Hardware) (c : Console)
    → Live c
    → overflows (u8 (hw.byte c.machine.log 0x60)) c ≡ false
    → Lives (keyboard_handler hw c)
unfolding keyboard_handler
keyboard_Lives hw c live fine =
    elim (handle_code_lem (u8 (hw.byte c.machine.log 0x60)) (acknowledged hw c) live
      (omega arith)) [ inl (over, _) ↦ cc | inr (_, lives) ↦ lives ]

-- Every allowed interrupt in a live state is handled to its end, in a live state.
isr_handler-Lives :
    (hw : Hardware) (int_num code fault_addr : ℕ) (c : Console)
    → Live c
    → Allowed hw int_num code c
    → Lives (isr_handler hw int_num code fault_addr c)
unfolding isr_handler
isr_handler-Lives hw int_num code fault_addr c live (number, error, key) =
    elim (Bool-cases (int_num == 33)) [
      | inl e ↦ rw e (keyboard_Lives hw c live (key (eq_of_beq int_num 33 e)))
      | inr ne ↦ elim (Bool-cases (int_num == 14)) [
        | inl e ↦
            rw (ne, e) (on_screen-Lives _ c live (page_fault_ends fault_addr c.machine.fb live.0.0))
        | inr ne' ↦ elim (Bool-cases (int_num == 32)) [
          | inl e ↦ rw (ne, ne', e) (timer_tick c, refl, timer_tick-Live c live)
          | inr ne'' ↦
              rw (ne, ne', ne'')
                (on_screen-Lives _ c live
                  (exception_ends int_num code c.machine.fb number error live.0.0))
        ]
      ]
    ]

-- The states that allowed interrupts lead to.
pub data Reach (hw : Hardware) (s : Console) : Console → Type 0 where
  here : Reach hw s s
  next :
      {t u : Console}
      → Reach hw s t
      → (int_num code fault_addr : ℕ) → Allowed hw int_num code t
      → isr_handler hw int_num code fault_addr t ≡ some u
      → Reach hw s u

Reach-Live : {hw : Hardware} {s t : Console} → Live s → Reach hw s t → Live t
Reach-Live live here = live
Reach-Live {hw} live (next {t} {u} r n code addr allowed run) =
    let (d, e, live') = isr_handler-Lives hw n code addr t (Reach-Live live r) allowed in
    let same : ◌≡◌ {A = Option Console} (some u) (some d) = sym run ∙ e in
    subst Live (sym (some_inj.0 same)) live'

-- After any sequence of allowed interrupts from a live state, in any order, the state is live, and
-- the next allowed interrupt is handled without a fault, to a live state.
pub Reach-serves :
    (hw : Hardware) (s t : Console) (int_num code fault_addr : ℕ)
    → Live s
    → Reach hw s t
    → Allowed hw int_num code t
    → Live t × Lives (isr_handler hw int_num code fault_addr t)
Reach-serves hw s t int_num code fault_addr live r allowed =
    let live' = Reach-Live live r in
    (live', isr_handler-Lives hw int_num code fault_addr t live' allowed)
