-- ===== src/Isr.antt =====
-- The interrupts that reach C code: `isr_handler` of kernel/idt.c. The `int`s are their 32-bit
-- patterns. `fault_addr` is what the register cr2 holds.
pub mod Run
pub mod Inputs
mod Examples
use jordan_os.Base.{ℕ, ◌+◌, u32, Option, none, some, ◌==◌, if◌then◌else◌, ◌>>=◌}
use jordan_os.Io.{Hardware}
use jordan_os.Str.{Bytes, bytes}
use jordan_os.Digits.{int_to_str, addr_to_str}
use jordan_os.Pic.{pic_eoi}
use jordan_os.Timer.{inc_ticks}
use jordan_os.Fb.{Fb, fb_get_row, fb_white, fb_black}
use jordan_os.Fb.Draw.{fb_update_cursor}
use jordan_os.Fb.Print.{write_fb, fb_set_row}
use jordan_os.Keyboard.{Console, set_fb, keyboard_handler}

-- `write_fb(fb_get_row(), col, text, FB_WHITE, FB_BLACK)`
abbrev pub write_here : ℕ → Bytes → Fb → Fb
write_here col text f = write_fb (fb_get_row f) col text fb_white fb_black f

unfoldable pub page_fault : ℕ → Fb → Option Fb
page_fault fault_addr f =
    let g = write_here 15 (addr_to_str fault_addr) (write_here 0 (bytes "Page fault at: ") f) in
    fb_set_row (u32 (fb_get_row g + 1)) g

unfoldable pub exception : ℕ → ℕ → Fb → Option Fb
exception int_num code f = do
  number ← int_to_str int_num
  let g = write_here 15 number (write_here 0 (bytes "CPU interrupt: ") f)
  error ← int_to_str code
  let h = write_here 24 error (write_here 18 (bytes "code: ") g)
  fb_set_row (u32 (fb_get_row h + 1)) h

unfoldable pub timer_tick : Console → Console
timer_tick c =
    let ticks = inc_ticks c.ticks in
    record c {
      ticks = ticks;
      machine = record c.machine {
        fb = fb_update_cursor ticks c.machine.fb;
        log = pic_eoi 0 c.machine.log;
      };
    }

-- The terminal's part of an exception.
abbrev pub on_screen : Option Fb → Console → Option Console
on_screen run c = do f ← run; some (set_fb f c)

unfoldable pub isr_handler : Hardware → ℕ → ℕ → ℕ → Console → Option Console
isr_handler hw int_num code fault_addr c =
    if int_num == 33
    then keyboard_handler hw c
    else if int_num == 14
    then on_screen (page_fault fault_addr c.machine.fb) c
    else if int_num == 32
    then some (timer_tick c)
    else on_screen (exception int_num code c.machine.fb) c
