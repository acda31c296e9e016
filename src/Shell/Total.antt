-- ===== src/Shell/Total.antt =====
-- The runs of whole lines in the shell (kernel/shell.c) on a screen that fits.
use jordan_os.Base.{◌≡◌, ◌⊎◌, Option, some, List, All, [], ◌∷◌}
use jordan_os.Io.{outb}
use jordan_os.Str.{Bytes}
use jordan_os.Fb.{Fb}
use jordan_os.Fb.Tape.{Fits}
use jordan_os.Fb.Total.{fb_print-Ends, fb_println-Ends, fb_clear_screen-Fits, fb_update_theme-Fits}
use jordan_os.Shell.{Machine, split_args, copy_line, shell_exec}
use jordan_os.Shell.Runs.{shell_exec_args-Ran}
use jordan_os.Shell.Terminal.{Terminal, PmmFits, DriveFits}

-- A run that ends on a screen that fits.
abbrev pub Prints : Option Fb → Type 0
Prints run = (g : Fb) × (run ≡ some g) × Fits g

-- A state in which no command can fault.
abbrev pub Sound : Machine → Type 0
Sound m = Fits m.fb × PmmFits m.pmm × DriveFits m.drive

-- A run that ends in a sound state, with the page allocator, the drive and the ports alone, or with
-- the two accesses of `reboot`.
abbrev pub Obeys : Machine → Option Machine → Type 0
Obeys m run =
    (n : Machine) × (run ≡ some n)
    × Sound n
    × (n.pmm ≡ m.pmm)
    × (n.drive ≡ m.drive)
    × ((n.log ≡ m.log) ⊎ (n.log ≡ outb 0xCF9 0x06 (outb 0x64 0xFE m.log)))

-- Any text on a screen that fits.
abbrev AnyText : Bytes → Type 0
AnyText text = Unit

fits_terminal : Terminal AnyText Fits
fits_terminal = record {
  bytes_taken = λ text small. tt;
  print_ends =
      λ text f taken fits. let (g, e, fits', _, _) = fb_print-Ends text f fits in (g, e, fits');
  println_ends =
      λ text f taken fits. let (g, e, fits', _, _) = fb_println-Ends text f fits in (g, e, fits');
  clear_ends = fb_clear_screen-Fits;
  theme_ends = λ fg bg f hf hb fits. fb_update_theme-Fits fg bg f fits;
}

any_texts : (texts : List Bytes) → All AnyText texts
any_texts [] = tt
any_texts (text ∷ texts) = (tt, any_texts texts)

-- From a sound state `shell_exec` of any line ends without a fault in a sound state. It leaves the
-- page allocator and the drive alone, and sends nothing to a port but the two bytes of a reboot.
pub shell_exec-Obeys : (line : Bytes) (m : Machine) → Sound m → Obeys m (shell_exec line m)
unfolding shell_exec
shell_exec-Obeys line m (fits, pages, disk) =
    let argv = split_args 16 (copy_line 255 line) in
    let (n, run, fits', pmm, drive, log) =
      shell_exec_args-Ran AnyText Fits fits_terminal argv m (any_texts argv) fits pages disk tt in
    (n, run, (fits', rw pmm pages, rw drive disk), pmm, drive, log)
