-- ===== src/Boot/Shown.antt =====
-- The run of `kernel_main` (kernel/kernel.c) on a framebuffer of packed 32-bit pixels.
use jordan_os.Base.{ℕ, ◌^◌, ◌<◌, ◌≡◌}
use jordan_os.Ata.Bounds.{Below}
use jordan_os.Fb.{Fb, fb_black, fb_white}
use jordan_os.Fb.Tidy.{Tidy}
use jordan_os.Keyboard.{Console}
use jordan_os.Pic.Chips.{Chips}
use jordan_os.Boot.Wired.{Wired}
use jordan_os.Idt.{Idt}
use jordan_os.Idt.Gates.{IsGate}
use jordan_os.Boot.{Image}
use jordan_os.Boot.Ready.{Fresh}

-- What the globals hold at the start: the theme is white on black, there is no text on the screen,
-- the line and the drive's name are bytes, and the cursor, the line and the drive are as `Fresh` says.
abbrev pub Blank : Console → Type 0
Blank c =
    Fresh c
    × (c.machine.fb.theme_fg ≡ fb_white)
    × (c.machine.fb.theme_bg ≡ fb_black)
    × ((row col : ℕ) → c.machine.fb.screen_buf row col ≡ 0)
    × Below 256 c.line
    × Below 256 c.machine.drive.model

-- The stubs are at 64-bit addresses.
abbrev pub Stubs : Image → Type 0
Stubs image = ((v : ℕ) → image.handlers v < 2 ^ 64) × (image.irq0 < 2 ^ 64) × (image.irq1 < 2 ^ 64)

-- The interrupts that the kernel handles have their gates.
abbrev pub Gated : Image → Idt → Type 0
Gated image idt =
    ((v : ℕ) → v < 32 → IsGate (image.handlers v) (idt v))
    × IsGate image.irq0 (idt 32)
    × IsGate image.irq1 (idt 33)
