-- ===== src/Boot/Examples.antt =====
-- The start of the kernel from a block with one region of 8 KiB and a screen of 32 by 32 pixels, on
-- hardware without a disk.
use jordan_os.Base.{
  ℕ, ◌%◌, ◌+◌, ◌*◌, ◌^◌, ◌<◌, ◌≡◌, refl, arith, some, [], ◌∷◌, ◌==◌, if◌then◌else◌,
}
use jordan_os.Io.{Hardware}
use jordan_os.Mem.{Mem}
use jordan_os.Multiboot.{next_tag}
use jordan_os.Multiboot.Tags.{TagsAt}
use jordan_os.Pmm.Regions.{Region}
use jordan_os.Pic.Chips.{Chip, Chips, chips}
use jordan_os.Timer.Channels.{Channel}
use jordan_os.Boot.Wired.{Wired}
use jordan_os.Fb.{Fb, fb_init, set_geometry}
use jordan_os.Fb.Tape.{Fits}
use jordan_os.Fb.Geometry.{Landscape, fb_init-Fits}
use jordan_os.Shell.Sample.{screen, machine}
use jordan_os.Boot.{Kernel, Image}
use jordan_os.Fb.Tidy.{Tidy}

-- At 264 the memory map, with its entry at 280, at 304 the framebuffer's tag, at 336 the end tag.
abbrev block : Mem
block a =
    if a == 264
    then 6
    else if a == 268
    then 40
    else if a == 272
    then 24
    else if a == 289
    then 32
    else if a == 296
    then 1
    else if a == 304
    then 8
    else if a == 308
    then 32
    else if a == 315
    then 0xFD
    else if a == 320
    then 128
    else if a == 324
    then 32
    else if a == 328
    then 32
    else if a == 332
    then 32
    else 0

abbrev available : Region
available = record { base = 0; length = 8192; kind = 1 }

block_tags : TagsAt block 264 (6 ∷ 8 ∷ [])
unfolding next_tag
block_tags = (refl, (λ e. omega arith), (refl, (λ e. omega arith), refl))

block_bytes : (a : ℕ) → block a < 2 ^ 8
block_bytes a = ground arith

block-Landscape : Landscape block 304
block-Landscape = (omega arith, omega arith, omega arith)

abbrev first_screen : Fb
first_screen = record screen { cur_col = 0; cur_row = 0; mem = block }

fb_init-Fits_example :
    (fb_init 4 256 first_screen ≡ some (set_geometry 304 first_screen))
    × Fits (set_geometry 304 first_screen)
unfolding next_tag
fb_init-Fits_example =
    fb_init-Fits 4 256 first_screen (6 ∷ 8 ∷ []) 304 block_tags (omega arith) refl
      (λ e. omega arith) block_bytes refl refl block-Landscape

abbrev kernel : Kernel
kernel = record {
  console = record {
    shift = 0;
    stopped = 0;
    line = λ i. 0;
    line_len = 0;
    ticks = 0;
    machine = record machine {
      fb = first_screen;
      drive = record { model = λ i. 0; present = 0; total_sectors = 0 };
    };
  };
  heap = record {
    at = λ a. record { size = 0; in_use = 0; next = 0; prev = 0 };
    head = 0;
    pmm = machine.pmm;
  };
  idt = λ v. record {
    offset_low = 0;
    selector = 0;
    ist = 0;
    type_attr = 0;
    offset_mid = 0;
    offset_high = 0;
    reserved = 0;
  };
  descriptor = record { size = 0; addr = 0 };
  tables = record { pdpt = λ i. 0; fb_pd = λ i. 0 };
}

abbrev image : Image
image = record {
  handlers = λ v. 0x100000 + 16 * (v % 256);
  irq0 = 0x200000;
  irq1 = 0x200040;
  idt_address = 0x300000;
  fb_pd_address = 0x108000;
}

abbrev chip : Chip
chip = record {
  awaits = 0;
  alone = 0;
  with_mode = 0;
  vector = 0;
  cascade = 0;
  mode = 0;
  mask = 0;
  acks = 0;
}

abbrev first_chips : Chips
first_chips = record { main = chip; second = chip }

abbrev first_channel : Channel
first_channel = record { bytes = 3; awaits = 0; low = 0; count = 0; mode = 0; decimal = 0 }

-- The interrupt controllers answer their masks, and every other port 0.
abbrev silent : Hardware
silent = record {
  byte = λ log port.
      if port == 0x21
      then (chips first_chips log).main.mask
      else if port == 0xA1
      then (chips first_chips log).second.mask
      else 0;
  word = λ log port. 0;
}

abbrev nothing : ℕ → ℕ
nothing i = 0
