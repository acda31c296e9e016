-- ===== src/Boot.antt =====
-- The start of the kernel (kernel/kernel.c). The interrupts that come between `sti` and the last
-- line of `kernel_main`, the timer's alone, are left out: they count ticks and draw the cursor.
pub mod Ready
pub mod Wired
pub mod Shown
mod Examples
use jordan_os.Base.{ℕ, Option, some, ◌>>=◌}
use jordan_os.Io.{Hardware}
use jordan_os.Mem.{Mem}
use jordan_os.Str.{bytes}
use jordan_os.Pmm.{pmm_init}
use jordan_os.Heap.{Heap, heap_init}
use jordan_os.Pic.{pic_init}
use jordan_os.Timer.{pit_init}
use jordan_os.Idt.{Idt, IdtDescriptor, idt_init}
use jordan_os.Paging.{Tables, paging_map_fb}
use jordan_os.Paging.Walk.{reached}
use jordan_os.Ata.Init.{ata_init}
use jordan_os.Fb.{Fb, fb_black, fb_init, fb_get_addr, fb_get_size}
use jordan_os.Fb.Draw.{fb_clear}
use jordan_os.Fb.Print.{fb_print, fb_println}
use jordan_os.Keyboard.{Console, keyboard_init}

-- Everything that C code keeps.
pub record Kernel : Type 0 where
  pub console : Console
  pub heap : Heap
  pub idt : Idt
  pub descriptor : IdtDescriptor
  pub tables : Tables

-- What the boot code and the linker fix: the entry stubs, and the places of the two tables.
pub record Image : Type 0 where
  pub handlers : ℕ → ℕ
  pub irq0 : ℕ
  pub irq1 : ℕ
  pub idt_address : ℕ
  pub fb_pd_address : ℕ

unfoldable pub greet : Fb → Option Fb
greet f = do
  g ← fb_println (bytes "Welcome to JordanOS") f
  h ← fb_println (bytes "Type a command or help") g
  fb_print (bytes "> ") h

-- All that draws comes behind paging_map_fb, so a framebuffer that the processor does not find by the
-- tables, or tables that lose the kernel, are a fault there. `fuel` is for the entries of the memory
-- map, `tags` for the tags, and `buf` is the local array of `ata_init`.
unfoldable pub kernel_main : Hardware → Image → ℕ → ℕ → (ℕ → ℕ) → ℕ → Kernel → Option Kernel
kernel_main hw image fuel tags buf mbi k = do
  let m = k.console.machine
  pmm ← pmm_init fuel tags m.fb.mem mbi m.pmm
  fb1 ← fb_init tags mbi m.fb
  tables ←
      reached image.fb_pd_address k.tables
        (paging_map_fb image.fb_pd_address (fb_get_addr fb1) (fb_get_size fb1) k.tables)
        (fb_get_addr fb1) (fb_get_size fb1)
  let fb2 = fb_clear fb_black fb1
  let table = idt_init image.handlers image.irq0 image.irq1 image.idt_address k.idt
  heap ← heap_init (record k.heap { pmm = pmm })
  let log1 = pit_init hw (pic_init m.log)
  let fb3 = fb_clear fb_black fb2
  (fb4, drive, log2) ← ata_init hw buf fb3 m.drive log1
  fb5 ← greet fb4
  let machine = record m { fb = fb5; pmm = heap.pmm; drive = drive; log = keyboard_init hw log2 }
  some (record {
    console = record k.console { machine = machine };
    heap = heap;
    idt = table.0;
    descriptor = table.1;
    tables = tables;
  })
