-- ===== src/Lib.antt =====
-- JordanOS: a model of the kernel's C code, and theorems about it.
--
-- The kernel takes the memory map that the boot loader passes on, counts its pages in a bitmap
-- (the page allocator), runs a heap of blocks over those pages, and serves a shell on a
-- framebuffer terminal from keyboard and timer interrupts.
--
-- - Base: shared names, C's casts, Boolean tests, lists; Base/Bits has the laws of `|` and `&`.
-- - Mem: memory as bytes by address, read little endian.
-- - Multiboot: include/multiboot.h and the readers of the memory map in kernel/memory.c. A walk
--   over the tags takes fuel; Multiboot/Tags shows that one round more than there are tags is
--   enough.
-- - Pmm: kernel/pmm.c. The state is the record Pmm; a bitmap access out of range is `none`.
--   Bitmap, Count, Alloc, Free, Regions and Init prove it against the bits of the pages, and
--   Gapless against the physical addresses of a map without holes.
-- - Heap: kernel/heap.c. Headers are the values of a map from addresses, and the pages come from
--   Pmm. Heap/Blocks reads a chain of headers as a list of blocks, Taken, Place, Merge and
--   Release say what kmalloc and kfree do to that list, Return how one takes back what the other
--   did, and the walk of kmalloc takes one round of fuel more than there are blocks.
-- - Str: kernel/string.c, over texts as lists of bytes and buffers as lists of fixed length.
-- - Digits: the conversions of numbers to text in kernel/memory.c and kernel/fb.c.
-- - Io: the port accesses of include/io.h as a log, and the hardware's answers as a parameter.
-- - Pic, Timer: kernel/pic.c, kernel/pit.c and kernel/beep.c; Pic/Chips and Timer/Channels say
--   by the chips' descriptions what the logged accesses do to them.
-- - Fb: the terminal of kernel/fb.c with the font of include/font.h. Fb/Draw has the pixels,
--   Fb/Print the text; Fb/Scroll, Tape, Round, Printed, Println and Erase show the screen as a
--   window on an endless tape of characters, Fb/Still and Fb/Total follow the screen's size and
--   the cursor through every call, Fb/Geometry has the grid of fb_init, and Fb/Boxes and
--   Fb/Pixels the pixels of a character. Fb/Cells, Moved, Shifted and Scrolled follow the pixels
--   cell by cell and through `rep movsq`; Picture and Pictured say what a screen looks like that
--   shows its text, and Canvas, Clean, Tidy, Erased, Cleared, Progress, Themed, Rows and Started
--   follow that through the cursor, printing, Backspace, clearing, a change of the theme and the
--   start. Loops has the rules for the counted loops.
-- - Shell: kernel/shell.c on the terminal; Shell/Words has the cutting of a line into arguments,
--   Shell/Terminal the record of what the shell asks of a terminal, Shell/Runs the runs of whole
--   lines on any such terminal, and Shell/Total and Shell/Screen two of them: a screen of the
--   right size, and one whose pixels show the text. The shell's state is the record Machine: the
--   terminal, the page allocator, the drive and the port log.
-- - Ata: kernel/ata.c. The drive is the hardware's answers at the ports. The waits of
--   ata_identify count down from 100000, as the source's do; those of ata_read have no bound, so
--   they take fuel, and Ata/Registers says what a drive makes of the accesses, and that it is ready
--   after so many answers; Ata/Read has the reading.
--   Ata/Bounds has the widths of what is kept. `rep insw` is a loop over 256 words.
-- - Keyboard: kernel/keyboard.c. The record Console holds the driver's state and the machine;
--   Live has its invariant, Faults the accesses past its arrays, Typing, Editor and Steps the
--   line as a text that a line editor changes, Lines whole sequences of codes, and Screen the
--   pixels behind each code.
-- - Isr: isr_handler of kernel/idt.c; Isr/Run has sequences of interrupts, Isr/Inputs those of
--   the keyboard and the timer with the screen's pixels.
-- - Boot: kernel_main of kernel/kernel.c, which calls the initialisations of the other parts;
--   Boot/Ready composes their runs, Boot/Wired follows the interrupt controllers and the timer
--   through them, and Boot/Shown ends in the state that Isr/Inputs starts from.
-- - Idt, Paging: the table of kernel/idt.c and kernel/paging.c. The entry stubs and the page
--   tables come from the boot code, so their addresses are parameters. Paging/Walk has the
--   processor's walk of the tables, by which an unmapped framebuffer is a fault of kernel_main.
--
-- Not modelled: boot/boot.s, boot/interrupts.s and the build files, which are no C code, and the
-- bodies of busy loops. Interrupts are handled one after another; those that come between `sti`
-- and the end of kernel_main are left out. That a loop of the hardware ends is a hypothesis
-- about its answers.
--
-- Integers are natural numbers with their wrap-around written out. A result `none` is a fault or
-- a loop that ran out of fuel.
pub mod Base
pub mod Mem
pub mod Multiboot
pub mod Pmm
pub mod Heap
pub mod Str
pub mod Digits
pub mod Io
pub mod Pic
pub mod Timer
pub mod Idt
pub mod Paging
pub mod Ata
pub mod Fb
pub mod Shell
pub mod Keyboard
pub mod Isr
pub mod Boot
