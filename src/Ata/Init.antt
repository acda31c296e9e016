-- ===== src/Ata/Init.antt =====
-- `ata_init` (kernel/ata.c), which tells of a failure on the terminal. `buf` is what its local array
-- holds at the start.
use jordan_os.Base.{ℕ, Option, some, ◌==◌, if◌then◌else◌, ◌>>=◌}
use jordan_os.Io.{Hardware, Log}
use jordan_os.Str.{bytes}
use jordan_os.Ata.{Drive, ata_identify, set_drive}
use jordan_os.Fb.{Fb}
use jordan_os.Fb.Print.{fb_println}

unfoldable pub ata_init : Hardware → (ℕ → ℕ) → Fb → Drive → Log → Option (Fb × Drive × Log)
ata_init hw buf fb drive log =
    let (status, words, done) = ata_identify hw buf log in
    let failed = (do
      f ← fb_println (bytes "Drive identification failed") fb
      some (f, drive, done)) in
    if status == 0 then some (fb, set_drive words drive, done) else failed
