-- ===== src/Shell.antt =====
-- The shell (kernel/shell.c): a line is cut at spaces into at most sixteen arguments, and the first
-- one says what to do. The arguments are pointers into the line's copy, whose spaces have become
-- terminators; here each is the text that it points to. `drive` is what kernel/ata.c keeps.
pub mod Terminal
pub mod Words
pub mod Runs
pub mod Total
pub mod Screen
pub mod Sample
mod Examples
use Prim.Native.String.{String}
use jordan_os.Base.{
  ℕ, zero, suc, ◌+◌, ◌*◌, ◌/◌, ◌^◌, u32, u64, sub32, Bool, true, false, Option, none, some, List,
  [], ◌∷◌, length, ◌==◌, if◌then◌else◌, ◌>>=◌,
}
use jordan_os.Io.{Log, outb}
use jordan_os.Str.{Bytes, bytes, array_text, front, next, strcmp}
use jordan_os.Ata.{Drive}
use jordan_os.Digits.{int_to_str}
use jordan_os.Pmm.{Pmm, pmm_get_total_pages, pmm_get_free_pages}
use jordan_os.Fb.{Fb, fb_black, fb_white}
use jordan_os.Fb.Print.{fb_print, fb_println, fb_clear_screen, fb_update_theme}

pub record Machine : Type 0 where
  pub fb : Fb
  pub pmm : Pmm
  pub drive : Drive
  pub log : Log

-- `while (line[j] && j < 255)`, by the bytes that still fit.
unfoldable pub copy_line : ℕ → Bytes → Bytes
copy_line zero line = []
copy_line (suc room) [] = []
copy_line (suc room) (c ∷ line) = let rest = copy_line room line in if c == 0 then [] else c ∷ rest

-- `while (*p == ' ') p++;`
unfoldable pub skip_spaces : Bytes → Bytes
skip_spaces [] = []
skip_spaces (c ∷ p) = let rest = skip_spaces p in if c == b' ' then rest else c ∷ p

-- What `while (*p && *p != ' ') p++;` goes over, and what it stops at.
unfoldable pub word_at : Bytes → Bytes
word_at [] = []
word_at (c ∷ p) = let rest = word_at p in if c == 0 then [] else if c == b' ' then [] else c ∷ rest

unfoldable pub past_word : Bytes → Bytes
past_word [] = []
past_word (c ∷ p) =
    let rest = past_word p in if c == 0 then c ∷ p else if c == b' ' then c ∷ p else rest

-- The loop of `shell_exec`, by the arguments that still fit `argv`.
unfoldable pub split_args : ℕ → Bytes → List Bytes
split_args zero p = []
split_args (suc room) p =
    let q = skip_spaces p in
    let rest = split_args room (next (past_word q)) in
    if front p == 0 then [] else if front q == 0 then [] else word_at q ∷ rest

-- `strcmp(a, b) == 0`
abbrev pub is : Bytes → String → Bool
is a b = strcmp a (bytes b) == 0

abbrev pub println_all : List String → Fb → Option Fb
println_all [] f = some f
println_all (s ∷ more) f = do g ← fb_println (bytes s) f; println_all more g

-- A command's output on the terminal.
abbrev pub on_fb : (Fb → Option Fb) → Machine → Option Machine
on_fb run m = do f ← run m.fb; some (record m { fb = f })

-- A command that takes no arguments.
abbrev pub alone : List Bytes → String → Machine → Option Machine → Option Machine
alone [] usage m run = run
alone (a ∷ args) usage m run = on_fb (println_all (usage ∷ [])) m

abbrev pub print_line : String → Bytes → String → Fb → Option Fb
print_line label value unit f = do
  g ← fb_print (bytes label) f
  h ← fb_print value g
  fb_println (bytes unit) h

abbrev pub exec_mem : Pmm → Fb → Option Fb
exec_mem pmm f = do
  total ← int_to_str (u32 (pmm_get_total_pages pmm * 4096) / 2 ^ 20)
  f1 ← print_line "Total memory available  " total " MB" f
  free ← int_to_str (pmm_get_free_pages pmm)
  f2 ← fb_print (bytes "Free pages              ") f1
  f3 ← fb_println free f2
  used ← int_to_str (sub32 (pmm_get_total_pages pmm) (pmm_get_free_pages pmm))
  f4 ← fb_print (bytes "Used pages              ") f3
  fb_println used f4

abbrev pub exec_disk : Drive → Fb → Option Fb
exec_disk drive f = do
  f1 ← fb_print (bytes "Model:  ") f
  f2 ← fb_println (array_text 41 0 drive.model) f1
  f3 ← fb_print (bytes "Size:   ") f2
  size ← int_to_str (u32 (u64 (drive.total_sectors * 512) / 2 ^ 20))
  f4 ← fb_print size f3
  f5 ← fb_print (bytes " MB (") f4
  sectors ← int_to_str (u32 drive.total_sectors)
  f6 ← fb_print sectors f5
  fb_println (bytes " sectors)") f6

-- The colors of a theme by its name.
unfoldable pub theme : Bytes → Option (ℕ × ℕ)
theme name =
    if is name "default"
    then some (fb_white, fb_black)
    else if is name "hacker"
    then some (0x00FF00, fb_black)
    else if is name "amber"
    then some (0xFFB000, fb_black)
    else if is name "ocean"
    then some (0xADD8E6, 0x00001A)
    else if is name "paper"
    then some (0x1A1A1A, 0xF5F0E8)
    else if is name "rose"
    then some (0xFFB3C6, 0x1A0010)
    else if is name "solarized"
    then some (0x839496, 0x002B36)
    else none

abbrev pub theme_help : List String
theme_help =
    "Theme        Text          Background" ∷ "-------------------------------------"
    ∷ "default      white         black" ∷ "hacker       green         black"
    ∷ "amber        amber         black" ∷ "ocean        light blue    navy blue"
    ∷ "paper        black         off-white" ∷ "rose         pink          purple"
    ∷ "solarized    muted blue    dark teal" ∷ []

abbrev pub apply_theme : Option (ℕ × ℕ) → Bytes → Fb → Option Fb
apply_theme (some (fg, bg)) name f = some (fb_update_theme fg bg f)
apply_theme none name f = do g ← fb_print (bytes "Unknown theme ") f; fb_println name g

unfoldable pub exec_theme : List Bytes → Fb → Option Fb
exec_theme (name ∷ []) f =
    if is name "--help" then println_all theme_help f else apply_theme (theme name) name f
exec_theme _ f = println_all ("usage: theme <THEME> OR theme --help" ∷ []) f

abbrev pub help : List String
help =
    "help - display available commands" ∷ "clear - clear the screen"
    ∷ "mem - show memory statistics" ∷ "disk - show disk information"
    ∷ "theme <THEME> - change colors" ∷ "reboot - reboot computer" ∷ []

abbrev pub unknown : Bytes → Fb → Option Fb
unknown cmd f = do
  g ← fb_print (bytes "Unknown command \"") f
  h ← fb_print cmd g
  fb_println (bytes "\"") h

unfoldable pub shell_exec_args : List Bytes → Machine → Option Machine
shell_exec_args [] m = some m
shell_exec_args (cmd ∷ args) m =
    if is cmd "help"
    then alone args "help command does not take any arguments" m (on_fb (println_all help) m)
    else if is cmd "clear"
    then alone args "clear command does not take any arguments" m
        (some (record m { fb = fb_clear_screen m.fb }))
    else if is cmd "mem"
    then alone args "mem command does not take any arguments" m (on_fb (exec_mem m.pmm) m)
    else if is cmd "disk"
    then alone args "disk command does not take any arguments" m (on_fb (exec_disk m.drive) m)
    else if is cmd "theme"
    then on_fb (exec_theme args) m
    else if is cmd "reboot"
    then alone args "reboot command does not take any arguments" m
        (some (record m { log = outb 0xCF9 0x06 (outb 0x64 0xFE m.log) }))
    else on_fb (unknown cmd) m

unfoldable pub shell_exec : Bytes → Machine → Option Machine
shell_exec line m = shell_exec_args (split_args 16 (copy_line 255 line)) m
