-- ===== src/Shell/Terminal.antt =====
-- What the shell (kernel/shell.c) needs of the terminal, and the texts that it prints.
use jordan_os.Base.{
  ℕ, ◌*◌, ◌/◌, ◌^◌, ◌<◌, ◌≤◌, ◌≡◌, ◌≢◌, ◌⊎◌, refl, sym, arith, inl, inr, Bool, true, false, u32,
  u64, ltb, ◌&&◌, Option, none, some, [], ◌∷◌, if◌then◌else◌,
}
use mathlib.Core.Path.{subst}
use jordan_os.Str.{Bytes, AreBytes}
use jordan_os.Digits.Decimal.{IsDigits, WritesInt}
use jordan_os.Ata.{Drive}
use jordan_os.Pmm.{Pmm}
use jordan_os.Fb.{Fb, fb_black, fb_white}
use jordan_os.Fb.Print.{fb_print, fb_println, fb_clear_screen, fb_update_theme}
use jordan_os.Shell.{theme}

-- A text of bytes, by its computation.
unfoldable pub are_bytes : Bytes → Bool
are_bytes [] = true
are_bytes (c ∷ text) = ltb c 256 && are_bytes text

pub are_bytes-AreBytes : (text : Bytes) → are_bytes text ≡ true → AreBytes text
unfolding are_bytes
are_bytes-AreBytes [] h = tt
are_bytes-AreBytes (c ∷ text) h = (ground (arith, h), are_bytes-AreBytes text (ground (arith, h)))

-- What the shell relies on the terminal for: texts that it takes, and screens on which its
-- operations end, and on which they leave it.
pub record Terminal (Takes : Bytes → Type 0) (Ready : Fb → Type 0) : Type 0 where
  pub bytes_taken : (text : Bytes) → AreBytes text → Takes text
  pub print_ends :
      (text : Bytes) (f : Fb)
      → Takes text
      → Ready f
      → (g : Fb) × (fb_print text f ≡ some g) × Ready g
  pub println_ends :
      (text : Bytes) (f : Fb)
      → Takes text
      → Ready f
      → (g : Fb) × (fb_println text f ≡ some g) × Ready g
  pub clear_ends : (f : Fb) → Ready f → Ready (fb_clear_screen f)
  pub theme_ends :
      (fg bg : ℕ) (f : Fb) → fg < 2 ^ 24 → bg < 2 ^ 24 → Ready f → Ready (fb_update_theme fg bg f)

-- Numbers that the shell prints: none is the least `int`.
abbrev pub Printable : ℕ → Type 0
Printable n = (n < 2 ^ 32) × (n ≢ 2 ^ 31)

-- What the page allocator and the disk driver keep, as far as the shell prints it.
abbrev pub PmmFits : Pmm → Type 0
PmmFits p = (p.pages_num ≤ 2 ^ 20) × (p.free_pages ≤ p.pages_num)

abbrev pub DriveFits : Drive → Type 0
DriveFits d =
    Printable (u32 (u64 (d.total_sectors * 512) / 2 ^ 20)) × Printable (u32 d.total_sectors)

IsDigits-AreBytes : (text : Bytes) → IsDigits text → AreBytes text
IsDigits-AreBytes [] h = tt
IsDigits-AreBytes (c ∷ text) ((low, high), h) = (omega arith, IsDigits-AreBytes text h)

pub WritesInt-AreBytes : (n : ℕ) (s : Bytes) → WritesInt n s → AreBytes s
WritesInt-AreBytes n s (inl (_, written)) = IsDigits-AreBytes s written.0
WritesInt-AreBytes n s (inr (t, _, same, written)) =
    subst AreBytes (sym same) (omega arith, IsDigits-AreBytes t written.0)

-- Colors of 24 bits, if any.
abbrev Colors : Option (ℕ × ℕ) → Type 0
Colors o = (o ≡ none) ⊎ ((fg : ℕ) × (bg : ℕ) × (o ≡ some (fg, bg)) × (fg < 2 ^ 24) × (bg < 2 ^ 24))

or_else :
    (test : Bool) (fg bg : ℕ) (o : Option (ℕ × ℕ))
    → fg < 2 ^ 24
    → bg < 2 ^ 24
    → Colors o
    → Colors (if test then some (fg, bg) else o)
or_else true fg bg o hf hb h = inr (fg, bg, refl, hf, hb)
or_else false fg bg o hf hb h = h

pub theme-Colors : (name : Bytes) → Colors (theme name)
unfolding theme
theme-Colors name = or_else _ fb_white fb_black _ (omega arith) (omega arith) (
    or_else _ 0x00FF00 fb_black _ (omega arith) (omega arith) (
      or_else _ 0xFFB000 fb_black _ (omega arith) (omega arith) (
        or_else _ 0xADD8E6 0x00001A _ (omega arith) (omega arith) (
          or_else _ 0x1A1A1A 0xF5F0E8 _ (omega arith) (omega arith) (
            or_else _ 0xFFB3C6 0x1A0010 _ (omega arith) (omega arith)
              (or_else _ 0x839496 0x002B36 _ (omega arith) (omega arith) (inl refl)))))))
