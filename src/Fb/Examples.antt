-- ===== src/Fb/Examples.antt =====
-- The theorems on the terminal at a small screen of two rows and four columns.
use jordan_os.Base.{refl, ℕ, ◌+◌, ◌<◌, ◌≡◌, some, [], ◌∷◌, length, arith, if◌then◌else◌, ltb}
use jordan_os.Str.{Bytes, IsText}
use jordan_os.Fb.{Fb, fb_black, fb_white}
use jordan_os.Fb.Print.{fb_scroll, fb_print, fb_println, fb_update_theme}
use jordan_os.Fb.Draw.{fb_backspace, fb_draw_char}
use jordan_os.Fb.Tape.{Fits, Shows, position, put}
use jordan_os.Fb.Printed.{fb_print-Shows}
use jordan_os.Fb.Pixels.{glyph_color, fb_draw_char-pixel}
use jordan_os.Fb.Boxes.{pixel}
use jordan_os.Fb.Println.{fb_println-Shows}
use jordan_os.Fb.Erase.{fb_backspace-Shows}
use jordan_os.Mem.{write}
use jordan_os.Fb.Picture.{Lit}
use jordan_os.Fb.Canvas.{Recolors}
use jordan_os.Fb.Scrolled.{fb_scroll_lem}
use jordan_os.Fb.Themed.{fb_update_theme-Lit}

abbrev small : Fb
small = record {
  addr = 0xFD000000;
  pitch = 128;
  width = 32;
  height = 32;
  bpp = 32;
  cols = 4;
  rows = 2;
  glyph_w = 8;
  glyph_h = 16;
  cur_col = 2;
  cur_row = 1;
  theme_fg = fb_white;
  theme_bg = fb_black;
  last_activity = 0;
  screen_buf = λ r c. if ltb r 1 then b'a' else 0;
  mem = λ a. 0;
}

abbrev shown : ℕ → ℕ
shown p = if ltb p 4 then b'a' else 0

small-Fits : Fits small
small-Fits = (omega arith, omega arith, omega arith, omega arith, omega arith, omega arith)

small-Shows : Shows 0 shown small
small-Shows = (λ r c hr hc. ground arith, λ p h. ground arith)

abbrev hello : Bytes
hello = b'h' ∷ b'e' ∷ b'l' ∷ b'l' ∷ b'o' ∷ []

hello-IsText : IsText hello
hello-IsText = (
  (omega arith, omega arith),
  (
    (omega arith, omega arith),
    ((omega arith, omega arith), ((omega arith, omega arith), ((omega arith, omega arith), tt))),
  ),
)

fb_print-Shows_example :
    (g : Fb) × (base' : ℕ) × (fb_print hello small ≡ some g)
    × Fits g
    × Shows base' (put (position 0 small) hello shown) g
    × (position base' g ≡ position 0 small + length hello)
fb_print-Shows_example = fb_print-Shows hello 0 shown small hello-IsText small-Fits small-Shows

fb_backspace-Shows_example :
    Fits (fb_backspace small)
    × Shows 0 (write shown 5 0) (fb_backspace small)
    × (position 0 (fb_backspace small) + 1 ≡ position 0 small)
fb_backspace-Shows_example =
    fb_backspace-Shows 0 shown small small-Fits (omega arith) (omega arith) small-Shows

fb_println-Shows_example :
    (g : Fb) × (base' : ℕ) × (fb_println hello small ≡ some g)
    × Fits g
    × Shows base' (put (position 0 small) (b'h' ∷ b'e' ∷ []) shown) g
    × (position base' g ≡ 8)
fb_println-Shows_example = fb_println-Shows hello 0 shown small hello-IsText small-Fits small-Shows

fb_draw_char-pixel_example :
    pixel small (fb_draw_char 1 0 b'a' fb_white fb_black small).mem 9 3
    ≡ glyph_color small b'a' fb_white fb_black 1 3
fb_draw_char-pixel_example =
    fb_draw_char-pixel small 1 0 b'a' fb_white fb_black 9 3
      (refl, omega arith, omega arith, omega arith) (omega arith) (omega arith) (omega arith)
      (omega arith) (omega arith) (omega arith)

fb_scroll_lem_example :
    (g : Fb) × (fb_scroll small ≡ some g)
    × ((x y : ℕ)
        → x < 32
        → y < 32
        → pixel small g.mem x y ≡ (if ltb (y + 16) 32 then pixel small small.mem x (y + 16) else 0))
    × ((r c : ℕ)
        → r < 2
        → c < 4
        → g.screen_buf r c ≡ (if ltb (r + 1) 2 then small.screen_buf (r + 1) c else 0))
    × (g.cur_row + 1 ≡ 2)
fb_scroll_lem_example =
    fb_scroll_lem small small-Fits (refl, omega arith, omega arith, omega arith) refl
      (λ a. omega arith) (omega arith)

fb_update_theme-Lit_example :
    Recolors
      (Lit 0xADD8E6 (λ r c. 0x00001A))
      (record small { theme_fg = 0xADD8E6; theme_bg = 0x00001A })
      (fb_update_theme 0xADD8E6 0x00001A small)
fb_update_theme-Lit_example =
    fb_update_theme-Lit 0xADD8E6 0x00001A small small-Fits
      (
        (
          (refl, omega arith, omega arith, omega arith),
          omega arith,
          omega arith,
          omega arith,
          omega arith,
        ),
        refl,
        λ a. omega arith,
      )
      (λ r c hr hc after. ground arith) (λ r c hr hc. ground arith)
