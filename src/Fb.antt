-- ===== src/Fb.antt =====
-- The terminal on the framebuffer (kernel/fb.c): its geometry, the cursor, the theme, the text that
-- is on the screen, and the memory that the framebuffer lies in. `screen_buf` is the array of 64
-- rows of 128 bytes. An access far out of range is a fault, `none`.
pub mod Font
pub mod Draw
pub mod Print
pub mod Scroll
pub mod Tape
pub mod Round
pub mod Printed
pub mod Erase
pub mod Println
pub mod Loops
pub mod Still
pub mod Total
pub mod Geometry
pub mod Boxes
pub mod Pixels
pub mod Cells
pub mod Moved
pub mod Pictured
pub mod Scrolled
pub mod Picture
pub mod Shifted
pub mod Canvas
pub mod Clean
pub mod Tidy
pub mod Erased
pub mod Progress
pub mod Cleared
pub mod Themed
pub mod Rows
pub mod Started
mod Examples
use jordan_os.Base.{
  ℕ, zero, suc, ◌+◌, ◌-◌, ◌*◌, ◌/◌, ◌^◌, bit_and, bit_or, u32, u64, Option, some, ltb, ◌==◌,
  if◌then◌else◌, ◌&&◌, ◌>>=◌,
}
use jordan_os.Mem.{Mem}
use jordan_os.Multiboot.{tag_fb, find_tag, read_fb_tag}

pub record Fb : Type 0 where
  pub addr : ℕ
  pub pitch : ℕ
  pub width : ℕ
  pub height : ℕ
  pub bpp : ℕ
  pub cols : ℕ
  pub rows : ℕ
  pub glyph_w : ℕ
  pub glyph_h : ℕ
  pub cur_col : ℕ
  pub cur_row : ℕ
  pub theme_fg : ℕ
  pub theme_bg : ℕ
  pub last_activity : ℕ
  pub screen_buf : ℕ → ℕ → ℕ
  pub mem : Mem

abbrev pub fb_black : ℕ
fb_black = 0x000000

abbrev pub fb_white : ℕ
fb_white = 0xFFFFFF

abbrev pub screen_max_cols : ℕ
screen_max_cols = 128

abbrev pub screen_max_rows : ℕ
screen_max_rows = 64

unfoldable pub set_geometry : ℕ → Fb → Fb
set_geometry tag f =
    let t = read_fb_tag f.mem tag in
    let w = if ltb (t.width / 96) 8 then 8 else t.width / 96 in
    let h = u32 (w * 2) in
    record f {
      addr = t.addr;
      pitch = t.pitch;
      width = t.width;
      height = t.height;
      bpp = t.bpp;
      glyph_w = w;
      glyph_h = h;
      cols = t.width / w;
      rows = t.height / h;
    }

unfoldable pub fb_init : ℕ → ℕ → Fb → Option Fb
fb_init fuel mbi f = do
  tag ← find_tag fuel f.mem mbi tag_fb
  if tag == 0 then some f else some (set_geometry tag f)

abbrev pub fb_get_addr : Fb → ℕ
fb_get_addr f = f.addr

abbrev pub fb_get_size : Fb → ℕ
fb_get_size f = u64 (f.height * f.pitch)

abbrev pub fb_get_width : Fb → ℕ
fb_get_width f = f.width

abbrev pub fb_get_height : Fb → ℕ
fb_get_height f = f.height

abbrev pub fb_get_scale : Fb → ℕ
fb_get_scale f = f.glyph_w

abbrev pub fb_get_row : Fb → ℕ
fb_get_row f = f.cur_row

abbrev pub fb_set_col : ℕ → Fb → Fb
fb_set_col col f = record f { cur_col = col }

abbrev pub fb_cursor_activity : ℕ → Fb → Fb
fb_cursor_activity ticks f = record f { last_activity = ticks }
