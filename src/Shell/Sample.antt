-- ===== src/Shell/Sample.antt =====
-- A small machine for tests: a screen of two rows and four columns, four pages and a drive of 1 GiB.
use jordan_os.Base.{[]}
use native.Mathlib.Omega.{arith}
use jordan_os.Fb.{Fb, fb_black, fb_white}
use jordan_os.Shell.{Machine}
use jordan_os.Shell.Total.{Sound}

abbrev pub screen : Fb
screen = record {
  addr = 0xFD000000;
  pitch = 128;
  width = 32;
  height = 32;
  bpp = 32;
  cols = 4;
  rows = 2;
  glyph_w = 8;
  glyph_h = 16;
  cur_col = 2;
  cur_row = 1;
  theme_fg = fb_white;
  theme_bg = fb_black;
  last_activity = 0;
  screen_buf = λ r c. 0;
  mem = λ a. 0;
}

abbrev pub machine : Machine
machine = record {
  fb = screen;
  pmm = record { bitmap = λ i. 0; pages_num = 4; free_pages = 3 };
  drive = record { model = λ i. 0; present = 1; total_sectors = 0x200000 };
  log = [];
}

pub machine-Sound : Sound machine
machine-Sound = (
  (omega arith, omega arith, omega arith, omega arith, omega arith, omega arith),
  (omega arith, omega arith),
  ((omega arith, omega arith), (omega arith, omega arith)),
)
