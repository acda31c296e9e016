-- ===== src/Fb/Started.antt =====
-- The screen that `fb_init` and `fb_clear` (kernel/fb.c) leave at the start of the kernel.
use jordan_os.Base.{ℕ, ◌+◌, ◌*◌, ◌/◌, ◌%◌, ◌^◌, ◌<◌, ◌≤◌, ◌≡◌, refl, ap, sym, ◌∙◌, arith, inl, u32}
use native.Mathlib.Nat.{le-div_iff_mul-le}
use jordan_os.Mem.{Mem, load32}
use jordan_os.Fb.{Fb, set_geometry}
use jordan_os.Fb.Draw.{fb_clear}
use jordan_os.Fb.Tape.{Fits}
use jordan_os.Fb.Geometry.{glyph, glyph_bounds, Landscape}
use jordan_os.Fb.Cells.{cell_below}
use jordan_os.Fb.Picture.{Canvas, cell_color}
use jordan_os.Fb.Cleared.{fb_clear-pixel, fb_clear-IsBytes}
use jordan_os.Fb.Clean.{Clean}

-- A framebuffer tag for packed 32-bit pixels in 32 bits of offset, in rows of whole 64-bit words.
abbrev pub Drawable : Mem → ℕ → Type 0
Drawable m tag =
    (m (tag + 28) ≡ 32)
    × (load32 m (tag + 16) % 8 ≡ 0)
    × (4 * load32 m (tag + 20) ≤ load32 m (tag + 16))
    × (load32 m (tag + 24) * load32 m (tag + 16) < 2 ^ 32)

load32-small : (m : Mem) (a : ℕ) → ((b : ℕ) → m b < 2 ^ 8) → load32 m a < 2 ^ 32
load32-small m a bytes = omega (arith, bytes a, bytes (a + 1), bytes (a + 2), bytes (a + 3))

whole_cells : (n size : ℕ) → 0 < n → size / n * n ≤ size
whole_cells n size pos = (le-div_iff_mul-le {k = n} {x = size / n} {y = size} pos).0 (omega arith)

pub set_geometry-Canvas :
    (tag : ℕ) (f : Fb)
    → ((a : ℕ) → f.mem a < 2 ^ 8)
    → Landscape f.mem tag
    → Drawable f.mem tag
    → f.theme_fg < 2 ^ 24
    → f.theme_bg < 2 ^ 24
    → Canvas (set_geometry tag f)
unfolding set_geometry
set_geometry-Canvas tag f bytes (pos, flat, tall) (bpp, align, wide, whole) hf hb =
    let width = load32 f.mem (tag + 20) in
    let height = load32 f.mem (tag + 24) in
    let (wp, wl, _, wsmall) = glyph_bounds width pos (load32-small f.mem (tag + 20) bytes) in
    let twice : u32 (glyph width * 2) ≡ glyph width * 2 = omega arith in
    (
      (
        (bpp, wide, whole, load32-small f.mem (tag + 24) bytes),
        whole_cells (glyph width) width wp,
        whole_cells (u32 (glyph width * 2)) height (omega arith),
        hf,
        hb,
      ),
      align,
      bytes,
    )

pub fb_clear-Canvas : (color : ℕ) (f : Fb) → Canvas f → Canvas (fb_clear color f)
unfolding fb_clear
fb_clear-Canvas color f (framed, align, bytes) = (framed, align, fb_clear-IsBytes f color bytes)

-- A screen without text that is cleared in the background's color.
pub fb_clear-Clean :
    (fg bg : ℕ) (f : Fb)
    → Fits f
    → Canvas f
    → f.theme_fg ≡ fg
    → f.theme_bg ≡ bg
    → f.cur_row < f.rows
    → ((r c : ℕ) → f.screen_buf r c ≡ 0)
    → Clean fg bg (fb_clear bg f)
unfolding fb_clear
fb_clear-Clean fg bg f fits (framed, align, bytes) colored ground_color on blank =
    let (packed, wide, high, _, small) = framed in
    record {
      fits = fits;
      canvas = (framed, align, fb_clear-IsBytes f bg bytes);
      colored = colored;
      ground_color = ground_color;
      edge = inl on;
      behind = λ r c hr hc after. blank r c;
      text = λ r c hr hc. omega (arith, blank r c);
      painted = (
        λ r c. bg,
        λ r c. inl refl,
        λ r c dx dy hr hc hx hy.
            fb_clear-pixel f bg (c * f.glyph_w + dx) (r * f.glyph_h + dy) packed
              (omega (arith, ground_color, small))
              (cell_below f.glyph_w c f.cols dx f.width hx hc wide)
              (cell_below f.glyph_h r f.rows dy f.height hy hr high)
            ∙ ap (λ ch. cell_color f bg ch dx dy) (sym (blank r c)),
      );
    }
