-- ===== src/Fb/Tidy.antt =====
-- The terminal's operations (kernel/fb.c) on a screen whose pixels show the text and the cursor.
use jordan_os.Base.{
  ℕ, ◌+◌, ◌/◌, ◌%◌, ◌^◌, ◌<◌, ◌≡◌, ◌⊎◌, refl, sym, arith, inl, inr, Bool-cases, u32, sub32, ltb,
  ◌==◌, ◌||◌, lt→leb, some, ◌>>=◌, Option,
}
use mathlib.Core.Path.{subst, subst₂}
use jordan_os.Str.{Bytes, AreBytes}
use jordan_os.Fb.{Fb}
use jordan_os.Fb.Draw.{write2, fb_draw_cursor, fb_erase_cursor, fb_update_cursor}
use jordan_os.Fb.Print.{
  scroll_below, write_fb, fb_print_color, fb_print, fb_println_color, fb_println,
}
use jordan_os.Fb.Tape.{Fits}
use jordan_os.Fb.Canvas.{
  recolored, fb_draw_cursor-Fills, fb_erase_cursor-Fills, Lit-Painted, Painted-Lit,
}
use jordan_os.Fb.Picture.{Dark, Shades, Canvas, Lit, Behind, ByteText}
use jordan_os.Fb.Clean.{
  Clean, next_line, next_line-Clean, scroll_below-Clean, print_loop-Clean, write_loop-Clean,
}
use jordan_os.Fb.Pictured.{marked-Shades}

-- Every cell shows its character, but the cursor's cell has the color of the text or of a cell without
-- text: a cell without a character has the background's color or is black.
abbrev pub Cursored : ℕ → ℕ → Fb → Type 0
Cursored fg bg f =
    (color : ℕ) × (blank : ℕ → ℕ → ℕ) × ((color ≡ fg) ⊎ Dark bg color)
    × Shades bg blank
    × Lit color blank f

-- A screen with no text from the cursor on, whose pixels show the text and the cursor in a theme's
-- colors.
pub record Tidy (fg bg : ℕ) (f : Fb) : Type 0 where
  pub fits : Fits f
  pub canvas : Canvas f
  pub colored : f.theme_fg ≡ fg
  pub ground_color : f.theme_bg ≡ bg
  pub edge : (f.cur_row < f.rows) ⊎ (f.cur_col ≡ 0)
  pub behind : Behind f
  pub text : ByteText f
  pub lit : Cursored fg bg f

-- A run that ends on such a screen.
abbrev pub Shown : ℕ → ℕ → Option Fb → Type 0
Shown fg bg run = (g : Fb) × (run ≡ some g) × Tidy fg bg g

pub fb_erase_cursor-Clean : (fg bg : ℕ) (f : Fb) → Tidy fg bg f → Clean fg bg (fb_erase_cursor f)
fb_erase_cursor-Clean fg bg f tidy =
    let (framed, align, _) = tidy.canvas in
    let (color, blank, _, shades, lit) = tidy.lit in
    let (m, same, fills, bytes) = fb_erase_cursor-Fills f tidy.fits tidy.canvas in
    subst (Clean fg bg) (sym same) (record {
      fits = tidy.fits;
      canvas = (framed, align, bytes);
      colored = tidy.colored;
      ground_color = tidy.ground_color;
      edge = tidy.edge;
      behind = tidy.behind;
      text = tidy.text;
      painted = (
        write2 blank f.cur_row f.cur_col f.theme_bg,
        marked-Shades bg f.cur_row f.cur_col f.theme_bg blank tidy.ground_color shades,
        Lit-Painted (recolored m f) f.theme_bg blank tidy.behind (fills color blank lit),
      );
    })

-- A screen with the cursor hidden.
pub Clean-Tidy : (fg bg : ℕ) (f : Fb) → Clean fg bg f → Tidy fg bg f
Clean-Tidy fg bg f clean =
    let (blank, shades, painted) = clean.painted in
    record {
      fits = clean.fits;
      canvas = clean.canvas;
      colored = clean.colored;
      ground_color = clean.ground_color;
      edge = clean.edge;
      behind = clean.behind;
      text = clean.text;
      lit = (
        blank f.cur_row f.cur_col,
        blank,
        inr (shades f.cur_row f.cur_col),
        shades,
        Painted-Lit f blank clean.behind painted,
      );
    }

pub fb_draw_cursor-Tidy : (fg bg : ℕ) (f : Fb) → Tidy fg bg f → Tidy fg bg (fb_draw_cursor f)
fb_draw_cursor-Tidy fg bg f tidy =
    let (framed, align, _) = tidy.canvas in
    let (color, blank, _, shades, lit) = tidy.lit in
    let (m, same, fills, bytes) = fb_draw_cursor-Fills f tidy.fits tidy.canvas in
    subst (Tidy fg bg) (sym same) (record {
      fits = tidy.fits;
      canvas = (framed, align, bytes);
      colored = tidy.colored;
      ground_color = tidy.ground_color;
      edge = tidy.edge;
      behind = tidy.behind;
      text = tidy.text;
      lit = (f.theme_fg, blank, inl tidy.colored, shades, fills color blank lit);
    })

fb_print_color-Tidy :
    (text : Bytes) (fg bg : ℕ) (f : Fb)
    → AreBytes text
    → Tidy fg bg f
    → Shown fg bg (fb_print_color text fg bg f)
unfolding fb_print_color
fb_print_color-Tidy text fg bg f ok tidy =
    let (g, run, clean) =
      print_loop-Clean text fg bg (fb_erase_cursor f) ok (fb_erase_cursor-Clean fg bg f tidy) in
    rw run (fb_draw_cursor g, refl, fb_draw_cursor-Tidy fg bg g (Clean-Tidy fg bg g clean))

pub fb_print-Tidy :
    (text : Bytes) (fg bg : ℕ) (f : Fb)
    → AreBytes text
    → Tidy fg bg f
    → Shown fg bg (fb_print text f)
unfolding fb_print
fb_print-Tidy text fg bg f ok tidy =
    subst₂ (λ a b. Shown fg bg (fb_print_color text a b f)) (sym tidy.colored)
      (sym tidy.ground_color) (fb_print_color-Tidy text fg bg f ok tidy)

-- The end of `fb_println_color`: the start of the next row.
newline-Shown :
    (fg bg row : ℕ) (g : Fb)
    → row < 64
    → Clean fg bg (next_line row g)
    → Shown fg bg (do
      h ← scroll_below (record g { cur_col = 0; cur_row = u32 (row + 1) })
      some (fb_draw_cursor h))
newline-Shown fg bg row g low clean =
    let down : u32 (row + 1) ≡ row + 1 = omega arith in
    let (h, run, clean1, _) = scroll_below-Clean fg bg (next_line row g) clean in
    rw (down, run) (fb_draw_cursor h, refl, fb_draw_cursor-Tidy fg bg h (Clean-Tidy fg bg h clean1))

write_fb-Clean :
    (text : Bytes) (fg bg : ℕ) (f : Fb)
    → AreBytes text
    → Clean fg bg f
    → f.cur_row < f.rows
    → Clean fg bg (next_line f.cur_row (write_fb f.cur_row f.cur_col text fg bg f))
unfolding write_fb
write_fb-Clean text fg bg f ok clean on =
    let (c0, c1, r0, r1, inside, cr) = clean.fits in
    rw
      (
        lt→leb (2 ^ 31) f.cur_row (omega arith),
        lt→leb f.rows f.cur_row on,
        lt→leb (2 ^ 31) f.cur_col (omega arith),
        lt→leb f.cols f.cur_col inside,
      )
      (write_loop-Clean text fg bg f.cur_row f.cur_col f ok clean.fits on
        (next_line-Clean fg bg f clean on))

fb_println_color-Tidy :
    (text : Bytes) (fg bg : ℕ) (f : Fb)
    → AreBytes text
    → Tidy fg bg f
    → Shown fg bg (fb_println_color text fg bg f)
unfolding fb_println_color
fb_println_color-Tidy text fg bg f ok tidy =
    let (g, run, clean, on) =
      scroll_below-Clean fg bg (fb_erase_cursor f) (fb_erase_cursor-Clean fg bg f tidy) in
    let (_, _, _, r1, _, _) = clean.fits in
    rw run (
      newline-Shown fg bg g.cur_row (write_fb g.cur_row g.cur_col text fg bg g) (omega arith)
        (write_fb-Clean text fg bg g ok clean on))

pub fb_println-Tidy :
    (text : Bytes) (fg bg : ℕ) (f : Fb)
    → AreBytes text
    → Tidy fg bg f
    → Shown fg bg (fb_println text f)
unfolding fb_println
fb_println-Tidy text fg bg f ok tidy =
    subst₂ (λ a b. Shown fg bg (fb_println_color text a b f)) (sym tidy.colored)
      (sym tidy.ground_color) (fb_println_color-Tidy text fg bg f ok tidy)

-- The cursor's cell is filled in one of the two colors.
pub fb_update_cursor-Tidy :
    (ticks fg bg : ℕ) (f : Fb) → Tidy fg bg f → Tidy fg bg (fb_update_cursor ticks f)
unfolding fb_update_cursor
fb_update_cursor-Tidy ticks fg bg f tidy =
    elim (Bool-cases (ltb (sub32 ticks f.last_activity) 30 || (ticks / 50 % 2 == 0))) [
      | inl on ↦ rw on (fb_draw_cursor-Tidy fg bg f tidy)
      | inr off ↦ rw off (Clean-Tidy fg bg (fb_erase_cursor f) (fb_erase_cursor-Clean fg bg f tidy))
    ]
