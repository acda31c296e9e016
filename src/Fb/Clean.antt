-- ===== src/Fb/Clean.antt =====
-- Scrolling and printing (kernel/fb.c) on a screen whose pixels show the text, with the cursor hidden.
use jordan_os.Base.{
  ℕ, ◌+◌, ◌-◌, ◌<◌, ◌≤◌, ◌≡◌, ◌⊎◌, refl, sym, ◌∙◌, arith, inl, inr, false, Bool-cases, u32, ltb,
  leb, ◌==◌, ◌&&◌, not, leb→lt, beq_of_ne, ne_of_beq, some, [], ◌∷◌,
}
use mathlib.Core.Path.{subst}
use jordan_os.Str.{Bytes, AreBytes}
use jordan_os.Fb.{Fb}
use jordan_os.Fb.Draw.{fb_draw_char, write2}
use jordan_os.Fb.Print.{fb_scroll, scroll_below, advance, print_loop, write_loop}
use jordan_os.Fb.Tape.{Fits, scrolled}
use jordan_os.Fb.Picture.{Canvas, Behind, ByteText, inked-ByteText, inked, fb_draw_char-Painted}
use jordan_os.Fb.Scrolled.{
  shift_pixels-IsBytes, whole_text, scrolled-Painted, moved_up, moved_up-Shades, scrolled-ByteText,
}
use jordan_os.Fb.Pictured.{Pictured, drawn-Pictured}

-- A screen with no text from the cursor on, whose pixels show the text in a theme's colors.
pub record Clean (fg bg : ℕ) (f : Fb) : Type 0 where
  pub fits : Fits f
  pub canvas : Canvas f
  pub colored : f.theme_fg ≡ fg
  pub ground_color : f.theme_bg ≡ bg
  pub edge : (f.cur_row < f.rows) ⊎ (f.cur_col ≡ 0)
  pub behind : Behind f
  pub text : ByteText f
  pub painted : Pictured bg f

pub scrolled-Clean :
    (fg bg col : ℕ) (f : Fb)
    → col < f.cols
    → Clean fg bg f
    → Clean fg bg (record (scrolled f) { cur_col = col })
scrolled-Clean fg bg col f within clean =
    let (c0, c1, r0, r1, inside, cr) = clean.fits in
    let (framed, align, bytes) = clean.canvas in
    record {
      fits = (c0, c1, r0, r1, within, omega arith);
      canvas = (framed, align, shift_pixels-IsBytes f bytes);
      colored = clean.colored;
      ground_color = clean.ground_color;
      edge = inl (omega arith);
      behind = λ r c hr hc after.
          whole_text f r c clean.fits hr hc
          ∙ (let last : ltb (r + 1) f.rows ≡ false = ground arith in rw last refl);
      text = scrolled-ByteText f clean.fits clean.text;
      painted =
          let (blank, shades, painted) = clean.painted in
          let n = f.rows - 1 in
          (
            moved_up n blank,
            moved_up-Shades bg n blank shades,
            scrolled-Painted f n blank (omega arith) clean.fits clean.canvas painted,
          );
    }

-- `scroll_below` puts the cursor on the screen.
pub scroll_below-Clean :
    (fg bg : ℕ) (f : Fb)
    → Clean fg bg f
    → (g : Fb) × (scroll_below f ≡ some g) × Clean fg bg g × (g.cur_row < g.rows)
unfolding scroll_below fb_scroll
scroll_below-Clean fg bg f clean =
    let (c0, c1, r0, r1, inside, cr) = clean.fits in
    elim (Bool-cases (leb f.rows f.cur_row)) [
      | inr on ↦ (f, rw on refl, clean, leb→lt f.rows f.cur_row on)
      | inl below ↦ (
        scrolled f,
        rw (below, beq_of_ne f.rows 0 (omega arith)) refl,
        scrolled-Clean fg bg f.cur_col f inside clean,
        omega arith,
      )
    ]

-- The cell of a character that is drawn, for the cells behind the cursor's next place.
inked-Behind :
    (f : Fb) (ch r c : ℕ)
    → Behind f
    → r < f.rows
    → c < f.cols
    → (f.cur_row < r) ⊎ ((r ≡ f.cur_row) × (f.cur_col < c))
    → write2 f.screen_buf f.cur_row f.cur_col ch r c ≡ 0
unfolding write2
inked-Behind f ch r c behind hr hc (inl below) = ground (arith, behind r c hr hc (inl below))
inked-Behind f ch r c behind hr hc (inr (same, right)) =
    ground (arith, behind r c hr hc (inr (same, omega arith)))

one_on :
    (row col r c : ℕ)
    → (row < r) ⊎ ((r ≡ row) × (col + 1 ≤ c))
    → (row < r) ⊎ ((r ≡ row) × (col < c))
one_on row col r c (inl below) = inl below
one_on row col r c (inr (same, right)) = inr (same, omega arith)

-- A character at the cursor, and the step of the cursor.
put_char-Clean :
    (fg bg ch : ℕ) (f : Fb)
    → Clean fg bg f
    → f.cur_row < f.rows
    → (0 < ch) × (ch < 256)
    → Clean fg bg (advance (fb_draw_char f.cur_col f.cur_row ch fg bg f))
unfolding advance
put_char-Clean fg bg ch f clean on char =
    let (c0, c1, r0, r1, inside, cr) = clean.fits in
    let (framed, align, _) = clean.canvas in
    let drawn = fb_draw_char f.cur_col f.cur_row ch f.theme_fg f.theme_bg f in
    let (same, painted, bytes) =
      fb_draw_char-Painted f f.cur_col f.cur_row ch clean.fits clean.canvas on inside char in
    let colors : fb_draw_char f.cur_col f.cur_row ch fg bg f ≡ drawn =
      rw (clean.colored, clean.ground_color) refl in
    let step : u32 (f.cur_col + 1) ≡ f.cur_col + 1 = omega arith in
    let down : u32 (f.cur_row + 1) ≡ f.cur_row + 1 = omega arith in
    subst (λ g. Clean fg bg (advance g)) (sym (colors ∙ same))
      (elim (Bool-cases (leb f.cols (f.cur_col + 1))) [
        | inl end ↦
            rw (step, end, down)
              (record {
                fits = (c0, c1, r0, r1, omega arith, omega arith);
                canvas = (framed, align, bytes);
                colored = clean.colored;
                ground_color = clean.ground_color;
                edge = inr refl;
                behind = λ r c hr hc after.
                    inked-Behind f ch r c clean.behind hr hc (inl (ground arith));
                text = inked-ByteText f f.cur_col f.cur_row ch drawn.mem clean.text char.1;
                painted =
                    drawn-Pictured bg f.cur_row f.cur_col f
                      (inked f.cur_col f.cur_row ch drawn.mem f) clean.ground_color painted
                      clean.painted;
              })
        | inr room ↦
            rw (step, room)
              (record {
                fits = (c0, c1, r0, r1, omega (arith, leb→lt f.cols (f.cur_col + 1) room), cr);
                canvas = (framed, align, bytes);
                colored = clean.colored;
                ground_color = clean.ground_color;
                edge = inl on;
                behind = λ r c hr hc after.
                    inked-Behind f ch r c clean.behind hr hc (one_on f.cur_row f.cur_col r c after);
                text = inked-ByteText f f.cur_col f.cur_row ch drawn.mem clean.text char.1;
                painted =
                    drawn-Pictured bg f.cur_row f.cur_col f
                      (inked f.cur_col f.cur_row ch drawn.mem f) clean.ground_color painted
                      clean.painted;
              })
      ])

pub print_loop-Clean :
    (text : Bytes) (fg bg : ℕ) (f : Fb)
    → AreBytes text
    → Clean fg bg f
    → (g : Fb) × (print_loop text fg bg f ≡ some g) × Clean fg bg g
unfolding print_loop
print_loop-Clean [] fg bg f ok clean = (f, refl, clean)
print_loop-Clean (ch ∷ text) fg bg f (small, ok) clean = elim (Bool-cases (ch == 0)) [
  | inl end ↦ (f, rw end refl, clean)
  | inr char ↦
      let (g, up, clean1, on) = scroll_below-Clean fg bg f clean in
      let next = advance (fb_draw_char g.cur_col g.cur_row ch fg bg g) in
      let pos : 0 < ch = omega (arith, ne_of_beq ch 0 char) in
      let (h, run, clean2) =
        print_loop-Clean text fg bg next ok (put_char-Clean fg bg ch g clean1 on (pos, small)) in
      (h, rw (char, up) run, clean2)
]

-- The screen with the cursor at the start of the row behind `row`.
abbrev pub next_line : ℕ → Fb → Fb
next_line row f = record f { cur_col = 0; cur_row = row + 1 }

pub next_line-Clean :
    (fg bg : ℕ) (f : Fb) → Clean fg bg f → f.cur_row < f.rows → Clean fg bg (next_line f.cur_row f)
next_line-Clean fg bg f clean on =
    let (c0, c1, r0, r1, inside, cr) = clean.fits in
    record {
      fits = (c0, c1, r0, r1, c0, omega arith);
      canvas = clean.canvas;
      colored = clean.colored;
      ground_color = clean.ground_color;
      edge = inr refl;
      behind = λ r c hr hc after. clean.behind r c hr hc (inl (ground arith));
      text = clean.text;
      painted = clean.painted;
    }

other_row :
    (f : Fb) (row col ch r c : ℕ)
    → (row + 1 < r) ⊎ ((r ≡ row + 1) × (0 ≤ c))
    → write2 f.screen_buf row col ch r c ≡ f.screen_buf r c
unfolding write2
other_row f row col ch r c after = ground arith

-- A line of text in the row before the cursor's.
pub write_loop-Clean :
    (text : Bytes) (fg bg row col : ℕ) (f : Fb)
    → AreBytes text
    → Fits f
    → row < f.rows
    → Clean fg bg (next_line row f)
    → Clean fg bg (next_line row (write_loop text row col fg bg f))
unfolding write_loop
write_loop-Clean [] fg bg row col f ok fits on clean = clean
write_loop-Clean (ch ∷ text) fg bg row col f (small, ok) fits on clean =
    elim (Bool-cases (not (ch == 0) && ltb col f.cols)) [
      | inr end ↦ rw end clean
      | inl more ↦
          let char : (0 < ch) × (ch < 256) = (ground arith, small) in
          let room : col < f.cols = ground arith in
          let drawn = fb_draw_char col row ch f.theme_fg f.theme_bg f in
          let (same, painted, bytes) =
            fb_draw_char-Painted f col row ch fits clean.canvas on room char in
          let colors : fb_draw_char col row ch fg bg f ≡ drawn =
            rw (clean.colored, clean.ground_color) refl in
          let (framed, align, _) = clean.canvas in
          let inside : Clean fg bg (next_line row (inked col row ch drawn.mem f)) = record {
            fits = clean.fits;
            canvas = (framed, align, bytes);
            colored = clean.colored;
            ground_color = clean.ground_color;
            edge = inr refl;
            behind =
                λ r c hr hc after. other_row f row col ch r c after ∙ clean.behind r c hr hc after;
            text = inked-ByteText f col row ch drawn.mem clean.text char.1;
            painted =
                drawn-Pictured bg row col f (inked col row ch drawn.mem f) clean.ground_color
                  painted clean.painted;
          } in
          rw more (
            subst (λ g. Clean fg bg (next_line row (write_loop text row (col + 1) fg bg g)))
              (sym (colors ∙ same))
              (write_loop-Clean text fg bg row (col + 1) (inked col row ch drawn.mem f) ok fits on
                inside))
    ]
