-- ===== src/Fb/Pictured.antt =====
-- Pictures of the text (kernel/fb.c) in which cells without a character have one of two colors.
use jordan_os.Base.{ℕ, ◌≡◌, sym}
use mathlib.Core.Path.{subst}
use jordan_os.Fb.{Fb}
use jordan_os.Fb.Draw.{write2}
use jordan_os.Fb.Picture.{Shades, write2-Shades, Painted}

-- Every cell shows its character; a cell without one has the background's color or is black.
abbrev pub Pictured : ℕ → Fb → Type 0
Pictured bg f = (blank : ℕ → ℕ → ℕ) × Shades bg blank × Painted blank f

pub marked-Shades :
    (bg row col color : ℕ) (blank : ℕ → ℕ → ℕ)
    → color ≡ bg
    → Shades bg blank
    → Shades bg (write2 blank row col color)
marked-Shades bg row col color blank same shades =
    subst (λ k. Shades bg (write2 blank row col k)) (sym same)
      (write2-Shades bg blank row col shades)

-- A cell is drawn, and blank ones have the background's color.
pub drawn-Pictured :
    (bg row col : ℕ) (f g : Fb)
    → f.theme_bg ≡ bg
    → ((blank : ℕ → ℕ → ℕ) → Painted blank f → Painted (write2 blank row col f.theme_bg) g)
    → Pictured bg f
    → Pictured bg g
drawn-Pictured bg row col f g same step (blank, shades, painted) = (
  write2 blank row col f.theme_bg,
  marked-Shades bg row col f.theme_bg blank same shades,
  step blank painted,
)
