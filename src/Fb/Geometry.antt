-- ===== src/Fb/Geometry.antt =====
-- The character grid that `fb_init` lays over the screen of the boot loader.
use jordan_os.Base.{
  ℕ, ◌+◌, ◌*◌, ◌/◌, ◌^◌, ◌<◌, ◌≤◌, ◌≡◌, ◌≢◌, refl, arith, inl, inr, Bool-cases, u32, ltb, some,
  List, length, if◌then◌else◌, ltb→lt, ltb→le, beq_of_ne,
}
use native.Mathlib.Nat.{div-le_of_le-mul, le-div_iff_mul-le}
use jordan_os.Mem.{Mem, load32}
use jordan_os.Multiboot.{tag_fb}
use jordan_os.Multiboot.Tags.{TagsAt, first_tag, find_tag_lem}
use jordan_os.Fb.{Fb, set_geometry, fb_init}
use jordan_os.Fb.Tape.{Fits}

-- A cell's width.
abbrev pub glyph : ℕ → ℕ
glyph width = if ltb (width / 96) 8 then 8 else width / 96

pub glyph_bounds :
    (width : ℕ)
    → 8 ≤ width
    → width < 2 ^ 32
    → (0 < glyph width)
      × (glyph width ≤ width)
      × (width ≤ glyph width * 128)
      × (glyph width < 2 ^ 26)
glyph_bounds width pos small = elim (Bool-cases (ltb (width / 96) 8)) [
  | inl e ↦
      let lt = ltb→lt (width / 96) 8 e in rw e (omega arith, omega arith, omega arith, omega arith)
  | inr e ↦
      let le = ltb→le (width / 96) 8 e in rw e (omega arith, omega arith, omega arith, omega arith)
]

-- The part that is used of a division, with a name for the divisor.
grid :
    (width height w : ℕ)
    → 0 < w
    → w ≤ width
    → width ≤ w * 128
    → w < 2 ^ 26
    → height ≤ width
    → 2 * w ≤ height
    → (0 < width / w) × (width / w ≤ 128) × (0 < height / u32 (w * 2)) × (height / u32 (w * 2) ≤ 64)
grid width height w pos le wide small flat tall =
    let twice : u32 (w * 2) ≡ w * 2 = omega arith in
    (
      (le-div_iff_mul-le {x = 1} {y = width} pos).1 (omega arith),
      div-le_of_le-mul w (omega arith),
      rw twice ((le-div_iff_mul-le {k = w * 2} {x = 1} {y = height} (omega arith)).1 (omega arith)),
      rw twice (div-le_of_le-mul (w * 2) (omega arith)),
    )

-- A framebuffer tag for a screen of at least one character that is no higher than wide.
abbrev pub Landscape : Mem → ℕ → Type 0
Landscape m tag =
    (8 ≤ load32 m (tag + 20))
    × (load32 m (tag + 24) ≤ load32 m (tag + 20))
    × (2 * glyph (load32 m (tag + 20)) ≤ load32 m (tag + 24))

set_geometry-Fits :
    (tag : ℕ) (f : Fb)
    → ((a : ℕ) → f.mem a < 2 ^ 8)
    → f.cur_col ≡ 0
    → f.cur_row ≡ 0
    → Landscape f.mem tag
    → Fits (set_geometry tag f)
unfolding set_geometry
set_geometry-Fits tag f bytes col row (pos, flat, tall) =
    let width = load32 f.mem (tag + 20) in
    let height = load32 f.mem (tag + 24) in
    let small : width < 2 ^ 32 =
      omega (arith, bytes (tag + 20), bytes (tag + 21), bytes (tag + 22), bytes (tag + 23)) in
    let (wp, wl, wide, wsmall) = glyph_bounds width pos small in
    let (c0, c1, r0, r1) = grid width height (glyph width) wp wl wide wsmall flat tall in
    rw (col, row) (c0, c1, r0, r1, c0, omega arith)

-- With memory of bytes, a framebuffer tag for a screen that is no higher than wide, at least 8
-- pixels wide and at least one character high, and the cursor at the start, `fb_init` ends with a
-- screen that has a cell and no more than the 128 columns and 64 rows that the copy of the screen
-- holds, with the cursor on it.
pub fb_init-Fits :
    (fuel mbi : ℕ) (f : Fb) (ts : List ℕ) (tag : ℕ)
    → TagsAt f.mem (mbi + 8) ts
    → length ts < fuel
    → first_tag f.mem (mbi + 8) ts tag_fb ≡ tag
    → tag ≢ 0
    → ((a : ℕ) → f.mem a < 2 ^ 8)
    → f.cur_col ≡ 0
    → f.cur_row ≡ 0
    → Landscape f.mem tag
    → (fb_init fuel mbi f ≡ some (set_geometry tag f)) × Fits (set_geometry tag f)
unfolding fb_init
fb_init-Fits fuel mbi f ts tag at enough found present bytes col row screen = (
  rw (find_tag_lem fuel f.mem mbi ts at enough tag_fb, found, beq_of_ne tag 0 present) refl,
  set_geometry-Fits tag f bytes col row screen,
)
