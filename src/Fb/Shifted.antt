-- ===== src/Fb/Shifted.antt =====
-- The pixels behind `fb_scroll` (kernel/fb.c).
use jordan_os.Base.{
  ℕ, suc, ◌+◌, ◌-◌, ◌*◌, ◌/◌, ◌%◌, ◌^◌, ◌<◌, ◌≤◌, ◌≡◌, refl, ap, sym, ◌∙◌, arith, inl, inr,
  Bool-cases, u32, u64, ltb, leb, ◌&&◌, if◌then◌else◌, ltb→lt, ltb→le,
}
use native.Mathlib.Nat.{mul-le-mul_right, mul_assoc, add-mul}
use jordan_os.Mem.{Mem, load32, load64, store64}
use jordan_os.Fb.{Fb}
use jordan_os.Fb.Draw.{for_upto, pixel_at}
use jordan_os.Fb.Print.{shift_pixels}
use jordan_os.Fb.Boxes.{Packed, pixel, row_below}
use jordan_os.Fb.Pixels.{pixel_at-packed}
use jordan_os.Fb.Moved.{IsBytes, copied, cleared}

load32-at :
    (m m' : Mem) (a b : ℕ) → ((j : ℕ) → j < 4 → m' (a + j) ≡ m (b + j)) → load32 m' a ≡ load32 m b
load32-at m m' a b same =
    let zero_a : a + 0 ≡ a = omega arith in
    let zero_b : b + 0 ≡ b = omega arith in
    let three_a : a + 2 + 1 ≡ a + 3 = omega arith in
    let three_b : b + 2 + 1 ≡ b + 3 = omega arith in
    let first : m' a ≡ m b = rw (zero_a, zero_b) at (same 0 (omega arith)) in
    rw (three_a, three_b)
      (omega (arith, first, same 1 (omega arith), same 2 (omega arith), same 3 (omega arith)))

chosen :
    (d r q k t b v w old up : ℕ)
    → t ≡ 8 * k
    → r ≡ 8 * q
    → v ≡ (if leb d b && ltb b (d + 8 * k) then up else old)
    → w ≡ (if leb (d + 8 * k) b && ltb b (d + 8 * k + 8 * q) then 0 else v)
    → w ≡ (
        if leb d b && ltb b (d + t)
        then up
        else if leb (d + t) b && ltb b (d + t + r)
        then 0
        else old)
chosen d r q k t b v w old up et er copy fill = ground arith

-- The bytes behind the copy and the fill, for a text row of `r` bytes, `n` rows before the last.
shift_bytes :
    (f : Fb) (r q n b : ℕ)
    → IsBytes f.mem
    → f.glyph_h * f.pitch ≡ r
    → r ≡ 8 * q
    → f.rows ≡ suc n
    → n * r + r < 2 ^ 32
    → shift_pixels f b ≡ (
        if leb f.addr b && ltb b (f.addr + n * r)
        then f.mem (b + r)
        else if leb (f.addr + n * r) b && ltb b (f.addr + n * r + r)
        then 0
        else f.mem b)
unfolding shift_pixels
shift_bytes f r q n b bytes er eq rows small =
    let whole : u32 (f.glyph_h * f.pitch) ≡ r = omega arith in
    let last : f.rows - 1 ≡ n = omega arith in
    let eights : n * r ≡ 8 * (n * q) = ap (λ (x : ℕ). n * x) eq ∙ omega arith in
    let total : u64 (n * r) / 8 ≡ n * q = omega arith in
    let row : r / 8 ≡ q = omega arith in
    let moved : Mem =
      for_upto (n * q) (λ i m. store64 m (f.addr + 8 * i) (load64 m (f.addr + r + 8 * i))) f.mem in
    let copy = copied (n * q) f.addr (f.addr + r) f.mem b bytes (omega arith) in
    let up : f.addr + r - f.addr ≡ r = omega arith in
    let fill = cleared q f.addr (n * q) moved b in
    rw (whole, last, total, row)
      (chosen f.addr r q (n * q) (n * r) b (moved b) _ (f.mem b) (f.mem (b + r)) eights eq
        (rw up at copy) fill)

in_first :
    (v d t b up old : ℕ) → v ≡ (if leb d b && ltb b t then up else old) → d ≤ b → b < t → v ≡ up
in_first v d t b up old e lo hi = ground arith

in_second :
    (v d t u b up old : ℕ)
    → v ≡ (if leb d b && ltb b t then up else if leb t b && ltb b u then 0 else old)
    → t ≤ b
    → b < u
    → v ≡ 0
in_second v d t u b up old e lo hi = ground arith

-- `fb_scroll` moves every row of pixels up by a row of text, and makes the last one black.
pub shift_pixels-pixel :
    (f : Fb) (n x y : ℕ)
    → Packed f
    → f.pitch % 8 ≡ 0
    → IsBytes f.mem
    → f.rows ≡ suc n
    → f.rows * f.glyph_h ≤ f.height
    → x < f.width
    → y < f.rows * f.glyph_h
    → pixel f (shift_pixels f) x y
      ≡ (if ltb y (n * f.glyph_h) then pixel f f.mem x (y + f.glyph_h) else 0)
shift_pixels-pixel f n x y packed align bytes rows high hx hy =
    let r = f.glyph_h * f.pitch in
    let q = f.glyph_h * (f.pitch / 8) in
    let words : f.pitch ≡ 8 * (f.pitch / 8) = omega arith in
    let eq : r ≡ 8 * q = ap (λ (k : ℕ). f.glyph_h * k) words ∙ omega arith in
    let size : n * r ≡ n * f.glyph_h * f.pitch = sym (mul_assoc n f.glyph_h f.pitch) in
    let count : f.rows * f.glyph_h ≡ n * f.glyph_h + f.glyph_h =
      ap (λ (k : ℕ). k * f.glyph_h) rows ∙ omega arith in
    let below : (n * f.glyph_h + f.glyph_h) * f.pitch ≡ n * r + r =
      add-mul (n * f.glyph_h) f.glyph_h f.pitch ∙ omega arith in
    let total = mul-le-mul_right f.pitch (rw count at high) in
    let down : (y + f.glyph_h) * f.pitch ≡ y * f.pitch + r = add-mul y f.glyph_h f.pitch in
    let line = row_below f.pitch y (n * f.glyph_h + f.glyph_h) (rw count at hy) in
    let place = pixel_at-packed f packed x y hx (omega arith) in
    let byte =
      λ (b : ℕ). shift_bytes f r q n b bytes refl eq rows (omega (arith, packed, total, below)) in
    elim (Bool-cases (ltb y (n * f.glyph_h))) [
      | inl up ↦
          let here = row_below f.pitch y (n * f.glyph_h) (ltb→lt y (n * f.glyph_h) up) in
          let from =
            pixel_at-packed f packed x (y + f.glyph_h) hx
              (omega (arith, ltb→lt y (n * f.glyph_h) up)) in
          rw up (
            load32-at f.mem (shift_pixels f) (pixel_at f x y) (pixel_at f x (y + f.glyph_h)) λ j h.
              let b = pixel_at f x y + j in
              let there : b + r ≡ pixel_at f x (y + f.glyph_h) + j =
                omega (arith, place, from, down) in
              in_first (shift_pixels f b) f.addr (f.addr + n * r) b (f.mem (b + r)) _ (byte b)
                (omega (arith, place)) (omega (arith, place, packed, here, size))
              ∙ ap f.mem there)
      | inr last ↦
          let here = mul-le-mul_right f.pitch (ltb→le y (n * f.glyph_h) last) in
          rw last (
            load32-at (λ a. 0) (shift_pixels f) (pixel_at f x y) 0
              λ j h.
                let b = pixel_at f x y + j in
                in_second (shift_pixels f b) f.addr (f.addr + n * r) (f.addr + n * r + r) b
                  (f.mem (b + r)) _ (byte b) (omega (arith, place, here, size))
                  (omega (arith, place, packed, line, below, size)))
    ]
