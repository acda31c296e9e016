-- ===== src/Fb/Boxes.antt =====
-- Words in memory, colors, and boxes of pixels that grow row by row.
use jordan_os.Base.{
  ℕ, suc, ◌+◌, ◌-◌, ◌*◌, ◌/◌, ◌%◌, ◌^◌, ◌<◌, ◌≤◌, ◌≡◌, ◌⊎◌, ap, ◌∙◌, arith, inl, inr, Bool,
  Bool-cases, bit_or, ltb, leb, ◌==◌, ◌&&◌, if◌then◌else◌, eq_of_beq, ne_of_beq,
}
use native.Mathlib.Nat.{mul-le-mul_right}
use jordan_os.Base.Bits.{bit_and-byte, bit_or-add}
use jordan_os.Mem.{Mem, write, load32, store32}
use jordan_os.Fb.{Fb}
use jordan_os.Fb.Draw.{red, green, blue, pixel_at}

pub load32-store32 : (m : Mem) (a v : ℕ) → v < 2 ^ 32 → load32 (store32 m a v) a ≡ v
unfolding store32 write
load32-store32 m a v h = ground arith

pub load32-store32_apart :
    (m : Mem) (a b v : ℕ) → (a + 4 ≤ b) ⊎ (b + 4 ≤ a) → load32 (store32 m a v) b ≡ load32 m b
unfolding store32 write
load32-store32_apart m a b v (inl h) = ground arith
load32-store32_apart m a b v (inr h) = ground arith

-- The bytes of a color put together again.
pub color_whole :
    (color : ℕ)
    → color < 2 ^ 24
    → bit_or (bit_or (red color * 2 ^ 16) (green color * 2 ^ 8)) (blue color) ≡ color
color_whole color h =
    rw (bit_and-byte (color / 2 ^ 16), bit_and-byte (color / 2 ^ 8), bit_and-byte color)
      (ap (λ (x : ℕ). bit_or x (color % 2 ^ 8))
          (bit_or-add 16 (color / 2 ^ 16 % 2 ^ 8) (color / 2 ^ 8 % 2 ^ 8 * 2 ^ 8) (omega arith))
        ∙ ap (λ (x : ℕ). bit_or x (color % 2 ^ 8))
            (pair (color / 2 ^ 16 % 2 ^ 8) (color / 2 ^ 8 % 2 ^ 8))
        ∙ bit_or-add 8 (color / 2 ^ 16 % 2 ^ 8 * 2 ^ 8 + color / 2 ^ 8 % 2 ^ 8) (color % 2 ^ 8)
            (omega arith)
        ∙ omega arith)
  where
    pair : (a b : ℕ) → a * 2 ^ 16 + b * 2 ^ 8 ≡ (a * 2 ^ 8 + b) * 2 ^ 8
    pair a b = omega arith

-- A framebuffer of 32-bit pixels whose rows do not overlap, in 32 bits of offset.
abbrev pub Packed : Fb → Type 0
Packed f =
    (f.bpp ≡ 32) × (4 * f.width ≤ f.pitch) × (f.height * f.pitch < 2 ^ 32) × (f.height < 2 ^ 32)

-- A pixel's color.
abbrev pub pixel : Fb → Mem → ℕ → ℕ → ℕ
pixel f m x y = load32 m (pixel_at f x y)

pub row_below : (p y h : ℕ) → y < h → y * p + p ≤ h * p
row_below p y h lt = omega (arith, mul-le-mul_right p lt, mul-suc y p)
  where
    mul-suc : (y p : ℕ) → (suc y) * p ≡ y * p + p
    mul-suc y p = omega arith

-- A span of a row that grows by the cell behind it.
pub span_grows :
    (d : ℕ → ℕ) (n px q x y old v w to_x to_y : ℕ)
    → to_x ≡ px + n
    → to_y ≡ q
    → v ≡ (if leb px x && ltb x (px + n) && (y == q) then d (x - px) else old)
    → w ≡ (if (x == to_x) && (y == to_y) then d n else v)
    → w ≡ (if leb px x && ltb x (px + suc n) && (y == q) then d (x - px) else old)
span_grows d n px q x y old v w to_x to_y ex ey before now = elim (Bool-cases (x == px + n)) [
  | inl e ↦
      let same : x - px ≡ n = omega (arith, eq_of_beq x (px + n) e) in
      ground (arith, ap d same, eq_of_beq x (px + n) e)
  | inr ne ↦ ground (arith, ne_of_beq x (px + n) ne)
]

-- A box of rows that grows by the row behind it.
pub box_grows :
    (c : ℕ → ℕ → ℕ) (n k px py x y old v w : ℕ)
    → v ≡ (
        if leb px x && ltb x (px + n) && (leb py y && ltb y (py + k))
        then c (x - px) (y - py)
        else old)
    → w ≡ (if leb px x && ltb x (px + n) && (y == py + k) then c (x - px) k else v)
    → w ≡ (
        if leb px x && ltb x (px + n) && (leb py y && ltb y (py + suc k))
        then c (x - px) (y - py)
        else old)
box_grows c n k px py x y old v w before now = elim (Bool-cases (y == py + k)) [
  | inl e ↦
      let same : y - py ≡ k = omega (arith, eq_of_beq y (py + k) e) in
      ground (arith, ap (c (x - px)) same, eq_of_beq y (py + k) e)
  | inr ne ↦ ground (arith, ne_of_beq y (py + k) ne)
]

-- A span and a box of nothing.
pub span_zero :
    (px x old v : ℕ) (more : Bool) → old ≡ (if leb px x && ltb x (px + 0) && more then v else old)
span_zero px x old v more = ground arith

pub box_zero :
    (px n py x y old v : ℕ)
    → old ≡ (if leb px x && ltb x (px + n) && (leb py y && ltb y (py + 0)) then v else old)
box_zero px n py x y old v = ground arith
