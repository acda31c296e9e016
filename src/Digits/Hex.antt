-- ===== src/Digits/Hex.antt =====
-- Hexadecimal texts read back as the number that they were made of.
use jordan_os.Base.{
  ℕ, zero, suc, ◌+◌, ◌-◌, ◌*◌, ◌/◌, ◌%◌, ◌^◌, ◌<◌, ◌≡◌, refl, ap, ◌∙◌, [], ◌∷◌, length, arith, ltb,
  if◌then◌else◌, ◌≤◌, ◌⊎◌, inl, inr, All, leb, ◌&&◌, Bool-cases,
}
use native.Mathlib.Nat.{pow-suc}
use jordan_os.Str.{Bytes}
use jordan_os.Digits.{hex_loop, uint_to_hex, addr_to_str, upper_digit, lower_digit}

-- The value of a hexadecimal digit of either case; a byte that is none counts as 16.
abbrev pub digit_value : ℕ → ℕ
digit_value c =
    if leb b'0' c && leb c b'9'
    then c - b'0'
    else if leb b'A' c && leb c b'F'
    then c - b'A' + 10
    else if leb b'a' c && leb c b'f'
    then c - b'a' + 10
    else 16

-- A hexadecimal digit with small letters.
abbrev pub IsLowerHex : ℕ → Type 0
IsLowerHex c = ((b'0' ≤ c) × (c ≤ b'9')) ⊎ ((b'a' ≤ c) × (c ≤ b'f'))

lower_digit-IsLowerHex : (d : ℕ) → d < 16 → IsLowerHex (lower_digit d)
lower_digit-IsLowerHex d h = elim (Bool-cases (ltb d 10)) [
  | inl low ↦ rw low (inl (ground arith))
  | inr high ↦ rw high (inr (ground arith))
]

-- A loop whose digits all have a property leaves them in front.
hex_loop-All :
    (P : ℕ → Type 0) (digit : ℕ → ℕ)
    → ((d : ℕ) → d < 16 → P (digit d))
    → (left n : ℕ) (buf : Bytes) → All P buf
    → All P (hex_loop digit left n buf)
unfolding hex_loop
hex_loop-All P digit ok zero n buf all = all
hex_loop-All P digit ok (suc left) n buf all =
    hex_loop-All P digit ok left (n / 16) (digit (n % 16) ∷ buf) (ok (n % 16) (omega arith), all)

unfoldable pub read_hex : ℕ → Bytes → ℕ
read_hex acc [] = acc
read_hex acc (c ∷ s) = read_hex (acc * 16 + digit_value c) s

module _ (digit : ℕ → ℕ) (back : (d : ℕ) → d < 16 → digit_value (digit d) ≡ d) where
  read_hex-hex_loop :
      (left n : ℕ) (buf : Bytes)
      → n < 16 ^ left
      → read_hex 0 (hex_loop digit left n buf) ≡ read_hex n buf
  unfolding hex_loop read_hex
  read_hex-hex_loop zero n buf h = ap (λ m. read_hex m buf) {x = 0} {y = n} (omega arith)
  read_hex-hex_loop (suc left) n buf h =
      read_hex-hex_loop left (n / 16) (digit (n % 16) ∷ buf) (omega (arith, pow-suc 16 left))
      ∙ ap (λ m. read_hex m buf) {x = n / 16 * 16 + digit_value (digit (n % 16))} {y = n}
          (omega (arith, back (n % 16) (omega arith)))

length-hex_loop :
    (digit : ℕ → ℕ) (left n : ℕ) (buf : Bytes)
    → length (hex_loop digit left n buf) ≡ left + length buf
unfolding hex_loop
length-hex_loop digit zero n buf = omega arith
length-hex_loop digit (suc left) n buf =
    omega (arith, length-hex_loop digit left (n / 16) (digit (n % 16) ∷ buf))

-- `uint_to_hex` of a `uint32_t` is `0x` and eight digits of that value.
uint_to_hex_lem :
    (n : ℕ)
    → n < 2 ^ 32
    → (s : Bytes) × (uint_to_hex n ≡ b'0' ∷ b'x' ∷ s) × (length s ≡ 8) × (read_hex 0 s ≡ n)
unfolding uint_to_hex read_hex
uint_to_hex_lem n h = (
  hex_loop upper_digit 8 n [],
  refl,
  length-hex_loop upper_digit 8 n [],
  read_hex-hex_loop upper_digit (λ d b. ground arith) 8 n [] h,
)

-- `addr_to_str` of a `uint64_t` is `0x` and sixteen hexadecimal digits, with small letters, that
-- read back as that value.
pub addr_to_str_lem :
    (n : ℕ)
    → n < 2 ^ 64
    → (s : Bytes) × (addr_to_str n ≡ b'0' ∷ b'x' ∷ s)
      × (length s ≡ 16)
      × All IsLowerHex s
      × (read_hex 0 s ≡ n)
unfolding addr_to_str read_hex
addr_to_str_lem n h = (
  hex_loop lower_digit 16 n [],
  refl,
  length-hex_loop lower_digit 16 n [],
  hex_loop-All IsLowerHex lower_digit lower_digit-IsLowerHex 16 n [] tt,
  read_hex-hex_loop lower_digit (λ d b. ground arith) 16 n [] h,
)
