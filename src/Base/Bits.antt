-- ===== src/Base/Bits.antt =====
-- `|` and `&` at variables, bit by bit: the libraries give only the native operations' meaning.
use jordan_os.Base.Tests.{◌==◌, holds_from, holds_from-at}
use Prim.Native.Nat.{ℕ, zero, suc, ◌+◌, ◌-◌, ◌*◌, ◌/◌, ◌%◌, ◌^◌, ◌≤◌, ◌<◌, min, max}
use Prim.Native.Nat.{bit_and, bit_or, digits, bit_and-bitwise, bit_or-bitwise}
use mathlib.Core.Path.{◌≡◌, refl, sym, ap, ◌∙◌}
use mathlib.Core.Bool.{Bool, true, ◌||◌}
use mathlib.Core.Logic.{◌≢◌}
use native.Mathlib.Nat.{le_refl, pow-suc, one-le-pow, zero-div, mul_comm, div-div-eq-div-mul}
use native.Mathlib.Omega.{arith}

-- Bit `k` of a word, as 0 or 1.
unfoldable pub bit_at : ℕ → ℕ → ℕ
bit_at zero w = w % 2
bit_at (suc k) w = bit_at k (w / 2)

pub bit_at-le : (k w : ℕ) → bit_at k w ≤ 1
unfolding bit_at
bit_at-le zero w = omega arith
bit_at-le (suc k) w = bit_at-le k (w / 2)

bit_at-zero : (k : ℕ) → bit_at k 0 ≡ 0
unfolding bit_at
bit_at-zero zero = refl
bit_at-zero (suc k) = bit_at-zero k

-- An operation on words that works bit by bit: `f` on single bits, `z` where the left word has run
-- out of digits.
module _ (z : ℕ → ℕ) (f : ℕ → ℕ → ℕ) (narrow : (x y : ℕ) → x ≤ 1 → y ≤ 1 → f x y ≤ 1)
    (tail : (j b : ℕ) → bit_at j (z b) ≡ f (bit_at j 0) (bit_at j b)) where
  bit_at-digits : (n j a b : ℕ) → a ≤ n → bit_at j (digits z f n a b) ≡ f (bit_at j a) (bit_at j b)
  unfolding bit_at
  bit_at-digits zero j zero b h = tail j b
  bit_at-digits zero j (suc a) b h = absurd (omega arith)
  bit_at-digits (suc n) j zero b h = tail j b
  bit_at-digits (suc n) zero (suc a) b h =
      omega (arith, narrow (suc a % 2) (b % 2) (omega arith) (omega arith))
  bit_at-digits (suc n) (suc j) (suc a) b h =
      let upper = digits z f n (suc a / 2) (b / 2) in
      let shift : (upper * 2 + f (suc a % 2) (b % 2)) / 2 ≡ upper =
        omega (arith, narrow (suc a % 2) (b % 2) (omega arith) (omega arith)) in
      rw shift (bit_at-digits n j (suc a / 2) (b / 2) (omega arith))

pub bit_at-bit_or : (k a b : ℕ) → bit_at k (bit_or a b) ≡ max (bit_at k a) (bit_at k b)
bit_at-bit_or k a b = rw bit_or-bitwise (
    bit_at-digits (λ y. y) max (λ x y p q. omega arith) (λ j c. omega (arith, bit_at-zero j)) a k a
      b (le_refl a))

pub bit_at-bit_and : (k a b : ℕ) → bit_at k (bit_and a b) ≡ min (bit_at k a) (bit_at k b)
bit_at-bit_and k a b = rw bit_and-bitwise (
    bit_at-digits (λ y. 0) min (λ x y p q. omega arith) (λ j c. omega (arith, bit_at-zero j)) a k a
      b (le_refl a))

pub bit_at-pow_self : (k : ℕ) → bit_at k (2 ^ k) ≡ 1
unfolding bit_at
bit_at-pow_self zero = refl
bit_at-pow_self (suc k) =
    let half : 2 ^ suc k / 2 ≡ 2 ^ k = omega (arith, pow-suc 2 k) in rw half (bit_at-pow_self k)

holds_below : (test : ℕ → Bool) (k : ℕ) → holds_from 0 32 test ≡ true → k < 32 → test k ≡ true
holds_below test k h hk = holds_from-at 0 32 test h k (omega arith) (omega arith)

-- A word with the one bit `k`, among the bits of a 32-bit word.
pow_table : holds_from 0 32 (λ j. holds_from 0 32 (λ k. (j == k) || (bit_at j (2 ^ k) == 0))) ≡ true
unfolding holds_from bit_at
pow_table = refl

mask_table :
    holds_from 0 32 (λ k. holds_from 0 32 (λ j. (j == k) || (bit_at j (2 ^ 32 - 1 - 2 ^ k) == 1)))
    ≡ true
unfolding holds_from bit_at
mask_table = refl

mask_self_table : holds_from 0 32 (λ k. bit_at k (2 ^ 32 - 1 - 2 ^ k) == 0) ≡ true
unfolding holds_from bit_at
mask_self_table = refl

module _ (j k : ℕ) (hj : j < 32) (hk : k < 32) where
  pub bit_at-pow_ne : j ≢ k → bit_at j (2 ^ k) ≡ 0
  bit_at-pow_ne ne = ground (
    arith,
    holds_below (λ k. (j == k) || (bit_at j (2 ^ k) == 0)) k,
    holds_below (λ j. holds_from 0 32 (λ k. (j == k) || (bit_at j (2 ^ k) == 0))) j pow_table hj,
  )

  pub bit_at-mask_ne : j ≢ k → bit_at j (2 ^ 32 - 1 - 2 ^ k) ≡ 1
  bit_at-mask_ne ne = ground (
    arith,
    holds_below (λ j. (j == k) || (bit_at j (2 ^ 32 - 1 - 2 ^ k) == 1)) j,
    holds_below (λ k. holds_from 0 32 (λ j. (j == k) || (bit_at j (2 ^ 32 - 1 - 2 ^ k) == 1))) k
        mask_table hk,
  )

pub bit_at-mask_self : (k : ℕ) → k < 32 → bit_at k (2 ^ 32 - 1 - 2 ^ k) ≡ 0
bit_at-mask_self k hk =
    ground (arith, holds_below (λ k. bit_at k (2 ^ 32 - 1 - 2 ^ k) == 0) k mask_self_table hk)

-- `w & (1 << k)`, digit by digit.
abbrev masked : ℕ → ℕ → ℕ → ℕ
masked = digits (λ y. 0) min

masked-zero : (n w : ℕ) → masked n w 0 ≡ 0
masked-zero zero w = refl
masked-zero (suc n) zero = refl
masked-zero (suc n) (suc w) = omega (arith, masked-zero n (suc w / 2))

masked-pow : (n k w : ℕ) → w ≤ n → masked n w (2 ^ k) ≡ bit_at k w * 2 ^ k
unfolding bit_at
masked-pow zero k zero h = rw bit_at-zero (omega arith)
masked-pow zero k (suc w) h = absurd (omega arith)
masked-pow (suc n) k zero h = rw bit_at-zero (omega arith)
masked-pow (suc n) zero (suc w) h = omega (arith, masked-zero n (suc w / 2))
masked-pow (suc n) (suc k) (suc w) h =
    let half : 2 ^ suc k / 2 ≡ 2 ^ k = omega (arith, pow-suc 2 k) in
    let even : 2 ^ suc k % 2 ≡ 0 = omega (arith, pow-suc 2 k) in
    let upper = masked-pow n k (suc w / 2) (omega arith) in
    rw (half, even, upper) (omega (arith, ap (λ (t : ℕ). bit_at k (suc w / 2) * t) (pow-suc 2 k)))

pub bit_and-pow : (k w : ℕ) → bit_and w (2 ^ k) ≡ bit_at k w * 2 ^ k
bit_and-pow k w = rw bit_and-bitwise (masked-pow w k w (le_refl w))

-- The low digits of a word, so many of them.
unfoldable pub low_bits : ℕ → ℕ → ℕ
low_bits zero w = 0
low_bits (suc k) w = low_bits k (w / 2) * 2 + w % 2

low_bits-zero : (k : ℕ) → low_bits k 0 ≡ 0
unfolding low_bits
low_bits-zero zero = refl
low_bits-zero (suc k) = omega (arith, low_bits-zero k)

masked-low : (n k w : ℕ) → w ≤ n → masked n w (2 ^ k - 1) ≡ low_bits k w
unfolding low_bits
masked-low n zero w h = masked-zero n w
masked-low zero (suc k) zero h = omega (arith, low_bits-zero k)
masked-low zero (suc k) (suc w) h = absurd (omega arith)
masked-low (suc n) (suc k) zero h = omega (arith, low_bits-zero k)
masked-low (suc n) (suc k) (suc w) h =
    let half : (2 ^ suc k - 1) / 2 ≡ 2 ^ k - 1 = omega (arith, pow-suc 2 k) in
    let odd : (2 ^ suc k - 1) % 2 ≡ 1 = omega (arith, pow-suc 2 k, one-le-pow k 2) in
    rw (half, odd, masked-low n k (suc w / 2) (omega arith)) (omega arith)

pub bit_and-low : (k w : ℕ) → bit_and w (2 ^ k - 1) ≡ low_bits k w
bit_and-low k w = rw bit_and-bitwise (masked-low w k w (le_refl w))

pub bit_and-byte : (w : ℕ) → bit_and w 0xFF ≡ w % 2 ^ 8
unfolding low_bits
bit_and-byte w = bit_and-low 8 w ∙ omega arith

pub low_bits-small : (k w : ℕ) → w < 2 ^ k → low_bits k w ≡ w
unfolding low_bits
low_bits-small zero w h = omega arith
low_bits-small (suc k) w h =
    omega (arith, low_bits-small k (w / 2) (omega (arith, pow-suc 2 k)), pow-suc 2 k)

masked-high :
    (n j k w : ℕ) → w ≤ n → masked n w ((2 ^ j - 1) * 2 ^ k) ≡ low_bits j (w / 2 ^ k) * 2 ^ k
masked-high n j zero w h =
    let one : (2 ^ j - 1) * 1 ≡ 2 ^ j - 1 = omega arith in
    let whole : w / 1 ≡ w = omega arith in rw (one, whole) (masked-low n j w h ∙ omega arith)
masked-high zero j (suc k) zero h = rw (zero-div (2 ^ suc k), low_bits-zero j) (omega arith)
masked-high zero j (suc k) (suc w) h = absurd (omega arith)
masked-high (suc n) j (suc k) zero h = rw (zero-div (2 ^ suc k), low_bits-zero j) (omega arith)
masked-high (suc n) j (suc k) (suc w) h =
    let t : ℕ = (2 ^ j - 1) * 2 ^ k in
    let twice : (2 ^ j - 1) * 2 ^ suc k ≡ t * 2 =
      omega (arith, ap (λ (q : ℕ). (2 ^ j - 1) * q) (pow-suc 2 k)) in
    let half : t * 2 / 2 ≡ t = omega arith in
    let even : t * 2 % 2 ≡ 0 = omega arith in
    let down : suc w / 2 ^ suc k ≡ suc w / 2 / 2 ^ k = rw (pow-suc 2 k) (
      ap (λ (q : ℕ). suc w / q) (mul_comm (2 ^ k) 2)
      ∙ sym (div-div-eq-div-mul (suc w) 2 (2 ^ k))) in
    rw (twice, half, even, masked-high n j k (suc w / 2) (omega arith), down)
      (omega (arith, ap (λ (q : ℕ). low_bits j (suc w / 2 / 2 ^ k) * q) (pow-suc 2 k)))

-- `w` with its low `k` bits cleared, in words of `j + k` bits.
pub bit_and-high :
    (j k w : ℕ) → w / 2 ^ k < 2 ^ j → bit_and w ((2 ^ j - 1) * 2 ^ k) ≡ w / 2 ^ k * 2 ^ k
bit_and-high j k w h =
    rw bit_and-bitwise
      (masked-high w j k w (le_refl w) ∙ ap (λ (q : ℕ). q * 2 ^ k) (low_bits-small j (w / 2 ^ k) h))

-- The digits of `a | b`.
abbrev joined : ℕ → ℕ → ℕ → ℕ
joined = digits (λ y. y) max

joined-zero : (n w : ℕ) → w ≤ n → joined n w 0 ≡ w
joined-zero zero zero h = refl
joined-zero zero (suc w) h = absurd (omega arith)
joined-zero (suc n) zero h = refl
joined-zero (suc n) (suc w) h = omega (arith, joined-zero n (suc w / 2) (omega arith))

joined-add : (n k a v b : ℕ) → v ≡ a * 2 ^ k → v ≤ n → b < 2 ^ k → joined n v b ≡ v + b
joined-add n zero a v b e h small =
    let none_left : b ≡ 0 = omega arith in rw none_left (joined-zero n v h ∙ omega arith)
joined-add zero (suc k) a zero b e h small = omega arith
joined-add zero (suc k) a (suc v) b e h small = absurd (omega arith)
joined-add (suc n) (suc k) a zero b e h small = omega arith
joined-add (suc n) (suc k) a (suc v) b e h small =
    let twice : suc v ≡ a * 2 ^ k * 2 = e ∙ omega (arith, ap (λ (q : ℕ). a * q) (pow-suc 2 k)) in
    let upper =
      joined-add n k a (suc v / 2) (b / 2) (omega arith) (omega arith)
        (omega (arith, pow-suc 2 k)) in
    omega arith

-- `|` of a multiple of 2^k and a number below 2^k adds them.
pub bit_or-add : (k a b : ℕ) → b < 2 ^ k → bit_or (a * 2 ^ k) b ≡ a * 2 ^ k + b
bit_or-add k a b h =
    rw bit_or-bitwise (joined-add (a * 2 ^ k) k a (a * 2 ^ k) b refl (le_refl (a * 2 ^ k)) h)
