-- ===== src/Digits/Decimal.antt =====
-- Decimal texts read back as the number that they were made of.
use jordan_os.Base.{
  ℕ, zero, suc, ◌+◌, ◌-◌, ◌*◌, ◌/◌, ◌%◌, ◌^◌, ◌≤◌, ◌<◌, ◌≡◌, ◌≢◌, ◌⊎◌, inl, inr, refl, ap, ◌∙◌,
  some, [], ◌∷◌, ◌++◌, length, All, arith, ltb, leb, Bool-cases, beq_of_ne, ltb→lt, ltb→le, leb→le,
  leb→lt, u32,
}
use native.Mathlib.Nat.{pow-suc}
use jordan_os.Str.{Bytes}
use jordan_os.Digits.{digit_loop, uint_to_str, int_to_str, size_to_str}

-- The value of a decimal text behind digits of value `acc`.
unfoldable pub read_decimal : ℕ → Bytes → ℕ
read_decimal acc [] = acc
read_decimal acc (c ∷ s) = read_decimal (acc * 10 + (c - b'0')) s

abbrev pub IsDigits : Bytes → Type 0
IsDigits = All (λ c. (b'0' ≤ c) × (c ≤ b'9'))

-- Digits only, with this value behind nothing and no more than so many of them.
abbrev pub Writes : ℕ → ℕ → Bytes → Type 0
Writes n most s = IsDigits s × (read_decimal 0 s ≡ n) × (0 < length s) × (length s ≤ most)

digit_loop_lem :
    (room k n : ℕ) (tmp : Bytes)
    → k ≤ room
    → n < 10 ^ k
    → IsDigits tmp
    → (s : Bytes) × (digit_loop room n tmp ≡ some s)
      × IsDigits s
      × (read_decimal 0 s ≡ read_decimal n tmp)
      × (length s ≤ length tmp + k)
unfolding digit_loop read_decimal
digit_loop_lem zero k zero tmp r h d = (tmp, refl, d, refl, omega arith)
digit_loop_lem zero zero (suc n) tmp r h d = absurd (omega arith)
digit_loop_lem zero (suc k) (suc n) tmp r h d = absurd (omega arith)
digit_loop_lem (suc room) k zero tmp r h d = (tmp, refl, d, refl, omega arith)
digit_loop_lem (suc room) zero (suc n) tmp r h d = absurd (omega arith)
digit_loop_lem (suc room) (suc k) (suc n) tmp r h d =
    let c = b'0' + suc n % 10 in
    let (s, run, ds, value, hi) =
      digit_loop_lem room k (suc n / 10) (c ∷ tmp) (omega arith) (omega (arith, pow-suc 10 k))
        ((omega arith, omega arith), d) in
    let whole : suc n / 10 * 10 + (c - b'0') ≡ suc n = omega arith in
    (
      s,
      rw (beq_of_ne (suc n) 0 (omega arith)) run,
      ds,
      value ∙ ap (λ m. read_decimal m tmp) whole,
      omega arith,
    )

some_digit : (n : ℕ) (s : Bytes) → 0 < n → read_decimal 0 s ≡ n → 0 < length s
unfolding read_decimal
some_digit n [] pos e = absurd (omega arith)
some_digit n (c ∷ s) pos e = omega arith

-- The loop on a positive number below 10^k.
digits_of :
    (k n : ℕ)
    → k ≤ 11
    → 0 < n
    → n < 10 ^ k
    → (s : Bytes) × (digit_loop 11 n [] ≡ some s) × Writes n k s
digits_of k n r pos h =
    let (s, run, ds, value, hi) = digit_loop_lem 11 k n [] r h tt in
    let value' : read_decimal 0 s ≡ n = value ∙ unfold read_decimal in refl in
    (s, run, (ds, value', some_digit n s pos value', omega arith))

-- Below 10^k with k at most 11 `uint_to_str` stays inside `tmp`, and writes one to k decimal digits
-- (one for k = 0) of that value.
uint_to_str_below :
    (k n : ℕ) → 0 < k → k ≤ 11 → n < 10 ^ k → (s : Bytes) × (uint_to_str n ≡ some s) × Writes n k s
unfolding uint_to_str
uint_to_str_below k zero pos r h = (
  b'0' ∷ [],
  refl,
  (((omega arith, omega arith), tt), unfold read_decimal in refl, omega arith, omega arith),
)
uint_to_str_below k (suc n) pos r h =
    let (s, run, w) = digits_of k (suc n) r (omega arith) h in
    (s, rw (beq_of_ne (suc n) 0 (omega arith)) run, w)

-- `uint_to_str` of a `uint32_t` stays inside `tmp`, and writes one to ten decimal digits of that
-- value, so that eleven bytes hold them and the terminator.
uint_to_str_lem : (n : ℕ) → n < 2 ^ 32 → (s : Bytes) × (uint_to_str n ≡ some s) × Writes n 10 s
uint_to_str_lem n h = uint_to_str_below 10 n (omega arith) (omega arith) (omega arith)

-- What `int_to_str` writes for the `int` with this pattern: the digits of its value, behind a minus
-- sign if it is negative.
abbrev pub WritesInt : ℕ → Bytes → Type 0
WritesInt n s =
    ((n < 2 ^ 31) × Writes n 10 s)
    ⊎ ((t : Bytes) × (2 ^ 31 < n) × (s ≡ b'-' ∷ t) × Writes (2 ^ 32 - n) 10 t)

-- `int_to_str` of any `int` but the least one stays inside `tmp`, and writes its value in decimal,
-- at most ten digits behind a sign.
pub int_to_str_lem :
    (n : ℕ) → n < 2 ^ 32 → n ≢ 2 ^ 31 → (s : Bytes) × (int_to_str n ≡ some s) × WritesInt n s
unfolding int_to_str
int_to_str_lem zero h ne = (
  b'0' ∷ [],
  refl,
  inl (
    omega arith,
    (((omega arith, omega arith), tt), unfold read_decimal in refl, omega arith, omega arith),
  ),
)
int_to_str_lem (suc n) h ne = elim (Bool-cases (ltb (suc n) (2 ^ 31))) [
  | inl plus ↦
      let (s, run, w) = digits_of 10 (suc n) (omega arith) (omega arith) (omega arith) in
      (s, rw (beq_of_ne (suc n) 0 (omega arith), plus) run, inl (ltb→lt (suc n) (2 ^ 31) plus, w))
  | inr minus ↦
      let (s, run, w) =
        digits_of 10 (2 ^ 32 - suc n) (omega arith) (omega arith)
          (omega (arith, ltb→le (suc n) (2 ^ 31) minus)) in
      (
        b'-' ∷ s,
        rw (beq_of_ne (suc n) 0 (omega arith), minus, beq_of_ne (suc n) (2 ^ 31) ne, run) refl,
        inr (s, omega (arith, ltb→le (suc n) (2 ^ 31) minus), refl, w),
      )
]

-- What `size_to_str` writes: whole mebibytes, or whole kibibytes below one mebibyte.
abbrev pub WritesSize : ℕ → Bytes → Type 0
WritesSize kb s =
    ((t : Bytes) × (1024 ≤ kb) × (s ≡ t ++ b' ' ∷ b'M' ∷ b'B' ∷ []) × Writes (kb / 1024) 7 t)
    ⊎ ((t : Bytes) × (kb < 1024) × (s ≡ t ++ b' ' ∷ b'K' ∷ b'B' ∷ []) × Writes kb 4 t)

-- Below 4 TiB `size_to_str` writes at most seven digits and a unit, which with the terminator fit
-- eleven bytes: the size in whole mebibytes, or in whole kibibytes if it is below one mebibyte.
size_to_str_lem :
    (bytes : ℕ)
    → bytes < 2 ^ 42
    → (s : Bytes) × (size_to_str bytes ≡ some s) × WritesSize (bytes / 1024) s
unfolding size_to_str
size_to_str_lem bytes h =
    let cut : u32 (bytes / 1024) ≡ bytes / 1024 = omega arith in
    rw cut (elim (Bool-cases (leb 1024 (bytes / 1024))) [
      | inl large ↦
          let (t, run, w) =
            uint_to_str_below 7 (bytes / 1024 / 1024) (omega arith) (omega arith) (omega arith) in
          (
            t ++ b' ' ∷ b'M' ∷ b'B' ∷ [],
            rw (large, run) refl,
            inl (t, leb→le 1024 (bytes / 1024) large, refl, w),
          )
      | inr small ↦
          let (t, run, w) =
            uint_to_str_below 4 (bytes / 1024) (omega arith) (omega arith)
              (omega (arith, leb→lt 1024 (bytes / 1024) small)) in
          (
            t ++ b' ' ∷ b'K' ∷ b'B' ∷ [],
            rw (small, run) refl,
            inr (t, leb→lt 1024 (bytes / 1024) small, refl, w),
          )
    ])
