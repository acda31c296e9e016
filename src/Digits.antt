-- ===== src/Digits.antt =====
-- Numbers as text: `uint_to_str`, `uint_to_hex` and `size_to_str` of kernel/memory.c, and
-- `int_to_str` and `addr_to_str` of kernel/fb.c. The result is the text written to `buf`, without
-- its terminator. A write past the eleven bytes of `tmp` is a fault, `none`.
pub mod Decimal
pub mod Hex
mod Examples
use jordan_os.Base.{
  ℕ, zero, suc, ◌+◌, ◌-◌, ◌*◌, ◌/◌, ◌%◌, ◌^◌, ◌<◌, Option, none, some, List, [], ◌∷◌, ◌++◌, ltb,
  leb, ◌==◌, if◌then◌else◌, u32, ◌>>=◌,
}
use jordan_os.Str.{Bytes}

-- `while (n > 0) { tmp[i++] = '0' + (n % 10); n /= 10; }` with room for so many more digits. `tmp`
-- is kept with its last byte first, the order in which the second loop copies it to `buf`.
unfoldable pub digit_loop : ℕ → ℕ → Bytes → Option Bytes
digit_loop zero n tmp = if n == 0 then some tmp else none
digit_loop (suc room) n tmp =
    let rest = digit_loop room (n / 10) ((b'0' + n % 10) ∷ tmp) in if n == 0 then some tmp else rest

unfoldable pub uint_to_str : ℕ → Option Bytes
uint_to_str n = if n == 0 then some (b'0' ∷ []) else digit_loop 11 n []

-- The `int` is its 32-bit pattern. Negating the least one overflows, which is a fault.
unfoldable pub int_to_str : ℕ → Option Bytes
int_to_str n =
    if n == 0
    then some (b'0' ∷ [])
    else if ltb n (2 ^ 31)
    then digit_loop 11 n []
    else if n == 2 ^ 31
    then none
    else (do s ← digit_loop 11 (2 ^ 32 - n) []; some (b'-' ∷ s))

-- `digits[d]`
abbrev pub upper_digit : ℕ → ℕ
upper_digit d = if ltb d 10 then b'0' + d else b'A' + d - 10

-- `nibble < 10 ? '0' + nibble : 'a' + nibble - 10`
abbrev pub lower_digit : ℕ → ℕ
lower_digit d = if ltb d 10 then b'0' + d else b'a' + d - 10

-- The loops of `uint_to_hex` and `addr_to_str` from the last digit to the first, by the digits
-- still to be written; `n & 0xF` and `n >>= 4`.
unfoldable pub hex_loop : (ℕ → ℕ) → ℕ → ℕ → Bytes → Bytes
hex_loop digit zero n buf = buf
hex_loop digit (suc left) n buf = hex_loop digit left (n / 16) (digit (n % 16) ∷ buf)

unfoldable pub uint_to_hex : ℕ → Bytes
unfolding hex_loop
uint_to_hex n = b'0' ∷ b'x' ∷ hex_loop upper_digit 8 n []

unfoldable pub addr_to_str : ℕ → Bytes
unfolding hex_loop
addr_to_str addr = b'0' ∷ b'x' ∷ hex_loop lower_digit 16 addr []

unfoldable pub size_to_str : ℕ → Option Bytes
size_to_str bytes =
    let kb = u32 (bytes / 1024) in
    if leb 1024 kb
    then (do num ← uint_to_str (kb / 1024); some (num ++ b' ' ∷ b'M' ∷ b'B' ∷ []))
    else (do num ← uint_to_str kb; some (num ++ b' ' ∷ b'K' ∷ b'B' ∷ []))
