-- ===== src/Digits/Examples.antt =====
-- Runs of the conversions, and the theorems at concrete numbers.
use jordan_os.Base.{◌≡◌, refl, some, [], ◌∷◌, length, arith, All}
use jordan_os.Str.{Bytes}
use jordan_os.Digits.{digit_loop, uint_to_str, int_to_str, addr_to_str}
use jordan_os.Digits.Decimal.{WritesInt, int_to_str_lem}
use jordan_os.Digits.Hex.{read_hex, IsLowerHex, addr_to_str_lem}

uint_to_str_run : uint_to_str 205 ≡ some (b'2' ∷ b'0' ∷ b'5' ∷ [])
unfolding uint_to_str digit_loop
uint_to_str_run = refl

int_to_str_lem_example : (s : Bytes) × (int_to_str 4294967254 ≡ some s) × WritesInt 4294967254 s
int_to_str_lem_example = int_to_str_lem 4294967254 (omega arith) (omega arith)

addr_to_str_lem_example :
    (s : Bytes) × (addr_to_str 48879 ≡ b'0' ∷ b'x' ∷ s)
    × (length s ≡ 16)
    × All IsLowerHex s
    × (read_hex 0 s ≡ 48879)
addr_to_str_lem_example = addr_to_str_lem 48879 (omega arith)
