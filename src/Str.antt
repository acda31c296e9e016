-- ===== src/Str.antt =====
-- The string functions of kernel/string.c. A C string is the list of its bytes up to the
-- terminator, which reading at the end of the list gives; a byte 0 inside the list ends it too. An
-- `int` is its 32-bit pattern. A buffer is the list of its bytes, and a write past its end is a
-- fault, `none`.
pub mod Compare
pub mod Copy
mod Examples
use Prim.Native.Char.{code}
use Prim.Native.String.{String}
use jordan_os.Base.{
  ℕ, zero, suc, ◌+◌, ◌-◌, ◌^◌, ◌%◌, ◌<◌, ◌≢◌, ◌&&◌, Option, none, some, List, [], ◌∷◌, All, ltb,
  not, ◌==◌, if◌then◌else◌, ◌>>=◌,
}

abbrev pub Bytes : Type 0
Bytes = List ℕ

-- `*a` and `a + 1`
abbrev pub front : Bytes → ℕ
front [] = 0
front (c ∷ a) = c

abbrev pub next : Bytes → Bytes
next [] = []
next (c ∷ a) = a

-- A `char` is signed: its value as an `int`.
abbrev pub int_of_char : ℕ → ℕ
int_of_char c = if ltb c 128 then c else c + (2 ^ 32 - 2 ^ 8)

-- `*a - *b`
abbrev pub difference : ℕ → ℕ → ℕ
difference x y = (int_of_char x + 2 ^ 32 - int_of_char y) % 2 ^ 32

unfoldable pub strcmp : Bytes → Bytes → ℕ
strcmp [] b = difference 0 (front b)
strcmp (x ∷ a) b =
    let rest = strcmp a (next b) in
    if not (x == 0) && (x == front b) then rest else difference x (front b)

-- `n` is the `int` when it is not negative; with a negative one no round is made, as with 0.
unfoldable pub strncmp : Bytes → Bytes → ℕ → ℕ
strncmp [] b n = difference 0 (front b)
strncmp (x ∷ a) b n =
    let rest = strncmp a (next b) (n - 1) in
    if not (x == 0) && (x == front b) && ltb 0 n then rest else difference x (front b)

-- `count` is an `int`; at 2^31 - 1 its increment overflows, which is a fault.
unfoldable pub strlen_loop : Bytes → ℕ → Option ℕ
strlen_loop [] count = some count
strlen_loop (x ∷ a) count =
    let rest = strlen_loop a (count + 1) in
    if x == 0 then some count else if ltb (count + 1) (2 ^ 31) then rest else none

unfoldable pub strlen : Bytes → Option ℕ
unfolding strlen_loop
strlen a = strlen_loop a 0

-- The bytes of the buffer from `buf` on.
unfoldable pub strcpy : Bytes → Bytes → Option Bytes
strcpy [] a = none
strcpy (y ∷ buf) [] = some (0 ∷ buf)
strcpy (y ∷ buf) (x ∷ a) =
    let rest = strcpy buf a in if x == 0 then some (0 ∷ buf) else (do r ← rest; some (x ∷ r))

unfoldable pub strncpy : Bytes → Bytes → ℕ → Option Bytes
strncpy [] a n = none
strncpy (y ∷ buf) [] n = some (0 ∷ buf)
strncpy (y ∷ buf) (x ∷ a) n =
    let rest = strncpy buf a (n - 1) in
    if not (x == 0) && ltb 0 n then (do r ← rest; some (x ∷ r)) else some (0 ∷ buf)

-- The bytes of an ASCII text.
abbrev pub bytes : String → Bytes
bytes String.[] = []
bytes (String.◌∷◌ c s) = code c ∷ bytes s

-- The bytes of an array from index `i` on, so many of them.
unfoldable pub array_text : ℕ → ℕ → (ℕ → ℕ) → Bytes
array_text zero i a = []
array_text (suc n) i a = a i ∷ array_text n (i + 1) a

-- A list of bytes.
abbrev pub AreBytes : Bytes → Type 0
AreBytes = All (λ c. c < 256)

-- A byte string without a terminator inside.
abbrev pub IsText : Bytes → Type 0
IsText = All (λ c. (0 < c) × (c < 256))
