-- ===== src/Str/Copy.antt =====
-- What `strcpy`, `strncpy` and `strlen` of kernel/string.c write and count.
use jordan_os.Base.{
  ℕ, zero, suc, ◌+◌, ◌^◌, ◌≤◌, ◌<◌, ◌≡◌, refl, none, some, [], ◌∷◌, ◌++◌, length, arith, ltb, inl,
  inr, Bool-cases, ltb→lt, ltb→le, if◌then◌else◌,
}
use jordan_os.Str.{Bytes, strcpy, strncpy, strlen, strlen_loop, IsText}

abbrev pub drop : ℕ → Bytes → Bytes
drop zero xs = xs
drop (suc n) [] = []
drop (suc n) (x ∷ xs) = drop n xs

abbrev pub take : ℕ → Bytes → Bytes
take zero xs = []
take (suc n) [] = []
take (suc n) (x ∷ xs) = x ∷ take n xs

-- The buffer after `a` and a terminator have been written at its start.
abbrev pub filled : Bytes → Bytes → Bytes
filled buf a = a ++ 0 ∷ drop (suc (length a)) buf

-- Into a buffer with room for the string and its terminator `strcpy` writes just these.
strcpy_fits :
    (buf a : Bytes) → IsText a → length a < length buf → strcpy buf a ≡ some (filled buf a)
unfolding strcpy
strcpy_fits [] a t h = absurd (omega arith)
strcpy_fits (y ∷ buf) [] t h = refl
strcpy_fits (y ∷ buf) (x ∷ a) ((pos, small), t) h = ground (arith, strcpy_fits buf a t)

-- Into any smaller buffer `strcpy` writes past the end.
strcpy_overflow : (buf a : Bytes) → IsText a → length buf ≤ length a → strcpy buf a ≡ none
unfolding strcpy
strcpy_overflow [] a t h = refl
strcpy_overflow (y ∷ buf) [] t h = absurd (omega arith)
strcpy_overflow (y ∷ buf) (x ∷ a) ((pos, small), t) h = ground (arith, strcpy_overflow buf a t)

-- `strcpy` of a byte string into a buffer with room for it and its terminator writes just these;
-- into any smaller buffer it writes past the end.
strcpy_lem :
    (buf a : Bytes)
    → IsText a
    → strcpy buf a ≡ (if ltb (length a) (length buf) then some (filled buf a) else none)
strcpy_lem buf a t = elim (Bool-cases (ltb (length a) (length buf))) [
  | inl room ↦ rw room (strcpy_fits buf a t (ltb→lt (length a) (length buf) room))
  | inr full ↦ rw full (strcpy_overflow buf a t (ltb→le (length a) (length buf) full))
]

-- `strncpy` writes the first `n` bytes of the string, all of it if it is shorter, and always a
-- terminator behind them, so that it may write `n + 1` bytes; with less room it writes past the
-- end.
strncpy_lem :
    (buf a : Bytes) (n : ℕ)
    → IsText a
    → strncpy buf a n
      ≡ (if ltb (length (take n a)) (length buf) then some (filled buf (take n a)) else none)
unfolding strncpy
strncpy_lem [] a n t = ground arith
strncpy_lem (y ∷ buf) [] zero t = ground arith
strncpy_lem (y ∷ buf) [] (suc n) t = ground arith
strncpy_lem (y ∷ buf) (x ∷ a) zero t = ground arith
strncpy_lem (y ∷ buf) (x ∷ a) (suc n) ((pos, small), t) = ground (arith, strncpy_lem buf a n t)

strlen_loop_lem :
    (a : Bytes) (count : ℕ)
    → IsText a
    → count + length a < 2 ^ 31
    → strlen_loop a count ≡ some (count + length a)
unfolding strlen_loop
strlen_loop_lem [] count t h = ground arith
strlen_loop_lem (x ∷ a) count ((pos, small), t) h = ground (arith, strlen_loop_lem a (count + 1) t)

-- `strlen` of a string shorter than 2^31 bytes is its length.
strlen_lem : (a : Bytes) → IsText a → length a < 2 ^ 31 → strlen a ≡ some (length a)
unfolding strlen
strlen_lem a t h = ground (arith, strlen_loop_lem a 0 t)
