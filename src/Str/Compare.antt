-- ===== src/Str/Compare.antt =====
-- When `strcmp` and `strncmp` of kernel/string.c answer 0.
use native.Mathlib.Numerals.{add-one}
use jordan_os.Base.{ℕ, zero, suc, ◌+◌, ◌<◌, ◌≡◌, ◌↔◌, refl, [], ◌∷◌, arith, beq_of_ne}
use jordan_os.Str.{Bytes, front, next, difference, strcmp, strncmp, IsText}

difference_zero : (x y : ℕ) → x < 256 → y < 256 → difference x y ≡ 0 → x ≡ y
difference_zero x y hx hy e = ground arith

difference_self : (x : ℕ) → x < 256 → difference x x ≡ 0
difference_self x h = ground arith

front_small : (b : Bytes) → IsText b → front b < 256
front_small [] t = omega arith
front_small (c ∷ b) t = t.0.1

strcmp_same : (a b : Bytes) → IsText a → IsText b → strcmp a b ≡ 0 → a ≡ b
unfolding strcmp
strcmp_same [] [] ta tb e = refl
strcmp_same [] (y ∷ b) ta ((pos, small), tb) e =
    absurd (omega (arith, difference_zero 0 y (omega arith) small e))
strcmp_same (x ∷ a) [] ((pos, small), ta) tb e =
    let e' = rw (beq_of_ne x 0 (omega arith)) at e in
    absurd (omega (arith, difference_zero x 0 small (omega arith) e'))
strcmp_same (x ∷ a) (y ∷ b) ((pos, small), ta) ((pos', small'), tb) e =
    ground (arith, strcmp_same a b ta tb, difference_zero x y small small')

strcmp_self : (a : Bytes) → IsText a → strcmp a a ≡ 0
unfolding strcmp
strcmp_self [] ta = refl
strcmp_self (x ∷ a) ((pos, small), ta) = ground (arith, strcmp_self a ta)

-- On byte strings `strcmp` answers 0 exactly when they are the same.
strcmp_iff : (a b : Bytes) → IsText a → IsText b → (strcmp a b ≡ 0) ↔ (a ≡ b)
strcmp_iff a b ta tb = (strcmp_same a b ta tb, λ e. rw (← e) (strcmp_self a ta))

-- The first `n` bytes agree; the end of a string is a byte 0.
abbrev pub Agree : ℕ → Bytes → Bytes → Type 0
Agree zero a b = Unit
Agree (suc n) a b = (front a ≡ front b) × Agree n (next a) (next b)

Agree-nil : (n : ℕ) → Agree n [] []
Agree-nil zero = tt
Agree-nil (suc n) = (refl, Agree-nil n)

strncmp-Agree : (a b : Bytes) (n : ℕ) → IsText a → IsText b → strncmp a b n ≡ 0 → Agree (suc n) a b
unfolding strncmp
strncmp-Agree [] [] n ta tb e = (refl, Agree-nil n)
strncmp-Agree [] (y ∷ b) n ta ((pos, small), tb) e =
    absurd (omega (arith, difference_zero 0 y (omega arith) small e))
strncmp-Agree (x ∷ a) [] n ((pos, small), ta) tb e =
    let e' = rw (beq_of_ne x 0 (omega arith)) at e in
    absurd (omega (arith, difference_zero x 0 small (omega arith) e'))
strncmp-Agree (x ∷ a) (y ∷ b) zero ((pos, small), ta) ((pos', small'), tb) e =
    (ground (arith, difference_zero x y small small'), tt)
strncmp-Agree (x ∷ a) (y ∷ b) (suc n) ((pos, small), ta) ((pos', small'), tb) e =
    let same : x ≡ y = ground (arith, difference_zero x y small small') in
    (same, strncmp-Agree a b n ta tb (ground arith))

Agree-strncmp : (a b : Bytes) (n : ℕ) → IsText a → IsText b → Agree (suc n) a b → strncmp a b n ≡ 0
unfolding strncmp
Agree-strncmp [] b n ta tb (e, more) = rw (← e)
Agree-strncmp (x ∷ a) b zero ((pos, small), ta) tb (e, more) = rw (← e) (ground arith)
Agree-strncmp (x ∷ a) [] (suc n) ((pos, small), ta) tb (e, more) = absurd (omega arith)
Agree-strncmp (x ∷ a) (y ∷ b) (suc n) ((pos, small), ta) ((pos', small'), tb) (e, more) =
    ground (arith, Agree-strncmp a b n ta tb more)

-- On byte strings `strncmp` with `n` answers 0 exactly when the first `n + 1` bytes agree, the
-- terminator counted: one byte more than `n`.
pub strncmp_iff :
    (a b : Bytes) (n : ℕ) → IsText a → IsText b → (strncmp a b n ≡ 0) ↔ Agree (n + 1) a b
strncmp_iff a b n ta tb = rw add-one (strncmp-Agree a b n ta tb, Agree-strncmp a b n ta tb)
