-- ===== src/Shell/Words.antt =====
-- How the shell cuts a line into arguments.
use jordan_os.Base.{
  ℕ, zero, suc, ◌≡◌, ◌≢◌, ◌⊎◌, inl, inr, refl, ap, sym, ◌∙◌, arith, List, [], ◌∷◌, ◌++◌, ◌==◌,
  if◌then◌else◌, Bool-cases, ne_of_beq, beq_of_ne,
}
use mathlib.Core.Path.{subst}
use mathlib.Core.List.{append-nil, append_assoc}
use jordan_os.Str.{Bytes, IsText, next}
use jordan_os.Shell.{skip_spaces, word_at, past_word, split_args}

abbrev pub take : ℕ → List Bytes → List Bytes
take zero ws = []
take (suc n) [] = []
take (suc n) (w ∷ ws) = w ∷ take n ws

abbrev flush : Bytes → List Bytes → List Bytes
flush [] ws = ws
flush (c ∷ w) ws = (c ∷ w) ∷ ws

-- The words of a text that single spaces or more separate, with the word so far in front.
unfoldable pub words : Bytes → Bytes → List Bytes
words w [] = flush w []
words w (c ∷ p) =
    let cut = words [] p in
    let more = words (w ++ c ∷ []) p in if c == b' ' then flush w cut else more

words-skip_spaces : (p : Bytes) → words [] (skip_spaces p) ≡ words [] p
unfolding words skip_spaces
words-skip_spaces [] = refl
words-skip_spaces (c ∷ p) = elim (Bool-cases (c == b' ')) [
  | inl space ↦ rw space (words-skip_spaces p)
  | inr other ↦ rw other (rw other refl)
]

-- A word that has begun goes up to the next space.
words-word_at :
    (x : ℕ) (w p : Bytes)
    → IsText p
    → words (x ∷ w) p ≡ (x ∷ w ++ word_at p) ∷ words [] (next (past_word p))
unfolding words word_at past_word
words-word_at x w [] ok = rw (append-nil w) refl
words-word_at x w (c ∷ p) ((pos, small), ok) = elim (Bool-cases (c == b' ')) [
  | inl space ↦ rw (space, beq_of_ne c 0 (omega arith), append-nil w) refl
  | inr other ↦
      rw (other, beq_of_ne c 0 (omega arith))
        (words-word_at x (w ++ c ∷ []) p ok
          ∙ ap (λ t. (x ∷ t) ∷ words [] (next (past_word p))) (append_assoc w (c ∷ []) (word_at p)))
]

skip_spaces-All : (p : Bytes) → IsText p → IsText (skip_spaces p)
unfolding skip_spaces
skip_spaces-All [] ok = tt
skip_spaces-All (c ∷ p) (h, ok) = elim (Bool-cases (c == b' ')) [
  | inl space ↦ rw space (skip_spaces-All p ok)
  | inr other ↦ rw other (h, ok)
]

past_word-All : (p : Bytes) → IsText p → IsText (next (past_word p))
unfolding past_word
past_word-All [] ok = tt
past_word-All (c ∷ p) ((pos, small), ok) = elim (Bool-cases (c == b' ')) [
  | inl space ↦ rw (space, beq_of_ne c 0 (omega arith)) ok
  | inr other ↦ rw (other, beq_of_ne c 0 (omega arith)) (past_word-All p ok)
]

-- What follows the spaces is nothing or a word.
skip_spaces-cases :
    (p : Bytes)
    → (skip_spaces p ≡ []) ⊎ ((c : ℕ) × (q : Bytes) × (skip_spaces p ≡ c ∷ q) × (c ≢ b' '))
unfolding skip_spaces
skip_spaces-cases [] = inl refl
skip_spaces-cases (c ∷ p) = elim (Bool-cases (c == b' ')) [
  | inl space ↦ rw space (skip_spaces-cases p)
  | inr other ↦ rw other (inr (c, p, refl, ne_of_beq c b' ' other))
]

-- A word at the front is the first of the words.
words-cons :
    (c : ℕ) (q : Bytes)
    → IsText (c ∷ q)
    → c ≢ b' '
    → words [] (c ∷ q) ≡ word_at (c ∷ q) ∷ words [] (next (past_word (c ∷ q)))
unfolding words word_at past_word
words-cons c q ((pos, small), ok) ne =
    rw (beq_of_ne c b' ' ne, beq_of_ne c 0 (omega arith)) (words-word_at c [] q ok)

-- The arguments of a byte string are its words between spaces, as far as they fit.
pub split_args_lem : (n : ℕ) (p : Bytes) → IsText p → split_args n p ≡ take n (words [] p)
unfolding split_args
split_args_lem zero p ok = refl
split_args_lem (suc n) [] ok = unfold words in refl
split_args_lem (suc n) (d ∷ p) ok = elim (skip_spaces-cases (d ∷ p)) [
  | inl e ↦
      let none_left : words [] (d ∷ p) ≡ [] =
        sym (words-skip_spaces (d ∷ p)) ∙ ap (words []) e ∙ unfold words in refl in
      rw (e, none_left) (elim (Bool-cases (d == 0)) [ inl t ↦ rw t refl | inr f ↦ rw f refl ])
  | inr (c, q, e, ne) ↦
      let ok' : IsText (c ∷ q) = subst IsText e (skip_spaces-All (d ∷ p) ok) in
      let first = sym (words-skip_spaces (d ∷ p)) ∙ ap (words []) e ∙ words-cons c q ok' ne in
      rw (e, first, beq_of_ne d 0 (omega (arith, ok.0)), beq_of_ne c 0 (omega (arith, ok'.0)))
        (ap (λ t. word_at (c ∷ q) ∷ t)
          (split_args_lem n (next (past_word (c ∷ q))) (past_word-All (c ∷ q) ok')))
]
