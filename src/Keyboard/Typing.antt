-- ===== src/Keyboard/Typing.antt =====
-- The array `line` of kernel/keyboard.c as a text.
use jordan_os.Base.{
  ℕ, zero, suc, ◌+◌, ◌-◌, ◌<◌, ◌≤◌, ◌≡◌, refl, ap, ◌∙◌, arith, [], ◌∷◌, ◌++◌, beq_of_ne,
}
use mathlib.Core.Path.{fun_ext}
use jordan_os.Mem.{write, write_self, write_ne}
use jordan_os.Str.{Bytes, IsText, array_text}
use jordan_os.Shell.{split_args, copy_line, shell_exec_args, shell_exec}

-- The array's text up to an index that lies behind it does not see a write there.
pub array_text-write :
    (n i : ℕ) (a : ℕ → ℕ) (j v : ℕ) → i + n ≤ j → array_text n i (write a j v) ≡ array_text n i a
unfolding array_text
array_text-write zero i a j v h = refl
array_text-write (suc n) i a j v h =
    rw (write_ne a j v i (omega arith))
      (ap (λ t. a i ∷ t) (array_text-write n (i + 1) a j v (omega arith)))

-- The text up to an index, the byte there, and the rest.
pub array_text-split :
    (n m t i : ℕ) (a : ℕ → ℕ)
    → t ≡ n + suc m
    → array_text t i a ≡ array_text n i a ++ a (i + n) ∷ array_text m (i + n + 1) a
unfolding array_text
array_text-split n m zero i a e = absurd (omega arith)
array_text-split zero m (suc t) i a e =
    let same : t ≡ m = omega arith in let here : i + 0 ≡ i = omega arith in rw (same, here) refl
array_text-split (suc n) m (suc t) i a e =
    let here : i + 1 + n ≡ i + suc n = omega arith in
    ap (λ s. a i ∷ s) (array_text-split n m t (i + 1) a (omega arith) ∙ rw here refl)

-- The shell takes a line as far as its terminator.
copy_line_terminated :
    (room : ℕ) (text rest : Bytes)
    → IsText text
    → copy_line room (text ++ 0 ∷ rest) ≡ copy_line room text
unfolding copy_line
copy_line_terminated zero [] rest ok = refl
copy_line_terminated zero (c ∷ text) rest ok = refl
copy_line_terminated (suc room) [] rest ok = refl
copy_line_terminated (suc room) (c ∷ text) rest ((pos, small), ok) =
    rw (beq_of_ne c 0 (omega arith)) (ap (λ t. c ∷ t) (copy_line_terminated room text rest ok))

pub shell_exec-array_text :
    (n : ℕ) (a : ℕ → ℕ) (text : Bytes)
    → n < 256
    → array_text n 0 a ≡ text
    → IsText text
    → shell_exec (array_text 256 0 (write a n 0)) ≡ shell_exec text
unfolding shell_exec
shell_exec-array_text n a text h e ok =
    let rest = array_text (255 - n) (0 + n + 1) (write a n 0) in
    let cut : array_text 256 0 (write a n 0) ≡ text ++ 0 ∷ rest =
      array_text-split n (255 - n) 256 0 (write a n 0) (omega arith)
      ∙ rw (array_text-write n 0 a n 0 (omega arith), e)
          (ap (λ c. text ++ c ∷ rest) (ap (write a n 0) (omega arith) ∙ write_self a n 0)) in
    fun_ext λ m.
      ap (λ line. shell_exec_args (split_args 16 line) m)
        (ap (copy_line 255) cut ∙ copy_line_terminated 255 text rest ok)
