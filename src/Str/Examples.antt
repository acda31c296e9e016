-- ===== src/Str/Examples.antt =====
-- The theorems on strings at short texts.
use jordan_os.Base.{◌≡◌, ◌↔◌, [], ◌∷◌, arith}
use jordan_os.Str.{Bytes, strncmp}
use jordan_os.Str.Compare.{Agree, strncmp_iff}

abbrev mem : Bytes
mem = 109 ∷ 101 ∷ 109 ∷ []

abbrev men : Bytes
men = 109 ∷ 101 ∷ 110 ∷ []

strncmp_iff_example : (strncmp mem men 2 ≡ 0) ↔ Agree 3 mem men
strncmp_iff_example = strncmp_iff mem men 2 (omega arith) (omega arith)
