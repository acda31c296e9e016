-- ===== src/Fb/Moved.antt =====
-- The copy with which `fb_scroll` (kernel/fb.c) moves the pixels, byte by byte.
use jordan_os.Base.{
  ℕ, zero, suc, ◌+◌, ◌-◌, ◌*◌, ◌/◌, ◌%◌, ◌^◌, ◌<◌, ◌≤◌, ◌≡◌, ◌⊎◌, refl, ap, sym, ◌∙◌, arith, inl,
  inr, true, false, Bool-cases, ltb, leb, ◌&&◌, if◌then◌else◌, ltb→lt, ltb→le, lt→ltb, le→leb,
}
use jordan_os.Mem.{Mem, write, load32, load64, store32, store64}
use jordan_os.Fb.Draw.{for_upto}

abbrev pub IsBytes : Mem → Type 0
IsBytes m = (a : ℕ) → m a < 2 ^ 8

store64_apart : (m : Mem) (a v b : ℕ) → (b < a) ⊎ (a + 8 ≤ b) → store64 m a v b ≡ m b
unfolding store64 store32 write
store64_apart m a v b (inl h) = ground arith
store64_apart m a v b (inr h) = ground arith

store64_zero : (m : Mem) (a k : ℕ) → k < 8 → store64 m a 0 (a + k) ≡ 0
unfolding store64 store32 write
store64_zero m a k h = ground arith

store32_apart : (m : Mem) (a v b : ℕ) → (b < a) ⊎ (a + 4 ≤ b) → store32 m a v b ≡ m b
unfolding store32 write
store32_apart m a v b (inl h) = ground arith
store32_apart m a v b (inr h) = ground arith

quad :
    (a b c d : ℕ)
    → a < 2 ^ 8
    → b < 2 ^ 8
    → c < 2 ^ 8
    → d < 2 ^ 8
    → let v = a + 2 ^ 8 * b + 2 ^ 16 * (c + 2 ^ 8 * d) in
      (v < 2 ^ 32)
      × ((v % 2 ^ 8 ≡ a)
          × (v / 2 ^ 8 % 2 ^ 8 ≡ b)
          × (v / 2 ^ 16 % 2 ^ 8 ≡ c)
          × (v / 2 ^ 24 % 2 ^ 8 ≡ d))
quad a b c d ha hb hc hd = (omega arith, (omega arith, omega arith, omega arith, omega arith))

store32_at :
    (m : Mem) (a v k : ℕ) (b : Mem)
    → k < 4
    → (v % 2 ^ 8 ≡ b 0)
      × (v / 2 ^ 8 % 2 ^ 8 ≡ b 1)
      × (v / 2 ^ 16 % 2 ^ 8 ≡ b 2)
      × (v / 2 ^ 24 % 2 ^ 8 ≡ b 3)
    → store32 m a v (a + k) ≡ b k
unfolding store32 write
store32_at m a v zero b h (b0, b1, b2, b3) = ground arith
store32_at m a v (suc zero) b h (b0, b1, b2, b3) = ground arith
store32_at m a v (suc (suc zero)) b h (b0, b1, b2, b3) = ground arith
store32_at m a v (suc (suc (suc zero))) b h (b0, b1, b2, b3) = ground arith
store32_at m a v (suc (suc (suc (suc k)))) b h bs = absurd (omega arith)

load32_parts :
    (m : Mem) (s : ℕ)
    → IsBytes m
    → (load32 m s < 2 ^ 32)
      × ((load32 m s % 2 ^ 8 ≡ m (s + 0))
          × (load32 m s / 2 ^ 8 % 2 ^ 8 ≡ m (s + 1))
          × (load32 m s / 2 ^ 16 % 2 ^ 8 ≡ m (s + 2))
          × (load32 m s / 2 ^ 24 % 2 ^ 8 ≡ m (s + 3)))
load32_parts m s bytes =
    let first : m (s + 0) ≡ m s = ap m (omega arith) in
    let last : m (s + 2 + 1) ≡ m (s + 3) = ap m (omega arith) in
    rw (first, last)
      (quad (m s) (m (s + 1)) (m (s + 2)) (m (s + 3)) (bytes s) (bytes (s + 1)) (bytes (s + 2))
        (bytes (s + 3)))

store32-load32 :
    (m m' : Mem) (a s k v : ℕ)
    → IsBytes m
    → k < 4
    → v ≡ load32 m s
    → store32 m' a v (a + k) ≡ m (s + k)
store32-load32 m m' a s k v bytes h e =
    rw e (store32_at m' a (load32 m s) k (λ i. m (s + i)) h (load32_parts m s bytes).1)

-- Eight bytes are copied.
store64-load64 :
    (m m' : Mem) (a s k : ℕ) → IsBytes m → k < 8 → store64 m' a (load64 m s) (a + k) ≡ m (s + k)
unfolding store64
store64-load64 m m' a s k bytes h =
    let (small, _) = load32_parts m s bytes in
    let (small', _) = load32_parts m (s + 4) bytes in
    let (low, high) = halves (load32 m s) (load32 m (s + 4)) small small' in
    elim (Bool-cases (ltb k 4)) [
      | inl lt ↦
          store32_apart _ (a + 4) _ (a + k) (inl (omega (arith, ltb→lt k 4 lt)))
          ∙ store32-load32 m m' a s k _ bytes (ltb→lt k 4 lt) low
      | inr ge ↦
          let le = ltb→le k 4 ge in
          let there : a + k ≡ a + 4 + (k - 4) = omega arith in
          let from : s + 4 + (k - 4) ≡ s + k = omega arith in
          rw there (store32-load32 m _ (a + 4) (s + 4) (k - 4) _ bytes (omega arith) high)
          ∙ ap m from
    ]
  where
    halves :
        (l h : ℕ)
        → l < 2 ^ 32
        → h < 2 ^ 32
        → ((l + 2 ^ 32 * h) % 2 ^ 32 ≡ l) × ((l + 2 ^ 32 * h) / 2 ^ 32 % 2 ^ 32 ≡ h)
    halves l h hl hh = (omega arith, omega arith)

load64-from : (m m' : Mem) (a : ℕ) → ((b : ℕ) → a ≤ b → m' b ≡ m b) → load64 m' a ≡ load64 m a
load64-from m m' a same = omega (
  arith,
  same a (omega arith),
  same (a + 1) (omega arith),
  same (a + 2) (omega arith),
  same (a + 2 + 1) (omega arith),
  same (a + 4) (omega arith),
  same (a + 4 + 1) (omega arith),
  same (a + 4 + 2) (omega arith),
  same (a + 4 + 2 + 1) (omega arith),
)

-- The state of the copy after `n` rounds.
beyond :
    (n d s : ℕ) (m : Mem) (b : ℕ)
    → d + 8 * n ≤ b
    → for_upto n (λ i m. store64 m (d + 8 * i) (load64 m (s + 8 * i))) m b ≡ m b
unfolding for_upto
beyond zero d s m b h = refl
beyond (suc n) d s m b h =
    store64_apart _ (d + 8 * n) _ b (inr (omega arith)) ∙ beyond n d s m b (omega arith)

pub copied :
    (n d s : ℕ) (m : Mem) (b : ℕ)
    → IsBytes m
    → d ≤ s
    → for_upto n (λ i m. store64 m (d + 8 * i) (load64 m (s + 8 * i))) m b
      ≡ (if leb d b && ltb b (d + 8 * n) then m (b + (s - d)) else m b)
unfolding for_upto
copied zero d s m b bytes le = ground arith
copied (suc n) d s m b bytes le =
    let before : Mem = for_upto n (λ i m. store64 m (d + 8 * i) (load64 m (s + 8 * i))) m in
    let far = λ (x : ℕ) (h : s + 8 * n ≤ x). beyond n d s m x (omega arith) in
    let word = load64-from m before (s + 8 * n) far in
    elim (Bool-cases (leb (d + 8 * n) b && ltb b (d + 8 * n + 8))) [
      | inl here ↦
          let (lo, hi) = within here in
          let there : d + 8 * n + (b - (d + 8 * n)) ≡ b = omega arith in
          let from : s + 8 * n + (b - (d + 8 * n)) ≡ b + (s - d) = omega arith in
          rw (word, le→leb d b (omega arith), lt→ltb b (d + 8 * suc n) (omega arith))
            (ap (store64 before (d + 8 * n) (load64 m (s + 8 * n))) (sym there)
              ∙ store64-load64 m before (d + 8 * n) (s + 8 * n) (b - (d + 8 * n)) bytes
                  (omega arith)
              ∙ ap m from)
      | inr other ↦
          store64_apart before (d + 8 * n) _ b (ground arith)
          ∙ copied n d s m b bytes le
          ∙ ap (λ t. if t then m (b + (s - d)) else m b) (same_test other)
    ]
  where
    within :
        (leb (d + 8 * n) b && ltb b (d + 8 * n + 8)) ≡ true → (d + 8 * n ≤ b) × (b < d + 8 * n + 8)
    within h = ground arith

    same_test :
        (leb (d + 8 * n) b && ltb b (d + 8 * n + 8)) ≡ false
        → (leb d b && ltb b (d + 8 * n)) ≡ (leb d b && ltb b (d + 8 * suc n))
    same_test h = ground arith

-- The fill behind the copy.
pub cleared :
    (n d k : ℕ) (m : Mem) (b : ℕ)
    → for_upto n (λ i m. store64 m (d + 8 * (k + i)) 0) m b
      ≡ (if leb (d + 8 * k) b && ltb b (d + 8 * k + 8 * n) then 0 else m b)
unfolding for_upto
cleared zero d k m b = ground arith
cleared (suc n) d k m b =
    let before : Mem = for_upto n (λ i m. store64 m (d + 8 * (k + i)) 0) m in
    let rest = cleared n d k m b in
    elim (Bool-cases (leb (d + 8 * (k + n)) b && ltb b (d + 8 * (k + n) + 8))) [
      | inl here ↦
          let there : d + 8 * (k + n) + (b - (d + 8 * (k + n))) ≡ b = ground arith in
          let small : b - (d + 8 * (k + n)) < 8 = ground arith in
          let zeroed =
            ap (store64 before (d + 8 * (k + n)) 0) (sym there)
            ∙ store64_zero before (d + 8 * (k + n)) (b - (d + 8 * (k + n))) small in
          ground arith
      | inr other ↦
          let kept = store64_apart before (d + 8 * (k + n)) 0 b (ground arith) in ground arith
    ]
