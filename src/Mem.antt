-- ===== src/Mem.antt =====
-- Memory as bytes by address; wider values are read and written little endian, as on x86-64.
use jordan_os.Base.{ℕ, ◌+◌, ◌*◌, ◌^◌, ◌%◌, ◌/◌, ◌≡◌, ◌≢◌, arith, ◌==◌, if◌then◌else◌}

abbrev pub Mem : Type 0
Mem = ℕ → ℕ

-- A byte or a table entry is written at one index.
unfoldable pub write : (ℕ → ℕ) → ℕ → ℕ → ℕ → ℕ
write m a v b = if b == a then v else m b

pub write_self : (m : ℕ → ℕ) (a v : ℕ) → write m a v a ≡ v
unfolding write
write_self m a v = ground arith

pub write_ne : (m : ℕ → ℕ) (a v b : ℕ) → b ≢ a → write m a v b ≡ m b
unfolding write
write_ne m a v b ne = ground arith

abbrev pub load16 : Mem → ℕ → ℕ
load16 m a = m a + 2 ^ 8 * m (a + 1)

abbrev pub load32 : Mem → ℕ → ℕ
load32 m a = load16 m a + 2 ^ 16 * load16 m (a + 2)

abbrev pub load64 : Mem → ℕ → ℕ
load64 m a = load32 m a + 2 ^ 32 * load32 m (a + 4)

unfoldable pub store32 : Mem → ℕ → ℕ → Mem
unfolding write
store32 m a v =
    write
      (write (write (write m a (v % 2 ^ 8)) (a + 1) (v / 2 ^ 8 % 2 ^ 8)) (a + 2)
        (v / 2 ^ 16 % 2 ^ 8))
      (a + 3) (v / 2 ^ 24 % 2 ^ 8)

unfoldable pub store64 : Mem → ℕ → ℕ → Mem
store64 m a v = store32 (store32 m a (v % 2 ^ 32)) (a + 4) (v / 2 ^ 32 % 2 ^ 32)
