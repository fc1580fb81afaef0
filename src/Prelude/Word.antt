-- ===== src/Prelude/Word.antt =====
-- 64-bit machine words, as numbers below 2 ^ 64.
use Prim.Native.Nat.{ℕ, ◌+◌, ◌-◌, ◌*◌, ◌/◌, ◌%◌, ◌^◌}

abbrev pub u64_mod : ℕ
u64_mod = 2 ^ 64

-- u64::wrapping_add, wrapping_sub and wrapping_mul
abbrev pub wrapping_add : ℕ → ℕ → ℕ
wrapping_add a b = (a + b) % u64_mod

abbrev pub wrapping_sub : ℕ → ℕ → ℕ
wrapping_sub a b = (a + u64_mod - b) % u64_mod

abbrev pub wrapping_mul : ℕ → ℕ → ℕ
wrapping_mul a b = a * b % u64_mod

-- x << k and x >> k
abbrev pub shift_left : ℕ → ℕ → ℕ
shift_left x k = x * 2 ^ k % u64_mod

abbrev pub shift_right : ℕ → ℕ → ℕ
shift_right x k = x / 2 ^ k

-- u64::rotate_left, for 0 < k < 64
abbrev pub rotate_left : ℕ → ℕ → ℕ
rotate_left x k = shift_left x k + shift_right x (64 - k)
