-- ===== src/Common/Int.antt =====
-- Signed integers over the native numbers, for the `int` values whose sign the code tests.
use Prim.Native.Nat.{ℕ, ◌≤◌}

-- `negsuc n` is -(n + 1).
pub data ℤ : Type 0 where
  pos : ℕ → ℤ
  negsuc : ℕ → ℤ

-- `z` is at most `n`: the sign of `int` and `size_t` is compared as the code casts it, to `int`.
abbrev pub AtMost : ℕ → ℤ → Type 0
AtMost n (pos k) = k ≤ n
AtMost n (negsuc k) = Unit
