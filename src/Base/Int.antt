-- ===== src/Base/Int.antt =====
-- Signed integers, as far as the program compares them, and the instants that durations part.
use Prim.Native.Nat.{ℕ, ◌+◌}
use mathlib.Core.Bool.{Bool, false}
use secondhand.Base.Tests.{ltb, nat_beq}

-- `negsuc n` is -(n + 1).
pub data ℤ : Type 0 where
  pos : ℕ → ℤ
  negsuc : ℕ → ℤ

-- `int`s and `time.Duration`s compared with 0.
abbrev pub is_positive : ℤ → Bool
is_positive (pos n) = ltb 0 n
is_positive (negsuc n) = false

abbrev pub int_equal : ℤ → ℤ → Bool
int_equal (pos m) (pos n) = nat_beq m n
int_equal (negsuc m) (negsuc n) = nat_beq m n
int_equal _ _ = false

-- `now.Sub(t) < d`, on instants counted in nanoseconds from the zero `time.Time`. The source's
-- difference is a `time.Duration` that saturates, which no comparison with a `time.Duration` sees.
abbrev pub sub_below : ℕ → ℕ → ℤ → Bool
sub_below now t (pos d) = ltb now (t + d)
sub_below now t (negsuc d) = ltb (now + d + 1) t
