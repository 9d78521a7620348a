-- ===== src/Prelude/Int.antt =====
-- Signed integers: the `int` values and durations that a configuration or a caller may make zero or
-- negative. `negsuc n` is -(n + 1).
use Prim.Native.Nat.{ℕ, zero, suc, ◌<◌}
use native.Mathlib.Omega.{arith}

pub data ℤ : Type 0 where
  pos : ℕ → ℤ
  negsuc : ℕ → ℤ

-- The value, if it is positive, and 0 otherwise.
abbrev pub pos_part : ℤ → ℕ
pos_part (pos n) = n
pos_part (negsuc n) = 0

-- `if x <= 0 { x = d }`
abbrev pub or_default : ℤ → ℕ → ℕ
or_default (pos (suc n)) d = suc n
or_default (pos zero) d = d
or_default (negsuc _) d = d

pub or_default_pos : (x : ℤ) (d : ℕ) → 0 < d → 0 < or_default x d
or_default_pos (pos (suc n)) d h = omega arith
or_default_pos (pos zero) d h = h
or_default_pos (negsuc _) d h = h
