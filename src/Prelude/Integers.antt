-- ===== src/Prelude/Integers.antt =====
-- Signed numbers, where a negative argument is refused by the code.
use Prim.Native.Nat.{ℕ, zero, suc, ◌+◌, ◌-◌}
use mathlib.Core.Bool.{Bool, true, false}

-- `negsuc n` is -(n + 1).
pub data ℤ : Type 0 where
  pos : ℕ → ℤ
  negsuc : ℕ → ℤ

abbrev pub is_negative : ℤ → Bool
is_negative (pos n) = false
is_negative (negsuc n) = true

abbrev pub is_positive : ℤ → Bool
is_positive (pos zero) = false
is_positive (pos (suc n)) = true
is_positive (negsuc n) = false

-- An instant moved by a duration; it does not go below 0.
abbrev pub shift : ℕ → ℤ → ℕ
shift t (pos n) = t + n
shift t (negsuc n) = t - suc n
