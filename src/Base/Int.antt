-- ===== src/Base/Int.antt =====
-- Signed integers over the native numbers, under the library's names (its ℤ stands on another ℕ).
use Prim.Native.Nat.{ℕ}
use mathlib.Core.Option.{Option, none, some}

-- `negsuc n` is -(n + 1).
pub data ℤ : Type 0 where
  pos : ℕ → ℤ
  negsuc : ℕ → ℤ

-- `u64::try_from`, and `i64::try_from` of a number that is not negative, each as an option.
abbrev pub to_unsigned : ℤ → Option ℕ
to_unsigned (pos n) = some n
to_unsigned (negsuc n) = none
