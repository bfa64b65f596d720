-- ===== src/Base/Syscall.antt =====
-- The constants of the `syscall` crate, which is not part of the repository, as parameters, and
-- the tests and results that the schemes write with them.
use eos_base.Base.Tests.{◌==◌}
use Prim.Native.Nat.{ℕ, ◌-◌, ◌^◌, bit_and}
use mathlib.Core.Bool.{Bool}

pub record Syscall : Type 0 where
  pub o_creat : ℕ
  pub o_excl : ℕ
  pub o_nonblock : ℕ
  pub o_accmode : ℕ
  pub f_getfl : ℕ
  pub f_setfl : ℕ
  pub event_read : ℕ
  pub event_write : ℕ

-- `flags & FLAG == FLAG`
abbrev pub has : ℕ → ℕ → Bool
has flags flag = bit_and flags flag == flag

-- `!flags` on `usize`
abbrev pub bit_not : ℕ → ℕ
bit_not flags = 2 ^ 64 - 1 - flags

-- `OpenResult` of the scheme crate, as far as the schemes build it.
pub data OpenResult : Type 0 where
  this_scheme : ℕ → OpenResult
  other_scheme : ℕ → OpenResult
  would_block : OpenResult
