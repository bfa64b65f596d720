-- ===== src/Initnsmgr/Fork.antt =====
-- `Namespace::fork` of bootstrap/src/initnsmgr.rs, and the numbers in a request.
pub mod Ends
use eos_base.Base.{
  ℕ, zero, suc, ◌+◌, ◌*◌, Bool, true, false, Option, none, some, [], ◌∷◌, ◌==◌, ltb, not, ◌&&◌,
  length, take, drop, if◌then◌else◌,
}
use eos_base.Base.Text.{Str}
use eos_base.Base.StrMap
use eos_base.Base.Result.{Result, ok, err, panic, einval}
use eos_base.Initnsmgr.{Namespace}

-- `usize::from_le_bytes`
unfoldable pub from_le_bytes : Str → ℕ
from_le_bytes [] = 0
from_le_bytes (b ∷ s) = b + 256 * from_le_bytes s

-- `read_num::<usize>`
unfoldable pub read_num : Str → Result ℕ
unfolding from_le_bytes
read_num buffer = if ltb (length buffer) 8 then err einval else ok (from_le_bytes (take 8 buffer))

unfoldable pub starts_with : Str → Str → Bool
starts_with name [] = true
starts_with [] (p ∷ prefix) = false
starts_with (c ∷ name) (p ∷ prefix) = (c == p) && starts_with name prefix

-- The name in front of a `*` at its end.
unfoldable pub starred : Str → Option Str
starred [] = none
starred (c ∷ []) = if c == b'*' then some [] else none
starred (c ∷ d ∷ name) = elim (starred (d ∷ name)) [ none ↦ none | some prefix ↦ some (c ∷ prefix) ]

-- The loop over the registered names that begin with the prefix.
unfoldable pub copy_prefixed : Str → Namespace → Namespace → Namespace
unfolding starts_with
copy_prefixed prefix [] schemes = schemes
copy_prefixed prefix ((name, fd) ∷ registered) schemes =
    copy_prefixed prefix registered
      (if starts_with name prefix then StrMap.insert schemes name fd else schemes)

-- What one name of the request adds.
unfoldable pub copy_name : Namespace → Str → Namespace → Namespace
unfolding copy_prefixed starred
copy_name registered name schemes = elim (starred name) [
  | some prefix ↦ copy_prefixed prefix registered schemes
  | none ↦ elim (StrMap.get registered name) [
    | none ↦ schemes
    | some fd ↦ StrMap.insert schemes name fd
  ]
]

module _ (utf8 : Str → Bool) (registered : Namespace) where
  -- The `while` loop over the rest of the buffer, on fuel. `none` is a loop that does not end.
  unfoldable pub fork_loop : ℕ → Str → Namespace → Option (Result Namespace)
  unfolding copy_name read_num
  fork_loop fuel [] schemes = some (ok schemes)
  fork_loop zero (b ∷ buf) schemes = none
  fork_loop (suc fuel) (b ∷ buf) schemes =
      let rest : Str = drop 8 (b ∷ buf) in
      elim (read_num (b ∷ buf)) [
        | err e ↦ some (err e)
        | panic ↦ some panic
        | ok len ↦
            let more =
              fork_loop fuel (drop len rest) (copy_name registered (take len rest) schemes) in
            if ltb (length rest) len
            then some panic
            else if not (utf8 (take len rest))
            then some (err einval)
            else more
      ]

  -- Each round reads the eight bytes of a length, so the length of the buffer is enough fuel.
  unfoldable pub fork : Str → Option (Result Namespace)
  unfolding fork_loop
  fork buf = fork_loop (length buf) buf []
