-- ===== src/SchemeUtils/FpathWriter.antt =====
-- `FpathWriter` of scheme-utils/src/lib.rs: text written into a caller's buffer, cut off where the
-- buffer ends.
pub mod Laws
use eos_base.Base.{ℕ, ◌+◌, ◌-◌, min, List, [], ◌∷◌, ◌++◌, length, take, drop}
use eos_base.Base.Text.{Str, bytes}
use eos_base.Base.Result.{Result, ok, err, panic}

pub record FpathWriter : Type 0 where
  pub buf : Str
  pub written : ℕ

-- `push_str`; `write!` calls it for each piece of its text.
pub push_str : FpathWriter → Str → FpathWriter
push_str w s =
    let count = min (length s) (length w.buf - w.written) in
    record w {
      buf = take w.written w.buf ++ (take count s ++ drop (w.written + count) w.buf);
      written = w.written + count;
    }

pub push_all : FpathWriter → List Str → FpathWriter
push_all w [] = w
push_all w (s ∷ rest) = push_all (push_str w s) rest

-- The bytes written are returned beside the buffer, which keeps what was written before an error.
finish : Result (List Str) → FpathWriter → Result ℕ × Str
finish (ok parts) w = let w' = push_all w parts in (ok w'.written, w'.buf)
finish (err e) w = (err e, w.buf)
finish panic w = (panic, w.buf)

-- `with` and `with_legacy`. The closures of the callers write some texts or fail before they write:
-- `parts` is what they write.
unfoldable pub with_prefix : Str → List Str → Result (List Str) → Result ℕ × Str
unfolding finish push_all push_str
with_prefix buf prefix parts = finish parts (push_all (record { buf = buf; written = 0 }) prefix)

abbrev pub with : Str → Str → Result (List Str) → Result ℕ × Str
with buf scheme_name = with_prefix buf (bytes "/scheme/" ∷ scheme_name ∷ bytes "/" ∷ [])

abbrev pub with_legacy : Str → Str → Result (List Str) → Result ℕ × Str
with_legacy buf scheme_name = with_prefix buf (scheme_name ∷ bytes ":" ∷ [])
