-- ===== src/Ptyd/Resource.antt =====
-- The resources behind the handles of ptyd: controlterm.rs, subterm.rs, pgrp.rs, termios.rs,
-- winsize.rs, ptlock.rs and ptname.rs, all of them implementations of the trait in resource.rs.
-- The control terminal owns its terminal; the others hold a weak reference, and the argument
-- `Option Pty` is what upgrading the reference gives.
pub mod Ops
pub mod Packets
pub mod Records
pub mod Streams
use eos_base.Base.{
  ℕ, zero, suc, ◌+◌, ◌*◌, ◌/◌, ◌%◌, ◌^◌, Bool, true, false, ◌&&◌, ◌||◌, Option, none, some, List,
  [], ◌∷◌, ◌++◌, ◌==◌, leb, ltb, if◌then◌else◌, length, drop, bit_and, bit_or,
}
use eos_base.Base.Text.{Str}
use eos_base.Base.Syscall.{Syscall, has, bit_not}
use eos_base.Base.Result.{Result, ok, err, einval}

-- `PtyControlTerm` and `PtySubTerm`.
pub record Term : Type 0 where
  pub pty : ℕ
  pub flags : ℕ
  pub notified_read : Bool
  pub notified_write : Bool

-- `PtyPgrp`, `PtyTermios`, `PtyWinsize`, `PtyLock` and `PtsName`.
pub record Aux : Type 0 where
  pub pty : ℕ
  pub flags : ℕ

pub data Resource : Type 0 where
  control_term sub_term : Term → Resource
  pgrp termios winsize ptlock ptsname : Aux → Resource

abbrev pub new_term : ℕ → ℕ → Term
new_term pty flags = record {
  pty = pty;
  flags = flags;
  notified_read = false;
  notified_write = false;
}

-- `fn pty`
unfoldable pub pty : Resource → ℕ
pty (control_term c) = c.pty
pty (sub_term c) = c.pty
pty (pgrp a) = a.pty
pty (termios a) = a.pty
pty (winsize a) = a.pty
pty (ptlock a) = a.pty
pty (ptsname a) = a.pty

-- `fn flags`
unfoldable pub flags : Resource → ℕ
flags (control_term c) = c.flags
flags (sub_term c) = c.flags
flags (pgrp a) = a.flags
flags (termios a) = a.flags
flags (winsize a) = a.flags
flags (ptlock a) = a.flags
flags (ptsname a) = a.flags

unfoldable pub set_flags : Resource → ℕ → Resource
set_flags (control_term c) n = control_term (record c { flags = n })
set_flags (sub_term c) n = sub_term (record c { flags = n })
set_flags (pgrp a) n = pgrp (record a { flags = n })
set_flags (termios a) n = termios (record a { flags = n })
set_flags (winsize a) n = winsize (record a { flags = n })
set_flags (ptlock a) n = ptlock (record a { flags = n })
set_flags (ptsname a) n = ptsname (record a { flags = n })

-- `while i < buf.len() && i < packet.len() { buf[i] = packet[i]; i += 1; }`: the count and the
-- target after the loop.
unfoldable pub copy : Str → Str → ℕ × Str
copy [] packet = (0, [])
copy (x ∷ buf) [] = (0, x ∷ buf)
copy (x ∷ buf) (c ∷ packet) = let (i, rest) = copy buf packet in (suc i, c ∷ rest)

-- `u32::to_ne_bytes` and `u32::from_ne_bytes` on a little-endian machine.
unfoldable pub to_ne_bytes : ℕ → Str
to_ne_bytes n = (n % 256) ∷ (n / 256 % 256) ∷ (n / 65536 % 256) ∷ (n / 16777216 % 256) ∷ []

unfoldable pub from_ne_bytes : ℕ → ℕ → ℕ → ℕ → ℕ
from_ne_bytes a b c d = a + 256 * b + 65536 * c + 16777216 * d

-- `buf.get(..4)` as four bytes.
unfoldable pub first_four : Str → Option ℕ
unfolding from_ne_bytes
first_four (a ∷ b ∷ c ∷ d ∷ rest) = some (from_ne_bytes a b c d)
first_four _ = none

-- A write of four bytes through `buf.get_mut(..4)`.
unfoldable pub put_four : ℕ → Str → Option Str
unfolding to_ne_bytes
put_four n (a ∷ b ∷ c ∷ d ∷ rest) = some (to_ne_bytes n ++ rest)
put_four n _ = none

module _ (sys : Syscall) where
  -- `fn fcntl`, the same text in each implementation.
  unfoldable pub fcntl : Resource → ℕ → ℕ → Result ℕ × Resource
  unfolding flags set_flags
  fcntl r cmd arg =
      if cmd == sys.f_getfl
      then (ok (flags r), r)
      else if cmd == sys.f_setfl
      then (
        ok 0,
        set_flags r
            (bit_or (bit_and (flags r) sys.o_accmode) (bit_and arg (bit_not sys.o_accmode))),
      )
      else (err einval, r)
