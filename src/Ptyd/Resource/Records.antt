-- ===== src/Ptyd/Resource/Records.antt =====
-- The resources that read and write one record of a terminal: what is written is read back, and a
-- terminal that is gone is reported as each resource does.
use eos_base.Base.{
  not, ℕ, ◌%◌, ◌^◌, ◌<◌, ◌≡◌, refl, ap, Bool, true, false, none, some, [], ◌∷◌, ◌++◌, arith, ◌==◌,
  if◌then◌else◌,
}
use eos_base.Base.Text.{Str}
use eos_base.Base.Syscall.{Syscall}
use eos_base.Base.Result.{ok, err, epipe, eio}
use eos_base.Ptyd.Termios.{RedoxTermios}
use eos_base.Ptyd.Pty.{Pty}
use eos_base.Ptyd.Resource.{
  Term, Aux, sub_term, pgrp, ptlock, ptsname, put_four, to_ne_bytes, from_ne_bytes,
}
use eos_base.Ptyd.Resource.Ops.{Done, read, write, returns, fails}

abbrev IsByte : ℕ → Type 0
IsByte n = n < 256

-- Four bytes that are read as a number are printed again as they were.
to-from_ne_bytes :
    (a b c d : ℕ)
    → IsByte a
    → IsByte b
    → IsByte c
    → IsByte d
    → to_ne_bytes (from_ne_bytes a b c d % 2 ^ 32) ≡ a ∷ b ∷ c ∷ d ∷ []
unfolding to_ne_bytes from_ne_bytes
to-from_ne_bytes a b c d ha hb hc hd = ground arith

if_not : (b : Bool) (x y : Done) → (if not b then x else y) ≡ (if b then y else x)
if_not true x y = refl
if_not false x y = refl

module _ (sys : Syscall) (t : RedoxTermios) (a : Aux) where
  -- A process group that is written as four bytes is read back as these bytes, and the write changes
  -- nothing else of the terminal.
  pub read-write_pgrp :
      (p : Pty) (w b0 b1 b2 b3 : ℕ) (rest buf : Str) (x y z v : ℕ)
      → IsByte b0
      → IsByte b1
      → IsByte b2
      → IsByte b3
      → let d = write sys t (pgrp a) (some p) (b0 ∷ b1 ∷ b2 ∷ b3 ∷ rest) in
        (p' : Pty) × (d.result ≡ ok 4)
        × (d.pty ≡ some p')
        × (p' ≡ record p { pgrp = p'.pgrp })
        × (read sys t (pgrp a) (some p') w (x ∷ y ∷ z ∷ v ∷ buf)
            ≡ returns 4 (b0 ∷ b1 ∷ b2 ∷ b3 ∷ buf) p')
  unfolding read write put_four
  read-write_pgrp p w b0 b1 b2 b3 rest buf x y z v h0 h1 h2 h3 = (
    record p { pgrp = from_ne_bytes b0 b1 b2 b3 },
    refl,
    refl,
    refl,
    ap (λ s. returns 4 (s ++ buf) (record p { pgrp = from_ne_bytes b0 b1 b2 b3 }))
        (to-from_ne_bytes b0 b1 b2 b3 h0 h1 h2 h3),
  )

  -- The lock of a terminal guards its name: `ptsname` gives the number of the terminal exactly while
  -- the terminal is not locked, and the lock is what was last written to it, as zero or not zero.
  ptsname-write_ptlock :
      (p : Pty) (w n0 n1 n2 n3 : ℕ) (rest buf : Str) (x y z v : ℕ)
      → let d = write sys t (ptlock a) (some p) (n0 ∷ n1 ∷ n2 ∷ n3 ∷ rest) in
        (p' : Pty) × (d.pty ≡ some p')
        × (read sys t (ptsname a) (some p') w (x ∷ y ∷ z ∷ v ∷ buf) ≡ (
            if from_ne_bytes n0 n1 n2 n3 == 0
            then returns 4 (to_ne_bytes (p.id % 2 ^ 32) ++ buf) p'
            else fails (x ∷ y ∷ z ∷ v ∷ buf) (some p') (err eio)))
  unfolding read write put_four
  ptsname-write_ptlock p w n0 n1 n2 n3 rest buf x y z v = (
    record p { locked = not (from_ne_bytes n0 n1 n2 n3 == 0) },
    refl,
    if_not (from_ne_bytes n0 n1 n2 n3 == 0) _ _,
  )

  -- On a terminal that is gone, a read of its sub-terminal is at the end of the file, a write to it
  -- fails with a broken pipe, and so does a read of its name.
  pub gone :
      (c : Term) (w : ℕ) (buf : Str)
      → (read sys t (sub_term c) none w buf ≡ fails buf none (ok 0))
        × (write sys t (sub_term c) none buf ≡ fails buf none (err epipe))
        × (write sys t (pgrp a) none buf ≡ fails buf none (err epipe))
        × (read sys t (ptsname a) none w buf ≡ fails buf none (err epipe))
  unfolding read write
  gone c w buf = (refl, refl, refl, refl)
