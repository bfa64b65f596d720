-- ===== src/Ptyd/Scheme/Owners/Calls.antt =====
-- The calls on a control handle find their terminal.
use eos_base.Base.{
  ℕ, ◌≡◌, refl, ap, ◌∙◌, Bool, true, false, not, ◌&&◌, Option, none, some, List, [], ◌∷◌, arith,
  ◌%◌, ◌^◌, Option-cases, inl, inr,
}
use mathlib.Core.Path.{subst}
use eos_base.Base.Text.{Str}
use eos_base.Base.Map
use eos_base.Base.Syscall.{Syscall}
use eos_base.Base.Result.{Result, panic}
use eos_base.Ptyd.Termios.{RedoxTermios}
use eos_base.Ptyd.Pty.{Pty, update}
use eos_base.Ptyd.Resource
use eos_base.Ptyd.Resource.{
  Resource, control_term, sub_term, pgrp, termios, winsize, ptlock, ptsname,
}
use eos_base.Ptyd.Resource.Ops
use eos_base.Ptyd.Resource.Ops.{
  Done, read_miso, read_mosi, four_bytes, write_four, read_control, read_sub, read_bytes,
  bool_to_u32, write_control, write_sub, sub_events,
}
use eos_base.Ptyd.Scheme.{
  resource, scheme_root, PtyScheme, settle, on_resource, read, write, weak_count,
}
use eos_base.Ptyd.Scheme.Owners.{IsValid, cell, is_some, owner_of}

abbrev pub is_panic {ℓ} : {A : Type ℓ} → Result A → Bool
is_panic panic = true
is_panic _ = false

-- A control handle without its terminal.
abbrev lost : Resource → Option Pty → Bool
lost r up = is_some (owner_of (resource r)) && not (is_some up)

module _ (sys : Syscall) (t : RedoxTermios) where
  read_miso-panic :
      (c : Resource.Term) (p : Pty) (w : ℕ) (buf : Str) (miso : List Str)
      → is_panic (read_miso sys t c p w buf miso).result ≡ false
  unfolding read_miso
  read_miso-panic c p w buf [] = ground arith
  read_miso-panic c p w buf (x ∷ miso) = refl

  read_mosi-panic :
      (c : Resource.Term) (p : Pty) (buf : Str) (mosi : List Str)
      → is_panic (read_mosi sys t c p buf mosi).result ≡ false
  unfolding read_mosi
  read_mosi-panic c p buf [] = ground arith
  read_mosi-panic c p buf (x ∷ mosi) = refl

  four_bytes-panic :
      (n : ℕ) (p : Pty) (buf : Str) → is_panic (four_bytes sys t n p buf).result ≡ false
  unfolding four_bytes
  four_bytes-panic n p buf = ground arith

  write_four-panic :
      (n : Option ℕ) (set : ℕ → Pty) (p : Pty) (buf : Str)
      → is_panic (write_four sys t n set p buf).result ≡ false
  unfolding write_four
  write_four-panic none set p buf = refl
  write_four-panic (some n) set p buf = refl

  read-panic :
      (r : Resource) (up : Option Pty) (w : ℕ) (buf : Str)
      → is_panic (Ops.read sys t r up w buf).result ≡ lost r up
  unfolding Ops.read read_control read_sub read_bytes
  read-panic (control_term c) none w buf = refl
  read-panic (control_term c) (some p) w buf = read_miso-panic c p w buf p.miso
  read-panic (sub_term c) none w buf = refl
  read-panic (sub_term c) (some p) w buf = read_mosi-panic c (update t p) buf (update t p).mosi
  read-panic (pgrp a) none w buf = refl
  read-panic (pgrp a) (some p) w buf = four_bytes-panic (p.pgrp % 2 ^ 32) p buf
  read-panic (termios a) none w buf = refl
  read-panic (termios a) (some p) w buf = refl
  read-panic (winsize a) none w buf = refl
  read-panic (winsize a) (some p) w buf = refl
  read-panic (ptlock a) none w buf = refl
  read-panic (ptlock a) (some p) w buf = four_bytes-panic (bool_to_u32 sys t p.locked) p buf
  read-panic (ptsname a) none w buf = refl
  read-panic (ptsname a) (some p) w buf = ground (arith, four_bytes-panic (p.id % 2 ^ 32) p buf)

  write-panic :
      (r : Resource) (up : Option Pty) (buf : Str)
      → is_panic (Ops.write sys t r up buf).result ≡ lost r up
  unfolding Ops.write write_control write_sub
  write-panic (control_term c) none buf = refl
  write-panic (control_term c) (some p) buf = ground arith
  write-panic (sub_term c) none buf = refl
  write-panic (sub_term c) (some p) buf = ground arith
  write-panic (pgrp a) none buf = refl
  write-panic (pgrp a) (some p) buf = write_four-panic _ _ p buf
  write-panic (termios a) none buf = refl
  write-panic (termios a) (some p) buf = refl
  write-panic (winsize a) none buf = refl
  write-panic (winsize a) (some p) buf = refl
  write-panic (ptlock a) none buf = refl
  write-panic (ptlock a) (some p) buf = write_four-panic _ _ p buf
  write-panic (ptsname a) none buf = refl
  write-panic (ptsname a) (some p) buf = refl

  cell-lost :
      (ptys : Map.Map Pty) (n i : ℕ) (r : Resource)
      → cell n i (some (resource r)) (is_some (Map.get ptys i)) ≡ true
      → lost r (Map.get ptys (Resource.pty r)) ≡ false
  unfolding Resource.pty
  cell-lost ptys n i (control_term c) e =
      let same : i ≡ c.pty = ground arith in
      let live : is_some (Map.get ptys i) ≡ true = ground arith in
      ap not (subst (λ j. is_some (Map.get ptys j) ≡ true) same live)
  cell-lost ptys n i (sub_term c) e = refl
  cell-lost ptys n i (pgrp a) e = refl
  cell-lost ptys n i (termios a) e = refl
  cell-lost ptys n i (winsize a) e = refl
  cell-lost ptys n i (ptlock a) e = refl
  cell-lost ptys n i (ptsname a) e = refl

  found-lost :
      (s : PtyScheme) (id : ℕ) (r : Resource)
      → IsValid s
      → Map.get s.handles id ≡ some (resource r)
      → lost r (Map.get s.ptys (Resource.pty r)) ≡ false
  unfolding IsValid
  found-lost s id r v h =
      cell-lost s.ptys s.next_id id r
        (subst (λ o. cell s.next_id id o (is_some (Map.get s.ptys id)) ≡ true) h (v id))

  -- In a valid state no read and no write of any handle, open or not, is a panic.
  pub read-write_total :
      (s : PtyScheme) (id : ℕ) (buf : Str)
      → IsValid s
      → (is_panic (read sys t id buf s).0.0 ≡ false) × (is_panic (write sys t id buf s).0.0 ≡ false)
  unfolding read write on_resource settle
  read-write_total s id buf v = elim (Option-cases (Map.get s.handles id)) [
    | inl nothing ↦ rw (read, write, on_resource, nothing) (refl, refl)
    | inr (scheme_root, h) ↦ rw (read, write, on_resource, h) (refl, refl)
    | inr (resource r, h) ↦
        let up = Map.get s.ptys (Resource.pty r) in
        rw (read, write, on_resource, h)
          (
            read-panic r up (weak_count (Resource.pty r) s.handles) buf ∙ found-lost s id r v h,
            write-panic r up buf ∙ found-lost s id r v h,
          )
  ]
