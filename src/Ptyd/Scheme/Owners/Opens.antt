-- ===== src/Ptyd/Scheme/Owners/Opens.antt =====
-- New handles, and the terminals that come with them.
use eos_base.Base.{
  ℕ, ◌+◌, ◌%◌, ◌^◌, ◌<◌, ◌≡◌, refl, Bool, true, false, Option, none, some, [], ◌∷◌, arith, ◌==◌,
  ltb, Bool-cases, Option-cases, inl, inr, bit_or,
}
use mathlib.Core.Path.{subst}
use eos_base.Base.Text.{Str, str_eq, bytes}
use eos_base.Base.Decimal.{parse_usize}
use eos_base.Base.Map
use eos_base.Base.Map.{get-insert, get-remove, map_laws}
use eos_base.Base.Syscall.{Syscall}
use eos_base.Base.Result.{ok, Result-cases}
use eos_base.Ptyd.Termios.{RedoxTermios}
use eos_base.Ptyd.Pty.{Pty}
use eos_base.Ptyd.Pty
use eos_base.Ptyd.Resource
use eos_base.Ptyd.Resource.{
  Resource, control_term, sub_term, pgrp, termios, winsize, ptlock, ptsname, new_term,
}
use eos_base.Ptyd.Scheme.{
  Handle, resource, scheme_root, PtyScheme, openat, open_path, open_control, open_sub, dup,
  dup_resource, get_resource, trim_matches,
}
use eos_base.Ptyd.Scheme.Owners.{IsValid, cell, is_some, owner_of}

pub cell-suc :
    (n i : ℕ) (h : Option Handle) (live : Bool)
    → n + 1 < 2 ^ 64
    → cell n i h live ≡ true
    → cell ((n + 1) % 2 ^ 64) i h live ≡ true
cell-suc n i none live small e = e
cell-suc n i (some scheme_root) live small e = ground arith
cell-suc n i (some (resource r)) live small e = ground arith

-- The next id has no handle and no terminal.
pub fresh_cell :
    (n : ℕ) (h : Option Handle) (live : Bool) → cell n n h live ≡ true → (h ≡ none) × (live ≡ false)
fresh_cell n none live e = (refl, ground arith)
fresh_cell n (some h) live e = absurd (ground arith)

named_below :
    (n i : ℕ) (r : Resource) (live : Bool)
    → cell n i (some (resource r)) live ≡ true
    → ltb (Resource.pty r) n ≡ true
named_below n i r live e = ground arith

-- The id is spent, whether or not a handle gets it.
spend :
    (s : PtyScheme)
    → s.next_id + 1 < 2 ^ 64
    → IsValid s
    → IsValid (record s { next_id = (s.next_id + 1) % 2 ^ 64 })
unfolding IsValid
spend s small v i =
    cell-suc s.next_id i (Map.get s.handles i) (is_some (Map.get s.ptys i)) small (v i)

add :
    (s : PtyScheme) (r : Resource)
    → s.next_id + 1 < 2 ^ 64
    → IsValid s
    → owner_of (resource r) ≡ none
    → ltb (Resource.pty r) s.next_id ≡ true
    → IsValid (record s {
      next_id = (s.next_id + 1) % 2 ^ 64;
      handles = Map.insert s.handles s.next_id (resource r);
    })
unfolding IsValid
add s r small v o b i =
    let (_, dead) =
      fresh_cell s.next_id (Map.get s.handles s.next_id) (is_some (Map.get s.ptys s.next_id))
        (v s.next_id) in
    elim (Bool-cases (s.next_id == i)) [
      | inr other ↦
          rw (get-insert s.handles s.next_id (resource r) i, other)
            (cell-suc s.next_id i (Map.get s.handles i) (is_some (Map.get s.ptys i)) small (v i))
      | inl here ↦
          let e : s.next_id ≡ i = ground arith in
          let dead' = subst (λ j. is_some (Map.get s.ptys j) ≡ false) e dead in
          rw (get-insert s.handles s.next_id (resource r) i, here, o, dead') (ground arith)
    ]

named :
    (s : PtyScheme) (i : ℕ) (r : Resource)
    → IsValid s
    → Map.get s.handles i ≡ some (resource r)
    → ltb (Resource.pty r) s.next_id ≡ true
unfolding IsValid
named s i r v h =
    named_below s.next_id i r (is_some (Map.get s.ptys i))
      (subst (λ o. cell s.next_id i o (is_some (Map.get s.ptys i)) ≡ true) h (v i))

module _ (sys : Syscall) (t : RedoxTermios) where
  add_control :
      (s : PtyScheme) (flags : ℕ)
      → s.next_id + 1 < 2 ^ 64
      → IsValid s
      → IsValid
          (open_control sys t s.next_id flags (record s { next_id = (s.next_id + 1) % 2 ^ 64 })).1
  unfolding IsValid open_control Resource.pty
  add_control s flags small v i = elim (Bool-cases (s.next_id == i)) [
    | inr other ↦
        rw
          (
            get-insert s.handles s.next_id (resource (control_term (new_term s.next_id flags))) i,
            get-insert s.ptys s.next_id (Pty.new t s.next_id) i,
            other,
          )
          (cell-suc s.next_id i (Map.get s.handles i) (is_some (Map.get s.ptys i)) small (v i))
    | inl here ↦
        rw
          (
            get-insert s.handles s.next_id (resource (control_term (new_term s.next_id flags))) i,
            get-insert s.ptys s.next_id (Pty.new t s.next_id) i,
            here,
          )
          (ground arith)
  ]

  dup_resource-weak :
      (old r : Resource) (buf : Str)
      → dup_resource sys t old buf ≡ ok r
      → (owner_of (resource r) ≡ none) × (Resource.pty r ≡ Resource.pty old)
  unfolding dup_resource Resource.pty
  dup_resource-weak old r buf e = ground arith

  -- If the ids are not used up, a valid state stays valid after `dup` made another handle of a terminal,
  -- or failed to: each terminal still has its owner, and each owner its terminal.
  pub dup-IsValid :
      (s : PtyScheme) (old_id : ℕ) (buf : Str)
      → s.next_id + 1 < 2 ^ 64
      → IsValid s
      → IsValid (dup sys t old_id buf s).1
  unfolding dup get_resource IsValid Resource.pty
  dup-IsValid s old_id buf small v = elim (Option-cases (Map.get s.handles old_id)) [
    | inl nothing ↦ rw (dup, get_resource, nothing) v
    | inr (scheme_root, h) ↦ rw (dup, get_resource, h) v
    | inr (resource old, h) ↦ elim (Result-cases (dup_resource sys t old buf)) [
      | inl (r, made) ↦
          let (weak, same) = dup_resource-weak old r buf made in
          rw (dup, get_resource, h)
            (rw made (add s r small v weak (rw same (named s old_id old v h))))
      | inr (inl (e, failed)) ↦ rw (dup, get_resource, h) (rw failed v)
      | inr (inr failed) ↦ rw (dup, get_resource, h) (rw failed v)
    ]
  ]

  abbrev spent : PtyScheme → PtyScheme
  spent s = record s { next_id = (s.next_id + 1) % 2 ^ 64 }

  open_sub-IsValid :
      (s : PtyScheme) (path : Str) (flags : ℕ)
      → s.next_id + 1 < 2 ^ 64
      → IsValid s
      → IsValid (open_sub sys t s.next_id path flags (spent s)).1
  unfolding open_sub Resource.pty
  open_sub-IsValid s path flags small v = elim (Option-cases (parse_usize path)) [
    | inl none_read ↦ rw (open_sub, none_read) (spend s small v)
    | inr (k, read) ↦ elim (Option-cases (Map.get s.handles k)) [
      | inl nothing ↦ rw (open_sub, read) (rw nothing (spend s small v))
      | inr (scheme_root, h) ↦ rw (open_sub, read) (rw h (spend s small v))
      | inr (resource r, h) ↦
          rw (open_sub, read)
            (rw h
              (add s (sub_term (new_term (Resource.pty r) flags)) small v refl (named s k r v h)))
    ]
  ]

  open_path-IsValid :
      (s : PtyScheme) (path : Str) (flags fcntl_flags : ℕ)
      → s.next_id + 1 < 2 ^ 64
      → IsValid s
      → IsValid (open_path sys t s.next_id path flags fcntl_flags (spent s)).1
  unfolding open_path
  open_path-IsValid s [] flags fcntl_flags small v = spend s small v
  open_path-IsValid s (c ∷ path) flags fcntl_flags small v =
      elim (Bool-cases (str_eq (c ∷ path) (bytes "ptmx"))) [
        | inl ptmx ↦ rw ptmx (add_control s flags small v)
        | inr other ↦ rw other (open_sub-IsValid s (c ∷ path) (bit_or flags fcntl_flags) small v)
      ]

  -- If the ids are not used up, a valid state stays valid after `openat` made a terminal with its owner
  -- or another handle of a terminal, or failed to: each terminal still has its owner, and each owner its
  -- terminal.
  pub openat-IsValid :
      (s : PtyScheme) (dirfd : ℕ) (path : Str) (flags fcntl_flags : ℕ)
      → s.next_id + 1 < 2 ^ 64
      → IsValid s
      → IsValid (openat sys t dirfd path flags fcntl_flags s).1
  unfolding openat
  openat-IsValid s dirfd path flags fcntl_flags small v =
      let path-IsValid = open_path-IsValid s (trim_matches path) flags fcntl_flags small v in
      elim (Option-cases (Map.get s.handles dirfd)) [
        | inl nothing ↦ rw (openat, nothing) v
        | inr (resource r, h) ↦ rw (openat, h) v
        | inr (scheme_root, h) ↦
            elim (Result-cases
              (open_path sys t s.next_id (trim_matches path) flags fcntl_flags (spent s)).0) [
                | inl (u, done) ↦ rw (openat, h) (rw done path-IsValid)
                | inr (inl (e, failed)) ↦ rw (openat, h) (rw failed path-IsValid)
                | inr (inr failed) ↦ rw (openat, h) (rw failed path-IsValid)
              ]
      ]
