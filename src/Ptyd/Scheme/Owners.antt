-- ===== src/Ptyd/Scheme/Owners.antt =====
-- Who owns a terminal: a terminal lives exactly as long as the control handle with its id, which is
-- why the calls on a control handle find their terminal.
pub mod Opens
pub mod Calls
pub mod Requests
use eos_base.Base.{
  ℕ, ◌≡◌, refl, Bool, true, false, not, ◌&&◌, Option, none, some, List, ◌%◌, ◌^◌, [], ◌∷◌, arith,
  ◌==◌, ltb, Bool-cases, Option-cases, inl, inr,
}
use mathlib.Core.Path.{subst}
use eos_base.Base.Text.{Str}
use eos_base.Base.Map
use eos_base.Base.Map.{get-insert, get-remove, map_laws}
use eos_base.Base.Syscall.{Syscall}
use eos_base.Ptyd.Termios.{RedoxTermios}
use eos_base.Ptyd.Pty.{Pty, update}
use eos_base.Ptyd.Resource
use eos_base.Ptyd.Resource.{
  Resource, control_term, sub_term, pgrp, termios, winsize, ptlock, ptsname,
}
use eos_base.Ptyd.Resource.Ops
use eos_base.Ptyd.Resource.Ops.{
  Done, read_miso, read_mosi, four_bytes, write_four, read_control, read_sub, read_bytes,
  bool_to_u32, write_control, write_sub,
}
use eos_base.Ptyd.Scheme.{
  Handle, resource, scheme_root, PtyScheme, settle, store_pty, on_resource, read, write, on_close,
  weak_count,
}

abbrev pub is_some {ℓ} : {A : Type ℓ} → Option A → Bool
is_some none = false
is_some (some _) = true

-- The terminal that a handle owns.
abbrev pub owner_of : Handle → Option ℕ
owner_of (resource (control_term c)) = some c.pty
owner_of _ = none

abbrev pub below : ℕ → Handle → Bool
below next (resource r) = ltb (Resource.pty r) next
below next scheme_root = true

abbrev pub owned : ℕ → Option ℕ → Bool → Bool
owned i none live = not live
owned i (some j) live = (j == i) && live

-- What stands at an id: its handle, and whether there is a terminal with that id.
abbrev pub cell : ℕ → ℕ → Option Handle → Bool → Bool
cell next i none live = not live
cell next i (some h) live = ltb i next && (below next h && owned i (owner_of h) live)

-- A state is valid if a terminal is there exactly where the handle of its id is the control handle that
-- owns it, and the handles and the terminals that they name have ids that were given out.
unfoldable pub IsValid : PtyScheme → Type 0
IsValid s = (i : ℕ) → cell s.next_id i (Map.get s.handles i) (is_some (Map.get s.ptys i)) ≡ true

module _ (sys : Syscall) (t : RedoxTermios) where
  -- A valid state stays valid when any handle closes: a terminal goes exactly when its owner does.
  pub on_close-IsValid : (s : PtyScheme) (id : ℕ) → IsValid s → IsValid (on_close sys t id s)
  unfolding IsValid on_close
  on_close-IsValid s id v i = elim (Option-cases (Map.get s.handles id)) [
    | inl nothing ↦ rw (on_close, nothing) (ground (arith, v i, get-remove s.handles id i))
    | inr (scheme_root, h) ↦ rw (on_close, h) (ground (arith, v i, v id, get-remove s.handles id i))
    | inr (resource (control_term c), h) ↦
        rw (on_close, h)
          (ground (arith, v i, v id, get-remove s.handles id i, get-remove s.ptys c.pty i))
    | inr (resource (sub_term c), h) ↦
        rw (on_close, h) (ground (arith, v i, v id, get-remove s.handles id i))
    | inr (resource (pgrp a), h) ↦
        rw (on_close, h) (ground (arith, v i, v id, get-remove s.handles id i))
    | inr (resource (termios a), h) ↦
        rw (on_close, h) (ground (arith, v i, v id, get-remove s.handles id i))
    | inr (resource (winsize a), h) ↦
        rw (on_close, h) (ground (arith, v i, v id, get-remove s.handles id i))
    | inr (resource (ptlock a), h) ↦
        rw (on_close, h) (ground (arith, v i, v id, get-remove s.handles id i))
    | inr (resource (ptsname a), h) ↦
        rw (on_close, h) (ground (arith, v i, v id, get-remove s.handles id i))
  ]

  -- What a call on a resource may do: it stays the resource that it is, over the same terminal, and
  -- the terminal stays if it is there.
  pub record Keeps (r r' : Resource) (up up' : Option Pty) : Type 0 where
    pub owner : owner_of (resource r') ≡ owner_of (resource r)
    pub names : Resource.pty r' ≡ Resource.pty r
    pub live : is_some up' ≡ is_some up

  store_pty-live :
      (ptys : Map.Map Pty) (j i : ℕ) (up : Option Pty)
      → is_some up ≡ is_some (Map.get ptys j)
      → is_some (Map.get (store_pty sys t ptys j up) i) ≡ is_some (Map.get ptys i)
  store_pty-live ptys j i none h = refl
  store_pty-live ptys j i (some p) h = ground (arith, get-insert ptys j p i)

  -- A handle that stays the resource that it is, while the terminals that are there stay.
  pub replace-IsValid :
      (s : PtyScheme) (id : ℕ) (r r' : Resource) (ptys : Map.Map Pty)
      → IsValid s
      → Map.get s.handles id ≡ some (resource r)
      → owner_of (resource r') ≡ owner_of (resource r)
      → Resource.pty r' ≡ Resource.pty r
      → ((i : ℕ) → is_some (Map.get ptys i) ≡ is_some (Map.get s.ptys i))
      → IsValid (record s { handles = Map.insert s.handles id (resource r'); ptys = ptys })
  unfolding IsValid
  replace-IsValid s id r r' ptys v h owner names live i = rw (live i) (elim (Bool-cases (id == i)) [
    | inr other ↦ ground (arith, v i, get-insert s.handles id (resource r') i)
    | inl here ↦
        let e : id ≡ i = ground arith in
        let old : cell s.next_id i (Map.get s.handles id) (is_some (Map.get s.ptys i)) ≡ true =
          subst (λ j. cell s.next_id j (Map.get s.handles id) (is_some (Map.get s.ptys j)) ≡ true) e
            (v id) in
        let old' : cell s.next_id i (some (resource r)) (is_some (Map.get s.ptys i)) ≡ true =
          subst (λ o. cell s.next_id i o (is_some (Map.get s.ptys i)) ≡ true) h old in
        rw (get-insert s.handles id (resource r') i, here, names, owner) old'
  ])

  settle-IsValid :
      (s : PtyScheme) (id : ℕ) (r r' : Resource) (d : Done)
      → IsValid s
      → Map.get s.handles id ≡ some (resource r)
      → Keeps r r' (Map.get s.ptys (Resource.pty r)) d.pty
      → IsValid (settle sys t id r' d s).1
  unfolding IsValid settle
  settle-IsValid s id r r' d v h k =
      replace-IsValid s id r r' (store_pty sys t s.ptys (Resource.pty r') d.pty) v h k.owner k.names
        λ i. rw k.names (store_pty-live s.ptys (Resource.pty r) i d.pty k.live)

  read_miso-live :
      (c : Resource.Term) (p : Pty) (w : ℕ) (buf : Str) (miso : List Str)
      → is_some (read_miso sys t c p w buf miso).pty ≡ true
  unfolding read_miso
  read_miso-live c p w buf [] = refl
  read_miso-live c p w buf (x ∷ miso) = refl

  read_mosi-live :
      (c : Resource.Term) (p : Pty) (buf : Str) (mosi : List Str)
      → is_some (read_mosi sys t c p buf mosi).pty ≡ true
  unfolding read_mosi
  read_mosi-live c p buf [] = refl
  read_mosi-live c p buf (x ∷ mosi) = refl

  four_bytes-live : (n : ℕ) (p : Pty) (buf : Str) → is_some (four_bytes sys t n p buf).pty ≡ true
  unfolding four_bytes
  four_bytes-live n p buf = ground arith

  write_four-live :
      (n : Option ℕ) (set : ℕ → Pty) (p : Pty) (buf : Str)
      → is_some (write_four sys t n set p buf).pty ≡ true
  unfolding write_four
  write_four-live none set p buf = refl
  write_four-live (some n) set p buf = refl

  read-live :
      (r : Resource) (up : Option Pty) (w : ℕ) (buf : Str)
      → is_some (Ops.read sys t r up w buf).pty ≡ is_some up
  unfolding Ops.read read_control read_sub read_bytes
  read-live (control_term c) none w buf = refl
  read-live (control_term c) (some p) w buf = read_miso-live c p w buf p.miso
  read-live (sub_term c) none w buf = refl
  read-live (sub_term c) (some p) w buf = read_mosi-live c (update t p) buf (update t p).mosi
  read-live (pgrp a) none w buf = refl
  read-live (pgrp a) (some p) w buf = four_bytes-live (p.pgrp % 2 ^ 32) p buf
  read-live (termios a) none w buf = refl
  read-live (termios a) (some p) w buf = refl
  read-live (winsize a) none w buf = refl
  read-live (winsize a) (some p) w buf = refl
  read-live (ptlock a) none w buf = refl
  read-live (ptlock a) (some p) w buf = four_bytes-live (bool_to_u32 sys t p.locked) p buf
  read-live (ptsname a) none w buf = refl
  read-live (ptsname a) (some p) w buf = ground (arith, four_bytes-live (p.id % 2 ^ 32) p buf)

  write-live :
      (r : Resource) (up : Option Pty) (buf : Str)
      → is_some (Ops.write sys t r up buf).pty ≡ is_some up
  unfolding Ops.write write_control write_sub
  write-live (control_term c) none buf = refl
  write-live (control_term c) (some p) buf = ground arith
  write-live (sub_term c) none buf = refl
  write-live (sub_term c) (some p) buf = ground arith
  write-live (pgrp a) none buf = refl
  write-live (pgrp a) (some p) buf = write_four-live _ _ p buf
  write-live (termios a) none buf = refl
  write-live (termios a) (some p) buf = refl
  write-live (winsize a) none buf = refl
  write-live (winsize a) (some p) buf = refl
  write-live (ptlock a) none buf = refl
  write-live (ptlock a) (some p) buf = write_four-live _ _ p buf
  write-live (ptsname a) up buf = refl

  reading-Keeps :
      (r : Resource) (up up' : Option Pty)
      → is_some up' ≡ is_some up
      → Keeps r (Ops.reading sys t r) up up'
  unfolding Ops.reading Resource.pty
  reading-Keeps (control_term c) up up' l = record { owner = refl; names = refl; live = l }
  reading-Keeps (sub_term c) up up' l = record { owner = refl; names = refl; live = l }
  reading-Keeps (pgrp a) up up' l = record { owner = refl; names = refl; live = l }
  reading-Keeps (termios a) up up' l = record { owner = refl; names = refl; live = l }
  reading-Keeps (winsize a) up up' l = record { owner = refl; names = refl; live = l }
  reading-Keeps (ptlock a) up up' l = record { owner = refl; names = refl; live = l }
  reading-Keeps (ptsname a) up up' l = record { owner = refl; names = refl; live = l }

  pub on_resource-IsValid :
      (s : PtyScheme) (id : ℕ) (buf : Str) (f : Resource → Option Pty → PtyScheme → Resource × Done)
      → ((r : Resource) (up : Option Pty) → Keeps r (f r up s).0 up (f r up s).1.pty)
      → IsValid s
      → IsValid (on_resource sys t id buf f s).1
  unfolding on_resource
  on_resource-IsValid s id buf f k v = elim (Option-cases (Map.get s.handles id)) [
    | inl nothing ↦ rw (on_resource, nothing) v
    | inr (scheme_root, h) ↦ rw (on_resource, h) v
    | inr (resource r, h) ↦
        rw (on_resource, h)
          (settle-IsValid s id r (f r (Map.get s.ptys (Resource.pty r)) s).0
            (f r (Map.get s.ptys (Resource.pty r)) s).1 v h (k r (Map.get s.ptys (Resource.pty r))))
  ]

  abbrev read_call : Str → Resource → Option Pty → PtyScheme → Resource × Done
  read_call buf r up s =
      (Ops.reading sys t r, Ops.read sys t r up (weak_count (Resource.pty r) s.handles) buf)

  abbrev write_call : Str → Resource → Option Pty → PtyScheme → Resource × Done
  write_call buf r up s = (r, Ops.write sys t r up buf)

  -- A valid state stays valid after a read of any handle, whatever its result: each terminal still has
  -- its owner, and each owner its terminal.
  pub read-IsValid :
      (s : PtyScheme) (id : ℕ) (buf : Str) → IsValid s → IsValid (read sys t id buf s).1
  unfolding read
  read-IsValid s id buf v =
      on_resource-IsValid s id buf (read_call buf)
        (λ r up.
          reading-Keeps r up (read_call buf r up s).1.pty
            (read-live r up (weak_count (Resource.pty r) s.handles) buf))
        v

  -- A valid state stays valid after a write to any handle, whatever its result: each terminal still
  -- has its owner, and each owner its terminal.
  pub write-IsValid :
      (s : PtyScheme) (id : ℕ) (buf : Str) → IsValid s → IsValid (write sys t id buf s).1
  unfolding write
  write-IsValid s id buf v =
      on_resource-IsValid s id buf (write_call buf)
        (λ r up. record { owner = refl; names = refl; live = write-live r up buf }) v
