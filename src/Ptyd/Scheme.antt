-- ===== src/Ptyd/Scheme.antt =====
-- `PtyScheme` of ptyd/src/scheme.rs and the two loops of ptyd/src/main.rs over its handles.
-- A terminal lives as long as the control terminal that owns it: `ptys` holds the terminals by the
-- id of that handle, and a weak reference is the id.
pub mod Owners
use eos_base.Base.{
  ℕ, suc, ◌+◌, ◌%◌, ◌^◌, Bool, false, Option, none, some, List, [], ◌∷◌, ◌++◌, ◌==◌, if◌then◌else◌,
  bit_or,
}
use eos_base.Base.Text.{Str, bytes, str_eq}
use eos_base.Base.Decimal.{decimal, parse_usize}
use eos_base.Base.Map
use eos_base.Base.Map.{Map}
use eos_base.Base.Syscall.{Syscall, OpenResult, this_scheme}
use eos_base.Base.Result.{
  Result, ok, err, panic, Error, ebadf, eacces, enoent, einval, epipe, Exec, ok_or, lift, gets,
  ◌>>=◌, ◌>>◌,
}
use eos_base.SchemeUtils.FpathWriter.{with}
use eos_base.Ptyd.Termios.{RedoxTermios}
use eos_base.Ptyd.Pty.{Pty}
use eos_base.Ptyd.Pty
use eos_base.Ptyd.Pty.Input.{Kill}
use eos_base.Ptyd.Resource
use eos_base.Ptyd.Resource.{
  Resource, control_term, sub_term, pgrp, termios, winsize, ptlock, ptsname, new_term,
}
use eos_base.Ptyd.Resource.Ops
use eos_base.Ptyd.Resource.Ops.{Done}

pub data Handle : Type 0 where
  resource : Resource → Handle
  scheme_root : Handle

-- `kills` are the calls of `kill` so far.
pub record PtyScheme : Type 0 where
  pub next_id : ℕ
  pub handles : Map Handle
  pub ptys : Map Pty
  pub kills : List Kill

abbrev pub new : PtyScheme
new = record { next_id = 0; handles = []; ptys = []; kills = [] }

abbrev pub M : Type 0 → Type 0
M = Exec PtyScheme

-- `str::trim_matches('/')`
unfoldable pub trim_start : Str → Str
trim_start [] = []
trim_start (c ∷ s) = let rest = trim_start s in if c == b'/' then rest else c ∷ s

unfoldable pub trim_cons : ℕ → Str → Str
trim_cons c [] = if c == b'/' then [] else c ∷ []
trim_cons c (d ∷ s) = c ∷ d ∷ s

unfoldable pub trim_end : Str → Str
unfolding trim_cons
trim_end [] = []
trim_end (c ∷ s) = trim_cons c (trim_end s)

unfoldable pub trim_matches : Str → Str
unfolding trim_start trim_end
trim_matches s = trim_end (trim_start s)

-- The number of weak references to a terminal: the handles that name it, but for its owner.
abbrev pub is_weak : ℕ → Handle → Bool
is_weak id scheme_root = false
is_weak id (resource (control_term c)) = false
is_weak id (resource r) = Resource.pty r == id

unfoldable pub weak_count : ℕ → Map Handle → ℕ
unfolding Resource.pty
weak_count id [] = 0
weak_count id ((_, h) ∷ m) = let n = weak_count id m in if is_weak id h then suc n else n

-- `let id = self.next_id; self.next_id += 1;`, which wraps in a release build.
abbrev pub next : M ℕ
next s = (ok s.next_id, record s { next_id = (s.next_id + 1) % 2 ^ 64 })

abbrev pub put : ℕ → Handle → M (Unit {0})
put id h s = (ok tt, record s { handles = Map.insert s.handles id h })

unfoldable pub scheme_root_id : M ℕ
scheme_root_id = do id ← next; put id scheme_root; lift (ok id)

abbrev pub find : ℕ → Error → M Handle
find id e s = (ok_or (Map.get s.handles id) e, s)

abbrev pub as_resource : Error → Handle → Result Resource
as_resource e (resource r) = ok r
as_resource e scheme_root = err e

abbrev pub require_root : Error → Handle → Result (Unit {0})
require_root e scheme_root = ok tt
require_root e (resource r) = err e

-- `get_resource_mut`
unfoldable pub get_resource : ℕ → M Resource
get_resource id = do h ← find id ebadf; lift (as_resource ebadf h)

module _ (sys : Syscall) (t : RedoxTermios) where
  -- The handle of "ptmx" is a new terminal's owner.
  unfoldable pub open_control : ℕ → ℕ → M (Unit {0})
  open_control id flags s = (
    ok tt,
    record s {
      handles = Map.insert s.handles id (resource (control_term (new_term id flags)));
      ptys = Map.insert s.ptys id (Pty.new t id);
    },
  )

  unfoldable pub open_sub : ℕ → Str → ℕ → M (Unit {0})
  open_sub id path flags = do
    control_term_id ← lift (ok_or (parse_usize path) einval)
    h ← find control_term_id enoent
    r ← lift (as_resource enoent h)
    put id (resource (sub_term (new_term (Resource.pty r) flags)))

  unfoldable pub open_path : ℕ → Str → ℕ → ℕ → M (Unit {0})
  unfolding open_control open_sub
  open_path id [] flags fcntl_flags = lift (err enoent)
  open_path id (c ∷ path) flags fcntl_flags =
      if str_eq (c ∷ path) (bytes "ptmx")
      then open_control id flags
      else open_sub id (c ∷ path) (bit_or flags fcntl_flags)

  unfoldable pub openat : ℕ → Str → ℕ → ℕ → M OpenResult
  unfolding open_path trim_matches
  openat dirfd path flags fcntl_flags = do
    h ← find dirfd ebadf
    lift (require_root eacces h)
    id ← next
    open_path id (trim_matches path) flags fcntl_flags
    lift (ok (this_scheme id))

  -- The resource that `dup` makes.
  unfoldable pub dup_resource : Resource → Str → Result Resource
  unfolding Resource.pty Resource.flags
  dup_resource old buf =
      let a : Resource.Aux = record { pty = Resource.pty old; flags = Resource.flags old } in
      if str_eq buf (bytes "pgrp")
      then ok (pgrp a)
      else if str_eq buf (bytes "termios")
      then ok (termios a)
      else if str_eq buf (bytes "winsize")
      then ok (winsize a)
      else if str_eq buf (bytes "ptlock")
      then ok (ptlock a)
      else if str_eq buf (bytes "ptsname")
      then ok (ptsname a)
      else err einval

  unfoldable pub dup : ℕ → Str → M OpenResult
  unfolding dup_resource get_resource
  dup old_id buf = do
    old ← get_resource old_id
    r ← lift (dup_resource old buf)
    id ← next
    put id (resource r)
    lift (ok (this_scheme id))

  -- Writes back the handle and the terminal that a call has changed.
  abbrev pub store_pty : Map Pty → ℕ → Option Pty → Map Pty
  store_pty ptys id none = ptys
  store_pty ptys id (some p) = Map.insert ptys id p

  unfoldable pub settle : ℕ → Resource → Done → PtyScheme → (Result ℕ × Str) × PtyScheme
  settle id r d s = (
    (d.result, d.buf),
    record s {
      handles = Map.insert s.handles id (resource r);
      ptys = store_pty s.ptys (Resource.pty r) d.pty;
      kills = s.kills ++ d.kills;
    },
  )

  -- A call on the resource of a handle; without one, the error and the buffer as it was.
  unfoldable pub on_resource :
      ℕ
      → Str
      → (Resource → Option Pty → PtyScheme → Resource × Done)
      → PtyScheme
      → (Result ℕ × Str) × PtyScheme
  unfolding settle
  on_resource id buf f s = elim (Map.get s.handles id) [
    | none ↦ ((err ebadf, buf), s)
    | some scheme_root ↦ ((err ebadf, buf), s)
    | some (resource r) ↦ let (r', d) = f r (Map.get s.ptys (Resource.pty r)) s in settle id r' d s
  ]

  unfoldable pub read : ℕ → Str → PtyScheme → (Result ℕ × Str) × PtyScheme
  unfolding on_resource
  read id buf = on_resource id buf λ r up s.
      (Ops.reading sys t r, Ops.read sys t r up (weak_count (Resource.pty r) s.handles) buf)

  unfoldable pub write : ℕ → Str → PtyScheme → (Result ℕ × Str) × PtyScheme
  unfolding on_resource
  write id buf = on_resource id buf λ r up s. (r, Ops.write sys t r up buf)

  unfoldable pub fsync : ℕ → PtyScheme → (Result ℕ × Str) × PtyScheme
  unfolding on_resource
  fsync id = on_resource id [] λ r up s. (r, Ops.sync sys t r up)

  unfoldable pub fcntl : ℕ → ℕ → ℕ → M ℕ
  fcntl id cmd arg = do
    r ← get_resource id
    let (result, r') = Resource.fcntl sys r cmd arg
    put id (resource r')
    lift result

  unfoldable pub fevent : ℕ → M ℕ
  fevent id = do
    r ← get_resource id
    up ← gets (λ s. Map.get s.ptys (Resource.pty r))
    let (result, r') = Ops.fevent sys t r up
    put id (resource r')
    lift result

  -- The `Time` event of `daemon` in main.rs: each resource in turn is told the new count.
  unfoldable pub tick : Map Handle → ℕ → Map Pty → Result (Map Pty)
  tick [] count ptys = ok ptys
  tick ((_, scheme_root) ∷ m) count ptys = tick m count ptys
  tick ((_, resource (control_term c)) ∷ m) count ptys =
      let rest = λ (p : Pty).
        tick m count
          (Map.insert ptys c.pty (Ops.resource_timeout sys t (control_term c) p count)) in
      elim (Map.get ptys c.pty) [ none ↦ panic | some p ↦ rest p ]
  tick ((_, resource r) ∷ m) count ptys = tick m count ptys

  -- `issue_events` in main.rs: the events that are posted, by handle, and the handles after it.
  unfoldable pub issue_events : Map Handle → Map Pty → List (ℕ × ℕ) × Map Handle
  issue_events [] ptys = ([], [])
  issue_events ((id, scheme_root) ∷ m) ptys =
      let (posted, m') = issue_events m ptys in (posted, (id, scheme_root) ∷ m')
  issue_events ((id, resource r) ∷ m) ptys =
      let (posted, m') = issue_events m ptys in
      let (result, r') = Ops.events sys t r (Map.get ptys (Resource.pty r)) in
      let e : ℕ = elim result [ ok e ↦ e | _ ↦ 0 ] in
      (if e == 0 then posted else (id, e) ∷ posted, (id, resource r') ∷ m')

  -- `fn path` of each resource.
  abbrev pub resource_path : Resource → Option Pty → Str → Result ℕ × Str
  resource_path (control_term c) up buf = with buf (bytes "pty") (ok (bytes "ptmx" ∷ []))
  resource_path r none buf = (err epipe, buf)
  resource_path r (some p) buf = with buf (bytes "pty") (ok (decimal p.id ∷ []))

  unfoldable pub fpath : ℕ → Str → PtyScheme → (Result ℕ × Str) × PtyScheme
  fpath id buf s = elim (Map.get s.handles id) [
    | none ↦ ((err ebadf, buf), s)
    | some scheme_root ↦ ((err ebadf, buf), s)
    | some (resource r) ↦ (resource_path r (Map.get s.ptys (Resource.pty r)) buf, s)
  ]

  -- `fstat`, as far as it can fail.
  unfoldable pub fstat : ℕ → M (Unit {0})
  fstat id = do h ← find id ebadf; r ← lift (as_resource ebadf h); lift (ok tt)

  -- The terminal goes with the handle that owns it.
  unfoldable pub on_close : ℕ → PtyScheme → PtyScheme
  on_close id s = elim (Map.get s.handles id) [
    | some (resource (control_term c)) ↦ record s {
      handles = Map.remove s.handles id;
      ptys = Map.remove s.ptys c.pty;
    }
    | _ ↦ record s { handles = Map.remove s.handles id }
  ]
