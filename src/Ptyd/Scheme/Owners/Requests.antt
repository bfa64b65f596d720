-- ===== src/Ptyd/Scheme/Owners/Requests.antt =====
-- All that ptyd/src/scheme.rs and the loop of ptyd/src/main.rs do, in any order, from the start on.
use eos_base.Base.{
  ℕ, ◌+◌, ◌^◌, ◌<◌, ◌≡◌, refl, Bool, true, false, Option, some, [], ◌∷◌, arith, ◌==◌, Bool-cases,
  Option-cases, inl, inr,
}
use eos_base.Base.Text.{Str}
use eos_base.Base.Map
use eos_base.Base.Map.{get-insert}
use eos_base.Base.Syscall.{Syscall}
use eos_base.Base.Result.{Result, ok, err, panic, Result-cases}
use eos_base.Ptyd.Termios.{RedoxTermios}
use eos_base.Ptyd.Pty.{Pty}
use eos_base.Ptyd.Resource
use eos_base.Ptyd.Resource.{
  Resource, control_term, sub_term, pgrp, termios, winsize, ptlock, ptsname,
}
use eos_base.Ptyd.Resource.Ops
use eos_base.Ptyd.Resource.Ops.{sub_events, term_events}
use eos_base.Ptyd.Scheme
use eos_base.Ptyd.Scheme.{
  Handle, resource, scheme_root, PtyScheme, scheme_root_id, openat, dup, read, write, fsync, fcntl,
  fevent, tick, issue_events, on_close, get_resource,
}
use eos_base.Ptyd.Scheme.Owners.{
  IsValid, cell, is_some, owner_of, read-IsValid, write-IsValid, on_close-IsValid,
  on_resource-IsValid, replace-IsValid,
}
use eos_base.Ptyd.Scheme.Owners.Opens.{openat-IsValid, dup-IsValid, cell-suc, fresh_cell}
use eos_base.Ptyd.Scheme.Owners.Calls.{is_panic, read-write_total}

pub data Request : Type 0 where
  root : Request
  opens : ℕ → Str → ℕ → ℕ → Request
  dups : ℕ → Str → Request
  reads : ℕ → Str → Request
  writes : ℕ → Str → Request
  syncs : ℕ → Request
  controls : ℕ → ℕ → ℕ → Request
  listens : ℕ → Request
  closes : ℕ → Request
  times : ℕ → Request
  posts : Request

module _ (sys : Syscall) (t : RedoxTermios) where
  -- The terminals after a tick; a panic leaves them as they were.
  abbrev pub ticked : Result (Map.Map Pty) → Map.Map Pty → Map.Map Pty
  ticked (ok ptys) old = ptys
  ticked (err e) old = old
  ticked panic old = old

  unfoldable pub handle : Request → PtyScheme → PtyScheme
  handle root s = (scheme_root_id s).1
  handle (opens dirfd path flags fcntl_flags) s = (openat sys t dirfd path flags fcntl_flags s).1
  handle (dups id buf) s = (dup sys t id buf s).1
  handle (reads id buf) s = (read sys t id buf s).1
  handle (writes id buf) s = (write sys t id buf s).1
  handle (syncs id) s = (fsync sys t id s).1
  handle (controls id cmd arg) s = (fcntl sys t id cmd arg s).1
  handle (listens id) s = (fevent sys t id s).1
  handle (closes id) s = on_close sys t id s
  handle (times count) s = record s { ptys = ticked (tick sys t s.handles count s.ptys) s.ptys }
  handle posts s = record s { handles = (issue_events sys t s.handles s.ptys).1 }

  -- What requests make of a state, as long as the ids are not used up.
  pub data Reach (s : PtyScheme) : PtyScheme → Type 0 where
    here : Reach s s
    after :
        {s' : PtyScheme}
        → Reach s s'
        → s'.next_id + 1 < 2 ^ 64
        → (r : Request) → Reach s (handle r s')

  -- The same resource of the same terminal.
  record Alike (r r' : Resource) : Type 0 where
    owner : owner_of (resource r') ≡ owner_of (resource r)
    names : Resource.pty r' ≡ Resource.pty r

  fcntl-Alike : (r : Resource) (cmd arg : ℕ) → Alike r (Resource.fcntl sys r cmd arg).1
  unfolding Resource.fcntl Resource.set_flags Resource.pty
  fcntl-Alike r cmd arg = record { owner = ground arith; names = ground arith }

  events-Alike : (r : Resource) (up : Option Pty) → Alike r (Ops.events sys t r up).1
  unfolding Ops.events Resource.pty sub_events term_events
  events-Alike r up = record { owner = ground arith; names = ground arith }

  fevent-Alike : (r : Resource) (up : Option Pty) → Alike r (Ops.fevent sys t r up).1
  unfolding Ops.fevent Ops.events Resource.pty sub_events term_events
  fevent-Alike r up = record { owner = ground arith; names = ground arith }

  root-IsValid : (s : PtyScheme) → s.next_id + 1 < 2 ^ 64 → IsValid s → IsValid (scheme_root_id s).1
  unfolding IsValid scheme_root_id
  root-IsValid s small v i =
      let fresh =
        fresh_cell s.next_id (Map.get s.handles s.next_id) (is_some (Map.get s.ptys s.next_id))
          (v s.next_id) in
      ground (
        arith,
        fresh,
        cell-suc s.next_id i (Map.get s.handles i) (is_some (Map.get s.ptys i)) small (v i),
        get-insert s.handles s.next_id scheme_root i,
      )

  put-IsValid :
      (s : PtyScheme) (id : ℕ) (r r' : Resource)
      → IsValid s
      → Map.get s.handles id ≡ some (resource r)
      → Alike r r'
      → IsValid (record s { handles = Map.insert s.handles id (resource r') })
  put-IsValid s id r r' v h a = replace-IsValid sys t s id r r' s.ptys v h a.owner a.names λ _. refl

  fcntl-IsValid :
      (s : PtyScheme) (id cmd arg : ℕ) → IsValid s → IsValid (fcntl sys t id cmd arg s).1
  unfolding fcntl get_resource
  fcntl-IsValid s id cmd arg v = elim (Option-cases (Map.get s.handles id)) [
    | inl nothing ↦ rw (fcntl, get_resource, nothing) v
    | inr (scheme_root, h) ↦ rw (fcntl, get_resource, h) v
    | inr (resource r, h) ↦
        rw (fcntl, get_resource, h)
          (put-IsValid s id r (Resource.fcntl sys r cmd arg).1 v h (fcntl-Alike r cmd arg))
  ]

  fevent-IsValid : (s : PtyScheme) (id : ℕ) → IsValid s → IsValid (fevent sys t id s).1
  unfolding fevent get_resource
  fevent-IsValid s id v = elim (Option-cases (Map.get s.handles id)) [
    | inl nothing ↦ rw (fevent, get_resource, nothing) v
    | inr (scheme_root, h) ↦ rw (fevent, get_resource, h) v
    | inr (resource r, h) ↦
        let up = Map.get s.ptys (Resource.pty r) in
        rw (fevent, get_resource, h)
          (put-IsValid s id r (Ops.fevent sys t r up).1 v h (fevent-Alike r up))
  ]

  sync-live : (r : Resource) (up : Option Pty) → is_some (Ops.sync sys t r up).pty ≡ is_some up
  unfolding Ops.sync
  sync-live r up = ground arith

  fsync-IsValid : (s : PtyScheme) (id : ℕ) → IsValid s → IsValid (fsync sys t id s).1
  unfolding fsync
  fsync-IsValid s id v =
      on_resource-IsValid sys t s id [] (λ r up s. (r, Ops.sync sys t r up))
        (λ r up. record { owner = refl; names = refl; live = sync-live r up }) v

  -- A tick changes terminals, but none comes or goes.
  tick-live :
      (m : Map.Map Handle) (count : ℕ) (ptys ptys' : Map.Map Pty) (i : ℕ)
      → tick sys t m count ptys ≡ ok ptys'
      → is_some (Map.get ptys' i) ≡ is_some (Map.get ptys i)
  unfolding tick
  tick-live [] count ptys ptys' i h = let e : ptys ≡ ptys' = ground arith in rw e refl
  tick-live ((_, scheme_root) ∷ m) count ptys ptys' i h = tick-live m count ptys ptys' i h
  tick-live ((_, resource (control_term c)) ∷ m) count ptys ptys' i h =
      elim (Option-cases (Map.get ptys c.pty)) [
        | inl gone ↦ absurd (ground arith)
        | inr (p, there) ↦
            let p' = Ops.resource_timeout sys t (control_term c) p count in
            ground (
              arith,
              there,
              get-insert ptys c.pty p' i,
              tick-live m count (Map.insert ptys c.pty p') ptys' i (ground arith),
            )
      ]
  tick-live ((_, resource (sub_term c)) ∷ m) count ptys ptys' i h = tick-live m count ptys ptys' i h
  tick-live ((_, resource (pgrp a)) ∷ m) count ptys ptys' i h = tick-live m count ptys ptys' i h
  tick-live ((_, resource (termios a)) ∷ m) count ptys ptys' i h = tick-live m count ptys ptys' i h
  tick-live ((_, resource (winsize a)) ∷ m) count ptys ptys' i h = tick-live m count ptys ptys' i h
  tick-live ((_, resource (ptlock a)) ∷ m) count ptys ptys' i h = tick-live m count ptys ptys' i h
  tick-live ((_, resource (ptsname a)) ∷ m) count ptys ptys' i h = tick-live m count ptys ptys' i h

  ticked-live :
      (m : Map.Map Handle) (count : ℕ) (ptys : Map.Map Pty) (i : ℕ)
      → is_some (Map.get (ticked (tick sys t m count ptys) ptys) i) ≡ is_some (Map.get ptys i)
  ticked-live m count ptys i = elim (Result-cases (tick sys t m count ptys)) [
    | inl (ptys', done) ↦ rw done (tick-live m count ptys ptys' i done)
    | inr (inl (e, failed)) ↦ rw failed refl
    | inr (inr panics) ↦ rw panics refl
  ]

  -- The events that are posted change what handles were told.
  issue_events-cell :
      (n i : ℕ) (live : Bool) (m : Map.Map Handle) (ptys : Map.Map Pty)
      → cell n i (Map.get m i) live ≡ true
      → cell n i (Map.get (issue_events sys t m ptys).1 i) live ≡ true
  unfolding issue_events Map.get
  issue_events-cell n i live [] ptys h = h
  issue_events-cell n i live ((id, scheme_root) ∷ m) ptys h =
      ground (arith, issue_events-cell n i live m ptys)
  issue_events-cell n i live ((id, resource r) ∷ m) ptys h = elim (Bool-cases (id == i)) [
    | inr other ↦ ground (arith, issue_events-cell n i live m ptys)
    | inl same ↦
        let a = events-Alike r (Map.get ptys (Resource.pty r)) in ground (arith, a.owner, a.names)
  ]

  handle-IsValid :
      (r : Request) (s : PtyScheme) → s.next_id + 1 < 2 ^ 64 → IsValid s → IsValid (handle r s)
  unfolding handle IsValid
  handle-IsValid root s small v = root-IsValid s small v
  handle-IsValid (opens dirfd path flags fcntl_flags) s small v =
      openat-IsValid sys t s dirfd path flags fcntl_flags small v
  handle-IsValid (dups id buf) s small v = dup-IsValid sys t s id buf small v
  handle-IsValid (reads id buf) s small v = read-IsValid sys t s id buf v
  handle-IsValid (writes id buf) s small v = write-IsValid sys t s id buf v
  handle-IsValid (syncs id) s small v = fsync-IsValid s id v
  handle-IsValid (controls id cmd arg) s small v = fcntl-IsValid s id cmd arg v
  handle-IsValid (listens id) s small v = fevent-IsValid s id v
  handle-IsValid (closes id) s small v = on_close-IsValid sys t s id v
  handle-IsValid (times count) s small v = λ i. rw (ticked-live s.handles count s.ptys i) (v i)
  handle-IsValid posts s small v =
      λ i. issue_events-cell s.next_id i (is_some (Map.get s.ptys i)) s.handles s.ptys (v i)

  Reach-IsValid : {s s' : PtyScheme} → IsValid s → Reach s s' → IsValid s'
  Reach-IsValid v here = v
  Reach-IsValid v (after {s'} q small r) = handle-IsValid r s' small (Reach-IsValid v q)

  new-IsValid : IsValid Scheme.new
  unfolding IsValid Map.get
  new-IsValid i = refl

  -- After any requests, ticks and posts of events from the start on, as long as the next id is below
  -- 2 ^ 64 - 1, the terminal with a number is there exactly while the handle of that number is its
  -- owner, and no read and no write of any handle, open or not, is a panic.
  pub Reach-total :
      (s : PtyScheme) (id : ℕ) (buf : Str)
      → Reach Scheme.new s
      → IsValid s
        × (is_panic (read sys t id buf s).0.0 ≡ false)
        × (is_panic (write sys t id buf s).0.0 ≡ false)
  Reach-total s id buf q =
      let v = Reach-IsValid new-IsValid q in
      let (reading, writing) = read-write_total sys t s id buf v in (v, reading, writing)
