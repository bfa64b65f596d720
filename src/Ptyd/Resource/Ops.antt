-- ===== src/Ptyd/Resource/Ops.antt =====
-- `read`, `write`, `sync`, `fevent` and `events` of each resource of ptyd.
use eos_base.Base.{
  ℕ, ◌%◌, ◌^◌, Bool, true, false, ◌&&◌, ◌||◌, not, Option, none, some, List, [], ◌∷◌, ◌++◌, ◌==◌,
  leb, ltb, if◌then◌else◌, length, drop, bit_or,
}
use eos_base.Base.Text.{Str}
use eos_base.Base.Syscall.{Syscall, has}
use eos_base.Base.Result.{Result, ok, err, panic, ebadf, eagain, ewouldblock, epipe, eio}
use eos_base.Ptyd.Termios.{RedoxTermios}
use eos_base.Ptyd.Pty.{Pty, output, update, timeout, is_empty}
use eos_base.Ptyd.Pty.Input.{Kill, input}
use eos_base.Ptyd.Resource.{
  Resource, Term, control_term, sub_term, pgrp, termios, winsize, ptlock, ptsname, copy, first_four,
  put_four,
}

-- What a call on a resource leaves: its result, the caller's buffer, and the terminal.
pub record Done : Type 0 where
  pub result : Result ℕ
  pub buf : Str
  pub pty : Option Pty
  pub kills : List Kill

abbrev pub fails : Str → Option Pty → Result ℕ → Done
fails buf p r = record { result = r; buf = buf; pty = p; kills = [] }

abbrev pub returns : ℕ → Str → Pty → Done
returns n buf p = record { result = ok n; buf = buf; pty = some p; kills = [] }

-- `packet[0]`; the packets of `miso` are never empty.
abbrev pub head_or_zero : Str → ℕ
head_or_zero [] = 0
head_or_zero (x ∷ _) = x

module _ (sys : Syscall) (t : RedoxTermios) where
  abbrev pub nonblocking : ℕ → Bool
  nonblocking flags = has flags sys.o_nonblock

  -- What does not fit goes back in front, behind a copy of the packet's first byte.
  unfoldable pub read_miso : Term → Pty → ℕ → Str → List Str → Done
  read_miso c p weak_count buf [] =
      fails buf (some p)
        (if nonblocking c.flags || weak_count == 0 then err eagain else err ewouldblock)
  read_miso c p weak_count buf (packet ∷ miso) =
      let (i, buf') = copy buf packet in
      returns i buf' (record p {
        miso = if ltb i (length packet) then (head_or_zero packet ∷ drop i packet) ∷ miso else miso;
      })

  -- `PtyControlTerm::read`; `weak_count` is the number of weak references to the terminal.
  unfoldable pub read_control : Term → Pty → ℕ → Str → Done
  unfolding read_miso
  read_control c p weak_count buf = read_miso c p weak_count buf p.miso

  unfoldable pub read_mosi : Term → Pty → Str → List Str → Done
  read_mosi c p buf [] =
      fails buf (some p) (if nonblocking c.flags then err eagain else err ewouldblock)
  read_mosi c p buf (packet ∷ mosi) =
      let (i, buf') = copy buf packet in
      returns i buf'
        (record p { mosi = if ltb i (length packet) then drop i packet ∷ mosi else mosi })

  -- `PtySubTerm::read`
  unfoldable pub read_sub : Term → Option Pty → Str → Done
  unfolding read_mosi
  read_sub c none buf = fails buf none (ok 0)
  read_sub c (some p) buf = let p' = update t p in read_mosi c p' buf p'.mosi

  unfoldable pub four_bytes : ℕ → Pty → Str → Done
  four_bytes n p buf = elim (put_four n buf) [
    | none ↦ fails buf (some p) (err ebadf)
    | some buf' ↦ returns 4 buf' p
  ]

  unfoldable pub read_bytes : Str → Pty → Str → Done
  read_bytes bytes p buf = let (i, buf') = copy buf bytes in returns i buf' p

  abbrev pub bool_to_u32 : Bool → ℕ
  bool_to_u32 true = 1
  bool_to_u32 false = 0

  -- `fn read` of each resource.
  unfoldable pub read : Resource → Option Pty → ℕ → Str → Done
  unfolding read_control read_sub four_bytes read_bytes
  read (control_term c) none weak_count buf = fails buf none panic
  read (control_term c) (some p) weak_count buf = read_control c p weak_count buf
  read (sub_term c) up weak_count buf = read_sub c up buf
  read (pgrp a) none weak_count buf = fails buf none (ok 0)
  read (pgrp a) (some p) weak_count buf = four_bytes (p.pgrp % 2 ^ 32) p buf
  read (termios a) none weak_count buf = fails buf none (ok 0)
  read (termios a) (some p) weak_count buf = read_bytes p.termios p buf
  read (winsize a) none weak_count buf = fails buf none (ok 0)
  read (winsize a) (some p) weak_count buf = read_bytes p.winsize p buf
  read (ptlock a) none weak_count buf = fails buf none (ok 0)
  read (ptlock a) (some p) weak_count buf = four_bytes (bool_to_u32 p.locked) p buf
  read (ptsname a) none weak_count buf = fails buf none (err epipe)
  read (ptsname a) (some p) weak_count buf =
      if p.locked then fails buf (some p) (err eio) else four_bytes (p.id % 2 ^ 32) p buf

  -- `PtyControlTerm::write`
  unfoldable pub write_control : Pty → Str → Done
  write_control p buf =
      if leb 64 (length p.mosi)
      then fails buf (some p) (err ewouldblock)
      else (let (p', kills) = input t p buf in
          record { result = ok (length buf); buf = buf; pty = some p'; kills = kills })

  -- `PtySubTerm::write`
  unfoldable pub write_sub : Pty → Str → Done
  write_sub p buf =
      if leb 64 (length p.miso)
      then fails buf (some p) (err ewouldblock)
      else returns (length buf) buf (output t p buf)

  unfoldable pub write_four : Option ℕ → (ℕ → Pty) → Pty → Str → Done
  write_four none set p buf = fails buf (some p) (err ebadf)
  write_four (some n) set p buf = returns 4 buf (set n)

  -- `fn write` of each resource.
  unfoldable pub write : Resource → Option Pty → Str → Done
  unfolding write_control write_sub write_four copy first_four
  write (control_term c) none buf = fails buf none panic
  write (control_term c) (some p) buf = write_control p buf
  write (sub_term c) none buf = fails buf none (err epipe)
  write (sub_term c) (some p) buf = write_sub p buf
  write (pgrp a) none buf = fails buf none (err epipe)
  write (pgrp a) (some p) buf = write_four (first_four buf) (λ n. record p { pgrp = n }) p buf
  write (termios a) none buf = fails buf none (err epipe)
  write (termios a) (some p) buf =
      let (i, termios') = copy p.termios buf in returns i buf (record p { termios = termios' })
  write (winsize a) none buf = fails buf none (err epipe)
  write (winsize a) (some p) buf =
      let (i, winsize') = copy p.winsize buf in returns i buf (record p { winsize = winsize' })
  write (ptlock a) none buf = fails buf none (ok 0)
  write (ptlock a) (some p) buf =
      write_four (first_four buf) (λ n. record p { locked = not (n == 0) }) p buf
  write (ptsname a) up buf = fails buf up (err ebadf)

  -- `fn sync`: the other side is told by a packet of its own.
  unfoldable pub sync : Resource → Option Pty → Done
  sync (sub_term c) none = fails [] none (err epipe)
  sync (sub_term c) (some p) = returns 0 [] (record p { miso = p.miso ++ ((1 ∷ []) ∷ []) })
  sync r up = fails [] up (ok 0)

  -- `events |= EVENT_READ`, once for each time that there is something to read.
  unfoldable pub term_events : Bool → Term → ℕ × Term
  term_events readable c =
      let read : ℕ = if readable && not c.notified_read then sys.event_read else 0 in
      let write : ℕ = if c.notified_write then 0 else sys.event_write in
      (bit_or read write, record c { notified_read = readable; notified_write = true })

  -- `PtySubTerm::events` leaves `notified_read` alone if the terminal is gone.
  unfoldable pub sub_events : Option Pty → Term → ℕ × Term
  unfolding term_events
  sub_events none c =
      let (e, c') = term_events false c in (e, record c' { notified_read = c.notified_read })
  sub_events (some p) c = term_events (not (is_empty p.mosi)) c

  -- `fn events` of each resource.
  unfoldable pub events : Resource → Option Pty → Result ℕ × Resource
  unfolding sub_events
  events (control_term c) none = (panic, control_term c)
  events (control_term c) (some p) =
      let (e, c') = term_events (not (is_empty p.miso)) c in (ok e, control_term c')
  events (sub_term c) up = let (e, c') = sub_events up c in (ok e, sub_term c')
  events r up = (ok 0, r)

  abbrev pub renotify : Term → Term
  renotify c = record c { notified_read = false; notified_write = false }

  -- `fn fevent` of each resource.
  unfoldable pub fevent : Resource → Option Pty → Result ℕ × Resource
  unfolding events
  fevent (control_term c) up = events (control_term (renotify c)) up
  fevent (sub_term c) up = events (sub_term (renotify c)) up
  fevent r up = (err ebadf, r)

  -- `self.notified_read = false`, with which `read` of the two terminals begins.
  unfoldable pub reading : Resource → Resource
  reading (control_term c) = control_term (record c { notified_read = false })
  reading (sub_term c) = sub_term (record c { notified_read = false })
  reading r = r

  -- `fn timeout`
  unfoldable pub resource_timeout : Resource → Pty → ℕ → Pty
  resource_timeout (control_term c) p count = timeout t p count
  resource_timeout r p count = p
