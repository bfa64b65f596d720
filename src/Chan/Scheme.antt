-- ===== src/Chan/Scheme.antt =====
-- `ChanScheme` of ipcd/src/chan.rs: the handlers.
use eos_base.Base.{
  ℕ, ◌+◌, ◌%◌, ◌^◌, Bool, true, false, not, ◌&&◌, ◌||◌, Option, none, some, List, [], ◌∷◌, ◌++◌,
  ◌==◌, min, bit_or, if◌then◌else◌, length, take, drop,
}
use eos_base.Base.Text.{Str, bytes, str_eq}
use eos_base.Base.Map
use eos_base.Base.StrMap
use eos_base.Base.Syscall.{Syscall, has, OpenResult, this_scheme, would_block}
use eos_base.Base.Result.{
  Result, ok, err, panic, ebadf, eacces, eexist, enoent, epipe, eagain, ewouldblock, einval, ok_or,
  expect, lift, gets, modify, ◌>>=◌, ◌>>◌,
}
use eos_base.SchemeUtils.FpathWriter.{with_legacy}
use eos_base.Chan.{
  Connection, open_to, closed, Listener, Extra, client, listener, scheme_root, Handle, ChanScheme,
  M, default_handle, accept, require_listener, require_client, connect, put, add, post_fevent,
}

abbrev pub find : ℕ → M Handle
find id s = (ok_or (Map.get s.handles id) ebadf, s)

-- `self.handles.get_mut(&id).unwrap()`
abbrev pub find_expect : ℕ → M Handle
find_expect id s = (expect (Map.get s.handles id), s)

abbrev pub is_empty {ℓ} : {A : Type ℓ} → List A → Bool
is_empty [] = true
is_empty (_ ∷ _) = false

abbrev pub is_closed : Connection → Bool
is_closed closed = true
is_closed _ = false

-- `.unwrap()` on the result of a call.
abbrev pub unwrap : M (Unit {0}) → M (Unit {0})
unwrap m s = (elim (m s).0 [ ok u ↦ ok u | _ ↦ panic ], (m s).1)

module _ (sys : Syscall) (sock : List (ℕ × ℕ) → Result Bool) where
  abbrev pub read_write : ℕ
  read_write = bit_or sys.event_read sys.event_write

  -- A new listener, named if the path is not empty.
  unfoldable pub open_listener : Str → ℕ → M OpenResult
  open_listener path flags s =
      let l : Listener = record {
        path = if is_empty path then none else some path;
        awaiting = [];
      } in
      (
        ok (this_scheme s.next_id),
        record s {
          listeners =
              if is_empty path then s.listeners else StrMap.insert s.listeners path s.next_id;
          handles =
              Map.insert s.handles s.next_id
                (record { flags = flags; extra = listener l; path = none });
          next_id = (s.next_id + 1) % 2 ^ 64;
        },
      )

  -- A new client, in the queue of the listener.
  unfoldable pub open_client : Str → ℕ → M OpenResult
  unfolding connect
  open_client path flags = do
    new_id ← gets (λ s. s.next_id)
    listener_id ← (λ s. (ok_or (StrMap.get s.listeners path) enoent, s))
    h ← find_expect listener_id
    h' ← lift (connect h new_id)
    put listener_id h'
    post_fevent sock listener_id read_write
    add new_id (record default_handle { flags = flags })
    lift (ok (this_scheme new_id))

  unfoldable pub open_path : Str → ℕ → M OpenResult
  unfolding open_listener open_client
  open_path path flags s =
      let create = has flags sys.o_creat in
      if create && not (StrMap.contains_key s.listeners path)
      then open_listener path flags s
      else if create && has flags sys.o_excl
      then (err eexist, s)
      else open_client path flags s

  unfoldable pub new_root : M ℕ
  new_root s = (
    ok s.next_id,
    record s {
      next_id = (s.next_id + 1) % 2 ^ 64;
      handles =
          Map.insert s.handles s.next_id (record { flags = 0; extra = scheme_root; path = none });
    },
  )

  abbrev pub require_root : Extra → Result (Unit {0})
  require_root scheme_root = ok tt
  require_root _ = err eacces

  unfoldable pub openat : ℕ → Str → ℕ → M OpenResult
  unfolding open_path
  openat dirfd path flags = do h ← find dirfd; lift (require_root h.extra); open_path path flags

  -- The remote of an accepted client, set to the new handle.
  unfoldable pub hook : Handle → ℕ → Result Handle
  hook remote new_id = elim remote.extra [
    | client c ↦ ok (record remote { extra = client (record c { remote = open_to new_id }) })
    | listener l ↦ panic
    | scheme_root ↦ err ebadf
  ]

  -- The client `remote_id`, still connected, is accepted.
  unfoldable pub accept_client : Handle → Option Str → ℕ → Handle → M OpenResult
  unfolding hook accept post_fevent
  accept_client h path remote_id remote = do
    new_id ← gets (λ s. s.next_id)
    remote' ← lift (hook remote new_id)
    put remote_id remote'
    post_fevent sock remote_id sys.event_write
    add new_id (record (accept h remote_id) { path = path })
    lift (ok (this_scheme new_id))

  -- The loop of `dup(b"listen")`, over the queue of the listener `id`, whose handle is `h`: each
  -- round takes the first id off the queue, and goes on if its client is gone.
  pub listen_loop : ℕ → Handle → Listener → List ℕ → M OpenResult
  listen_loop id h l [] s =
      if has h.flags sys.o_nonblock then (ok would_block, s) else (err ewouldblock, s)
  listen_loop id h l (remote_id ∷ awaiting) s =
      let h' = record h { extra = listener (record l { awaiting = awaiting }) } in
      let s' = record s { handles = Map.insert s.handles id h' } in
      let continue = listen_loop id h' l awaiting s' in
      elim (Map.get s'.handles remote_id) [
        | none ↦ continue
        | some remote ↦ accept_client h' l.path remote_id remote s'
      ]

  unfoldable pub dup_listen : ℕ → M OpenResult
  unfolding require_listener listen_loop
  dup_listen id = do h ← find id; l ← lift (require_listener h.extra); listen_loop id h l l.awaiting

  unfoldable pub dup_connect : ℕ → M OpenResult
  unfolding require_listener connect post_fevent
  dup_connect id = do
    new_id ← gets (λ s. s.next_id)
    h ← find id
    l ← lift (require_listener h.extra)
    h' ← lift (connect h new_id)
    put id h'
    post_fevent sock id read_write
    add new_id default_handle
    lift (ok (this_scheme new_id))

  abbrev pub unnamed : Handle → Result (Unit {0})
  unnamed h = elim h.path [
    | some _ ↦ err ebadf
    | none ↦ elim h.extra [ scheme_root ↦ err ebadf | _ ↦ ok tt ]
  ]

  -- Any other name: `utf8` tells whether `core::str::from_utf8` accepts it.
  unfoldable pub dup_named : (Str → Bool) → ℕ → Str → M OpenResult
  unfolding open_path
  dup_named utf8 id buf =
      if is_empty buf
      then lift (err ebadf)
      else if not (utf8 buf)
      then lift (err ebadf)
      else (do h ← find id; lift (unnamed h); open_path buf h.flags)

  unfoldable pub dup : (Str → Bool) → ℕ → Str → M OpenResult
  unfolding dup_listen dup_connect dup_named
  dup utf8 id buf =
      if str_eq buf (bytes "listen")
      then dup_listen id
      else if str_eq buf (bytes "connect")
      then dup_connect id
      else dup_named utf8 id buf

  -- What a client without a partner gets.
  abbrev pub no_remote : Connection → ℕ → Result ℕ
  no_remote remote flags =
      if is_closed remote
      then err epipe
      else if has flags sys.o_nonblock
      then err eagain
      else err ewouldblock

  -- The bytes go to the buffer of the remote, which is told if it had nothing to read.
  unfoldable pub deliver : ℕ → Handle → Str → M ℕ
  unfolding post_fevent
  deliver remote_id remote buf = elim remote.extra [
    | client c ↦ (do
      let buffer = c.buffer ++ buf
      put remote_id (record remote { extra = client (record c { buffer = buffer }) })
      (if length buffer == length buf
          then post_fevent sock remote_id sys.event_read
          else lift (ok tt))
      lift (ok (length buf)))
    | _ ↦ lift panic
  ]

  unfoldable pub write : ℕ → Str → ℕ → M ℕ
  write id buf flags = do
    h ← find id
    c ← lift (require_client h.extra)
    elim c.remote [
      | open_to remote_id ↦ (do remote ← find_expect remote_id; deliver remote_id remote buf)
      | other ↦ lift (no_remote other flags)
    ]

  -- `read` into a buffer of `len` bytes: the bytes read.
  unfoldable pub read : ℕ → ℕ → ℕ → M Str
  unfolding require_client
  read id len flags = do
    h ← find id
    c ← lift (require_client h.extra)
    (if not (is_empty c.buffer)
        then (let n = min len (length c.buffer) in
            do
              put id (record h { extra = client (record c { buffer = drop n c.buffer }) })
              lift (ok (take n c.buffer)))
        else if is_closed c.remote
        then lift (ok [])
        else if has flags sys.o_nonblock
        then lift (err eagain)
        else lift (err ewouldblock))

  -- The remote of a client that closes.
  unfoldable pub hang_up : ℕ → Handle → M (Unit {0})
  unfolding post_fevent
  hang_up remote_id remote = elim remote.extra [
    | client c ↦ (do
      put remote_id (record remote { extra = client (record c { remote = closed }) })
      (if is_empty c.buffer
          then unwrap (post_fevent sock remote_id sys.event_read)
          else lift (ok tt)))
    | _ ↦ lift panic
  ]

  unfoldable pub on_close : ℕ → M (Unit {0})
  unfolding hang_up
  on_close id = do
    h ← find_expect id
    modify (λ s. record s { handles = Map.remove s.handles id })
    elim h.extra [
      | client c ↦ elim c.remote [
        | open_to remote_id ↦ (do remote ← find_expect remote_id; hang_up remote_id remote)
        | _ ↦ lift (ok tt)
      ]
      | listener l ↦ elim l.path [
        | none ↦ lift (ok tt)
        | some path ↦ modify (λ s. record s { listeners = StrMap.remove s.listeners path })
      ]
      | scheme_root ↦ lift (ok tt)
    ]

  unfoldable pub fcntl : ℕ → ℕ → ℕ → M ℕ
  fcntl id cmd arg = do
    h ← find id
    (if cmd == sys.f_getfl
        then lift (ok h.flags)
        else if cmd == sys.f_setfl
        then (do put id (record h { flags = arg }); lift (ok 0))
        else lift (err einval))

  -- `|=` on the flags, which begin empty.
  unfoldable pub fevent : ℕ → M ℕ
  fevent id = do
    h ← find id
    elim h.extra [
      | client c ↦ lift (
          ok (
            bit_or (elim c.remote [ open_to _ ↦ sys.event_write | _ ↦ 0 ])
              (if not (is_empty c.buffer) || is_closed c.remote then sys.event_read else 0)))
      | listener l ↦ lift (ok (if is_empty l.awaiting then 0 else read_write))
      | scheme_root ↦ lift (ok 0)
    ]

  unfoldable pub fsync : ℕ → M (Unit {0})
  fsync id = do h ← find id; lift (ok tt)

  -- The texts that `fpath` writes behind "chan:".
  abbrev pub path_of : Result Handle → Result (List Str)
  path_of (ok h) = elim h.extra [
    | scheme_root ↦ ok []
    | _ ↦ elim h.path [ none ↦ err ebadf | some p ↦ ok (p ∷ []) ]
  ]
  path_of (err e) = err e
  path_of panic = panic

  unfoldable pub fpath : ℕ → Str → ChanScheme → Result ℕ × Str
  fpath id buf s = with_legacy buf (bytes "chan") (path_of (find id s).0)
