-- ===== src/Chan/Handshake.antt =====
-- A connection over a named listener: who is whose remote behind it.
use eos_base.Base.{
  ℕ, ◌+◌, ◌%◌, ◌^◌, ◌<◌, ◌≡◌, ◌≢◌, refl, Bool, true, Option, none, some, List, [], ◌∷◌, ◌++◌, arith,
}
use eos_base.Base.Text.{Str}
use eos_base.Base.Map
use eos_base.Base.Map.{get-insert, map_laws}
use eos_base.Base.StrMap
use eos_base.Base.Syscall.{Syscall, this_scheme}
use eos_base.Base.Result.{Result, ok}
use eos_base.Chan.{
  open_to, Client, Listener, client, listener, Handle, ChanScheme, post_fevent, accept,
  default_handle, default_client,
}
use eos_base.Chan.Scheme.{dup_listen, accept_client, hook, open_client, read_write}

-- A client with nothing to read.
abbrev pub connected : ℕ → Option Str → ℕ → Handle
connected flags path remote = record {
  flags = flags;
  extra = client (record { buffer = []; remote = open_to remote });
  path = path;
}

module _ (sys : Syscall) (sock : List (ℕ × ℕ) → Result Bool) where
  open_client-works :
      (s : ChanScheme) (path : Str) (lid flags : ℕ) (h : Handle) (l : Listener)
      → ((posts : List (ℕ × ℕ)) → sock posts ≡ ok true)
      → StrMap.get s.listeners path ≡ some lid
      → Map.get s.handles lid ≡ some h
      → h.extra ≡ listener l
      → open_client sys sock path flags s ≡ (
        ok (this_scheme s.next_id),
        record s {
          handles =
              Map.insert
                (Map.insert s.handles lid (record h {
                  extra = listener (record l { awaiting = l.awaiting ++ (s.next_id ∷ []) });
                }))
                s.next_id
                (record default_handle { flags = flags });
          next_id = (s.next_id + 1) % 2 ^ 64;
          posts = (lid, read_write sys sock) ∷ s.posts;
        },
      )
  unfolding open_client post_fevent
  open_client-works s path lid flags h l works gl gh eh = rw (gl, gh, eh, works)

  dup_listen-works :
      (s : ChanScheme) (lid n : ℕ) (h : Handle) (l : Listener) (peer : Handle) (c : Client)
      → ((posts : List (ℕ × ℕ)) → sock posts ≡ ok true)
      → Map.get s.handles lid ≡ some h
      → h.extra ≡ listener l
      → l.awaiting ≡ n ∷ []
      → lid ≢ n
      → Map.get s.handles n ≡ some peer
      → peer.extra ≡ client c
      → dup_listen sys sock lid s ≡ (
        ok (this_scheme s.next_id),
        record s {
          handles =
              Map.insert
                (Map.insert
                  (Map.insert s.handles lid
                    (record h { extra = listener (record l { awaiting = [] }) }))
                  n
                  (record peer { extra = client (record c { remote = open_to s.next_id }) }))
                s.next_id
                (record {
                  flags = h.flags;
                  extra = client (record { buffer = []; remote = open_to n });
                  path = l.path;
                });
          next_id = (s.next_id + 1) % 2 ^ 64;
          posts = (n, sys.event_write) ∷ s.posts;
        },
      )
  unfolding dup_listen accept_client post_fevent hook accept Map.get Map.insert
  dup_listen-works s lid n h l peer c works gh eh al ne gn en =
      let popped = record h { extra = listener (record l { awaiting = [] }) } in
      let still : Map.get (Map.insert s.handles lid popped) n ≡ some peer =
        ground (arith, get-insert s.handles lid popped n) in
      rw (gh, eh, al) (rw (still, accept_client, en, works))

  module _ (s : ChanScheme) (path : Str) (lid flags : ℕ) (h : Handle) (l : Listener)
      (works : (posts : List (ℕ × ℕ)) → sock posts ≡ ok true)
      (gl : StrMap.get s.listeners path ≡ some lid) (gh : Map.get s.handles lid ≡ some h)
      (eh : h.extra ≡ listener l) (al : l.awaiting ≡ []) (old : lid < s.next_id)
      (small : s.next_id + 1 < 2 ^ 64) where
    abbrev opened_state : ChanScheme
    opened_state = record s {
      handles =
          Map.insert
            (Map.insert s.handles lid (record h {
              extra = listener (record l { awaiting = l.awaiting ++ (s.next_id ∷ []) });
            }))
            s.next_id (record default_handle { flags = flags });
      next_id = (s.next_id + 1) % 2 ^ 64;
      posts = (lid, read_write sys sock) ∷ s.posts;
    }

    -- With a socket that takes every event, a listener that is older than the next id, and a next id below
    -- 2 ^ 64 - 1: a client that opens the name of the listener while its queue is empty gets the next
    -- id, accepting it gives the id after that, and then each of the two is a client whose remote is the
    -- other, with nothing to read.
    pub dup_listen-open_client :
        let n = s.next_id in
        let (opened, s1) = open_client sys sock path flags s in
        let (accepted, s2) = dup_listen sys sock lid s1 in
        (opened ≡ ok (this_scheme n))
        × (accepted ≡ ok (this_scheme (n + 1)))
        × (Map.get s2.handles n ≡ some (connected flags none (n + 1)))
        × (Map.get s2.handles (n + 1) ≡ some (connected h.flags l.path n))
    dup_listen-open_client =
        let n = s.next_id in
        let unwrapped : (n + 1) % 2 ^ 64 ≡ n + 1 = ground arith in
        let accepted =
          dup_listen-works opened_state lid n
            (record h { extra = listener (record l { awaiting = l.awaiting ++ (n ∷ []) }) })
            (record l { awaiting = l.awaiting ++ (n ∷ []) })
            (record default_handle { flags = flags }) default_client works
            (simp map_laws (ground arith)) refl (rw al) (ground arith)
            (simp map_laws (ground arith)) refl in
        rw (open_client-works s path lid flags h l works gl gh eh, accepted, unwrapped)
          (refl, refl, simp map_laws (ground arith), simp map_laws (ground arith))
