-- ===== src/Chan/Delivery.antt =====
-- Bytes between two connected clients, and what a failed notification leaves behind.
use eos_base.Base.{
  ℕ, ◌≡◌, ◌≢◌, refl, ap, Bool, false, none, some, List, [], ◌∷◌, ◌++◌, arith, min, length, take,
  if◌then◌else◌,
}
use eos_base.Base.Text.{Str}
use eos_base.Base.Map
use eos_base.Base.Map.{get-insert, map_laws}
use eos_base.Base.StrMap
use eos_base.Base.Syscall.{Syscall}
use eos_base.Base.Result.{Result, ok, err, panic, Error}
use eos_base.Chan.{
  open_to, Client, Listener, client, listener, Handle, ChanScheme, post_fevent, require_client,
}
use eos_base.Chan.Scheme.{
  is_empty, read, write, deliver, open_client, open_listener, dup_listen, accept_client, read_write,
}

not_empty : (s : Str) (x : ℕ) (t : Str) → is_empty (s ++ (x ∷ t)) ≡ false
not_empty [] x t = refl
not_empty (y ∷ s) x t = refl

module _ (sys : Syscall) (sock : List (ℕ × ℕ) → Result Bool) where
  deliver-buffer :
      (s : ChanScheme) (b : ℕ) (h : Handle) (c : Client) (buf : Str)
      → h.extra ≡ client c
      → Map.get (deliver sys sock b h buf s).1.handles b
        ≡ some (record h { extra = client (record c { buffer = c.buffer ++ buf }) })
  unfolding deliver post_fevent
  deliver-buffer s b h c buf e = ground (
    arith,
    get-insert s.handles b (record h { extra = client (record c { buffer = c.buffer ++ buf }) }) b,
  )

  write-deliver :
      (s : ChanScheme) (a b fa : ℕ) (ha hb : Handle) (ca : Client) (buf : Str)
      → Map.get s.handles a ≡ some ha
      → ha.extra ≡ client ca
      → ca.remote ≡ open_to b
      → Map.get s.handles b ≡ some hb
      → write sys sock a buf fa s ≡ deliver sys sock b hb buf s
  unfolding write require_client
  write-deliver s a b fa ha hb ca buf ga ea ra gb = rw (ga, ea, ra, gb)

  read-buffer :
      (s : ChanScheme) (b len fb : ℕ) (h : Handle) (c : Client)
      → Map.get s.handles b ≡ some h
      → h.extra ≡ client c
      → is_empty c.buffer ≡ false
      → (read sys sock b len fb s).0 ≡ ok (take (min len (length c.buffer)) c.buffer)
  unfolding read require_client
  read-buffer s b len fb h c g e full = rw (g, e, full)

  -- What a client writes to its remote is what the remote reads, behind what it had not yet read,
  -- whether or not the remote could be told of it.
  pub read-write_remote :
      (s : ChanScheme) (a b len fa fb x : ℕ) (ha hb : Handle) (ca cb : Client) (buf : Str)
      → Map.get s.handles a ≡ some ha
      → ha.extra ≡ client ca
      → ca.remote ≡ open_to b
      → Map.get s.handles b ≡ some hb
      → hb.extra ≡ client cb
      → let bytes = cb.buffer ++ (x ∷ buf) in
        (read sys sock b len fb (write sys sock a (x ∷ buf) fa s).1).0
        ≡ ok (take (min len (length bytes)) bytes)
  read-write_remote s a b len fa fb x ha hb ca cb buf ga ea ra gb eb =
      rw (write-deliver s a b fa ha hb ca (x ∷ buf) ga ea ra gb) (
        read-buffer (deliver sys sock b hb (x ∷ buf) s).1 b len fb
          (record hb { extra = client (record cb { buffer = cb.buffer ++ (x ∷ buf) }) })
          (record cb { buffer = cb.buffer ++ (x ∷ buf) }) (deliver-buffer s b hb cb (x ∷ buf) eb)
          refl (not_empty cb.buffer x buf))

  open_client-fails :
      (s : ChanScheme) (path : Str) (lid flags : ℕ) (h : Handle) (l : Listener) (e : Error)
      → StrMap.get s.listeners path ≡ some lid
      → Map.get s.handles lid ≡ some h
      → h.extra ≡ listener l
      → sock ((lid, read_write sys sock) ∷ s.posts) ≡ err e
      → open_client sys sock path flags s ≡ (
        err e,
        record s {
          handles = Map.insert s.handles lid (record h {
            extra = listener (record l { awaiting = l.awaiting ++ (s.next_id ∷ []) });
          });
          posts = (lid, read_write sys sock) ∷ s.posts;
        },
      )
  unfolding open_client post_fevent
  open_client-fails s path lid flags h l e gl gh eh fails = rw (gl, gh, eh, fails)

  dup_listen-panics :
      (s : ChanScheme) (lid n : ℕ) (h : Handle) (l : Listener) (stale : Handle) (m : Listener)
      → Map.get s.handles lid ≡ some h
      → h.extra ≡ listener l
      → l.awaiting ≡ n ∷ []
      → lid ≢ n
      → Map.get s.handles n ≡ some stale
      → stale.extra ≡ listener m
      → (dup_listen sys sock lid s).0 ≡ panic
  unfolding dup_listen accept_client Map.get Map.insert
  dup_listen-panics s lid n h l stale m gh eh al ne gn en =
      let popped = record h { extra = listener (record l { awaiting = [] }) } in
      let still : Map.get (Map.insert s.handles lid popped) n ≡ some stale =
        ground (arith, get-insert s.handles lid popped n) in
      rw (gh, eh, al) (rw (still, accept_client, en))

  -- A connection to a listener with an empty queue whose event the socket refuses fails, and leaves
  -- its id in the queue. The id goes to the next handle: if that is a new listener, accepting from the
  -- queue is a panic.
  pub dup_listen_stale :
      (s : ChanScheme) (path other : Str) (lid flags flags' : ℕ) (h : Handle) (l : Listener)
      (e : Error)
      → StrMap.get s.listeners path ≡ some lid
      → Map.get s.handles lid ≡ some h
      → h.extra ≡ listener l
      → l.awaiting ≡ []
      → lid ≢ s.next_id
      → sock ((lid, read_write sys sock) ∷ s.posts) ≡ err e
      → let (failed, s1) = open_client sys sock path flags s in
        let (opened, s2) = open_listener sys sock other flags' s1 in
        (failed ≡ err e) × ((dup_listen sys sock lid s2).0 ≡ panic)
  unfolding open_listener
  dup_listen_stale s path other lid flags flags' h l e gl gh eh al ne fails =
      let queued : Handle = record h {
        extra = listener (record l { awaiting = l.awaiting ++ (s.next_id ∷ []) });
      } in
      let failed = open_client-fails s path lid flags h l e gl gh eh fails in
      let s1 = (open_client sys sock path flags s).1 in
      let s2 = (open_listener sys sock other flags' s1).1 in
      (
        ap (λ r. r.0) failed,
        rw failed (
            dup_listen-panics _ lid s.next_id queued
              (record l { awaiting = l.awaiting ++ (s.next_id ∷ []) })
              (record {
                flags = flags';
                extra =
                    listener (record {
                      path = if is_empty other then none else some other;
                      awaiting = [];
                    });
                path = none;
              })
              (record { path = if is_empty other then none else some other; awaiting = [] })
              (simp map_laws (ground arith)) refl (rw al) ne (simp map_laws (ground arith)) refl),
      )
