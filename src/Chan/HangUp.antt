-- ===== src/Chan/HangUp.antt =====
-- What is left of a connection when one of its clients closes.
use eos_base.Base.{
  ℕ, zero, suc, ◌≡◌, ◌≢◌, refl, ap, Bool, true, none, some, List, [], ◌∷◌, ◌++◌, ◌+◌, arith, take,
  drop, take-min, drop-min, take-add, drop-add, Bool-cases, inl, inr,
}
use eos_base.Base.Text.{Str}
use eos_base.Base.Map
use eos_base.Base.Map.{get-insert, get-remove, map_laws}
use eos_base.Base.Syscall.{Syscall}
use eos_base.Base.Result.{Result, ok, err, epipe, lift, ◌>>=◌}
use eos_base.Chan.{
  open_to, closed, Client, client, Handle, ChanScheme, M, post_fevent, require_client,
}
use eos_base.Chan.Scheme.{unwrap, is_empty, on_close, hang_up, read, write}

empty_buffer : (xs : Str) (n : ℕ) → is_empty xs ≡ true → (take n xs ≡ []) × (drop n xs ≡ [])
empty_buffer [] zero h = (refl, refl)
empty_buffer [] (suc n) h = (refl, refl)
empty_buffer (x ∷ xs) n h = absurd (ground arith)

empty_nil : (xs : Str) → is_empty xs ≡ true → xs ≡ []
empty_nil [] h = refl
empty_nil (x ∷ xs) h = absurd (ground arith)

-- Reads of one handle, one after the other, each into a buffer of the given length: all that they give.
pub reads : Syscall → (List (ℕ × ℕ) → Result Bool) → ℕ → ℕ → List ℕ → M Str
reads sys sock b flags [] = lift (ok [])
reads sys sock b flags (len ∷ lens) = do
  given ← read sys sock b len flags
  more ← reads sys sock b flags lens
  lift (ok (given ++ more))

pub total : List ℕ → ℕ
total [] = 0
total (len ∷ lens) = len + total lens

-- A client that is left alone, with what it has not yet read.
record Left (s : ChanScheme) (b : ℕ) (buffer : Str) : Type 0 where
  handle : Handle
  extra : Client
  there : Map.get s.handles b ≡ some handle
  is_client : handle.extra ≡ client extra
  alone : extra.remote ≡ closed
  holds : extra.buffer ≡ buffer

module _ (sys : Syscall) (sock : List (ℕ × ℕ) → Result Bool) where
  hang_up-works :
      (s : ChanScheme) (b : ℕ) (h : Handle) (c : Client)
      → ((posts : List (ℕ × ℕ)) → sock posts ≡ ok true)
      → h.extra ≡ client c
      → ((hang_up sys sock b h s).0 ≡ ok tt)
        × ((hang_up sys sock b h s).1.handles
            ≡ Map.insert s.handles b (record h { extra = client (record c { remote = closed }) }))
  unfolding hang_up post_fevent
  hang_up-works s b h c works e = elim (Bool-cases (is_empty c.buffer)) [
    | inl nothing ↦ rw (e, nothing) (rw (unwrap, post_fevent, works) (refl, refl))
    | inr some_left ↦ rw (e, some_left) (refl, refl)
  ]

  on_close-hang_up :
      (s : ChanScheme) (a b : ℕ) (ha hb : Handle) (ca : Client)
      → Map.get s.handles a ≡ some ha
      → ha.extra ≡ client ca
      → ca.remote ≡ open_to b
      → Map.get s.handles b ≡ some hb
      → a ≢ b
      → on_close sys sock a s
        ≡ hang_up sys sock b hb (record s { handles = Map.remove s.handles a })
  unfolding on_close Map.get Map.remove
  on_close-hang_up s a b ha hb ca ga ea ra gb ne =
      let still : Map.get (Map.remove s.handles a) b ≡ some hb =
        ground (arith, get-remove s.handles a b) in
      rw (ga, ea, ra) (rw still)

  write-closed :
      (s : ChanScheme) (b flags : ℕ) (h : Handle) (c : Client) (buf : Str)
      → Map.get s.handles b ≡ some h
      → h.extra ≡ client c
      → c.remote ≡ closed
      → write sys sock b buf flags s ≡ (err epipe, s)
  unfolding write require_client
  write-closed s b flags h c buf g e r = rw (g, e, r)

  read-Left :
      (s : ChanScheme) (b len flags : ℕ) (buffer : Str)
      → Left s b buffer
      → ((read sys sock b len flags s).0 ≡ ok (take len buffer))
        × Left (read sys sock b len flags s).1 b (drop len buffer)
  unfolding read require_client
  read-Left s b len flags buffer l = elim (Bool-cases (is_empty l.extra.buffer)) [
    | inl nothing ↦
        let (given, left) = empty_buffer buffer len (rw (← l.holds) nothing) in
        rw (l.there, l.is_client, nothing, l.alone, given, left)
          (
            refl,
            record {
              handle = l.handle;
              extra = l.extra;
              there = l.there;
              is_client = l.is_client;
              alone = l.alone;
              holds = empty_nil l.extra.buffer nothing;
            },
          )
    | inr more ↦
        rw (l.there, l.is_client, more, l.holds, take-min len buffer, drop-min len buffer)
          (
            refl,
            let extra = record l.extra { buffer = drop len buffer } in
                record {
                  handle = record l.handle { extra = client extra };
                  extra = extra;
                  there = simp map_laws (ground arith);
                  is_client = refl;
                  alone = l.alone;
                  holds = refl;
                },
          )
  ]

  reads-Left :
      (lens : List ℕ) (s : ChanScheme) (b flags : ℕ) (buffer : Str)
      → Left s b buffer
      → ((reads sys sock b flags lens s).0 ≡ ok (take (total lens) buffer))
        × Left (reads sys sock b flags lens s).1 b (drop (total lens) buffer)
  unfolding reads total
  reads-Left [] s b flags buffer l = (refl, l)
  reads-Left (len ∷ lens) s b flags buffer l =
      let (given, left) = read-Left s b len flags buffer l in
      let (more, rest) =
        reads-Left lens (read sys sock b len flags s).1 b flags (drop len buffer) left in
      rw (given, more)
        (ap ok (take-add len (total lens) buffer), rw (← drop-add len (total lens) buffer) rest)

  -- With a socket that takes every event: a client that is connected to another one closes without a
  -- panic. Its handle is then gone. Reads of the other client, of any lengths one after the other, give
  -- what it had not yet read, in order and each byte once, and a further read goes on behind them, so that
  -- it gives nothing, the end of the file, once all is read. A write to it is a broken pipe.
  pub on_close-remote :
      (s : ChanScheme) (a b len fr fw : ℕ) (lens : List ℕ) (ha hb : Handle) (ca cb : Client)
      (buf : Str)
      → ((posts : List (ℕ × ℕ)) → sock posts ≡ ok true)
      → Map.get s.handles a ≡ some ha
      → ha.extra ≡ client ca
      → ca.remote ≡ open_to b
      → Map.get s.handles b ≡ some hb
      → hb.extra ≡ client cb
      → a ≢ b
      → let (done, s') = on_close sys sock a s in
        let (given, s'') = reads sys sock b fr lens s' in
        (done ≡ ok tt)
        × (Map.get s'.handles a ≡ none)
        × (given ≡ ok (take (total lens) cb.buffer))
        × ((read sys sock b len fr s'').0 ≡ ok (take len (drop (total lens) cb.buffer)))
        × (write sys sock b buf fw s' ≡ (err epipe, s'))
  on_close-remote s a b len fr fw lens ha hb ca cb buf works ga ea ra gb eb ne =
      let removed = record s { handles = Map.remove s.handles a } in
      let (fine, handles) = hang_up-works removed b hb cb works eb in
      let alone = record cb { remote = closed } in
      let left = record hb { extra = client alone } in
      let s' = (hang_up sys sock b hb removed).1 in
      let there : Map.get s'.handles b ≡ some left =
        rw handles (ground (arith, get-insert removed.handles b left b)) in
      let gone : Map.get s'.handles a ≡ none =
        rw handles
          (ground (arith, get-insert removed.handles b left a, get-remove s.handles a a)) in
      let l : Left s' b cb.buffer = record {
        handle = left;
        extra = alone;
        there = there;
        is_client = refl;
        alone = refl;
        holds = refl;
      } in
      let (given, rest) = reads-Left lens s' b fr cb.buffer l in
      rw (on_close-hang_up s a b ha hb ca ga ea ra gb ne) (
        fine,
        gone,
        given,
        (read-Left _ b len fr (drop (total lens) cb.buffer) rest).0,
        write-closed s' b fw left alone buf there refl refl,
      )
