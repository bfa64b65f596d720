-- ===== src/SchemeUtils/Readiness/Batch.antt =====
-- The requests that `read_and_process_requests` of scheme-utils/src/readiness_based.rs gets at once.
use eos_base.Base.{
  refl, ℕ, ◌+◌, ◌≡◌, Bool, true, false, ◌||◌, ◌==◌, none, List, [], ◌∷◌, arith, Bool-cases,
  Option-cases, inl, inr,
}
use eos_base.Base.Map
use eos_base.Base.Map.{Map, get-insert, get-remove}
use eos_base.Base.Map.Count.{IsKeyed, insert-IsKeyed, remove-IsKeyed}
use eos_base.Base.Map.Size.{size-insert, size-remove}
use eos_base.Base.Result.{ecanceled, eopnotsupp}
use eos_base.Base.Result.{ok}
use eos_base.SchemeUtils.Readiness.{
  read_and_process_requests, SchemeTypes, SchemeCrate, Request, call, unknown_call, cancellation,
  on_close, send_fd, recv_fd, other, ReadinessBased, sent, received, refused, unsupported, process,
  process_all, would_block,
}
use eos_base.SchemeUtils.Readiness.Answers.{total, run_op-Takes, length-snoc}

module _ (t : SchemeTypes) (c : SchemeCrate t) where
  -- Whether a request is to be answered, at once or later.
  abbrev pub wants : Request t → ℕ
  wants (call _ _) = 1
  wants (unknown_call _) = 1
  wants (send_fd _) = 1
  wants (recv_fd _) = 1
  wants _ = 0

  unfoldable pub wanted : List (Request t) → ℕ
  wanted [] = 0
  wanted (r ∷ requests) = wants r + wanted requests

  -- The id under which a request may be kept.
  abbrev pub names : Request t → ℕ → Bool
  names (call id _) j = id == j
  names (recv_fd r) j = c.caller_of r == j
  names _ j = false

  -- No request has the id of one before it, nor one of those taken.
  unfoldable pub AreNew : (ℕ → Bool) → List (Request t) → Type 0
  AreNew taken [] = Unit
  AreNew taken (r ∷ requests) =
      ((j : ℕ) → names r j ≡ true → taken j ≡ false) × AreNew (λ j. taken j || names r j) requests

  -- What a request of a batch makes of the state.
  record Adds (r : Request t) (s s' : ReadinessBased t) : Type 0 where
    more : total t c s' ≡ total t c s + wants r
    keyed : IsKeyed s'.states
    known :
        (j : ℕ)
        → Map.contains_key s'.states j ≡ true
        → (Map.contains_key s.states j || names r j) ≡ true

  process-Adds :
      (r : Request t) (s : ReadinessBased t)
      → IsKeyed s.states
      → ((j : ℕ) → names r j ≡ true → Map.contains_key s.states j ≡ false)
      → Adds r s (process t c r s)
  unfolding process Map.contains_key
  process-Adds (call id op) s u new =
      let takes = run_op-Takes t c id op s u (ground (arith, new id)) in
      record {
        more = takes.more;
        keyed = takes.keyed;
        known = λ j h. ground (arith, h, takes.others j);
      }
  process-Adds (unknown_call req) s u new = record {
    more = ground (arith, length-snoc s.responses_to_write (unsupported eopnotsupp req));
    keyed = u;
    known = λ j h. ground (arith, h);
  }
  process-Adds (cancellation id) s u new = elim (Option-cases (Map.get s.states id)) [
    | inl gone ↦
        rw (process, gone)
          (record { more = ground arith; keyed = u; known = λ j h. ground (arith, h) })
    | inr (op, held) ↦
        rw (process, held)
          (record {
            more = ground (
              arith,
              size-remove s.states id op u held,
              length-snoc s.responses_to_write (refused ecanceled op),
            );
            keyed = remove-IsKeyed s.states id u;
            known = λ j h. ground (arith, h, get-remove s.states id j);
          })
  ]
  process-Adds (on_close id) s u new = record {
    more = ground arith;
    keyed = u;
    known = λ j h. ground (arith, h);
  }
  process-Adds (send_fd request) s u new = record {
    more =
        ground
          (arith, length-snoc s.responses_to_write (sent (c.on_sendfd request s.world).0 request));
    keyed = u;
    known = λ j h. ground (arith, h);
  }
  process-Adds (recv_fd request) s u new =
      let id = c.caller_of request in
      let op = c.op_of request in
      let r = (c.on_recvfd request s.world).0 in
      let fresh : Map.get s.states id ≡ none = ground (arith, new id) in
      elim (Bool-cases (would_block r)) [
        | inl waits ↦
            rw (process, waits)
              (record {
                more = ground (arith, size-insert s.states id op fresh);
                keyed = insert-IsKeyed s.states id op fresh u;
                known = λ j h. ground (arith, h, get-insert s.states id op j);
              })
        | inr answered ↦
            rw (process, answered)
              (record {
                more = ground (arith, length-snoc s.responses_to_write (received r request));
                keyed = u;
                known = λ j h. ground (arith, h);
              })
      ]
  process-Adds other s u new = record {
    more = ground arith;
    keyed = u;
    known = λ j h. ground (arith, h);
  }

  process_all-total :
      (requests : List (Request t)) (taken : ℕ → Bool) (s : ReadinessBased t)
      → IsKeyed s.states
      → ((j : ℕ) → Map.contains_key s.states j ≡ true → taken j ≡ true)
      → AreNew taken requests
      → (total t c (process_all t c requests s) ≡ total t c s + wanted requests)
        × IsKeyed (process_all t c requests s).states
  unfolding process_all wanted AreNew
  process_all-total [] taken s u known new = (ground arith, u)
  process_all-total (r ∷ requests) taken s u known new =
      let adds = process-Adds r s u (λ j h. ground (arith, new.0 j h, known j)) in
      let (more, keyed) =
        process_all-total requests (λ j. taken j || names r j) (process t c r s) adds.keyed
          (λ j h. ground (arith, adds.known j h, known j)) new.1 in
      (ground (arith, more, adds.more), keyed)

  read-processes :
      (s : ReadinessBased t) (r : Request t) (requests : List (Request t))
      → s.requests_read ≡ []
      → read_and_process_requests t c (ok tt, r ∷ requests) s
        ≡ (ok tt, process_all t c (r ∷ requests) s)
  unfolding read_and_process_requests
  read-processes s r requests drained = ground (arith, drained)

  -- When the socket gives requests, with ids that no request has that waits or that came before them,
  -- each that wants an answer is kept or has one response: the requests that wait and the responses to
  -- write are as many more as there are such requests, and no other is lost.
  pub read_and_process_requests-total :
      (s : ReadinessBased t) (r : Request t) (requests : List (Request t))
      → s.requests_read ≡ []
      → IsKeyed s.states
      → AreNew (Map.contains_key s.states) (r ∷ requests)
      → let (result, s') = read_and_process_requests t c (ok tt, r ∷ requests) s in
        (result ≡ ok tt) × (total t c s' ≡ total t c s + wanted (r ∷ requests)) × IsKeyed s'.states
  read_and_process_requests-total s r requests drained u new =
      let (more, keyed) =
        process_all-total (r ∷ requests) (Map.contains_key s.states) s u (λ j h. h) new in
      rw (read-processes s r requests drained) (refl, more, keyed)
