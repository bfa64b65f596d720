-- ===== src/SchemeUtils/Readiness/Answers.antt =====
-- In scheme-utils/src/readiness_based.rs no request is lost and none is answered twice: each is either
-- kept or has one response.
use eos_base.Base.{
  ◌∙◌, ℕ, ◌+◌, ◌≡◌, ◌≢◌, refl, true, none, List, [], ◌∷◌, ◌++◌, arith, length, Option-cases, inl,
  inr,
}
use eos_base.Base.Map
use eos_base.Base.Map.Count.{remove-IsKeyed}
use eos_base.Base.Map.Size.{size-remove}
use eos_base.Base.Result.{Result, ok}
use eos_base.Base.Map.{get-remove, Map, get-insert, get-remove}
use eos_base.Base.Map.Count.{IsKeyed, insert-IsKeyed}
use eos_base.Base.Map.Size.{size-insert}
use eos_base.SchemeUtils.Readiness.{
  poll_one, poll_ids, poll_ready_requests, poll_all_requests, keys, SchemeTypes, SchemeCrate,
  ReadinessBased, respond, run_op,
}

pub length-snoc : {A : Type 0} (l : List A) (a : A) → length (l ++ (a ∷ [])) ≡ length l + 1
length-snoc [] a = refl
length-snoc (x ∷ l) a = ground (arith, length-snoc l a)

module _ (t : SchemeTypes) (c : SchemeCrate t) where
  -- The requests that are kept or answered.
  abbrev pub total : ReadinessBased t → ℕ
  total s = length s.responses_to_write + Map.size s.states

  -- What a run of the operation of an id may do: one request more, kept under the id or answered.
  pub record Takes (id : ℕ) (s s' : ReadinessBased t) : Type 0 where
    pub more : total s' ≡ total s + 1
    pub keyed : IsKeyed s'.states
    pub others : (j : ℕ) → id ≢ j → Map.get s'.states j ≡ Map.get s.states j

  pub run_op-Takes :
      (id : ℕ) (op : t.Op) (s : ReadinessBased t)
      → IsKeyed s.states
      → Map.get s.states id ≡ none
      → Takes id s (run_op t c id op s)
  unfolding run_op
  run_op-Takes id op s u new =
      let run = c.handle_sync id op s.world in
      elim (Option-cases (respond t c run.0 run.1.0)) [
        | inl waits ↦
            rw (run_op, waits)
              (record {
                more = ground (arith, size-insert s.states id run.1.0 new);
                keyed = insert-IsKeyed s.states id run.1.0 new u;
                others = λ j ne. ground (arith, get-insert s.states id run.1.0 j);
              })
        | inr (r, answered) ↦
            rw (run_op, answered)
              (record {
                more = ground (arith, length-snoc s.responses_to_write r);
                keyed = u;
                others = λ j ne. refl;
              })
      ]

  -- No id stands in the list twice, and each is kept.
  unfoldable pub AreKept : Map t.Op → List ℕ → Type 0
  AreKept m [] = Unit
  AreKept m (id ∷ ids) = (Map.contains_key m id ≡ true) × AreKept (Map.remove m id) ids

  abbrev Grows : Map t.Op → Map t.Op → Type 0
  Grows m m' = (j : ℕ) → Map.contains_key m j ≡ true → Map.contains_key m' j ≡ true

  remove-Grows :
      (m m' : Map t.Op) (id : ℕ) → Grows m m' → Grows (Map.remove m id) (Map.remove m' id)
  unfolding Map.contains_key
  remove-Grows m m' id g j h = ground (arith, g j, h, get-remove m id j, get-remove m' id j)

  AreKept-Grows : (m m' : Map t.Op) (ids : List ℕ) → Grows m m' → AreKept m ids → AreKept m' ids
  unfolding AreKept
  AreKept-Grows m m' [] g k = tt
  AreKept-Grows m m' (id ∷ ids) g k = (
    g id k.0,
    AreKept-Grows (Map.remove m id) (Map.remove m' id) ids (remove-Grows m m' id g) k.1,
  )

  -- What a round of the loop over the queue gives.
  record Polls (id : ℕ) (s : ReadinessBased t) (r : Result (Unit {0}) × ReadinessBased t)
      : Type 0 where
    done : r.0 ≡ ok tt
    same : total r.1 ≡ total s
    keyed : IsKeyed r.1.states
    rest : Grows (Map.remove s.states id) r.1.states

  poll_one-Polls :
      (id : ℕ) (s : ReadinessBased t)
      → IsKeyed s.states
      → Map.contains_key s.states id ≡ true
      → Polls id s (poll_one t c id s)
  unfolding poll_one Map.contains_key
  poll_one-Polls id s u kept = elim (Option-cases (Map.get s.states id)) [
    | inl gone ↦ absurd (ground (arith, gone, kept))
    | inr (op, held) ↦
        let left = record s { states = Map.remove s.states id } in
        let takes =
          run_op-Takes id op left (remove-IsKeyed s.states id u)
            (ground (arith, get-remove s.states id id)) in
        rw (poll_one, held)
          (record {
            done = refl;
            same = takes.more ∙ ground (arith, size-remove s.states id op u held);
            keyed = takes.keyed;
            rest = λ j h. ground (arith, h, takes.others j, get-remove s.states id j);
          })
  ]

  poll_ids-total :
      (ids : List ℕ) (s : ReadinessBased t)
      → IsKeyed s.states
      → AreKept s.states ids
      → ((poll_ids t c ids s).0 ≡ ok tt) × (total (poll_ids t c ids s).1 ≡ total s)
  unfolding poll_ids AreKept
  poll_ids-total [] s u k = (refl, refl)
  poll_ids-total (id ∷ ids) s u k =
      let polls = poll_one-Polls id s u k.0 in
      let (ends, same) =
        poll_ids-total ids (poll_one t c id s).1 polls.keyed (
          AreKept-Grows (Map.remove s.states id) (poll_one t c id s).1.states ids polls.rest k.1) in
      rw (poll_ids, polls.done) (ends, same ∙ polls.same)

  keys-AreKept : (m : Map t.Op) → IsKeyed m → AreKept m (keys t c m)
  unfolding keys AreKept IsKeyed Map.contains_key Map.get
  keys-AreKept [] u = tt
  keys-AreKept ((id, op) ∷ m) u = (
    ground arith,
    AreKept-Grows m (Map.remove ((id, op) ∷ m) id) (keys t c m)
        (λ j h. ground (arith, h, u.0, get-remove ((id, op) ∷ m) id j)) (keys-AreKept m u.1),
  )

  -- When the requests that wait are all tried again, none of them is missing: the loop comes to its end
  -- without an error, and the number of requests that wait and of responses to write is as before, so
  -- that each is answered once or waits on.
  pub poll_all_requests-total :
      (s : ReadinessBased t)
      → IsKeyed s.states
      → ((poll_all_requests t c s).0 ≡ ok tt) × (total (poll_all_requests t c s).1 ≡ total s)
  unfolding poll_all_requests poll_ready_requests
  poll_all_requests-total s u =
      poll_ids-total (keys t c s.states) (record s { ready_queue = [] }) u (keys-AreKept s.states u)
