-- ===== src/Tests/Requests.antt =====
-- Runs of the loop around a scheme.
use eos_base.Base.{ℕ, ◌+◌, ◌≡◌, refl, false, List, [], ◌∷◌, arith, ◌==◌, if◌then◌else◌}
use eos_base.Base.Map
use eos_base.Base.Map.Count.{IsKeyed}
use eos_base.Base.Result.{ok, err, ewouldblock}
use eos_base.SchemeUtils.Readiness.{
  SchemeTypes, SchemeCrate, Request, call, cancellation, ReadinessBased, regular,
  read_and_process_requests, poll_all_requests,
}
use eos_base.SchemeUtils.Readiness.Answers.{total, poll_all_requests-total}
use eos_base.SchemeUtils.Readiness.Batch.{AreNew, wanted, read_and_process_requests-total}

-- A scheme that is a number: an operation waits until it has come to its own.
abbrev types : SchemeTypes
types = record { Op = ℕ; Req = ℕ; SendFd = ℕ; RecvFd = ℕ; World = ℕ }

abbrev counter : SchemeCrate types
counter = record {
  handle_sync =
      λ _ op world. (regular (if op == world then ok 0 else err ewouldblock), (op, world));
  is_explicitly_nonblock = λ _. false;
  on_close = λ _ world. world + 1;
  on_sendfd = λ _ world. (ok 0, world);
  on_recvfd = λ _ world. (err ewouldblock, world);
  caller_of = λ request. request;
  op_of = λ request. request;
}

-- Two requests wait, one of which has come to its number.
abbrev waiting : ReadinessBased types
waiting = record {
  requests_read = [];
  responses_to_write = [];
  states = (1, 5) ∷ (2, 6) ∷ [];
  ready_queue = [];
  world = 5;
}

waiting-IsKeyed : IsKeyed waiting.states
unfolding IsKeyed Map.get
waiting-IsKeyed = (refl, (refl, tt))

poll_all_requests-total_example :
    ((poll_all_requests types counter waiting).0 ≡ ok tt)
    × (total types counter (poll_all_requests types counter waiting).1
        ≡ total types counter waiting)
poll_all_requests-total_example = poll_all_requests-total types counter waiting waiting-IsKeyed

abbrev three : Request types
three = call 3 5

abbrev batch : List (Request types)
batch = cancellation 1 ∷ call 4 9 ∷ []

batch-AreNew : AreNew types counter (Map.contains_key waiting.states) (three ∷ batch)
unfolding AreNew Map.contains_key Map.get
batch-AreNew =
    ((λ j h. ground (arith, h)), ((λ j h. ground (arith, h)), ((λ j h. ground (arith, h)), tt)))

read_and_process_requests-total_example :
    let (result, s') = read_and_process_requests types counter (ok tt, three ∷ batch) waiting in
    (result ≡ ok tt)
    × (total types counter s' ≡ total types counter waiting + wanted types counter (three ∷ batch))
    × IsKeyed s'.states
read_and_process_requests-total_example =
    read_and_process_requests-total types counter waiting three batch refl waiting-IsKeyed
      batch-AreNew
