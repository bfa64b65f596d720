-- ===== src/SchemeUtils/Readiness.antt =====
-- `ReadinessBased` of scheme-utils/src/readiness_based.rs: the loop around a scheme, which keeps the
-- requests that would block and tries them again. The crate that reads requests and runs them on the
-- scheme is a parameter.
pub mod Answers
pub mod Batch
use eos_base.Base.{
  ℕ, ◌+◌, Bool, true, false, not, ◌&&◌, Option, none, some, List, [], ◌∷◌, ◌++◌, if◌then◌else◌,
}
use eos_base.Base.Map
use eos_base.Base.Map.{Map}
use eos_base.Base.Syscall.{OpenResult}
use eos_base.Base.Result.{
  Result, Error, ok, err, panic, ewouldblock, eagain, eintr, ecanceled, eio, eopnotsupp,
}

pub data SchemeResponse : Type 0 where
  regular : Result ℕ → SchemeResponse
  regular_and_notify_on_detach : ℕ → SchemeResponse
  opened : Result OpenResult → SchemeResponse

-- Operations, requests that are none, the two kinds of requests with descriptors, and the scheme with
-- what the crate keeps beside it.
pub record SchemeTypes : Type 1 where
  pub Op : Type 0
  pub Req : Type 0
  pub SendFd : Type 0
  pub RecvFd : Type 0
  pub World : Type 0

pub record SchemeCrate (t : SchemeTypes) : Type 0 where
  pub handle_sync : ℕ → t.Op → t.World → SchemeResponse × (t.Op × t.World)
  pub is_explicitly_nonblock : t.Op → Bool
  pub on_close : ℕ → t.World → t.World
  pub on_sendfd : t.SendFd → t.World → Result ℕ × t.World
  pub on_recvfd : t.RecvFd → t.World → Result OpenResult × t.World
  pub caller_of : t.RecvFd → ℕ
  pub op_of : t.RecvFd → t.Op

-- A caller is its id.
pub data Request (t : SchemeTypes) : Type 0 where
  call : ℕ → t.Op → Request t
  unknown_call : t.Req → Request t
  cancellation : ℕ → Request t
  on_close : ℕ → Request t
  send_fd : t.SendFd → Request t
  recv_fd : t.RecvFd → Request t
  other : Request t

-- A response is what its constructor was given.
pub data Response (t : SchemeTypes) : Type 0 where
  new : Result ℕ → t.Op → Response t
  new_notify_on_detach : ℕ → t.Op → Response t
  open_dup_like : Result OpenResult → t.Op → Response t
  refused : Error → t.Op → Response t
  unsupported : Error → t.Req → Response t
  sent : Result ℕ → t.SendFd → Response t
  received : Result OpenResult → t.RecvFd → Response t

pub record ReadinessBased (t : SchemeTypes) : Type 0 where
  pub requests_read : List (Request t)
  pub responses_to_write : List (Response t)
  pub states : Map t.Op
  pub ready_queue : List ℕ
  pub world : t.World

abbrev pub would_block {ℓ} : {A : Type ℓ} → Result A → Bool
would_block (err ewouldblock) = true
would_block _ = false

module _ (t : SchemeTypes) (c : SchemeCrate t) where
  abbrev pub answer : Response t → ReadinessBased t → ReadinessBased t
  answer r s = record s { responses_to_write = s.responses_to_write ++ (r ∷ []) }

  abbrev pub keep : ℕ → t.Op → ReadinessBased t → ReadinessBased t
  keep id op s = record s { states = Map.insert s.states id op }

  -- The response to an operation, or none where it has to wait.
  unfoldable pub respond : SchemeResponse → t.Op → Option (Response t)
  respond (regular r) op =
      if would_block r && not (c.is_explicitly_nonblock op) then none else some (new r op)
  respond (regular_and_notify_on_detach status) op = some (new_notify_on_detach status op)
  respond (opened r) op =
      if would_block r && not (c.is_explicitly_nonblock op) then none else some (open_dup_like r op)

  -- An operation is run, and answered or kept.
  unfoldable pub run_op : ℕ → t.Op → ReadinessBased t → ReadinessBased t
  unfolding respond
  run_op id op s =
      let (r, (op', world)) = c.handle_sync id op s.world in
      let s' = record s { world = world } in
      elim (respond r op') [ none ↦ keep id op' s' | some response ↦ answer response s' ]

  -- One round of the loop of `read_and_process_requests`.
  unfoldable pub process : Request t → ReadinessBased t → ReadinessBased t
  unfolding run_op
  process (call id op) s = run_op id op s
  process (unknown_call req) s = answer (unsupported eopnotsupp req) s
  process (cancellation id) s = elim (Map.get s.states id) [
    | none ↦ s
    | some op ↦ answer (refused ecanceled op) (record s { states = Map.remove s.states id })
  ]
  process (on_close id) s = record s { world = c.on_close id s.world }
  process (send_fd request) s =
      let (r, world) = c.on_sendfd request s.world in
      answer (sent r request) (record s { world = world })
  process (recv_fd request) s =
      let (r, world) = c.on_recvfd request s.world in
      let s' = record s { world = world } in
      if would_block r
      then keep (c.caller_of request) (c.op_of request) s'
      else answer (received r request) s'
  process other s = s

  unfoldable pub process_all : List (Request t) → ReadinessBased t → ReadinessBased t
  unfolding process
  process_all [] s = s
  process_all (r ∷ requests) s = process_all requests (process r s)

  abbrev pub is_empty {ℓ} : {A : Type ℓ} → List A → Bool
  is_empty [] = true
  is_empty (_ ∷ _) = false

  -- `EINTR | EWOULDBLOCK | EAGAIN`
  abbrev pub is_transient : Error → Bool
  is_transient eintr = true
  is_transient ewouldblock = true
  is_transient eagain = true
  is_transient _ = false

  -- `read` is what the socket answered, and the requests that it gave.
  unfoldable pub read_and_process_requests :
      Result (Unit {0}) × List (Request t) → ReadinessBased t → Result (Unit {0}) × ReadinessBased t
  unfolding process_all
  read_and_process_requests (read, requests) s =
      let done : Result (Unit {0}) × ReadinessBased t = (ok tt, process_all requests s) in
      if not (is_empty s.requests_read) then (panic, s) else elim read [
        | ok _ ↦ if is_empty requests then (panic, s) else done
        | err e ↦ if is_transient e then done else (err e, record s { requests_read = requests })
        | panic ↦ (panic, s)
      ]

  -- `poll_request_inner`, and what its callers make of it.
  unfoldable pub poll_one : ℕ → ReadinessBased t → Result (Unit {0}) × ReadinessBased t
  unfolding run_op
  poll_one id s = elim (Map.get s.states id) [
    | none ↦ (err eio, s)
    | some op ↦ (ok tt, run_op id op (record s { states = Map.remove s.states id }))
  ]

  -- `poll_request`; the result tells whether it was answered.
  unfoldable pub poll_request : ℕ → ReadinessBased t → Result Bool × ReadinessBased t
  unfolding poll_one
  poll_request id s =
      let (r, s') = poll_one id s in
      (
        elim r [ ok _ ↦ ok (not (Map.contains_key s'.states id)) | err e ↦ err e | panic ↦ panic ],
        s',
      )

  -- The loop of `poll_ready_requests`.
  unfoldable pub poll_ids : List ℕ → ReadinessBased t → Result (Unit {0}) × ReadinessBased t
  unfolding poll_one
  poll_ids [] s = (ok tt, s)
  poll_ids (id ∷ ids) s =
      let (r, s') = poll_one id s in
      elim r [ ok _ ↦ poll_ids ids s' | err e ↦ (err e, s') | panic ↦ (panic, s') ]

  -- The queue is drained also where the loop ends early.
  unfoldable pub poll_ready_requests : ReadinessBased t → Result (Unit {0}) × ReadinessBased t
  unfolding poll_ids
  poll_ready_requests s = poll_ids s.ready_queue (record s { ready_queue = [] })

  unfoldable pub keys : Map t.Op → List ℕ
  keys [] = []
  keys ((id, _) ∷ m) = id ∷ keys m

  -- The keys of a hash map come in some order, here in that of the ids.
  unfoldable pub poll_all_requests : ReadinessBased t → Result (Unit {0}) × ReadinessBased t
  unfolding poll_ready_requests keys
  poll_all_requests s = poll_ready_requests (record s { ready_queue = keys s.states })

  -- `written` is what the socket answered, and the responses that it left.
  unfoldable pub write_responses :
      Result (Unit {0}) × List (Response t)
      → ReadinessBased t
      → Result (Unit {0}) × ReadinessBased t
  write_responses (written, left) s =
      let s' = record s { responses_to_write = left } in
      elim written [
        | ok _ ↦ (if is_empty left then ok tt else panic, s')
        | err e ↦ (if is_transient e then panic else err e, s')
        | panic ↦ (panic, s')
      ]
