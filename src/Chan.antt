-- ===== src/Chan.antt =====
-- `chan:` of ipcd/src/chan.rs: local sockets. A listener queues the ids of the clients that connect
-- to it; accepting one makes a second client, and the two are each other's remote.
-- `sock` answers `write_response` by the list of the events posted so far; what the socket does is
-- not part of the repository. A clash of the posts with a full queue of the kernel is `ok false`.
pub mod Scheme
pub mod Delivery
pub mod Handshake
pub mod HangUp
use eos_base.Base.{
  ℕ, ◌+◌, ◌%◌, ◌^◌, Bool, true, false, Option, none, some, List, [], ◌∷◌, ◌++◌, ◌==◌, if◌then◌else◌,
}
use eos_base.Base.Text.{Str}
use eos_base.Base.Map
use eos_base.Base.Map.{Map}
use eos_base.Base.StrMap.{StrMap}
use eos_base.Base.Result.{Result, ok, err, panic, Exec, eagain, ebadf}

pub data Connection : Type 0 where
  waiting : Connection
  open_to : ℕ → Connection
  closed : Connection

pub record Client : Type 0 where
  pub buffer : Str
  pub remote : Connection

pub record Listener : Type 0 where
  pub path : Option Str
  pub awaiting : List ℕ

pub data Extra : Type 0 where
  client : Client → Extra
  listener : Listener → Extra
  scheme_root : Extra

pub record Handle : Type 0 where
  pub flags : ℕ
  pub extra : Extra
  pub path : Option Str

-- `posts` are the events posted, the newest first: the handle and the flags.
pub record ChanScheme : Type 0 where
  pub handles : Map Handle
  pub listeners : StrMap ℕ
  pub next_id : ℕ
  pub posts : List (ℕ × ℕ)

abbrev pub new : ChanScheme
new = record { handles = []; listeners = []; next_id = 0; posts = [] }

abbrev pub M : Type 0 → Type 0
M = Exec ChanScheme

abbrev pub default_client : Client
default_client = record { buffer = []; remote = waiting }

abbrev pub default_handle : Handle
default_handle = record { flags = 0; extra = client default_client; path = none }

-- `Handle::accept`
unfoldable pub accept : Handle → ℕ → Handle
accept h remote = record {
  flags = h.flags;
  extra = client (record { buffer = []; remote = open_to remote });
  path = none;
}

-- `Handle::require_listener` and `Handle::require_client`
unfoldable pub require_listener : Extra → Result Listener
require_listener (listener l) = ok l
require_listener (client c) = err ebadf
require_listener scheme_root = err ebadf

unfoldable pub require_client : Extra → Result Client
require_client (client c) = ok c
require_client (listener l) = err ebadf
require_client scheme_root = err ebadf

-- `Handle::connect`
unfoldable pub connect : Handle → ℕ → Result Handle
connect h other = elim h.extra [
  | listener l ↦
      ok (record h { extra = listener (record l { awaiting = l.awaiting ++ (other ∷ []) }) })
  | _ ↦ err ebadf
]

abbrev pub posted : Result Bool → Result (Unit {0})
posted (ok true) = ok tt
posted (ok false) = err eagain
posted (err e) = err e
posted panic = panic

abbrev pub put : ℕ → Handle → M (Unit {0})
put id h s = (ok tt, record s { handles = Map.insert s.handles id h })

-- `self.handles.insert(new_id, new); self.next_id += 1;`
abbrev pub add : ℕ → Handle → M (Unit {0})
add id h s =
    (ok tt, record s { handles = Map.insert s.handles id h; next_id = (s.next_id + 1) % 2 ^ 64 })

-- `post_fevent`
unfoldable pub post_fevent : (List (ℕ × ℕ) → Result Bool) → ℕ → ℕ → M (Unit {0})
post_fevent sock id flags s =
    let posts = (id, flags) ∷ s.posts in (posted (sock posts), record s { posts = posts })
