-- ===== src/Tests/Channels.antt =====
-- Runs of the local sockets.
use eos_base.Base.{
  ℕ, ◌≡◌, refl, Bool, true, none, some, List, [], ◌∷◌, ◌++◌, arith, length, min, take, drop,
}
use eos_base.Base.Text.{Str, bytes, str_eq}
use eos_base.Base.Map
use eos_base.Base.StrMap
use eos_base.Base.Syscall.{this_scheme}
use eos_base.Base.Result.{Result, ok, err, panic, eagain, epipe}
use eos_base.Chan.{open_to, client, listener, Handle, ChanScheme}
use eos_base.Chan.Scheme.{read, write, dup_listen, on_close, open_client, open_listener}
use eos_base.Chan.Handshake.{connected, dup_listen-open_client}
use eos_base.Chan.HangUp.{reads, total, on_close-remote}
use eos_base.Chan.Delivery.{read-write_remote, dup_listen_stale}
use eos_base.Tests.Terminals.{sys}

-- A socket that takes every event, and one that takes none.
abbrev working : List (ℕ × ℕ) → Result Bool
working _ = ok true

abbrev broken : List (ℕ × ℕ) → Result Bool
broken _ = err eagain

abbrev first : Handle
first = record {
  flags = 0;
  extra = client (record { buffer = []; remote = open_to 2 });
  path = none;
}

abbrev second : Handle
second = record {
  flags = 0;
  extra = client (record { buffer = 65 ∷ []; remote = open_to 1 });
  path = none;
}

abbrev pair : ChanScheme
pair = record { handles = (1, first) ∷ (2, second) ∷ []; listeners = []; next_id = 3; posts = [] }

read-write_remote_example :
    let sent : Str = (65 ∷ []) ++ (66 ∷ 67 ∷ []) in
    (read sys working 2 2 0 (write sys working 1 (66 ∷ 67 ∷ []) 0 pair).1).0
    ≡ ok (take (min 2 (length sent)) sent)
unfolding Map.get
read-write_remote_example =
    read-write_remote sys working pair 1 2 2 0 0 66 first second
      (record { buffer = []; remote = open_to 2 }) (record { buffer = 65 ∷ []; remote = open_to 1 })
      (67 ∷ []) refl refl refl refl refl

-- A listener "a" at the handle 1.
abbrev waiting_listener : Handle
waiting_listener = record {
  flags = 0;
  extra = listener (record { path = some (bytes "a"); awaiting = [] });
  path = none;
}

abbrev listening : ChanScheme
listening = record {
  handles = (1, waiting_listener) ∷ [];
  listeners = (bytes "a", 1) ∷ [];
  next_id = 2;
  posts = [];
}

dup_listen_stale_example :
    let (failed, s1) = open_client sys broken (bytes "a") 0 listening in
    let (opened, s2) = open_listener sys broken (bytes "b") 0 s1 in
    (failed ≡ err eagain) × ((dup_listen sys broken 1 s2).0 ≡ panic)
unfolding StrMap.get str_eq Map.get
dup_listen_stale_example =
    dup_listen_stale sys broken listening (bytes "a") (bytes "b") 1 0 0 waiting_listener
      (record { path = some (bytes "a"); awaiting = [] }) eagain refl refl refl refl (omega arith)
      refl

dup_listen-open_client_example :
    let (opened, s1) = open_client sys working (bytes "a") 0 listening in
    let (accepted, s2) = dup_listen sys working 1 s1 in
    (opened ≡ ok (this_scheme 2))
    × (accepted ≡ ok (this_scheme 3))
    × (Map.get s2.handles 2 ≡ some (connected 0 none 3))
    × (Map.get s2.handles 3 ≡ some (connected 0 (some (bytes "a")) 2))
unfolding StrMap.get str_eq Map.get
dup_listen-open_client_example =
    dup_listen-open_client sys working listening (bytes "a") 1 0 waiting_listener
      (record { path = some (bytes "a"); awaiting = [] }) (λ _. refl) refl refl refl refl
      (omega arith) (omega arith)

on_close-remote_example :
    let (done, s') = on_close sys working 1 pair in
    let (given, s'') = reads sys working 2 0 (3 ∷ 4 ∷ []) s' in
    let left : Str = 65 ∷ [] in
    (done ≡ ok tt)
    × (Map.get s'.handles 1 ≡ none)
    × (given ≡ ok (take (total (3 ∷ 4 ∷ [])) left))
    × ((read sys working 2 4 0 s'').0 ≡ ok (take 4 (drop (total (3 ∷ 4 ∷ [])) left)))
    × (write sys working 2 (66 ∷ []) 0 s' ≡ (err epipe, s'))
unfolding Map.get
on_close-remote_example =
    on_close-remote sys working pair 1 2 4 0 0 (3 ∷ 4 ∷ []) first second
      (record { buffer = []; remote = open_to 2 }) (record { buffer = 65 ∷ []; remote = open_to 1 })
      (66 ∷ []) (λ _. refl) refl refl refl refl refl (omega arith)
