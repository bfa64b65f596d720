-- ===== src/Tests/Objects.antt =====
-- Runs of the shared objects.
use eos_base.Base.{◌+◌, ◌^◌, ◌<◌, ◌≡◌, ◌==◌, ◌&&◌, not, refl, true, some, [], ◌∷◌, arith}
use eos_base.Base.Text.{bytes, str_eq}
use eos_base.Base.Map
use eos_base.Base.Map.Count.{IsKeyed, count}
use eos_base.Base.StrMap
use eos_base.Base.Result.{ok}
use eos_base.Shm.Guard.{Kernel}
use eos_base.SchemeUtils.HandleMap
use eos_base.Shm.Scheme
use eos_base.Shm.Scheme.Refs.Requests.{
  Request, root, opens, handle, Reach, here, after, Reach-object,
}
use eos_base.Shm.Scheme.{
  scheme_root_id, entry, shm, scheme_root, ShmHandle, ShmScheme, openat, on_close, unlinkat, fsize,
}
use eos_base.Shm.Scheme.Refs.{IsCounted, names}
use eos_base.Shm.Scheme.Refs.Close.{on_close-contains_key}
use eos_base.Tests.Terminals.{sys}

abbrev kernel : Kernel
kernel = record {
  page_size = 4096;
  fmap = λ _. ok 4096;
  mremap = λ base _ _. ok base;
  remapped = λ memory _ _. memory;
}

-- The object "a" of four bytes, unlinked, with the handle 2; the handle 1 is the root.
abbrev object : ShmHandle
object = record {
  buffer = record { base = 4096; len = 4; memory = 1 ∷ 2 ∷ 3 ∷ 4 ∷ [] };
  refs = 1;
  unlinked = true;
}

abbrev scheme : ShmScheme
scheme = record {
  maps = (bytes "a", object) ∷ [];
  handles = record { handles = (1, scheme_root) ∷ (2, shm (bytes "a")) ∷ []; next_id = 3 };
}

scheme-IsCounted : IsCounted scheme
unfolding IsKeyed Map.get StrMap.get count
scheme-IsCounted = record {
  valid = record { in_range = omega arith; unused = refl };
  keyed = (refl, (refl, tt));
  counted = λ p. ground arith;
}

scheme_small : Map.size scheme.handles.handles + 1 < 2 ^ 64
unfolding Map.size
scheme_small = omega arith

handle_two : Map.get scheme.handles.handles 2 ≡ some (shm (bytes "a"))
unfolding Map.get
handle_two = refl

object_there : StrMap.get scheme.maps (bytes "a") ≡ some object
unfolding StrMap.get str_eq
object_there = refl

on_close-contains_key_example :
    StrMap.contains_key (on_close sys 512 kernel 2 scheme).1.maps (bytes "a")
    ≡ not ((count (names (bytes "a")) (Map.remove scheme.handles.handles 2) == 0) && true)
on_close-contains_key_example =
    on_close-contains_key sys 512 kernel scheme 2 (bytes "a") object scheme-IsCounted
      (omega (arith, scheme_small)) handle_two object_there

-- From the start: the root is opened, and the object "b" is made.
abbrev making : Request
making = opens 1 (bytes "b") 0x2000000

abbrev rooted : ShmScheme
rooted = handle sys 512 kernel root Scheme.new

abbrev made : ShmScheme
made = handle sys 512 kernel making rooted

start_small : Map.size Scheme.new.handles.handles + 1 < 2 ^ 64
unfolding Map.size
start_small = omega arith

rooted_small : Map.size rooted.handles.handles + 1 < 2 ^ 64
unfolding handle scheme_root_id HandleMap.insert HandleMap.first_free Map.contains_key Map.get
    Map.insert Map.size
rooted_small = omega arith

made_reached : Reach sys 512 kernel Scheme.new made
made_reached = after (after here start_small root) rooted_small making

made_small : Map.size made.handles.handles < 2 ^ 64
unfolding handle openat entry scheme_root_id StrMap.get StrMap.insert HandleMap.get HandleMap.insert
    HandleMap.first_free Map.contains_key Map.get Map.insert Map.size
made_small = omega arith

made_handle : Map.get made.handles.handles 2 ≡ some (shm (bytes "b"))
unfolding handle openat entry scheme_root_id StrMap.get StrMap.insert HandleMap.get HandleMap.insert
    HandleMap.first_free Map.contains_key Map.get Map.insert
made_handle = refl

Reach-object_example :
    (e : ShmHandle) × (StrMap.get made.maps (bytes "b") ≡ some e)
    × (e.refs ≡ count (names (bytes "b")) made.handles.handles)
    × (fsize sys 512 kernel 2 made ≡ (ok e.buffer.len, made))
    × ((on_close sys 512 kernel 2 made).0 ≡ ok tt)
Reach-object_example =
    Reach-object sys 512 kernel made 2 (bytes "b") made_reached made_small made_handle
