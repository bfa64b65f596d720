-- ===== src/Tests/Namespaces.antt =====
-- Runs of the namespace manager.
use eos_base.Base.{ℕ, ◌≡◌, ◌≢◌, refl, true, false, Option, none, some, [], ◌∷◌, arith}
use eos_base.Base.Text.{Str, bytes, str_eq}
use eos_base.Base.Map
use eos_base.Base.StrMap
use eos_base.Base.Syscall.{other_scheme}
use eos_base.Base.Result.{Result, ok, err, enoent}
use eos_base.Initnsmgr.{
  Namespace, NamespaceAccess, SchemeRegister, access, register, all, is_high, difference,
  NamespaceScheme, System, CallerCtx,
}
use eos_base.Initnsmgr.Fork.{fork}
use eos_base.Initnsmgr.Fork.Ends.{AreDistinct, Within, fork_lem}
use eos_base.Initnsmgr.Scheme.{openat, on_sendfd, register_fd}
use eos_base.Initnsmgr.Scheme.Rights.{HasNone, closes, handle, here, after, Reach-refused}
use eos_base.Initnsmgr.Scheme.Registered.{opened, openat-on_sendfd}

-- A system where each path is that of the scheme "log", but for one of the manager's own.
abbrev paths : Str → Option (Str × Str)
paths [] = some (bytes "namespace", bytes "scheme-creation-cap")
paths path = some (bytes "log", path)

abbrev system : System
system = record {
  path_parts = paths;
  valid_name = λ name. some name;
  utf8 = λ _. true;
  dup_kind = λ _. none;
  dup_size = 8;
  permissions_of = λ _ _. true;
  dup_fd = λ fd. ok fd;
  open_fd = λ fd _ _ _ _ _. ok (fd);
  unlink_fd = λ _ _ _ _ _. err enoent;
  obtain_fd = λ _. ok 40;
  mode_dir = 0x4000;
  mode_file = 0x8000;
}

abbrev ctx : CallerCtx
ctx = record { uid = 0; gid = 0 }

abbrev shared : NamespaceAccess
shared = record { namespace = 0; permission = difference all is_high }

-- The handle 1 may register "log" in the namespace of the handle 2.
abbrev cap : SchemeRegister
cap = record { target_namespace = 0; scheme_name = bytes "log" }

abbrev state : NamespaceScheme
state = record {
  handles = (1, register cap) ∷ (2, access shared) ∷ [];
  next_id = 3;
  scheme_creation_cap = 9;
  namespaces = (0, []) ∷ [];
  next_namespace = 1;
}

state-HasNone : HasNone state
unfolding Map.get
state-HasNone i = ground arith

Reach-refused_example :
    (openat system 2 [] 0 0 ctx (handle system (closes 1) state)).0 ≢ ok (other_scheme 9)
Reach-refused_example =
    Reach-refused system state (handle system (closes 1) state) 2 [] (bytes "scheme-creation-cap") 0
      0 ctx 9 state-HasNone (after here (closes 1)) refl

handle_one : Map.get state.handles 1 ≡ some (register cap)
unfolding Map.get
handle_one = refl

handle_two : Map.get state.handles 2 ≡ some (access shared)
unfolding Map.get
handle_two = refl

log_other : str_eq (bytes "log") (bytes "namespace") ≡ false
unfolding str_eq
log_other = refl

log_named : str_eq (bytes "log") [] ≡ false
unfolding str_eq
log_named = refl

registered : (on_sendfd system 1 1 0 state).0 ≡ ok 1
unfolding on_sendfd register_fd Map.get StrMap.contains_key StrMap.get
registered = refl

openat-on_sendfd_example :
    (new_fd : ℕ) × (system.obtain_fd 0 ≡ ok new_fd)
    × ((openat system 2 (bytes "x") 0 0 ctx (on_sendfd system 1 1 0 state).1).0
        ≡ opened system (system.open_fd new_fd (bytes "x") 0 0 0 0))
openat-on_sendfd_example =
    openat-on_sendfd system state 1 2 cap shared 0 (bytes "x") (bytes "x") 0 0 ctx handle_one
      handle_two refl refl log_other log_named registered

-- The names "log" and "logs" by a request for "log*".
abbrev names : Namespace
names = (bytes "log", 5) ∷ (bytes "logs", 6) ∷ (bytes "rand", 7) ∷ []

abbrev request : Str
request = 4 ∷ 0 ∷ 0 ∷ 0 ∷ 0 ∷ 0 ∷ 0 ∷ 0 ∷ bytes "log*"

names-AreDistinct : AreDistinct names
unfolding AreDistinct StrMap.get str_eq
names-AreDistinct = (refl, (refl, (refl, tt)))

fork_lem_example :
    (r : Result Namespace) × (fork (λ _. true) names request ≡ some r)
    × ((ns : Namespace) → r ≡ ok ns → Within ns names)
fork_lem_example = fork_lem (λ _. true) names request names-AreDistinct
