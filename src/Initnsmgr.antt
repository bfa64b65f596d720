-- ===== src/Initnsmgr.antt =====
-- The namespace manager of bootstrap/src/initnsmgr.rs: which names of schemes a process sees, and what
-- it may do with them.
pub mod Fork
pub mod Scheme
use eos_base.Base.{ℕ, ◌+◌, ◌%◌, ◌^◌, Bool, true, false, not, ◌&&◌, Option, none, some, []}
use eos_base.Base.Text.{Str}
use eos_base.Base.Map
use eos_base.Base.Map.{Map}
use eos_base.Base.StrMap
use eos_base.Base.StrMap.{StrMap}
use eos_base.Base.Result.{Result, Exec}

-- `NsPermissions` is a set of flags of libredox, of which the code names four.
pub data NsPermission : Type 0 where
  list insert delete scheme_create : NsPermission
  other : ℕ → NsPermission

abbrev pub NsPermissions : Type 0
NsPermissions = NsPermission → Bool

abbrev pub is_high : NsPermission → Bool
is_high scheme_create = true
is_high list = false
is_high insert = false
is_high delete = false
is_high (other _) = false

abbrev pub all : NsPermissions
all _ = true

abbrev pub intersection : NsPermissions → NsPermissions → NsPermissions
intersection p q f = p f && q f

abbrev pub difference : NsPermissions → NsPermissions → NsPermissions
difference p q f = p f && not (q f)

-- The descriptors of the schemes by name.
abbrev pub Namespace : Type 0
Namespace = StrMap ℕ

-- An `Rc<RefCell<Namespace>>` is a number in the table of namespaces, so that handles share one.
pub record NamespaceAccess : Type 0 where
  pub namespace : ℕ
  pub permission : NsPermissions

pub record SchemeRegister : Type 0 where
  pub target_namespace : ℕ
  pub scheme_name : Str

pub data Handle : Type 0 where
  access : NamespaceAccess → Handle
  register : SchemeRegister → Handle
  listing : NamespaceAccess → Handle

pub record NamespaceScheme : Type 0 where
  pub handles : Map Handle
  pub next_id : ℕ
  pub scheme_creation_cap : ℕ
  pub namespaces : Map Namespace
  pub next_namespace : ℕ

abbrev pub M : Type 0 → Type 0
M = Exec NamespaceScheme

pub data NsDup : Type 0 where
  fork_ns shrink_permissions issue_register : NsDup

-- The crates that read paths, names and numbers, and the system calls.
pub record System : Type 0 where
  pub path_parts : Str → Option (Str × Str)
  pub valid_name : Str → Option Str
  pub utf8 : Str → Bool
  pub dup_kind : ℕ → Option NsDup
  pub dup_size : ℕ
  pub permissions_of : ℕ → NsPermissions
  pub dup_fd : ℕ → Result ℕ
  pub open_fd : ℕ → Str → ℕ → ℕ → ℕ → ℕ → Result ℕ
  pub unlink_fd : ℕ → Str → ℕ → ℕ → ℕ → Result (Unit {0})
  pub obtain_fd : ℕ → Result ℕ
  pub mode_dir : ℕ
  pub mode_file : ℕ

pub record CallerCtx : Type 0 where
  pub uid : ℕ
  pub gid : ℕ

abbrev pub wrapping_next : ℕ → ℕ
wrapping_next n = (n + 1) % 2 ^ 64

-- A handle with the next id.
abbrev pub add_handle : Handle → NamespaceScheme → NamespaceScheme
add_handle h s = record s {
  handles = Map.insert s.handles s.next_id h;
  next_id = wrapping_next s.next_id;
}

-- `add_namespace` with the next id: the namespace is a new one.
unfoldable pub add_namespace : Namespace → NsPermissions → NamespaceScheme → NamespaceScheme
add_namespace schemes permission s =
    add_handle (access (record { namespace = s.next_namespace; permission = permission }))
      (record s {
        namespaces = Map.insert s.namespaces s.next_namespace schemes;
        next_namespace = s.next_namespace + 1;
      })

-- `NamespaceScheme::new`, and the handle with which `run` begins.
unfoldable pub start : Namespace → ℕ → NamespaceScheme
unfolding add_namespace
start schemes cap = add_namespace schemes all (record {
  handles = [];
  next_id = 0;
  scheme_creation_cap = cap;
  namespaces = [];
  next_namespace = 0;
})
