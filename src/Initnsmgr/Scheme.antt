-- ===== src/Initnsmgr/Scheme.antt =====
-- The handlers of `NamespaceScheme` in bootstrap/src/initnsmgr.rs.
pub mod Rights
pub mod Registered
use eos_base.Base.{
  ℕ, ◌+◌, Bool, true, false, not, ◌&&◌, Option, none, some, List, [], ◌∷◌, ◌==◌, ltb, length, drop,
  bit_or, if◌then◌else◌,
}
use eos_base.Base.Text.{Str, bytes, str_eq}
use eos_base.Base.Map
use eos_base.Base.StrMap
use eos_base.Base.Syscall.{OpenResult, this_scheme, other_scheme}
use eos_base.Base.Result.{
  Result, Error, ok, err, panic, eacces, ebadf, eexist, einval, enodev, enoent, enotdir, gets, lift,
  modify, ok_or, expect, ◌>>=◌, ◌>>◌,
}
use eos_base.Initnsmgr.{
  list, insert, delete, scheme_create, NsPermissions, is_high, all, intersection, difference,
  Namespace, NamespaceAccess, SchemeRegister, Handle, access, register, listing, NamespaceScheme, M,
  NsDup, fork_ns, shrink_permissions, issue_register, System, CallerCtx, add_handle, add_namespace,
}
use eos_base.Initnsmgr.Fork.{read_num, fork}

abbrev pub as_access : Option Handle → Result NamespaceAccess
as_access (some (access a)) = ok a
as_access _ = err enoent

-- `get_ns_access`, with the error that its callers make of it.
abbrev pub get_ns_access : ℕ → M NamespaceAccess
get_ns_access id s = (as_access (Map.get s.handles id), s)

abbrev pub require : Bool → Error → Result (Unit {0})
require true e = ok tt
require false e = err e

-- `borrow` on the shared namespace. Each number in a handle is that of a namespace.
abbrev pub namespace_of : ℕ → M Namespace
namespace_of n s = (expect (Map.get s.namespaces n), s)

abbrev pub put_namespace : ℕ → Namespace → M (Unit {0})
put_namespace n schemes s = (ok tt, record s { namespaces = Map.insert s.namespaces n schemes })

-- A handle with the next id, and that id.
abbrev pub issue : Handle → M ℕ
issue h s = (ok s.next_id, add_handle h s)

module _ (sys : System) where
  unfoldable pub open_namespace_resource : NamespaceAccess → Str → M ℕ
  open_namespace_resource a reference s =
      if str_eq reference (bytes "scheme-creation-cap")
      then (if a.permission scheme_create
          then (sys.dup_fd s.scheme_creation_cap, s)
          else (err eacces, s))
      else (err einval, s)

  unfoldable pub open_scheme_resource : Namespace → Str → Str → ℕ → ℕ → CallerCtx → Result ℕ
  open_scheme_resource ns scheme reference flags fcntl_flags ctx = elim (StrMap.get ns scheme) [
    | none ↦ err enodev
    | some cap_fd ↦ sys.open_fd cap_fd reference flags fcntl_flags ctx.uid ctx.gid
  ]

  -- The schemes of a namespace as a handle.
  unfoldable pub open_list : NamespaceAccess → M OpenResult
  open_list a = do
    lift (require (a.permission list) eacces)
    new_id ← issue (listing a)
    lift (ok (this_scheme new_id))

  unfoldable pub openat : ℕ → Str → ℕ → ℕ → CallerCtx → M OpenResult
  unfolding open_namespace_resource open_scheme_resource open_list
  openat fd path flags fcntl_flags ctx = do
    a ← get_ns_access fd
    (scheme, reference) ← lift (ok_or (sys.path_parts path) einval)
    (if str_eq scheme (bytes "namespace")
        then (do res_fd ← open_namespace_resource a reference; lift (ok (other_scheme res_fd)))
        else if str_eq scheme []
        then open_list a
        else (do
          ns ← namespace_of a.namespace
          res_fd ← lift (open_scheme_resource ns scheme reference flags fcntl_flags ctx)
          lift (ok (other_scheme res_fd))))

  -- A loop that does not end is a panic here; `Fork.Ends` shows that there is none.
  abbrev pub ended : Option (Result Namespace) → Result Namespace
  ended none = panic
  ended (some r) = r

  unfoldable pub fork_namespace : ℕ → Str → M ℕ
  unfolding add_namespace
  fork_namespace namespace names = do
    schemes ← namespace_of namespace
    new_namespace ← lift (ended (fork sys.utf8 schemes names))
    new_id ← gets (λ s. s.next_id)
    modify (add_namespace new_namespace (difference all is_high))
    lift (ok new_id)

  unfoldable pub shrink : NamespaceAccess → NsPermissions → M ℕ
  shrink a permission =
      issue (access (record a { permission = intersection a.permission permission }))

  unfoldable pub issue_cap : NamespaceAccess → Str → M ℕ
  issue_cap a payload = do
    lift (require (sys.utf8 payload) einval)
    scheme_name ← lift (ok_or (sys.valid_name payload) einval)
    lift (require (a.permission insert) eacces)
    issue (register (record { target_namespace = a.namespace; scheme_name = scheme_name }))

  -- `&buf[size_of::<NsDup>()..]`
  abbrev pub payload_of : Str → Result Str
  payload_of buf = if ltb (length buf) sys.dup_size then panic else ok (drop sys.dup_size buf)

  unfoldable pub dup_as : NsDup → NamespaceAccess → Str → M ℕ
  unfolding fork_namespace shrink issue_cap
  dup_as fork_ns a payload = fork_namespace a.namespace payload
  dup_as shrink_permissions a payload = do
    bits ← lift (read_num payload)
    shrink a (sys.permissions_of bits)
  dup_as issue_register a payload = issue_cap a payload

  unfoldable pub dup : ℕ → Str → M OpenResult
  unfolding dup_as
  dup id buf = do
    a ← get_ns_access id
    raw_kind ← lift (read_num buf)
    kind ← lift (ok_or (sys.dup_kind raw_kind) einval)
    payload ← lift (payload_of buf)
    new_id ← dup_as kind a payload
    lift (ok (this_scheme new_id))

  -- `remove_scheme`
  unfoldable pub remove_scheme : ℕ → Namespace → Str → M (Unit {0})
  remove_scheme namespace ns scheme = elim (StrMap.get ns scheme) [
    | none ↦ lift (err enodev)
    | some _ ↦ put_namespace namespace (StrMap.remove ns scheme)
  ]

  unfoldable pub unlinkat : ℕ → Str → ℕ → CallerCtx → M (Unit {0})
  unfolding remove_scheme
  unlinkat fd path flags ctx = do
    a ← get_ns_access fd
    ns ← namespace_of a.namespace
    (scheme, reference) ← lift (ok_or (sys.path_parts path) einval)
    (if str_eq reference []
        then (do lift (require (a.permission delete) eacces); remove_scheme a.namespace ns scheme)
        else (do
          cap_fd ← lift (ok_or (StrMap.get ns scheme) enodev)
          lift (sys.unlink_fd cap_fd reference flags ctx.uid ctx.gid)))

  unfoldable pub on_close : ℕ → NamespaceScheme → NamespaceScheme
  on_close id s = record s { handles = Map.remove s.handles id }

  abbrev pub as_register : Option Handle → Result SchemeRegister
  as_register none = err enoent
  as_register (some (register r)) = ok r
  as_register (some _) = err eacces

  -- `SchemeRegister::register`
  unfoldable pub register_fd : SchemeRegister → ℕ → M (Unit {0})
  register_fd r fd = do
    ns ← namespace_of r.target_namespace
    lift (require (not (StrMap.contains_key ns r.scheme_name)) eexist)
    put_namespace r.target_namespace (StrMap.insert ns r.scheme_name fd)

  -- `num_fds` are the descriptors that come with the request `request`.
  unfoldable pub on_sendfd : ℕ → ℕ → ℕ → M ℕ
  unfolding register_fd
  on_sendfd namespace_id num_fds request = do
    r ← (λ s. (as_register (Map.get s.handles namespace_id), s))
    (if num_fds == 0
        then lift (ok 0)
        else if ltb 1 num_fds
        then lift (err einval)
        else (do new_fd ← lift (sys.obtain_fd request); register_fd r new_fd; lift (ok num_fds)))

  unfoldable pub fstat : ℕ → M ℕ
  fstat id s = elim (Map.get s.handles id) [
    | none ↦ (err ebadf, s)
    | some (listing _) ↦ (ok (bit_or 0o444 sys.mode_dir), s)
    | some _ ↦ (ok (bit_or 0o666 sys.mode_file), s)
  ]

-- The writer of entries is a parameter, that of the `syscall` crate, and so is the order in which the
-- names of a hash map come.
pub record DirEntry : Type 0 where
  pub name : Str
  pub inode : ℕ
  pub next_opaque_id : ℕ

module _ {B : Type 0} (entry : B → DirEntry → Result (Unit {0}) × B)
    (iter : Namespace → List Str) where
  -- `err.errno == EINVAL`
  abbrev pub is_einval : Error → Bool
  is_einval einval = true
  is_einval _ = false

  -- The loop of `getdents`: the names from the index on.
  unfoldable pub put_names : ℕ → ℕ → List Str → B → Result (Unit {0}) × B
  put_names opaque_offset i [] buf = (ok tt, buf)
  put_names opaque_offset i ([] ∷ names) buf = put_names opaque_offset (i + 1) names buf
  put_names opaque_offset i ((c ∷ name) ∷ names) buf =
      let (r, buf') = entry buf (record { name = c ∷ name; inode = 0; next_opaque_id = i + 1 }) in
      elim r [
        | ok _ ↦ put_names opaque_offset (i + 1) names buf'
        | err e ↦ if is_einval e && ltb opaque_offset i then (ok tt, buf') else (err e, buf')
        | panic ↦ (panic, buf')
      ]

  abbrev pub as_listing : Option Handle → Result NamespaceAccess
  as_listing none = err ebadf
  as_listing (some (listing a)) = ok a
  as_listing (some _) = err enotdir

  unfoldable pub getdents : ℕ → ℕ → B → NamespaceScheme → (Result (Unit {0}) × B) × NamespaceScheme
  unfolding put_names
  getdents id opaque_offset buf s = elim (as_listing (Map.get s.handles id)) [
    | err e ↦ ((err e, buf), s)
    | panic ↦ ((panic, buf), s)
    | ok a ↦
        if a.permission list
        then (elim (Map.get s.namespaces a.namespace) [
          | none ↦ ((panic, buf), s)
          | some ns ↦ (put_names opaque_offset opaque_offset (drop opaque_offset (iter ns)) buf, s)
        ])
        else ((err eacces, buf), s)
  ]
