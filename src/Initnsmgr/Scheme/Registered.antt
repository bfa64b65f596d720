-- ===== src/Initnsmgr/Scheme/Registered.antt =====
-- What is registered under a name in bootstrap/src/initnsmgr.rs is what the name opens.
use eos_base.Base.{ℕ, ◌≡◌, refl, false, some, [], arith, Bool-cases, Option-cases, inl, inr}
use eos_base.Base.Text.{Str, bytes, str_eq, str_eq_iff}
use eos_base.Base.Map
use eos_base.Base.Map.{get-insert}
use eos_base.Base.StrMap
use eos_base.Base.Syscall.{OpenResult, other_scheme}
use eos_base.Base.Result.{Result, ok, err, panic, Result-cases}
use eos_base.Initnsmgr.{
  Namespace, NamespaceAccess, SchemeRegister, access, register, NamespaceScheme, System, CallerCtx,
}
use eos_base.Initnsmgr.Scheme.{openat, open_scheme_resource, on_sendfd, register_fd}

module _ (sys : System) where
  -- What `openat` makes of the descriptor that a scheme gives.
  abbrev pub opened : Result ℕ → Result OpenResult
  opened (ok fd) = ok (other_scheme fd)
  opened (err e) = err e
  opened panic = panic

  -- A name of a scheme that the namespace of a handle has.
  openat-known :
      (s : NamespaceScheme) (fd : ℕ) (a : NamespaceAccess) (ns : Namespace)
      (name path reference : Str) (cap_fd : ℕ) (flags fcntl_flags : ℕ) (ctx : CallerCtx)
      → Map.get s.handles fd ≡ some (access a)
      → sys.path_parts path ≡ some (name, reference)
      → str_eq name (bytes "namespace") ≡ false
      → str_eq name [] ≡ false
      → Map.get s.namespaces a.namespace ≡ some ns
      → StrMap.get ns name ≡ some cap_fd
      → (openat sys fd path flags fcntl_flags ctx s).0
        ≡ opened (sys.open_fd cap_fd reference flags fcntl_flags ctx.uid ctx.gid)
  unfolding openat open_scheme_resource
  openat-known s fd a ns name path reference cap_fd flags fcntl_flags ctx held parts own named there
        known =
      elim (Result-cases (sys.open_fd cap_fd reference flags fcntl_flags ctx.uid ctx.gid)) [
        | inl (res_fd, done) ↦
            rw (openat, held)
              (rw parts
                (rw (own, named) (rw (there) (rw (open_scheme_resource, known, done) refl))))
        | inr (inl (e, done)) ↦
            rw (openat, held)
              (rw parts
                (rw (own, named) (rw (there) (rw (open_scheme_resource, known, done) refl))))
        | inr (inr done) ↦
            rw (openat, held)
              (rw parts
                (rw (own, named) (rw (there) (rw (open_scheme_resource, known, done) refl))))
      ]

  on_sendfd-state :
      (s : NamespaceScheme) (id request : ℕ) (r : SchemeRegister) (new_fd : ℕ) (ns : Namespace)
      → Map.get s.handles id ≡ some (register r)
      → sys.obtain_fd request ≡ ok new_fd
      → Map.get s.namespaces r.target_namespace ≡ some ns
      → StrMap.contains_key ns r.scheme_name ≡ false
      → (on_sendfd sys id 1 request s).1 ≡ record s {
        namespaces =
            Map.insert s.namespaces r.target_namespace (StrMap.insert ns r.scheme_name new_fd);
      }
  unfolding on_sendfd register_fd
  on_sendfd-state s id request r new_fd ns held got there free =
      rw (on_sendfd, held) (rw got (rw (register_fd, there) (rw free refl)))

  -- When a descriptor is registered under a name, and the name is not one of the manager's own, a path
  -- with that name opens through this descriptor, on every handle that has access to the namespace
  -- where it was registered.
  pub openat-on_sendfd :
      (s : NamespaceScheme) (id fd : ℕ) (r : SchemeRegister) (a : NamespaceAccess) (request : ℕ)
      (path reference : Str) (flags fcntl_flags : ℕ) (ctx : CallerCtx)
      → Map.get s.handles id ≡ some (register r)
      → Map.get s.handles fd ≡ some (access a)
      → a.namespace ≡ r.target_namespace
      → sys.path_parts path ≡ some (r.scheme_name, reference)
      → str_eq r.scheme_name (bytes "namespace") ≡ false
      → str_eq r.scheme_name [] ≡ false
      → (on_sendfd sys id 1 request s).0 ≡ ok 1
      → (new_fd : ℕ) × (sys.obtain_fd request ≡ ok new_fd)
        × ((openat sys fd path flags fcntl_flags ctx (on_sendfd sys id 1 request s).1).0
            ≡ opened (sys.open_fd new_fd reference flags fcntl_flags ctx.uid ctx.gid))
  unfolding openat on_sendfd register_fd open_scheme_resource
  openat-on_sendfd s id fd r a request path reference flags fcntl_flags ctx held held' same parts
        own named sent =
      elim (Result-cases (sys.obtain_fd request)) [
        | inr (inl (e, failed)) ↦ absurd (ground (arith, held, failed, sent))
        | inr (inr failed) ↦ absurd (ground (arith, held, failed, sent))
        | inl (new_fd, got) ↦ elim (Option-cases (Map.get s.namespaces r.target_namespace)) [
          | inl gone ↦ absurd (ground (arith, held, got, gone, sent))
          | inr (ns, there) ↦ elim (Bool-cases (StrMap.contains_key ns r.scheme_name)) [
            | inl taken ↦ absurd (ground (arith, held, got, there, taken, sent))
            | inr free ↦ (
              new_fd,
              got,
              rw (on_sendfd-state s id request r new_fd ns held got there free) (
                  let ns' = StrMap.insert ns r.scheme_name new_fd in
                  let s' = record s {
                    namespaces = Map.insert s.namespaces r.target_namespace ns';
                  } in
                  openat-known s' fd a ns' r.scheme_name path reference new_fd flags fcntl_flags ctx
                    held' parts own named
                    (ground
                      (arith, same, get-insert s.namespaces r.target_namespace ns' a.namespace))
                    (ground (
                      arith,
                      StrMap.get-insert ns r.scheme_name new_fd r.scheme_name,
                      str_eq_iff r.scheme_name r.scheme_name,
                    ))),
            )
          ]
        ]
      ]
