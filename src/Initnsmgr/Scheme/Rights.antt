-- ===== src/Initnsmgr/Scheme/Rights.antt =====
-- The right to make schemes in bootstrap/src/initnsmgr.rs: it is lost when the last handle with it
-- closes.
use eos_base.Base.{
  ◌≢◌, ℕ, ◌+◌, ◌≡◌, refl, Bool, true, false, not, Option, none, some, [], arith, ◌==◌, ltb,
  Bool-cases, Option-cases, inl, inr,
}
use eos_base.Base.Text.{Str, bytes, str_eq}
use eos_base.Base.Map
use eos_base.Base.Map.{get-insert, get-remove}
use eos_base.Base.StrMap
use eos_base.Base.Text.{str_eq_refl}
use eos_base.Base.Syscall.{OpenResult, other_scheme}
use eos_base.Base.Result.{
  and_then-ensures, Result, ok, and_then-keeps, ok_or, expect, eacces, eexist, einval, enodev,
}
use eos_base.Initnsmgr.{
  scheme_create, list, delete, insert, all, is_high, difference, intersection, Namespace,
  NamespaceAccess, SchemeRegister, Handle, access, register, listing, NamespaceScheme, NsDup,
  fork_ns, shrink_permissions, issue_register, System, CallerCtx, add_handle, add_namespace,
}
use eos_base.Initnsmgr.Fork.{read_num, fork}
use eos_base.Initnsmgr.Scheme.{
  as_access, as_register, require, openat, open_namespace_resource, open_scheme_resource, open_list,
  dup, dup_as, fork_namespace, shrink, issue_cap, payload_of, ended, unlinkat, remove_scheme,
  on_close, on_sendfd, register_fd,
}

-- A handle that does not have the right.
abbrev pub lacks : Option Handle → Bool
lacks (some (access a)) = not (a.permission scheme_create)
lacks _ = true

abbrev pub HasNone : NamespaceScheme → Type 0
HasNone s = (i : ℕ) → lacks (Map.get s.handles i) ≡ true

add_handle-HasNone :
    (h : Handle) (s : NamespaceScheme)
    → lacks (some h) ≡ true
    → HasNone s
    → HasNone (add_handle h s)
add_handle-HasNone h s l c i = ground (arith, l, c i, get-insert s.handles s.next_id h i)

access-lacks :
    (o : Option Handle) (a : NamespaceAccess)
    → as_access o ≡ ok a
    → lacks o ≡ true
    → a.permission scheme_create ≡ false
access-lacks none a h l = absurd (cc)
access-lacks (some (register r)) a h l = absurd (cc)
access-lacks (some (listing b)) a h l = absurd (cc)
access-lacks (some (access b)) a h l = ground (arith, h, l)

module _ (sys : System) where
  open_list-HasNone :
      (a : NamespaceAccess) (s : NamespaceScheme) → HasNone s → HasNone (open_list sys a s).1
  unfolding open_list
  open_list-HasNone a s c =
      and_then-keeps HasNone (require (a.permission list) eacces) _ s c
        λ _ _. add_handle-HasNone (listing a) s refl c

  open_namespace_resource-state :
      (a : NamespaceAccess) (reference : Str) (s : NamespaceScheme)
      → (open_namespace_resource sys a reference s).1 ≡ s
  unfolding open_namespace_resource
  open_namespace_resource-state a reference s = ground arith

  openat-HasNone :
      (s : NamespaceScheme) (fd : ℕ) (path : Str) (flags fcntl_flags : ℕ) (ctx : CallerCtx)
      → HasNone s
      → HasNone (openat sys fd path flags fcntl_flags ctx s).1
  unfolding openat open_namespace_resource
  openat-HasNone s fd path flags fcntl_flags ctx c =
      and_then-keeps HasNone (as_access (Map.get s.handles fd)) _ s c λ a _.
        and_then-keeps HasNone (ok_or (sys.path_parts path) einval) _ s c λ parts _.
          elim (Bool-cases (str_eq parts.0 (bytes "namespace"))) [
            | inl special ↦ rw special (
                let r = open_namespace_resource sys a parts.1 s in
                let c' : HasNone r.1 = rw (open_namespace_resource-state a parts.1 s) c in
                and_then-keeps HasNone r.0 _ r.1 c' λ _ _. c')
            | inr named ↦ elim (Bool-cases (str_eq parts.0 [])) [
              | inl empty ↦ rw (named, empty) (open_list-HasNone a s c)
              | inr scheme ↦
                  rw (named, scheme)
                    (and_then-keeps HasNone (expect (Map.get s.namespaces a.namespace)) _ s c
                      λ ns _.
                        and_then-keeps HasNone
                          (open_scheme_resource sys ns parts.0 parts.1 flags fcntl_flags ctx) _ s c
                          λ _ _. c)
            ]
          ]

  dup_as-HasNone :
      (kind : NsDup) (a : NamespaceAccess) (payload : Str) (s : NamespaceScheme)
      → a.permission scheme_create ≡ false
      → HasNone s
      → HasNone (dup_as sys kind a payload s).1
  unfolding dup_as fork_namespace shrink issue_cap add_namespace
  dup_as-HasNone fork_ns a payload s l c =
      and_then-keeps HasNone (expect (Map.get s.namespaces a.namespace)) _ s c λ ns _.
        and_then-keeps HasNone (ended sys (fork sys.utf8 ns payload)) _ s c λ forked _.
          add_handle-HasNone
            (access (record { namespace = s.next_namespace; permission = difference all is_high }))
            (record s {
              namespaces = Map.insert s.namespaces s.next_namespace forked;
              next_namespace = s.next_namespace + 1;
            })
            refl c
  dup_as-HasNone shrink_permissions a payload s l c =
      and_then-keeps HasNone (read_num payload) _ s c λ bits _.
        add_handle-HasNone
          (access (record a { permission = intersection a.permission (sys.permissions_of bits) })) s
          (rw l refl) c
  dup_as-HasNone issue_register a payload s l c =
      and_then-keeps HasNone (require (sys.utf8 payload) einval) _ s c λ _ _.
        and_then-keeps HasNone (ok_or (sys.valid_name payload) einval) _ s c λ scheme_name _.
          and_then-keeps HasNone (require (a.permission insert) eacces) _ s c λ _ _.
            add_handle-HasNone
              (register (record { target_namespace = a.namespace; scheme_name = scheme_name })) s
              refl c

  dup-HasNone :
      (s : NamespaceScheme) (id : ℕ) (buf : Str) → HasNone s → HasNone (dup sys id buf s).1
  unfolding dup
  dup-HasNone s id buf c =
      and_then-keeps HasNone (as_access (Map.get s.handles id)) _ s c λ a found.
        and_then-keeps HasNone (read_num buf) _ s c λ raw_kind _.
          and_then-keeps HasNone (ok_or (sys.dup_kind raw_kind) einval) _ s c λ kind _.
            and_then-keeps HasNone (payload_of sys buf) _ s c λ payload _.
              let r = dup_as sys kind a payload s in
              let c' =
                dup_as-HasNone kind a payload s (access-lacks (Map.get s.handles id) a found (c id))
                  c in
              and_then-keeps HasNone r.0 _ r.1 c' λ _ _. c'

  remove_scheme-HasNone :
      (namespace : ℕ) (ns : Namespace) (scheme : Str) (s : NamespaceScheme)
      → HasNone s
      → HasNone (remove_scheme sys namespace ns scheme s).1
  unfolding remove_scheme
  remove_scheme-HasNone namespace ns scheme s c = elim (Option-cases (StrMap.get ns scheme)) [
    | inl gone ↦ rw (remove_scheme, gone) c
    | inr (fd, there) ↦ rw (remove_scheme, there) c
  ]

  unlinkat-HasNone :
      (s : NamespaceScheme) (fd : ℕ) (path : Str) (flags : ℕ) (ctx : CallerCtx)
      → HasNone s
      → HasNone (unlinkat sys fd path flags ctx s).1
  unfolding unlinkat
  unlinkat-HasNone s fd path flags ctx c =
      and_then-keeps HasNone (as_access (Map.get s.handles fd)) _ s c λ a _.
        and_then-keeps HasNone (expect (Map.get s.namespaces a.namespace)) _ s c λ ns _.
          and_then-keeps HasNone (ok_or (sys.path_parts path) einval) _ s c λ parts _.
            elim (Bool-cases (str_eq parts.1 [])) [
              | inl whole ↦ rw whole (
                  and_then-keeps HasNone (require (a.permission delete) eacces) _ s c
                    λ _ _. remove_scheme-HasNone a.namespace ns parts.0 s c)
              | inr below ↦ rw below (
                  and_then-keeps HasNone (ok_or (StrMap.get ns parts.0) enodev) _ s c λ cap_fd _. c)
            ]

  on_close-HasNone : (s : NamespaceScheme) (id : ℕ) → HasNone s → HasNone (on_close sys id s)
  unfolding on_close
  on_close-HasNone s id c i = ground (arith, c i, get-remove s.handles id i)

  register_fd-HasNone :
      (r : SchemeRegister) (fd : ℕ) (s : NamespaceScheme)
      → HasNone s
      → HasNone (register_fd sys r fd s).1
  unfolding register_fd
  register_fd-HasNone r fd s c =
      and_then-keeps HasNone (expect (Map.get s.namespaces r.target_namespace)) _ s c λ ns _.
        and_then-keeps HasNone (require (not (StrMap.contains_key ns r.scheme_name)) eexist) _ s c
          λ _ _. c

  on_sendfd-HasNone :
      (s : NamespaceScheme) (id num_fds request : ℕ)
      → HasNone s
      → HasNone (on_sendfd sys id num_fds request s).1
  unfolding on_sendfd
  on_sendfd-HasNone s id num_fds request c =
      and_then-keeps HasNone (as_register sys (Map.get s.handles id)) _ s c λ r _.
        elim (Bool-cases (num_fds == 0)) [
          | inl nothing ↦ rw nothing c
          | inr some_fd ↦ elim (Bool-cases (ltb 1 num_fds)) [
            | inl many ↦ rw (some_fd, many) c
            | inr one ↦
                rw (some_fd, one)
                  (and_then-keeps HasNone (sys.obtain_fd request) _ s c λ new_fd _.
                    let c' = register_fd-HasNone r new_fd s c in
                    and_then-keeps HasNone (register_fd sys r new_fd s).0 _
                      (register_fd sys r new_fd s).1 c' λ _ _. c')
          ]
        ]

-- The requests that change the state.
pub data Request : Type 0 where
  opens : ℕ → Str → ℕ → ℕ → CallerCtx → Request
  dups : ℕ → Str → Request
  unlinks : ℕ → Str → ℕ → CallerCtx → Request
  sends : ℕ → ℕ → ℕ → Request
  closes : ℕ → Request

module _ (sys : System) where
  unfoldable pub handle : Request → NamespaceScheme → NamespaceScheme
  handle (opens fd path flags fcntl_flags ctx) s = (openat sys fd path flags fcntl_flags ctx s).1
  handle (dups id buf) s = (dup sys id buf s).1
  handle (unlinks fd path flags ctx) s = (unlinkat sys fd path flags ctx s).1
  handle (sends id num_fds request) s = (on_sendfd sys id num_fds request s).1
  handle (closes id) s = on_close sys id s

  -- What requests make of a state.
  pub data Reach (s : NamespaceScheme) : NamespaceScheme → Type 0 where
    here : Reach s s
    after : {t : NamespaceScheme} → Reach s t → (r : Request) → Reach s (handle r t)

  handle-HasNone : (r : Request) (s : NamespaceScheme) → HasNone s → HasNone (handle r s)
  unfolding handle
  handle-HasNone (opens fd path flags fcntl_flags ctx) s c =
      openat-HasNone sys s fd path flags fcntl_flags ctx c
  handle-HasNone (dups id buf) s c = dup-HasNone sys s id buf c
  handle-HasNone (unlinks fd path flags ctx) s c = unlinkat-HasNone sys s fd path flags ctx c
  handle-HasNone (sends id num_fds request) s c = on_sendfd-HasNone sys s id num_fds request c
  handle-HasNone (closes id) s c = on_close-HasNone sys s id c

  Reach-HasNone : {s t : NamespaceScheme} → HasNone s → Reach s t → HasNone t
  Reach-HasNone c here = c
  Reach-HasNone c (after {t} q r) = handle-HasNone r t (Reach-HasNone c q)

  refused :
      (a : NamespaceAccess) (reference : Str) (s : NamespaceScheme) (fd : ℕ)
      → a.permission scheme_create ≡ false
      → (open_namespace_resource sys a reference s).0 ≢ ok fd
  unfolding open_namespace_resource
  refused a reference s fd l h =
      elim (Bool-cases (str_eq reference (bytes "scheme-creation-cap"))) [
        | inl cap ↦ absurd (ground (arith, cap, l, h))
        | inr other ↦ absurd (ground (arith, other, h))
      ]

  -- From a state on in which no handle has the right to make schemes, no requests get it back: whatever
  -- handle it is asked of, the capability is not given, nor is any other resource of the manager.
  pub Reach-refused :
      (s t : NamespaceScheme) (fd : ℕ) (path reference : Str) (flags fcntl_flags : ℕ)
      (ctx : CallerCtx) (res_fd : ℕ)
      → HasNone s
      → Reach s t
      → sys.path_parts path ≡ some (bytes "namespace", reference)
      → (openat sys fd path flags fcntl_flags ctx t).0 ≢ ok (other_scheme res_fd)
  unfolding openat
  Reach-refused s t fd path reference flags fcntl_flags ctx res_fd none_has q parts =
      let c = Reach-HasNone none_has q in
      let Q : Result OpenResult × NamespaceScheme → Type 0 = λ r. r.0 ≢ ok (other_scheme res_fd) in
      and_then-ensures Q (as_access (Map.get t.handles fd)) _ t (λ e h. absurd (cc))
        (λ h. absurd (cc))
        λ a found.
          rw (parts, str_eq_refl (bytes "namespace"))
            (let r = open_namespace_resource sys a reference t in
              and_then-ensures Q r.0 _ r.1 (λ e h. absurd (cc)) (λ h. absurd (cc))
                λ got done _.
                  refused a reference t got (access-lacks (Map.get t.handles fd) a found (c fd))
                    done)
