-- ===== src/Ramfs/Open/Found.antt =====
-- A path of ramfs/src/filesystem.rs that names a file names it after the changes that `openat` of
-- ramfs/src/scheme.rs makes.
pub mod Created
pub mod Opened
use eos_base.Base.{ℕ, ◌≡◌, ◌∙◌, sym, ap, some, arith, Option-cases, Bool-cases, inl, inr, ◌==◌}
use eos_base.Base.Text.{Str}
use eos_base.Base.Map
use eos_base.Base.Map.{get-insert}
use eos_base.Base.StrMap
use eos_base.Base.Result.{ok}
use eos_base.Ramfs.{FsFlags, File, FileData, Filesystem, Scheme, directory, root_inode, set_files}
use eos_base.Ramfs.Path.{walk, resolve, resolve_generic, path_components, trim_start}
use eos_base.Ramfs.Path.Walk.{then_do-ok}
use eos_base.Ramfs.Path.Extend.{Extends, walk-Extends}
use eos_base.Ramfs.Open.{truncated}

module _ (fl : FsFlags) where
  -- A path that is found by anyone is found by the super-user when directories gain entries.
  pub resolve-Extends :
      (fs fs' : Filesystem) (uid gid : ℕ) (path : Str) (inode : ℕ)
      → Extends fs fs'
      → resolve fl fs uid gid path ≡ ok inode
      → resolve fl fs' 0 0 path ≡ ok inode
  unfolding resolve resolve_generic
  resolve-Extends fs fs' uid gid path inode ext h =
      elim (Option-cases (Map.get fs.files root_inode)) [
        | inl gone ↦ absurd (ground arith)
        | inr (f, there) ↦
            let (place, found, here) =
              then_do-ok fl fs uid gid
                (walk fl fs uid gid (path_components (trim_start path)) (root_inode, f))
                (λ p. ok p.0) inode (ground arith) in
            let (f', there') = ext.kept root_inode f there in
            let (g', found', _) =
              walk-Extends fl fs fs' ext uid gid (path_components (trim_start path)) root_inode f f'
                place.0 place.1 there there' found in
            rw (resolve, resolve_generic, there') (rw found' here)
      ]

  -- A file that changes but stays the directory that it is.
  pub put-Extends :
      (s : Scheme) (inode : ℕ) (g f : File)
      → Map.get s.filesystem.files inode ≡ some g
      → ((d : StrMap.StrMap ℕ) → g.contents ≡ directory d → f.contents ≡ directory d)
      → Extends s.filesystem (set_files (λ files. Map.insert files inode f) s).filesystem
  put-Extends s inode g f there same = record {
    kept = λ i h held. elim (Bool-cases (inode == i)) [
      | inl here ↦ (f, ground (arith, here, get-insert s.filesystem.files inode f i))
      | inr other ↦ (h, ground (arith, other, held, get-insert s.filesystem.files inode f i))
    ];
    entries = λ i h h' d held held' dir. elim (Bool-cases (inode == i)) [
      | inl here ↦ (
        d,
        let e : h ≡ g = ground (arith, here, held, there) in
            let e' : h' ≡ f =
              ground (arith, here, held', get-insert s.filesystem.files inode f i) in
            ap (λ x. x.contents) e' ∙ same d (sym (ap (λ x. x.contents) e) ∙ dir),
        λ name j k m _. m,
      )
      | inr other ↦ (
        d,
        let e : h' ≡ h =
              ground (arith, other, held, held', get-insert s.filesystem.files inode f i) in
            ap (λ x. x.contents) e ∙ dir,
        λ name j k m _. m,
      )
    ];
  }

  pub truncated-directory :
      (contents contents' : FileData) (flags : ℕ) (d : StrMap.StrMap ℕ)
      → truncated fl contents flags ≡ ok contents'
      → contents ≡ directory d
      → contents' ≡ directory d
  unfolding truncated
  truncated-directory contents contents' flags d h dir = ground arith
