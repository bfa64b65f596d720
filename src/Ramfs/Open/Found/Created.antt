-- ===== src/Ramfs/Open/Found/Created.antt =====
-- The file that `create` of ramfs/src/scheme.rs makes is found by its path.
use eos_base.Base.{
  ℕ, ◌≡◌, refl, ◌∙◌, sym, ap, false, none, some, arith, Option-cases, Bool-cases, inl, inr,
  if◌then◌else◌, ◌==◌,
}
use eos_base.Base.Text.{Str, str_eq_iff}
use eos_base.Base.Map
use eos_base.Base.Map.{get-insert}
use eos_base.Base.StrMap
use eos_base.Base.Result.{ok, err, Error}
use eos_base.Ramfs.{FsFlags, File, Filesystem, directory, root_inode}
use eos_base.Ramfs.Path.{enter, walk, is_dots, resolve}
use eos_base.Ramfs.Path.Walk.{walk-last}
use eos_base.Ramfs.Path.Extend.{Extends, walk-Extends, permitted-superuser}
use eos_base.Ramfs.Path.Last.{Reached, resolve-Reached}

-- The file system with a new file in a directory.
abbrev pub with_file : Filesystem → ℕ → File → ℕ → File → StrMap.StrMap ℕ → Str → Filesystem
with_file fs n f parent g entries name = record {
  files =
      Map.insert (Map.insert fs.files n f) parent
        (record g { contents = directory (StrMap.insert entries name n) });
  last_inode_number = n;
}

Extends-self : (fs : Filesystem) → Extends fs fs
Extends-self fs = record {
  kept = λ i f held. (f, held);
  entries = λ i f f' d held held' dir. (
    d,
    let e : f' ≡ f = ground (arith, held, held') in ap (λ x. x.contents) e ∙ dir,
    λ name j g m _. m,
  );
}

module _ (fl : FsFlags) where
  Reached-Extends :
      (fs fs' : Filesystem) (uid gid : ℕ) (path : Str) (inode : ℕ) (last : Str) (g' : File)
      → Extends fs fs'
      → Reached fl fs uid gid path inode last
      → Map.get fs'.files inode ≡ some g'
      → (q : Reached fl fs' 0 0 path inode last) × (q.parent ≡ g')
  Reached-Extends fs fs' uid gid path inode last g' ext q held =
      let (root', at_root') = ext.kept root_inode q.root q.at_root in
      let (parent', found', there') =
        walk-Extends fl fs fs' ext uid gid q.parts root_inode q.root root' inode q.parent q.at_root
          at_root' q.found in
      (
        record {
          root = root';
          parts = q.parts;
          parent = parent';
          at_root = at_root';
          whole = q.whole;
          found = found';
          there = there';
        },
        ground (arith, there', held),
      )

  -- A path that the super-user does not find, but its directory: it has no entry of that name, or one
  -- without a file.
  unfound :
      (fs : Filesystem) (path : Str) (inode : ℕ) (last : Str) (d : StrMap.StrMap ℕ) (e : Error)
      (q : Reached fl fs 0 0 path inode last)
      → q.parent.contents ≡ directory d
      → resolve fl fs 0 0 path ≡ err e
      → (is_dots last ≡ false) × ((j : ℕ) → StrMap.get d last ≡ some j → Map.get fs.files j ≡ none)
  unfolding walk enter
  unfound fs path inode last d e q dir h =
      let may = permitted-superuser fl fs q.parent d dir in
      let failed = sym (resolve-Reached fl fs 0 0 path inode last q) ∙ h in
      elim (Bool-cases (is_dots last)) [
        | inl dots ↦ absurd (ground (arith, failed, may, dots))
        | inr plain ↦ (
          plain,
          λ j held. elim (Option-cases (Map.get fs.files j)) [
            | inl gone ↦ gone
            | inr (g, there) ↦
                let entered : enter fl fs 0 0 d last ≡ ok (j, g) =
                  rw (enter, held) (rw there refl) in
                let found =
                  walk-last fl fs 0 0 q.parent inode d last (ok (j, g)) may plain entered in
                absurd (ground (arith, failed, found))
          ],
        )
      ]

  module _ (fs : Filesystem) (n : ℕ) (f : File) (parent : ℕ) (g : File) (d : StrMap.StrMap ℕ)
      (name : Str) (new : Map.get fs.files n ≡ none) (there : Map.get fs.files parent ≡ some g)
      (dir : g.contents ≡ directory d) where
    with_file-get :
        (i : ℕ)
        → Map.get (with_file fs n f parent g d name).files i ≡ (
            if parent == i
            then some (record g { contents = directory (StrMap.insert d name n) })
            else if n == i
            then some f
            else Map.get fs.files i)
    with_file-get i =
        get-insert (Map.insert fs.files n f) parent
          (record g { contents = directory (StrMap.insert d name n) }) i
        ∙ ap
            (λ o.
              if parent == i
              then some (record g { contents = directory (StrMap.insert d name n) })
              else o)
            (get-insert fs.files n f i)

    with_file-Extends :
        ((j : ℕ) → StrMap.get d name ≡ some j → Map.get fs.files j ≡ none)
        → Extends fs (with_file fs n f parent g d name)
    with_file-Extends fresh =
        let parent' = record g { contents = directory (StrMap.insert d name n) } in
        record {
          kept = λ i h held. elim (Bool-cases (parent == i)) [
            | inl here ↦ (parent', ground (arith, here, with_file-get i))
            | inr other ↦ (h, ground (arith, other, held, new, with_file-get i))
          ];
          entries = λ i h h' e held held' is_dir. elim (Bool-cases (parent == i)) [
            | inl here ↦
                let same : h ≡ g = ground (arith, here, held, there) in
                let same' : h' ≡ parent' = ground (arith, here, held', with_file-get i) in
                let e_d : e ≡ d = ground (arith, sym (ap (λ x. x.contents) same), dir, is_dir) in
                (
                  StrMap.insert d name n,
                  ap (λ x. x.contents) same',
                  λ k j x m found. ground (
                    arith,
                    e_d,
                    m,
                    found,
                    fresh j,
                    StrMap.get-insert d name n k,
                    str_eq_iff name k,
                  ),
                )
            | inr other ↦
                let same : h' ≡ h = ground (arith, other, held, held', new, with_file-get i) in
                (e, ap (λ x. x.contents) same ∙ is_dir, λ k j x m _. m)
          ];
        }

    -- The new file is what its path names.
    pub resolve-with_file :
        (uid gid : ℕ) (path : Str) (e : Error)
        → Reached fl fs uid gid path parent name
        → resolve fl fs 0 0 path ≡ err e
        → resolve fl (with_file fs n f parent g d name) 0 0 path ≡ ok n
    unfolding enter
    resolve-with_file uid gid path e q missing =
        let (q0, same) =
          Reached-Extends fs fs uid gid path parent name g (Extends-self fs) q there in
        let (plain, fresh) =
          unfound fs path parent name d e q0 (ap (λ x. x.contents) same ∙ dir) missing in
        let fs' = with_file fs n f parent g d name in
        let parent' = record g { contents = directory (StrMap.insert d name n) } in
        let (q1, same1) =
          Reached-Extends fs fs' uid gid path parent name parent' (with_file-Extends fresh) q
            (ground (arith, with_file-get parent)) in
        let entered : enter fl fs' 0 0 (StrMap.insert d name n) name ≡ ok (n, f) = ground (
          arith,
          with_file-get n,
          new,
          there,
          StrMap.get-insert d name n name,
          str_eq_iff name name,
        ) in
        resolve-Reached fl fs' 0 0 path parent name q1
        ∙ rw
            (walk-last fl fs' 0 0 q1.parent parent (StrMap.insert d name n) name (ok (n, f))
              (permitted-superuser fl fs' q1.parent (StrMap.insert d name n)
                (ap (λ x. x.contents) same1))
              plain entered)
            refl
