-- ===== src/Ramfs/Path/Last.antt =====
-- `resolve` and `resolve_except_last` of ramfs/src/filesystem.rs beside each other: the last component
-- is looked up in the directory that the others name.
use eos_base.Base.{
  ℕ, ◌≡◌, refl, ◌∙◌, ap, some, List, [], ◌∷◌, ◌++◌, arith, Option-cases, Bool-cases, inl, inr,
}
use eos_base.Base.Text.{Str}
use eos_base.Base.Map
use eos_base.Base.Result.{ok}
use eos_base.Ramfs.{FsFlags, File, Filesystem, root_inode}
use eos_base.Ramfs.Path.{
  Place, permitted, enter, walk, is_dots, then_do, split_last, resolve, resolve_generic,
  resolve_except_last, path_components, trim_start,
}
use eos_base.Ramfs.Path.Walk.{then_do-ok, walk-IsThere, walk-take, walk-skip}

module _ (fl : FsFlags) (fs : Filesystem) (uid gid : ℕ) where
  walk-snoc :
      (parts : List Str) (last : Str) (place there : Place)
      → walk fl fs uid gid parts place ≡ ok there
      → walk fl fs uid gid (parts ++ (last ∷ [])) place ≡ walk fl fs uid gid (last ∷ []) there
  unfolding walk
  walk-snoc [] last place there h =
      let e : place ≡ there = ground arith in ap (λ p. walk fl fs uid gid (last ∷ []) p) e
  walk-snoc (part ∷ []) last place there h =
      let (d, may, entered) =
        then_do-ok fl fs uid gid (permitted fl fs uid gid place.1) _ there h in
      elim (Bool-cases (is_dots part)) [
        | inl dots ↦ absurd (ground arith)
        | inr plain ↦
            walk-take fl fs uid gid place.1 place.0 d part last [] there may plain (ground arith)
      ]
  walk-snoc (part ∷ follow ∷ rest) last place there h =
      let (d, may, entered) =
        then_do-ok fl fs uid gid (permitted fl fs uid gid place.1) _ there h in
      elim (Bool-cases (is_dots part)) [
        | inl dots ↦
            let (mid, e, onwards) =
              then_do-ok fl fs uid gid (enter fl fs uid gid d follow) (walk fl fs uid gid rest)
                there (ground arith) in
            walk-skip fl fs uid gid place.1 place.0 d part follow (rest ++ (last ∷ [])) mid may dots
              e
            ∙ walk-snoc rest last mid there onwards
        | inr plain ↦
            let (mid, e, onwards) =
              then_do-ok fl fs uid gid (enter fl fs uid gid d part)
                (walk fl fs uid gid (follow ∷ rest)) there (ground arith) in
            walk-take fl fs uid gid place.1 place.0 d part follow (rest ++ (last ∷ [])) mid may
              plain e
            ∙ walk-snoc (follow ∷ rest) last mid there onwards
      ]

  split_last-snoc :
      (all : List Str) (last : Str)
      → (split_last fl fs uid gid all).1 ≡ some last
      → all ≡ (split_last fl fs uid gid all).0 ++ (last ∷ [])
  unfolding split_last
  split_last-snoc [] last h = absurd (ground arith)
  split_last-snoc (part ∷ []) last h = ground arith
  split_last-snoc (part ∷ follow ∷ rest) last h =
      ap (λ l. part ∷ l) (split_last-snoc (follow ∷ rest) last h)

  -- The last step of a path whose other components are found.
  pub record Reached (path : Str) (inode : ℕ) (last : Str) : Type 0 where
    pub root : File
    pub parts : List Str
    pub parent : File
    pub at_root : Map.get fs.files root_inode ≡ some root
    pub whole : path_components (trim_start path) ≡ parts ++ (last ∷ [])
    pub found : walk fl fs uid gid parts (root_inode, root) ≡ ok (inode, parent)
    pub there : Map.get fs.files inode ≡ some parent

  pub resolve_except_last-Reached :
      (path : Str) (inode : ℕ) (last : Str)
      → resolve_except_last fl fs uid gid path ≡ ok (inode, some last)
      → Reached path inode last
  unfolding resolve_except_last resolve_generic
  resolve_except_last-Reached path inode last h =
      let parts = (split_last fl fs uid gid (path_components (trim_start path))).0 in
      let name = (split_last fl fs uid gid (path_components (trim_start path))).1 in
      let (i, walked, ends) =
        then_do-ok fl fs uid gid (resolve_generic fl fs uid gid parts) (λ i. ok (i, name))
          (inode, some last) h in
      elim (Option-cases (Map.get fs.files root_inode)) [
        | inl gone ↦ absurd (ground arith)
        | inr (root, at_root) ↦
            let (place, found, here) =
              then_do-ok fl fs uid gid (walk fl fs uid gid parts (root_inode, root)) (λ p. ok p.0) i
                (ground arith) in
            let e : place ≡ (inode, place.1) = ground arith in
            record {
              root = root;
              parts = parts;
              parent = place.1;
              at_root = at_root;
              whole = split_last-snoc (path_components (trim_start path)) last (ground arith);
              found = found ∙ ap (λ p. ok p) e;
              there =
                  let t = walk-IsThere fl fs uid gid parts (root_inode, root) place found at_root in
                  ground (arith, t, e);
            }
      ]

  pub resolve-Reached :
      (path : Str) (inode : ℕ) (last : Str) (q : Reached path inode last)
      → resolve fl fs uid gid path
        ≡ then_do fl fs uid gid (walk fl fs uid gid (last ∷ []) (inode, q.parent)) (λ p. ok p.0)
  unfolding resolve resolve_generic
  resolve-Reached path inode last q =
      rw (resolve, q.whole)
        (rw (resolve_generic, q.at_root)
          (rw (walk-snoc q.parts last (root_inode, q.root) (inode, q.parent) q.found) refl))
