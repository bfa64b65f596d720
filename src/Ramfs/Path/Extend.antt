-- ===== src/Ramfs/Path/Extend.antt =====
-- A path of ramfs/src/filesystem.rs names the same file when directories gain entries.
use eos_base.Base.{
  ℕ, ◌≡◌, ◌∙◌, refl, some, List, [], ◌∷◌, arith, Option-cases, Bool-cases, inl, inr,
}
use eos_base.Base.Text.{Str}
use eos_base.Base.Map
use eos_base.Base.StrMap
use eos_base.Base.Result.{ok}
use eos_base.Ramfs.{FsFlags, File, FileData-cases, Filesystem, directory}
use eos_base.Ramfs.Permission.{current_perm}
use eos_base.Ramfs.Path.{permitted, enter, walk, is_dots}
use eos_base.Ramfs.Path.Walk.{then_do-ok, enter-IsThere, walk-last, walk-take, walk-skip}

-- The second file system has the files of the first, and each entry of a directory of the first that
-- names a file.
pub record Extends (fs fs' : Filesystem) : Type 0 where
  pub kept :
      (i : ℕ) (f : File)
      → Map.get fs.files i ≡ some f
      → (f' : File) × (Map.get fs'.files i ≡ some f')
  pub entries :
      (i : ℕ) (f f' : File) (d : StrMap.StrMap ℕ)
      → Map.get fs.files i ≡ some f
      → Map.get fs'.files i ≡ some f'
      → f.contents ≡ directory d
      → (d' : StrMap.StrMap ℕ) × (f'.contents ≡ directory d')
        × ((name : Str) (j : ℕ) (g : File)
            → StrMap.get d name ≡ some j
            → Map.get fs.files j ≡ some g
            → StrMap.get d' name ≡ some j)

module _ (fl : FsFlags) where
  permitted-directory :
      (fs : Filesystem) (uid gid : ℕ) (f : File) (d : StrMap.StrMap ℕ)
      → permitted fl fs uid gid f ≡ ok d
      → f.contents ≡ directory d
  unfolding permitted
  permitted-directory fs uid gid f d h = elim (FileData-cases f.contents) [
    | inl (bytes, plain) ↦ absurd (ground arith)
    | inr (entries, dir) ↦ ground arith
  ]

  -- The super-user may search each directory.
  pub permitted-superuser :
      (fs : Filesystem) (f : File) (d : StrMap.StrMap ℕ)
      → f.contents ≡ directory d
      → permitted fl fs 0 0 f ≡ ok d
  unfolding permitted current_perm
  permitted-superuser fs f d h = rw h refl

  module _ (fs fs' : Filesystem) (ext : Extends fs fs') (uid gid : ℕ) where
    enter-Extends :
        (i : ℕ) (f f' : File) (d : StrMap.StrMap ℕ) (part : Str) (j : ℕ) (g : File)
        → Map.get fs.files i ≡ some f
        → Map.get fs'.files i ≡ some f'
        → permitted fl fs uid gid f ≡ ok d
        → enter fl fs uid gid d part ≡ ok (j, g)
        → (d' : StrMap.StrMap ℕ) × (permitted fl fs' 0 0 f' ≡ ok d')
          × (g' : File) × (enter fl fs' 0 0 d' part ≡ ok (j, g'))
          × (Map.get fs'.files j ≡ some g')
    unfolding enter
    enter-Extends i f f' d part j g there there' may entered =
        let (d', dir', more) =
          ext.entries i f f' d there there' (permitted-directory fs uid gid f d may) in
        let found = enter-IsThere fl fs uid gid d part (j, g) entered in
        let (g', found') = ext.kept j g found in
        elim (Option-cases (StrMap.get d part)) [
          | inl gone ↦ absurd (ground arith)
          | inr (k, held) ↦
              let e : k ≡ j = elim (Option-cases (Map.get fs.files k)) [
                | inl gone ↦ absurd (ground arith)
                | inr (h, here) ↦ ground arith
              ] in
              (
                d',
                permitted-superuser fs' f' d' dir',
                g',
                rw (enter, more part j g (ground (arith, e, held)) found) (rw found' refl),
                found',
              )
        ]

    pub walk-Extends :
        (parts : List Str) (i : ℕ) (f f' : File) (j : ℕ) (g : File)
        → Map.get fs.files i ≡ some f
        → Map.get fs'.files i ≡ some f'
        → walk fl fs uid gid parts (i, f) ≡ ok (j, g)
        → (g' : File) × (walk fl fs' 0 0 parts (i, f') ≡ ok (j, g'))
          × (Map.get fs'.files j ≡ some g')
    unfolding walk
    walk-Extends [] i f f' j g there there' h =
        let e : i ≡ j = ground arith in (f', rw e refl, rw (← e) there')
    walk-Extends (part ∷ []) i f f' j g there there' h =
        let (d, may, entered) = then_do-ok fl fs uid gid (permitted fl fs uid gid f) _ (j, g) h in
        elim (Bool-cases (is_dots part)) [
          | inl dots ↦ absurd (ground arith)
          | inr plain ↦
              let (d', may', g', entered', found) =
                enter-Extends i f f' d part j g there there' may (ground arith) in
              (g', walk-last fl fs' 0 0 f' i d' part (ok (j, g')) may' plain entered', found)
        ]
    walk-Extends (part ∷ follow ∷ rest) i f f' j g there there' h =
        let (d, may, entered) = then_do-ok fl fs uid gid (permitted fl fs uid gid f) _ (j, g) h in
        elim (Bool-cases (is_dots part)) [
          | inl dots ↦
              let (mid, e, onwards) =
                then_do-ok fl fs uid gid (enter fl fs uid gid d follow) (walk fl fs uid gid rest)
                  (j, g) (ground arith) in
              let (d', may', m', entered', found) =
                enter-Extends i f f' d follow mid.0 mid.1 there there' may e in
              let (g', walked, there'') =
                walk-Extends rest mid.0 mid.1 m' j g (enter-IsThere fl fs uid gid d follow mid e)
                  found onwards in
              (
                g',
                walk-skip fl fs' 0 0 f' i d' part follow rest (mid.0, m') may' dots entered'
                    ∙ walked,
                there'',
              )
          | inr plain ↦
              let (mid, e, onwards) =
                then_do-ok fl fs uid gid (enter fl fs uid gid d part)
                  (walk fl fs uid gid (follow ∷ rest)) (j, g) (ground arith) in
              let (d', may', m', entered', found) =
                enter-Extends i f f' d part mid.0 mid.1 there there' may e in
              let (g', walked, there'') =
                walk-Extends (follow ∷ rest) mid.0 mid.1 m' j g
                  (enter-IsThere fl fs uid gid d part mid e) found onwards in
              (
                g',
                walk-take fl fs' 0 0 f' i d' part follow rest (mid.0, m') may' plain entered'
                    ∙ walked,
                there'',
              )
        ]
