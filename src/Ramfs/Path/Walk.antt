-- ===== src/Ramfs/Path/Walk.antt =====
-- What `resolve_generic` of ramfs/src/filesystem.rs finds, one component after another.
use eos_base.Base.{
  true, false, ℕ, ◌≡◌, refl, Option, some, List, [], ◌∷◌, arith, Option-cases, Bool-cases, inl, inr,
}
use eos_base.Base.Text.{Str}
use eos_base.Base.Map
use eos_base.Base.StrMap
use eos_base.Base.Result.{Result, ok, err, panic}
use eos_base.Ramfs.{FsFlags, File, Filesystem, root_inode}
use eos_base.Ramfs.Path.{
  Place, permitted, enter, walk, is_dots, resolve_generic, then_do, split_last, resolve_except_last,
  path_components, trim_start,
}

module _ (fl : FsFlags) (fs : Filesystem) (uid gid : ℕ) where
  -- A result that comes about by `?` comes from both of its parts.
  pub then_do-ok :
      {A B : Type 0} (r : Result A) (k : A → Result B) (b : B)
      → then_do fl fs uid gid r k ≡ ok b
      → (a : A) × (r ≡ ok a) × (k a ≡ ok b)
  then_do-ok (ok a) k b h = (a, refl, h)
  then_do-ok (err e) k b h = absurd (cc)
  then_do-ok panic k b h = absurd (cc)

  -- The inode that a place has is that of its file.
  abbrev pub IsThere : Place → Type 0
  IsThere place = Map.get fs.files place.0 ≡ some place.1

  pub enter-IsThere :
      (dentries : StrMap.StrMap ℕ) (part : Str) (place : Place)
      → enter fl fs uid gid dentries part ≡ ok place
      → IsThere place
  unfolding enter
  enter-IsThere dentries part place h = elim (Option-cases (StrMap.get dentries part)) [
    | inl gone ↦ absurd (ground arith)
    | inr (inode, held) ↦ elim (Option-cases (Map.get fs.files inode)) [
      | inl gone ↦ absurd (ground arith)
      | inr (f, there) ↦ ground arith
    ]
  ]

  -- A round of the loop: the last component, one that is looked up, and one of dots.
  pub walk-last :
      (f : File) (i : ℕ) (d : StrMap.StrMap ℕ) (part : Str) (r : Result Place)
      → permitted fl fs uid gid f ≡ ok d
      → is_dots part ≡ false
      → enter fl fs uid gid d part ≡ r
      → walk fl fs uid gid (part ∷ []) (i, f) ≡ r
  unfolding walk
  walk-last f i d part r may plain e = rw (walk, may, plain) e

  pub walk-take :
      (f : File) (i : ℕ) (d : StrMap.StrMap ℕ) (part follow : Str) (rest : List Str) (mid : Place)
      → permitted fl fs uid gid f ≡ ok d
      → is_dots part ≡ false
      → enter fl fs uid gid d part ≡ ok mid
      → walk fl fs uid gid (part ∷ follow ∷ rest) (i, f) ≡ walk fl fs uid gid (follow ∷ rest) mid
  unfolding walk
  walk-take f i d part follow rest mid may plain e = ground arith

  pub walk-skip :
      (f : File) (i : ℕ) (d : StrMap.StrMap ℕ) (part follow : Str) (rest : List Str) (mid : Place)
      → permitted fl fs uid gid f ≡ ok d
      → is_dots part ≡ true
      → enter fl fs uid gid d follow ≡ ok mid
      → walk fl fs uid gid (part ∷ follow ∷ rest) (i, f) ≡ walk fl fs uid gid rest mid
  unfolding walk
  walk-skip f i d part follow rest mid may dots e = ground arith

  pub walk-IsThere :
      (parts : List Str) (place place' : Place)
      → walk fl fs uid gid parts place ≡ ok place'
      → IsThere place
      → IsThere place'
  unfolding walk
  walk-IsThere [] place place' h there = let e : place ≡ place' = cc in rw (← e) there
  walk-IsThere (part ∷ []) place place' h there =
      let (dentries, _, entered) = then_do-ok (permitted fl fs uid gid place.1) _ place' h in
      elim (Bool-cases (is_dots part)) [
        | inl dots ↦ absurd (ground arith)
        | inr plain ↦ enter-IsThere dentries part place' (ground arith)
      ]
  walk-IsThere (part ∷ follow ∷ rest) place place' h there =
      let (dentries, _, entered) = then_do-ok (permitted fl fs uid gid place.1) _ place' h in
      elim (Bool-cases (is_dots part)) [
        | inl dots ↦
            let (mid, e, onwards) =
              then_do-ok (enter fl fs uid gid dentries follow) (walk fl fs uid gid rest) place'
                (ground arith) in
            walk-IsThere rest mid place' onwards (enter-IsThere dentries follow mid e)
        | inr plain ↦
            let (mid, e, onwards) =
              then_do-ok (enter fl fs uid gid dentries part) (walk fl fs uid gid (follow ∷ rest))
                place' (ground arith) in
            walk-IsThere (follow ∷ rest) mid place' onwards (enter-IsThere dentries part mid e)
      ]

  pub resolve_generic-found :
      (parts : List Str) (inode : ℕ)
      → resolve_generic fl fs uid gid parts ≡ ok inode
      → (f : File) × (Map.get fs.files inode ≡ some f)
  unfolding resolve_generic
  resolve_generic-found parts inode h = elim (Option-cases (Map.get fs.files root_inode)) [
    | inl gone ↦ absurd (ground arith)
    | inr (f, there) ↦
        let (place, found, here) =
          then_do-ok (walk fl fs uid gid parts (root_inode, f)) (λ place. ok place.0) inode
            (ground arith) in
        let e : place.0 ≡ inode = cc in
        (place.1, rw (← e) (walk-IsThere parts (root_inode, f) place found there))
  ]

  pub resolve_except_last-found :
      (path : Str) (place : ℕ × Option Str)
      → resolve_except_last fl fs uid gid path ≡ ok place
      → (f : File) × (Map.get fs.files place.0 ≡ some f)
  unfolding resolve_except_last
  resolve_except_last-found path place h =
      let (parts, last) = split_last fl fs uid gid (path_components (trim_start path)) in
      let (inode, found, here) =
        then_do-ok (resolve_generic fl fs uid gid parts) (λ i. ok (i, last)) place h in
      let e : inode ≡ place.0 = cc in rw (← e) (resolve_generic-found parts inode found)
