-- ===== src/Ramfs/Path/Dots.antt =====
-- `.` and `..` in the paths of ramfs/src/filesystem.rs.
use eos_base.Base.{
  ℕ, ◌≡◌, refl, ◌∙◌, sym, Option-cases, ap, true, false, List, [], ◌∷◌, ◌++◌, arith, inl, inr,
}
use eos_base.Base.Text.{Str}
use eos_base.Base.Map
use eos_base.Base.Result.{Result-cases}
use eos_base.Ramfs.{FsFlags, Filesystem, root_inode}
use eos_base.Ramfs.Path.{Place, permitted, enter, walk, is_dots, then_do, resolve_generic}

-- The components of a path, none of them of dots.
unfoldable pub ArePlain : List Str → Type 0
ArePlain [] = Unit
ArePlain (part ∷ parts) = (is_dots part ≡ false) × ArePlain parts

module _ (fl : FsFlags) (fs : Filesystem) (uid gid : ℕ) where
  walk-plain :
      (part follow : Str) (rest : List Str) (place : Place)
      → is_dots part ≡ false
      → walk fl fs uid gid (part ∷ follow ∷ rest) place
        ≡ then_do fl fs uid gid (permitted fl fs uid gid place.1) (λ d.
          then_do fl fs uid gid (enter fl fs uid gid d part) (walk fl fs uid gid (follow ∷ rest)))
  unfolding walk
  walk-plain part follow rest place plain = rw (walk, plain) refl

  walk-dots :
      (part follow : Str) (rest : List Str) (place : Place)
      → is_dots part ≡ true
      → is_dots follow ≡ false
      → walk fl fs uid gid (part ∷ follow ∷ rest) place ≡ walk fl fs uid gid (follow ∷ rest) place
  unfolding walk
  walk-dots part follow [] place dots plain =
      elim (Result-cases (permitted fl fs uid gid place.1)) [
        | inl (d, may) ↦ elim (Result-cases (enter fl fs uid gid d follow)) [
          | inl (p, e) ↦ ground (arith, dots, plain, may, e)
          | inr (inl (x, e)) ↦ ground (arith, dots, plain, may, e)
          | inr (inr e) ↦ ground (arith, dots, plain, may, e)
        ]
        | inr (inl (e, may)) ↦ ground (arith, dots, plain, may)
        | inr (inr may) ↦ ground (arith, dots, plain, may)
      ]
  walk-dots part follow (more ∷ rest) place dots plain = rw (walk, dots, plain) refl

  walk-prefix :
      (parts : List Str) (part follow : Str) (rest : List Str) (place : Place)
      → ArePlain parts
      → is_dots part ≡ true
      → is_dots follow ≡ false
      → walk fl fs uid gid (parts ++ (part ∷ follow ∷ rest)) place
        ≡ walk fl fs uid gid (parts ++ (follow ∷ rest)) place
  unfolding ArePlain
  walk-prefix [] part follow rest place are dots plain = walk-dots part follow rest place dots plain
  walk-prefix (p ∷ []) part follow rest place are dots plain =
      walk-plain p part (follow ∷ rest) place are.0
      ∙ ap
          (λ k.
            then_do fl fs uid gid (permitted fl fs uid gid place.1)
              (λ d. then_do fl fs uid gid (enter fl fs uid gid d p) k))
          (λ i q. walk-prefix [] part follow rest q are.1 dots plain i)
      ∙ sym (walk-plain p follow rest place are.0)
  walk-prefix (p ∷ q ∷ parts) part follow rest place are dots plain =
      walk-plain p q (parts ++ (part ∷ follow ∷ rest)) place are.0
      ∙ ap
          (λ k.
            then_do fl fs uid gid (permitted fl fs uid gid place.1)
              (λ d. then_do fl fs uid gid (enter fl fs uid gid d p) k))
          (λ i r. walk-prefix (q ∷ parts) part follow rest r are.1 dots plain i)
      ∙ sym (walk-plain p q (parts ++ (follow ∷ rest)) place are.0)

  -- In a path whose components before `.` or `..` are not of dots, and neither is the one that follows,
  -- `..` goes to no parent: like `.`, it is passed over, and the path names what it names without it.
  pub resolve_generic-dots :
      (parts : List Str) (part follow : Str) (rest : List Str)
      → ArePlain parts
      → is_dots part ≡ true
      → is_dots follow ≡ false
      → resolve_generic fl fs uid gid (parts ++ (part ∷ follow ∷ rest))
        ≡ resolve_generic fl fs uid gid (parts ++ (follow ∷ rest))
  unfolding resolve_generic
  resolve_generic-dots parts part follow rest are dots plain =
      elim (Option-cases (Map.get fs.files root_inode)) [
        | inl gone ↦ ground (arith, gone)
        | inr (f, there) ↦
            rw (resolve_generic, there)
              (rw (walk-prefix parts part follow rest (root_inode, f) are dots plain) refl)
      ]
