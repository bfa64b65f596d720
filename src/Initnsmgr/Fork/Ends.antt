-- ===== src/Initnsmgr/Fork/Ends.antt =====
-- The loop of `fork` ends, and a fork has nothing that the namespace does not have.
use eos_base.Base.{
  none, Option-cases, ℕ, zero, suc, ◌≤◌, ◌≡◌, refl, Bool, not, some, [], ◌∷◌, arith, length, take,
  drop, length-drop, ltb, Bool-cases, inl, inr,
}
use eos_base.Base.Text.{Str, str_eq_iff}
use eos_base.Base.Result.{Result, ok, err, panic, einval, Result-cases}
use eos_base.Initnsmgr.{Namespace}
use eos_base.Base.StrMap
use eos_base.Base.StrMap.{StrMap, get-insert}
use eos_base.Initnsmgr.Fork.{
  fork, copy_prefixed, starred, starts_with, read_num, fork_loop, copy_name,
}

-- The names of a hash map are distinct.
unfoldable pub AreDistinct : Namespace → Type 0
AreDistinct [] = Unit
AreDistinct ((name, fd) ∷ m) = (StrMap.get m name ≡ none) × AreDistinct m

-- The entries of a list are those that a namespace has.
AreIn : Namespace → Namespace → Type 0
AreIn whole [] = Unit
AreIn whole ((name, fd) ∷ m) = (StrMap.get whole name ≡ some fd) × AreIn whole m

AreIn-cons :
    (name : Str) (fd : ℕ) (whole m : Namespace)
    → StrMap.get whole name ≡ none
    → AreIn whole m
    → AreIn ((name, fd) ∷ whole) m
unfolding AreIn StrMap.get
AreIn-cons name fd whole [] new a = tt
AreIn-cons name fd whole ((k, v) ∷ m) new a =
    (ground (arith, new, a.0, str_eq_iff name k), AreIn-cons name fd whole m new a.1)

distinct-AreIn : (m : Namespace) → AreDistinct m → AreIn m m
unfolding AreIn AreDistinct StrMap.get
distinct-AreIn [] d = tt
distinct-AreIn ((name, fd) ∷ m) d =
    (ground (arith, str_eq_iff name name), AreIn-cons name fd m m d.0 (distinct-AreIn m d.1))

-- Each entry of the first is one of the second.
abbrev pub Within : Namespace → Namespace → Type 0
Within ns whole =
    (name : Str) (fd : ℕ) → StrMap.get ns name ≡ some fd → StrMap.get whole name ≡ some fd

insert-Within :
    (ns whole : Namespace) (name : Str) (fd : ℕ)
    → StrMap.get whole name ≡ some fd
    → Within ns whole
    → Within (StrMap.insert ns name fd) whole
insert-Within ns whole name fd there w k v h =
    ground (arith, there, w k v, h, get-insert ns name fd k, str_eq_iff name k)

copy_prefixed-Within :
    (prefix : Str) (m ns whole : Namespace)
    → AreIn whole m
    → Within ns whole
    → Within (copy_prefixed prefix m ns) whole
unfolding copy_prefixed AreIn
copy_prefixed-Within prefix [] ns whole a w = w
copy_prefixed-Within prefix ((name, fd) ∷ m) ns whole a w =
    elim (Bool-cases (starts_with name prefix)) [
      | inl begins ↦
          rw (copy_prefixed, begins)
            (copy_prefixed-Within prefix m (StrMap.insert ns name fd) whole a.1
              (insert-Within ns whole name fd a.0 w))
      | inr other ↦ rw (copy_prefixed, other) (copy_prefixed-Within prefix m ns whole a.1 w)
    ]

copy_name-Within :
    (whole : Namespace) (name : Str) (ns : Namespace)
    → AreDistinct whole
    → Within ns whole
    → Within (copy_name whole name ns) whole
unfolding copy_name
copy_name-Within whole name ns d w = elim (Option-cases (starred name)) [
  | inr (prefix, star) ↦
      rw (copy_name, star) (copy_prefixed-Within prefix whole ns whole (distinct-AreIn whole d) w)
  | inl plain ↦ elim (Option-cases (StrMap.get whole name)) [
    | inl gone ↦ rw (copy_name, plain) (rw gone w)
    | inr (fd, there) ↦ rw (copy_name, plain) (rw there (insert-Within ns whole name fd there w))
  ]
]

module _ (utf8 : Str → Bool) (registered : Namespace) where
  fork_loop_total :
      (fuel : ℕ) (buf : Str) (schemes : Namespace)
      → length buf ≤ fuel
      → (r : Result Namespace) × (fork_loop utf8 registered fuel buf schemes ≡ some r)
  unfolding fork_loop
  fork_loop_total fuel [] schemes enough = (ok schemes, refl)
  fork_loop_total zero (b ∷ buf) schemes enough = absurd (ground (arith, enough))
  fork_loop_total (suc fuel) (b ∷ buf) schemes enough = elim (Result-cases (read_num (b ∷ buf))) [
    | inr (inl (e, short)) ↦ (err e, rw (fork_loop, short) refl)
    | inr (inr broken) ↦ (panic, rw (fork_loop, broken) refl)
    | inl (len, read) ↦
        let rest : Str = drop 8 (b ∷ buf) in
        elim (Bool-cases (ltb (length rest) len)) [
          | inl short ↦ (panic, rw (fork_loop, read) (rw short refl))
          | inr enough_left ↦ elim (Bool-cases (not (utf8 (take len rest)))) [
            | inl odd ↦ (err einval, rw (fork_loop, read) (rw (enough_left, odd) refl))
            | inr text ↦
                let (r, ends) =
                  fork_loop_total fuel (drop len rest)
                    (copy_name registered (take len rest) schemes)
                    (omega (arith, enough, length-drop len rest, length-drop 8 (b ∷ buf))) in
                (r, rw (fork_loop, read) (rw (enough_left, text) ends))
          ]
        ]
  ]

  fork_loop-Within :
      (fuel : ℕ) (buf : Str) (schemes ns : Namespace)
      → AreDistinct registered
      → Within schemes registered
      → fork_loop utf8 registered fuel buf schemes ≡ some (ok ns)
      → Within ns registered
  unfolding fork_loop
  fork_loop-Within fuel [] schemes ns d w h = let e : schemes ≡ ns = ground arith in rw (← e) w
  fork_loop-Within zero (b ∷ buf) schemes ns d w h = absurd (ground arith)
  fork_loop-Within (suc fuel) (b ∷ buf) schemes ns d w h =
      elim (Result-cases (read_num (b ∷ buf))) [
        | inr (inl (e, short)) ↦ absurd (ground arith)
        | inr (inr broken) ↦ absurd (ground arith)
        | inl (len, read) ↦
            let rest : Str = drop 8 (b ∷ buf) in
            elim (Bool-cases (ltb (length rest) len)) [
              | inl short ↦ absurd (ground arith)
              | inr enough_left ↦ elim (Bool-cases (not (utf8 (take len rest)))) [
                | inl odd ↦ absurd (ground arith)
                | inr text ↦
                    fork_loop-Within fuel (drop len rest)
                      (copy_name registered (take len rest) schemes) ns d
                      (copy_name-Within registered (take len rest) schemes d w) (ground arith)
              ]
            ]
      ]

  -- A fork always comes to an end; what it then has, the namespace that it is made of has under the
  -- same name, if the names there are distinct.
  pub fork_lem :
      (buf : Str)
      → AreDistinct registered
      → (r : Result Namespace) × (fork utf8 registered buf ≡ some r)
        × ((ns : Namespace) → r ≡ ok ns → Within ns registered)
  unfolding fork StrMap.get
  fork_lem buf d =
      let (r, ends) = fork_loop_total (length buf) buf [] (omega arith) in
      (
        r,
        ends,
        λ ns done.
            fork_loop-Within (length buf) buf [] ns d (λ name fd g. absurd (cc))
              (rw (ends, done) refl),
      )
