-- ===== src/Init/Scheduler/Order.antt =====
-- The order in which `step` of init/src/scheduler.rs runs units.
use eos_base.Base.{
  ℕ, zero, suc, ◌≡◌, refl, ◌∙◌, true, false, Option, none, some, List, [], ◌∷◌, ◌++◌, arith,
  Bool-cases, Option-cases, inl, inr,
}
use eos_base.Base.Text.{Str}
use eos_base.Base.StrMap
use eos_base.Base.Result.{Result, ok, err, panic}
use eos_base.Init.Scheduler.{UnitInfo, UnitStore, is_pending, waits, started, step}

requires : Option UnitInfo → List Str
requires none = []
requires (some unit) = unit.requires_weak

-- No unit requires one that comes after it.
unfoldable pub IsOrdered : UnitStore → List Str → Type 0
unfolding requires
IsOrdered store [] = Unit
IsOrdered store (job ∷ jobs) =
    (waits (requires (StrMap.get store job)) jobs ≡ false) × IsOrdered store jobs

is_pending-snoc :
    (pending : List Str) (job unit : Str)
    → is_pending (pending ++ (job ∷ [])) unit ≡ is_pending (job ∷ pending) unit
unfolding is_pending
is_pending-snoc [] job unit = refl
is_pending-snoc (p ∷ pending) job unit = ground (arith, is_pending-snoc pending job unit)

waits-same :
    (deps l m : List Str)
    → ((unit : Str) → is_pending l unit ≡ is_pending m unit)
    → waits deps l ≡ waits deps m
unfolding waits
waits-same [] l m same = refl
waits-same (dep ∷ deps) l m same = ground (arith, same dep, waits-same deps l m same)

started-ok :
    (job : Str) (o : Option (Result (List Str))) (jobs : List Str)
    → started job o ≡ some (ok jobs)
    → (rest : List Str) × (o ≡ some (ok rest)) × (job ∷ rest ≡ jobs)
started-ok job none jobs h = absurd (cc)
started-ok job (some (ok rest)) jobs h = (rest, refl, ground (arith, h))
started-ok job (some (err e)) jobs h = absurd (cc)
started-ok job (some panic) jobs h = absurd (cc)

-- When `step` comes to its end, it has run the units that were pending and no others, and none of them
-- before one that it requires and that was pending too.
pub step-IsOrdered :
    (fuel : ℕ) (store : UnitStore) (pending jobs : List Str)
    → step fuel store pending ≡ some (ok jobs)
    → IsOrdered store jobs × ((unit : Str) → is_pending jobs unit ≡ is_pending pending unit)
unfolding step IsOrdered is_pending requires
step-IsOrdered fuel store [] jobs h =
    let e : [] ≡ jobs = ground (arith, h) in rw (← e) (tt, λ unit. refl)
step-IsOrdered zero store (job ∷ pending) jobs h = absurd (ground (arith, h))
step-IsOrdered (suc fuel) store (job ∷ pending) jobs h =
    elim (Option-cases (StrMap.get store job)) [
      | inl gone ↦ absurd (ground (arith, gone, h))
      | inr (unit, there) ↦ elim (Bool-cases (waits unit.requires_weak pending)) [
        | inl blocked ↦
            let (ordered, same) =
              step-IsOrdered fuel store (pending ++ (job ∷ [])) jobs
                (ground (arith, there, blocked, h)) in
            (ordered, λ u. same u ∙ is_pending-snoc pending job u)
        | inr free ↦
            let (rest, ran, e) =
              started-ok job (step fuel store pending) jobs (ground (arith, there, free, h)) in
            let (ordered, same) = step-IsOrdered fuel store pending rest ran in
            let first : waits (requires (StrMap.get store job)) rest ≡ false =
              rw there (waits-same unit.requires_weak rest pending same ∙ free) in
            rw (← e) ((first, ordered), λ u. ground (arith, same u))
      ]
    ]

-- Two units that require each other are never run: the loop does not end.
pub step-cycle :
    (fuel : ℕ) (store : UnitStore) (a b : Str) (unit_a unit_b : UnitInfo)
    → StrMap.get store a ≡ some unit_a
    → StrMap.get store b ≡ some unit_b
    → waits unit_a.requires_weak (b ∷ []) ≡ true
    → waits unit_b.requires_weak (a ∷ []) ≡ true
    → step fuel store (a ∷ b ∷ []) ≡ none
unfolding step
step-cycle zero store a b unit_a unit_b has_a has_b a_waits b_waits = refl
step-cycle (suc fuel) store a b unit_a unit_b has_a has_b a_waits b_waits =
    rw (step, has_a)
      (rw a_waits (step-cycle fuel store b a unit_b unit_a has_b has_a b_waits a_waits))
