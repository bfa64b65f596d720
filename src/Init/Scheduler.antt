-- ===== src/Init/Scheduler.antt =====
-- `Scheduler` of init/src/scheduler.rs: the units that are to be started, each after those that it
-- requires and that are to be started too.
pub mod Order
pub mod Ends
use eos_base.Base.{
  zero, suc, ℕ, Bool, true, false, ◌||◌, Option, none, some, List, [], ◌∷◌, ◌++◌, if◌then◌else◌,
}
use eos_base.Base.Text.{Str, str_eq}
use eos_base.Base.StrMap
use eos_base.Base.StrMap.{StrMap}
use eos_base.Base.Result.{Result, ok, err, panic}

-- What `step` reads of a unit. The only kind of a job is a start.
pub record UnitInfo : Type 0 where
  pub requires_weak : List Str

abbrev pub UnitStore : Type 0
UnitStore = StrMap UnitInfo

unfoldable pub is_pending : List Str → Str → Bool
is_pending [] unit = false
is_pending (job ∷ pending) unit = str_eq job unit || is_pending pending unit

-- The two loops over what a unit requires and what is pending.
unfoldable pub waits : List Str → List Str → Bool
unfolding is_pending
waits [] pending = false
waits (dep ∷ deps) pending = is_pending pending dep || waits deps pending

abbrev pub started : Str → Option (Result (List Str)) → Option (Result (List Str))
started job none = none
started job (some (ok jobs)) = some (ok (job ∷ jobs))
started job (some (err e)) = some (err e)
started job (some panic) = some panic

-- The loop of `step`, on fuel: the units in the order in which they are run. `none` is a loop that does
-- not end, and a unit that is not in the store is a panic.
unfoldable pub step : ℕ → UnitStore → List Str → Option (Result (List Str))
unfolding waits
step fuel store [] = some (ok [])
step zero store (job ∷ pending) = none
step (suc fuel) store (job ∷ pending) =
    let later = step fuel store (pending ++ (job ∷ [])) in
    let rest = step fuel store pending in
    elim (StrMap.get store job) [
      | none ↦ some panic
      | some unit ↦ if waits unit.requires_weak pending then later else started job rest
    ]
