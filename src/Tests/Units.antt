-- ===== src/Tests/Units.antt =====
-- Runs of the scheduler of init.
use mathlib.Core.Path.{subst}
use eos_base.Base.{
  Bool-cases, inl, inr, ◌<◌, ℕ, ◌≡◌, refl, true, none, some, List, [], ◌∷◌, arith, length,
}
use eos_base.Base.Text.{Str, bytes, str_eq, str_eq_iff}
use eos_base.Base.StrMap
use eos_base.Base.Result.{ok}
use eos_base.Init.Scheduler.{UnitInfo, UnitStore, is_pending, waits, step}
use eos_base.Init.Scheduler.Order.{IsOrdered, step-cycle}
use eos_base.Init.Scheduler.Ends.{IsRanked, step_lem}

-- The service "net" requires "ps"; "a" and "b" require each other.
abbrev units : UnitStore
units =
    (bytes "net", record { requires_weak = bytes "ps" ∷ [] })
    ∷ (bytes "ps", record { requires_weak = [] })
    ∷ (bytes "a", record { requires_weak = bytes "b" ∷ [] })
    ∷ (bytes "b", record { requires_weak = bytes "a" ∷ [] })
    ∷ []

abbrev rank : Str → ℕ
rank unit = length unit

abbrev pending : List Str
pending = bytes "net" ∷ bytes "ps" ∷ []

abbrev Placed : Str → Type 0
Placed job =
    (unit : UnitInfo) × (StrMap.get units job ≡ some unit)
    × ((d : Str)
        → is_pending unit.requires_weak d ≡ true
        → is_pending pending d ≡ true
        → rank d < rank job)

net-Placed : Placed (bytes "net")
unfolding StrMap.get is_pending str_eq
net-Placed = (
  record { requires_weak = bytes "ps" ∷ [] },
  refl,
  λ d required _.
      let e : bytes "ps" ≡ d = ground (arith, str_eq_iff (bytes "ps") d, required) in
      subst (λ x. rank x < 3) e (omega arith),
)

ps-Placed : Placed (bytes "ps")
unfolding StrMap.get is_pending str_eq
ps-Placed = (record { requires_weak = [] }, refl, λ d required _. absurd (cc (required)))

pending-IsRanked : IsRanked units rank pending
unfolding IsRanked is_pending
pending-IsRanked job h = elim (Bool-cases (str_eq (bytes "net") job)) [
  | inl net ↦
      let e : bytes "net" ≡ job = ground (arith, str_eq_iff (bytes "net") job, net) in
      subst Placed e net-Placed
  | inr other ↦
      let e : bytes "ps" ≡ job = ground (arith, str_eq_iff (bytes "ps") job, other, h) in
      subst Placed e ps-Placed
]

step_lem_example :
    (fuel : ℕ) × (jobs : List Str) × (step fuel units pending ≡ some (ok jobs))
    × IsOrdered units jobs
    × ((unit : Str) → is_pending jobs unit ≡ is_pending pending unit)
step_lem_example = step_lem units rank pending pending-IsRanked

a_there : StrMap.get units (bytes "a") ≡ some (record { requires_weak = bytes "b" ∷ [] })
unfolding StrMap.get str_eq
a_there = refl

b_there : StrMap.get units (bytes "b") ≡ some (record { requires_weak = bytes "a" ∷ [] })
unfolding StrMap.get str_eq
b_there = refl

a_waits : waits (bytes "b" ∷ []) (bytes "b" ∷ []) ≡ true
unfolding waits is_pending str_eq
a_waits = refl

b_waits : waits (bytes "a" ∷ []) (bytes "a" ∷ []) ≡ true
unfolding waits is_pending str_eq
b_waits = refl

step-cycle_example : step 9 units (bytes "a" ∷ bytes "b" ∷ []) ≡ none
step-cycle_example =
    step-cycle 9 units (bytes "a") (bytes "b") (record { requires_weak = bytes "b" ∷ [] })
      (record { requires_weak = bytes "a" ∷ [] }) a_there b_there a_waits b_waits
