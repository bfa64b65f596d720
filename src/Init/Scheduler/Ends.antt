-- ===== src/Init/Scheduler/Ends.antt =====
-- `step` of init/src/scheduler.rs comes to its end if no units require each other in a circle.
use eos_base.Base.{
  sym, zero, suc, ℕ, ◌+◌, ◌<◌, ◌≤◌, ◌≡◌, refl, true, false, ◌||◌, some, List, [], ◌∷◌, ◌++◌, arith,
  length, leb, Bool-cases, inl, inr,
}
use mathlib.Core.Path.{subst}
use eos_base.Base.Text.{Str, str_eq_iff}
use eos_base.Base.StrMap
use eos_base.Base.Result.{ok}
use eos_base.Init.Scheduler.Order.{IsOrdered, step-IsOrdered}
use eos_base.Init.Scheduler.{UnitInfo, UnitStore, is_pending, waits, step}

is_pending-append :
    (l m : List Str) (unit : Str)
    → is_pending (l ++ m) unit ≡ is_pending l unit || is_pending m unit
unfolding is_pending
is_pending-append [] m unit = refl
is_pending-append (p ∷ l) m unit = ground (arith, is_pending-append l m unit)

free-waits :
    (deps others : List Str)
    → ((d : Str) → is_pending deps d ≡ true → is_pending others d ≡ false)
    → waits deps others ≡ false
unfolding waits is_pending
free-waits [] others free = refl
free-waits (dep ∷ deps) others free = ground (
  arith,
  free dep,
  str_eq_iff dep dep,
  free-waits deps others (λ d h. free d (ground (arith, h))),
)

length-snoc : (l : List Str) (a : Str) → length (l ++ (a ∷ [])) ≡ length l + 1
length-snoc [] a = refl
length-snoc (x ∷ l) a = ground (arith, length-snoc l a)

length-middle :
    (l : List Str) (a : Str) (m : List Str) → length (l ++ (a ∷ m)) ≡ length l + length m + 1
length-middle [] a m = ground arith
length-middle (x ∷ l) a m = ground (arith, length-middle l a m)

append-snoc : (l m : List Str) (a : Str) → (l ++ m) ++ (a ∷ []) ≡ l ++ (m ++ (a ∷ []))
append-snoc [] m a = refl
append-snoc (x ∷ l) m a = ground (arith, append-snoc l m a)

module _ (store : UnitStore) (rank : Str → ℕ) where
  -- Each pending unit is in the store, and has a higher rank than the pending units that it requires.
  unfoldable pub IsRanked : List Str → Type 0
  IsRanked pending =
      (job : Str)
      → is_pending pending job ≡ true
      → (unit : UnitInfo) × (StrMap.get store job ≡ some unit)
        × ((d : Str)
            → is_pending unit.requires_weak d ≡ true
            → is_pending pending d ≡ true
            → rank d < rank job)

  shrink-IsRanked :
      (pending fewer : List Str)
      → ((u : Str) → is_pending fewer u ≡ true → is_pending pending u ≡ true)
      → IsRanked pending
      → IsRanked fewer
  unfolding IsRanked
  shrink-IsRanked pending fewer sub ranked job h =
      let (unit, there, above) = ranked job (sub job h) in
      (unit, there, λ d required kept. above d required (sub d kept))

  -- A pending unit of the lowest rank, with what is in front of it and behind it.
  record Lowest (pending : List Str) : Type 0 where
    front : List Str
    job : Str
    back : List Str
    whole : pending ≡ front ++ (job ∷ back)
    low : (u : Str) → is_pending pending u ≡ true → rank job ≤ rank u

  lowest : (job : Str) (pending : List Str) → Lowest (job ∷ pending)
  unfolding is_pending
  lowest job [] = record {
    front = [];
    job = job;
    back = [];
    whole = refl;
    low = λ u h. ground (arith, h, str_eq_iff job u);
  }
  lowest job (next ∷ pending) =
      let rest = lowest next pending in
      elim (Bool-cases (leb (rank job) (rank rest.job))) [
        | inl low ↦ record {
          front = [];
          job = job;
          back = next ∷ pending;
          whole = refl;
          low = λ u h. ground (arith, h, low, str_eq_iff job u, rest.low u);
        }
        | inr high ↦ record {
          front = job ∷ rest.front;
          job = rest.job;
          back = rest.back;
          whole = ground (arith, rest.whole);
          low = λ u h. ground (arith, h, high, str_eq_iff job u, rest.low u);
        }
      ]

  abbrev Ends : List Str → Type 0
  Ends pending = (fuel : ℕ) × (jobs : List Str) × (step fuel store pending ≡ some (ok jobs))

  run-first :
      (job : Str) (pending : List Str) (unit : UnitInfo)
      → StrMap.get store job ≡ some unit
      → waits unit.requires_weak pending ≡ false
      → Ends pending
      → Ends (job ∷ pending)
  unfolding step
  run-first job pending unit there free (fuel, jobs, ends) =
      (suc fuel, job ∷ jobs, rw (step, there) (rw free (rw ends refl)))

  wait-first :
      (job : Str) (pending : List Str) (unit : UnitInfo)
      → StrMap.get store job ≡ some unit
      → waits unit.requires_weak pending ≡ true
      → Ends (pending ++ (job ∷ []))
      → Ends (job ∷ pending)
  unfolding step
  wait-first job pending unit there blocked (fuel, jobs, ends) =
      (suc fuel, jobs, rw (step, there) (rw blocked ends))

  -- The units in front of one of the lowest rank run or go behind it, until it is the first.
  reach_lowest :
      (n : ℕ) (front : List Str) (job : Str) (back : List Str)
      → ((pending : List Str) → length pending ≤ n → IsRanked pending → Ends pending)
      → length (front ++ (job ∷ back)) ≤ n + 1
      → IsRanked (front ++ (job ∷ back))
      → ((u : Str) → is_pending (front ++ (job ∷ back)) u ≡ true → rank job ≤ rank u)
      → Ends (front ++ (job ∷ back))
  unfolding is_pending IsRanked
  reach_lowest n [] job back shorter long ranked low =
      let (unit, there, above) = ranked job (ground (arith, str_eq_iff job job)) in
      run-first job back unit there
        (free-waits unit.requires_weak back λ d required. elim (Bool-cases (is_pending back d)) [
          | inr free ↦ free
          | inl kept ↦ absurd (
              ground (arith, above d required (ground (arith, kept)), low d (ground (arith, kept))))
        ])
        (shorter back (ground (arith, long))
          (shrink-IsRanked (job ∷ back) back (λ u h. ground (arith, h)) ranked))
  reach_lowest n (f ∷ front) job back shorter long ranked low =
      let pending = front ++ (job ∷ back) in
      let (unit, there, above) = ranked f (ground (arith, str_eq_iff f f)) in
      elim (Bool-cases (waits unit.requires_weak pending)) [
        | inr free ↦ run-first f pending unit there free (
            shorter pending (ground (arith, long))
              (shrink-IsRanked (f ∷ pending) pending (λ u h. ground (arith, h)) ranked))
        | inl blocked ↦
            let behind = front ++ (job ∷ (back ++ (f ∷ []))) in
            let e : pending ++ (f ∷ []) ≡ behind = append-snoc front (job ∷ back) f in
            let sub : (u : Str) → is_pending behind u ≡ true → is_pending (f ∷ pending) u ≡ true =
              λ u h. ground (
                arith,
                h,
                is_pending-append front (job ∷ (back ++ (f ∷ []))) u,
                is_pending-append back (f ∷ []) u,
                is_pending-append front (job ∷ back) u,
              ) in
            wait-first f pending unit there blocked (
              subst Ends (sym e) (
                reach_lowest n front job (back ++ (f ∷ [])) shorter
                  (ground (
                    arith,
                    long,
                    length-middle front job (back ++ (f ∷ [])),
                    length-middle front job back,
                    length-snoc back f,
                  ))
                  (shrink-IsRanked (f ∷ pending) behind sub ranked) (λ u h. low u (sub u h))))
      ]

  step_below : (n : ℕ) (pending : List Str) → length pending ≤ n → IsRanked pending → Ends pending
  unfolding step
  step_below n [] short ranked = (0, [], refl)
  step_below zero (job ∷ pending) short ranked = absurd (ground (arith, short))
  step_below (suc n) (job ∷ pending) short ranked =
      let l = lowest job pending in
      subst Ends (sym l.whole) (
        reach_lowest n l.front l.job l.back (step_below n) (rw (← l.whole) (ground (arith, short)))
          (subst IsRanked l.whole ranked)
          (λ u h. l.low u (subst (λ p. is_pending p u ≡ true) (sym l.whole) h)))

  -- If each pending unit is in the store and no units require each other in a circle, so that ranks can
  -- be given under which each has a higher one than those that it requires, `step` comes to its end
  -- without a panic: it has run the units that were pending and no others, and none of them before one
  -- that it requires and that was pending too.
  pub step_lem :
      (pending : List Str)
      → IsRanked pending
      → (fuel : ℕ) × (jobs : List Str) × (step fuel store pending ≡ some (ok jobs))
        × IsOrdered store jobs
        × ((unit : Str) → is_pending jobs unit ≡ is_pending pending unit)
  step_lem pending ranked =
      let (fuel, jobs, ends) = step_below (length pending) pending (omega arith) ranked in
      let (ordered, same) = step-IsOrdered fuel store pending jobs ends in
      (fuel, jobs, ends, ordered, same)
