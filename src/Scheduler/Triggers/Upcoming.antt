-- ===== src/Scheduler/Triggers/Upcoming.antt =====
-- The loop of `_iter_upcoming_run_times` under `islice`, against the list of all fire times.
use mathlib.Core.Option
use schedualerl_lm.Base.{
  ℕ, zero, suc, ◌≤◌, ◌≡◌, refl, ◌⊎◌, inl, inr, Bool, true, false, Option, none, some, List, [], ◌∷◌,
  arith, length, take, filter, All, if◌then◌else◌, Option-cases, Bool-cases,
}
use schedualerl_lm.Python.Datetime.{Datetime, later_or_same}
use schedualerl_lm.Python.Platform.{Platform}
use schedualerl_lm.Scheduler.Triggers.{Triggers, FiresOnce, as_utc, iter_upcoming_run_times}

module _ (p : Platform) (api : Triggers) where
  -- The fire times of the first calls of `next()`, in UTC, up to the first `None`.
  unfoldable pub fires : ℕ → api.Trigger → List Datetime
  fires zero trigger = []
  fires (suc n) trigger =
      let rest = fires n (api.next trigger).1 in
      elim (api.next trigger).0 [ none ↦ [] | some d ↦ as_utc p api d ∷ rest ]

  -- One of the first calls returned `None`.
  unfoldable pub ended : ℕ → api.Trigger → Bool
  ended zero trigger = false
  ended (suc n) trigger =
      let rest = ended n (api.next trigger).1 in
      elim (api.next trigger).0 [ none ↦ true | some d ↦ rest ]

  -- The times at or after `now`.
  abbrev pub due : Datetime → List Datetime → List Datetime
  due now = filter (λ d. later_or_same p.zones d now)

  -- For a recurring trigger that, within the fuel, ends or has enough fire times at or after
  -- `now`, the loop terminates and gives the first `count` of the trigger's fire times that are at
  -- or after `now`.
  pub iter_upcoming_run_times_lem :
      (fuel : ℕ) (now : Datetime) (count : ℕ) (trigger : api.Trigger)
      → (ended fuel trigger ≡ true) ⊎ (count ≤ length (due now (fires fuel trigger)))
      → iter_upcoming_run_times p api fuel now false count trigger
        ≡ some (take count (due now (fires fuel trigger)))
  unfolding iter_upcoming_run_times fires ended
  iter_upcoming_run_times_lem zero now zero trigger h = refl
  iter_upcoming_run_times_lem (suc fuel) now zero trigger h = refl
  iter_upcoming_run_times_lem zero now (suc count) trigger h = ground arith
  iter_upcoming_run_times_lem (suc fuel) now (suc count) trigger h = ground (
    arith,
    iter_upcoming_run_times_lem fuel now count (api.next trigger).1,
    iter_upcoming_run_times_lem fuel now (suc count) (api.next trigger).1,
  )

  -- What comes out, if the fuel sufficed, is due, and no longer than asked for.
  abbrev pub IsDueUpTo : Datetime → ℕ → Option (List Datetime) → Type 0
  IsDueUpTo now count none = Unit
  IsDueUpTo now count (some times) =
      All (λ d. later_or_same p.zones d now ≡ true) times × (length times ≤ count)

  IsDueUpTo-cons :
      (now d : Datetime) (count : ℕ) (rest : Option (List Datetime))
      → later_or_same p.zones d now ≡ true
      → IsDueUpTo now count rest
      → IsDueUpTo now (suc count) (Option.map (λ times. d ∷ times) rest)
  IsDueUpTo-cons now d count none due h = tt
  IsDueUpTo-cons now d count (some times) due h = ((due, h.0), omega arith)

  -- Whatever the trigger and its kind, if the fuel suffices, the loop gives at most `count` times,
  -- all of them at or after `now`.
  pub iter_upcoming_run_times_bounds :
      (fuel : ℕ) (now : Datetime) (is_once : Bool) (count : ℕ) (trigger : api.Trigger)
      → IsDueUpTo now count (iter_upcoming_run_times p api fuel now is_once count trigger)
  unfolding iter_upcoming_run_times
  iter_upcoming_run_times_bounds zero now is_once zero trigger = (tt, omega arith)
  iter_upcoming_run_times_bounds (suc fuel) now is_once zero trigger = (tt, omega arith)
  iter_upcoming_run_times_bounds zero now is_once (suc count) trigger = tt
  iter_upcoming_run_times_bounds (suc fuel) now is_once (suc count) trigger =
      elim (Option-cases (api.next trigger).0) [
        | inl over ↦ rw (over, iter_upcoming_run_times) (tt, omega arith)
        | inr (d, fired) ↦ elim (Bool-cases (later_or_same p.zones (as_utc p api d) now)) [
          | inl due ↦
              rw (fired, iter_upcoming_run_times, due)
                (IsDueUpTo-cons now (as_utc p api d) count _ due
                  (iter_upcoming_run_times_bounds fuel now is_once count (api.next trigger).1))
          | inr past ↦
              rw (fired, iter_upcoming_run_times, past)
                (elim is_once
                  as (λ b. IsDueUpTo now (suc count) (
                    if b
                    then some []
                    else iter_upcoming_run_times p api fuel now b (suc count)
                        (api.next trigger).1)) [
                          | true ↦ (tt, omega arith)
                          | false ↦
                              iter_upcoming_run_times_bounds fuel now false (suc count)
                                (api.next trigger).1
                        ])
        ]
      ]

  -- With fuel for two calls and a count of at least one, a once trigger that fires once gives its
  -- time if that is at or after `now`, and no time if it has passed.
  pub iter_upcoming_run_times_once :
      FiresOnce api
      → (fuel count : ℕ) (now run_at : Datetime)
      → iter_upcoming_run_times p api
          (suc (suc fuel))
          now
          true
          (suc count)
          (api.date_trigger run_at)
        ≡ some (due now (as_utc p api run_at ∷ []))
  unfolding iter_upcoming_run_times
  iter_upcoming_run_times_once F fuel zero now run_at = ground (arith, F.first_fire run_at)
  iter_upcoming_run_times_once F fuel (suc count) now run_at =
      ground (arith, F.first_fire run_at, F.no_second run_at)
