-- ===== src/Scheduler/Triggers/Ending.antt =====
-- The loop over fire times ends, for a trigger whose fire times advance.
use mathlib.Core.Option
use schedualerl_lm.Base.{
  ℕ, zero, suc, ◌≤◌, ◌<◌, ◌+◌, ◌-◌, ◌≡◌, refl, Bool, true, false, Bool-cases, List, [], ◌∷◌, arith,
  Option, some, Option-cases, inl, inr,
}
use schedualerl_lm.Db.Models.{ScheduledTask}
use schedualerl_lm.Enums.{once, trigger_member}
use schedualerl_lm.Python.Datetime.{Datetime, instant, later_or_same}
use schedualerl_lm.Python.Platform.{Platform}
use schedualerl_lm.Python.Result.{ok}
use schedualerl_lm.Scheduler.Triggers.{
  Triggers, as_utc, iter_upcoming_run_times, build_trigger_from_task, compute_upcoming_run_times,
}

module _ (p : Platform) (api : Triggers) where
  -- A trigger after so many calls of `next()`.
  abbrev pub after : ℕ → api.Trigger → api.Trigger
  after zero trigger = trigger
  after (suc k) trigger = (api.next (after k trigger)).1

  -- Each fire time is at least a microsecond later than it must be for the one before it.
  abbrev pub Advances : ℕ → api.Trigger → Type 0
  Advances start trigger =
      (k : ℕ) (d : Datetime)
      → (api.next (after k trigger)).0 ≡ some d
      → start + k ≤ instant p.zones (as_utc p api d)

  abbrev Ends : Option (List Datetime) → Type 0
  Ends times = (upcoming : List Datetime) × (times ≡ some upcoming)

  map-Ends :
      (d : Datetime) (times : Option (List Datetime))
      → Ends times
      → Ends (Option.map (λ rest. d ∷ rest) times)
  map-Ends d times (upcoming, e) = (d ∷ upcoming, rw e refl)

  iter_upcoming_run_times-Ends :
      (fuel slack count start k : ℕ) (now : Datetime) (is_once : Bool) (trigger : api.Trigger)
      → Advances start trigger
      → instant p.zones now ≤ start + k + slack
      → slack + count ≤ fuel
      → Ends (iter_upcoming_run_times p api fuel now is_once count (after k trigger))
  unfolding iter_upcoming_run_times
  iter_upcoming_run_times-Ends fuel slack zero start k now is_once trigger advances near enough =
      ([], refl)
  iter_upcoming_run_times-Ends zero slack (suc count) start k now is_once trigger advances near
        enough =
      absurd (omega arith)
  iter_upcoming_run_times-Ends (suc fuel) slack (suc count) start k now is_once trigger advances
        near enough =
      elim (Option-cases (api.next (after k trigger)).0) [
        | inl over ↦ rw (over, iter_upcoming_run_times) ([], refl)
        | inr (d, due_at) ↦
            let far = advances k d due_at in
            elim (Bool-cases (later_or_same p.zones (as_utc p api d) now)) [
              | inl later ↦
                  rw (due_at, later, iter_upcoming_run_times)
                    (map-Ends (as_utc p api d) _ (
                      iter_upcoming_run_times-Ends fuel slack count start (suc k) now is_once
                        trigger advances (omega arith) (omega arith)))
              | inr past ↦ elim (Bool-cases is_once) [
                | inl single ↦ rw (due_at, past, single, iter_upcoming_run_times) ([], refl)
                | inr many ↦
                    let behind : instant p.zones (as_utc p api d) < instant p.zones now =
                      ground arith in
                    rw (due_at, past, many, iter_upcoming_run_times)
                      (iter_upcoming_run_times-Ends fuel (slack - 1) (suc count) start (suc k) now
                        false trigger advances (omega arith) (omega arith))
              ]
            ]
      ]

  -- The computing of upcoming run times ends with a list, for a task whose trigger can be built
  -- and advances: its fire of each number is at least as many microseconds after a start as fires
  -- came before it. Fuel for the microseconds from the start to now, and for the times that are
  -- asked for, is enough.
  pub compute_upcoming_run_times-Ends :
      (fuel slack start count : ℕ) (built now : Datetime) (task : ScheduledTask)
      (trigger : api.Trigger)
      → build_trigger_from_task p api built task ≡ ok trigger
      → Advances start trigger
      → instant p.zones now ≤ start + slack
      → slack + count ≤ fuel
      → (upcoming : List Datetime) × (compute_upcoming_run_times p api fuel built now task count
          ≡ ok (some upcoming))
  unfolding compute_upcoming_run_times
  compute_upcoming_run_times-Ends fuel slack start count built now task trigger builds advances near
        enough =
      let (upcoming, e) =
        iter_upcoming_run_times-Ends fuel slack count start 0 now
          (elim (trigger_member task.trigger_type) [ some once ↦ true | _ ↦ false ]) trigger
          advances (omega arith) enough in
      (upcoming, rw (builds, e) refl)
