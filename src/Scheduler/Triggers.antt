-- ===== src/Scheduler/Triggers.antt =====
-- app/scheduler/triggers.py. The trigger classes are those of APScheduler, behind an interface; the
-- clock readings are arguments.
pub mod RoundTrip
pub mod Upcoming
pub mod Ending
use mathlib.Core.Option
use schedualerl_lm.Base.{
  ℕ, zero, suc, String, ◌≡◌, Bool, true, false, Option, none, some, List, [], ◌∷◌, if◌then◌else◌,
}
use schedualerl_lm.Base.Int.{ℤ}
use schedualerl_lm.Enums.{TriggerType, once, cron, interval, trigger_member}
use schedualerl_lm.Db.Models.{ScheduledTask}
use schedualerl_lm.Python.Datetime.{
  Datetime, utc, default_utc, replace_tzinfo, later_or_same, to_utc,
}
use schedualerl_lm.Python.Dict.{Dict, Value, text, number, get_item, get_default}
use schedualerl_lm.Python.Platform.{Platform}
use schedualerl_lm.Python.Result.{Result, ok, err, value_error, validation_error, ◌>>=◌}
use schedualerl_lm.Schemas.Tasks.{
  StructuredTriggerSpec, once_trigger, cron_trigger_spec, interval_trigger_spec,
  new_cron_trigger_spec, new_interval_trigger_spec, TriggerConfig, once_trigger_config,
  cron_trigger_config, interval_trigger_config,
}

-- The triggers of APScheduler. `next()` mutates its trigger, so it returns the new one too.
pub record Triggers : Type 1 where
  pub Trigger : Type 0
  pub date_trigger : Datetime → Trigger
  -- `CronTrigger.from_crontab(expression, timezone=ZoneInfo(tz))`, started now
  pub from_crontab : Datetime → String → String → Result Trigger
  -- `IntervalTrigger(seconds=seconds)`, started now, which raises `OverflowError` for an interval
  -- that no `timedelta` holds
  pub interval_trigger : Datetime → ℤ → Result Trigger
  pub next : Trigger → Option Datetime × Trigger

-- A `DateTrigger` fires once, at its time.
pub record FiresOnce (api : Triggers) : Type 0 where
  pub first_fire : (d : Datetime) → (api.next (api.date_trigger d)).0 ≡ some d
  pub no_second : (d : Datetime) → (api.next (api.next (api.date_trigger d)).1).0 ≡ none

module _ (api : Triggers) where
  -- `build_trigger`
  unfoldable pub build_trigger : Datetime → StructuredTriggerSpec → Result api.Trigger
  build_trigger now (once_trigger run_at) = ok (api.date_trigger (default_utc run_at))
  build_trigger now (cron_trigger_spec expression tz) = api.from_crontab now expression tz
  build_trigger now (interval_trigger_spec seconds) = api.interval_trigger now seconds

module _ (p : Platform) where
  -- `OnceTrigger(run_at=datetime.fromisoformat(value))`
  abbrev once_from_value : Value → Result StructuredTriggerSpec
  once_from_value (text s) = elim (p.fromisoformat s) [
    | none ↦ err (value_error "Invalid isoformat string")
    | some d ↦ ok (once_trigger d)
  ]
  once_from_value _ = err (validation_error "fromisoformat: argument must be str")

  abbrev cron_from_values : Value → Value → Result StructuredTriggerSpec
  cron_from_values (text expression) (text tz) = new_cron_trigger_spec p.zones expression tz
  cron_from_values _ _ = err (validation_error "Input should be a valid string")

  abbrev interval_from_value : Value → Result StructuredTriggerSpec
  interval_from_value (number seconds) = new_interval_trigger_spec seconds
  interval_from_value _ = err (validation_error "Input should be a valid integer")

  abbrev spec_from_config : Option TriggerType → Dict → Result StructuredTriggerSpec
  spec_from_config (some once) config = do value ← get_item config "run_at"; once_from_value value
  spec_from_config (some cron) config = do
    expression ← get_item config "expression"
    cron_from_values expression (get_default config "timezone" (text "UTC"))
  spec_from_config (some interval) config = do
    value ← get_item config "seconds"
    interval_from_value value
  spec_from_config none config = err (value_error "Unsupported trigger type")

  -- `_task_to_trigger_spec`
  unfoldable pub task_to_trigger_spec : ScheduledTask → Result StructuredTriggerSpec
  unfolding new_cron_trigger_spec new_interval_trigger_spec
  task_to_trigger_spec task =
      spec_from_config (trigger_member task.trigger_type) task.trigger_config

  -- `trigger_config_from_spec`
  unfoldable pub trigger_config_from_spec : StructuredTriggerSpec → TriggerConfig
  trigger_config_from_spec (once_trigger run_at) =
      once_trigger_config (p.isoformat (default_utc run_at))
  trigger_config_from_spec (cron_trigger_spec expression tz) = cron_trigger_config expression tz
  trigger_config_from_spec (interval_trigger_spec seconds) = interval_trigger_config seconds

module _ (p : Platform) (api : Triggers) where
  -- `build_trigger_from_task`
  unfoldable pub build_trigger_from_task : Datetime → ScheduledTask → Result api.Trigger
  build_trigger_from_task now task = do
    spec ← task_to_trigger_spec p task
    build_trigger api now spec

  -- `compute_next_run_at`
  unfoldable pub compute_next_run_at : Datetime → StructuredTriggerSpec → Result (Option Datetime)
  unfolding build_trigger
  compute_next_run_at now spec = do
    trigger ← build_trigger api now spec
    ok (elim (api.next trigger).0 [ none ↦ none | some d ↦ some (default_utc d) ])

  -- `compute_next_run_at_for_task`
  unfoldable pub compute_next_run_at_for_task : Datetime → ScheduledTask → Result (Option Datetime)
  compute_next_run_at_for_task now task = do
    spec ← task_to_trigger_spec p task
    compute_next_run_at now spec

  -- A fire time as `_iter_upcoming_run_times` yields it.
  abbrev pub as_utc : Datetime → Datetime
  as_utc d = elim d.tzinfo [ none ↦ replace_tzinfo d utc | some z ↦ to_utc p.zones d ]

  -- `list(islice(_iter_upcoming_run_times(trigger, now=now, is_once=is_once), count))`. The source's
  -- loop has no bound: a trigger that never reaches `now` keeps it busy. `none` says that the fuel,
  -- one for each call of `next()`, ran out.
  unfoldable pub iter_upcoming_run_times :
      ℕ → Datetime → Bool → ℕ → api.Trigger → Option (List Datetime)
  iter_upcoming_run_times fuel now is_once zero trigger = some []
  iter_upcoming_run_times zero now is_once (suc count) trigger = none
  iter_upcoming_run_times (suc fuel) now is_once (suc count) trigger =
      let after_yield = iter_upcoming_run_times fuel now is_once count (api.next trigger).1 in
      let after_skip = iter_upcoming_run_times fuel now is_once (suc count) (api.next trigger).1 in
      elim (api.next trigger).0 [
        | none ↦ some []
        | some d ↦
            if later_or_same p.zones (as_utc d) now
            then Option.map (λ rest. as_utc d ∷ rest) after_yield
            else if is_once
            then some []
            else after_skip
      ]

  -- `compute_upcoming_run_times`; the trigger is built at `start`, and `now` is read after that.
  unfoldable pub compute_upcoming_run_times :
      ℕ → Datetime → Datetime → ScheduledTask → ℕ → Result (Option (List Datetime))
  unfolding iter_upcoming_run_times
  compute_upcoming_run_times fuel start now task count = do
    trigger ← build_trigger_from_task start task
    ok (
        iter_upcoming_run_times fuel now
          (elim (trigger_member task.trigger_type) [ some once ↦ true | _ ↦ false ]) count trigger)
