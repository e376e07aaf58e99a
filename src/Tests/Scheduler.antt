-- ===== src/Tests/Scheduler.antt =====
-- The theorems on triggers and scheduled runs, at concrete ones.
use schedualerl_lm.Base.{refl, ◌≡◌, true, false, Option, some, List, [], ◌∷◌, inl, take}
use schedualerl_lm.Python.Datetime.{Datetime, with_offset}
use schedualerl_lm.Python.Result.{ok}
use schedualerl_lm.Scheduler.Execution.{execute_scheduled_task}
use schedualerl_lm.Scheduler.Execution.Effects.{executed_of, executed, execute_scheduled_task_lem}
use schedualerl_lm.Scheduler.Triggers.{
  as_utc, iter_upcoming_run_times, task_to_trigger_spec, trigger_config_from_spec,
}
use schedualerl_lm.Scheduler.Triggers.RoundTrip.{reread_spec, task_to_trigger_spec-stored}
use schedualerl_lm.Scheduler.Triggers.Upcoming.{
  fires, due, ended, IsDueUpTo, iter_upcoming_run_times_lem, iter_upcoming_run_times_bounds,
  iter_upcoming_run_times_once,
}
use schedualerl_lm.Schemas.Tasks.{once_trigger}
use schedualerl_lm.Schemas.Execution.{WebhookFireOutcome}
use schedualerl_lm.Tests.{
  platform, plain_jwt, executor, function_schedules, listed_triggers, tables, once_task, clock,
  tomorrow,
}

abbrev no_schedules : function_schedules.Store
no_schedules id = Option.none

execute_scheduled_task_example :
    executed_of platform plain_jwt executor function_schedules (
      execute_scheduled_task platform plain_jwt function_schedules
        (some executor)
        21
        clock
        "07"
        tables
        no_schedules)
    ≡ executed platform plain_jwt executor function_schedules 21 clock tables no_schedules
        (some once_task)
execute_scheduled_task_example =
    execute_scheduled_task_lem platform plain_jwt executor function_schedules 21 clock tables
      no_schedules 7 refl

abbrev answered : WebhookFireOutcome
answered = record { http_status = some 200; error_message = Option.none; success = true }

task_to_trigger_spec-stored_example :
    task_to_trigger_spec platform once_task ≡ ok (reread_spec platform (once_trigger tomorrow))
unfolding trigger_config_from_spec with_offset
task_to_trigger_spec-stored_example =
    task_to_trigger_spec-stored platform once_task (once_trigger tomorrow) refl
      (record { stored_type = refl; stored_config = refl })

abbrev two_times : List Datetime
two_times = clock ∷ tomorrow ∷ []

iter_upcoming_run_times_example :
    iter_upcoming_run_times platform listed_triggers 5 clock false 1 two_times
    ≡ some
        (take 1 (due platform listed_triggers clock (fires platform listed_triggers 5 two_times)))
unfolding ended
iter_upcoming_run_times_example =
    iter_upcoming_run_times_lem platform listed_triggers 5 clock 1 two_times (inl refl)

iter_upcoming_run_times_bounds_example :
    IsDueUpTo platform listed_triggers clock 1
      (iter_upcoming_run_times platform listed_triggers 5 clock false 1 two_times)
iter_upcoming_run_times_bounds_example =
    iter_upcoming_run_times_bounds platform listed_triggers 5 clock false 1 two_times

future_once_is_listed :
    iter_upcoming_run_times platform listed_triggers 3 clock true 2 (tomorrow ∷ [])
    ≡ some (due platform listed_triggers clock (as_utc platform listed_triggers tomorrow ∷ []))
future_once_is_listed =
    iter_upcoming_run_times_once platform listed_triggers
      (record { first_fire = λ d. refl; no_second = λ d. refl }) 1 1 clock tomorrow
