-- ===== src/Tests/History.antt =====
-- The theorems on tables that are reached, and on the loop over fire times.
use schedualerl_lm.Base.{
  ◌≡◌, refl, ℕ, zero, suc, Option, some, none, [], ◌∷◌, List, arith, All, true, length, ◌≤◌,
}
use schedualerl_lm.Db.Session.{Tables}
use schedualerl_lm.Python.Datetime.{Datetime, instant, later_or_same}
use schedualerl_lm.Python.Result.{ok}
use schedualerl_lm.Routes.Requests.{App, serve, create, deactivate, schedule, schedule_reply}
use schedualerl_lm.Routes.Requests.Answers.{serve-schedule}
use schedualerl_lm.Routes.Requests.Effects.{effect_of, unchanged}
use mathlib.Core.List.{head?}
use schedualerl_lm.Scheduler.Triggers.{
  compute_upcoming_run_times, build_trigger_from_task, task_to_trigger_spec, build_trigger,
}
use schedualerl_lm.Scheduler.Triggers.Ending.{after, Advances, compute_upcoming_run_times-Ends}
use schedualerl_lm.Services.TaskHistory.Replay.{replay, absent, state_in}
use schedualerl_lm.System.{Reachable, no_tables, nothing_yet, by_request}
use schedualerl_lm.System.History.{Reachable-replay}
use schedualerl_lm.Tests.{
  tables, app, inputs, function_schedules, new_body, platform, listed_triggers, clock, tomorrow,
  once_task,
}

-- `ann` creates a task and pauses it.
abbrev created_tables : Tables
created_tables = (serve app inputs "ann" no_tables (create new_body)).1.committed

abbrev paused_tables : Tables
paused_tables = (serve app inputs "ann" created_tables (deactivate 9)).1.committed

paused_tables-Reachable : Reachable app function_schedules paused_tables
paused_tables-Reachable =
    by_request inputs "ann" created_tables (deactivate 9)
      (by_request inputs "ann" no_tables (create new_body) nothing_yet refl refl) refl tt

Reachable-replay_example : replay 9 absent paused_tables.history ≡ state_in 9 paused_tables.tasks
Reachable-replay_example =
    Reachable-replay app function_schedules paused_tables paused_tables-Reachable 9

after_once : (k : ℕ) → after platform listed_triggers (suc k) (tomorrow ∷ []) ≡ []
after_once zero = refl
after_once (suc k) = rw (after, after_once k) refl

once-Advances : Advances platform listed_triggers 0 (tomorrow ∷ [])
unfolding instant
once-Advances zero d h = omega arith
once-Advances (suc k) d h =
    let none_left : Path (Option Datetime) none (some d) = rw (after_once k) at h in cc

compute_upcoming_run_times-Ends_example :
    (upcoming : List Datetime) × (compute_upcoming_run_times platform listed_triggers
        63900200000000001 clock clock once_task 1
      ≡ ok (some upcoming))
unfolding instant build_trigger_from_task task_to_trigger_spec build_trigger
compute_upcoming_run_times-Ends_example =
    compute_upcoming_run_times-Ends platform listed_triggers 63900200000000001 63900200000000000 0 1
      clock clock once_task (tomorrow ∷ []) refl once-Advances (omega arith) (omega arith)

abbrev patient_app : App
patient_app = record app { fuel = 63900200000000001 }

serve-schedule_example :
    (upcoming : List Datetime) × (effect_of
        (serve patient_app inputs "ann" tables (schedule 7 (record { count = 1 })))
      ≡ unchanged patient_app inputs "ann" tables (
          ok (
            schedule_reply (
              some (record {
                trigger_type = once_task.trigger_type;
                is_active = once_task.is_active;
                next_run_at = head? upcoming;
                upcoming = upcoming;
              })))))
    × All (λ d. later_or_same platform.zones d clock ≡ true) upcoming
    × (length upcoming ≤ 1)
unfolding instant build_trigger_from_task task_to_trigger_spec build_trigger
serve-schedule_example =
    serve-schedule patient_app inputs "ann" tables 7 (record { count = 1 }) once_task
      (tomorrow ∷ []) 0 63900200000000000 refl refl refl once-Advances (omega arith) (omega arith)
