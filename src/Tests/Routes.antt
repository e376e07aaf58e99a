-- ===== src/Tests/Routes.antt =====
-- The theorems on the requests, at concrete ones.
use mathlib.Core.Path.{subst}
use schedualerl_lm.Base.{List, length, min, ◌-◌, none, false}
use schedualerl_lm.Db.Session.{get_db}
use schedualerl_lm.Enums.{created_at, desc}
use schedualerl_lm.Routes.History.{entries_from_rows, list_matching}
use schedualerl_lm.Routes.History.Listing.{own_matching, page, list_matching_lem}
use schedualerl_lm.Routes.Requests.{list, list_reply}
use schedualerl_lm.Routes.Requests.Effects.{unchanged}
use schedualerl_lm.Routes.Requests.Answers.{IsPresentable, shown, serve-list}
use schedualerl_lm.Scheduler.Triggers.{trigger_config_from_spec}
use schedualerl_lm.Base.{All, [], ◌∷◌}
use schedualerl_lm.Schemas.History.{HistoryListQuery, HistoryEntry}
use schedualerl_lm.Schemas.Tasks.{TaskListQuery}
use schedualerl_lm.Base.{refl}
use schedualerl_lm.Db.Migrations.{task_history_event_shape}
use schedualerl_lm.Db.Session.Isolation.{SameForeign}
use schedualerl_lm.Db.Session.Soundness.{IsSound}
use schedualerl_lm.Python.Result.{ok}
use schedualerl_lm.Routes.Requests.{run, delete, deactivate, activate, create, serve}
use schedualerl_lm.Routes.Requests.Recorded.{serve-create, created_from}
use schedualerl_lm.Services.TaskHistory.Columns.{IsRecordable}
use schedualerl_lm.Routes.Requests.Effects.{
  effect_of, serve-deactivate, serve-activate, activated, deactivated,
}
use schedualerl_lm.Routes.Requests.Isolation.{serve-SameForeign}
use schedualerl_lm.Routes.Requests.Running.{serve-run, ran, ran_of}
use schedualerl_lm.Routes.Requests.Soundness.{serve-IsSound}
use schedualerl_lm.Scheduler.Executor.Outcomes.{outcome_for}
use schedualerl_lm.Schemas.Tasks.{interval_trigger_spec, once_trigger}
use schedualerl_lm.Tests.{tomorrow}
use schedualerl_lm.Tests.{
  app, inputs, tables, once_task, idle_task, new_body, platform, plain_jwt, executor, clock,
}
use schedualerl_lm.Base.{◌≡◌, some}
use schedualerl_lm.Base.Int.{pos}

serve-SameForeign_example :
    SameForeign "ann" tables (serve app inputs "ann" tables (deactivate 7)).1.committed
serve-SameForeign_example = serve-SameForeign app inputs "ann" tables (deactivate 7)

serve-IsSound_example : IsSound tables (serve app inputs "ann" tables (delete 7)).1.committed
unfolding task_history_event_shape
serve-IsSound_example =
    serve-IsSound app inputs "ann" tables (delete 7) (refl, tt)
      ((λ e. absurd cc), ((λ e. refl), tt))

serve-run_example :
    ran_of app inputs "ann" (serve app inputs "ann" tables (run 7))
    ≡ ran app inputs "ann" tables once_task
        (outcome_for platform plain_jwt executor clock once_task)
serve-run_example = serve-run app inputs "ann" tables 7 once_task refl refl refl refl

serve-create_example :
    effect_of (serve app inputs "ann" tables (create new_body))
    ≡ created_from app inputs "ann" tables new_body (ok (interval_trigger_spec (pos 60)))
serve-create_example = serve-create app inputs "ann" tables new_body refl refl (λ spec resolved.
    let same : interval_trigger_spec (pos 60) ≡ spec = cc in
    subst (IsRecordable platform) same refl)

serve-activate_example :
    effect_of (serve app inputs "bob" tables (activate 8))
    ≡ activated app inputs "bob" 8 tables (some idle_task)
serve-activate_example = serve-activate app inputs "bob" tables 8 refl

serve-deactivate_example :
    effect_of (serve app inputs "ann" tables (deactivate 7))
    ≡ deactivated app inputs "ann" 7 tables (some once_task)
serve-deactivate_example = serve-deactivate app inputs "ann" tables 7 refl

abbrev all_tasks : TaskListQuery
all_tasks = record {
  active_only = false;
  trigger_type = none;
  sort = created_at;
  order = desc;
  limit = 20;
  offset = 0;
}

tables-IsPresentable : All (IsPresentable platform) tables.tasks
unfolding trigger_config_from_spec
tables-IsPresentable = (
  (once_trigger tomorrow, record { stored_type = refl; stored_config = refl }),
  ((interval_trigger_spec (pos 60), record { stored_type = refl; stored_config = refl }), tt),
)

serve-list_example :
    effect_of (serve app inputs "ann" tables (list all_tasks))
    ≡ unchanged app inputs "ann" tables (
        ok (
          list_reply
            (record { items = shown platform once_task ∷ []; total = 1; limit = 20; offset = 0 })))
serve-list_example = serve-list app inputs "ann" tables all_tasks refl tables-IsPresentable

abbrev all_history : HistoryListQuery
all_history = record {
  event_type = none;
  task_id = none;
  since = none;
  until = none;
  order = desc;
  limit = 50;
  offset = 0;
}

list_matching_example :
    let rows = own_matching platform "bob" all_history none tables.history in
    (items : List HistoryEntry) × (entries_from_rows platform
        (page platform (λ b r. r) all_history rows)
      ≡ ok items)
    × (length items ≡ min 50 (length rows - 0))
    × ((get_db (some "bob") tables (list_matching platform (λ b r. r) all_history none)).0
        ≡ ok (record { items = items; total = length rows; limit = 50; offset = 0 }))
unfolding task_history_event_shape
list_matching_example =
    list_matching_lem platform (λ b r. r) "bob" tables all_history none
      (record { same_length = λ b r. refl; same_rows = λ P b r h. h }) refl (refl, tt)
      ((λ s e. absurd cc), tt)
