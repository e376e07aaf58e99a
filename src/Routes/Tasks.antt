-- ===== src/Routes/Tasks.antt =====
-- app/routes/tasks.py: one action for each handler. Every clock reading of a request gives the same
-- `now`; `uuid4()` gives the ids that the arguments name.
use schedualerl_lm.Base.{
  or_text, ℕ, String, Bool, true, false, ◌&&◌, not, Option, none, some, List, ◌++◌, map, take, drop,
  filter, length, ◌==◌, ◌<>◌, if◌then◌else◌,
}
use mathlib.Core.Option
use mathlib.Core.List.{head?}
use schedualerl_lm.Auth.Jwt.{Jwt}
use schedualerl_lm.Db.Models.{ScheduledTask}
use schedualerl_lm.Db.Session.{
  WebhookRequest, Action, register, unregister, pure, raise, lift, gets, select_task, insert_task,
  update_task, delete_task_row, commit, add_background, sees_task, ◌>>=◌, ◌>>◌,
}
use schedualerl_lm.Enums.{
  TaskSortField, trigger_value, task_deactivated, task_activated, manual, asc, desc, next_run_at,
}
use schedualerl_lm.Python.Datetime.{Datetime, later_or_same, to_utc}
use schedualerl_lm.Python.Platform.{Platform, Uuid}
use schedualerl_lm.Python.Result.{Result, ok, err, http_exception, trigger_parse_error}
use schedualerl_lm.Scheduler.Executor.{HttpClient, Executor, run_task_manually}
use schedualerl_lm.Scheduler.Triggers.{
  Triggers, trigger_config_from_spec, compute_next_run_at, compute_next_run_at_for_task,
  compute_upcoming_run_times,
}
use schedualerl_lm.Schemas.Execution.{WebhookFireResult, webhook_fire_result}
use schedualerl_lm.Schemas.Tasks.{
  StructuredTriggerSpec, TriggerSpec, structured, text_trigger_spec, spec_type, TaskCreate,
  TaskListQuery, TaskResponse, TaskListResponse, TaskRunResponse, TaskScheduleQuery,
  TaskScheduleResponse, model_dump,
}
use schedualerl_lm.Services.TaskHistory.{
  record_task_created, record_task_lifecycle, record_task_deleted, record_execution,
}

abbrev pub or_404 : Option ScheduledTask → Action ScheduledTask
or_404 none = raise (http_exception 404 "Task not found")
or_404 (some task) = pure task

-- `_get_task_or_404`
unfoldable pub get_task_or_404 : Uuid → Action ScheduledTask
get_task_or_404 task_id = select_task task_id >>= or_404

module _ (p : Platform) where
  -- `_to_response`; that `TaskResponse` validates the trigger's type and configuration, which the rows
  -- that the program writes pass, is left out.
  abbrev pub to_response : ScheduledTask → TaskResponse
  to_response task = record {
    id = p.str_uuid task.id;
    user_id = task.user_id;
    webhook_url = task.webhook_url;
    parameters = task.parameters;
    trigger_type = task.trigger_type;
    trigger_config = task.trigger_config;
    next_run_at = task.next_run_at;
    is_active = task.is_active;
    created_at = task.created_at;
    updated_at = task.updated_at;
  }

-- An `ORDER BY` of one column.
pub record OrderBy : Type 0 where
  pub column : TaskSortField
  pub ascending : Bool
  pub nulls_last : Bool

-- `_list_order_by`
abbrev pub list_order_by : TaskListQuery → OrderBy
list_order_by query = record {
  column = query.sort;
  ascending = elim query.order [ asc ↦ true | desc ↦ false ];
  nulls_last = elim query.sort [ next_run_at ↦ true | _ ↦ false ];
}

-- The `WHERE` of `list_tasks`.
abbrev pub list_filter : TaskListQuery → ScheduledTask → Bool
list_filter query task =
    (if query.active_only then task.is_active else true)
    && elim query.trigger_type [ none ↦ true | some k ↦ task.trigger_type == trigger_value k ]

-- `list_tasks`; the database sorts the rows by `sort_rows`.
unfoldable pub list_tasks :
    Platform
    → (OrderBy → List ScheduledTask → List ScheduledTask)
    → TaskListQuery
    → Action TaskListResponse
list_tasks p sort_rows query = gets λ s.
    let matching = filter (list_filter query) (filter (sees_task s) s.working.tasks) in
    record {
      items =
          map (to_response p)
            (take query.limit (drop query.offset (sort_rows (list_order_by query) matching)));
      total = length matching;
      limit = query.limit;
      offset = query.offset;
    }

-- `resolve_trigger_spec` of app/services/trigger_parse.py, for the function that parses a text in a
-- time zone.
abbrev pub resolve_trigger_spec :
    (String → String → Result StructuredTriggerSpec) → TriggerSpec → Result StructuredTriggerSpec
resolve_trigger_spec parse_text (text_trigger_spec phrase timezone) = parse_text phrase timezone
resolve_trigger_spec parse_text (structured spec) = ok spec

-- `except TriggerParseError` of a route
abbrev pub or_unprocessable {ℓ} : {A : Type ℓ} → Result A → Result A
or_unprocessable (err (trigger_parse_error message)) = err (http_exception 422 message)
or_unprocessable r = r

module _ (p : Platform) (api : Triggers) where
  -- The row that `create_task` adds, as `session.refresh` reads it back.
  unfoldable pub new_task :
      Uuid
      → Datetime
      → String
      → TaskCreate
      → StructuredTriggerSpec
      → Option Datetime
      → ScheduledTask
  new_task id now user_id body trigger next = record {
    id = id;
    user_id = user_id;
    webhook_url = body.webhook_url;
    parameters = body.parameters;
    trigger_type = trigger_value (spec_type trigger);
    trigger_config = model_dump (trigger_config_from_spec p trigger);
    next_run_at = Option.map (to_utc p.zones) next;
    is_active = true;
    created_at = now;
    updated_at = now;
  }

  -- `create_task`
  unfoldable pub create_task :
      (String → String → Result StructuredTriggerSpec)
      → Uuid
      → Uuid
      → Datetime
      → String
      → TaskCreate
      → Action TaskResponse
  create_task parse_text task_id history_id now user_id body = do
    trigger ← lift (or_unprocessable (resolve_trigger_spec parse_text body.trigger))
    next ← lift (compute_next_run_at p api now trigger)
    let task = new_task task_id now user_id body trigger next
    insert_task task
    record_task_created p history_id now user_id task
    add_background (register task)
    pure (to_response p task)

  -- `get_task_schedule`, with fuel for the loop over the fire times
  unfoldable pub get_task_schedule :
      ℕ → Datetime → Uuid → TaskScheduleQuery → Action (Option TaskScheduleResponse)
  get_task_schedule fuel now task_id query = do
    task ← get_task_or_404 task_id
    times ← lift (compute_upcoming_run_times p api fuel now now task query.count)
    pure (
        Option.map
          (λ upcoming. record {
            trigger_type = task.trigger_type;
            is_active = task.is_active;
            next_run_at = head? upcoming;
            upcoming = upcoming;
          })
          times)

-- The webhook requests that a second session sent.
unfoldable pub sent_from : List WebhookRequest → Action (Unit {0})
sent_from requests s = (ok tt, record s { sent = s.sent ++ requests })

-- The detail of the 502 that `run_task` answers.
abbrev pub run_failure : HttpClient → WebhookFireResult → String
run_failure client result = elim result.http_status [
  | some status ↦ "Webhook returned " <> client.show_status status
  | none ↦ or_text result.error_message "Webhook request failed"
]

-- What `run_task` answers once the outcome is recorded.
abbrev pub run_response : Platform → HttpClient → Uuid → WebhookFireResult → Action TaskRunResponse
run_response p client task_id result =
    if not result.success
    then raise (http_exception 502 (run_failure client result))
    else pure (record {
      task_id = p.str_uuid task_id;
      execution_source = result.execution_source;
      webhook_url = result.webhook_url;
      http_status = result.http_status;
      error_message = result.error_message;
      success = result.success;
    })

module _ (p : Platform) (jwt : Jwt) where
  -- `run_task`
  unfoldable pub run_task : Executor → Uuid → Datetime → String → Uuid → Action TaskRunResponse
  run_task ex history_id now user_id task_id = do
    task ← get_task_or_404 task_id
    tables ← gets (λ s. s.committed)
    let fired = run_task_manually p jwt (some ex) now (p.str_uuid task.id) tables
    sent_from fired.1
    outcome ← lift fired.0
    let result = webhook_fire_result manual task.webhook_url outcome
    record_execution history_id now user_id task.id result.execution_source result.webhook_url
        result.success result.http_status result.error_message
    commit
    run_response p ex.http_client task.id result

module _ (p : Platform) where
  -- `deactivate_task`
  unfoldable pub deactivate_task : Uuid → Datetime → String → Uuid → Action TaskResponse
  deactivate_task history_id now user_id task_id = do
    task ← get_task_or_404 task_id
    if task.is_active
        then (do
          update_task task.id false none now
          record_task_lifecycle history_id now user_id task.id task_deactivated
          add_background (unregister task_id)
          pure (to_response p (record task { is_active = false; next_run_at = none })))
        else pure (to_response p task)

module _ (p : Platform) (api : Triggers) where
  -- `next_run_at is None or (task.trigger_type == TriggerType.ONCE and next_run_at <= now)`
  abbrev pub cannot_activate : Datetime → ScheduledTask → Option Datetime → Bool
  cannot_activate now task none = true
  cannot_activate now task (some next) =
      task.trigger_type == "once" && later_or_same p.zones now next

  -- `activate_task`; the column keeps the instant of `next_run_at`, in UTC.
  unfoldable pub activate_task : Uuid → Datetime → String → Uuid → Action TaskResponse
  activate_task history_id now user_id task_id = do
    task ← get_task_or_404 task_id
    if task.is_active then pure (to_response p task) else (do
      next ← lift (compute_next_run_at_for_task p api now task)
      if cannot_activate now task next
          then raise (http_exception 422 "Task cannot be activated")
          else (do
            let active = record task { is_active = true; next_run_at = next }
            update_task task.id true (Option.map (to_utc p.zones) next) now
            record_task_lifecycle history_id now user_id task.id task_activated
            add_background (register active)
            pure (to_response p active)))

module _ (p : Platform) where
  -- `delete_task`
  unfoldable pub delete_task : Uuid → Datetime → String → Uuid → Action Unit
  delete_task history_id now user_id task_id = do
    task ← get_task_or_404 task_id
    (if task.is_active then add_background (unregister task_id) else pure tt)
    record_task_deleted p history_id now user_id task
    delete_task_row task.id
