-- ===== src/Db/Schema/Rows.antt =====
-- The rows and sessions of the models, as the conditions of the migrations read them.
use schedualerl_lm.Base.{String, Bool, Option, none, some, List, [], ◌∷◌, ◌==◌, if◌then◌else◌, map}
use schedualerl_lm.Base.Int.{pos}
use schedualerl_lm.Db.Models.{ScheduledTask, TaskHistory}
use schedualerl_lm.Db.Schema.Expression.{
  Cell, varchar, boolean, integer, timestamp, uuid, jsonb, Row, Settings,
}
use schedualerl_lm.Python.Dict.{text}

-- A row by the names and values of its columns.
abbrev row_of : List (String × Option Cell) → Row
row_of [] column = none
row_of ((name, cell) ∷ rest) column = if name == column then cell else row_of rest column

abbrev pub nullable {ℓ} : {A : Type ℓ} → (A → Cell) → Option A → Option Cell
nullable f none = none
nullable f (some a) = some (f a)

-- A row of `scheduled_tasks`
abbrev pub task_row : ScheduledTask → Row
task_row task = row_of (
    ("id", some (uuid task.id))
    ∷ ("user_id", some (varchar task.user_id))
    ∷ ("webhook_url", some (varchar task.webhook_url))
    ∷ ("parameters", some (jsonb (map (λ e. (e.0, text e.1)) task.parameters)))
    ∷ ("trigger_type", some (varchar task.trigger_type))
    ∷ ("trigger_config", some (jsonb task.trigger_config))
    ∷ ("next_run_at", nullable timestamp task.next_run_at)
    ∷ ("is_active", some (boolean task.is_active))
    ∷ ("created_at", some (timestamp task.created_at))
    ∷ ("updated_at", some (timestamp task.updated_at))
    ∷ [])

-- A row of `task_history`
abbrev pub history_row : TaskHistory → Row
history_row row = row_of (
    ("id", some (uuid row.id))
    ∷ ("user_id", some (varchar row.user_id))
    ∷ ("task_id", some (uuid row.task_id))
    ∷ ("event_type", some (varchar row.event_type))
    ∷ ("webhook_url", nullable varchar row.webhook_url)
    ∷ ("trigger_type", nullable varchar row.trigger_type)
    ∷ ("cron_expression", nullable varchar row.cron_expression)
    ∷ ("cron_timezone", nullable varchar row.cron_timezone)
    ∷ ("interval_seconds", nullable integer row.interval_seconds)
    ∷ ("once_run_at", nullable timestamp row.once_run_at)
    ∷ ("execution_source", nullable varchar row.execution_source)
    ∷ ("http_status", nullable (λ n. integer (pos n)) row.http_status)
    ∷ ("error_message", nullable varchar row.error_message)
    ∷ ("success", nullable boolean row.success)
    ∷ ("created_at", some (timestamp row.created_at))
    ∷ [])

-- What `set_user_rls` and `set_scheduler_rls` set.
abbrev pub settings_of : Option String → Bool → Settings
settings_of current_user is_scheduler name =
    if name == "app.current_user_id"
    then current_user
    else if name == "app.is_scheduler"
    then if is_scheduler then some "true" else none
    else none
