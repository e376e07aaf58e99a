-- ===== src/Services/TaskHistory.antt =====
-- app/services/task_history.py: the rows of the audit history. `uuid4()` and the column default of
-- `created_at` are arguments.
pub mod Shape
pub mod Columns
pub mod Accepted
pub mod Reading
pub mod Replay
pub mod Recorded
use mathlib.Core.Option
use schedualerl_lm.Base.{ℕ, String, Bool, Option, none, some, if◌then◌else◌}
use schedualerl_lm.Base.Int.{ℤ, fits_integer}
use schedualerl_lm.Db.Models.{ScheduledTask, TaskHistory}
use schedualerl_lm.Db.Session.{Action, lift, insert_history, ◌>>=◌}
use schedualerl_lm.Enums.{
  TriggerType, once, cron, interval, trigger_member, TaskHistoryEventType, task_created,
  task_deleted, execution, event_value, ExecutionSource, source_value,
}
use schedualerl_lm.Python.Datetime.{Datetime, to_utc}
use schedualerl_lm.Python.Dict.{Dict, Value, text, number, stamp, get_item, get_default}
use schedualerl_lm.Python.Platform.{Platform, Uuid, expand_z}
use schedualerl_lm.Python.Result
use schedualerl_lm.Python.Result.{Result, ok, err, value_error, other}

-- The trigger columns of a history row.
pub record TriggerColumns : Type 0 where
  pub cron_expression : Option String
  pub cron_timezone : Option String
  pub interval_seconds : Option ℤ
  pub once_run_at : Option Datetime

-- The columns refuse a value of another type or out of their range. The driver says so when the row
-- is flushed, at the commit at the latest; the model, when the row is built.
abbrev pub cron_columns : Value → Value → Result TriggerColumns
cron_columns (text expression) (text timezone) = ok (record {
  cron_expression = some expression;
  cron_timezone = some timezone;
  interval_seconds = none;
  once_run_at = none;
})
cron_columns _ _ = err (other "DataError")

abbrev pub interval_column : ℤ → TriggerColumns
interval_column seconds = record {
  cron_expression = none;
  cron_timezone = none;
  interval_seconds = some seconds;
  once_run_at = none;
}

-- `interval_seconds` is a column of 32 bits.
abbrev pub interval_columns : Value → Result TriggerColumns
interval_columns (number seconds) =
    if fits_integer seconds then ok (interval_column seconds) else err (other "DataError")
interval_columns _ = err (other "DataError")

abbrev pub once_column : Datetime → TriggerColumns
once_column parsed = record {
  cron_expression = none;
  cron_timezone = none;
  interval_seconds = none;
  once_run_at = some parsed;
}

module _ (p : Platform) where
  abbrev pub once_columns : Value → Result TriggerColumns
  once_columns (text run_at) = elim (p.fromisoformat (expand_z run_at)) [
    | none ↦ err (value_error "Invalid isoformat string")
    | some parsed ↦ ok (once_column parsed)
  ]
  once_columns (stamp run_at) = ok (once_column run_at)
  once_columns (number n) = err (other "DataError")

  abbrev pub columns_of : Option TriggerType → Dict → Result TriggerColumns
  columns_of (some cron) config =
      Result.◌>>=◌ (get_item config "expression")
        (λ expression. cron_columns expression (get_default config "timezone" (text "UTC")))
  columns_of (some interval) config = Result.◌>>=◌ (get_item config "seconds") interval_columns
  columns_of (some once) config = Result.◌>>=◌ (get_item config "run_at") once_columns
  columns_of none config = err (value_error "Unsupported trigger type")

  -- `_trigger_columns`
  unfoldable pub trigger_columns : String → Dict → Result TriggerColumns
  trigger_columns trigger_type trigger_config =
      columns_of (trigger_member trigger_type) trigger_config

  -- A row with the snapshot of `_snapshot_from_task`; the column `once_run_at` keeps an instant, in UTC.
  abbrev pub snapshot_row :
      Uuid → Datetime → String → ScheduledTask → TaskHistoryEventType → TriggerColumns → TaskHistory
  snapshot_row id now user_id task event_type columns = record {
    id = id;
    user_id = user_id;
    task_id = task.id;
    event_type = event_value event_type;
    webhook_url = some task.webhook_url;
    trigger_type = some task.trigger_type;
    cron_expression = columns.cron_expression;
    cron_timezone = columns.cron_timezone;
    interval_seconds = columns.interval_seconds;
    once_run_at = Option.map (to_utc p.zones) columns.once_run_at;
    execution_source = none;
    http_status = none;
    error_message = none;
    success = none;
    created_at = now;
  }

  -- `record_task_created`
  unfoldable pub record_task_created : Uuid → Datetime → String → ScheduledTask → Action Unit
  record_task_created id now user_id task = do
    columns ← lift (trigger_columns task.trigger_type task.trigger_config)
    insert_history (snapshot_row id now user_id task task_created columns)

  -- `record_task_deleted`
  unfoldable pub record_task_deleted : Uuid → Datetime → String → ScheduledTask → Action Unit
  record_task_deleted id now user_id task = do
    columns ← lift (trigger_columns task.trigger_type task.trigger_config)
    insert_history (snapshot_row id now user_id task task_deleted columns)

-- The row of `record_task_lifecycle`.
abbrev pub lifecycle_row : Uuid → Datetime → String → Uuid → TaskHistoryEventType → TaskHistory
lifecycle_row id now user_id task_id event_type = record {
  id = id;
  user_id = user_id;
  task_id = task_id;
  event_type = event_value event_type;
  webhook_url = none;
  trigger_type = none;
  cron_expression = none;
  cron_timezone = none;
  interval_seconds = none;
  once_run_at = none;
  execution_source = none;
  http_status = none;
  error_message = none;
  success = none;
  created_at = now;
}

-- `record_task_lifecycle`
unfoldable pub record_task_lifecycle :
    Uuid → Datetime → String → Uuid → TaskHistoryEventType → Action Unit
record_task_lifecycle id now user_id task_id event_type =
    insert_history (lifecycle_row id now user_id task_id event_type)

-- The arguments of `record_execution` that describe the outcome.
abbrev pub execution_row :
    Uuid
    → Datetime
    → String
    → Uuid
    → ExecutionSource
    → String
    → Bool
    → Option ℕ
    → Option String
    → TaskHistory
execution_row id now user_id task_id source webhook_url success http_status error_message = record {
  id = id;
  user_id = user_id;
  task_id = task_id;
  event_type = event_value execution;
  webhook_url = some webhook_url;
  trigger_type = none;
  cron_expression = none;
  cron_timezone = none;
  interval_seconds = none;
  once_run_at = none;
  execution_source = some (source_value source);
  http_status = http_status;
  error_message = error_message;
  success = some success;
  created_at = now;
}

-- `record_execution`
unfoldable pub record_execution :
    Uuid
    → Datetime
    → String
    → Uuid
    → ExecutionSource
    → String
    → Bool
    → Option ℕ
    → Option String
    → Action Unit
record_execution id now user_id task_id source webhook_url success http_status error_message =
    insert_history
      (execution_row id now user_id task_id source webhook_url success http_status error_message)
