-- ===== src/Db/Migrations.antt =====
-- alembic/versions: the row level security policies of both tables, and the check constraint
-- `task_history_event_shape`. Every comparison with a column that may be NULL stands beside an
-- `IS NOT NULL` of it, so the constraint is two-valued.
use schedualerl_lm.Base.{String, Bool, false, ◌&&◌, ◌||◌, not, Option, none, some, ◌==◌, is_some}
use schedualerl_lm.Db.Models.{ScheduledTask, TaskHistory}

-- `user_id = current_setting('app.current_user_id', true)`; NULL passes nothing.
abbrev pub is_current_user : Option String → String → Bool
is_current_user none user_id = false
is_current_user (some current) user_id = user_id == current

-- `scheduled_tasks_user_all` and `scheduled_tasks_scheduler`: one of them must pass.
abbrev pub scheduled_tasks_policy : Option String → Bool → ScheduledTask → Bool
scheduled_tasks_policy current is_scheduler task =
    is_current_user current task.user_id || is_scheduler

-- `task_history_user_select`
abbrev pub task_history_select_policy : Option String → TaskHistory → Bool
task_history_select_policy current row = is_current_user current row.user_id

-- `task_history_user_insert` and `task_history_scheduler_insert`
abbrev pub task_history_insert_policy : Option String → Bool → TaskHistory → Bool
task_history_insert_policy current is_scheduler row =
    is_current_user current row.user_id || is_scheduler

-- `column = 'value'`, of a column that may be NULL
abbrev pub column_is : Option String → String → Bool
column_is none value = false
column_is (some s) value = s == value

abbrev pub is_null {ℓ} : {A : Type ℓ} → Option A → Bool
is_null o = not (is_some o)

-- No column of a trigger is set.
abbrev pub no_trigger_columns : TaskHistory → Bool
no_trigger_columns row =
    is_null row.cron_expression
    && is_null row.cron_timezone
    && is_null row.interval_seconds
    && is_null row.once_run_at

-- The columns of the row's trigger type are set, and the others are not.
abbrev pub trigger_columns_match : TaskHistory → Bool
trigger_columns_match row =
    (column_is row.trigger_type "cron"
      && is_some row.cron_expression
      && is_some row.cron_timezone
      && is_null row.interval_seconds
      && is_null row.once_run_at)
    || (column_is row.trigger_type "interval"
        && is_some row.interval_seconds
        && is_null row.cron_expression
        && is_null row.cron_timezone
        && is_null row.once_run_at)
    || (column_is row.trigger_type "once"
        && is_some row.once_run_at
        && is_null row.cron_expression
        && is_null row.cron_timezone
        && is_null row.interval_seconds)

-- `success = false OR http_status IS NOT NULL`
abbrev pub success_has_status : TaskHistory → Bool
success_has_status row =
    elim row.success [ none ↦ false | some b ↦ not b ] || is_some row.http_status

-- The constraint `task_history_event_shape`.
unfoldable pub task_history_event_shape : TaskHistory → Bool
task_history_event_shape row =
    ((row.event_type == "task_created" || row.event_type == "task_deleted")
      && is_some row.webhook_url
      && is_some row.trigger_type
      && is_null row.execution_source
      && is_null row.http_status
      && is_null row.error_message
      && is_null row.success
      && trigger_columns_match row)
    || ((row.event_type == "task_activated" || row.event_type == "task_deactivated")
        && is_null row.webhook_url
        && is_null row.trigger_type
        && no_trigger_columns row
        && is_null row.execution_source
        && is_null row.http_status
        && is_null row.error_message
        && is_null row.success)
    || (row.event_type == "execution"
        && is_some row.webhook_url
        && is_some row.execution_source
        && is_some row.success
        && is_null row.trigger_type
        && no_trigger_columns row
        && success_has_status row)
