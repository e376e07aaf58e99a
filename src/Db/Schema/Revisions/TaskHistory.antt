-- ===== src/Db/Schema/Revisions/TaskHistory.antt =====
-- alembic/versions: the revision b2c3d4e5f6a7.
use schedualerl_lm.Base.{String, none, some, [], ◌∷◌}
use schedualerl_lm.Db.Schema.Expression.{
  Condition, is_null, is_not_null, equals, is_in, equals_false, ◌and◌, ◌or◌,
}
use schedualerl_lm.Db.Schema.Catalog.{
  uuid_column, string_column, text_column, timezone_column, boolean_column, integer_column, Check,
  Table, for_select, for_insert, Policy, Function, Trigger, create_table, enable_row_level_security,
  force_row_level_security, create_policy, create_or_replace_function, create_trigger,
  drop_trigger_if_exists, drop_function_if_exists, drop_policy_if_exists, drop_index, drop_table,
}
use schedualerl_lm.Db.Schema.Revisions.{
  Revision, column, defaulting, optional, plain, index, owner_is_current, is_the_scheduler,
}

-- The constraint `task_history_event_shape`, by the three kinds of event.
abbrev pub snapshot_condition : Condition
snapshot_condition =
    is_in "event_type" ("task_created" ∷ "task_deleted" ∷ [])
    and is_not_null "webhook_url"
    and is_not_null "trigger_type"
    and is_null "execution_source"
    and is_null "http_status"
    and is_null "error_message"
    and is_null "success"
    and ((equals "trigger_type" "cron"
          and is_not_null "cron_expression"
          and is_not_null "cron_timezone"
          and is_null "interval_seconds"
          and is_null "once_run_at")
        or (equals "trigger_type" "interval"
            and is_not_null "interval_seconds"
            and is_null "cron_expression"
            and is_null "cron_timezone"
            and is_null "once_run_at")
        or (equals "trigger_type" "once"
            and is_not_null "once_run_at"
            and is_null "cron_expression"
            and is_null "cron_timezone"
            and is_null "interval_seconds"))

abbrev pub lifecycle_condition : Condition
lifecycle_condition =
    is_in "event_type" ("task_activated" ∷ "task_deactivated" ∷ [])
    and is_null "webhook_url"
    and is_null "trigger_type"
    and is_null "cron_expression"
    and is_null "cron_timezone"
    and is_null "interval_seconds"
    and is_null "once_run_at"
    and is_null "execution_source"
    and is_null "http_status"
    and is_null "error_message"
    and is_null "success"

abbrev pub execution_condition : Condition
execution_condition =
    equals "event_type" "execution"
    and is_not_null "webhook_url"
    and is_not_null "execution_source"
    and is_not_null "success"
    and is_null "trigger_type"
    and is_null "cron_expression"
    and is_null "cron_timezone"
    and is_null "interval_seconds"
    and is_null "once_run_at"
    and (equals_false "success" or is_not_null "http_status")

abbrev pub event_shape : Check
event_shape = record {
  name = "task_history_event_shape";
  condition = snapshot_condition or lifecycle_condition or execution_condition;
}

abbrev task_history : Table
task_history =
    plain "task_history"
      (column "id" uuid_column
        ∷ column "user_id" (string_column none)
        ∷ column "task_id" uuid_column
        ∷ column "event_type" (string_column (some 32))
        ∷ optional "webhook_url" text_column
        ∷ optional "trigger_type" (string_column (some 32))
        ∷ optional "cron_expression" (string_column none)
        ∷ optional "cron_timezone" (string_column none)
        ∷ optional "interval_seconds" integer_column
        ∷ optional "once_run_at" timezone_column
        ∷ optional "execution_source" (string_column (some 16))
        ∷ optional "http_status" integer_column
        ∷ optional "error_message" text_column
        ∷ optional "success" boolean_column
        ∷ defaulting "created_at" timezone_column "now()"
        ∷ [])
      (event_shape ∷ [])

abbrev insert_policy : String → Condition → Policy
insert_policy name condition = record {
  name = name;
  table = "task_history";
  command = for_insert;
  using_condition = none;
  with_check = some condition;
}

abbrev user_select_policy : Policy
user_select_policy = record {
  name = "task_history_user_select";
  table = "task_history";
  command = for_select;
  using_condition = some owner_is_current;
  with_check = none;
}

abbrev pub prevent_mutation : Function
prevent_mutation = record {
  name = "prevent_task_history_mutation";
  exception = "task_history is append-only";
}

abbrev pub no_update : Trigger
no_update = record {
  name = "task_history_no_update";
  table = "task_history";
  function = "prevent_task_history_mutation";
}

abbrev pub add_task_history : Revision
add_task_history = record {
  revision = "b2c3d4e5f6a7";
  down_revision = some "a1b2c3d4e5f6";
  upgrade =
      create_table task_history
      ∷ index "ix_task_history_user_id" "task_history" ("user_id" ∷ [])
      ∷ index "ix_task_history_task_id" "task_history" ("task_id" ∷ [])
      ∷ index "ix_task_history_user_id_created_at" "task_history"
          ("user_id" ∷ "created_at DESC" ∷ [])
      ∷ index "ix_task_history_task_id_created_at" "task_history"
          ("task_id" ∷ "created_at DESC" ∷ [])
      ∷ enable_row_level_security "task_history"
      ∷ force_row_level_security "task_history"
      ∷ create_policy user_select_policy
      ∷ create_policy (insert_policy "task_history_user_insert" owner_is_current)
      ∷ create_policy (insert_policy "task_history_scheduler_insert" is_the_scheduler)
      ∷ create_or_replace_function prevent_mutation
      ∷ create_trigger no_update
      ∷ [];
  downgrade =
      drop_trigger_if_exists "task_history_no_update" "task_history"
      ∷ drop_function_if_exists "prevent_task_history_mutation"
      ∷ drop_policy_if_exists "task_history_scheduler_insert" "task_history"
      ∷ drop_policy_if_exists "task_history_user_insert" "task_history"
      ∷ drop_policy_if_exists "task_history_user_select" "task_history"
      ∷ drop_index "ix_task_history_task_id_created_at"
      ∷ drop_index "ix_task_history_user_id_created_at"
      ∷ drop_index "ix_task_history_task_id"
      ∷ drop_index "ix_task_history_user_id"
      ∷ drop_table "task_history"
      ∷ [];
}
