-- ===== src/Db/Schema/Revisions/ScheduledTasks.antt =====
-- alembic/versions: the revision a1b2c3d4e5f6.
use schedualerl_lm.Base.{String, none, some, [], ◌∷◌}
use schedualerl_lm.Db.Schema.Expression.{Condition}
use schedualerl_lm.Db.Schema.Catalog.{
  uuid_column, string_column, text_column, jsonb_column, timezone_column, boolean_column, Table,
  for_all, Policy, create_table, enable_row_level_security, force_row_level_security, create_policy,
  drop_policy_if_exists, drop_index, drop_table,
}
use schedualerl_lm.Db.Schema.Revisions.{
  Revision, column, defaulting, optional, plain, index, owner_is_current, is_the_scheduler,
}

abbrev scheduled_tasks : Table
scheduled_tasks =
    plain "scheduled_tasks"
      (column "id" uuid_column
        ∷ column "user_id" (string_column none)
        ∷ column "webhook_url" text_column
        ∷ defaulting "parameters" jsonb_column "{}"
        ∷ column "trigger_type" (string_column (some 32))
        ∷ column "trigger_config" jsonb_column
        ∷ optional "next_run_at" timezone_column
        ∷ defaulting "is_active" boolean_column "true"
        ∷ defaulting "created_at" timezone_column "now()"
        ∷ defaulting "updated_at" timezone_column "now()"
        ∷ [])
      []

-- A policy `FOR ALL` with the same condition for reading and for writing.
abbrev policy_for_all : String → Condition → Policy
policy_for_all name condition = record {
  name = name;
  table = "scheduled_tasks";
  command = for_all;
  using_condition = some condition;
  with_check = some condition;
}

abbrev pub add_scheduled_tasks : Revision
add_scheduled_tasks = record {
  revision = "a1b2c3d4e5f6";
  down_revision = some "ea41e048fbe5";
  upgrade =
      create_table scheduled_tasks
      ∷ index "ix_scheduled_tasks_user_id" "scheduled_tasks" ("user_id" ∷ [])
      ∷ enable_row_level_security "scheduled_tasks"
      ∷ force_row_level_security "scheduled_tasks"
      ∷ create_policy (policy_for_all "scheduled_tasks_user_all" owner_is_current)
      ∷ create_policy (policy_for_all "scheduled_tasks_scheduler" is_the_scheduler)
      ∷ [];
  downgrade =
      drop_policy_if_exists "scheduled_tasks_scheduler" "scheduled_tasks"
      ∷ drop_policy_if_exists "scheduled_tasks_user_all" "scheduled_tasks"
      ∷ drop_index "ix_scheduled_tasks_user_id"
      ∷ drop_table "scheduled_tasks"
      ∷ [];
}
