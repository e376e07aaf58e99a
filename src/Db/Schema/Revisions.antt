-- ===== src/Db/Schema/Revisions.antt =====
-- alembic/versions: what a revision is, what the tables' definitions share, and the initial revision.
pub mod ScheduledTasks
pub mod TaskHistory
use schedualerl_lm.Base.{String, true, false, Option, none, some, List, [], ◌∷◌}
use schedualerl_lm.Db.Schema.Expression.{
  Condition, is_null, is_not_null, equals, is_in, equals_false, equals_setting, setting_equals,
  ◌and◌, ◌or◌,
}
use schedualerl_lm.Db.Schema.Catalog.{
  ColumnType, uuid_column, string_column, text_column, jsonb_column, timezone_column,
  boolean_column, integer_column, Column, Check, Table, Index, for_all, for_select, for_insert,
  Policy, Function, Trigger, Statement, create_table, create_index, enable_row_level_security,
  force_row_level_security, create_policy, create_or_replace_function, create_trigger,
  drop_trigger_if_exists, drop_function_if_exists, drop_policy_if_exists, drop_index, drop_table,
}

pub record Revision : Type 0 where
  pub revision : String
  pub down_revision : Option String
  pub upgrade : List Statement
  pub downgrade : List Statement

abbrev pub column : String → ColumnType → Column
column name column_type = record {
  name = name;
  column_type = column_type;
  server_default = none;
  nullable = false;
}

abbrev pub defaulting : String → ColumnType → String → Column
defaulting name column_type default = record {
  name = name;
  column_type = column_type;
  server_default = some default;
  nullable = false;
}

abbrev pub optional : String → ColumnType → Column
optional name column_type = record {
  name = name;
  column_type = column_type;
  server_default = none;
  nullable = true;
}

-- A table as `op.create_table` leaves it.
abbrev pub plain : String → List Column → List Check → Table
plain name columns checks = record {
  name = name;
  columns = columns;
  primary_key = "id";
  checks = checks;
  rls_enabled = false;
  rls_forced = false;
}

abbrev pub index : String → String → List String → Statement
index name table columns = create_index (record { name = name; table = table; columns = columns })

-- `user_id = current_setting('app.current_user_id', true)`
abbrev pub owner_is_current : Condition
owner_is_current = equals_setting "user_id" "app.current_user_id"

-- `current_setting('app.is_scheduler', true) = 'true'`
abbrev pub is_the_scheduler : Condition
is_the_scheduler = setting_equals "app.is_scheduler" "true"

abbrev pub initial : Revision
initial = record { revision = "ea41e048fbe5"; down_revision = none; upgrade = []; downgrade = [] }
