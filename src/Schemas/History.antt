-- ===== src/Schemas/History.antt =====
-- app/schemas/history.py: the entries of the audit history, read from its rows.
pub mod Entries
use schedualerl_lm.Base.{ℕ, String, Bool, false, Option, none, some, List, get_or, or_text}
use schedualerl_lm.Base.Int.{ℤ, pos}
use schedualerl_lm.Db.Models.{TaskHistory}
use schedualerl_lm.Enums.{
  TaskHistoryEventType, task_created, task_activated, task_deactivated, task_deleted, execution,
  SortOrder, TriggerType, once, cron, interval, trigger_member, event_member, source_member,
  ExecutionSource,
}
use schedualerl_lm.Python.Datetime.{Datetime}
use schedualerl_lm.Python.Platform.{Platform, Uuid}
use schedualerl_lm.Python.Result.{Result, ok, err, value_error, validation_error, ◌>>=◌}
use schedualerl_lm.Schemas.Execution.{WebhookFireResult}
use schedualerl_lm.Schemas.Tasks.{
  TriggerConfig, once_trigger_config, cron_trigger_config, interval_trigger_config,
}

-- `HistoryListQuery`
pub record HistoryListQuery : Type 0 where
  pub event_type : Option TaskHistoryEventType
  pub task_id : Option Uuid
  pub since : Option Datetime
  pub until : Option Datetime
  pub order : SortOrder
  pub limit : ℕ
  pub offset : ℕ

-- `HistoryEntryBase`
pub record HistoryEntryBase : Type 0 where
  pub id : String
  pub task_id : String
  pub created_at : Datetime

-- `HistoryEntry`: the five models, told apart by `event_type`.
pub data HistoryEntry : Type 0 where
  task_created_entry : HistoryEntryBase → String → TriggerType → TriggerConfig → HistoryEntry
  task_activated_entry : HistoryEntryBase → HistoryEntry
  task_deactivated_entry : HistoryEntryBase → HistoryEntry
  task_deleted_entry : HistoryEntryBase → String → TriggerType → TriggerConfig → HistoryEntry
  execution_entry : HistoryEntryBase → WebhookFireResult → HistoryEntry

-- `HistoryListResponse`
pub record HistoryListResponse : Type 0 where
  pub items : List HistoryEntry
  pub total : ℕ
  pub limit : ℕ
  pub offset : ℕ

-- `datetime.min`
abbrev pub datetime_min : Datetime
datetime_min = record { wall = 0; tzinfo = none }

-- The member of `Enum` that a column, which may be NULL, holds.
abbrev pub column_member : {A : Type 0} → (String → Option A) → Option String → Option A
column_member member none = none
column_member member (some s) = member s

module _ (p : Platform) (row : TaskHistory) where
  abbrev config_of : Option TriggerType → Result TriggerConfig
  config_of (some cron) =
      ok (cron_trigger_config (or_text row.cron_expression "") (or_text row.cron_timezone "UTC"))
  config_of (some interval) = ok (interval_trigger_config (get_or row.interval_seconds (pos 0)))
  config_of (some once) =
      ok (once_trigger_config (p.isoformat (get_or row.once_run_at datetime_min)))
  config_of none = err (value_error "Unsupported trigger type")

  -- `_trigger_config_from_row`
  unfoldable pub trigger_config_from_row : Result TriggerConfig
  trigger_config_from_row = config_of (column_member trigger_member row.trigger_type)

  -- The field `trigger_type` of a model: a column that holds no member is refused.
  abbrev trigger_type_from_row : Result TriggerType
  trigger_type_from_row = elim (column_member trigger_member row.trigger_type) [
    | none ↦ err (validation_error "Input should be 'once', 'cron' or 'interval'")
    | some k ↦ ok k
  ]

  abbrev source_from_row : Result ExecutionSource
  source_from_row = elim (column_member source_member row.execution_source) [
    | none ↦ err (validation_error "Input should be 'scheduled' or 'manual'")
    | some source ↦ ok source
  ]

  abbrev pub entry_base : HistoryEntryBase
  entry_base = record {
    id = p.str_uuid row.id;
    task_id = p.str_uuid row.task_id;
    created_at = row.created_at;
  }

  abbrev pub snapshot_entry :
      (HistoryEntryBase → String → TriggerType → TriggerConfig → HistoryEntry) → Result HistoryEntry
  snapshot_entry model = do
    config ← trigger_config_from_row
    trigger_type ← trigger_type_from_row
    ok (model entry_base (or_text row.webhook_url "") trigger_type config)

  abbrev entry_of : Option TaskHistoryEventType → Result HistoryEntry
  entry_of (some task_created) = snapshot_entry task_created_entry
  entry_of (some task_activated) = ok (task_activated_entry entry_base)
  entry_of (some task_deactivated) = ok (task_deactivated_entry entry_base)
  entry_of (some task_deleted) = snapshot_entry task_deleted_entry
  entry_of (some execution) = do
    source ← source_from_row
    ok (
        execution_entry entry_base (record {
          http_status = row.http_status;
          error_message = row.error_message;
          success = get_or row.success false;
          execution_source = source;
          webhook_url = or_text row.webhook_url "";
        }))
  entry_of none = err (value_error "Unsupported event type")

  -- `entry_from_row`
  unfoldable pub entry_from_row : Result HistoryEntry
  unfolding trigger_config_from_row
  entry_from_row = entry_of (event_member row.event_type)
