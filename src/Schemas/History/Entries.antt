-- ===== src/Schemas/History/Entries.antt =====
-- Reading a row of the history.
use schedualerl_lm.Base.{
  ◌≡◌, refl, true, false, String, none, some, arith, eq_iff, Option-cases, inl, inr, is_some,
}
use schedualerl_lm.Db.Migrations.{task_history_event_shape, trigger_columns_match}
use schedualerl_lm.Db.Models.{TaskHistory}
use schedualerl_lm.Enums.{
  TaskHistoryEventType, task_created, task_activated, task_deactivated, task_deleted, execution,
  event_value, event_member, ExecutionSource, scheduled, manual, source_value, source_member,
  TriggerType, once, cron, interval, trigger_member,
}
use schedualerl_lm.Python.Platform.{Platform}
use schedualerl_lm.Python.Result.{is_ok}
use schedualerl_lm.Schemas.History.{
  HistoryEntry, HistoryEntryBase, task_created_entry, task_deleted_entry, entry_from_row,
  trigger_config_from_row, snapshot_entry, column_member,
}
use schedualerl_lm.Schemas.Tasks.{TriggerConfig}

-- A source, if there is one, is a member of `ExecutionSource`.
abbrev pub HasSource : TaskHistory → Type 0
HasSource row =
    (s : String) → row.execution_source ≡ some s → (k : ExecutionSource) × (s ≡ source_value k)

source_member_of_value : (k : ExecutionSource) → source_member (source_value k) ≡ some k
source_member_of_value scheduled = refl
source_member_of_value manual = refl

event_value_of_member :
    (s : String) (k : TaskHistoryEventType) → event_member s ≡ some k → s ≡ event_value k
event_value_of_member s task_created h = ground (
  arith,
  eq_iff s "task_created",
  eq_iff s "task_activated",
  eq_iff s "task_deactivated",
  eq_iff s "task_deleted",
  eq_iff s "execution",
)
event_value_of_member s task_activated h = ground (
  arith,
  eq_iff s "task_created",
  eq_iff s "task_activated",
  eq_iff s "task_deactivated",
  eq_iff s "task_deleted",
  eq_iff s "execution",
)
event_value_of_member s task_deactivated h = ground (
  arith,
  eq_iff s "task_created",
  eq_iff s "task_activated",
  eq_iff s "task_deactivated",
  eq_iff s "task_deleted",
  eq_iff s "execution",
)
event_value_of_member s task_deleted h = ground (
  arith,
  eq_iff s "task_created",
  eq_iff s "task_activated",
  eq_iff s "task_deactivated",
  eq_iff s "task_deleted",
  eq_iff s "execution",
)
event_value_of_member s execution h = ground (
  arith,
  eq_iff s "task_created",
  eq_iff s "task_activated",
  eq_iff s "task_deactivated",
  eq_iff s "task_deleted",
  eq_iff s "execution",
)

-- The trigger type of a snapshot is a member of `TriggerType`.
trigger_columns_match-member :
    (row : TaskHistory)
    → trigger_columns_match row ≡ true
    → is_some (column_member trigger_member row.trigger_type) ≡ true
trigger_columns_match-member row h = ground arith

unknown_event :
    (row : TaskHistory) → event_member row.event_type ≡ none → task_history_event_shape row ≡ false
unfolding task_history_event_shape
unknown_event row h = ground arith

-- What the constraint says of a row, by its event.
abbrev Readable : TaskHistoryEventType → TaskHistory → Type 0
Readable task_created row = is_some (column_member trigger_member row.trigger_type) ≡ true
Readable task_deleted row = is_some (column_member trigger_member row.trigger_type) ≡ true
Readable execution row = is_some row.execution_source ≡ true
Readable _ row = Unit

HasShape-Readable :
    (row : TaskHistory) (k : TaskHistoryEventType)
    → row.event_type ≡ event_value k
    → task_history_event_shape row ≡ true
    → Readable k row
unfolding task_history_event_shape
HasShape-Readable row task_created e h =
    let fits = rw e at h in ground (arith, trigger_columns_match-member row)
HasShape-Readable row task_deleted e h =
    let fits = rw e at h in ground (arith, trigger_columns_match-member row)
HasShape-Readable row execution e h = let fits = rw e at h in ground arith
HasShape-Readable row task_activated e h = tt
HasShape-Readable row task_deactivated e h = tt

snapshot_entry-is_ok :
    (p : Platform) (row : TaskHistory)
    (model : HistoryEntryBase → String → TriggerType → TriggerConfig → HistoryEntry)
    → is_some (column_member trigger_member row.trigger_type) ≡ true
    → is_ok (snapshot_entry p row model) ≡ true
unfolding trigger_config_from_row
snapshot_entry-is_ok p row model h =
    elim (Option-cases (column_member trigger_member row.trigger_type)) [
      | inl no_type ↦ absurd (ground arith)
      | inr (once, member) ↦ rw member (rw (member, is_ok))
      | inr (cron, member) ↦ rw member (rw (member, is_ok))
      | inr (interval, member) ↦ rw member (rw (member, is_ok))
    ]

source_of :
    (row : TaskHistory) {s : String} {k : ExecutionSource}
    → row.execution_source ≡ some s
    → s ≡ source_value k
    → column_member source_member row.execution_source ≡ some k
source_of row {s} {k} given same = rw (given, same) (source_member_of_value k)

Readable-is_ok :
    (p : Platform) (row : TaskHistory) (k : TaskHistoryEventType)
    → event_member row.event_type ≡ some k
    → Readable k row
    → HasSource row
    → is_ok (entry_from_row p row) ≡ true
unfolding entry_from_row
Readable-is_ok p row task_created e r source =
    rw e (snapshot_entry-is_ok p row task_created_entry r)
Readable-is_ok p row task_deleted e r source =
    rw e (snapshot_entry-is_ok p row task_deleted_entry r)
Readable-is_ok p row execution e r source = elim (Option-cases row.execution_source) [
  | inl missing ↦ absurd (ground arith)
  | inr (s, given) ↦ let (k, same) = source s given in rw e (rw (source_of row given same, is_ok))
]
Readable-is_ok p row task_activated e r source = rw e
Readable-is_ok p row task_deactivated e r source = rw e

-- A row that satisfies the check constraint, with no source or a known one, can always be read as
-- an entry.
pub entry_from_row-HasShape :
    (p : Platform) (row : TaskHistory)
    → task_history_event_shape row ≡ true
    → HasSource row
    → is_ok (entry_from_row p row) ≡ true
entry_from_row-HasShape p row shape source = elim (Option-cases (event_member row.event_type)) [
  | inl unknown ↦ absurd (ground (arith, unknown_event row unknown))
  | inr (k, member) ↦
      Readable-is_ok p row k member
        (HasShape-Readable row k (event_value_of_member row.event_type k member) shape) source
]
