-- ===== src/Services/TaskHistory/Accepted.antt =====
-- The rows that the service builds pass the check constraint as the migration writes it.
use schedualerl_lm.Base.{◌≡◌, ap, ◌∙◌, ℕ, String, Bool, true, Option, some, is_some}
use schedualerl_lm.Db.Models.{ScheduledTask, TaskHistory}
use schedualerl_lm.Db.Migrations.{task_history_event_shape}
use schedualerl_lm.Db.Schema.EventShape.{eval-event_shape}
use schedualerl_lm.Db.Schema.Expression.{Settings, eval}
use schedualerl_lm.Db.Schema.Revisions.TaskHistory.{event_shape}
use schedualerl_lm.Db.Schema.Rows.{history_row}
use schedualerl_lm.Enums.{TaskHistoryEventType, ExecutionSource}
use schedualerl_lm.Python.Datetime.{Datetime}
use schedualerl_lm.Python.Platform.{Platform, Uuid}
use schedualerl_lm.Python.Result.{ok}
use schedualerl_lm.Services.TaskHistory.{
  TriggerColumns, trigger_columns, snapshot_row, lifecycle_row, execution_row,
}
use schedualerl_lm.Services.TaskHistory.Shape.{
  IsSnapshot, IsLifecycle, snapshot_row-shape, lifecycle_row-shape, execution_row-shape,
}

module _ (settings : Settings) where
  -- The check constraint is true of the row.
  abbrev pub IsAccepted : TaskHistory → Type 0
  IsAccepted row = eval settings (history_row row) event_shape.condition ≡ some true

  shaped-IsAccepted : (row : TaskHistory) → task_history_event_shape row ≡ true → IsAccepted row
  shaped-IsAccepted row h = eval-event_shape settings row ∙ ap some h

  -- The check constraint of the migration is true of every row that the history service builds: of
  -- the row of a created or deleted task whose trigger columns could be read, of an activation or
  -- a deactivation, and of an execution in which a success comes with a status.
  pub rows-IsAccepted :
      (p : Platform) (id : Uuid) (now : Datetime) (user : String) (task : ScheduledTask)
      (kept changed : TaskHistoryEventType) (columns : TriggerColumns) (source : ExecutionSource)
      (success : Bool) (status : Option ℕ) (message : Option String)
      → IsSnapshot kept
      → trigger_columns p task.trigger_type task.trigger_config ≡ ok columns
      → IsLifecycle changed
      → (success ≡ true → is_some status ≡ true)
      → IsAccepted (snapshot_row p id now user task kept columns)
        × IsAccepted (lifecycle_row id now user task.id changed)
        × IsAccepted
            (execution_row id now user task.id source task.webhook_url success status message)
  rows-IsAccepted p id now user task kept changed columns source success status message s read l
        with_status =
      (
        shaped-IsAccepted (snapshot_row p id now user task kept columns)
            (snapshot_row-shape p id now user task kept columns s read),
        shaped-IsAccepted (lifecycle_row id now user task.id changed)
            (lifecycle_row-shape id now user task.id changed l),
        shaped-IsAccepted
            (execution_row id now user task.id source task.webhook_url success status message)
            (execution_row-shape id now user task.id source task.webhook_url success status message
              with_status),
      )
