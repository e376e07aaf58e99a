-- ===== src/Services/TaskHistory/Shape.antt =====
-- The rows that the service builds have the shape that the table's check constraint wants.
use schedualerl_lm.Base.Int.{fits_integer}
use schedualerl_lm.Base.{
  ◌≡◌, refl, ◌⊎◌, inl, inr, ℕ, String, Bool, true, false, Option, none, some, arith, eq_iff,
  Bool-cases, is_some, Option-cases,
}
use schedualerl_lm.Db.Migrations.{task_history_event_shape}
use schedualerl_lm.Db.Models.{ScheduledTask}
use schedualerl_lm.Enums.{
  TaskHistoryEventType, task_created, task_deleted, task_activated, task_deactivated,
  ExecutionSource, trigger_member, trigger_value, TriggerType, once, cron, interval,
}
use schedualerl_lm.Python.Datetime.{Datetime}
use schedualerl_lm.Python.Dict.{Dict, Value, text, number, stamp, get_item, get_default}
use schedualerl_lm.Python.Platform.{Platform, Uuid}
use schedualerl_lm.Python.Result.{ok, >>=-eq-ok}
use schedualerl_lm.Services.TaskHistory.{
  TriggerColumns, trigger_columns, cron_columns, interval_columns, once_columns, columns_of,
  snapshot_row, lifecycle_row, execution_row,
}

-- An event that takes a snapshot of the task.
abbrev pub IsSnapshot : TaskHistoryEventType → Type 0
IsSnapshot e = (e ≡ task_created) ⊎ (e ≡ task_deleted)

abbrev pub IsLifecycle : TaskHistoryEventType → Type 0
IsLifecycle e = (e ≡ task_activated) ⊎ (e ≡ task_deactivated)

-- The history row of an activation or a deactivation satisfies the check constraint of the table.
pub lifecycle_row-shape :
    (id : Uuid) (now : Datetime) (user : String) (task_id : Uuid) (e : TaskHistoryEventType)
    → IsLifecycle e
    → task_history_event_shape (lifecycle_row id now user task_id e) ≡ true
unfolding task_history_event_shape
lifecycle_row-shape id now user task_id task_activated h = refl
lifecycle_row-shape id now user task_id task_deactivated h = refl
lifecycle_row-shape id now user task_id _ h = ground arith

-- The history row of an execution satisfies the check constraint of the table, if a success comes
-- with a status.
pub execution_row-shape :
    (id : Uuid) (now : Datetime) (user : String) (task_id : Uuid) (source : ExecutionSource)
    (url : String) (success : Bool) (status : Option ℕ) (message : Option String)
    → (success ≡ true → is_some status ≡ true)
    → task_history_event_shape (execution_row id now user task_id source url success status message)
      ≡ true
unfolding task_history_event_shape
execution_row-shape id now user task_id source url false status message h = refl
execution_row-shape id now user task_id source url true status message h = rw (h refl)

-- The columns that a trigger type fills, and no others.
abbrev pub Fits : TriggerType → TriggerColumns → Type 0
Fits cron c =
    (is_some c.cron_expression ≡ true)
    × (is_some c.cron_timezone ≡ true)
    × (c.interval_seconds ≡ none)
    × (c.once_run_at ≡ none)
Fits interval c =
    (is_some c.interval_seconds ≡ true)
    × (c.cron_expression ≡ none)
    × (c.cron_timezone ≡ none)
    × (c.once_run_at ≡ none)
Fits once c =
    (is_some c.once_run_at ≡ true)
    × (c.cron_expression ≡ none)
    × (c.cron_timezone ≡ none)
    × (c.interval_seconds ≡ none)

cron_columns-Fits : (v w : Value) (c : TriggerColumns) → cron_columns v w ≡ ok c → Fits cron c
cron_columns-Fits (text e) (text z) c h = ground arith
cron_columns-Fits v w c h = ground arith

interval_columns-Fits :
    (v : Value) (c : TriggerColumns) → interval_columns v ≡ ok c → Fits interval c
interval_columns-Fits (number n) c h = elim (Bool-cases (fits_integer n)) [
  | inl fits ↦ ground arith
  | inr large ↦ ground arith
]
interval_columns-Fits _ c h = ground arith

trigger_value_of_member :
    (s : String) (k : TriggerType) → trigger_member s ≡ some k → s ≡ trigger_value k
trigger_value_of_member s once h =
    ground (arith, eq_iff s "once", eq_iff s "cron", eq_iff s "interval")
trigger_value_of_member s cron h =
    ground (arith, eq_iff s "once", eq_iff s "cron", eq_iff s "interval")
trigger_value_of_member s interval h =
    ground (arith, eq_iff s "once", eq_iff s "cron", eq_iff s "interval")

module _ (p : Platform) where
  once_columns-Fits : (v : Value) (c : TriggerColumns) → once_columns p v ≡ ok c → Fits once c
  once_columns-Fits (text s) c h = ground arith
  once_columns-Fits (stamp d) c h = ground arith
  once_columns-Fits (number n) c h = ground arith

  columns_of-Fits :
      (k : TriggerType) (config : Dict) (c : TriggerColumns)
      → columns_of p (some k) config ≡ ok c
      → Fits k c
  columns_of-Fits once config c h =
      let (v, _, e) = >>=-eq-ok (get_item config "run_at") (once_columns p) h in
      once_columns-Fits v c e
  columns_of-Fits cron config c h =
      let zone = get_default config "timezone" (text "UTC") in
      let (v, _, e) = >>=-eq-ok (get_item config "expression") (λ x. cron_columns x zone) h in
      cron_columns-Fits v zone c e
  columns_of-Fits interval config c h =
      let (v, _, e) = >>=-eq-ok (get_item config "seconds") interval_columns h in
      interval_columns-Fits v c e

  fitting_row-shape :
      (id : Uuid) (now : Datetime) (user : String) (task : ScheduledTask) (e : TaskHistoryEventType)
      (k : TriggerType) (c : TriggerColumns)
      → IsSnapshot e
      → task.trigger_type ≡ trigger_value k
      → Fits k c
      → task_history_event_shape (snapshot_row p id now user task e c) ≡ true
  unfolding task_history_event_shape
  fitting_row-shape id now user task task_created once c s t f = rw t (ground arith)
  fitting_row-shape id now user task task_created cron c s t f = rw t (ground arith)
  fitting_row-shape id now user task task_created interval c s t f = rw t (ground arith)
  fitting_row-shape id now user task task_deleted once c s t f = rw t (ground arith)
  fitting_row-shape id now user task task_deleted cron c s t f = rw t (ground arith)
  fitting_row-shape id now user task task_deleted interval c s t f = rw t (ground arith)
  fitting_row-shape id now user task _ k c s t f = ground arith

  -- The history row of a created or deleted task whose trigger columns could be read satisfies the
  -- check constraint of the table.
  pub snapshot_row-shape :
      (id : Uuid) (now : Datetime) (user : String) (task : ScheduledTask) (e : TaskHistoryEventType)
      (columns : TriggerColumns)
      → IsSnapshot e
      → trigger_columns p task.trigger_type task.trigger_config ≡ ok columns
      → task_history_event_shape (snapshot_row p id now user task e columns) ≡ true
  unfolding trigger_columns
  snapshot_row-shape id now user task e columns s h =
      elim (Option-cases (trigger_member task.trigger_type)) [
        | inl other ↦ absurd (ground arith)
        | inr (k, found) ↦
            fitting_row-shape id now user task e k columns s
              (trigger_value_of_member task.trigger_type k found)
              (columns_of-Fits k task.trigger_config columns (rw found at h))
      ]
