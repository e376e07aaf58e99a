-- ===== src/Services/TaskHistory/Columns.antt =====
-- The columns of the history that a stored trigger fills.
use schedualerl_lm.Base.{◌≡◌, true, none, some}
use schedualerl_lm.Base.Int.{fits_integer}
use schedualerl_lm.Db.Models.{ScheduledTask}
use schedualerl_lm.Python.Datetime.{Datetime, default_utc, with_offset}
use schedualerl_lm.Python.Dict.{text}
use schedualerl_lm.Python.Platform.{Platform, IsoHasNoZ, IsoRereads}
use schedualerl_lm.Python.Result.{ok}
use schedualerl_lm.Schemas.Tasks.{
  StructuredTriggerSpec, once_trigger, cron_trigger_spec, interval_trigger_spec,
}
use schedualerl_lm.Scheduler.Triggers.{trigger_config_from_spec}
use schedualerl_lm.Scheduler.Triggers.RoundTrip.{Stores}
use schedualerl_lm.Services.TaskHistory.{
  TriggerColumns, trigger_columns, once_column, once_columns, interval_column,
}

module _ (p : Platform) where
  -- The history can hold the trigger: an interval fits its column, and the text of a once trigger's
  -- datetime reads back and has no `Z`.
  abbrev pub IsRecordable : StructuredTriggerSpec → Type 0
  IsRecordable (once_trigger run_at) =
      IsoHasNoZ p (default_utc run_at) × IsoRereads p (default_utc run_at)
  IsRecordable (cron_trigger_spec expression tz) = Unit
  IsRecordable (interval_trigger_spec seconds) = fits_integer seconds ≡ true

  -- The columns, read off the specification.
  abbrev pub columns_from_spec : StructuredTriggerSpec → TriggerColumns
  columns_from_spec (once_trigger run_at) = once_column (with_offset p.zones (default_utc run_at))
  columns_from_spec (cron_trigger_spec expression tz) = record {
    cron_expression = some expression;
    cron_timezone = some tz;
    interval_seconds = none;
    once_run_at = none;
  }
  columns_from_spec (interval_trigger_spec seconds) = interval_column seconds

  once_columns-isoformat :
      (d : Datetime)
      → IsoHasNoZ p d
      → IsoRereads p d
      → once_columns p (text (p.isoformat d)) ≡ ok (once_column (with_offset p.zones d))
  once_columns-isoformat d z valid = rw (once_columns, z, valid)

  -- A task that stores such a trigger has these columns.
  pub trigger_columns-stored :
      (task : ScheduledTask) (spec : StructuredTriggerSpec)
      → IsRecordable spec
      → Stores p task spec
      → trigger_columns p task.trigger_type task.trigger_config ≡ ok (columns_from_spec spec)
  unfolding trigger_columns trigger_config_from_spec
  trigger_columns-stored task (once_trigger run_at) r s =
      rw (s.stored_type, s.stored_config, once_columns-isoformat (default_utc run_at) r.0 r.1)
  trigger_columns-stored task (cron_trigger_spec expression tz) r s =
      rw (s.stored_type, s.stored_config)
  trigger_columns-stored task (interval_trigger_spec seconds) r s =
      rw (s.stored_type, s.stored_config) (simp r)
