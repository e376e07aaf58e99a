-- ===== src/Services/TaskHistory/Reading.antt =====
-- A recorded snapshot, read back as an entry of the history.
use schedualerl_lm.Base.{
  ◌≡◌, ap, Bool-cases, inl, inr, true, false, String, some, ◌==◌, or_text, arith, eq_iff,
}
use schedualerl_lm.Db.Models.{ScheduledTask}
use schedualerl_lm.Enums.{task_created}
use schedualerl_lm.Python.Datetime.{Datetime, default_utc, with_offset, to_utc}
use schedualerl_lm.Python.Platform.{Platform, Uuid}
use schedualerl_lm.Python.Result.{ok, ◌>>=◌}
use schedualerl_lm.Schemas.History.{task_created_entry, entry_from_row, trigger_config_from_row}
use schedualerl_lm.Schemas.Tasks.{
  StructuredTriggerSpec, once_trigger, cron_trigger_spec, interval_trigger_spec, spec_type,
  TriggerConfig, once_trigger_config, cron_trigger_config, interval_trigger_config,
}
use schedualerl_lm.Scheduler.Triggers.RoundTrip.{IsValidSpec, Stores}
use schedualerl_lm.Services.TaskHistory.Columns.{IsRecordable, trigger_columns-stored}
use schedualerl_lm.Services.TaskHistory.{trigger_columns, snapshot_row}

or_text_empty : (s : String) → or_text (some s) "" ≡ s
or_text_empty s = ground (arith, eq_iff s "")

module _ (p : Platform) where
  -- The configuration that the history shows: a once trigger's datetime in UTC.
  abbrev pub shown_config : StructuredTriggerSpec → TriggerConfig
  shown_config (once_trigger run_at) =
      once_trigger_config (p.isoformat (to_utc p.zones (with_offset p.zones (default_utc run_at))))
  shown_config (cron_trigger_spec expression tz) = cron_trigger_config expression tz
  shown_config (interval_trigger_spec seconds) = interval_trigger_config seconds

  -- A zone that is known has a name.
  named :
      (tz : String)
      → p.zones.known "" ≡ false
      → p.zones.known tz ≡ true
      → or_text (some tz) "UTC" ≡ tz
  named tz unnamed known = elim (Bool-cases (tz == "")) [
    | inl empty ↦
        let same : tz ≡ "" = (eq_iff tz "").0 empty in
        absurd (ground (arith, ap p.zones.known same))
    | inr filled ↦ rw filled
  ]

  -- The row that the creation of a task records reads back as a created entry with the task's
  -- address, trigger type and configuration; a once trigger's time is shown in UTC. The task
  -- stores a valid specification that the history can hold: an interval fits its column of 32
  -- bits, and the text of a datetime reads back and has no `Z`; and no time zone has the empty
  -- name.
  pub entry_from_row-created :
      (task : ScheduledTask) (spec : StructuredTriggerSpec) (id : Uuid) (now : Datetime)
      (user_id : String)
      → p.zones.known "" ≡ false
      → IsValidSpec p spec
      → IsRecordable p spec
      → Stores p task spec
      → (trigger_columns p task.trigger_type task.trigger_config >>= λ columns.
          entry_from_row p (snapshot_row p id now user_id task task_created columns))
        ≡ ok (
            task_created_entry
              (record { id = p.str_uuid id; task_id = p.str_uuid task.id; created_at = now })
              task.webhook_url
              (spec_type spec)
              (shown_config spec))
  unfolding entry_from_row trigger_config_from_row
  entry_from_row-created task (once_trigger run_at) id now user_id unnamed valid r s = rw (
    trigger_columns-stored p task (once_trigger run_at) r s,
    s.stored_type,
    or_text_empty task.webhook_url,
  )
  entry_from_row-created task (cron_trigger_spec expression tz) id now user_id unnamed valid r s =
      rw (
        trigger_columns-stored p task (cron_trigger_spec expression tz) r s,
        s.stored_type,
        or_text_empty task.webhook_url,
        or_text_empty expression,
        named tz unnamed valid,
      )
  entry_from_row-created task (interval_trigger_spec seconds) id now user_id unnamed valid r s =
      rw (
        trigger_columns-stored p task (interval_trigger_spec seconds) r s,
        s.stored_type,
        or_text_empty task.webhook_url,
      )
