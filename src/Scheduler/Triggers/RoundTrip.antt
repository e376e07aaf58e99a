-- ===== src/Scheduler/Triggers/RoundTrip.antt =====
-- What `trigger_config_from_spec` stores, `_task_to_trigger_spec` reads back.
use schedualerl_lm.Base.{◌≡◌, true, arith}
use schedualerl_lm.Enums.{trigger_value}
use schedualerl_lm.Base.Int.{is_positive}
use schedualerl_lm.Db.Models.{ScheduledTask}
use schedualerl_lm.Python.Datetime.{default_utc, with_offset}
use schedualerl_lm.Python.Platform.{Platform, IsoRereads}
use schedualerl_lm.Python.Result.{ok}
use schedualerl_lm.Schemas.Tasks.{
  StructuredTriggerSpec, once_trigger, cron_trigger_spec, interval_trigger_spec, spec_type,
  model_dump,
}
use schedualerl_lm.Scheduler.Triggers.{task_to_trigger_spec, trigger_config_from_spec}

module _ (p : Platform) where
  -- What the validators of a specification accept, and that its datetime has a text.
  abbrev pub IsValidSpec : StructuredTriggerSpec → Type 0
  IsValidSpec (once_trigger run_at) = IsoRereads p (default_utc run_at)
  IsValidSpec (cron_trigger_spec expression tz) = p.zones.known tz ≡ true
  IsValidSpec (interval_trigger_spec seconds) = is_positive seconds ≡ true

  -- The specification that is read back: a datetime has its zone as a numeric offset.
  abbrev pub reread_spec : StructuredTriggerSpec → StructuredTriggerSpec
  reread_spec (once_trigger run_at) = once_trigger (with_offset p.zones (default_utc run_at))
  reread_spec (cron_trigger_spec expression tz) = cron_trigger_spec expression tz
  reread_spec (interval_trigger_spec seconds) = interval_trigger_spec seconds

  -- The row holds the specification.
  pub record Stores (task : ScheduledTask) (spec : StructuredTriggerSpec) : Type 0 where
    pub stored_type : task.trigger_type ≡ trigger_value (spec_type spec)
    pub stored_config : task.trigger_config ≡ model_dump (trigger_config_from_spec p spec)

  -- From a row that stores a valid specification, `_task_to_trigger_spec` reads that specification
  -- back; a once trigger's datetime comes back in UTC if it was naive, and with its zone as a
  -- numeric offset.
  pub task_to_trigger_spec-stored :
      (task : ScheduledTask) (spec : StructuredTriggerSpec)
      → IsValidSpec spec
      → Stores task spec
      → task_to_trigger_spec p task ≡ ok (reread_spec spec)
  unfolding task_to_trigger_spec trigger_config_from_spec
  task_to_trigger_spec-stored task (once_trigger run_at) v s =
      rw (s.stored_type, s.stored_config) (ground arith)
  task_to_trigger_spec-stored task (cron_trigger_spec expression tz) v s =
      rw (s.stored_type, s.stored_config) (ground arith)
  task_to_trigger_spec-stored task (interval_trigger_spec seconds) v s =
      rw (s.stored_type, s.stored_config) (ground arith)
