-- ===== src/Tests/Services.antt =====
-- The theorems on history rows, at concrete ones.
use schedualerl_lm.Base.{refl, ◌≡◌, true, none, some, inl}
use schedualerl_lm.Db.Migrations.{task_history_event_shape}
use schedualerl_lm.Python.Platform.{expand_z}
use schedualerl_lm.Enums.{task_created, task_activated, manual}
use schedualerl_lm.Services.TaskHistory.{
  trigger_columns, once_column, snapshot_row, lifecycle_row, execution_row,
}
use schedualerl_lm.Services.TaskHistory.Accepted.{IsAccepted, rows-IsAccepted}
use schedualerl_lm.Db.Schema.Rows.{settings_of}
use schedualerl_lm.Enums.{once}
use schedualerl_lm.Python.Datetime.{with_offset}
use schedualerl_lm.Python.Result.{ok, is_ok, ◌>>=◌}
use schedualerl_lm.Schemas.History.{entry_from_row, task_created_entry}
use schedualerl_lm.Schemas.History.Entries.{entry_from_row-HasShape}
use schedualerl_lm.Schemas.Tasks.{once_trigger}
use schedualerl_lm.Scheduler.Triggers.{trigger_config_from_spec}
use schedualerl_lm.Services.TaskHistory.Reading.{shown_config, entry_from_row-created}
use schedualerl_lm.Tests.{platform, clock, tomorrow, once_task}

rows-IsAccepted_example :
    IsAccepted
      (settings_of none true)
      (snapshot_row platform 21 clock "ann" once_task task_created (once_column tomorrow))
    × IsAccepted (settings_of none true) (lifecycle_row 21 clock "ann" 7 task_activated)
    × IsAccepted
        (settings_of none true)
        (execution_row 21 clock "ann" 7 manual "https://a.test/hook" true (some 200) none)
unfolding trigger_columns expand_z
rows-IsAccepted_example =
    rows-IsAccepted (settings_of none true) platform 21 clock "ann" once_task task_created
      task_activated (once_column tomorrow) manual true (some 200) none (inl refl) refl (inl refl)
      (λ e. refl)

entry_from_row-HasShape_example :
    is_ok (entry_from_row platform (lifecycle_row 21 clock "ann" 7 task_activated)) ≡ true
unfolding task_history_event_shape
entry_from_row-HasShape_example =
    entry_from_row-HasShape platform (lifecycle_row 21 clock "ann" 7 task_activated) refl
      (λ s e. absurd cc)

entry_from_row-created_example :
    (trigger_columns platform once_task.trigger_type once_task.trigger_config >>= λ columns.
    entry_from_row platform (snapshot_row platform 21 clock "ann" once_task task_created columns))
    ≡ ok (
        task_created_entry
          (record { id = platform.str_uuid 21; task_id = platform.str_uuid 7; created_at = clock })
          "https://a.test/hook"
          once
          (shown_config platform (once_trigger tomorrow)))
unfolding expand_z trigger_config_from_spec with_offset
entry_from_row-created_example =
    entry_from_row-created platform once_task (once_trigger tomorrow) 21 clock "ann" refl refl
      (refl, refl) (record { stored_type = refl; stored_config = refl })
