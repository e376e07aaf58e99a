-- ===== src/Db/Schema/EventShape.antt =====
-- The constraint `task_history_event_shape` in SQL's logic, and the test of the models.
use schedualerl_lm.Base.{
  Bool, false, ◌&&◌, ◌||◌, Option, none, some, ◌≡◌, refl, or-false, or_assoc, and_assoc, ap, sym,
  is_some, Option-cases, inl, inr, ◌==◌,
}
use schedualerl_lm.Db.Models.{TaskHistory}
use schedualerl_lm.Db.Migrations.{
  is_null as not_set, trigger_columns_match, no_trigger_columns, success_has_status,
  task_history_event_shape,
}
use schedualerl_lm.Db.Schema.Expression.{sql_and, Cell, Settings, eval}
use schedualerl_lm.Db.Schema.Revisions.TaskHistory.{
  snapshot_condition, lifecycle_condition, execution_condition, event_shape,
}
use schedualerl_lm.Db.Schema.Rows.{nullable, history_row}

sql_and-false : (o : Option Bool) → sql_and (some false) o ≡ some false
sql_and-false none = refl
sql_and-false (some b) = refl

is_some-nullable {ℓ} :
    {A : Type ℓ} (f : A → Cell) (o : Option A) → is_some (nullable f o) ≡ is_some o
is_some-nullable f none = refl
is_some-nullable f (some a) = refl

ruleset logic = (sql_and-false, is_some-nullable, or-false, and_assoc, or_assoc)

-- The three disjuncts of the constraint.
abbrev snapshot_shape : TaskHistory → Bool
snapshot_shape row =
    ((row.event_type == "task_created" || row.event_type == "task_deleted")
      && is_some row.webhook_url
      && is_some row.trigger_type
      && not_set row.execution_source
      && not_set row.http_status
      && not_set row.error_message
      && not_set row.success
      && trigger_columns_match row)

abbrev lifecycle_shape : TaskHistory → Bool
lifecycle_shape row =
    ((row.event_type == "task_activated" || row.event_type == "task_deactivated")
      && not_set row.webhook_url
      && not_set row.trigger_type
      && no_trigger_columns row
      && not_set row.execution_source
      && not_set row.http_status
      && not_set row.error_message
      && not_set row.success)

abbrev execution_shape : TaskHistory → Bool
execution_shape row =
    (row.event_type == "execution"
      && is_some row.webhook_url
      && is_some row.execution_source
      && is_some row.success
      && not_set row.trigger_type
      && no_trigger_columns row
      && success_has_status row)

module _ (settings : Settings) (row : TaskHistory) where
  eval-snapshot : eval settings (history_row row) snapshot_condition ≡ some (snapshot_shape row)
  unfolding eval
  eval-snapshot = elim (Option-cases row.trigger_type) [
    | inl missing ↦ rw missing (simp logic)
    | inr (t, found) ↦ rw found (simp logic)
  ]

  eval-lifecycle : eval settings (history_row row) lifecycle_condition ≡ some (lifecycle_shape row)
  unfolding eval
  eval-lifecycle = simp logic

  eval-execution : eval settings (history_row row) execution_condition ≡ some (execution_shape row)
  unfolding eval
  eval-execution = elim (Option-cases row.success) [
    | inl missing ↦ rw missing (simp logic)
    | inr (t, found) ↦ rw found (simp logic)
  ]

  -- In SQL's three-valued logic the check constraint of the migration is never unknown, and it is
  -- true of exactly the rows that the test of the session model lets through.
  pub eval-event_shape :
      eval settings (history_row row) event_shape.condition ≡ some (task_history_event_shape row)
  unfolding eval task_history_event_shape
  eval-event_shape =
      rw (eval-snapshot, eval-lifecycle, eval-execution)
        (ap some (sym (or_assoc (snapshot_shape row) (lifecycle_shape row) (execution_shape row))))
