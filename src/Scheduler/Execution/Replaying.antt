-- ===== src/Scheduler/Execution/Replaying.antt =====
-- A scheduled run leaves tables that agree with their history.
use mathlib.Core.Path.{subst}
use schedualerl_lm.Base.{◌≡◌, refl, sym, true, Option, none, some, ◌==◌, find, Bool-cases, inl, inr}
use schedualerl_lm.Auth.Jwt.{Jwt}
use schedualerl_lm.Db.Models.{ScheduledTask}
use schedualerl_lm.Db.Session.{Tables}
use schedualerl_lm.Db.Session.AllRows.{has_id}
use schedualerl_lm.Python.Datetime.{Datetime}
use schedualerl_lm.Python.Platform.{Platform, Uuid, UuidRereads}
use schedualerl_lm.Python.Result.{Result, ok, err}
use schedualerl_lm.Routes.Requests.Running.{find-has_id_self}
use schedualerl_lm.Scheduler.Execution.{execute_scheduled_task}
use schedualerl_lm.Scheduler.Execution.Effects.{
  execute_scheduled_task_lem, executed, fired, removed,
}
use schedualerl_lm.Scheduler.Executor.{Executor}
use schedualerl_lm.Scheduler.Executor.Outcomes.{outcome_for}
use schedualerl_lm.Scheduler.Service.{Schedules}
use schedualerl_lm.Schemas.Execution.{WebhookFireOutcome}
use schedualerl_lm.Services.TaskHistory.Recorded.{
  once_run-IsConsistent, recurring_run-IsConsistent, failed_run-IsConsistent,
}
use schedualerl_lm.Services.TaskHistory.Replay.{IsConsistent}

module _ (p : Platform) (jwt : Jwt) (ex : Executor) {Trigger : Type 0} (sch : Schedules Trigger)
    (history_id : Uuid) (now : Datetime) (t : Tables) (store : sch.Store) (h : IsConsistent t) where
  removed-IsConsistent :
      (task : ScheduledTask) (o : WebhookFireOutcome) (r : Result sch.Store)
      → find (has_id task.id) t.tasks ≡ some task
      → o.success ≡ true
      → (task.trigger_type == "once") ≡ true
      → IsConsistent (removed p jwt ex sch history_id now t store task o r).1
  removed-IsConsistent task o (ok store') found success once = rw success (
      once_run-IsConsistent t history_id now task.user_id task task.webhook_url o.http_status
        o.error_message found once h)
  removed-IsConsistent task o (err e) found success once = rw success (
      once_run-IsConsistent t history_id now task.user_id task task.webhook_url o.http_status
        o.error_message found once h)

  fired-IsConsistent :
      (task : ScheduledTask) (r : Result WebhookFireOutcome)
      → find (has_id task.id) t.tasks ≡ some task
      → IsConsistent (fired p jwt ex sch history_id now t store task r).1
  fired-IsConsistent task (err e) found = h
  fired-IsConsistent task (ok o) found = elim (Bool-cases o.success) [
    | inl success ↦ elim (Bool-cases (task.trigger_type == "once")) [
      | inl once ↦
          simp (success, once)
            (removed-IsConsistent task o (sch.remove_schedule store (p.str_uuid task.id)) found
              success once)
      | inr many ↦
          simp (success, many)
            ((recurring_run-IsConsistent t history_id now task.user_id task task.webhook_url
              o.http_status o.error_message found many h))
    ]
    | inr failed ↦ simp failed (
        (failed_run-IsConsistent t history_id now task.user_id task.id task.webhook_url
          o.http_status o.error_message h))
  ]

  executed-IsConsistent :
      (found : Option ScheduledTask)
      → ((task : ScheduledTask) → found ≡ some task → find (has_id task.id) t.tasks ≡ some task)
      → IsConsistent (executed p jwt ex sch history_id now t store found).1
  executed-IsConsistent none k = h
  executed-IsConsistent (some task) k = elim (Bool-cases task.is_active) [
    | inl active ↦
        simp active (fired-IsConsistent task (outcome_for p jwt ex now task) (k task refl))
    | inr paused ↦ simp paused h
  ]

  pub execute_scheduled_task-IsConsistent :
      (id : Uuid)
      → UuidRereads p id
      → IsConsistent
          (execute_scheduled_task p jwt sch
            (some ex)
            history_id
            now
            (p.str_uuid id)
            t
            store).session.committed
  execute_scheduled_task-IsConsistent id reread =
      subst (λ x. IsConsistent x.1)
        (sym (execute_scheduled_task_lem p jwt ex sch history_id now t store id reread))
        (executed-IsConsistent (find (has_id id) t.tasks)
          (λ task found. find-has_id_self id t.tasks found))
