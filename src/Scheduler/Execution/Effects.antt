-- ===== src/Scheduler/Execution/Effects.antt =====
-- What a scheduled run does to the tables, the schedules and the outside, branch by branch.
use schedualerl_lm.Base.{
  or_text, ◌≡◌, false, Option, none, some, List, [], ◌∷◌, ◌++◌, ◌==◌, find, if◌then◌else◌,
  Option-cases, Bool-cases, inl, inr,
}
use schedualerl_lm.Auth.Jwt.{Jwt}
use schedualerl_lm.Db.Models.{ScheduledTask}
use schedualerl_lm.Db.Session.{
  Tables, WebhookRequest, update_rows, set_row, ◌>>=◌, commit, rollback,
}
use schedualerl_lm.Db.Session.AllRows.{has_id, insert_history_all, update_task_all}
use schedualerl_lm.Enums.{scheduled}
use schedualerl_lm.Python.Datetime.{Datetime}
use schedualerl_lm.Python.Platform.{Platform, Uuid, UuidRereads}
use schedualerl_lm.Python.Result.{
  Exn, Result, ok, err, http_status_error, request_error, Result-cases,
}
use schedualerl_lm.Scheduler.Execution.{Run, execute_scheduled_task}
use schedualerl_lm.Scheduler.Executor.{
  Executor, webhook_request, raise_from_outcome, settle, execute_in_session, scheduled_session,
}
use schedualerl_lm.Scheduler.Executor.Outcomes.{
  outcome_for, outcome_of_reply-has_status, fire_task_webhook_lem, load_task_lem,
}
use schedualerl_lm.Scheduler.Service.{Schedules}
use schedualerl_lm.Schemas.Execution.{WebhookFireOutcome}
use schedualerl_lm.Services.TaskHistory.{execution_row, record_execution}
use schedualerl_lm.Services.TaskHistory.Shape.{execution_row-shape}

module _ (p : Platform) (jwt : Jwt) (ex : Executor) {Trigger : Type 0}
    (sch : Schedules Trigger) where
  -- How a run ended, the committed tables, the webhook requests, and the schedules.
  abbrev pub Executed : Type 0
  Executed = Result (Unit {0}) × Tables × List WebhookRequest × sch.Store

  abbrev pub executed_of : Run sch → Executed
  executed_of r = (r.outcome, r.session.committed, r.session.sent, r.store)

  -- The exception that a failed outcome becomes.
  abbrev pub failure : WebhookFireOutcome → Exn
  failure o = elim o.http_status [
    | some status ↦ http_status_error status (or_text o.error_message "Webhook failed")
    | none ↦ request_error (or_text o.error_message "Webhook request failed")
  ]

  module _ (history_id : Uuid) (now : Datetime) (t : Tables) (store : sch.Store) where
    -- The history with the row of the execution.
    abbrev pub recorded : ScheduledTask → WebhookFireOutcome → Tables
    recorded task o = record t {
      history =
          t.history
          ++ execution_row history_id now task.user_id task.id scheduled task.webhook_url o.success
              o.http_status o.error_message
            ∷ [];
    }

    abbrev pub removed : ScheduledTask → WebhookFireOutcome → Result sch.Store → Executed
    removed task o r =
        let after = record (recorded task o) {
          tasks = update_rows (has_id task.id) (set_row false none now) t.tasks;
        } in
        elim r [
          | ok store' ↦ (ok tt, after, webhook_request p jwt ex now task ∷ [], store')
          | err e ↦ (err e, after, webhook_request p jwt ex now task ∷ [], store)
        ]

    abbrev pub fired : ScheduledTask → Result WebhookFireOutcome → Executed
    fired task (err e) = (err e, t, webhook_request p jwt ex now task ∷ [], store)
    fired task (ok o) =
        if o.success
        then (if task.trigger_type == "once"
            then removed task o (sch.remove_schedule store (p.str_uuid task.id))
            else (ok tt, recorded task o, webhook_request p jwt ex now task ∷ [], store))
        else (err (failure o), recorded task o, webhook_request p jwt ex now task ∷ [], store)

    abbrev pub executed : Option ScheduledTask → Executed
    executed none = (ok tt, t, [], store)
    executed (some task) =
        if task.is_active then fired task (outcome_for p jwt ex now task) else (ok tt, t, [], store)

    -- What `execute_scheduled_task` of an initialised executor ends with, commits, sends and
    -- unschedules, for a task id whose text reads back: nothing happens for a missing or paused
    -- task; else one webhook goes out, an exception that the executor does not handle leaves the
    -- tables as they were, a failed outcome is committed to the history and raised, and a success
    -- is committed to the history and, for a once task, pauses the task and removes its schedule.
    pub execute_scheduled_task_lem :
        (id : Uuid)
        → UuidRereads p id
        → executed_of
            (execute_scheduled_task p jwt sch (some ex) history_id now (p.str_uuid id) t store)
          ≡ executed (find (has_id id) t.tasks)
    unfolding execute_scheduled_task scheduled_session execute_in_session settle ◌>>=◌ commit
        rollback record_execution raise_from_outcome
    execute_scheduled_task_lem id reread =
        rw (load_task_lem p jwt id t t [] reread) (elim (Option-cases (find (has_id id) t.tasks)) [
          | inl missing ↦ rw missing
          | inr (task, found) ↦ rw found (elim (Bool-cases task.is_active) [
            | inr paused ↦ simp paused
            | inl active ↦ simp active (
                rw fire_task_webhook_lem (elim (Result-cases (outcome_for p jwt ex now task)) [
                  | inl (e, failed) ↦ rw failed
                  | inr (o, done) ↦
                      rw
                        (
                          done,
                          insert_history_all t t _ _ (
                              execution_row-shape history_id now task.user_id task.id scheduled
                                task.webhook_url o.success o.http_status o.error_message
                                (outcome_of_reply-has_status ex.http_client _ o done)),
                        )
                        (elim (Bool-cases o.success) [
                          | inl success ↦
                              simp success (elim (Bool-cases (task.trigger_type == "once")) [
                                | inl once ↦ simp once (
                                    rw (update_task_all, once)
                                      (elim (Result-cases
                                        (sch.remove_schedule store (p.str_uuid task.id))) [
                                          | inl (e, raised) ↦ rw raised (simp success)
                                          | inr (store', gone) ↦ rw gone (simp success)
                                        ]))
                                | inr many ↦ simp many
                              ])
                          | inr failed ↦ simp failed (elim (Option-cases o.http_status) [
                            | inl without ↦ simp without (rw without)
                            | inr (status, with_status) ↦ simp with_status (rw with_status)
                          ])
                        ])
                ]))
          ])
        ])
