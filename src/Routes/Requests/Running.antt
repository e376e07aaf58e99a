-- ===== src/Routes/Requests/Running.antt =====
-- What running a task by hand does: one webhook, one history row, whatever the answer.
use mathlib.Core.Path.{subst}
use schedualerl_lm.Base.{
  ◌≡◌, String, true, false, some, List, [], ◌∷◌, ◌++◌, ◌==◌, eqb, find, if◌then◌else◌, arith,
  eq_refl, Bool-cases, inl, inr, find_holds, sym, eqb_iff,
}
use schedualerl_lm.Db.Models.{ScheduledTask}
use schedualerl_lm.Db.Session.{
  Background, Tables, Session, WebhookRequest, get_db, ◌>>=◌, commit, rollback,
}
use schedualerl_lm.Db.Session.AllRows.{has_id}
use schedualerl_lm.Db.Session.User.{owned, open_session_lem, insert_history_lem}
use schedualerl_lm.Enums.{manual}
use schedualerl_lm.Python.Platform.{Uuid, UuidRereads}
use schedualerl_lm.Python.Result.{Result, ok, err, http_exception, Result-cases}
use schedualerl_lm.Routes.Requests.{App, Inputs, TaskReply, run_reply, run, perform, serve}
use schedualerl_lm.Routes.Requests.Effects.{get_task_or_404_lem}
use schedualerl_lm.Routes.Tasks.{run_task, run_failure, sent_from}
use schedualerl_lm.Scheduler.Executor.{run_task_manually, webhook_request}
use schedualerl_lm.Scheduler.Executor.Outcomes.{
  outcome_for, outcome_of_reply-has_status, fire_task_webhook_lem, load_task_lem,
}
use schedualerl_lm.Schemas.Execution.{WebhookFireOutcome, webhook_fire_result}
use schedualerl_lm.Services.TaskHistory.{execution_row, record_execution}
use schedualerl_lm.Services.TaskHistory.Shape.{execution_row-shape}

-- The only row with an id, if it is the user's, is the one that the user finds.
pub find-owned :
    (u : String) (id : Uuid) (xs : List ScheduledTask) {task : ScheduledTask}
    → find (has_id id) xs ≡ some task
    → (task.user_id == u) ≡ true
    → find (owned u id) xs ≡ some task
find-owned u id [] h own = h
find-owned u id (x ∷ xs) {task} h own = elim (Bool-cases (eqb x.id id)) [
  | inl this ↦
      let first : some x ≡ some task = rw this at h in
      let mine : (x.user_id == u) ≡ true = ground (arith, own) in rw (this, mine) first
  | inr other ↦ rw other (find-owned u id xs (rw other at h) own)
]

-- A row that was found by an id has it.
pub find-has_id_self :
    (id : Uuid) (xs : List ScheduledTask) {task : ScheduledTask}
    → find (has_id id) xs ≡ some task
    → find (has_id task.id) xs ≡ some task
find-has_id_self id xs {task} h =
    let same : task.id ≡ id = (eqb_iff task.id id).0 (find_holds (has_id id) xs task h) in
    subst (λ k. find (has_id k) xs ≡ some task) (sym same) h

module _ (app : App) (inputs : Inputs) (u : String) where
  open app use {platform, jwt, executor}

  pub run_task_manually_lem :
      (t : Tables) (id : Uuid) {task : ScheduledTask}
      → UuidRereads platform id
      → find (has_id id) t.tasks ≡ some task
      → run_task_manually platform jwt (some executor) inputs.now (platform.str_uuid id) t ≡ (
        outcome_for platform jwt executor inputs.now task,
        webhook_request platform jwt executor inputs.now task ∷ [],
      )
  unfolding run_task_manually ◌>>=◌
  run_task_manually_lem t id reread found =
      rw (load_task_lem platform jwt id t t [] reread) (rw (found, fire_task_webhook_lem))

  -- What `run_task` leaves: the reply, the committed tables, the webhook requests, and the background
  -- tasks.
  abbrev pub Ran : Type 0
  Ran = Result TaskReply × Tables × List WebhookRequest × List Background

  abbrev pub ran_of : Result TaskReply × Session → Ran
  ran_of (r, s) = (r, s.committed, s.sent, s.background)

  abbrev pub ran_reply : ScheduledTask → WebhookFireOutcome → Result TaskReply
  ran_reply task o =
      let result = webhook_fire_result manual task.webhook_url o in
      if o.success
      then ok (
          run_reply (record {
            task_id = platform.str_uuid task.id;
            execution_source = manual;
            webhook_url = task.webhook_url;
            http_status = o.http_status;
            error_message = o.error_message;
            success = true;
          }))
      else err (http_exception 502 (run_failure executor.http_client result))

  -- An exception of the HTTP client rolls back; any outcome is recorded, and a failed one is then
  -- answered with a 502.
  abbrev pub ran : Tables → ScheduledTask → Result WebhookFireOutcome → Ran
  ran t task (err e) = (err e, t, webhook_request platform jwt executor inputs.now task ∷ [], [])
  ran t task (ok o) = (
    ran_reply task o,
    record t {
      history =
          t.history
          ++ execution_row inputs.history_uuid inputs.now u task.id manual task.webhook_url
              o.success o.http_status o.error_message
            ∷ [];
    },
    webhook_request platform jwt executor inputs.now task ∷ [],
    [],
  )

  -- Running by hand a task that the user (with an id that is not empty) owns, and that is the
  -- first row with the id asked for, sends exactly one webhook; whatever the outcome, success or
  -- failure, it is committed to the history, nothing else changes and no background task is left;
  -- a failure is answered with a 502, a success with its status, and an exception that the
  -- executor does not handle is passed on with the tables unchanged.
  pub serve-run :
      (t : Tables) (id : Uuid) (task : ScheduledTask)
      → (u == "") ≡ false
      → UuidRereads platform task.id
      → find (has_id id) t.tasks ≡ some task
      → (task.user_id == u) ≡ true
      → ran_of (serve app inputs u t (run id))
        ≡ ran t task (outcome_for platform jwt executor inputs.now task)
  unfolding serve get_db perform run_task ◌>>=◌ commit rollback sent_from record_execution
  serve-run t id task filled reread found own =
      let found' = find-has_id_self id t.tasks found in
      rw
        (
          open_session_lem u t filled,
          get_task_or_404_lem,
          find-owned u id t.tasks found own,
          run_task_manually_lem t task.id reread found',
        )
        (elim (Result-cases (outcome_for platform jwt executor inputs.now task)) [
          | inl (e, failed) ↦ rw failed
          | inr (o, done) ↦
              rw
                (
                  done,
                  insert_history_lem u t t [] _ _ (eq_refl u) (
                      execution_row-shape inputs.history_uuid inputs.now u task.id manual
                        task.webhook_url o.success o.http_status o.error_message
                        (outcome_of_reply-has_status executor.http_client _ o done)),
                )
                (elim (Bool-cases o.success) [
                  | inl success ↦ simp success
                  | inr failure ↦ simp failure
                ])
        ])
