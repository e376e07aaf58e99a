-- ===== src/Scheduler/Executor.antt =====
-- app/scheduler/executor.py: the webhook of a task, fired by its schedule or by hand. The HTTP client
-- is an interface; the clock readings and `uuid4()` are arguments.
pub mod Outcomes
use schedualerl_lm.Base.{
  or_text, ℕ, String, Bool, true, false, not, Option, none, some, List, [], ◌∷◌, ◌<>◌, ◌==◌,
  if◌then◌else◌,
}
use schedualerl_lm.Auth.Jwt.{Jwt, encode_token}
use schedualerl_lm.Config.{AuthSettings, SchedulerSettings}
use schedualerl_lm.Db.Models.{ScheduledTask}
use schedualerl_lm.Db.Session.{
  Tables, WebhookRequest, Session, Action, pure, raise, lift, send, select_task, update_task,
  commit, rollback, new_session, set_scheduler_rls, ◌>>=◌, ◌>>◌,
}
use schedualerl_lm.Enums.{scheduled}
use schedualerl_lm.Python.Datetime.{Datetime}
use schedualerl_lm.Python.Dict.{text}
use schedualerl_lm.Python.Platform.{Platform, Uuid}
use schedualerl_lm.Python.Result.{
  Exn, Result, ok, err, runtime_error, value_error, http_status_error, request_error,
}
use schedualerl_lm.Schemas.Execution.{WebhookFireOutcome}
use schedualerl_lm.Services.TaskHistory.{record_execution}

-- How a GET ends: with a status, with an `httpx.RequestError`, or with an exception that no handler
-- names.
pub data Reply : Type 0 where
  response : ℕ → Reply
  request_failed : String → Reply
  raised : Exn → Reply

-- `http_client.get`, and whether `raise_for_status` raises at a status. A status is shown by
-- `show_status`.
pub record HttpClient : Type 0 where
  pub get : WebhookRequest → Reply
  pub raises_for_status : ℕ → Bool
  pub show_status : ℕ → String

-- What `init_executor` sets, all at once: the module's globals.
pub record Executor : Type 0 where
  pub auth : AuthSettings
  pub scheduler : SchedulerSettings
  pub http_client : HttpClient

-- The `try` statement around the GET.
unfoldable pub outcome_of_reply : HttpClient → Reply → Result WebhookFireOutcome
outcome_of_reply client (response status) =
    if client.raises_for_status status
    then ok (record {
      http_status = some status;
      error_message = some ("Webhook returned " <> client.show_status status);
      success = false;
    })
    else ok (record { http_status = some status; error_message = none; success = true })
outcome_of_reply client (request_failed message) = ok (record {
  http_status = none;
  error_message = some ("Webhook request failed: " <> message);
  success = false;
})
outcome_of_reply client (raised e) = err e

module _ (p : Platform) (jwt : Jwt) where
  -- The request that `fire_task_webhook` sends.
  unfoldable pub webhook_request : Executor → Datetime → ScheduledTask → WebhookRequest
  unfolding encode_token
  webhook_request ex now task = record {
    url = task.webhook_url;
    params = task.parameters;
    authorization =
        "Bearer "
        <> encode_token jwt ex.auth now task.user_id ex.scheduler.webhook_jwt_ttl_minutes
            (("task_id", text (p.str_uuid task.id)) ∷ ("purpose", text "webhook") ∷ []);
  }

  -- `fire_task_webhook`, with `_require_executor`
  unfoldable pub fire_task_webhook :
      Option Executor → Datetime → ScheduledTask → Action WebhookFireOutcome
  fire_task_webhook none now task = raise (runtime_error "Scheduler executor not initialized")
  fire_task_webhook (some ex) now task =
      let request = webhook_request ex now task in
      send request >> lift (outcome_of_reply ex.http_client (ex.http_client.get request))

-- `_raise_from_outcome`
unfoldable pub raise_from_outcome : WebhookFireOutcome → Result (Unit {0})
raise_from_outcome outcome = if outcome.success then ok tt else elim outcome.http_status [
  | some status ↦ err (http_status_error status (or_text outcome.error_message "Webhook failed"))
  | none ↦ err (request_error (or_text outcome.error_message "Webhook request failed"))
]

module _ (p : Platform) where
  -- `_load_task`
  unfoldable pub load_task : String → Action (Option ScheduledTask)
  load_task task_id = elim (p.parse_uuid task_id) [
    | none ↦ pure none
    | some task_uuid ↦ select_task task_uuid
  ]

module _ (p : Platform) (jwt : Jwt) (ex : Option Executor) where
  -- The part of `execute_scheduled_task` after the webhook was fired.
  unfoldable pub settle : Uuid → Datetime → ScheduledTask → WebhookFireOutcome → Action Unit
  settle history_id now task outcome =
      record_execution history_id now task.user_id task.id scheduled task.webhook_url
        outcome.success outcome.http_status outcome.error_message
      >> (if outcome.success then pure tt else (commit >> lift (raise_from_outcome outcome)))
      >> (if task.trigger_type == "once" then update_task task.id false none now else pure tt)
      >> commit

  abbrev pub execute_found : Uuid → Datetime → Option ScheduledTask → Action (Option ScheduledTask)
  execute_found history_id now none = pure none
  execute_found history_id now (some task) =
      if not task.is_active
      then pure none
      else fire_task_webhook p jwt ex now task >>= λ outcome.
          settle history_id now task outcome >> pure (some task)

  -- The `async with` block: the task whose webhook was fired, or `none` for an early return.
  unfoldable pub execute_in_session : Uuid → Datetime → String → Action (Option ScheduledTask)
  execute_in_session history_id now task_id = load_task p task_id >>= execute_found history_id now

  -- Leaving `async with` closes the session, and what was not committed is rolled back.
  unfoldable pub scheduled_session :
      Uuid → Datetime → String → Tables → Result (Option ScheduledTask) × Session
  scheduled_session history_id now task_id tables =
      let (r, s) =
        execute_in_session history_id now task_id (set_scheduler_rls (new_session tables)) in
      (r, rollback s)

  abbrev pub fire_found : String → Datetime → Option ScheduledTask → Action WebhookFireOutcome
  fire_found task_id now none = raise (value_error ("Task " <> (task_id <> " not found")))
  fire_found task_id now (some task) = fire_task_webhook p jwt ex now task

  -- `run_task_manually`: it only reads, from the committed tables.
  unfoldable pub run_task_manually :
      Datetime → String → Tables → Result WebhookFireOutcome × List WebhookRequest
  run_task_manually now task_id tables =
      let (r, s) =
        (load_task p task_id >>= fire_found task_id now) (set_scheduler_rls (new_session tables)) in
      (r, s.sent)
