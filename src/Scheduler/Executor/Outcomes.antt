-- ===== src/Scheduler/Executor/Outcomes.antt =====
-- The outcome of a webhook, and the loading and firing of a task in the executor's session.
use schedualerl_lm.Base.{◌≡◌, refl, true, some, List, [], ◌∷◌, ◌++◌, find, is_some, arith}
use schedualerl_lm.Auth.Jwt.{Jwt}
use schedualerl_lm.Db.Models.{ScheduledTask}
use schedualerl_lm.Db.Session.{Tables, WebhookRequest, send, ◌>>=◌}
use schedualerl_lm.Db.Session.AllRows.{scheduler_session, has_id, select_task_all}
use schedualerl_lm.Python.Datetime.{Datetime}
use schedualerl_lm.Python.Platform.{Platform, Uuid, UuidRereads}
use schedualerl_lm.Python.Result.{Result, ok}
use schedualerl_lm.Schemas.Execution.{WebhookFireOutcome}
use schedualerl_lm.Scheduler.Executor.{
  HttpClient, Executor, Reply, response, request_failed, raised, webhook_request, outcome_of_reply,
  fire_task_webhook, load_task,
}

-- Whatever the HTTP client gives, an outcome of the webhook that is a success has a status.
pub outcome_of_reply-has_status :
    (client : HttpClient) (reply : Reply) (o : WebhookFireOutcome)
    → outcome_of_reply client reply ≡ ok o
    → o.success ≡ true
    → is_some o.http_status ≡ true
unfolding outcome_of_reply
outcome_of_reply-has_status client (response status) o h s = ground arith
outcome_of_reply-has_status client (request_failed message) o h s = ground arith
outcome_of_reply-has_status client (raised e) o h s = ground arith

module _ (p : Platform) (jwt : Jwt) where
  -- What firing a task's webhook gives.
  abbrev pub outcome_for : Executor → Datetime → ScheduledTask → Result WebhookFireOutcome
  outcome_for ex now task =
      outcome_of_reply ex.http_client (ex.http_client.get (webhook_request p jwt ex now task))

  pub fire_task_webhook_lem :
      (ex : Executor) (now : Datetime) (task : ScheduledTask) (c w : Tables)
      (n : List WebhookRequest)
      → fire_task_webhook p jwt (some ex) now task (scheduler_session c w n) ≡ (
        outcome_for ex now task,
        scheduler_session c w (n ++ webhook_request p jwt ex now task ∷ []),
      )
  unfolding fire_task_webhook send ◌>>=◌
  fire_task_webhook_lem ex now task c w n = refl

  -- A task id that was written by `str` finds its row.
  pub load_task_lem :
      (id : Uuid) (c w : Tables) (n : List WebhookRequest)
      → UuidRereads p id
      → load_task p (p.str_uuid id) (scheduler_session c w n)
        ≡ (ok (find (has_id id) w.tasks), scheduler_session c w n)
  unfolding load_task
  load_task_lem id c w n reread = rw (reread, load_task) (select_task_all c w n id)
