-- ===== src/Routes/Requests/Isolation.antt =====
-- Every task handler, run with the rights of one user, leaves the rows of all others alone.
use schedualerl_lm.Base.{eq_refl, String, Option, none, some, Bool, ℕ, List, arith}
use schedualerl_lm.Db.Models.{ScheduledTask}
use schedualerl_lm.Db.Session.{Tables, WebhookRequest, open_session, get_db}
use schedualerl_lm.Db.Session.Keeps.{Keeps, close_session_committed, keeps_rules}
use schedualerl_lm.Db.Session.Isolation.{Confined, SameForeign, confined_rules}
use schedualerl_lm.Enums.{TaskHistoryEventType, ExecutionSource}
use schedualerl_lm.Python.Datetime.{Datetime}
use schedualerl_lm.Python.Platform.{Platform, Uuid}
use schedualerl_lm.Scheduler.Executor.{HttpClient}
use schedualerl_lm.Schemas.Execution.{WebhookFireResult}
use schedualerl_lm.Services.TaskHistory.{
  record_task_created, record_task_deleted, record_task_lifecycle, record_execution,
}
use schedualerl_lm.Routes.Tasks.{
  get_task_or_404, or_404, create_task, list_tasks, get_task_schedule, sent_from, run_task,
  run_response, deactivate_task, activate_task, delete_task,
}
use schedualerl_lm.Routes.Requests.{
  App, Inputs, TaskRequest, create, list, schedule, run, deactivate, activate, delete, perform,
  serve,
}

module _ (u : String) (before : Tables) where
  or_404-Confined : (o : Option ScheduledTask) → Keeps (Confined u before) (or_404 o)
  or_404-Confined none = search keeps_rules
  or_404-Confined (some t) = search keeps_rules

  get_task_or_404-Confined : (id : Uuid) → Keeps (Confined u before) (get_task_or_404 id)
  unfolding get_task_or_404
  get_task_or_404-Confined id = search (keeps_rules, confined_rules, or_404-Confined)

  record_task_created-Confined :
      (p : Platform) (id : Uuid) (now : Datetime) (user_id : String) (task : ScheduledTask)
      → Keeps (Confined u before) (record_task_created p id now user_id task)
  unfolding record_task_created
  record_task_created-Confined p id now user_id task = search (keeps_rules, confined_rules)

  record_task_deleted-Confined :
      (p : Platform) (id : Uuid) (now : Datetime) (user_id : String) (task : ScheduledTask)
      → Keeps (Confined u before) (record_task_deleted p id now user_id task)
  unfolding record_task_deleted
  record_task_deleted-Confined p id now user_id task = search (keeps_rules, confined_rules)

  record_task_lifecycle-Confined :
      (id : Uuid) (now : Datetime) (user_id : String) (task_id : Uuid) (e : TaskHistoryEventType)
      → Keeps (Confined u before) (record_task_lifecycle id now user_id task_id e)
  unfolding record_task_lifecycle
  record_task_lifecycle-Confined id now user_id task_id e = search confined_rules

  record_execution-Confined :
      (id : Uuid) (now : Datetime) (user_id : String) (task_id : Uuid) (source : ExecutionSource)
      (url : String) (success : Bool) (status : Option ℕ) (message : Option String)
      → Keeps
          (Confined u before)
          (record_execution id now user_id task_id source url success status message)
  unfolding record_execution
  record_execution-Confined id now user_id task_id source url success status message =
      search confined_rules

  sent_from-Confined :
      (requests : List WebhookRequest) → Keeps (Confined u before) (sent_from requests)
  unfolding sent_from
  sent_from-Confined requests = record {
    holds_after = λ s h. record {
      not_scheduler = h.not_scheduler;
      rights = h.rights;
      working_foreign = h.working_foreign;
      committed_foreign = h.committed_foreign;
    };
  }

  run_response-Confined :
      (p : Platform) (client : HttpClient) (id : Uuid) (result : WebhookFireResult)
      → Keeps (Confined u before) (run_response p client id result)
  run_response-Confined p client id result = search keeps_rules

  ruleset handler_rules = (
    keeps_rules, confined_rules, get_task_or_404-Confined, record_task_created-Confined,
    record_task_deleted-Confined, record_task_lifecycle-Confined, record_execution-Confined,
    sent_from-Confined, run_response-Confined,
  )

  perform-Confined :
      (app : App) (inputs : Inputs) (user_id : String) (request : TaskRequest)
      → Keeps (Confined u before) (perform app inputs user_id request)
  unfolding perform create_task list_tasks get_task_schedule run_task deactivate_task activate_task
      delete_task
  perform-Confined app inputs user_id (create body) = search handler_rules depth 20
  perform-Confined app inputs user_id (list query) = search handler_rules depth 20
  perform-Confined app inputs user_id (schedule id query) = search handler_rules depth 20
  perform-Confined app inputs user_id (run id) = search handler_rules depth 20
  perform-Confined app inputs user_id (deactivate id) = search handler_rules depth 20
  perform-Confined app inputs user_id (activate id) = search handler_rules depth 20
  perform-Confined app inputs user_id (delete id) = search handler_rules depth 20

pub open-Confined :
    (u : String) (tables : Tables) → Confined u tables (open_session (some u) tables)
open-Confined u tables = ground (arith, eq_refl u)

-- For any request of a user to the task routes, and however it ends, the committed tables hold
-- exactly the tasks and the history rows of every other user that they held before it, in the same
-- order.
pub serve-SameForeign :
    (app : App) (inputs : Inputs) (user_id : String) (tables : Tables) (request : TaskRequest)
    → SameForeign user_id tables (serve app inputs user_id tables request).1.committed
unfolding serve get_db
serve-SameForeign app inputs user_id tables request =
    let s = open_session (some user_id) tables in
    let h =
      (perform-Confined user_id tables app inputs user_id request).holds_after s
        (open-Confined user_id tables) in
    close_session_committed (SameForeign user_id tables) (perform app inputs user_id request s)
      h.working_foreign h.committed_foreign
