-- ===== src/Routes/Requests/Soundness.antt =====
-- Every task handler keeps the tables sound, and only adds to the history.
use mathlib.Core.List.{append-nil}
use schedualerl_lm.Base.{
  String, All, sym, [], ◌==◌, Bool-cases, inl, inr, Option, none, some, Bool, ℕ, List,
}
use schedualerl_lm.Db.Models.{ScheduledTask}
use schedualerl_lm.Db.Session.{Tables, WebhookRequest, open_session, get_db}
use schedualerl_lm.Db.Session.Keeps.{Keeps, close_session_committed, keeps_rules}
use schedualerl_lm.Db.Session.Soundness.{Sound, IsSound, HasShape, IsIdleOrActive, sound_rules}
use schedualerl_lm.Enums.{TaskHistoryEventType, ExecutionSource}
use schedualerl_lm.Python.Datetime.{Datetime}
use schedualerl_lm.Python.Platform.{Platform, Uuid}
use schedualerl_lm.Scheduler.Executor.{HttpClient}
use schedualerl_lm.Scheduler.Triggers.{Triggers}
use schedualerl_lm.Schemas.Execution.{WebhookFireResult}
use schedualerl_lm.Schemas.Tasks.{TaskCreate, StructuredTriggerSpec}
use schedualerl_lm.Services.TaskHistory.{
  record_task_created, record_task_deleted, record_task_lifecycle, record_execution,
}
use schedualerl_lm.Routes.Tasks.{
  get_task_or_404, or_404, create_task, new_task, list_tasks, get_task_schedule, sent_from,
  run_task, run_response, deactivate_task, activate_task, delete_task,
}
use schedualerl_lm.Routes.Requests.{
  App, Inputs, TaskRequest, create, list, schedule, run, deactivate, activate, delete, perform,
  serve,
}

module _ (before : Tables) where
  or_404-Sound : (o : Option ScheduledTask) → Keeps (Sound before) (or_404 o)
  or_404-Sound none = search keeps_rules
  or_404-Sound (some t) = search keeps_rules

  get_task_or_404-Sound : (id : Uuid) → Keeps (Sound before) (get_task_or_404 id)
  unfolding get_task_or_404
  get_task_or_404-Sound id = search (keeps_rules, sound_rules, or_404-Sound)

  record_task_created-Sound :
      (p : Platform) (id : Uuid) (now : Datetime) (user_id : String) (task : ScheduledTask)
      → Keeps (Sound before) (record_task_created p id now user_id task)
  unfolding record_task_created
  record_task_created-Sound p id now user_id task = search (keeps_rules, sound_rules)

  record_task_deleted-Sound :
      (p : Platform) (id : Uuid) (now : Datetime) (user_id : String) (task : ScheduledTask)
      → Keeps (Sound before) (record_task_deleted p id now user_id task)
  unfolding record_task_deleted
  record_task_deleted-Sound p id now user_id task = search (keeps_rules, sound_rules)

  record_task_lifecycle-Sound :
      (id : Uuid) (now : Datetime) (user_id : String) (task_id : Uuid) (e : TaskHistoryEventType)
      → Keeps (Sound before) (record_task_lifecycle id now user_id task_id e)
  unfolding record_task_lifecycle
  record_task_lifecycle-Sound id now user_id task_id e = search sound_rules

  record_execution-Sound :
      (id : Uuid) (now : Datetime) (user_id : String) (task_id : Uuid) (source : ExecutionSource)
      (url : String) (success : Bool) (status : Option ℕ) (message : Option String)
      → Keeps
          (Sound before)
          (record_execution id now user_id task_id source url success status message)
  unfolding record_execution
  record_execution-Sound id now user_id task_id source url success status message =
      search sound_rules

  sent_from-Sound : (requests : List WebhookRequest) → Keeps (Sound before) (sent_from requests)
  unfolding sent_from
  sent_from-Sound requests = record {
    holds_after =
        λ s h. record { working_sound = h.working_sound; committed_sound = h.committed_sound };
  }

  run_response-Sound :
      (p : Platform) (client : HttpClient) (id : Uuid) (result : WebhookFireResult)
      → Keeps (Sound before) (run_response p client id result)
  run_response-Sound p client id result = search keeps_rules

  ruleset handler_rules = (
    keeps_rules, sound_rules, get_task_or_404-Sound, record_task_created-Sound,
    record_task_deleted-Sound, record_task_lifecycle-Sound, record_execution-Sound, sent_from-Sound,
    run_response-Sound,
  )

  new_task-IsIdleOrActive :
      (p : Platform) (api : Triggers) (id : Uuid) (now : Datetime) (user_id : String)
      (body : TaskCreate) (trigger : StructuredTriggerSpec) (next : Option Datetime)
      → IsIdleOrActive (new_task p api id now user_id body trigger next)
  unfolding new_task
  new_task-IsIdleOrActive p api id now user_id body trigger next e = cc

  perform-Sound :
      (app : App) (inputs : Inputs) (user_id : String) (request : TaskRequest)
      → Keeps (Sound before) (perform app inputs user_id request)
  unfolding perform create_task list_tasks get_task_schedule run_task deactivate_task activate_task
      delete_task
  perform-Sound app inputs user_id (create body) =
      search (handler_rules, new_task-IsIdleOrActive) depth 20
  perform-Sound app inputs user_id (list query) = search handler_rules depth 20
  perform-Sound app inputs user_id (schedule id query) = search handler_rules depth 20
  perform-Sound app inputs user_id (run id) = search handler_rules depth 20
  perform-Sound app inputs user_id (deactivate id) = search handler_rules depth 20
  perform-Sound app inputs user_id (activate id) = search handler_rules depth 20
  perform-Sound app inputs user_id (delete id) = search handler_rules depth 20

unchanged-IsSound : (t : Tables) → All HasShape t.history → All IsIdleOrActive t.tasks → IsSound t t
unchanged-IsSound t shaped idle = record {
  shaped = shaped;
  idle = idle;
  appended = [];
  extends = sym (append-nil t.history);
}

open-Sound : (u : String) (t : Tables) → IsSound t t → Sound t (open_session (some u) t)
open-Sound u t h = elim (Bool-cases (u == "")) [
  | inl empty ↦ rw empty (record { working_sound = h; committed_sound = h })
  | inr filled ↦ rw filled (record { working_sound = h; committed_sound = h })
]

-- From tables whose history rows satisfy the check constraint and whose paused tasks have no next
-- run, every request to the task routes, however it ends, commits such tables, and the committed
-- history is the old one with rows added at its end.
pub serve-IsSound :
    (app : App) (inputs : Inputs) (user_id : String) (tables : Tables) (request : TaskRequest)
    → All HasShape tables.history
    → All IsIdleOrActive tables.tasks
    → IsSound tables (serve app inputs user_id tables request).1.committed
unfolding serve get_db
serve-IsSound app inputs user_id tables request shaped idle =
    let s = open_session (some user_id) tables in
    let h =
      (perform-Sound tables app inputs user_id request).holds_after s
        (open-Sound user_id tables (unchanged-IsSound tables shaped idle)) in
    close_session_committed (IsSound tables) (perform app inputs user_id request s) h.working_sound
      h.committed_sound
