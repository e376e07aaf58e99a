-- ===== src/Routes/Requests.antt =====
-- The router of app/routes/tasks.py: a request of an authenticated user, inside the session of
-- `get_db`.
pub mod Isolation
pub mod Soundness
pub mod Effects
pub mod Creation
pub mod Running
pub mod Reading
pub mod Recorded
pub mod Answers
pub mod Replaying
pub mod Schedules
use schedualerl_lm.Base.{ℕ, String, Option, some, List}
use schedualerl_lm.Auth.Jwt.{Jwt}
use schedualerl_lm.Db.Models.{ScheduledTask}
use schedualerl_lm.Db.Session.{Tables, Session, Action, pure, get_db, ◌>>=◌, ◌>>◌}
use schedualerl_lm.Python.Datetime.{Datetime}
use schedualerl_lm.Python.Platform.{Platform, Uuid}
use schedualerl_lm.Python.Result.{Result}
use schedualerl_lm.Routes.Tasks.{
  OrderBy, create_task, list_tasks, get_task_schedule, run_task, deactivate_task, activate_task,
  delete_task,
}
use schedualerl_lm.Scheduler.Executor.{Executor}
use schedualerl_lm.Scheduler.Triggers.{Triggers}
use schedualerl_lm.Schemas.Tasks.{
  StructuredTriggerSpec, TaskCreate, TaskListQuery, TaskScheduleQuery, TaskResponse,
  TaskListResponse, TaskRunResponse, TaskScheduleResponse,
}

-- What the handlers use: the libraries, the database's sort, the parser of texts, and the fuel of the
-- loop over fire times.
pub record App : Type 1 where
  pub platform : Platform
  pub jwt : Jwt
  pub triggers : Triggers
  pub executor : Executor
  pub sort_rows : OrderBy → List ScheduledTask → List ScheduledTask
  pub parse_text : String → String → Result StructuredTriggerSpec
  pub fuel : ℕ

-- What a request reads from its surroundings: the clock, and the ids that `uuid4()` gives.
pub record Inputs : Type 0 where
  pub now : Datetime
  pub task_uuid : Uuid
  pub history_uuid : Uuid

pub data TaskRequest : Type 0 where
  create : TaskCreate → TaskRequest
  list : TaskListQuery → TaskRequest
  schedule : Uuid → TaskScheduleQuery → TaskRequest
  run : Uuid → TaskRequest
  deactivate : Uuid → TaskRequest
  activate : Uuid → TaskRequest
  delete : Uuid → TaskRequest

pub data TaskReply : Type 0 where
  task_reply : TaskResponse → TaskReply
  list_reply : TaskListResponse → TaskReply
  schedule_reply : Option TaskScheduleResponse → TaskReply
  run_reply : TaskRunResponse → TaskReply
  no_content : TaskReply

module _ (app : App) (inputs : Inputs) (user_id : String) where
  open app use {platform, jwt, triggers, executor, sort_rows, parse_text, fuel}
  open inputs use {now, task_uuid, history_uuid}

  -- The handler that the router picks.
  unfoldable pub perform : TaskRequest → Action TaskReply
  perform (create body) = do
    r ← create_task platform triggers parse_text task_uuid history_uuid now user_id body
    pure (task_reply r)
  perform (list query) = do r ← list_tasks platform sort_rows query; pure (list_reply r)
  perform (schedule task_id query) = do
    r ← get_task_schedule platform triggers fuel now task_id query
    pure (schedule_reply r)
  perform (run task_id) = do
    r ← run_task platform jwt executor history_uuid now user_id task_id
    pure (run_reply r)
  perform (deactivate task_id) = do
    r ← deactivate_task platform history_uuid now user_id task_id
    pure (task_reply r)
  perform (activate task_id) = do
    r ← activate_task platform triggers history_uuid now user_id task_id
    pure (task_reply r)
  perform (delete task_id) = do
    delete_task platform history_uuid now user_id task_id
    pure no_content

  -- The request as a whole.
  unfoldable pub serve : Tables → TaskRequest → Result TaskReply × Session
  serve tables request = get_db (some user_id) tables (perform request)
