-- ===== src/System.antt =====
-- The service as a whole: tables that are reached by requests to the task routes and by runs of the
-- scheduler, in any order.
pub mod History
pub mod Registered
use schedualerl_lm.Base.{◌≡◌, false, String, [], ◌==◌}
use schedualerl_lm.Db.Session.{Tables}
use schedualerl_lm.Python.Platform.{UuidRereads, Uuid}
use schedualerl_lm.Python.Datetime.{Datetime}
use schedualerl_lm.Routes.Requests.{App, Inputs, TaskRequest, serve}
use schedualerl_lm.Routes.Requests.Replaying.{IsApplicable}
use schedualerl_lm.Scheduler.Execution.{execute_scheduled_task}
use schedualerl_lm.Scheduler.Service.{Schedules}
use mathlib.Core.Option.{some}

-- The database after the migrations.
abbrev pub no_tables : Tables
no_tables = record { tasks = []; history = [] }

module _ (app : App) (sch : Schedules app.triggers.Trigger) where
  -- A request of a user whose id is not empty, or the run of a task whose schedule fires; each sees
  -- what the one before committed.
  pub data Reachable : Tables → Type 0 where
    nothing_yet : Reachable no_tables
    by_request :
        (inputs : Inputs) (u : String) (t : Tables) (request : TaskRequest)
        → Reachable t
        → (u == "") ≡ false
        → IsApplicable app inputs u t request
        → Reachable (serve app inputs u t request).1.committed
    by_schedule :
        (history_id id : Uuid) (now : Datetime) (t : Tables) (store : sch.Store)
        → Reachable t
        → UuidRereads app.platform id
        → Reachable
            (execute_scheduled_task app.platform app.jwt sch
              (some app.executor)
              history_id
              now
              (app.platform.str_uuid id)
              t
              store).session.committed
