-- ===== src/System/History.antt =====
-- The history as the specification of the table of tasks.
use schedualerl_lm.Base.{◌≡◌, refl}
use schedualerl_lm.Db.Session.{Tables}
use schedualerl_lm.Python.Platform.{Uuid}
use schedualerl_lm.Routes.Requests.{App}
use schedualerl_lm.Routes.Requests.Replaying.{serve-IsConsistent}
use schedualerl_lm.Scheduler.Execution.Replaying.{execute_scheduled_task-IsConsistent}
use schedualerl_lm.Scheduler.Service.{Schedules}
use schedualerl_lm.Services.TaskHistory.Replay.{IsConsistent, replay, absent, state_in}
use schedualerl_lm.System.{Reachable, nothing_yet, by_request, by_schedule}

module _ (app : App) (sch : Schedules app.triggers.Trigger) where
  -- The tables that are reached agree with their history.
  Reachable-IsConsistent : (t : Tables) → Reachable app sch t → IsConsistent t
  unfolding replay
  Reachable-IsConsistent _ nothing_yet = record { replayed = λ id. refl; distinct = tt }
  Reachable-IsConsistent _ (by_request inputs u t request before filled fresh) =
      serve-IsConsistent app inputs u t (Reachable-IsConsistent t before) request filled fresh
  Reachable-IsConsistent _ (by_schedule history_id id now t store before reread) =
      execute_scheduled_task-IsConsistent app.platform app.jwt app.executor sch history_id now t
        store (Reachable-IsConsistent t before) id reread

  -- Of tables that are reached from empty ones by requests to the task routes and by scheduled
  -- runs, in any order, the history alone tells the table of tasks: its rows, replayed in their
  -- order, give for every id whether there is a task, whether it is a once task, and whether it is
  -- active. A user's id is not empty, an id that is created is new, and the text of an id reads
  -- back.
  pub Reachable-replay :
      (t : Tables)
      → Reachable app sch t
      → (id : Uuid) → replay id absent t.history ≡ state_in id t.tasks
  Reachable-replay t reached = (Reachable-IsConsistent t reached).replayed
