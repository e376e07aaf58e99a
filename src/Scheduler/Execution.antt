-- ===== src/Scheduler/Execution.antt =====
-- `execute_scheduled_task` of app/scheduler/executor.py, whole: the session, and then the schedule of
-- a once task.
pub mod Effects
pub mod Replaying
use schedualerl_lm.Base.{String, Option, none, some, ◌==◌, if◌then◌else◌}
use schedualerl_lm.Auth.Jwt.{Jwt}
use schedualerl_lm.Db.Models.{ScheduledTask}
use schedualerl_lm.Db.Session.{Tables, Session, new_session}
use schedualerl_lm.Python.Datetime.{Datetime}
use schedualerl_lm.Python.Platform.{Platform, Uuid}
use schedualerl_lm.Python.Result.{Result, ok, err, runtime_error}
use schedualerl_lm.Scheduler.Executor.{Executor, scheduled_session}
use schedualerl_lm.Scheduler.Service.{Schedules}

-- What a run leaves: how it ended, its session, and the schedules.
pub record Run {Trigger : Type 0} (sch : Schedules Trigger) : Type 0 where
  pub outcome : Result (Unit {0})
  pub session : Session
  pub store : sch.Store

module _ (p : Platform) (jwt : Jwt) {Trigger : Type 0} (sch : Schedules Trigger) where
  -- `await _scheduler.remove_schedule(str(task.id))`
  abbrev remove_after : Session → sch.Store → Result sch.Store → Run sch
  remove_after s store (ok store') = record { outcome = ok tt; session = s; store = store' }
  remove_after s store (err e) = record { outcome = err e; session = s; store = store }

  abbrev after_session : Session → sch.Store → Result (Option ScheduledTask) → Run sch
  after_session s store (err e) = record { outcome = err e; session = s; store = store }
  after_session s store (ok none) = record { outcome = ok tt; session = s; store = store }
  after_session s store (ok (some task)) =
      if task.trigger_type == "once"
      then remove_after s store (sch.remove_schedule store (p.str_uuid task.id))
      else record { outcome = ok tt; session = s; store = store }

  -- `execute_scheduled_task`
  unfoldable pub execute_scheduled_task :
      Option Executor → Uuid → Datetime → String → Tables → sch.Store → Run sch
  execute_scheduled_task none history_id now task_id tables store = record {
    outcome = err (runtime_error "Scheduler executor not initialized");
    session = new_session tables;
    store = store;
  }
  execute_scheduled_task (some ex) history_id now task_id tables store =
      let (r, s) = scheduled_session p jwt (some ex) history_id now task_id tables in
      after_session s store r
