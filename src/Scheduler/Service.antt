-- ===== src/Scheduler/Service.antt =====
-- app/scheduler/service.py: the schedules that APScheduler keeps, behind an interface. A schedule of
-- the program always has the executor as its task and its own id as the only argument, so the
-- interface names neither.
use schedualerl_lm.Base.{String, ◌≡◌, Option, none, some, ◌==◌, if◌then◌else◌}
use schedualerl_lm.Db.Models.{ScheduledTask}
use schedualerl_lm.Db.Session.{Background, register, unregister}
use schedualerl_lm.Python.Datetime.{Datetime}
use schedualerl_lm.Python.Platform.{Platform, Uuid}
use schedualerl_lm.Python.Result.{Result, ok, ◌>>=◌}
use schedualerl_lm.Scheduler.Triggers.{Triggers, build_trigger_from_task}

-- The data store of an `AsyncScheduler`, for a type of triggers. `add_schedule` is called with
-- `ConflictPolicy.replace`; both calls may raise.
pub record Schedules (Trigger : Type 0) : Type 1 where
  pub Store : Type 0
  pub add_schedule : Store → String → Trigger → Result Store
  pub remove_schedule : Store → String → Result Store
  pub trigger_of : Store → String → Option Trigger

-- A call that returns has replaced, or removed, the schedule of that id and no other.
pub record IsLawfulSchedules {Trigger : Type 0} (sch : Schedules Trigger) : Type 0 where
  pub trigger_of-add_schedule :
      (s s' : sch.Store) (id j : String) (t : Trigger)
      → sch.add_schedule s id t ≡ ok s'
      → sch.trigger_of s' j ≡ (if id == j then some t else sch.trigger_of s j)
  pub trigger_of-remove_schedule :
      (s s' : sch.Store) (id j : String)
      → sch.remove_schedule s id ≡ ok s'
      → sch.trigger_of s' j ≡ (if id == j then none else sch.trigger_of s j)

module _ (p : Platform) (api : Triggers) (sch : Schedules api.Trigger) where
  -- `register_schedule`; the log call of its handler is left out.
  unfoldable pub register_schedule : Datetime → sch.Store → ScheduledTask → Result sch.Store
  register_schedule now store task = do
    trigger ← build_trigger_from_task p api now task
    sch.add_schedule store (p.str_uuid task.id) trigger

  -- `unregister_schedule`
  unfoldable pub unregister_schedule : sch.Store → Uuid → Result sch.Store
  unregister_schedule store task_id = sch.remove_schedule store (p.str_uuid task_id)

  -- A background task of a request.
  unfoldable pub run_background : Datetime → sch.Store → Background → Result sch.Store
  unfolding register_schedule unregister_schedule
  run_background now store (register task) = register_schedule now store task
  run_background now store (unregister task_id) = unregister_schedule store task_id
