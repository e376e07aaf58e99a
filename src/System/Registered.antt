-- ===== src/System/Registered.antt =====
-- The schedules of the service as a whole, while each request is followed by its background tasks
-- before the next one, and the calls of the data store that are made succeed. APScheduler itself drops
-- a schedule whose trigger has come to its end.
pub mod Moves
pub mod Switches
pub mod Requests
pub mod Runs
pub mod Always
use schedualerl_lm.Base.{
  ◌≡◌, true, false, String, Bool, Option, none, some, is_some, ◌==◌, List, [], ◌∷◌, ◌&&◌, not, eqb,
  if◌then◌else◌,
}
use schedualerl_lm.Db.Models.{ScheduledTask}
use schedualerl_lm.Db.Session.{Tables, Background, register, unregister}
use schedualerl_lm.Python.Datetime.{Datetime}
use schedualerl_lm.Python.Platform.{UuidRereads, Uuid}
use schedualerl_lm.Python.Result.{ok, is_ok}
use schedualerl_lm.Routes.Requests.{App, Inputs, TaskRequest, create, serve}
use schedualerl_lm.Routes.Requests.Recorded.{HasRecordable}
use schedualerl_lm.Routes.Requests.Effects.{effect_of}
use schedualerl_lm.Routes.Requests.Replaying.{IsApplicable}
use schedualerl_lm.Routes.Requests.Schedules.{run_all}
use schedualerl_lm.Scheduler.Execution.{execute_scheduled_task}
use schedualerl_lm.Scheduler.Service.{Schedules}
use schedualerl_lm.Services.TaskHistory.Replay.{TaskState, absent, present, state_in}
use schedualerl_lm.System.{no_tables}

-- The schedule of an id is new.
abbrev pub revive : Uuid → (Uuid → Bool) → Uuid → Bool
revive id lapsed j = if eqb id j then false else lapsed j

-- The background tasks of a request register new schedules.
abbrev pub revived : List Background → (Uuid → Bool) → Uuid → Bool
revived [] lapsed = lapsed
revived (register task ∷ rest) lapsed = revived rest (revive task.id lapsed)
revived (unregister id ∷ rest) lapsed = revived rest lapsed

-- There is such a task, and it is active.
abbrev pub is_on : TaskState → Bool
is_on absent = false
is_on (present is_once active) = active

module _ (app : App) (sch : Schedules app.triggers.Trigger) where
  -- The ids that have a schedule are those of the active tasks, less those whose schedule has lapsed.
  abbrev pub Matches : sch.Store → List ScheduledTask → (Uuid → Bool) → Type 0
  Matches store tasks lapsed =
      (id : Uuid)
      → is_some (sch.trigger_of store (app.platform.str_uuid id))
        ≡ (is_on (state_in id tasks) && not (lapsed id))

  -- What APScheduler keeps of a schedule that has come due: it takes the trigger's time, and drops the
  -- schedule if there is no further one.
  abbrev pub after_firing : app.triggers.Trigger → Option app.triggers.Trigger
  after_firing trigger =
      let rest = (app.triggers.next trigger).1 in
      elim (app.triggers.next rest).0 [ none ↦ none | some d ↦ some rest ]

  -- The history can hold the trigger of a task that is created.
  abbrev pub CanRecord : Inputs → String → TaskRequest → Type 0
  CanRecord inputs u (create body) = HasRecordable app inputs u body
  CanRecord inputs u _ = Unit

  -- The tables and the schedules that the service reaches from empty ones, and the ids whose schedule
  -- has lapsed: APScheduler dropped it, and none has been registered for the id since.
  pub data Reached : Tables → sch.Store → (Uuid → Bool) → Type 0 where
    nothing_yet :
        (store : sch.Store)
        → ((s : String) → sch.trigger_of store s ≡ none)
        → Reached no_tables store (λ id. false)
    by_request :
        (inputs : Inputs) (later : Datetime) (u : String) (t : Tables) (request : TaskRequest)
        (store store' : sch.Store) (lapsed : Uuid → Bool)
        → Reached t store lapsed
        → (u == "") ≡ false
        → IsApplicable app inputs u t request
        → CanRecord inputs u request
        → run_all app sch later store (effect_of (serve app inputs u t request)).background
          ≡ ok store'
        → Reached
            (effect_of (serve app inputs u t request)).tables
            store'
            (revived (effect_of (serve app inputs u t request)).background lapsed)
    by_firing :
        (id : Uuid) (trigger : app.triggers.Trigger) (t : Tables) (store store' : sch.Store)
        (lapsed : Uuid → Bool)
        → Reached t store lapsed
        → sch.trigger_of store (app.platform.str_uuid id) ≡ some trigger
        → ((j : Uuid)
            → sch.trigger_of store' (app.platform.str_uuid j) ≡ (
                if eqb id j
                then after_firing trigger
                else sch.trigger_of store (app.platform.str_uuid j)))
        → Reached t store'
            (λ j. if eqb id j then not (is_some (after_firing trigger)) else lapsed j)
    by_schedule :
        (history_id id : Uuid) (now : Datetime) (t : Tables) (store : sch.Store)
        (lapsed : Uuid → Bool)
        → Reached t store lapsed
        → UuidRereads app.platform id
        → is_ok (sch.remove_schedule store (app.platform.str_uuid id)) ≡ true
        → Reached
            (execute_scheduled_task app.platform app.jwt sch
              (some app.executor)
              history_id
              now
              (app.platform.str_uuid id)
              t
              store).session.committed
            (execute_scheduled_task app.platform app.jwt sch
              (some app.executor)
              history_id
              now
              (app.platform.str_uuid id)
              t
              store).store
            lapsed
