-- ===== src/System/Registered/Always.antt =====
-- The schedules match the tasks in every state that the service reaches.
use mathlib.Core.Path.{subst}
use schedualerl_lm.Base.{◌≡◌, refl, sym, ◌∙◌, is_some, ap, Bool, not, ◌&&◌}
use schedualerl_lm.Db.Session.{Tables}
use schedualerl_lm.Python.Platform.{Uuid}
use schedualerl_lm.Routes.Requests.{App, serve}
use schedualerl_lm.Routes.Requests.Replaying.{serve-IsConsistent, effect_of-tables}
use schedualerl_lm.Routes.Requests.Schedules.{HasDistinctTexts}
use schedualerl_lm.Scheduler.Execution.Replaying.{execute_scheduled_task-IsConsistent}
use schedualerl_lm.Scheduler.Service.{Schedules, IsLawfulSchedules}
use schedualerl_lm.Services.TaskHistory.Replay.{IsConsistent, replay, absent, state_in}
use schedualerl_lm.System.Registered.{
  is_on, Matches, Reached, nothing_yet, by_request, by_firing, by_schedule,
}
use schedualerl_lm.System.Registered.Moves.{firing-Matches}
use schedualerl_lm.System.Registered.Requests.{serve-Followed}
use schedualerl_lm.System.Registered.Runs.{execute_scheduled_task-Matches}

module _ (app : App) (sch : Schedules app.triggers.Trigger) where
  Reached-IsConsistent :
      (t : Tables) (store : sch.Store) (lapsed : Uuid → Bool)
      → Reached app sch t store lapsed
      → IsConsistent t
  unfolding replay
  Reached-IsConsistent _ _ _ (nothing_yet store empty) = record {
    replayed = λ id. refl;
    distinct = tt;
  }
  Reached-IsConsistent _ _ _
        (by_request inputs later u t request store store' lapsed before filled fresh recorded
          ended) =
      subst IsConsistent (sym (effect_of-tables (serve app inputs u t request))) (
        serve-IsConsistent app inputs u t (Reached-IsConsistent t store lapsed before) request
          filled fresh)
  Reached-IsConsistent _ _ _ (by_firing id trigger t store store' lapsed before found law) =
      Reached-IsConsistent t store lapsed before
  Reached-IsConsistent _ _ _
        (by_schedule history_id id now t store lapsed before reread removable) =
      execute_scheduled_task-IsConsistent app.platform app.jwt app.executor sch history_id now t
        store (Reached-IsConsistent t store lapsed before) id reread

  module _ (lawful : IsLawfulSchedules sch) (distinct : HasDistinctTexts app.platform) where
    Reached-Matches :
        (t : Tables) (store : sch.Store) (lapsed : Uuid → Bool)
        → Reached app sch t store lapsed
        → Matches app sch store t.tasks lapsed
    Reached-Matches _ _ _ (nothing_yet store empty) =
        λ id. rw (empty (app.platform.str_uuid id)) refl
    Reached-Matches _ _ _
          (by_request inputs later u t request store store' lapsed before filled fresh recorded
            ended) =
        serve-Followed app sch inputs u later lawful distinct t store lapsed
          (Reached-IsConsistent t store lapsed before) (Reached-Matches t store lapsed before)
          request filled fresh store' ended
    Reached-Matches _ _ _ (by_firing id trigger t store store' lapsed before found law) =
        firing-Matches app sch lapsed id trigger store store' t.tasks found law
          (Reached-Matches t store lapsed before)
    Reached-Matches _ _ _ (by_schedule history_id id now t store lapsed before reread removable) =
        execute_scheduled_task-Matches app sch lawful distinct history_id now t store lapsed
          (Reached-Matches t store lapsed before) id reread removable

    -- In every state that the service reaches from an empty database and an empty store of
    -- schedules, by requests to the task routes, each followed by its background tasks, by
    -- scheduled runs, and by APScheduler taking the next time of a schedule and dropping the
    -- schedule if its trigger has no further one, in any order, an id has a schedule exactly if
    -- there is an active task with that id whose schedule has not been dropped so since the last
    -- one was registered for the id; and exactly if the history, replayed, says that there is such
    -- an active task. A user's id is not empty, an id that is created is new, the history can hold
    -- the trigger of a task that is created, the text of an id reads back and texts of different
    -- ids differ, commits and background tasks succeed, the store could remove the schedule of a
    -- task that runs, it replaces and removes just the schedule that it is told to, and nothing
    -- else changes it.
    pub Reached-registered :
        (t : Tables) (store : sch.Store) (lapsed : Uuid → Bool)
        → Reached app sch t store lapsed
        → (id : Uuid)
        → (is_some (sch.trigger_of store (app.platform.str_uuid id))
            ≡ (is_on (state_in id t.tasks) && not (lapsed id)))
          × (is_some (sch.trigger_of store (app.platform.str_uuid id))
              ≡ (is_on (replay id absent t.history) && not (lapsed id)))
    Reached-registered t store lapsed reached id =
        let matched = Reached-Matches t store lapsed reached id in
        let told = (Reached-IsConsistent t store lapsed reached).replayed id in
        (matched, matched ∙ sym (ap (λ s. is_on s && not (lapsed id)) told))
