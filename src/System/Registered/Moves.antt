-- ===== src/System/Registered/Moves.antt =====
-- How schedules and tasks move together.
use mathlib.Core.Path.{subst}
use schedualerl_lm.Base.{
  ◌≡◌, Bool, List, [], eqb, arith, if◌then◌else◌, eqb_iff, ap, sym, not, is_some, Bool-cases, inl,
  inr, true, false, some, refl,
}
use schedualerl_lm.Db.Models.{ScheduledTask}
use schedualerl_lm.Db.Session.{Background}
use schedualerl_lm.Python.Datetime.{Datetime}
use schedualerl_lm.Python.Platform.{Uuid}
use schedualerl_lm.Python.Result.{ok}
use schedualerl_lm.Routes.Requests.{App}
use schedualerl_lm.Routes.Requests.Schedules.{run_all, Switched}
use schedualerl_lm.Scheduler.Service.{Schedules}
use schedualerl_lm.Services.TaskHistory.Replay.{state_in}
use schedualerl_lm.System.Registered.{is_on, Matches, revive, revived, after_firing}

not-not : (b : Bool) → not (not b) ≡ b
not-not true = refl
not-not false = refl

module _ (app : App) (sch : Schedules app.triggers.Trigger) (lapsed : Uuid → Bool) where
  -- The background tasks, run to their end, make the schedules match the tasks.
  abbrev pub Follows : Datetime → sch.Store → List ScheduledTask → List Background → Type 0
  Follows later store tasks background =
      (store' : sch.Store)
      → run_all app sch later store background ≡ ok store'
      → Matches app sch store' tasks (revived background lapsed)

  -- One id is switched off, in the schedules and in the tables.
  pub stopped-Matches :
      (id : Uuid) (store store' : sch.Store) (tasks tasks' : List ScheduledTask)
      → Switched app sch id false store store'
      → ((j : Uuid)
          → is_on (state_in j tasks') ≡ (if eqb id j then false else is_on (state_in j tasks)))
      → Matches app sch store tasks lapsed
      → Matches app sch store' tasks' lapsed
  stopped-Matches id store store' tasks tasks' sw moved h j = ground (arith, sw j, moved j, h j)

  -- One id is switched on, with a new schedule.
  pub started-Matches :
      (id : Uuid) (store store' : sch.Store) (tasks tasks' : List ScheduledTask)
      → Switched app sch id true store store'
      → ((j : Uuid)
          → is_on (state_in j tasks') ≡ (if eqb id j then true else is_on (state_in j tasks)))
      → Matches app sch store tasks lapsed
      → Matches app sch store' tasks' (revive id lapsed)
  started-Matches id store store' tasks tasks' sw moved h j = ground (arith, sw j, moved j, h j)

  pub kept-Follows :
      (later : Datetime) (store : sch.Store) (tasks : List ScheduledTask)
      → Matches app sch store tasks lapsed
      → Follows later store tasks []
  unfolding run_all
  kept-Follows later store tasks h store' run =
      let same : store ≡ store' = ground arith in subst (λ s. Matches app sch s tasks lapsed) same h

  -- APScheduler takes a time of a schedule, and drops it if that was the last one.
  pub firing-Matches :
      (id : Uuid) (trigger : app.triggers.Trigger) (store store' : sch.Store)
      (tasks : List ScheduledTask)
      → sch.trigger_of store (app.platform.str_uuid id) ≡ some trigger
      → ((j : Uuid)
          → sch.trigger_of store' (app.platform.str_uuid j) ≡ (
              if eqb id j
              then after_firing app sch trigger
              else sch.trigger_of store (app.platform.str_uuid j)))
      → Matches app sch store tasks lapsed
      → Matches app sch store' tasks
          (λ j. if eqb id j then not (is_some (after_firing app sch trigger)) else lapsed j)
  firing-Matches id trigger store store' tasks found law h j = elim (Bool-cases (eqb id j)) [
    | inl this ↦
        let there : is_some (sch.trigger_of store (app.platform.str_uuid j)) ≡ true =
          subst (λ k. is_some (sch.trigger_of store (app.platform.str_uuid k)) ≡ true)
            ((eqb_iff id j).0 this) (ap is_some found) in
        let on : is_on (state_in j tasks) ≡ true = ground (arith, h j, there) in
        rw (law j, this, on) (sym (not-not _))
    | inr other ↦ rw (law j, other) (h j)
  ]
