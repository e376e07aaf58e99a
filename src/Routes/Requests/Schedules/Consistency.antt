-- ===== src/Routes/Requests/Schedules/Consistency.antt =====
-- The tasks and the schedules agree after a request that changes them.
use mathlib.Core.Path.{subst}
use mathlib.Core.Option
use schedualerl_lm.Base.{
  ◌≡◌, refl, sym, String, true, false, not, Option, none, some, List, [], ◌==◌, find, All,
  All-filter, arith, Bool-cases, find_holds, eqb_iff, ◌⊎◌, inl, inr,
}
use schedualerl_lm.Db.Models.{ScheduledTask}
use schedualerl_lm.Db.Session.{Tables, Background}
use schedualerl_lm.Db.Session.User.{owned}
use schedualerl_lm.Python.Datetime.{Datetime, to_utc}
use schedualerl_lm.Python.Platform.{Uuid}
use schedualerl_lm.Python.Result.{Result, ok, err}
use schedualerl_lm.Routes.Requests.{App, Inputs, TaskRequest, activate, deactivate, delete, serve}
use schedualerl_lm.Routes.Requests.Creation.{deleted, deleted_with, serve-delete}
use schedualerl_lm.Routes.Requests.Effects.{
  Effect, effect_of, activated, activated_from, deactivated, serve-activate, serve-deactivate,
}
use schedualerl_lm.Routes.Requests.Schedules.{
  HasDistinctTexts, run_all, IsRegistered, IsSoleOwner, unregister-Switched, register-Switched,
  update_rows-IsRegistered, filter-IsRegistered,
}
use schedualerl_lm.Routes.Tasks.{cannot_activate}
use schedualerl_lm.Scheduler.Service.{Schedules, IsLawfulSchedules}
use schedualerl_lm.Scheduler.Triggers.{compute_next_run_at_for_task}
use schedualerl_lm.Services.TaskHistory.{TriggerColumns, trigger_columns}

-- A request that changes the task of that id.
abbrev pub IsChange : Uuid → TaskRequest → Type 0
IsChange id request = (request ≡ deactivate id) ⊎ (request ≡ activate id) ⊎ (request ≡ delete id)

module _ (app : App) (sch : Schedules app.triggers.Trigger) (inputs : Inputs) (u : String)
    (later : Datetime) where
  open app use {platform, triggers}

  -- The background tasks turn the schedules into ones that agree with the tasks.
  abbrev Turned : sch.Store → List ScheduledTask → List Background → Type 0
  Turned store tasks background =
      (store' : sch.Store)
      → run_all app sch later store background ≡ ok store'
      → All (IsRegistered app sch store') tasks

  abbrev Agrees : sch.Store → Effect → Type 0
  Agrees store e = Turned store e.tables.tasks e.background

  -- Without background tasks the schedules stay as they are.
  without_background :
      (store : sch.Store) (tasks : List ScheduledTask)
      → All (IsRegistered app sch store) tasks
      → Turned store tasks []
  unfolding run_all
  without_background store tasks h store' run =
      subst (λ s. All (IsRegistered app sch s) tasks) (ground arith) h

  module _ (lawful : IsLawfulSchedules sch) (distinct : HasDistinctTexts platform) where
    deactivated-Agrees :
        (t : Tables) (id : Uuid) (store : sch.Store) (found : Option ScheduledTask)
        → ((task : ScheduledTask) → found ≡ some task → task.id ≡ id)
        → All (IsSoleOwner app sch u id) t.tasks
        → All (IsRegistered app sch store) t.tasks
        → Agrees store (deactivated app inputs u id t found)
    deactivated-Agrees t id store none same own h = without_background store t.tasks h
    deactivated-Agrees t id store (some task) same own h = elim (Bool-cases task.is_active) [
      | inr paused ↦ rw paused (without_background store t.tasks h)
      | inl active ↦
          rw (active, same task refl)
            (λ store' run.
              update_rows-IsRegistered app sch u id false none inputs.now store store'
                (unregister-Switched app sch lawful distinct later store store' id run) t.tasks own
                h)
    ]

    activated_from-Agrees :
        (t : Tables) (id : Uuid) (store : sch.Store) (task : ScheduledTask)
        (r : Result (Option Datetime))
        → task.id ≡ id
        → All (IsSoleOwner app sch u id) t.tasks
        → All (IsRegistered app sch store) t.tasks
        → Agrees store (activated_from app inputs u id t task r)
    activated_from-Agrees t id store task (err e) same own h = without_background store t.tasks h
    activated_from-Agrees t id store task (ok next) same own h =
        elim (Bool-cases (cannot_activate platform triggers inputs.now task next)) [
          | inl past ↦ rw past (without_background store t.tasks h)
          | inr ready ↦ rw ready (λ store' run.
              update_rows-IsRegistered app sch u task.id true
                (Option.map (to_utc platform.zones) next) inputs.now store store'
                (register-Switched app sch lawful distinct later store store' _ run) t.tasks
                (subst (λ i. All (IsSoleOwner app sch u i) t.tasks) (sym same) own) h)
        ]

    activated-Agrees :
        (t : Tables) (id : Uuid) (store : sch.Store) (found : Option ScheduledTask)
        → ((task : ScheduledTask) → found ≡ some task → task.id ≡ id)
        → All (IsSoleOwner app sch u id) t.tasks
        → All (IsRegistered app sch store) t.tasks
        → Agrees store (activated app inputs u id t found)
    activated-Agrees t id store none same own h = without_background store t.tasks h
    activated-Agrees t id store (some task) same own h = elim (Bool-cases task.is_active) [
      | inl active ↦ rw active (without_background store t.tasks h)
      | inr paused ↦ simp paused (
          activated_from-Agrees t id store task
            (compute_next_run_at_for_task platform triggers inputs.now task) (same task refl) own h)
    ]

    deleted_with-Agrees :
        (t : Tables) (id : Uuid) (store : sch.Store) (task : ScheduledTask)
        (r : Result TriggerColumns)
        → task.id ≡ id
        → All (IsSoleOwner app sch u id) t.tasks
        → All (IsRegistered app sch store) t.tasks
        → Agrees store (deleted_with app inputs u id t task r)
    deleted_with-Agrees t id store task (err e) same own h = without_background store t.tasks h
    deleted_with-Agrees t id store task (ok columns) same own h = elim (Bool-cases task.is_active) [
      | inr paused ↦ rw paused (
          without_background store _
            (All-filter (IsRegistered app sch store) (λ x. not (owned u task.id x)) t.tasks h))
      | inl active ↦
          rw (active, same)
            (λ store' run.
              filter-IsRegistered app sch u id store store'
                (unregister-Switched app sch lawful distinct later store store' id run) t.tasks own
                h)
    ]

    deleted-Agrees :
        (t : Tables) (id : Uuid) (store : sch.Store) (found : Option ScheduledTask)
        → ((task : ScheduledTask) → found ≡ some task → task.id ≡ id)
        → All (IsSoleOwner app sch u id) t.tasks
        → All (IsRegistered app sch store) t.tasks
        → Agrees store (deleted app inputs u id t found)
    deleted-Agrees t id store none same own h = without_background store t.tasks h
    deleted-Agrees t id store (some task) same own h =
        deleted_with-Agrees t id store task
          (trigger_columns platform task.trigger_type task.trigger_config) (same task refl) own h

    found_id :
        (rows : List ScheduledTask) (id : Uuid) (task : ScheduledTask)
        → find (owned u id) rows ≡ some task
        → task.id ≡ id
    found_id rows id task h =
        let holds = find_holds (owned u id) rows task h in (eqb_iff task.id id).0 (ground arith)

    serve-Agrees :
        (t : Tables) (id : Uuid) (request : TaskRequest) (store : sch.Store)
        → IsChange id request
        → (u == "") ≡ false
        → All (IsSoleOwner app sch u id) t.tasks
        → All (IsRegistered app sch store) t.tasks
        → Agrees store (effect_of (serve app inputs u t request))
    serve-Agrees t id request store (inl same) filled own h =
        rw (same, serve-deactivate app inputs u t id filled)
          (deactivated-Agrees t id store (find (owned u id) t.tasks) (found_id t.tasks id) own h)
    serve-Agrees t id request store (inr (inl same)) filled own h =
        rw (same, serve-activate app inputs u t id filled)
          (activated-Agrees t id store (find (owned u id) t.tasks) (found_id t.tasks id) own h)
    serve-Agrees t id request store (inr (inr same)) filled own h =
        rw (same, serve-delete app inputs u t id filled)
          (deleted-Agrees t id store (find (owned u id) t.tasks) (found_id t.tasks id) own h)

    -- If exactly the active tasks have a schedule, that holds again after a request that
    -- activates, deactivates or deletes a task, however it ends, and after its background tasks,
    -- if those succeed. The user id is not empty, all rows with the id asked for are the user's,
    -- the texts of different UUIDs differ, and the schedule store replaces and removes just the
    -- schedule that it is told to.
    pub serve-IsRegistered :
        (t : Tables) (id : Uuid) (request : TaskRequest) (store store' : sch.Store)
        → IsChange id request
        → (u == "") ≡ false
        → All (IsSoleOwner app sch u id) t.tasks
        → All (IsRegistered app sch store) t.tasks
        → run_all app sch later store (effect_of (serve app inputs u t request)).background
          ≡ ok store'
        → All (IsRegistered app sch store') (effect_of (serve app inputs u t request)).tables.tasks
    serve-IsRegistered t id request store store' change filled own h run =
        serve-Agrees t id request store change filled own h store' run
