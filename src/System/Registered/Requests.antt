-- ===== src/System/Registered/Requests.antt =====
-- After a request and its background tasks the schedules match the tasks again.
use mathlib.Core.Path.{subst}
use mathlib.Core.Option
use schedualerl_lm.Base.{
  ◌≡◌, refl, sym, ◌∙◌, ap, String, Bool, true, false, Option, none, some, [], ◌==◌, eqb, find,
  find_holds, arith, if◌then◌else◌, Bool-cases, inl, inr,
}
use schedualerl_lm.Db.Models.{ScheduledTask}
use schedualerl_lm.Db.Session.{Tables, Session}
use schedualerl_lm.Db.Session.AllRows.{has_id}
use schedualerl_lm.Db.Session.Distinct.{found-IsSole}
use schedualerl_lm.Db.Session.User.{owned}
use schedualerl_lm.Python.Datetime.{Datetime, to_utc}
use schedualerl_lm.Python.Platform.{Uuid, UuidRereads}
use schedualerl_lm.Python.Result.{Result, ok, err, Result-cases}
use schedualerl_lm.Routes.Requests.{
  App, Inputs, TaskRequest, TaskReply, create, list, schedule, run, deactivate, activate, delete,
  serve,
}
use schedualerl_lm.Routes.Requests.Creation.{
  create_lem, serve-delete, created, created_next, deleted, deleted_with,
}
use schedualerl_lm.Routes.Requests.Effects.{
  Effect, effect_of, activated, activated_from, deactivated, serve-activate, serve-deactivate,
}
use schedualerl_lm.Routes.Requests.Reading.{list_lem, schedule_lem}
use schedualerl_lm.Routes.Requests.Replaying.{
  IsApplicable, find-IsSole, owned-id, serve-run_missing,
}
use schedualerl_lm.Routes.Requests.Running.{ran_of, serve-run, ran}
use schedualerl_lm.Routes.Requests.Schedules.{HasDistinctTexts, register-Switched}
use schedualerl_lm.Routes.Tasks.{new_task, cannot_activate}
use schedualerl_lm.Scheduler.Executor.Outcomes.{outcome_for}
use schedualerl_lm.Scheduler.Service.{Schedules, IsLawfulSchedules}
use schedualerl_lm.Scheduler.Triggers.{compute_next_run_at_for_task}
use schedualerl_lm.Schemas.Execution.{WebhookFireOutcome}
use schedualerl_lm.Schemas.Tasks.{StructuredTriggerSpec, TaskCreate}
use schedualerl_lm.Services.TaskHistory.{TriggerColumns, trigger_columns}
use schedualerl_lm.Services.TaskHistory.Replay.{
  IsConsistent, TaskState, present, state_in, state_in-append,
}
use schedualerl_lm.System.Registered.{is_on, Matches}
use schedualerl_lm.System.Registered.Moves.{Follows, started-Matches, kept-Follows}
use schedualerl_lm.System.Registered.Switches.{
  deactivation-Matches, activation-Matches, deletion-Matches, paused_deletion-Matches,
}

is_on-present :
    (b is_once : Bool) (s : TaskState)
    → is_on (if b then present is_once true else s) ≡ (if b then true else is_on s)
is_on-present true is_once s = refl
is_on-present false is_once s = refl

effect_of-ran :
    (app : App) (inputs : Inputs) (u : String) (r : Result TaskReply × Session)
    → (ran_of app inputs u r).3 ≡ []
    → ((effect_of r).background ≡ []) × ((effect_of r).tables ≡ (ran_of app inputs u r).1)
effect_of-ran app inputs u (ok a, s) quiet = (quiet, refl)
effect_of-ran app inputs u (err e, s) quiet = (refl, refl)

ran-quiet :
    (app : App) (inputs : Inputs) (u : String) (t : Tables) (task : ScheduledTask)
    (o : Result WebhookFireOutcome)
    → ((ran app inputs u t task o).3 ≡ []) × ((ran app inputs u t task o).1.tasks ≡ t.tasks)
ran-quiet app inputs u t task (ok o) = (refl, refl)
ran-quiet app inputs u t task (err e) = (refl, refl)

module _ (app : App) (sch : Schedules app.triggers.Trigger) (inputs : Inputs) (u : String)
    (later : Datetime) (lawful : IsLawfulSchedules sch) (distinct : HasDistinctTexts app.platform)
    (t : Tables) (store : sch.Store) (lapsed : Uuid → Bool) (h : IsConsistent t)
    (m : Matches app sch store t.tasks lapsed) where
  abbrev Followed : Effect → Type 0
  Followed e = Follows app sch lapsed later store e.tables.tasks e.background

  unchanged-Followed : Follows app sch lapsed later store t.tasks []
  unchanged-Followed = kept-Follows app sch lapsed later store t.tasks m

  deactivated-Followed :
      (id : Uuid) (found : Option ScheduledTask)
      → find (owned u id) t.tasks ≡ found
      → Followed (deactivated app inputs u id t found)
  deactivated-Followed id none e = unchanged-Followed
  deactivated-Followed id (some task) e = elim (Bool-cases task.is_active) [
    | inl active ↦
        rw (active, owned-id u id t.tasks task e)
          (λ store' ended.
            deactivation-Matches app sch inputs u later lawful distinct t store lapsed h m id task e
              store' ended)
    | inr paused ↦ rw paused unchanged-Followed
  ]

  activated_from-Followed :
      (id : Uuid) (task : ScheduledTask) (e : find (owned u id) t.tasks ≡ some task)
      (r : Result (Option Datetime))
      → Followed (activated_from app inputs u id t task r)
  activated_from-Followed id task e (err x) = unchanged-Followed
  activated_from-Followed id task e (ok next) =
      elim (Bool-cases (cannot_activate app.platform app.triggers inputs.now task next)) [
        | inl no_time ↦ rw no_time unchanged-Followed
        | inr ready ↦
            rw (ready, owned-id u id t.tasks task e)
              (λ store' ended.
                activation-Matches app sch inputs u later lawful distinct t store lapsed h m id task
                  e store' (record task { id = id; is_active = true; next_run_at = next })
                  (Option.map (to_utc app.platform.zones) next) refl ended)
      ]

  activated-Followed :
      (id : Uuid) (found : Option ScheduledTask)
      → find (owned u id) t.tasks ≡ found
      → Followed (activated app inputs u id t found)
  activated-Followed id none e = unchanged-Followed
  activated-Followed id (some task) e = elim (Bool-cases task.is_active) [
    | inl active ↦ rw active unchanged-Followed
    | inr paused ↦ simp paused (
        activated_from-Followed id task e
          (compute_next_run_at_for_task app.platform app.triggers inputs.now task))
  ]

  deleted_with-Followed :
      (id : Uuid) (task : ScheduledTask) (e : find (owned u id) t.tasks ≡ some task)
      (r : Result TriggerColumns)
      → Followed (deleted_with app inputs u id t task r)
  deleted_with-Followed id task e (err x) = unchanged-Followed
  deleted_with-Followed id task e (ok columns) = elim (Bool-cases task.is_active) [
    | inl active ↦
        rw (active, owned-id u id t.tasks task e)
          (λ store' ended.
            deletion-Matches app sch inputs u later lawful distinct t store lapsed h m id task e
              store' ended)
    | inr paused ↦
        rw (paused, owned-id u id t.tasks task e)
          (kept-Follows app sch lapsed later store _ (
            paused_deletion-Matches app sch inputs u later lawful distinct t store lapsed h m id
              task e paused))
  ]

  deleted-Followed :
      (id : Uuid) (found : Option ScheduledTask)
      → find (owned u id) t.tasks ≡ found
      → Followed (deleted app inputs u id t found)
  deleted-Followed id none e = unchanged-Followed
  deleted-Followed id (some task) e =
      deleted_with-Followed id task e
        (trigger_columns app.platform task.trigger_type task.trigger_config)

  created_next-Followed :
      (body : TaskCreate) (spec : StructuredTriggerSpec) (r : Result (Option Datetime))
      → find (has_id inputs.task_uuid) t.tasks ≡ none
      → Followed (created_next app inputs u t body spec r)
  unfolding new_task
  created_next-Followed body spec (err e) fresh = unchanged-Followed
  created_next-Followed body spec (ok next) fresh =
      let task = new_task app.platform app.triggers inputs.task_uuid inputs.now u body spec next in
      elim (Result-cases (trigger_columns app.platform task.trigger_type task.trigger_config)) [
        | inl (exn, failed) ↦ rw failed unchanged-Followed
        | inr (columns, read) ↦ rw read (λ store' ended.
            started-Matches app sch lapsed task.id store store' t.tasks _
              (register-Switched app sch lawful distinct later store store' task ended)
              (λ j.
                rw (state_in-append j task t.tasks fresh) (
                  is_on-present (eqb task.id j) (task.trigger_type == "once") (state_in j t.tasks)))
              m)
      ]

  created-Followed :
      (body : TaskCreate) (r : Result StructuredTriggerSpec)
      → find (has_id inputs.task_uuid) t.tasks ≡ none
      → Followed (created app inputs u t body r)
  created-Followed body (err e) fresh = unchanged-Followed
  created-Followed body (ok spec) fresh = created_next-Followed body spec _ fresh

  by_effect :
      (r : Result TaskReply × Session) (e : Effect)
      → effect_of r ≡ e
      → Followed e
      → Followed (effect_of r)
  by_effect r e same k = subst Followed (sym same) k

  run_found-Followed :
      (id : Uuid) (found : Option ScheduledTask)
      → (u == "") ≡ false
      → UuidRereads app.platform id
      → find (owned u id) t.tasks ≡ found
      → Followed (effect_of (serve app inputs u t (run id)))
  run_found-Followed id none filled reread e =
      by_effect (serve app inputs u t (run id)) _ (serve-run_missing app inputs u t h id filled e)
        unchanged-Followed
  run_found-Followed id (some task) filled reread e =
      let same = owned-id u id t.tasks task e in
      let own = found-IsSole u id t.tasks task h.distinct e in
      let found : find (has_id id) t.tasks ≡ some task = sym (find-IsSole u id t.tasks own) ∙ e in
      let mine : (task.user_id == u) ≡ true =
        (let k = find_holds (owned u id) t.tasks task e in ground arith) in
      let ended =
        serve-run app inputs u t id task filled (subst (UuidRereads app.platform) (sym same) reread)
          found mine in
      let r = serve app inputs u t (run id) in
      let quiet =
        ran-quiet app inputs u t task
          (outcome_for app.platform app.jwt app.executor inputs.now task) in
      let seen = effect_of-ran app inputs u r (ap (λ x. x.3) ended ∙ quiet.0) in
      let kept = ap (λ (x : Tables). x.tasks) seen.1 ∙ (ap (λ x. x.1.tasks) ended ∙ quiet.1) in
      rw (seen.0, kept) unchanged-Followed

  pub serve-Followed :
      (request : TaskRequest)
      → (u == "") ≡ false
      → IsApplicable app inputs u t request
      → Followed (effect_of (serve app inputs u t request))
  serve-Followed (create body) filled own =
      by_effect _ _ (create_lem app inputs u t body filled own) (created-Followed body _ own)
  serve-Followed (list query) filled own =
      by_effect _ _ (list_lem app inputs u t query filled) unchanged-Followed
  serve-Followed (schedule id query) filled own =
      by_effect _ _ (schedule_lem app inputs u t id query filled) unchanged-Followed
  serve-Followed (run id) filled own = run_found-Followed id _ filled own refl
  serve-Followed (deactivate id) filled own =
      by_effect _ _ (serve-deactivate app inputs u t id filled) (deactivated-Followed id _ refl)
  serve-Followed (activate id) filled own =
      by_effect _ _ (serve-activate app inputs u t id filled) (activated-Followed id _ refl)
  serve-Followed (delete id) filled own =
      by_effect _ _ (serve-delete app inputs u t id filled) (deleted-Followed id _ refl)
