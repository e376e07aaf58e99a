-- ===== src/Routes/Requests/Replaying.antt =====
-- The tables and their history agree: every change of a task that a request or a scheduled run commits
-- is a change that the history tells.
use mathlib.Core.Path.{subst}
use schedualerl_lm.Base.{
  ◌≡◌, refl, sym, ◌∙◌, String, true, false, Option, none, some, List, [], ◌∷◌, ◌==◌, eqb, eqb_iff,
  find, find_holds, All, arith, Bool-cases, inl, inr,
}
use schedualerl_lm.Db.Models.{ScheduledTask}
use schedualerl_lm.Db.Session.{Tables, Session, get_db, ◌>>=◌, commit, rollback}
use schedualerl_lm.Db.Session.AllRows.{has_id}
use schedualerl_lm.Db.Session.Distinct.{IsSole, found-IsSole}
use schedualerl_lm.Db.Session.User.{owned, open_session_lem}
use schedualerl_lm.Python.Datetime.{Datetime}
use schedualerl_lm.Python.Platform.{Uuid, UuidRereads}
use schedualerl_lm.Python.Result.{Result, ok, err, http_exception, Result-cases}
use schedualerl_lm.Routes.Requests.{
  App, Inputs, TaskRequest, TaskReply, create, list, schedule, run, deactivate, activate, delete,
  perform, serve,
}
use schedualerl_lm.Routes.Requests.Creation.{
  create_lem, serve-delete, created, created_next, deleted,
}
use schedualerl_lm.Routes.Requests.Effects.{
  Effect, effect_of, unchanged, get_task_or_404_lem, activated, activated_from, deactivated,
  serve-activate, serve-deactivate,
}
use schedualerl_lm.Routes.Requests.Reading.{list_lem, schedule_lem}
use schedualerl_lm.Routes.Requests.Running.{serve-run, ran}
use schedualerl_lm.Routes.Tasks.{run_task, new_task, cannot_activate}
use schedualerl_lm.Scheduler.Triggers.{compute_next_run_at_for_task}
use schedualerl_lm.Schemas.Execution.{WebhookFireOutcome}
use schedualerl_lm.Schemas.Tasks.{StructuredTriggerSpec, TaskCreate}
use schedualerl_lm.Services.TaskHistory.{trigger_columns}
use schedualerl_lm.Services.TaskHistory.Recorded.{
  deactivation-IsConsistent, activation-IsConsistent, creation-IsConsistent, deletion-IsConsistent,
  run-IsConsistent,
}
use schedualerl_lm.Services.TaskHistory.Replay.{IsConsistent}

-- A row that the user finds is the one with its id.
pub find-IsSole :
    (u : String) (id : Uuid) (tasks : List ScheduledTask)
    → All (IsSole u id) tasks
    → find (owned u id) tasks ≡ find (has_id id) tasks
find-IsSole u id [] own = refl
find-IsSole u id (x ∷ tasks) own = elim (Bool-cases (eqb x.id id)) [
  | inl this ↦ let mine = own.0 this in ground arith
  | inr other ↦ rw other (find-IsSole u id tasks own.1)
]

pub owned-id :
    (u : String) (id : Uuid) (tasks : List ScheduledTask) (task : ScheduledTask)
    → find (owned u id) tasks ≡ some task
    → task.id ≡ id
owned-id u id tasks task found =
    let mine = find_holds (owned u id) tasks task found in
    let same : eqb task.id id ≡ true = ground arith in (eqb_iff task.id id).0 same

pub effect_of-tables : (r : Result TaskReply × Session) → (effect_of r).tables ≡ r.1.committed
effect_of-tables (ok a, s) = refl
effect_of-tables (err e, s) = refl

module _ (app : App) (inputs : Inputs) (u : String) (t : Tables) where
  -- What a request relies on: a new id is fresh, and the text of an id reads back.
  abbrev pub IsApplicable : TaskRequest → Type 0
  IsApplicable (create body) = find (has_id inputs.task_uuid) t.tasks ≡ none
  IsApplicable (list query) = Unit
  IsApplicable (schedule id query) = Unit
  IsApplicable (run id) = UuidRereads app.platform id
  IsApplicable (deactivate id) = Unit
  IsApplicable (activate id) = Unit
  IsApplicable (delete id) = Unit

module _ (app : App) (inputs : Inputs) (u : String) (t : Tables) (h : IsConsistent t) where
  by_effect :
      (r : Result TaskReply × Session) (e : Effect)
      → effect_of r ≡ e
      → IsConsistent e.tables
      → IsConsistent r.1.committed
  by_effect r e same k =
      subst IsConsistent (effect_of-tables r) (subst (λ f. IsConsistent f.tables) (sym same) k)

  sole :
      (id : Uuid) (task : ScheduledTask)
      → find (owned u id) t.tasks ≡ some task
      → All (IsSole u task.id) t.tasks
  sole id task e =
      subst (λ k. All (IsSole u k) t.tasks) (sym (owned-id u id t.tasks task e))
        (found-IsSole u id t.tasks task h.distinct e)

  deactivated-IsConsistent :
      (id : Uuid) (found : Option ScheduledTask)
      → find (owned u id) t.tasks ≡ found
      → IsConsistent (deactivated app inputs u id t found).tables
  deactivated-IsConsistent id none e = h
  deactivated-IsConsistent id (some task) e = elim (Bool-cases task.is_active) [
    | inl active ↦
        rw (deactivated, active)
          (deactivation-IsConsistent t u task.id inputs.history_uuid inputs.now (sole id task e) h)
    | inr paused ↦ rw (deactivated, paused) h
  ]

  activated_from-IsConsistent :
      (id : Uuid) (task : ScheduledTask) (r : Result (Option Datetime))
      → All (IsSole u task.id) t.tasks
      → IsConsistent (activated_from app inputs u id t task r).tables
  activated_from-IsConsistent id task (err e) own = h
  activated_from-IsConsistent id task (ok next) own =
      elim (Bool-cases (cannot_activate app.platform app.triggers inputs.now task next)) [
        | inl no_time ↦ rw no_time h
        | inr ready ↦
            rw ready (activation-IsConsistent t u task.id inputs.history_uuid _ inputs.now own h)
      ]

  activated-IsConsistent :
      (id : Uuid) (found : Option ScheduledTask)
      → find (owned u id) t.tasks ≡ found
      → IsConsistent (activated app inputs u id t found).tables
  activated-IsConsistent id none e = h
  activated-IsConsistent id (some task) e = elim (Bool-cases task.is_active) [
    | inl active ↦ rw active h
    | inr paused ↦ simp paused (
        activated_from-IsConsistent id task
          (compute_next_run_at_for_task app.platform app.triggers inputs.now task) (sole id task e))
  ]

  deleted-IsConsistent :
      (id : Uuid) (found : Option ScheduledTask)
      → find (owned u id) t.tasks ≡ found
      → IsConsistent (deleted app inputs u id t found).tables
  deleted-IsConsistent id none e = h
  deleted-IsConsistent id (some task) e =
      elim (Result-cases (trigger_columns app.platform task.trigger_type task.trigger_config)) [
        | inl (exn, failed) ↦ rw failed h
        | inr (columns, read) ↦ rw read (
            deletion-IsConsistent app.platform t u inputs.history_uuid inputs.now task columns
              (sole id task e) h)
      ]

  created_next-IsConsistent :
      (body : TaskCreate) (spec : StructuredTriggerSpec) (r : Result (Option Datetime))
      → find (has_id inputs.task_uuid) t.tasks ≡ none
      → IsConsistent (created_next app inputs u t body spec r).tables
  unfolding new_task
  created_next-IsConsistent body spec (err e) fresh = h
  created_next-IsConsistent body spec (ok next) fresh =
      let task = new_task app.platform app.triggers inputs.task_uuid inputs.now u body spec next in
      elim (Result-cases (trigger_columns app.platform task.trigger_type task.trigger_config)) [
        | inl (exn, failed) ↦ rw failed h
        | inr (columns, read) ↦ rw read (
            creation-IsConsistent app.platform t u inputs.history_uuid inputs.now task columns fresh
              refl h)
      ]

  created-IsConsistent :
      (body : TaskCreate) (r : Result StructuredTriggerSpec)
      → find (has_id inputs.task_uuid) t.tasks ≡ none
      → IsConsistent (created app inputs u t body r).tables
  created-IsConsistent body (err e) fresh = h
  created-IsConsistent body (ok spec) fresh = created_next-IsConsistent body spec _ fresh

  pub serve-run_missing :
      (id : Uuid)
      → (u == "") ≡ false
      → find (owned u id) t.tasks ≡ none
      → effect_of (serve app inputs u t (run id))
        ≡ unchanged app inputs u t (err (http_exception 404 "Task not found"))
  unfolding serve get_db perform run_task ◌>>=◌ commit rollback
  serve-run_missing id filled missing =
      rw (open_session_lem u t filled, get_task_or_404_lem, missing) refl

  ran-IsConsistent :
      (task : ScheduledTask) (r : Result WebhookFireOutcome)
      → IsConsistent (ran app inputs u t task r).1
  ran-IsConsistent task (err e) = h
  ran-IsConsistent task (ok o) =
      run-IsConsistent t inputs.history_uuid inputs.now u task.id task.webhook_url o.success
        o.http_status o.error_message h

  run_found-IsConsistent :
      (id : Uuid) (found : Option ScheduledTask)
      → (u == "") ≡ false
      → UuidRereads app.platform id
      → find (owned u id) t.tasks ≡ found
      → IsConsistent (serve app inputs u t (run id)).1.committed
  run_found-IsConsistent id none filled reread e =
      by_effect (serve app inputs u t (run id)) _ (serve-run_missing id filled e) h
  run_found-IsConsistent id (some task) filled reread e =
      let same = owned-id u id t.tasks task e in
      let own = found-IsSole u id t.tasks task h.distinct e in
      let found : find (has_id id) t.tasks ≡ some task = sym (find-IsSole u id t.tasks own) ∙ e in
      let mine : (task.user_id == u) ≡ true =
        (let k = find_holds (owned u id) t.tasks task e in ground arith) in
      let ended =
        serve-run app inputs u t id task filled (subst (UuidRereads app.platform) (sym same) reread)
          found mine in
      subst (λ x. IsConsistent x.1) (sym ended) (ran-IsConsistent task _)

  pub serve-IsConsistent :
      (request : TaskRequest)
      → (u == "") ≡ false
      → IsApplicable app inputs u t request
      → IsConsistent (serve app inputs u t request).1.committed
  serve-IsConsistent (create body) filled own =
      by_effect _ _ (create_lem app inputs u t body filled own) (created-IsConsistent body _ own)
  serve-IsConsistent (list query) filled own =
      by_effect _ _ (list_lem app inputs u t query filled) h
  serve-IsConsistent (schedule id query) filled own =
      by_effect _ _ (schedule_lem app inputs u t id query filled) h
  serve-IsConsistent (run id) filled own = run_found-IsConsistent id _ filled own refl
  serve-IsConsistent (deactivate id) filled own =
      by_effect _ _ (serve-deactivate app inputs u t id filled) (deactivated-IsConsistent id _ refl)
  serve-IsConsistent (activate id) filled own =
      by_effect _ _ (serve-activate app inputs u t id filled) (activated-IsConsistent id _ refl)
  serve-IsConsistent (delete id) filled own =
      by_effect _ _ (serve-delete app inputs u t id filled) (deleted-IsConsistent id _ refl)
