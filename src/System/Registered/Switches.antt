-- ===== src/System/Registered/Switches.antt =====
-- A row and its schedule are switched together.
use mathlib.Core.Path.{subst}
use schedualerl_lm.Base.{
  ◌≡◌, refl, sym, ◌∙◌, ap, String, Bool, true, false, not, ◌&&◌, Option, none, some, [], ◌∷◌, eqb,
  eqb_iff, find, filter, All, if◌then◌else◌, Bool-cases, inl, inr,
}
use schedualerl_lm.Db.Models.{ScheduledTask}
use schedualerl_lm.Db.Session.{Tables, update_rows, set_row, register, unregister}
use schedualerl_lm.Db.Session.AllRows.{has_id}
use schedualerl_lm.Db.Session.Distinct.{IsSole, found-IsSole}
use schedualerl_lm.Db.Session.User.{owned}
use schedualerl_lm.Python.Datetime.{Datetime}
use schedualerl_lm.Python.Platform.{Uuid}
use schedualerl_lm.Python.Result.{ok}
use schedualerl_lm.Routes.Requests.{App, Inputs}
use schedualerl_lm.Routes.Requests.Replaying.{find-IsSole, owned-id}
use schedualerl_lm.Routes.Requests.Schedules.{
  run_all, Switched, HasDistinctTexts, unregister-Switched, register-Switched,
}
use schedualerl_lm.Scheduler.Service.{Schedules, IsLawfulSchedules}
use schedualerl_lm.Services.TaskHistory.Replay.{
  IsConsistent, TaskState, absent, present, switched, state_of, state_in, state_in-update_rows,
  state_in-filter,
}
use schedualerl_lm.System.Registered.{is_on, Matches, revive}
use schedualerl_lm.System.Registered.Moves.{stopped-Matches, started-Matches}

abbrev is_there : TaskState → Bool
is_there absent = false
is_there (present is_once active) = true

is_on-off :
    (b : Bool) (s : TaskState)
    → is_on (if b then switched false s else s) ≡ (if b then false else is_on s)
is_on-off true absent = refl
is_on-off true (present is_once active) = refl
is_on-off false s = refl

is_on-on :
    (b : Bool) (s : TaskState)
    → (b ≡ true → is_there s ≡ true)
    → is_on (if b then switched true s else s) ≡ (if b then true else is_on s)
is_on-on true absent there = there refl
is_on-on true (present is_once active) there = refl
is_on-on false s there = refl

is_on-gone :
    (b : Bool) (s : TaskState) → is_on (if b then absent else s) ≡ (if b then false else is_on s)
is_on-gone true s = refl
is_on-gone false s = refl

module _ (app : App) (sch : Schedules app.triggers.Trigger) (inputs : Inputs) (u : String)
    (later : Datetime) (lawful : IsLawfulSchedules sch) (distinct : HasDistinctTexts app.platform)
    (t : Tables) (store : sch.Store) (lapsed : Uuid → Bool) (h : IsConsistent t)
    (m : Matches app sch store t.tasks lapsed) where
  module _ (id : Uuid) (task : ScheduledTask) (e : find (owned u id) t.tasks ≡ some task) where
    same : task.id ≡ id
    same = owned-id u id t.tasks task e

    sole : All (IsSole u id) t.tasks
    sole = found-IsSole u id t.tasks task h.distinct e

    here : (j : Uuid) → eqb id j ≡ true → state_in j t.tasks ≡ state_of (some task)
    here j equal =
        let by_id : find (has_id id) t.tasks ≡ some task =
          sym (find-IsSole u id t.tasks sole) ∙ e in
        ap state_of
          (subst (λ k. find (has_id k) t.tasks ≡ some task) ((eqb_iff id j).0 equal) by_id)

    -- The rows of the id are switched, and so is its schedule.
    pub deactivation-Matches :
        (store' : sch.Store)
        → run_all app sch later store (unregister id ∷ []) ≡ ok store'
        → Matches app sch store'
            (update_rows (owned u id) (set_row false none inputs.now) t.tasks)
            lapsed
    deactivation-Matches store' ended =
        stopped-Matches app sch lapsed id store store' t.tasks _
          (unregister-Switched app sch lawful distinct later store store' id ended)
          (λ j.
            rw (state_in-update_rows u id j false none inputs.now t.tasks sole)
              (is_on-off (eqb id j) (state_in j t.tasks)))
          m

    pub activation-Matches :
        (store' : sch.Store) (changed_task : ScheduledTask) (next : Option Datetime)
        → changed_task.id ≡ id
        → run_all app sch later store (register changed_task ∷ []) ≡ ok store'
        → Matches app sch store'
            (update_rows (owned u id) (set_row true next inputs.now) t.tasks)
            (revive id lapsed)
    activation-Matches store' changed_task next of_id ended =
        started-Matches app sch lapsed id store store' t.tasks _
          (subst (λ k. Switched app sch k true store store') of_id
            (register-Switched app sch lawful distinct later store store' changed_task ended))
          (λ j.
            rw (state_in-update_rows u id j true next inputs.now t.tasks sole)
              (is_on-on (eqb id j) (state_in j t.tasks) (λ equal. rw (here j equal) refl)))
          m

    pub deletion-Matches :
        (store' : sch.Store)
        → run_all app sch later store (unregister id ∷ []) ≡ ok store'
        → Matches app sch store' (filter (λ x. not (owned u id x)) t.tasks) lapsed
    deletion-Matches store' ended =
        stopped-Matches app sch lapsed id store store' t.tasks _
          (unregister-Switched app sch lawful distinct later store store' id ended)
          (λ j.
            rw (state_in-filter u id j t.tasks sole) (is_on-gone (eqb id j) (state_in j t.tasks)))
          m

    -- A paused task has no schedule that could be left over.
    pub paused_deletion-Matches :
        task.is_active ≡ false
        → Matches app sch store (filter (λ x. not (owned u id x)) t.tasks) lapsed
    paused_deletion-Matches paused j =
        rw (state_in-filter u id j t.tasks sole) (elim (Bool-cases (eqb id j)) [
          | inl equal ↦
              rw equal (m j ∙ ap (λ s. is_on s && not (lapsed j)) (here j equal) ∙ rw paused refl)
          | inr other ↦ rw other (m j)
        ])
