-- ===== src/Routes/Requests/Schedules.antt =====
-- The schedules follow the tasks: a request and its background tasks leave a schedule for the active
-- tasks and for no other.
pub mod Consistency
use mathlib.Core.Option
use schedualerl_lm.Base.{
  ◌≡◌, refl, ◌∙◌, ap, sym, String, Bool, true, false, not, Option, none, some, List, [], ◌∷◌, ◌++◌,
  ◌==◌, eqb, eqb_iff, find, filter, is_some, All, All-append, arith, Bool-cases, Option-cases, inl,
  inr, if◌then◌else◌,
}
use schedualerl_lm.Db.Models.{ScheduledTask}
use schedualerl_lm.Db.Session.{Tables, Background, register, unregister, update_rows, set_row}
use schedualerl_lm.Db.Session.User.{owned}
use schedualerl_lm.Python.Datetime.{Datetime}
use schedualerl_lm.Python.Platform.{Platform, Uuid}
use schedualerl_lm.Python.Result.{Result, ok, err, ◌>>=◌, >>=-eq-ok, Result-cases}
use schedualerl_lm.Routes.Requests.{App}
use schedualerl_lm.Scheduler.Service.{
  Schedules, IsLawfulSchedules, register_schedule, unregister_schedule, run_background,
}
use schedualerl_lm.Scheduler.Triggers.{build_trigger_from_task}

-- Texts of different UUIDs differ.
abbrev pub HasDistinctTexts : Platform → Type 0
HasDistinctTexts p = (a b : Uuid) → (p.str_uuid a == p.str_uuid b) ≡ eqb b a

module _ (app : App) (sch : Schedules app.triggers.Trigger) where
  open app use {platform, triggers}

  -- The background tasks of a response, in their order.
  unfoldable pub run_all : Datetime → sch.Store → List Background → Result sch.Store
  run_all now store [] = ok store
  run_all now store (b ∷ rest) =
      run_background platform triggers sch now store b >>= λ store'. run_all now store' rest

  -- There is a schedule for the task exactly if it is active.
  abbrev pub IsRegistered : sch.Store → ScheduledTask → Type 0
  IsRegistered store task =
      is_some (sch.trigger_of store (platform.str_uuid task.id)) ≡ task.is_active

  -- The schedule of one task id is there or not, and those of the others are as before.
  abbrev pub Switched : Uuid → Bool → sch.Store → sch.Store → Type 0
  Switched id active store store' =
      (j : Uuid)
      → is_some (sch.trigger_of store' (platform.str_uuid j))
        ≡ (if eqb j id then active else is_some (sch.trigger_of store (platform.str_uuid j)))

  module _ (lawful : IsLawfulSchedules sch) (distinct : HasDistinctTexts platform)
      (now : Datetime) where
    pub unregister-Switched :
        (store store' : sch.Store) (id : Uuid)
        → run_all now store (unregister id ∷ []) ≡ ok store'
        → Switched id false store store'
    unfolding run_all run_background unregister_schedule
    unregister-Switched store store' id h j =
        let (after, removed, same) =
          >>=-eq-ok (sch.remove_schedule store (platform.str_uuid id)) _ h in
        let law =
          lawful.trigger_of-remove_schedule store after (platform.str_uuid id) (platform.str_uuid j)
            removed in
        ground (arith, law, distinct id j, same)

    pub register-Switched :
        (store store' : sch.Store) (task : ScheduledTask)
        → run_all now store (register task ∷ []) ≡ ok store'
        → Switched task.id true store store'
    unfolding run_all run_background register_schedule
    register-Switched store store' task h j =
        let (after, registered, same) =
          >>=-eq-ok (register_schedule platform triggers sch now store task) _ h in
        let (trigger, _, added) =
          >>=-eq-ok (build_trigger_from_task platform triggers now task) _ registered in
        let law =
          lawful.trigger_of-add_schedule store after (platform.str_uuid task.id)
            (platform.str_uuid j) trigger added in
        ground (arith, law, distinct task.id j, same)

  -- Every row with that id is the user's.
  abbrev pub IsSoleOwner : String → Uuid → ScheduledTask → Type 0
  IsSoleOwner u id x = eqb x.id id ≡ true → owned u id x ≡ true

  pub update_rows-IsRegistered :
      (u : String) (id : Uuid) (active : Bool) (next : Option Datetime) (now : Datetime)
      (store store' : sch.Store)
      → Switched id active store store'
      → (rows : List ScheduledTask) → All (IsSoleOwner u id) rows
      → All (IsRegistered store) rows
      → All (IsRegistered store') (update_rows (owned u id) (set_row active next now) rows)
  update_rows-IsRegistered u id active next now store store' sw [] own h = tt
  update_rows-IsRegistered u id active next now store store' sw (x ∷ rows) own h = (
    elim (Bool-cases (eqb x.id id)) [
      | inl this ↦ rw (own.0 this) (ground (arith, sw x.id))
      | inr other ↦ rw other (ground (arith, sw x.id, h.0))
    ],
    update_rows-IsRegistered u id active next now store store' sw rows own.1 h.1,
  )

  pub filter-IsRegistered :
      (u : String) (id : Uuid) (store store' : sch.Store)
      → Switched id false store store'
      → (rows : List ScheduledTask) → All (IsSoleOwner u id) rows
      → All (IsRegistered store) rows
      → All (IsRegistered store') (filter (λ x. not (owned u id x)) rows)
  filter-IsRegistered u id store store' sw [] own h = tt
  filter-IsRegistered u id store store' sw (x ∷ rows) own h = elim (Bool-cases (eqb x.id id)) [
    | inl this ↦ rw (own.0 this) (filter-IsRegistered u id store store' sw rows own.1 h.1)
    | inr other ↦
        rw other
          ((ground (arith, sw x.id, h.0), filter-IsRegistered u id store store' sw rows own.1 h.1))
  ]
