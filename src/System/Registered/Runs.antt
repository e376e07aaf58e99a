-- ===== src/System/Registered/Runs.antt =====
-- After a scheduled run the schedules match the tasks again.
use mathlib.Core.Path.{subst}
use schedualerl_lm.Base.{
  ◌≡◌, refl, sym, Bool, true, false, Option, none, some, List, [], ◌∷◌, ◌==◌, eqb, eqb_iff, find,
  find_holds, arith, if◌then◌else◌, Bool-cases, inl, inr,
}
use schedualerl_lm.Db.Models.{ScheduledTask}
use schedualerl_lm.Db.Session.{Tables, update_rows, set_row}
use schedualerl_lm.Db.Session.AllRows.{has_id}
use schedualerl_lm.Python.Datetime.{Datetime}
use schedualerl_lm.Python.Platform.{Uuid, UuidRereads}
use schedualerl_lm.Python.Result.{Result, ok, err, is_ok}
use schedualerl_lm.Routes.Requests.{App}
use schedualerl_lm.Routes.Requests.Schedules.{HasDistinctTexts, Switched}
use schedualerl_lm.Scheduler.Execution.{execute_scheduled_task}
use schedualerl_lm.Scheduler.Execution.Effects.{
  execute_scheduled_task_lem, executed, fired, removed,
}
use schedualerl_lm.Scheduler.Executor.Outcomes.{outcome_for}
use schedualerl_lm.Scheduler.Service.{Schedules, IsLawfulSchedules}
use schedualerl_lm.Schemas.Execution.{WebhookFireOutcome}
use schedualerl_lm.Services.TaskHistory.Replay.{state_in}
use schedualerl_lm.System.Registered.{is_on, Matches}
use schedualerl_lm.System.Registered.Moves.{stopped-Matches}

-- Pausing every row with an id.
is_on-paused :
    (id j : Uuid) (next : Option Datetime) (now : Datetime) (tasks : List ScheduledTask)
    → is_on (state_in j (update_rows (has_id id) (set_row false next now) tasks))
      ≡ (if eqb id j then false else is_on (state_in j tasks))
is_on-paused id j next now [] = ground arith
is_on-paused id j next now (x ∷ tasks) = elim (Bool-cases (eqb x.id id)) [
  | inl this ↦ rw this (ground (arith, is_on-paused id j next now tasks))
  | inr other ↦ rw other (ground (arith, is_on-paused id j next now tasks))
]

module _ (app : App) (sch : Schedules app.triggers.Trigger) (lawful : IsLawfulSchedules sch)
    (distinct : HasDistinctTexts app.platform) (history_id : Uuid) (now : Datetime) (t : Tables)
    (store : sch.Store) (lapsed : Uuid → Bool) (m : Matches app sch store t.tasks lapsed) where
  removal-Switched :
      (id : Uuid) (store' : sch.Store)
      → sch.remove_schedule store (app.platform.str_uuid id) ≡ ok store'
      → Switched app sch id false store store'
  removal-Switched id store' gone j =
      let law =
        lawful.trigger_of-remove_schedule store store' (app.platform.str_uuid id)
          (app.platform.str_uuid j) gone in
      ground (arith, law, distinct id j)

  removed-Matches :
      (task : ScheduledTask) (o : WebhookFireOutcome) (r : Result sch.Store)
      → sch.remove_schedule store (app.platform.str_uuid task.id) ≡ r
      → is_ok r ≡ true
      → Matches app sch
          (removed app.platform app.jwt app.executor sch history_id now t store task o r).3
          (removed app.platform app.jwt app.executor sch history_id now t store task o r).1.tasks
          lapsed
  removed-Matches task o (ok store') gone succeeds =
      stopped-Matches app sch lapsed task.id store store' t.tasks _
        (removal-Switched task.id store' gone) (λ j. is_on-paused task.id j none now t.tasks) m
  removed-Matches task o (err e) gone succeeds = absurd (ground arith)

  fired-Matches :
      (task : ScheduledTask) (r : Result WebhookFireOutcome)
      → is_ok (sch.remove_schedule store (app.platform.str_uuid task.id)) ≡ true
      → Matches app sch
          (fired app.platform app.jwt app.executor sch history_id now t store task r).3
          (fired app.platform app.jwt app.executor sch history_id now t store task r).1.tasks
          lapsed
  fired-Matches task (err e) succeeds = m
  fired-Matches task (ok o) succeeds = elim (Bool-cases o.success) [
    | inl success ↦ elim (Bool-cases (task.trigger_type == "once")) [
      | inl once ↦
          simp (success, once)
            (removed-Matches task o (sch.remove_schedule store (app.platform.str_uuid task.id)) refl
              succeeds)
      | inr many ↦ simp (success, many) m
    ]
    | inr failed ↦ simp failed m
  ]

  executed-Matches :
      (found : Option ScheduledTask)
      → ((task : ScheduledTask)
          → found ≡ some task
          → is_ok (sch.remove_schedule store (app.platform.str_uuid task.id)) ≡ true)
      → Matches app sch
          (executed app.platform app.jwt app.executor sch history_id now t store found).3
          (executed app.platform app.jwt app.executor sch history_id now t store found).1.tasks
          lapsed
  executed-Matches none succeeds = m
  executed-Matches (some task) succeeds = elim (Bool-cases task.is_active) [
    | inl active ↦ simp active (
        fired-Matches task (outcome_for app.platform app.jwt app.executor now task)
          (succeeds task refl))
    | inr paused ↦ simp paused m
  ]

  pub execute_scheduled_task-Matches :
      (id : Uuid)
      → UuidRereads app.platform id
      → is_ok (sch.remove_schedule store (app.platform.str_uuid id)) ≡ true
      → Matches app sch
          (execute_scheduled_task app.platform app.jwt sch
            (some app.executor)
            history_id
            now
            (app.platform.str_uuid id)
            t
            store).store
          (execute_scheduled_task app.platform app.jwt sch
            (some app.executor)
            history_id
            now
            (app.platform.str_uuid id)
            t
            store).session.committed.tasks
          lapsed
  execute_scheduled_task-Matches id reread succeeds =
      subst (λ x. Matches app sch x.3 x.1.tasks lapsed)
        (sym (
          execute_scheduled_task_lem app.platform app.jwt app.executor sch history_id now t store id
            reread))
        (executed-Matches (find (has_id id) t.tasks) (λ task found.
          subst (λ k. is_ok (sch.remove_schedule store (app.platform.str_uuid k)) ≡ true)
            (sym ((eqb_iff task.id id).0 (find_holds (has_id id) t.tasks task found))) succeeds))
