-- ===== src/Routes/Requests/Recorded.antt =====
-- Creating a task whose trigger the history can hold.
use schedualerl_lm.Base.{◌≡◌, refl, String, false, none, [], ◌∷◌, ◌++◌, ◌==◌, eqb, find, Option}
use schedualerl_lm.Db.Session.{Tables, register}
use schedualerl_lm.Enums.{task_created}
use schedualerl_lm.Python.Datetime.{Datetime}
use schedualerl_lm.Python.Result.{Result, ok, err, Result-cases}
use schedualerl_lm.Base.{inl, inr}
use schedualerl_lm.Routes.Requests.{App, Inputs, task_reply, create, serve}
use schedualerl_lm.Routes.Requests.Creation.{create_lem}
use schedualerl_lm.Routes.Requests.Effects.{Effect, effect_of, unchanged}
use schedualerl_lm.Routes.Tasks.{to_response, new_task, or_unprocessable, resolve_trigger_spec}
use schedualerl_lm.Scheduler.Triggers.{compute_next_run_at}
use schedualerl_lm.Schemas.Tasks.{TaskCreate, StructuredTriggerSpec}
use schedualerl_lm.Services.TaskHistory.{snapshot_row}
use schedualerl_lm.Services.TaskHistory.Columns.{
  IsRecordable, columns_from_spec, trigger_columns-stored,
}

module _ (app : App) (inputs : Inputs) (u : String) where
  -- The new row and its snapshot, with the columns of the specification.
  abbrev pub recorded :
      Tables → TaskCreate → StructuredTriggerSpec → Result (Option Datetime) → Effect
  recorded t body spec (err e) = unchanged app inputs u t (err e)
  recorded t body spec (ok next) =
      let task = new_task app.platform app.triggers inputs.task_uuid inputs.now u body spec next in
      record {
        reply = ok (task_reply (to_response app.platform task));
        tables = record {
          tasks = t.tasks ++ task ∷ [];
          history =
              t.history
              ++ snapshot_row app.platform inputs.history_uuid inputs.now u task task_created
                  (columns_from_spec app.platform spec)
                ∷ [];
        };
        background = register task ∷ [];
      }

  abbrev pub created_from : Tables → TaskCreate → Result StructuredTriggerSpec → Effect
  created_from t body (err e) = unchanged app inputs u t (err e)
  created_from t body (ok spec) =
      recorded t body spec (compute_next_run_at app.platform app.triggers inputs.now spec)

  -- Whatever trigger the body is resolved to, the history can hold it.
  abbrev pub HasRecordable : TaskCreate → Type 0
  HasRecordable body =
      (spec : StructuredTriggerSpec)
      → or_unprocessable (resolve_trigger_spec app.parse_text body.trigger) ≡ ok spec
      → IsRecordable app.platform spec

  -- Creating a task, for a user id that is not empty, a task id that no row has, and a trigger
  -- that the history can hold: if the trigger cannot be resolved or its next run cannot be
  -- computed, the request fails with nothing changed; else the new active row and its snapshot in
  -- the history, with the trigger columns of the resolved specification, are committed together,
  -- and registering the schedule is the one background task. The history can hold a cron trigger,
  -- an interval of less than 2^31 seconds, and a once trigger whose datetime's text reads back and
  -- has no `Z`.
  pub serve-create :
      (t : Tables) (body : TaskCreate)
      → (u == "") ≡ false
      → find (λ x. eqb x.id inputs.task_uuid) t.tasks ≡ none
      → HasRecordable body
      → effect_of (serve app inputs u t (create body))
        ≡ created_from t body (or_unprocessable (resolve_trigger_spec app.parse_text body.trigger))
  unfolding new_task
  serve-create t body filled fresh recordable =
      rw (create_lem app inputs u t body filled fresh)
        (elim (Result-cases (or_unprocessable (resolve_trigger_spec app.parse_text body.trigger))) [
          | inl (e, failed) ↦ rw failed
          | inr (spec, resolved) ↦
              rw resolved
                (elim (Result-cases
                  (compute_next_run_at app.platform app.triggers inputs.now spec)) [
                    | inl (e, failed) ↦ rw failed
                    | inr (next, computed) ↦
                        let task =
                          new_task app.platform app.triggers inputs.task_uuid inputs.now u body spec
                            next in
                        rw (
                          computed,
                          trigger_columns-stored app.platform task spec (recordable spec resolved)
                              (record { stored_type = refl; stored_config = refl }),
                        )
                  ])
        ])
