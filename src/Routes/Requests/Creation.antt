-- ===== src/Routes/Requests/Creation.antt =====
-- What creating and deleting a task does to the tables, branch by branch.
use schedualerl_lm.Base.{
  ◌≡◌, refl, String, false, Option, none, some, List, [], ◌∷◌, ◌++◌, ◌==◌, eqb, find, filter, not,
  if◌then◌else◌, eq_refl, Option-cases, Bool-cases, inl, inr,
}
use schedualerl_lm.Db.Models.{ScheduledTask}
use schedualerl_lm.Db.Session.{
  Tables, Background, WebhookRequest, register, unregister, get_db, ◌>>=◌, add_background, commit,
  rollback,
}
use schedualerl_lm.Db.Session.User.{
  owned, user_session, open_session_lem, delete_task_row_lem, insert_history_lem, insert_task_lem,
}
use schedualerl_lm.Enums.{task_created, task_deleted}
use schedualerl_lm.Python.Datetime.{Datetime}
use schedualerl_lm.Python.Platform.{Platform, Uuid}
use schedualerl_lm.Python.Result.{Exn, Result, ok, err, http_exception, Result-cases}
use schedualerl_lm.Routes.Requests.{
  App, Inputs, task_reply, no_content, create, delete, perform, serve,
}
use schedualerl_lm.Routes.Requests.Effects.{Effect, effect_of, unchanged, get_task_or_404_lem}
use schedualerl_lm.Routes.Tasks.{
  to_response, create_task, new_task, delete_task, or_unprocessable, resolve_trigger_spec,
}
use schedualerl_lm.Scheduler.Triggers.{compute_next_run_at}
use schedualerl_lm.Schemas.Tasks.{TaskCreate, StructuredTriggerSpec}
use schedualerl_lm.Services.TaskHistory.{
  TriggerColumns, trigger_columns, snapshot_row, record_task_created, record_task_deleted,
}
use schedualerl_lm.Services.TaskHistory.Shape.{snapshot_row-shape}

module _ (p : Platform) (u : String) (c w : Tables) (b : List Background)
    (n : List WebhookRequest) where
  pub record_task_created_lem :
      (id : Uuid) (now : Datetime) (task : ScheduledTask) {columns : TriggerColumns}
      → trigger_columns p task.trigger_type task.trigger_config ≡ ok columns
      → record_task_created p id now u task (user_session u c w b n) ≡ (
        ok tt,
        user_session u c
            (record w {
              history = w.history ++ snapshot_row p id now u task task_created columns ∷ [];
            })
            b
            n,
      )
  unfolding record_task_created ◌>>=◌
  record_task_created_lem id now task {columns} h = rw h (
      insert_history_lem u c w b n (snapshot_row p id now u task task_created columns) (eq_refl u)
        (snapshot_row-shape p id now u task task_created columns (inl refl) h))

  -- A trigger that has no columns fails the request.
  record_task_created_failed :
      (id : Uuid) (now : Datetime) (task : ScheduledTask) {e : Exn}
      → trigger_columns p task.trigger_type task.trigger_config ≡ err e
      → record_task_created p id now u task (user_session u c w b n)
        ≡ (err e, user_session u c w b n)
  unfolding record_task_created ◌>>=◌
  record_task_created_failed id now task h = rw h

  pub record_task_deleted_lem :
      (id : Uuid) (now : Datetime) (task : ScheduledTask) {columns : TriggerColumns}
      → trigger_columns p task.trigger_type task.trigger_config ≡ ok columns
      → record_task_deleted p id now u task (user_session u c w b n) ≡ (
        ok tt,
        user_session u c
            (record w {
              history = w.history ++ snapshot_row p id now u task task_deleted columns ∷ [];
            })
            b
            n,
      )
  unfolding record_task_deleted ◌>>=◌
  record_task_deleted_lem id now task {columns} h = rw h (
      insert_history_lem u c w b n (snapshot_row p id now u task task_deleted columns) (eq_refl u)
        (snapshot_row-shape p id now u task task_deleted columns (inr refl) h))

  -- A trigger that has no columns fails the request.
  record_task_deleted_failed :
      (id : Uuid) (now : Datetime) (task : ScheduledTask) {e : Exn}
      → trigger_columns p task.trigger_type task.trigger_config ≡ err e
      → record_task_deleted p id now u task (user_session u c w b n)
        ≡ (err e, user_session u c w b n)
  unfolding record_task_deleted ◌>>=◌
  record_task_deleted_failed id now task h = rw h

module _ (app : App) (inputs : Inputs) (u : String) where
  abbrev pub deleted_with : Uuid → Tables → ScheduledTask → Result TriggerColumns → Effect
  deleted_with id t task (err e) = unchanged app inputs u t (err e)
  deleted_with id t task (ok columns) = record {
    reply = ok no_content;
    tables = record {
      tasks = filter (λ x. not (owned u task.id x)) t.tasks;
      history =
          t.history
          ++ snapshot_row app.platform inputs.history_uuid inputs.now u task task_deleted columns
            ∷ [];
    };
    background = if task.is_active then unregister id ∷ [] else [];
  }

  abbrev pub deleted : Uuid → Tables → Option ScheduledTask → Effect
  deleted id t none = unchanged app inputs u t (err (http_exception 404 "Task not found"))
  deleted id t (some task) =
      deleted_with id t task (trigger_columns app.platform task.trigger_type task.trigger_config)

  pub serve-delete :
      (t : Tables) (id : Uuid)
      → (u == "") ≡ false
      → effect_of (serve app inputs u t (delete id)) ≡ deleted id t (find (owned u id) t.tasks)
  unfolding serve get_db perform delete_task ◌>>=◌ commit rollback add_background
  serve-delete t id filled =
      rw (open_session_lem u t filled, get_task_or_404_lem)
        (elim (Option-cases (find (owned u id) t.tasks)) [
          | inl missing ↦ rw missing
          | inr (task, found) ↦
              rw found
                (elim (Result-cases
                  (trigger_columns app.platform task.trigger_type task.trigger_config)) [
                    | inl (e, failed) ↦ elim (Bool-cases task.is_active) [
                      | inl active ↦ simp active (
                          rw (
                            failed,
                            record_task_deleted_failed app.platform u t t _ [] _ _ task failed,
                          ))
                      | inr paused ↦ simp paused (
                          rw (
                            failed,
                            record_task_deleted_failed app.platform u t t [] [] _ _ task failed,
                          ))
                    ]
                    | inr (columns, read) ↦ elim (Bool-cases task.is_active) [
                      | inl active ↦ simp active (
                          rw
                            (
                              read,
                              record_task_deleted_lem app.platform u t t _ [] _ _ task read,
                              delete_task_row_lem,
                            )
                            (simp active))
                      | inr paused ↦ simp paused (
                          rw
                            (
                              read,
                              record_task_deleted_lem app.platform u t t [] [] _ _ task read,
                              delete_task_row_lem,
                            )
                            (simp paused))
                    ]
                  ])
        ])

  abbrev pub created_with : Tables → ScheduledTask → Result TriggerColumns → Effect
  created_with t task (err e) = unchanged app inputs u t (err e)
  created_with t task (ok columns) = record {
    reply = ok (task_reply (to_response app.platform task));
    tables = record {
      tasks = t.tasks ++ task ∷ [];
      history =
          t.history
          ++ snapshot_row app.platform inputs.history_uuid inputs.now u task task_created columns
            ∷ [];
    };
    background = register task ∷ [];
  }

  abbrev pub created_next :
      Tables → TaskCreate → StructuredTriggerSpec → Result (Option Datetime) → Effect
  created_next t body spec (err e) = unchanged app inputs u t (err e)
  created_next t body spec (ok next) =
      let task = new_task app.platform app.triggers inputs.task_uuid inputs.now u body spec next in
      created_with t task (trigger_columns app.platform task.trigger_type task.trigger_config)

  abbrev pub created : Tables → TaskCreate → Result StructuredTriggerSpec → Effect
  created t body (err e) = unchanged app inputs u t (err e)
  created t body (ok spec) =
      created_next t body spec (compute_next_run_at app.platform app.triggers inputs.now spec)

  -- Creating a task, for a user id that is not empty and a task id that no row has: if the trigger
  -- cannot be resolved, its next run cannot be computed, or it cannot be written to the history,
  -- the request fails with nothing changed; else the new active row and its snapshot in the
  -- history are committed together, and registering the schedule is the one background task.
  pub create_lem :
      (t : Tables) (body : TaskCreate)
      → (u == "") ≡ false
      → find (λ x. eqb x.id inputs.task_uuid) t.tasks ≡ none
      → effect_of (serve app inputs u t (create body))
        ≡ created t body (or_unprocessable (resolve_trigger_spec app.parse_text body.trigger))
  unfolding serve get_db perform create_task ◌>>=◌ commit rollback add_background new_task
  create_lem t body filled fresh =
      rw (open_session_lem u t filled)
        (elim (Result-cases (or_unprocessable (resolve_trigger_spec app.parse_text body.trigger))) [
          | inl (e, failed) ↦ rw failed
          | inr (spec, resolved) ↦
              rw resolved
                (elim (Result-cases
                  (compute_next_run_at app.platform app.triggers inputs.now spec)) [
                    | inl (e, failed) ↦ rw failed
                    | inr (next, computed) ↦
                        let task =
                          new_task app.platform app.triggers inputs.task_uuid inputs.now u body spec
                            next in
                        rw (computed, insert_task_lem u t t [] [] task (eq_refl u) fresh)
                          (elim (Result-cases
                            (trigger_columns app.platform task.trigger_type task.trigger_config)) [
                              | inl (e, failed) ↦ rw (
                                failed,
                                record_task_created_failed app.platform u t _ [] [] _ _ task failed,
                              )
                              | inr (columns, read) ↦ rw (
                                read,
                                record_task_created_lem app.platform u t _ [] [] _ _ task read,
                              )
                            ])
                  ])
        ])
