-- ===== src/Routes/Requests/Effects.antt =====
-- What a request of a user does to the tables, branch by branch, in terms of the user's own tasks.
use mathlib.Core.Option
use schedualerl_lm.Base.{
  ◌≡◌, refl, String, true, false, Option, none, some, List, [], ◌∷◌, ◌++◌, ◌==◌, find,
  if◌then◌else◌, eq_refl, Option-cases, Bool-cases, inl, inr,
}
use schedualerl_lm.Db.Models.{ScheduledTask}
use schedualerl_lm.Db.Session.{
  Tables, Session, Background, WebhookRequest, register, unregister, update_rows, set_row, get_db,
  ◌>>=◌, add_background, commit, rollback,
}
use schedualerl_lm.Db.Session.User.{
  owned, user_session, open_session_lem, select_task_lem, update_task_lem, insert_history_lem,
}
use schedualerl_lm.Enums.{TaskHistoryEventType, task_deactivated, task_activated}
use schedualerl_lm.Python.Datetime.{Datetime, to_utc}
use schedualerl_lm.Python.Platform.{Uuid}
use schedualerl_lm.Python.Result.{Result, ok, err, http_exception, Result-cases}
use schedualerl_lm.Routes.Requests.{
  App, Inputs, TaskReply, task_reply, deactivate, activate, perform, serve,
}
use schedualerl_lm.Routes.Tasks.{
  to_response, get_task_or_404, or_404, deactivate_task, activate_task, cannot_activate,
}
use schedualerl_lm.Scheduler.Triggers.{compute_next_run_at_for_task}
use schedualerl_lm.Services.TaskHistory.{lifecycle_row, record_task_lifecycle}
use schedualerl_lm.Services.TaskHistory.Shape.{lifecycle_row-shape, IsLifecycle}

-- What a request leaves, without the settings of its session.
pub record Effect : Type 0 where
  pub reply : Result TaskReply
  pub tables : Tables
  pub background : List Background

-- The response to an exception runs no background task.
abbrev pub effect_of : Result TaskReply × Session → Effect
effect_of (ok r, s) = record { reply = ok r; tables = s.committed; background = s.background }
effect_of (err e, s) = record { reply = err e; tables = s.committed; background = [] }

module _ (u : String) (c w : Tables) (b : List Background) (n : List WebhookRequest) where
  pub get_task_or_404_lem :
      (id : Uuid)
      → get_task_or_404 id (user_session u c w b n)
        ≡ or_404 (find (owned u id) w.tasks) (user_session u c w b n)
  unfolding get_task_or_404 ◌>>=◌
  get_task_or_404_lem id = rw (select_task_lem u c w b n id)

  pub record_task_lifecycle_lem :
      (id : Uuid) (now : Datetime) (task_id : Uuid) (e : TaskHistoryEventType)
      → IsLifecycle e
      → record_task_lifecycle id now u task_id e (user_session u c w b n) ≡ (
        ok tt,
        user_session u c
            (record w { history = w.history ++ lifecycle_row id now u task_id e ∷ [] })
            b
            n,
      )
  unfolding record_task_lifecycle
  record_task_lifecycle_lem id now task_id e h =
      insert_history_lem u c w b n (lifecycle_row id now u task_id e) (eq_refl u)
        (lifecycle_row-shape id now u task_id e h)

module _ (app : App) (inputs : Inputs) (u : String) where
  abbrev pub unchanged : Tables → Result TaskReply → Effect
  unchanged t r = record { reply = r; tables = t; background = [] }

  abbrev pub deactivated : Uuid → Tables → Option ScheduledTask → Effect
  deactivated id t none = unchanged t (err (http_exception 404 "Task not found"))
  deactivated id t (some task) =
      if task.is_active
      then record {
        reply = ok (
            task_reply
              (to_response app.platform (record task { is_active = false; next_run_at = none })));
        tables = record {
          tasks = update_rows (owned u task.id) (set_row false none inputs.now) t.tasks;
          history =
              t.history
              ++ lifecycle_row inputs.history_uuid inputs.now u task.id task_deactivated ∷ [];
        };
        background = unregister id ∷ [];
      }
      else unchanged t (ok (task_reply (to_response app.platform task)))

  -- Deactivating a task, for a user id that is not empty: a 404 if the user owns no such task, an
  -- unchanged reply for a paused one; else the row becomes paused without a next run, the event is
  -- recorded, and the schedule is unregistered in the background.
  pub serve-deactivate :
      (t : Tables) (id : Uuid)
      → (u == "") ≡ false
      → effect_of (serve app inputs u t (deactivate id))
        ≡ deactivated id t (find (owned u id) t.tasks)
  unfolding serve get_db perform deactivate_task ◌>>=◌ commit rollback add_background
  serve-deactivate t id filled =
      rw (open_session_lem u t filled, get_task_or_404_lem)
        (elim (Option-cases (find (owned u id) t.tasks)) [
          | inl missing ↦ rw missing
          | inr (task, found) ↦ rw found (elim (Bool-cases task.is_active) [
            | inl active ↦ simp active (
                rw (
                  update_task_lem,
                  record_task_lifecycle_lem u t _ [] [] inputs.history_uuid inputs.now task.id
                      task_deactivated (inr refl),
                ))
            | inr paused ↦ simp paused
          ])
        ])

  abbrev pub activated_from : Uuid → Tables → ScheduledTask → Result (Option Datetime) → Effect
  activated_from id t task (err e) = unchanged t (err e)
  activated_from id t task (ok next) =
      if cannot_activate app.platform app.triggers inputs.now task next
      then unchanged t (err (http_exception 422 "Task cannot be activated"))
      else (let active = record task { is_active = true; next_run_at = next } in
          record {
            reply = ok (task_reply (to_response app.platform active));
            tables = record {
              tasks =
                  update_rows (owned u task.id)
                    (set_row true (Option.map (to_utc app.platform.zones) next) inputs.now) t.tasks;
              history =
                  t.history
                  ++ lifecycle_row inputs.history_uuid inputs.now u task.id task_activated ∷ [];
            };
            background = register active ∷ [];
          })

  abbrev pub activated : Uuid → Tables → Option ScheduledTask → Effect
  activated id t none = unchanged t (err (http_exception 404 "Task not found"))
  activated id t (some task) =
      if task.is_active
      then unchanged t (ok (task_reply (to_response app.platform task)))
      else activated_from id t task
          (compute_next_run_at_for_task app.platform app.triggers inputs.now task)

  -- Activating a task, for a user id that is not empty: a 404 if the user owns no such task, an
  -- unchanged reply for an active one, the trigger's exception or a 422 with nothing changed if
  -- there is no next run or that of a once task is not in the future; else the row becomes active
  -- with its next run in UTC, the event is recorded, and the schedule is registered in the
  -- background.
  pub serve-activate :
      (t : Tables) (id : Uuid)
      → (u == "") ≡ false
      → effect_of (serve app inputs u t (activate id)) ≡ activated id t (find (owned u id) t.tasks)
  unfolding serve get_db perform activate_task ◌>>=◌ commit rollback add_background
  serve-activate t id filled =
      rw (open_session_lem u t filled, get_task_or_404_lem)
        (elim (Option-cases (find (owned u id) t.tasks)) [
          | inl missing ↦ rw missing
          | inr (task, found) ↦ rw found (elim (Bool-cases task.is_active) [
            | inl active ↦ simp active
            | inr paused ↦
                simp paused
                  (elim (Result-cases
                    (compute_next_run_at_for_task app.platform app.triggers inputs.now task)) [
                      | inl (e, failed) ↦ rw failed
                      | inr (next, computed) ↦
                          rw computed
                            (elim (Bool-cases
                              (cannot_activate app.platform app.triggers inputs.now task next)) [
                                | inl no_time ↦ rw no_time
                                | inr ready ↦ rw ready (
                                    rw (
                                      update_task_lem,
                                      record_task_lifecycle_lem u t _ [] [] inputs.history_uuid
                                          inputs.now task.id task_activated (inl refl),
                                    ))
                              ])
                    ])
          ])
        ])
