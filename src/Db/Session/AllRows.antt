-- ===== src/Db/Session/AllRows.antt =====
-- The statements in a session with the rights of the scheduler, which sees and writes all rows.
use mathlib.Core.Path.{fun_ext}
use schedualerl_lm.Base.{◌≡◌, ap, Bool, true, Option, none, List, [], ◌∷◌, ◌++◌, eqb, find, arith}
use schedualerl_lm.Db.Migrations.{task_history_event_shape}
use schedualerl_lm.Db.Models.{ScheduledTask, TaskHistory}
use schedualerl_lm.Db.Session.{
  Tables, Session, WebhookRequest, update_rows, set_row, select_task, update_task, insert_history,
}
use schedualerl_lm.Python.Datetime.{Datetime}
use schedualerl_lm.Python.Platform.{Uuid}
use schedualerl_lm.Python.Result.{ok}

-- A task with that id.
abbrev pub has_id : Uuid → ScheduledTask → Bool
has_id id t = eqb t.id id

-- The session of the executor before its commit.
abbrev pub scheduler_session : Tables → Tables → List WebhookRequest → Session
scheduler_session committed working sent = record {
  current_user = none;
  is_scheduler = true;
  scope_user = none;
  committed = committed;
  working = working;
  background = [];
  sent = sent;
}

module _ (c w : Tables) (n : List WebhookRequest) where
  pub select_task_all :
      (id : Uuid)
      → select_task id (scheduler_session c w n)
        ≡ (ok (find (has_id id) w.tasks), scheduler_session c w n)
  unfolding select_task
  select_task_all id =
      ap (λ q. (ok (find q w.tasks), scheduler_session c w n)) (fun_ext λ x. ground arith)

  pub update_task_all :
      (id : Uuid) (active : Bool) (next : Option Datetime) (now : Datetime)
      → update_task id active next now (scheduler_session c w n) ≡ (
        ok tt,
        scheduler_session c
            (record w { tasks = update_rows (has_id id) (set_row active next now) w.tasks })
            n,
      )
  unfolding update_task
  update_task_all id active next now =
      ap
        (λ q. (
          ok tt,
          scheduler_session c (record w { tasks = update_rows q (set_row active next now) w.tasks })
              n,
        ))
        (fun_ext λ x. ground arith)

  pub insert_history_all :
      (row : TaskHistory)
      → task_history_event_shape row ≡ true
      → insert_history row (scheduler_session c w n)
        ≡ (ok tt, scheduler_session c (record w { history = w.history ++ row ∷ [] }) n)
  unfolding insert_history
  insert_history_all row shape = ground arith
