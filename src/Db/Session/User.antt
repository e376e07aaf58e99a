-- ===== src/Db/Session/User.antt =====
-- The statements in the session of one user, in terms of the user's own rows.
use mathlib.Core.Path.{fun_ext}
use schedualerl_lm.Base.{
  ◌≡◌, ap, String, Bool, true, false, ◌&&◌, Option, none, some, List, [], ◌∷◌, ◌++◌, ◌==◌, eqb,
  find, filter, not, arith,
}
use schedualerl_lm.Db.Migrations.{task_history_event_shape}
use schedualerl_lm.Db.Models.{ScheduledTask, TaskHistory}
use schedualerl_lm.Db.Session.{
  Tables, Session, Background, WebhookRequest, open_session, update_rows, set_row, select_task,
  insert_task, update_task, delete_task_row, insert_history,
}
use schedualerl_lm.Python.Datetime.{Datetime}
use schedualerl_lm.Python.Platform.{Uuid}
use schedualerl_lm.Python.Result.{ok}

-- A task of the user with that id.
abbrev pub owned : String → Uuid → ScheduledTask → Bool
owned u id t = eqb t.id id && t.user_id == u

-- The session of a user in the middle of a request: the committed tables, its own, and what the
-- request has done beside them.
abbrev pub user_session : String → Tables → Tables → List Background → List WebhookRequest → Session
user_session u committed working background sent = record {
  current_user = some u;
  is_scheduler = false;
  scope_user = some u;
  committed = committed;
  working = working;
  background = background;
  sent = sent;
}

-- A request of a user begins there, if the user id is not empty.
pub open_session_lem :
    (u : String) (t : Tables)
    → (u == "") ≡ false
    → open_session (some u) t ≡ user_session u t t [] []
open_session_lem u t filled = rw filled

module _ (u : String) (c w : Tables) (b : List Background) (n : List WebhookRequest) where
  pub select_task_lem :
      (id : Uuid)
      → select_task id (user_session u c w b n)
        ≡ (ok (find (owned u id) w.tasks), user_session u c w b n)
  unfolding select_task
  select_task_lem id =
      ap (λ q. (ok (find q w.tasks), user_session u c w b n)) (fun_ext λ x. ground arith)

  pub update_task_lem :
      (id : Uuid) (active : Bool) (next : Option Datetime) (now : Datetime)
      → update_task id active next now (user_session u c w b n) ≡ (
        ok tt,
        user_session u c
            (record w { tasks = update_rows (owned u id) (set_row active next now) w.tasks })
            b
            n,
      )
  unfolding update_task
  update_task_lem id active next now =
      ap
        (λ q. (
          ok tt,
          user_session u c (record w { tasks = update_rows q (set_row active next now) w.tasks }) b
              n,
        ))
        (fun_ext λ x. ground arith)

  pub delete_task_row_lem :
      (id : Uuid)
      → delete_task_row id (user_session u c w b n) ≡ (
        ok tt,
        user_session u c (record w { tasks = filter (λ x. not (owned u id x)) w.tasks }) b n,
      )
  unfolding delete_task_row
  delete_task_row_lem id =
      ap
        (λ (q : ScheduledTask → Bool).
          (ok tt, user_session u c (record w { tasks = filter (λ x. not (q x)) w.tasks }) b n))
        (fun_ext λ x. ground arith)

  pub insert_history_lem :
      (row : TaskHistory)
      → (row.user_id == u) ≡ true
      → task_history_event_shape row ≡ true
      → insert_history row (user_session u c w b n)
        ≡ (ok tt, user_session u c (record w { history = w.history ++ row ∷ [] }) b n)
  unfolding insert_history
  insert_history_lem row own shape = rw (own, shape)

  pub insert_task_lem :
      (task : ScheduledTask)
      → (task.user_id == u) ≡ true
      → find (λ t. eqb t.id task.id) w.tasks ≡ none
      → insert_task task (user_session u c w b n)
        ≡ (ok tt, user_session u c (record w { tasks = w.tasks ++ task ∷ [] }) b n)
  unfolding insert_task
  insert_task_lem task own fresh = rw (own, fresh)
