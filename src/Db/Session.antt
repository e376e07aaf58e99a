-- ===== src/Db/Session.antt =====
-- app/db/dependencies.py, rls.py and scope.py: a database session, with what a request does beside
-- it. A statement sees the rows that the policies of its transaction let through; the unit of work
-- is flushed at once. PostgreSQL runs a statement on the rows of its own transaction, so a session
-- holds the committed tables and its own.
pub mod Keeps
pub mod Rows
pub mod Isolation
pub mod Soundness
pub mod User
pub mod AllRows
pub mod Distinct
use schedualerl_lm.Base.{
  String, Bool, true, false, ◌&&◌, not, Option, none, some, List, [], ◌∷◌, ◌++◌, ◌==◌, eqb,
  if◌then◌else◌, filter, find, map, is_some,
}
use schedualerl_lm.Db.Models.{ScheduledTask, TaskHistory}
use schedualerl_lm.Db.Migrations.{
  scheduled_tasks_policy, task_history_select_policy, task_history_insert_policy,
  task_history_event_shape,
}
use schedualerl_lm.Python.Datetime.{Datetime}
use schedualerl_lm.Python.Platform.{Uuid}
use schedualerl_lm.Python.Result.{Exn, Result, ok, err, integrity_error, other}

pub record Tables : Type 0 where
  pub tasks : List ScheduledTask
  pub history : List TaskHistory

-- The request that fires a webhook.
pub record WebhookRequest : Type 0 where
  pub url : String
  pub params : List (String × String)
  pub authorization : String

-- `background_tasks.add_task(register_schedule, scheduler, task)` and the one for
-- `unregister_schedule`.
pub data Background : Type 0 where
  register : ScheduledTask → Background
  unregister : Uuid → Background

pub record Session : Type 0 where
  -- the settings `app.current_user_id` and `app.is_scheduler` of the transaction
  pub current_user : Option String
  pub is_scheduler : Bool
  -- `session.info["current_user_id"]`, unless it is empty
  pub scope_user : Option String
  pub committed : Tables
  pub working : Tables
  -- what the request did beside the session
  pub background : List Background
  pub sent : List WebhookRequest

-- Code that uses a session and may raise. What was done before a raise stays done.
abbrev pub Action : Type 0 → Type 0
Action A = Session → Result A × Session

module _ {A : Type 0} where
  pub pure : A → Action A
  pure a s = (ok a, s)

  pub raise : Exn → Action A
  raise e s = (err e, s)

  pub lift : Result A → Action A
  lift r s = (r, s)

  pub gets : (Session → A) → Action A
  gets f s = (ok (f s), s)

abbrev pub continue : {A B : Type 0} → Result A → (A → Action B) → Action B
continue (ok a) f s = f a s
continue (err e) f s = (err e, s)

infixl 5 ◌>>=◌ ◌>>◌
-- opening this opens `pure`, `raise`, `lift` and `gets` too
unfoldable pub ◌>>=◌ : {A B : Type 0} → Action A → (A → Action B) → Action B
unfolding pure raise lift gets
◌>>=◌ m f s = continue (m s).0 f (m s).1

abbrev pub ◌>>◌ : {A B : Type 0} → Action A → Action B → Action B
m >> k = m >>= λ _. k

-- The condition that the listener `_apply_user_scope` adds to a SELECT.
abbrev pub in_scope : Option String → String → Bool
in_scope none user_id = true
in_scope (some current) user_id = user_id == current

-- The rows that a SELECT on `scheduled_tasks` sees, and those of `task_history`.
abbrev pub sees_task : Session → ScheduledTask → Bool
sees_task s task =
    scheduled_tasks_policy s.current_user s.is_scheduler task && in_scope s.scope_user task.user_id

abbrev pub sees_history : Session → TaskHistory → Bool
sees_history s row =
    task_history_select_policy s.current_user row && in_scope s.scope_user row.user_id

-- `select(ScheduledTask).where(ScheduledTask.id == task_id)` and `scalar_one_or_none()`
unfoldable pub select_task : Uuid → Action (Option ScheduledTask)
select_task task_id s = (ok (find (λ t. eqb t.id task_id && sees_task s t) s.working.tasks), s)

-- `session.add(task)`, flushed: the policy's `WITH CHECK`, and the primary key.
unfoldable pub insert_task : ScheduledTask → Action (Unit {0})
insert_task task s =
    if not (scheduled_tasks_policy s.current_user s.is_scheduler task)
    then (err (other "new row violates row-level security policy"), s)
    else if is_some (find (λ t. eqb t.id task.id) s.working.tasks)
    then (err (integrity_error "scheduled_tasks_pkey"), s)
    else (ok tt, record s { working = record s.working { tasks = s.working.tasks ++ task ∷ [] } })

-- The UPDATE of `is_active`, `next_run_at` and, by `onupdate`, `updated_at`.
abbrev pub set_row : Bool → Option Datetime → Datetime → ScheduledTask → ScheduledTask
set_row active next now t = record t { is_active = active; next_run_at = next; updated_at = now }

abbrev pub update_rows :
    (ScheduledTask → Bool)
    → (ScheduledTask → ScheduledTask)
    → List ScheduledTask
    → List ScheduledTask
update_rows p f = map (λ t. if p t then f t else t)

unfoldable pub update_task : Uuid → Bool → Option Datetime → Datetime → Action (Unit {0})
update_task task_id active next now s = (
  ok tt,
  record s {
    working = record s.working {
      tasks =
          update_rows
            (λ t. eqb t.id task_id && scheduled_tasks_policy s.current_user s.is_scheduler t)
            (set_row active next now) s.working.tasks;
    };
  },
)

-- `session.delete(task)`
unfoldable pub delete_task_row : Uuid → Action (Unit {0})
delete_task_row task_id s = (
  ok tt,
  record s {
    working = record s.working {
      tasks =
          filter
            (λ t. not (eqb t.id task_id && scheduled_tasks_policy s.current_user s.is_scheduler t))
            s.working.tasks;
    };
  },
)

-- `session.add(row)`, flushed: the policy's `WITH CHECK`, and the check constraint.
unfoldable pub insert_history : TaskHistory → Action (Unit {0})
insert_history row s =
    if not (task_history_insert_policy s.current_user s.is_scheduler row)
    then (err (other "new row violates row-level security policy"), s)
    else if not (task_history_event_shape row)
    then (err (integrity_error "task_history_event_shape"), s)
    else (
      ok tt,
      record s { working = record s.working { history = s.working.history ++ row ∷ [] } },
    )

-- `session.commit()`: the settings were local to the transaction.
unfoldable pub commit : Action (Unit {0})
commit s = (ok tt, record s { committed = s.working; current_user = none; is_scheduler = false })

-- `session.rollback()`
unfoldable pub rollback : Session → Session
rollback s = record s { working = s.committed; current_user = none; is_scheduler = false }

-- `background_tasks.add_task(…)`
unfoldable pub add_background : Background → Action (Unit {0})
add_background b s = (ok tt, record s { background = s.background ++ b ∷ [] })

-- A webhook request goes out.
unfoldable pub send : WebhookRequest → Action (Unit {0})
send request s = (ok tt, record s { sent = s.sent ++ request ∷ [] })

-- `async with session_factory() as session`
abbrev pub new_session : Tables → Session
new_session tables = record {
  current_user = none;
  is_scheduler = false;
  scope_user = none;
  committed = tables;
  working = tables;
  background = [];
  sent = [];
}

-- `set_user_rls` and `set_scheduler_rls`
abbrev pub set_user_rls : String → Session → Session
set_user_rls user_id s = record s { current_user = some user_id }

abbrev pub set_scheduler_rls : Session → Session
set_scheduler_rls s = record s { is_scheduler = true }

-- The session that `get_db` yields for a request: `if user_id:` holds for a text that is not empty.
abbrev pub open_session : Option String → Tables → Session
open_session none tables = new_session tables
open_session (some user_id) tables =
    if user_id == ""
    then new_session tables
    else set_user_rls user_id (record (new_session tables) { scope_user = some user_id })

-- `get_db` around a handler: commit when it returns, roll back when it raises. The response and its
-- background tasks come after that; FastAPI from 0.118 on sends and runs them before.
abbrev pub close_session : {A : Type 0} → Result A × Session → Result A × Session
close_session (ok a, s) = (ok a, (commit s).1)
close_session (err e, s) = (err e, rollback s)

unfoldable pub get_db : {A : Type 0} → Option String → Tables → Action A → Result A × Session
unfolding commit rollback
get_db user_id tables handler = close_session (handler (open_session user_id tables))
