-- ===== src/Routes/Requests/Reading.antt =====
-- What the requests that only read answer.
use mathlib.Core.Path.{fun_ext}
use mathlib.Core.Option
use mathlib.Core.List.{head?}
use schedualerl_lm.Base.{
  ◌≡◌, ap, String, false, Option, none, some, List, [], ◌==◌, find, filter, take, drop, map, length,
  arith, Option-cases, inl, inr,
}
use schedualerl_lm.Db.Models.{ScheduledTask}
use schedualerl_lm.Db.Session.{Tables, sees_task, get_db, ◌>>=◌, commit, rollback}
use schedualerl_lm.Db.Session.User.{owned, user_session, open_session_lem}
use schedualerl_lm.Python.Datetime.{Datetime}
use schedualerl_lm.Python.Platform.{Uuid}
use schedualerl_lm.Python.Result.{Result, ok, err, http_exception, Result-cases}
use schedualerl_lm.Routes.Requests.{
  App, Inputs, TaskReply, list_reply, schedule_reply, list, schedule, perform, serve,
}
use schedualerl_lm.Routes.Requests.Effects.{effect_of, unchanged, get_task_or_404_lem}
use schedualerl_lm.Routes.Tasks.{
  list_order_by, list_filter, to_response, list_tasks, get_task_schedule,
}
use schedualerl_lm.Scheduler.Triggers.{compute_upcoming_run_times}
use schedualerl_lm.Schemas.Tasks.{TaskListQuery, TaskListResponse, TaskScheduleQuery}

module _ (app : App) (inputs : Inputs) (u : String) where
  -- The user's own tasks that a query asks for.
  abbrev pub own_tasks : TaskListQuery → List ScheduledTask → List ScheduledTask
  own_tasks query tasks = filter (list_filter query) (filter (λ task. task.user_id == u) tasks)

  seen_tasks :
      (t : Tables) (query : TaskListQuery)
      → filter (list_filter query) (filter (sees_task (user_session u t t [] [])) t.tasks)
        ≡ own_tasks query t.tasks
  seen_tasks t query =
      ap (λ q. filter (list_filter query) (filter q t.tasks)) (fun_ext λ task. ground arith)

  abbrev pub listed : TaskListQuery → List ScheduledTask → TaskListResponse
  listed query own = record {
    items =
        map (to_response app.platform)
          (take query.limit (drop query.offset (app.sort_rows (list_order_by query) own)));
    total = length own;
    limit = query.limit;
    offset = query.offset;
  }

  -- Listing tasks, for a user id that is not empty, answers with the requested page of the user's
  -- own tasks that match the filters, in the order of the database's sort, and with their number,
  -- and changes nothing.
  pub list_lem :
      (t : Tables) (query : TaskListQuery)
      → (u == "") ≡ false
      → effect_of (serve app inputs u t (list query))
        ≡ unchanged app inputs u t (ok (list_reply (listed query (own_tasks query t.tasks))))
  unfolding serve get_db perform list_tasks ◌>>=◌ commit
  list_lem t query filled = rw (open_session_lem u t filled, seen_tasks t query)

  abbrev pub scheduled_reply : ScheduledTask → Result (Option (List Datetime)) → Result TaskReply
  scheduled_reply task (err e) = err e
  scheduled_reply task (ok times) = ok (
      schedule_reply (
        Option.map
          (λ upcoming. record {
            trigger_type = task.trigger_type;
            is_active = task.is_active;
            next_run_at = head? upcoming;
            upcoming = upcoming;
          })
          times))

  abbrev pub scheduled : TaskScheduleQuery → Option ScheduledTask → Result TaskReply
  scheduled query none = err (http_exception 404 "Task not found")
  scheduled query (some task) = scheduled_reply task (
      compute_upcoming_run_times app.platform app.triggers app.fuel inputs.now inputs.now task
        query.count)

  -- Asking for the schedule of a task, for a user id that is not empty, answers a 404 if the user
  -- owns no such task and its upcoming run times if there is one, with the first as the next run,
  -- and changes nothing.
  pub schedule_lem :
      (t : Tables) (id : Uuid) (query : TaskScheduleQuery)
      → (u == "") ≡ false
      → effect_of (serve app inputs u t (schedule id query))
        ≡ unchanged app inputs u t (scheduled query (find (owned u id) t.tasks))
  unfolding serve get_db perform get_task_schedule ◌>>=◌ commit rollback
  schedule_lem t id query filled =
      rw (open_session_lem u t filled, get_task_or_404_lem)
        (elim (Option-cases (find (owned u id) t.tasks)) [
          | inl missing ↦ rw missing
          | inr (task, found) ↦
              rw found
                (elim (Result-cases (
                  compute_upcoming_run_times app.platform app.triggers app.fuel inputs.now
                    inputs.now task query.count)) [
                      | inl (e, failed) ↦ rw failed
                      | inr (times, computed) ↦ rw computed
                    ])
        ])
