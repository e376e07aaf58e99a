-- ===== src/Routes/Requests/Answers.antt =====
-- What a user is told of the own tasks: the list of them, and the schedule of one.
use mathlib.Core.Path.{fun_ext, subst}
use mathlib.Core.List.{head?}
use schedualerl_lm.Base.{
  ℕ, ◌+◌, ◌≤◌, ◌≡◌, refl, ap, sym, ◌∙◌, String, Bool, true, false, not, ◌&&◌, ◌||◌, Option, none,
  some, List, [], ◌∷◌, ◌==◌, find, filter, take, drop, map, length, arith, All,
}
use schedualerl_lm.Db.Models.{ScheduledTask}
use schedualerl_lm.Db.Session.{Tables}
use schedualerl_lm.Db.Session.User.{owned}
use schedualerl_lm.Enums.{
  TaskSortField, created_at, next_run_at, updated_at, SortOrder, asc, desc, TriggerType, once, cron,
  interval, trigger_member,
}
use schedualerl_lm.Python.Datetime.{Datetime, instant, later_or_same}
use schedualerl_lm.Python.Platform.{Platform, Uuid}
use schedualerl_lm.Python.Result.{ok}
use schedualerl_lm.Routes.Requests.{App, Inputs, list_reply, schedule_reply, list, schedule, serve}
use schedualerl_lm.Routes.Requests.Effects.{effect_of, unchanged}
use schedualerl_lm.Routes.Requests.Reading.{own_tasks, list_lem, schedule_lem}
use schedualerl_lm.Routes.Tasks.{OrderBy, list_order_by, list_filter}
use schedualerl_lm.Scheduler.Triggers.{
  Triggers, build_trigger_from_task, compute_upcoming_run_times, iter_upcoming_run_times,
}
use schedualerl_lm.Scheduler.Triggers.Ending.{Advances, compute_upcoming_run_times-Ends}
use schedualerl_lm.Scheduler.Triggers.RoundTrip.{Stores}
use schedualerl_lm.Scheduler.Triggers.Upcoming.{iter_upcoming_run_times_bounds, IsDueUpTo}
use schedualerl_lm.Schemas.Tasks.{
  StructuredTriggerSpec, TaskListQuery, TaskScheduleQuery, TaskResponse,
}

filter-filter {ℓ} :
    {A : Type ℓ} (p q : A → Bool) (xs : List A)
    → filter p (filter q xs) ≡ filter (λ x. q x && p x) xs
filter-filter p q [] = refl
filter-filter p q (x ∷ xs) = ground (arith, filter-filter p q xs)

-- The type that a query asks for, if any.
abbrev pub is_of : Option TriggerType → ScheduledTask → Bool
is_of none task = true
is_of (some once) task = task.trigger_type == "once"
is_of (some cron) task = task.trigger_type == "cron"
is_of (some interval) task = task.trigger_type == "interval"

-- The task is the user's, it is active unless the query wants the others too, and it has the type.
abbrev pub is_wanted : String → TaskListQuery → ScheduledTask → Bool
is_wanted u query task =
    task.user_id == u
    && ((not query.active_only || task.is_active) && is_of query.trigger_type task)

-- Only a missing next run has a place of its own, at the end.
abbrev pub order_of : TaskSortField → SortOrder → OrderBy
order_of created_at asc = record { column = created_at; ascending = true; nulls_last = false }
order_of created_at desc = record { column = created_at; ascending = false; nulls_last = false }
order_of next_run_at asc = record { column = next_run_at; ascending = true; nulls_last = true }
order_of next_run_at desc = record { column = next_run_at; ascending = false; nulls_last = true }
order_of updated_at asc = record { column = updated_at; ascending = true; nulls_last = false }
order_of updated_at desc = record { column = updated_at; ascending = false; nulls_last = false }

-- The row, field by field.
abbrev pub shown : Platform → ScheduledTask → TaskResponse
shown p task = record {
  id = p.str_uuid task.id;
  user_id = task.user_id;
  webhook_url = task.webhook_url;
  parameters = task.parameters;
  trigger_type = task.trigger_type;
  trigger_config = task.trigger_config;
  next_run_at = task.next_run_at;
  is_active = task.is_active;
  created_at = task.created_at;
  updated_at = task.updated_at;
}

list_order_by-order_of :
    (query : TaskListQuery) (sort : TaskSortField) (order : SortOrder)
    → list_order_by (record query { sort = sort; order = order }) ≡ order_of sort order
list_order_by-order_of query created_at asc = refl
list_order_by-order_of query created_at desc = refl
list_order_by-order_of query next_run_at asc = refl
list_order_by-order_of query next_run_at desc = refl
list_order_by-order_of query updated_at asc = refl
list_order_by-order_of query updated_at desc = refl

list_filter-is_of :
    (query : TaskListQuery) (kind : Option TriggerType) (task : ScheduledTask)
    → list_filter (record query { trigger_type = kind }) task
      ≡ ((not query.active_only || task.is_active) && is_of kind task)
list_filter-is_of query none task = ground arith
list_filter-is_of query (some once) task = ground arith
list_filter-is_of query (some cron) task = ground arith
list_filter-is_of query (some interval) task = ground arith

own_tasks-wanted :
    (app : App) (inputs : Inputs) (u : String) (query : TaskListQuery) (tasks : List ScheduledTask)
    → own_tasks app inputs u query tasks ≡ filter (is_wanted u query) tasks
own_tasks-wanted app inputs u query tasks =
    filter-filter (list_filter query) (λ task. task.user_id == u) tasks
    ∙ ap (λ q. filter q tasks)
        (fun_ext (λ task.
          ap (λ b. task.user_id == u && b) (list_filter-is_of query query.trigger_type task)))

-- The trigger columns of the row are those of some trigger, as the response's model wants.
abbrev pub IsPresentable : Platform → ScheduledTask → Type 0
IsPresentable p task = (spec : StructuredTriggerSpec) × Stores p task spec

module _ (p : Platform) (api : Triggers) where
  -- The times that were computed are due, and no more than asked for.
  computed_bounds :
      (fuel count : ℕ) (now : Datetime) (task : ScheduledTask) (trigger : api.Trigger)
      (upcoming : List Datetime)
      → build_trigger_from_task p api now task ≡ ok trigger
      → compute_upcoming_run_times p api fuel now now task count ≡ ok (some upcoming)
      → IsDueUpTo p api now count (some upcoming)
  unfolding compute_upcoming_run_times
  computed_bounds fuel count now task trigger upcoming builds computed =
      let is_once : Bool = elim (trigger_member task.trigger_type) [
        | some once ↦ true
        | _ ↦ false
      ] in
      let times = iter_upcoming_run_times p api fuel now is_once count trigger in
      let same : times ≡ some upcoming = (let c = rw builds at computed in cc) in
      subst (IsDueUpTo p api now count) same
        (iter_upcoming_run_times_bounds p api fuel now is_once count trigger)

module _ (app : App) (inputs : Inputs) (u : String) where
  -- Listing tasks, for a user id that is not empty and rows whose trigger columns are those of
  -- some trigger, answers with the number of the wanted tasks and with the requested page of them,
  -- each shown field by field, and changes nothing. A task is wanted if it is the user's, is
  -- active unless the query asks for the others too, and has the type that the query asks for, if
  -- any; the order is by the column and in the direction of the query, with a missing next run
  -- last, by the database's sort.
  pub serve-list :
      (t : Tables) (query : TaskListQuery)
      → (u == "") ≡ false
      → All (IsPresentable app.platform) t.tasks
      → let wanted = filter (is_wanted u query) t.tasks in
        effect_of (serve app inputs u t (list query))
        ≡ unchanged app inputs u t (
            ok (
              list_reply (record {
                items = map (shown app.platform) (
                    take query.limit
                      (drop query.offset (app.sort_rows (order_of query.sort query.order) wanted)));
                total = length wanted;
                limit = query.limit;
                offset = query.offset;
              })))
  serve-list t query filled presentable = rw (
    list_lem app inputs u t query filled,
    own_tasks-wanted app inputs u query t.tasks,
    sym (list_order_by-order_of query query.sort query.order),
  )

  -- Asking for the schedule of a task that the user owns, for a user id that is not empty, answers
  -- with upcoming run times, at most as many as asked for and all of them at or after now, with
  -- the first of them as the next run, and changes nothing, if the task's trigger can be built and
  -- advances: its fire of each number is at least as many microseconds after a start as fires came
  -- before it. Fuel for the microseconds from the start to now, and for the times that are asked
  -- for, is enough.
  pub serve-schedule :
      (t : Tables) (id : Uuid) (query : TaskScheduleQuery) (task : ScheduledTask)
      (trigger : app.triggers.Trigger) (start slack : ℕ)
      → (u == "") ≡ false
      → find (owned u id) t.tasks ≡ some task
      → build_trigger_from_task app.platform app.triggers inputs.now task ≡ ok trigger
      → Advances app.platform app.triggers start trigger
      → instant app.platform.zones inputs.now ≤ start + slack
      → slack + query.count ≤ app.fuel
      → (upcoming : List Datetime) × (effect_of (serve app inputs u t (schedule id query))
          ≡ unchanged app inputs u t (
              ok (
                schedule_reply (
                  some (record {
                    trigger_type = task.trigger_type;
                    is_active = task.is_active;
                    next_run_at = head? upcoming;
                    upcoming = upcoming;
                  })))))
        × All (λ d. later_or_same app.platform.zones d inputs.now ≡ true) upcoming
        × (length upcoming ≤ query.count)
  serve-schedule t id query task trigger start slack filled found builds advances near enough =
      let (upcoming, computed) =
        compute_upcoming_run_times-Ends app.platform app.triggers app.fuel slack start query.count
          inputs.now inputs.now task trigger builds advances near enough in
      let (due, few) =
        computed_bounds app.platform app.triggers app.fuel query.count inputs.now task trigger
          upcoming builds computed in
      (upcoming, rw (schedule_lem app inputs u t id query filled, found, computed) refl, due, few)
