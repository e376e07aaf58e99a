-- ===== src/Services/TaskHistory/Replay.antt =====
-- The history as the record of the tasks: what its rows, replayed in their order, say of each task.
use schedualerl_lm.Base.{
  ◌≡◌, refl, String, Bool, true, false, not, ◌&&◌, Option, none, some, List, [], ◌∷◌, ◌++◌, ◌==◌,
  eqb, find, filter, All, arith, if◌then◌else◌, Bool-cases, inl, inr,
}
use schedualerl_lm.Db.Models.{ScheduledTask, TaskHistory}
use schedualerl_lm.Db.Session.{Tables, update_rows, set_row}
use schedualerl_lm.Db.Session.AllRows.{has_id}
use schedualerl_lm.Db.Session.Distinct.{IsSole, AreDistinct}
use schedualerl_lm.Db.Session.User.{owned}
use schedualerl_lm.Enums.{
  TaskHistoryEventType, task_created, task_activated, task_deactivated, task_deleted, execution,
  event_member,
}
use schedualerl_lm.Python.Datetime.{Datetime}
use schedualerl_lm.Python.Platform.{Uuid}

-- The life of a task: whether it is a once task, and whether it is active.
pub data TaskState : Type 0 where
  absent : TaskState
  present : Bool → Bool → TaskState

abbrev pub switched : Bool → TaskState → TaskState
switched active absent = absent
switched active (present is_once was) = present is_once active

-- A once task is done after a scheduled run that succeeded.
abbrev pub after_run : Bool → TaskState → TaskState
after_run done (present true active) = if done then present true false else present true active
after_run done state = state

abbrev pub is_text : Option String → String → Bool
is_text none s = false
is_text (some t) s = t == s

abbrev pub is_yes : Option Bool → Bool
is_yes none = false
is_yes (some b) = b

-- What an event does to its task.
abbrev pub happened : TaskHistory → Option TaskHistoryEventType → TaskState → TaskState
happened row (some task_created) state = present (is_text row.trigger_type "once") true
happened row (some task_activated) state = switched true state
happened row (some task_deactivated) state = switched false state
happened row (some task_deleted) state = absent
happened row (some execution) state =
    after_run (is_text row.execution_source "scheduled" && is_yes row.success) state
happened row none state = state

abbrev pub next_state : Uuid → TaskHistory → TaskState → TaskState
next_state id row state =
    if eqb row.task_id id then happened row (event_member row.event_type) state else state

-- The state of a task after the rows, from its state before them.
unfoldable pub replay : Uuid → TaskState → List TaskHistory → TaskState
replay id state [] = state
replay id state (row ∷ rows) = replay id (next_state id row state) rows

pub replay-append :
    (id : Uuid) (state : TaskState) (rows : List TaskHistory) (row : TaskHistory)
    → replay id state (rows ++ row ∷ []) ≡ next_state id row (replay id state rows)
unfolding replay
replay-append id state [] row = refl
replay-append id state (x ∷ rows) row = replay-append id (next_state id x state) rows row

-- The state of a task in the table.
abbrev pub state_of : Option ScheduledTask → TaskState
state_of none = absent
state_of (some task) = present (task.trigger_type == "once") task.is_active

abbrev pub state_in : Uuid → List ScheduledTask → TaskState
state_in id tasks = state_of (find (has_id id) tasks)

-- The history, replayed, gives the state of every task in the table.
abbrev pub IsReplayed : Tables → Type 0
IsReplayed t = (id : Uuid) → replay id absent t.history ≡ state_in id t.tasks

-- Tables that agree with their history, and whose tasks have different ids.
pub record IsConsistent (t : Tables) : Type 0 where
  pub replayed : IsReplayed t
  pub distinct : AreDistinct t.tasks

pub state_in-update_rows :
    (u : String) (id j : Uuid) (active : Bool) (next : Option Datetime) (now : Datetime)
    (tasks : List ScheduledTask)
    → All (IsSole u id) tasks
    → state_in j (update_rows (owned u id) (set_row active next now) tasks)
      ≡ (if eqb id j then switched active (state_in j tasks) else state_in j tasks)
state_in-update_rows u id j active next now [] own = ground arith
state_in-update_rows u id j active next now (x ∷ tasks) own = elim (Bool-cases (eqb x.id id)) [
  | inl this ↦
      rw (own.0 this) (ground (arith, state_in-update_rows u id j active next now tasks own.1))
  | inr other ↦ rw other (ground (arith, state_in-update_rows u id j active next now tasks own.1))
]

pub state_in-filter :
    (u : String) (id j : Uuid) (tasks : List ScheduledTask)
    → All (IsSole u id) tasks
    → state_in j (filter (λ x. not (owned u id x)) tasks)
      ≡ (if eqb id j then absent else state_in j tasks)
state_in-filter u id j [] own = ground arith
state_in-filter u id j (x ∷ tasks) own = elim (Bool-cases (eqb x.id id)) [
  | inl this ↦ rw (own.0 this) (ground (arith, state_in-filter u id j tasks own.1))
  | inr other ↦ rw other (ground (arith, state_in-filter u id j tasks own.1))
]

pub state_in-append :
    (j : Uuid) (task : ScheduledTask) (tasks : List ScheduledTask)
    → find (has_id task.id) tasks ≡ none
    → state_in j (tasks ++ task ∷ []) ≡ (
        if eqb task.id j
        then present (task.trigger_type == "once") task.is_active
        else state_in j tasks)
state_in-append j task [] fresh = ground arith
state_in-append j task (x ∷ tasks) fresh = ground (arith, state_in-append j task tasks)
