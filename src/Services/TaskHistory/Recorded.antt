-- ===== src/Services/TaskHistory/Recorded.antt =====
-- What each kind of event leaves is what its row says, when it is replayed.
use schedualerl_lm.Base.{
  ℕ, ◌≡◌, refl, sym, String, Bool, true, false, not, Option, none, some, List, [], ◌∷◌, ◌++◌, ◌==◌,
  eqb, eqb_iff, find, filter, All, arith, if◌then◌else◌, Bool-cases, inl, inr,
}
use schedualerl_lm.Db.Models.{ScheduledTask, TaskHistory}
use schedualerl_lm.Db.Session.{Tables, update_rows, set_row}
use schedualerl_lm.Db.Session.AllRows.{has_id}
use schedualerl_lm.Db.Session.Distinct.{
  IsSole, AreDistinct, update_rows-AreDistinct, filter-AreDistinct, append-AreDistinct,
}
use schedualerl_lm.Db.Session.User.{owned}
use schedualerl_lm.Enums.{
  task_created, task_activated, task_deactivated, task_deleted, manual, scheduled,
}
use schedualerl_lm.Python.Datetime.{Datetime}
use schedualerl_lm.Python.Platform.{Platform, Uuid}
use schedualerl_lm.Services.TaskHistory.{TriggerColumns, lifecycle_row, snapshot_row, execution_row}
use schedualerl_lm.Services.TaskHistory.Replay.{
  TaskState, absent, present, switched, after_run, next_state, replay-append, state_in,
  IsConsistent, state_in-update_rows, state_in-filter, state_in-append,
}

-- A row more is an event more, for each task.
replayed-append :
    (t after : Tables) (row : TaskHistory)
    → after.history ≡ t.history ++ row ∷ []
    → IsConsistent t
    → AreDistinct after.tasks
    → ((id : Uuid) → next_state id row (state_in id t.tasks) ≡ state_in id after.tasks)
    → IsConsistent after
replayed-append t after row grown h distinct step = record {
  replayed = λ id. rw (grown, replay-append id absent t.history row, h.replayed id) (step id);
  distinct = distinct;
}

pub deactivation-IsConsistent :
    (t : Tables) (u : String) (id row_id : Uuid) (now : Datetime)
    → All (IsSole u id) t.tasks
    → IsConsistent t
    → IsConsistent (record {
      tasks = update_rows (owned u id) (set_row false none now) t.tasks;
      history = t.history ++ lifecycle_row row_id now u id task_deactivated ∷ [];
    })
deactivation-IsConsistent t u id row_id now own h =
    replayed-append t _ (lifecycle_row row_id now u id task_deactivated) refl h
      (update_rows-AreDistinct (owned u id) false none now t.tasks h.distinct)
      (λ j. sym (state_in-update_rows u id j false none now t.tasks own))

pub activation-IsConsistent :
    (t : Tables) (u : String) (id row_id : Uuid) (next : Option Datetime) (now : Datetime)
    → All (IsSole u id) t.tasks
    → IsConsistent t
    → IsConsistent (record {
      tasks = update_rows (owned u id) (set_row true next now) t.tasks;
      history = t.history ++ lifecycle_row row_id now u id task_activated ∷ [];
    })
activation-IsConsistent t u id row_id next now own h =
    replayed-append t _ (lifecycle_row row_id now u id task_activated) refl h
      (update_rows-AreDistinct (owned u id) true next now t.tasks h.distinct)
      (λ j. sym (state_in-update_rows u id j true next now t.tasks own))

pub creation-IsConsistent :
    (p : Platform) (t : Tables) (u : String) (row_id : Uuid) (now : Datetime) (task : ScheduledTask)
    (columns : TriggerColumns)
    → find (has_id task.id) t.tasks ≡ none
    → task.is_active ≡ true
    → IsConsistent t
    → IsConsistent (record {
      tasks = t.tasks ++ task ∷ [];
      history = t.history ++ snapshot_row p row_id now u task task_created columns ∷ [];
    })
creation-IsConsistent p t u row_id now task columns fresh active h =
    replayed-append t _ (snapshot_row p row_id now u task task_created columns) refl h
      (append-AreDistinct task t.tasks fresh h.distinct)
      (λ j. rw (state_in-append j task t.tasks fresh, active) refl)

pub deletion-IsConsistent :
    (p : Platform) (t : Tables) (u : String) (row_id : Uuid) (now : Datetime) (task : ScheduledTask)
    (columns : TriggerColumns)
    → All (IsSole u task.id) t.tasks
    → IsConsistent t
    → IsConsistent (record {
      tasks = filter (λ x. not (owned u task.id x)) t.tasks;
      history = t.history ++ snapshot_row p row_id now u task task_deleted columns ∷ [];
    })
deletion-IsConsistent p t u row_id now task columns own h =
    replayed-append t _ (snapshot_row p row_id now u task task_deleted columns) refl h
      (filter-AreDistinct (λ x. not (owned u task.id x)) t.tasks h.distinct)
      (λ j. sym (state_in-filter u task.id j t.tasks own))

after_run-false : (state : TaskState) → after_run false state ≡ state
after_run-false absent = refl
after_run-false (present true active) = refl
after_run-false (present false active) = refl

same_state : (b : Bool) (s s' : TaskState) → s' ≡ s → (if b then s' else s) ≡ s
same_state true s s' e = e
same_state false s s' e = refl

-- A run by hand, or one that failed.
pub run-IsConsistent :
    (t : Tables) (row_id : Uuid) (now : Datetime) (u : String) (id : Uuid) (url : String)
    (success : Bool) (status : Option ℕ) (message : Option String)
    → IsConsistent t
    → IsConsistent (record t {
      history = t.history ++ execution_row row_id now u id manual url success status message ∷ [];
    })
run-IsConsistent t row_id now u id url success status message h =
    replayed-append t _ (execution_row row_id now u id manual url success status message) refl h
      h.distinct
      (λ j. same_state (eqb id j) (state_in j t.tasks) _ (after_run-false (state_in j t.tasks)))

pub failed_run-IsConsistent :
    (t : Tables) (row_id : Uuid) (now : Datetime) (u : String) (id : Uuid) (url : String)
    (status : Option ℕ) (message : Option String)
    → IsConsistent t
    → IsConsistent (record t {
      history = t.history ++ execution_row row_id now u id scheduled url false status message ∷ [];
    })
failed_run-IsConsistent t row_id now u id url status message h =
    replayed-append t _ (execution_row row_id now u id scheduled url false status message) refl h
      h.distinct
      (λ j. same_state (eqb id j) (state_in j t.tasks) _ (after_run-false (state_in j t.tasks)))

state_in-update_all :
    (id j : Uuid) (active : Bool) (next : Option Datetime) (now : Datetime)
    (tasks : List ScheduledTask)
    → state_in j (update_rows (has_id id) (set_row active next now) tasks)
      ≡ (if eqb id j then switched active (state_in j tasks) else state_in j tasks)
state_in-update_all id j active next now [] = ground arith
state_in-update_all id j active next now (x ∷ tasks) =
    ground (arith, state_in-update_all id j active next now tasks)

pub once_run-IsConsistent :
    (t : Tables) (row_id : Uuid) (now : Datetime) (u : String) (task : ScheduledTask) (url : String)
    (status : Option ℕ) (message : Option String)
    → find (has_id task.id) t.tasks ≡ some task
    → (task.trigger_type == "once") ≡ true
    → IsConsistent t
    → IsConsistent (record {
      tasks = update_rows (has_id task.id) (set_row false none now) t.tasks;
      history =
          t.history ++ execution_row row_id now u task.id scheduled url true status message ∷ [];
    })
once_run-IsConsistent t row_id now u task url status message found once h =
    replayed-append t _ (execution_row row_id now u task.id scheduled url true status message) refl
      h (update_rows-AreDistinct (has_id task.id) false none now t.tasks h.distinct)
      (λ j.
        rw (state_in-update_all task.id j false none now t.tasks)
          (elim (Bool-cases (eqb task.id j)) [
            | inl this ↦ rw (this, sym ((eqb_iff task.id j).0 this), found, once) refl
            | inr other ↦ rw other refl
          ]))

pub recurring_run-IsConsistent :
    (t : Tables) (row_id : Uuid) (now : Datetime) (u : String) (task : ScheduledTask) (url : String)
    (status : Option ℕ) (message : Option String)
    → find (has_id task.id) t.tasks ≡ some task
    → (task.trigger_type == "once") ≡ false
    → IsConsistent t
    → IsConsistent (record t {
      history =
          t.history ++ execution_row row_id now u task.id scheduled url true status message ∷ [];
    })
recurring_run-IsConsistent t row_id now u task url status message found many h =
    replayed-append t _ (execution_row row_id now u task.id scheduled url true status message) refl
      h h.distinct
      (λ j. elim (Bool-cases (eqb task.id j)) [
        | inl this ↦ rw (this, sym ((eqb_iff task.id j).0 this), found, many) refl
        | inr other ↦ rw other refl
      ])
