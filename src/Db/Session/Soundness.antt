-- ===== src/Db/Session/Soundness.antt =====
-- What the tables hold after every statement: history rows of the right shape that only grow, and no
-- next run of a task that is not active.
use schedualerl_lm.Base.{
  inl, inr, Bool-cases, is_some, find, ◌≡◌, Bool, true, false, Option, none, List, [], ◌∷◌, ◌++◌,
  All, All-append, All-filter, ◌&&◌, eqb, not,
}
use mathlib.Core.List.{append_assoc}
use schedualerl_lm.Db.Migrations.{
  task_history_event_shape, scheduled_tasks_policy, task_history_insert_policy,
}
use schedualerl_lm.Db.Models.{ScheduledTask, TaskHistory}
use schedualerl_lm.Db.Session.{
  Tables, Session, Background, select_task, insert_task, update_task, delete_task_row,
  insert_history, commit, add_background, send, set_row, WebhookRequest,
}
use schedualerl_lm.Db.Session.Keeps.{Keeps}
use schedualerl_lm.Db.Session.Rows.{All-update_rows}
use schedualerl_lm.Python.Datetime.{Datetime}
use schedualerl_lm.Python.Platform.{Uuid}

-- A task that is not active has no next run.
abbrev pub IsIdleOrActive : ScheduledTask → Type 0
IsIdleOrActive t = t.is_active ≡ false → t.next_run_at ≡ none

abbrev pub HasShape : TaskHistory → Type 0
HasShape row = task_history_event_shape row ≡ true

-- The tables are sound, and their history extends the one before.
pub record IsSound (before t : Tables) : Type 0 where
  pub shaped : All HasShape t.history
  pub idle : All IsIdleOrActive t.tasks
  pub appended : List TaskHistory
  pub extends : t.history ≡ before.history ++ appended

module _ (before : Tables) where
  pub record Sound (s : Session) : Type 0 where
    pub working_sound : IsSound before s.working
    pub committed_sound : IsSound before s.committed

  pub select_task-Sound : (id : Uuid) → Keeps Sound (select_task id)
  unfolding select_task
  select_task-Sound id = record { holds_after = λ s h. h }

  pub add_background-Sound : (b : Background) → Keeps Sound (add_background b)
  unfolding add_background
  add_background-Sound b = record {
    holds_after =
        λ s h. record { working_sound = h.working_sound; committed_sound = h.committed_sound };
  }

  pub send-Sound : (r : WebhookRequest) → Keeps Sound (send r)
  unfolding send
  send-Sound r = record {
    holds_after =
        λ s h. record { working_sound = h.working_sound; committed_sound = h.committed_sound };
  }

  pub commit-Sound : Keeps Sound commit
  unfolding commit
  commit-Sound = record {
    holds_after =
        λ s h. record { working_sound = h.working_sound; committed_sound = h.working_sound };
  }

  with_task :
      (t : Tables) (task : ScheduledTask)
      → IsIdleOrActive task
      → IsSound before t
      → IsSound before (record t { tasks = t.tasks ++ task ∷ [] })
  with_task t task k h = record {
    shaped = h.shaped;
    idle = All-append IsIdleOrActive t.tasks (task ∷ []) h.idle (k, tt);
    appended = h.appended;
    extends = h.extends;
  }

  with_history :
      (t : Tables) (row : TaskHistory)
      → HasShape row
      → IsSound before t
      → IsSound before (record t { history = t.history ++ row ∷ [] })
  with_history t row k h = record {
    shaped = All-append HasShape t.history (row ∷ []) h.shaped (k, tt);
    idle = h.idle;
    appended = h.appended ++ row ∷ [];
    extends = rw h.extends (append_assoc before.history h.appended (row ∷ []));
  }

  pub insert_task-Sound :
      (task : ScheduledTask) → IsIdleOrActive task → Keeps Sound (insert_task task)
  unfolding insert_task
  insert_task-Sound task k = record {
    holds_after = λ s h.
        elim (Bool-cases (scheduled_tasks_policy s.current_user s.is_scheduler task)) [
          | inl own ↦ elim (Bool-cases (is_some (find (λ t. eqb t.id task.id) s.working.tasks))) [
            | inl taken ↦ rw (own, taken) h
            | inr fresh ↦
                rw (own, fresh)
                  (record {
                    working_sound = with_task s.working task k h.working_sound;
                    committed_sound = h.committed_sound;
                  })
          ]
          | inr foreign ↦ rw foreign h
        ];
  }

  pub insert_history-Sound : (row : TaskHistory) → Keeps Sound (insert_history row)
  unfolding insert_history
  insert_history-Sound row = record {
    holds_after = λ s h.
        elim (Bool-cases (task_history_insert_policy s.current_user s.is_scheduler row)) [
          | inl own ↦ elim (Bool-cases (task_history_event_shape row)) [
            | inl fits ↦
                rw (own, fits)
                  (record {
                    working_sound = with_history s.working row fits h.working_sound;
                    committed_sound = h.committed_sound;
                  })
            | inr bad ↦ rw (own, bad) h
          ]
          | inr foreign ↦ rw foreign h
        ];
  }

  pub update_task-Sound :
      (id : Uuid) (active : Bool) (next : Option Datetime) (now : Datetime)
      → (active ≡ false → next ≡ none)
      → Keeps Sound (update_task id active next now)
  unfolding update_task
  update_task-Sound id active next now k = record {
    holds_after = λ s h. record {
      working_sound = record {
        shaped = h.working_sound.shaped;
        idle =
            All-update_rows IsIdleOrActive
              (λ t. eqb t.id id && scheduled_tasks_policy s.current_user s.is_scheduler t)
              (set_row active next now) (λ t _. k) s.working.tasks h.working_sound.idle;
        appended = h.working_sound.appended;
        extends = h.working_sound.extends;
      };
      committed_sound = h.committed_sound;
    };
  }

  -- An active task may have any next run.
  pub update_task-Sound_active :
      (id : Uuid) (next : Option Datetime) (now : Datetime)
      → Keeps Sound (update_task id true next now)
  update_task-Sound_active id next now = update_task-Sound id true next now (λ e. cc)

  pub delete_task_row-Sound : (id : Uuid) → Keeps Sound (delete_task_row id)
  unfolding delete_task_row
  delete_task_row-Sound id = record {
    holds_after = λ s h. record {
      working_sound = record {
        shaped = h.working_sound.shaped;
        idle =
            All-filter IsIdleOrActive
              (λ t. not (eqb t.id id && scheduled_tasks_policy s.current_user s.is_scheduler t))
              s.working.tasks h.working_sound.idle;
        appended = h.working_sound.appended;
        extends = h.working_sound.extends;
      };
      committed_sound = h.committed_sound;
    };
  }

pub ruleset sound_rules = (
  select_task-Sound, add_background-Sound, send-Sound, commit-Sound, insert_task-Sound,
  insert_history-Sound, update_task-Sound, update_task-Sound_active, delete_task_row-Sound,
)
