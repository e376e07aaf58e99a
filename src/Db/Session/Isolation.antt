-- ===== src/Db/Session/Isolation.antt =====
-- A session with the rights of one user leaves the rows of all others alone.
use schedualerl_lm.Base.{
  String, ◌≡◌, refl, ap, ◌∙◌, Bool, true, false, not, ◌==◌, arith, filter, Option, eqb, ◌&&◌,
}
use schedualerl_lm.Db.Migrations.{is_current_user, scheduled_tasks_policy}
use schedualerl_lm.Db.Models.{ScheduledTask, TaskHistory}
use schedualerl_lm.Db.Session.{
  Tables, Session, Background, select_task, insert_task, update_task, delete_task_row,
  insert_history, commit, add_background, set_row,
}
use schedualerl_lm.Db.Session.Keeps.{Keeps}
use schedualerl_lm.Db.Session.Rows.{filter-append_false, filter-filter_disjoint, filter-update_rows}
use schedualerl_lm.Python.Datetime.{Datetime}
use schedualerl_lm.Python.Platform.{Uuid}

-- The rows of other users.
abbrev pub SameForeignTasks : String → Tables → Tables → Type 0
SameForeignTasks u t t' =
    filter (λ row. not (row.user_id == u)) t'.tasks ≡ filter (λ row. not (row.user_id == u)) t.tasks

abbrev pub SameForeignHistory : String → Tables → Tables → Type 0
SameForeignHistory u t t' =
    filter (λ row. not (row.user_id == u)) t'.history
    ≡ filter (λ row. not (row.user_id == u)) t.history

-- Nothing of another user was added, changed or taken out.
pub record SameForeign (u : String) (t t' : Tables) : Type 0 where
  pub same_tasks : SameForeignTasks u t t'
  pub same_history : SameForeignHistory u t t'

module _ (u : String) (before : Tables) where
  -- The session has no rights but those of `u`, and has kept to them.
  pub record Confined (s : Session) : Type 0 where
    pub not_scheduler : s.is_scheduler ≡ false
    pub rights : (x : String) → is_current_user s.current_user x ≡ true → (x == u) ≡ true
    pub working_foreign : SameForeign u before s.working
    pub committed_foreign : SameForeign u before s.committed

  pub select_task-Confined : (id : Uuid) → Keeps Confined (select_task id)
  unfolding select_task
  select_task-Confined id = record { holds_after = λ s h. h }

  pub add_background-Confined : (b : Background) → Keeps Confined (add_background b)
  unfolding add_background
  add_background-Confined b = record {
    holds_after = λ s h. record {
      not_scheduler = h.not_scheduler;
      rights = h.rights;
      working_foreign = h.working_foreign;
      committed_foreign = h.committed_foreign;
    };
  }

  pub commit-Confined : Keeps Confined commit
  unfolding commit
  commit-Confined = record {
    holds_after = λ s h. record {
      not_scheduler = refl;
      rights = λ x p. ground arith;
      working_foreign = h.working_foreign;
      committed_foreign = h.working_foreign;
    };
  }

  pub insert_task-Confined : (task : ScheduledTask) → Keeps Confined (insert_task task)
  unfolding insert_task
  insert_task-Confined task = record {
    holds_after = λ s h. ground (
      arith,
      h.rights task.user_id,
      h.not_scheduler,
      h.working_foreign.same_tasks,
      filter-append_false (λ (row : ScheduledTask). not (row.user_id == u)) s.working.tasks task,
    );
  }

  pub insert_history-Confined : (row : TaskHistory) → Keeps Confined (insert_history row)
  unfolding insert_history
  insert_history-Confined row = record {
    holds_after = λ s h. ground (
      arith,
      h.rights row.user_id,
      h.not_scheduler,
      h.working_foreign.same_history,
      filter-append_false (λ (r : TaskHistory). not (r.user_id == u)) s.working.history row,
    );
  }

  -- A row that a statement may write belongs to `u`.
  may_write-own :
      (s : Session) (t : ScheduledTask) (id : Uuid)
      → Confined s
      → (eqb t.id id && scheduled_tasks_policy s.current_user s.is_scheduler t) ≡ true
      → (t.user_id == u) ≡ true
  may_write-own s t id h e = ground (arith, h.rights t.user_id, h.not_scheduler)

  pub update_task-Confined :
      (id : Uuid) (active : Bool) (next : Option Datetime) (now : Datetime)
      → Keeps Confined (update_task id active next now)
  unfolding update_task
  update_task-Confined id active next now = record {
    holds_after = λ s h. record {
      not_scheduler = h.not_scheduler;
      rights = h.rights;
      working_foreign = record {
        same_tasks =
            filter-update_rows (λ row. not (row.user_id == u))
              (λ t. eqb t.id id && scheduled_tasks_policy s.current_user s.is_scheduler t)
              (set_row active next now) (λ t e. ap not (may_write-own s t id h e))
              (λ t e. ap not (may_write-own s t id h e)) s.working.tasks
            ∙ h.working_foreign.same_tasks;
        same_history = h.working_foreign.same_history;
      };
      committed_foreign = h.committed_foreign;
    };
  }

  pub delete_task_row-Confined : (id : Uuid) → Keeps Confined (delete_task_row id)
  unfolding delete_task_row
  delete_task_row-Confined id = record {
    holds_after = λ s h. record {
      not_scheduler = h.not_scheduler;
      rights = h.rights;
      working_foreign = record {
        same_tasks =
            filter-filter_disjoint (λ row. not (row.user_id == u))
              (λ t. not (eqb t.id id && scheduled_tasks_policy s.current_user s.is_scheduler t))
              (λ t e. ground (arith, may_write-own s t id h)) s.working.tasks
            ∙ h.working_foreign.same_tasks;
        same_history = h.working_foreign.same_history;
      };
      committed_foreign = h.committed_foreign;
    };
  }

pub ruleset confined_rules = (
  select_task-Confined, add_background-Confined, commit-Confined, insert_task-Confined,
  insert_history-Confined, update_task-Confined, delete_task_row-Confined,
)
