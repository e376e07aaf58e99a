-- ===== src/Db/Schema/Policies/AtHead.antt =====
-- The policies of the migrations, and those that the model of a session tests.
use schedualerl_lm.Base.{
  find, String, Bool, true, false, Option, none, some, ◌==◌, any, ◌≡◌, refl, sym, ◌∙◌, arith,
  if◌then◌else◌, or-false, and-false, find-append,
}
use schedualerl_lm.Db.Models.{ScheduledTask, TaskHistory}
use schedualerl_lm.Db.Migrations.{
  is_current_user, scheduled_tasks_policy, task_history_select_policy, task_history_insert_policy,
}
use schedualerl_lm.Db.Schema.Catalog.{
  Command, for_all, for_select, for_insert, for_update, for_delete, Policy, Function, Trigger,
  Catalog, has_function, apply, run,
}
use schedualerl_lm.Db.Schema.Frame.{extend, knows, touches, unknown, any-append, any_weaken}
use schedualerl_lm.Db.Schema.Expression.{Settings, Row, eval, is_true, equal_texts}
use schedualerl_lm.Db.Schema.Head.{objects_of, revisions, upgrades, run-upgrades}
use schedualerl_lm.Python.Result.{ok}
use schedualerl_lm.Db.Schema.Policies.{lets_through, admits, raised_on_change}
use schedualerl_lm.Db.Schema.Revisions.TaskHistory.{no_update}
use schedualerl_lm.Db.Schema.Rows.{settings_of, task_row, history_row}

is_true-owner :
    (user_id : String) (current : Option String)
    → is_true (equal_texts (some user_id) current) ≡ is_current_user current user_id
is_true-owner user_id none = refl
is_true-owner user_id (some c) = refl

is_true-scheduler :
    (b : Bool) → is_true (equal_texts (if b then some "true" else none) (some "true")) ≡ b
is_true-scheduler true = refl
is_true-scheduler false = refl

ruleset meaning = (is_true-owner, is_true-scheduler, or-false, and-false)

-- Tables and policies of other names make no difference.
admits-extend :
    (c e : Catalog) (command : Command) (is_owner : Bool) (table : String) (settings : Settings)
    (row : Row)
    → knows c table ≡ false
    → admits (extend c e) command is_owner table settings row
      ≡ admits e command is_owner table settings row
unfolding admits
admits-extend c e command is_owner table settings row new =
    let k = unknown c table new in
    simp (
      find-append,
      any-append,
      k.no_table,
      any_weaken (λ (p : Policy). p.table == table) (lets_through command table settings row)
          (λ p h. ground arith) c.policies k.policyless,
    )

module _ (current : Option String) (is_scheduler is_owner : Bool) where
  abbrev admitted : Command → String → Row → Bool
  admitted command table row =
      admits (objects_of revisions) command is_owner table (settings_of current is_scheduler) row

  tasks-policies :
      (command : Command) (task : ScheduledTask)
      → admitted command "scheduled_tasks" (task_row task)
        ≡ scheduled_tasks_policy current is_scheduler task
  unfolding objects_of run apply admits eval
  tasks-policies for_all task = simp meaning
  tasks-policies for_select task = simp meaning
  tasks-policies for_insert task = simp meaning
  tasks-policies for_update task = simp meaning
  tasks-policies for_delete task = simp meaning

  select-policies :
      (row : TaskHistory)
      → admitted for_select "task_history" (history_row row)
        ≡ task_history_select_policy current row
  unfolding objects_of run apply admits eval
  select-policies row = simp meaning

  insert-policies :
      (row : TaskHistory)
      → admitted for_insert "task_history" (history_row row)
        ≡ task_history_insert_policy current is_scheduler row
  unfolding objects_of run apply admits eval
  insert-policies row = simp meaning

  no_update-policies :
      (row : TaskHistory) → admitted for_update "task_history" (history_row row) ≡ false
  unfolding objects_of run apply admits eval
  no_update-policies row = simp meaning

  no_delete-policies :
      (row : TaskHistory) → admitted for_delete "task_history" (history_row row) ≡ false
  unfolding objects_of run apply admits eval
  no_delete-policies row = simp meaning

raised_on_change-extend :
    (c e : Catalog) (table : String) (t : Trigger)
    → knows c table ≡ false
    → find (λ (x : Trigger). x.table == table) e.triggers ≡ some t
    → has_function c t.function ≡ false
    → raised_on_change (extend c e) table ≡ raised_on_change e table
unfolding raised_on_change
raised_on_change-extend c e table t new found no_function =
    let k = unknown c table new in
    rw
      (
        find-append (λ (x : Trigger). x.table == table) c.triggers e.triggers k.triggerless,
        found,
        find-append (λ (f : Function). f.name == t.function) c.functions e.functions no_function,
      )
      refl

ok-injective : {A : Type 0} {a b : A} → ok a ≡ ok b → a ≡ b
ok-injective e = cc

module _ (c c' : Catalog) (new : any (touches c) (upgrades revisions) ≡ false)
    (done : run (upgrades revisions) c ≡ ok c') where
  at_head :
      (command : Command) (is_owner : Bool) (table : String) (settings : Settings) (row : Row)
      → knows c table ≡ false
      → admits c' command is_owner table settings row
        ≡ admits (objects_of revisions) command is_owner table settings row
  at_head command is_owner table settings row unknown_name =
      rw (ok-injective (sym done ∙ run-upgrades c new))
        (admits-extend c (objects_of revisions) command is_owner table settings row unknown_name)

  changes_at_head : raised_on_change c' "task_history" ≡ some "task_history is append-only"
  unfolding objects_of run apply raised_on_change
  changes_at_head = rw (ok-injective (sym done ∙ run-upgrades c new)) (
      raised_on_change-extend c (objects_of revisions) "task_history" no_update (ground arith) refl
        (ground arith))

  -- After the upgrades of all revisions, in whatever database they ran that knew none of their
  -- names, the row level security of PostgreSQL lets a role that cannot bypass it, the owner of
  -- the tables included, work on exactly the rows of `scheduled_tasks` that the policy of the
  -- session model lets through, whatever the command, read and insert exactly the rows of
  -- `task_history` that its two policies let through, and update or delete no row of
  -- `task_history`; every update or delete of a row of `task_history` raises `task_history is
  -- append-only`, for whichever role.
  pub admits-head :
      (current : Option String) (is_scheduler is_owner : Bool) (command : Command)
      (task : ScheduledTask) (row : TaskHistory)
      → (admits c' command is_owner "scheduled_tasks"
            (settings_of current is_scheduler)
            (task_row task)
          ≡ scheduled_tasks_policy current is_scheduler task)
        × (admits c' for_select is_owner "task_history"
              (settings_of current is_scheduler)
              (history_row row)
            ≡ task_history_select_policy current row)
        × (admits c' for_insert is_owner "task_history"
              (settings_of current is_scheduler)
              (history_row row)
            ≡ task_history_insert_policy current is_scheduler row)
        × (admits c' for_update is_owner "task_history"
              (settings_of current is_scheduler)
              (history_row row)
            ≡ false)
        × (admits c' for_delete is_owner "task_history"
              (settings_of current is_scheduler)
              (history_row row)
            ≡ false)
        × (raised_on_change c' "task_history" ≡ some "task_history is append-only")
  admits-head current is_scheduler is_owner command task row =
      let tasks_new : knows c "scheduled_tasks" ≡ false = ground arith in
      let history_new : knows c "task_history" ≡ false = ground arith in
      let settings = settings_of current is_scheduler in
      (
        at_head command is_owner "scheduled_tasks" settings (task_row task) tasks_new
            ∙ tasks-policies current is_scheduler is_owner command task,
        at_head for_select is_owner "task_history" settings (history_row row) history_new
            ∙ select-policies current is_scheduler is_owner row,
        at_head for_insert is_owner "task_history" settings (history_row row) history_new
            ∙ insert-policies current is_scheduler is_owner row,
        at_head for_update is_owner "task_history" settings (history_row row) history_new
            ∙ no_update-policies current is_scheduler is_owner row,
        at_head for_delete is_owner "task_history" settings (history_row row) history_new
            ∙ no_delete-policies current is_scheduler is_owner row,
        changes_at_head,
      )
