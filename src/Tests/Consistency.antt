-- ===== src/Tests/Consistency.antt =====
-- The theorem on tasks and schedules, with unary texts for UUIDs.
use Prim.Native.String.{len}
use text.Mathlib.TextPositions.{len-append}
use schedualerl_lm.Base.{
  ℕ, zero, suc, ◌≡◌, refl, ap, sym, ◌∙◌, String, Option, none, some, List, [], ◌∷◌, ◌<>◌, ◌==◌, eqb,
  eqb_iff, eq_iff, eq_refl, inl, inr, All, is_some, Bool-cases, if◌then◌else◌, arith,
}
use schedualerl_lm.Python.Datetime.{Datetime}
use schedualerl_lm.Python.Result.{Result, ok, err}
use schedualerl_lm.Routes.Requests.{App, deactivate, create, serve}
use schedualerl_lm.Routes.Requests.Effects.{effect_of, serve-deactivate}
use schedualerl_lm.Routes.Requests.Schedules.{IsRegistered, run_all}
use schedualerl_lm.Routes.Requests.Schedules.Consistency.{serve-IsRegistered}
use schedualerl_lm.Scheduler.Service.{
  IsLawfulSchedules, run_background, unregister_schedule, register_schedule,
}
use schedualerl_lm.Db.Session.{Tables}
use schedualerl_lm.Routes.Requests.Creation.{create_lem}
use schedualerl_lm.Scheduler.Triggers.{
  build_trigger_from_task, compute_next_run_at, trigger_config_from_spec, task_to_trigger_spec,
}
use schedualerl_lm.Services.TaskHistory.{trigger_columns}
use schedualerl_lm.Routes.Tasks.{new_task}
use schedualerl_lm.Services.TaskHistory.Replay.{replay, absent, state_in}
use schedualerl_lm.System.{no_tables}
use schedualerl_lm.System.Registered.{is_on, revived, Reached, nothing_yet, by_request, by_firing}
use schedualerl_lm.Services.TaskHistory.Columns.{IsRecordable}
use schedualerl_lm.Schemas.Tasks.{interval_trigger_spec}
use schedualerl_lm.Base.Int.{pos}
use schedualerl_lm.Python.Platform.{Uuid}
use schedualerl_lm.Base.{Bool, false, true, ◌&&◌}
use mathlib.Core.Path.{subst}
use schedualerl_lm.System.Registered.Always.{Reached-registered}
use schedualerl_lm.Tests.{
  new_body, app, inputs, tables, platform, function_schedules, clock, tomorrow,
}

unary : ℕ → String
unary zero = ""
unary (suc n) = "I" <> unary n

len-unary : (n : ℕ) → len (unary n) ≡ n
unfolding unary
len-unary zero = refl
len-unary (suc n) = rw (len-append "I" (unary n), len-unary n) (omega arith)

unary_distinct : (a b : ℕ) → (unary a == unary b) ≡ eqb b a
unary_distinct a b = elim (Bool-cases (unary a == unary b)) [
  | inl same ↦
      let texts = (eq_iff (unary a) (unary b)).0 same in
      let ids : a ≡ b = sym (len-unary a) ∙ (ap len texts ∙ len-unary b) in
      same ∙ sym ((eqb_iff b a).1 (sym ids))
  | inr differ ↦ elim (Bool-cases (eqb b a)) [
    | inl same ↦
        let ids : b ≡ a = (eqb_iff b a).0 same in
        rw ids (eq_refl (unary a) ∙ sym ((eqb_iff a a).1 refl))
    | inr other ↦ differ ∙ sym other
  ]
]

abbrev unary_app : App
unary_app = record app { platform = record platform { str_uuid = unary } }

abbrev Store : Type 0
Store = String → Option (List Datetime)

abbrev stored : Store → String → Result Store → Option (List Datetime)
stored s j (ok f) = f j
stored s j (err e) = s j

lawful : IsLawfulSchedules function_schedules
lawful = record {
  trigger_of-add_schedule = λ s s' id j t added. ap (stored s j) (sym added);
  trigger_of-remove_schedule = λ s s' id j removed. ap (stored s j) (sym removed);
}

-- Task 7 has a schedule.
abbrev before : Store
before j = if unary 7 == j then some (tomorrow ∷ []) else none

abbrev after : Store
after j = if unary 7 == j then none else before j

serve-IsRegistered_example :
    All
      (IsRegistered unary_app function_schedules after)
      (effect_of (serve unary_app inputs "ann" tables (deactivate 7))).tables.tasks
unfolding run_all run_background unregister_schedule unary
serve-IsRegistered_example =
    serve-IsRegistered unary_app function_schedules inputs "ann" clock lawful unary_distinct tables
      7 (deactivate 7) before after (inl refl) refl ((λ e. refl), ((λ e. absurd cc), tt))
      (refl, (refl, tt)) (rw (serve-deactivate unary_app inputs "ann" tables 7 refl) refl)

-- `ann` creates a task, which is scheduled.
abbrev nothing : Store
nothing j = none

abbrev scheduled : Store
scheduled j = if unary 9 == j then some (clock ∷ tomorrow ∷ []) else none

abbrev first_tables : Tables
first_tables = (effect_of (serve unary_app inputs "ann" no_tables (create new_body))).tables

abbrev none_lapsed : Uuid → Bool
none_lapsed =
    revived (effect_of (serve unary_app inputs "ann" no_tables (create new_body))).background
      (λ id. false)

first-Reached : Reached unary_app function_schedules first_tables scheduled none_lapsed
unfolding run_all run_background register_schedule build_trigger_from_task compute_next_run_at
    trigger_columns new_task trigger_config_from_spec task_to_trigger_spec
first-Reached =
    by_request inputs clock "ann" no_tables (create new_body) nothing scheduled (λ id. false)
      (nothing_yet nothing (λ s. refl)) refl refl
      (λ spec resolved.
        let same : interval_trigger_spec (pos 60) ≡ spec = cc in
        subst (IsRecordable unary_app.platform) same refl)
      (rw (create_lem unary_app inputs "ann" no_tables new_body refl refl) refl)

-- Its trigger has two times; APScheduler takes both, and drops the schedule.
abbrev fired_once : Store
fired_once j = if unary 9 == j then some (tomorrow ∷ []) else none

second-Reached :
    Reached unary_app function_schedules first_tables fired_once
      (λ j. if eqb 9 j then false else none_lapsed j)
unfolding unary
second-Reached =
    by_firing 9 (clock ∷ tomorrow ∷ []) first_tables scheduled fired_once none_lapsed first-Reached
      refl (λ j. ground (arith, unary_distinct 9 j))

third-Reached :
    Reached unary_app function_schedules first_tables nothing
      (λ j. if eqb 9 j then true else (if eqb 9 j then false else none_lapsed j))
unfolding unary
third-Reached =
    by_firing 9 (tomorrow ∷ []) first_tables fired_once nothing _ second-Reached refl
      (λ j. ground (arith, unary_distinct 9 j))

Reached-registered_example :
    (is_some (nothing (unary 9)) ≡ (is_on (state_in 9 first_tables.tasks) && false))
    × (is_some (nothing (unary 9)) ≡ (is_on (replay 9 absent first_tables.history) && false))
Reached-registered_example =
    Reached-registered unary_app function_schedules lawful unary_distinct first_tables nothing _
      third-Reached 9
