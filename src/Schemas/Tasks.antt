-- ===== src/Schemas/Tasks.antt =====
-- app/schemas/tasks.py: trigger specifications and configurations, and the models of the task
-- routes. A pydantic model is a record; what its validators refuse is refused by the function that
-- builds it.
use Prim.Native.String.{count}
use schedualerl_lm.Base.{ℕ, String, Bool, ◌&&◌, Option, List, [], ◌∷◌, leb, if◌then◌else◌}
use schedualerl_lm.Base.Int.{ℤ, is_positive}
use schedualerl_lm.Enums.{
  TriggerType, TaskSortField, SortOrder, ExecutionSource, once, cron, interval,
}
use schedualerl_lm.Python.Datetime.{Datetime, Zones}
use schedualerl_lm.Python.Dict.{Dict, text, number}
use schedualerl_lm.Python.Result.{Result, ok, err, key_error, validation_error, ◌>>=◌}

-- `OnceTrigger`, `CronTriggerSpec` and `IntervalTriggerSpec`
pub data StructuredTriggerSpec : Type 0 where
  once_trigger : Datetime → StructuredTriggerSpec
  cron_trigger_spec : String → String → StructuredTriggerSpec
  interval_trigger_spec : ℤ → StructuredTriggerSpec

-- The field `type`.
abbrev pub spec_type : StructuredTriggerSpec → TriggerType
spec_type (once_trigger _) = once
spec_type (cron_trigger_spec _ _) = cron
spec_type (interval_trigger_spec _) = interval

-- The union with `TextTriggerSpec`.
pub data TriggerSpec : Type 0 where
  structured : StructuredTriggerSpec → TriggerSpec
  text_trigger_spec : String → String → TriggerSpec

-- `ZoneInfo(value)` raises a subclass of `KeyError` for an unknown zone. A validator turns only
-- `ValueError` and `AssertionError` into a `ValidationError`, so that one passes through.
abbrev pub validate_timezone : Zones → String → Result String
validate_timezone zones value = if zones.known value then ok value else err (key_error value)

-- `CronTriggerSpec(expression=…, timezone=…)`
unfoldable pub new_cron_trigger_spec : Zones → String → String → Result StructuredTriggerSpec
new_cron_trigger_spec zones expression timezone = do
  tz ← validate_timezone zones timezone
  ok (cron_trigger_spec expression tz)

-- `IntervalTriggerSpec(seconds=…)`, with `gt=0`
unfoldable pub new_interval_trigger_spec : ℤ → Result StructuredTriggerSpec
new_interval_trigger_spec seconds =
    if is_positive seconds
    then ok (interval_trigger_spec seconds)
    else err (validation_error "Input should be greater than 0")

-- `TextTriggerSpec(text=…, timezone=…)`, with `min_length=1, max_length=2000`
unfoldable pub new_text_trigger_spec : Zones → String → String → Result TriggerSpec
new_text_trigger_spec zones phrase timezone = do
  tz ← validate_timezone zones timezone
  (if leb 1 (count phrase) && leb (count phrase) 2000
      then ok (text_trigger_spec phrase tz)
      else err (validation_error "String should have 1 to 2000 characters"))

-- `TaskCreate`
pub record TaskCreate : Type 0 where
  pub webhook_url : String
  pub parameters : List (String × String)
  pub trigger : TriggerSpec

-- `TaskListQuery`
pub record TaskListQuery : Type 0 where
  pub active_only : Bool
  pub trigger_type : Option TriggerType
  pub sort : TaskSortField
  pub order : SortOrder
  pub limit : ℕ
  pub offset : ℕ

-- `OnceTriggerConfig`, `CronTriggerConfig` and `IntervalTriggerConfig`
pub data TriggerConfig : Type 0 where
  once_trigger_config : String → TriggerConfig
  cron_trigger_config : String → String → TriggerConfig
  interval_trigger_config : ℤ → TriggerConfig

-- `config.model_dump()`
abbrev pub model_dump : TriggerConfig → Dict
model_dump (once_trigger_config run_at) = ("run_at", text run_at) ∷ []
model_dump (cron_trigger_config expression timezone) =
    ("expression", text expression) ∷ ("timezone", text timezone) ∷ []
model_dump (interval_trigger_config seconds) = ("seconds", number seconds) ∷ []

-- `TaskResponse`
pub record TaskResponse : Type 0 where
  pub id : String
  pub user_id : String
  pub webhook_url : String
  pub parameters : List (String × String)
  pub trigger_type : String
  pub trigger_config : Dict
  pub next_run_at : Option Datetime
  pub is_active : Bool
  pub created_at : Datetime
  pub updated_at : Datetime

-- `TaskListResponse`
pub record TaskListResponse : Type 0 where
  pub items : List TaskResponse
  pub total : ℕ
  pub limit : ℕ
  pub offset : ℕ

-- `TaskRunResponse`
pub record TaskRunResponse : Type 0 where
  pub task_id : String
  pub execution_source : ExecutionSource
  pub webhook_url : String
  pub http_status : Option ℕ
  pub error_message : Option String
  pub success : Bool

-- `TaskScheduleQuery`
pub record TaskScheduleQuery : Type 0 where
  pub count : ℕ

-- `TaskScheduleResponse`
pub record TaskScheduleResponse : Type 0 where
  pub trigger_type : String
  pub is_active : Bool
  pub next_run_at : Option Datetime
  pub upcoming : List Datetime
