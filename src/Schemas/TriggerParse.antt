-- ===== src/Schemas/TriggerParse.antt =====
-- app/schemas/trigger_parse.py: the answer of the language model, its validation, and the
-- specification that it stands for.
pub mod Validation
use Prim.Native.String.{count}
use schedualerl_lm.Base.{
  leb, ℕ, String, Bool, true, false, ◌||◌, ◌&&◌, not, Option, none, some, ◌==◌, is_some,
  if◌then◌else◌,
}
use schedualerl_lm.Base.Int.{ℤ, is_positive, mul_ℕ}
use schedualerl_lm.Enums.{TriggerType, once, cron, interval}
use schedualerl_lm.Python.Platform.{Platform}
use schedualerl_lm.Python.Datetime.{Datetime, Zones}
use schedualerl_lm.Python.Result.{
  Result, ok, err, assertion_error, value_error, validation_error, ◌>>=◌,
}
use schedualerl_lm.Schemas.Tasks.{
  StructuredTriggerSpec, once_trigger, new_cron_trigger_spec, new_interval_trigger_spec,
  TriggerConfig, validate_timezone,
}

-- `IntervalUnit`
pub data IntervalUnit : Type 0 where
  seconds minutes hours days weeks : IntervalUnit

-- `INTERVAL_UNIT_SECONDS`
abbrev pub interval_unit_seconds : IntervalUnit → ℕ
interval_unit_seconds seconds = 1
interval_unit_seconds minutes = 60
interval_unit_seconds hours = 3600
interval_unit_seconds days = 86400
interval_unit_seconds weeks = 604800

-- `TriggerParseLLMOutput`; a `type` is a member of `TriggerType`.
pub record TriggerParseLlmOutput : Type 0 where
  pub thought : String
  pub kind : TriggerType
  pub cron_expr : Option String
  pub interval_value : Option ℤ
  pub interval_unit : Option IntervalUnit
  pub once_datetime : Option String

-- `not text`, of a text that may be `None`
abbrev pub is_blank : Option String → Bool
is_blank none = true
is_blank (some s) = s == ""

abbrev pub is_positive_value : Option ℤ → Bool
is_positive_value none = false
is_positive_value (some n) = is_positive n

-- `validate_type_fields`
unfoldable pub validate_type_fields : TriggerParseLlmOutput → Result TriggerParseLlmOutput
validate_type_fields output = elim output.kind [
  | cron ↦
      if is_blank output.cron_expr
      then err (value_error "cron_expr is required for cron triggers")
      else if is_some output.interval_value
          || is_some output.interval_unit
          || is_some output.once_datetime
      then err (value_error "only cron_expr should be set for cron triggers")
      else ok output
  | interval ↦
      if not (is_some output.interval_value) || not (is_some output.interval_unit)
      then err (value_error "interval_value and interval_unit are required for interval triggers")
      else if not (is_positive_value output.interval_value)
      then err (value_error "interval_value must be positive")
      else if is_some output.cron_expr || is_some output.once_datetime
      then err
          (value_error "only interval_value and interval_unit should be set for interval triggers")
      else ok output
  | once ↦
      if is_blank output.once_datetime
      then err (value_error "once_datetime is required for once triggers")
      else if is_some output.cron_expr
          || is_some output.interval_value
          || is_some output.interval_unit
      then err (value_error "only once_datetime should be set for once triggers")
      else ok output
]

module _ (p : Platform) where
  abbrev pub cron_from_output : Option String → String → Result StructuredTriggerSpec
  cron_from_output none timezone = err assertion_error
  cron_from_output (some expression) timezone = new_cron_trigger_spec p.zones expression timezone

  abbrev pub interval_from_output : Option ℤ → Option IntervalUnit → Result StructuredTriggerSpec
  interval_from_output (some n) (some unit) =
      new_interval_trigger_spec (mul_ℕ n (interval_unit_seconds unit))
  interval_from_output _ _ = err assertion_error

  abbrev pub once_from_output : Option String → Result StructuredTriggerSpec
  once_from_output none = err assertion_error
  once_from_output (some s) = elim (p.fromisoformat s) [
    | none ↦ err (value_error "Invalid isoformat string")
    | some d ↦ ok (once_trigger d)
  ]

  -- `trigger_spec_from_llm_output`
  unfoldable pub trigger_spec_from_llm_output :
      TriggerParseLlmOutput → String → Result StructuredTriggerSpec
  unfolding new_cron_trigger_spec new_interval_trigger_spec
  trigger_spec_from_llm_output output timezone = elim output.kind [
    | cron ↦ cron_from_output output.cron_expr timezone
    | interval ↦ interval_from_output output.interval_value output.interval_unit
    | once ↦ once_from_output output.once_datetime
  ]

-- `TriggerParseRequest`
pub record TriggerParseRequest : Type 0 where
  pub text : String
  pub timezone : String

-- `TriggerParseRequest(text=…, timezone=…)`, with `min_length=1, max_length=2000`
unfoldable pub new_trigger_parse_request : Zones → String → String → Result TriggerParseRequest
new_trigger_parse_request zones phrase timezone = do
  tz ← validate_timezone zones timezone
  (if leb 1 (count phrase) && leb (count phrase) 2000
      then ok (record { text = phrase; timezone = tz })
      else err (validation_error "String should have 1 to 2000 characters"))

-- `TriggerParseResponse`
pub record TriggerParseResponse : Type 0 where
  pub trigger_type : TriggerType
  pub trigger_config : TriggerConfig
  pub next_run_at : Option Datetime
