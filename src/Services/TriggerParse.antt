-- ===== src/Services/TriggerParse.antt =====
-- app/services/trigger_parse.py: the parsing of a model's answer, the calls of the model and the
-- retries. The model, JSON, pydantic's reading of a dict and the cron validator are an interface; what
-- is logged is left out, but not an exception of the code that logs.
pub mod Attempts
pub mod Failures
pub mod Reaching
use schedualerl_lm.Base.{
  ℕ, zero, suc, String, Bool, true, false, not, Option, none, some, List, [], ◌∷◌, ◌++◌, ◌==◌, ◌<>◌,
  if◌then◌else◌,
}
use schedualerl_lm.Python.Datetime.{Datetime}
use schedualerl_lm.Python.Platform.{Platform}
use schedualerl_lm.Python.Result.{
  Exn, Result, ok, err, trigger_parse_error, value_error, validation_error, other, ◌>>=◌, ◌>>◌,
}
use schedualerl_lm.Scheduler.Triggers.{Triggers, compute_next_run_at}
use schedualerl_lm.Schemas.Tasks.{
  StructuredTriggerSpec, once_trigger, cron_trigger_spec, interval_trigger_spec,
}
use schedualerl_lm.Schemas.TriggerParse.{
  TriggerParseLlmOutput, validate_type_fields, trigger_spec_from_llm_output,
}

pub record Message : Type 0 where
  pub role : String
  pub content : String

-- The three values of `response_format`.
pub data ResponseFormat : Type 0 where
  json_schema json_object no_format : ResponseFormat

pub record LanguageModel : Type 1 where
  -- the content of the answer to the call of that number, counted from 0 in each request: the model
  -- of another request may be another
  pub completion : ℕ → List Message → ResponseFormat → Result (Option String)
  pub Json : Type 0
  pub loads : String → Result Json
  pub is_object : Json → Bool
  -- the fields of `TriggerParseLLMOutput`, before its own validator
  pub read_fields : Json → Result TriggerParseLlmOutput
  -- whether `CronValidator.parse` gives something; it may raise
  pub cron_parses : String → Result Bool
  pub strip : String → String
  pub show_exception : Exn → String
  pub repr : String → String

abbrev pub is_value_error : Exn → Bool
is_value_error (value_error _) = true
is_value_error _ = false

-- What `except (ValueError, ValidationError)` catches.
abbrev pub is_invalid_spec : Exn → Bool
is_invalid_spec (value_error _) = true
is_invalid_spec (validation_error _) = true
is_invalid_spec _ = false

module _ (p : Platform) (api : Triggers) (lm : LanguageModel) (now : Datetime) where
  -- `is_valid_cron_expression` of app/validation/cron.py
  abbrev pub valid_or_raised : Result Bool → Result Bool
  valid_or_raised (ok b) = ok b
  valid_or_raised (err e) = if is_value_error e then ok false else err e

  unfoldable pub is_valid_cron_expression : String → Result Bool
  is_valid_cron_expression expression = valid_or_raised (lm.cron_parses expression)

  -- `_log_failed_parse`: `data.get` raises for JSON that is no object.
  abbrev pub log_failed_parse : String → Result (Unit {0})
  log_failed_parse raw = elim (lm.loads raw) [
    | err e ↦ ok tt
    | ok parsed ↦ if lm.is_object parsed then ok tt else err (other "AttributeError")
  ]

  abbrev pub rejected : {A : Type 0} → String → String → Result A
  rejected raw message = log_failed_parse raw >> err (trigger_parse_error message)

  abbrev pub checked_cron : String → StructuredTriggerSpec → Result (Unit {0})
  checked_cron raw (cron_trigger_spec expression tz) =
      is_valid_cron_expression expression >>= λ valid.
      if valid then ok tt else rejected raw ("Invalid cron expression: " <> lm.repr expression)
  checked_cron raw _ = ok tt

  abbrev pub schedulable : String → StructuredTriggerSpec → Result StructuredTriggerSpec
  schedulable raw spec = elim (compute_next_run_at p api now spec) [
    | err e ↦ rejected raw ("Trigger cannot be scheduled: " <> lm.show_exception e)
    | ok next ↦ ok spec
  ]

  abbrev pub valid_output : String → lm.Json → Result TriggerParseLlmOutput
  valid_output raw parsed = elim (lm.read_fields parsed >>= validate_type_fields) [
    | err e ↦ rejected raw ("Invalid trigger parse output: " <> lm.show_exception e)
    | ok output ↦ ok output
  ]

  abbrev pub valid_spec : String → Result StructuredTriggerSpec → Result StructuredTriggerSpec
  valid_spec raw (ok spec) = ok spec
  valid_spec raw (err e) =
      if is_invalid_spec e
      then rejected raw ("Invalid trigger spec: " <> lm.show_exception e)
      else err e

  -- `_parse_trigger_json`
  unfoldable pub parse_trigger_json : String → String → Result StructuredTriggerSpec
  parse_trigger_json raw timezone = elim (lm.loads raw) [
    | err e ↦ err (trigger_parse_error ("Invalid JSON: " <> lm.show_exception e))
    | ok parsed ↦ do
      output ← valid_output raw parsed
      spec ← valid_spec raw (trigger_spec_from_llm_output p output timezone)
      checked_cron raw spec
      schedulable raw spec
  ]

  -- `_extract_content`
  abbrev pub extract_content : Option String → Result String
  extract_content none = err (trigger_parse_error "LLM returned empty response")
  extract_content (some content) =
      if content == ""
      then err (trigger_parse_error "LLM returned empty response")
      else ok (lm.strip content)

  -- The loop of `_call_llm`, from the call of number `n` on; it says how many calls there were by then.
  unfoldable pub try_formats : List ResponseFormat → List Message → Exn → ℕ → Result String × ℕ
  try_formats [] messages last n =
      (err (trigger_parse_error ("LLM request failed: " <> lm.show_exception last)), n)
  try_formats (format ∷ formats) messages last n = elim (lm.completion n messages format) [
    | err e ↦ try_formats formats messages e (suc n)
    | ok content ↦ (extract_content content, suc n)
  ]

  -- `_call_llm`; the initial `None` of `last_exc` is never shown.
  unfoldable pub call_llm : List Message → ℕ → Result String × ℕ
  unfolding try_formats
  call_llm messages n =
      try_formats (json_schema ∷ json_object ∷ no_format ∷ []) messages (other "None") n

  -- `_parse_once`
  unfoldable pub parse_once : String → List Message → ℕ → Result StructuredTriggerSpec × ℕ
  parse_once timezone messages n =
      let (raw, n') = call_llm messages n in
      ((raw >>= λ text. parse_trigger_json text timezone), n')

  -- The message that `_before_sleep` appends.
  abbrev pub correction : String → Message
  correction exc = record {
    role = "user";
    content = "Your previous response was invalid: " <> (exc <> ". Return corrected JSON only.");
  }

  -- `retry_if_exception_type(TriggerParseError)`
  abbrev pub retried :
      Result StructuredTriggerSpec × ℕ
      → (String → ℕ → Result StructuredTriggerSpec × ℕ)
      → Result StructuredTriggerSpec × ℕ
  retried (err (trigger_parse_error message), n) again = again message n
  retried (r, n) again = (r, n)

  -- The decorated `_parse_once`, with that many retries left.
  unfoldable pub attempts : ℕ → String → List Message → ℕ → Result StructuredTriggerSpec × ℕ
  attempts zero timezone messages n = parse_once timezone messages n
  attempts (suc retries) timezone messages n =
      retried (parse_once timezone messages n)
        (λ message n'. attempts retries timezone (messages ++ correction message ∷ []) n')
