-- ===== src/Services/TextParsing.antt =====
-- `parse_trigger_text_to_spec` and `parse_trigger_text` of app/services/trigger_parse.py: a text is
-- tried as a relative schedule first, and given to the language model if it is none.
pub mod Results
use schedualerl_lm.Base.{ℕ, String, Option, none, some, [], ◌∷◌, ◌<>◌, if◌then◌else◌}
use schedualerl_lm.Base.Int.{ℤ, pos, negsuc}
use schedualerl_lm.Config.{LlmSettings}
use schedualerl_lm.Parsing.RelativeSchedule.{try_parse_once_schedule}
use schedualerl_lm.Prompts.Loader.{PromptFiles, load_prompt, render_trigger_parse_prompt}
use schedualerl_lm.Python.Datetime.{Datetime}
use schedualerl_lm.Python.Platform.{Platform}
use schedualerl_lm.Python.Result.{
  Result, ok, err, key_error, prompt_load_error, trigger_parse_error, ◌>>=◌,
}
use schedualerl_lm.Python.Timedelta.{astimezone}
use schedualerl_lm.Python.Unicode.{Unicode, codes}
use schedualerl_lm.Scheduler.Triggers.{Triggers, compute_next_run_at, trigger_config_from_spec}
use schedualerl_lm.Schemas.Tasks.{StructuredTriggerSpec, spec_type}
use schedualerl_lm.Schemas.TriggerParse.{TriggerParseResponse}
use schedualerl_lm.Services.TriggerParse.{LanguageModel, Message, attempts}

-- What the parsing uses of its surroundings.
pub record Parser : Type 1 where
  pub platform : Platform
  pub unicode : Unicode
  pub files : PromptFiles
  pub triggers : Triggers
  pub model : LanguageModel
  pub settings : LlmSettings

-- The attempts after the first, of `max_retries + 1`: there is one attempt at least.
abbrev pub retries_of : ℤ → ℕ
retries_of (pos n) = n
retries_of (negsuc n) = 0

-- `except PromptLoadError`
abbrev pub or_parse_error : Result String → Result String
or_parse_error (err (prompt_load_error message)) = err (trigger_parse_error message)
or_parse_error r = r

-- The reading of the clock, which gives the instant `clock`, is the same throughout.
module _ (parser : Parser) (clock : Datetime) where
  open parser use {platform, unicode, files, triggers, model, settings}

  -- `datetime.now(ZoneInfo(timezone))`
  unfoldable pub now_in : String → Result Datetime
  unfolding astimezone
  now_in timezone =
      if platform.zones.known timezone
      then ok (astimezone platform.zones clock timezone)
      else err (key_error timezone)

  -- A relative schedule, unless its next run time cannot be computed.
  abbrev pub schedulable_once : StructuredTriggerSpec → Result StructuredTriggerSpec
  schedulable_once spec = elim (compute_next_run_at platform triggers clock spec) [
    | err e ↦ err (trigger_parse_error ("Trigger cannot be scheduled: " <> model.show_exception e))
    | ok next ↦ ok spec
  ]

  -- The prompt with its placeholders filled in.
  abbrev pub system_prompt : Datetime → String → Result String
  system_prompt now timezone = do
    template ← load_prompt unicode files settings.trigger_parse_prompt_path
    render_trigger_parse_prompt platform files template now timezone

  -- From the prompt on; the calls of the model are numbered within one request, from 0.
  unfoldable pub ask_model : String → Datetime → String → Result StructuredTriggerSpec
  unfolding load_prompt render_trigger_parse_prompt attempts
  ask_model phrase now timezone = do
    prompt ← or_parse_error (system_prompt now timezone)
    (attempts platform triggers model clock (retries_of settings.max_retries) timezone
        (record { role = "system"; content = prompt }
          ∷ record { role = "user"; content = phrase }
          ∷ [])
        0).0

  -- What becomes of a relative schedule, or of a text that is none.
  abbrev pub once_or_model :
      String → Datetime → String → Option StructuredTriggerSpec → Result StructuredTriggerSpec
  once_or_model phrase now timezone (some spec) = schedulable_once spec
  once_or_model phrase now timezone none = ask_model phrase now timezone

  -- `parse_trigger_text_to_spec`
  unfoldable pub parse_trigger_text_to_spec : String → String → Result StructuredTriggerSpec
  unfolding now_in ask_model
  parse_trigger_text_to_spec phrase timezone = do
    now ← now_in timezone
    once_spec ← try_parse_once_schedule unicode platform.zones (codes phrase) now timezone
    once_or_model phrase now timezone once_spec

  -- `parse_trigger_text`
  unfoldable pub parse_trigger_text : String → String → Result TriggerParseResponse
  unfolding parse_trigger_text_to_spec
  parse_trigger_text phrase timezone = do
    spec ← parse_trigger_text_to_spec phrase timezone
    next ← compute_next_run_at platform triggers clock spec
    ok (record {
      trigger_type = spec_type spec;
      trigger_config = trigger_config_from_spec platform spec;
      next_run_at = next;
    })
