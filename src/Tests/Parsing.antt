-- ===== src/Tests/Parsing.antt =====
-- The theorems on the parsing of texts, with a small stand-in for the language model.
use schedualerl_lm.Base.{
  refl, ◌≡◌, ◌≤◌, ◌+◌, ◌*◌, String, true, none, some, [], ◌==◌, eqb, if◌then◌else◌,
}
use schedualerl_lm.Base.Int.{pos}
use schedualerl_lm.Enums.{interval}
use schedualerl_lm.Python.Result.{ok, err, other}
use schedualerl_lm.Schemas.TriggerParse.{
  TriggerParseLlmOutput, minutes, validate_type_fields, trigger_spec_from_llm_output,
}
use schedualerl_lm.Schemas.TriggerParse.Validation.{meant, trigger_spec_from_llm_output-validated}
use schedualerl_lm.Services.TriggerParse.{LanguageModel, attempts}
use schedualerl_lm.Services.TriggerParse.Attempts.{attempts-calls}
use schedualerl_lm.Tests.{platform, listed_triggers, clock}

abbrev every_two_minutes : TriggerParseLlmOutput
every_two_minutes = record {
  thought = "two minutes";
  kind = interval;
  cron_expr = none;
  interval_value = some (pos 2);
  interval_unit = some minutes;
  once_datetime = none;
}

-- Its first call fails, its second answers with something that is no JSON, and the rest are good.
abbrev pub model : LanguageModel
model = record {
  completion = λ n messages format.
      if eqb n 0
      then err (other "timeout")
      else if eqb n 1
      then ok (some "sorry")
      else ok (some "{}");
  Json = String;
  loads = λ s. if s == "{}" then ok s else err (other "JSONDecodeError");
  is_object = λ j. true;
  read_fields = λ j. ok every_two_minutes;
  cron_parses = λ expression. ok true;
  strip = λ s. s;
  show_exception = λ e. "an exception";
  repr = λ s. s;
}

trigger_spec_from_llm_output-validated_example :
    trigger_spec_from_llm_output platform every_two_minutes "UTC"
    ≡ meant platform every_two_minutes "UTC"
unfolding validate_type_fields
trigger_spec_from_llm_output-validated_example =
    trigger_spec_from_llm_output-validated platform every_two_minutes every_two_minutes "UTC" refl

attempts-calls_example : (attempts platform listed_triggers model clock 2 "UTC" [] 0).1 ≤ 0 + 3 * 3
attempts-calls_example = attempts-calls platform listed_triggers model clock 2 "UTC" [] 0
