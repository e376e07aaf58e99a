-- ===== src/Tests/Texts.antt =====
-- The theorems on the parsing of texts as a whole, with the stand-in for the language model.
use schedualerl_lm.Base.{ℕ, refl, ◌≡◌, ◌≤◌, ◌+◌, none, some, [], ◌∷◌}
use schedualerl_lm.Base.Int.{pos}
use schedualerl_lm.Config.{default_llm}
use schedualerl_lm.Parsing.RelativeSchedule.{
  try_parse_once_schedule, on_weekday, text_entry, weekday_names, parse_time_of_day, parse_at_time,
  int_of,
}
use schedualerl_lm.Parsing.RelativeSchedule.Ahead.{
  IsAhead, try_parse_once_schedule-IsAhead, on_weekday_lem, day_of,
}
use schedualerl_lm.Prompts.Loader.{PromptFiles, contents, load_prompt, render_trigger_parse_prompt}
use schedualerl_lm.Python.Datetime.{Datetime, iana, weekday, replace_time}
use schedualerl_lm.Python.Regex.{Place, re_search}
use schedualerl_lm.Python.Result.{ok}
use schedualerl_lm.Python.Strings.{strip}
use schedualerl_lm.Python.Timedelta.{plus, localize}
use schedualerl_lm.Python.Unicode.{ascii, codes}
use schedualerl_lm.Routes.TriggerParse.{parse_trigger}
use schedualerl_lm.Routes.TriggerParse.Preview.{
  StoresResponse, Completion, asking, serve-create-previewed,
}
use schedualerl_lm.Scheduler.Triggers.{compute_next_run_at, trigger_config_from_spec}
use schedualerl_lm.Schemas.Tasks.{
  once_trigger, TaskCreate, text_trigger_spec, interval_trigger_config, interval_trigger_spec,
  new_interval_trigger_spec,
}
use schedualerl_lm.Schemas.TriggerParse.{
  TriggerParseRequest, TriggerParseResponse, validate_type_fields, trigger_spec_from_llm_output,
}
use schedualerl_lm.Services.TextParsing.{Parser, parse_trigger_text_to_spec}
use schedualerl_lm.Services.TextParsing.Results.{parse_trigger_text_to_spec-IsSchedulable}
use schedualerl_lm.Services.TriggerParse.{
  attempts, parse_once, call_llm, try_formats, parse_trigger_json,
}
use schedualerl_lm.Services.TriggerParse.Attempts.{IsSchedulable}
use schedualerl_lm.Enums.{interval}
use schedualerl_lm.Tests.{app, inputs, tables, platform, listed_triggers, clock}
use schedualerl_lm.Tests.Parsing.{model}
use schedualerl_lm.Tests.Phrases.{all_zones, frozen_time}

abbrev pub parser : Parser
parser = record {
  platform = platform;
  unicode = ascii;
  files = record {
    read_text = λ path. contents "Today is [INJECT_CURRENT_DATE] in [INJECT_DEFAULT_TIMEZONE]\n";
    date_isoformat = λ n. "2025-12-01";
  };
  triggers = listed_triggers;
  model = model;
  settings = default_llm;
}

abbrev pub prompt_files : PromptFiles
prompt_files = parser.files

prompt_loaded :
    load_prompt ascii prompt_files "trigger_parse.txt"
    ≡ ok "Today is [INJECT_CURRENT_DATE] in [INJECT_DEFAULT_TIMEZONE]"
unfolding load_prompt strip
prompt_loaded = refl

prompt_rendered :
    render_trigger_parse_prompt platform prompt_files
      "Today is [INJECT_CURRENT_DATE] in [INJECT_DEFAULT_TIMEZONE]" clock "Europe/Berlin"
    ≡ ok "Today is 2025-12-01 in Europe/Berlin"
unfolding render_trigger_parse_prompt plus replace_time weekday
prompt_rendered = refl

try_parse_once_schedule-IsAhead_example :
    (from : Datetime) × (run_at : Datetime) × (localize all_zones frozen_time "UTC" ≡ ok from)
    × (once_trigger (record { wall = 63915210000000000; tzinfo = some (iana "UTC") })
        ≡ once_trigger run_at)
    × IsAhead from run_at
unfolding try_parse_once_schedule re_search plus int_of
try_parse_once_schedule-IsAhead_example =
    try_parse_once_schedule-IsAhead ascii all_zones (codes "in one hour") frozen_time "UTC"
      (once_trigger (record { wall = 63915210000000000; tzinfo = some (iana "UTC") })) refl

abbrev friday : Place
friday = record { before = none; rest = []; groups = (1, codes "Friday") ∷ [] }

on_weekday_lem_example :
    (run_at : Datetime) × (target : ℕ) × (once_trigger
        (record { wall = 63915670800000000; tzinfo = some (iana "UTC") })
      ≡ once_trigger run_at)
    × IsAhead frozen_time run_at
    × (text_entry weekday_names (codes "friday") ≡ some target)
    × (weekday run_at ≡ target)
    × (day_of frozen_time + 1 ≤ day_of run_at)
    × (day_of run_at ≤ day_of frozen_time + 7)
unfolding on_weekday re_search plus parse_time_of_day parse_at_time weekday replace_time
on_weekday_lem_example =
    on_weekday_lem ascii all_zones (codes "next Friday at 5pm") frozen_time friday
      (once_trigger (record { wall = 63915670800000000; tzinfo = some (iana "UTC") })) refl

parse_trigger_text_to_spec-IsSchedulable_example :
    IsSchedulable platform listed_triggers model clock (interval_trigger_spec (pos 120))
unfolding parse_trigger_text_to_spec try_parse_once_schedule re_search strip plus replace_time
    weekday attempts parse_once call_llm try_formats parse_trigger_json validate_type_fields
    trigger_spec_from_llm_output new_interval_trigger_spec compute_next_run_at
parse_trigger_text_to_spec-IsSchedulable_example =
    parse_trigger_text_to_spec-IsSchedulable parser clock "every two minutes" "Europe/Berlin"
      (interval_trigger_spec (pos 120)) refl

abbrev asked : TriggerParseRequest
asked = record { text = "every two minutes"; timezone = "Europe/Berlin" }

abbrev berlin_now : Datetime
berlin_now = record { wall = 63900003600000000; tzinfo = some (iana "Europe/Berlin") }

abbrev text_body : TaskCreate
text_body = record {
  webhook_url = "https://b.test/hook";
  parameters = [];
  trigger = text_trigger_spec "every two minutes" "Europe/Berlin";
}

abbrev answered : TriggerParseResponse
answered = record {
  trigger_type = interval;
  trigger_config = interval_trigger_config (pos 120);
  next_run_at = some clock;
}

-- The same model, asked again.
abbrev again : Completion
again = model.completion

serve-create-previewed_example :
    StoresResponse app inputs "ann" (asking parser again) tables text_body answered
unfolding trigger_config_from_spec parse_trigger parse_trigger_text_to_spec try_parse_once_schedule
    re_search strip plus replace_time weekday attempts parse_once call_llm try_formats
    parse_trigger_json validate_type_fields trigger_spec_from_llm_output new_interval_trigger_spec
    compute_next_run_at
serve-create-previewed_example =
    serve-create-previewed app inputs "ann" parser again tables text_body asked answered
      (λ n messages form. refl) refl refl refl refl
